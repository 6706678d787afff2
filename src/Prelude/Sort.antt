-- ===== src/Prelude/Sort.antt =====
-- Sorting by a test `leq`, which holds where the comparison does not answer `Greater`.
use mathlib.Core.Path.{◌≡◌, refl, ◌∙◌}
use mathlib.Core.Logic.{inl, inr, ∥∥₁_elim}
use mathlib.Core.Bool.{Bool, true, false, Bool-set}
use mathlib.Core.List.{List, [], ◌∷◌, Perm, Permᴰ}
use mathlib.Core.List.Perm
use native.Mathlib.Omega.{arith}
use rust_socks.Prelude.Tests.{if◌then◌else◌, Bool-cases}
use rust_socks.Prelude.Lists.{All, All-mono, any}

module _ {A : Type 0} (leq : A → A → Bool) where
  abbrev pub IsSorted : List A → Type 0
  IsSorted [] = Unit
  IsSorted (x ∷ xs) = All (λ y. leq x y ≡ true) xs × IsSorted xs

  insert_sorted : A → List A → List A
  insert_sorted x [] = x ∷ []
  insert_sorted x (y ∷ ys) = if leq x y then x ∷ y ∷ ys else y ∷ insert_sorted x ys

  -- `sort_by`: stable, so that its result is this one.
  unfoldable pub sort_by : List A → List A
  unfolding insert_sorted
  sort_by [] = []
  sort_by (x ∷ xs) = insert_sorted x (sort_by xs)

  insert_sorted-perm : (x : A) (ys : List A) → Perm (insert_sorted x ys) (x ∷ ys)
  unfolding insert_sorted
  insert_sorted-perm x [] = Perm.refl (x ∷ [])
  insert_sorted-perm x (y ∷ ys) = elim (Bool-cases (leq x y)) [
    | inl e ↦ rw e (Perm.refl (x ∷ y ∷ ys))
    | inr e ↦ rw e (Perm.trans (Perm.cons y (insert_sorted-perm x ys)) (Perm.swap x y ys))
  ]

  pub sort_by-perm : (xs : List A) → Perm (sort_by xs) xs
  unfolding sort_by
  sort_by-perm [] = Perm.refl []
  sort_by-perm (x ∷ xs) =
      Perm.trans (insert_sorted-perm x (sort_by xs)) (Perm.cons x (sort_by-perm xs))

  module _ (total : (x y : A) → leq x y ≡ false → leq y x ≡ true)
      (trans : (x y z : A) → leq x y ≡ true → leq y z ≡ true → leq x z ≡ true) where
    insert_sorted-All :
        (P : A → Type 0) (x : A) (ys : List A) → P x → All P ys → All P (insert_sorted x ys)
    unfolding insert_sorted
    insert_sorted-All P x [] p h = (p, tt)
    insert_sorted-All P x (y ∷ ys) p h = elim (Bool-cases (leq x y)) [
      | inl e ↦ rw e (p, h)
      | inr e ↦ rw e (h.0, insert_sorted-All P x ys p h.1)
    ]

    insert_sorted-IsSorted : (x : A) (ys : List A) → IsSorted ys → IsSorted (insert_sorted x ys)
    unfolding insert_sorted
    insert_sorted-IsSorted x [] h = (tt, tt)
    insert_sorted-IsSorted x (y ∷ ys) h = elim (Bool-cases (leq x y)) [
      | inl e ↦ rw e ((e, All-mono _ _ (λ z. trans x y z e) ys h.0), h)
      | inr e ↦ rw e (insert_sorted-All _ x ys (total x y e) h.0, insert_sorted-IsSorted x ys h.1)
    ]

    pub sort_by-IsSorted : (xs : List A) → IsSorted (sort_by xs)
    unfolding sort_by
    sort_by-IsSorted [] = tt
    sort_by-IsSorted (x ∷ xs) = insert_sorted-IsSorted x (sort_by xs) (sort_by-IsSorted xs)

-- `sort_unstable_by` promises a sorted permutation, and no order among equals.
pub record UnstableSort {A : Type 0} (leq : A → A → Bool) : Type 0 where
  pub sort : List A → List A
  pub sort-perm : (xs : List A) → Perm (sort xs) xs
  pub sort-IsSorted : (xs : List A) → IsSorted leq (sort xs)

module _ {A : Type 0} where
  any-permᴰ : (p : A → Bool) (xs ys : List A) → Permᴰ xs ys → any p xs ≡ any p ys
  any-permᴰ p xs ys (Permᴰ.nil) = refl
  any-permᴰ p xs ys (Permᴰ.cons {l₁ = l} {l₂ = l'} e r) = ground (arith, any-permᴰ p l l' r)
  any-permᴰ p xs ys (Permᴰ.swap e e') = ground arith
  any-permᴰ p xs ys (Permᴰ.trans {l₂ = zs} r r') = any-permᴰ p xs zs r ∙ any-permᴰ p zs ys r'

  -- Whether some element passes a test does not depend on the order.
  pub any-perm : (p : A → Bool) {xs ys : List A} → Perm xs ys → any p xs ≡ any p ys
  any-perm p {xs} {ys} r = ∥∥₁_elim r (Bool-set _ _) (any-permᴰ p xs ys)
