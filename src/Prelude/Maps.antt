-- ===== src/Prelude/Maps.antt =====
-- `HashMap` and `DashMap` as association lists, over any type of keys with a decided equality.
-- The order of the entries stands for the order in which an iterator would meet them.
use Prim.Native.Nat.{ℕ, suc}
use mathlib.Core.Path.{◌≡◌, refl, subst}
use mathlib.Core.Logic.{◌↔◌, ◌⊎◌, inl, inr}
use mathlib.Core.Bool.{Bool, true}
use mathlib.Core.List.{List, [], ◌∷◌}
use mathlib.Core.Option.{Option, none, some}
use native.Mathlib.Omega.{arith}
use rust_socks.Prelude.Tests.{if◌then◌else◌, ◌==◌, ==_iff, Bool-cases, by_branches}
use rust_socks.Prelude.Lists.{length}
use rust_socks.Prelude.Text.{Text, text_eq, text_eq_iff}

pub record Key (K : Type 0) : Type 0 where
  pub beq : K → K → Bool
  pub beq_iff : (a b : K) → (beq a b ≡ true) ↔ (a ≡ b)

instance abbrev pub text_key : Key Text
text_key = record { beq = text_eq; beq_iff = text_eq_iff }

instance abbrev pub nat_key : Key ℕ
nat_key = record { beq = ◌==◌; beq_iff = ==_iff }

module _ {K V : Type 0} ⦃k : Key K⦄ where
  unfoldable pub lookup : K → List (K × V) → Option V
  lookup a [] = none
  lookup a ((b, v) ∷ m) = if k.beq b a then some v else lookup a m

  unfoldable pub insert : K → V → List (K × V) → List (K × V)
  insert a v [] = (a, v) ∷ []
  insert a v ((b, w) ∷ m) = if k.beq b a then (b, v) ∷ m else (b, w) ∷ insert a v m

  unfoldable pub remove : K → List (K × V) → List (K × V)
  remove a [] = []
  remove a ((b, w) ∷ m) = if k.beq b a then m else (b, w) ∷ remove a m

  pub lookup-insert :
      (a c : K) (v : V) (m : List (K × V))
      → lookup c (insert a v m) ≡ (if k.beq a c then some v else lookup c m)
  unfolding lookup insert
  lookup-insert a c v [] = refl
  lookup-insert a c v ((b, w) ∷ m) =
      ground (arith, k.beq_iff a c, k.beq_iff b a, k.beq_iff b c, lookup-insert a c v m)

  -- No key stands twice in the map.
  abbrev pub DistinctKeys : List (K × V) → Type 0
  DistinctKeys [] = Unit
  DistinctKeys ((a, v) ∷ m) = (lookup a m ≡ none) × DistinctKeys m

  lookup-remove-none :
      (a other : K) (m : List (K × V)) → lookup a m ≡ none → lookup a (remove other m) ≡ none
  unfolding lookup remove
  lookup-remove-none a other [] h = refl
  lookup-remove-none a other ((b, v) ∷ m) h = ground (arith, lookup-remove-none a other m)

  pub DistinctKeys-insert :
      (addr : K) (v : V) (m : List (K × V)) → DistinctKeys m → DistinctKeys (insert addr v m)
  unfolding insert lookup
  DistinctKeys-insert addr v [] d = (refl, tt)
  DistinctKeys-insert addr v ((a, w) ∷ m) d = ground (
    arith,
    DistinctKeys-insert addr v m d.1,
    lookup-insert addr a v m,
    k.beq_iff addr a,
    k.beq_iff a addr,
  )

  pub DistinctKeys-remove :
      (addr : K) (m : List (K × V)) → DistinctKeys m → DistinctKeys (remove addr m)
  unfolding remove
  DistinctKeys-remove addr [] d = tt
  DistinctKeys-remove addr ((a, w) ∷ m) d =
      ground (arith, DistinctKeys-remove addr m d.1, lookup-remove-none a addr m)

  pub lookup-remove :
      (a c : K) (m : List (K × V))
      → DistinctKeys m
      → lookup c (remove a m) ≡ (if k.beq a c then none else lookup c m)
  unfolding lookup remove
  lookup-remove a c [] d = ground arith
  lookup-remove a c ((b, w) ∷ m) d =
      ground (arith, k.beq_iff a c, k.beq_iff b a, k.beq_iff b c, lookup-remove a c m d.1)

  -- A property of every value of a map.
  abbrev pub AllValues {κ} : (V → Type κ) → List (K × V) → Type κ
  AllValues P [] = Unit
  AllValues P ((a, v) ∷ m) = P v × AllValues P m

  pub AllValues-lookup {κ} :
      (P : V → Type κ) (a : K) {v : V} (m : List (K × V))
      → AllValues P m
      → lookup a m ≡ some v
      → P v
  unfolding lookup
  AllValues-lookup P a [] h e = cc
  AllValues-lookup P a {v} ((b, w) ∷ m) h e = elim (Bool-cases (k.beq b a)) [
    | inl same ↦ subst P (ground arith) h.0
    | inr other ↦ AllValues-lookup P a m h.1 (ground arith)
  ]

  pub AllValues-insert {κ} :
      (P : V → Type κ) (a : K) (v : V) (m : List (K × V))
      → AllValues P m
      → P v
      → AllValues P (insert a v m)
  unfolding insert
  AllValues-insert P a v [] h p = (p, tt)
  AllValues-insert P a v ((b, w) ∷ m) h p =
      by_branches (AllValues P) (k.beq b a) (p, h.1) (h.0, AllValues-insert P a v m h.1 p)

  -- What is found after an insertion was put in or was there.
  pub lookup-insert-cases :
      (a c : K) (v w : V) (m : List (K × V))
      → lookup c (insert a v m) ≡ some w
      → ((a ≡ c) × (v ≡ w)) ⊎ (lookup c m ≡ some w)
  lookup-insert-cases a c v w m e =
      let inserted = lookup-insert a c v m in
      elim (Bool-cases (k.beq a c)) [
        | inl same ↦ inl ((k.beq_iff a c).0 same, ground arith)
        | inr other ↦ inr (ground arith)
      ]

  pub lookup-remove-some :
      (a c : K) (w : V) (m : List (K × V))
      → DistinctKeys m
      → lookup c (remove a m) ≡ some w
      → lookup c m ≡ some w
  lookup-remove-some a c w m d e = ground (arith, lookup-remove a c m d)

  pub length-insert-none :
      (a : K) (v : V) (m : List (K × V))
      → lookup a m ≡ none
      → length (insert a v m) ≡ suc (length m)
  unfolding lookup insert
  length-insert-none a v [] e = refl
  length-insert-none a v ((b, w) ∷ m) e = ground (arith, length-insert-none a v m)

  pub length-insert-some :
      (a : K) (v w : V) (m : List (K × V)) → lookup a m ≡ some w → length (insert a v m) ≡ length m
  unfolding lookup insert
  length-insert-some a v w [] e = cc
  length-insert-some a v w ((b, u) ∷ m) e = ground (arith, length-insert-some a v w m)

  pub length-remove-some :
      (a : K) (w : V) (m : List (K × V))
      → lookup a m ≡ some w
      → suc (length (remove a m)) ≡ length m
  unfolding lookup remove
  length-remove-some a w [] e = cc
  length-remove-some a w ((b, u) ∷ m) e = ground (arith, length-remove-some a w m)
