-- ===== src/Utils/Result.antt =====
-- Rust's `Result` over an error type of the caller's choice.
use rust_socks.Prelude.{
  if◌then◌else◌, ◌≡◌, refl, ◌⊎◌, inl, inr, Option, none, some, List, [], ◌∷◌, Bool,
}

pub data Result {ℓ} (E : Type 0) (A : Type ℓ) : Type ℓ where
  ok : A → Result E A
  err : E → Result E A

-- The `?` operator.
infixl 5 ◌>>=◌
abbrev pub ◌>>=◌ {ℓ κ} :
    {E : Type 0} {S : Type ℓ} {T : Type κ} → Result E S → (S → Result E T) → Result E T
err failure >>= next = err failure
ok value >>= next = next value

-- A test that ends in an error when it does not hold.
abbrev pub require : {E : Type 0} → Bool → E → Result E (Unit {0})
require holds failure = if holds then ok tt else err failure

infixl 5 ◌>>◌
abbrev pub ◌>>◌ {κ} : {E : Type 0} {T : Type κ} → Result E (Unit {0}) → Result E T → Result E T
first >> next = first >>= λ done. next

-- `ok_or_else`
abbrev pub ok_or {ℓ} : {E : Type 0} {A : Type ℓ} → Option A → E → Result E A
ok_or none e = err e
ok_or (some a) e = ok a

-- `iter().map(f).collect::<Result<Vec<_>, _>>()`, which stops at the first error.
module _ {E : Type 0} {A B : Type 0} where
  unfoldable pub collect : (A → Result E B) → List A → Result E (List B)
  collect f [] = ok []
  collect f (x ∷ xs) = do y ← f x; ys ← collect f xs; ok (y ∷ ys)

-- The value on which the rest of a block that succeeds went on.
pub >>=-eq-ok {ℓ κ} :
    {E : Type 0} {S : Type ℓ} {T : Type κ} (first : Result E S) (next : S → Result E T) {t : T}
    → (first >>= next) ≡ ok t
    → (s : S) × (first ≡ ok s) × (next s ≡ ok t)
>>=-eq-ok (err failure) next h = cc
>>=-eq-ok (ok value) next h = (value, refl, h)

pub Result-cases {ℓ} :
    {E : Type 0} {A : Type ℓ} (m : Result E A) → ((a : A) × (m ≡ ok a)) ⊎ ((e : E) × (m ≡ err e))
Result-cases (ok a) = inl (a, refl)
Result-cases (err e) = inr (e, refl)
