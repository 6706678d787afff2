-- ===== src/Acl/Ports/Decimal.antt =====
-- The decimal text of a port: `u16::to_string` and what `parse::<u16>` makes of it.
use native.Mathlib.Nat.{pow-suc}
use rust_socks.Prelude.{
  ◌≢◌, ℕ, suc, zero, ◌+◌, ◌/◌, ◌%◌, ◌^◌, ◌≤◌, ◌<◌, ◌≡◌, refl, [], ◌∷◌, some, All, arith,
}
use rust_socks.Prelude.Text.{Text}
use rust_socks.Prelude.Decimal.{print_from}
use rust_socks.Acl.Ports.{parse_digits, parse_u16}

-- `u16::to_string`: a `u16` has at most five digits.
unfoldable pub u16_text : ℕ → Text
unfolding print_from
u16_text n = print_from 5 n []

abbrev pub IsDigit : ℕ → Type 0
IsDigit b = (b'0' ≤ b) × (b ≤ b'9')

print_from-IsDigit : (f n : ℕ) (tail : Text) → All IsDigit tail → All IsDigit (print_from f n tail)
unfolding print_from
print_from-IsDigit zero n tail h = h
print_from-IsDigit (suc f) n tail h =
    ground (
      arith,
      print_from-IsDigit f (n / 10) ((b'0' + n % 10) ∷ tail) ((omega arith, omega arith), h),
    )

parse-print_from :
    (f n : ℕ) (tail : Text)
    → n < 10 ^ f
    → n ≤ 65535
    → parse_digits 0 (print_from f n tail) ≡ parse_digits n tail
unfolding print_from parse_digits
parse-print_from zero n tail h l = ground arith
parse-print_from (suc f) n tail h l =
    let smaller : n / 10 < 10 ^ f = omega (arith, pow-suc 10 f) in
    ground (arith, parse-print_from f (n / 10) ((b'0' + n % 10) ∷ tail) smaller (omega arith))

parse_u16-digits :
    (s : Text) (n : ℕ) → All IsDigit s → s ≢ [] → parse_digits 0 s ≡ some n → parse_u16 s ≡ some n
unfolding parse_u16
parse_u16-digits [] n d e h = absurd (e refl)
parse_u16-digits (b ∷ s) n d e h = ground arith

print_from-ne-nil : (f n : ℕ) (tail : Text) → tail ≢ [] → print_from f n tail ≢ []
unfolding print_from
print_from-ne-nil zero n tail h = h
print_from-ne-nil (suc f) n tail h =
    ground (arith, print_from-ne-nil f (n / 10) ((b'0' + n % 10) ∷ tail) (λ e. cc))

pub u16_text-IsDigit : (n : ℕ) → All IsDigit (u16_text n)
unfolding u16_text
u16_text-IsDigit n = print_from-IsDigit 5 n [] tt

pub u16_text-ne-nil : (n : ℕ) → u16_text n ≢ []
unfolding u16_text
u16_text-ne-nil n = ground (arith, print_from-ne-nil 4 (n / 10) ((b'0' + n % 10) ∷ []) (λ e. cc))

-- A port is read back from its decimal text.
pub parse_u16-u16_text : (n : ℕ) → n ≤ 65535 → parse_u16 (u16_text n) ≡ some n
unfolding u16_text parse_digits
parse_u16-u16_text n h =
    parse_u16-digits (u16_text n) n (u16_text-IsDigit n) (u16_text-ne-nil n)
      (parse-print_from 5 n [] (omega arith) h)
