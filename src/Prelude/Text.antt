-- ===== src/Prelude/Text.antt =====
-- Rust's `String` and `str` as their bytes, with the standard library's tests on them.
use Prim.Native.Nat.{ℕ, zero, suc, ◌+◌}
use Prim.Native.Char.{code}
use Prim.Native.String.{String}
use mathlib.Core.Path.{◌≡◌, refl, ap, ◌∙◌, sym}
use mathlib.Core.Logic.{◌↔◌}
use mathlib.Core.Bool.{Bool, true, false, ◌&&◌, ◌||◌}
use mathlib.Core.List.{List, [], ◌∷◌, map}
use mathlib.Core.Option.{Option, none, some}
use native.Mathlib.Omega.{arith}
use rust_socks.Prelude.Tests.{ltb, leb, ◌==◌, if◌then◌else◌}

abbrev pub Text : Type 0
Text = List ℕ

-- The bytes of a literal in ASCII.
abbrev pub codes : String → Text
codes String.[] = []
codes (String.◌∷◌ c s) = code c ∷ codes s

-- `==` on strings
unfoldable pub text_eq : Text → Text → Bool
text_eq [] [] = true
text_eq (a ∷ s) (b ∷ t) = a == b && text_eq s t
text_eq _ _ = false

pub text_eq_refl : (s : Text) → text_eq s s ≡ true
unfolding text_eq
text_eq_refl [] = refl
text_eq_refl (a ∷ s) = ground (arith, text_eq_refl s)

pub text_eq_sound : (s t : Text) → text_eq s t ≡ true → s ≡ t
unfolding text_eq
text_eq_sound [] [] h = refl
text_eq_sound [] (b ∷ t) h = cc
text_eq_sound (a ∷ s) [] h = cc
text_eq_sound (a ∷ s) (b ∷ t) h = ground (arith, text_eq_sound s t)

pub text_eq_iff : (s t : Text) → (text_eq s t ≡ true) ↔ (s ≡ t)
text_eq_iff s t = (text_eq_sound s t, λ e. ap (text_eq s) (sym e) ∙ text_eq_refl s)

-- `u8::to_ascii_lowercase`, `str::to_ascii_lowercase` and `str::eq_ignore_ascii_case`
abbrev pub ascii_lower : ℕ → ℕ
ascii_lower c = if leb b'A' c && leb c b'Z' then c + 32 else c

unfoldable pub to_ascii_lowercase : Text → Text
to_ascii_lowercase s = map ascii_lower s

unfoldable pub eq_ignore_ascii_case : Text → Text → Bool
eq_ignore_ascii_case s t = text_eq (to_ascii_lowercase s) (to_ascii_lowercase t)

-- `str::contains(char)`, for a character in ASCII
unfoldable pub contains : ℕ → Text → Bool
contains c [] = false
contains c (b ∷ s) = b == c || contains c s

-- The state of the decoder behind `String::from_utf8`: between two characters, or with `n + 1`
-- bytes of the present one to come, the next of which lies between two bounds.
pub data Utf8 : Type 0 where
  boundary : Utf8
  inside : ℕ → ℕ → ℕ → Utf8

abbrev within : ℕ → ℕ → ℕ → Bool
within lo hi b = leb lo b && leb b hi

-- The table of well-formed byte sequences of the Unicode standard.
first_byte : ℕ → Option Utf8
first_byte b =
    if ltb b 0x80
    then some boundary
    else if within 0xc2 0xdf b
    then some (inside 0 0x80 0xbf)
    else if b == 0xe0
    then some (inside 1 0xa0 0xbf)
    else if b == 0xed
    then some (inside 1 0x80 0x9f)
    else if within 0xe1 0xef b
    then some (inside 1 0x80 0xbf)
    else if b == 0xf0
    then some (inside 2 0x90 0xbf)
    else if within 0xf1 0xf3 b
    then some (inside 2 0x80 0xbf)
    else if b == 0xf4
    then some (inside 2 0x80 0x8f)
    else none

utf8_step : Utf8 → ℕ → Option Utf8
unfolding first_byte
utf8_step boundary b = first_byte b
utf8_step (inside zero lo hi) b = if within lo hi b then some boundary else none
utf8_step (inside (suc n) lo hi) b = if within lo hi b then some (inside n 0x80 0xbf) else none

utf8_from : Utf8 → Text → Bool
unfolding utf8_step
utf8_from boundary [] = true
utf8_from (inside n lo hi) [] = false
utf8_from st (b ∷ s) = elim (utf8_step st b) [ none ↦ false | some st' ↦ utf8_from st' s ]

unfoldable pub is_utf8 : Text → Bool
unfolding utf8_from
is_utf8 s = utf8_from boundary s

-- `String::from_utf8`
abbrev pub from_utf8 : Text → Option Text
from_utf8 s = if is_utf8 s then some s else none
