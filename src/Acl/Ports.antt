-- ===== src/Acl/Ports.antt =====
-- src/acl/types.rs and src/acl/matcher.rs: port patterns, their text and their meaning.
pub mod Decimal
pub mod Texts
mod Tests
use rust_socks.Prelude.{
  ℕ, suc, zero, ◌+◌, ◌-◌, ◌*◌, ◌&&◌, ◌||◌, Bool, true, List, [], ◌∷◌, ◌++◌, length, drop, any, leb,
  ltb, ◌==◌, if◌then◌else◌, Option, none, some,
}
use mathlib.Core.List.{reverse}
use rust_socks.Prelude.Text.{Text, contains, text_eq, codes}
use rust_socks.Utils.Result.{Result, ok, err, ◌>>=◌, ok_or, collect}
use rust_socks.Acl.Types.{
  AclError, invalid_port_range, invalid_start_port, invalid_end_port, invalid_port_list,
  invalid_port, PortMatcher, any_port, single, range, multiple,
}

abbrev is_digit : ℕ → Bool
is_digit b = leb b'0' b && leb b b'9'

-- The digits of `parse::<u16>`, with the check for overflow at each one.
parse_digits : ℕ → Text → Option ℕ
parse_digits n [] = some n
parse_digits n (b ∷ s) =
    if is_digit b && leb (n * 10 + (b - b'0')) 65535
    then parse_digits (n * 10 + (b - b'0')) s
    else none

non_empty_digits : Text → Option ℕ
non_empty_digits [] = none
non_empty_digits (b ∷ s) = parse_digits 0 (b ∷ s)

-- `parse::<u16>`: one leading `+` is accepted.
unfoldable pub parse_u16 : Text → Option ℕ
unfolding non_empty_digits parse_digits
parse_u16 [] = none
parse_u16 (b ∷ s) = if b == b'+' then non_empty_digits s else parse_digits 0 (b ∷ s)

-- The bytes of the white space character that a text starts with, 0 if it starts with another.
space_at_start : Text → ℕ
space_at_start [] = 0
space_at_start (a ∷ []) = if leb 9 a && leb a 13 || a == 32 then 1 else 0
space_at_start (a ∷ b ∷ []) =
    if leb 9 a && leb a 13 || a == 32
    then 1
    else if a == 0xc2 && (b == 0x85 || b == 0xa0)
    then 2
    else 0
space_at_start (a ∷ b ∷ c ∷ _) =
    if leb 9 a && leb a 13 || a == 32
    then 1
    else if a == 0xc2 && (b == 0x85 || b == 0xa0)
    then 2
    else if a == 0xe1 && b == 0x9a && c == 0x80
        || a == 0xe2
          && b == 0x80
          && (leb 0x80 c && leb c 0x8a || c == 0xa8 || c == 0xa9 || c == 0xaf)
        || a == 0xe2 && b == 0x81 && c == 0x9f
        || a == 0xe3 && b == 0x80 && c == 0x80
    then 3
    else 0

-- The same at the end, over the reversed text.
space_at_end : Text → ℕ
unfolding space_at_start
space_at_end [] = 0
space_at_end (a ∷ []) = space_at_start (a ∷ [])
space_at_end (b ∷ a ∷ []) =
    if space_at_start (b ∷ []) == 1 then 1 else if space_at_start (a ∷ b ∷ []) == 2 then 2 else 0
space_at_end (c ∷ b ∷ a ∷ _) =
    if space_at_start (c ∷ []) == 1
    then 1
    else if space_at_start (b ∷ c ∷ []) == 2
    then 2
    else if space_at_start (a ∷ b ∷ c ∷ []) == 3
    then 3
    else 0

-- Each round takes one character off, so as many rounds as there are bytes are enough.
trim_by : (Text → ℕ) → ℕ → Text → Text
trim_by width zero s = s
trim_by width (suc f) s = elim (width s) [ zero ↦ s | suc n ↦ trim_by width f (drop (suc n) s) ]

-- `str::trim`
pub trim : Text → Text
unfolding trim_by space_at_start space_at_end
trim s =
    let t = trim_by space_at_start (length s) s in
    reverse (trim_by space_at_end (length t) (reverse t))

-- `str::split(char)`, for a character in ASCII: never empty.
split_from : ℕ → Text → Text → List Text
split_from c part [] = part ∷ []
split_from c part (b ∷ s) =
    if b == c then part ∷ split_from c [] s else split_from c (part ++ b ∷ []) s

pub split : ℕ → Text → List Text
unfolding split_from
split c s = split_from c [] s

parse_range : Text → List Text → Result AclError PortMatcher
unfolding parse_u16
parse_range s (a ∷ b ∷ []) = do
  start ← ok_or (parse_u16 a) (invalid_start_port a)
  end ← ok_or (parse_u16 b) (invalid_end_port b)
  ok (range start end)
parse_range s _ = err (invalid_port_range s)

-- `PortMatcher::from_str`
unfoldable pub port_matcher_from_str : Text → Result AclError PortMatcher
unfolding parse_range trim split contains collect
port_matcher_from_str s =
    if text_eq s (codes "*")
    then ok any_port
    else if contains b'-' s
    then parse_range s (split b'-' s)
    else if contains b',' s
    then (do
      ports ← collect (λ p. ok_or (parse_u16 (trim p)) invalid_port_list) (split b',' s)
      ok (multiple ports))
    else (do port ← ok_or (parse_u16 s) invalid_port; ok (single port))

-- `CompiledPortMatcher::compile` keeps the matcher's four cases; `matches` gives them their meaning.
unfoldable pub port_matches : PortMatcher → ℕ → Bool
port_matches any_port port = true
port_matches (single p) port = port == p
port_matches (range start end) port = leb start port && leb port end
port_matches (multiple ports) port = any (λ p. port == p) ports
