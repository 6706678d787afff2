-- ===== src/Acl/Ports/Texts.antt =====
-- src/acl/types.rs: the text of a port matcher, and what `PortMatcher::from_str` makes of it.
use rust_socks.Prelude.{
  ℕ, suc, zero, ◌≤◌, ◌<◌, ◌≡◌, ◌≢◌, refl, false, true, List, [], ◌∷◌, ◌++◌, map, length, All, arith,
  All-append, append-nil, append_assoc,
}
use mathlib.Core.List.{reverse, reverse-cons, reverse-reverse}
use rust_socks.Prelude.Text.{Text, contains, text_eq, codes}
use rust_socks.Utils.Result.{ok, collect, ok_or}
use rust_socks.Acl.Types.{PortMatcher, any_port, single, range, multiple, invalid_port_list}
use rust_socks.Acl.Ports.{
  parse_u16, space_at_start, space_at_end, trim_by, trim, split_from, split, parse_range,
  port_matcher_from_str,
}
use rust_socks.Acl.Ports.Decimal.{
  u16_text, IsDigit, u16_text-IsDigit, u16_text-ne-nil, parse_u16-u16_text,
}

join : ℕ → List Text → Text
join c [] = []
join c (s ∷ []) = s
join c (s ∷ t ∷ rest) = s ++ c ∷ join c (t ∷ rest)

-- The notation of the configuration files.
pub port_text : PortMatcher → Text
port_text any_port = codes "*"
port_text (single p) = u16_text p
port_text (range start end) = u16_text start ++ b'-' ∷ u16_text end
port_text (multiple ports) = join b',' (map u16_text ports)

-- Ports are sixteen bits wide, and a list names at least two of them.
abbrev pub IsPorts : PortMatcher → Type 0
IsPorts any_port = Unit {0}
IsPorts (single p) = p ≤ 65535
IsPorts (range start end) = (start ≤ 65535) × (end ≤ 65535)
IsPorts (multiple ports) = (2 ≤ length ports) × All (λ p. p ≤ 65535) ports

abbrev Without : ℕ → Text → Type 0
Without c = All (λ b. b ≢ c)

digits-Without : (c : ℕ) (s : Text) → (c < b'0') → All IsDigit s → Without c s
digits-Without c [] h d = tt
digits-Without c (b ∷ s) h d = ((λ e. absurd (omega arith)), digits-Without c s h d.1)

contains-Without : (c : ℕ) (s : Text) → Without c s → contains c s ≡ false
unfolding contains
contains-Without c [] h = refl
contains-Without c (b ∷ s) h = ground (arith, contains-Without c s h.1)

contains-middle : (c : ℕ) (s t : Text) → contains c (s ++ c ∷ t) ≡ true
unfolding contains
contains-middle c [] t = ground arith
contains-middle c (b ∷ s) t = ground (arith, contains-middle c s t)

split_from-last : (c : ℕ) (part s : Text) → Without c s → split_from c part s ≡ (part ++ s) ∷ []
unfolding split_from
split_from-last c part [] h = ground (arith, append-nil part)
split_from-last c part (b ∷ s) h =
    ground (arith, split_from-last c (part ++ b ∷ []) s h.1, append_assoc part (b ∷ []) s)

split_from-part :
    (c : ℕ) (part s t : Text)
    → Without c s
    → split_from c part (s ++ c ∷ t) ≡ (part ++ s) ∷ split_from c [] t
unfolding split_from
split_from-part c part [] t h = ground (arith, append-nil part)
split_from-part c part (b ∷ s) t h =
    ground (arith, split_from-part c (part ++ b ∷ []) s t h.1, append_assoc part (b ∷ []) s)

split-join :
    (c : ℕ) (s : Text) (rest : List Text)
    → All (Without c) (s ∷ rest)
    → split c (join c (s ∷ rest)) ≡ s ∷ rest
unfolding split join
split-join c s [] h = split_from-last c [] s h.0
split-join c s (t ∷ rest) h =
    ground (arith, split_from-part c [] s (join c (t ∷ rest)) h.0, split-join c t rest h.1)

-- Digits are no white space.
trim_by-digits : (width : Text → ℕ) (f : ℕ) (s : Text) → width s ≡ 0 → trim_by width f s ≡ s
unfolding trim_by
trim_by-digits width zero s h = refl
trim_by-digits width (suc f) s h = ground arith

space_at_start-digits : (s : Text) → All IsDigit s → space_at_start s ≡ 0
unfolding space_at_start
space_at_start-digits [] d = refl
space_at_start-digits (a ∷ []) d = ground arith
space_at_start-digits (a ∷ b ∷ []) d = ground arith
space_at_start-digits (a ∷ b ∷ c ∷ s) d = ground arith

space_at_end-digits : (s : Text) → All IsDigit s → space_at_end s ≡ 0
unfolding space_at_end
space_at_end-digits [] d = refl
space_at_end-digits (a ∷ []) d = space_at_start-digits (a ∷ []) d
space_at_end-digits (b ∷ a ∷ []) d = ground (
  arith,
  space_at_start-digits (b ∷ []) (d.0, tt),
  space_at_start-digits (a ∷ b ∷ []) (d.1.0, (d.0, tt)),
)
space_at_end-digits (c ∷ b ∷ a ∷ s) d = ground (
  arith,
  space_at_start-digits (c ∷ []) (d.0, tt),
  space_at_start-digits (b ∷ c ∷ []) (d.1.0, (d.0, tt)),
  space_at_start-digits (a ∷ b ∷ c ∷ []) (d.1.1.0, (d.1.0, (d.0, tt))),
)

All-reverse : (P : ℕ → Type 0) (s : Text) → All P s → All P (reverse s)
All-reverse P [] h = tt
All-reverse P (b ∷ s) h =
    rw (reverse-cons b s) (All-append P (reverse s) (b ∷ []) (All-reverse P s h.1) (h.0, tt))

trim-digits : (s : Text) → All IsDigit s → trim s ≡ s
unfolding trim
trim-digits s d =
    rw
      (
        trim_by-digits space_at_start (length s) s (space_at_start-digits s d),
        trim_by-digits space_at_end (length s) (reverse s)
            (space_at_end-digits (reverse s) (All-reverse IsDigit s d)),
      )
      (reverse-reverse s)

parse-list :
    (ports : List ℕ)
    → All (λ p. p ≤ 65535) ports
    → collect (λ p. ok_or (parse_u16 (trim p)) invalid_port_list) (map u16_text ports) ≡ ok ports
unfolding collect
parse-list [] h = refl
parse-list (p ∷ ports) h = ground (
  arith,
  trim-digits (u16_text p) (u16_text-IsDigit p),
  parse_u16-u16_text p h.0,
  parse-list ports h.1,
)

-- The text of a number is none of `*`, a range or a list.
digits-plain :
    (s : Text)
    → All IsDigit s
    → (text_eq s (codes "*") ≡ false) × (contains b'-' s ≡ false) × (contains b',' s ≡ false)
unfolding text_eq contains
digits-plain [] d = (refl, refl, refl)
digits-plain (b ∷ s) d = (
  ground arith,
  contains-Without b'-' (b ∷ s) (digits-Without b'-' (b ∷ s) (omega arith) d),
  contains-Without b',' (b ∷ s) (digits-Without b',' (b ∷ s) (omega arith) d),
)

-- A text that starts with a number is not `*`.
star-ne-digits : (s rest : Text) → All IsDigit s → s ≢ [] → text_eq (s ++ rest) (codes "*") ≡ false
unfolding text_eq
star-ne-digits [] rest d n = absurd (n refl)
star-ne-digits (b ∷ s) rest d n = ground arith

Without-join :
    (c e : ℕ) (parts : List Text) → e ≢ c → All (Without c) parts → Without c (join e parts)
unfolding join
Without-join c e [] n h = tt
Without-join c e (s ∷ []) n h = h.0
Without-join c e (s ∷ t ∷ rest) n h =
    All-append (λ b. b ≢ c) s (e ∷ join e (t ∷ rest)) h.0 (n, Without-join c e (t ∷ rest) n h.1)

numbers-Without : (c : ℕ) (ports : List ℕ) → c < b'0' → All (Without c) (map u16_text ports)
numbers-Without c [] h = tt
numbers-Without c (p ∷ ports) h =
    (digits-Without c (u16_text p) h (u16_text-IsDigit p), numbers-Without c ports h)

text-single : (p : ℕ) → p ≤ 65535 → port_matcher_from_str (u16_text p) ≡ ok (single p)
unfolding port_matcher_from_str
text-single p h =
    ground (arith, digits-plain (u16_text p) (u16_text-IsDigit p), parse_u16-u16_text p h)

text-range :
    (start end : ℕ)
    → start ≤ 65535
    → end ≤ 65535
    → port_matcher_from_str (u16_text start ++ b'-' ∷ u16_text end) ≡ ok (range start end)
unfolding port_matcher_from_str parse_range split
text-range start end h k =
    let a = u16_text start in
    let b = u16_text end in
    let plain = digits-Without b'-' in
    ground (
      arith,
      star-ne-digits a (b'-' ∷ b) (u16_text-IsDigit start) (u16_text-ne-nil start),
      contains-middle b'-' a b,
      split_from-part b'-' [] a b (plain a (omega arith) (u16_text-IsDigit start)),
      split_from-last b'-' [] b (plain b (omega arith) (u16_text-IsDigit end)),
      parse_u16-u16_text start h,
      parse_u16-u16_text end k,
    )

text-multiple :
    (p q : ℕ) (ports : List ℕ)
    → All (λ n. n ≤ 65535) (p ∷ q ∷ ports)
    → port_matcher_from_str (join b',' (map u16_text (p ∷ q ∷ ports)))
      ≡ ok (multiple (p ∷ q ∷ ports))
unfolding port_matcher_from_str join
text-multiple p q ports h =
    let texts = map u16_text (p ∷ q ∷ ports) in
    let rest = join b',' (map u16_text (q ∷ ports)) in
    ground (
      arith,
      star-ne-digits (u16_text p) (b',' ∷ rest) (u16_text-IsDigit p) (u16_text-ne-nil p),
      contains-Without b'-' (join b',' texts) (
          Without-join b'-' b',' texts (λ e. absurd (omega arith))
            (numbers-Without b'-' (p ∷ q ∷ ports) (omega arith))),
      contains-middle b',' (u16_text p) rest,
      split-join b',' (u16_text p) (map u16_text (q ∷ ports))
          (numbers-Without b',' (p ∷ q ∷ ports) (omega arith)),
      parse-list (p ∷ q ∷ ports) h,
    )

-- The text of a port matcher, with ports of sixteen bits and a list of two or more, parses to that
-- matcher.
pub port_matcher_from_str-port_text :
    (m : PortMatcher) → IsPorts m → port_matcher_from_str (port_text m) ≡ ok m
unfolding port_text port_matcher_from_str text_eq
port_matcher_from_str-port_text any_port h = refl
port_matcher_from_str-port_text (single p) h = text-single p h
port_matcher_from_str-port_text (range start end) h = text-range start end h.0 h.1
port_matcher_from_str-port_text (multiple []) h = absurd (omega arith)
port_matcher_from_str-port_text (multiple (p ∷ [])) h = absurd (omega arith)
port_matcher_from_str-port_text (multiple (p ∷ q ∷ ports)) h = text-multiple p q ports h.1
