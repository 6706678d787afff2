-- ===== src/Protocol/Udp/Canonical.antt =====
-- src/protocol/parser.rs: the datagrams that `parse_udp_packet` accepts, against those that
-- `serialize_udp_packet` writes.
use native.Mathlib.Numerals.{add-one}
use rust_socks.Prelude.{
  subst, inl, inr, none, Option-cases, All-drop, ℕ, suc, ◌+◌, ◌≡◌, List, [], ◌∷◌, ◌++◌, take, drop,
  get_elem?, some, arith, All, take-append-drop, length-take, drop-at, drop-get_elem?, take-all,
}
use rust_socks.Utils.{ok, panic, >>=-eq-ok}
use rust_socks.Protocol.Types.{Address, IsByte, UdpPacket, be_bytes}
use rust_socks.Protocol.Udp.{
  byte_at, slice, or_invalid, udp_address, udp_rest, udp_body, parse_udp_packet, udp_address_bytes,
  serialize_udp_packet,
}

udp_address-inv :
    (x y f t : ℕ) (r : List ℕ) (a : Address) (pos : ℕ)
    → All IsByte r
    → udp_address (x ∷ y ∷ f ∷ t ∷ r) t 4 ≡ ok (a, pos)
    → t ∷ r ≡ udp_address_bytes a ++ drop pos (x ∷ y ∷ f ∷ t ∷ r)
unfolding udp_address udp_address_bytes byte_at slice or_invalid
udp_address-inv x y f t [] a pos b h = ground arith
udp_address-inv x y f t (l ∷ r) a pos b h = ground (
  arith,
  drop-at (x ∷ y ∷ f ∷ t ∷ l ∷ []) r (5 + l) l,
  take-append-drop l r,
  length-take l r,
  take-append-drop 16 (l ∷ r),
  take-all l (take l r),
)

byte_at-none : (buf : List ℕ) (i : ℕ) → get_elem? buf i ≡ none → byte_at buf i ≡ panic
unfolding byte_at
byte_at-none buf i e = ground arith

byte_at-some : (buf : List ℕ) (i b : ℕ) → get_elem? buf i ≡ some b → byte_at buf i ≡ ok b
unfolding byte_at
byte_at-some buf i b e = ground arith

udp_rest-inv :
    (buf : List ℕ) (frag : ℕ) (a : Address) (pos : ℕ) (p : UdpPacket)
    → All IsByte (drop pos buf)
    → udp_rest buf frag (a, pos) ≡ ok p
    → (p.header.frag ≡ frag)
      × (p.header.address ≡ a)
      × (drop pos buf ≡ be_bytes p.header.port ++ p.payload)
unfolding udp_rest
udp_rest-inv buf frag a pos p b h = elim (Option-cases (get_elem? buf pos)) [
  | inl e ↦ absurd (ground (arith, byte_at-none buf pos e))
  | inr (hi, e) ↦ elim (Option-cases (get_elem? buf (pos + 1))) [
    | inl e' ↦ absurd (ground (arith, byte_at-none buf (pos + 1) e'))
    | inr (lo, e') ↦
        let whole : drop pos buf ≡ hi ∷ lo ∷ drop (pos + 2) buf =
          (ground (
            arith,
            drop-get_elem? buf pos hi e,
            drop-get_elem? buf (suc pos) lo,
            add-one pos,
            add-one (suc pos),
          )) in
        let bytes : All IsByte (hi ∷ lo ∷ drop (pos + 2) buf) = subst (All IsByte) whole b in
        ground (arith, whole, byte_at-some buf pos hi e, byte_at-some buf (pos + 1) lo e')
  ]
]

udp_body-inv :
    (x y f t : ℕ) (r : List ℕ) (p : UdpPacket)
    → All IsByte (x ∷ y ∷ f ∷ t ∷ r)
    → udp_body (x ∷ y ∷ f ∷ t ∷ r) f t ≡ ok p
    → drop 2 (serialize_udp_packet p) ≡ f ∷ t ∷ r
unfolding udp_body serialize_udp_packet
udp_body-inv x y f t r p b h =
    let buf = x ∷ y ∷ f ∷ t ∷ r in
    let (part, located, rest) = >>=-eq-ok (udp_address buf t 4) (udp_rest buf f) h in
    finish part located rest
  where
    finish :
        (part : Address × ℕ)
        → udp_address (x ∷ y ∷ f ∷ t ∷ r) t 4 ≡ ok part
        → udp_rest (x ∷ y ∷ f ∷ t ∷ r) f part ≡ ok p
        → drop 2 (serialize_udp_packet p) ≡ f ∷ t ∷ r
    finish (a, pos) located rest = ground (
      arith,
      udp_address-inv x y f t r a pos b.1.1.1.1 located,
      udp_rest-inv (x ∷ y ∷ f ∷ t ∷ r) f a pos p (All-drop IsByte pos (x ∷ y ∷ f ∷ t ∷ r) b) rest,
    )

-- A datagram of bytes that parse_udp_packet accepts is, behind its two reserved bytes, the
-- serialised form of the packet that is returned.
pub parse_udp_packet-canonical :
    (buf : List ℕ) (p : UdpPacket)
    → All IsByte buf
    → parse_udp_packet buf ≡ ok p
    → drop 2 (serialize_udp_packet p) ≡ drop 2 buf
unfolding parse_udp_packet byte_at
parse_udp_packet-canonical (x ∷ y ∷ f ∷ t ∷ r) p b h = udp_body-inv x y f t r p b (ground arith)
parse_udp_packet-canonical buf p b h = ground arith
