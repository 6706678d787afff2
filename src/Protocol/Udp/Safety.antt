-- ===== src/Protocol/Udp/Safety.antt =====
-- src/protocol/parser.rs: the indices at which `parse_udp_packet` reads a datagram.
use rust_socks.Prelude.{
  ℕ, inl, inr, Bool-cases, leb, ◌+◌, ◌<◌, ◌≡◌, ◌≢◌, List, length, get_elem?-lt, arith,
}
use rust_socks.Utils.{ok, panic, >>=-ne-panic}
use rust_socks.Protocol.Types.{Address}
use rust_socks.Protocol.Udp.{
  byte_at, slice, or_invalid, udp_address, udp_rest, udp_body, parse_udp_packet,
}

byte_at-lt : (buf : List ℕ) (i : ℕ) → i < length buf → (b : ℕ) × (byte_at buf i ≡ ok b)
unfolding byte_at
byte_at-lt buf i h = ground (arith, get_elem?-lt buf i h)

udp_address-ne-panic :
    (buf : List ℕ) (address_type pos : ℕ) → udp_address buf address_type pos ≢ panic
unfolding udp_address slice or_invalid
udp_address-ne-panic buf t pos h = ground (
  arith,
  byte_at-lt buf pos,
  byte_at-lt buf (pos + 1),
  byte_at-lt buf (pos + 2),
  byte_at-lt buf (pos + 3),
)

udp_rest-ne-panic : (buf : List ℕ) (frag : ℕ) (part : Address × ℕ) → udp_rest buf frag part ≢ panic
unfolding udp_rest
udp_rest-ne-panic buf frag (a, pos) h = ground (arith, byte_at-lt buf pos, byte_at-lt buf (pos + 1))

udp_body-ne-panic : (buf : List ℕ) (frag address_type : ℕ) → udp_body buf frag address_type ≢ panic
unfolding udp_body
udp_body-ne-panic buf frag t =
    >>=-ne-panic (udp_address buf t 4) (udp_rest buf frag) (udp_address-ne-panic buf t 4)
      (udp_rest-ne-panic buf frag)

-- No datagram, of whatever length and content, makes `parse_udp_packet` index out of range.
pub parse_udp_packet-ne-panic : (buf : List ℕ) → parse_udp_packet buf ≢ panic
unfolding parse_udp_packet
parse_udp_packet-ne-panic buf h = elim (Bool-cases (leb 10 (length buf))) [
  | inl long ↦
      let (f, frag_read) = byte_at-lt buf 2 (ground arith) in
      let (t, type_read) = byte_at-lt buf 3 (ground arith) in
      ground (arith, byte_at-lt buf 0, byte_at-lt buf 1, udp_body-ne-panic buf f t)
  | inr short ↦ ground arith
]
