-- ===== src/Protocol/Udp/RoundTrip.antt =====
-- src/protocol/parser.rs: what `parse_udp_packet` makes of what `serialize_udp_packet` writes.
use rust_socks.Prelude.{
  ◌≢◌, leb, ◌==◌, if◌then◌else◌, inl, inr, Bool-cases, false, ℕ, some, get_elem?, ◌+◌, ◌<◌, ◌≤◌,
  ◌≡◌, refl, List, [], ◌∷◌, ◌++◌, length, min, arith, length-append, take-at, drop-at, get_elem?-at,
  take-all,
}
use rust_socks.Utils.{ok, err, protocol, udp_fragmented, udp_too_short}
use rust_socks.Protocol.Types.{
  Address, ipv4, ipv6, domain, IsAddress, HasLengthByte, UdpPacket, be_bytes,
}
use rust_socks.Protocol.Udp.{
  byte_at, slice, or_invalid, udp_address, udp_rest, udp_body, parse_udp_packet, udp_address_bytes,
  serialize_udp_packet,
}

-- What the Rust types promise of a packet, with a domain that fits its length byte.
pub record IsPacket (p : UdpPacket) : Type 0 where
  pub address : IsAddress p.header.address
  pub fits : HasLengthByte p.header.address
  pub port : p.header.port < 65536

-- The rest of the parser, once the address is read and the position is that behind it.
udp_rest-parts :
    (pre : List ℕ) (a : Address) (port : ℕ) (payload : List ℕ) (pos : ℕ)
    → pos ≡ length pre
    → udp_rest (pre ++ (be_bytes port ++ payload)) 0 (a, pos)
      ≡ ok (record { header = record { frag = 0; address = a; port = port }; payload = payload })
unfolding udp_rest byte_at
udp_rest-parts pre a port payload pos e =
    let tail = be_bytes port ++ payload in
    ground (
      arith,
      length-append pre tail,
      get_elem?-at pre tail pos 0,
      get_elem?-at pre tail (pos + 1) 1,
      drop-at pre tail (pos + 2) 2,
    )

udp_address_code : Address → ℕ
udp_address_code (ipv4 _) = 1
udp_address_code (ipv6 _) = 4
udp_address_code (domain _) = 3

type_byte :
    (a : Address) (rest : List ℕ)
    → get_elem? (udp_address_bytes a ++ rest) 0 ≡ some (udp_address_code a)
unfolding udp_address_code udp_address_bytes
type_byte (ipv4 _) rest = refl
type_byte (ipv6 _) rest = refl
type_byte (domain _) rest = refl

udp_address-parts :
    (a : Address) (rest : List ℕ)
    → IsAddress a
    → HasLengthByte a
    → udp_address (0 ∷ 0 ∷ 0 ∷ (udp_address_bytes a ++ rest)) (udp_address_code a) 4
      ≡ ok (a, 3 + length (udp_address_bytes a))
unfolding udp_address_code udp_address udp_address_bytes byte_at slice or_invalid
udp_address-parts (ipv4 (a ∷ b ∷ c ∷ d ∷ [])) rest w h = ground arith
udp_address-parts (ipv4 octets) rest w h = absurd (omega arith)
udp_address-parts (ipv6 octets) rest w h =
    ground (arith, length-append octets rest, take-at octets rest 16)
udp_address-parts (domain name) rest w h =
    let whole : min (length name) 255 ≡ length name = omega arith in
    rw (whole, take-all (length name) name (omega arith))
      (ground (arith, length-append name rest, take-at name rest (length name)))

parse-parts :
    (a : Address) (port : ℕ) (payload : List ℕ)
    → IsAddress a
    → HasLengthByte a
    → let buf = 0 ∷ 0 ∷ 0 ∷ (udp_address_bytes a ++ (be_bytes port ++ payload)) in
      10 ≤ length buf
      → parse_udp_packet buf
        ≡ ok (record { header = record { frag = 0; address = a; port = port }; payload = payload })
unfolding parse_udp_packet byte_at udp_body
parse-parts a port payload w fits long =
    let tail = be_bytes port ++ payload in
    ground (
      arith,
      type_byte a tail,
      udp_address-parts a tail,
      udp_rest-parts (0 ∷ 0 ∷ 0 ∷ udp_address_bytes a) a port payload _ refl,
    )

parse-short :
    (buf : List ℕ)
    → leb 10 (length buf) ≡ false
    → parse_udp_packet buf ≡ err (protocol udp_too_short)
unfolding parse_udp_packet
parse-short buf h = ground arith

parse-fragment :
    (a : Address) (frag port : ℕ) (payload : List ℕ)
    → let buf = 0 ∷ 0 ∷ frag ∷ (udp_address_bytes a ++ (be_bytes port ++ payload)) in
      10 ≤ length buf → frag ≢ 0 → parse_udp_packet buf ≡ err (protocol udp_fragmented)
unfolding parse_udp_packet byte_at
parse-fragment a frag port payload long n = ground arith

-- What parsing makes of a packet that was serialised, on every branch, for a port of sixteen bits
-- and an address whose length fits its form: the packet itself, unless the datagram is shorter than
-- ten bytes or is a fragment, which are refused.
pub parse-serialize :
    (p : UdpPacket)
    → IsPacket p
    → parse_udp_packet (serialize_udp_packet p) ≡ (
        if leb 10 (length (serialize_udp_packet p))
        then (if p.header.frag == 0 then ok p else err (protocol udp_fragmented))
        else err (protocol udp_too_short))
unfolding serialize_udp_packet
parse-serialize p w =
    let buf = serialize_udp_packet p in
    let header = p.header in
    elim (Bool-cases (leb 10 (length buf))) [
      | inl long ↦ ground (
        arith,
        parse-parts header.address header.port p.payload w.address w.fits,
        parse-fragment header.address header.frag header.port p.payload,
      )
      | inr short ↦ rw short (parse-short buf short)
    ]
