-- ===== src/Protocol/Udp.antt =====
-- src/protocol/parser.rs: the datagrams of UDP ASSOCIATE.
pub mod Safety
pub mod RoundTrip
pub mod Canonical
mod Tests
use rust_socks.Prelude.{
  ℕ, ◌+◌, Option, none, some, List, [], ◌∷◌, ◌++◌, length, get_elem?, take, drop, min, leb, ◌==◌,
  if◌then◌else◌,
}
use rust_socks.Prelude.Text.{Text, from_utf8}
use rust_socks.Utils.{
  Outcome, ok, err, panic, ◌>>=◌, ◌>>◌, require, protocol, unsupported_address_type, udp_too_short,
  udp_missing_frag, udp_fragmented, udp_missing_address_type, udp_invalid_ipv4, udp_invalid_domain,
  udp_invalid_domain_encoding, udp_invalid_ipv6, udp_invalid_port, udp_missing_payload,
}
use rust_socks.Protocol.Types.{Address, ipv4, ipv6, domain, UdpPacket, be_bytes, from_be_bytes}

-- `buf[i]`, which panics out of range
pub byte_at : List ℕ → ℕ → Outcome ℕ
byte_at buf i = elim (get_elem? buf i) [ none ↦ panic | some b ↦ ok b ]

-- `buf[a..a + n]`, which panics out of range
pub slice : List ℕ → ℕ → ℕ → Outcome (List ℕ)
slice buf a n = if leb (a + n) (length buf) then ok (take n (drop a buf)) else panic

or_invalid : Option Text → Outcome Text
or_invalid none = err (protocol udp_invalid_domain_encoding)
or_invalid (some name) = ok name

-- The address that starts at `pos`, and the position behind it.
udp_address : List ℕ → ℕ → ℕ → Outcome (Address × ℕ)
udp_address buf address_type pos =
    if address_type == 0x01
    then (do
      require (leb (pos + 4) (length buf)) (protocol udp_invalid_ipv4)
      a ← byte_at buf pos
      b ← byte_at buf (pos + 1)
      c ← byte_at buf (pos + 2)
      d ← byte_at buf (pos + 3)
      ok (ipv4 (a ∷ b ∷ c ∷ d ∷ []), pos + 4))
    else if address_type == 0x03
    then (do
      require (leb (pos + 1) (length buf)) (protocol udp_invalid_domain)
      domain_len ← byte_at buf pos
      require (leb (pos + 1 + domain_len) (length buf)) (protocol udp_invalid_domain)
      bytes ← slice buf (pos + 1) domain_len
      name ← or_invalid (from_utf8 bytes)
      ok (domain name, pos + 1 + domain_len))
    else if address_type == 0x04
    then (do
      require (leb (pos + 16) (length buf)) (protocol udp_invalid_ipv6)
      octets ← slice buf pos 16
      ok (ipv6 octets, pos + 16))
    else err (unsupported_address_type address_type)

-- The port and the payload behind the address.
udp_rest : List ℕ → ℕ → Address × ℕ → Outcome UdpPacket
udp_rest buf frag (address, pos) = do
  require (leb (pos + 2) (length buf)) (protocol udp_invalid_port)
  port_hi ← byte_at buf pos
  port_lo ← byte_at buf (pos + 1)
  require (leb (pos + 2) (length buf)) (protocol udp_missing_payload)
  ok (record {
    header = record { frag = frag; address = address; port = from_be_bytes port_hi port_lo };
    payload = drop (pos + 2) buf;
  })

udp_body : List ℕ → ℕ → ℕ → Outcome UdpPacket
udp_body buf frag address_type = do part ← udp_address buf address_type 4; udp_rest buf frag part

pub parse_udp_packet : List ℕ → Outcome UdpPacket
parse_udp_packet buf = do
  require (leb 10 (length buf)) (protocol udp_too_short)
  rsv_hi ← byte_at buf 0
  rsv_lo ← byte_at buf 1
  require (leb 3 (length buf)) (protocol udp_missing_frag)
  frag ← byte_at buf 2
  require (frag == 0) (protocol udp_fragmented)
  require (leb 4 (length buf)) (protocol udp_missing_address_type)
  address_type ← byte_at buf 3
  udp_body buf frag address_type

udp_address_bytes : Address → List ℕ
udp_address_bytes (ipv4 octets) = 0x01 ∷ octets
udp_address_bytes (ipv6 octets) = 0x04 ∷ octets
udp_address_bytes (domain name) =
    let domain_len = min (length name) 255 in 0x03 ∷ domain_len ∷ take domain_len name

pub serialize_udp_packet : UdpPacket → List ℕ
serialize_udp_packet packet =
    0x00
    ∷ 0x00
    ∷ packet.header.frag
    ∷ (udp_address_bytes packet.header.address ++ (be_bytes packet.header.port ++ packet.payload))
