-- ===== src/Protocol/Udp/Tests.antt =====
-- src/protocol/parser.rs: the theorems on UDP datagrams at concrete ones.
use rust_socks.Prelude.{ℕ, ◌≡◌, ◌≢◌, refl, List, [], ◌∷◌, drop, arith}
use rust_socks.Utils.{ok, panic}
use rust_socks.Protocol.Types.{ipv4, UdpPacket}
use rust_socks.Protocol.Udp.{
  byte_at, slice, or_invalid, udp_address, udp_rest, udp_body, parse_udp_packet, udp_address_bytes,
  serialize_udp_packet,
}
use rust_socks.Protocol.Udp.Safety.{parse_udp_packet-ne-panic}
use rust_socks.Protocol.Udp.RoundTrip.{IsPacket, parse-serialize}
use rust_socks.Protocol.Udp.Canonical.{parse_udp_packet-canonical}

abbrev query : UdpPacket
query = record {
  header = record { frag = 0; address = ipv4 (10 ∷ 0 ∷ 0 ∷ 1 ∷ []); port = 53 };
  payload = 7 ∷ 8 ∷ [];
}

abbrev datagram : List ℕ
datagram = 0 ∷ 0 ∷ 0 ∷ 1 ∷ 10 ∷ 0 ∷ 0 ∷ 1 ∷ 0 ∷ 53 ∷ 7 ∷ 8 ∷ []

query-IsPacket : IsPacket query
query-IsPacket = record { address = ground arith; fits = ground arith; port = ground arith }

datagram-query : parse_udp_packet datagram ≡ ok query
unfolding parse_udp_packet udp_body udp_rest udp_address byte_at slice or_invalid
datagram-query = refl

parse-serialize_example : parse_udp_packet (serialize_udp_packet query) ≡ ok query
unfolding serialize_udp_packet udp_address_bytes
parse-serialize_example = parse-serialize query query-IsPacket

parse_udp_packet-ne-panic_example : parse_udp_packet (0 ∷ 0 ∷ 0 ∷ 3 ∷ 255 ∷ []) ≢ panic
parse_udp_packet-ne-panic_example = parse_udp_packet-ne-panic (0 ∷ 0 ∷ 0 ∷ 3 ∷ 255 ∷ [])

parse_udp_packet-canonical_example : drop 2 (serialize_udp_packet query) ≡ drop 2 datagram
parse_udp_packet-canonical_example =
    parse_udp_packet-canonical datagram query (ground arith) datagram-query
