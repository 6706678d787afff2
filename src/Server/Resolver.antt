-- ===== src/Server/Resolver.antt =====
-- src/server/resolver.rs: the socket addresses of a destination, those of IPv6 first.
use rust_socks.Prelude.{ℕ, Bool, true, false, ◌&&◌, ◌==◌, ==_iff, ◌≡◌, ◌↔◌, arith, List, [], ◌∷◌}
use rust_socks.Prelude.Text.{Text, text_eq, text_eq_iff}
use rust_socks.Prelude.Maps.{Key}
use rust_socks.Prelude.Sort.{sort_by}
use rust_socks.Utils.{RustSocksError, IoError, io, addr_not_available}
use rust_socks.Utils.Result.{Result, ok, err}
use rust_socks.Protocol.Types.{Address, ipv4, ipv6, domain}
use rust_socks.Acl.Matcher.{IpAddr, addr4, addr6}

pub record SocketAddr : Type 0 where
  pub ip : IpAddr
  pub port : ℕ

abbrev pub same_ip : IpAddr → IpAddr → Bool
same_ip (addr4 a) (addr4 b) = text_eq a b
same_ip (addr6 a) (addr6 b) = text_eq a b
same_ip (addr4 a) (addr6 b) = false
same_ip (addr6 a) (addr4 b) = false

abbrev pub same_socket : SocketAddr → SocketAddr → Bool
same_socket a b = same_ip a.ip b.ip && (a.port == b.port)

same_ip_iff : (a b : IpAddr) → (same_ip a b ≡ true) ↔ (a ≡ b)
same_ip_iff (addr4 a) (addr4 b) = ground (arith, text_eq_iff a b)
same_ip_iff (addr6 a) (addr6 b) = ground (arith, text_eq_iff a b)
same_ip_iff (addr4 a) (addr6 b) = ground arith
same_ip_iff (addr6 a) (addr4 b) = ground arith

pub same_socket_iff : (a b : SocketAddr) → (same_socket a b ≡ true) ↔ (a ≡ b)
same_socket_iff a b = ground (arith, same_ip_iff a.ip b.ip, ==_iff a.port b.port)

instance abbrev pub socket_key : Key SocketAddr
socket_key = record { beq = same_socket; beq_iff = same_socket_iff }

abbrev pub is_v4 : IpAddr → Bool
is_v4 (addr4 octets) = true
is_v4 (addr6 octets) = false

-- The order of the keys 0 for IPv6 and 1 for IPv4.
abbrev pub ipv6_first : SocketAddr → SocketAddr → Bool
ipv6_first a b = elim (is_v4 a.ip) [ false ↦ true | true ↦ is_v4 b.ip ]

-- What `lookup_host` gives for a name is a parameter.
module _ (lookup_host : Text → ℕ → Result IoError (List SocketAddr)) where
  unfoldable pub targets_of : Address → ℕ → Result RustSocksError (List SocketAddr)
  targets_of (ipv4 octets) port = ok (record { ip = addr4 octets; port = port } ∷ [])
  targets_of (ipv6 octets) port = ok (record { ip = addr6 octets; port = port } ∷ [])
  targets_of (domain name) port = elim (lookup_host name port) [
    | ok found ↦ ok found
    | err e ↦ err (io e)
  ]

  abbrev pub non_empty_targets : List SocketAddr → Result RustSocksError (List SocketAddr)
  non_empty_targets [] = err (io addr_not_available)
  non_empty_targets (target ∷ targets) = ok (target ∷ targets)

  unfoldable pub resolve_address : Address → ℕ → Result RustSocksError (List SocketAddr)
  resolve_address address port = elim (targets_of address port) [
    | err e ↦ err e
    | ok targets ↦ non_empty_targets (sort_by ipv6_first targets)
  ]
