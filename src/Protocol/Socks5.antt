-- ===== src/Protocol/Socks5.antt =====
-- src/protocol/parser.rs: greeting, choice, user/password authentication, request and response.
pub mod Requests
pub mod Responses
pub mod Authentication
mod Tests
use rust_socks.Prelude.{ℕ, Bool, not, List, [], ◌∷◌, ◌++◌, map, length, ltb, ◌==◌, if◌then◌else◌}
use rust_socks.Prelude.Text.{Text, from_utf8}
use rust_socks.Utils.{
  protocol, unsupported_address_type, unsupported_socks_version, no_methods_provided,
  unsupported_userpass_version, invalid_username_encoding, invalid_password_encoding,
  invalid_domain_encoding, domain_name_too_long, panic,
}
use rust_socks.Protocol.Types.{
  AuthMethod, auth_method_code, auth_method_from, command_try_from, Address, ipv4, ipv6, domain,
  ReplyCode, reply_code, ClientGreeting, Socks5Request, socks_version, be_bytes,
}
use rust_socks.Protocol.Stream.{
  Io, ◌>>=◌, ◌>>◌, pure, lift, fail, require, or_fail, read_u8, read_u16, read_exact, write_all,
  flush,
}

pub parse_socks5_client_greeting : ℕ → Io ClientGreeting
unfolding read_u8 read_exact
parse_socks5_client_greeting version = do
  require (version == socks_version) (protocol (unsupported_socks_version version))
  nmethods ← read_u8
  require (not (nmethods == 0)) (protocol no_methods_provided)
  methods_buf ← read_exact nmethods
  pure (record { methods = map auth_method_from methods_buf })

pub send_server_choice : AuthMethod → Io (Unit {0})
unfolding write_all flush
send_server_choice method = do write_all (socks_version ∷ auth_method_code method ∷ []); flush

unfoldable pub parse_userpass_auth : Io (Text × Text)
unfolding read_u8 read_exact
parse_userpass_auth = do
  version ← read_u8
  require (version == 0x01) (protocol (unsupported_userpass_version version))
  username_len ← read_u8
  username_buf ← read_exact username_len
  username ← or_fail (from_utf8 username_buf) (protocol invalid_username_encoding)
  password_len ← read_u8
  password_buf ← read_exact password_len
  password ← or_fail (from_utf8 password_buf) (protocol invalid_password_encoding)
  pure (username, password)

unfoldable pub send_auth_response : Bool → Io (Unit {0})
unfolding write_all flush
send_auth_response success = do
  let status = if success then 0x00 else 0x01
  write_all (0x01 ∷ status ∷ [])
  flush

-- The address behind its type byte.
pub read_address : ℕ → Io Address
unfolding read_u8 read_exact
read_address address_type =
    if address_type == 0x01
    then (do addr ← read_exact 4; pure (ipv4 addr))
    else if address_type == 0x03
    then (do
      domain_len ← read_u8
      domain_buf ← read_exact domain_len
      name ← or_fail (from_utf8 domain_buf) (protocol invalid_domain_encoding)
      pure (domain name))
    else if address_type == 0x04
    then (do addr ← read_exact 16; pure (ipv6 addr))
    else fail (unsupported_address_type address_type)

-- The four bytes that `read_exact` has put into the buffer, and the rest of the request.
request_from : List ℕ → Io Socks5Request
unfolding read_u16
request_from (version ∷ command_byte ∷ reserved ∷ address_type ∷ []) = do
  require (version == socks_version) (protocol (unsupported_socks_version version))
  command ← lift (command_try_from command_byte)
  address ← read_address address_type
  port ← read_u16
  pure (record { command = command; address = address; port = port })
request_from _ = lift panic

pub parse_socks5_request : Io Socks5Request
unfolding read_exact request_from
parse_socks5_request = do buf ← read_exact 4; request_from buf

-- The address with its type byte, as the response carries it.
unfoldable pub address_bytes : Address → List ℕ
address_bytes (ipv4 octets) = 0x01 ∷ octets
address_bytes (ipv6 octets) = 0x04 ∷ octets
address_bytes (domain name) = 0x03 ∷ length name ∷ name

-- A name of more than 255 bytes is refused before anything is written.
unfoldable pub check_domain : Address → Io (Unit {0})
check_domain (domain name) =
    if ltb 255 (length name) then fail (protocol (domain_name_too_long (length name))) else pure tt
check_domain _ = pure tt

unfoldable pub send_socks5_response : ReplyCode → Address → ℕ → Io (Unit {0})
unfolding check_domain address_bytes write_all flush
send_socks5_response reply bind_addr bind_port = do
  check_domain bind_addr
  write_all
      (socks_version ∷ reply_code reply ∷ 0x00 ∷ (address_bytes bind_addr ++ be_bytes bind_port))
  flush
