-- ===== src/Protocol/Socks4.antt =====
-- src/protocol/parser.rs: requests and responses of SOCKS4 and SOCKS4a.
pub mod Requests
mod Tests
use rust_socks.Prelude.{
  ℕ, Bool, ◌&&◌, not, List, [], ◌∷◌, ◌++◌, length, leb, ◌==◌, if◌then◌else◌, Option, none, some,
}
use rust_socks.Prelude.Text.{Text, from_utf8}
use rust_socks.Utils.{
  Outcome, ok, err, panic, io, unexpected_eof, protocol, socks4a_domain_missing,
  socks4_field_too_long, invalid_string_encoding,
}
use rust_socks.Protocol.Types.{
  command_try_from, Address, ipv4, domain, Socks4Request, Socks4Reply, socks4_reply_code, be_bytes,
}
use rust_socks.Protocol.Stream.{
  Io, ◌>>=◌, ◌>>◌, pure, lift, fail, or_fail, read_u8, read_u16, read_exact, write_all, flush,
}

abbrev pub max_len : ℕ
max_len = 255

-- The loop of `read_null_terminated_string`, over the input that is left.
scan_null : List ℕ → List ℕ → Outcome (List ℕ) × List ℕ
scan_null bytes [] = (err (io unexpected_eof), [])
scan_null bytes (byte ∷ rest) =
    if byte == 0x00
    then (ok bytes, rest)
    else if leb max_len (length bytes)
    then (err (protocol socks4_field_too_long), rest)
    else scan_null (bytes ++ byte ∷ []) rest

read_null_terminated_bytes : Io (List ℕ)
unfolding scan_null
read_null_terminated_bytes s =
    let (r, rest) = scan_null [] s.input in (r, record s { input = rest })

pub read_null_terminated_string : Io Text
unfolding read_null_terminated_bytes
read_null_terminated_string = do
  bytes ← read_null_terminated_bytes
  or_fail (from_utf8 bytes) (protocol invalid_string_encoding)

abbrev non_empty : Text → Option Text
non_empty [] = none
non_empty (b ∷ s) = some (b ∷ s)

-- An address 0.0.0.x with x not 0 announces a domain name behind the user id.
pub is_socks4a : List ℕ → Outcome Bool
is_socks4a (a ∷ b ∷ c ∷ d ∷ _) = ok (a == 0 && b == 0 && c == 0 && not (d == 0))
is_socks4a _ = panic

read_socks4_address : List ℕ → Io Address
unfolding is_socks4a
read_socks4_address ip_octets = do
  named ← lift (is_socks4a ip_octets)
  if named
      then (do
        name ← read_null_terminated_string
        name' ← or_fail (non_empty name) (protocol socks4a_domain_missing)
        pure (domain name'))
      else pure (ipv4 ip_octets)

pub parse_socks4_request : Io Socks4Request
unfolding read_u8 read_u16 read_exact
parse_socks4_request = do
  command_byte ← read_u8
  command ← lift (command_try_from command_byte)
  port ← read_u16
  ip_octets ← read_exact 4
  user_id ← read_null_terminated_string
  address ← read_socks4_address ip_octets
  pure (record { command = command; address = address; port = port; user_id = non_empty user_id })

unfoldable pub send_socks4_response : Socks4Reply → List ℕ → ℕ → Io (Unit {0})
unfolding write_all flush
send_socks4_response reply bind_addr bind_port = do
  write_all (0x00 ∷ socks4_reply_code reply ∷ (be_bytes bind_port ++ bind_addr))
  flush
