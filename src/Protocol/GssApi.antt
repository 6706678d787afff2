-- ===== src/Protocol/GssApi.antt =====
-- src/protocol/parser.rs: the framing of GSS-API messages (RFC 1961).
pub mod Framing
mod Tests
use rust_socks.Prelude.{
  ℕ, ◌%◌, ◌^◌, Bool, true, false, not, List, [], ◌∷◌, ◌++◌, length, ◌==◌, if◌then◌else◌,
}
use rust_socks.Utils.{protocol, unsupported_gssapi_version}
use rust_socks.Protocol.Types.{
  GssApiMessage, GssApiMessageType, authentication, abort, message_type_code, message_type_from,
  be_bytes,
}
use rust_socks.Protocol.Stream.{
  Io, ◌>>=◌, ◌>>◌, pure, require, read_u8, read_u16, read_exact, write_all, flush,
}

-- `message_type == GssApiMessageType::Abort`
abbrev pub is_abort : GssApiMessageType → Bool
is_abort abort = true
is_abort _ = false

pub parse_gssapi_message : Io GssApiMessage
unfolding read_u8 read_u16 read_exact
parse_gssapi_message = do
  version ← read_u8
  require (version == 0x01) (protocol (unsupported_gssapi_version version))
  mtyp ← read_u8
  let message_type = message_type_from mtyp
  if is_abort message_type
      then pure (record { version = version; message_type = message_type; token = [] })
      else do
        token_len ← read_u16
        token ← read_exact token_len
        pure (record { version = version; message_type = message_type; token = token })

-- The bytes of a message; `token.len() as u16` keeps the low sixteen bits.
message_bytes : GssApiMessageType → List ℕ → List ℕ
message_bytes message_type token =
    0x01
    ∷ message_type_code message_type
    ∷ (if is_abort message_type then [] else be_bytes (length token % 2 ^ 16) ++ token)

pub send_gssapi_message : GssApiMessageType → List ℕ → Io (Unit {0})
unfolding message_bytes write_all flush
send_gssapi_message message_type token = do write_all (message_bytes message_type token); flush

pub send_gssapi_abort : Io (Unit {0})
send_gssapi_abort = send_gssapi_message abort []
