-- ===== src/Protocol/GssApi/Framing.antt =====
-- src/protocol/parser.rs: GSS-API messages, sent and read.
use rust_socks.Prelude.{
  ℕ, ◌%◌, ◌^◌, ◌≡◌, refl, false, List, [], ◌++◌, length, take, drop, arith, take-append_le,
  drop-append_le, length-append,
}
use rust_socks.Utils.{ok}
use rust_socks.Protocol.Types.{
  GssApiMessageType, authentication, protection_level_negotiation, encapsulation, abort,
  message_type_code, message_type_from,
}
use rust_socks.Protocol.Stream.{on, Stream}
use rust_socks.Protocol.GssApi.{is_abort, message_bytes, parse_gssapi_message, send_gssapi_message}

message_type_from-code : (t : GssApiMessageType) → message_type_from (message_type_code t) ≡ t
unfolding message_type_from
message_type_from-code authentication = refl
message_type_from-code protection_level_negotiation = refl
message_type_from-code encapsulation = refl
message_type_from-code abort = refl

-- The length that is sent: the token's, less multiples of 2 ^ 16.
abbrev pub sent_length : List ℕ → ℕ
sent_length token = length token % 2 ^ 16

-- To a peer that is there, a message that is not an abort is written in one piece; reading it gives
-- its type and its token, cut to the length that the header holds, and the rest of a longer token
-- stays on the stream.
pub parse-send_gssapi_message :
    (t : GssApiMessageType) (token rest : List ℕ) (s : Stream)
    → is_abort t ≡ false
    → s.broken ≡ false
    → (sent : List ℕ) × (send_gssapi_message t token s
        ≡ (ok tt, record s { output = s.output ++ sent }))
      × (parse_gssapi_message (on [] false (sent ++ rest)) ≡ (
        ok (record { version = 1; message_type = t; token = take (sent_length token) token }),
        on [] false (drop (sent_length token) token ++ rest),
      ))
unfolding parse_gssapi_message send_gssapi_message message_bytes
parse-send_gssapi_message t token rest s e up = (
  message_bytes t token,
  ground arith,
  ground (
    arith,
    message_type_from-code t,
    take-append_le (sent_length token) token rest,
    drop-append_le (sent_length token) token rest,
    length-append token rest,
  ),
)
