-- ===== src/Protocol/Socks5/Responses.antt =====
-- src/protocol/parser.rs: what `send_socks5_response` writes, read by a client.
use rust_socks.Prelude.{ℕ, ◌<◌, ◌≡◌, refl, false, List, [], ◌∷◌, ◌++◌, length, arith, append_assoc}
use rust_socks.Prelude.Text.{Text}
use rust_socks.Utils.{ok, err, protocol, domain_name_too_long}
use rust_socks.Protocol.Types.{
  Address, ipv4, ipv6, domain, IsAddress, HasLengthByte, ReplyCode, reply_code, be_bytes,
}
use rust_socks.Protocol.Stream.{on, Io, ◌>>=◌, pure, Stream, read_u8, read_u16}
use rust_socks.Protocol.Socks5.{read_address, address_bytes, check_domain, send_socks5_response}
use rust_socks.Protocol.Socks5.Requests.{address_bytes-parts, read_address-bytes}

-- A client's reader of the reply: version, reply, reserved byte, address, port.
pub client_read : Io (ℕ × ℕ × Address × ℕ)
unfolding read_u8 read_u16
client_read = do
  version ← read_u8
  reply ← read_u8
  reserved ← read_u8
  address_type ← read_u8
  address ← read_address address_type
  port ← read_u16
  pure (version, reply, address, port)

check_domain-fits : (a : Address) (s : Stream) → HasLengthByte a → check_domain a s ≡ (ok tt, s)
unfolding check_domain
check_domain-fits (ipv4 _) s h = refl
check_domain-fits (ipv6 _) s h = refl
check_domain-fits (domain name) s h = ground arith

-- To a peer that is there, the reply with an address whose length fits its form is written in one
-- piece behind what was written before, and a client that reads it finds the version, the reply
-- code, the address and the port, with what follows left on the stream.
pub send_socks5_response-client_read :
    (reply : ReplyCode) (a : Address) (port : ℕ) (s : Stream) (rest : List ℕ)
    → s.broken ≡ false
    → IsAddress a
    → HasLengthByte a
    → (reply_bytes : List ℕ) × (send_socks5_response reply a port s
        ≡ (ok tt, record s { output = s.output ++ reply_bytes }))
      × (client_read (on [] false (reply_bytes ++ rest))
          ≡ (ok (5, reply_code reply, a, port), on [] false rest))
unfolding send_socks5_response client_read
send_socks5_response-client_read reply a port s rest up w h = (
  5 ∷ reply_code reply ∷ 0 ∷ (address_bytes a ++ be_bytes port),
  ground (arith, check_domain-fits a s h),
  rw (address_bytes-parts a, append_assoc)
      (ground (arith, read_address-bytes [] false a (be_bytes port ++ rest) w h)),
)

-- A domain name of more than 255 bytes is refused, and nothing is written.
pub send_socks5_response-too_long :
    (reply : ReplyCode) (name : Text) (port : ℕ) (s : Stream)
    → 255 < length name
    → send_socks5_response reply (domain name) port s
      ≡ (err (protocol (domain_name_too_long (length name))), s)
unfolding send_socks5_response
send_socks5_response-too_long reply name port s h = ground arith
