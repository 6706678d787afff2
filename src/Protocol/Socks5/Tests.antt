-- ===== src/Protocol/Socks5/Tests.antt =====
-- src/protocol/parser.rs: the theorems on SOCKS5 at concrete messages.
use rust_socks.Prelude.{ℕ, ◌≡◌, refl, false, List, [], ◌∷◌, ◌++◌, All, arith}
use rust_socks.Prelude.Text.{codes, is_utf8}
use rust_socks.Utils.{ok}
use rust_socks.Protocol.Types.{connect, domain, ipv4, succeeded, IsByte, Socks5Request}
use rust_socks.Protocol.Stream.{Stream, on}
use rust_socks.Protocol.Socks5.{parse_socks5_request, send_socks5_response, address_bytes}
use rust_socks.Protocol.Socks5.Requests.{
  request_bytes, parse-request_bytes, parse_socks5_request-inv,
}
use rust_socks.Protocol.Socks5.Responses.{client_read, send_socks5_response-client_read}

abbrev request : Socks5Request
request = record { command = connect; address = domain (codes "a.b"); port = 443 }

abbrev sent : Stream
sent = on [] false (request_bytes request 0 ++ 9 ∷ [])

parse-request_bytes_example :
    parse_socks5_request (on [] false (request_bytes request 0 ++ 9 ∷ []))
    ≡ (ok request, on [] false (9 ∷ []))
unfolding is_utf8
parse-request_bytes_example =
    parse-request_bytes [] false request 0 (9 ∷ []) (ground arith) (ground arith)

sent-IsByte : All IsByte sent.input
unfolding request_bytes address_bytes
sent-IsByte = ground arith

parse_socks5_request-inv_example :
    (reserved : ℕ) × (sent.input ≡ request_bytes request reserved ++ 9 ∷ []) × ([] ≡ sent.output)
parse_socks5_request-inv_example =
    parse_socks5_request-inv sent (on [] false (9 ∷ [])) request sent-IsByte
      parse-request_bytes_example

send_socks5_response-client_read_example :
    (reply_bytes : List ℕ) × (send_socks5_response succeeded
        (ipv4 (1 ∷ 2 ∷ 3 ∷ 4 ∷ []))
        80
        (on [] false [])
      ≡ (ok tt, on reply_bytes false []))
    × (client_read (on [] false (reply_bytes ++ 6 ∷ []))
        ≡ (ok (5, 0, ipv4 (1 ∷ 2 ∷ 3 ∷ 4 ∷ []), 80), on [] false (6 ∷ [])))
send_socks5_response-client_read_example =
    send_socks5_response-client_read succeeded (ipv4 (1 ∷ 2 ∷ 3 ∷ 4 ∷ [])) 80 (on [] false [])
      (6 ∷ []) refl (ground arith) (ground arith)
