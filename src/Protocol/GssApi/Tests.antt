-- ===== src/Protocol/GssApi/Tests.antt =====
-- src/protocol/parser.rs: the theorem on GSS-API messages at a concrete one.
use rust_socks.Prelude.{ℕ, ◌≡◌, refl, false, List, [], ◌∷◌, ◌++◌}
use rust_socks.Utils.{ok}
use rust_socks.Protocol.Types.{authentication}
use rust_socks.Protocol.Stream.{on}
use rust_socks.Protocol.GssApi.{parse_gssapi_message, send_gssapi_message}
use rust_socks.Protocol.GssApi.Framing.{parse-send_gssapi_message}

parse-send_gssapi_message_example :
    (sent : List ℕ) × (send_gssapi_message authentication (7 ∷ 8 ∷ []) (on [] false [])
      ≡ (ok tt, on sent false []))
    × (parse_gssapi_message (on [] false (sent ++ 9 ∷ [])) ≡ (
      ok (record { version = 1; message_type = authentication; token = 7 ∷ 8 ∷ [] }),
      on [] false (9 ∷ []),
    ))
parse-send_gssapi_message_example =
    parse-send_gssapi_message authentication (7 ∷ 8 ∷ []) (9 ∷ []) (on [] false []) refl refl
