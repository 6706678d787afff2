-- ===== src/Protocol/Socks4/Tests.antt =====
-- src/protocol/parser.rs: the theorems on SOCKS4 at concrete messages.
use rust_socks.Prelude.{
  ℕ, zero, suc, ◌≡◌, refl, ap, true, false, List, [], ◌∷◌, ◌++◌, length, ◌≤◌, some, arith, All,
}
use rust_socks.Prelude.Text.{codes, is_utf8}
use rust_socks.Utils.{ok, err, protocol, socks4_field_too_long}
use rust_socks.Protocol.Types.{connect, domain}
use rust_socks.Protocol.Stream.{on}
use rust_socks.Protocol.Socks4.{read_null_terminated_string, scan_null, parse_socks4_request}
use rust_socks.Protocol.Socks4.Requests.{
  IsNonzero, parse-socks4a, read_null_terminated_string-inv, read_null_terminated_string-too_long,
}

parse-socks4a_example :
    parse_socks4_request (on [] false (1 ∷ 0 ∷ 80 ∷ 0 ∷ 0 ∷ 0 ∷ 1 ∷ b'm' ∷ 0 ∷ b'h' ∷ 0 ∷ 5 ∷ []))
    ≡ (
      ok (record {
        command = connect;
        address = domain (codes "h");
        port = 80;
        user_id = some (codes "m");
      }),
      on [] false (5 ∷ []),
    )
unfolding is_utf8
parse-socks4a_example =
    parse-socks4a [] false connect 80 1 (codes "m") (codes "h") (5 ∷ []) (ground arith)
      (ground arith) (ground arith) refl (ground arith) (ground arith) (ground arith) refl

field_read :
    read_null_terminated_string (on [] false (b'm' ∷ 0 ∷ 5 ∷ []))
    ≡ (ok (codes "m"), on [] false (5 ∷ []))
unfolding read_null_terminated_string scan_null is_utf8
field_read = refl

read_null_terminated_string-inv_example :
    (b'm' ∷ 0 ∷ 5 ∷ [] ≡ codes "m" ++ 0 ∷ 5 ∷ [])
    × (length (codes "m") ≤ 255)
    × (is_utf8 (codes "m") ≡ true)
read_null_terminated_string-inv_example =
    read_null_terminated_string-inv (on [] false (b'm' ∷ 0 ∷ 5 ∷ [])) (on [] false (5 ∷ []))
      (codes "m") field_read

repeat : ℕ → List ℕ
repeat zero = []
repeat (suc n) = b'a' ∷ repeat n

repeat-IsNonzero : (n : ℕ) → All IsNonzero (repeat n)
unfolding repeat
repeat-IsNonzero zero = tt
repeat-IsNonzero (suc n) = (ground arith, repeat-IsNonzero n)

length-repeat : (n : ℕ) → length (repeat n) ≡ n
unfolding repeat
length-repeat zero = refl
length-repeat (suc n) = ap suc (length-repeat n)

long_field_refused :
    (read_null_terminated_string (on [] false (repeat 256 ++ 0 ∷ []))).0
    ≡ err (protocol socks4_field_too_long)
long_field_refused =
    read_null_terminated_string-too_long (on [] false (repeat 256 ++ 0 ∷ [])) (repeat 256) (0 ∷ [])
      (repeat-IsNonzero 256) (ground (arith, length-repeat 256)) refl
