-- ===== src/Protocol/Socks5/Authentication.antt =====
-- src/protocol/parser.rs: method selection (RFC 1928) and user/password authentication (RFC 1929).
use rust_socks.Prelude.{
  ℕ, ◌≡◌, refl, Bool, true, List, [], ◌∷◌, ◌++◌, map, length, arith, length-map, take-at, drop-at,
  length-append,
}
use rust_socks.Prelude.Text.{Text, is_utf8}
use rust_socks.Utils.{ok}
use rust_socks.Protocol.Types.{
  AuthMethod, no_auth, gssapi, user_pass, no_acceptable, auth_method_code, auth_method_from,
}
use rust_socks.Protocol.Stream.{on}
use rust_socks.Protocol.Socks5.{parse_socks5_client_greeting, parse_userpass_auth}

auth_method_from-code : (m : AuthMethod) → auth_method_from (auth_method_code m) ≡ m
unfolding auth_method_from
auth_method_from-code no_auth = refl
auth_method_from-code gssapi = refl
auth_method_from-code user_pass = refl
auth_method_from-code no_acceptable = refl

methods-from-code : (ms : List AuthMethod) → map auth_method_from (map auth_method_code ms) ≡ ms
methods-from-code [] = refl
methods-from-code (m ∷ ms) = ground (arith, auth_method_from-code m, methods-from-code ms)

module _ (out : List ℕ) (broken : Bool) where
  -- A greeting that lists one or more methods is read back as those methods, and what follows is
  -- left on the stream.
  pub parse-greeting :
      (m : AuthMethod) (ms : List AuthMethod) (rest : List ℕ)
      → parse_socks5_client_greeting 5
          (on out broken (length (m ∷ ms) ∷ (map auth_method_code (m ∷ ms) ++ rest)))
        ≡ (ok (record { methods = m ∷ ms }), on out broken rest)
  unfolding parse_socks5_client_greeting
  parse-greeting m ms rest =
      let sent = map auth_method_code (m ∷ ms) in
      ground (
        arith,
        length-map auth_method_code (m ∷ ms),
        length-append sent rest,
        take-at sent rest (length (m ∷ ms)),
        drop-at sent rest (length (m ∷ ms)) 0,
        methods-from-code (m ∷ ms),
      )

  -- The encoding of a user name and a password, both in UTF-8, is read back as the two, and what
  -- follows is left on the stream.
  pub parse-userpass :
      (username password : Text) (rest : List ℕ)
      → is_utf8 username ≡ true
      → is_utf8 password ≡ true
      → parse_userpass_auth (
          on out broken
            (0x01 ∷ length username ∷ (username ++ length password ∷ (password ++ rest))))
        ≡ (ok (username, password), on out broken rest)
  unfolding parse_userpass_auth
  parse-userpass username password rest u p =
      let tail = length password ∷ (password ++ rest) in
      ground (
        arith,
        length-append username tail,
        take-at username tail (length username),
        drop-at username tail (length username) 0,
        length-append password rest,
        take-at password rest (length password),
        drop-at password rest (length password) 0,
      )
