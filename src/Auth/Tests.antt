-- ===== src/Auth/Tests.antt =====
-- src/auth/mod.rs: the theorem on the users who are accepted at a concrete client, and a test.
use rust_socks.Prelude.{◌≡◌, refl, false, List, [], ◌∷◌, ◌++◌, some}
use rust_socks.Prelude.Text.{Text, codes, is_utf8, text_eq}
use rust_socks.Prelude.Maps.{text_key, lookup, insert}
use rust_socks.Utils.{ok}
use rust_socks.Utils.Result as Result
use rust_socks.Protocol.Types.{user_pass}
use rust_socks.Protocol.Stream.{Stream, on}
use rust_socks.Protocol.Socks5.{parse_userpass_auth, send_auth_response}
use rust_socks.Acl.Matcher.{IpAddr, addr4}
use rust_socks.Auth.{
  System, user_pass_backend, user_map, valid_password, answer_user_pass, authenticate,
}
use rust_socks.Auth.Accepted.{Vouched, authenticate-Vouched}

abbrev system : System
system = record {
  new_pam_address = Result.ok tt;
  new_pam_username = Result.ok tt;
  authenticate_address = λ ip. Result.ok tt;
  authenticate_username = λ ip username password. Result.ok tt;
  get_user_groups = λ username. some (codes "dev" ∷ []);
}

-- The later of the two entries stands.
abbrev users : List (Text × Text)
users = user_map ((codes "ann", codes "old") ∷ (codes "ann", codes "pw") ∷ []) []

abbrev ip : IpAddr
ip = addr4 (10 ∷ 0 ∷ 0 ∷ 1 ∷ [])

abbrev client : Stream
client = on [] false (1 ∷ 3 ∷ codes "ann" ++ 2 ∷ codes "pw")

accepted :
    authenticate system ip (user_pass_backend users) user_pass client
    ≡ (ok (some (codes "ann", codes "dev" ∷ [])), on (1 ∷ 0 ∷ []) false [])
unfolding authenticate answer_user_pass valid_password user_map parse_userpass_auth
    send_auth_response lookup insert is_utf8 text_eq
accepted = refl

authenticate-Vouched_example :
    Vouched system ip (user_pass_backend users) client (some (codes "ann", codes "dev" ∷ []))
authenticate-Vouched_example =
    authenticate-Vouched system ip (user_pass_backend users) user_pass client
      (on (1 ∷ 0 ∷ []) false []) (some (codes "ann", codes "dev" ∷ [])) accepted
