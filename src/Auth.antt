-- ===== src/Auth.antt =====
-- src/auth/mod.rs, without the optional feature gssapi: which methods the server offers, and how a
-- user is checked. PAM and the groups of the system are parameters.
pub mod Accepted
mod Tests
use rust_socks.Prelude.{
  Bool, true, false, if◌then◌else◌, List, [], ◌∷◌, ◌++◌, Option, none, some, ◌==◌, ◌||◌, ◌&&◌,
}
use rust_socks.Prelude.Text.{Text, codes, text_eq}
use rust_socks.Prelude.Maps.{text_key, lookup, insert}
use rust_socks.Utils.{Outcome, RustSocksError, auth_failed, config}
use rust_socks.Utils as Utils
use rust_socks.Utils.Result.{Result, ok, err}
use rust_socks.Protocol.Types.{AuthMethod, no_auth, user_pass, auth_method_code}
use rust_socks.Protocol.Stream.{Io, ◌>>=◌, ◌>>◌, pure, fail, lift}
use rust_socks.Protocol.Socks5.{parse_userpass_auth, send_auth_response}
use rust_socks.Acl.Matcher.{IpAddr}

pub data PamAuthError : Type 0 where
  pam_config pam_system pam_not_supported pam_auth_failed : Text → PamAuthError

-- The two authenticators of PAM, as they are made and as they answer, and `get_user_groups`, which
-- may fail.
pub record System : Type 0 where
  pub new_pam_address : Result PamAuthError (Unit {0})
  pub new_pam_username : Result PamAuthError (Unit {0})
  pub authenticate_address : IpAddr → Result PamAuthError (Unit {0})
  pub authenticate_username : IpAddr → Text → Text → Result PamAuthError (Unit {0})
  pub get_user_groups : Text → Option (List Text)

pub record AuthConfig : Type 0 where
  pub client_method : Text
  pub socks_method : Text
  pub users : List (Text × Text)

pub data AuthBackend : Type 0 where
  no_backend : AuthBackend
  user_pass_backend : List (Text × Text) → AuthBackend
  pam_address_backend pam_username_backend : AuthBackend

pub record AuthManager : Type 0 where
  pub client_backend : AuthBackend
  pub socks_backend : AuthBackend

unfoldable pub map_pam_config_error : PamAuthError → RustSocksError
map_pam_config_error (pam_config message) = config message
map_pam_config_error (pam_system message) = config message
map_pam_config_error (pam_not_supported message) = config message
map_pam_config_error (pam_auth_failed message) = auth_failed message

unfoldable pub map_pam_runtime_error : PamAuthError → RustSocksError
map_pam_runtime_error (pam_auth_failed message) = auth_failed message
map_pam_runtime_error (pam_config message) = config message
map_pam_runtime_error (pam_not_supported message) = config message
map_pam_runtime_error (pam_system message) = auth_failed message

-- The users of the configuration as a map: of two entries for a name the later one stands.
unfoldable pub user_map : List (Text × Text) → List (Text × Text) → List (Text × Text)
user_map [] users = users
user_map ((username, password) ∷ rest) users = user_map rest (insert username password users)

abbrev pam_backend :
    AuthBackend → Result PamAuthError (Unit {0}) → Result RustSocksError AuthBackend
pam_backend b (ok made) = ok b
pam_backend b (err e) = err (map_pam_config_error e)

module _ (system : System) where
  unfoldable pub build_backend : Text → AuthConfig → Result RustSocksError AuthBackend
  build_backend method c =
      if text_eq method (codes "none")
      then ok no_backend
      else if text_eq method (codes "userpass")
      then ok (user_pass_backend (user_map c.users []))
      else if text_eq method (codes "pam.address")
      then pam_backend pam_address_backend system.new_pam_address
      else if text_eq method (codes "pam.username")
      then pam_backend pam_username_backend system.new_pam_username
      else err (config (codes "Unsupported authentication method: " ++ method))

  unfoldable pub new_auth_manager : AuthConfig → Result RustSocksError AuthManager
  new_auth_manager c = elim (build_backend c.client_method c) [
    | err e ↦ err e
    | ok client ↦ elim (build_backend c.socks_method c) [
      | err e ↦ err e
      | ok socks ↦ ok (record { client_backend = client; socks_backend = socks })
    ]
  ]

abbrev backend_method : AuthBackend → AuthMethod
backend_method no_backend = no_auth
backend_method pam_address_backend = no_auth
backend_method (user_pass_backend users) = user_pass
backend_method pam_username_backend = user_pass

unfoldable pub get_method : AuthManager → AuthMethod
get_method auth = backend_method auth.socks_backend

-- The derived equality of methods.
abbrev pub same_method : AuthMethod → AuthMethod → Bool
same_method a b = auth_method_code a == auth_method_code b

abbrev takes_no_auth : AuthBackend → Bool
takes_no_auth no_backend = true
takes_no_auth pam_address_backend = true
takes_no_auth (user_pass_backend users) = false
takes_no_auth pam_username_backend = false

unfoldable pub supports : AuthManager → AuthMethod → Bool
supports auth method =
    same_method (get_method auth) method
    || same_method method no_auth && takes_no_auth auth.socks_backend

-- `map_err(map_pam_runtime_error)`
abbrev pub pam_outcome : Result PamAuthError (Unit {0}) → Outcome (Unit {0})
pam_outcome (ok done) = Utils.ok tt
pam_outcome (err e) = Utils.err (map_pam_runtime_error e)

abbrev pub groups_or_empty : Option (List Text) → List Text
groups_or_empty none = []
groups_or_empty (some groups) = groups

-- `UserPassAuthenticator::authenticate`
unfoldable pub valid_password : List (Text × Text) → Text → Text → Bool
valid_password users username password = elim (lookup username users) [
  | some stored ↦ text_eq stored password
  | none ↦ false
]

module _ (system : System) (client_ip : IpAddr) where
  unfoldable pub authenticate_client : AuthManager → Outcome (Unit {0})
  authenticate_client auth = elim auth.client_backend [
    | no_backend ↦ Utils.ok tt
    | pam_address_backend ↦ pam_outcome (system.authenticate_address client_ip)
    | user_pass_backend users ↦
        Utils.err (
          config
            (codes "Invalid client auth configuration: only none or pam.address are supported"))
    | pam_username_backend ↦
        Utils.err (
          config
            (codes "Invalid client auth configuration: only none or pam.address are supported"))
  ]

  abbrev mismatch : Io (Option (Text × List Text))
  mismatch = fail (auth_failed (codes "Authentication method mismatch"))

  unfoldable pub answer_user_pass :
      List (Text × Text) → Text → Text → Io (Option (Text × List Text))
  answer_user_pass users username password =
      let is_valid = valid_password users username password in
      send_auth_response is_valid
      >> (if is_valid
          then pure (some (username, groups_or_empty (system.get_user_groups username)))
          else fail (auth_failed (codes "Invalid credentials for user: " ++ username)))

  unfoldable pub answer_pam : Text → Result PamAuthError (Unit {0}) → Io (Option (Text × List Text))
  answer_pam username (ok done) = do
    send_auth_response true
    pure (some (username, groups_or_empty (system.get_user_groups username)))
  answer_pam username (err e) = do send_auth_response false; fail (map_pam_runtime_error e)

  -- Nothing for an anonymous client, else the name and the groups.
  unfoldable pub authenticate : AuthBackend → AuthMethod → Io (Option (Text × List Text))
  authenticate no_backend no_auth = pure none
  authenticate pam_address_backend no_auth = do
    lift (pam_outcome (system.authenticate_address client_ip))
    pure none
  authenticate (user_pass_backend users) user_pass = do
    credentials ← parse_userpass_auth
    answer_user_pass users credentials.0 credentials.1
  authenticate pam_username_backend user_pass = do
    credentials ← parse_userpass_auth
    answer_pam credentials.0 (system.authenticate_username client_ip credentials.0 credentials.1)
  authenticate _ _ = mismatch
