-- ===== src/Auth/Accepted.antt =====
-- src/auth/mod.rs: who is accepted.
use rust_socks.Prelude.{
  Bool, true, false, if◌then◌else◌, ◌≡◌, ◌≢◌, refl, inl, inr, List, Option, none, some, arith,
  Option-cases,
}
use rust_socks.Prelude.Text.{Text, text_eq_iff}
use rust_socks.Prelude.Maps.{text_key, lookup}
use rust_socks.Utils.{Outcome, RustSocksError}
use rust_socks.Utils as Utils
use rust_socks.Utils.Result.{Result, ok, err}
use rust_socks.Protocol.Types.{AuthMethod, no_auth, user_pass, gssapi, no_acceptable}
use rust_socks.Protocol.Stream.{Stream, and_then, pure, fail}
use rust_socks.Protocol.Socks5.{parse_userpass_auth}
use rust_socks.Acl.Matcher.{IpAddr}
use rust_socks.Auth.{
  PamAuthError, System, AuthBackend, no_backend, user_pass_backend, pam_address_backend,
  pam_username_backend, valid_password, answer_user_pass, answer_pam, authenticate, pam_outcome,
  map_pam_runtime_error, groups_or_empty,
}

valid_password_iff :
    (users : List (Text × Text)) (username password : Text)
    → valid_password users username password ≡ true
    → lookup username users ≡ some password
unfolding valid_password
valid_password_iff users username password e = elim (Option-cases (lookup username users)) [
  | inl missing ↦ ground arith
  | inr (stored, found) ↦ ground (arith, text_eq_iff stored password)
]

module _ (system : System) (ip : IpAddr) where
  abbrev named : Text → Option (Text × List Text)
  named username = some (username, groups_or_empty (system.get_user_groups username))

  -- What stands behind an answer: nothing for an anonymous client where none is asked for, PAM for
  -- an address, and for a name the credentials that the client sent.
  abbrev pub Vouched : AuthBackend → Stream → Option (Text × List Text) → Type 0
  Vouched no_backend client who = who ≡ none
  Vouched pam_address_backend client who = (who ≡ none) × (system.authenticate_address ip ≡ ok tt)
  Vouched (user_pass_backend users) client who =
      (username : Text) × (password : Text) × (left : Stream) × (parse_userpass_auth client
        ≡ (Utils.ok (username, password), left))
      × (lookup username users ≡ some password)
      × (who ≡ named username)
  Vouched pam_username_backend client who =
      (username : Text) × (password : Text) × (left : Stream) × (parse_userpass_auth client
        ≡ (Utils.ok (username, password), left))
      × (system.authenticate_username ip username password ≡ ok tt)
      × (who ≡ named username)

  then_pure :
      (sent : Outcome (Unit {0}) × Stream) (a who : Option (Text × List Text)) (left : Stream)
      → and_then sent (λ done. pure a) ≡ (Utils.ok who, left)
      → who ≡ a
  then_pure (Utils.ok done, client) a who left e = ground arith
  then_pure (Utils.err failure, client) a who left e = absurd (ground arith)
  then_pure (Utils.panic, client) a who left e = absurd (ground arith)

  then_fail :
      (sent : Outcome (Unit {0}) × Stream) (failure : RustSocksError)
      (who : Option (Text × List Text)) (left : Stream)
      → and_then sent (λ done. fail failure) ≢ (Utils.ok who, left)
  then_fail (Utils.ok done, client) failure who left e = ground arith
  then_fail (Utils.err other, client) failure who left e = ground arith
  then_fail (Utils.panic, client) failure who left e = ground arith

  decided {ℓ} :
      {P : Type ℓ} (username : Text) (valid : Bool) (left : Stream)
      (who : Option (Text × List Text)) (sent : Outcome (Unit {0}) × Stream)
      (failure : RustSocksError)
      → (valid ≡ true → P)
      → and_then sent (λ done. if valid then pure (named username) else fail failure)
        ≡ (Utils.ok who, left)
      → P × (who ≡ named username)
  decided username true left who sent failure h e =
      (h refl, then_pure sent (named username) who left e)
  decided username false left who sent failure h e = absurd (then_fail sent failure who left e)

  address-Vouched :
      (answer : Result PamAuthError (Unit {0})) (client left : Stream)
      (who : Option (Text × List Text))
      → and_then (pam_outcome answer, client) (λ done. pure none) ≡ (Utils.ok who, left)
      → (who ≡ none) × (answer ≡ ok tt)
  address-Vouched (ok done) client left who e = (ground arith, refl)
  address-Vouched (err failure) client left who e = absurd (ground arith)

  answer_user_pass-named :
      (users : List (Text × Text)) (username password : Text) (client left : Stream)
      (who : Option (Text × List Text))
      → answer_user_pass system ip users username password client ≡ (Utils.ok who, left)
      → (lookup username users ≡ some password) × (who ≡ named username)
  unfolding answer_user_pass
  answer_user_pass-named users username password client left who e =
      decided username (valid_password users username password) left who _ _
        (valid_password_iff users username password) e

  user_pass-Vouched :
      (users : List (Text × Text)) (client left : Stream) (who : Option (Text × List Text))
      (parsed : Outcome (Text × Text) × Stream)
      → parse_userpass_auth client ≡ parsed
      → and_then parsed
          (λ credentials. answer_user_pass system ip users credentials.0 credentials.1)
        ≡ (Utils.ok who, left)
      → Vouched (user_pass_backend users) client who
  user_pass-Vouched users client left who (Utils.ok (username, password), rest) is e = (
    username,
    password,
    rest,
    is,
    (answer_user_pass-named users username password rest left who e).0,
    (answer_user_pass-named users username password rest left who e).1,
  )
  user_pass-Vouched users client left who (Utils.err failure, rest) is e = absurd (ground arith)
  user_pass-Vouched users client left who (Utils.panic, rest) is e = absurd (ground arith)

  answer_pam-named :
      (username : Text) (answer : Result PamAuthError (Unit {0})) (client left : Stream)
      (who : Option (Text × List Text))
      → answer_pam system ip username answer client ≡ (Utils.ok who, left)
      → (answer ≡ ok tt) × (who ≡ named username)
  unfolding answer_pam
  answer_pam-named username (ok done) client left who e =
      (refl, then_pure _ (named username) who left e)
  answer_pam-named username (err failure) client left who e =
      absurd (then_fail _ (map_pam_runtime_error failure) who left e)

  pam-Vouched :
      (client left : Stream) (who : Option (Text × List Text))
      (parsed : Outcome (Text × Text) × Stream)
      → parse_userpass_auth client ≡ parsed
      → and_then parsed (λ credentials.
        answer_pam system ip credentials.0
          (system.authenticate_username ip credentials.0 credentials.1))
        ≡ (Utils.ok who, left)
      → Vouched pam_username_backend client who
  pam-Vouched client left who (Utils.ok (username, password), rest) is e = (
    username,
    password,
    rest,
    is,
    (answer_pam-named username (system.authenticate_username ip username password) rest left who
        e).0,
    (answer_pam-named username (system.authenticate_username ip username password) rest left who
        e).1,
  )
  pam-Vouched client left who (Utils.err failure, rest) is e = absurd (ground arith)
  pam-Vouched client left who (Utils.panic, rest) is e = absurd (ground arith)

  -- When `authenticate` accepts a client, the backend stands behind it: without a backend the client is
  -- anonymous; with PAM by address it is anonymous and PAM accepts its address; with a user table the
  -- client sent a name with the password that the table has for it, and with PAM by user a name and
  -- a password that PAM accepts, and it is known by that name, with the groups of the system.
  pub authenticate-Vouched :
      (backend : AuthBackend) (method : AuthMethod) (client left : Stream)
      (who : Option (Text × List Text))
      → authenticate system ip backend method client ≡ (Utils.ok who, left)
      → Vouched backend client who
  unfolding authenticate
  authenticate-Vouched no_backend no_auth client left who e = ground arith
  authenticate-Vouched no_backend gssapi client left who e = absurd (ground arith)
  authenticate-Vouched no_backend user_pass client left who e = absurd (ground arith)
  authenticate-Vouched no_backend no_acceptable client left who e = absurd (ground arith)
  authenticate-Vouched pam_address_backend no_auth client left who e =
      address-Vouched (system.authenticate_address ip) client left who e
  authenticate-Vouched pam_address_backend gssapi client left who e = absurd (ground arith)
  authenticate-Vouched pam_address_backend user_pass client left who e = absurd (ground arith)
  authenticate-Vouched pam_address_backend no_acceptable client left who e = absurd (ground arith)
  authenticate-Vouched (user_pass_backend users) no_auth client left who e = absurd (ground arith)
  authenticate-Vouched (user_pass_backend users) gssapi client left who e = absurd (ground arith)
  authenticate-Vouched (user_pass_backend users) user_pass client left who e =
      user_pass-Vouched users client left who _ refl e
  authenticate-Vouched (user_pass_backend users) no_acceptable client left who e =
      absurd (ground arith)
  authenticate-Vouched pam_username_backend no_auth client left who e = absurd (ground arith)
  authenticate-Vouched pam_username_backend gssapi client left who e = absurd (ground arith)
  authenticate-Vouched pam_username_backend user_pass client left who e =
      pam-Vouched client left who _ refl e
  authenticate-Vouched pam_username_backend no_acceptable client left who e = absurd (ground arith)
