-- ===== src/Utils.antt =====
-- src/utils/error.rs: the error type of the crate, and what a call ends in.
pub mod Result
use rust_socks.Prelude.{◌≡◌, ◌≢◌, refl, ℕ, Bool, true, false, if◌then◌else◌}
use rust_socks.Prelude.Text.{Text}

-- The I/O errors that the modelled code meets.
pub data IoError : Type 0 where
  unexpected_eof broken_pipe timed_out addr_not_available : IoError
  other : Text → IoError

-- The messages of `RustSocksError::Protocol`, one constructor for each `format!` or literal.
pub data ProtocolMessage : Type 0 where
  unsupported_socks_version : ℕ → ProtocolMessage
  no_methods_provided : ProtocolMessage
  unsupported_userpass_version : ℕ → ProtocolMessage
  invalid_username_encoding invalid_password_encoding invalid_domain_encoding : ProtocolMessage
  domain_name_too_long : ℕ → ProtocolMessage
  socks4a_domain_missing socks4_field_too_long invalid_string_encoding : ProtocolMessage
  udp_too_short udp_missing_frag udp_fragmented udp_missing_address_type : ProtocolMessage
  udp_invalid_ipv4 udp_invalid_domain udp_invalid_domain_encoding udp_invalid_ipv6 : ProtocolMessage
  udp_invalid_port udp_missing_payload : ProtocolMessage
  unsupported_gssapi_version : ℕ → ProtocolMessage
  socks4_requires_ipv4 : ProtocolMessage

pub data RustSocksError : Type 0 where
  io : IoError → RustSocksError
  protocol : ProtocolMessage → RustSocksError
  auth_failed : Text → RustSocksError
  config : Text → RustSocksError
  connection_closed : RustSocksError
  unsupported_command : ℕ → RustSocksError
  unsupported_address_type : ℕ → RustSocksError
  invalid_request : RustSocksError

-- A value, an error that is returned, or a panic.
pub data Outcome {ℓ} (A : Type ℓ) : Type ℓ where
  ok : A → Outcome A
  err : RustSocksError → Outcome A
  panic : Outcome A

infixl 5 ◌>>=◌
abbrev pub ◌>>=◌ {ℓ κ} : {S : Type ℓ} {T : Type κ} → Outcome S → (S → Outcome T) → Outcome T
panic >>= next = panic
err failure >>= next = err failure
ok value >>= next = next value

-- `if !test { return Err(e); }`
abbrev pub require : Bool → RustSocksError → Outcome (Unit {0})
require holds failure = if holds then ok tt else err failure

infixl 5 ◌>>◌
abbrev pub ◌>>◌ {κ} : {T : Type κ} → Outcome (Unit {0}) → Outcome T → Outcome T
first >> next = first >>= λ done. next

pub >>=-ne-panic {ℓ κ} :
    {A : Type ℓ} {B : Type κ} (m : Outcome A) (f : A → Outcome B)
    → m ≢ panic
    → ((a : A) → f a ≢ panic)
    → (m >>= f) ≢ panic
>>=-ne-panic (ok a) f h k = k a
>>=-ne-panic (err e) f h k = λ p. cc
>>=-ne-panic panic f h k = absurd (h refl)

pub >>=-eq-ok {ℓ κ} :
    {S : Type ℓ} {T : Type κ} (first : Outcome S) (next : S → Outcome T) {t : T}
    → (first >>= next) ≡ ok t
    → (s : S) × (first ≡ ok s) × (next s ≡ ok t)
>>=-eq-ok panic next h = cc
>>=-eq-ok (err failure) next h = cc
>>=-eq-ok (ok value) next h = (value, refl, h)
