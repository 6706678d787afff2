-- ===== src/Protocol/Types.antt =====
-- src/protocol/types.rs: the data of the protocol and the codes on the wire.
use rust_socks.Prelude.{
  ℕ, ◌+◌, ◌*◌, ◌/◌, ◌%◌, ◌<◌, ◌≤◌, ◌≡◌, true, Option, List, [], ◌∷◌, All, length, ◌==◌,
  if◌then◌else◌,
}
use rust_socks.Prelude.Text.{Text, is_utf8}
use rust_socks.Utils.{Outcome, ok, err, unsupported_command}

abbrev pub socks_version : ℕ
socks_version = 0x05

abbrev pub socks4_version : ℕ
socks4_version = 0x04

pub data AuthMethod : Type 0 where
  no_auth gssapi user_pass no_acceptable : AuthMethod

-- `method as u8`
abbrev pub auth_method_code : AuthMethod → ℕ
auth_method_code no_auth = 0x00
auth_method_code gssapi = 0x01
auth_method_code user_pass = 0x02
auth_method_code no_acceptable = 0xff

-- `AuthMethod::from`
unfoldable pub auth_method_from : ℕ → AuthMethod
auth_method_from value =
    if value == 0x00
    then no_auth
    else if value == 0x01
    then gssapi
    else if value == 0x02
    then user_pass
    else no_acceptable

pub data Command : Type 0 where
  connect bind udp_associate : Command

abbrev pub command_code : Command → ℕ
command_code connect = 0x01
command_code bind = 0x02
command_code udp_associate = 0x03

-- `Command::try_from`
unfoldable pub command_try_from : ℕ → Outcome Command
command_try_from value =
    if value == 0x01
    then ok connect
    else if value == 0x02
    then ok bind
    else if value == 0x03
    then ok udp_associate
    else err (unsupported_command value)

-- The arrays `[u8; 4]` and `[u8; 16]` are lists, whose lengths stand in `IsAddress`.
pub data Address : Type 0 where
  ipv4 : List ℕ → Address
  ipv6 : List ℕ → Address
  domain : Text → Address

abbrev pub IsByte : ℕ → Type 0
IsByte b = b < 256

-- What the Rust types promise of an address.
abbrev pub IsAddress : Address → Type 0
IsAddress (ipv4 octets) = (length octets ≡ 4) × All IsByte octets
IsAddress (ipv6 octets) = (length octets ≡ 16) × All IsByte octets
IsAddress (domain name) = (is_utf8 name ≡ true) × All IsByte name

-- A domain name whose length fits the byte that announces it.
abbrev pub HasLengthByte : Address → Type 0
HasLengthByte (domain name) = length name ≤ 255
HasLengthByte _ = Unit {0}

pub data ReplyCode : Type 0 where
  succeeded general_failure connection_not_allowed network_unreachable host_unreachable : ReplyCode
  connection_refused ttl_expired command_not_supported address_type_not_supported : ReplyCode

abbrev pub reply_code : ReplyCode → ℕ
reply_code succeeded = 0x00
reply_code general_failure = 0x01
reply_code connection_not_allowed = 0x02
reply_code network_unreachable = 0x03
reply_code host_unreachable = 0x04
reply_code connection_refused = 0x05
reply_code ttl_expired = 0x06
reply_code command_not_supported = 0x07
reply_code address_type_not_supported = 0x08

pub record ClientGreeting : Type 0 where
  pub methods : List AuthMethod

pub record Socks5Request : Type 0 where
  pub command : Command
  pub address : Address
  pub port : ℕ

pub record Socks4Request : Type 0 where
  pub command : Command
  pub address : Address
  pub port : ℕ
  pub user_id : Option Text

pub data Socks4Reply : Type 0 where
  granted rejected identd_unavailable user_id_mismatch : Socks4Reply

abbrev pub socks4_reply_code : Socks4Reply → ℕ
socks4_reply_code granted = 0x5a
socks4_reply_code rejected = 0x5b
socks4_reply_code identd_unavailable = 0x5c
socks4_reply_code user_id_mismatch = 0x5d

pub record UdpHeader : Type 0 where
  pub frag : ℕ
  pub address : Address
  pub port : ℕ

pub record UdpPacket : Type 0 where
  pub header : UdpHeader
  pub payload : List ℕ

pub data SocksProtocol : Type 0 where
  v4 v5 : SocksProtocol

pub data GssApiMessageType : Type 0 where
  authentication protection_level_negotiation encapsulation abort : GssApiMessageType

abbrev pub message_type_code : GssApiMessageType → ℕ
message_type_code authentication = 0x01
message_type_code protection_level_negotiation = 0x02
message_type_code encapsulation = 0x03
message_type_code abort = 0xff

-- `GssApiMessageType::from`
unfoldable pub message_type_from : ℕ → GssApiMessageType
message_type_from value =
    if value == 0x01
    then authentication
    else if value == 0x02
    then protection_level_negotiation
    else if value == 0x03
    then encapsulation
    else abort

pub record GssApiMessage : Type 0 where
  pub version : ℕ
  pub message_type : GssApiMessageType
  pub token : List ℕ

pub data GssApiProtectionLevel : Type 0 where
  integrity confidentiality selective : GssApiProtectionLevel

abbrev pub protection_level_code : GssApiProtectionLevel → ℕ
protection_level_code integrity = 0x01
protection_level_code confidentiality = 0x02
protection_level_code selective = 0x03

-- `GssApiProtectionLevel::from`
unfoldable pub protection_level_from : ℕ → GssApiProtectionLevel
protection_level_from value =
    if value == 0x01 then integrity else if value == 0x02 then confidentiality else selective

-- `u16::to_be_bytes` and `u16::from_be_bytes`
abbrev pub be_bytes : ℕ → List ℕ
be_bytes n = (n / 256) ∷ (n % 256) ∷ []

abbrev pub from_be_bytes : ℕ → ℕ → ℕ
from_be_bytes hi lo = hi * 256 + lo
