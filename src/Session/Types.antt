-- ===== src/Session/Types.antt =====
-- src/session/types.rs: a session, its state, and the forms in which both are stored and shown.
use rust_socks.Prelude.{ℕ, ◌-◌, ◌/◌, ◌≡◌, refl, ◌++◌, ◌||◌, if◌then◌else◌, List, Option, none, some}
use rust_socks.Prelude.Text.{Text, codes, text_eq}
use rust_socks.Utils.Result.{Result, ok, err}
use rust_socks.Acl.Matcher.{IpAddr}

-- A `Uuid` is a number of 128 bits; the ones that `new_v4` draws are arguments of the operations.
abbrev pub Uuid : Type 0
Uuid = ℕ

pub data SessionProtocol : Type 0 where
  tcp udp : SessionProtocol

unfoldable pub protocol_as_str : SessionProtocol → Text
protocol_as_str tcp = codes "tcp"
protocol_as_str udp = codes "udp"

unfoldable pub protocol_from_str : Text → Result Text SessionProtocol
protocol_from_str value =
    if text_eq value (codes "tcp") || text_eq value (codes "TCP")
    then ok tcp
    else if text_eq value (codes "udp") || text_eq value (codes "UDP")
    then ok udp
    else err (codes "Invalid protocol: " ++ value)

pub data SessionStatus : Type 0 where
  active closed failed rejected_by_acl : SessionStatus

unfoldable pub status_as_str : SessionStatus → Text
status_as_str active = codes "active"
status_as_str closed = codes "closed"
status_as_str failed = codes "failed"
status_as_str rejected_by_acl = codes "rejected_by_acl"

unfoldable pub status_from_str : Text → Result Text SessionStatus
status_from_str value =
    if text_eq value (codes "active") || text_eq value (codes "ACTIVE")
    then ok active
    else if text_eq value (codes "closed") || text_eq value (codes "CLOSED")
    then ok closed
    else if text_eq value (codes "failed") || text_eq value (codes "FAILED")
    then ok failed
    else if text_eq value (codes "rejected_by_acl") || text_eq value (codes "REJECTED_BY_ACL")
    then ok rejected_by_acl
    else err (codes "Invalid session status: " ++ value)

-- Instants are nanoseconds, as they are for the buckets.
pub record Session : Type 0 where
  pub session_id : Uuid
  pub user : Text
  pub start_time : ℕ
  pub end_time : Option ℕ
  pub duration_secs : Option ℕ
  pub source_ip : IpAddr
  pub source_port : ℕ
  pub dest_ip : Text
  pub dest_port : ℕ
  pub protocol : SessionProtocol
  pub bytes_sent : ℕ
  pub bytes_received : ℕ
  pub packets_sent : ℕ
  pub packets_received : ℕ
  pub status : SessionStatus
  pub close_reason : Option Text
  pub acl_rule_matched : Option Text
  pub acl_decision : Text

pub record ConnectionInfo : Type 0 where
  pub source_ip : IpAddr
  pub source_port : ℕ
  pub dest_ip : Text
  pub dest_port : ℕ
  pub protocol : SessionProtocol

abbrev pub new_session_record : Uuid → ℕ → Text → ConnectionInfo → Text → Option Text → Session
new_session_record id now user connection acl_decision acl_rule_matched = record {
  session_id = id;
  user = user;
  start_time = now;
  end_time = none;
  duration_secs = none;
  source_ip = connection.source_ip;
  source_port = connection.source_port;
  dest_ip = connection.dest_ip;
  dest_port = connection.dest_port;
  protocol = connection.protocol;
  bytes_sent = 0;
  bytes_received = 0;
  packets_sent = 0;
  packets_received = 0;
  status = active;
  close_reason = none;
  acl_rule_matched = acl_rule_matched;
  acl_decision = acl_decision;
}

-- `Session::close`: a clock that went back gives a duration of 0.
abbrev pub close : ℕ → Option Text → SessionStatus → Session → Session
close now reason status session = record session {
  end_time = some now;
  duration_secs = some ((now - session.start_time) / 1000000000);
  status = status;
  close_reason = reason;
}

pub record SessionFilter : Type 0 where
  pub user : Option Text
  pub status : Option SessionStatus
  pub start_after : Option ℕ
  pub start_before : Option ℕ
  pub dest_ip : Option Text
  pub min_duration_secs : Option ℕ
  pub min_bytes : Option ℕ
  pub limit : Option ℕ
  pub offset : Option ℕ
  pub sort_by : Option Text
  pub sort_dir : Option Text

abbrev pub default_filter : SessionFilter
default_filter = record {
  user = none;
  status = none;
  start_after = none;
  start_before = none;
  dest_ip = none;
  min_duration_secs = none;
  min_bytes = none;
  limit = some 100;
  offset = none;
  sort_by = none;
  sort_dir = none;
}

pub record UserSessionStat : Type 0 where
  pub user : Text
  pub sessions : ℕ

pub record DestinationStat : Type 0 where
  pub dest_ip : Text
  pub connections : ℕ

pub record AclDecisionStats : Type 0 where
  pub allowed : ℕ
  pub blocked : ℕ

pub record SessionStats : Type 0 where
  pub generated_at : ℕ
  pub active_sessions : ℕ
  pub total_sessions : ℕ
  pub total_bytes : ℕ
  pub top_users : List UserSessionStat
  pub top_destinations : List DestinationStat
  pub acl : AclDecisionStats

pub protocol_from_str-as_str : (p : SessionProtocol) → protocol_from_str (protocol_as_str p) ≡ ok p
unfolding protocol_from_str protocol_as_str text_eq
protocol_from_str-as_str tcp = refl
protocol_from_str-as_str udp = refl

-- The word under which a status is stored is read back as that status.
pub status_from_str-as_str : (s : SessionStatus) → status_from_str (status_as_str s) ≡ ok s
unfolding status_from_str status_as_str text_eq
status_from_str-as_str active = refl
status_from_str-as_str closed = refl
status_from_str-as_str failed = refl
status_from_str-as_str rejected_by_acl = refl
