-- ===== src/Server/Handler/Tests.antt =====
-- src/server/handler.rs: the theorems on the handler at concrete connections.
use rust_socks.Prelude.{
  ℕ, Bool, ◌&&◌, ◌≡◌, refl, false, if◌then◌else◌, List, [], ◌∷◌, none, some, arith,
}
use rust_socks.Prelude.Text.{codes}
use rust_socks.Prelude.Maps.{nat_key, text_key, lookup}
use rust_socks.Utils.{ok}
use rust_socks.Utils.Result as Result
use rust_socks.Protocol.Types.{domain, Socks5Request, connect, v5}
use rust_socks.Protocol.Stream.{on}
use rust_socks.Protocol.Socks5.Requests.{request_bytes}
use rust_socks.Acl.Types.{allow, block, both, any_port, AclRule, AclConfig}
use rust_socks.Acl.Types as AclTypes
use rust_socks.Acl.Matcher.{Externals, addr4, CompiledAclRule, match_all}
use rust_socks.Acl.Engine.{CompiledAclConfig}
use rust_socks.Acl.Engine.Decision.{is_block, applies}
use rust_socks.Acl.Engine.Order.{stable}
use rust_socks.Acl.Stats.{new_stats}
use rust_socks.Auth.{System, no_backend}
use rust_socks.Qos.Types.{default_htb_config, default_connection_limits}
use rust_socks.Qos.Htb.{new_htb, start}
use rust_socks.Qos.{QosState, htb}
use rust_socks.Session.Types.{SessionProtocol, new_session_record}
use rust_socks.Session.{new_manager}
use rust_socks.Session.Invariant.{new_manager-IsManager}
use rust_socks.Server.Pool.Types.{connected, default_config}
use rust_socks.Server.Pool.Idle.{new_pool}
use rust_socks.Server.Resolver.{SocketAddr, socket_key}
use rust_socks.Server.Steps.{Served}
use rust_socks.Server.Handler.{Peer, info}
use rust_socks.Server.Handler.Upstream.{connected_to}
use rust_socks.Server.Handler.Requests.{ClientContext, handle_client}
use rust_socks.Server.Handler.Effects.{SameConnections, handle_client-SameConnections}
use rust_socks.Server.Handler.Sessions.{replies, connected_to-cases}

-- No text is an address, a network or an expression.
abbrev plain : Externals
plain = record {
  parse_ip = λ text. none;
  is_net = λ text. false;
  net_contains = λ net ip. false;
  is_regex = λ text. false;
  is_match = λ pattern text. false;
  to_lowercase = λ text. text;
}

abbrev system : System
system = record {
  new_pam_address = Result.ok tt;
  new_pam_username = Result.ok tt;
  authenticate_address = λ ip. Result.ok tt;
  authenticate_username = λ ip username password. Result.ok tt;
  get_user_groups = λ username. none;
}

abbrev deny_all : CompiledAclConfig
deny_all = record { default_policy = block; users = []; groups = []; groups_by_lowercase = [] }

abbrev ctx : ClientContext
ctx = record {
  auth = record { client_backend = no_backend; socks_backend = no_backend };
  acl_engine = some deny_all;
  anonymous_user = codes "anonymous";
  connection_limits = default_connection_limits;
}

abbrev upstream : SocketAddr
upstream = record { ip = addr4 (10 ∷ 0 ∷ 0 ∷ 9 ∷ []); port = 443 }

abbrev peer : Peer ℕ
peer = record {
  ip = addr4 (10 ∷ 0 ∷ 0 ∷ 1 ∷ []);
  port = 50000;
  now = 1000;
  later = 2000;
  id = 7;
  lookup_host = λ name port. Result.ok (upstream ∷ []);
  connecting = λ target. connected 70;
  local_addr = λ stream. Result.ok upstream;
  address_text = λ address. codes "example.com";
  error_text = λ e. codes "error";
  traffic = [];
  proxied = Result.ok none;
  bound = ok tt;
  relay = Result.ok upstream;
  control = none;
}

abbrev request : Socks5Request
request = record { command = connect; address = domain (codes "a.io"); port = 443 }

abbrev served : List ℕ → Served ℕ
served input = record {
  client = on [] false input;
  stats = new_stats;
  manager = new_manager;
  pool = new_pool default_config none;
}

abbrev qos : QosState
qos = record { engine = htb (start (new_htb 0 default_htb_config)); active_qos_users = 0 }

-- A client that greets, asks for a connection and is refused it.
handle_client-SameConnections_example :
    SameConnections qos.engine
      (handle_client plain stable system ctx peer
        (qos, served (5 ∷ 1 ∷ 0 ∷ request_bytes request 0))).1.0.engine
handle_client-SameConnections_example =
    handle_client-SameConnections plain stable system ctx peer (ground arith) (ground arith) qos
      (served (5 ∷ 1 ∷ 0 ∷ request_bytes request 0))

-- A configuration that allows what no rule blocks, with a rule for ann that blocks everything.
abbrev deny : AclRule
deny = record {
  action = block;
  description = codes "no";
  destinations = codes "*" ∷ [];
  ports = codes "*" ∷ [];
  protocols = both ∷ [];
  priority = 100;
}

abbrev deny_ann : AclConfig
deny_ann = record {
  default_policy = allow;
  users = record { username = codes "ann"; groups = []; rules = deny ∷ [] } ∷ [];
  groups = [];
}

abbrev compiled_deny : CompiledAclRule
compiled_deny = record {
  action = block;
  description = codes "no";
  destinations = match_all ∷ [];
  ports = any_port ∷ [];
  protocols = both ∷ [];
  priority = 100;
}

abbrev compiled_deny_ann : CompiledAclConfig
compiled_deny_ann = record {
  default_policy = allow;
  users =
      (codes "ann", record { username = codes "ann"; groups = []; rules = compiled_deny ∷ [] })
      ∷ [];
  groups = [];
  groups_by_lowercase = [];
}

abbrev denied : CompiledAclRule → Bool
denied r = is_block r.action && applies plain request.address 443 AclTypes.tcp r

connected_to-cases_example :
    (let connection = info peer (codes "example.com") 443 SessionProtocol.tcp in
      let (outcome, left) =
        connected_to peer v5
          (codes "ann")
          request.address
          443
          SessionProtocol.tcp
          none
          (70, upstream)
          (served []) in
      let sent = replies peer v5 (Result.ok upstream) (on [] false []) in
      (lookup 7 left.manager.active_sessions ≡ (
        if sent
        then none
        else some (new_session_record 7 1000 (codes "ann") connection (codes "allow") none)))
      × (if sent then Unit {0} else (left.pool ≡ new_pool default_config none)))
unfolding lookup
connected_to-cases_example =
    connected_to-cases peer v5 (codes "ann") request.address 443 SessionProtocol.tcp none 70
      upstream (served []) new_manager-IsManager refl
