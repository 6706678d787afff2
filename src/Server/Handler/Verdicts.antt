-- ===== src/Server/Handler/Verdicts.antt =====
-- src/server/handler.rs: a request that the engine blocks.
use rust_socks.Utils.Result as Result
use rust_socks.Prelude.{
  ℕ, Bool, true, ◌&&◌, [], ◌∷◌, any, arith, ap, ◌∙◌, ◌≡◌, refl, subst, sym, List, Option, none,
  some,
}
use rust_socks.Prelude.Text.{Text}
use rust_socks.Prelude.Sort.{UnstableSort}
use rust_socks.Utils.{Outcome, ok, err, panic}
use rust_socks.Protocol.Types.{Address, SocksProtocol, v4, Socks4Request, connection_not_allowed}
use rust_socks.Protocol.Stream.{Stream}
use rust_socks.Acl.Types.{
  Action, allow, block, AclConfig, AclDecision, allowed, blocked, decision_from,
}
use rust_socks.Acl.Types as AclTypes
use rust_socks.Acl.Matcher.{Externals, CompiledAclRule}
use rust_socks.Acl.Engine.{CompiledAclConfig, rule_leq, compile_config, evaluate_with_groups}
use rust_socks.Acl.Engine.Decision.{is_block, applies, evaluate_with_groups-best}
use rust_socks.Acl.Engine.Reach.{reaching, any-dynamic_rules, evaluate_with_groups-reaching}
use rust_socks.Auth.{System}
use rust_socks.Session.Types.{SessionProtocol}
use rust_socks.Server.Steps.{Served, Handle, continue, give}
use rust_socks.Server.Handler.Refusals.{IsRefused, refused_state, refused_state-IsRefused}
use rust_socks.Server.Handler.{Peer, no_address, send_socks_response}
use rust_socks.Server.Handler.Requests.{
  ClientContext, on_decision, acl_verdict, run_socks4_command, serve_socks4,
}

any-weaker :
    (p q : CompiledAclRule → Bool) (rules : List CompiledAclRule)
    → any (λ r. p r && q r) rules ≡ true
    → any q rules ≡ true
any-weaker p q [] h = h
any-weaker p q (r ∷ rules) h = ground (arith, any-weaker p q rules)

blocks_only : (a : Action) → decision_from a ≡ blocked → a ≡ block
blocks_only block e = refl
blocks_only allow e = absurd (ground arith)

module _ (ext : Externals) (unstable : UnstableSort rule_leq) (user : Text) (groups : List Text)
    (c : AclConfig) (engine : CompiledAclConfig)
    (compiles : compile_config ext c ≡ Result.ok engine) where
  -- A block that applies and reaches the user decides.
  blocking_rule :
      (address : Address) (port : ℕ) (protocol : AclTypes.Protocol)
      → reaching engine user groups (λ r. is_block r.action && applies ext address port protocol r)
        ≡ true
      → (r : CompiledAclRule) × (r.action ≡ block)
        × (applies ext address port protocol r ≡ true)
        × (evaluate_with_groups ext unstable engine user groups address port protocol
            ≡ (blocked, some r.description))
  blocking_rule address port protocol blocks =
      let rules =
        any-dynamic_rules ext c engine user groups
          (λ r. is_block r.action && applies ext address port protocol r) compiles in
      let (r, member, hit, best, is) =
        evaluate_with_groups-best ext address port protocol unstable engine user groups (
          any-weaker (λ r. is_block r.action) (applies ext address port protocol) _
            (rules ∙ blocks)) in
      let decided =
        evaluate_with_groups-reaching ext address port protocol unstable c engine user groups
          compiles in
      let verdict : decision_from r.action ≡ blocked =
        sym (ap (λ p. p.0) is) ∙ ground (arith, decided, blocks) in
      (
        r,
        blocks_only r.action verdict,
        hit,
        is ∙ ap (λ (d : AclDecision). (d, some r.description)) verdict,
      )

module _ {S : Type 0} (peer : Peer S) where
  answered :
      (sent : Outcome (Unit {0}) × Stream) (shared : Served S)
      (next : Option (Option Text) → Handle S (Unit {0}))
      → ((served : Served S) → next none served ≡ (ok tt, served))
      → continue
          (continue (sent.0, record shared { client = sent.1 }) (λ done. give (ok none)))
          next
        ≡ (sent.0, record shared { client = sent.1 })
  answered (ok done, client) shared next ends = ends _
  answered (err e, client) shared next ends = refl
  answered (panic, client) shared next ends = refl

  module _ (ext : Externals) (unstable : UnstableSort rule_leq) (system : System)
      (ctx : ClientContext) where
    blocked-IsRefused :
        (version : SocksProtocol) (user : Text) (address : Address) (port : ℕ)
        (kind : SessionProtocol) (rule : Option Text) (stream : Stream) (served : Served S)
        (next : Option (Option Text) → Handle S (Unit {0}))
        → ((left : Served S) → next none left ≡ (ok tt, left))
        → IsRefused peer version user address port kind rule stream served (
            continue
              (on_decision ext unstable system ctx peer version user address port kind
                (blocked, rule)
                (record served { client = stream }))
              next)
    unfolding on_decision
    blocked-IsRefused version user address port kind rule stream served next ends =
        let sent = send_socks_response version connection_not_allowed no_address 0 stream in
        subst (IsRefused peer version user address port kind rule stream served)
          (sym (
            answered sent (refused_state peer version user address port kind rule stream served)
              next ends))
          (refused_state-IsRefused peer version user address port kind rule stream served)

    module _ (user : Text) (groups : List Text) (c : AclConfig) (engine : CompiledAclConfig)
        (compiles : compile_config ext c ≡ Result.ok engine) where
      -- The same of a SOCKS4 request, which is judged as one for TCP whatever its command.
      pub serve_socks4-IsRefused :
          (request : Socks4Request) (served : Served S)
          → ctx.acl_engine ≡ some engine
          → (let fits = applies ext request.address request.port AclTypes.tcp in
              reaching engine user groups (λ r. is_block r.action && fits r) ≡ true
              → (r : CompiledAclRule) × (r.action ≡ block)
                × (fits r ≡ true)
                × IsRefused peer v4 user request.address request.port SessionProtocol.tcp
                    (some r.description)
                    served.client
                    served
                    (serve_socks4 ext unstable system ctx peer user groups request served))
      unfolding serve_socks4 acl_verdict run_socks4_command on_decision
      serve_socks4-IsRefused request served has_engine blocks =
          let (r, blocking, fits, is) =
            blocking_rule ext unstable user groups c engine compiles request.address request.port
              AclTypes.tcp blocks in
          (
            r,
            blocking,
            fits,
            rw (has_engine, is)
                (blocked-IsRefused v4 user request.address request.port SessionProtocol.tcp
                  (some r.description) served.client served _ (λ after. refl)),
          )
