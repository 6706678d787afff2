-- ===== src/Acl/Engine/Decision.antt =====
-- src/acl/engine.rs: what `evaluate` and `evaluate_with_groups` decide, whatever the order in which
-- rules stand in the configuration and in which `sort_unstable_by` leaves equal ones.
use mathlib.Core.List.{Perm, Mem, mem-cons_self, mem-cons_of_mem}
use mathlib.Core.List.Perm
use rust_socks.Prelude.{
  subst, sym, ℕ, ◌≡◌, refl, ◌∙◌, Bool, true, false, not, ◌&&◌, List, [], ◌∷◌, any, All, Option,
  none, some, if◌then◌else◌, arith, inl, inr, Bool-cases, ltb,
}
use rust_socks.Prelude.Text.{Text}
use rust_socks.Prelude.Sort.{IsSorted, UnstableSort, any-perm}
use rust_socks.Protocol.Types.{Address}
use rust_socks.Acl.Types.{
  Action, allow, block, Protocol, AclDecision, allowed, blocked, decision_from,
}
use rust_socks.Acl.Matcher.{Externals, CompiledAclRule, rule_matches}
use rust_socks.Acl.Engine.{
  CompiledAclConfig, action_cmp, rule_leq, first_match, verdict, static_rules, dynamic_rules,
  evaluate, evaluate_with_groups,
}

abbrev pub is_block : Action → Bool
is_block block = true
is_block allow = false

-- That a rule comes before another: a block before an allow, and of two with one action the one with
-- the higher priority.
abbrev pub outranks : CompiledAclRule → CompiledAclRule → Bool
outranks q r =
    if is_block q.action
    then (if is_block r.action then ltb r.priority q.priority else true)
    else (if is_block r.action then false else ltb r.priority q.priority)

rule_leq-outranks : (r q : CompiledAclRule) → not (rule_leq r q) ≡ outranks q r
unfolding rule_leq action_cmp
rule_leq-outranks r q = ground arith

module _ (ext : Externals) (dest : Address) (port : ℕ) (protocol : Protocol) where
  abbrev pub applies : CompiledAclRule → Bool
  applies rule = rule_matches ext rule dest port protocol

  -- A block that applies wins; without one, an allow that applies; without either, the policy.
  unfoldable pub decide : Action → List CompiledAclRule → AclDecision
  decide policy rules =
      if any (λ r. is_block r.action && applies r) rules
      then blocked
      else if any (λ r. not (is_block r.action) && applies r) rules
      then allowed
      else decision_from policy

  abbrev decision : Action → Option CompiledAclRule → AclDecision
  decision policy none = decision_from policy
  decision policy (some r) = decision_from r.action

  -- Behind an allow, a sorted list has no block.
  no_block :
      (r : CompiledAclRule) (rules : List CompiledAclRule)
      → r.action ≡ allow
      → All (λ q. rule_leq r q ≡ true) rules
      → any (λ q. is_block q.action && applies q) rules ≡ false
  unfolding rule_leq action_cmp
  no_block r [] e h = refl
  no_block r (q ∷ rules) e h = ground (arith, no_block r rules e h.1)

  first_match-decide :
      (policy : Action) (rules : List CompiledAclRule)
      → IsSorted rule_leq rules
      → decision policy (first_match ext dest port protocol rules) ≡ decide policy rules
  unfolding decide first_match
  first_match-decide policy [] h = refl
  first_match-decide policy (r ∷ rules) h =
      ground (arith, no_block r rules, first_match-decide policy rules h.1)

  nothing_before :
      (r : CompiledAclRule) (rules : List CompiledAclRule)
      → All (λ q. rule_leq r q ≡ true) rules
      → any (λ q. applies q && not (rule_leq r q)) rules ≡ false
  nothing_before r [] h = refl
  nothing_before r (q ∷ rules) h = ground (arith, nothing_before r rules h.1)

  rule_leq_refl : (r : CompiledAclRule) → rule_leq r r ≡ true
  unfolding rule_leq action_cmp
  rule_leq_refl r = ground arith

  -- The first rule that matches in a sorted list comes before no other that matches.
  first_match-best :
      (rules : List CompiledAclRule) (r : CompiledAclRule)
      → IsSorted rule_leq rules
      → first_match ext dest port protocol rules ≡ some r
      → (applies r ≡ true)
        × (any (λ q. applies q && not (rule_leq r q)) rules ≡ false)
        × Mem r rules
  unfolding first_match
  first_match-best [] r h e = cc
  first_match-best (q ∷ rules) r h e = elim (Bool-cases (applies q)) [
    | inl hit ↦
        let same : q ≡ r = ground arith in
        subst
          (λ (t : CompiledAclRule).
            (applies t ≡ true)
            × (any (λ x. applies x && not (rule_leq t x)) (q ∷ rules) ≡ false)
            × Mem t (q ∷ rules))
          same (hit, ground (arith, rule_leq_refl q, nothing_before q rules h.0), mem-cons_self)
    | inr miss ↦
        let (fits, best, member) = first_match-best rules r h.1 (ground arith) in
        (fits, ground arith, mem-cons_of_mem q member)
  ]

  unbeaten :
      (r : CompiledAclRule) (rules : List CompiledAclRule)
      → any (λ q. applies q && outranks q r) rules
        ≡ any (λ q. applies q && not (rule_leq r q)) rules
  unbeaten r [] = refl
  unbeaten r (q ∷ rules) = ground (arith, unbeaten r rules, rule_leq-outranks r q)

  first_match-some :
      (rules : List CompiledAclRule)
      → any applies rules ≡ true
      → (r : CompiledAclRule) × (first_match ext dest port protocol rules ≡ some r)
  unfolding first_match
  first_match-some [] h = absurd (cc)
  first_match-some (q ∷ rules) h = elim (Bool-cases (applies q)) [
    | inl hit ↦ (q, rw hit)
    | inr miss ↦ let (r, found) = first_match-some rules (ground arith) in (r, ground arith)
  ]

  decide-perm :
      (policy : Action) {xs ys : List CompiledAclRule}
      → Perm xs ys
      → decide policy xs ≡ decide policy ys
  unfolding decide
  decide-perm policy r = ground (
    arith,
    any-perm (λ q. is_block q.action && applies q) r,
    any-perm (λ q. not (is_block q.action) && applies q) r,
  )

  decision-verdict :
      (policy : Action) (message : Text) (o : Option CompiledAclRule)
      → (verdict policy message o).0 ≡ decision policy o
  unfolding verdict
  decision-verdict policy message none = refl
  decision-verdict policy message (some r) = refl

  module _ (unstable : UnstableSort rule_leq) (config : CompiledAclConfig) (user : Text) where
    -- `evaluate` blocks if some rule of the user or of a group of the user's entry blocks the
    -- connection, else allows it if one allows it, else follows the default policy.
    pub evaluate-decide :
        (evaluate ext unstable config user dest port protocol).0
        ≡ decide config.default_policy (static_rules config user)
    unfolding evaluate
    evaluate-decide =
        let rules = static_rules config user in
        decision-verdict config.default_policy _ _
        ∙ first_match-decide config.default_policy (unstable.sort rules)
            (unstable.sort-IsSorted rules)
        ∙ decide-perm config.default_policy (unstable.sort-perm rules)

    -- `evaluate_with_groups` decides in the same way over the rules of the user and of the groups
    -- that are passed in, found without regard to ASCII case.
    pub evaluate_with_groups-decide :
        (user_groups : List Text)
        → (evaluate_with_groups ext unstable config user user_groups dest port protocol).0
          ≡ decide config.default_policy (dynamic_rules config user user_groups)
    unfolding evaluate_with_groups
    evaluate_with_groups-decide user_groups =
        let rules = dynamic_rules config user user_groups in
        decision-verdict config.default_policy _ _
        ∙ first_match-decide config.default_policy (unstable.sort rules)
            (unstable.sort-IsSorted rules)
        ∙ decide-perm config.default_policy (unstable.sort-perm rules)

    -- Where some rule applies, of the user and of the groups that are passed in, `evaluate_with_groups`
    -- reports the action and the description of one of these rules that applies, and none that
    -- applies comes before it: no block if it allows, and none with its action and a higher priority.
    pub evaluate_with_groups-best :
        (user_groups : List Text)
        → let rules = dynamic_rules config user user_groups in
          any applies rules ≡ true
          → (r : CompiledAclRule) × Mem r rules
            × (applies r ≡ true)
            × (any (λ q. applies q && outranks q r) rules ≡ false)
            × (evaluate_with_groups ext unstable config user user_groups dest port protocol
                ≡ (decision_from r.action, some r.description))
    unfolding evaluate_with_groups verdict
    evaluate_with_groups-best user_groups h =
        let rules = dynamic_rules config user user_groups in
        let permuted = unstable.sort-perm rules in
        let (r, found) = first_match-some (unstable.sort rules) (any-perm applies permuted ∙ h) in
        let (hit, best, member) =
          first_match-best (unstable.sort rules) r (unstable.sort-IsSorted rules) found in
        (
          r,
          (Perm.mem_iff permuted).0 member,
          hit,
          unbeaten r rules ∙ sym (any-perm (λ q. applies q && not (rule_leq r q)) permuted) ∙ best,
          rw found,
        )
