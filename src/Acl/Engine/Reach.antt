-- ===== src/Acl/Engine/Reach.antt =====
-- src/acl/engine.rs: which rules `evaluate_with_groups` goes by.
use rust_socks.Prelude.{
  ℕ, ◌≡◌, refl, ◌∙◌, ap, subst, Bool, false, not, ◌&&◌, ◌||◌, List, [], ◌∷◌, ◌++◌, any, All, Option,
  none, some, if◌then◌else◌, arith, Bool-cases, Option-cases, inl, inr, sym,
}
use rust_socks.Prelude.Text.{Text, text_eq, text_eq_iff, to_ascii_lowercase, eq_ignore_ascii_case}
use rust_socks.Prelude.Maps.{text_key, lookup, insert, DistinctKeys, DistinctKeys-insert}
use rust_socks.Prelude.Sort.{UnstableSort}
use rust_socks.Utils.Result.{ok, >>=-eq-ok, collect}
use rust_socks.Protocol.Types.{Address}
use rust_socks.Acl.Types.{
  Action, Protocol, GroupAcl, AclConfig, AclDecision, allowed, blocked, decision_from,
}
use rust_socks.Acl.Matcher.{Externals, CompiledAclRule, compile_rule}
use rust_socks.Acl.Engine.{
  CompiledUserAcl, CompiledGroupAcl, CompiledAclConfig, compile_group, compile_groups,
  compile_users, compile_config, rule_leq, rules_of, lowercase, dynamic_rules, evaluate_with_groups,
}
use rust_socks.Acl.Engine.Decision.{is_block, applies, decide, evaluate_with_groups-decide}

abbrev own : Option CompiledUserAcl → List CompiledAclRule
own none = []
own (some u) = u.rules

-- Whether a rule that passes a test is one of the user's own, or one of a group in the index whose
-- name is, up to ASCII case, that of a group that the user comes with.
unfoldable pub reaching : CompiledAclConfig → Text → List Text → (CompiledAclRule → Bool) → Bool
reaching config user user_groups test =
    any test (own (lookup user config.users))
    || any
        (λ name.
          any
            (λ (p : Text × CompiledGroupAcl).
              eq_ignore_ascii_case p.1.name name && any test p.1.rules)
            config.groups_by_lowercase)
        user_groups

-- An index of groups by their lowercase names.
abbrev NamedByKey : List (Text × CompiledGroupAcl) → Type 0
NamedByKey index = All (λ (p : Text × CompiledGroupAcl). p.0 ≡ to_ascii_lowercase p.1.name) index

insert-NamedByKey :
    (k : Text) (g : CompiledGroupAcl) (index : List (Text × CompiledGroupAcl))
    → k ≡ to_ascii_lowercase g.name
    → NamedByKey index
    → NamedByKey (insert k g index)
unfolding insert
insert-NamedByKey k g [] e h = (e, tt)
insert-NamedByKey k g ((j, f) ∷ index) e h = elim (Bool-cases (text_eq j k)) [
  | inl same ↦ rw same ((text_eq_iff j k).0 same ∙ e, h.1)
  | inr other ↦ rw other (h.0, insert-NamedByKey k g index e h.1)
]

-- What a lowercase name finds in such an index.
any-index :
    (test : CompiledAclRule → Bool) (name : Text) (index : List (Text × CompiledGroupAcl))
    → NamedByKey index
    → DistinctKeys index
    → any
        (λ (p : Text × CompiledGroupAcl). eq_ignore_ascii_case p.1.name name && any test p.1.rules)
        index
      ≡ (elim (lookup (to_ascii_lowercase name) index) [ none ↦ false | some g ↦ any test g.rules ])
unfolding lookup eq_ignore_ascii_case
any-index test name [] h d = refl
any-index test name ((k, g) ∷ index) h d = elim (Bool-cases (text_eq k (to_ascii_lowercase name))) [
  | inl same ↦ ground (
    arith,
    any-index test name index h.1 d.1,
    text_eq_iff k (to_ascii_lowercase name),
    text_eq_iff (to_ascii_lowercase g.name) (to_ascii_lowercase name),
    h.0,
    d.0,
  )
  | inr other ↦ ground (
    arith,
    any-index test name index h.1 d.1,
    text_eq_iff k (to_ascii_lowercase name),
    text_eq_iff (to_ascii_lowercase g.name) (to_ascii_lowercase name),
    h.0,
  )
]

any-append :
    (test : CompiledAclRule → Bool) (xs ys : List CompiledAclRule)
    → any test (xs ++ ys) ≡ any test xs || any test ys
any-append test [] ys = refl
any-append test (x ∷ xs) ys = ground (arith, any-append test xs ys)

any-rules_of :
    (test : CompiledAclRule → Bool) (names : List Text) (index : List (Text × CompiledGroupAcl))
    → NamedByKey index
    → DistinctKeys index
    → any test (rules_of index (lowercase names))
      ≡ any
          (λ name.
            any
              (λ (p : Text × CompiledGroupAcl).
                eq_ignore_ascii_case p.1.name name && any test p.1.rules)
              index)
          names
unfolding rules_of
any-rules_of test [] index h d = refl
any-rules_of test (name ∷ names) index h d =
    elim (Option-cases (lookup (to_ascii_lowercase name) index)) [
      | inl missing ↦
          ground (arith, any-index test name index h d, any-rules_of test names index h d)
      | inr (g, found) ↦ ground (
        arith,
        any-index test name index h d,
        any-rules_of test names index h d,
        any-append test g.rules (rules_of index (lowercase names)),
      )
    ]

module _ (ext : Externals) where
  compile_group-name :
      (g : GroupAcl) (cg : CompiledGroupAcl) → compile_group ext g ≡ ok cg → cg.name ≡ g.name
  unfolding compile_group
  compile_group-name g cg h =
      let (rules, _, e) = >>=-eq-ok (collect (compile_rule ext) g.rules) _ h in ground arith

  compile_groups-NamedByKey :
      (rest : List GroupAcl) (groups index : List (Text × CompiledGroupAcl))
      (out : List (Text × CompiledGroupAcl) × List (Text × CompiledGroupAcl))
      → NamedByKey index
      → DistinctKeys index
      → compile_groups ext rest (groups, index) ≡ ok out
      → NamedByKey out.1 × DistinctKeys out.1
  unfolding compile_groups
  compile_groups-NamedByKey [] groups index out h d e =
      subst (λ (m : List (Text × CompiledGroupAcl)). NamedByKey m × DistinctKeys m) {x = index}
        (ground arith) (h, d)
  compile_groups-NamedByKey (g ∷ rest) groups index out h d e =
      let (cg, made, e') = >>=-eq-ok (compile_group ext g) _ e in
      let low = to_ascii_lowercase g.name in
      compile_groups-NamedByKey rest _ _ out
        (insert-NamedByKey low cg index (ap to_ascii_lowercase (sym (compile_group-name g cg made)))
          h)
        (DistinctKeys-insert low cg index d) e'

  compile_config-NamedByKey :
      (c : AclConfig) (config : CompiledAclConfig)
      → compile_config ext c ≡ ok config
      → NamedByKey config.groups_by_lowercase × DistinctKeys config.groups_by_lowercase
  unfolding compile_config
  compile_config-NamedByKey c config h =
      let (us, _, h') = >>=-eq-ok (compile_users ext c.users []) _ h in
      let (maps, made, h'') = >>=-eq-ok (compile_groups ext c.groups ([], [])) _ h' in
      let (named, distinct) = compile_groups-NamedByKey c.groups [] [] maps tt tt made in
      subst (λ (m : List (Text × CompiledGroupAcl)). NamedByKey m × DistinctKeys m) {x = maps.1}
        (ground arith) (named, distinct)

  pub any-dynamic_rules :
      (c : AclConfig) (config : CompiledAclConfig) (user : Text) (user_groups : List Text)
      (test : CompiledAclRule → Bool)
      → compile_config ext c ≡ ok config
      → any test (dynamic_rules config user user_groups) ≡ reaching config user user_groups test
  unfolding dynamic_rules reaching
  any-dynamic_rules c config user user_groups test h =
      let (named, distinct) = compile_config-NamedByKey c config h in
      any-append test (own (lookup user config.users))
        (rules_of config.groups_by_lowercase (lowercase user_groups))
      ∙ ap (λ b. any test (own (lookup user config.users)) || b)
          (any-rules_of test user_groups config.groups_by_lowercase named distinct)

  module _ (dest : Address) (port : ℕ) (protocol : Protocol) where
    -- A block that applies wins; without one, an allow that applies; without either, the policy.
    -- Whether there is a rule that passes a test is an argument.
    abbrev pub decide_by : Action → ((CompiledAclRule → Bool) → Bool) → AclDecision
    decide_by policy some_rule =
        if some_rule (λ r. is_block r.action && applies ext dest port protocol r)
        then blocked
        else if some_rule (λ r. not (is_block r.action) && applies ext dest port protocol r)
        then allowed
        else decision_from policy

    decide-decide_by :
        (policy : Action) (rules : List CompiledAclRule)
        (some_rule : (CompiledAclRule → Bool) → Bool)
        → ((test : CompiledAclRule → Bool) → any test rules ≡ some_rule test)
        → decide ext dest port protocol policy rules ≡ decide_by policy some_rule
    unfolding decide
    decide-decide_by policy rules some_rule same = ground (
      arith,
      same (λ r. is_block r.action && applies ext dest port protocol r),
      same (λ r. not (is_block r.action) && applies ext dest port protocol r),
    )

    -- In a configuration that compiles, `evaluate_with_groups` blocks if a block applies that is one
    -- of the user's own rules or one of a group in the index whose name is, up to ASCII case, that of
    -- a group that the user comes with; else it allows if an allow of these applies; else it follows
    -- the default policy.
    pub evaluate_with_groups-reaching :
        (unstable : UnstableSort rule_leq) (c : AclConfig) (config : CompiledAclConfig)
        (user : Text) (user_groups : List Text)
        → compile_config ext c ≡ ok config
        → (evaluate_with_groups ext unstable config user user_groups dest port protocol).0
          ≡ decide_by config.default_policy (reaching config user user_groups)
    evaluate_with_groups-reaching unstable c config user user_groups h =
        evaluate_with_groups-decide ext dest port protocol unstable config user user_groups
        ∙ decide-decide_by config.default_policy (dynamic_rules config user user_groups)
            (reaching config user user_groups)
            (λ test. any-dynamic_rules c config user user_groups test h)
