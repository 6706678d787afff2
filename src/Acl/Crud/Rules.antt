-- ===== src/Acl/Crud/Rules.antt =====
-- src/acl/crud.rs: adding, updating and deleting rules, against the rules of every name.
use rust_socks.Prelude.{
  All, ◌≡◌, ap, ◌∙◌, ◌⊎◌, inl, inr, true, List, [], ◌∷◌, ◌++◌, set, remove_at, none, some,
  if◌then◌else◌, arith, Option-cases, append-nil,
}
use rust_socks.Prelude.Text.{Text, text_eq, text_eq_iff}
use rust_socks.Utils.Result.{ok, err}
use rust_socks.Acl.Types.{AclRule, AclError, rule_exists, rule_not_found}
use rust_socks.Acl.Crud.{
  RuleIdentifier, identifier_matches, from_rule, find_rule_from, Owner, find_owner, find_rule_in,
  write_rules, add_rule, update_rule, delete_rule,
}
use rust_socks.Acl.Crud.Targets.{
  SameTarget, from_rule-matches, from_rule-SameTarget, find_rule_from-none,
}
use rust_socks.Acl.Crud.Owners.{
  find_rule_from-some, find_rule_from-append, remove_at-append, set-append, rules_named,
  rules_named-found, rules_named-missing, rules_named-write_rules, find_owner-write_rules,
  rules_named-new, find_owner-new, find_rule_from_nil,
}

module _ {A : Type 0} (o : Owner A) where
  -- In terms of the search.
  add_rule-searched :
      (n : Text) (rule : AclRule) (owners : List A)
      → (¬ (find_rule_from 0 (from_rule rule) (rules_named o n owners) ≡ none)
          × (add_rule o n rule owners ≡ (err (rule_exists n), owners)))
        ⊎ ((find_rule_from 0 (from_rule rule) (rules_named o n owners) ≡ none)
            × ((add_rule o n rule owners).0 ≡ ok tt)
            × ((m : Text)
                → rules_named o m (add_rule o n rule owners).1 ≡ (
                    if text_eq n m
                    then rules_named o n owners ++ rule ∷ []
                    else rules_named o m owners)))
  unfolding add_rule find_rule_in
  add_rule-searched n rule owners = elim (Option-cases (find_owner o n owners)) [
    | inl missing ↦ inr (
      ground (arith, rules_named-missing o n owners, find_rule_from_nil 0 (from_rule rule)),
      ground arith,
      λ m. ground (arith, rules_named-missing o n owners, rules_named-new o n m (rule ∷ []) owners),
    )
    | inr (a, found) ↦ elim (Option-cases (find_rule_from 0 (from_rule rule) (o.rules a))) [
      | inl fresh ↦ inr (
        ground (arith, rules_named-found o n owners a),
        ground arith,
        λ m. ground (
          arith,
          rules_named-found o n owners a,
          rules_named-write_rules o n m (o.rules a ++ rule ∷ []) owners a,
        ),
      )
      | inr (p, twice) ↦ inl (ground (arith, rules_named-found o n owners a), ground arith)
    ]
  ]

  -- Adding a rule is refused and changes nothing when a rule of that name has the same destinations
  -- and ports; when none has, it puts the rule after the others of that name, which it makes when it
  -- is missing, and leaves those of every other name.
  pub add_rule-cases :
      (n : Text) (rule : AclRule) (owners : List A)
      → ((r : AclRule) × (xs : List AclRule) × (ys : List AclRule) × (rules_named o n owners
            ≡ xs ++ r ∷ ys)
          × SameTarget r rule
          × (add_rule o n rule owners ≡ (err (rule_exists n), owners)))
        ⊎ (All (λ r. ¬ SameTarget r rule) (rules_named o n owners)
            × ((add_rule o n rule owners).0 ≡ ok tt)
            × ((m : Text)
                → rules_named o m (add_rule o n rule owners).1 ≡ (
                    if text_eq n m
                    then rules_named o n owners ++ rule ∷ []
                    else rules_named o m owners)))
  add_rule-cases n rule owners =
      let rules = rules_named o n owners in
      elim (add_rule-searched n rule owners) [
        | inr (fresh, added, others) ↦ inr (find_rule_from-none 0 rule rules fresh, added, others)
        | inl (found, refused) ↦ elim (Option-cases (find_rule_from 0 (from_rule rule) rules)) [
          | inl missing ↦ absurd (found missing)
          | inr ((index, r), e) ↦
              let (xs, ys, whole, at, fits, before) =
                find_rule_from-some 0 (from_rule rule) rules index r e in
              inl (r, xs, ys, whole, (from_rule-SameTarget rule r).0 fits, refused)
        ]
      ]

  add_rule-found :
      (n : Text) (rule : AclRule) (owners : List A)
      → (add_rule o n rule owners).0 ≡ ok tt
      → (find_rule_from 0 (from_rule rule) (rules_named o n owners) ≡ none)
        × (a : A) × (find_owner o n (add_rule o n rule owners).1 ≡ some a)
        × (o.rules a ≡ rules_named o n owners ++ rule ∷ [])
  unfolding add_rule find_rule_in
  add_rule-found n rule owners h = elim (Option-cases (find_owner o n owners)) [
    | inl missing ↦ (
      ground (arith, rules_named-missing o n owners, find_rule_from_nil 0 (from_rule rule)),
      o.with_rules (o.fresh n) (rule ∷ []),
      ground (arith, find_owner-new o n (rule ∷ []) owners),
      ground (arith, rules_named-missing o n owners, o.rules-with_rules (o.fresh n) (rule ∷ [])),
    )
    | inr (a, found) ↦
        let rules = o.rules a ++ rule ∷ [] in
        (
          ground (arith, rules_named-found o n owners a),
          o.with_rules a rules,
          ground (arith, find_owner-write_rules o n rules owners a),
          ground (arith, rules_named-found o n owners a, o.rules-with_rules a rules),
        )
  ]

  delete_rule-last :
      (n : Text) (identifier : RuleIdentifier) (rule : AclRule) (xs : List AclRule)
      (owners : List A) (a : A)
      → find_owner o n owners ≡ some a
      → o.rules a ≡ xs ++ rule ∷ []
      → find_rule_from 0 identifier xs ≡ none
      → identifier_matches identifier rule ≡ true
      → delete_rule o n identifier owners ≡ (ok rule, write_rules o n xs owners)
  unfolding delete_rule
  delete_rule-last n identifier rule xs owners a found whole fresh fits = ground (
    arith,
    find_rule_from-append 0 identifier xs rule,
    remove_at-append xs [] rule,
    append-nil xs,
  )

  -- A rule that was added is deleted again by its own destinations and ports, which returns it, and
  -- every name then has the rules that it had before.
  pub delete_rule-add_rule :
      (n : Text) (rule : AclRule) (owners : List A)
      → (add_rule o n rule owners).0 ≡ ok tt
      → ((delete_rule o n (from_rule rule) (add_rule o n rule owners).1).0 ≡ ok rule)
        × ((m : Text)
            → rules_named o m (delete_rule o n (from_rule rule) (add_rule o n rule owners).1).1
              ≡ rules_named o m owners)
  unfolding delete_rule
  delete_rule-add_rule n rule owners h =
      let (fresh, a, found, whole) = add_rule-found n rule owners h in
      let rules = rules_named o n owners in
      let deletes =
        delete_rule-last n (from_rule rule) rule rules (add_rule o n rule owners).1 a found whole
          fresh (from_rule-matches rule) in
      (
        ap (λ p. p.0) deletes,
        λ m. elim (add_rule-searched n rule owners) [
          | inl (twice, refused) ↦ absurd (twice fresh)
          | inr (_, _, others) ↦ ground (
            arith,
            others m,
            rules_named-write_rules o n m rules (add_rule o n rule owners).1 a,
            text_eq_iff n m,
          )
        ],
      )

  -- Updating a rule fails and changes nothing, or returns the first rule of that name that the
  -- identifier matches, puts the new rule in its place, and leaves the others and every other name.
  pub update_rule-cases :
      (n : Text) (identifier : RuleIdentifier) (new_rule : AclRule) (owners : List A)
      → ((e : AclError) × (update_rule o n identifier new_rule owners ≡ (err e, owners))
          × (find_rule_from 0 identifier (rules_named o n owners) ≡ none))
        ⊎ ((old_rule : AclRule) × (xs : List AclRule) × (ys : List AclRule) × (rules_named o n
                owners
              ≡ xs ++ old_rule ∷ ys)
            × (find_rule_from 0 identifier xs ≡ none)
            × (identifier_matches identifier old_rule ≡ true)
            × ((update_rule o n identifier new_rule owners).0 ≡ ok old_rule)
            × ((m : Text)
                → rules_named o m (update_rule o n identifier new_rule owners).1
                  ≡ (if text_eq n m then xs ++ new_rule ∷ ys else rules_named o m owners)))
  unfolding update_rule
  update_rule-cases n identifier new_rule owners = elim (Option-cases (find_owner o n owners)) [
    | inl missing ↦ inl (
      o.not_found n,
      ground arith,
      ground (arith, rules_named-missing o n owners, find_rule_from_nil 0 identifier),
    )
    | inr (a, found) ↦ elim (Option-cases (find_rule_from 0 identifier (o.rules a))) [
      | inl none_matches ↦
          inl (rule_not_found n, ground arith, ground (arith, rules_named-found o n owners a))
      | inr ((index, old_rule), e) ↦
          let (xs, ys, whole, at, fits, before) =
            find_rule_from-some 0 identifier (o.rules a) index old_rule e in
          inr (
            old_rule,
            xs,
            ys,
            rules_named-found o n owners a found ∙ whole,
            before,
            fits,
            ground arith,
            λ m. ground (
              arith,
              set-append xs ys old_rule new_rule,
              rules_named-write_rules o n m (set (o.rules a) index new_rule) owners a,
            ),
          )
    ]
  ]

  -- Deleting a rule fails and changes nothing, or returns the first rule of that name that the
  -- identifier matches, and leaves the other rules of the name, in order, and every other name.
  pub delete_rule-cases :
      (n : Text) (identifier : RuleIdentifier) (owners : List A)
      → ((e : AclError) × (delete_rule o n identifier owners ≡ (err e, owners))
          × (find_rule_from 0 identifier (rules_named o n owners) ≡ none))
        ⊎ ((old_rule : AclRule) × (xs : List AclRule) × (ys : List AclRule) × (rules_named o n
                owners
              ≡ xs ++ old_rule ∷ ys)
            × (find_rule_from 0 identifier xs ≡ none)
            × (identifier_matches identifier old_rule ≡ true)
            × ((delete_rule o n identifier owners).0 ≡ ok old_rule)
            × ((m : Text)
                → rules_named o m (delete_rule o n identifier owners).1
                  ≡ (if text_eq n m then xs ++ ys else rules_named o m owners)))
  unfolding delete_rule
  delete_rule-cases n identifier owners = elim (Option-cases (find_owner o n owners)) [
    | inl missing ↦ inl (
      o.not_found n,
      ground arith,
      ground (arith, rules_named-missing o n owners, find_rule_from_nil 0 identifier),
    )
    | inr (a, found) ↦ elim (Option-cases (find_rule_from 0 identifier (o.rules a))) [
      | inl none_matches ↦
          inl (rule_not_found n, ground arith, ground (arith, rules_named-found o n owners a))
      | inr ((index, old_rule), e) ↦
          let (xs, ys, whole, at, fits, before) =
            find_rule_from-some 0 identifier (o.rules a) index old_rule e in
          inr (
            old_rule,
            xs,
            ys,
            rules_named-found o n owners a found ∙ whole,
            before,
            fits,
            ground arith,
            λ m. ground (
              arith,
              remove_at-append xs ys old_rule,
              rules_named-write_rules o n m (remove_at (o.rules a) index) owners a,
            ),
          )
    ]
  ]
