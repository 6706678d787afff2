-- ===== src/Acl/Crud/Owners.antt =====
-- src/acl/crud.rs: what the operations on rules do to the rules of every name.
use rust_socks.Prelude.{
  ℕ, suc, ◌+◌, ◌≡◌, refl, true, List, [], ◌∷◌, ◌++◌, length, set, remove_at, none, some,
  if◌then◌else◌, arith, ap, Bool-cases, inl, inr,
}
use rust_socks.Prelude.Text.{Text, text_eq, text_eq_iff}
use rust_socks.Acl.Types.{AclRule}
use rust_socks.Acl.Crud.{
  RuleIdentifier, identifier_matches, find_rule_from, Owner, find_owner, write_rules,
}

-- Where a search finds a rule.
pub find_rule_from-some :
    (i : ℕ) (identifier : RuleIdentifier) (rules : List AclRule) (index : ℕ) (rule : AclRule)
    → find_rule_from i identifier rules ≡ some (index, rule)
    → (xs : List AclRule) × (ys : List AclRule) × (rules ≡ xs ++ rule ∷ ys)
      × (index ≡ i + length xs)
      × (identifier_matches identifier rule ≡ true)
      × (find_rule_from i identifier xs ≡ none)
unfolding find_rule_from
find_rule_from-some i identifier [] index rule h = cc
find_rule_from-some i identifier (r ∷ rules) index rule h =
    elim (Bool-cases (identifier_matches identifier r)) [
      | inl e ↦ ([], rules, ground arith, ground arith, ground arith, refl)
      | inr e ↦
          let (xs, ys, whole, at, fits, before) =
            find_rule_from-some (suc i) identifier rules index rule (ground arith) in
          (r ∷ xs, ys, ap (◌∷◌ r) whole, omega arith, fits, ground arith)
    ]

pub find_rule_from_nil :
    (i : ℕ) (identifier : RuleIdentifier) → find_rule_from i identifier [] ≡ none
unfolding find_rule_from
find_rule_from_nil i identifier = refl

pub find_rule_from-append :
    (i : ℕ) (identifier : RuleIdentifier) (xs : List AclRule) (rule : AclRule)
    → find_rule_from i identifier xs ≡ none
    → identifier_matches identifier rule ≡ true
    → find_rule_from i identifier (xs ++ rule ∷ []) ≡ some (i + length xs, rule)
unfolding find_rule_from
find_rule_from-append i identifier [] rule h e = ground arith
find_rule_from-append i identifier (r ∷ xs) rule h e =
    ground (arith, find_rule_from-append (suc i) identifier xs rule)

pub remove_at-append :
    (xs ys : List AclRule) (rule : AclRule) → remove_at (xs ++ rule ∷ ys) (length xs) ≡ xs ++ ys
remove_at-append [] ys rule = refl
remove_at-append (x ∷ xs) ys rule = ap (◌∷◌ x) (remove_at-append xs ys rule)

pub set-append :
    (xs ys : List AclRule) (rule new_rule : AclRule)
    → set (xs ++ rule ∷ ys) (length xs) new_rule ≡ xs ++ new_rule ∷ ys
set-append [] ys rule new_rule = refl
set-append (x ∷ xs) ys rule new_rule = ap (◌∷◌ x) (set-append xs ys rule new_rule)

module _ {A : Type 0} (o : Owner A) where
  -- The abstract view of a list of owners: the rules of each name, none for a name that is missing.
  unfoldable pub rules_named : Text → List A → List AclRule
  rules_named n [] = []
  rules_named n (a ∷ owners) = if text_eq (o.name a) n then o.rules a else rules_named n owners

  pub rules_named-found :
      (n : Text) (owners : List A) (a : A)
      → find_owner o n owners ≡ some a
      → rules_named n owners ≡ o.rules a
  unfolding find_owner rules_named
  rules_named-found n [] a h = cc
  rules_named-found n (b ∷ owners) a h = ground (arith, rules_named-found n owners a)

  pub rules_named-missing :
      (n : Text) (owners : List A) → find_owner o n owners ≡ none → rules_named n owners ≡ []
  unfolding find_owner rules_named
  rules_named-missing n [] h = refl
  rules_named-missing n (b ∷ owners) h = ground (arith, rules_named-missing n owners)

  -- Writing rules back changes them for that name only.
  pub rules_named-write_rules :
      (n m : Text) (rules : List AclRule) (owners : List A) (a : A)
      → find_owner o n owners ≡ some a
      → rules_named m (write_rules o n rules owners)
        ≡ (if text_eq n m then rules else rules_named m owners)
  unfolding find_owner rules_named write_rules
  rules_named-write_rules n m rules [] a h = cc
  rules_named-write_rules n m rules (b ∷ owners) a h = ground (
    arith,
    rules_named-write_rules n m rules owners a,
    o.rules-with_rules b rules,
    o.name-with_rules b rules,
    text_eq_iff (o.name b) n,
    text_eq_iff (o.name b) m,
    text_eq_iff n m,
  )

  pub find_owner-write_rules :
      (n : Text) (rules : List AclRule) (owners : List A) (a : A)
      → find_owner o n owners ≡ some a
      → find_owner o n (write_rules o n rules owners) ≡ some (o.with_rules a rules)
  unfolding find_owner write_rules
  find_owner-write_rules n rules [] a h = cc
  find_owner-write_rules n rules (b ∷ owners) a h =
      ground (arith, find_owner-write_rules n rules owners a, o.name-with_rules b rules)

  pub rules_named-new :
      (n m : Text) (rules : List AclRule) (owners : List A)
      → find_owner o n owners ≡ none
      → rules_named m (owners ++ o.with_rules (o.fresh n) rules ∷ [])
        ≡ (if text_eq n m then rules else rules_named m owners)
  unfolding find_owner rules_named
  rules_named-new n m rules [] h = ground (
    arith,
    o.name-with_rules (o.fresh n) rules,
    o.name-fresh n,
    o.rules-with_rules (o.fresh n) rules,
  )
  rules_named-new n m rules (b ∷ owners) h = ground (
    arith,
    rules_named-new n m rules owners,
    text_eq_iff (o.name b) n,
    text_eq_iff (o.name b) m,
    text_eq_iff n m,
  )

  pub find_owner-new :
      (n : Text) (rules : List AclRule) (owners : List A)
      → find_owner o n owners ≡ none
      → find_owner o n (owners ++ o.with_rules (o.fresh n) rules ∷ [])
        ≡ some (o.with_rules (o.fresh n) rules)
  unfolding find_owner
  find_owner-new n rules [] h =
      ground (arith, o.name-with_rules (o.fresh n) rules, o.name-fresh n, text_eq_iff n n)
  find_owner-new n rules (b ∷ owners) h = ground (arith, find_owner-new n rules owners)
