-- ===== src/Acl/Crud/Targets.antt =====
-- src/acl/crud.rs: which rules the identifier of a rule matches.
use rust_socks.Prelude.{ℕ, suc, All, ◌↔◌, ◌≡◌, refl, sym, true, List, [], ◌∷◌, none, arith}
use rust_socks.Prelude.Text.{Text, text_eq_iff, text_eq_refl}
use rust_socks.Acl.Types.{AclRule}
use rust_socks.Acl.Crud.{identifier_matches, from_rule, texts_eq, find_rule_from}

texts_eq_refl : (ts : List Text) → texts_eq ts ts ≡ true
unfolding texts_eq
texts_eq_refl [] = refl
texts_eq_refl (t ∷ ts) = ground (arith, text_eq_refl t, texts_eq_refl ts)

pub from_rule-matches : (rule : AclRule) → identifier_matches (from_rule rule) rule ≡ true
unfolding identifier_matches
from_rule-matches rule = ground (arith, texts_eq_refl rule.destinations, texts_eq_refl rule.ports)

texts_eq_iff : (xs ys : List Text) → (texts_eq xs ys ≡ true) ↔ (xs ≡ ys)
unfolding texts_eq
texts_eq_iff [] [] = ground arith
texts_eq_iff [] (y ∷ ys) = ground arith
texts_eq_iff (x ∷ xs) [] = ground arith
texts_eq_iff (x ∷ xs) (y ∷ ys) = ground (arith, text_eq_iff x y, texts_eq_iff xs ys)

-- Of two rules, that the destinations and the ports are the same texts in the same order.
abbrev pub SameTarget : AclRule → AclRule → Type 0
SameTarget r s = (r.destinations ≡ s.destinations) × (r.ports ≡ s.ports)

pub from_rule-SameTarget :
    (rule r : AclRule) → (identifier_matches (from_rule rule) r ≡ true) ↔ SameTarget r rule
unfolding identifier_matches
from_rule-SameTarget rule r =
    let destinations = texts_eq_iff rule.destinations r.destinations in
    let ports = texts_eq_iff rule.ports r.ports in
    (
      λ fits. (ground (arith, destinations), ground (arith, destinations, ports)),
      λ same. ground (arith, destinations.1 (sym same.0), ports.1 (sym same.1)),
    )

pub find_rule_from-none :
    (i : ℕ) (rule : AclRule) (rules : List AclRule)
    → find_rule_from i (from_rule rule) rules ≡ none
    → All (λ r. ¬ SameTarget r rule) rules
unfolding find_rule_from
find_rule_from-none i rule [] h = tt
find_rule_from-none i rule (r ∷ rules) h = (
  λ same. ground (arith, (from_rule-SameTarget rule r).1 same),
  find_rule_from-none (suc i) rule rules (ground (arith, from_rule-SameTarget rule r)),
)
