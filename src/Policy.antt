-- ===== src/Policy.antt =====
-- src/mirenai/domain/policy.py: rules on (client, domain) pairs, and the choice of the most
-- specific rule.
pub mod Pattern
pub mod Select
use mirenai.Prelude.{
  Bool, List, Option, [], drop, if◌then◌else◌, length, list_eq, ltb, nat_beq, nat_eq, none, pair_eq,
  some, ℕ, ◌&&◌, ◌+◌, ◌==◌, ◌||◌, ◌∷◌,
}
use mirenai.Python.Str.Affix.{ends_with, starts_with}
use mirenai.Python.Str.Strip.{lower, rstrip}
use mirenai.Python.Text.{Text, codes}

abbrev pub wildcard : Text
wildcard = codes "*"

abbrev pub action_forward : Text
action_forward = codes "forward"

abbrev pub action_override : Text
action_override = codes "override"

abbrev pub action_deny : Text
action_deny = codes "deny"

abbrev pub action_blocklist : Text
action_blocklist = codes "blocklist"

abbrev pub valid_actions : List Text
valid_actions = action_forward ∷ action_override ∷ action_deny ∷ action_blocklist ∷ []

pub record PolicyRule : Type 0 where
  pub client : Text
  pub domain : Text
  pub action : Text
  pub override_response : Option Text
  pub override_ttl : ℕ

unfoldable pub normalize_domain : Text → Text
unfolding lower rstrip
normalize_domain name = lower (rstrip b'.' name)

-- `_domain_specificity`
unfoldable pub domain_specificity : Text → Text → Option ℕ
unfolding lower rstrip
domain_specificity rule_domain qname =
    let pattern = lower (rstrip b'.' rule_domain) in
    if pattern == wildcard
    then some 0
    else if starts_with pattern (codes "*.")
    then (let suffix = drop 2 pattern in
        if qname == suffix || ends_with qname (b'.' ∷ suffix)
        then some (1000 + length suffix)
        else none)
    else if pattern == qname
    then some 1_000_000
    else none

-- `_client_matches`
unfoldable pub client_matches : Text → Text → Bool
client_matches rule_client client_ip = rule_client == wildcard || rule_client == client_ip

-- Python's order on pairs of numbers
abbrev pub key_lt : ℕ × ℕ → ℕ × ℕ → Bool
key_lt a b = ltb a.0 b.0 || (nat_beq a.0 b.0 && ltb a.1 b.1)

-- the key of a rule that applies to a client and a normalized name
unfoldable pub rule_key : Text → Text → PolicyRule → Option (ℕ × ℕ)
rule_key client_ip name rule =
    if client_matches rule.client client_ip
    then (elim (domain_specificity rule.domain name) [
      | none ↦ none
      | some specificity ↦ some (specificity, if rule.client == wildcard then 0 else 1)
    ])
    else none

abbrev pub Best : Type 0
Best = Option (PolicyRule × (ℕ × ℕ))

-- one round of the loop: the best rule so far with its key
unfoldable pub consider : Text → Text → Best → PolicyRule → Best
consider client_ip name best rule = elim (rule_key client_ip name rule) [
  | none ↦ best
  | some key ↦ elim best [
    | none ↦ some (rule, key)
    | some (old, best_key) ↦ if key_lt best_key key then some (rule, key) else some (old, best_key)
  ]
]

unfoldable pub select_from : Text → Text → Best → List PolicyRule → Best
select_from client_ip name best [] = best
select_from client_ip name best (rule ∷ rules) =
    select_from client_ip name (consider client_ip name best rule) rules

unfoldable pub select_policy : List PolicyRule → Text → Text → Option PolicyRule
select_policy rules client_ip qname =
    elim (select_from client_ip (normalize_domain qname) none rules) [
      | none ↦ none
      | some (rule, key) ↦ some rule
    ]
