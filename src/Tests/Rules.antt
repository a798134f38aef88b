-- ===== src/Tests/Rules.antt =====
-- src/mirenai/domain/policy.py at concrete inputs.
use mirenai.Policy.{
  PolicyRule, select_policy, rule_key, normalize_domain, domain_specificity, client_matches,
  consider, select_from, action_deny, action_forward, wildcard,
}
use mirenai.Policy.Select.{IsFirstBest, select_policy-IsFirstBest}
use mirenai.Policy.Pattern.{normalize_domain_idem}
use mirenai.Prelude.{List, [], list_eq, nat_eq, none, pair_eq, refl, some, ℕ, ◌∷◌, ◌≡◌}
use mirenai.Python.Text.{Text, codes}

abbrev block_ads : PolicyRule
block_ads = record {
  client = wildcard;
  domain = codes "*.ads.com";
  action = action_deny;
  override_response = none;
  override_ttl = 300;
}

abbrev allow_one : PolicyRule
allow_one = record {
  client = codes "10.0.0.5";
  domain = codes "ok.ads.com";
  action = action_forward;
  override_response = none;
  override_ttl = 300;
}

abbrev two_rules : List PolicyRule
two_rules = block_ads ∷ allow_one ∷ []

abbrev query_name : Text
query_name = codes "OK.ads.com."

chosen : select_policy two_rules (codes "10.0.0.5") query_name ≡ some allow_one
unfolding select_policy select_from consider rule_key client_matches domain_specificity
    normalize_domain
chosen = refl

not_chosen : select_policy two_rules (codes "10.0.0.5") (codes "other.org") ≡ none
unfolding select_policy select_from consider rule_key client_matches domain_specificity
    normalize_domain
not_chosen = refl

select_policy-IsFirstBest_example :
    (key : ℕ × ℕ) × IsFirstBest
      (codes "10.0.0.5")
      (normalize_domain query_name)
      two_rules
      allow_one
      key
select_policy-IsFirstBest_example =
    select_policy-IsFirstBest two_rules (codes "10.0.0.5") query_name allow_one chosen

normalize_domain_idem_example :
    normalize_domain (normalize_domain query_name) ≡ normalize_domain query_name
normalize_domain_idem_example = normalize_domain_idem query_name
