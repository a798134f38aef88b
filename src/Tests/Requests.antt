-- ===== src/Tests/Requests.antt =====
-- The handlers of src/mirenai/api at concrete inputs.
use mirenai.Prelude.{List, [], list_eq, nat_eq, none, pair_eq, some, true, ◌∷◌}
use mirenai.Api.Routes.{
  IsUnchanged, create_policy_route, delete_policy_route, policy_routes_lem, update_policy_route,
}
use mirenai.Api.Schemas.{PolicyBody}
use mirenai.Policy.{action_deny}
use mirenai.Python.Text.{codes}
use mirenai.Repository.Policies.{Policy, PolicyChange, wildcard_policy}

abbrev deny_body : PolicyBody
deny_body = record {
  client = codes "10.0.0.5";
  domain = codes "ads.com";
  action = action_deny;
  override_response = none;
  override_ttl = 300;
  enabled = true;
  description = none;
}

-- the change of the first policy that makes it equal to the second
abbrev clash : PolicyChange
clash = record {
  client = some (codes "10.0.0.6");
  domain = none;
  action = none;
  override_response = none;
  override_ttl = none;
  enabled = none;
  description = none;
}

abbrev stored_policies : List Policy
stored_policies =
    wildcard_policy 1 (codes "10.0.0.5") action_deny
    ∷ wildcard_policy 2 (codes "10.0.0.6") action_deny
    ∷ []

policy_routes_lem_example :
    IsUnchanged stored_policies (create_policy_route deny_body stored_policies)
    × IsUnchanged stored_policies (update_policy_route 1 clash stored_policies)
    × IsUnchanged stored_policies (delete_policy_route 1 stored_policies)
policy_routes_lem_example = policy_routes_lem deny_body 1 clash stored_policies
