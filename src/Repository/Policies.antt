-- ===== src/Repository/Policies.antt =====
-- src/mirenai/repository/policies.py: the stored policies, read as rules, and the mode of a client.
-- The times of creation and change are left out. A result `none` is the error of the constraint
-- that client and domain are unique.
use mirenai.Prelude.{
  ℕ, ◌+◌, max, Bool, true, false, ◌&&◌, ◌||◌, List, [], ◌∷◌, ◌++◌, Option, none, some, ◌==◌, nat_eq,
  list_eq, not, take, drop, length, if◌then◌else◌,
}
use mirenai.Python.Text.{Text}
use mirenai.Policy.{PolicyRule, wildcard}

pub record Policy : Type 0 where
  pub id : ℕ
  pub client : Text
  pub domain : Text
  pub action : Text
  pub override_response : Option Text
  pub override_ttl : ℕ
  pub enabled : Bool
  pub description : Option Text

-- an `INTEGER PRIMARY KEY`: one more than the greatest id
abbrev pub next_id : List Policy → ℕ
next_id [] = 1
next_id (p ∷ ps) = max (p.id + 1) (next_id ps)

abbrev pub has_key : Text → Text → Policy → Bool
has_key client domain p = p.client == client && p.domain == domain

abbrev pub key_taken : Text → Text → List Policy → Bool
key_taken client domain [] = false
key_taken client domain (p ∷ ps) = has_key client domain p || key_taken client domain ps

-- the columns that a client sends
pub record PolicyData : Type 0 where
  pub client : Text
  pub domain : Text
  pub action : Text
  pub override_response : Option Text
  pub override_ttl : ℕ
  pub enabled : Bool
  pub description : Option Text

abbrev pub policy_of : ℕ → PolicyData → Policy
policy_of id d = record {
  id = id;
  client = d.client;
  domain = d.domain;
  action = d.action;
  override_response = d.override_response;
  override_ttl = d.override_ttl;
  enabled = d.enabled;
  description = d.description;
}

unfoldable pub create_policy : PolicyData → List Policy → Option (List Policy × Policy)
create_policy d ps =
    let p = policy_of (next_id ps) d in
    if key_taken d.client d.domain ps then none else some (ps ++ p ∷ [], p)

unfoldable pub get_policy : ℕ → List Policy → Option Policy
get_policy id [] = none
get_policy id (p ∷ ps) = if p.id == id then some p else get_policy id ps

-- the table without the row, and whether there was one
unfoldable pub delete_policy : ℕ → List Policy → List Policy × Bool
delete_policy id [] = ([], false)
delete_policy id (p ∷ ps) =
    let (rest, found) = delete_policy id ps in if p.id == id then (ps, true) else (p ∷ rest, found)

-- the row of a client with the domain `*`
unfoldable pub wildcard_row : Text → List Policy → Option Policy
wildcard_row client [] = none
wildcard_row client (p ∷ ps) = if has_key client wildcard p then some p else wildcard_row client ps

-- `Policy(client=client, domain=WILDCARD, action=mode)` with the defaults of the columns
abbrev pub wildcard_policy : ℕ → Text → Text → Policy
wildcard_policy id client mode = record {
  id = id;
  client = client;
  domain = wildcard;
  action = mode;
  override_response = none;
  override_ttl = 300;
  enabled = true;
  description = none;
}

-- the mode, and the id of the row that gives it
abbrev pub mode_of : Text → Option Policy → Text × Option ℕ
mode_of default_action none = (default_action, none)
mode_of default_action (some p) = (p.action, some p.id)

unfoldable pub get_client_mode : Text → Text → List Policy → Text × Option ℕ
get_client_mode default_action client ps = mode_of default_action (wildcard_row client ps)

-- `row.action = mode` for the first row of the client with the domain `*`
abbrev pub set_action : Text → Text → List Policy → List Policy
set_action client mode [] = []
set_action client mode (p ∷ ps) =
    let rest = set_action client mode ps in
    if has_key client wildcard p then record p { action = mode } ∷ ps else p ∷ rest

unfoldable pub set_client_mode : Text → Text → List Policy → List Policy
set_client_mode client mode ps = elim (wildcard_row client ps) [
  | none ↦ ps ++ wildcard_policy (next_id ps) client mode ∷ []
  | some p ↦ set_action client mode ps
]

unfoldable pub ensure_client_policy : Text → Text → List Policy → List Policy
ensure_client_policy client action ps = elim (wildcard_row client ps) [
  | none ↦ ps ++ wildcard_policy (next_id ps) client action ∷ []
  | some p ↦ ps
]

-- `load_rules`: the enabled rows, as rules
unfoldable pub load_rules : List Policy → List PolicyRule
load_rules [] = []
load_rules (p ∷ ps) =
    let rest = load_rules ps in
    if p.enabled
    then record {
      client = p.client;
      domain = p.domain;
      action = p.action;
      override_response = p.override_response;
      override_ttl = p.override_ttl;
    }
      ∷ rest
    else rest

-- `list_policies`, in the order of the ids, and `count_policies`
unfoldable pub list_policies : Option ℕ → ℕ → List Policy → List Policy
list_policies none offset ps = ps
list_policies (some limit) offset ps = take limit (drop offset ps)

unfoldable pub count_policies : List Policy → ℕ
count_policies ps = length ps

-- the fields that an update sends; `none` is a field that is absent. A null for a column that cannot
-- be null, which the database refuses, is left out.
pub record PolicyChange : Type 0 where
  pub client : Option Text
  pub domain : Option Text
  pub action : Option Text
  pub override_response : Option (Option Text)
  pub override_ttl : Option ℕ
  pub enabled : Option Bool
  pub description : Option (Option Text)

abbrev pub or_old {ℓ} : {A : Type ℓ} → Option A → A → A
or_old none old = old
or_old (some new) old = new

abbrev pub changed : PolicyChange → Policy → Policy
changed c p = record {
  id = p.id;
  client = or_old c.client p.client;
  domain = or_old c.domain p.domain;
  action = or_old c.action p.action;
  override_response = or_old c.override_response p.override_response;
  override_ttl = or_old c.override_ttl p.override_ttl;
  enabled = or_old c.enabled p.enabled;
  description = or_old c.description p.description;
}

-- the row with the id, replaced
abbrev pub replace_policy : ℕ → Policy → List Policy → List Policy
replace_policy id new [] = []
replace_policy id new (p ∷ ps) =
    let rest = replace_policy id new ps in if p.id == id then new ∷ ps else p ∷ rest

-- whether another row has the client and the domain
abbrev pub taken_by_other : ℕ → Policy → List Policy → Bool
taken_by_other id new [] = false
taken_by_other id new (p ∷ ps) =
    (not (p.id == id) && has_key new.client new.domain p) || taken_by_other id new ps

unfoldable pub update_policy : ℕ → PolicyChange → List Policy → Option (List Policy × Option Policy)
unfolding get_policy
update_policy id c ps = elim (get_policy id ps) [
  | none ↦ some (ps, none)
  | some p ↦
      if taken_by_other id (changed c p) ps
      then none
      else some (replace_policy id (changed c p) ps, some (changed c p))
]
