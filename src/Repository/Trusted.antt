-- ===== src/Repository/Trusted.antt =====
-- src/mirenai/repository/trusted_networks.py: the networks that are answered, and
-- src/mirenai/repository/blocklist_overrides.py: the domains that no blocklist blocks. A result
-- `none` of a creation is the error of the unique column.
use mirenai.Prelude.{
  Bool, List, Option, [], contains, false, if◌then◌else◌, length, list_eq, nat_eq, none, not,
  pair_eq, some, true, ℕ, ◌++◌, ◌∷◌,
}
use mirenai.Python.Text.{Text}
use mirenai.Repository.Rows.{get_row, next_row_id, other_rows}
use mirenai.Repository.Select.{order_by, page_rows}
use mirenai.Repository.Texts.{text_ltb}

pub record TrustedNetwork : Type 0 where
  pub id : ℕ
  pub cidr : Text
  pub description : Option Text

abbrev pub cidrs_of : List TrustedNetwork → List Text
cidrs_of [] = []
cidrs_of (n ∷ ns) = n.cidr ∷ cidrs_of ns

unfoldable pub list_trusted_networks : Option ℕ → ℕ → List TrustedNetwork → List TrustedNetwork
list_trusted_networks limit offset ns =
    page_rows limit offset (order_by (λ x y. not (text_ltb y.cidr x.cidr)) ns)

unfoldable pub count_trusted_networks : List TrustedNetwork → ℕ
count_trusted_networks ns = length ns

abbrev pub get_trusted_network : ℕ → List TrustedNetwork → Option TrustedNetwork
get_trusted_network id ns = get_row (λ n. n.id) id ns

unfoldable pub create_trusted_network :
    Text → Option Text → List TrustedNetwork → Option (List TrustedNetwork × TrustedNetwork)
create_trusted_network cidr description ns =
    let n : TrustedNetwork = record {
      id = next_row_id (λ (x : TrustedNetwork). x.id) ns;
      cidr = cidr;
      description = description;
    } in
    if contains (cidrs_of ns) cidr then none else some (ns ++ n ∷ [], n)

unfoldable pub delete_trusted_network : ℕ → List TrustedNetwork → List TrustedNetwork × Bool
delete_trusted_network id ns = elim (get_trusted_network id ns) [
  | none ↦ (ns, false)
  | some n ↦ (other_rows (λ (x : TrustedNetwork). x.id) id ns, true)
]

unfoldable pub load_trusted_networks : List TrustedNetwork → List Text
load_trusted_networks ns = cidrs_of ns

pub record BlocklistOverride : Type 0 where
  pub id : ℕ
  pub domain : Text

abbrev pub override_domains : List BlocklistOverride → List Text
override_domains [] = []
override_domains (o ∷ os) = o.domain ∷ override_domains os

unfoldable pub list_overrides : Option ℕ → ℕ → List BlocklistOverride → List BlocklistOverride
list_overrides limit offset os =
    page_rows limit offset (order_by (λ x y. not (text_ltb y.domain x.domain)) os)

unfoldable pub count_overrides : List BlocklistOverride → ℕ
count_overrides os = length os

unfoldable pub create_override :
    Text → List BlocklistOverride → Option (List BlocklistOverride × BlocklistOverride)
create_override domain os =
    let o : BlocklistOverride = record {
      id = next_row_id (λ (x : BlocklistOverride). x.id) os;
      domain = domain;
    } in
    if contains (override_domains os) domain then none else some (os ++ o ∷ [], o)

unfoldable pub delete_override : ℕ → List BlocklistOverride → List BlocklistOverride × Bool
delete_override id os = elim (get_row (λ (x : BlocklistOverride). x.id) id os) [
  | none ↦ (os, false)
  | some o ↦ (other_rows (λ (x : BlocklistOverride). x.id) id os, true)
]

unfoldable pub load_override_domains : List BlocklistOverride → List Text
load_override_domains os = override_domains os
