-- ===== src/Repository/Upstreams.antt =====
-- src/mirenai/repository/upstreams.py: the configured upstreams. The times of creation and change are
-- left out.
use mirenai.Prelude.{
  All, Bool, Bool-cases, List, Option, [], arith, false, inl, inr, length, list_eq, ltb, map,
  nat_eq, none, not, pair_eq, some, true, ℕ, ◌++◌, ◌∷◌, ◌≤◌,
}
use mirenai.Python.Text.{Text, codes}
use mirenai.Repository.Blocklists.{get_or}
use mirenai.Repository.Rows.{change_row, get_row, next_row_id, other_rows}
use mirenai.Repository.Select.{insert_row, order_by, page_rows, where_rows}
use mirenai.State.{UpstreamServer}

pub record Upstream : Type 0 where
  pub id : ℕ
  pub name : Option Text
  pub address : Text
  pub port : ℕ
  pub protocol : Text
  pub enabled : Bool
  pub priority : ℕ

-- the fields that a client sends; `none` is a field that is absent
pub record UpstreamData : Type 0 where
  pub name : Option (Option Text)
  pub address : Option Text
  pub port : Option ℕ
  pub protocol : Option Text
  pub enabled : Option Bool
  pub priority : Option ℕ

-- by priority and then by id
abbrev pub upstream_before : Upstream → Upstream → Bool
upstream_before x y = not (ltb y.priority x.priority)

unfoldable pub list_upstreams : Option ℕ → ℕ → List Upstream → List Upstream
list_upstreams limit offset us = page_rows limit offset (order_by upstream_before us)

unfoldable pub count_upstreams : List Upstream → ℕ
count_upstreams us = length us

abbrev pub get_upstream : ℕ → List Upstream → Option Upstream
get_upstream id us = get_row (λ u. u.id) id us

-- The address is required by the API.
abbrev pub upstream_of : ℕ → Text → UpstreamData → Upstream
upstream_of id address d = record {
  id = id;
  name = get_or none d.name;
  address = address;
  port = get_or 53 d.port;
  protocol = get_or (codes "udp") d.protocol;
  enabled = get_or true d.enabled;
  priority = get_or 100 d.priority;
}

unfoldable pub create_upstream : Text → UpstreamData → List Upstream → List Upstream × Upstream
create_upstream address d us =
    let u = upstream_of (next_row_id (λ (x : Upstream). x.id) us) address d in (us ++ u ∷ [], u)

abbrev pub upstream_applied : UpstreamData → Upstream → Upstream
upstream_applied d u = record u {
  name = get_or u.name d.name;
  address = get_or u.address d.address;
  port = get_or u.port d.port;
  protocol = get_or u.protocol d.protocol;
  enabled = get_or u.enabled d.enabled;
  priority = get_or u.priority d.priority;
}

unfoldable pub update_upstream :
    ℕ → UpstreamData → List Upstream → Option (List Upstream × Upstream)
update_upstream id d us = elim (get_upstream id us) [
  | none ↦ none
  | some u ↦
      some (change_row (λ (x : Upstream). x.id) id (upstream_applied d) us, upstream_applied d u)
]

unfoldable pub delete_upstream : ℕ → List Upstream → List Upstream × Bool
delete_upstream id us = elim (get_upstream id us) [
  | none ↦ (us, false)
  | some u ↦ (other_rows (λ (x : Upstream). x.id) id us, true)
]

abbrev pub server_of : Upstream → UpstreamServer
server_of u = record {
  address = u.address;
  port = u.port;
  protocol = u.protocol;
  priority = u.priority;
}

unfoldable pub load_upstreams : List Upstream → List UpstreamServer
load_upstreams us =
    map server_of (order_by upstream_before (where_rows (λ (u : Upstream). u.enabled) us))

unfoldable pub ensure_default_upstream : List Upstream → List Upstream
ensure_default_upstream [] =
    record {
      id = 1;
      name = some (codes "Google Public DNS");
      address = codes "8.8.8.8";
      port = 53;
      protocol = codes "udp";
      enabled = true;
      priority = 100;
    }
    ∷ []
ensure_default_upstream (u ∷ us) = u ∷ us

-- No server of the list comes after one with a greater priority.
abbrev pub IsRanked : List UpstreamServer → Type 0
IsRanked [] = Unit
IsRanked (s ∷ ss) = All (λ r. s.priority ≤ r.priority) ss × IsRanked ss

insert-IsRanked :
    (u : Upstream) (us : List Upstream)
    → IsRanked (map server_of us)
    → IsRanked (map server_of (insert_row upstream_before u us))
insert-IsRanked u [] h = (tt, tt)
insert-IsRanked u (w ∷ us) h = elim (Bool-cases (upstream_before u w)) [
  | inl first ↦
      let le : u.priority ≤ w.priority = ground arith in
      rw first ((le, ranked_below us u.priority w.priority le h.0), h)
  | inr later ↦
      let le : w.priority ≤ u.priority = ground arith in
      rw later (inserted_above us u w.priority le h.0, insert-IsRanked u us h.1)
]
  where
    ranked_below :
        (vs : List Upstream) (m n : ℕ)
        → m ≤ n
        → All (λ r. n ≤ r.priority) (map server_of vs)
        → All (λ r. m ≤ r.priority) (map server_of vs)
    ranked_below [] m n p k = tt
    ranked_below (v ∷ vs) m n p k = (omega (arith, k.0), ranked_below vs m n p k.1)

    inserted_above :
        (vs : List Upstream) (x : Upstream) (m : ℕ)
        → m ≤ x.priority
        → All (λ r. m ≤ r.priority) (map server_of vs)
        → All (λ r. m ≤ r.priority) (map server_of (insert_row upstream_before x vs))
    inserted_above [] x m p k = (p, tt)
    inserted_above (v ∷ vs) x m p k = elim (Bool-cases (upstream_before x v)) [
      | inl e ↦ rw e (p, k)
      | inr e ↦ rw e (k.0, inserted_above vs x m p k.1)
    ]

IsRanked-all : (us : List Upstream) → IsRanked (map server_of (order_by upstream_before us))
unfolding order_by
IsRanked-all [] = tt
IsRanked-all (u ∷ us) = insert-IsRanked u (order_by upstream_before us) (IsRanked-all us)

-- The server is given its upstreams in the order of their priorities, the least number first.
pub load_upstreams-IsRanked : (us : List Upstream) → IsRanked (load_upstreams us)
unfolding load_upstreams
load_upstreams-IsRanked us = IsRanked-all (where_rows (λ (u : Upstream). u.enabled) us)
