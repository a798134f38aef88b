-- ===== src/Repository/Hosts.antt =====
-- src/mirenai/repository/hosts.py: the hosts that were seen, and the deletion of a host with all
-- that is stored about it. The time now is an argument.
pub mod Records
use mirenai.Python.Dict
use mirenai.Buffers.Stats.{StatKey}
use mirenai.Buffers.Queries.{QueryKey}
use mirenai.Buffers.Requests.{RequestKey}
use mirenai.Prelude.{
  All, Bool, Eq, List, Option, Option-cases, [], arith, false, if◌then◌else◌, inl, inr, length,
  list_beq_iff, list_eq, ltb, map, nat_eq, none, not, pair_eq, refl, some, true, ℕ, ◌++◌, ◌+◌, ◌==◌,
  ◌∷◌, ◌≡◌,
}
use mirenai.Buffers.Tally.{handed, hits_or_zero}
use mirenai.Python.Dict.{Dict}
use mirenai.Python.Text.{Text}
use mirenai.Repository.Blocklists.{get_or}
use mirenai.Repository.ClientRequests.{ClientRequest, RequestTable}
use mirenai.Repository.ClientStats.{HourlyStat, retention_hours}
use mirenai.Repository.ClientStats.Site.{sum_total_by_client}
use mirenai.Repository.Policies.{Policy}
use mirenai.Repository.QueryLog.{LogEntry, LogTable}
use mirenai.Repository.Rows.{change_row, get-other_rows, get_row, next_row_id, other_rows}
use mirenai.Repository.Select.{All-where_rows, get-where_rows, order_by, page_rows, where_rows}

pub record Host : Type 0 where
  pub id : ℕ
  pub ip : Text
  pub device_name : Option Text
  pub icon : Option Text
  pub mac_address : Option Text
  pub excluded_from_blocklist : Bool
  pub flag_new_domains : Bool
  pub query_count : ℕ
  pub first_seen : ℕ
  pub last_seen : ℕ

abbrev pub host_of_ip : Text → List Host → Option Host
host_of_ip ip [] = none
host_of_ip ip (h ∷ hs) = if h.ip == ip then some h else host_of_ip ip hs

-- the row that the address has, changed
abbrev pub change_ip : Text → (Host → Host) → List Host → List Host
change_ip ip f [] = []
change_ip ip f (h ∷ hs) = let rest = change_ip ip f hs in if h.ip == ip then f h ∷ hs else h ∷ rest

-- the row to insert, with the defaults of the columns
abbrev pub new_host : ℕ → ℕ → Text → ℕ → Host
new_host now id ip n = record {
  id = id;
  ip = ip;
  device_name = none;
  icon = none;
  mac_address = none;
  excluded_from_blocklist = false;
  flag_new_domains = true;
  query_count = n;
  first_seen = now;
  last_seen = now;
}

abbrev pub seen_again : ℕ → ℕ → Host → Host
seen_again now n h = record h { query_count = h.query_count + n; last_seen = now }

unfoldable pub record_host : ℕ → Text × ℕ → List Host → List Host
record_host now x hs = elim (host_of_ip x.0 hs) [
  | none ↦ hs ++ new_host now (next_row_id (λ (h : Host). h.id) hs) x.0 x.1 ∷ []
  | some h ↦ change_ip x.0 (seen_again now x.1) hs
]

unfoldable pub record_hosts : ℕ → Dict Text ℕ → List Host → List Host
record_hosts now [] hs = hs
record_hosts now (x ∷ counts) hs = record_hosts now counts (record_host now x hs)

unfoldable pub load_known_hosts : List Host → List Text
load_known_hosts [] = []
load_known_hosts (h ∷ hs) = h.ip ∷ load_known_hosts hs

unfoldable pub load_blocklist_excluded : List Host → List Text
load_blocklist_excluded [] = []
load_blocklist_excluded (h ∷ hs) =
    let rest = load_blocklist_excluded hs in if h.excluded_from_blocklist then h.ip ∷ rest else rest

unfoldable pub load_new_domain_unmonitored : List Host → List Text
load_new_domain_unmonitored [] = []
load_new_domain_unmonitored (h ∷ hs) =
    let rest = load_new_domain_unmonitored hs in if h.flag_new_domains then rest else h.ip ∷ rest

-- a host with its total over the last hours, 0 if it has none
abbrev pub attach_recent_totals : ℕ → Dict StatKey HourlyStat → List Host → List (Host × ℕ)
attach_recent_totals now stats [] = []
attach_recent_totals now stats (h ∷ hs) =
    let totals =
      sum_total_by_client now (some (map (λ (x : Host). x.ip) (h ∷ hs))) retention_hours stats in
    map (λ (x : Host). (x, hits_or_zero (Dict.get x.ip totals))) (h ∷ hs)

-- the hosts by `last_seen`, newest first, and then by id
unfoldable pub list_hosts : ℕ → Option ℕ → ℕ → Dict StatKey HourlyStat → List Host → List (Host × ℕ)
list_hosts now limit offset stats hs =
    attach_recent_totals now stats
      (page_rows limit offset (order_by (λ x y. not (ltb x.last_seen y.last_seen)) hs))

unfoldable pub count_hosts : List Host → ℕ
count_hosts hs = length hs

abbrev pub get_host : ℕ → List Host → Option Host
get_host id hs = get_row (λ h. h.id) id hs

-- the fields that a client sends; `none` is a field that is absent or, for the last two, null
pub record HostData : Type 0 where
  pub device_name : Option (Option Text)
  pub icon : Option (Option Text)
  pub excluded_from_blocklist : Option Bool
  pub flag_new_domains : Option Bool

abbrev pub host_applied : HostData → Host → Host
host_applied d h = record h {
  device_name = get_or h.device_name d.device_name;
  icon = get_or h.icon d.icon;
  excluded_from_blocklist = get_or h.excluded_from_blocklist d.excluded_from_blocklist;
  flag_new_domains = get_or h.flag_new_domains d.flag_new_domains;
}

unfoldable pub update_host : ℕ → HostData → List Host → Option (List Host × Host)
update_host id d hs = elim (get_host id hs) [
  | none ↦ none
  | some h ↦ some (change_row (λ (x : Host). x.id) id (host_applied d) hs, host_applied d h)
]

-- what the synchronization of the names sends
pub record NameData : Type 0 where
  pub device_name : Option (Option Text)
  pub icon : Option (Option Text)
  pub mac_address : Option (Option Text)

abbrev pub name_applied : NameData → Host → Host
name_applied d h = record h {
  device_name = get_or h.device_name d.device_name;
  icon = get_or h.icon d.icon;
  mac_address = get_or h.mac_address d.mac_address;
}

unfoldable pub update_host_by_ip : Text → NameData → List Host → Option (List Host × Host)
update_host_by_ip ip d hs = elim (host_of_ip ip hs) [
  | none ↦ none
  | some h ↦ some (change_ip ip (name_applied d) hs, name_applied d h)
]

-- the tables that the deletion of a host touches
pub record HostTables : Type 0 where
  pub hosts : List Host
  pub stats : Dict StatKey HourlyStat
  pub requests : RequestTable
  pub log : LogTable
  pub policies : List Policy

abbrev pub without_client : Text → HostTables → HostTables
without_client ip s = record s {
  stats = where_rows (λ (x : StatKey × HourlyStat). not (x.0.1 == ip)) s.stats;
  requests = where_rows (λ (x : RequestKey × ClientRequest). not (x.0.0 == ip)) s.requests;
  log = where_rows (λ (x : QueryKey × LogEntry). not (x.0.0 == ip)) s.log;
  policies = where_rows (λ (p : Policy). not (p.client == ip)) s.policies;
}

unfoldable pub delete_host : ℕ → HostTables → HostTables × Bool
delete_host id s = elim (get_host id s.hosts) [
  | none ↦ (s, false)
  | some h ↦
      (without_client h.ip (record s { hosts = other_rows (λ (x : Host). x.id) id s.hosts }), true)
]
