-- ===== src/Tests/Sites.antt =====
-- The blocklists, zones, hosts and settings of src/mirenai/repository at concrete inputs.
use mirenai.Repository.Select.{where_rows}
use mirenai.Repository.Policies.{Policy}
use mirenai.Prelude.{
  All, List, Option, [], arith, contains, false, if◌then◌else◌, length, list_eq, nat_eq, none,
  pair_eq, refl, some, true, ℕ, ◌==◌, ◌∷◌, ◌≡◌, not,
}
use mirenai.Buffers.Queries.{QueryKey}
use mirenai.Buffers.Requests.{RequestKey}
use mirenai.Buffers.Stats.{StatKey}
use mirenai.LocalZones.{LocalRecord}
use mirenai.Policy.{action_deny}
use mirenai.Python.Dict.{Dict}
use mirenai.Python.Int.Digits.{show_base}
use mirenai.Python.Str.Strip.{lower}
use mirenai.Python.Text.{Text, codes}
use mirenai.Repository.Blocklists.{Blocklist}
use mirenai.Repository.Blocklists.Domains.{DomainTable, replace_domains}
use mirenai.Repository.Blocklists.Lookup.{
  annotate_blocked, annotate_blocked-eq-flagged, flagged, load_blocklist_domains,
}
use mirenai.Repository.Blocklists.Replace.{get-replace_domains, kept_or_new}
use mirenai.Repository.ClientStats.Chart.{zero_stat}
use mirenai.Repository.Hosts.{Host, HostTables, delete_host, get_host}
use mirenai.Repository.Hosts.Records.{delete_host_cascade}
use mirenai.Repository.Like.{ilike, ilike-search_term, occurs_in, search_term}
use mirenai.Repository.Policies.{wildcard_policy}
use mirenai.Repository.Rows.{get_row}
use mirenai.Repository.Settings.{get-update_settings, load_runtime_settings, update_settings}
use mirenai.Repository.Zones.{LocalZone, ZoneRecord}
use mirenai.Repository.Zones.Records.{count-list_all_records, count_all_records, list_all_records}
use mirenai.Python.Dict
use mirenai.Repository.Settings.{of_int}

abbrev ads : Text
ads = codes "ads.com"

abbrev domain_table : DomainTable
domain_table = ((1, ads), 5) ∷ ((1, codes "old.com"), 5) ∷ ((2, ads), 6) ∷ []

get-replace_domains_example :
    Dict.get (1, codes "new.com") (replace_domains 9 1 (ads ∷ codes "new.com" ∷ []) domain_table)
    ≡ (if ◌==◌ {A = ℕ} 1 1
        then (if contains (ads ∷ codes "new.com" ∷ []) (codes "new.com")
            then some (kept_or_new 9 (Dict.get (1, codes "new.com") domain_table))
            else none)
        else Dict.get (1, codes "new.com") domain_table)
get-replace_domains_example =
    get-replace_domains 9 1 (ads ∷ codes "new.com" ∷ []) domain_table 1 (codes "new.com")

abbrev hosts_list : Blocklist
hosts_list = record {
  id = 1;
  name = codes "ads";
  url = codes "https://a.org/ads";
  update_interval_hours = 24;
  enabled = true;
  domain_count = 2;
  last_downloaded_at = none;
  last_status = none;
  format = none;
}

abbrev shown_names : List Text
shown_names = codes "X.ads.com." ∷ codes "a.org" ∷ []

annotate_blocked-eq-flagged_example :
    annotate_blocked shown_names (hosts_list ∷ []) domain_table
    ≡ flagged (load_blocklist_domains (hosts_list ∷ []) domain_table) shown_names
unfolding load_blocklist_domains
annotate_blocked-eq-flagged_example =
    annotate_blocked-eq-flagged shown_names (hosts_list ∷ []) domain_table refl

abbrev home_zone : LocalZone
home_zone = record {
  id = 1;
  name = codes "home";
  url = codes "https://a.org/zone";
  update_interval_seconds = 60;
  enabled = true;
  record_count = 1;
  last_downloaded_at = none;
  last_status = none;
}

abbrev nas : LocalRecord
nas = record { name = codes "nas.lan"; rtype = codes "A"; value = codes "10.0.0.9"; ttl = 60 }

abbrev zone_table : List ZoneRecord
zone_table = (1, nas) ∷ []

count-list_all_records_example :
    length (list_all_records none 0 (codes "nas") (codes "A") (home_zone ∷ []) zone_table)
    ≡ count_all_records (codes "nas") (codes "A") zone_table
unfolding get_row
count-list_all_records_example =
    count-list_all_records 0 (codes "nas") (codes "A") (home_zone ∷ []) zone_table (refl, tt)

ilike-search_term_example :
    ilike (codes "A%B.org") (search_term (codes "%b"))
    ≡ occurs_in (lower (codes "%b")) (lower (codes "A%B.org"))
ilike-search_term_example = ilike-search_term (codes "A%B.org") (codes "%b")

abbrev laptop : Host
laptop = record {
  id = 1;
  ip = codes "10.0.0.5";
  device_name = none;
  icon = none;
  mac_address = none;
  excluded_from_blocklist = false;
  flag_new_domains = true;
  query_count = 3;
  first_seen = 1;
  last_seen = 2;
}

abbrev house : HostTables
house = record {
  hosts = laptop ∷ record laptop { id = 2; ip = codes "10.0.0.6" } ∷ [];
  stats = ((0, codes "10.0.0.5"), zero_stat) ∷ ((0, codes "10.0.0.6"), zero_stat) ∷ [];
  requests = [];
  log = [];
  policies =
      wildcard_policy 1 (codes "10.0.0.5") action_deny
      ∷ wildcard_policy 2 (codes "10.0.0.6") action_deny
      ∷ [];
}

delete_host_cascade_example :
    let (s', found) = delete_host 1 house in
    (found ≡ true)
    × ((j : ℕ) → get_host j s'.hosts ≡ (if j == 1 then none else get_host j house.hosts))
    × ((k : StatKey)
        → Dict.get k s'.stats ≡ (if k.1 == codes "10.0.0.5" then none else Dict.get k house.stats))
    × ((k : RequestKey)
        → Dict.get k s'.requests
          ≡ (if k.0 == codes "10.0.0.5" then none else Dict.get k house.requests))
    × ((k : QueryKey)
        → Dict.get k s'.log ≡ (if k.0 == codes "10.0.0.5" then none else Dict.get k house.log))
    × (s'.policies ≡ where_rows (λ (p : Policy). not (p.client == codes "10.0.0.5")) house.policies)
    × All (λ p. (p.client == codes "10.0.0.5") ≡ false) s'.policies
unfolding get_row
delete_host_cascade_example = delete_host_cascade 1 house laptop refl

-- a float that is a whole number, for the test
abbrev read_whole : Text → Option Text
read_whole = λ s. some s

get-update_settings_example :
    Dict.get
      (codes "cache_max_ttl")
      (update_settings read_whole
        (λ x. x)
        (codes "5.0")
        ((codes "cache_max_ttl", of_int (false, 60)) ∷ [])
        []).1
    ≡ (if codes "cache_max_ttl" == codes "cache_max_ttl"
        then some (of_int (false, 60))
        else Dict.get
            (codes "cache_max_ttl")
            (load_runtime_settings read_whole (λ x. x) (codes "5.0") []))
unfolding show_base Dict.get
get-update_settings_example =
    get-update_settings read_whole (λ x. x) (codes "5.0") (λ x. refl) (codes "cache_max_ttl")
      (codes "cache_max_ttl") (of_int (false, 60)) (of_int (false, 3600)) [] refl
      (refl, refl, refl, omega arith) refl
