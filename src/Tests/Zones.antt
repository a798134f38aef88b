-- ===== src/Tests/Zones.antt =====
-- src/mirenai/domain/network.py, localzones.py and state.py at concrete inputs.
use mirenai.Network.{from_cidrs, is_trusted, Admits, is_trusted-from_cidrs}
use mirenai.LocalZones.{
  LocalRecord, parse_zone, keys_of, RecordKey, line_records, expand, is_valid_name, add_zone_lines,
  add_records, parse_ttl, local_records, owns, records_of, cname, record_count, rtype_a,
  rtype_cname,
}
use mirenai.LocalZones.Parse.{Gives, parse_zone-exact}
use mirenai.LocalZones.Serve.{IsServable, parse_zone-IsServable}
use mirenai.LocalZones.Index.{named, typed, local_records-answers}
use mirenai.State.{Loaded, empty_state, refresh_loop, IsLoadedBy, refresh_loop-atomic}
use mirenai.CacheView.{split_key}
use mirenai.CacheView.Rows.{split_key-cache_key}
use mirenai.Resolver.Keys.{cache_key}
use mirenai.Prelude.{
  All, Distinct, List, [], contains, false, head?, length, list_eq, nat_eq, none, pair_eq, refl,
  some, true, ◌++◌, ◌↔◌, ◌∷◌, ◌≡◌, ◌⊎◌,
}
use mirenai.Policy.{normalize_domain}
use mirenai.Python.Int.Digits.{show}
use mirenai.Python.Ip.{ip_network, Network, Addr, ip_address, reverse_pointer}
use mirenai.Python.Str.Split.{split, splitlines}
use mirenai.Python.Str.Strip.{strip}
use mirenai.Python.Text.{Text, codes}

abbrev home : List Text
home = codes "192.168.0.0/16" ∷ codes "nonsense" ∷ []

is_trusted-from_cidrs_example :
    (All (λ c. ip_network c ≡ none) home
      → is_trusted (from_cidrs home) (codes "192.168.1.7") ≡ true)
    × ((cidr : Text) (net : Network)
        → contains home cidr ≡ true
        → ip_network cidr ≡ some net
        → (ip_address (codes "192.168.1.7") ≡ none
            → is_trusted (from_cidrs home) (codes "192.168.1.7") ≡ false)
          × ((addr : Addr)
              → ip_address (codes "192.168.1.7") ≡ some addr
              → (is_trusted (from_cidrs home) (codes "192.168.1.7") ≡ true) ↔ Admits home addr))
is_trusted-from_cidrs_example = is_trusted-from_cidrs home (codes "192.168.1.7")

abbrev zone_text : Text
zone_text = codes "www.lan,a.lan,60 # web\n\nbad\nwww.lan,a.lan"

abbrev zone_records : List LocalRecord
zone_records =
    record { name = codes "a.lan"; rtype = rtype_cname; value = codes "www.lan"; ttl = 60 } ∷ []

zone_parsed : parse_zone zone_text 300 ≡ some zone_records
unfolding parse_zone add_zone_lines add_records line_records expand is_valid_name parse_ttl
    splitlines split strip ip_address normalize_domain
zone_parsed = refl

-- An address with a scope id stops the parsing of the whole text.
scoped_address : parse_zone (codes "www.lan,a.lan\nfe80::1%eth0,host.lan") 300 ≡ none
unfolding parse_zone add_zone_lines add_records line_records expand is_valid_name parse_ttl
    splitlines split strip ip_address reverse_pointer normalize_domain
scoped_address = refl

parse_zone-exact_example :
    ((rs : List LocalRecord)
      → parse_zone zone_text 300 ≡ some rs
      → Distinct (keys_of rs)
        × ((k : RecordKey)
            → (contains (keys_of rs) k ≡ true)
              ↔ ((l : Text) × (contains (splitlines zone_text) l ≡ true) × Gives 300 l k)))
    × ((parse_zone zone_text 300 ≡ none)
        ↔ ((l : Text) × (contains (splitlines zone_text) l ≡ true) × (line_records 300 l ≡ none)))
parse_zone-exact_example = parse_zone-exact zone_text 300

parse_zone-IsServable_example : All IsServable zone_records
parse_zone-IsServable_example = parse_zone-IsServable zone_text 300 zone_parsed

local_records-answers_example :
    (owns (local_records zone_records) (codes "a.lan") ≡ named (codes "a.lan") zone_records)
    × (records_of (local_records zone_records) (codes "a.lan") rtype_a
        ≡ typed (codes "a.lan") rtype_a zone_records)
    × (cname (local_records zone_records) (codes "a.lan")
        ≡ head? (typed (codes "a.lan") rtype_cname zone_records))
    × (record_count (local_records zone_records) ≡ length zone_records)
local_records-answers_example = local_records-answers zone_records (codes "a.lan") rtype_a

abbrev failed : Loaded
failed = record {
  settings = some empty_state.settings;
  policies = none;
  upstreams = some [];
  blocklist = some [];
  blocklist_excluded = some [];
  trusted_networks = some [];
  local_records = some [];
}

abbrev loaded : Loaded
loaded = record {
  settings = some empty_state.settings;
  policies = some [];
  upstreams = some [];
  blocklist = some (codes "ads.com" ∷ []);
  blocklist_excluded = some [];
  trusted_networks = some home;
  local_records = some zone_records;
}

refresh_loop-atomic_example :
    (refresh_loop empty_state (loaded ∷ failed ∷ []) ≡ empty_state)
    ⊎ ((before : List Loaded) × (l : Loaded) × (after : List Loaded) × (loaded ∷ failed ∷ []
          ≡ before ++ l ∷ after)
        × IsLoadedBy l (refresh_loop empty_state (loaded ∷ failed ∷ [])))
refresh_loop-atomic_example = refresh_loop-atomic empty_state (loaded ∷ failed ∷ [])

split_key-cache_key_example :
    split_key (cache_key (codes "A.org.") 28 1)
    ≡ (normalize_domain (codes "A.org."), (show 28, show 1))
split_key-cache_key_example = split_key-cache_key (codes "A.org.") 28 1
