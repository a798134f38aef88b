-- ===== src/Tests/Lists.antt =====
-- src/mirenai/domain/blocklist.py and src/mirenai/domain/cache.py at concrete inputs.
use mirenai.Blocklist.{parse_blocklist, is_blocked}
use mirenai.Blocklist.Match.{is_blocked-Covers}
use mirenai.Blocklist.Parse.{IsListed, Source, parse_blocklist-exact}
use mirenai.Blocklist.Format.{format_eq}
use mirenai.Cache
use mirenai.Cache.{TtlCache, CacheEntry, second, evict, move_to_end, snapshot, live_entries}
use mirenai.Cache.Order.{IsValid, set-entries}
use mirenai.Cache.Reads.{get-set_self}
use mirenai.Python.Dict
use mirenai.Prelude.{
  Distinct, List, [], arith, contains, drop, if◌then◌else◌, leb, length, list_eq, nat_eq, none,
  pair_eq, refl, some, true, ℕ, ◌*◌, ◌++◌, ◌+◌, ◌-◌, ◌↔◌, ◌∷◌, ◌≡◌, ◌≢◌,
}
use mirenai.Policy.{normalize_domain}
use mirenai.Policy.Pattern.{Covers}
use mirenai.Python.Dict.{Dict}
use mirenai.Python.Str.Split.{splitlines}
use mirenai.Python.Text.{Text, codes}

abbrev listed : List Text
listed = codes "ads.com" ∷ codes "tracker.net" ∷ []

is_blocked-Covers_example : (is_blocked listed (codes "x.ads.com") ≡ true) ↔ (
    (normalize_domain (codes "x.ads.com") ≢ [])
    × ((d : Text) × (contains listed d ≡ true) × Covers d (normalize_domain (codes "x.ads.com"))))
is_blocked-Covers_example = is_blocked-Covers listed (codes "x.ads.com")

abbrev list_text : Text
list_text = codes "||ads.com^\n0.0.0.0 tracker.net # x\nads.com"

parse_blocklist-exact_example :
    Distinct (parse_blocklist list_text)
    × ((d : Text)
        → (contains (parse_blocklist list_text) d ≡ true) ↔ Source (splitlines list_text) d)
    × ((d : Text) → contains (parse_blocklist list_text) d ≡ true → IsListed d)
parse_blocklist-exact_example = parse_blocklist-exact list_text

abbrev small_cache : TtlCache ℕ
small_cache = record {
  max_entries = 2;
  entries = (codes "a", Cache.fresh 7 10 0) ∷ (codes "b", Cache.fresh 8 20 0) ∷ [];
}

small_cache-IsValid : IsValid small_cache
small_cache-IsValid = record {
  positive = omega arith;
  bounded = omega arith;
  distinct = (refl, (refl, tt));
}

set-entries_example :
    (Cache.set (codes "c") 9 30 5 small_cache).entries
    ≡ drop
        (length
            (Dict.remove (codes "c") small_cache.entries ++ (codes "c", Cache.fresh 9 30 5) ∷ [])
          - 2)
        (Dict.remove (codes "c") small_cache.entries ++ (codes "c", Cache.fresh 9 30 5) ∷ [])
set-entries_example = set-entries (codes "c") 9 30 5 small_cache

get-set_self_example :
    (Cache.get (codes "c") 6 (Cache.set (codes "c") 9 30 5 small_cache)).1
    ≡ (if leb (5 + 30 * second) 6 then none else some (Cache.fresh 9 30 5))
get-set_self_example = get-set_self (codes "c") 9 30 5 small_cache small_cache-IsValid 6
