-- ===== src/Tests/Downloads.antt =====
-- The downloaders of src/mirenai/workers at concrete inputs.
use mirenai.Downloader.Cycle.{list_ids, no_lists, reached, unreached}
use mirenai.Downloader.Lists.{is_due}
use mirenai.Repository.Zones.{LocalZone}
use mirenai.LocalZones.{LocalRecord, rtype_a, rtype_ptr}
use mirenai.Downloader.Zones.{ZoneTables}
use mirenai.Prelude.{
  All, List, [], arith, contains, if◌then◌else◌, length, list_eq, nat_eq, none, not, pair_eq, refl,
  some, take, true, ℕ, ◌&&◌, ◌++◌, ◌==◌, ◌∷◌, ◌≡◌,
}
use mirenai.Blocklist.{parse_blocklist}
use mirenai.Blocklist.Format.{detect_format}
use mirenai.Downloader.Cycle.{Same, run_due_downloads, run_due_downloads_independent, try_refresh}
use mirenai.Downloader.Due.{IsSettled, run_due_downloads-IsSettled}
use mirenai.Downloader.Lists.{
  Refreshed, Tables, format_name, kept_domains, refresh_blocklist, refresh_blocklist_failed,
  refresh_blocklist_fetched,
}
use mirenai.Python.Dict.{Dict}
use mirenai.Python.Int.Digits.{show}
use mirenai.Python.Text.{Text, codes}
use mirenai.Repository.Blocklists.{Blocklist, get_blocklist, status_limit}
use mirenai.Repository.Blocklists.Replace.{kept_or_new}
use mirenai.Repository.Rows.{get_row}
use mirenai.Python.Dict
use mirenai.Downloader.Fetch.{Fetched, fetched, failed, uncaught}
use mirenai.Downloader.Lists.{updated}

-- the first list can be downloaded, and no other
abbrev downloads : ℕ → Text → Fetched
downloads = λ id url.
    if id == 1
    then fetched (codes "0.0.0.0 ads.com\n0.0.0.0 ok.com\n")
    else failed (codes "timed out")

abbrev list_of : ℕ → Blocklist
list_of = λ id. record {
  id = id;
  name = codes "ads";
  url = codes "https://a.org/ads";
  update_interval_hours = 24;
  enabled = true;
  domain_count = 0;
  last_downloaded_at = none;
  last_status = none;
  format = none;
}

abbrev two_lists : Tables
two_lists = record { lists = list_of 1 ∷ list_of 2 ∷ []; domains = ((2, codes "kept.com"), 5) ∷ [] }

abbrev exempt : List Text
exempt = codes "ok.com" ∷ []

refresh_blocklist_failed_example :
    let (s', result) = refresh_blocklist 9 exempt downloads 2 two_lists in
    (s'.domains ≡ two_lists.domains)
    × (result ≡ Refreshed.raised (codes "timed out"))
    × ((j : ℕ)
        → get_blocklist j s'.lists ≡ (
            if j == 2
            then some (record (list_of 2) {
              last_status = some (take status_limit (codes "error: " ++ codes "timed out"));
              last_downloaded_at = some 9;
            })
            else get_blocklist j two_lists.lists))
unfolding get_row
refresh_blocklist_failed_example =
    refresh_blocklist_failed 9 exempt downloads 2 two_lists (list_of 2) (codes "timed out") refl
      refl

abbrev hosts_text : Text
hosts_text = codes "0.0.0.0 ads.com\n0.0.0.0 ok.com\n"

refresh_blocklist_fetched_example :
    let (s', result) = refresh_blocklist 9 exempt downloads 1 two_lists in
    let stored = kept_domains exempt hosts_text in
    let row' : Blocklist = record (list_of 1) {
      domain_count = length stored;
      format = some (format_name (detect_format hosts_text));
      last_status = some (codes "ok: " ++ show (length stored) ++ codes " domains");
      last_downloaded_at = some 9;
    } in
    (result ≡ updated row')
    × ((j : ℕ)
        → get_blocklist j s'.lists
          ≡ (if j == 1 then some row' else get_blocklist j two_lists.lists))
    × ((j : ℕ) (d : Text)
        → Dict.get (j, d) s'.domains ≡ (
            if j == 1
            then (if contains (parse_blocklist hosts_text) d && not (contains exempt d)
                then some (kept_or_new 9 (Dict.get (1, d) two_lists.domains))
                else none)
            else Dict.get (j, d) two_lists.domains))
unfolding get_row
refresh_blocklist_fetched_example =
    refresh_blocklist_fetched 9 exempt downloads 1 two_lists (list_of 1) hosts_text refl refl

-- a list that fails, one that can be downloaded, one whose URL `urlopen` raises on, and one behind
abbrev bad_url : ℕ → Text → Fetched
bad_url = λ id url. if id == 3 then uncaught else downloads id url

abbrev four_lists : Tables
four_lists = record two_lists { lists = list_of 2 ∷ list_of 1 ∷ list_of 3 ∷ list_of 4 ∷ [] }

run_due_downloads_independent_example :
    All
      (λ row.
        Same row.id
          (run_due_downloads 9 exempt bad_url four_lists).0
          (try_refresh 9 exempt bad_url row four_lists).0)
      (reached 9 exempt bad_url four_lists.lists)
    × All
        (λ row. Same row.id (run_due_downloads 9 exempt bad_url four_lists).0 four_lists)
        (unreached 9 exempt bad_url four_lists.lists)
    × ((run_due_downloads 9 exempt bad_url four_lists).1
        ≡ no_lists (unreached 9 exempt bad_url four_lists.lists))
run_due_downloads_independent_example =
    run_due_downloads_independent 9 exempt bad_url four_lists (refl, (refl, (refl, (refl, tt))))

two_are_reached : list_ids (reached 9 exempt bad_url four_lists.lists) ≡ 2 ∷ 1 ∷ []
unfolding is_due
two_are_reached = refl

run_due_downloads-IsSettled_example :
    All
      (λ row.
        IsSettled 9 (get_blocklist row.id (run_due_downloads 9 exempt bad_url four_lists).0.lists))
      (reached 9 exempt bad_url four_lists.lists)
    × (no_lists (unreached 9 exempt bad_url four_lists.lists) ≡ true
        → reached 9 exempt bad_url four_lists.lists ≡ four_lists.lists)
run_due_downloads-IsSettled_example =
    run_due_downloads-IsSettled 9 exempt bad_url four_lists (refl, (refl, (refl, (refl, tt))))
      (omega arith, (omega arith, (omega arith, (omega arith, tt))))

abbrev home_zone : LocalZone
home_zone = record {
  id = 1;
  name = codes "home";
  url = codes "https://a.org/zone";
  update_interval_seconds = 60;
  enabled = true;
  record_count = 0;
  last_downloaded_at = none;
  last_status = none;
}

abbrev one_zone : ZoneTables
one_zone = record { zones = home_zone ∷ []; records = [] }

abbrev lan_text : Text
lan_text = codes "10.0.0.9,nas.lan,60"

abbrev lan_zone : ℕ → Text → Fetched
lan_zone = λ id url. fetched lan_text

abbrev lan_records : List LocalRecord
lan_records =
    record { name = codes "nas.lan"; rtype = rtype_a; value = codes "10.0.0.9"; ttl = 60 }
    ∷ record {
      name = codes "9.0.0.10.in-addr.arpa";
      rtype = rtype_ptr;
      value = codes "nas.lan";
      ttl = 60;
    }
    ∷ []
