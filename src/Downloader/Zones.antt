-- ===== src/Downloader/Zones.antt =====
-- src/mirenai/workers/local_zones.py: the refresh of the local zones. Unlike the parser of
-- blocklists, the parser of zones can raise; its exception is no download error.
use mirenai.Downloader.Fetch.{failed, fetched, uncaught}
use mirenai.Prelude.{
  Bool, List, Option, [], ap, false, if◌then◌else◌, length, list_eq, nat_eq, none, pair_eq, refl,
  some, take, true, ℕ, ◌&&◌, ◌*◌, ◌++◌, ◌==◌, ◌∷◌, ◌≡◌,
}
use mirenai.Cache.{second}
use mirenai.Downloader.Fetch.{Fetched}
use mirenai.Downloader.Lists.{past_due}
use mirenai.LocalZones.{LocalRecord, default_ttl, parse_zone}
use mirenai.Python.Text.{Text, codes}
use mirenai.Repository.Blocklists.{get_or, status_limit}
use mirenai.Repository.Rows.{get-changed}
use mirenai.Repository.Zones.{
  LocalZone, ZoneRecord, get_local_zone, replace_records, zone_failure, zone_success,
}

-- the two tables that a refresh writes
pub record ZoneTables : Type 0 where
  pub zones : List LocalZone
  pub records : List ZoneRecord

-- a download error, another exception, also of the parser, or the row of the zone after the refresh
pub data ZoneRefreshed : Type 0 where
  raised : Text → ZoneRefreshed
  crashed : ZoneRefreshed
  updated : LocalZone → ZoneRefreshed

abbrev pub parsed_zone : Text → Option (List LocalRecord)
parsed_zone text = parse_zone text default_ttl

unfoldable pub zone_is_due : ℕ → LocalZone → Bool
zone_is_due now row =
    row.enabled && past_due now (row.update_interval_seconds * second) row.last_downloaded_at

-- the time, and what a download gives for a zone and its URL
module _ (now : ℕ) (download : ℕ → Text → Fetched) where
  abbrev pub stored_zone :
      ℕ → LocalZone → Option (List LocalRecord) → ZoneTables → ZoneTables × ZoneRefreshed
  stored_zone id row none s = (s, crashed)
  stored_zone id row (some records) s =
      let after : ZoneTables = record {
        zones = zone_success now id (length records) s.zones;
        records = replace_records id records s.records;
      } in
      (after, updated (get_or row (get_local_zone id after.zones)))

  unfoldable pub zone_refreshed_with :
      ℕ → LocalZone → Fetched → ZoneTables → ZoneTables × ZoneRefreshed
  zone_refreshed_with id row (failed message) s =
      (record s { zones = zone_failure now id message s.zones }, raised message)
  zone_refreshed_with id row uncaught s = (s, crashed)
  zone_refreshed_with id row (fetched text) s = stored_zone id row (parsed_zone text) s

  unfoldable pub refresh_local_zone : ℕ → ZoneTables → ZoneTables × ZoneRefreshed
  refresh_local_zone id s = elim (get_local_zone id s.zones) [
    | none ↦ (s, raised (codes "local zone not found"))
    | some row ↦ zone_refreshed_with id row (download id row.url) s
  ]

  -- the tables, and whether the loop ran to its end: only a download error is caught
  abbrev pub go_on :
      (ZoneTables → ZoneTables × Bool) → ZoneTables × ZoneRefreshed → ZoneTables × Bool
  go_on rest (s, raised message) = rest s
  go_on rest (s, crashed) = (s, false)
  go_on rest (s, updated row) = rest s

  unfoldable pub run_zones : List LocalZone → ZoneTables → ZoneTables × Bool
  run_zones [] s = (s, true)
  run_zones (row ∷ rows) s = elim (zone_is_due now row) [
    | true ↦ go_on (run_zones rows) (refresh_local_zone row.id s)
    | false ↦ run_zones rows s
  ]

  unfoldable pub run_due_zones : ZoneTables → ZoneTables × Bool
  run_due_zones s = run_zones s.zones s

  refresh_local_zone-found :
      (id : ℕ) (s : ZoneTables) (row : LocalZone) (f : Fetched)
      → get_local_zone id s.zones ≡ some row
      → download id row.url ≡ f
      → refresh_local_zone id s ≡ zone_refreshed_with id row f s
  unfolding refresh_local_zone
  refresh_local_zone-found id s row f found e =
      rw (found, refresh_local_zone) (ap (λ g. zone_refreshed_with id row g s) e)

  -- After a download that fails, the records of all zones are as before, the row of the zone says
  -- why in at most 255 characters, the other rows are as before, and the error is raised again.
  pub refresh_local_zone_failed :
      (id : ℕ) (s : ZoneTables) (row : LocalZone) (message : Text)
      → get_local_zone id s.zones ≡ some row
      → download id row.url ≡ failed message
      → let (s', result) = refresh_local_zone id s in
        (s'.records ≡ s.records)
        × (result ≡ raised message)
        × ((j : ℕ)
            → get_local_zone j s'.zones ≡ (
                if j == id
                then some (record row {
                  last_status = some (take status_limit (codes "error: " ++ message));
                  last_downloaded_at = some now;
                })
                else get_local_zone j s.zones))
  unfolding zone_refreshed_with zone_failure
  refresh_local_zone_failed id s row message found fails =
      rw (refresh_local_zone-found id s row (failed message) found fails) (
        refl,
        refl,
        λ j. get-changed (λ (z : LocalZone). z.id) id j _ s.zones row (λ z. refl) found,
      )

  -- A text that the parser raises on stops the round: nothing is recorded for the zone, and the
  -- zones behind it are not tried.
  run_zones_crashed :
      (row : LocalZone) (rows : List LocalZone) (s : ZoneTables) (text : Text)
      → zone_is_due now row ≡ true
      → get_local_zone row.id s.zones ≡ some row
      → download row.id row.url ≡ fetched text
      → parsed_zone text ≡ none
      → run_zones (row ∷ rows) s ≡ (s, false)
  unfolding run_zones zone_refreshed_with
  run_zones_crashed row rows s text due found arrives raises =
      rw
        (due, run_zones, refresh_local_zone-found row.id s row (fetched text) found arrives, raises)
        refl
