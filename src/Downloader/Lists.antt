-- ===== src/Downloader/Lists.antt =====
-- src/mirenai/workers/blocklist_downloader.py: the refresh of one blocklist.
use mirenai.Downloader.Fetch.{failed, fetched, uncaught}
use mirenai.Python.Dict
use mirenai.Prelude.{
  Bool, List, Option, ap, beq_refl, contains, if◌then◌else◌, leb, length, list_eq, nat_eq, none,
  not, pair_eq, refl, some, take, true, ℕ, ◌&&◌, ◌*◌, ◌++◌, ◌+◌, ◌==◌, ◌∙◌, ◌≡◌,
}
use mirenai.Blocklist.{apply_overrides, parse_blocklist}
use mirenai.Blocklist.Format.{Format, detect_format}
use mirenai.Blocklist.Parse.{contains-apply_overrides}
use mirenai.Buffers.Tally.{hour}
use mirenai.Downloader.Fetch.{Fetched}
use mirenai.Python.Dict.{Dict}
use mirenai.Python.Int.Digits.{show}
use mirenai.Python.Text.{Text, codes}
use mirenai.Repository.Blocklists.{
  Blocklist, get_blocklist, get_or, record_failure, record_success, status_limit,
}
use mirenai.Repository.Blocklists.Domains.{DomainTable, replace_domains}
use mirenai.Repository.Blocklists.Replace.{get-replace_domains, kept_or_new}
use mirenai.Repository.Rows.{get-changed}

-- the two tables that a refresh writes
pub record Tables : Type 0 where
  pub lists : List Blocklist
  pub domains : DomainTable

-- a `BlocklistDownloadError` with its message, another exception, or the row of the list after the
-- refresh
pub data Refreshed : Type 0 where
  raised : Text → Refreshed
  crashed : Refreshed
  updated : Blocklist → Refreshed

abbrev pub format_name : Format → Text
format_name Format.hosts = codes "hosts"
format_name Format.domain = codes "domain"
format_name Format.adblock = codes "adblock"
format_name Format.unknown = codes "unknown"

-- the domains of a text that are stored
abbrev pub kept_domains : List Text → Text → List Text
kept_domains overrides text = apply_overrides (parse_blocklist text) overrides

-- the time, the override domains, and what a download gives for a list and its URL
module _ (now : ℕ) (overrides : List Text) (download : ℕ → Text → Fetched) where
  -- the failure is recorded and raised again, or the domains are replaced and counted
  unfoldable pub refreshed_with : ℕ → Blocklist → Fetched → Tables → Tables × Refreshed
  refreshed_with id row (failed message) s =
      (record s { lists = record_failure now id message s.lists }, raised message)
  refreshed_with id row uncaught s = (s, crashed)
  refreshed_with id row (fetched text) s =
      let kept = kept_domains overrides text in
      let after : Tables = record {
        lists = record_success now id (length kept) (format_name (detect_format text)) s.lists;
        domains = replace_domains now id kept s.domains;
      } in
      (after, updated (get_or row (get_blocklist id after.lists)))

  unfoldable pub refresh_blocklist : ℕ → Tables → Tables × Refreshed
  refresh_blocklist id s = elim (get_blocklist id s.lists) [
    | none ↦ (s, raised (codes "blocklist not found"))
    | some row ↦ refreshed_with id row (download id row.url) s
  ]

-- `_is_due`; the stored time always parses.
abbrev pub past_due : ℕ → ℕ → Option ℕ → Bool
past_due now interval none = true
past_due now interval (some last) = leb (last + interval) now

unfoldable pub is_due : ℕ → Blocklist → Bool
is_due now row =
    row.enabled && past_due now (row.update_interval_hours * hour) row.last_downloaded_at

module _ (now : ℕ) (overrides : List Text) (download : ℕ → Text → Fetched) (id : ℕ) (s : Tables)
    (row : Blocklist) where
  refresh_blocklist-found :
      get_blocklist id s.lists ≡ some row
      → refresh_blocklist now overrides download id s
        ≡ refreshed_with now overrides download id row (download id row.url) s
  unfolding refresh_blocklist
  refresh_blocklist-found found = rw (found, refresh_blocklist) refl

  refresh_blocklist-fetched :
      (f : Fetched)
      → get_blocklist id s.lists ≡ some row
      → download id row.url ≡ f
      → refresh_blocklist now overrides download id s
        ≡ refreshed_with now overrides download id row f s
  refresh_blocklist-fetched f found e =
      refresh_blocklist-found found ∙ ap (λ g. refreshed_with now overrides download id row g s) e

-- After a download that raises a `BlocklistDownloadError`, the domains of every list are as before,
-- the row of the list says why in at most 255 characters, the rows of the other lists are as before,
-- and the error is raised again.
pub refresh_blocklist_failed :
    (now : ℕ) (overrides : List Text) (download : ℕ → Text → Fetched) (id : ℕ) (s : Tables)
    (row : Blocklist) (message : Text)
    → get_blocklist id s.lists ≡ some row
    → download id row.url ≡ failed message
    → let (s', result) = refresh_blocklist now overrides download id s in
      (s'.domains ≡ s.domains)
      × (result ≡ raised message)
      × ((j : ℕ)
          → get_blocklist j s'.lists ≡ (
              if j == id
              then some (record row {
                last_status = some (take status_limit (codes "error: " ++ message));
                last_downloaded_at = some now;
              })
              else get_blocklist j s.lists))
unfolding refreshed_with record_failure
refresh_blocklist_failed now overrides download id s row message found fails =
    rw (refresh_blocklist-fetched now overrides download id s row (failed message) found fails)
      (refl, refl, λ j. get-changed (λ (b : Blocklist). b.id) id j _ s.lists row (λ b. refl) found)

-- Any other exception of a download leaves the tables as they were and is passed on: nothing is
-- recorded on the row of the list.
pub refresh_blocklist_uncaught :
    (now : ℕ) (overrides : List Text) (download : ℕ → Text → Fetched) (id : ℕ) (s : Tables)
    (row : Blocklist)
    → get_blocklist id s.lists ≡ some row
    → download id row.url ≡ uncaught
    → refresh_blocklist now overrides download id s ≡ (s, crashed)
unfolding refreshed_with
refresh_blocklist_uncaught now overrides download id s row found escapes =
    refresh_blocklist-fetched now overrides download id s row uncaught found escapes

-- After a download that succeeds, the list has just the domains of its text that no override
-- exempts, each with the time it was first stored; its row has their number, the format and the
-- time now; the other lists and their domains are as before; and the row is returned.
pub refresh_blocklist_fetched :
    (now : ℕ) (overrides : List Text) (download : ℕ → Text → Fetched) (id : ℕ) (s : Tables)
    (row : Blocklist) (text : Text)
    → get_blocklist id s.lists ≡ some row
    → download id row.url ≡ fetched text
    → let (s', result) = refresh_blocklist now overrides download id s in
      let stored = kept_domains overrides text in
      let row' : Blocklist = record row {
        domain_count = length stored;
        format = some (format_name (detect_format text));
        last_status = some (codes "ok: " ++ show (length stored) ++ codes " domains");
        last_downloaded_at = some now;
      } in
      (result ≡ updated row')
      × ((j : ℕ)
          → get_blocklist j s'.lists ≡ (if j == id then some row' else get_blocklist j s.lists))
      × ((j : ℕ) (d : Text)
          → Dict.get (j, d) s'.domains ≡ (
              if j == id
              then (if contains (parse_blocklist text) d && not (contains overrides d)
                  then some (kept_or_new now (Dict.get (id, d) s.domains))
                  else none)
              else Dict.get (j, d) s.domains))
unfolding refreshed_with record_success
refresh_blocklist_fetched now overrides download id s row text found arrives =
    rw (refresh_blocklist-fetched now overrides download id s row (fetched text) found arrives) (
      ap (λ o. updated (get_or row o))
            (get-changed (λ (b : Blocklist). b.id) id id _ s.lists row (λ b. refl) found)
          ∙ rw (beq_refl id) refl,
      λ j. get-changed (λ (b : Blocklist). b.id) id j _ s.lists row (λ b. refl) found,
      λ j d.
          get-replace_domains now id (kept_domains overrides text) s.domains j d
          ∙ rw (contains-apply_overrides (parse_blocklist text) overrides d) refl,
    )
