-- ===== src/Downloader/Due.antt =====
-- What a round of the downloader leaves due: src/mirenai/workers/blocklist_downloader.py.
use mirenai.Prelude.{
  All, ap, true, Bool-cases, Distinct, List, Option, [], arith, beq_refl, false, inl, inr, list_eq,
  nat_eq, none, pair_eq, refl, some, ℕ, ◌<◌, ◌∷◌, ◌≡◌,
}
use mirenai.Downloader.Cycle.{
  Fetched-cases, Same, list_ids, run_due_downloads, run_due_downloads_independent, try_refresh,
  escapes, is_uncaught, logged-0, no_lists, reached, unreached,
}
use mirenai.Downloader.Fetch.{Fetched}
use mirenai.Downloader.Lists.{
  refresh_blocklist, Tables, is_due, refresh_blocklist_failed, refresh_blocklist_fetched,
}
use mirenai.Python.Text.{Text}
use mirenai.Repository.Blocklists.{Blocklist, get_blocklist}
use mirenai.Repository.Rows.{found_each}

-- the row of the list is there and not due
abbrev pub IsSettled : ℕ → Option Blocklist → Type 0
IsSettled now none = ⊥
IsSettled now (some b) = is_due now b ≡ false

attempted :
    (now : ℕ) (row : Blocklist)
    → row.last_downloaded_at ≡ some now
    → 0 < row.update_interval_hours
    → is_due now row ≡ false
unfolding is_due
attempted now row e h = rw e (ground arith)

module _ (now : ℕ) (overrides : List Text) (download : ℕ → Text → Fetched) where
  refreshed-IsSettled :
      (row : Blocklist) (s : Tables)
      → get_blocklist row.id s.lists ≡ some row
      → 0 < row.update_interval_hours
      → is_uncaught (download row.id row.url) ≡ false
      → IsSettled now
          (get_blocklist row.id (refresh_blocklist now overrides download row.id s).0.lists)
  refreshed-IsSettled row s found h caught = elim (Fetched-cases (download row.id row.url)) [
    | inl (m, e) ↦
        let r = refresh_blocklist_failed now overrides download row.id s row m found e in
        rw (rw (beq_refl row.id) at (r.2 row.id)) (attempted now _ refl h)
    | inr (inl (t, e)) ↦
        let r = refresh_blocklist_fetched now overrides download row.id s row t found e in
        rw (rw (beq_refl row.id) at (r.1 row.id)) (attempted now _ refl h)
    | inr (inr e) ↦ absurd (ground (arith, ap is_uncaught e))
  ]

  try_refresh-IsSettled :
      (row : Blocklist) (s : Tables)
      → get_blocklist row.id s.lists ≡ some row
      → 0 < row.update_interval_hours
      → escapes now overrides download row ≡ false
      → IsSettled now (get_blocklist row.id (try_refresh now overrides download row s).0.lists)
  unfolding try_refresh
  try_refresh-IsSettled row s found h caught = elim (Bool-cases (is_due now row)) [
    | inr early ↦ rw (early, found) early
    | inl due ↦ rw due (
        rw (logged-0 now overrides download (refresh_blocklist now overrides download row.id s))
          (refreshed-IsSettled row s found h (ground arith)))
  ]

  IsSettled-each :
      (after s : Tables) (rows : List Blocklist)
      → All
          (λ row. Same row.id after (try_refresh now overrides download row s).0)
          (reached now overrides download rows)
      → All (λ row. get_blocklist row.id s.lists ≡ some row) rows
      → All (λ row. 0 < row.update_interval_hours) rows
      → All
          (λ row. IsSettled now (get_blocklist row.id after.lists))
          (reached now overrides download rows)
  IsSettled-each after s [] same found h = tt
  IsSettled-each after s (row ∷ rows) same found h =
      elim (Bool-cases (escapes now overrides download row)) [
        | inl stop ↦ rw stop tt
        | inr on ↦
            let same' = rw on at same in
            rw on (
              rw same'.0.0 (try_refresh-IsSettled row s found.0 h.0 on),
              IsSettled-each after s rows same'.1 found.1 h.1,
            )
      ]

  -- After a round of downloads each list before the first due list whose download raises an
  -- exception that is not caught is still there and not due, whichever downloads failed, as long
  -- as the ids are distinct and no interval is zero; if no download raises such an exception, these
  -- are all lists.
  pub run_due_downloads-IsSettled :
      (s : Tables)
      → Distinct (list_ids s.lists)
      → All (λ row. 0 < row.update_interval_hours) s.lists
      → All
          (λ row.
            IsSettled now
              (get_blocklist row.id (run_due_downloads now overrides download s).0.lists))
          (reached now overrides download s.lists)
        × (no_lists (unreached now overrides download s.lists) ≡ true
            → reached now overrides download s.lists ≡ s.lists)
  run_due_downloads-IsSettled s u h = (
    IsSettled-each (run_due_downloads now overrides download s).0 s s.lists
        (run_due_downloads_independent now overrides download s u).0
        (found_each (λ (b : Blocklist). b.id) s.lists u) h,
    reached-all s.lists,
  )
    where
      reached-all :
          (rows : List Blocklist)
          → no_lists (unreached now overrides download rows) ≡ true
          → reached now overrides download rows ≡ rows
      reached-all [] e = refl
      reached-all (row ∷ rows) e = elim (Bool-cases (escapes now overrides download row)) [
        | inl stop ↦ absurd (ground arith)
        | inr on ↦ rw on (ap (◌∷◌ row) (reached-all rows (rw on at e)))
      ]
