-- ===== src/Downloader/Cycle.antt =====
-- src/mirenai/workers/blocklist_downloader.py: one round of the downloader.
use mirenai.Downloader.Fetch.{failed, fetched, uncaught}
use mirenai.Downloader.Lists.{crashed, raised, updated}
use mirenai.Python.Dict
use mirenai.Prelude.{
  All, Bool, ◌&&◌, true, Bool-cases, Distinct, List, Option-cases, [], ap, arith, beq_refl,
  contains, false, if◌then◌else◌, inl, inr, list_eq, nat_beq_iff, nat_eq, none, pair_eq, refl, some,
  sym, ℕ, ◌==◌, ◌∙◌, ◌∷◌, ◌≡◌, ◌⊎◌,
}
use mirenai.Downloader.Fetch.{Fetched}
use mirenai.Repository.Rows.{found_each}
use mirenai.Downloader.Lists.{
  Tables, is_due, refresh_blocklist, refresh_blocklist_failed, refresh_blocklist_fetched,
  refresh_blocklist_uncaught, Refreshed,
}
use mirenai.Python.Dict.{Dict}
use mirenai.Python.Text.{Text}
use mirenai.Repository.BlocklistSize.{record_blocklist_size}
use mirenai.Repository.Blocklists.{Blocklist, get_blocklist, total_enabled_domain_count}
use mirenai.Repository.Rows.{row_ids}

-- The two states agree on the row of a list and on its domains.
abbrev pub Same : ℕ → Tables → Tables → Type 0
Same j s s' =
    (get_blocklist j s.lists ≡ get_blocklist j s'.lists)
    × ((d : Text) → Dict.get (j, d) s.domains ≡ Dict.get (j, d) s'.domains)

Same-trans : (j : ℕ) (s s' s'' : Tables) → Same j s s' → Same j s' s'' → Same j s s''
Same-trans j s s' s'' p q = (p.0 ∙ q.0, λ d. p.1 d ∙ q.1 d)

abbrev pub list_ids : List Blocklist → List ℕ
list_ids bs = row_ids (λ b. b.id) bs

pub Fetched-cases :
    (f : Fetched)
    → ((m : Text) × (f ≡ failed m)) ⊎ (((t : Text) × (f ≡ fetched t)) ⊎ (f ≡ uncaught))
Fetched-cases (failed m) = inl (m, refl)
Fetched-cases uncaught = inr (inr refl)
Fetched-cases (fetched t) = inr (inl (t, refl))

abbrev pub no_lists : List Blocklist → Bool
no_lists [] = true
no_lists (row ∷ rows) = false

abbrev pub is_uncaught : Fetched → Bool
is_uncaught (failed m) = false
is_uncaught uncaught = true
is_uncaught (fetched t) = false

module _ (now : ℕ) (overrides : List Text) (download : ℕ → Text → Fetched) where
  -- the tables, and whether the loop goes on: only a download error is caught, and logged
  abbrev pub logged : Tables × Refreshed → Tables × Bool
  logged (s, raised message) = (s, true)
  logged (s, crashed) = (s, false)
  logged (s, updated row) = (s, true)

  -- one round of the loop
  unfoldable pub try_refresh : Blocklist → Tables → Tables × Bool
  try_refresh row s =
      if is_due now row
      then logged (refresh_blocklist now overrides download row.id s)
      else (s, true)

  abbrev pub go_on : (Tables → Tables × Bool) → Tables × Bool → Tables × Bool
  go_on rest (s, true) = rest s
  go_on rest (s, false) = (s, false)

  -- The rows are those that were listed before the first download.
  unfoldable pub run_rows : List Blocklist → Tables → Tables × Bool
  run_rows [] s = (s, true)
  run_rows (row ∷ rows) s = go_on (run_rows rows) (try_refresh row s)

  -- the tables, and whether the round came to its end
  unfoldable pub run_due_downloads : Tables → Tables × Bool
  run_due_downloads s = run_rows s.lists s

  -- one round of `main`: the downloads, whose exception is logged, and the sample of the size
  unfoldable pub cycle : Tables → Dict ℕ ℕ → Tables × Dict ℕ ℕ
  cycle s sizes =
      let s' = (run_due_downloads s).0 in
      (s', record_blocklist_size now (total_enabled_domain_count s'.lists) sizes)

  -- The list is due, and its download raises an exception that is not caught.
  abbrev pub escapes : Blocklist → Bool
  escapes row = is_due now row && is_uncaught (download row.id row.url)

  -- the lists before the first that escapes, and that one with those behind it
  abbrev pub reached : List Blocklist → List Blocklist
  reached [] = []
  reached (row ∷ rows) = let rest = reached rows in if escapes row then [] else row ∷ rest

  abbrev pub unreached : List Blocklist → List Blocklist
  unreached [] = []
  unreached (row ∷ rows) = let rest = unreached rows in if escapes row then row ∷ rows else rest

  refresh_blocklist-missing :
      (id : ℕ) (s : Tables)
      → get_blocklist id s.lists ≡ none
      → (refresh_blocklist now overrides download id s).0 ≡ s
  unfolding refresh_blocklist
  refresh_blocklist-missing id s e = rw (e, refresh_blocklist) refl

  -- what a refresh leaves in a list that is there
  refreshed_row :
      (id j : ℕ) (s : Tables) (row : Blocklist)
      → get_blocklist id s.lists ≡ some row
      → (j == id) ≡ false
      → Same j (refresh_blocklist now overrides download id s).0 s
  refreshed_row id j s row found apart = elim (Fetched-cases (download id row.url)) [
    | inl (m, e) ↦
        let r = refresh_blocklist_failed now overrides download id s row m found e in
        (r.2 j ∙ rw apart refl, λ d. ap (λ t. Dict.get (j, d) t) r.0)
    | inr (inl (t, e)) ↦
        let r = refresh_blocklist_fetched now overrides download id s row t found e in
        (r.1 j ∙ rw apart refl, λ d. r.2 j d ∙ rw apart refl)
    | inr (inr e) ↦
        rw (refresh_blocklist_uncaught now overrides download id s row found e) (refl, λ d. refl)
  ]

  refresh_other :
      (id j : ℕ) (s : Tables)
      → (j == id) ≡ false
      → Same j (refresh_blocklist now overrides download id s).0 s
  refresh_other id j s apart = elim (Option-cases (get_blocklist id s.lists)) [
    | inl absent ↦ rw (refresh_blocklist-missing id s absent) (refl, λ d. refl)
    | inr (row, found) ↦ refreshed_row id j s row found apart
  ]

  refresh_local :
      (id : ℕ) (s s' : Tables)
      → Same id s s'
      → Same id
          (refresh_blocklist now overrides download id s).0
          (refresh_blocklist now overrides download id s').0
  refresh_local id s s' same = elim (Option-cases (get_blocklist id s.lists)) [
    | inl absent ↦
        rw
          (
            refresh_blocklist-missing id s absent,
            refresh_blocklist-missing id s' (sym same.0 ∙ absent),
          )
          same
    | inr (row, found) ↦
        let found' : get_blocklist id s'.lists ≡ some row = sym same.0 ∙ found in
        elim (Fetched-cases (download id row.url)) [
          | inl (m, e) ↦
              let r = refresh_blocklist_failed now overrides download id s row m found e in
              let r' = refresh_blocklist_failed now overrides download id s' row m found' e in
              (
                (rw (beq_refl id) at (r.2 id)) ∙ sym (rw (beq_refl id) at (r'.2 id)),
                λ d.
                    ap (λ t. Dict.get (id, d) t) r.0
                    ∙ same.1 d
                    ∙ sym (ap (λ t. Dict.get (id, d) t) r'.0),
              )
          | inr (inr e) ↦
              rw
                (
                  refresh_blocklist_uncaught now overrides download id s row found e,
                  refresh_blocklist_uncaught now overrides download id s' row found' e,
                )
                same
          | inr (inl (t, e)) ↦
              let r = refresh_blocklist_fetched now overrides download id s row t found e in
              let r' = refresh_blocklist_fetched now overrides download id s' row t found' e in
              (
                (rw (beq_refl id) at (r.1 id)) ∙ sym (rw (beq_refl id) at (r'.1 id)),
                λ d. r.2 id d ∙ rw (same.1 d) (sym (r'.2 id d)),
              )
        ]
  ]

  pub logged-0 : (p : Tables × Refreshed) → (logged p).0 ≡ p.0
  logged-0 (s, raised message) = refl
  logged-0 (s, crashed) = refl
  logged-0 (s, updated row) = refl

  try_other :
      (row : Blocklist) (j : ℕ) (s : Tables)
      → (j == row.id) ≡ false
      → Same j (try_refresh row s).0 s
  unfolding try_refresh
  try_other row j s apart = elim (Bool-cases (is_due now row)) [
    | inl due ↦ rw due (
        rw (logged-0 (refresh_blocklist now overrides download row.id s))
          (refresh_other row.id j s apart))
    | inr not_due ↦ rw not_due (refl, λ d. refl)
  ]

  try_local :
      (row : Blocklist) (s s' : Tables)
      → Same row.id s s'
      → Same row.id (try_refresh row s).0 (try_refresh row s').0
  unfolding try_refresh
  try_local row s s' same = elim (Bool-cases (is_due now row)) [
    | inl due ↦ rw due (
        rw
          (
            logged-0 (refresh_blocklist now overrides download row.id s),
            logged-0 (refresh_blocklist now overrides download row.id s'),
          )
          (refresh_local row.id s s' same))
    | inr not_due ↦ rw not_due same
  ]

  module _ (row : Blocklist) (s : Tables) (found : get_blocklist row.id s.lists ≡ some row) where
    refresh-goes_on :
        is_uncaught (download row.id row.url) ≡ false
        → (logged (refresh_blocklist now overrides download row.id s)).1 ≡ true
    refresh-goes_on caught = elim (Fetched-cases (download row.id row.url)) [
      | inl (m, e) ↦
          let r = refresh_blocklist_failed now overrides download row.id s row m found e in
          ap (λ q. (logged ((refresh_blocklist now overrides download row.id s).0, q)).1) r.1
      | inr (inl (t, e)) ↦
          let r = refresh_blocklist_fetched now overrides download row.id s row t found e in
          ap (λ q. (logged ((refresh_blocklist now overrides download row.id s).0, q)).1) r.0
      | inr (inr e) ↦ absurd (ground (arith, ap is_uncaught e))
    ]

    try_refresh-goes_on : escapes row ≡ false → (try_refresh row s).1 ≡ true
    unfolding try_refresh
    try_refresh-goes_on h = elim (Bool-cases (is_due now row)) [
      | inl due ↦ rw due (refresh-goes_on (ground arith))
      | inr not_due ↦ rw not_due refl
    ]

    try_refresh-stops : escapes row ≡ true → try_refresh row s ≡ (s, false)
    unfolding try_refresh
    try_refresh-stops h = elim (Fetched-cases (download row.id row.url)) [
      | inl (m, e) ↦ absurd (ground (arith, ap is_uncaught e))
      | inr (inl (t, e)) ↦ absurd (ground (arith, ap is_uncaught e))
      | inr (inr e) ↦
          let due : is_due now row ≡ true = ground arith in
          rw due
            (ap logged (refresh_blocklist_uncaught now overrides download row.id s row found e))
    ]

  run_rows-next :
      (row : Blocklist) (rows : List Blocklist) (s : Tables)
      → (try_refresh row s).1 ≡ true
      → run_rows (row ∷ rows) s ≡ run_rows rows (try_refresh row s).0
  unfolding run_rows
  run_rows-next row rows s on = ap (λ b. go_on (run_rows rows) ((try_refresh row s).0, b)) on

  run_rows-stop :
      (row : Blocklist) (rows : List Blocklist) (s : Tables)
      → try_refresh row s ≡ (s, false)
      → run_rows (row ∷ rows) s ≡ (s, false)
  unfolding run_rows
  run_rows-stop row rows s stops = ap (go_on (run_rows rows)) stops

  -- what the loop does with them
  IsRun : Tables × Bool → Tables → List Blocklist → Type 0
  IsRun after s0 rows =
      All (λ row. Same row.id after.0 (try_refresh row s0).0) (reached rows)
      × All (λ row. Same row.id after.0 s0) (unreached rows)
      × (after.1 ≡ no_lists (unreached rows))

  Same-carried :
      (first : Blocklist) (s s0 : Tables) (rows : List Blocklist)
      → contains (list_ids rows) first.id ≡ false
      → All (λ row. Same row.id s s0) rows
      → All (λ row. Same row.id (try_refresh first s).0 s0) rows
  Same-carried first s s0 [] apart h = tt
  Same-carried first s s0 (row ∷ rows) apart h = (
    Same-trans row.id (try_refresh first s).0 s s0 (try_other first row.id s (ground arith)) h.0,
    Same-carried first s s0 rows (ground arith) h.1,
  )

  -- A row that the loop leaves alone stays as it is.
  run_other :
      (rows : List Blocklist) (j : ℕ) (s : Tables)
      → contains (list_ids rows) j ≡ false
      → Same j (run_rows rows s).0 s
  unfolding run_rows
  run_other [] j s apart = (refl, λ d. refl)
  run_other (row ∷ rows) j s apart =
      let step = try_refresh row s in
      let here : Same j step.0 s =
        try_other row j s (ground (arith, nat_beq_iff j row.id, nat_beq_iff row.id j)) in
      elim (Bool-cases step.1) [
        | inl on ↦ rw (run_rows-next row rows s on) (
            Same-trans j (run_rows rows step.0).0 step.0 s (run_other rows j step.0 (ground arith))
              here)
        | inr off ↦ rw (ap (λ b. go_on (run_rows rows) (step.0, b)) off) here
      ]

  IsRun-stop :
      (row : Blocklist) (rows : List Blocklist) (s s0 : Tables)
      → escapes row ≡ true
      → All (λ r. Same r.id s s0) (row ∷ rows)
      → IsRun (s, false) s0 (row ∷ rows)
  unfolding IsRun
  IsRun-stop row rows s s0 stop same = rw stop (tt, same, refl)

  IsRun-next :
      (row : Blocklist) (rows : List Blocklist) (after : Tables × Bool) (s0 : Tables)
      → escapes row ≡ false
      → Same row.id after.0 (try_refresh row s0).0
      → IsRun after s0 rows
      → IsRun after s0 (row ∷ rows)
  unfolding IsRun
  IsRun-next row rows after s0 on same run = rw on ((same, run.0), run.1, run.2)

  run_rows-IsRun :
      (rows : List Blocklist) (s s0 : Tables)
      → Distinct (list_ids rows)
      → All (λ row. Same row.id s s0) rows
      → All (λ row. get_blocklist row.id s0.lists ≡ some row) rows
      → IsRun (run_rows rows s) s0 rows
  run_rows-IsRun [] s s0 u same found = unfold run_rows IsRun in (tt, tt, refl)
  run_rows-IsRun (row ∷ rows) s s0 u same found =
      let here : get_blocklist row.id s.lists ≡ some row = same.0.0 ∙ found.0 in
      elim (Bool-cases (escapes row)) [
        | inl stop ↦
            rw (run_rows-stop row rows s (try_refresh-stops row s here stop))
              (IsRun-stop row rows s s0 stop same)
        | inr on ↦
            let after = (try_refresh row s).0 in
            rw (run_rows-next row rows s (try_refresh-goes_on row s here on)) (
              IsRun-next row rows (run_rows rows after) s0 on
                (Same-trans row.id (run_rows rows after).0 after (try_refresh row s0).0
                  (run_other rows row.id after u.0) (try_local row s s0 same.0))
                (run_rows-IsRun rows after s0 u.1 (Same-carried row s s0 rows u.0 same.1) found.1))
      ]

  Same-All : (s : Tables) (rows : List Blocklist) → All (λ row. Same row.id s s) rows
  Same-All s [] = tt
  Same-All s (row ∷ rows) = ((refl, λ d. refl), Same-All s rows)

  -- In a round of downloads over lists with distinct ids, each list before the first due list whose
  -- download raises an exception that is not caught is refreshed, if due, as if it were the only
  -- one, also when downloads fail; that list and those behind it stay as they are. The round comes
  -- to its end just if there is no such list.
  pub run_due_downloads_independent :
      (s : Tables)
      → Distinct (list_ids s.lists)
      → All (λ row. Same row.id (run_due_downloads s).0 (try_refresh row s).0) (reached s.lists)
        × All (λ row. Same row.id (run_due_downloads s).0 s) (unreached s.lists)
        × ((run_due_downloads s).1 ≡ no_lists (unreached s.lists))
  unfolding run_due_downloads IsRun
  run_due_downloads_independent s u =
      run_rows-IsRun s.lists s s u (Same-All s s.lists)
        (found_each (λ (b : Blocklist). b.id) s.lists u)
