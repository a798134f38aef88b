-- ===== src/Repository/ClientStats/Chart.antt =====
-- src/mirenai/repository/client_stats.py: the statistics of clients as lists and charts.
use mathlib.Core.Option
use mirenai.Python.Dict
use mirenai.Prelude.{
  All, Bool, Distinct, List, Option, Option-cases, [], and-eq-true, ap, arith, false, if◌then◌else◌,
  inl, inr, leb, length, list_beq_iff, list_eq, map, min, nat_eq, none, pair_beq_iff, pair_eq, refl,
  some, true, ℕ, ◌&&◌, ◌*◌, ◌-◌, ◌<◌, ◌==◌, ◌∙◌, ◌∷◌, ◌≡◌,
}
use mirenai.Buffers.Stats.{StatKey}
use mirenai.Buffers.Tally.{floor_hour, hour}
use mirenai.Python.Dict.{Dict}
use mirenai.Python.Text.{Text}
use mirenai.Repository.ClientStats.{HourlyStat, retention_hours}
use mirenai.Repository.Hours.{
  All-mono, fill_window, fill_window-hours_back, hours_back, rows_of_hours-map, window-All,
  window_length,
}
use mirenai.Repository.Select.{
  All-order_by, All-where_rows, get-order_by, get-where_rows, length-order_by, order_by,
  order_by-Distinct, page_rows, where_rows, where_rows-Distinct,
}
use mirenai.Repository.Texts.{newest_first}

abbrev pub StatRow : Type 0
StatRow = StatKey × HourlyStat

-- `_zero_client_row`
abbrev pub zero_stat : HourlyStat
zero_stat = record {
  total = 0;
  forwarded = 0;
  cached = 0;
  overridden = 0;
  local = 0;
  denied = 0;
  blocked = 0;
  servfail = 0;
  foreign = 0;
}

abbrev pub zero_client_row : Text → ℕ → StatRow
zero_client_row client bucket = ((bucket, client), zero_stat)

-- `{row["hour_start"]: row for row in rows}`
unfoldable pub by_hour : Dict ℕ StatRow → List StatRow → Dict ℕ StatRow
by_hour d [] = d
by_hour d (r ∷ rows) = by_hour (Dict.put r.0.0 r d) rows

abbrev pub row_or_zero : (ℕ → StatRow) → ℕ → Option StatRow → List StatRow
row_or_zero make_zero bucket none = make_zero bucket ∷ []
row_or_zero make_zero bucket (some r) = r ∷ []

-- `_fill_hours`; `none` would be a loop that does not end.
unfoldable pub fill_hours : List StatRow → ℕ → ℕ → (ℕ → StatRow) → Option (List StatRow)
fill_hours rows hours now make_zero =
    let found = by_hour [] rows in
    fill_window (λ bucket. row_or_zero make_zero bucket (Dict.get bucket found))
      (min hours retention_hours) now

-- the conditions of the query: `client` and `hours`, if they are given
abbrev pub client_ok : Option Text → Text → Bool
client_ok none client = true
client_ok (some c) client = client == c

abbrev pub hours_ok : Option ℕ → ℕ → ℕ → Bool
hours_ok none now h = true
hours_ok (some n) now h = leb (now - n * hour) h

abbrev pub stat_ok : Option Text → Option ℕ → ℕ → StatKey → Bool
stat_ok client hours now k = client_ok client k.1 && hours_ok hours now k.0

abbrev pub selected_stats : Option Text → Option ℕ → ℕ → Dict StatKey HourlyStat → List StatRow
selected_stats client hours now t =
    order_by newest_first (where_rows (λ x. stat_ok client hours now x.0) t)

-- The chart of one client is filled; every other list is paged unless `fill` is set.
unfoldable pub list_client_stats :
    ℕ
    → Option ℕ
    → ℕ
    → Option Text
    → Option ℕ
    → Bool
    → Dict StatKey HourlyStat
    → Option (List StatRow)
list_client_stats now limit offset client hours false t =
    some (page_rows limit offset (selected_stats client hours now t))
list_client_stats now limit offset none hours true t = some (selected_stats none hours now t)
list_client_stats now limit offset (some c) none true t = some (selected_stats (some c) none now t)
list_client_stats now limit offset (some c) (some n) true t =
    fill_hours (selected_stats (some c) (some n) now t) n now (zero_client_row c)

unfoldable pub count_client_stats : ℕ → Option Text → Option ℕ → Dict StatKey HourlyStat → ℕ
count_client_stats now client hours t = length (where_rows (λ x. stat_ok client hours now x.0) t)

-- The count is the length of the list of all pages.
pub count-list_client_stats :
    (now offset : ℕ) (client : Option Text) (hours : Option ℕ) (t : Dict StatKey HourlyStat)
    → Option.map length (list_client_stats now none offset client hours false t)
      ≡ some (count_client_stats now client hours t)
unfolding list_client_stats count_client_stats
count-list_client_stats now offset client hours t =
    ap some (length-order_by newest_first (where_rows (λ x. stat_ok client hours now x.0) t))

-- The rows of one client are found by their hour.
get-by_hour :
    (c : Text) (h : ℕ) (rows : Dict StatKey HourlyStat) (d : Dict ℕ StatRow)
    → All (λ x. (x.0.1 == c) ≡ true) rows
    → Distinct (Dict.keys rows)
    → Dict.get h (by_hour d rows)
      ≡ (elim (Dict.get (h, c) rows) [ none ↦ Dict.get h d | some s ↦ some ((h, c), s) ])
unfolding by_hour Dict.get
get-by_hour c h [] d a u = refl
get-by_hour c h (((g, b), s) ∷ rows) d a u =
    let same : b ≡ c = (list_beq_iff b c).0 a.0 in
    let ih = get-by_hour c h rows (Dict.put g ((g, b), s) d) a.1 u.1 in
    ih
    ∙ ground (
      arith,
      same,
      Dict.get-put g h ((g, b), s) d,
      Dict.get-eq-none (g, b) rows u.0,
      pair_beq_iff (g, b) (h, c),
      list_beq_iff b c,
    )

abbrev pub stat_or_zero : Option HourlyStat → HourlyStat
stat_or_zero none = zero_stat
stat_or_zero (some s) = s

selected_stats-All :
    (c : Text) (hours : Option ℕ) (now : ℕ) (t : Dict StatKey HourlyStat)
    → All (λ x. (x.0.1 == c) ≡ true) (selected_stats (some c) hours now t)
selected_stats-All c hours now t =
    All-order_by (λ (x : StatRow). (x.0.1 == c) ≡ true) newest_first
      (where_rows (λ x. stat_ok (some c) hours now x.0) t)
      (All-where_rows (λ (x : StatRow). (x.0.1 == c) ≡ true) (λ x. stat_ok (some c) hours now x.0)
        (λ x h. (and-eq-true (x.0.1 == c) (hours_ok hours now x.0.0) h).0) t)

selected_stats-Distinct :
    (client : Option Text) (hours : Option ℕ) (now : ℕ) (t : Dict StatKey HourlyStat)
    → Distinct (Dict.keys t)
    → Distinct (Dict.keys (selected_stats client hours now t))
selected_stats-Distinct client hours now t u =
    order_by-Distinct newest_first (where_rows (λ x. stat_ok client hours now x.0) t)
      (where_rows-Distinct (λ x. stat_ok client hours now x.0) t u)

get-selected_stats :
    (client : Option Text) (hours : Option ℕ) (now : ℕ) (t : Dict StatKey HourlyStat) (k : StatKey)
    → Distinct (Dict.keys t)
    → Dict.get k (selected_stats client hours now t)
      ≡ (if stat_ok client hours now k then Dict.get k t else none)
get-selected_stats client hours now t k u =
    get-order_by newest_first k (where_rows (λ x. stat_ok client hours now x.0) t)
      (where_rows-Distinct (λ x. stat_ok client hours now x.0) t u)
    ∙ get-where_rows (λ x. stat_ok client hours now x.0) (stat_ok client hours now) (λ x. refl) k t

-- the one row that the chart has for an hour
chart_row :
    (c : Text) (n now b : ℕ) (t : Dict StatKey HourlyStat)
    → Distinct (Dict.keys t)
    → leb (now - n * hour) b ≡ true
    → row_or_zero
        (zero_client_row c)
        b
        (Dict.get b (by_hour [] (selected_stats (some c) (some n) now t)))
      ≡ ((b, c), stat_or_zero (Dict.get (b, c) t)) ∷ []
chart_row c n now b t u h =
    let rows = selected_stats (some c) (some n) now t in
    let found =
      get-by_hour c b rows [] (selected_stats-All c (some n) now t)
        (selected_stats-Distinct (some c) (some n) now t u) in
    let here : Dict.get (b, c) rows ≡ Dict.get (b, c) t =
      ground (arith, get-selected_stats (some c) (some n) now t (b, c) u, list_beq_iff c c) in
    elim (Option-cases (Dict.get (b, c) t)) [
      | inl e ↦ rw (found, here, e) (unfold Dict.get in refl)
      | inr (s, e) ↦ rw (found, here, e) refl
    ]

-- The chart of a client has one row for each hour of the window, newest first: the stored row of
-- the hour, or zeros. The window goes at most 500 hours back.
pub list_client_stats_chart :
    (now : ℕ) (limit : Option ℕ) (offset : ℕ) (c : Text) (n : ℕ) (t : Dict StatKey HourlyStat)
    → Distinct (Dict.keys t)
    → min n retention_hours * hour < now
    → list_client_stats now limit offset (some c) (some n) true t
      ≡ some (
          map
            (λ b. ((b, c), stat_or_zero (Dict.get (b, c) t)))
            (hours_back (window_length (min n retention_hours) now) (floor_hour now)))
unfolding list_client_stats fill_hours
list_client_stats_chart now limit offset c n t u h =
    let hs = hours_back (window_length (min n retention_hours) now) (floor_hour now) in
    let rows_at : ℕ → List StatRow = λ b.
      row_or_zero (zero_client_row c) b
        (Dict.get b (by_hour [] (selected_stats (some c) (some n) now t))) in
    let entry : ℕ → StatRow = λ b. ((b, c), stat_or_zero (Dict.get (b, c) t)) in
    fill_window-hours_back rows_at (min n retention_hours) now h
    ∙ ap some (
        rows_of_hours-map rows_at entry hs (
          All-mono (λ b. leb (now - min n retention_hours * hour) b ≡ true)
            (λ b. rows_at b ≡ entry b ∷ []) (λ b k. chart_row c n now b t u (ground arith)) hs
            (window-All (min n retention_hours) now h)))
