-- ===== src/Repository/CacheOutcomes.antt =====
-- src/mirenai/repository/cache_outcome.py: the cache outcomes of forwarded queries by hour. The
-- time now is an argument.
use mirenai.Python.Dict
use mirenai.Repository.Persist.{
  Store, Step, World, IsKept, accounted, seen, steps_from, steps_from-accounted,
}
use mirenai.Buffers.Outcome.{
  CacheOutcomeAgg, CacheOutcomeBuffer, outcome_buffer, outcome_cached, outcome_nxdomain,
  outcome_error, outcome_nodata, outcome_zero_ttl, outcome_upstream_failure,
}
use mirenai.Prelude.{
  Bool, Distinct, List, Option, [], ap, arith, false, if◌then◌else◌, leb, length, list_eq, ltb, min,
  nat_eq, none, not, pair_eq, refl, some, true, ℕ, ◌*◌, ◌+◌, ◌-◌, ◌<◌, ◌∙◌, ◌∷◌, ◌≡◌,
}
use mirenai.Buffers.Tally.{floor_hour, handed, hits_or_zero, hour, reported, value_or_zero}
use mirenai.Python.Dict.{Dict}
use mirenai.Python.Text.{Text}
use mirenai.Repository.ClientStats.Chart.{hours_ok}
use mirenai.Repository.Hours.{
  All-mono, fill_window, fill_window-hours_back, hours_back, rows_of_hours, rows_of_hours-agree,
  window-All, window_length,
}
use mirenai.Repository.Select.{
  get-order_by, get-where_rows, order_by, page_rows, where_rows, where_rows-Distinct,
}
use mirenai.Repository.Texts.{newest_first}
use mirenai.Repository.Upsert.{get-purge_kept, purge, upsert_all, value-upsert_all}

abbrev pub outcome_retention_hours : ℕ
outcome_retention_hours = 100

abbrev pub OutcomeKey : Type 0
OutcomeKey = ℕ × Text

abbrev pub outcome_key : CacheOutcomeAgg → OutcomeKey
outcome_key r = (r.hour_start, r.reason)

-- the hits to insert, or those that are there with the new ones
unfoldable pub outcome_stored : CacheOutcomeAgg → Option ℕ → ℕ
outcome_stored r none = r.hits
outcome_stored r (some n) = n + r.hits

abbrev pub outcome_cutoff : ℕ → ℕ
outcome_cutoff now = now - outcome_retention_hours * hour

unfoldable pub record_cache_outcomes :
    ℕ → List CacheOutcomeAgg → Dict OutcomeKey ℕ → Dict OutcomeKey ℕ
record_cache_outcomes now [] t = t
record_cache_outcomes now (r ∷ rows) t =
    purge (λ k. k.0) (outcome_cutoff now) (upsert_all outcome_key outcome_stored (r ∷ rows) t)

-- `CACHE_OUTCOME_REASONS`
abbrev pub cache_outcome_reasons : List Text
cache_outcome_reasons =
    outcome_cached ∷ outcome_nxdomain ∷ outcome_error ∷ outcome_nodata ∷ outcome_zero_ttl
    ∷ outcome_upstream_failure ∷ []

abbrev pub OutcomeRow : Type 0
OutcomeRow = OutcomeKey × ℕ

-- the rows of one hour: one for each reason, with the stored hits or zero
abbrev pub outcome_hour : List Text → Dict OutcomeKey ℕ → ℕ → List OutcomeRow
outcome_hour [] found bucket = []
outcome_hour (a ∷ reasons) found bucket =
    ((bucket, a), hits_or_zero (Dict.get (bucket, a) found)) ∷ outcome_hour reasons found bucket

-- `_fill_hours`
unfoldable pub fill_outcome_hours : List OutcomeRow → ℕ → ℕ → Option (List OutcomeRow)
fill_outcome_hours rows hours now =
    fill_window (outcome_hour cache_outcome_reasons rows) (min hours outcome_retention_hours) now

abbrev pub selected_outcomes : Option ℕ → ℕ → Dict OutcomeKey ℕ → List OutcomeRow
selected_outcomes hours now t = order_by newest_first (where_rows (λ x. hours_ok hours now x.0.0) t)

unfoldable pub list_cache_outcomes :
    ℕ → Option ℕ → ℕ → Option ℕ → Bool → Dict OutcomeKey ℕ → Option (List OutcomeRow)
list_cache_outcomes now limit offset hours false t =
    some (page_rows limit offset (selected_outcomes hours now t))
list_cache_outcomes now limit offset none true t = some (selected_outcomes none now t)
list_cache_outcomes now limit offset (some n) true t =
    fill_outcome_hours (selected_outcomes (some n) now t) n now

unfoldable pub count_cache_outcomes : ℕ → Option ℕ → Dict OutcomeKey ℕ → ℕ
count_cache_outcomes now hours t = length (where_rows (λ x. hours_ok hours now x.0.0) t)

hits-outcome_stored :
    (r : CacheOutcomeAgg) (o : Option ℕ) → outcome_stored r o ≡ value_or_zero (λ n. n) o + r.hits
unfolding outcome_stored
hits-outcome_stored r none = omega arith
hits-outcome_stored r (some n) = refl

abbrev pub outcome_keeps : ℕ → OutcomeKey → Bool
outcome_keeps now k = not (ltb k.0 (outcome_cutoff now))

pub hits-record_cache_outcomes :
    (now : ℕ) (k : OutcomeKey) (rows : List CacheOutcomeAgg) (t : Dict OutcomeKey ℕ)
    → outcome_keeps now k ≡ true
    → value_or_zero (λ n. n) (Dict.get k (record_cache_outcomes now rows t))
      ≡ value_or_zero (λ n. n) (Dict.get k t) + handed outcome_buffer.row_weight k rows
unfolding record_cache_outcomes
hits-record_cache_outcomes now k [] t h = omega arith
hits-record_cache_outcomes now k (r ∷ rows) t h =
    rw
      (get-purge_kept (λ k. k.0) (outcome_cutoff now) k
        (upsert_all outcome_key outcome_stored (r ∷ rows) t) h)
      (value-upsert_all outcome_key outcome_stored (λ n. n) (λ r. r.hits) hits-outcome_stored k
        (r ∷ rows) t)

abbrev pub outcome_store : Store CacheOutcomeAgg OutcomeKey ℕ outcome_buffer.row_weight
outcome_store = record {
  save = record_cache_outcomes;
  amount = λ n. n;
  keeps = outcome_keeps;
  amount-save = hits-record_cache_outcomes;
}

-- Over any sequence of outcomes, flushes and failed flushes, the hits in the table, in the buffer
-- and in the batches that failed are those at first and the outcomes reported, for each hour and
-- reason whose hour no write purges.
pub outcome_hits_accounted :
    (ps : List (Step (Text × ℕ))) (x : World CacheOutcomeBuffer CacheOutcomeAgg OutcomeKey ℕ)
    (k : OutcomeKey)
    → Distinct (Dict.keys x.buffer.counts)
    → IsKept outcome_buffer outcome_store k ps
    → accounted outcome_buffer outcome_store k (steps_from outcome_buffer outcome_store ps x)
      ≡ accounted outcome_buffer outcome_store k x + reported outcome_buffer k (seen ps)
outcome_hits_accounted ps x k h kept =
    steps_from-accounted outcome_buffer outcome_store ps x k h kept

get-selected_outcomes :
    (hours : Option ℕ) (now : ℕ) (t : Dict OutcomeKey ℕ) (k : OutcomeKey)
    → Distinct (Dict.keys t)
    → Dict.get k (selected_outcomes hours now t)
      ≡ (if hours_ok hours now k.0 then Dict.get k t else none)
get-selected_outcomes hours now t k u =
    get-order_by newest_first k (where_rows (λ x. hours_ok hours now x.0.0) t)
      (where_rows-Distinct (λ x. hours_ok hours now x.0.0) t u)
    ∙ get-where_rows (λ x. hours_ok hours now x.0.0) (λ k. hours_ok hours now k.0) (λ x. refl) k t

outcome_hour-agree :
    (reasons : List Text) (found t : Dict OutcomeKey ℕ) (b : ℕ)
    → ((a : Text) → Dict.get (b, a) found ≡ Dict.get (b, a) t)
    → outcome_hour reasons found b ≡ outcome_hour reasons t b
outcome_hour-agree [] found t b h = refl
outcome_hour-agree (a ∷ reasons) found t b h = rw (h a, outcome_hour-agree reasons found t b h) refl

-- A filled chart has, for each hour of the window, newest first, the hits of every reason as the
-- table holds them, zero where it holds none. The window goes at most 100 hours back.
pub list_cache_outcomes_chart :
    (now : ℕ) (limit : Option ℕ) (offset n : ℕ) (t : Dict OutcomeKey ℕ)
    → Distinct (Dict.keys t)
    → min n outcome_retention_hours * hour < now
    → list_cache_outcomes now limit offset (some n) true t
      ≡ some (
          rows_of_hours
            (outcome_hour cache_outcome_reasons t)
            (hours_back (window_length (min n outcome_retention_hours) now) (floor_hour now)))
unfolding list_cache_outcomes fill_outcome_hours
list_cache_outcomes_chart now limit offset n t u h =
    let rows = selected_outcomes (some n) now t in
    fill_window-hours_back (outcome_hour cache_outcome_reasons rows) (min n outcome_retention_hours)
      now h
    ∙ ap some (
        rows_of_hours-agree (outcome_hour cache_outcome_reasons rows)
          (outcome_hour cache_outcome_reasons t)
          (hours_back (window_length (min n outcome_retention_hours) now) (floor_hour now))
          (All-mono (λ b. leb (now - min n outcome_retention_hours * hour) b ≡ true)
            (λ b.
              outcome_hour cache_outcome_reasons rows b ≡ outcome_hour cache_outcome_reasons t b)
            (λ b k.
              outcome_hour-agree cache_outcome_reasons rows t b
                (λ a. ground (arith, get-selected_outcomes (some n) now t (b, a) u)))
            (hours_back (window_length (min n outcome_retention_hours) now) (floor_hour now))
            (window-All (min n outcome_retention_hours) now h)))
