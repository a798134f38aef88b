-- ===== src/Repository/Events.antt =====
-- src/mirenai/repository/query_events.py: the queries of the last hour, and
-- src/mirenai/repository/runtime_stats.py: the gauges of the server. Times are microseconds, and the
-- time now is an argument.
use mirenai.Buffers.Events.{QueryEvent}
use mirenai.Prelude.{
  Bool, List, Option, [], arith, leb, list_eq, ltb, map, max, nat_eq, none, not, pair_eq, refl,
  some, take, ℕ, ◌&&◌, ◌*◌, ◌++◌, ◌-◌, ◌==◌, ◌∙◌, ◌∷◌, ◌≡◌,
}
use mirenai.CacheView.{microseconds}
use mirenai.Python.Dict.{Dict}
use mirenai.Python.Text.{Text}
use mirenai.Repository.Select.{order_by, where_rows}
use mirenai.Repository.Upsert.{upsert_all}

abbrev pub event_retention : ℕ
event_retention = 3_600 * microseconds

unfoldable pub record_query_events : ℕ → List QueryEvent → List QueryEvent → List QueryEvent
record_query_events now [] t = t
record_query_events now (r ∷ rows) t =
    where_rows (λ (e : QueryEvent). not (ltb e.created_at (now - event_retention))) (t ++ r ∷ rows)

abbrev pub limited : Option ℕ → List QueryEvent → List QueryEvent
limited none es = es
limited (some n) es = take n es

-- the events of a client from the last seconds, newest first, the later id first
unfoldable pub list_recent_queries : ℕ → Text → ℕ → Option ℕ → List QueryEvent → List QueryEvent
list_recent_queries now client seconds limit t = limited limit (
    order_by (λ (x : QueryEvent) (y : QueryEvent). ltb y.created_at x.created_at)
      (where_rows
        (λ (e : QueryEvent). e.client == client && leb (now - seconds * microseconds) e.created_at)
        t))

-- a gauge, with the second of its last write
abbrev pub StatTable : Type 0
StatTable = Dict Text (ℕ × ℕ)

unfoldable pub record_runtime_stats : ℕ → List (Text × ℕ) → StatTable → StatTable
record_runtime_stats now values t =
    upsert_all (λ (x : Text × ℕ). x.0) (λ (x : Text × ℕ) o. (x.1, now)) values t

abbrev pub latest_write : Option ℕ → StatTable → Option ℕ
latest_write m [] = m
latest_write none ((k, v) ∷ t) = latest_write (some v.1) t
latest_write (some m) ((k, v) ∷ t) = latest_write (some (max m v.1)) t

unfoldable pub load_runtime_stats : StatTable → List (Text × ℕ) × Option ℕ
load_runtime_stats t = (map (λ (x : Text × (ℕ × ℕ)). (x.0, x.1.0)) t, latest_write none t)

where_rows-append :
    (test : QueryEvent → Bool) (xs ys : List QueryEvent)
    → where_rows test (xs ++ ys) ≡ where_rows test xs ++ where_rows test ys
where_rows-append test [] ys = refl
where_rows-append test (x ∷ xs) ys = ground (arith, where_rows-append test xs ys)

-- A batch keeps just the stored and new events of the last hour, each list in its order.
pub record_query_events_lem :
    (now : ℕ) (r : QueryEvent) (rows t : List QueryEvent)
    → let recent = where_rows (λ (e : QueryEvent). leb (now - event_retention) e.created_at) in
      record_query_events now (r ∷ rows) t ≡ recent t ++ recent (r ∷ rows)
unfolding record_query_events
record_query_events_lem now r rows t =
    where_rows-append (λ (e : QueryEvent). not (ltb e.created_at (now - event_retention))) t
      (r ∷ rows)
    ∙ (λ i. same t i ++ same (r ∷ rows) i)
  where
    same :
        (xs : List QueryEvent)
        → where_rows (λ (e : QueryEvent). not (ltb e.created_at (now - event_retention))) xs
          ≡ where_rows (λ (e : QueryEvent). leb (now - event_retention) e.created_at) xs
    same [] = refl
    same (x ∷ xs) = ground (arith, same xs)
