-- ===== src/Repository/ClientStats.antt =====
-- src/mirenai/repository/client_stats.py: the hourly statistics of each client. The ids of the rows
-- are left out; the time now is an argument.
pub mod Chart
pub mod Site
use mirenai.Python.Dict
use mirenai.Repository.Persist.{
  Store, Step, World, IsKept, accounted, seen, steps_from, steps_from-accounted,
}
use mirenai.Prelude.{
  Bool, Distinct, List, Option, [], arith, false, list_eq, ltb, nat_eq, none, not, pair_eq, refl,
  some, true, ℕ, ◌*◌, ◌+◌, ◌-◌, ◌∷◌, ◌≡◌,
}
use mirenai.Buffers.Stats.{ClientStatAgg, ClientStatsBuffer, Report, StatKey, stats_buffer}
use mirenai.Buffers.Tally.{handed, hour, reported, value_or_zero}
use mirenai.Python.Dict.{Dict}
use mirenai.Repository.Upsert.{
  get-purge, get-purge_kept, purge, purge-Distinct, upsert_all, upsert_all-Distinct,
  value-upsert_all,
}

abbrev pub retention_hours : ℕ
retention_hours = 500

-- the columns of `ClientHourlyStat` besides the hour and the client
pub record HourlyStat : Type 0 where
  pub total : ℕ
  pub forwarded : ℕ
  pub cached : ℕ
  pub overridden : ℕ
  pub local : ℕ
  pub denied : ℕ
  pub blocked : ℕ
  pub servfail : ℕ
  pub foreign : ℕ

abbrev pub stat_key : ClientStatAgg → StatKey
stat_key r = (r.hour_start, r.client)

-- the row to insert, or the row that is there with the counts added
unfoldable pub stat_stored : ClientStatAgg → Option HourlyStat → HourlyStat
stat_stored r none = record {
  total = r.total;
  forwarded = r.forwarded;
  cached = r.cached;
  overridden = r.overridden;
  local = r.local;
  denied = r.denied;
  blocked = r.blocked;
  servfail = r.servfail;
  foreign = r.foreign;
}
stat_stored r (some s) = record {
  total = s.total + r.total;
  forwarded = s.forwarded + r.forwarded;
  cached = s.cached + r.cached;
  overridden = s.overridden + r.overridden;
  local = s.local + r.local;
  denied = s.denied + r.denied;
  blocked = s.blocked + r.blocked;
  servfail = s.servfail + r.servfail;
  foreign = s.foreign + r.foreign;
}

abbrev pub stat_cutoff : ℕ → ℕ
stat_cutoff now = now - retention_hours * hour

-- An empty batch opens no session, so it purges nothing.
unfoldable pub record_client_stats :
    ℕ → List ClientStatAgg → Dict StatKey HourlyStat → Dict StatKey HourlyStat
record_client_stats now [] t = t
record_client_stats now (r ∷ rows) t =
    purge (λ k. k.0) (stat_cutoff now) (upsert_all stat_key stat_stored (r ∷ rows) t)

total-stat_stored :
    (r : ClientStatAgg) (o : Option HourlyStat)
    → (stat_stored r o).total ≡ value_or_zero (λ s. s.total) o + r.total
unfolding stat_stored
total-stat_stored r none = omega arith
total-stat_stored r (some s) = refl

abbrev pub stat_keeps : ℕ → StatKey → Bool
stat_keeps now k = not (ltb k.0 (stat_cutoff now))

pub total-record_client_stats :
    (now : ℕ) (k : StatKey) (rows : List ClientStatAgg) (t : Dict StatKey HourlyStat)
    → stat_keeps now k ≡ true
    → value_or_zero (λ s. s.total) (Dict.get k (record_client_stats now rows t))
      ≡ value_or_zero (λ s. s.total) (Dict.get k t) + handed stats_buffer.row_weight k rows
unfolding record_client_stats
total-record_client_stats now k [] t h = omega arith
total-record_client_stats now k (r ∷ rows) t h =
    rw
      (get-purge_kept (λ k. k.0) (stat_cutoff now) k (upsert_all stat_key stat_stored (r ∷ rows) t)
        h)
      (value-upsert_all stat_key stat_stored (λ s. s.total) (λ r. r.total) total-stat_stored k
        (r ∷ rows) t)

abbrev pub stats_store : Store ClientStatAgg StatKey HourlyStat stats_buffer.row_weight
stats_store = record {
  save = record_client_stats;
  amount = λ s. s.total;
  keeps = stat_keeps;
  amount-save = total-record_client_stats;
}

-- A write that purges leaves no row from before the cutoff.
pub record_client_stats-purged :
    (now : ℕ) (r : ClientStatAgg) (rows : List ClientStatAgg) (t : Dict StatKey HourlyStat)
    (k : StatKey)
    → stat_keeps now k ≡ false
    → Dict.get k (record_client_stats now (r ∷ rows) t) ≡ none
unfolding record_client_stats
record_client_stats-purged now r rows t k h =
    ground (
      arith,
      get-purge (λ k. k.0) (stat_cutoff now) k (upsert_all stat_key stat_stored (r ∷ rows) t),
    )

pub record_client_stats-Distinct :
    (now : ℕ) (rows : List ClientStatAgg) (t : Dict StatKey HourlyStat)
    → Distinct (Dict.keys t)
    → Distinct (Dict.keys (record_client_stats now rows t))
unfolding record_client_stats
record_client_stats-Distinct now [] t h = h
record_client_stats-Distinct now (r ∷ rows) t h =
    purge-Distinct (λ k. k.0) (stat_cutoff now) (upsert_all stat_key stat_stored (r ∷ rows) t)
      (upsert_all-Distinct stat_key stat_stored (r ∷ rows) t h)

-- Whatever the order of queries, flushes and failed flushes, each query of a client is counted once
-- in the hour it came in: the totals in the table, in the buffer and in the batches that failed are
-- those at first and the queries reported, for each hour and client whose hour no write purges.
pub client_totals_accounted :
    (ps : List (Step Report)) (x : World ClientStatsBuffer ClientStatAgg StatKey HourlyStat)
    (k : StatKey)
    → Distinct (Dict.keys x.buffer.counters)
    → IsKept stats_buffer stats_store k ps
    → accounted stats_buffer stats_store k (steps_from stats_buffer stats_store ps x)
      ≡ accounted stats_buffer stats_store k x + reported stats_buffer k (seen ps)
client_totals_accounted ps x k h kept = steps_from-accounted stats_buffer stats_store ps x k h kept
