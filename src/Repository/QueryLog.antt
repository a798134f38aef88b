-- ===== src/Repository/QueryLog.antt =====
-- src/mirenai/repository/query_log.py: the query log. Times are seconds, and the time now is an
-- argument.
pub mod Totals
use mirenai.Python.Dict
use mirenai.Repository.Persist.{
  Store, Step, World, IsKept, accounted, seen, steps_from, steps_from-accounted,
}
use mirenai.Buffers.Queries.{QueryAgg, QueryBuffer, QueryKey, Counter, Query, query_buffer}
use mirenai.Prelude.{
  Bool, Distinct, List, Option, [], arith, length, list_eq, ltb, nat_eq, none, not, pair_eq, refl,
  some, true, ℕ, ◌&&◌, ◌+◌, ◌==◌, ◌||◌, ◌∷◌, ◌≡◌,
}
use mirenai.Blocklist.{is_nil}
use mirenai.Buffers.Tally.{handed, reported, value_or_zero}
use mirenai.Python.Dict.{Dict}
use mirenai.Python.Text.{Text}
use mirenai.Repository.Like.{ilike, search_term}
use mirenai.Repository.Select.{order_by, page_rows, where_rows}
use mirenai.Repository.Upsert.{upsert_all, value-upsert_all}

-- the columns of `QueryLog` besides its key
pub record LogEntry : Type 0 where
  pub count : ℕ
  pub last_action : Text
  pub last_response : Text
  pub first_seen : ℕ
  pub last_seen : ℕ

abbrev pub LogTable : Type 0
LogTable = Dict QueryKey LogEntry

abbrev pub log_key : QueryAgg → QueryKey
log_key r = (r.client, (r.domain, r.qtype))

unfoldable pub log_stored : ℕ → QueryAgg → Option LogEntry → LogEntry
log_stored now r none = record {
  count = r.count;
  last_action = r.last_action;
  last_response = r.last_response;
  first_seen = now;
  last_seen = now;
}
log_stored now r (some c) = record c {
  count = c.count + r.count;
  last_action = r.last_action;
  last_response = r.last_response;
  last_seen = now;
}

unfoldable pub record_queries : ℕ → List QueryAgg → LogTable → LogTable
record_queries now rows t = upsert_all log_key (log_stored now) rows t

-- `if client:` and `if not search:`, where an absent value is the empty text
abbrev pub log_ok : Text → Text → QueryKey → Bool
log_ok sought client k =
    (is_nil client || k.0 == client)
    && (is_nil sought || ilike k.0 (search_term sought) || ilike k.1.0 (search_term sought))

-- the rows by `last_seen`, newest first, and then by id
unfoldable pub list_queries : Option ℕ → ℕ → Text → Text → LogTable → LogTable
list_queries limit offset sought client t = page_rows limit offset (
    order_by (λ x y. not (ltb x.1.last_seen y.1.last_seen))
      (where_rows (λ x. log_ok sought client x.0) t))

unfoldable pub count_queries : Text → Text → LogTable → ℕ
count_queries sought client t = length (where_rows (λ x. log_ok sought client x.0) t)

unfoldable pub reset_queries : LogTable → LogTable × ℕ
reset_queries t = ([], length t)

count-log_stored :
    (now : ℕ) (r : QueryAgg) (o : Option LogEntry)
    → (log_stored now r o).count ≡ value_or_zero (λ s. s.count) o + r.count
unfolding log_stored
count-log_stored now r none = omega arith
count-log_stored now r (some s) = refl

pub count-record_queries :
    (now : ℕ) (k : QueryKey) (rows : List QueryAgg) (t : LogTable)
    → true ≡ true
    → value_or_zero (λ s. s.count) (Dict.get k (record_queries now rows t))
      ≡ value_or_zero (λ s. s.count) (Dict.get k t) + handed query_buffer.row_weight k rows
unfolding record_queries
count-record_queries now k rows t h =
    value-upsert_all log_key (log_stored now) (λ s. s.count) (λ r. r.count) (count-log_stored now) k
      rows t

abbrev pub log_store : Store QueryAgg QueryKey LogEntry query_buffer.row_weight
log_store = record {
  save = record_queries;
  amount = λ s. s.count;
  keeps = λ now k. true;
  amount-save = count-record_queries;
}

-- Nothing is ever purged.
all-IsKept : (ps : List (Step Query)) (k : QueryKey) → IsKept query_buffer log_store k ps
all-IsKept [] k = tt
all-IsKept (Step.reports q ∷ ps) k = all-IsKept ps k
all-IsKept (Step.writes now ∷ ps) k = (refl, all-IsKept ps k)
all-IsKept (Step.fails ∷ ps) k = all-IsKept ps k

-- Whatever the order of queries, flushes and failed flushes, the counts of a client, name and type
-- in the log, in the buffer and in the batches that failed are those at first and the queries
-- reported: each query is counted once.
pub queries_accounted :
    (ps : List (Step Query)) (x : World QueryBuffer QueryAgg QueryKey LogEntry) (k : QueryKey)
    → Distinct (Dict.keys x.buffer.counters)
    → accounted query_buffer log_store k (steps_from query_buffer log_store ps x)
      ≡ accounted query_buffer log_store k x + reported query_buffer k (seen ps)
queries_accounted ps x k h = steps_from-accounted query_buffer log_store ps x k h (all-IsKept ps k)
