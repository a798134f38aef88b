-- ===== src/Repository/ClientRequests.antt =====
-- src/mirenai/repository/client_requests.py: the requests of the clients. The time now is an
-- argument.
pub mod NewDomains
pub mod Recent
use mirenai.Python.Dict
use mirenai.Repository.Persist.{
  Store, Step, World, IsKept, accounted, seen, steps_from, steps_from-accounted,
}
use mirenai.Buffers.Requests.{ClientRequestAgg, ClientRequestBuffer, RequestKey, request_buffer}
use mirenai.Prelude.{
  Bool-cases, Distinct, List, Option, [], ap, arith, inl, inr, length, list_eq, ltb, nat_eq, none,
  not, pair_beq_iff, pair_eq, refl, some, sym, true, ℕ, ◌+◌, ◌==◌, ◌∙◌, ◌∷◌, ◌≡◌,
}
use mirenai.Buffers.Tally.{handed, reported, value_or_zero}
use mirenai.Python.Dict.{Dict}
use mirenai.Python.Text.{Text}
use mirenai.Repository.ClientStats.Chart.{client_ok}
use mirenai.Repository.Select.{order_by, page_rows, where_rows}
use mirenai.Repository.Upsert.{get-upsert, upsert, upsert_all, value-upsert_all}

-- the columns of `ClientRequest` besides its key
pub record ClientRequest : Type 0 where
  pub hits : ℕ
  pub first_seen : ℕ
  pub last_seen : ℕ

abbrev pub RequestTable : Type 0
RequestTable = Dict RequestKey ClientRequest

abbrev pub request_key : ClientRequestAgg → RequestKey
request_key r = (r.client, (r.domain, r.qtype))

unfoldable pub request_stored : ℕ → ClientRequestAgg → Option ClientRequest → ClientRequest
request_stored now r none = record { hits = r.hits; first_seen = now; last_seen = now }
request_stored now r (some c) = record c { hits = c.hits + r.hits; last_seen = now }

unfoldable pub record_client_requests : ℕ → List ClientRequestAgg → RequestTable → RequestTable
record_client_requests now rows t = upsert_all request_key (request_stored now) rows t

-- the rows by hits, most first, and then by id
unfoldable pub list_client_requests : Option ℕ → ℕ → Option Text → RequestTable → RequestTable
list_client_requests limit offset client t =
    page_rows limit offset
      (order_by (λ x y. not (ltb x.1.hits y.1.hits)) (where_rows (λ x. client_ok client x.0.0) t))

unfoldable pub count_client_requests : Option Text → RequestTable → ℕ
count_client_requests client t = length (where_rows (λ x. client_ok client x.0.0) t)

hits-request_stored :
    (now : ℕ) (r : ClientRequestAgg) (o : Option ClientRequest)
    → (request_stored now r o).hits ≡ value_or_zero (λ s. s.hits) o + r.hits
unfolding request_stored
hits-request_stored now r none = omega arith
hits-request_stored now r (some s) = refl

pub hits-record_client_requests :
    (now : ℕ) (k : RequestKey) (rows : List ClientRequestAgg) (t : RequestTable)
    → true ≡ true
    → value_or_zero (λ s. s.hits) (Dict.get k (record_client_requests now rows t))
      ≡ value_or_zero (λ s. s.hits) (Dict.get k t) + handed request_buffer.row_weight k rows
unfolding record_client_requests
hits-record_client_requests now k rows t h =
    value-upsert_all request_key (request_stored now) (λ s. s.hits) (λ r. r.hits)
      (hits-request_stored now) k rows t

abbrev pub request_store : Store ClientRequestAgg RequestKey ClientRequest request_buffer.row_weight
request_store = record {
  save = record_client_requests;
  amount = λ s. s.hits;
  keeps = λ now k. true;
  amount-save = hits-record_client_requests;
}

all-IsKept :
    (ps : List (Step RequestKey)) (k : RequestKey) → IsKept request_buffer request_store k ps
all-IsKept [] k = tt
all-IsKept (Step.reports q ∷ ps) k = all-IsKept ps k
all-IsKept (Step.writes now ∷ ps) k = (refl, all-IsKept ps k)
all-IsKept (Step.fails ∷ ps) k = all-IsKept ps k

-- Whatever the order of requests, flushes and failed flushes, the hits of a client, name and type in
-- the table, in the buffer and in the batches that failed are those at first and the requests
-- reported.
pub requests_accounted :
    (ps : List (Step RequestKey))
    (x : World ClientRequestBuffer ClientRequestAgg RequestKey ClientRequest) (k : RequestKey)
    → Distinct (Dict.keys x.buffer.counts)
    → accounted request_buffer request_store k (steps_from request_buffer request_store ps x)
      ≡ accounted request_buffer request_store k x + reported request_buffer k (seen ps)
requests_accounted ps x k h =
    steps_from-accounted request_buffer request_store ps x k h (all-IsKept ps k)

-- the time a key was first seen, if its row is there
abbrev pub first_or_now : ℕ → Option ClientRequest → ℕ
first_or_now now none = now
first_or_now now (some c) = c.first_seen

-- A batch does not change the time at which a stored request was first seen.
pub first_seen-record_client_requests :
    (now : ℕ) (rows : List ClientRequestAgg) (t : RequestTable) (k : RequestKey)
    → first_or_now now (Dict.get k (record_client_requests now rows t))
      ≡ first_or_now now (Dict.get k t)
unfolding record_client_requests upsert_all
first_seen-record_client_requests now [] t k = refl
first_seen-record_client_requests now (r ∷ rows) t k =
    first_seen-record_client_requests now rows (upsert request_key (request_stored now) r t) k
    ∙ ap (first_or_now now) (get-upsert request_key (request_stored now) r t k)
    ∙ (elim (Bool-cases (request_key r == k)) [
      | inl same ↦
          rw (same, sym ((pair_beq_iff (request_key r) k).0 same))
            (kept_first r (Dict.get (request_key r) t))
      | inr other ↦ rw other refl
    ])
  where
    kept_first :
        (q : ClientRequestAgg) (o : Option ClientRequest)
        → (request_stored now q o).first_seen ≡ first_or_now now o
    kept_first q none = unfold request_stored in refl
    kept_first q (some c) = unfold request_stored in refl
