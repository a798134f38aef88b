-- ===== src/Repository/ForeignClients.antt =====
-- src/mirenai/repository/foreign_clients.py: the addresses from outside that were refused. A row is
-- named by its address where the program uses its id; times are seconds, and the time now is an
-- argument.
use mirenai.Python.Dict
use mirenai.Buffers.Foreign.{ForeignClientAgg}
use mirenai.Prelude.{
  Bool, Distinct, List, Option, [], length, list_eq, nat_eq, none, pair_eq, some, ℕ, ◌+◌, ◌∷◌, ◌≡◌,
  ◌≤◌,
}
use mirenai.Python.Dict.{Dict, is_some}
use mirenai.Python.Text.{Text}
use mirenai.Repository.Cap.{
  cap_rows, cap_rows-Distinct, cap_rows-newest, length-cap_rows, seen_later,
}
use mirenai.Repository.Select.{order_by, page_rows}
use mirenai.Repository.Upsert.{upsert_all, upsert_all-Distinct}

abbrev pub max_foreign_clients : ℕ
max_foreign_clients = 1_000

pub record ForeignClient : Type 0 where
  pub hits : ℕ
  pub first_seen : ℕ
  pub last_seen : ℕ

unfoldable pub foreign_stored : ℕ → ForeignClientAgg → Option ForeignClient → ForeignClient
foreign_stored now r none = record { hits = r.hits; first_seen = now; last_seen = now }
foreign_stored now r (some c) = record c { hits = c.hits + r.hits; last_seen = now }

abbrev pub with_foreign :
    ℕ → List ForeignClientAgg → Dict Text ForeignClient → Dict Text ForeignClient
with_foreign now rows t = upsert_all (λ (r : ForeignClientAgg). r.ip) (foreign_stored now) rows t

unfoldable pub record_foreign_clients :
    ℕ → List ForeignClientAgg → Dict Text ForeignClient → Dict Text ForeignClient
record_foreign_clients now [] t = t
record_foreign_clients now (r ∷ rows) t =
    cap_rows (λ c. c.last_seen) max_foreign_clients (with_foreign now (r ∷ rows) t)

unfoldable pub list_foreign_clients :
    Option ℕ → ℕ → Dict Text ForeignClient → Dict Text ForeignClient
list_foreign_clients limit offset t =
    page_rows limit offset (order_by (seen_later (λ c. c.last_seen)) t)

unfoldable pub count_foreign_clients : Dict Text ForeignClient → ℕ
count_foreign_clients t = length t

unfoldable pub delete_foreign_client :
    Text → Dict Text ForeignClient → Dict Text ForeignClient × Bool
delete_foreign_client ip t = (Dict.remove ip t, is_some (Dict.get ip t))

unfoldable pub delete_all_foreign_clients : Dict Text ForeignClient → Dict Text ForeignClient × ℕ
delete_all_foreign_clients t = ([], length t)

with_foreign-Distinct :
    (now : ℕ) (rows : List ForeignClientAgg) (t : Dict Text ForeignClient)
    → Distinct (Dict.keys t)
    → Distinct (Dict.keys (with_foreign now rows t))
with_foreign-Distinct now rows t u =
    upsert_all-Distinct (λ (r : ForeignClientAgg). r.ip) (foreign_stored now) rows t u

-- A batch leaves at most 1,000 addresses, each once, as long as there were not more before.
pub record_foreign_clients-bounded :
    (now : ℕ) (rows : List ForeignClientAgg) (t : Dict Text ForeignClient)
    → Distinct (Dict.keys t)
    → length t ≤ max_foreign_clients
    → (length (record_foreign_clients now rows t) ≤ max_foreign_clients)
      × Distinct (Dict.keys (record_foreign_clients now rows t))
unfolding record_foreign_clients
record_foreign_clients-bounded now [] t u h = (h, u)
record_foreign_clients-bounded now (r ∷ rows) t u h =
    let full = with_foreign now (r ∷ rows) t in
    let v = with_foreign-Distinct now (r ∷ rows) t u in
    (
      length-cap_rows (λ c. c.last_seen) max_foreign_clients full v,
      cap_rows-Distinct (λ c. c.last_seen) max_foreign_clients full v,
    )

-- An address that a batch pushes out of the table was not seen after any address that stays.
pub record_foreign_clients-newest :
    (now : ℕ) (r : ForeignClientAgg) (rows : List ForeignClientAgg) (t : Dict Text ForeignClient)
    (k j : Text) (v w : ForeignClient)
    → Distinct (Dict.keys t)
    → Dict.get k (record_foreign_clients now (r ∷ rows) t) ≡ some v
    → Dict.get j (with_foreign now (r ∷ rows) t) ≡ some w
    → Dict.get j (record_foreign_clients now (r ∷ rows) t) ≡ none
    → w.last_seen ≤ v.last_seen
unfolding record_foreign_clients
record_foreign_clients-newest now r rows t k j v w u a b c =
    cap_rows-newest (λ c. c.last_seen) max_foreign_clients (with_foreign now (r ∷ rows) t) k j v w
      (with_foreign-Distinct now (r ∷ rows) t u) a b c
