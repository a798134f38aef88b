-- ===== src/Repository/Uncacheable.antt =====
-- src/mirenai/repository/uncacheable.py: the forwarded answers that could not be cached. A row is
-- named by its key where the program uses its id; times are seconds, and the time now is an argument.
use mirenai.Python.Dict
use mirenai.Buffers.Uncacheable.{UncacheableAgg, SkipKey}
use mirenai.Prelude.{
  Bool, Distinct, List, Option, [], arith, if◌then◌else◌, length, list_eq, ltb, nat_eq, none, not,
  pair_eq, refl, some, ℕ, ◌&&◌, ◌+◌, ◌∷◌, ◌≡◌, ◌≤◌,
}
use mirenai.Python.Dict.{Dict, is_some}
use mirenai.Python.Text.{Text}
use mirenai.Repository.Cap.{cap_rows, cap_rows-Distinct, cap_rows-newest, length-cap_rows}
use mirenai.Repository.ClientStats.Chart.{client_ok}
use mirenai.Repository.Select.{get-where_rows, order_by, page_rows, where_rows}
use mirenai.Repository.Upsert.{upsert_all, upsert_all-Distinct}

abbrev pub max_uncacheable : ℕ
max_uncacheable = 5_000

-- the columns of `UncacheableResponse` besides its key
pub record UncacheableResponse : Type 0 where
  pub last_ttl : Option ℕ
  pub hits : ℕ
  pub first_seen : ℕ
  pub last_seen : ℕ

abbrev pub SkipTable : Type 0
SkipTable = Dict SkipKey UncacheableResponse

abbrev pub skip_key : UncacheableAgg → SkipKey
skip_key r = (r.client, (r.domain, (r.qtype, r.reason)))

unfoldable pub skip_stored : ℕ → UncacheableAgg → Option UncacheableResponse → UncacheableResponse
skip_stored now r none = record {
  last_ttl = r.last_ttl;
  hits = r.hits;
  first_seen = now;
  last_seen = now;
}
skip_stored now r (some c) = record c {
  hits = c.hits + r.hits;
  last_ttl = r.last_ttl;
  last_seen = now;
}

abbrev pub with_skips : ℕ → List UncacheableAgg → SkipTable → SkipTable
with_skips now rows t = upsert_all skip_key (skip_stored now) rows t

unfoldable pub record_uncacheable : ℕ → List UncacheableAgg → SkipTable → SkipTable
record_uncacheable now [] t = t
record_uncacheable now (r ∷ rows) t =
    cap_rows (λ c. c.last_seen) max_uncacheable (with_skips now (r ∷ rows) t)

-- the conditions `reason` and `client`, if they are given
abbrev pub skip_ok : Option Text → Option Text → SkipKey → Bool
skip_ok reason client k = client_ok reason k.1.1.1 && client_ok client k.0

-- the rows by hits, most first, and then by id
unfoldable pub list_uncacheable : Option ℕ → ℕ → Option Text → Option Text → SkipTable → SkipTable
list_uncacheable limit offset reason client t =
    page_rows limit offset (
      order_by (λ x y. not (ltb x.1.hits y.1.hits)) (where_rows (λ x. skip_ok reason client x.0) t))

unfoldable pub count_uncacheable : Option Text → Option Text → SkipTable → ℕ
count_uncacheable reason client t = length (where_rows (λ x. skip_ok reason client x.0) t)

unfoldable pub delete_uncacheable : SkipKey → SkipTable → SkipTable × Bool
delete_uncacheable k t = (Dict.remove k t, is_some (Dict.get k t))

-- the rows that stay, and how many were deleted
unfoldable pub delete_all_uncacheable : Option Text → Option Text → SkipTable → SkipTable × ℕ
delete_all_uncacheable reason client t = (
  where_rows (λ x. not (skip_ok reason client x.0)) t,
  length (where_rows (λ x. skip_ok reason client x.0) t),
)

with_skips-Distinct :
    (now : ℕ) (rows : List UncacheableAgg) (t : SkipTable)
    → Distinct (Dict.keys t)
    → Distinct (Dict.keys (with_skips now rows t))
with_skips-Distinct now rows t u = upsert_all-Distinct skip_key (skip_stored now) rows t u

-- A batch that is not empty leaves at most 5,000 rows, each key once; and a row that it pushes out
-- was not seen after any row that stays.
pub record_uncacheable-capped :
    (now : ℕ) (r : UncacheableAgg) (rows : List UncacheableAgg) (t : SkipTable)
    → Distinct (Dict.keys t)
    → (length (record_uncacheable now (r ∷ rows) t) ≤ max_uncacheable)
      × Distinct (Dict.keys (record_uncacheable now (r ∷ rows) t))
      × ((k j : SkipKey) (v w : UncacheableResponse)
          → Dict.get k (record_uncacheable now (r ∷ rows) t) ≡ some v
          → Dict.get j (with_skips now (r ∷ rows) t) ≡ some w
          → Dict.get j (record_uncacheable now (r ∷ rows) t) ≡ none
          → w.last_seen ≤ v.last_seen)
unfolding record_uncacheable
record_uncacheable-capped now r rows t u =
    let full = with_skips now (r ∷ rows) t in
    let d = with_skips-Distinct now (r ∷ rows) t u in
    (
      length-cap_rows (λ c. c.last_seen) max_uncacheable full d,
      cap_rows-Distinct (λ c. c.last_seen) max_uncacheable full d,
      λ k j v w a b c. cap_rows-newest (λ c. c.last_seen) max_uncacheable full k j v w d a b c,
    )

length-split :
    (test : SkipKey × UncacheableResponse → Bool) (t : SkipTable)
    → length (where_rows (λ x. not (test x)) t) + length (where_rows test t) ≡ length t
length-split test [] = refl
length-split test (x ∷ t) = ground (arith, length-split test t)

-- The deletion reports how many rows are gone, and leaves just the rows that do not fit.
pub delete_all_uncacheable_lem :
    (reason client : Option Text) (t : SkipTable) (k : SkipKey)
    → let (left, deleted) = delete_all_uncacheable reason client t in
      (length left + deleted ≡ length t)
      × (deleted ≡ count_uncacheable reason client t)
      × (Dict.get k left ≡ (if skip_ok reason client k then none else Dict.get k t))
unfolding delete_all_uncacheable count_uncacheable
delete_all_uncacheable_lem reason client t k = (
  length-split (λ x. skip_ok reason client x.0) t,
  refl,
  ground (
    arith,
    get-where_rows (λ (x : SkipKey × UncacheableResponse). not (skip_ok reason client x.0))
        (λ k. not (skip_ok reason client k)) (λ x. refl) k t,
  ),
)
