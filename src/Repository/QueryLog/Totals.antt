-- ===== src/Repository/QueryLog/Totals.antt =====
-- src/mirenai/repository/query_log.py: the log by domain, and the clients of a domain.
use mirenai.Python.Dict
use mirenai.Buffers.Queries.{QueryKey}
use mirenai.Prelude.{
  Bool, List, [], arith, contains, if◌then◌else◌, list_beq_iff, list_eq, ltb, map, max, min, nat_eq,
  not, pair_eq, refl, ℕ, ◌++◌, ◌+◌, ◌==◌, ◌∙◌, ◌∷◌, ◌≡◌,
}
use mirenai.Buffers.Tally.{rows_or_nil, value_or_zero}
use mirenai.Python.Dict.{Dict}
use mirenai.Python.Text.{Text}
use mirenai.Repository.Blocklists.Domains.{chunks}
use mirenai.Repository.Group.{group_by, sum_of, value-grouped}
use mirenai.Repository.QueryLog.{LogEntry, LogTable}
use mirenai.Repository.Select.{order_by, where_rows}
use mirenai.Repository.Texts.{text_ltb}

abbrev pub LogRow : Type 0
LogRow = QueryKey × LogEntry

-- the sums of a domain
pub record DomainTotal : Type 0 where
  pub count : ℕ
  pub first_seen : ℕ
  pub last_seen : ℕ

abbrev pub min_from : ℕ → List LogRow → ℕ
min_from m [] = m
min_from m (x ∷ rows) = min_from (min m x.1.first_seen) rows

abbrev pub max_from : ℕ → List LogRow → ℕ
max_from m [] = m
max_from m (x ∷ rows) = max_from (max m x.1.last_seen) rows

-- a group has a row
abbrev pub earliest : List LogRow → ℕ
earliest [] = 0
earliest (x ∷ rows) = min_from x.1.first_seen rows

abbrev pub domain_total : List LogRow → DomainTotal
domain_total rows = record {
  count = sum_of (λ (x : LogRow). x.1.count) rows;
  first_seen = earliest rows;
  last_seen = max_from 0 rows;
}

-- most queries first, and then by domain
abbrev pub total_before : Text × DomainTotal → Text × DomainTotal → Bool
total_before x y =
    if x.1.count == y.1.count then not (text_ltb y.0 x.0) else ltb y.1.count x.1.count

unfoldable pub aggregate_domain_totals : LogTable → Dict Text DomainTotal
aggregate_domain_totals t = order_by total_before (
    map (λ (g : Text × List LogRow). (g.0, domain_total g.1))
      (group_by (λ (x : LogRow). x.0.1.0) t))

abbrev pub domain_chunk : ℕ
domain_chunk = 500

-- by domain, then most queries first, then by client
abbrev pub pair_before : (Text × Text) × ℕ → (Text × Text) × ℕ → Bool
pair_before x y =
    if x.0.0 == y.0.0
    then (if x.1 == y.1 then not (text_ltb y.0.1 x.0.1) else ltb y.1 x.1)
    else text_ltb x.0.0 y.0.0

-- the rows of one chunk: domain, client and the sum of the counts
abbrev pub chunk_clients : List Text → LogTable → List ((Text × Text) × ℕ)
chunk_clients chunk t = order_by pair_before (
    map (λ (g : (Text × Text) × List LogRow). (g.0, sum_of (λ (x : LogRow). x.1.count) g.1))
      (group_by (λ (x : LogRow). (x.0.1.0, x.0.0))
        (where_rows (λ (x : LogRow). contains chunk x.0.1.0) t)))

-- `result.setdefault(domain, []).append(...)`
abbrev pub add_clients :
    List ((Text × Text) × ℕ) → Dict Text (List (Text × ℕ)) → Dict Text (List (Text × ℕ))
add_clients [] d = d
add_clients ((k, n) ∷ rows) d =
    add_clients rows (Dict.put k.0 (rows_or_nil (Dict.get k.0 d) ++ (k.1, n) ∷ []) d)

abbrev pub add_chunks :
    List (List Text) → LogTable → Dict Text (List (Text × ℕ)) → Dict Text (List (Text × ℕ))
add_chunks [] t d = d
add_chunks (c ∷ cs) t d = add_chunks cs t (add_clients (chunk_clients c t) d)

unfoldable pub clients_for_domains : List Text → LogTable → Dict Text (List (Text × ℕ))
clients_for_domains domains t = add_chunks (chunks domain_chunk domains) t []

-- the sum of the counts of a domain over all clients and types
abbrev pub domain_count : Text → LogTable → ℕ
domain_count d [] = 0
domain_count d ((k, s) ∷ t) = (if k.1.0 == d then s.count else 0) + domain_count d t

domain_count-where :
    (d : Text) (t : LogTable)
    → sum_of (λ (x : LogRow). x.1.count) (where_rows (λ (x : LogRow). x.0.1.0 == d) t)
      ≡ domain_count d t
domain_count-where d [] = refl
domain_count-where d ((k, s) ∷ t) = ground (arith, domain_count-where d t, list_beq_iff k.1.0 d)

-- The total of a domain is the sum of its counts over all clients and types.
pub count-aggregate_domain_totals :
    (t : LogTable) (d : Text)
    → value_or_zero (λ s. s.count) (Dict.get d (aggregate_domain_totals t)) ≡ domain_count d t
unfolding aggregate_domain_totals
count-aggregate_domain_totals t d =
    value-grouped total_before domain_total (λ s. s.count) (λ (x : LogRow). x.0.1.0) d t refl
    ∙ domain_count-where d t
