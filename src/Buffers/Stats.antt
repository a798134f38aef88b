-- ===== src/Buffers/Stats.antt =====
-- src/mirenai/domain/clientstats.py: queries of each client by hour, in total and by result.
use mirenai.Python.Dict
use mirenai.Buffers.Tally.{Event, run, reported, run-conserves}
use mirenai.Prelude.{
  All, Bool-cases, Distinct, List, Option, Option-cases, [], ap, arith, false, if◌then◌else◌, inl,
  inr, list_eq, max, nat_eq, none, pair_eq, refl, some, subst, ℕ, ◌+◌, ◌==◌, ◌∙◌, ◌∷◌, ◌≡◌,
}
use mirenai.Buffers.Tally.{
  DictBuffer, batch, bump, count, count-bump, floor_hour, handed, value_or_zero,
}
use mirenai.Python.Dict.{Dict}
use mirenai.Python.Text.{Text, codes}

abbrev pub foreign_client : Text
foreign_client = codes "foreign"

abbrev pub column_total : Text
column_total = codes "total"

-- `_RESULT_COLUMNS`: the result of the resolver, and the column that counts it
abbrev pub result_columns : Dict Text Text
result_columns =
    (codes "forward", codes "forwarded")
    ∷ (codes "forward-cache", codes "cached")
    ∷ (codes "override", codes "overridden")
    ∷ (codes "local", codes "local")
    ∷ (codes "deny", codes "denied")
    ∷ (codes "blocklist", codes "blocked")
    ∷ (codes "servfail", codes "servfail")
    ∷ (codes "foreign", codes "foreign")
    ∷ []

pub record ClientStatAgg : Type 0 where
  pub hour_start : ℕ
  pub client : Text
  pub total : ℕ
  pub forwarded : ℕ
  pub cached : ℕ
  pub overridden : ℕ
  pub local : ℕ
  pub denied : ℕ
  pub blocked : ℕ
  pub servfail : ℕ
  pub foreign : ℕ

abbrev pub StatKey : Type 0
StatKey = ℕ × Text

pub record ClientStatsBuffer : Type 0 where
  pub flush_seconds : ℕ
  pub counters : Dict StatKey (Dict Text ℕ)

unfoldable pub init : ℕ → ClientStatsBuffer
init flush_seconds = record { flush_seconds = max 1 flush_seconds; counters = [] }

-- The total goes up by one, and so does the column of the result, if it has one.
unfoldable pub tallied : Text → Option (Dict Text ℕ) → Dict Text ℕ
tallied result o =
    let counter = bump column_total (elim o [ none ↦ [] | some c ↦ c ]) in
    elim (Dict.get result result_columns) [ none ↦ counter | some column ↦ bump column counter ]

unfoldable pub add : Text → Text → ℕ → ClientStatsBuffer → ClientStatsBuffer
add client result now b =
    let key : StatKey = (floor_hour now, client) in
    record b { counters = Dict.put key (tallied result (Dict.get key b.counters)) b.counters }

unfoldable pub add_foreign : ℕ → ClientStatsBuffer → ClientStatsBuffer
add_foreign now b = add foreign_client (codes "foreign") now b

abbrev pub stat_row : StatKey × Dict Text ℕ → ClientStatAgg
stat_row x = record {
  hour_start = x.0.0;
  client = x.0.1;
  total = count column_total x.1;
  forwarded = count (codes "forwarded") x.1;
  cached = count (codes "cached") x.1;
  overridden = count (codes "overridden") x.1;
  local = count (codes "local") x.1;
  denied = count (codes "denied") x.1;
  blocked = count (codes "blocked") x.1;
  servfail = count (codes "servfail") x.1;
  foreign = count (codes "foreign") x.1;
}

unfoldable pub flush : ClientStatsBuffer → ClientStatsBuffer × Option (List ClientStatAgg)
flush b = (record b { counters = [] }, batch stat_row b.counters)

-- `stop` sets the event that ends the timer's loop, and flushes.
unfoldable pub stop : ClientStatsBuffer → ClientStatsBuffer × Option (List ClientStatAgg)
unfolding flush
stop b = flush b

-- the arguments of `add`: the client, the result and the time
abbrev pub Report : Type 0
Report = Text × (Text × ℕ)

pub counters-add :
    (r : Report) (b : ClientStatsBuffer)
    → (add r.0 r.1.0 r.1.1 b).counters
      ≡ Dict.put
          (floor_hour r.1.1, r.0)
          (tallied r.1.0 (Dict.get (floor_hour r.1.1, r.0) b.counters))
          b.counters
unfolding add
counters-add r b = refl

values_avoid :
    (column : Text) (d : Dict Text Text)
    → All (λ x. (x.1 == column) ≡ false) d
    → (k v : Text) → Dict.get k d ≡ some v
    → (v == column) ≡ false
unfolding Dict.get
values_avoid column [] h k v e = cc
values_avoid column ((j, w) ∷ d) h k v e = elim (Bool-cases (j == k)) [
  | inl same ↦ subst (λ (x : Text). (x == column) ≡ false) (ground arith) h.0
  | inr other ↦ values_avoid column d h.1 k v (rw other at e)
]

-- No result is counted in the column of the totals.
column-ne-total :
    (result column : Text)
    → Dict.get result result_columns ≡ some column
    → (column == column_total) ≡ false
column-ne-total =
    values_avoid column_total result_columns
      (refl, (refl, (refl, (refl, (refl, (refl, (refl, (refl, tt))))))))

started : Option (Dict Text ℕ) → Dict Text ℕ
started o = elim o [ none ↦ [] | some c ↦ c ]

count-started :
    (o : Option (Dict Text ℕ))
    → count column_total (started o) ≡ value_or_zero (count column_total) o
unfolding started
count-started none = unfold Dict.get in refl
count-started (some c) = refl

pub total-tallied :
    (r : Report) (o : Option (Dict Text ℕ))
    → count column_total (tallied r.1.0 o) ≡ value_or_zero (count column_total) o + 1
unfolding started
total-tallied r o = elim (Option-cases (Dict.get r.1.0 result_columns)) [
  | inl absent ↦
      unfold tallied in
      rw (absent, tallied)
        (count-bump column_total column_total (started o) ∙ ap (λ n. n + 1) (count-started o))
  | inr (column, e) ↦
      unfold tallied in
      rw (e, tallied)
        (count-bump column column_total (bump column_total (started o))
          ∙ rw (column-ne-total r.1.0 column e)
              (omega (arith, count-bump column_total column_total (started o), count-started o)))
]

pub counters-flush : (b : ClientStatsBuffer) → (flush b).0.counters ≡ []
unfolding flush
counters-flush b = refl

pub stats_handed : (b : ClientStatsBuffer) → (flush b).1 ≡ batch stat_row b.counters
unfolding flush
stats_handed b = refl

abbrev pub stats_buffer : DictBuffer ClientStatsBuffer Report ClientStatAgg StatKey (Dict Text ℕ)
stats_buffer = record {
  add = λ r b. add r.0 r.1.0 r.1.1 b;
  flush = flush;
  data_of = λ b. b.counters;
  key = λ r. (floor_hour r.1.1, r.0);
  update = λ r o. tallied r.1.0 o;
  value = count column_total;
  gain = λ r. 1;
  row = stat_row;
  row_weight = λ k r. if (r.hour_start, r.client) == k then r.total else 0;
  data_of-add = counters-add;
  value-update = total-tallied;
  data_of-flush = counters-flush;
  rows-flush = stats_handed;
  row_weight-row = λ k x. refl;
}

-- Over any sequence of queries and flushes, the totals handed over for an hour and a client, with
-- those still in the buffer, are those that were in it at first and the queries reported.
totals_conserved :
    (es : List (Event Report)) (b : ClientStatsBuffer) (k : StatKey)
    → Distinct (Dict.keys b.counters)
    → handed stats_buffer.row_weight k (run stats_buffer es b).1
        + value_or_zero (count column_total) (Dict.get k (run stats_buffer es b).0.counters)
      ≡ value_or_zero (count column_total) (Dict.get k b.counters) + reported stats_buffer k es
totals_conserved es b k h = run-conserves stats_buffer es b k h
