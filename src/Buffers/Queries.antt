-- ===== src/Buffers/Queries.antt =====
-- src/mirenai/domain/querybuffer.py: the query log, aggregated by client, name and type.
use mirenai.Python.Dict
use mirenai.Buffers.Tally.{Event, run, reported, run-conserves}
use mirenai.Prelude.{
  Distinct, List, Option, [], ap, arith, if◌then◌else◌, list_eq, max, nat_eq, none, pair_eq, refl,
  some, ℕ, ◌+◌, ◌==◌, ◌∙◌, ◌≡◌,
}
use mirenai.Buffers.Tally.{DictBuffer, batch, handed, value_or_zero}
use mirenai.Python.Dict.{Dict}
use mirenai.Python.Text.{Text}

pub record QueryAgg : Type 0 where
  pub client : Text
  pub domain : Text
  pub qtype : Text
  pub count : ℕ
  pub last_action : Text
  pub last_response : Text

pub record Counter : Type 0 where
  pub count : ℕ
  pub last_action : Text
  pub last_response : Text

abbrev pub QueryKey : Type 0
QueryKey = Text × (Text × Text)

pub record QueryBuffer : Type 0 where
  pub flush_seconds : ℕ
  pub counters : Dict QueryKey Counter

unfoldable pub init : ℕ → QueryBuffer
init flush_seconds = record { flush_seconds = max 1 flush_seconds; counters = [] }

-- a new counter, or the old one with one more query and its outcome
unfoldable pub counted : Text → Text → Option Counter → Counter
counted action response none = record { count = 1; last_action = action; last_response = response }
counted action response (some c) = record {
  count = c.count + 1;
  last_action = action;
  last_response = response;
}

unfoldable pub add : Text → Text → Text → Text → Text → QueryBuffer → QueryBuffer
add client domain qtype action response b =
    let key : QueryKey = (client, (domain, qtype)) in
    record b {
      counters = Dict.put key (counted action response (Dict.get key b.counters)) b.counters;
    }

abbrev pub query_row : QueryKey × Counter → QueryAgg
query_row x = record {
  client = x.0.0;
  domain = x.0.1.0;
  qtype = x.0.1.1;
  count = x.1.count;
  last_action = x.1.last_action;
  last_response = x.1.last_response;
}

unfoldable pub flush : QueryBuffer → QueryBuffer × Option (List QueryAgg)
flush b = (record b { counters = [] }, batch query_row b.counters)

-- `stop` sets the event that ends the timer's loop, and flushes.
unfoldable pub stop : QueryBuffer → QueryBuffer × Option (List QueryAgg)
unfolding flush
stop b = flush b

-- the arguments of `add`: the key, the action and the response
abbrev pub Query : Type 0
Query = QueryKey × (Text × Text)

abbrev pub add_query : Query → QueryBuffer → QueryBuffer
add_query q b = add q.0.0 q.0.1.0 q.0.1.1 q.1.0 q.1.1 b

pub counters-add :
    (q : Query) (b : QueryBuffer)
    → (add_query q b).counters
      ≡ Dict.put q.0 (counted q.1.0 q.1.1 (Dict.get q.0 b.counters)) b.counters
unfolding add
counters-add q b = refl

pub count-counted :
    (q : Query) (o : Option Counter)
    → (counted q.1.0 q.1.1 o).count ≡ value_or_zero (λ c. c.count) o + 1
unfolding counted
count-counted q none = omega arith
count-counted q (some c) = refl

pub counters-flush : (b : QueryBuffer) → (flush b).0.counters ≡ []
unfolding flush
counters-flush b = refl

pub queries_handed : (b : QueryBuffer) → (flush b).1 ≡ batch query_row b.counters
unfolding flush
queries_handed b = refl

abbrev pub query_buffer : DictBuffer QueryBuffer Query QueryAgg QueryKey Counter
query_buffer = record {
  add = add_query;
  flush = flush;
  data_of = λ b. b.counters;
  key = λ q. q.0;
  update = λ q o. counted q.1.0 q.1.1 o;
  value = λ c. c.count;
  gain = λ q. 1;
  row = query_row;
  row_weight = λ k r. if (r.client, (r.domain, r.qtype)) == k then r.count else 0;
  data_of-add = counters-add;
  value-update = count-counted;
  data_of-flush = counters-flush;
  rows-flush = queries_handed;
  row_weight-row = λ k x. refl;
}

-- Over any sequence of queries and flushes, the queries handed over for a client, name and type,
-- with those still counted in the buffer, are those counted at first and those reported.
queries_conserved :
    (es : List (Event Query)) (b : QueryBuffer) (k : QueryKey)
    → Distinct (Dict.keys b.counters)
    → handed query_buffer.row_weight k (run query_buffer es b).1
        + value_or_zero (λ c. c.count) (Dict.get k (run query_buffer es b).0.counters)
      ≡ value_or_zero (λ c. c.count) (Dict.get k b.counters) + reported query_buffer k es
queries_conserved es b k h = run-conserves query_buffer es b k h

counted-record :
    (action response : Text) (o : Option Counter)
    → counted action response o ≡ record {
      count = value_or_zero (λ (c : Counter). c.count) o + 1;
      last_action = action;
      last_response = response;
    }
unfolding counted
counted-record action response none = ground arith
counted-record action response (some c) = refl

-- The counter of a key shows the action and the response of its last query, and a query of one
-- key leaves every other counter as it was.
pub get-add_query :
    (q : Query) (b : QueryBuffer) (k : QueryKey)
    → Dict.get k (add_query q b).counters ≡ (
        if q.0 == k
        then some (record {
          count = value_or_zero (λ c. c.count) (Dict.get q.0 b.counters) + 1;
          last_action = q.1.0;
          last_response = q.1.1;
        })
        else Dict.get k b.counters)
unfolding add
get-add_query q b k =
    Dict.get-put q.0 k (counted q.1.0 q.1.1 (Dict.get q.0 b.counters)) b.counters
    ∙ ap (λ (c : Counter). if q.0 == k then some c else Dict.get k b.counters)
        (counted-record q.1.0 q.1.1 (Dict.get q.0 b.counters))
