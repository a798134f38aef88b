-- ===== src/Buffers/Requests.antt =====
-- src/mirenai/domain/clientrequests.py: the requests of each client, counted.
use mirenai.Python.Dict
use mirenai.Buffers.Tally.{Event, run, reported, run-conserves}
use mirenai.Prelude.{
  Distinct, List, Option, [], if◌then◌else◌, list_eq, max, nat_eq, pair_eq, refl, ℕ, ◌+◌, ◌==◌, ◌≡◌,
}
use mirenai.Buffers.Tally.{DictBuffer, batch, bump, count, handed, hits_or_zero, hits_or_zero-value}
use mirenai.Python.Dict.{Dict}
use mirenai.Python.Text.{Text}

pub record ClientRequestAgg : Type 0 where
  pub client : Text
  pub domain : Text
  pub qtype : Text
  pub hits : ℕ

abbrev pub RequestKey : Type 0
RequestKey = Text × (Text × Text)

pub record ClientRequestBuffer : Type 0 where
  pub flush_seconds : ℕ
  pub counts : Dict RequestKey ℕ

unfoldable pub init : ℕ → ClientRequestBuffer
init flush_seconds = record { flush_seconds = max 1 flush_seconds; counts = [] }

unfoldable pub add : Text → Text → Text → ClientRequestBuffer → ClientRequestBuffer
add client domain qtype b = record b { counts = bump (client, (domain, qtype)) b.counts }

abbrev pub request_row : RequestKey × ℕ → ClientRequestAgg
request_row x = record { client = x.0.0; domain = x.0.1.0; qtype = x.0.1.1; hits = x.1 }

unfoldable pub flush : ClientRequestBuffer → ClientRequestBuffer × Option (List ClientRequestAgg)
flush b = (record b { counts = [] }, batch request_row b.counts)

-- `stop` sets the event that ends the timer's loop, and flushes.
unfoldable pub stop : ClientRequestBuffer → ClientRequestBuffer × Option (List ClientRequestAgg)
unfolding flush
stop b = flush b

pub counts-add :
    (k : RequestKey) (b : ClientRequestBuffer)
    → (add k.0 k.1.0 k.1.1 b).counts ≡ Dict.put k (count k b.counts + 1) b.counts
unfolding add bump
counts-add k b = refl

pub counts-flush : (b : ClientRequestBuffer) → (flush b).0.counts ≡ []
unfolding flush
counts-flush b = refl

pub requests_handed : (b : ClientRequestBuffer) → (flush b).1 ≡ batch request_row b.counts
unfolding flush
requests_handed b = refl

abbrev pub request_buffer : DictBuffer ClientRequestBuffer RequestKey ClientRequestAgg RequestKey ℕ
request_buffer = record {
  add = λ k b. add k.0 k.1.0 k.1.1 b;
  flush = flush;
  data_of = λ b. b.counts;
  key = λ k. k;
  update = λ k o. hits_or_zero o + 1;
  value = λ n. n;
  gain = λ k. 1;
  row = request_row;
  row_weight = λ k r. if (r.client, (r.domain, r.qtype)) == k then r.hits else 0;
  data_of-add = counts-add;
  value-update = λ k o. hits_or_zero-value o;
  data_of-flush = counts-flush;
  rows-flush = requests_handed;
  row_weight-row = λ k x. refl;
}

-- Over any sequence of requests and flushes, the hits handed over for a client, name and type,
-- with those still in the buffer, are those that were in it at first and those reported.
pub requests_conserved :
    (es : List (Event RequestKey)) (b : ClientRequestBuffer) (k : RequestKey)
    → Distinct (Dict.keys b.counts)
    → handed request_buffer.row_weight k (run request_buffer es b).1
        + count k (run request_buffer es b).0.counts
      ≡ count k b.counts + reported request_buffer k es
requests_conserved es b k h = run-conserves request_buffer es b k h
