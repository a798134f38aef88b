-- ===== src/Buffers/Outcome.antt =====
-- src/mirenai/domain/cacheoutcome.py: cache outcomes of forwarded queries, counted by hour.
use mirenai.Python.Dict
use mirenai.Buffers.Tally.{Event, run, reported, run-conserves}
use mirenai.Prelude.{
  Distinct, List, Option, [], if◌then◌else◌, list_eq, max, nat_eq, pair_eq, refl, ℕ, ◌+◌, ◌==◌, ◌≡◌,
}
use mirenai.Buffers.Tally.{
  DictBuffer, batch, bump, count, floor_hour, handed, hits_or_zero, hits_or_zero-value,
}
use mirenai.Python.Dict.{Dict}
use mirenai.Python.Text.{Text, codes}

abbrev pub outcome_cached : Text
outcome_cached = codes "cached"

abbrev pub outcome_nxdomain : Text
outcome_nxdomain = codes "nxdomain"

abbrev pub outcome_error : Text
outcome_error = codes "error"

abbrev pub outcome_nodata : Text
outcome_nodata = codes "nodata"

abbrev pub outcome_zero_ttl : Text
outcome_zero_ttl = codes "zero-ttl"

abbrev pub outcome_upstream_failure : Text
outcome_upstream_failure = codes "upstream-failure"

pub record CacheOutcomeAgg : Type 0 where
  pub hour_start : ℕ
  pub reason : Text
  pub hits : ℕ

pub record CacheOutcomeBuffer : Type 0 where
  pub flush_seconds : ℕ
  pub counts : Dict (ℕ × Text) ℕ

unfoldable pub init : ℕ → CacheOutcomeBuffer
init flush_seconds = record { flush_seconds = max 1 flush_seconds; counts = [] }

unfoldable pub add : Text → ℕ → CacheOutcomeBuffer → CacheOutcomeBuffer
add reason now b = record b { counts = bump (floor_hour now, reason) b.counts }

abbrev pub outcome_row : (ℕ × Text) × ℕ → CacheOutcomeAgg
outcome_row x = record { hour_start = x.0.0; reason = x.0.1; hits = x.1 }

-- The rows are what the flush callback is given; an error of the callback is logged and dropped.
unfoldable pub flush : CacheOutcomeBuffer → CacheOutcomeBuffer × Option (List CacheOutcomeAgg)
flush b = (record b { counts = [] }, batch outcome_row b.counts)

-- `stop` sets the event that ends the timer's loop, and flushes.
unfoldable pub stop : CacheOutcomeBuffer → CacheOutcomeBuffer × Option (List CacheOutcomeAgg)
unfolding flush
stop b = flush b

pub data_of-add :
    (i : Text × ℕ) (b : CacheOutcomeBuffer)
    → (add i.0 i.1 b).counts
      ≡ Dict.put (floor_hour i.1, i.0) (count (floor_hour i.1, i.0) b.counts + 1) b.counts
unfolding add bump
data_of-add i b = refl

pub data_of-flush : (b : CacheOutcomeBuffer) → (flush b).0.counts ≡ []
unfolding flush
data_of-flush b = refl

pub rows-flush : (b : CacheOutcomeBuffer) → (flush b).1 ≡ batch outcome_row b.counts
unfolding flush
rows-flush b = refl

abbrev pub outcome_buffer : DictBuffer CacheOutcomeBuffer (Text × ℕ) CacheOutcomeAgg (ℕ × Text) ℕ
outcome_buffer = record {
  add = λ i b. add i.0 i.1 b;
  flush = flush;
  data_of = λ b. b.counts;
  key = λ i. (floor_hour i.1, i.0);
  update = λ i o. hits_or_zero o + 1;
  value = λ n. n;
  gain = λ i. 1;
  row = outcome_row;
  row_weight = λ k r. if (r.hour_start, r.reason) == k then r.hits else 0;
  data_of-add = data_of-add;
  value-update = λ i o. hits_or_zero-value o;
  data_of-flush = data_of-flush;
  rows-flush = rows-flush;
  row_weight-row = λ k x. refl;
}

-- Over any sequence of reported outcomes and flushes, the hits handed over for an hour and a
-- reason, with those still in the buffer, are those that were in it at first and those reported.
pub outcomes_conserved :
    (es : List (Event (Text × ℕ))) (b : CacheOutcomeBuffer) (k : ℕ × Text)
    → Distinct (Dict.keys b.counts)
    → handed outcome_buffer.row_weight k (run outcome_buffer es b).1
        + count k (run outcome_buffer es b).0.counts
      ≡ count k b.counts + reported outcome_buffer k es
outcomes_conserved es b k h = run-conserves outcome_buffer es b k h
