-- ===== src/Buffers/Rtt.antt =====
-- src/mirenai/domain/upstreamstats.py: round-trip times of each upstream by hour. A time is a
-- number of microseconds where the program has a float of milliseconds.
use mirenai.Python.Dict
use mirenai.Buffers.Tally.{Event, run, reported, run-conserves}
use mirenai.Prelude.{
  Bool, Bool-cases, Distinct, List, Option, [], arith, contains, false, if◌then◌else◌, inl, inr,
  list_beq_iff, list_eq, max, nat_beq_iff, nat_eq, none, not, pair_eq, refl, some, ℕ, ◌&&◌, ◌*◌,
  ◌+◌, ◌==◌, ◌||◌, ◌∙◌, ◌∷◌, ◌≡◌, ◌≤◌,
}
use mirenai.Buffers.Tally.{DictBuffer, batch, floor_hour, handed, value_or_zero}
use mirenai.Python.Dict.{Dict}
use mirenai.Python.Text.{Text}

pub record UpstreamRttAgg : Type 0 where
  pub hour_start : ℕ
  pub address : Text
  pub samples : ℕ
  pub total_ms : ℕ
  pub max_ms : ℕ

pub record Accumulator : Type 0 where
  pub samples : ℕ
  pub total_ms : ℕ
  pub max_ms : ℕ

abbrev pub RttKey : Type 0
RttKey = ℕ × Text

-- `_covered` are the addresses that were measured or probed in the hour `_covered_hour`.
pub record UpstreamRttBuffer : Type 0 where
  pub flush_seconds : ℕ
  pub accumulators : Dict RttKey Accumulator
  pub covered_hour : Option ℕ
  pub covered : List Text

unfoldable pub init : ℕ → UpstreamRttBuffer
init flush_seconds = record {
  flush_seconds = max 1 flush_seconds;
  accumulators = [];
  covered_hour = none;
  covered = [];
}

abbrev pub is_hour : ℕ → Option ℕ → Bool
is_hour h none = false
is_hour h (some g) = g == h

-- `set.add`
abbrev pub set_add : Text → List Text → List Text
set_add a s = if contains s a then s else a ∷ s

unfoldable pub mark_covered : ℕ → Text → UpstreamRttBuffer → UpstreamRttBuffer
mark_covered h address b = record b {
  covered_hour = some h;
  covered = set_add address (if is_hour h b.covered_hour then b.covered else []);
}

unfoldable pub accumulated : ℕ → Option Accumulator → Accumulator
accumulated rtt none = record { samples = 1; total_ms = rtt; max_ms = rtt }
accumulated rtt (some a) = record {
  samples = a.samples + 1;
  total_ms = a.total_ms + rtt;
  max_ms = max a.max_ms rtt;
}

unfoldable pub add : Text → ℕ → ℕ → UpstreamRttBuffer → UpstreamRttBuffer
add address rtt now b =
    let key : RttKey = (floor_hour now, address) in
    record (mark_covered (floor_hour now) address b) {
      accumulators = Dict.put key (accumulated rtt (Dict.get key b.accumulators)) b.accumulators;
    }

unfoldable pub mark_probed : Text → ℕ → UpstreamRttBuffer → UpstreamRttBuffer
mark_probed address now b = mark_covered (floor_hour now) address b

abbrev pub not_in : List Text → List Text → List Text
not_in seen [] = []
not_in seen (a ∷ rest) =
    let others = not_in seen rest in if contains seen a then others else a ∷ others

unfoldable pub uncovered : List Text → ℕ → UpstreamRttBuffer → List Text
uncovered addresses now b =
    not_in (if is_hour (floor_hour now) b.covered_hour then b.covered else []) addresses

abbrev pub rtt_row : RttKey × Accumulator → UpstreamRttAgg
rtt_row x = record {
  hour_start = x.0.0;
  address = x.0.1;
  samples = x.1.samples;
  total_ms = x.1.total_ms;
  max_ms = x.1.max_ms;
}

unfoldable pub flush : UpstreamRttBuffer → UpstreamRttBuffer × Option (List UpstreamRttAgg)
flush b = (record b { accumulators = [] }, batch rtt_row b.accumulators)

-- `stop` sets the event that ends the timer's loop, and flushes.
unfoldable pub stop : UpstreamRttBuffer → UpstreamRttBuffer × Option (List UpstreamRttAgg)
unfolding flush
stop b = flush b

-- the arguments of `add`: the address, the time taken and the moment
abbrev pub Sample : Type 0
Sample = Text × (ℕ × ℕ)

pub accumulators-add :
    (i : Sample) (b : UpstreamRttBuffer)
    → (add i.0 i.1.0 i.1.1 b).accumulators
      ≡ Dict.put
          (floor_hour i.1.1, i.0)
          (accumulated i.1.0 (Dict.get (floor_hour i.1.1, i.0) b.accumulators))
          b.accumulators
unfolding add
accumulators-add i b = refl

pub total-accumulated :
    (i : Sample) (o : Option Accumulator)
    → (accumulated i.1.0 o).total_ms ≡ value_or_zero (λ a. a.total_ms) o + i.1.0
unfolding accumulated
total-accumulated i none = omega arith
total-accumulated i (some a) = refl

pub accumulators-flush : (b : UpstreamRttBuffer) → (flush b).0.accumulators ≡ []
unfolding flush
accumulators-flush b = refl

pub rtts_handed : (b : UpstreamRttBuffer) → (flush b).1 ≡ batch rtt_row b.accumulators
unfolding flush
rtts_handed b = refl

abbrev pub rtt_buffer : DictBuffer UpstreamRttBuffer Sample UpstreamRttAgg RttKey Accumulator
rtt_buffer = record {
  add = λ i b. add i.0 i.1.0 i.1.1 b;
  flush = flush;
  data_of = λ b. b.accumulators;
  key = λ i. (floor_hour i.1.1, i.0);
  update = λ i o. accumulated i.1.0 o;
  value = λ a. a.total_ms;
  gain = λ i. i.1.0;
  row = rtt_row;
  row_weight = λ k r. if (r.hour_start, r.address) == k then r.total_ms else 0;
  data_of-add = accumulators-add;
  value-update = total-accumulated;
  data_of-flush = accumulators-flush;
  rows-flush = rtts_handed;
  row_weight-row = λ k x. refl;
}

-- Over any sequence of samples and flushes, the time handed over for an hour and an upstream, with
-- what is still in the buffer, is what was in it at first and the sum of the samples.
rtt_conserved :
    (es : List (Event Sample)) (b : UpstreamRttBuffer) (k : RttKey)
    → Distinct (Dict.keys b.accumulators)
    → handed rtt_buffer.row_weight k (run rtt_buffer es b).1
        + value_or_zero (λ a. a.total_ms) (Dict.get k (run rtt_buffer es b).0.accumulators)
      ≡ value_or_zero (λ a. a.total_ms) (Dict.get k b.accumulators) + reported rtt_buffer k es
rtt_conserved es b k h = run-conserves rtt_buffer es b k h

-- There is a sample, the mean is at most the maximum, and the maximum is one of the samples.
pub record IsSound (a : Accumulator) : Type 0 where
  pub some_sample : 1 ≤ a.samples
  pub total_le : a.total_ms ≤ a.samples * a.max_ms
  pub max_le : a.max_ms ≤ a.total_ms

abbrev pub IsSoundEntry : Option Accumulator → Type 0
IsSoundEntry none = Unit
IsSoundEntry (some a) = IsSound a

pub accumulated-IsSound :
    (rtt : ℕ) (o : Option Accumulator)
    → IsSoundEntry o
    → IsSound (accumulated rtt o) × (rtt ≤ (accumulated rtt o).max_ms)
unfolding accumulated
accumulated-IsSound rtt none h = (
  record { some_sample = omega arith; total_le = omega arith; max_le = omega arith },
  omega arith,
)
accumulated-IsSound rtt (some a) h = (
  record {
    some_sample = omega arith;
    total_le = grind (arith, h.total_le);
    max_le = omega (arith, h.max_le);
  },
  omega arith,
)

contains-set_add :
    (a j : Text) (s : List Text) → contains (set_add a s) j ≡ (a == j || contains s j)
contains-set_add a j s = ground (arith, list_beq_iff a j)

contains-not_in :
    (seen xs : List Text) (a : Text)
    → contains (not_in seen xs) a ≡ (contains xs a && not (contains seen a))
contains-not_in seen [] a = refl
contains-not_in seen (x ∷ xs) a = ground (arith, list_beq_iff x a, contains-not_in seen xs a)

pub not_in-Distinct : (seen xs : List Text) → Distinct xs → Distinct (not_in seen xs)
not_in-Distinct seen [] u = tt
not_in-Distinct seen (x ∷ xs) u = elim (Bool-cases (contains seen x)) [
  | inl there ↦ rw there (not_in-Distinct seen xs u.1)
  | inr new ↦ rw new (contains-not_in seen xs x ∙ ground (arith, u.0), not_in-Distinct seen xs u.1)
]

-- the addresses that count as covered at a moment
abbrev covered_at : ℕ → UpstreamRttBuffer → List Text
covered_at now b = if is_hour (floor_hour now) b.covered_hour then b.covered else []

-- Once an address was measured or probed in an hour it is not asked for again in that hour, and
-- the answer for every other address is as before.
pub contains-uncovered_mark :
    (address j : Text) (addresses : List Text) (before now : ℕ) (b : UpstreamRttBuffer)
    → floor_hour before ≡ floor_hour now
    → contains (uncovered addresses now (mark_probed address before b)) j
      ≡ (contains (uncovered addresses now b) j && not (address == j))
unfolding uncovered mark_probed mark_covered
contains-uncovered_mark address j addresses before now b e = rw e (
    ground (
      arith,
      contains-not_in (set_add address (covered_at now b)) addresses j,
      contains-not_in (covered_at now b) addresses j,
      contains-set_add address j (covered_at now b),
      nat_beq_iff (floor_hour now) (floor_hour now),
    ))
