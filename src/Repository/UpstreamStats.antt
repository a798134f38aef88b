-- ===== src/Repository/UpstreamStats.antt =====
-- src/mirenai/repository/upstream_stats.py: the round-trip times of the upstreams by hour. A time
-- is a number of microseconds where the program has a float of milliseconds; the means are left as
-- sums and numbers of samples. The time now is an argument.
use mirenai.Python.Dict
use mirenai.Repository.Persist.{
  Store, Step, World, IsKept, accounted, seen, steps_from, steps_from-accounted,
}
use mirenai.Buffers.Rtt.{UpstreamRttAgg, UpstreamRttBuffer, RttKey, Sample, rtt_buffer}
use mirenai.Prelude.{
  Bool, Bool-cases, Distinct, List, Option, [], ap, arith, false, if◌then◌else◌, inl, inr, length,
  list_eq, ltb, map, max, min, nat_eq, none, not, pair_beq_iff, pair_eq, refl, some, sym, true, ℕ,
  ◌&&◌, ◌*◌, ◌++◌, ◌+◌, ◌-◌, ◌==◌, ◌∙◌, ◌∷◌, ◌≡◌,
}
use mirenai.Buffers.Tally.{handed, hour, reported, value_or_zero}
use mirenai.Python.Dict.{Dict}
use mirenai.Python.Text.{Text}
use mirenai.Repository.ClientStats.Chart.{client_ok, hours_ok}
use mirenai.Repository.Group.{distinct_values}
use mirenai.Repository.Hours.{fill_window}
use mirenai.Repository.Select.{order_by, page_rows, where_rows}
use mirenai.Repository.Texts.{newest_first, text_ltb}
use mirenai.Repository.Upsert.{
  get-purge_kept, get-upsert, purge, upsert, upsert_all, value-upsert_all,
}

abbrev pub rtt_retention_hours : ℕ
rtt_retention_hours = 500

-- the columns of `UpstreamHourlyRtt` besides the hour and the address
pub record HourlyRtt : Type 0 where
  pub samples : ℕ
  pub total_ms : ℕ
  pub max_ms : ℕ

abbrev pub rtt_key : UpstreamRttAgg → RttKey
rtt_key r = (r.hour_start, r.address)

-- the row to insert, or the row that is there with the samples added
unfoldable pub rtt_stored : UpstreamRttAgg → Option HourlyRtt → HourlyRtt
rtt_stored r none = record { samples = r.samples; total_ms = r.total_ms; max_ms = r.max_ms }
rtt_stored r (some s) = record {
  samples = s.samples + r.samples;
  total_ms = s.total_ms + r.total_ms;
  max_ms = max s.max_ms r.max_ms;
}

abbrev pub rtt_cutoff : ℕ → ℕ
rtt_cutoff now = now - rtt_retention_hours * hour

unfoldable pub record_upstream_rtt :
    ℕ → List UpstreamRttAgg → Dict RttKey HourlyRtt → Dict RttKey HourlyRtt
record_upstream_rtt now [] t = t
record_upstream_rtt now (r ∷ rows) t =
    purge (λ k. k.0) (rtt_cutoff now) (upsert_all rtt_key rtt_stored (r ∷ rows) t)

abbrev pub RttRow : Type 0
RttRow = RttKey × HourlyRtt

-- `_zero_row`: no samples, so the reader shows neither mean nor maximum
abbrev pub zero_rtt : HourlyRtt
zero_rtt = record { samples = 0; total_ms = 0; max_ms = 0 }

abbrev pub rtt_or_zero : Option HourlyRtt → HourlyRtt
rtt_or_zero none = zero_rtt
rtt_or_zero (some s) = s

-- the rows of one hour: one for each address
abbrev pub rtt_hour : List Text → Dict RttKey HourlyRtt → ℕ → List RttRow
rtt_hour [] found bucket = []
rtt_hour (a ∷ addresses) found bucket =
    ((bucket, a), rtt_or_zero (Dict.get (bucket, a) found)) ∷ rtt_hour addresses found bucket

-- `_fill_hours`
unfoldable pub fill_rtt_hours : List RttRow → ℕ → ℕ → List Text → Option (List RttRow)
fill_rtt_hours rows hours now addresses =
    fill_window (rtt_hour addresses rows) (min hours rtt_retention_hours) now

abbrev pub rtt_ok : Option Text → Option ℕ → ℕ → RttKey → Bool
rtt_ok address hours now k = client_ok address k.1 && hours_ok hours now k.0

abbrev pub selected_rtts : Option Text → Option ℕ → ℕ → Dict RttKey HourlyRtt → List RttRow
selected_rtts address hours now t =
    order_by newest_first (where_rows (λ x. rtt_ok address hours now x.0) t)

-- the addresses of a chart: the one that is asked for, or all that have rows or are known, sorted
abbrev pub chart_addresses : Option Text → List Text → List RttRow → List Text
chart_addresses (some a) known rows = a ∷ []
chart_addresses none known rows =
    order_by (λ x y. not (text_ltb y x))
      (distinct_values (map (λ (x : RttRow). x.0.1) rows ++ known))

unfoldable pub list_upstream_rtt :
    ℕ
    → Option ℕ
    → ℕ
    → Option Text
    → Option ℕ
    → Bool
    → List Text
    → Dict RttKey HourlyRtt
    → Option (List RttRow)
list_upstream_rtt now limit offset address hours false known t =
    some (page_rows limit offset (selected_rtts address hours now t))
list_upstream_rtt now limit offset address none true known t =
    some (selected_rtts address none now t)
list_upstream_rtt now limit offset address (some n) true known t =
    let rows = selected_rtts address (some n) now t in
    fill_rtt_hours rows n now (chart_addresses address known rows)

unfoldable pub count_upstream_rtt : ℕ → Option Text → Option ℕ → Dict RttKey HourlyRtt → ℕ
count_upstream_rtt now address hours t = length (where_rows (λ x. rtt_ok address hours now x.0) t)

total-rtt_stored :
    (r : UpstreamRttAgg) (o : Option HourlyRtt)
    → (rtt_stored r o).total_ms ≡ value_or_zero (λ s. s.total_ms) o + r.total_ms
unfolding rtt_stored
total-rtt_stored r none = omega arith
total-rtt_stored r (some s) = refl

abbrev pub rtt_keeps : ℕ → RttKey → Bool
rtt_keeps now k = not (ltb k.0 (rtt_cutoff now))

pub total-record_upstream_rtt :
    (now : ℕ) (k : RttKey) (rows : List UpstreamRttAgg) (t : Dict RttKey HourlyRtt)
    → rtt_keeps now k ≡ true
    → value_or_zero (λ s. s.total_ms) (Dict.get k (record_upstream_rtt now rows t))
      ≡ value_or_zero (λ s. s.total_ms) (Dict.get k t) + handed rtt_buffer.row_weight k rows
unfolding record_upstream_rtt
total-record_upstream_rtt now k [] t h = omega arith
total-record_upstream_rtt now k (r ∷ rows) t h =
    rw (get-purge_kept (λ k. k.0) (rtt_cutoff now) k (upsert_all rtt_key rtt_stored (r ∷ rows) t) h)
      (value-upsert_all rtt_key rtt_stored (λ s. s.total_ms) (λ r. r.total_ms) total-rtt_stored k
        (r ∷ rows) t)

abbrev pub rtt_store : Store UpstreamRttAgg RttKey HourlyRtt rtt_buffer.row_weight
rtt_store = record {
  save = record_upstream_rtt;
  amount = λ s. s.total_ms;
  keeps = rtt_keeps;
  amount-save = total-record_upstream_rtt;
}

-- Over any sequence of samples, flushes and failed flushes, the time in the table, in the buffer and
-- in the batches that failed is the time at first and the sum of the samples, for each hour and
-- upstream whose hour no write purges.
pub rtt_totals_accounted :
    (ps : List (Step Sample)) (x : World UpstreamRttBuffer UpstreamRttAgg RttKey HourlyRtt)
    (k : RttKey)
    → Distinct (Dict.keys x.buffer.accumulators)
    → IsKept rtt_buffer rtt_store k ps
    → accounted rtt_buffer rtt_store k (steps_from rtt_buffer rtt_store ps x)
      ≡ accounted rtt_buffer rtt_store k x + reported rtt_buffer k (seen ps)
rtt_totals_accounted ps x k h kept = steps_from-accounted rtt_buffer rtt_store ps x k h kept

-- the greatest time that the rows of a batch hold for a key, at least a given one
abbrev pub batch_max : RttKey → List UpstreamRttAgg → ℕ → ℕ
batch_max k [] m = m
batch_max k (r ∷ rows) m = batch_max k rows (if rtt_key r == k then max m r.max_ms else m)

-- A batch leaves the maximum of an hour and an upstream at the greatest of the stored time and those
-- of the batch.
pub max-upsert_all :
    (k : RttKey) (rows : List UpstreamRttAgg) (t : Dict RttKey HourlyRtt)
    → value_or_zero (λ s. s.max_ms) (Dict.get k (upsert_all rtt_key rtt_stored rows t))
      ≡ batch_max k rows (value_or_zero (λ s. s.max_ms) (Dict.get k t))
unfolding upsert_all
max-upsert_all k [] t = refl
max-upsert_all k (r ∷ rows) t =
    max-upsert_all k rows (upsert rtt_key rtt_stored r t)
    ∙ ap (batch_max k rows) (
        ap (value_or_zero (λ s. s.max_ms)) (get-upsert rtt_key rtt_stored r t k)
        ∙ (elim (Bool-cases (rtt_key r == k)) [
          | inl same ↦
              rw (same, sym ((pair_beq_iff (rtt_key r) k).0 same))
                (max_stored r (Dict.get (rtt_key r) t))
          | inr other ↦ rw other refl
        ]))
  where
    max_stored :
        (q : UpstreamRttAgg) (o : Option HourlyRtt)
        → (rtt_stored q o).max_ms ≡ max (value_or_zero (λ (s : HourlyRtt). s.max_ms) o) q.max_ms
    max_stored q none = unfold rtt_stored in omega arith
    max_stored q (some s) = unfold rtt_stored in refl
