-- ===== src/Repository/Persist.antt =====
-- A counting buffer of src/mirenai/domain with the table that its flush callback writes
-- (src/mirenai/workers/dns_server.py gives the callback to the buffer).
use mirenai.Python.Dict
use mirenai.Buffers.Tally.{pending-flush}
use mirenai.Prelude.{
  Bool, Distinct, Eq, List, Option, [], arith, list_eq, nat_eq, none, pair_eq, some, true, ℕ, ◌++◌,
  ◌+◌, ◌∷◌, ◌≡◌,
}
use mirenai.Buffers.Tally.{
  DictBuffer, Event, add-Distinct, flush-Distinct, handed, handed-append, handed-flush, pending-add,
  reported, rows_or_nil, value_or_zero,
}
use mirenai.Python.Dict.{Dict}

-- A table that a callback writes at some moment, and the column that counts. The purge of old rows
-- at a moment leaves the rows of a key in place where `keeps` says so.
pub record Store (Row K V : Type 0) (w : K → Row → ℕ) ⦃e : Eq K⦄ : Type 0 where
  pub save : ℕ → List Row → Dict K V → Dict K V
  pub amount : V → ℕ
  pub keeps : ℕ → K → Bool
  pub amount-save :
      (now : ℕ) (k : K) (rows : List Row) (d : Dict K V)
      → keeps now k ≡ true
      → value_or_zero amount (Dict.get k (save now rows d))
        ≡ value_or_zero amount (Dict.get k d) + handed w k rows

-- An item is added; a flush hands its rows to the callback, which writes them at a moment; or the
-- callback raises, its transaction is rolled back and the buffer drops the rows.
pub data Step (Item : Type 0) : Type 0 where
  reports : Item → Step Item
  writes : ℕ → Step Item
  fails : Step Item

-- the buffer, the table, and the rows that were dropped
pub record World (S Row K V : Type 0) : Type 0 where
  pub buffer : S
  pub table : Dict K V
  pub dropped : List Row

module _ {Item : Type 0} where
  -- what the buffer sees of a step
  pub seen : List (Step Item) → List (Event Item)
  seen [] = []
  seen (reports i ∷ steps) = Event.added i ∷ seen steps
  seen (writes now ∷ steps) = Event.flushed ∷ seen steps
  seen (fails ∷ steps) = Event.flushed ∷ seen steps

module _ {S Item Row K V W : Type 0} ⦃e : Eq K⦄ (t : DictBuffer S Item Row K V)
    (st : Store Row K W t.row_weight) where
  -- The callback is not called for an empty buffer.
  abbrev pub saved : ℕ → Option (List Row) → Dict K W → Dict K W
  saved now none d = d
  saved now (some rows) d = st.save now rows d

  unfoldable pub step : Step Item → World S Row K W → World S Row K W
  step (reports i) x = record x { buffer = t.add i x.buffer }
  step (writes now) x =
      let (s, rows) = t.flush x.buffer in record x { buffer = s; table = saved now rows x.table }
  step fails x =
      let (s, rows) = t.flush x.buffer in
      record x { buffer = s; dropped = rows_or_nil rows ++ x.dropped }

  pub steps_from : List (Step Item) → World S Row K W → World S Row K W
  steps_from [] x = x
  steps_from (p ∷ ps) x = steps_from ps (step p x)

  -- No write of the steps purges the rows of the key.
  abbrev pub IsKept : K → List (Step Item) → Type 0
  IsKept k [] = Unit
  IsKept k (reports i ∷ steps) = IsKept k steps
  IsKept k (writes now ∷ steps) = (st.keeps now k ≡ true) × IsKept k steps
  IsKept k (fails ∷ steps) = IsKept k steps

  -- what is counted for a key: in the table, in the buffer, and in the rows that were dropped
  abbrev pub accounted : K → World S Row K W → ℕ
  accounted k x =
      value_or_zero st.amount (Dict.get k x.table)
      + value_or_zero t.value (Dict.get k (t.data_of x.buffer))
      + handed t.row_weight k x.dropped

  amount-saved :
      (now : ℕ) (k : K) (rows : Option (List Row)) (d : Dict K W)
      → st.keeps now k ≡ true
      → value_or_zero st.amount (Dict.get k (saved now rows d))
        ≡ value_or_zero st.amount (Dict.get k d) + handed t.row_weight k (rows_or_nil rows)
  amount-saved now k none d h = omega arith
  amount-saved now k (some rows) d h = st.amount-save now k rows d h

  pub steps_from-accounted :
      (ps : List (Step Item)) (x : World S Row K W) (k : K)
      → Distinct (Dict.keys (t.data_of x.buffer))
      → IsKept k ps
      → accounted k (steps_from ps x) ≡ accounted k x + reported t k (seen ps)
  unfolding steps_from reported seen step
  steps_from-accounted [] x k v h = omega arith
  steps_from-accounted (reports i ∷ ps) x k v h =
      let ih = steps_from-accounted ps (step (reports i) x) k (add-Distinct t i x.buffer v) h in
      omega (arith, ih, pending-add t k i x.buffer)
  steps_from-accounted (writes now ∷ ps) x k v h =
      let rows = (t.flush x.buffer).1 in
      let ih = steps_from-accounted ps (step (writes now) x) k (flush-Distinct t x.buffer) h.1 in
      omega (
        arith,
        ih,
        pending-flush t k x.buffer,
        handed-flush t k x.buffer v,
        amount-saved now k rows x.table h.0,
      )
  steps_from-accounted (fails ∷ ps) x k v h =
      let rows = (t.flush x.buffer).1 in
      let ih = steps_from-accounted ps (step fails x) k (flush-Distinct t x.buffer) h in
      omega (
        arith,
        ih,
        pending-flush t k x.buffer,
        handed-flush t k x.buffer v,
        handed-append t.row_weight k (rows_or_nil rows) x.dropped,
      )
