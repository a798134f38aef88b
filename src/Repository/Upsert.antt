-- ===== src/Repository/Upsert.antt =====
-- What the counting tables of src/mirenai/repository have in common. A table is the dictionary from
-- its unique key to the other columns, in the order of the ids: `INSERT ... ON CONFLICT DO UPDATE`
-- changes the row of the key in place, or adds one behind the others.
use mirenai.Python.Dict
use mirenai.Prelude.{
  Bool-cases, Distinct, Eq, List, Option, [], arith, contains, false, if◌then◌else◌, inl, inr,
  list_eq, ltb, nat_eq, none, not, pair_eq, some, true, ℕ, ◌+◌, ◌==◌, ◌∷◌, ◌≡◌,
}
use mirenai.Buffers.Tally.{handed, value_or_zero}
use mirenai.Python.Dict.{Dict}

module _ {Row K V : Type 0} ⦃e : Eq K⦄ where
  -- `stored` gives the columns from the new row and the row that is there.
  unfoldable pub upsert : (Row → K) → (Row → Option V → V) → Row → Dict K V → Dict K V
  upsert key stored r t = Dict.put (key r) (stored r (Dict.get (key r) t)) t

  unfoldable pub upsert_all : (Row → K) → (Row → Option V → V) → List Row → Dict K V → Dict K V
  upsert_all key stored [] t = t
  upsert_all key stored (r ∷ rows) t = upsert_all key stored rows (upsert key stored r t)

  pub get-upsert :
      (key : Row → K) (stored : Row → Option V → V) (r : Row) (t : Dict K V) (k : K)
      → Dict.get k (upsert key stored r t)
        ≡ (if key r == k then some (stored r (Dict.get (key r) t)) else Dict.get k t)
  unfolding upsert
  get-upsert key stored r t k = Dict.get-put (key r) k (stored r (Dict.get (key r) t)) t

  pub upsert_all-Distinct :
      (key : Row → K) (stored : Row → Option V → V) (rows : List Row) (t : Dict K V)
      → Distinct (Dict.keys t)
      → Distinct (Dict.keys (upsert_all key stored rows t))
  unfolding upsert_all upsert
  upsert_all-Distinct key stored [] t h = h
  upsert_all-Distinct key stored (r ∷ rows) t h =
      upsert_all-Distinct key stored rows (Dict.put (key r) (stored r (Dict.get (key r) t)) t)
        (Dict.put-Distinct (key r) (stored r (Dict.get (key r) t)) t h)

  -- A counted column grows for each key by what the rows hold for it.
  pub value-upsert_all :
      (key : Row → K) (stored : Row → Option V → V) (value : V → ℕ) (amount : Row → ℕ)
      → ((r : Row) (o : Option V) → value (stored r o) ≡ value_or_zero value o + amount r)
      → (k : K) (rows : List Row) (t : Dict K V)
      → value_or_zero value (Dict.get k (upsert_all key stored rows t))
        ≡ value_or_zero value (Dict.get k t)
          + handed (λ j r. if key r == j then amount r else 0) k rows
  unfolding upsert_all
  value-upsert_all key stored value amount h k [] t = omega arith
  value-upsert_all key stored value amount h k (r ∷ rows) t =
      let ih = value-upsert_all key stored value amount h k rows (upsert key stored r t) in
      ground (arith, ih, get-upsert key stored r t k, h r (Dict.get (key r) t), e.beq_iff (key r) k)

-- `DELETE ... WHERE hour_start < cutoff`
module _ {K V : Type 0} where
  unfoldable pub purge : (K → ℕ) → ℕ → Dict K V → Dict K V
  purge since cutoff [] = []
  purge since cutoff ((k, v) ∷ t) =
      let rest = purge since cutoff t in if ltb (since k) cutoff then rest else (k, v) ∷ rest

module _ {K V : Type 0} ⦃e : Eq K⦄ where
  pub get-purge :
      (since : K → ℕ) (cutoff : ℕ) (k : K) (t : Dict K V)
      → Dict.get k (purge since cutoff t) ≡ (if ltb (since k) cutoff then none else Dict.get k t)
  unfolding purge Dict.get
  get-purge since cutoff k [] = ground arith
  get-purge since cutoff k ((j, v) ∷ t) = ground (arith, get-purge since cutoff k t, e.beq_iff j k)

  -- A row that is not too old stays.
  pub get-purge_kept :
      (since : K → ℕ) (cutoff : ℕ) (k : K) (t : Dict K V)
      → not (ltb (since k) cutoff) ≡ true
      → Dict.get k (purge since cutoff t) ≡ Dict.get k t
  get-purge_kept since cutoff k t h = ground (arith, get-purge since cutoff k t)

  contains-keys-purge :
      (since : K → ℕ) (cutoff : ℕ) (k : K) (t : Dict K V)
      → contains (Dict.keys t) k ≡ false
      → contains (Dict.keys (purge since cutoff t)) k ≡ false
  unfolding purge
  contains-keys-purge since cutoff k [] h = h
  contains-keys-purge since cutoff k ((j, v) ∷ t) h =
      ground (arith, contains-keys-purge since cutoff k t)

  pub purge-Distinct :
      (since : K → ℕ) (cutoff : ℕ) (t : Dict K V)
      → Distinct (Dict.keys t)
      → Distinct (Dict.keys (purge since cutoff t))
  unfolding purge
  purge-Distinct since cutoff [] h = h
  purge-Distinct since cutoff ((j, v) ∷ t) h =
      let ih = purge-Distinct since cutoff t in
      elim (Bool-cases (ltb (since j) cutoff)) [
        | inl old ↦ rw old (ih h.1)
        | inr new ↦ rw new (contains-keys-purge since cutoff j t h.0, ih h.1)
      ]
