-- ===== src/Buffers/Tally.antt =====
-- What the counting buffers have in common: an interface of adding and flushing, with the theorem
-- that nothing is lost or counted twice by any sequence of the two.
use mirenai.Python.Dict
use mirenai.Prelude.{
  Distinct, Eq, List, Option, [], ap, arith, if◌then◌else◌, list_eq, map, nat_eq, none, pair_eq,
  refl, some, subst, sym, ℕ, ◌*◌, ◌++◌, ◌+◌, ◌/◌, ◌==◌, ◌∙◌, ◌∷◌, ◌≡◌,
}
use mirenai.Python.Dict.{Dict}

-- A datetime is a number of microseconds; `moment.replace(minute=0, second=0, microsecond=0)`.
abbrev pub hour : ℕ
hour = 3_600_000_000

unfoldable pub floor_hour : ℕ → ℕ
floor_hour moment = moment / hour * hour

abbrev pub value_or_zero : {V : Type 0} → (V → ℕ) → Option V → ℕ
value_or_zero value none = 0
value_or_zero value (some v) = value v

-- the hits of a key, 0 if it is absent
abbrev pub hits_or_zero : Option ℕ → ℕ
hits_or_zero none = 0
hits_or_zero (some n) = n

pub hits_or_zero-value : (o : Option ℕ) → hits_or_zero o + 1 ≡ value_or_zero (λ n. n) o + 1
hits_or_zero-value none = refl
hits_or_zero-value (some n) = refl

-- `data[key] = data.get(key, 0) + 1`
module _ {ℓ} {K : Type ℓ} ⦃e : Eq K⦄ where
  abbrev pub count : K → Dict K ℕ → ℕ
  count k d = hits_or_zero (Dict.get k d)

  unfoldable pub bump : K → Dict K ℕ → Dict K ℕ
  bump k d = Dict.put k (count k d + 1) d

  pub count-bump :
      (k j : K) (d : Dict K ℕ) → count j (bump k d) ≡ count j d + (if k == j then 1 else 0)
  unfolding bump
  count-bump k j d = ground (arith, Dict.get-put k j (count k d + 1) d, e.beq_iff k j)

abbrev pub rows_or_nil {ℓ} : {A : Type ℓ} → Option (List A) → List A
rows_or_nil none = []
rows_or_nil (some rows) = rows

-- what a batch holds for a key
abbrev pub handed : {Row K : Type 0} → (K → Row → ℕ) → K → List Row → ℕ
handed row_weight k [] = 0
handed row_weight k (r ∷ rows) = row_weight k r + handed row_weight k rows

pub handed-append :
    {Row K : Type 0} (w : K → Row → ℕ) (k : K) (xs ys : List Row)
    → handed w k (xs ++ ys) ≡ handed w k xs + handed w k ys
handed-append w k [] ys = omega arith
handed-append w k (x ∷ xs) ys = omega (arith, handed-append w k xs ys)

-- The rows of a dictionary hold for each key what the dictionary holds.
module _ {K V Row : Type 0} ⦃e : Eq K⦄ where
  pub handed-rows :
      (row : K × V → Row) (w : K → Row → ℕ) (value : V → ℕ)
      → ((k : K) (x : K × V) → w k (row x) ≡ (if x.0 == k then value x.1 else 0))
      → (k : K) (d : Dict K V) → Distinct (Dict.keys d)
      → handed w k (map row d) ≡ (elim (Dict.get k d) [ none ↦ 0 | some v ↦ value v ])
  unfolding Dict.get
  handed-rows row w value h k [] distinct = refl
  handed-rows row w value h k ((j, v) ∷ d) distinct =
      ground (arith, h k (j, v), handed-rows row w value h k d, Dict.get-eq-none k d, e.beq_iff j k)

-- `if not data: return`, else the rows of all entries
abbrev pub batch : {K V Row : Type 0} → (K × V → Row) → Dict K V → Option (List Row)
batch row [] = none
batch row (x ∷ d) = some (map row (x ∷ d))

module _ {K V Row : Type 0} ⦃e : Eq K⦄ where
  pub handed-batch :
      (row : K × V → Row) (w : K → Row → ℕ) (value : V → ℕ)
      → ((k : K) (x : K × V) → w k (row x) ≡ (if x.0 == k then value x.1 else 0))
      → (k : K) (d : Dict K V) → Distinct (Dict.keys d)
      → handed w k (rows_or_nil (batch row d))
        ≡ (elim (Dict.get k d) [ none ↦ 0 | some v ↦ value v ])
  handed-batch row w value h k [] distinct = unfold Dict.get in refl
  handed-batch row w value h k (x ∷ d) distinct = handed-rows row w value h k (x ∷ d) distinct

-- A buffer that counts in a dictionary: how it adds an item, and what it hands over.
pub record DictBuffer (S Item Row K V : Type 0) ⦃e : Eq K⦄ : Type 0 where
  pub add : Item → S → S
  pub flush : S → S × Option (List Row)
  pub data_of : S → Dict K V
  pub key : Item → K
  pub update : Item → Option V → V
  -- the number that an entry counts, how much an item adds to it, and how much a row holds
  pub value : V → ℕ
  pub gain : Item → ℕ
  pub row : K × V → Row
  pub row_weight : K → Row → ℕ
  pub data_of-add :
      (i : Item) (s : S)
      → data_of (add i s) ≡ Dict.put (key i) (update i (Dict.get (key i) (data_of s))) (data_of s)
  pub value-update : (i : Item) (o : Option V) → value (update i o) ≡ value_or_zero value o + gain i
  pub data_of-flush : (s : S) → data_of (flush s).0 ≡ []
  pub rows-flush : (s : S) → (flush s).1 ≡ batch row (data_of s)
  pub row_weight-row :
      (k : K) (x : K × V) → row_weight k (row x) ≡ (if x.0 == k then value x.1 else 0)

-- What happens to a buffer: the resolver adds an item, or the timer flushes. Each of the two holds
-- the buffer's lock for as long as it touches the state.
pub data Event (Item : Type 0) : Type 0 where
  added : Item → Event Item
  flushed : Event Item

module _ {S Item Row K V : Type 0} ⦃e : Eq K⦄ (t : DictBuffer S Item Row K V) where
  -- the state after the events, and all rows handed over on the way
  pub run : List (Event Item) → S → S × List Row
  run [] s = (s, [])
  run (added i ∷ es) s = run es (t.add i s)
  run (flushed ∷ es) s =
      let (s', rows) = t.flush s in let (s'', more) = run es s' in (s'', rows_or_nil rows ++ more)

  -- what the added items count for a key
  unfoldable pub reported : K → List (Event Item) → ℕ
  reported k [] = 0
  reported k (added i ∷ es) = (if t.key i == k then t.gain i else 0) + reported k es
  reported k (flushed ∷ es) = reported k es

  -- what is counted for a key and not yet handed over
  abbrev pub pending : K → S → ℕ
  pending k s = value_or_zero t.value (Dict.get k (t.data_of s))

  pub pending-add :
      (k : K) (i : Item) (s : S)
      → pending k (t.add i s) ≡ pending k s + (if t.key i == k then t.gain i else 0)
  pending-add k i s =
      ap (λ d. value_or_zero t.value (Dict.get k d)) (t.data_of-add i s)
      ∙ ap (value_or_zero t.value)
          (Dict.get-put (t.key i) k (t.update i (Dict.get (t.key i) (t.data_of s))) (t.data_of s))
      ∙ ground (arith, e.beq_iff (t.key i) k, t.value-update i (Dict.get (t.key i) (t.data_of s)))

  pub pending-flush : (k : K) (s : S) → pending k (t.flush s).0 ≡ 0
  pending-flush k s =
      ap (λ d. value_or_zero t.value (Dict.get k d)) (t.data_of-flush s) ∙ unfold Dict.get in refl

  pub handed-flush :
      (k : K) (s : S)
      → Distinct (Dict.keys (t.data_of s))
      → handed t.row_weight k (rows_or_nil (t.flush s).1) ≡ pending k s
  handed-flush k s h =
      ap (λ rs. handed t.row_weight k (rows_or_nil rs)) (t.rows-flush s)
      ∙ handed-batch t.row t.row_weight t.value t.row_weight-row k (t.data_of s) h
      ∙ ground arith

  pub add-Distinct :
      (i : Item) (s : S)
      → Distinct (Dict.keys (t.data_of s))
      → Distinct (Dict.keys (t.data_of (t.add i s)))
  add-Distinct i s v =
      subst (λ d. Distinct (Dict.keys d)) (sym (t.data_of-add i s))
        (Dict.put-Distinct (t.key i) (t.update i (Dict.get (t.key i) (t.data_of s))) (t.data_of s)
          v)

  pub flush-Distinct : (s : S) → Distinct (Dict.keys (t.data_of (t.flush s).0))
  flush-Distinct s = subst (λ d. Distinct (Dict.keys d)) (sym (t.data_of-flush s)) tt

  -- Whatever the order of additions and flushes, what has been handed over together with what is
  -- still pending is what was pending at first together with what was reported.
  pub run-conserves :
      (es : List (Event Item)) (s : S) (k : K)
      → Distinct (Dict.keys (t.data_of s))
      → handed t.row_weight k (run es s).1 + pending k (run es s).0 ≡ pending k s + reported k es
  unfolding run reported
  run-conserves [] s k v = omega arith
  run-conserves (added i ∷ es) s k v =
      omega (arith, run-conserves es (t.add i s) k (add-Distinct i s v), pending-add k i s)
  run-conserves (flushed ∷ es) s k v = omega (
    arith,
    run-conserves es (t.flush s).0 k (flush-Distinct s),
    pending-flush k s,
    handed-flush k s v,
    handed-append t.row_weight k (rows_or_nil (t.flush s).1) (run es (t.flush s).0).1,
  )
