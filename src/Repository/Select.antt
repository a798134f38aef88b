-- ===== src/Repository/Select.antt =====
-- `SELECT` on a table that is a list of rows in the order of the ids: `WHERE`, `ORDER BY`,
-- `LIMIT` and `OFFSET`.
use mirenai.Python.Dict
use mirenai.Prelude.{
  All, Bool, Bool-cases, Distinct, Eq, List, Option, [], arith, contains, drop, false,
  if◌then◌else◌, inl, inr, length, list_eq, nat_eq, none, pair_eq, refl, some, take, true, ℕ, ◌+◌,
  ◌==◌, ◌||◌, ◌∷◌, ◌≡◌,
}
use mirenai.Python.Dict.{Dict}

module _ {ℓ} {A : Type ℓ} where
  abbrev pub where_rows : (A → Bool) → List A → List A
  where_rows test [] = []
  where_rows test (x ∷ xs) = let rest = where_rows test xs in if test x then x ∷ rest else rest

  -- `before x y` says that `x` may stand before `y`; equal rows stay in their order.
  abbrev pub insert_row : (A → A → Bool) → A → List A → List A
  insert_row before x [] = x ∷ []
  insert_row before x (y ∷ ys) =
      let rest = insert_row before x ys in if before x y then x ∷ y ∷ ys else y ∷ rest

  unfoldable pub order_by : (A → A → Bool) → List A → List A
  order_by before [] = []
  order_by before (x ∷ xs) = insert_row before x (order_by before xs)

  -- `if limit is not None: stmt.limit(limit).offset(offset)`
  abbrev pub page_rows : Option ℕ → ℕ → List A → List A
  page_rows none offset xs = xs
  page_rows (some limit) offset xs = take limit (drop offset xs)

  length-insert_row :
      (before : A → A → Bool) (x : A) (xs : List A)
      → length (insert_row before x xs) ≡ length xs + 1
  length-insert_row before x [] = omega arith
  length-insert_row before x (y ∷ ys) = ground (arith, length-insert_row before x ys)

  pub length-order_by :
      (before : A → A → Bool) (xs : List A) → length (order_by before xs) ≡ length xs
  unfolding order_by
  length-order_by before [] = omega arith
  length-order_by before (x ∷ xs) =
      omega (arith, length-insert_row before x (order_by before xs), length-order_by before xs)

  pub All-where_rows {κ} :
      (P : A → Type κ) (test : A → Bool)
      → ((x : A) → test x ≡ true → P x)
      → (xs : List A) → All P (where_rows test xs)
  All-where_rows P test h [] = tt
  All-where_rows P test h (x ∷ xs) = elim (Bool-cases (test x)) [
    | inl e ↦ rw e (h x e, All-where_rows P test h xs)
    | inr e ↦ rw e (All-where_rows P test h xs)
  ]

  pub All-insert_row {κ} :
      (P : A → Type κ) (before : A → A → Bool) (x : A) (xs : List A)
      → P x
      → All P xs
      → All P (insert_row before x xs)
  All-insert_row P before x [] p h = (p, tt)
  All-insert_row P before x (y ∷ ys) p h = elim (Bool-cases (before x y)) [
    | inl e ↦ rw e (p, h)
    | inr e ↦ rw e (h.0, All-insert_row P before x ys p h.1)
  ]

  pub All-order_by {κ} :
      (P : A → Type κ) (before : A → A → Bool) (xs : List A) → All P xs → All P (order_by before xs)
  unfolding order_by
  All-order_by P before [] h = tt
  All-order_by P before (x ∷ xs) h =
      All-insert_row P before x (order_by before xs) h.0 (All-order_by P before xs h.1)

-- The rows of a table with a unique key are found under it whatever their order, as long as the
-- condition of the query lets the key pass.
module _ {K V : Type 0} ⦃e : Eq K⦄ where
  contains-keys-insert_row :
      (before : K × V → K × V → Bool) (k j : K) (v : V) (d : Dict K V)
      → contains (Dict.keys (insert_row before (j, v) d)) k ≡ (j == k || contains (Dict.keys d) k)
  contains-keys-insert_row before k j v [] = refl
  contains-keys-insert_row before k j v ((i, w) ∷ d) =
      ground (arith, contains-keys-insert_row before k j v d)

  get-insert_row :
      (before : K × V → K × V → Bool) (k j : K) (v : V) (d : Dict K V)
      → contains (Dict.keys d) j ≡ false
      → Dict.get k (insert_row before (j, v) d) ≡ Dict.get k ((j, v) ∷ d)
  unfolding Dict.get
  get-insert_row before k j v [] h = refl
  get-insert_row before k j v ((i, w) ∷ d) h =
      ground (arith, get-insert_row before k j v d, e.beq_iff i k, e.beq_iff j k, e.beq_iff i j)

  insert_row-Distinct :
      (before : K × V → K × V → Bool) (j : K) (v : V) (d : Dict K V)
      → contains (Dict.keys d) j ≡ false
      → Distinct (Dict.keys d)
      → Distinct (Dict.keys (insert_row before (j, v) d))
  insert_row-Distinct before j v [] h u = (refl, tt)
  insert_row-Distinct before j v ((i, w) ∷ d) h u = elim (Bool-cases (before (j, v) (i, w))) [
    | inl s ↦ rw s (h, u)
    | inr s ↦ rw s (
      (ground (arith, contains-keys-insert_row before i j v d, e.beq_iff i j, e.beq_iff j i)),
      insert_row-Distinct before j v d (ground arith) u.1,
    )
  ]

  pub contains-keys-order_by :
      (before : K × V → K × V → Bool) (k : K) (d : Dict K V)
      → contains (Dict.keys (order_by before d)) k ≡ contains (Dict.keys d) k
  unfolding order_by
  contains-keys-order_by before k [] = refl
  contains-keys-order_by before k ((j, v) ∷ d) = ground (
    arith,
    contains-keys-insert_row before k j v (order_by before d),
    contains-keys-order_by before k d,
  )

  pub order_by-Distinct :
      (before : K × V → K × V → Bool) (d : Dict K V)
      → Distinct (Dict.keys d)
      → Distinct (Dict.keys (order_by before d))
  unfolding order_by
  order_by-Distinct before [] u = tt
  order_by-Distinct before ((j, v) ∷ d) u =
      insert_row-Distinct before j v (order_by before d)
        (ground (arith, contains-keys-order_by before j d, u.0)) (order_by-Distinct before d u.1)

  pub get-order_by :
      (before : K × V → K × V → Bool) (k : K) (d : Dict K V)
      → Distinct (Dict.keys d)
      → Dict.get k (order_by before d) ≡ Dict.get k d
  unfolding order_by Dict.get
  get-order_by before k [] u = refl
  get-order_by before k ((j, v) ∷ d) u = ground (
    arith,
    get-insert_row before k j v (order_by before d),
    contains-keys-order_by before j d,
    get-order_by before k d,
    u.0,
  )

  pub get-where_rows :
      (test : K × V → Bool) (ok : K → Bool)
      → ((x : K × V) → test x ≡ ok x.0)
      → (k : K) (d : Dict K V)
      → Dict.get k (where_rows test d) ≡ (if ok k then Dict.get k d else none)
  unfolding Dict.get
  get-where_rows test ok h k [] = ground arith
  get-where_rows test ok h k ((j, v) ∷ d) =
      ground (arith, h (j, v), get-where_rows test ok h k d, e.beq_iff j k)

  contains-keys-where_rows :
      (test : K × V → Bool) (k : K) (d : Dict K V)
      → contains (Dict.keys d) k ≡ false
      → contains (Dict.keys (where_rows test d)) k ≡ false
  contains-keys-where_rows test k [] h = h
  contains-keys-where_rows test k ((j, v) ∷ d) h = ground (arith, contains-keys-where_rows test k d)

  pub where_rows-Distinct :
      (test : K × V → Bool) (d : Dict K V)
      → Distinct (Dict.keys d)
      → Distinct (Dict.keys (where_rows test d))
  where_rows-Distinct test [] u = tt
  where_rows-Distinct test ((j, v) ∷ d) u = elim (Bool-cases (test (j, v))) [
    | inl s ↦ rw s (contains-keys-where_rows test j d u.0, where_rows-Distinct test d u.1)
    | inr s ↦ rw s (where_rows-Distinct test d u.1)
  ]
