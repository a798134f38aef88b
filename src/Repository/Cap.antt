-- ===== src/Repository/Cap.antt =====
-- The cap of src/mirenai/repository/foreign_clients.py and uncacheable.py: after a batch only the
-- rows that were seen last are kept.
use mirenai.Python.Dict
use mirenai.Prelude.{
  All, Bool, Bool-cases, Distinct, Eq, List, [], arith, contains, false, if◌then◌else◌, inl, inr,
  length, length-take-le, list_eq, ltb, nat_eq, none, pair_eq, refl, some, some_inj, subst, suc,
  take, true, zero, ℕ, ◌+◌, ◌==◌, ◌∙◌, ◌∷◌, ◌≡◌, ◌≤◌,
}
use mirenai.Python.Dict.{Dict}
use mirenai.Repository.Select.{
  All-insert_row, get-order_by, get-where_rows, insert_row, order_by, where_rows,
  where_rows-Distinct,
}

module _ {K V : Type 0} ⦃e : Eq K⦄ (last_seen : V → ℕ) where
  -- by `last_seen` and then by id, both descending
  abbrev pub seen_later : K × V → K × V → Bool
  seen_later x y = ltb (last_seen y.1) (last_seen x.1)

  -- `select(id).order_by(last_seen.desc(), id.desc()).limit(size)`
  abbrev pub kept_rows : ℕ → Dict K V → Dict K V
  kept_rows size t = take size (order_by seen_later t)

  -- `delete(...).where(id.not_in(keep))`
  unfoldable pub cap_rows : ℕ → Dict K V → Dict K V
  cap_rows size t = where_rows (λ x. contains (Dict.keys (kept_rows size t)) x.0) t

  pub get-cap_rows :
      (size : ℕ) (t : Dict K V) (k : K)
      → Dict.get k (cap_rows size t)
        ≡ (if contains (Dict.keys (kept_rows size t)) k then Dict.get k t else none)
  unfolding cap_rows
  get-cap_rows size t k =
      get-where_rows (λ x. contains (Dict.keys (kept_rows size t)) x.0)
        (contains (Dict.keys (kept_rows size t))) (λ x. refl) k t

  pub cap_rows-Distinct :
      (size : ℕ) (t : Dict K V) → Distinct (Dict.keys t) → Distinct (Dict.keys (cap_rows size t))
  unfolding cap_rows
  cap_rows-Distinct size t u =
      where_rows-Distinct (λ x. contains (Dict.keys (kept_rows size t)) x.0) t u

  no_rows :
      (k : K) (t : Dict K V)
      → contains (Dict.keys t) k ≡ false
      → length (where_rows (λ x. k == x.0) t) ≡ 0
  no_rows k [] h = refl
  no_rows k ((j, v) ∷ t) h = ground (arith, no_rows k t, e.beq_iff j k, e.beq_iff k j)

  one_row :
      (k : K) (t : Dict K V) → Distinct (Dict.keys t) → length (where_rows (λ x. k == x.0) t) ≤ 1
  one_row k [] u = omega arith
  one_row k ((j, v) ∷ t) u = ground (arith, one_row k t, no_rows k t, e.beq_iff j k, e.beq_iff k j)

  split_rows :
      (k : K) (ks : List K) (t : Dict K V)
      → length (where_rows (λ x. contains (k ∷ ks) x.0) t)
        ≤ length (where_rows (λ x. k == x.0) t) + length (where_rows (λ x. contains ks x.0) t)
  split_rows k ks [] = omega arith
  split_rows k ks ((j, v) ∷ t) = ground (arith, split_rows k ks t)

  -- A table with a unique key has at most one row for each of some keys.
  length-rows_of_keys :
      (ks : List K) (t : Dict K V)
      → Distinct (Dict.keys t)
      → length (where_rows (λ x. contains ks x.0) t) ≤ length ks
  length-rows_of_keys [] t u = none_left t
    where
      none_left : (q : Dict K V) → length (where_rows (λ (x : K × V). false) q) ≤ 0
      none_left [] = omega arith
      none_left (x ∷ q) = none_left q
  length-rows_of_keys (k ∷ ks) t u =
      omega (arith, split_rows k ks t, one_row k t u, length-rows_of_keys ks t u)

  length-keys : (t : Dict K V) → length (Dict.keys t) ≡ length t
  length-keys [] = refl
  length-keys (x ∷ t) = omega (arith, length-keys t)

  pub length-cap_rows :
      (size : ℕ) (t : Dict K V) → Distinct (Dict.keys t) → length (cap_rows size t) ≤ size
  unfolding cap_rows
  length-cap_rows size t u = omega (
    arith,
    length-rows_of_keys (Dict.keys (kept_rows size t)) t u,
    length-keys (kept_rows size t),
    length-take-le size (order_by seen_later t),
  )

  -- no row of the list was seen after the given time
  abbrev pub SeenBy : ℕ → Dict K V → Type 0
  SeenBy m t = All (λ x. last_seen x.1 ≤ m) t

  abbrev IsSorted : Dict K V → Type 0
  IsSorted [] = Unit
  IsSorted (x ∷ t) = SeenBy (last_seen x.1) t × IsSorted t

  SeenBy-mono : (m n : ℕ) (t : Dict K V) → m ≤ n → SeenBy m t → SeenBy n t
  SeenBy-mono m n [] p h = tt
  SeenBy-mono m n (x ∷ t) p h = (omega (arith, h.0), SeenBy-mono m n t p h.1)

  insert_row-IsSorted :
      (x : K × V) (t : Dict K V) → IsSorted t → IsSorted (insert_row seen_later x t)
  insert_row-IsSorted x [] h = (tt, tt)
  insert_row-IsSorted x (y ∷ t) h = elim (Bool-cases (seen_later x y)) [
    | inl later ↦
        let le : last_seen y.1 ≤ last_seen x.1 = ground arith in
        rw later ((le, SeenBy-mono (last_seen y.1) (last_seen x.1) t le h.0), h)
    | inr earlier ↦
        let le : last_seen x.1 ≤ last_seen y.1 = ground arith in
        rw earlier (
          All-insert_row (λ (z : K × V). last_seen z.1 ≤ last_seen y.1) seen_later x t le h.0,
          insert_row-IsSorted x t h.1,
        )
  ]

  order_by-IsSorted : (t : Dict K V) → IsSorted (order_by seen_later t)
  unfolding order_by
  order_by-IsSorted [] = tt
  order_by-IsSorted (x ∷ t) = insert_row-IsSorted x (order_by seen_later t) (order_by-IsSorted t)

  SeenBy-get :
      (m : ℕ) (t : Dict K V) (j : K) (w : V) → SeenBy m t → Dict.get j t ≡ some w → last_seen w ≤ m
  unfolding Dict.get
  SeenBy-get m [] j w h f = cc
  SeenBy-get m ((i, x) ∷ t) j w h f = elim (Bool-cases (i == j)) [
    | inl same ↦ let e' : x ≡ w = some_inj (rw same at f) in subst (λ y. last_seen y ≤ m) e' h.0
    | inr other ↦ SeenBy-get m t j w h.1 (rw other at f)
  ]

  -- In a sorted table the rows that are taken are not older than those that are left.
  taken_later :
      (size : ℕ) (t : Dict K V) (k j : K) (v w : V)
      → IsSorted t
      → contains (Dict.keys (take size t)) k ≡ true
      → contains (Dict.keys (take size t)) j ≡ false
      → Dict.get k t ≡ some v
      → Dict.get j t ≡ some w
      → last_seen w ≤ last_seen v
  unfolding Dict.get
  taken_later zero t k j v w h p q a b = cc
  taken_later (suc size) [] k j v w h p q a b = cc
  taken_later (suc size) ((i, x) ∷ t) k j v w h p q a b = elim (Bool-cases (i == k)) [
    | inl same ↦
        let e' : x ≡ v = some_inj (rw same at a) in
        let other : (i == j) ≡ false = ground arith in
        subst (λ y. last_seen w ≤ last_seen y) e'
          (SeenBy-get (last_seen x) t j w h.0 (rw other at b))
    | inr apart ↦
        let other : (i == j) ≡ false = ground arith in
        taken_later size t k j v w h.1 (ground arith) (ground arith) (rw apart at a) (rw other at b)
  ]

  -- A row that the cap removes was not seen after any row that it keeps.
  pub cap_rows-newest :
      (size : ℕ) (t : Dict K V) (k j : K) (v w : V)
      → Distinct (Dict.keys t)
      → Dict.get k (cap_rows size t) ≡ some v
      → Dict.get j t ≡ some w
      → Dict.get j (cap_rows size t) ≡ none
      → last_seen w ≤ last_seen v
  cap_rows-newest size t k j v w u a b c =
      let kept = kept_rows size t in
      let p : contains (Dict.keys kept) k ≡ true = ground (arith, get-cap_rows size t k) in
      let q : contains (Dict.keys kept) j ≡ false = ground (arith, get-cap_rows size t j) in
      taken_later size (order_by seen_later t) k j v w (order_by-IsSorted t) p q
        (get-order_by seen_later k t u ∙ ground (arith, get-cap_rows size t k))
        (get-order_by seen_later j t u ∙ b)
