-- ===== src/Repository/Rows.antt =====
-- A table whose rows have an `INTEGER PRIMARY KEY`: a list of rows in the order of the ids.
use mirenai.Prelude.{
  All, Bool-cases, Distinct, List, Option, Option-cases, [], ap, arith, beq_refl, contains, false,
  if◌then◌else◌, inl, inr, list_eq, max, nat_beq_iff, nat_eq, none, pair_eq, refl, some, ℕ, ◌++◌,
  ◌+◌, ◌==◌, ◌∙◌, ◌∷◌, ◌≡◌, ◌≤◌,
}

module _ {R : Type 0} (id_of : R → ℕ) where
  -- one more than the greatest id
  abbrev pub next_row_id : List R → ℕ
  next_row_id [] = 1
  next_row_id (r ∷ rows) = max (id_of r + 1) (next_row_id rows)

  -- `session.get`
  unfoldable pub get_row : ℕ → List R → Option R
  get_row id [] = none
  get_row id (r ∷ rows) = if id_of r == id then some r else get_row id rows

  -- a change of the row with an id; an unknown id changes nothing
  unfoldable pub change_row : ℕ → (R → R) → List R → List R
  change_row id f [] = []
  change_row id f (r ∷ rows) =
      let rest = change_row id f rows in if id_of r == id then f r ∷ rows else r ∷ rest

  -- the rows with other ids
  abbrev pub other_rows : ℕ → List R → List R
  other_rows id [] = []
  other_rows id (r ∷ rows) =
      let rest = other_rows id rows in if id_of r == id then rest else r ∷ rest

  abbrev pub row_ids : List R → List ℕ
  row_ids [] = []
  row_ids (r ∷ rows) = id_of r ∷ row_ids rows

  get-change_row :
      (id j : ℕ) (f : R → R) (rows : List R)
      → ((r : R) → id_of (f r) ≡ id_of r)
      → get_row j (change_row id f rows)
        ≡ (elim (get_row j rows) [ none ↦ none | some r ↦ some (if j == id then f r else r) ])
  unfolding get_row change_row
  get-change_row id j f [] h = refl
  get-change_row id j f (r ∷ rows) h = ground (arith, h r, get-change_row id j f rows h)

  -- The change of a row that is there is seen under its id alone.
  pub get-changed :
      (id j : ℕ) (f : R → R) (rows : List R) (r : R)
      → ((b : R) → id_of (f b) ≡ id_of b)
      → get_row id rows ≡ some r
      → get_row j (change_row id f rows) ≡ (if j == id then some (f r) else get_row j rows)
  get-changed id j f rows r h found = elim (Bool-cases (j == id)) [
    | inl same ↦
        let there : get_row j rows ≡ some r =
          ap (λ k. get_row k rows) ((nat_beq_iff j id).0 same) ∙ found in
        rw (get-change_row id j f rows h, there, same) refl
    | inr other ↦ elim (Option-cases (get_row j rows)) [
      | inl absent ↦ rw (get-change_row id j f rows h, absent, other) refl
      | inr (b, there) ↦ rw (get-change_row id j f rows h, there, other) refl
    ]
  ]

  pub get-other_rows :
      (id j : ℕ) (rows : List R)
      → get_row j (other_rows id rows) ≡ (if j == id then none else get_row j rows)
  unfolding get_row
  get-other_rows id j [] = ground arith
  get-other_rows id j (r ∷ rows) = ground (arith, get-other_rows id j rows)

  found_behind :
      (b : R) (rest rows : List R)
      → contains (row_ids rest) (id_of b) ≡ false
      → All (λ r. get_row (id_of r) rows ≡ some r) rest
      → All (λ r. get_row (id_of r) (b ∷ rows) ≡ some r) rest
  unfolding get_row
  found_behind b [] rows apart h = tt
  found_behind b (r ∷ rest) rows apart h = (
    ground (arith, h.0, nat_beq_iff (id_of r) (id_of b), nat_beq_iff (id_of b) (id_of r)),
    found_behind b rest rows (ground arith) h.1,
  )

  -- A table with distinct ids finds each of its rows.
  pub found_each :
      (rows : List R) → Distinct (row_ids rows) → All (λ r. get_row (id_of r) rows ≡ some r) rows
  found_each [] u = tt
  found_each (b ∷ rows) u = (
    unfold get_row in rw (beq_refl (id_of b)) refl,
    found_behind b rows rows u.0 (found_each rows u.1),
  )

  get-above : (id : ℕ) (rows : List R) → next_row_id rows ≤ id → get_row id rows ≡ none
  unfolding get_row
  get-above id [] h = refl
  get-above id (r ∷ rows) h = ground (arith, get-above id rows)

  get-snoc :
      (j : ℕ) (r : R) (rows : List R)
      → get_row j (rows ++ r ∷ []) ≡ (elim (get_row j rows) [
        | none ↦ (if id_of r == j then some r else none)
        | some q ↦ some q
      ])
  unfolding get_row
  get-snoc j r [] = refl
  get-snoc j r (q ∷ rows) = ground (arith, get-snoc j r rows)

  -- The id of a new row is free, and the row is found under it behind the others.
  pub get-new_row :
      (j : ℕ) (r : R) (rows : List R)
      → id_of r ≡ next_row_id rows
      → get_row j (rows ++ r ∷ []) ≡ (if j == next_row_id rows then some r else get_row j rows)
  get-new_row j r rows h =
      get-snoc j r rows ∙ ground (arith, h, get-above j rows, nat_beq_iff j (id_of r))
