-- ===== src/Repository/Group.antt =====
-- `GROUP BY` and the sums over the groups.
use mathlib.Core.List.{append-nil, append_assoc}
use mirenai.Python.Dict
use mirenai.Prelude.{
  Bool, Bool-cases, Distinct, Eq, List, Option, Option-cases, [], ap, arith, contains,
  if◌then◌else◌, inl, inr, list_eq, map, nat_eq, none, pair_eq, refl, some, sym, ℕ, ◌++◌, ◌+◌, ◌==◌,
  ◌∙◌, ◌∷◌, ◌≡◌,
}
use mirenai.Buffers.Tally.{rows_or_nil, value_or_zero}
use mirenai.Python.Dict.{Dict}
use mirenai.Repository.Select.{get-order_by, order_by, where_rows}

abbrev pub sum_of {ℓ} : {A : Type ℓ} → (A → ℕ) → List A → ℕ
sum_of f [] = 0
sum_of f (x ∷ xs) = f x + sum_of f xs

pub sum_of-append {ℓ} :
    {A : Type ℓ} (f : A → ℕ) (xs ys : List A) → sum_of f (xs ++ ys) ≡ sum_of f xs + sum_of f ys
sum_of-append f [] ys = omega arith
sum_of-append f (x ∷ xs) ys = omega (arith, sum_of-append f xs ys)

-- the values that occur, each once
abbrev pub distinct_values : {K : Type 0} ⦃e : Eq K⦄ → List K → List K
distinct_values [] = []
distinct_values (x ∷ xs) = let rest = distinct_values xs in if contains xs x then rest else x ∷ rest

append-not_nil :
    {A : Type 0} (xs : List A) (x : A)
    → ¬ (◌≡◌ {A = Option (List A)} (some (xs ++ x ∷ [])) (some []))
append-not_nil [] x h = cc
append-not_nil (y ∷ xs) x h = cc

module _ {A K : Type 0} ⦃e : Eq K⦄ where
  -- a group for each key, in the order of their first rows, with its rows in their order
  unfoldable pub group_into : (A → K) → Dict K (List A) → List A → Dict K (List A)
  group_into key d [] = d
  group_into key d (x ∷ xs) =
      group_into key (Dict.put (key x) (rows_or_nil (Dict.get (key x) d) ++ x ∷ []) d) xs

  unfoldable pub group_by : (A → K) → List A → Dict K (List A)
  group_by key xs = group_into key [] xs

  pub group_into-rows :
      (key : A → K) (k : K) (xs : List A) (d : Dict K (List A))
      → rows_or_nil (Dict.get k (group_into key d xs))
        ≡ rows_or_nil (Dict.get k d) ++ where_rows (λ x. key x == k) xs
  unfolding group_into
  group_into-rows key k [] d = sym (append-nil _)
  group_into-rows key k (x ∷ xs) d =
      let group = rows_or_nil (Dict.get (key x) d) ++ x ∷ [] in
      group_into-rows key k xs (Dict.put (key x) group d) ∙ (elim (Bool-cases (key x == k)) [
        | inl same ↦
            let e' : key x ≡ k = (e.beq_iff (key x) k).0 same in
            rw (Dict.get-put (key x) k group d, same)
              (rw e' (
                append_assoc (rows_or_nil (Dict.get k d)) (x ∷ [])
                  (where_rows (λ x. key x == k) xs)))
        | inr other ↦ rw (Dict.get-put (key x) k group d, other) refl
      ])

  -- The group of a key holds the rows with that key, in their order.
  pub group_by-rows :
      (key : A → K) (k : K) (xs : List A)
      → rows_or_nil (Dict.get k (group_by key xs)) ≡ where_rows (λ x. key x == k) xs
  unfolding group_by Dict.get
  group_by-rows key k xs = group_into-rows key k xs []

  group_into-Distinct :
      (key : A → K) (xs : List A) (d : Dict K (List A))
      → Distinct (Dict.keys d)
      → Distinct (Dict.keys (group_into key d xs))
  unfolding group_into
  group_into-Distinct key [] d u = u
  group_into-Distinct key (x ∷ xs) d u =
      let group = rows_or_nil (Dict.get (key x) d) ++ x ∷ [] in
      group_into-Distinct key xs (Dict.put (key x) group d) (Dict.put-Distinct (key x) group d u)

  -- no key has the empty list
  abbrev pub IsFull : Dict K (List A) → Type 0
  IsFull d = (k : K) → ¬ (Dict.get k d ≡ some [])

  group_into-IsFull :
      (key : A → K) (xs : List A) (d : Dict K (List A)) → IsFull d → IsFull (group_into key d xs)
  unfolding group_into
  group_into-IsFull key [] d full = full
  group_into-IsFull key (x ∷ xs) d full =
      let rows = rows_or_nil (Dict.get (key x) d) in
      group_into-IsFull key xs (Dict.put (key x) (rows ++ x ∷ []) d) (λ k h.
        elim (Bool-cases (key x == k)) [
          | inl same ↦
              append-not_nil rows x
                (rw same at (sym (Dict.get-put (key x) k (rows ++ x ∷ []) d) ∙ h))
          | inr other ↦ full k (rw other at (sym (Dict.get-put (key x) k (rows ++ x ∷ []) d) ∙ h))
        ])

  pub group_by-IsFull : (key : A → K) (xs : List A) → IsFull (group_by key xs)
  unfolding group_by Dict.get
  group_by-IsFull key xs = group_into-IsFull key xs [] (λ k h. cc)

  pub group_by-Distinct : (key : A → K) (xs : List A) → Distinct (Dict.keys (group_by key xs))
  unfolding group_by
  group_by-Distinct key xs = group_into-Distinct key xs [] tt

-- A column that is computed from the groups is found under the key of the group.
pub get-map :
    {K V W : Type 0} ⦃e : Eq K⦄ (f : V → W) (k : K) (d : Dict K V)
    → Dict.get k (map (λ (x : K × V). (x.0, f x.1)) d)
      ≡ (elim (Dict.get k d) [ none ↦ none | some v ↦ some (f v) ])
unfolding Dict.get
get-map f k [] = refl
get-map f k ((j, v) ∷ d) = ground (arith, get-map f k d)

pub keys-map :
    {K V W : Type 0} (f : V → W) (d : Dict K V)
    → Dict.keys (map (λ (x : K × V). (x.0, f x.1)) d) ≡ Dict.keys d
keys-map f [] = refl
keys-map f ((j, v) ∷ d) = ap (◌∷◌ j) (keys-map f d)

pub value-map :
    {K V : Type 0} ⦃e : Eq K⦄ (f : List V → ℕ) (k : K) (d : Dict K (List V))
    → f [] ≡ 0
    → value_or_zero (λ n. n) (Dict.get k (map (λ (x : K × List V). (x.0, f x.1)) d))
      ≡ f (rows_or_nil (Dict.get k d))
value-map f k d z = elim (Option-cases (Dict.get k d)) [
  | inl absent ↦ rw (get-map f k d, absent) (sym z)
  | inr (v, e) ↦ rw (get-map f k d, e) refl
]

-- A number that is computed from the rows of each group, and then sorted.
pub value-grouped :
    {A K W : Type 0} ⦃e : Eq K⦄ (before : K × W → K × W → Bool) (f : List A → W) (value : W → ℕ)
    (key : A → K) (k : K) (xs : List A)
    → value (f []) ≡ 0
    → value_or_zero value
        (Dict.get k (order_by before (map (λ (g : K × List A). (g.0, f g.1)) (group_by key xs))))
      ≡ value (f (where_rows (λ x. key x == k) xs))
value-grouped {A} {K} before f value key k xs z =
    let groups = group_by key xs in
    let rows = map (λ (g : K × List A). (g.0, f g.1)) groups in
    let u : Distinct (Dict.keys rows) = rw (keys-map f groups) (group_by-Distinct key xs) in
    ap (value_or_zero value) (get-order_by before k rows u ∙ get-map f k groups)
    ∙ (elim (Option-cases (Dict.get k groups)) [
      | inl absent ↦
          let none_there : ◌≡◌ {A = List A} [] (where_rows (λ x. key x == k) xs) =
            sym (ap rows_or_nil absent) ∙ group_by-rows key k xs in
          rw absent (sym z ∙ ap (λ ys. value (f ys)) none_there)
      | inr (ys, there) ↦
          rw there (ap (λ zs. value (f zs)) (sym (ap rows_or_nil there) ∙ group_by-rows key k xs))
    ])
