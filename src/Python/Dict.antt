-- ===== src/Python/Dict.antt =====
-- Python's `dict`: entries in insertion order, each key once.
use mirenai.Prelude.{
  Bool, Bool-cases, Distinct, Eq, List, Option, [], arith, contains, false, if◌then◌else◌, inl, inr,
  length, list_eq, nat_eq, none, pair_eq, refl, some, true, ◌+◌, ◌==◌, ◌||◌, ◌∷◌, ◌≡◌,
}

abbrev pub Dict {ℓ κ} : Type ℓ → Type κ → Type (ℓ ⊔ κ)
Dict K V = List (K × V)

module _ {ℓ κ} {K : Type ℓ} {V : Type κ} where
  abbrev pub keys : Dict K V → List K
  keys [] = []
  keys ((j, w) ∷ d) = j ∷ keys d

abbrev pub is_some {ℓ} : {A : Type ℓ} → Option A → Bool
is_some none = false
is_some (some a) = true

module _ {ℓ κ} {K : Type ℓ} {V : Type κ} ⦃e : Eq K⦄ where
  -- `d.get(k)`
  unfoldable pub get : K → Dict K V → Option V
  get k [] = none
  get k ((j, w) ∷ d) = if j == k then some w else get k d

  -- `d[k] = v`: in place, or behind the other entries
  unfoldable pub put : K → V → Dict K V → Dict K V
  put k v [] = (k, v) ∷ []
  put k v ((j, w) ∷ d) = if j == k then (j, v) ∷ d else (j, w) ∷ put k v d

  -- `del d[k]`, `d.pop(k, None)`
  unfoldable pub remove : K → Dict K V → Dict K V
  remove k [] = []
  remove k ((j, w) ∷ d) = if j == k then d else (j, w) ∷ remove k d

  pub get-put :
      (k j : K) (v : V) (d : Dict K V) → get j (put k v d) ≡ (if k == j then some v else get j d)
  unfolding get put
  get-put k j v [] = refl
  get-put k j v ((i, w) ∷ d) =
      ground (arith, e.beq_iff k j, e.beq_iff i k, e.beq_iff i j, get-put k j v d)

  pub get-eq-none : (k : K) (d : Dict K V) → contains (keys d) k ≡ false → get k d ≡ none
  unfolding get
  get-eq-none k [] h = refl
  get-eq-none k ((j, w) ∷ d) h = ground (arith, get-eq-none k d)

  pub get-eq-some :
      (k : K) (d : Dict K V) → contains (keys d) k ≡ true → (v : V) × (get k d ≡ some v)
  unfolding get
  get-eq-some k [] h = cc
  get-eq-some k ((j, w) ∷ d) h = elim (Bool-cases (j == k)) [
    | inl same ↦ (w, rw same)
    | inr other ↦ rw other (get-eq-some k d (ground arith))
  ]

  pub contains_of_get :
      (k : K) (d : Dict K V) {v : V} → get k d ≡ some v → contains (keys d) k ≡ true
  contains_of_get k d h = elim (Bool-cases (contains (keys d) k)) [
    | inl old ↦ old
    | inr new ↦ absurd (ground (arith, get-eq-none k d new))
  ]

  pub contains-keys-put :
      (k j : K) (v : V) (d : Dict K V)
      → contains (keys (put k v d)) j ≡ (k == j || contains (keys d) j)
  unfolding put
  contains-keys-put k j v [] = refl
  contains-keys-put k j v ((i, w) ∷ d) =
      ground (arith, e.beq_iff k j, e.beq_iff i k, e.beq_iff i j, contains-keys-put k j v d)

  pub put-Distinct :
      (k : K) (v : V) (d : Dict K V) → Distinct (keys d) → Distinct (keys (put k v d))
  unfolding put
  put-Distinct k v [] h = (refl, tt)
  put-Distinct k v ((i, w) ∷ d) h = elim (Bool-cases (i == k)) [
    | inl same ↦ rw same h
    | inr other ↦ rw other (
      (ground (arith, e.beq_iff k i, e.beq_iff i k, contains-keys-put k i v d)),
      put-Distinct k v d h.1,
    )
  ]

  -- A write adds an entry only if the key is new.
  pub length-put :
      (k : K) (v : V) (d : Dict K V)
      → length (put k v d) ≡ (if contains (keys d) k then length d else length d + 1)
  unfolding put
  length-put k v [] = omega arith
  length-put k v ((i, w) ∷ d) = ground (arith, length-put k v d)

  pub contains-keys-remove_ne :
      (k j : K) (d : Dict K V)
      → (k == j) ≡ false
      → contains (keys (remove k d)) j ≡ contains (keys d) j
  unfolding remove
  contains-keys-remove_ne k j [] h = refl
  contains-keys-remove_ne k j ((i, w) ∷ d) h =
      ground (arith, e.beq_iff i k, e.beq_iff i j, e.beq_iff k j, contains-keys-remove_ne k j d)

  pub contains-keys-remove_self :
      (k : K) (d : Dict K V) → Distinct (keys d) → contains (keys (remove k d)) k ≡ false
  unfolding remove
  contains-keys-remove_self k [] h = refl
  contains-keys-remove_self k ((i, w) ∷ d) h =
      ground (arith, e.beq_iff i k, contains-keys-remove_self k d)

  pub contains-keys-remove :
      (k j : K) (d : Dict K V)
      → contains (keys d) j ≡ false
      → contains (keys (remove k d)) j ≡ false
  unfolding remove
  contains-keys-remove k j [] h = refl
  contains-keys-remove k j ((i, w) ∷ d) h = ground (arith, contains-keys-remove k j d)

  pub remove-Distinct : (k : K) (d : Dict K V) → Distinct (keys d) → Distinct (keys (remove k d))
  unfolding remove
  remove-Distinct k [] h = tt
  remove-Distinct k ((i, w) ∷ d) h = elim (Bool-cases (i == k)) [
    | inl same ↦ rw same h.1
    | inr other ↦ rw other (contains-keys-remove k i d h.0, remove-Distinct k d h.1)
  ]

  pub get-remove :
      (k j : K) (d : Dict K V)
      → Distinct (keys d)
      → get j (remove k d) ≡ (if k == j then none else get j d)
  unfolding get remove
  get-remove k j [] h = ground arith
  get-remove k j ((i, w) ∷ d) h =
      ground (arith, e.beq_iff k j, e.beq_iff i k, e.beq_iff i j, get-remove k j d, get-eq-none j d)

  pub length-remove :
      (k : K) (d : Dict K V)
      → length (remove k d) + (if contains (keys d) k then 1 else 0) ≡ length d
  unfolding remove
  length-remove k [] = omega arith
  length-remove k ((i, w) ∷ d) = ground (arith, length-remove k d)

  pub contains-keys : (k : K) (d : Dict K V) → contains (keys d) k ≡ is_some (get k d)
  unfolding get
  contains-keys k [] = refl
  contains-keys k ((j, w) ∷ d) = ground (arith, contains-keys k d)
