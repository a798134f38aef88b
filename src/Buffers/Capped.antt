-- ===== src/Buffers/Capped.antt =====
-- Counting with a limit on the number of keys: the flood guard of the two capped buffers.
use mirenai.Python.Dict
use mirenai.Prelude.{
  Bool-cases, Distinct, Eq, Option, Option-cases, arith, contains, false, if◌then◌else◌, inl, inr,
  length, list_eq, ltb, nat_eq, none, pair_eq, some, true, ℕ, ◌<◌, ◌==◌, ◌≡◌, ◌≤◌, ◌⊎◌,
}
use mirenai.Python.Dict.{Dict}

-- An entry that is there is updated, and a new one is made only while there is room.
module _ {K V : Type 0} ⦃e : Eq K⦄ where
  unfoldable pub put_capped : ℕ → K → (Option V → V) → Dict K V → Dict K V
  put_capped most k update d = elim (Dict.get k d) [
    | some v ↦ Dict.put k (update (some v)) d
    | none ↦ if ltb (length d) most then Dict.put k (update none) d else d
  ]

  module _ (most : ℕ) (k : K) (update : Option V → V) (d : Dict K V) where
    capped_old :
        (v : V)
        → Dict.get k d ≡ some v
        → put_capped most k update d ≡ Dict.put k (update (some v)) d
    unfolding put_capped
    capped_old v h = rw (h, put_capped)

    capped_new :
        Dict.get k d ≡ none
        → put_capped most k update d
          ≡ (if ltb (length d) most then Dict.put k (update none) d else d)
    unfolding put_capped
    capped_new h = rw (h, put_capped)

    absent_key : Dict.get k d ≡ none → contains (Dict.keys d) k ≡ false
    absent_key h = elim (Bool-cases (contains (Dict.keys d) k)) [
      | inl old ↦ let (v, e) = Dict.get-eq-some k d old in absurd (ground arith)
      | inr new ↦ new
    ]

    -- The number of keys never passes the limit.
    pub length-put_capped-le : length d ≤ most → length (put_capped most k update d) ≤ most
    length-put_capped-le h = elim (Option-cases (Dict.get k d)) [
      | inl new ↦
          rw (capped_new new) (ground (arith, Dict.length-put k (update none) d, absent_key new))
      | inr (v, old) ↦
          rw (capped_old v old)
            (ground (arith, Dict.length-put k (update (some v)) d, Dict.contains_of_get k d old))
    ]

    -- A key that is held, or that finds room, counts on; all other keys keep their entries.
    pub get-put_capped :
        (j : K)
        → (contains (Dict.keys d) k ≡ true) ⊎ (length d < most)
        → Dict.get j (put_capped most k update d)
          ≡ (if k == j then some (update (Dict.get k d)) else Dict.get j d)
    get-put_capped j room = elim (Option-cases (Dict.get k d)) [
      | inl new ↦
          rw (capped_new new, new)
            (ground (arith, Dict.get-put k j (update none) d, absent_key new))
      | inr (v, old) ↦ rw (capped_old v old, old) (Dict.get-put k j (update (some v)) d)
    ]

    -- A new key that finds no room is left out, and nothing else changes.
    pub put_capped_full : Dict.get k d ≡ none → most ≤ length d → put_capped most k update d ≡ d
    put_capped_full new full = rw (capped_new new) (ground arith)

    pub put_capped-Distinct :
        Distinct (Dict.keys d) → Distinct (Dict.keys (put_capped most k update d))
    put_capped-Distinct h = elim (Option-cases (Dict.get k d)) [
      | inl new ↦ elim (Bool-cases (ltb (length d) most)) [
        | inl room ↦ rw (capped_new new) (rw room (Dict.put-Distinct k (update none) d h))
        | inr full ↦ rw (capped_new new) (rw full h)
      ]
      | inr (v, old) ↦ rw (capped_old v old) (Dict.put-Distinct k (update (some v)) d h)
    ]
