-- ===== src/Cache/Reads.antt =====
-- What can be read from the cache after a write, and the snapshot.
use mirenai.Python.Dict
use mirenai.Cache
use mirenai.Cache.Order.{set-entries, get-live, get-expired, get-miss, IsValid}
use mirenai.Prelude.{
  Bool-cases, Distinct, Option, Option-cases, [], ap, arith, contains, drop, false, if◌then◌else◌,
  inl, inr, leb, length, length-append, list_beq_iff, list_eq, nat_eq, none, pair_eq, refl, some,
  suc, true, zero, ℕ, ◌*◌, ◌++◌, ◌+◌, ◌-◌, ◌/◌, ◌<◌, ◌==◌, ◌∙◌, ◌∷◌, ◌≡◌, ◌≤◌, ◌⊎◌,
}
use mirenai.Cache.{CacheEntry, Live, TtlCache, second}
use mirenai.Python.Dict.{Dict}
use mirenai.Python.Text.{Text}

module _ {ℓ} {V : Type ℓ} where
  get-append :
      (k : Text) (d e : Dict Text V)
      → Dict.get k (d ++ e) ≡ (elim (Dict.get k d) [ none ↦ Dict.get k e | some v ↦ some v ])
  unfolding Dict.get
  get-append k [] e = refl
  get-append k ((j, v) ∷ d) e = ground (arith, get-append k d e)

  get-remove_snoc :
      (k other : Text) (w : V) (d : Dict Text V)
      → Distinct (Dict.keys d)
      → (k == other) ≡ false
      → Dict.get other (Dict.remove k d ++ (k, w) ∷ []) ≡ Dict.get other d
  get-remove_snoc k other w d h ne =
      get-append other (Dict.remove k d) ((k, w) ∷ [])
      ∙ ground (arith, Dict.get-remove k other d h, Dict.get-eq-none other ((k, w) ∷ []))

  -- The last entry is still there after the oldest ones are dropped.
  get-drop_last :
      (k : Text) (w : V) (d : Dict Text V) (n : ℕ)
      → n ≤ length d
      → contains (Dict.keys d) k ≡ false
      → Dict.get k (drop n (d ++ (k, w) ∷ [])) ≡ some w
  unfolding Dict.get
  get-drop_last k w [] zero h new = ground (arith, list_beq_iff k k)
  get-drop_last k w [] (suc n) h new = absurd (omega arith)
  get-drop_last k w ((j, v) ∷ d) zero h new = ground (arith, get-drop_last k w d zero)
  get-drop_last k w ((j, v) ∷ d) (suc n) h new = get-drop_last k w d n (omega arith) (ground arith)

module _ {ℓ} {V : Type ℓ} (key : Text) (value : V) (ttl now : ℕ) (c : TtlCache V)
    (v : IsValid c) where
  get_of_set :
      Dict.get key (Cache.set key value ttl now c).entries ≡ some (Cache.fresh value ttl now)
  get_of_set =
      let d = Dict.remove key c.entries in
      ap (Dict.get key) (set-entries key value ttl now c)
      ∙ get-drop_last key (Cache.fresh value ttl now) d
          (length (d ++ (key, Cache.fresh value ttl now) ∷ []) - c.max_entries)
          (grind (arith, length-append d ((key, Cache.fresh value ttl now) ∷ []), v.positive))
          (Dict.contains-keys-remove_self key c.entries v.distinct)

  -- A value that was stored for `ttl` seconds is found while they last, and never afterwards.
  pub get-set_self :
      (later : ℕ)
      → (Cache.get key later (Cache.set key value ttl now c)).1
        ≡ (if leb (now + ttl * second) later then none else some (Cache.fresh value ttl now))
  get-set_self later = elim (Bool-cases (leb (now + ttl * second) later)) [
    | inl old ↦ rw old (
        ap (λ r. r.1)
          (get-expired key later (Cache.set key value ttl now c) (Cache.fresh value ttl now)
            get_of_set old))
    | inr live ↦ rw live (
        ap (λ r. r.1)
          (get-live key later (Cache.set key value ttl now c) (Cache.fresh value ttl now) get_of_set
            live))
  ]

module _ {ℓ} {V : Type ℓ} where
  -- what a snapshot shows of an entry that a lookup returns
  abbrev pub live_view : ℕ → Option (CacheEntry V) → Option (Live V)
  live_view now none = none
  live_view now (some entry) = some (entry.value, (entry.expires_at - now) / second, entry.ttl)

  absent_live :
      (now : ℕ) (k : Text) (d : Dict Text (CacheEntry V))
      → contains (Dict.keys d) k ≡ false
      → Dict.get k (Cache.live_entries now d) ≡ none
  unfolding Cache.live_entries Dict.get
  absent_live now k [] h = refl
  absent_live now k ((j, entry) ∷ d) h = ground (arith, absent_live now k d)

  get-live_entries :
      (now : ℕ) (k : Text) (d : Dict Text (CacheEntry V))
      → Distinct (Dict.keys d)
      → Dict.get k (Cache.live_entries now d) ≡ (elim (Dict.get k d) [
        | none ↦ none
        | some entry ↦ if leb entry.expires_at now then none else live_view now (some entry)
      ])
  unfolding Cache.live_entries Dict.get
  get-live_entries now k [] h = refl
  get-live_entries now k ((j, entry) ∷ d) h =
      ground (arith, get-live_entries now k d, absent_live now k d, list_beq_iff j k)

  -- The snapshot shows exactly what lookups at that moment would return.
  get-snapshot :
      (now : ℕ) (k : Text) (c : TtlCache V)
      → IsValid c
      → Dict.get k (Cache.snapshot now c) ≡ live_view now (Cache.get k now c).1
  unfolding Cache.snapshot
  get-snapshot now k c v = elim (Option-cases (Dict.get k c.entries)) [
    | inl miss ↦ rw (get-miss k now c miss) (get-live_entries now k c.entries v.distinct ∙ rw miss)
    | inr (entry, hit) ↦ elim (Bool-cases (leb entry.expires_at now)) [
      | inl old ↦
          rw (get-expired k now c entry hit old)
            (get-live_entries now k c.entries v.distinct ∙ rw hit (rw old))
      | inr live ↦
          rw (get-live k now c entry hit live)
            (get-live_entries now k c.entries v.distinct ∙ rw hit (rw live))
    ]
  ]

  -- A write keeps every other entry, if the key is there already or the cache is not full.
  get-set_ne :
      (key other : Text) (value : V) (ttl now : ℕ) (c : TtlCache V)
      → IsValid c
      → (key == other) ≡ false
      → (contains (Dict.keys c.entries) key ≡ true) ⊎ (length c.entries < c.max_entries)
      → Dict.get other (Cache.set key value ttl now c).entries ≡ Dict.get other c.entries
  get-set_ne key other value ttl now c v ne room =
      let touched : Dict Text (CacheEntry V) =
        Dict.remove key c.entries ++ (key, Cache.fresh value ttl now) ∷ [] in
      let fits : length touched - c.max_entries ≡ 0 = ground (
        arith,
        length-append (Dict.remove key c.entries) ((key, Cache.fresh value ttl now) ∷ []),
        Dict.length-remove key c.entries,
        v.bounded,
      ) in
      ap (Dict.get other) (set-entries key value ttl now c ∙ ap (λ n. drop n touched) fits)
      ∙ get-remove_snoc key other (Cache.fresh value ttl now) c.entries v.distinct ne
