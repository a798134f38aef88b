-- ===== src/Cache/Order.antt =====
-- The order of use, and the bound on the size.
use mirenai.Python.Dict
use mirenai.Cache
use mirenai.Prelude.{
  Bool-cases, Distinct, Option-cases, [], ap, arith, drop, drop-nil, false, inl, inr, leb, length,
  length-append, length-drop, list_beq_iff, list_eq, ltb, nat_eq, none, pair_eq, refl,
  snoc-Distinct, some, subst, suc, sym, true, zero, ℕ, ◌++◌, ◌-◌, ◌∷◌, ◌≡◌, ◌≤◌,
}
use mirenai.Cache.{CacheEntry, TtlCache}
use mirenai.Python.Dict.{Dict}
use mirenai.Python.Text.{Text}

module _ {ℓ} {V : Type ℓ} where
  -- A touched entry becomes the newest.
  pub move_to_end-get :
      (k : Text) (w : V) (d : Dict Text V)
      → Dict.get k d ≡ some w
      → Cache.move_to_end k d ≡ Dict.remove k d ++ (k, w) ∷ []
  unfolding Cache.move_to_end Dict.get Dict.remove
  move_to_end-get k w [] h = cc
  move_to_end-get k w ((j, v) ∷ d) h = ground (arith, list_beq_iff j k, move_to_end-get k w d)

  pub move_to_end-put :
      (k : Text) (w : V) (d : Dict Text V)
      → Cache.move_to_end k (Dict.put k w d) ≡ Dict.remove k d ++ (k, w) ∷ []
  unfolding Cache.move_to_end Dict.put Dict.remove
  move_to_end-put k w [] = ground (arith, list_beq_iff k k)
  move_to_end-put k w ((j, v) ∷ d) = ground (arith, list_beq_iff j k, move_to_end-put k w d)

  keys-append : (d e : Dict Text V) → Dict.keys (d ++ e) ≡ Dict.keys d ++ Dict.keys e
  keys-append [] e = refl
  keys-append (x ∷ d) e = ap (◌∷◌ x.0) (keys-append d e)

  -- What is evicted is the oldest part, and no more of it than has to go.
  pub evict-drop : (n : ℕ) (d : Dict Text V) → Cache.evict n d ≡ drop (length d - n) d
  unfolding Cache.evict
  evict-drop n [] = sym (drop-nil (0 - n))
  evict-drop n (e ∷ d) = elim (Bool-cases (ltb n (length (e ∷ d)))) [
    | inl over ↦
        let z : suc (length d) - n ≡ suc (length d - n) = ground arith in
        rw (over, Cache.evict) (rw z (evict-drop n d))
    | inr fits ↦ let z : suc (length d) - n ≡ 0 = ground arith in rw (fits, Cache.evict) (rw z)
  ]

  drop-Distinct :
      (n : ℕ) (d : Dict Text V) → Distinct (Dict.keys d) → Distinct (Dict.keys (drop n d))
  drop-Distinct zero d h = h
  drop-Distinct (suc n) [] h = h
  drop-Distinct (suc n) (x ∷ d) h = drop-Distinct n d h.1

  touched-Distinct :
      (k : Text) (w : V) (d : Dict Text V)
      → Distinct (Dict.keys d)
      → Distinct (Dict.keys (Dict.remove k d ++ (k, w) ∷ []))
  touched-Distinct k w d h = rw (keys-append (Dict.remove k d) ((k, w) ∷ [])) (
      snoc-Distinct (Dict.keys (Dict.remove k d)) k (Dict.remove-Distinct k d h)
        (Dict.contains-keys-remove_self k d h))

module _ {ℓ} {V : Type ℓ} where
  pub record IsValid (c : TtlCache V) : Type 0 where
    pub positive : 1 ≤ c.max_entries
    pub bounded : length c.entries ≤ c.max_entries
    pub distinct : Distinct (Dict.keys c.entries)

  pub init-IsValid : (n : ℕ) → IsValid (Cache.init n)
  unfolding Cache.init
  init-IsValid n = record { positive = omega arith; bounded = omega arith; distinct = tt }

  pub clear-IsValid : (c : TtlCache V) → IsValid c → IsValid (Cache.clear c)
  unfolding Cache.clear
  clear-IsValid c h = record { positive = h.positive; bounded = omega arith; distinct = tt }

  -- After `set` the cache holds the entry as its newest, behind the old entries of the other
  -- keys in their old order, less the oldest ones that do not fit.
  pub set-entries :
      (key : Text) (value : V) (ttl now : ℕ) (c : TtlCache V)
      → let touched = Dict.remove key c.entries ++ (key, Cache.fresh value ttl now) ∷ [] in
        (Cache.set key value ttl now c).entries ≡ drop (length touched - c.max_entries) touched
  unfolding Cache.set
  set-entries key value ttl now c = rw (move_to_end-put key (Cache.fresh value ttl now) c.entries) (
      evict-drop c.max_entries (Dict.remove key c.entries ++ (key, Cache.fresh value ttl now) ∷ []))

  -- A write keeps the cache within its limit, with each key once.
  set-IsValid :
      (key : Text) (value : V) (ttl now : ℕ) (c : TtlCache V)
      → IsValid c
      → IsValid (Cache.set key value ttl now c)
  set-IsValid key value ttl now c h =
      let touched : Dict Text (CacheEntry V) =
        Dict.remove key c.entries ++ (key, Cache.fresh value ttl now) ∷ [] in
      let e : (Cache.set key value ttl now c).entries
          ≡ drop (length touched - c.max_entries) touched =
        set-entries key value ttl now c in
      record {
        positive = unfold Cache.set in h.positive;
        bounded =
            unfold Cache.set in
            omega (
              arith,
              ap (length {A = Text × CacheEntry V}) e,
              length-drop (length touched - c.max_entries) touched,
            );
        distinct =
            subst (λ d. Distinct (Dict.keys d)) (sym e)
              (drop-Distinct (length touched - c.max_entries) touched
                (touched-Distinct key (Cache.fresh value ttl now) c.entries h.distinct));
      }

  module _ (key : Text) (now : ℕ) (c : TtlCache V) where
    pub get-miss : Dict.get key c.entries ≡ none → Cache.get key now c ≡ (c, none)
    unfolding Cache.get
    get-miss h = rw (h, Cache.get)

    pub get-expired :
        (entry : CacheEntry V)
        → Dict.get key c.entries ≡ some entry
        → leb entry.expires_at now ≡ true
        → Cache.get key now c ≡ (record c { entries = Dict.remove key c.entries }, none)
    unfolding Cache.get
    get-expired entry h old = rw (h, Cache.get) (rw old)

    pub get-live :
        (entry : CacheEntry V)
        → Dict.get key c.entries ≡ some entry
        → leb entry.expires_at now ≡ false
        → Cache.get key now c
          ≡ (record c { entries = Dict.remove key c.entries ++ (key, entry) ∷ [] }, some entry)
    unfolding Cache.get
    get-live entry h live = rw (h, Cache.get) (rw live (rw (move_to_end-get key entry c.entries h)))

    length-touched :
        (entry : CacheEntry V)
        → Dict.get key c.entries ≡ some entry
        → length (Dict.remove key c.entries ++ (key, entry) ∷ []) ≡ length c.entries
    length-touched entry h = ground (
      arith,
      length-append (Dict.remove key c.entries) ((key, entry) ∷ []),
      Dict.length-remove key c.entries,
      Dict.contains_of_get key c.entries h,
    )

    pub get-IsValid : IsValid c → IsValid (Cache.get key now c).0
    get-IsValid v = elim (Option-cases (Dict.get key c.entries)) [
      | inl miss ↦ rw (get-miss miss) v
      | inr (entry, hit) ↦ elim (Bool-cases (leb entry.expires_at now)) [
        | inl old ↦ rw (get-expired entry hit old) (record {
          positive = v.positive;
          bounded = ground (arith, Dict.length-remove key c.entries);
          distinct = Dict.remove-Distinct key c.entries v.distinct;
        })
        | inr live ↦ rw (get-live entry hit live) (record {
          positive = v.positive;
          bounded = omega (arith, length-touched entry hit);
          distinct = touched-Distinct key entry c.entries v.distinct;
        })
      ]
    ]
