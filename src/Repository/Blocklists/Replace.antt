-- ===== src/Repository/Blocklists/Replace.antt =====
-- What the replacement of the domains of a blocklist does to the table.
use mathlib.Core.List.{append_assoc}
use mirenai.Python.Dict
use mirenai.Prelude.{
  All, Bool, Bool-cases, Distinct, List, Option, [], ap, arith, contains, contains-append, false,
  if◌then◌else◌, inl, inr, list_beq_iff, list_eq, nat_beq_iff, nat_eq, none, not, pair_beq_iff,
  pair_eq, refl, some, true, ℕ, ◌&&◌, ◌++◌, ◌==◌, ◌||◌, ◌∙◌, ◌∷◌, ◌≡◌,
}
use mirenai.Python.Dict.{Dict}
use mirenai.Python.Text.{Text}
use mirenai.Repository.Blocklists.Domains.{
  DomainKey, DomainTable, chunks, chunks-joined, delete_chunk, delete_chunks, difference,
  domains_of, joined, match_chunk, new_rows, replace_domains,
}
use mirenai.Repository.Select.{get-where_rows, where_rows, where_rows-Distinct}

contains-difference :
    (xs ys : List Text) (d : Text)
    → contains (difference xs ys) d ≡ (contains xs d && not (contains ys d))
contains-difference [] ys d = refl
contains-difference (x ∷ xs) ys d =
    ground (arith, contains-difference xs ys d, contains-difference xs ys x, list_beq_iff x d)

difference-Distinct : (xs ys : List Text) → Distinct (difference xs ys)
difference-Distinct [] ys = tt
difference-Distinct (x ∷ xs) ys =
    elim (Bool-cases (contains ys x || contains (difference xs ys) x)) [
      | inl old ↦ rw old (difference-Distinct xs ys)
      | inr new ↦ rw new (ground arith, difference-Distinct xs ys)
    ]

contains-domains_of :
    (id : ℕ) (d : Text) (t : DomainTable)
    → contains (domains_of id t) d ≡ contains (Dict.keys t) (id, d)
contains-domains_of id d [] = refl
contains-domains_of id d ((k, s) ∷ t) = ground (arith, contains-domains_of id d t)

get-delete_chunks :
    (id : ℕ) (cs : List (List Text)) (t : DomainTable) (j : ℕ) (d : Text)
    → Dict.get (j, d) (delete_chunks id cs t)
      ≡ (if j == id && contains (joined cs) d then none else Dict.get (j, d) t)
unfolding delete_chunk
get-delete_chunks id [] t j d = ground arith
get-delete_chunks id (c ∷ cs) t j d = ground (
  arith,
  get-delete_chunks id cs (delete_chunk id c t) j d,
  get-where_rows (λ (x : DomainKey × ℕ). not (x.0.0 == id && contains c x.0.1))
      (λ k. not (k.0 == id && contains c k.1)) (λ x. refl) (j, d) t,
  contains-append c (joined cs) d,
)

delete_chunks-Distinct :
    (id : ℕ) (cs : List (List Text)) (t : DomainTable)
    → Distinct (Dict.keys t)
    → Distinct (Dict.keys (delete_chunks id cs t))
unfolding delete_chunk
delete_chunks-Distinct id [] t u = u
delete_chunks-Distinct id (c ∷ cs) t u =
    delete_chunks-Distinct id cs (delete_chunk id c t)
      (where_rows-Distinct (λ x. not (x.0.0 == id && contains c x.0.1)) t u)

get-append :
    (k : DomainKey) (t u : DomainTable)
    → Dict.get k (t ++ u) ≡ (elim (Dict.get k t) [ none ↦ Dict.get k u | some s ↦ some s ])
unfolding Dict.get
get-append k [] u = refl
get-append k ((j, s) ∷ t) u = ground (arith, get-append k t u)

get-new_rows :
    (now id : ℕ) (ds : List Text) (j : ℕ) (d : Text)
    → Dict.get (j, d) (new_rows now id ds) ≡ (if j == id && contains ds d then some now else none)
unfolding Dict.get
get-new_rows now id [] j d = ground arith
get-new_rows now id (x ∷ ds) j d =
    ground (arith, get-new_rows now id ds j d, nat_beq_iff id j, nat_beq_iff j id)

-- The first time that a domain was on the list, or now.
abbrev pub kept_or_new : ℕ → Option ℕ → ℕ
kept_or_new now none = now
kept_or_new now (some first_seen) = first_seen

-- The replacement leaves a list with just the given domains: one that stays keeps the time it was
-- first seen, and a new one gets the time now. The domains of the other lists stay as they are.
pub get-replace_domains :
    (now id : ℕ) (domains : List Text) (t : DomainTable) (j : ℕ) (d : Text)
    → Dict.get (j, d) (replace_domains now id domains t) ≡ (
        if j == id
        then (if contains domains d then some (kept_or_new now (Dict.get (id, d) t)) else none)
        else Dict.get (j, d) t)
unfolding replace_domains
get-replace_domains now id domains t j d =
    let existing = domains_of id t in
    let removed = difference existing domains in
    let deleted = delete_chunks id (chunks match_chunk removed) t in
    let added = difference domains existing in
    let left : Dict.get (j, d) deleted
        ≡ (if j == id && contains removed d then none else Dict.get (j, d) t) =
      rw (chunks-joined match_chunk removed (omega arith)) at
        (get-delete_chunks id (chunks match_chunk removed) t j d) in
    get-append (j, d) deleted (new_rows now id added)
    ∙ ground (
      arith,
      left,
      get-new_rows now id added j d,
      contains-difference existing domains d,
      contains-difference domains existing d,
      contains-domains_of id d t,
      Dict.contains-keys (id, d) t,
      nat_beq_iff j id,
    )

contains-new_rows :
    (now id : ℕ) (ds : List Text) (k : DomainKey)
    → contains (Dict.keys (new_rows now id ds)) k ≡ (id == k.0 && contains ds k.1)
contains-new_rows now id [] k = ground arith
contains-new_rows now id (x ∷ ds) k = ground (arith, contains-new_rows now id ds k)

new_rows-Distinct :
    (now id : ℕ) (ds : List Text) → Distinct ds → Distinct (Dict.keys (new_rows now id ds))
new_rows-Distinct now id [] u = tt
new_rows-Distinct now id (x ∷ ds) u =
    (ground (arith, contains-new_rows now id ds (id, x)), new_rows-Distinct now id ds u.1)

keys-append : (t u : DomainTable) → Dict.keys (t ++ u) ≡ Dict.keys t ++ Dict.keys u
keys-append [] u = refl
keys-append ((k, s) ∷ t) u = ap (◌∷◌ k) (keys-append t u)

append-Distinct :
    (xs ys : List DomainKey)
    → Distinct xs
    → Distinct ys
    → All (λ x. contains ys x ≡ false) xs
    → Distinct (xs ++ ys)
append-Distinct [] ys u v h = v
append-Distinct (x ∷ xs) ys u v h =
    (ground (arith, contains-append xs ys x), append-Distinct xs ys u.1 v h.1)

-- No new row has the key of a row that is there.
new_rows-apart :
    (now id : ℕ) (domains : List Text) (ks : List DomainKey) (t : DomainTable)
    → All (λ k. contains (Dict.keys t) k ≡ true) ks
    → All
        (λ k.
          contains (Dict.keys (new_rows now id (difference domains (domains_of id t)))) k ≡ false)
        ks
new_rows-apart now id domains [] t h = tt
new_rows-apart now id domains (k ∷ ks) t h = (
  ground (
    arith,
    contains-new_rows now id (difference domains (domains_of id t)) k,
    contains-difference domains (domains_of id t) k.1,
    contains-domains_of id k.1 t,
    nat_beq_iff id k.0,
    h.0,
  ),
  new_rows-apart now id domains ks t h.1,
)

-- The rows that are deleted leave only rows that were there.
where_rows-among :
    (test : DomainKey × ℕ → Bool) (t u : DomainTable)
    → All (λ k. contains (Dict.keys u) k ≡ true) (Dict.keys t)
    → All (λ k. contains (Dict.keys u) k ≡ true) (Dict.keys (where_rows test t))
where_rows-among test [] u h = tt
where_rows-among test ((k, s) ∷ t) u h = elim (Bool-cases (test (k, s))) [
  | inl e ↦ rw e (h.0, where_rows-among test t u h.1)
  | inr e ↦ rw e (where_rows-among test t u h.1)
]

delete_chunks-among :
    (id : ℕ) (cs : List (List Text)) (t u : DomainTable)
    → All (λ k. contains (Dict.keys u) k ≡ true) (Dict.keys t)
    → All (λ k. contains (Dict.keys u) k ≡ true) (Dict.keys (delete_chunks id cs t))
unfolding delete_chunk
delete_chunks-among id [] t u h = h
delete_chunks-among id (c ∷ cs) t u h =
    delete_chunks-among id cs (delete_chunk id c t) u
      (where_rows-among (λ x. not (x.0.0 == id && contains c x.0.1)) t u h)

keys-among : (ks ls : List DomainKey) → All (λ k. contains (ks ++ ls) k ≡ true) ls
keys-among ks [] = tt
keys-among ks (l ∷ ls) = (
  ground (arith, contains-append ks (l ∷ ls) l, pair_beq_iff l l),
  rw (append_assoc ks (l ∷ []) ls) at (keys-among (ks ++ l ∷ []) ls),
)

-- The insertion never meets the constraint that list and domain are unique.
pub replace_domains-Distinct :
    (now id : ℕ) (domains : List Text) (t : DomainTable)
    → Distinct (Dict.keys t)
    → Distinct (Dict.keys (replace_domains now id domains t))
unfolding replace_domains
replace_domains-Distinct now id domains t u =
    let existing = domains_of id t in
    let deleted = delete_chunks id (chunks match_chunk (difference existing domains)) t in
    let fresh = new_rows now id (difference domains existing) in
    rw (keys-append deleted fresh) (
      append-Distinct (Dict.keys deleted) (Dict.keys fresh)
        (delete_chunks-Distinct id (chunks match_chunk (difference existing domains)) t u)
        (new_rows-Distinct now id (difference domains existing)
          (difference-Distinct domains existing))
        (new_rows-apart now id domains (Dict.keys deleted) t (
          delete_chunks-among id (chunks match_chunk (difference existing domains)) t t
            (keys-among [] (Dict.keys t)))))
