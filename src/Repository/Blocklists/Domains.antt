-- ===== src/Repository/Blocklists/Domains.antt =====
-- src/mirenai/repository/blocklists.py: the table of the domains, in the order of the ids. Its
-- unique key is the list and the domain, and its other column is `first_seen`.
use mirenai.Prelude.{
  All, Bool, List, Option, [], ap, arith, contains, drop, false, if◌then◌else◌, length, length-drop,
  length-take-le, list_eq, ltb, nat_eq, none, not, pair_eq, refl, some, suc, take, true, zero, ℕ,
  ◌&&◌, ◌++◌, ◌<◌, ◌==◌, ◌||◌, ◌∙◌, ◌∷◌, ◌≡◌, ◌≤◌,
}
use mirenai.Python.Dict.{Dict}
use mirenai.Python.Text.{Text}
use mirenai.Repository.Blocklists.{Blocklist, get_blocklist}
use mirenai.Repository.Rows.{other_rows}
use mirenai.Repository.Select.{order_by, page_rows, where_rows}
use mirenai.Repository.Texts.{text_ltb}

abbrev pub DomainKey : Type 0
DomainKey = ℕ × Text

abbrev pub DomainTable : Type 0
DomainTable = Dict DomainKey ℕ

abbrev pub match_chunk : ℕ
match_chunk = 500

-- `for start in range(0, len(xs), size): chunk = xs[start : start + size]`, on fuel
module _ {A : Type 0} where
  unfoldable pub chunk_loop : ℕ → ℕ → List A → List (List A)
  chunk_loop size zero xs = []
  chunk_loop size (suc fuel) [] = []
  chunk_loop size (suc fuel) (x ∷ xs) =
      take size (x ∷ xs) ∷ chunk_loop size fuel (drop size (x ∷ xs))

  unfoldable pub chunks : ℕ → List A → List (List A)
  chunks size xs = chunk_loop size (length xs) xs

  abbrev pub joined : List (List A) → List A
  joined [] = []
  joined (c ∷ cs) = c ++ joined cs

  take-append-drop : (n : ℕ) (xs : List A) → take n xs ++ drop n xs ≡ xs
  take-append-drop zero xs = refl
  take-append-drop (suc n) [] = refl
  take-append-drop (suc n) (x ∷ xs) = ap (◌∷◌ x) (take-append-drop n xs)

  chunk_loop-joined :
      (size fuel : ℕ) (xs : List A)
      → 0 < size
      → length xs ≤ fuel
      → joined (chunk_loop size fuel xs) ≡ xs
  unfolding chunk_loop
  chunk_loop-joined size zero [] p h = refl
  chunk_loop-joined size zero (x ∷ xs) p h = absurd (omega arith)
  chunk_loop-joined size (suc fuel) [] p h = refl
  chunk_loop-joined size (suc fuel) (x ∷ xs) p h =
      ap (λ ys. take size (x ∷ xs) ++ ys)
        (chunk_loop-joined size fuel (drop size (x ∷ xs)) p
          (omega (arith, length-drop size (x ∷ xs))))
      ∙ take-append-drop size (x ∷ xs)

  -- The chunks are the whole list, so the fuel is enough.
  pub chunks-joined : (size : ℕ) (xs : List A) → 0 < size → joined (chunks size xs) ≡ xs
  unfolding chunks
  chunks-joined size xs p = chunk_loop-joined size (length xs) xs p (omega arith)

  pub chunk_loop-length :
      (size fuel : ℕ) (xs : List A) → All (λ c. length c ≤ size) (chunk_loop size fuel xs)
  unfolding chunk_loop
  chunk_loop-length size zero xs = tt
  chunk_loop-length size (suc fuel) [] = tt
  chunk_loop-length size (suc fuel) (x ∷ xs) =
      (length-take-le size (x ∷ xs), chunk_loop-length size fuel (drop size (x ∷ xs)))

-- the domains of a list
abbrev pub domains_of : ℕ → DomainTable → List Text
domains_of id [] = []
domains_of id ((k, s) ∷ t) = let rest = domains_of id t in if k.0 == id then k.1 ∷ rest else rest

-- `_delete_domains`
unfoldable pub delete_domains : ℕ → DomainTable → DomainTable
delete_domains id t = where_rows (λ x. not (x.0.0 == id)) t

unfoldable pub delete_chunk : ℕ → List Text → DomainTable → DomainTable
delete_chunk id chunk t = where_rows (λ x. not (x.0.0 == id && contains chunk x.0.1)) t

abbrev pub delete_chunks : ℕ → List (List Text) → DomainTable → DomainTable
delete_chunks id [] t = t
delete_chunks id (c ∷ cs) t = delete_chunks id cs (delete_chunk id c t)

-- `set(xs) - set(ys)`; the order of a set is open, here it is that of the list.
abbrev pub difference : List Text → List Text → List Text
difference [] ys = []
difference (x ∷ xs) ys =
    let rest = difference xs ys in if contains ys x || contains rest x then rest else x ∷ rest

-- `insert(BlocklistDomain)` of new rows
abbrev pub new_rows : ℕ → ℕ → List Text → DomainTable
new_rows now id [] = []
new_rows now id (d ∷ ds) = ((id, d), now) ∷ new_rows now id ds

unfoldable pub replace_domains : ℕ → ℕ → List Text → DomainTable → DomainTable
replace_domains now id domains t =
    let existing = domains_of id t in
    let removed = difference existing domains in
    let added = difference domains existing in
    delete_chunks id (chunks match_chunk removed) t ++ new_rows now id added

-- `delete_blocklist`: the row of the list, then its domains, unless the id is unknown
unfoldable pub delete_blocklist :
    ℕ → List Blocklist → DomainTable → (List Blocklist × DomainTable) × Bool
delete_blocklist id bs t = elim (get_blocklist id bs) [
  | none ↦ ((bs, t), false)
  | some b ↦ ((other_rows (λ (b : Blocklist). b.id) id bs, delete_domains id t), true)
]

-- `list_domains`, `count_domains`
unfoldable pub list_domains : ℕ → Option ℕ → ℕ → DomainTable → List Text
list_domains id limit offset t =
    page_rows limit offset (order_by (λ x y. not (text_ltb y x)) (domains_of id t))

unfoldable pub count_domains : ℕ → DomainTable → ℕ
count_domains id t = length (domains_of id t)

abbrev pub id_ok : Option ℕ → ℕ → Bool
id_ok none id = true
id_ok (some i) id = id == i

-- the rows by `first_seen` and then by id, newest first: an earlier row gives way to an equal one
unfoldable pub list_new_domains : Option ℕ → ℕ → Option ℕ → DomainTable → DomainTable
list_new_domains limit offset id t =
    page_rows limit offset (order_by (λ x y. ltb y.1 x.1) (where_rows (λ x. id_ok id x.0.0) t))

unfoldable pub count_new_domains : Option ℕ → DomainTable → ℕ
count_new_domains id t = length (where_rows (λ x. id_ok id x.0.0) t)
