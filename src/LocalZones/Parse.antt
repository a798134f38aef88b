-- ===== src/LocalZones/Parse.antt =====
-- src/mirenai/domain/localzones.py: what a parsed zone holds.
use mirenai.LocalZones.{
  LocalRecord, line_records, add_records, add_zone_lines, parse_zone, keys_of, record_key,
  RecordKey,
}
use mirenai.Prelude.{
  Bool-cases, Distinct, List, Option-cases, [], ap, arith, contains, contains-append, false, inl,
  inr, list_beq_iff, list_eq, nat_eq, none, pair_beq_iff, pair_eq, refl, snoc-Distinct, some, subst,
  sym, true, ℕ, ◌++◌, ◌==◌, ◌||◌, ◌↔◌, ◌∙◌, ◌∷◌, ◌≡◌, ◌⊎◌,
}
use mirenai.Python.Str.Split.{splitlines}
use mirenai.Python.Text.{Text}

keys_of-append : (rs ss : List LocalRecord) → keys_of (rs ++ ss) ≡ keys_of rs ++ keys_of ss
keys_of-append [] ss = refl
keys_of-append (r ∷ rs) ss = ap (λ ks. record_key r ∷ ks) (keys_of-append rs ss)

contains-add_records :
    (records rs : List LocalRecord) (k : RecordKey)
    → contains (keys_of (add_records records rs)) k
      ≡ (contains (keys_of records) k || contains (keys_of rs) k)
unfolding add_records
contains-add_records records [] k = ground arith
contains-add_records records (r ∷ rs) k = ground (
  arith,
  contains-add_records records rs k,
  contains-add_records (records ++ r ∷ []) rs k,
  keys_of-append records (r ∷ []),
  contains-append (keys_of records) (record_key r ∷ []) k,
  pair_beq_iff (record_key r) k,
)

add_records-Distinct :
    (records rs : List LocalRecord)
    → Distinct (keys_of records)
    → Distinct (keys_of (add_records records rs))
unfolding add_records
add_records-Distinct records [] h = h
add_records-Distinct records (r ∷ rs) h =
    elim (Bool-cases (contains (keys_of records) (record_key r))) [
      | inl old ↦ rw old (add_records-Distinct records rs h)
      | inr new ↦ rw new (
          add_records-Distinct (records ++ r ∷ []) rs (
            rw (keys_of-append records (r ∷ []))
              (snoc-Distinct (keys_of records) (record_key r) h new)))
    ]

-- A line gives a record with this name, type and value.
abbrev pub Gives : ℕ → Text → RecordKey → Type 0
Gives default line k =
    (rs : List LocalRecord) × (line_records default line ≡ some rs)
    × (contains (keys_of rs) k ≡ true)

module _ (default : ℕ) where
  lines-miss :
      (records : List LocalRecord) (l : Text) (ls : List Text)
      → line_records default l ≡ none
      → add_zone_lines default records (l ∷ ls) ≡ none
  unfolding add_zone_lines
  lines-miss records l ls h = rw (h, add_zone_lines) refl

  lines-hit :
      (records rs : List LocalRecord) (l : Text) (ls : List Text)
      → line_records default l ≡ some rs
      → add_zone_lines default records (l ∷ ls) ≡ add_zone_lines default (add_records records rs) ls
  unfolding add_zone_lines
  lines-hit records rs l ls h = rw (h, add_zone_lines) refl

  lines-Distinct :
      (records : List LocalRecord) (ls : List Text) {all : List LocalRecord}
      → add_zone_lines default records ls ≡ some all
      → Distinct (keys_of records)
      → Distinct (keys_of all)
  unfolding add_zone_lines
  lines-Distinct records [] e h = subst (λ rs. Distinct (keys_of rs)) (ground arith) h
  lines-Distinct records (l ∷ ls) e h = elim (Option-cases (line_records default l)) [
    | inl bad ↦ absurd (ground (arith, lines-miss records l ls bad))
    | inr (rs, ok) ↦
        lines-Distinct (add_records records rs) ls (sym (lines-hit records rs l ls ok) ∙ e)
          (add_records-Distinct records rs h)
  ]

  lines-given :
      (records : List LocalRecord) (ls : List Text) {all : List LocalRecord} (k : RecordKey)
      → add_zone_lines default records ls ≡ some all
      → contains (keys_of all) k ≡ true
      → (contains (keys_of records) k ≡ true)
        ⊎ ((l : Text) × (contains ls l ≡ true) × Gives default l k)
  unfolding add_zone_lines
  lines-given records [] k e h = inl (subst (λ rs. contains (keys_of rs) k ≡ true) (ground arith) h)
  lines-given records (l ∷ ls) k e h = elim (Option-cases (line_records default l)) [
    | inl bad ↦ absurd (ground (arith, lines-miss records l ls bad))
    | inr (rs, ok) ↦
        elim (lines-given (add_records records rs) ls k (sym (lines-hit records rs l ls ok) ∙ e)
          h) [
            | inl old ↦ elim (Bool-cases (contains (keys_of records) k)) [
              | inl first ↦ inl first
              | inr other ↦ inr (
                l,
                (ground (arith, list_beq_iff l l)),
                (rs, ok, (ground (arith, contains-add_records records rs k))),
              )
            ]
            | inr (m, inside, gives) ↦ inr (m, (ground arith), gives)
          ]
  ]

  -- what is true of the records so far and of the lines, after the first line
  kept :
      (records rs : List LocalRecord) (l : Text) (ls : List Text) (k : RecordKey)
      → line_records default l ≡ some rs
      → (contains (keys_of records) k ≡ true)
        ⊎ ((m : Text) × (contains (l ∷ ls) m ≡ true) × Gives default m k)
      → (contains (keys_of (add_records records rs)) k ≡ true)
        ⊎ ((m : Text) × (contains ls m ≡ true) × Gives default m k)
  kept records rs l ls k ok (inl old) = inl (ground (arith, contains-add_records records rs k))
  kept records rs l ls k ok (inr (m, inside, (ss, given, holds))) = elim (Bool-cases (l == m)) [
    | inl same ↦
        let e : l ≡ m = (list_beq_iff l m).0 same in
        inl (ground (arith, contains-add_records records rs k))
    | inr other ↦ inr (m, (ground arith), (ss, given, holds))
  ]

  lines-keep :
      (records : List LocalRecord) (ls : List Text) {all : List LocalRecord} (k : RecordKey)
      → add_zone_lines default records ls ≡ some all
      → (contains (keys_of records) k ≡ true)
        ⊎ ((l : Text) × (contains ls l ≡ true) × Gives default l k)
      → contains (keys_of all) k ≡ true
  unfolding add_zone_lines
  lines-keep records [] k e (inl h) = subst (λ rs. contains (keys_of rs) k ≡ true) (ground arith) h
  lines-keep records [] k e (inr (m, inside, gives)) = absurd (cc)
  lines-keep records (l ∷ ls) k e h = elim (Option-cases (line_records default l)) [
    | inl bad ↦ absurd (ground (arith, lines-miss records l ls bad))
    | inr (rs, ok) ↦
        lines-keep (add_records records rs) ls k (sym (lines-hit records rs l ls ok) ∙ e)
          (kept records rs l ls k ok h)
  ]

  lines-raise :
      (records : List LocalRecord) (ls : List Text)
      → add_zone_lines default records ls ≡ none
      → (l : Text) × (contains ls l ≡ true) × (line_records default l ≡ none)
  unfolding add_zone_lines
  lines-raise records [] e = absurd (cc)
  lines-raise records (l ∷ ls) e = elim (Option-cases (line_records default l)) [
    | inl bad ↦ (l, (ground (arith, list_beq_iff l l)), bad)
    | inr (rs, ok) ↦
        let (m, inside, bad) =
          lines-raise (add_records records rs) ls (sym (lines-hit records rs l ls ok) ∙ e) in
        (m, (ground arith), bad)
  ]

  raise-lines :
      (records : List LocalRecord) (ls : List Text) (l : Text)
      → contains ls l ≡ true
      → line_records default l ≡ none
      → add_zone_lines default records ls ≡ none
  raise-lines records [] l inside bad = absurd (cc)
  raise-lines records (m ∷ ls) l inside bad = elim (Option-cases (line_records default m)) [
    | inl no_records ↦ lines-miss records m ls no_records
    | inr (rs, ok) ↦
        lines-hit records rs m ls ok
        ∙ raise-lines (add_records records rs) ls l (ground (arith, list_beq_iff m l)) bad
  ]

absent_left : {A : Type 0} → (false ≡ true) ⊎ A → A
absent_left (inl h) = absurd (cc)
absent_left (inr a) = a

-- A zone's records are unique by name, type and value; they are exactly those that its lines give;
-- and parsing raises exactly if a line does.
pub parse_zone-exact :
    (text : Text) (default : ℕ)
    → ((rs : List LocalRecord)
        → parse_zone text default ≡ some rs
        → Distinct (keys_of rs)
          × ((k : RecordKey)
              → (contains (keys_of rs) k ≡ true)
                ↔ ((l : Text) × (contains (splitlines text) l ≡ true) × Gives default l k)))
      × ((parse_zone text default ≡ none)
          ↔ ((l : Text) × (contains (splitlines text) l ≡ true) × (line_records default l ≡ none)))
unfolding parse_zone
parse_zone-exact text default = (
  (λ rs e. (
    lines-Distinct default [] (splitlines text) e tt,
    (λ k. (
      (λ h. absent_left (lines-given default [] (splitlines text) k e h)),
      (λ g. lines-keep default [] (splitlines text) k e (inr g)),
    )),
  )),
  (
    (λ e. lines-raise default [] (splitlines text) e),
    (λ (l, inside, bad). raise-lines default [] (splitlines text) l inside bad),
  ),
)
