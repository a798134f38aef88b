-- ===== src/Policy/Pattern.antt =====
-- What the domain column of a rule matches, and how specific a match is.
use mirenai.Policy.{wildcard, normalize_domain, domain_specificity}
use mirenai.Prelude.{
  Bool-cases, Option, [], ap, arith, drop, false, if◌then◌else◌, inl, inr, length, length-append,
  list_beq_iff, list_eq, nat_beq_iff, nat_eq, none, or-eq-true, pair_eq, refl, some, subst, sym,
  true, ℕ, ◌++◌, ◌+◌, ◌<◌, ◌==◌, ◌||◌, ◌↔◌, ◌∙◌, ◌∷◌, ◌≡◌, ◌≤◌, ◌⊎◌,
}
use mirenai.Python.Str.Affix.{ends_with, ends_with-append, ends_with_sound, starts_with}
use mirenai.Python.Str.Strip.{lower_char, lower_idem, rstrip, rstrip-map, rstrip_of_idem}
use mirenai.Python.Text.{Text, codes}

lower_char-dot : (c : ℕ) → (lower_char c == b'.') ≡ (c == b'.')
unfolding lower_char
lower_char-dot c = ground arith

-- Normalizing a name a second time changes nothing: neither a case nor a trailing dot is left.
pub normalize_domain_idem : (s : Text) → normalize_domain (normalize_domain s) ≡ normalize_domain s
unfolding normalize_domain
normalize_domain_idem s =
    rw (rstrip-map (λ x. x == b'.') lower_char (rstrip b'.' s) lower_char-dot)
      (rw (rstrip_of_idem (λ x. x == b'.') s) (lower_idem (rstrip b'.' s)))

-- A name is the given domain, or lies below it.
abbrev pub Covers : Text → Text → Type 0
Covers d name = (name ≡ d) ⊎ ((p : Text) × (name ≡ p ++ b'.' ∷ d))

pub Covers-ends_with :
    (d name : Text) → (name == d || ends_with name (b'.' ∷ d)) ≡ true → Covers d name
Covers-ends_with d name h = elim (or-eq-true (name == d) (ends_with name (b'.' ∷ d)) h) [
  | inl same ↦ inl ((list_beq_iff name d).0 same)
  | inr below ↦ inr (ends_with_sound name (b'.' ∷ d) below)
]

pub ends_with-Covers :
    (d name : Text) → Covers d name → (name == d || ends_with name (b'.' ∷ d)) ≡ true
ends_with-Covers d name (inl e) = ground (arith, list_beq_iff name d)
ends_with-Covers d name (inr (p, e)) = rw e (ground (arith, ends_with-append p (b'.' ∷ d)))

-- The grammar of the column, read independently of the code: `*`, `*.suffix`, or an exact name.
abbrev pub Matches : Text → Text → Type 0
Matches pattern name =
    (pattern ≡ codes "*")
    ⊎ ((suffix : Text) × (pattern ≡ codes "*." ++ suffix) × Covers suffix name)
    ⊎ (pattern ≡ name)

pub starts_with_sound : (s p : Text) → starts_with s p ≡ true → s ≡ p ++ drop (length p) s
starts_with_sound s [] h = refl
starts_with_sound [] (c ∷ p) h = cc
starts_with_sound (x ∷ s) (c ∷ p) h = ground (arith, nat_beq_iff x c, starts_with_sound s p)

-- The score that the code gives to a pattern, by the shape of the pattern.
score : Text → Text → Option ℕ
unfolding domain_specificity
score pattern name =
    if pattern == wildcard
    then some 0
    else if starts_with pattern (codes "*.")
    then (if name == drop 2 pattern || ends_with name (b'.' ∷ drop 2 pattern)
        then some (1000 + length (drop 2 pattern))
        else none)
    else if pattern == name
    then some 1_000_000
    else none

specificity-score : (d name : Text) → domain_specificity d name ≡ score (normalize_domain d) name
unfolding domain_specificity score normalize_domain
specificity-score d name = refl

score-Matches : (pattern name : Text) {s : ℕ} → score pattern name ≡ some s → Matches pattern name
unfolding score
score-Matches pattern name h = elim (Bool-cases (pattern == wildcard)) [
  | inl all ↦ inl ((list_beq_iff pattern wildcard).0 all)
  | inr some_name ↦ elim (Bool-cases (starts_with pattern (codes "*."))) [
    | inl below ↦ inr (
        inl (
          drop 2 pattern,
          starts_with_sound pattern (codes "*.") below,
          Covers-ends_with (drop 2 pattern) name (ground arith),
        ))
    | inr exact ↦ inr (inr ((list_beq_iff pattern name).0 (ground arith)))
  ]
]

score-suffix :
    (suffix name : Text)
    → Covers suffix name
    → (s : ℕ) × (score (codes "*." ++ suffix) name ≡ some s)
unfolding score
score-suffix suffix name c = (1000 + length suffix, rw (ends_with-Covers suffix name c))

-- An exact name that begins with `*.` is matched as a suffix.
Covers-of_exact :
    (pattern : Text) → starts_with pattern (codes "*.") ≡ true → Covers (drop 2 pattern) pattern
Covers-of_exact pattern h = inr (codes "*", starts_with_sound pattern (codes "*.") h)

Matches-score :
    (pattern name : Text) → Matches pattern name → (s : ℕ) × (score pattern name ≡ some s)
unfolding score
Matches-score pattern name (inl e) = (0, rw e)
Matches-score pattern name (inr (inl (suffix, e, c))) =
    subst (λ p. (s : ℕ) × (score p name ≡ some s)) (sym e) (score-suffix suffix name c)
Matches-score pattern name (inr (inr e)) = elim (Bool-cases (starts_with pattern (codes "*."))) [
  | inl below ↦
      let c : Covers (drop 2 pattern) name =
        subst (Covers (drop 2 pattern)) e (Covers-of_exact pattern below) in
      let m = ends_with-Covers (drop 2 pattern) name c in
      elim (Bool-cases (pattern == wildcard)) [
        | inl all ↦ (0, rw all)
        | inr other ↦ (1000 + length (drop 2 pattern), rw other (rw below (rw m)))
      ]
  | inr exact ↦ elim (Bool-cases (pattern == wildcard)) [
    | inl all ↦ (0, rw all)
    | inr other ↦ (1_000_000, rw other (rw exact (rw ((list_beq_iff pattern name).1 e))))
  ]
]

-- A rule applies to a name exactly when its domain column, normalized, matches the name.
domain_specificity-Matches :
    (d name : Text)
    → ((s : ℕ) × (domain_specificity d name ≡ some s)) ↔ Matches (normalize_domain d) name
domain_specificity-Matches d name = (
  (λ p. score-Matches (normalize_domain d) name (rw (specificity-score d name) at p.1)),
  (λ m. rw (specificity-score d name) (Matches-score (normalize_domain d) name m)),
)

length-Covers : (d name : Text) → Covers d name → length d ≤ length name
length-Covers d name (inl e) = omega (arith, ap (length {A = ℕ}) e)
length-Covers d name (inr (p, e)) = omega (arith, ap (length {A = ℕ}) e, length-append p (b'.' ∷ d))

score-suffix_value :
    (suffix name : Text) {t : ℕ}
    → score (codes "*." ++ suffix) name ≡ some t
    → (t ≡ 1000 + length suffix) × (length suffix ≤ length name)
unfolding score
score-suffix_value suffix name h =
    (ground arith, length-Covers suffix name (Covers-ends_with suffix name (ground arith)))

wildcard_zero : (name : Text) {t : ℕ} → score (codes "*") name ≡ some t → t ≡ 0
unfolding score
wildcard_zero name h = ground arith

score-le :
    (pattern name : Text) {t : ℕ}
    → score pattern name ≡ some t
    → (pattern ≡ name) ⊎ (t ≤ 1000 + length name)
score-le pattern name {t} h = elim (score-Matches pattern name h) [
  | inl e ↦ inr (le_of_wildcard e)
  | inr (inl (suffix, e, c)) ↦ inr (le_of_suffix suffix e)
  | inr (inr e) ↦ inl e
]
  where
    le_of_wildcard : pattern ≡ codes "*" → t ≤ 1000 + length name
    le_of_wildcard e = omega (arith, wildcard_zero name (rw e at h))

    le_of_suffix : (suffix : Text) → pattern ≡ codes "*." ++ suffix → t ≤ 1000 + length name
    le_of_suffix suffix e = let (v, le) = score-suffix_value suffix name (rw e at h) in omega arith

exact_score :
    (name : Text) → starts_with name (codes "*") ≡ false → score name name ≡ some 1_000_000
unfolding score
exact_score [] h = refl
exact_score (x ∷ name) h = ground (arith, list_beq_iff name name, nat_beq_iff x x)

-- A rule for the exact name scores above every other pattern that matches, as long as the name is
-- shorter than 999000 characters: only another spelling of the same name scores as high.
pub exact_is_most_specific :
    (a b name : Text) (s t : ℕ)
    → normalize_domain a ≡ name
    → starts_with name (codes "*") ≡ false
    → length name < 999_000
    → domain_specificity a name ≡ some s
    → domain_specificity b name ≡ some t
    → (normalize_domain b ≡ name) ⊎ (t < s)
exact_is_most_specific a b name s t e plain short ha hb =
    let top : some 1_000_000 ≡ some s =
      sym (exact_score name plain)
      ∙ sym (ap (λ p. score p name) e)
      ∙ sym (specificity-score a name)
      ∙ ha in
    elim (score-le (normalize_domain b) name (sym (specificity-score b name) ∙ hb)) [
      | inl same ↦ inl same
      | inr le ↦ inr (ground arith)
    ]

-- Of two suffix patterns that match the same name, the longer has the higher score.
pub longer_suffix_wins :
    (a b p q name : Text) (s t : ℕ)
    → normalize_domain a ≡ codes "*." ++ p
    → normalize_domain b ≡ codes "*." ++ q
    → domain_specificity a name ≡ some s
    → domain_specificity b name ≡ some t
    → (s < t) ↔ (length p < length q)
longer_suffix_wins a b p q name s t ea eb ha hb =
    let (v, _) = score-suffix_value p name (rw (specificity-score, ea) at ha) in
    let (w, _) = score-suffix_value q name (rw (specificity-score, eb) at hb) in
    ((λ h. omega arith), (λ h. omega arith))
