-- ===== src/Blocklist/Match.antt =====
-- A name is blocked exactly when it, or a domain above it, is listed.
use mirenai.Policy.Pattern.{Covers}
use mirenai.Blocklist.{is_blocked, domain_suffixes, any_in, joined_tails, is_nil}
use mirenai.Prelude.{
  Bool-cases, List, [], ap, arith, contains, if◌then◌else◌, inl, inr, list_beq_iff, list_eq, nat_eq,
  or-eq-true, pair_eq, refl, sym, true, ◌==◌, ◌||◌, ◌↔◌, ◌∙◌, ◌∷◌, ◌≡◌, ◌≢◌,
}
use mirenai.Policy.{normalize_domain}
use mirenai.Policy.Pattern.{Covers-ends_with, ends_with-Covers}
use mirenai.Python.Str.Affix.{ends_with}
use mirenai.Python.Str.Split.{join, join-split, split, split-char, split-ne-nil, split-sep}
use mirenai.Python.Text.{Text}

-- the parts of a name behind each of its dots
parents : Text → List Text
parents [] = []
parents (x ∷ s) = if x == b'.' then s ∷ parents s else parents s

tail_of : List Text → List Text
tail_of [] = []
tail_of (x ∷ xs) = xs

joined_tails-cons :
    {t l : Text} {ls : List Text}
    → split b'.' t ≡ l ∷ ls
    → joined_tails (l ∷ ls) ≡ t ∷ joined_tails ls
joined_tails-cons {t} {l} {ls} e =
    ap (λ (h : Text). h ∷ joined_tails ls) (sym (ap (join (b'.' ∷ [])) e) ∙ join-split b'.' t)

tails-parents : (s : Text) → joined_tails (split b'.' s) ≡ s ∷ parents s
unfolding parents tail_of
tails-parents [] = unfold split join in refl
tails-parents (x ∷ s) = elim (Bool-cases (x == b'.')) [
  | inl dot ↦
      let e = split-sep b'.' x s dot in
      ap joined_tails e ∙ joined_tails-cons e ∙ rw dot (ap (◌∷◌ (x ∷ s)) (tails-parents s))
  | inr other ↦
      let (w, ws, h) = split-ne-nil b'.' s in
      let e = split-char b'.' x s other h in
      ap joined_tails e
      ∙ joined_tails-cons e
      ∙ rw other (
          ap (λ l. (x ∷ s) ∷ tail_of l)
            (sym (joined_tails-cons h) ∙ sym (ap joined_tails h) ∙ tails-parents s))
]

contains-parents : (s d : Text) → contains (parents s) d ≡ ends_with s (b'.' ∷ d)
unfolding parents
contains-parents [] d = refl
contains-parents (x ∷ s) d = ground (arith, contains-parents s d)

any_in_sound :
    (blocked ss : List Text)
    → any_in blocked ss ≡ true
    → (d : Text) × (contains blocked d ≡ true) × (contains ss d ≡ true)
any_in_sound blocked [] h = cc
any_in_sound blocked (s ∷ ss) h = elim (or-eq-true (contains blocked s) (any_in blocked ss) h) [
  | inl here ↦ (s, here, ground (arith, list_beq_iff s s))
  | inr later ↦ let (d, b, c) = any_in_sound blocked ss later in (d, b, ground arith)
]

any_in_complete :
    (blocked ss : List Text) (d : Text)
    → contains blocked d ≡ true
    → contains ss d ≡ true
    → any_in blocked ss ≡ true
any_in_complete blocked [] d h k = cc
any_in_complete blocked (s ∷ ss) d h k =
    ground (arith, list_beq_iff s d, any_in_complete blocked ss d)

suffixes-Covers :
    (name d : Text)
    → contains (joined_tails (split b'.' name)) d ≡ (name == d || ends_with name (b'.' ∷ d))
suffixes-Covers name d =
    ap (λ l. contains l d) (tails-parents name) ∙ ap (λ b. name == d || b) (contains-parents name d)

suffixes_of : Text → List Text
suffixes_of name = if is_nil name then [] else joined_tails (split b'.' name)

suffixes_of_sound :
    (blocked : List Text) (name : Text)
    → any_in blocked (suffixes_of name) ≡ true
    → (name ≢ []) × ((d : Text) × (contains blocked d ≡ true) × Covers d name)
unfolding suffixes_of
suffixes_of_sound blocked [] h = cc
suffixes_of_sound blocked (x ∷ s) h =
    let (d, b, c) = any_in_sound blocked (joined_tails (split b'.' (x ∷ s))) h in
    ((λ e. ground arith), (d, b, Covers-ends_with d (x ∷ s) (sym (suffixes-Covers (x ∷ s) d) ∙ c)))

suffixes_of_complete :
    (blocked : List Text) (name d : Text)
    → name ≢ []
    → contains blocked d ≡ true
    → Covers d name
    → any_in blocked (suffixes_of name) ≡ true
unfolding suffixes_of
suffixes_of_complete blocked [] d h b c = absurd (h refl)
suffixes_of_complete blocked (x ∷ s) d h b c =
    any_in_complete blocked (joined_tails (split b'.' (x ∷ s))) d b
      (suffixes-Covers (x ∷ s) d ∙ ends_with-Covers d (x ∷ s) c)

-- A query is blocked exactly when its normalized name is not empty and a listed domain is that
-- name or lies above it.
pub is_blocked-Covers :
    (blocked : List Text) (qname : Text)
    → (is_blocked blocked qname ≡ true) ↔ (
        (normalize_domain qname ≢ [])
        × ((d : Text) × (contains blocked d ≡ true) × Covers d (normalize_domain qname)))
unfolding is_blocked domain_suffixes suffixes_of
is_blocked-Covers blocked qname = (
  (λ h. suffixes_of_sound blocked (normalize_domain qname) h),
  (λ (some_name, (d, b, c)). suffixes_of_complete blocked (normalize_domain qname) d some_name b c),
)
