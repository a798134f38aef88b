-- ===== src/Blocklist/Parse.antt =====
-- What `parse_blocklist` and `apply_overrides` return.
use mirenai.Policy.Pattern.{normalize_domain_idem}
use mirenai.Blocklist.{
  is_valid_domain, extract_domain, extract_adblock_domain, name_token, add_line, add_lines,
  parse_blocklist, apply_overrides, drop_all, valid_or_none,
}
use mirenai.Prelude.{
  Bool, Bool-cases, Distinct, List, Option-cases, [], ap, arith, contains, contains-append, drop,
  false, inl, inr, list_beq_iff, list_eq, nat_eq, none, not, or-eq-true, pair_eq, refl,
  snoc-Distinct, some, subst, sym, true, ◌&&◌, ◌==◌, ◌||◌, ◌↔◌, ◌∙◌, ◌∷◌, ◌≡◌,
}
use mirenai.Blocklist.{is_terminator}
use mirenai.Policy.{normalize_domain}
use mirenai.Python.Str.Affix.{take_until}
use mirenai.Python.Str.Split.{splitlines, words}
use mirenai.Python.Str.Strip.{is_space, strip}
use mirenai.Python.Text.{Text}

-- The name is in the form that the resolver looks up, and is one that a list may hold.
abbrev pub IsListed : Text → Type 0
IsListed d = (is_valid_domain d ≡ true) × (normalize_domain d ≡ d)

valid_or_none-IsListed :
    (name : Text) {d : Text} → valid_or_none (normalize_domain name) ≡ some d → IsListed d
valid_or_none-IsListed name {d} h = elim (Bool-cases (is_valid_domain (normalize_domain name))) [
  | inl valid ↦ subst IsListed (ground arith) (valid, normalize_domain_idem name)
  | inr bad ↦ absurd (ground arith)
]

name_token-IsListed : (ws : List Text) {d : Text} → name_token ws ≡ some d → IsListed d
unfolding name_token
name_token-IsListed [] h = cc
name_token-IsListed (a ∷ []) h = valid_or_none-IsListed a h
name_token-IsListed (a ∷ b ∷ ws) h = valid_or_none-IsListed b h

adblock-IsListed : (line : Text) {d : Text} → extract_adblock_domain line ≡ some d → IsListed d
unfolding extract_adblock_domain
adblock-IsListed line h = valid_or_none-IsListed (take_until is_terminator (drop 2 line)) h

pub extract_domain-IsListed : (line : Text) {d : Text} → extract_domain line ≡ some d → IsListed d
unfolding extract_domain
extract_domain-IsListed raw {d} h =
    let line = strip raw in
    let entry = words is_space (strip (take_until (λ c. c == b'#') line)) in
    ground (arith, adblock-IsListed line {d = d}, name_token-IsListed entry {d = d})

-- What a line adds to the set of the domains.
adds : Text → Text → Bool
adds line d = elim (extract_domain line) [ none ↦ false | some e ↦ e == d ]

contains-add_line :
    (domains : List Text) (line d : Text)
    → contains (add_line domains line) d ≡ (contains domains d || adds line d)
unfolding add_line adds
contains-add_line domains line d = elim (Option-cases (extract_domain line)) [
  | inl absent ↦ rw (absent, add_line, adds) (ground arith)
  | inr (e, found) ↦ elim (Bool-cases (contains domains e)) [
    | inl old ↦ rw (found, add_line, adds) (rw old (ground (arith, list_beq_iff e d)))
    | inr new ↦
        rw (found, add_line, adds) (rw new (ground (arith, contains-append domains (e ∷ []) d)))
  ]
]

adds-extract : (l d : Text) → adds l d ≡ true → extract_domain l ≡ some d
unfolding adds
adds-extract l d h = elim (Option-cases (extract_domain l)) [
  | inl absent ↦ absurd (ground arith)
  | inr (e, found) ↦ found ∙ ap some ((list_beq_iff e d).0 (ground arith))
]

adds_of_extract : (l d : Text) → extract_domain l ≡ some d → adds l d ≡ true
unfolding adds
adds_of_extract l d h = ground (arith, list_beq_iff d d)

any_adds : List Text → Text → Bool
any_adds [] d = false
any_adds (l ∷ ls) d = adds l d || any_adds ls d

contains-add_lines :
    (ls domains : List Text) (d : Text)
    → contains (add_lines domains ls) d ≡ (contains domains d || any_adds ls d)
unfolding add_lines any_adds
contains-add_lines [] domains d = ground arith
contains-add_lines (l ∷ ls) domains d =
    ground (arith, contains-add_lines ls (add_line domains l) d, contains-add_line domains l d)

add_line-Distinct :
    (domains : List Text) (l : Text) → Distinct domains → Distinct (add_line domains l)
add_line-Distinct domains l h = elim (Option-cases (extract_domain l)) [
  | inl absent ↦ unfold add_line in rw (absent, add_line) h
  | inr (e, found) ↦ elim (Bool-cases (contains domains e)) [
    | inl old ↦ unfold add_line in rw (found, add_line) (rw old h)
    | inr new ↦ unfold add_line in rw (found, add_line) (rw new (snoc-Distinct domains e h new))
  ]
]

add_lines-Distinct : (ls domains : List Text) → Distinct domains → Distinct (add_lines domains ls)
unfolding add_lines
add_lines-Distinct [] domains h = h
add_lines-Distinct (l ∷ ls) domains h =
    add_lines-Distinct ls (add_line domains l) (add_line-Distinct domains l h)

abbrev pub Source : List Text → Text → Type 0
Source ls d = (l : Text) × (contains ls l ≡ true) × (extract_domain l ≡ some d)

any_adds-Source : (ls : List Text) (d : Text) → any_adds ls d ≡ true → Source ls d
unfolding any_adds
any_adds-Source [] d h = cc
any_adds-Source (l ∷ ls) d h = elim (or-eq-true (adds l d) (any_adds ls d) h) [
  | inl here ↦ (l, ground (arith, list_beq_iff l l), adds-extract l d here)
  | inr later ↦ let (m, isin, e) = any_adds-Source ls d later in (m, ground arith, e)
]

Source-any_adds :
    (ls : List Text) (d l : Text)
    → contains ls l ≡ true
    → extract_domain l ≡ some d
    → any_adds ls d ≡ true
unfolding any_adds
Source-any_adds [] d l isin e = cc
Source-any_adds (m ∷ ls) d l isin e =
    ground
      (arith, list_beq_iff m l, adds_of_extract l d e, adds_of_extract m d, Source-any_adds ls d l)

-- The parsed list holds each domain once, and exactly the domains that some line of the text
-- denotes; each is valid and in normalized form.
pub parse_blocklist-exact :
    (text : Text)
    → Distinct (parse_blocklist text)
      × ((d : Text) → (contains (parse_blocklist text) d ≡ true) ↔ Source (splitlines text) d)
      × ((d : Text) → contains (parse_blocklist text) d ≡ true → IsListed d)
unfolding parse_blocklist
parse_blocklist-exact text = (
  add_lines-Distinct (splitlines text) [] tt,
  (λ d. (
    (λ h.
        any_adds-Source (splitlines text) d (sym (contains-add_lines (splitlines text) [] d) ∙ h)),
    (λ (l, isin, e).
        contains-add_lines (splitlines text) [] d ∙ Source-any_adds (splitlines text) d l isin e),
  )),
  (λ d h.
      let (l, _, e) =
        any_adds-Source (splitlines text) d (sym (contains-add_lines (splitlines text) [] d) ∙ h) in
      extract_domain-IsListed l e),
)

pub parse_blocklist-IsListed :
    (text d : Text) → contains (parse_blocklist text) d ≡ true → IsListed d
parse_blocklist-IsListed text d h = (parse_blocklist-exact text).2 d h

contains-drop_all :
    (exempt ds : List Text) (d : Text)
    → contains (drop_all exempt ds) d ≡ (contains ds d && not (contains exempt d))
contains-drop_all exempt [] d = refl
contains-drop_all exempt (x ∷ ds) d =
    ground (arith, list_beq_iff x d, contains-drop_all exempt ds d)

-- Exactly the domains that are no override are left.
pub contains-apply_overrides :
    (domains overrides : List Text) (d : Text)
    → contains (apply_overrides domains overrides) d
      ≡ (contains domains d && not (contains overrides d))
unfolding apply_overrides
contains-apply_overrides domains [] d = ground arith
contains-apply_overrides domains (o ∷ overrides) d = contains-drop_all (o ∷ overrides) domains d
