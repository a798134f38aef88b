-- ===== src/Python/Str/Strip.antt =====
-- `strip`, `rstrip` and `lower`.
use mirenai.Prelude.{
  Bool, Bool-cases, [], arith, drop, if◌then◌else◌, inl, inr, leb, list_eq, map, nat_eq, pair_eq,
  refl, ℕ, ◌&&◌, ◌+◌, ◌-◌, ◌==◌, ◌||◌, ◌∷◌, ◌≡◌,
}
use mirenai.Python.Text.{Text}

-- `str.isspace` of one character
unfoldable pub is_space : ℕ → Bool
is_space c =
    (leb 9 c && leb c 13)
    || (leb 28 c && leb c 32)
    || c == 0x85
    || c == 0xa0
    || c == 0x1680
    || (leb 0x2000 c && leb c 0x200a)
    || c == 0x2028
    || c == 0x2029
    || c == 0x202f
    || c == 0x205f
    || c == 0x3000

unfoldable pub lstrip_of : (ℕ → Bool) → Text → Text
lstrip_of drop [] = []
lstrip_of drop (x ∷ s) = if drop x then lstrip_of drop s else x ∷ s

abbrev keep_before : (ℕ → Bool) → ℕ → Text → Text
keep_before drop x [] = if drop x then [] else x ∷ []
keep_before drop x (y ∷ s) = x ∷ y ∷ s

unfoldable pub rstrip_of : (ℕ → Bool) → Text → Text
rstrip_of drop [] = []
rstrip_of drop (x ∷ s) = keep_before drop x (rstrip_of drop s)

-- `s.rstrip(c)` for one character
unfoldable pub rstrip : ℕ → Text → Text
unfolding rstrip_of
rstrip c s = rstrip_of (λ x. x == c) s

-- `s.strip()`
unfoldable pub strip : Text → Text
unfolding lstrip_of rstrip_of is_space
strip s = lstrip_of is_space (rstrip_of is_space s)

unfoldable pub lower_char : ℕ → ℕ
lower_char c = if leb b'A' c && leb c b'Z' then c + 32 else c

-- `s.lower()`
unfoldable pub lower : Text → Text
unfolding lower_char
lower s = map lower_char s

-- `s.upper()`
unfoldable pub upper_char : ℕ → ℕ
upper_char c = if leb b'a' c && leb c b'z' then c - 32 else c

unfoldable pub upper : Text → Text
unfolding upper_char
upper s = map upper_char s

lower_char_idem : (c : ℕ) → lower_char (lower_char c) ≡ lower_char c
unfolding lower_char
lower_char_idem c = ground arith

map-lower_char_idem : (s : Text) → map lower_char (map lower_char s) ≡ map lower_char s
map-lower_char_idem [] = refl
map-lower_char_idem (c ∷ s) = cc (lower_char_idem c, map-lower_char_idem s)

pub lower_idem : (s : Text) → lower (lower s) ≡ lower s
unfolding lower
lower_idem s = map-lower_char_idem s

rstrip_of-keep_before :
    (drop : ℕ → Bool) (x : ℕ) (s : Text)
    → rstrip_of drop s ≡ s
    → rstrip_of drop (keep_before drop x s) ≡ keep_before drop x s
unfolding rstrip_of
rstrip_of-keep_before drop x [] h = elim (Bool-cases (drop x)) [ inl e ↦ rw e | inr e ↦ rw (e, e) ]
rstrip_of-keep_before drop x (y ∷ s) h = rw h

pub rstrip_of_idem :
    (drop : ℕ → Bool) (s : Text) → rstrip_of drop (rstrip_of drop s) ≡ rstrip_of drop s
unfolding rstrip_of
rstrip_of_idem drop [] = refl
rstrip_of_idem drop (x ∷ s) =
    rstrip_of-keep_before drop x (rstrip_of drop s) (rstrip_of_idem drop s)

-- The characters that `lower` changes are not the stripped one, and become none.
pub rstrip-map :
    (drop : ℕ → Bool) (f : ℕ → ℕ) (s : Text)
    → ((x : ℕ) → drop (f x) ≡ drop x)
    → rstrip_of drop (map f s) ≡ map f (rstrip_of drop s)
unfolding rstrip_of
rstrip-map drop f [] h = refl
rstrip-map drop f (x ∷ s) h = rw (rstrip-map drop f s h) (keep_before-map (rstrip_of drop s))
  where
    keep_before-map : (t : Text) → keep_before drop (f x) (map f t) ≡ map f (keep_before drop x t)
    keep_before-map [] = ground (arith, h x)
    keep_before-map (y ∷ t) = refl
