-- ===== src/Names.antt =====
-- The name patterns `_DOMAIN_RE` of src/mirenai/domain/blocklist.py and `_NAME_RE` of
-- src/mirenai/domain/localzones.py: labels joined by dots.
use mirenai.Prelude.{
  Bool, List, [], if◌then◌else◌, leb, length, list_eq, nat_eq, not, pair_eq, true, ℕ, ◌&&◌, ◌==◌,
  ◌||◌, ◌∷◌,
}
use mirenai.Python.Str.Affix.{ends_with, starts_with}
use mirenai.Python.Str.Split.{split}
use mirenai.Python.Text.{Text}

-- `[a-z0-9_-]`
abbrev pub label_char : ℕ → Bool
label_char c = (leb b'a' c && leb c b'z') || (leb b'0' c && leb c b'9') || c == b'_' || c == b'-'

abbrev pub all_chars : (ℕ → Bool) → Text → Bool
all_chars p [] = true
all_chars p (c ∷ s) = p c && all_chars p s

-- `(?!-)[a-z0-9_-]{1,63}(?<!-)`
unfoldable pub valid_label : Text → Bool
valid_label l =
    leb 1 (length l)
    && leb (length l) 63
    && all_chars label_char l
    && not (starts_with l (b'-' ∷ []))
    && not (ends_with l (b'-' ∷ []))

abbrev pub all_labels : List Text → Bool
all_labels [] = true
all_labels (l ∷ ls) = valid_label l && all_labels ls

-- `$` also matches before a line feed that ends the text.
unfoldable pub before_final_newline : Text → Text
before_final_newline [] = []
before_final_newline (x ∷ []) = if x == 10 then [] else x ∷ []
before_final_newline (x ∷ y ∷ s) = x ∷ before_final_newline (y ∷ s)

-- the pattern with at least `least` labels
unfoldable pub name_matches : ℕ → Text → Bool
unfolding before_final_newline valid_label split
name_matches least s =
    let body = before_final_newline s in
    leb 1 (length body)
    && leb (length body) 253
    && leb least (length (split b'.' body))
    && all_labels (split b'.' body)
