-- ===== src/Repository/Like.antt =====
-- The search of src/mirenai/repository: `_escape_like`, which blocklists.py, local_zones.py and
-- query_log.py each define, and `column.ilike(term, escape="\\")` as SQLite answers it.
use mathlib.Core.List.{append_assoc}
use mirenai.Prelude.{
  Bool, List, [], ap, arith, false, if◌then◌else◌, list_eq, nat_eq, pair_eq, refl, sym, true, ℕ,
  ◌&&◌, ◌++◌, ◌==◌, ◌||◌, ◌∙◌, ◌∷◌, ◌≡◌,
}
use mirenai.Python.Str.Affix.{starts_with}
use mirenai.Python.Str.Strip.{lower, lower_char}
use mirenai.Python.Text.{Text}

abbrev pub escape_char : ℕ
escape_char = 92

-- `value.replace(c, "\\" + c)`
abbrev pub escape_one : ℕ → Text → Text
escape_one c [] = []
escape_one c (x ∷ s) =
    let rest = escape_one c s in if x == c then escape_char ∷ x ∷ rest else x ∷ rest

unfoldable pub escape_like : Text → Text
escape_like value = escape_one b'_' (escape_one b'%' (escape_one escape_char value))

pub data Wildcard : Type 0 where
  any_run any_one : Wildcard
  exactly : ℕ → Wildcard

-- the pattern's wildcards; the flag says that the escape character stands before
abbrev pub wildcard_of : ℕ → Wildcard
wildcard_of c = if c == b'%' then any_run else if c == b'_' then any_one else exactly c

abbrev pub wildcards : Bool → Text → List Wildcard
wildcards escaped [] = []
wildcards true (c ∷ p) = exactly c ∷ wildcards false p
wildcards false (c ∷ p) =
    let literal = wildcards true p in
    let rest = wildcards false p in if c == escape_char then literal else wildcard_of c ∷ rest

abbrev pub matches : List Wildcard → Text → Bool
matches [] [] = true
matches [] (x ∷ s) = false
matches (any_run ∷ ws) [] = matches ws []
matches (any_run ∷ ws) (x ∷ s) = matches ws (x ∷ s) || matches (any_run ∷ ws) s
matches (any_one ∷ ws) [] = false
matches (any_one ∷ ws) (x ∷ s) = matches ws s
matches (exactly c ∷ ws) [] = false
matches (exactly c ∷ ws) (x ∷ s) = x == c && matches ws s

-- both sides in lower case
unfoldable pub ilike : Text → Text → Bool
ilike column term = matches (wildcards false (lower term)) (lower column)

-- `f"%{_escape_like(search)}%"`
abbrev pub search_term : Text → Text
search_term sought = b'%' ∷ escape_like sought ++ b'%' ∷ []

-- the reference: the text occurs somewhere
abbrev pub occurs_in : Text → Text → Bool
occurs_in v [] = starts_with [] v
occurs_in v (x ∷ s) = starts_with (x ∷ s) v || occurs_in v s

abbrev pub literals : Text → List Wildcard
literals [] = []
literals (c ∷ v) = exactly c ∷ literals v

-- what the three replacements make of a character
abbrev pub escaped_char : ℕ → Text
escaped_char c = if c == escape_char || c == b'%' || c == b'_' then escape_char ∷ c ∷ [] else c ∷ []

escape_like-cons : (c : ℕ) (v : Text) → escape_like (c ∷ v) ≡ escaped_char c ++ escape_like v
unfolding escape_like
escape_like-cons c v = ground arith

lower-escaped_char : (c : ℕ) → lower (escaped_char c) ≡ escaped_char (lower_char c)
unfolding lower lower_char
lower-escaped_char c = ground arith

lower-append : (s t : Text) → lower (s ++ t) ≡ lower s ++ lower t
unfolding lower
lower-append [] t = refl
lower-append (c ∷ s) t = ap (◌∷◌ (lower_char c)) (lower-append s t)

lower-escape_like : (v : Text) → lower (escape_like v) ≡ escape_like (lower v)
unfolding lower
lower-escape_like [] = unfold escape_like in refl
lower-escape_like (c ∷ v) =
    ap lower (escape_like-cons c v)
    ∙ lower-append (escaped_char c) (escape_like v)
    ∙ rw (lower-escaped_char c, lower-escape_like v)
        (sym (escape_like-cons (lower_char c) (lower v)))

lower-percent : (s : Text) → lower (b'%' ∷ s) ≡ b'%' ∷ lower s
unfolding lower lower_char
lower-percent s = refl

wildcards-escaped_char :
    (c : ℕ) (p : Text) → wildcards false (escaped_char c ++ p) ≡ exactly c ∷ wildcards false p
wildcards-escaped_char c p = ground arith

-- The escaped text stands for itself in a pattern.
wildcards-escape_like :
    (v p : Text) → wildcards false (escape_like v ++ p) ≡ literals v ++ wildcards false p
wildcards-escape_like [] p = unfold escape_like in refl
wildcards-escape_like (c ∷ v) p =
    ap (λ e. wildcards false (e ++ p)) (escape_like-cons c v)
    ∙ ap (wildcards false) (append_assoc (escaped_char c) (escape_like v) p)
    ∙ wildcards-escaped_char c (escape_like v ++ p)
    ∙ ap (◌∷◌ (exactly c)) (wildcards-escape_like v p)

matches-any_run : (s : Text) → matches (any_run ∷ []) s ≡ true
matches-any_run [] = refl
matches-any_run (x ∷ s) = ground (arith, matches-any_run s)

matches-literals : (v s : Text) → matches (literals v ++ any_run ∷ []) s ≡ starts_with s v
matches-literals [] s = matches-any_run s ∙ ground arith
matches-literals (c ∷ v) [] = refl
matches-literals (c ∷ v) (x ∷ s) = ground (arith, matches-literals v s)

matches-occurs_in : (v s : Text) → matches (any_run ∷ literals v ++ any_run ∷ []) s ≡ occurs_in v s
matches-occurs_in v [] = matches-literals v []
matches-occurs_in v (x ∷ s) = ground (arith, matches-literals v (x ∷ s), matches-occurs_in v s)

-- A search finds just the columns in which the text occurs as it stands, its `%`, `_` and `\`
-- included, upper and lower case being the same.
pub ilike-search_term :
    (column sought : Text)
    → ilike column (search_term sought) ≡ occurs_in (lower sought) (lower column)
unfolding ilike lower
ilike-search_term column sought =
    let tail : Text = b'%' ∷ [] in
    let term : lower (search_term sought) ≡ b'%' ∷ escape_like (lower sought) ++ tail =
      lower-percent (escape_like sought ++ tail)
      ∙ ap (◌∷◌ b'%') (
          lower-append (escape_like sought) tail
          ∙ rw (lower-escape_like sought, lower-percent []) refl) in
    ap (λ p. matches (wildcards false p) (lower column)) term
    ∙ ap (λ ws. matches (any_run ∷ ws) (lower column)) (wildcards-escape_like (lower sought) tail)
    ∙ matches-occurs_in (lower sought) (lower column)
