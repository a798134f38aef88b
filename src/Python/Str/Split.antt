-- ===== src/Python/Str/Split.antt =====
-- `split`, `join` and `splitlines`.
use mirenai.Prelude.{
  Bool, Bool-cases, List, [], ap, arith, false, if◌then◌else◌, inl, inr, leb, list_eq, nat_beq_iff,
  nat_eq, pair_eq, refl, true, ℕ, ◌&&◌, ◌++◌, ◌==◌, ◌||◌, ◌∙◌, ◌∷◌, ◌≡◌,
}
use mirenai.Python.Text.{Text}

abbrev cons_head : ℕ → List Text → List Text
cons_head x [] = (x ∷ []) ∷ []
cons_head x (w ∷ ws) = (x ∷ w) ∷ ws

-- `s.split(sep)` for one character
unfoldable pub split : ℕ → Text → List Text
split sep [] = [] ∷ []
split sep (x ∷ s) = if x == sep then [] ∷ split sep s else cons_head x (split sep s)

-- `sep.join(parts)`
unfoldable pub join : Text → List Text → Text
join sep [] = []
join sep (w ∷ []) = w
join sep (w ∷ v ∷ ws) = w ++ (sep ++ join sep (v ∷ ws))

-- `s.split()`: the maximal runs of characters that are no white space. `word` is the run that
-- has been read so far.
abbrev emit : Text → List Text → List Text
emit [] ws = ws
emit (x ∷ w) ws = (x ∷ w) ∷ ws

words_from : (ℕ → Bool) → Text → Text → List Text
words_from space word [] = emit word []
words_from space word (x ∷ s) =
    let next = words_from space [] s in
    let more = words_from space (word ++ x ∷ []) s in if space x then emit word next else more

unfoldable pub words : (ℕ → Bool) → Text → List Text
unfolding words_from
words space s = words_from space [] s

-- Python's line boundaries other than `\r\n`
is_line_break : ℕ → Bool
is_line_break c =
    (leb 10 c && leb c 13) || (leb 28 c && leb c 30) || c == 0x85 || c == 0x2028 || c == 0x2029

-- The last line is there only if it holds a character.
abbrev last_line : Text → List Text
last_line [] = []
last_line (x ∷ line) = (x ∷ line) ∷ []

-- `s.splitlines()`; `after_cr` says that the last character was a `\r`, with which a `\n` is one
-- line break.
lines_from : Text → Bool → Text → List Text
lines_from line after_cr [] = last_line line
lines_from line after_cr (x ∷ s) =
    let skip = lines_from [] false s in
    let next = lines_from [] (x == 13) s in
    let more = lines_from (line ++ x ∷ []) false s in
    if after_cr && x == 10 then skip else if is_line_break x then line ∷ next else more

unfoldable pub splitlines : Text → List Text
unfolding lines_from is_line_break
splitlines s = lines_from [] false s

join-cons_head :
    (sep x : ℕ) (ws : List Text) → join (sep ∷ []) (cons_head x ws) ≡ x ∷ join (sep ∷ []) ws
unfolding join
join-cons_head sep x [] = refl
join-cons_head sep x (w ∷ []) = refl
join-cons_head sep x (w ∷ v ∷ ws) = refl

pub split-ne-nil : (sep : ℕ) (s : Text) → (w : Text) × (ws : List Text) × (split sep s ≡ w ∷ ws)
unfolding split
split-ne-nil sep [] = ([], [], refl)
split-ne-nil sep (x ∷ s) = elim (Bool-cases (x == sep)) [
  | inl e ↦ ([], split sep s, rw e)
  | inr e ↦ let (w, ws, h) = split-ne-nil sep s in (x ∷ w, ws, rw (e, h))
]

pub split-sep : (sep x : ℕ) (s : Text) → (x == sep) ≡ true → split sep (x ∷ s) ≡ [] ∷ split sep s
unfolding split
split-sep sep x s h = rw (h, split)

pub split-char :
    (sep x : ℕ) (s : Text) {w : Text} {ws : List Text}
    → (x == sep) ≡ false
    → split sep s ≡ w ∷ ws
    → split sep (x ∷ s) ≡ (x ∷ w) ∷ ws
unfolding split
split-char sep x s h e = rw (h, split) (rw e)

join-nil-cons :
    (sep : ℕ) {w : Text} {ws ls : List Text}
    → ls ≡ w ∷ ws
    → join (sep ∷ []) ([] ∷ ls) ≡ sep ∷ join (sep ∷ []) ls
unfolding join
join-nil-cons sep h = rw h

-- A text is its parts joined again.
pub join-split : (sep : ℕ) (s : Text) → join (sep ∷ []) (split sep s) ≡ s
unfolding split
join-split sep [] = unfold join in refl
join-split sep (x ∷ s) = elim (Bool-cases (x == sep)) [
  | inl e ↦
      let (w, ws, h) = split-ne-nil sep s in
      rw e (join-nil-cons sep h ∙ ground (arith, nat_beq_iff x sep, join-split sep s))
  | inr e ↦ rw e (join-cons_head sep x (split sep s) ∙ ap (◌∷◌ x) (join-split sep s))
]
