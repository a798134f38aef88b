-- ===== src/Python/Int.antt =====
-- Digits in a base: `str(n)` and `'%x' % n`, and `int(s)` of a text.
pub mod Digits
pub mod Round
use mirenai.Prelude.{
  Bool, Option, [], false, if◌then◌else◌, leb, list_eq, nat_eq, none, pair_eq, some, true, ℕ, ◌&&◌,
  ◌*◌, ◌+◌, ◌-◌, ◌==◌, ◌∷◌,
}
use mirenai.Python.Str.Strip.{strip}
use mirenai.Python.Text.{Text}

abbrev pub is_digit : ℕ → Bool
is_digit c = leb b'0' c && leb c b'9'

-- The digits of `int(s)`: single underscores may stand between two of them. `last` says that the
-- last character was a digit; `seen` counts the digits.
read_digits : ℕ → ℕ → Bool → Text → Option (ℕ × ℕ)
read_digits n seen last [] = if last then some (n, seen) else none
read_digits n seen last (c ∷ s) =
    let digit = read_digits (n * 10 + (c - b'0')) (seen + 1) true s in
    let gap = read_digits n seen false s in
    if is_digit c then digit else if c == b'_' && last then gap else none

-- more digits than this raise `ValueError` too
abbrev max_str_digits : ℕ
max_str_digits = 4300

-- The digits after the sign: the sign (`true` for minus) with the absolute value.
unsigned : Bool → Text → Option (Bool × ℕ)
unfolding read_digits
unsigned minus s = elim (read_digits 0 0 false s) [
  | none ↦ none
  | some (n, seen) ↦ if leb seen max_str_digits then some (minus, n) else none
]

signed : Text → Option (Bool × ℕ)
unfolding unsigned
signed [] = none
signed (c ∷ s) =
    if c == b'-'
    then unsigned true s
    else if c == b'+'
    then unsigned false s
    else unsigned false (c ∷ s)

-- `int(s)`, where `none` is a `ValueError`
unfoldable pub parse_int : Text → Option (Bool × ℕ)
unfolding signed strip
parse_int s = signed (strip s)

-- `max(0, i)` of an integer that `parse_int` returns
abbrev pub clip : Bool × ℕ → ℕ
clip i = if i.0 then 0 else i.1
