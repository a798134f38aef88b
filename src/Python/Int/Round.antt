-- ===== src/Python/Int/Round.antt =====
-- A number that is printed is read back by `int`.
use mathlib.Core.List.{append-nil, append_assoc}
use mirenai.Python.Int.{read_digits, unsigned, signed}
use mirenai.Prelude.{
  All, Bool, Bool-cases, [], ap, arith, false, inl, inr, leb, length, length-append, list_eq, ltb,
  nat_eq, pair_eq, refl, some, suc, sym, true, zero, ℕ, ◌%◌, ◌*◌, ◌++◌, ◌+◌, ◌-◌, ◌/◌, ◌<◌, ◌∙◌,
  ◌∷◌, ◌≡◌, ◌≤◌,
}
use mirenai.Python.Int.{is_digit, parse_int}
use mirenai.Python.Int.Digits.{digit_char, digits_fuel, show, show_base}
use mirenai.Python.Str.Strip.{is_space, lstrip_of, rstrip_of, strip}
use mirenai.Python.Text.{Text}

read_digit :
    (m k d : ℕ) (b : Bool) (t : Text)
    → d < 10
    → read_digits m k b (digit_char d ∷ t) ≡ read_digits (m * 10 + d) (k + 1) true t
unfolding read_digits
read_digit m k d b t h =
    let e : is_digit (digit_char d) ≡ true = ground arith in
    let v : digit_char d - b'0' ≡ d = ground arith in rw (e, v) refl

digits-small : (f n : ℕ) → ltb n 10 ≡ true → digits_fuel 10 (suc f) n ≡ digit_char n ∷ []
unfolding digits_fuel
digits-small f n small = rw small refl

digits-large :
    (f n : ℕ)
    → ltb n 10 ≡ false
    → digits_fuel 10 (suc f) n ≡ digits_fuel 10 f (n / 10) ++ digit_char (n % 10) ∷ []
unfolding digits_fuel
digits-large f n large = rw large refl

-- The digits of a number, in front of a text, are read first.
read-digits_fuel :
    (f n k : ℕ) (b : Bool) (t : Text)
    → n ≤ f
    → read_digits 0 k b (digits_fuel 10 f n ++ t)
      ≡ read_digits n (k + length (digits_fuel 10 f n)) true t
read-digits_fuel zero n k b t h =
    unfold digits_fuel in
    (read_digit 0 k n b t (omega arith) ∙ ap (λ m. read_digits m (k + 1) true t) (omega arith))
read-digits_fuel (suc f) n k b t h = elim (Bool-cases (ltb n 10)) [
  | inl small ↦
      rw (digits-small f n small)
        (read_digit 0 k n b t (ground arith) ∙ ap (λ m. read_digits m (k + 1) true t) (omega arith))
  | inr large ↦
      let rest = digits_fuel 10 f (n / 10) in
      let last : ℕ = digit_char (n % 10) in
      let below : n / 10 ≤ f = ground arith in
      let whole : n / 10 * 10 + n % 10 ≡ n = omega arith in
      let count : k + length rest + 1 ≡ k + length (rest ++ last ∷ []) =
        omega (arith, length-append rest (last ∷ [])) in
      rw (digits-large f n large) (
        ap (read_digits 0 k b) (append_assoc rest (last ∷ []) t)
        ∙ read-digits_fuel f (n / 10) k b (last ∷ t) below
        ∙ read_digit (n / 10) (k + length rest) (n % 10) true t (omega arith)
        ∙ (λ i. read_digits (whole i) (count i) true t))
]

digits-All : (f n : ℕ) → n ≤ f → All (λ c. is_digit c ≡ true) (digits_fuel 10 f n)
unfolding digits_fuel
digits-All zero n h = (ground arith, tt)
digits-All (suc f) n h = elim (Bool-cases (ltb n 10)) [
  | inl small ↦ rw small (ground arith, tt)
  | inr large ↦ rw large (
      snoc-All (digits_fuel 10 f (n / 10)) (digit_char (n % 10))
        (digits-All f (n / 10) (ground arith)) (ground arith))
]
  where
    snoc-All :
        (s : Text) (c : ℕ)
        → All (λ x. is_digit x ≡ true) s
        → is_digit c ≡ true
        → All (λ x. is_digit x ≡ true) (s ++ c ∷ [])
    snoc-All [] c a e = (e, tt)
    snoc-All (x ∷ s) c a e = (a.0, snoc-All s c a.1 e)

rstrip-digits : (s : Text) → All (λ c. is_digit c ≡ true) s → rstrip_of is_space s ≡ s
unfolding rstrip_of is_space
rstrip-digits [] a = refl
rstrip-digits (c ∷ []) a = ground arith
rstrip-digits (c ∷ d ∷ s) a = rw (rstrip-digits (d ∷ s) a.1) refl

strip-digits : (s : Text) → All (λ c. is_digit c ≡ true) s → strip s ≡ s
unfolding strip lstrip_of
strip-digits [] a = rw (rstrip-digits [] a) refl
strip-digits (c ∷ s) a =
    let e : is_space c ≡ false = unfold is_space in ground (arith, a.0) in
    rw (rstrip-digits (c ∷ s) a, e) refl

signed-digits :
    (s : Text) → All (λ c. is_digit c ≡ true) s → 0 < length s → signed s ≡ unsigned false s
unfolding signed
signed-digits [] a p = absurd (omega arith)
signed-digits (c ∷ s) a p = ground (arith, a.0)

digits-nonempty : (f n : ℕ) → 0 < length (digits_fuel 10 f n)
unfolding digits_fuel
digits-nonempty zero n = omega arith
digits-nonempty (suc f) n = elim (Bool-cases (ltb n 10)) [
  | inl small ↦ rw small (omega arith)
  | inr large ↦
      rw large (omega (arith, length-append (digits_fuel 10 f (n / 10)) (digit_char (n % 10) ∷ [])))
]

unsigned-read :
    (s : Text) (n seen : ℕ)
    → read_digits 0 0 false s ≡ some (n, seen)
    → leb seen 4300 ≡ true
    → unsigned false s ≡ some (false, n)
unfolding unsigned
unsigned-read s n seen read few = rw (read, unsigned, few) refl

-- `int(str(n))` is `n` for a number of at most 4,300 digits.
pub parse_int-show : (n : ℕ) → length (show n) ≤ 4300 → parse_int (show n) ≡ some (false, n)
unfolding parse_int show_base
parse_int-show n h =
    let s : Text = digits_fuel 10 n n in
    let a = digits-All n n (omega arith) in
    let read : read_digits 0 0 false s ≡ some (n, 0 + length s) =
      ap (read_digits 0 0 false) (sym (append-nil s))
      ∙ read-digits_fuel n n 0 false [] (omega arith)
      ∙ unfold read_digits in refl in
    ap signed (strip-digits s a)
    ∙ signed-digits s a (digits-nonempty n n)
    ∙ unsigned-read s n (0 + length s) read (ground arith)
