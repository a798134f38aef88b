-- ===== src/Python/Int/Digits.antt =====
-- Numbers printed and read in a base up to 16.
use native.Mathlib.Nat.{div-add-mod, div-lt_self, mod-lt}
use mirenai.Prelude.{
  Bool-cases, Option, Option-cases, [], ap, arith, contains, contains-append, false, if◌then◌else◌,
  inl, inr, leb, list_eq, ltb, ltb→lt, nat_eq, none, pair_eq, some, suc, zero, ℕ, ◌%◌, ◌&&◌, ◌*◌,
  ◌++◌, ◌+◌, ◌-◌, ◌/◌, ◌<◌, ◌∙◌, ◌∷◌, ◌≡◌, ◌≤◌,
}
use mirenai.Python.Text.{Text}

abbrev pub digit_char : ℕ → ℕ
digit_char d = if ltb d 10 then d + b'0' else d + 87

-- The digits of `n`, the least significant last; one round of fuel for each digit.
unfoldable pub digits_fuel : ℕ → ℕ → ℕ → Text
digits_fuel base zero n = digit_char n ∷ []
digits_fuel base (suc f) n =
    let rest = digits_fuel base f (n / base) in
    if ltb n base then digit_char n ∷ [] else rest ++ digit_char (n % base) ∷ []

-- `str(n)` at base 10, `'%x' % n` at base 16
unfoldable pub show_base : ℕ → ℕ → Text
unfolding digits_fuel
show_base base n = digits_fuel base n n

abbrev pub show : ℕ → Text
show = show_base 10

-- the value of a digit in base 16 or below, either case; `none` for any other character
digit_value : ℕ → Option ℕ
digit_value c =
    if leb b'0' c && leb c b'9'
    then some (c - b'0')
    else if leb b'a' c && leb c b'f'
    then some (c - 87)
    else if leb b'A' c && leb c b'F'
    then some (c - 55)
    else none

-- The value of a text of digits below `base`; `none` if a character is not one.
read_from : ℕ → ℕ → Text → Option ℕ
read_from base n [] = some n
read_from base n (c ∷ s) = elim (digit_value c) [
  | none ↦ none
  | some d ↦ let rest = read_from base (n * base + d) s in if ltb d base then rest else none
]

unfoldable pub read_base : ℕ → Text → Option ℕ
unfolding read_from digit_value
read_base base s = read_from base 0 s

read_from-append :
    (base n : ℕ) (s t : Text) {m : ℕ}
    → read_from base n s ≡ some m
    → read_from base n (s ++ t) ≡ read_from base m t
unfolding read_from
read_from-append base n [] t h = ground arith
read_from-append base n (c ∷ s) t {m} h = elim (Option-cases (digit_value c)) [
  | inl e ↦ ground arith
  | inr (d, e) ↦ ground (arith, read_from-append base (n * base + d) s t {m = m})
]

digit_value-digit_char : (d : ℕ) → d < 16 → digit_value (digit_char d) ≡ some d
unfolding digit_value
digit_value-digit_char d h = ground arith

read_from-digit :
    (base n d : ℕ)
    → d < base
    → base ≤ 16
    → read_from base n (digit_char d ∷ []) ≡ some (n * base + d)
unfolding read_from
read_from-digit base n d h k = ground (arith, digit_value-digit_char d (omega arith))

quotient_falls : (base f n : ℕ) → 2 ≤ base → n ≤ suc f → ltb n base ≡ false → n / base ≤ f
quotient_falls base f n two h large =
    let down : n / base < n = div-lt_self (ground arith) two in omega arith

read_from-digits_fuel :
    (base f n : ℕ) → 2 ≤ base → base ≤ 16 → n ≤ f → read_from base 0 (digits_fuel base f n) ≡ some n
unfolding digits_fuel
read_from-digits_fuel base zero n two most h =
    read_from-digit base 0 n (omega arith) most ∙ ap some (omega arith)
read_from-digits_fuel base (suc f) n two most h = elim (Bool-cases (ltb n base)) [
  | inl small ↦
      rw small (read_from-digit base 0 n (ltb→lt n base small) most ∙ ap some (omega arith))
  | inr large ↦ rw large (
      read_from-append base 0 (digits_fuel base f (n / base)) (digit_char (n % base) ∷ [])
        (read_from-digits_fuel base f (n / base) two most (quotient_falls base f n two h large))
      ∙ read_from-digit base (n / base) (n % base) (mod-lt n (omega arith)) most
      ∙ ap some (grind (arith, div-add-mod)))
]

-- What is printed reads back.
pub read_base-show_base :
    (base n : ℕ) → 2 ≤ base → base ≤ 16 → read_base base (show_base base n) ≡ some n
unfolding read_base show_base
read_base-show_base base n two most = read_from-digits_fuel base n n two most (omega arith)

digits-no_bar : (f n : ℕ) → n ≤ f → contains (digits_fuel 10 f n) b'|' ≡ false
unfolding digits_fuel
digits-no_bar zero n h = ground arith
digits-no_bar (suc f) n h = elim (Bool-cases (ltb n 10)) [
  | inl small ↦ rw small (ground arith)
  | inr big ↦ rw big (
      ground (
        arith,
        digits-no_bar f (n / 10) (omega arith),
        contains-append (digits_fuel 10 f (n / 10)) (digit_char (n % 10) ∷ []) b'|',
      ))
]

-- A printed number holds no bar.
pub show-no_bar : (n : ℕ) → contains (show n) b'|' ≡ false
unfolding show_base
show-no_bar n = digits-no_bar n n (omega arith)
