-- ===== src/Python/Ip/V4.antt =====
-- IPv4 addresses: `IPv4Address(s)`, `str` and `reverse_pointer`.
use mirenai.Prelude.{
  List, Option, [], contains, if◌then◌else◌, leb, length, list_eq, nat_eq, none, not, pair_eq, some,
  ℕ, ◌%◌, ◌&&◌, ◌*◌, ◌++◌, ◌+◌, ◌/◌, ◌==◌, ◌^◌, ◌||◌, ◌∷◌,
}
use mirenai.Python.Int.Digits.{read_base, show, show_base}
use mirenai.Python.Str.Affix.{starts_with}
use mirenai.Python.Str.Split.{split}
use mirenai.Python.Text.{Text, codes}

-- the value of a text that is not empty and consists of decimal digits
unfoldable pub digits_value : Text → Option ℕ
unfolding read_base
digits_value [] = none
digits_value (c ∷ s) = read_base 10 (c ∷ s)

-- `_parse_octet`: at most three digits, no leading zero, at most 255
unfoldable pub parse_octet : Text → Option ℕ
unfolding digits_value
parse_octet s = elim (digits_value s) [
  | none ↦ none
  | some n ↦
      if leb (length s) 3 && (s == (b'0' ∷ []) || not (starts_with s (b'0' ∷ []))) && leb n 255
      then some n
      else none
]

octets : List Text → Option ℕ
unfolding parse_octet
octets (a ∷ b ∷ c ∷ d ∷ []) = elim (parse_octet a) [
  | none ↦ none
  | some w ↦ elim (parse_octet b) [
    | none ↦ none
    | some x ↦ elim (parse_octet c) [
      | none ↦ none
      | some y ↦ elim (parse_octet d) [
        | none ↦ none
        | some z ↦ some (((w * 256 + x) * 256 + y) * 256 + z)
      ]
    ]
  ]
]
octets _ = none

-- `_ip_int_from_string`
unfoldable pub parse_v4_int : Text → Option ℕ
unfolding octets split
parse_v4_int s = octets (split b'.' s)

-- `IPv4Address(s)`. A `/` is refused first; no octet could hold one.
unfoldable pub parse_v4 : Text → Option ℕ
unfolding parse_v4_int
parse_v4 s = if contains s b'/' then none else parse_v4_int s

unfoldable pub show_v4 : ℕ → Text
unfolding show_base
show_v4 n =
    show (n / 2 ^ 24)
    ++ b'.' ∷ (show (n / 2 ^ 16 % 256) ++ b'.' ∷ (show (n / 2 ^ 8 % 256) ++ b'.' ∷ show (n % 256)))

unfoldable pub reverse_v4 : ℕ → Text
unfolding show_base
reverse_v4 n =
    show (n % 256)
    ++ b'.'
      ∷ (show (n / 2 ^ 8 % 256)
          ++ b'.'
            ∷ (show (n / 2 ^ 16 % 256) ++ b'.' ∷ (show (n / 2 ^ 24) ++ codes ".in-addr.arpa")))
