-- ===== src/Python/Ip/V6.antt =====
-- IPv6 addresses: `IPv6Address(s)`, `str` and `reverse_pointer`.
use mirenai.Prelude.{
  Bool, List, Option, [], contains, drop, false, if◌then◌else◌, leb, length, list_eq, ltb, nat_eq,
  none, not, pair_eq, some, suc, take, true, zero, ℕ, ◌%◌, ◌&&◌, ◌*◌, ◌++◌, ◌+◌, ◌-◌, ◌/◌, ◌==◌,
  ◌^◌, ◌||◌, ◌∷◌,
}
use mirenai.Buffers.Tally.{count}
use mirenai.Python.Int.Digits.{read_base, show_base}
use mirenai.Python.Ip.V4.{parse_v4}
use mirenai.Python.Str.Split.{join, split}
use mirenai.Python.Text.{Text, codes}

-- `_parse_hextet`, also for a text that must not be empty
parse_hextet : Text → Option ℕ
unfolding read_base
parse_hextet [] = none
parse_hextet (c ∷ s) = if leb (length (c ∷ s)) 4 then read_base 16 (c ∷ s) else none

hextets_from : ℕ → List Text → Option ℕ
unfolding parse_hextet
hextets_from n [] = some n
hextets_from n (p ∷ ps) = elim (parse_hextet p) [
  | none ↦ none
  | some h ↦ hextets_from (n * 2 ^ 16 + h) ps
]

-- An IPv4 text in the last part becomes two hextets.
expand_v4_suffix : List Text → Option (List Text)
unfolding parse_v4 show_base
expand_v4_suffix [] = some []
expand_v4_suffix (p ∷ []) =
    if contains p b'.'
    then (elim (parse_v4 p) [
      | none ↦ none
      | some n ↦ some (show_base 16 (n / 2 ^ 16) ∷ show_base 16 (n % 2 ^ 16) ∷ [])
    ])
    else some (p ∷ [])
expand_v4_suffix (p ∷ q ∷ ps) = elim (expand_v4_suffix (q ∷ ps)) [
  | none ↦ none
  | some qs ↦ some (p ∷ qs)
]

abbrev is_empty : Text → Bool
is_empty [] = true
is_empty (c ∷ s) = false

-- The positions of the empty parts that are neither the first nor the last; `i` is the position
-- of the head of the list.
empty_inside : ℕ → List Text → List ℕ
empty_inside i [] = []
empty_inside i (p ∷ []) = []
empty_inside i (p ∷ q ∷ ps) =
    let rest = empty_inside (i + 1) (q ∷ ps) in if is_empty p && ltb 0 i then i ∷ rest else rest

abbrev last_part : List Text → Text
last_part [] = []
last_part (p ∷ []) = p
last_part (p ∷ q ∷ ps) = last_part (q ∷ ps)

-- The parts before and after the `::` at position `i`. A first or last part that is empty belongs
-- to the `::`, and has to stand alone on its side.
around : ℕ → List Text → Option ℕ
unfolding hextets_from
around i parts =
    let lo = drop (i + 1) parts in
    let hi = take i parts in
    let hi_ok = not (is_empty (last_part (take 1 parts))) || i == 1 in
    let lo_ok = not (is_empty (last_part parts)) || length lo == 1 in
    let hi' = if is_empty (last_part (take 1 parts)) then [] else hi in
    let lo' = if is_empty (last_part parts) then [] else lo in
    if hi_ok && lo_ok && leb (length hi' + length lo') 7
    then (elim (hextets_from 0 hi') [
      | none ↦ none
      | some h ↦ hextets_from (h * 2 ^ (16 * (8 - (length hi' + length lo')))) lo'
    ])
    else none

parse_parts : List Text → Option ℕ
unfolding hextets_from around empty_inside
parse_parts parts =
    if leb 3 (length parts) && leb (length parts) 9
    then (elim (empty_inside 0 parts) [
      | [] ↦ if length parts == 8 then hextets_from 0 parts else none
      | i ∷ [] ↦ around i parts
      | i ∷ j ∷ _ ↦ none
    ])
    else none

parse_v6_int : Text → Option ℕ
unfolding parse_parts expand_v4_suffix split
parse_v6_int s =
    if leb 3 (length (split b':' s))
    then (elim (expand_v4_suffix (split b':' s)) [ none ↦ none | some parts ↦ parse_parts parts ])
    else none

-- `_split_scope_id`: the address before the `%`, and the scope id
split_scope : List Text → Option (Text × Option Text)
split_scope (a ∷ []) = some (a, none)
split_scope (a ∷ (c ∷ z) ∷ []) = some (a, some (c ∷ z))
split_scope _ = none

-- `IPv6Address(s)`: the number with the scope id
unfoldable pub parse_v6 : Text → Option (ℕ × Option Text)
unfolding parse_v6_int split_scope split
parse_v6 s = if contains s b'/' then none else elim (split_scope (split b'%' s)) [
  | none ↦ none
  | some (a, scope) ↦ elim (parse_v6_int a) [ none ↦ none | some n ↦ some (n, scope) ]
]

-- the eight hextets, the most significant first
hextets : ℕ → ℕ → List Text
unfolding show_base
hextets zero n = []
hextets (suc k) n = show_base 16 (n / 2 ^ (16 * k) % 2 ^ 16) ∷ hextets k n

-- the first longest run of "0": its start and its length
longest_zeros : ℕ → ℕ → ℕ × ℕ → List Text → ℕ × ℕ
longest_zeros i run best [] = best
longest_zeros i run best (h ∷ hs) =
    let run' : ℕ = (if h == (b'0' ∷ []) then run + 1 else 0) in
    longest_zeros (i + 1) run' (if ltb best.1 run' then (i + 1 - run', run') else best) hs

-- `_compress_hextets`
compress : List Text → List Text
unfolding longest_zeros
compress hs =
    let (start, count) = longest_zeros 0 0 (0, 0) hs in
    if ltb 1 count
    then (if start == 0 then [] ∷ [] else [])
      ++ (take start hs
          ++ [] ∷ (drop (start + count) hs ++ (if start + count == length hs then [] ∷ [] else [])))
    else hs

unfoldable pub show_v6 : ℕ → Text
unfolding compress hextets join
show_v6 n = join (b':' ∷ []) (compress (hextets 8 n))

-- the 32 digits, the least significant first
nibbles : ℕ → ℕ → List Text
unfolding show_base
nibbles zero n = []
nibbles (suc k) n = show_base 16 (n % 16) ∷ nibbles k (n / 16)

unfoldable pub reverse_v6 : ℕ → Text
unfolding nibbles join
reverse_v6 n = join (b'.' ∷ []) (nibbles 32 n) ++ codes ".ip6.arpa"
