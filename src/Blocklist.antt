-- ===== src/Blocklist.antt =====
-- src/mirenai/domain/blocklist.py: the domains of a blocklist text, its format, and the match of a
-- query name.
pub mod Format
pub mod Parse
pub mod Match
pub mod Votes
use mirenai.Prelude.{
  Bool, List, Option, [], contains, drop, false, if◌then◌else◌, list_eq, nat_eq, none, pair_eq,
  some, true, ℕ, ◌&&◌, ◌++◌, ◌==◌, ◌||◌, ◌∷◌,
}
use mirenai.Names.{name_matches}
use mirenai.Policy.{normalize_domain}
use mirenai.Python.Ip.{ip_address}
use mirenai.Python.Str.Affix.{ends_with, starts_with, take_until}
use mirenai.Python.Str.Split.{join, split, splitlines, words}
use mirenai.Python.Str.Strip.{is_space, strip}
use mirenai.Python.Text.{Text, codes}

-- `_is_valid_domain`
unfoldable pub is_valid_domain : Text → Bool
unfolding ip_address name_matches
is_valid_domain domain =
    contains domain b'.'
    && (elim (ip_address domain) [ some _ ↦ false | none ↦ name_matches 2 domain ])

-- the domain, normalized, if it is a valid one
abbrev pub valid_or_none : Text → Option Text
valid_or_none name = if is_valid_domain name then some name else none

unfoldable pub normalize_override_domain : Text → Option Text
unfolding is_valid_domain normalize_domain
normalize_override_domain name = valid_or_none (normalize_domain name)

-- `#[@?$%]*#`, searched anywhere in the line
abbrev cosmetic_tail : Text → Bool
cosmetic_tail [] = false
cosmetic_tail (x ∷ s) =
    x == b'#' || ((x == b'@' || x == b'?' || x == b'$' || x == b'%') && cosmetic_tail s)

abbrev pub is_cosmetic : Text → Bool
is_cosmetic [] = false
is_cosmetic (x ∷ s) = (x == b'#' && cosmetic_tail s) || is_cosmetic s

-- `^`, `$`, `/` and `*`
abbrev pub is_terminator : ℕ → Bool
is_terminator c = c == b'^' || c == b'$' || c == b'/' || c == b'*'

-- `_extract_adblock_domain`: the least position of a terminator is where the first one stands.
unfoldable pub extract_adblock_domain : Text → Option Text
extract_adblock_domain line =
    valid_or_none (normalize_domain (take_until is_terminator (drop 2 line)))

-- `[...]`
abbrev pub is_section : Text → Bool
is_section line = starts_with line (codes "[") && ends_with line (codes "]")

-- The name token of a line without comments; a line that is not empty has a word.
unfoldable pub name_token : List Text → Option Text
name_token [] = none
name_token (a ∷ []) = valid_or_none (normalize_domain a)
name_token (a ∷ b ∷ ws) = valid_or_none (normalize_domain b)

abbrev pub is_nil : Text → Bool
is_nil [] = true
is_nil (x ∷ s) = false

-- `_extract_domain`
unfoldable pub extract_domain : Text → Option Text
extract_domain raw_line =
    let line = strip raw_line in
    if is_nil line
    then none
    else if starts_with line (codes "!") || is_section line
    then none
    else if starts_with line (codes "||")
    then extract_adblock_domain line
    else if starts_with line (codes "@@") || is_cosmetic line
    then none
    else (let entry = strip (take_until (λ c. c == b'#') line) in
        if is_nil entry then none else name_token (words is_space entry))

-- One round of the loop. The set `seen` holds the same domains as the list.
unfoldable pub add_line : List Text → Text → List Text
add_line domains raw_line = elim (extract_domain raw_line) [
  | none ↦ domains
  | some d ↦ if contains domains d then domains else domains ++ d ∷ []
]

unfoldable pub add_lines : List Text → List Text → List Text
add_lines domains [] = domains
add_lines domains (l ∷ ls) = add_lines (add_line domains l) ls

unfoldable pub parse_blocklist : Text → List Text
parse_blocklist text = add_lines [] (splitlines text)

abbrev pub drop_all : List Text → List Text → List Text
drop_all exempt [] = []
drop_all exempt (d ∷ ds) =
    let rest = drop_all exempt ds in if contains exempt d then rest else d ∷ rest

unfoldable pub apply_overrides : List Text → List Text → List Text
apply_overrides domains [] = domains
apply_overrides domains (o ∷ overrides) = drop_all (o ∷ overrides) domains

-- `[".".join(labels[i:]) for i in range(len(labels))]`
abbrev pub joined_tails : List Text → List Text
joined_tails [] = []
joined_tails (l ∷ ls) = join (b'.' ∷ []) (l ∷ ls) ∷ joined_tails ls

unfoldable pub domain_suffixes : Text → List Text
domain_suffixes qname =
    let name = normalize_domain qname in if is_nil name then [] else joined_tails (split b'.' name)

-- `any(suffix in blocked for suffix in suffixes)`
abbrev pub any_in : List Text → List Text → Bool
any_in blocked [] = false
any_in blocked (s ∷ ss) = contains blocked s || any_in blocked ss

unfoldable pub is_blocked : List Text → Text → Bool
is_blocked blocked qname = any_in blocked (domain_suffixes qname)
