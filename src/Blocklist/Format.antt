-- ===== src/Blocklist/Format.antt =====
-- `_classify_line` and `detect_format` of src/mirenai/domain/blocklist.py.
use mirenai.Python.Dict
use mirenai.Blocklist.{is_valid_domain, is_section, is_nil}
use mirenai.Prelude.{
  Bool, Eq, List, [], arith, contains, false, if◌then◌else◌, leb, list_eq, ltb, nat_beq, nat_eq,
  none, pair_eq, some, true, ℕ, ◌&&◌, ◌+◌, ◌||◌, ◌↔◌, ◌∷◌, ◌≡◌,
}
use mirenai.Policy.{normalize_domain}
use mirenai.Python.Dict.{Dict}
use mirenai.Python.Ip.{ip_address}
use mirenai.Python.Str.Affix.{starts_with}
use mirenai.Python.Str.Split.{splitlines, words}
use mirenai.Python.Str.Strip.{is_space, strip}
use mirenai.Python.Text.{Text, codes}

pub data Format : Type 0 where
  hosts domain adblock unknown : Format

abbrev pub format_beq : Format → Format → Bool
format_beq hosts hosts = true
format_beq domain domain = true
format_beq adblock adblock = true
format_beq unknown unknown = true
format_beq _ _ = false

pub format_beq_iff : (a b : Format) → (format_beq a b ≡ true) ↔ (a ≡ b)
format_beq_iff hosts b = ground arith
format_beq_iff domain b = ground arith
format_beq_iff adblock b = ground arith
format_beq_iff unknown b = ground arith

instance abbrev pub format_eq : Eq Format
format_eq = record { beq = format_beq; beq_iff = format_beq_iff }

abbrev pub detect_sample_limit : ℕ
detect_sample_limit = 50

abbrev pub format_priority : Format → ℕ
format_priority hosts = 3
format_priority adblock = 3
format_priority domain = 2
format_priority unknown = 0

-- `_classify_line`; a stripped line that is not empty has a word.
unfoldable pub classify_words : List Text → Format
unfolding ip_address is_valid_domain normalize_domain
classify_words [] = unknown
classify_words (a ∷ []) = if is_valid_domain (normalize_domain a) then domain else unknown
classify_words (a ∷ b ∷ ws) = elim (ip_address a) [
  | none ↦ unknown
  | some _ ↦ if is_valid_domain (normalize_domain b) then hosts else unknown
]

unfoldable pub classify_line : Text → Format
unfolding classify_words words is_space
classify_line line =
    if starts_with line (codes "||") || starts_with line (codes "@@") || contains line b'^'
    then adblock
    else classify_words (words is_space line)

-- the lines that are no entries
abbrev pub is_ignored : Text → Bool
is_ignored line =
    is_nil line || starts_with line (codes "#") || starts_with line (codes "!") || is_section line

abbrev pub vote_count : Format → Dict Format ℕ → ℕ
vote_count f votes = elim (Dict.get f votes) [ none ↦ 0 | some n ↦ n ]

-- the loop, which leaves at the limit of the sample
unfoldable pub count_votes : Dict Format ℕ → ℕ → List Text → Dict Format ℕ
unfolding classify_line strip Dict.get Dict.put
count_votes votes sampled [] = votes
count_votes votes sampled (raw_line ∷ ls) =
    let line = strip raw_line in
    let skip = count_votes votes sampled ls in
    let f = classify_line line in
    let votes' = Dict.put f (vote_count f votes + 1) votes in
    let more = count_votes votes' (sampled + 1) ls in
    if is_ignored line then skip else if leb detect_sample_limit (sampled + 1) then votes' else more

-- Python's order on `(votes[fmt], _FORMAT_PRIORITY[fmt])`
abbrev pub outranks : Format × ℕ → Format × ℕ → Bool
outranks a b = ltb b.1 a.1 || (nat_beq b.1 a.1 && ltb (format_priority b.0) (format_priority a.0))

-- `max`, which keeps the first of the greatest
unfoldable pub best_vote : Format × ℕ → List (Format × ℕ) → Format × ℕ
best_vote best [] = best
best_vote best (v ∷ vs) = best_vote (if outranks v best then v else best) vs

unfoldable pub winner : Dict Format ℕ → Format
unfolding best_vote
winner [] = unknown
winner (v ∷ vs) = (best_vote v vs).0

unfoldable pub detect_format : Text → Format
unfolding winner count_votes splitlines
detect_format text = winner (count_votes [] 0 (splitlines text))
