-- ===== src/LocalZones/Serve.antt =====
-- src/mirenai/domain/localzones.py: each record of a zone can be served.
use mirenai.LocalZones.{
  LocalRecord, expand, line_ttl, line_fields, expand_fields, line_records, add_records,
  add_zone_lines, parse_zone, keys_of, record_key, is_valid_name, rtype_cname, rtype_ptr,
  address_rtype,
}
use mirenai.Prelude.{
  All, Bool-cases, List, Option, Option-cases, [], arith, contains, if◌then◌else◌, inl, inr,
  list_eq, nat_eq, none, pair_eq, refl, some, subst, sym, true, ℕ, ◌++◌, ◌==◌, ◌||◌, ◌∙◌, ◌∷◌, ◌≡◌,
}
use mirenai.Blocklist.{is_nil}
use mirenai.Policy.{normalize_domain}
use mirenai.Python.Ip.{Addr, addr_text, ip_address, reverse_pointer}
use mirenai.Python.Str.Affix.{take_until}
use mirenai.Python.Str.Split.{splitlines}
use mirenai.Python.Str.Strip.{strip}
use mirenai.Python.Text.{Text}

-- a name that can be looked up: valid and normalized
abbrev pub IsName : Text → Type 0
IsName name = (is_valid_name name ≡ true) × ((raw : Text) × (normalize_domain raw ≡ name))

-- An address record, an alias, or the record of a reverse lookup.
pub data IsServable : LocalRecord → Type 0 where
  address :
      {name : Text} {ttl : ℕ} (addr : Addr)
      → IsName name
      → IsServable
          (record { name = name; rtype = address_rtype addr; value = addr_text addr; ttl = ttl })
  alias :
      {name target : Text} {ttl : ℕ}
      → IsName name
      → IsName target
      → IsServable (record { name = name; rtype = rtype_cname; value = target; ttl = ttl })
  reverse :
      {name target : Text} {ttl : ℕ} (addr : Addr)
      → reverse_pointer addr ≡ some name
      → IsName target
      → IsServable (record { name = name; rtype = rtype_ptr; value = target; ttl = ttl })

All-some :
    {rs all : List LocalRecord}
    → ◌≡◌ {A = Option (List LocalRecord)} (some rs) (some all)
    → All IsServable rs
    → All IsServable all
All-some e h = subst (λ rs. All IsServable rs) (ground arith) h

All-append :
    (rs ss : List LocalRecord) → All IsServable rs → All IsServable ss → All IsServable (rs ++ ss)
All-append [] ss h g = g
All-append (r ∷ rs) ss h g = (h.0, All-append rs ss h.1 g)

expand-hit :
    (value name : Text) (ttl : ℕ) (addr : Addr) (pointer : Text)
    → ip_address value ≡ some addr
    → reverse_pointer addr ≡ some pointer
    → expand value name ttl
      ≡ some (
          record { name = name; rtype = address_rtype addr; value = addr_text addr; ttl = ttl }
          ∷ record { name = pointer; rtype = rtype_ptr; value = name; ttl = ttl }
          ∷ [])
unfolding expand
expand-hit value name ttl addr pointer h g = rw (h, expand) (rw (g, expand) refl)

expand-raises :
    (value name : Text) (ttl : ℕ) (addr : Addr)
    → ip_address value ≡ some addr
    → reverse_pointer addr ≡ none
    → expand value name ttl ≡ none
unfolding expand
expand-raises value name ttl addr h g = rw (h, expand) (rw (g, expand) refl)

expand-name :
    (value name : Text) (ttl : ℕ)
    → ip_address value ≡ none
    → expand value name ttl ≡ (
        if is_valid_name (normalize_domain value)
        then some (
            record { name = name; rtype = rtype_cname; value = normalize_domain value; ttl = ttl }
            ∷ [])
        else some [])
unfolding expand
expand-name value name ttl h = rw (h, expand) refl

expand-alias :
    (value name : Text) (ttl : ℕ)
    → ip_address value ≡ none
    → is_valid_name (normalize_domain value) ≡ true
    → expand value name ttl
      ≡ some (
          record { name = name; rtype = rtype_cname; value = normalize_domain value; ttl = ttl }
          ∷ [])
expand-alias value name ttl h ok = expand-name value name ttl h ∙ rw ok refl

expand-IsServable :
    (value name : Text) (ttl : ℕ) {rs : List LocalRecord}
    → IsName name
    → expand value name ttl ≡ some rs
    → All IsServable rs
expand-IsServable value name ttl {rs} valid e = elim (Option-cases (ip_address value)) [
  | inl no_address ↦ elim (Bool-cases (is_valid_name (normalize_domain value))) [
    | inl ok ↦
        All-some (sym (expand-alias value name ttl no_address ok) ∙ e)
          (IsServable.alias valid (ok, (value, refl)), tt)
    | inr bad ↦ All-some {rs = []} (ground (arith, expand-name value name ttl no_address)) tt
  ]
  | inr (addr, ok) ↦ elim (Option-cases (reverse_pointer addr)) [
    | inl raises ↦ absurd (ground (arith, expand-raises value name ttl addr ok raises))
    | inr (pointer, point) ↦
        All-some (sym (expand-hit value name ttl addr pointer ok point) ∙ e)
          (IsServable.address addr valid, (IsServable.reverse addr point valid, tt))
  ]
]

fields-IsServable :
    (default : ℕ) (fields : List Text) {rs : List LocalRecord}
    → expand_fields default fields ≡ some rs
    → All IsServable rs
fields-IsServable default [] e = All-some e tt
fields-IsServable default (a ∷ []) e = All-some e tt
fields-IsServable default (a ∷ b ∷ rest) e = elim (Bool-cases (is_nil a || is_nil b)) [
  | inl empty ↦ All-some {rs = []} (ground arith) tt
  | inr full ↦ elim (Bool-cases (is_valid_name (normalize_domain b))) [
    | inl ok ↦
        expand-IsServable a (normalize_domain b) (line_ttl rest default) (ok, (b, refl))
          (ground arith)
    | inr bad ↦ All-some {rs = []} (ground arith) tt
  ]
]

line-IsServable :
    (default : ℕ) (line : Text) {rs : List LocalRecord}
    → line_records default line ≡ some rs
    → All IsServable rs
unfolding line_records
line-IsServable default line e =
    elim (Bool-cases (is_nil (strip (take_until (λ c. c == b'#') line)))) [
      | inl empty ↦ All-some {rs = []} (ground arith) tt
      | inr full ↦
          fields-IsServable default (line_fields (strip (take_until (λ c. c == b'#') line)))
            (ground arith)
    ]

add_records-IsServable :
    (records rs : List LocalRecord)
    → All IsServable records
    → All IsServable rs
    → All IsServable (add_records records rs)
unfolding add_records
add_records-IsServable records [] h g = h
add_records-IsServable records (r ∷ rs) h g =
    elim (Bool-cases (contains (keys_of records) (record_key r))) [
      | inl old ↦ rw old (add_records-IsServable records rs h g.1)
      | inr new ↦ rw new (
          add_records-IsServable (records ++ r ∷ []) rs (All-append records (r ∷ []) h (g.0, tt))
            g.1)
    ]

lines-IsServable :
    (default : ℕ) (records : List LocalRecord) (ls : List Text) {all : List LocalRecord}
    → All IsServable records
    → add_zone_lines default records ls ≡ some all
    → All IsServable all
unfolding add_zone_lines
lines-IsServable default records [] h e = All-some e h
lines-IsServable default records (l ∷ ls) h e = elim (Option-cases (line_records default l)) [
  | inl bad ↦ absurd (ground arith)
  | inr (rs, ok) ↦
      lines-IsServable default (add_records records rs) ls
        (add_records-IsServable records rs h (line-IsServable default l ok)) (ground arith)
]

-- Each record of a parsed zone is an address record with the text of an address, an alias to a
-- valid name, or the reverse record of an address; the names it serves or points to, other than a
-- reverse name, are valid and normalized.
pub parse_zone-IsServable :
    (text : Text) (default : ℕ) {rs : List LocalRecord}
    → parse_zone text default ≡ some rs
    → All IsServable rs
unfolding parse_zone
parse_zone-IsServable text default e = lines-IsServable default [] (splitlines text) tt e
