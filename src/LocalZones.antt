-- ===== src/LocalZones.antt =====
-- src/mirenai/domain/localzones.py: zone files of local records, and their index.
use mirenai.Python.Dict
pub mod Parse
pub mod Index
pub mod Serve
use mirenai.Prelude.{
  Bool, List, Option, [], contains, head?, if◌then◌else◌, list_eq, map, nat_eq, none, not, pair_eq,
  some, ℕ, ◌&&◌, ◌++◌, ◌+◌, ◌==◌, ◌||◌, ◌∷◌,
}
use mirenai.Blocklist.{is_nil}
use mirenai.Names.{name_matches}
use mirenai.Policy.{normalize_domain}
use mirenai.Python.Dict.{Dict}
use mirenai.Python.Int.{clip, parse_int}
use mirenai.Python.Ip.{Addr, addr_text, ip_address, ipv4, ipv6, reverse_pointer}
use mirenai.Python.Str.Affix.{take_until}
use mirenai.Python.Str.Split.{split, splitlines}
use mirenai.Python.Str.Strip.{strip}
use mirenai.Python.Text.{Text, codes}

abbrev pub default_ttl : ℕ
default_ttl = 300

abbrev pub rtype_a : Text
rtype_a = codes "A"

abbrev pub rtype_aaaa : Text
rtype_aaaa = codes "AAAA"

abbrev pub rtype_cname : Text
rtype_cname = codes "CNAME"

abbrev pub rtype_ptr : Text
rtype_ptr = codes "PTR"

abbrev pub valid_rtypes : List Text
valid_rtypes = rtype_a ∷ rtype_aaaa ∷ rtype_cname ∷ rtype_ptr ∷ []

pub record LocalRecord : Type 0 where
  pub name : Text
  pub rtype : Text
  pub value : Text
  pub ttl : ℕ

-- `_is_valid_name`
unfoldable pub is_valid_name : Text → Bool
unfolding name_matches
is_valid_name name = not (is_nil name) && name_matches 1 name

-- `_parse_ttl`
unfoldable pub parse_ttl : Text → ℕ → ℕ
unfolding parse_int
parse_ttl raw default = elim (parse_int raw) [ none ↦ default | some i ↦ clip i ]

-- by `addr.version`
abbrev pub address_rtype : Addr → Text
address_rtype (ipv4 n) = rtype_a
address_rtype (ipv6 n scope) = rtype_aaaa

-- `_expand`, where `none` is the error that `addr.reverse_pointer` raises for an address with a
-- scope id
unfoldable pub expand : Text → Text → ℕ → Option (List LocalRecord)
unfolding ip_address addr_text reverse_pointer normalize_domain is_valid_name
expand value name ttl = elim (ip_address value) [
  | none ↦
      let target = normalize_domain value in
      if is_valid_name target
      then some (record { name = name; rtype = rtype_cname; value = target; ttl = ttl } ∷ [])
      else some []
  | some addr ↦ elim (reverse_pointer addr) [
    | none ↦ none
    | some reverse ↦ some (
        record { name = name; rtype = address_rtype addr; value = addr_text addr; ttl = ttl }
        ∷ record { name = reverse; rtype = rtype_ptr; value = name; ttl = ttl }
        ∷ [])
  ]
]

-- The third field, if there is one that is not empty, and the default otherwise.
abbrev pub line_ttl : List Text → ℕ → ℕ
line_ttl [] default = default
line_ttl ([] ∷ more) default = default
line_ttl ((c ∷ raw) ∷ more) default = parse_ttl (c ∷ raw) default

-- the fields of a line: the texts between commas, without the comment and without white space
abbrev pub line_fields : Text → List Text
line_fields line = map strip (split b',' line)

abbrev pub expand_fields : ℕ → List Text → Option (List LocalRecord)
expand_fields default [] = some []
expand_fields default (a ∷ []) = some []
expand_fields default (a ∷ b ∷ rest) =
    if is_nil a || is_nil b
    then some []
    else if is_valid_name (normalize_domain b)
    then expand a (normalize_domain b) (line_ttl rest default)
    else some []

-- the records of one line
unfoldable pub line_records : ℕ → Text → Option (List LocalRecord)
line_records default raw_line =
    let line = strip (take_until (λ c. c == b'#') raw_line) in
    if is_nil line then some [] else expand_fields default (line_fields line)

abbrev pub RecordKey : Type 0
RecordKey = Text × (Text × Text)

abbrev pub record_key : LocalRecord → RecordKey
record_key r = (r.name, (r.rtype, r.value))

abbrev pub keys_of : List LocalRecord → List RecordKey
keys_of [] = []
keys_of (r ∷ rs) = record_key r ∷ keys_of rs

-- The set `seen` holds the keys of the records so far.
unfoldable pub add_records : List LocalRecord → List LocalRecord → List LocalRecord
add_records records [] = records
add_records records (r ∷ rs) =
    if contains (keys_of records) (record_key r)
    then add_records records rs
    else add_records (records ++ r ∷ []) rs

unfoldable pub add_zone_lines : ℕ → List LocalRecord → List Text → Option (List LocalRecord)
add_zone_lines default records [] = some records
add_zone_lines default records (l ∷ ls) = elim (line_records default l) [
  | none ↦ none
  | some rs ↦ add_zone_lines default (add_records records rs) ls
]

-- `parse_zone`
unfoldable pub parse_zone : Text → ℕ → Option (List LocalRecord)
parse_zone text default = add_zone_lines default [] (splitlines text)

pub record LocalRecords : Type 0 where
  pub index : Dict (Text × Text) (List LocalRecord)
  pub names : List Text
  pub count : ℕ

abbrev pub or_nil : Option (List LocalRecord) → List LocalRecord
or_nil none = []
or_nil (some rs) = rs

-- one round of the loop of `__init__`
unfoldable pub index_record : LocalRecords → LocalRecord → LocalRecords
index_record t r =
    let key : Text × Text = (r.name, r.rtype) in
    record {
      index = Dict.put key (or_nil (Dict.get key t.index) ++ r ∷ []) t.index;
      names = if contains t.names r.name then t.names else r.name ∷ t.names;
      count = t.count + 1;
    }

unfoldable pub index_records : LocalRecords → List LocalRecord → LocalRecords
index_records t [] = t
index_records t (r ∷ rs) = index_records (index_record t r) rs

abbrev pub empty_records : LocalRecords
empty_records = record { index = []; names = []; count = 0 }

-- `LocalRecords.__init__`
unfoldable pub local_records : List LocalRecord → LocalRecords
local_records records = index_records empty_records records

unfoldable pub owns : LocalRecords → Text → Bool
owns t name = contains t.names name

-- `LocalRecords.get`
unfoldable pub records_of : LocalRecords → Text → Text → List LocalRecord
records_of t name rtype = or_nil (Dict.get (name, rtype) t.index)

unfoldable pub cname : LocalRecords → Text → Option LocalRecord
cname t name = elim (Dict.get (name, rtype_cname) t.index) [ none ↦ none | some rs ↦ head? rs ]

-- `__len__`
unfoldable pub record_count : LocalRecords → ℕ
record_count t = t.count
