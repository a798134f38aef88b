-- ===== src/LocalZones/Index.antt =====
-- src/mirenai/domain/localzones.py: what the index answers.
use mirenai.Python.Dict
use mirenai.LocalZones.{
  LocalRecord, LocalRecords, index_record, index_records, local_records, owns, records_of, cname,
  record_count, empty_records, or_nil, rtype_cname,
}
use mathlib.Core.List.{append-nil, append_assoc}
use mirenai.Prelude.{
  Bool, List, Option, [], ap, arith, contains, false, head?, if◌then◌else◌, length, list_beq_iff,
  list_eq, nat_eq, none, pair_beq_iff, pair_eq, refl, some, ◌&&◌, ◌++◌, ◌+◌, ◌==◌, ◌||◌, ◌∙◌, ◌∷◌,
  ◌≡◌,
}
use mirenai.Python.Dict.{Dict}
use mirenai.Python.Text.{Text}

-- the records with a name, and those with a name and a type, in order
abbrev pub named : Text → List LocalRecord → Bool
named name [] = false
named name (r ∷ rs) = r.name == name || named name rs

abbrev pub typed : Text → Text → List LocalRecord → List LocalRecord
typed name rtype [] = []
typed name rtype (r ∷ rs) =
    let rest = typed name rtype rs in if r.name == name && r.rtype == rtype then r ∷ rest else rest

owns-index_records :
    (t : LocalRecords) (rs : List LocalRecord) (name : Text)
    → contains (index_records t rs).names name ≡ (contains t.names name || named name rs)
unfolding index_records index_record
owns-index_records t [] name = ground arith
owns-index_records t (r ∷ rs) name =
    ground (arith, owns-index_records (index_record t r) rs name, list_beq_iff r.name name)

get-index_record :
    (t : LocalRecords) (r : LocalRecord) (k : Text × Text)
    → or_nil (Dict.get k (index_record t r).index) ≡ (
        if (r.name, r.rtype) == k
        then or_nil (Dict.get k t.index) ++ r ∷ []
        else or_nil (Dict.get k t.index))
unfolding index_record
get-index_record t r k = ground (
  arith,
  Dict.get-put (r.name, r.rtype) k (or_nil (Dict.get (r.name, r.rtype) t.index) ++ r ∷ []) t.index,
  pair_beq_iff (r.name, r.rtype) k,
)

get-index_records :
    (t : LocalRecords) (rs : List LocalRecord) (name rtype : Text)
    → or_nil (Dict.get (name, rtype) (index_records t rs).index)
      ≡ or_nil (Dict.get (name, rtype) t.index) ++ typed name rtype rs
unfolding index_records
get-index_records t [] name rtype =
    ground (arith, append-nil (or_nil (Dict.get (name, rtype) t.index)))
get-index_records t (r ∷ rs) name rtype = ground (
  arith,
  get-index_records (index_record t r) rs name rtype,
  get-index_record t r (name, rtype),
  append_assoc (or_nil (Dict.get (name, rtype) t.index)) (r ∷ []) (typed name rtype rs),
)

count-index_records :
    (t : LocalRecords) (rs : List LocalRecord) → (index_records t rs).count ≡ t.count + length rs
unfolding index_records index_record
count-index_records t [] = omega arith
count-index_records t (r ∷ rs) = omega (arith, count-index_records (index_record t r) rs)

get-local_records :
    (records : List LocalRecord) (name rtype : Text)
    → or_nil (Dict.get (name, rtype) (local_records records).index) ≡ typed name rtype records
unfolding local_records Dict.get
get-local_records records name rtype = get-index_records empty_records records name rtype

head-or_nil :
    (o : Option (List LocalRecord))
    → (elim o [ none ↦ none | some rs ↦ head? rs ]) ≡ head? (or_nil o)
head-or_nil none = refl
head-or_nil (some rs) = refl

cname-index :
    (records : List LocalRecord) (name : Text)
    → cname (local_records records) name ≡ head? (typed name rtype_cname records)
unfolding cname
cname-index records name =
    head-or_nil (Dict.get (name, rtype_cname) (local_records records).index)
    ∙ ap head? (get-local_records records name rtype_cname)

count-local_records :
    (records : List LocalRecord) → record_count (local_records records) ≡ length records
unfolding record_count local_records
count-local_records records = omega (arith, count-index_records empty_records records)

-- The index of a list of records owns exactly the names that occur in it, answers a name and a
-- type with the records that have both, in their order, a name alone with its first alias, and has
-- the length of the list.
pub local_records-answers :
    (records : List LocalRecord) (name rtype : Text)
    → (owns (local_records records) name ≡ named name records)
      × (records_of (local_records records) name rtype ≡ typed name rtype records)
      × (cname (local_records records) name ≡ head? (typed name rtype_cname records))
      × (record_count (local_records records) ≡ length records)
unfolding local_records owns records_of record_count
local_records-answers records name rtype = (
  owns-index_records empty_records records name,
  get-local_records records name rtype,
  cname-index records name,
  count-local_records records,
)
