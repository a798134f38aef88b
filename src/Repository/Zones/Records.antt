-- ===== src/Repository/Zones/Records.antt =====
-- src/mirenai/repository/local_zones.py: the lists of the records, and what a replacement and the
-- deletion of a zone do to them.
use mathlib.Core.List.{append-nil}
use mirenai.Prelude.{
  All, Bool, Bool-cases, List, Option, Option-cases, [], ap, arith, false, if◌then◌else◌, inl, inr,
  length, list_eq, nat_eq, none, not, pair_eq, refl, some, suc, true, ℕ, ◌&&◌, ◌++◌, ◌==◌, ◌||◌,
  ◌∙◌, ◌∷◌, ◌≡◌,
}
use mirenai.Blocklist.{is_nil}
use mirenai.LocalZones.{LocalRecord}
use mirenai.Python.Dict.{is_some}
use mirenai.Python.Str.Strip.{upper}
use mirenai.Python.Text.{Text}
use mirenai.Repository.Like.{ilike, search_term}
use mirenai.Repository.Rows.{get-other_rows, other_rows}
use mirenai.Repository.Select.{length-order_by, order_by, page_rows, where_rows}
use mirenai.Repository.Texts.{text_ltb}
use mirenai.Repository.Zones.{
  LocalZone, ZoneRecord, delete_local_zone, get_local_zone, records_outside, replace_records,
  zone_rows,
}

-- by name, type and value
abbrev pub record_before : LocalRecord → LocalRecord → Bool
record_before r s =
    if r.name == s.name
    then (if r.rtype == s.rtype then not (text_ltb s.value r.value) else text_ltb r.rtype s.rtype)
    else text_ltb r.name s.name

-- the records of one zone, in the order of their ids
abbrev pub stored_records : ℕ → List ZoneRecord → List LocalRecord
stored_records id [] = []
stored_records id ((i, r) ∷ rs) =
    let rest = stored_records id rs in if i == id then r ∷ rest else rest

unfoldable pub list_records : ℕ → Option ℕ → ℕ → List ZoneRecord → List LocalRecord
list_records id limit offset rs =
    page_rows limit offset (order_by record_before (stored_records id rs))

unfoldable pub count_records : ℕ → List ZoneRecord → ℕ
count_records id rs = length (stored_records id rs)

-- `if search:` and `if rtype:`, where an absent value is the empty text
abbrev pub search_ok : Text → LocalRecord → Bool
search_ok sought r =
    is_nil sought || ilike r.name (search_term sought) || ilike r.value (search_term sought)

abbrev pub rtype_ok : Text → LocalRecord → Bool
rtype_ok rtype r = is_nil rtype || r.rtype == upper rtype

abbrev pub record_ok : Text → Text → ZoneRecord → Bool
record_ok sought rtype r = search_ok sought r.1 && rtype_ok rtype r.1

-- the join with the zones, of which a row gives the name
abbrev pub joined_name : Option LocalZone → LocalRecord → List (LocalRecord × Text)
joined_name none r = []
joined_name (some z) r = (r, z.name) ∷ []

abbrev pub join_zones : List LocalZone → List ZoneRecord → List (LocalRecord × Text)
join_zones zs [] = []
join_zones zs ((i, r) ∷ rs) = joined_name (get_local_zone i zs) r ++ join_zones zs rs

unfoldable pub list_all_records :
    Option ℕ → ℕ → Text → Text → List LocalZone → List ZoneRecord → List (LocalRecord × Text)
list_all_records limit offset sought rtype zs rs = page_rows limit offset (
    order_by (λ x y. record_before x.0 y.0)
      (join_zones zs (where_rows (record_ok sought rtype) rs)))

unfoldable pub count_all_records : Text → Text → List ZoneRecord → ℕ
count_all_records sought rtype rs = length (where_rows (record_ok sought rtype) rs)

-- Each record belongs to a zone that is there.
abbrev pub IsOwned : List LocalZone → List ZoneRecord → Type 0
IsOwned zs rs = All (λ r. is_some (get_local_zone r.0 zs) ≡ true) rs

stored_records-append :
    (id : ℕ) (rs qs : List ZoneRecord)
    → stored_records id (rs ++ qs) ≡ stored_records id rs ++ stored_records id qs
stored_records-append id [] qs = refl
stored_records-append id ((i, r) ∷ rs) qs = ground (arith, stored_records-append id rs qs)

stored_records-outside :
    (id j : ℕ) (rs : List ZoneRecord)
    → stored_records j (records_outside id rs) ≡ (if j == id then [] else stored_records j rs)
stored_records-outside id j [] = ground arith
stored_records-outside id j ((i, r) ∷ rs) = ground (arith, stored_records-outside id j rs)

stored_records-zone_rows :
    (id j : ℕ) (records : List LocalRecord)
    → stored_records j (zone_rows id records) ≡ (if j == id then records else [])
stored_records-zone_rows id j [] = ground arith
stored_records-zone_rows id j (r ∷ records) = ground (arith, stored_records-zone_rows id j records)

-- The replacement leaves a zone with just the given records, in their order, and the other zones
-- with theirs.
pub stored_records-replace_records :
    (id j : ℕ) (records : List LocalRecord) (rs : List ZoneRecord)
    → stored_records j (replace_records id records rs)
      ≡ (if j == id then records else stored_records j rs)
unfolding replace_records
stored_records-replace_records id j records rs =
    stored_records-append j (records_outside id rs) (zone_rows id records)
    ∙ rw (stored_records-outside id j rs, stored_records-zone_rows id j records)
        (elim (Bool-cases (j == id)) [
          | inl same ↦ rw same refl
          | inr other ↦ rw other (append-nil (stored_records j rs))
        ])

All-append {κ} :
    {A : Type 0} (P : A → Type κ) (xs ys : List A) → All P xs → All P ys → All P (xs ++ ys)
All-append P [] ys h k = k
All-append P (x ∷ xs) ys h k = (h.0, All-append P xs ys h.1 k)

zone_rows-All :
    (zs : List LocalZone) (id : ℕ) (records : List LocalRecord)
    → is_some (get_local_zone id zs) ≡ true
    → IsOwned zs (zone_rows id records)
zone_rows-All zs id [] h = tt
zone_rows-All zs id (r ∷ records) h = (h, zone_rows-All zs id records h)

outside-IsOwned :
    (zs ys : List LocalZone) (id : ℕ) (rs : List ZoneRecord)
    → ((j : ℕ) → (j == id) ≡ false → get_local_zone j ys ≡ get_local_zone j zs)
    → IsOwned zs rs
    → IsOwned ys (records_outside id rs)
outside-IsOwned zs ys id [] h k = tt
outside-IsOwned zs ys id ((i, r) ∷ rs) h k = elim (Bool-cases (i == id)) [
  | inl same ↦ rw same (outside-IsOwned zs ys id rs h k.1)
  | inr other ↦ rw other (rw (h i other) k.0, outside-IsOwned zs ys id rs h k.1)
]

pub replace_records-IsOwned :
    (zs : List LocalZone) (id : ℕ) (records : List LocalRecord) (rs : List ZoneRecord)
    → is_some (get_local_zone id zs) ≡ true
    → IsOwned zs rs
    → IsOwned zs (replace_records id records rs)
unfolding replace_records
replace_records-IsOwned zs id records rs h k =
    All-append (λ r. is_some (get_local_zone r.0 zs) ≡ true) (records_outside id rs)
      (zone_rows id records) (outside-IsOwned zs zs id rs (λ j e. refl) k)
      (zone_rows-All zs id records h)

-- The deletion of a zone leaves no record without a zone.
pub delete_local_zone-IsOwned :
    (id : ℕ) (zs : List LocalZone) (rs : List ZoneRecord)
    → IsOwned zs rs
    → let (tables, found) = delete_local_zone id zs rs in IsOwned tables.0 tables.1
unfolding delete_local_zone
delete_local_zone-IsOwned id zs rs k = elim (Option-cases (get_local_zone id zs)) [
  | inl absent ↦ rw (absent, delete_local_zone) k
  | inr (z, found) ↦
      rw (found, delete_local_zone)
        (outside-IsOwned zs (other_rows (λ (y : LocalZone). y.id) id zs) id rs
          (λ j e. get-other_rows (λ (y : LocalZone). y.id) id j zs ∙ rw e refl) k)
]

length-join_zones :
    (zs : List LocalZone) (test : ZoneRecord → Bool) (rs : List ZoneRecord)
    → IsOwned zs rs
    → length (join_zones zs (where_rows test rs)) ≡ length (where_rows test rs)
length-join_zones zs test [] k = refl
length-join_zones zs test ((i, r) ∷ rs) k = elim (Option-cases (get_local_zone i zs)) [
  | inl absent ↦ absurd (ground (arith, k.0))
  | inr (z, found) ↦ elim (Bool-cases (test (i, r))) [
    | inl e ↦ rw (e, found) (ap suc (length-join_zones zs test rs k.1))
    | inr e ↦ rw e (length-join_zones zs test rs k.1)
  ]
]

-- If every record belongs to a zone that is there (`IsOwned`), the count, which does not join the
-- zones, is the length of the list, which does, without a limit and for any filter.
pub count-list_all_records :
    (offset : ℕ) (sought rtype : Text) (zs : List LocalZone) (rs : List ZoneRecord)
    → IsOwned zs rs
    → length (list_all_records none offset sought rtype zs rs) ≡ count_all_records sought rtype rs
unfolding list_all_records count_all_records
count-list_all_records offset sought rtype zs rs k =
    length-order_by (λ x y. record_before x.0 y.0)
      (join_zones zs (where_rows (record_ok sought rtype) rs))
    ∙ length-join_zones zs (record_ok sought rtype) rs k
