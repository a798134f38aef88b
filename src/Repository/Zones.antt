-- ===== src/Repository/Zones.antt =====
-- src/mirenai/repository/local_zones.py: the configured zones and their records. The times of
-- creation and change are left out. A result `none` of a creation or an update is the error of the
-- unique name. The rows of the records are in the order of their ids.
pub mod Records
use mirenai.Prelude.{
  Bool, List, Option, [], contains, false, if◌then◌else◌, length, list_eq, nat_eq, none, not,
  pair_eq, some, take, true, ℕ, ◌++◌, ◌==◌, ◌||◌, ◌∷◌,
}
use mirenai.LocalZones.{LocalRecord}
use mirenai.Python.Int.Digits.{show}
use mirenai.Python.Text.{Text, codes}
use mirenai.Repository.Blocklists.{get_or, status_limit}
use mirenai.Repository.Rows.{change_row, get_row, next_row_id, other_rows}
use mirenai.Repository.Select.{page_rows, where_rows}

pub record LocalZone : Type 0 where
  pub id : ℕ
  pub name : Text
  pub url : Text
  pub update_interval_seconds : ℕ
  pub enabled : Bool
  pub record_count : ℕ
  pub last_downloaded_at : Option ℕ
  pub last_status : Option Text

-- the fields that a client sends; an update leaves a field that is `none` as it is
pub record ZoneData : Type 0 where
  pub name : Option Text
  pub url : Option Text
  pub update_interval_seconds : Option ℕ
  pub enabled : Option Bool

-- a row of `LocalDnsRecord`: the id of the zone and the record
abbrev pub ZoneRecord : Type 0
ZoneRecord = ℕ × LocalRecord

abbrev pub zone_name_taken : Text → List LocalZone → Bool
zone_name_taken name [] = false
zone_name_taken name (z ∷ zs) = z.name == name || zone_name_taken name zs

unfoldable pub list_local_zones : Option ℕ → ℕ → List LocalZone → List LocalZone
list_local_zones limit offset zs = page_rows limit offset zs

unfoldable pub count_local_zones : List LocalZone → ℕ
count_local_zones zs = length zs

abbrev pub get_local_zone : ℕ → List LocalZone → Option LocalZone
get_local_zone id zs = get_row (λ z. z.id) id zs

-- The name and the URL are required by the API.
unfoldable pub create_local_zone :
    Text → Text → ZoneData → List LocalZone → Option (List LocalZone × LocalZone)
create_local_zone name url d zs =
    let z : LocalZone = record {
      id = next_row_id (λ (z : LocalZone). z.id) zs;
      name = name;
      url = url;
      update_interval_seconds = get_or 86_400 d.update_interval_seconds;
      enabled = get_or true d.enabled;
      record_count = 0;
      last_downloaded_at = none;
      last_status = none;
    } in
    if zone_name_taken name zs then none else some (zs ++ z ∷ [], z)

abbrev pub zone_applied : ZoneData → LocalZone → LocalZone
zone_applied d z = record z {
  name = get_or z.name d.name;
  url = get_or z.url d.url;
  update_interval_seconds = get_or z.update_interval_seconds d.update_interval_seconds;
  enabled = get_or z.enabled d.enabled;
}

-- A result `none` is the error of the unique name; an unknown id has no row in the result.
unfoldable pub update_local_zone :
    ℕ → ZoneData → List LocalZone → Option (List LocalZone × Option LocalZone)
update_local_zone id d zs = elim (get_local_zone id zs) [
  | none ↦ some (zs, none)
  | some z ↦
      if zone_name_taken (zone_applied d z).name (other_rows (λ (y : LocalZone). y.id) id zs)
      then none
      else some
          (change_row (λ (y : LocalZone). y.id) id (zone_applied d) zs, some (zone_applied d z))
]

-- the records of the other zones
abbrev pub records_outside : ℕ → List ZoneRecord → List ZoneRecord
records_outside id rs = where_rows (λ (r : ZoneRecord). not (r.0 == id)) rs

-- The zone and its records are deleted in one transaction.
unfoldable pub delete_local_zone :
    ℕ → List LocalZone → List ZoneRecord → (List LocalZone × List ZoneRecord) × Bool
delete_local_zone id zs rs = elim (get_local_zone id zs) [
  | none ↦ ((zs, rs), false)
  | some z ↦ ((other_rows (λ (y : LocalZone). y.id) id zs, records_outside id rs), true)
]

abbrev pub zone_rows : ℕ → List LocalRecord → List ZoneRecord
zone_rows id [] = []
zone_rows id (r ∷ records) = (id, r) ∷ zone_rows id records

unfoldable pub replace_records : ℕ → List LocalRecord → List ZoneRecord → List ZoneRecord
replace_records id records rs = records_outside id rs ++ zone_rows id records

unfoldable pub zone_success : ℕ → ℕ → ℕ → List LocalZone → List LocalZone
zone_success now id record_count zs =
    change_row (λ (z : LocalZone). z.id) id
      (λ z. record z {
        record_count = record_count;
        last_status = some (codes "ok: " ++ show record_count ++ codes " records");
        last_downloaded_at = some now;
      })
      zs

-- `f"error: {message}"[:255]`
unfoldable pub zone_failure : ℕ → ℕ → Text → List LocalZone → List LocalZone
zone_failure now id message zs =
    change_row (λ (z : LocalZone). z.id) id
      (λ z. record z {
        last_status = some (take status_limit (codes "error: " ++ message));
        last_downloaded_at = some now;
      })
      zs

abbrev pub enabled_zones : List LocalZone → List ℕ
enabled_zones [] = []
enabled_zones (z ∷ zs) = let rest = enabled_zones zs in if z.enabled then z.id ∷ rest else rest

abbrev pub records_in : List ℕ → List ZoneRecord → List LocalRecord
records_in ids [] = []
records_in ids ((i, r) ∷ rs) =
    let rest = records_in ids rs in if contains ids i then r ∷ rest else rest

-- the records of the zones that are enabled; without any, there is no query
abbrev pub zone_records_in : List ℕ → List ZoneRecord → List LocalRecord
zone_records_in [] rs = []
zone_records_in (i ∷ ids) rs = records_in (i ∷ ids) rs

unfoldable pub load_local_records : List LocalZone → List ZoneRecord → List LocalRecord
load_local_records zs rs = zone_records_in (enabled_zones zs) rs
