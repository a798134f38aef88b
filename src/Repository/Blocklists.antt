-- ===== src/Repository/Blocklists.antt =====
-- src/mirenai/repository/blocklists.py: the configured blocklists. The times of creation and change
-- are left out. A result `none` of a creation or an update is the error of the unique name.
pub mod Domains
pub mod Lookup
pub mod Replace
use mirenai.Prelude.{
  Bool, List, Option, [], false, if◌then◌else◌, length, list_eq, nat_eq, none, pair_eq, some, take,
  true, ℕ, ◌++◌, ◌+◌, ◌==◌, ◌||◌, ◌∷◌,
}
use mirenai.Python.Int.Digits.{show}
use mirenai.Python.Text.{Text, codes}
use mirenai.Repository.Rows.{change_row, get_row, next_row_id, other_rows}
use mirenai.Repository.Select.{page_rows}

pub record Blocklist : Type 0 where
  pub id : ℕ
  pub name : Text
  pub url : Text
  pub update_interval_hours : ℕ
  pub enabled : Bool
  pub domain_count : ℕ
  pub last_downloaded_at : Option ℕ
  pub last_status : Option Text
  pub format : Option Text

-- the fields that a client sends; an update leaves a field that is `none` as it is
pub record BlocklistData : Type 0 where
  pub name : Option Text
  pub url : Option Text
  pub update_interval_hours : Option ℕ
  pub enabled : Option Bool

abbrev pub get_or {ℓ} : {A : Type ℓ} → A → Option A → A
get_or a none = a
get_or a (some b) = b

abbrev pub name_taken : Text → List Blocklist → Bool
name_taken name [] = false
name_taken name (b ∷ bs) = b.name == name || name_taken name bs

unfoldable pub list_blocklists : Option ℕ → ℕ → List Blocklist → List Blocklist
list_blocklists limit offset bs = page_rows limit offset bs

unfoldable pub count_blocklists : List Blocklist → ℕ
count_blocklists bs = length bs

abbrev pub get_blocklist : ℕ → List Blocklist → Option Blocklist
get_blocklist id bs = get_row (λ b. b.id) id bs

-- The name and the URL are required by the API.
unfoldable pub create_blocklist :
    Text → Text → BlocklistData → List Blocklist → Option (List Blocklist × Blocklist)
create_blocklist name url d bs =
    let b : Blocklist = record {
      id = next_row_id (λ (b : Blocklist). b.id) bs;
      name = name;
      url = url;
      update_interval_hours = get_or 24 d.update_interval_hours;
      enabled = get_or true d.enabled;
      domain_count = 0;
      last_downloaded_at = none;
      last_status = none;
      format = none;
    } in
    if name_taken name bs then none else some (bs ++ b ∷ [], b)

abbrev pub applied : BlocklistData → Blocklist → Blocklist
applied d b = record b {
  name = get_or b.name d.name;
  url = get_or b.url d.url;
  update_interval_hours = get_or b.update_interval_hours d.update_interval_hours;
  enabled = get_or b.enabled d.enabled;
}

-- A result `none` is the error of the unique name; an unknown id has no row in the result.
unfoldable pub update_blocklist :
    ℕ → BlocklistData → List Blocklist → Option (List Blocklist × Option Blocklist)
update_blocklist id d bs = elim (get_blocklist id bs) [
  | none ↦ some (bs, none)
  | some b ↦
      if name_taken (applied d b).name (other_rows (λ (x : Blocklist). x.id) id bs)
      then none
      else some (change_row (λ x. x.id) id (applied d) bs, some (applied d b))
]

abbrev pub status_limit : ℕ
status_limit = 255

unfoldable pub record_success : ℕ → ℕ → ℕ → Text → List Blocklist → List Blocklist
record_success now id domain_count source_format bs =
    change_row (λ b. b.id) id
      (λ b. record b {
        domain_count = domain_count;
        format = some source_format;
        last_status = some (codes "ok: " ++ show domain_count ++ codes " domains");
        last_downloaded_at = some now;
      })
      bs

-- `f"error: {message}"[:255]`
unfoldable pub record_failure : ℕ → ℕ → Text → List Blocklist → List Blocklist
record_failure now id message bs =
    change_row (λ b. b.id) id
      (λ b. record b {
        last_status = some (take status_limit (codes "error: " ++ message));
        last_downloaded_at = some now;
      })
      bs

-- the sum of the counts of the enabled lists
unfoldable pub total_enabled_domain_count : List Blocklist → ℕ
total_enabled_domain_count [] = 0
total_enabled_domain_count (b ∷ bs) =
    (if b.enabled then b.domain_count else 0) + total_enabled_domain_count bs

-- `select(Blocklist.id).where(Blocklist.enabled.is_(True))`
abbrev pub enabled_ids : List Blocklist → List ℕ
enabled_ids [] = []
enabled_ids (b ∷ bs) = let rest = enabled_ids bs in if b.enabled then b.id ∷ rest else rest

unfoldable pub ensure_default_blocklist : List Blocklist → List Blocklist
ensure_default_blocklist [] =
    record {
      id = 1;
      name = codes "HaGeZi Multi PRO";
      url = codes "https://raw.githubusercontent.com/hagezi/dns-blocklists/main/adblock/pro.txt";
      update_interval_hours = 24;
      enabled = false;
      domain_count = 0;
      last_downloaded_at = none;
      last_status = none;
      format = none;
    }
    ∷ []
ensure_default_blocklist (b ∷ bs) = b ∷ bs
