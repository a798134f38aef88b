-- ===== src/Repository/BlocklistSize.antt =====
-- src/mirenai/repository/blocklist_size.py: the number of blocked domains by hour, a gauge of which
-- the last sample of an hour counts. The time now is an argument.
use mirenai.Python.Dict
use mirenai.Prelude.{
  List, Option, arith, if◌then◌else◌, length, list_eq, ltb, nat_eq, none, not, pair_eq, some, ℕ,
  ◌*◌, ◌-◌, ◌/◌, ◌<◌, ◌==◌, ◌≡◌,
}
use mirenai.Buffers.Tally.{floor_hour, hour}
use mirenai.Python.Dict.{Dict}
use mirenai.Repository.ClientStats.Chart.{hours_ok}
use mirenai.Repository.Select.{order_by, page_rows, where_rows}
use mirenai.Repository.Upsert.{get-purge, purge}

abbrev pub size_retention_hours : ℕ
size_retention_hours = 500

unfoldable pub record_blocklist_size : ℕ → ℕ → Dict ℕ ℕ → Dict ℕ ℕ
record_blocklist_size now domains t =
    purge (λ h. h) (now - size_retention_hours * hour) (Dict.put (floor_hour now) domains t)

unfoldable pub list_blocklist_size : ℕ → Option ℕ → ℕ → Option ℕ → Dict ℕ ℕ → List (ℕ × ℕ)
list_blocklist_size now limit offset hours t =
    page_rows limit offset
      (order_by (λ x y. not (ltb x.0 y.0)) (where_rows (λ x. hours_ok hours now x.0) t))

unfoldable pub count_blocklist_size : ℕ → Option ℕ → Dict ℕ ℕ → ℕ
count_blocklist_size now hours t = length (where_rows (λ x. hours_ok hours now x.0) t)

-- The current hour has the last sample, an older hour in the window its own, and one from before
-- the window none.
pub get-record_blocklist_size :
    (now domains h : ℕ) (t : Dict ℕ ℕ)
    → size_retention_hours * hour < now
    → Dict.get h (record_blocklist_size now domains t) ≡ (
        if floor_hour now == h
        then some domains
        else if ltb h (now - size_retention_hours * hour)
        then none
        else Dict.get h t)
unfolding record_blocklist_size floor_hour
get-record_blocklist_size now domains h t p = ground (
  arith,
  get-purge (λ h. h) (now - size_retention_hours * hour) h (Dict.put (now / hour * hour) domains t),
  Dict.get-put (now / hour * hour) h domains t,
)
