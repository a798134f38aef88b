-- ===== src/Repository/ClientStats/Site.antt =====
-- src/mirenai/repository/client_stats.py: the statistics of the site by hour, and the totals of the
-- clients. The sums of the columns are taken over the rows of each hour.
use mirenai.Python.Dict
use mirenai.Prelude.{
  Bool, List, Option, [], ap, arith, contains, false, if◌then◌else◌, leb, length, list_beq_iff,
  list_eq, ltb, map, min, nat_eq, none, not, pair_eq, refl, some, true, ℕ, ◌&&◌, ◌*◌, ◌+◌, ◌-◌,
  ◌==◌, ◌∙◌, ◌∷◌, ◌≡◌,
}
use mirenai.Buffers.Stats.{StatKey}
use mirenai.Buffers.Tally.{hour, value_or_zero}
use mirenai.Python.Dict.{Dict}
use mirenai.Python.Text.{Text}
use mirenai.Repository.ClientStats.{HourlyStat, retention_hours}
use mirenai.Repository.ClientStats.Chart.{StatRow, hours_ok, zero_stat}
use mirenai.Repository.Group.{distinct_values, group_by, group_by-rows, sum_of, value-map}
use mirenai.Repository.Hours.{fill_window}
use mirenai.Repository.Select.{order_by, page_rows, where_rows}

-- the columns of a row of the site besides the hour
pub record SiteStat : Type 0 where
  pub sums : HourlyStat
  pub clients : ℕ

abbrev pub SiteRow : Type 0
SiteRow = ℕ × SiteStat

abbrev pub zero_site_row : ℕ → SiteRow
zero_site_row bucket = (bucket, record { sums = zero_stat; clients = 0 })

-- `func.sum` of every column and `func.count(func.distinct(...))`
abbrev pub site_stat : List StatRow → SiteStat
site_stat rows = record {
  sums = record {
    total = sum_of (λ (x : StatRow). x.1.total) rows;
    forwarded = sum_of (λ (x : StatRow). x.1.forwarded) rows;
    cached = sum_of (λ (x : StatRow). x.1.cached) rows;
    overridden = sum_of (λ (x : StatRow). x.1.overridden) rows;
    local = sum_of (λ (x : StatRow). x.1.local) rows;
    denied = sum_of (λ (x : StatRow). x.1.denied) rows;
    blocked = sum_of (λ (x : StatRow). x.1.blocked) rows;
    servfail = sum_of (λ (x : StatRow). x.1.servfail) rows;
    foreign = sum_of (λ (x : StatRow). x.1.foreign) rows;
  };
  clients = length (distinct_values (map (λ (x : StatRow). x.0.1) rows));
}

abbrev pub site_groups : ℕ → Option ℕ → Dict StatKey HourlyStat → Dict ℕ (List StatRow)
site_groups now hours t =
    group_by (λ (x : StatRow). x.0.0) (where_rows (λ x. hours_ok hours now x.0.0) t)

abbrev pub site_rows : ℕ → Option ℕ → Dict StatKey HourlyStat → List SiteRow
site_rows now hours t =
    order_by (λ x y. not (ltb x.0 y.0))
      (map (λ (g : ℕ × List StatRow). (g.0, site_stat g.1)) (site_groups now hours t))

abbrev pub site_row_or_zero : ℕ → Option SiteStat → List SiteRow
site_row_or_zero bucket none = zero_site_row bucket ∷ []
site_row_or_zero bucket (some s) = (bucket, s) ∷ []

-- `_fill_hours` with rows that have one hour each
unfoldable pub fill_site_hours : Dict ℕ SiteStat → ℕ → ℕ → Option (List SiteRow)
fill_site_hours rows hours now =
    fill_window (λ bucket. site_row_or_zero bucket (Dict.get bucket rows))
      (min hours retention_hours) now

unfoldable pub list_site_hourly_stats :
    ℕ → Option ℕ → ℕ → Option ℕ → Bool → Dict StatKey HourlyStat → Option (List SiteRow)
list_site_hourly_stats now limit offset hours false t =
    some (page_rows limit offset (site_rows now hours t))
list_site_hourly_stats now limit offset none true t = some (site_rows now none t)
list_site_hourly_stats now limit offset (some n) true t =
    fill_site_hours (site_rows now (some n) t) n now

unfoldable pub count_site_hourly_stats : ℕ → Option ℕ → Dict StatKey HourlyStat → ℕ
count_site_hourly_stats now hours t = length (site_groups now hours t)

-- the clients of the query, if they are given
abbrev pub clients_ok : Option (List Text) → Text → Bool
clients_ok none client = true
clients_ok (some cs) client = contains cs client

unfoldable pub sum_total_by_client :
    ℕ → Option (List Text) → ℕ → Dict StatKey HourlyStat → Dict Text ℕ
sum_total_by_client now clients hours t =
    map (λ (g : Text × List StatRow). (g.0, sum_of (λ (x : StatRow). x.1.total) g.1))
      (group_by (λ (x : StatRow). x.0.1)
        (where_rows
          (λ x. leb (now - min hours retention_hours * hour) x.0.0 && clients_ok clients x.0.1) t))

-- the sum of the totals of a client over the rows whose hour is in the window
abbrev pub client_total : Text → ℕ → Dict StatKey HourlyStat → ℕ
client_total c cutoff [] = 0
client_total c cutoff ((k, s) ∷ t) =
    (if leb cutoff k.0 && k.1 == c then s.total else 0) + client_total c cutoff t

client_total-where :
    (c : Text) (cutoff : ℕ) (clients : Option (List Text)) (t : Dict StatKey HourlyStat)
    → clients_ok clients c ≡ true
    → sum_of
        (λ (x : StatRow). x.1.total)
        (where_rows
          (λ (x : StatRow). x.0.1 == c)
          (where_rows (λ x. leb cutoff x.0.0 && clients_ok clients x.0.1) t))
      ≡ client_total c cutoff t
client_total-where c cutoff clients [] h = refl
client_total-where c cutoff clients ((k, s) ∷ t) h =
    ground (arith, client_total-where c cutoff clients t h, list_beq_iff k.1 c)

-- The total of a client that is asked for is the sum over its hours in the window, which goes at
-- most 500 hours back; a client with no row there is absent and counts as zero.
pub sum_total_by_client_lem :
    (now hours : ℕ) (clients : Option (List Text)) (t : Dict StatKey HourlyStat) (c : Text)
    → clients_ok clients c ≡ true
    → value_or_zero (λ n. n) (Dict.get c (sum_total_by_client now clients hours t))
      ≡ client_total c (now - min hours retention_hours * hour) t
unfolding sum_total_by_client
sum_total_by_client_lem now hours clients t c h =
    let cutoff : ℕ = now - min hours retention_hours * hour in
    let rows = where_rows (λ x. leb cutoff x.0.0 && clients_ok clients x.0.1) t in
    value-map (sum_of (λ (x : StatRow). x.1.total)) c (group_by (λ (x : StatRow). x.0.1) rows) refl
    ∙ ap (sum_of (λ (x : StatRow). x.1.total)) (group_by-rows (λ (x : StatRow). x.0.1) c rows)
    ∙ client_total-where c cutoff clients t h
