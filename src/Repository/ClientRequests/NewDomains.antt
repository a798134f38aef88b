-- ===== src/Repository/ClientRequests/NewDomains.antt =====
-- src/mirenai/repository/client_requests.py: the number of new domains of each client by hour.
use mirenai.Python.Dict
use mirenai.Buffers.Requests.{RequestKey}
use mirenai.Prelude.{
  List, Option, [], if◌then◌else◌, leb, list_eq, map, min, nat_eq, none, pair_eq, some, suc, zero,
  ℕ, ◌&&◌, ◌*◌, ◌+◌, ◌-◌, ◌==◌, ◌∷◌,
}
use mirenai.Buffers.Tally.{bump, count, floor_hour, hour}
use mirenai.Python.Dict.{Dict}
use mirenai.Python.Text.{Text}
use mirenai.Repository.ClientRequests.{ClientRequest, RequestTable}
use mirenai.Repository.ClientStats.Chart.{client_ok}
use mirenai.Repository.Group.{distinct_values, group_by}
use mirenai.Repository.Select.{order_by, where_rows}
use mirenai.Repository.Texts.{newest_first}
use mirenai.Repository.Upsert.{purge}

abbrev pub new_domain_window_hours : ℕ
new_domain_window_hours = 20

abbrev pub RequestRow : Type 0
RequestRow = RequestKey × ClientRequest

abbrev pub least_first_seen : ℕ → List RequestRow → ℕ
least_first_seen m [] = m
least_first_seen m (x ∷ rows) = least_first_seen (min m x.1.first_seen) rows

-- a group has a row
abbrev pub group_first_seen : List RequestRow → ℕ
group_first_seen [] = 0
group_first_seen (x ∷ rows) = least_first_seen x.1.first_seen rows

abbrev pub client_domain : RequestRow → Text × Text
client_domain x = (x.0.0, x.0.1.0)

-- each client and domain with the earliest `first_seen` over the types
abbrev pub first_seens : RequestTable → List ((Text × Text) × ℕ)
first_seens t =
    map (λ (g : (Text × Text) × List RequestRow). (g.0, group_first_seen g.1))
      (group_by client_domain t)

abbrev pub CountKey : Type 0
CountKey = ℕ × Text

-- the rows whose hour is in the window, counted by hour and client
abbrev pub count_new : ℕ → ℕ → List ((Text × Text) × ℕ) → Dict CountKey ℕ → Dict CountKey ℕ
count_new start current [] counts = counts
count_new start current ((k, first) ∷ rows) counts = count_new start current rows (
    if leb start (floor_hour first) && leb (floor_hour first) current
    then bump (floor_hour first, k.0) counts
    else counts)

abbrev pub known_clients : List ((Text × Text) × ℕ) → List Text
known_clients rows = distinct_values (map (λ (x : (Text × Text) × ℕ). x.0.0) rows)

-- `window_start + timedelta(hours=i)` for each `i`
abbrev pub hours_from : ℕ → ℕ → List ℕ
hours_from zero start = []
hours_from (suc n) start = start ∷ hours_from n (start + hour)

-- one upsert for each client
abbrev pub put_clients : ℕ → List Text → Dict CountKey ℕ → Dict CountKey ℕ → Dict CountKey ℕ
put_clients h [] counts t = t
put_clients h (c ∷ cs) counts t = put_clients h cs counts (Dict.put (h, c) (count (h, c) counts) t)

abbrev pub put_hours : List ℕ → List Text → Dict CountKey ℕ → Dict CountKey ℕ → Dict CountKey ℕ
put_hours [] cs counts t = t
put_hours (h ∷ hs) cs counts t = put_hours hs cs counts (put_clients h cs counts t)

unfoldable pub window_start : ℕ → ℕ
window_start now = floor_hour now - (new_domain_window_hours - 1) * hour

-- the table `ClientNewDomainStat` after the run
unfoldable pub materialize_new_domains : ℕ → RequestTable → Dict CountKey ℕ → Dict CountKey ℕ
materialize_new_domains now requests t =
    let rows = first_seens requests in
    let counts = count_new (window_start now) (floor_hour now) rows [] in
    purge (λ k. k.0) (window_start now)
      (put_hours (hours_from new_domain_window_hours (window_start now)) (known_clients rows) counts
        t)

-- the rows by hour, newest first, and then by client
unfoldable pub list_new_domain_counts : Option Text → Dict CountKey ℕ → List (CountKey × ℕ)
list_new_domain_counts client t = where_rows (λ x. client_ok client x.0.1) (order_by newest_first t)

-- the domains of a client whose earliest request falls into an hour
abbrev pub new_in_hour : ℕ → Text → List ((Text × Text) × ℕ) → ℕ
new_in_hour h c [] = 0
new_in_hour h c ((k, first) ∷ rows) =
    (if floor_hour first == h && k.0 == c then 1 else 0) + new_in_hour h c rows

-- The earliest request of a client for a domain, of any type, or none.
abbrev pub earlier : ℕ → Option ℕ → ℕ
earlier m none = m
earlier m (some n) = min m n

abbrev pub earliest_request : Text → Text → RequestTable → Option ℕ
earliest_request c d [] = none
earliest_request c d ((k, r) ∷ t) =
    let rest = earliest_request c d t in
    if k.0 == c && k.1.0 == d then some (earlier r.first_seen rest) else rest

-- the rows of a group, by the first of them
abbrev grouped : List RequestRow → Option ℕ
grouped [] = none
grouped (x ∷ rows) = some (group_first_seen (x ∷ rows))
