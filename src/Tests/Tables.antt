-- ===== src/Tests/Tables.antt =====
-- The statistics of src/mirenai/repository at concrete inputs.
use mirenai.Prelude.{
  Distinct, List, [], arith, length, list_eq, map, min, nat_eq, none, pair_eq, refl, some, true,
  ◌+◌, ◌∷◌, ◌≡◌, ◌≤◌,
}
use mirenai.Buffers.Foreign.{ForeignClientAgg}
use mirenai.Buffers.Queries.{Query, QueryAgg, QueryBuffer, QueryKey, query_buffer}
use mirenai.Buffers.Stats.{ClientStatAgg, ClientStatsBuffer, Report, StatKey, stats_buffer}
use mirenai.Buffers.Tally.{floor_hour, reported}
use mirenai.Python.Dict.{Dict}
use mirenai.Python.Text.{Text, codes}
use mirenai.Repository.ClientRequests.{RequestTable}
use mirenai.Repository.ClientStats.{
  HourlyStat, client_totals_accounted, retention_hours, stats_store,
}
use mirenai.Repository.ClientStats.Chart.{
  list_client_stats, list_client_stats_chart, stat_or_zero, zero_stat,
}
use mirenai.Repository.ForeignClients.{
  ForeignClient, max_foreign_clients, record_foreign_clients, record_foreign_clients-bounded,
}
use mirenai.Repository.Hours.{
  fill_window, fill_window-hours_back, hours_back, rows_of_hours, window_length,
}
use mirenai.Repository.Persist.{accounted, steps_from}
use mirenai.Repository.QueryLog.{LogEntry, log_store, queries_accounted}
use mirenai.Python.Dict
use mirenai.Repository.Persist.{Step, World, seen}

abbrev phone : Text
phone = codes "10.0.0.5"

abbrev tv : Text
tv = codes "10.0.0.6"

-- a query at three in the morning of the first day
abbrev denied_query : Report
denied_query = (phone, (codes "deny", 10_800_000_001))

abbrev no_clients : World ClientStatsBuffer ClientStatAgg StatKey HourlyStat
no_clients = record {
  buffer = record { flush_seconds = 5; counters = [] };
  table = [];
  dropped = [];
}

abbrev stat_steps : List (Step Report)
stat_steps =
    Step.reports denied_query
    ∷ Step.writes 10_800_000_005
    ∷ Step.reports denied_query
    ∷ Step.fails
    ∷ Step.reports denied_query
    ∷ []

client_totals_accounted_example :
    accounted stats_buffer stats_store
      (10_800_000_000, phone)
      (steps_from stats_buffer stats_store stat_steps no_clients)
    ≡ accounted stats_buffer stats_store (10_800_000_000, phone) no_clients
      + reported stats_buffer (10_800_000_000, phone) (seen stat_steps)
client_totals_accounted_example =
    client_totals_accounted stat_steps no_clients (10_800_000_000, phone) tt (refl, tt)

abbrev asked : Query
asked = ((phone, (codes "a.org", codes "A")), (codes "forward", codes "1.2.3.4"))

abbrev no_log : World QueryBuffer QueryAgg QueryKey LogEntry
no_log = record { buffer = record { flush_seconds = 5; counters = [] }; table = []; dropped = [] }

abbrev log_steps : List (Step Query)
log_steps =
    Step.reports asked ∷ Step.reports asked ∷ Step.writes 7 ∷ Step.reports asked ∷ Step.fails ∷ []

queries_accounted_example :
    accounted query_buffer log_store asked.0 (steps_from query_buffer log_store log_steps no_log)
    ≡ accounted query_buffer log_store asked.0 no_log
      + reported query_buffer asked.0 (seen log_steps)
queries_accounted_example = queries_accounted log_steps no_log asked.0 tt

abbrev one_stat : HourlyStat
one_stat = record zero_stat { total = 4; denied = 4 }

abbrev stat_table : Dict StatKey HourlyStat
stat_table = ((10_800_000_000, phone), one_stat) ∷ ((10_800_000_000, tv), one_stat) ∷ []

list_client_stats_chart_example :
    list_client_stats 14_400_000_001 none 0 (some phone) (some 3) true stat_table
    ≡ some (
        map
          (λ b. ((b, phone), stat_or_zero (Dict.get (b, phone) stat_table)))
          (hours_back
            (window_length (min 3 retention_hours) 14_400_000_001)
            (floor_hour 14_400_000_001)))
list_client_stats_chart_example =
    list_client_stats_chart 14_400_000_001 none 0 phone 3 stat_table (refl, (refl, tt))
      (omega arith)

fill_window-hours_back_example :
    fill_window (λ b. b ∷ []) 3 14_400_000_001
    ≡ some (
        rows_of_hours
          (λ b. b ∷ [])
          (hours_back (window_length 3 14_400_000_001) (floor_hour 14_400_000_001)))
fill_window-hours_back_example = fill_window-hours_back (λ b. b ∷ []) 3 14_400_000_001 (omega arith)

abbrev visitor : ForeignClient
visitor = record { hits = 1; first_seen = 3; last_seen = 3 }

abbrev visitors : Dict Text ForeignClient
visitors = (codes "8.8.4.4", visitor) ∷ []

abbrev knocks : List ForeignClientAgg
knocks = record { ip = codes "8.8.4.4"; hits = 2 } ∷ record { ip = codes "9.9.9.9"; hits = 1 } ∷ []

record_foreign_clients-bounded_example :
    (length (record_foreign_clients 9 knocks visitors) ≤ max_foreign_clients)
    × Distinct (Dict.keys (record_foreign_clients 9 knocks visitors))
record_foreign_clients-bounded_example =
    record_foreign_clients-bounded 9 knocks visitors (refl, tt) (omega arith)

-- asked for the first time in the first hour of the second day, and once before the window
abbrev requests_table : RequestTable
requests_table =
    (
      (phone, (codes "a.org", codes "A")),
      record { hits = 2; first_seen = 86_400_000_001; last_seen = 86_400_000_009 },
    )
    ∷ ((phone, (codes "b.org", codes "A")), record { hits = 1; first_seen = 5; last_seen = 5 })
    ∷ []
