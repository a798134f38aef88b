-- ===== src/Tests/Buffers.antt =====
-- The buffers of src/mirenai/domain at concrete inputs.
use mirenai.Python.Dict
use mirenai.Buffers.Tally.{Event, run, reported}
use mirenai.Buffers.Queries.{QueryBuffer, get-add_query, Query, add_query}
use mirenai.Buffers.Stats.{Report}
use mirenai.Buffers.Requests.{ClientRequestBuffer, request_buffer, requests_conserved, RequestKey}
use mirenai.Buffers.Rtt.{UpstreamRttBuffer, RttKey, uncovered, mark_probed, contains-uncovered_mark}
use mirenai.Prelude.{
  List, [], contains, if◌then◌else◌, list_eq, nat_eq, none, not, pair_eq, refl, some, ◌&&◌, ◌+◌,
  ◌==◌, ◌∷◌, ◌≡◌,
}
use mirenai.Buffers.Tally.{count, floor_hour, handed, value_or_zero}
use mirenai.Python.Dict.{Dict}
use mirenai.Python.Text.{codes}

abbrev one_query : Query
one_query = ((codes "10.0.0.5", (codes "a.org", codes "A")), (codes "forward", codes "1.2.3.4"))

abbrev no_queries : QueryBuffer
no_queries = record { flush_seconds = 5; counters = [] }

get-add_query_example : Dict.get one_query.0 (add_query one_query no_queries).counters ≡ (
    if one_query.0 == one_query.0
    then some (record {
      count = value_or_zero (λ c. c.count) (Dict.get one_query.0 no_queries.counters) + 1;
      last_action = codes "forward";
      last_response = codes "1.2.3.4";
    })
    else Dict.get one_query.0 no_queries.counters)
get-add_query_example = get-add_query one_query no_queries one_query.0

abbrev one_report : Report
one_report = (codes "10.0.0.5", (codes "deny", 7_200_000_001))

abbrev no_requests : ClientRequestBuffer
no_requests = record { flush_seconds = 5; counts = [] }

abbrev request_events : List (Event RequestKey)
request_events = Event.added one_query.0 ∷ Event.flushed ∷ Event.added one_query.0 ∷ []

requests_conserved_example :
    handed request_buffer.row_weight one_query.0 (run request_buffer request_events no_requests).1
      + count one_query.0 (run request_buffer request_events no_requests).0.counts
    ≡ count one_query.0 no_requests.counts + reported request_buffer one_query.0 request_events
requests_conserved_example = requests_conserved request_events no_requests one_query.0 tt

abbrev no_rtts : UpstreamRttBuffer
no_rtts = record { flush_seconds = 5; accumulators = []; covered_hour = none; covered = [] }

abbrev rtt_key : RttKey
rtt_key = (7_200_000_000, codes "9.9.9.9")

same_hour : floor_hour 7_200_000_001 ≡ floor_hour 7_200_000_009
unfolding floor_hour
same_hour = refl

contains-uncovered_mark_example :
    contains
      (uncovered
        (codes "9.9.9.9" ∷ codes "1.1.1.1" ∷ [])
        7_200_000_009
        (mark_probed (codes "9.9.9.9") 7_200_000_001 no_rtts))
      (codes "9.9.9.9")
    ≡ (contains
          (uncovered (codes "9.9.9.9" ∷ codes "1.1.1.1" ∷ []) 7_200_000_009 no_rtts)
          (codes "9.9.9.9")
        && not (codes "9.9.9.9" == codes "9.9.9.9"))
contains-uncovered_mark_example =
    contains-uncovered_mark (codes "9.9.9.9") (codes "9.9.9.9")
      (codes "9.9.9.9" ∷ codes "1.1.1.1" ∷ []) 7_200_000_001 7_200_000_009 no_rtts same_hour
