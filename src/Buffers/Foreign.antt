-- ===== src/Buffers/Foreign.antt =====
-- src/mirenai/domain/foreignclients.py: dropped sources, counted for a limited number of them.
use mirenai.Python.Dict
use mirenai.Prelude.{
  Distinct, List, Option, [], ap, arith, contains, if◌then◌else◌, length, list_beq_iff, list_eq,
  max, nat_eq, none, pair_eq, refl, true, ℕ, ◌+◌, ◌<◌, ◌==◌, ◌≡◌, ◌≤◌, ◌⊎◌,
}
use mirenai.Buffers.Capped.{
  get-put_capped, length-put_capped-le, put_capped, put_capped-Distinct, put_capped_full,
}
use mirenai.Buffers.Tally.{batch, count, handed, handed-batch, hits_or_zero, rows_or_nil}
use mirenai.Python.Dict.{Dict}
use mirenai.Python.Text.{Text}

abbrev pub default_max_clients : ℕ
default_max_clients = 1024

pub record ForeignClientAgg : Type 0 where
  pub ip : Text
  pub hits : ℕ

pub record ForeignClientBuffer : Type 0 where
  pub flush_seconds : ℕ
  pub max_clients : ℕ
  pub counts : Dict Text ℕ

unfoldable pub init : ℕ → ℕ → ForeignClientBuffer
init flush_seconds max_clients = record {
  flush_seconds = max 1 flush_seconds;
  max_clients = max 1 max_clients;
  counts = [];
}

-- `self._data[ip] += 1`, or 1 for a new key
abbrev pub one_more : Option ℕ → ℕ
one_more o = hits_or_zero o + 1

unfoldable pub add : Text → ForeignClientBuffer → ForeignClientBuffer
add ip b = record b { counts = put_capped b.max_clients ip one_more b.counts }

abbrev pub foreign_row : Text × ℕ → ForeignClientAgg
foreign_row x = record { ip = x.0; hits = x.1 }

unfoldable pub flush : ForeignClientBuffer → ForeignClientBuffer × Option (List ForeignClientAgg)
flush b = (record b { counts = [] }, batch foreign_row b.counts)

-- `stop` sets the event that ends the timer's loop, and flushes.
unfoldable pub stop : ForeignClientBuffer → ForeignClientBuffer × Option (List ForeignClientAgg)
unfolding flush
stop b = flush b

pub record IsBounded (b : ForeignClientBuffer) : Type 0 where
  pub within : length b.counts ≤ b.max_clients
  pub distinct : Distinct (Dict.keys b.counts)

-- A flood of sources never makes the buffer hold more of them than the limit; a source that is
-- held, or that finds room, is counted, and the counts of all others stay; one that finds no room
-- changes nothing.
add_foreign-IsBounded :
    (ip : Text) (b : ForeignClientBuffer)
    → IsBounded b
    → IsBounded (add ip b)
      × ((contains (Dict.keys b.counts) ip ≡ true) ⊎ (length b.counts < b.max_clients)
          → (j : Text) → count j (add ip b).counts ≡ count j b.counts + (if ip == j then 1 else 0))
      × (Dict.get ip b.counts ≡ none → b.max_clients ≤ length b.counts → add ip b ≡ b)
unfolding add
add_foreign-IsBounded ip b h = (
  record {
    within = length-put_capped-le b.max_clients ip one_more b.counts h.within;
    distinct = put_capped-Distinct b.max_clients ip one_more b.counts h.distinct;
  },
  (λ room j.
      ground (arith, get-put_capped b.max_clients ip one_more b.counts j room, list_beq_iff ip j)),
  (λ new full.
      ap (λ (d : Dict Text ℕ). record b { counts = d })
        (put_capped_full b.max_clients ip one_more b.counts new full)),
)

-- A flush hands over a row for each source with its count, and empties the buffer.
pub handed-flush_foreign :
    (b : ForeignClientBuffer) (ip : Text)
    → IsBounded b
    → ((flush b).0.counts ≡ [])
      × (handed
            (λ (k : Text) (r : ForeignClientAgg). if r.ip == k then r.hits else 0)
            ip
            (rows_or_nil (flush b).1)
          ≡ count ip b.counts)
unfolding flush
handed-flush_foreign b ip h = (
  refl,
  handed-batch foreign_row (λ k r. if r.ip == k then r.hits else 0) (λ n. n) (λ k x. refl) ip
      b.counts h.distinct,
)
