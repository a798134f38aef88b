-- ===== src/Buffers/Uncacheable.antt =====
-- src/mirenai/domain/uncacheable.py: answers that were not cached, counted by client, name, type
-- and reason for a limited number of such keys.
use mirenai.Python.Dict
use mirenai.Prelude.{
  Distinct, List, Option, [], contains, if◌then◌else◌, length, list_eq, max, nat_eq, none, pair_eq,
  some, true, ℕ, ◌+◌, ◌<◌, ◌==◌, ◌≡◌, ◌≤◌, ◌⊎◌,
}
use mirenai.Buffers.Capped.{get-put_capped, length-put_capped-le, put_capped, put_capped-Distinct}
use mirenai.Buffers.Tally.{batch}
use mirenai.Python.Dict.{Dict}
use mirenai.Python.Text.{Text}

abbrev pub default_max_keys : ℕ
default_max_keys = 2048

pub record UncacheableAgg : Type 0 where
  pub client : Text
  pub domain : Text
  pub qtype : Text
  pub reason : Text
  pub last_ttl : Option ℕ
  pub hits : ℕ

abbrev pub SkipKey : Type 0
SkipKey = Text × (Text × (Text × Text))

pub record UncacheableBuffer : Type 0 where
  pub flush_seconds : ℕ
  pub max_keys : ℕ
  pub skips : Dict SkipKey (ℕ × Option ℕ)

unfoldable pub init : ℕ → ℕ → UncacheableBuffer
init flush_seconds max_keys = record {
  flush_seconds = max 1 flush_seconds;
  max_keys = max 1 max_keys;
  skips = [];
}

-- the hits go up by one, and the lifetime is the last one
abbrev pub skipped_again : Option ℕ → Option (ℕ × Option ℕ) → ℕ × Option ℕ
skipped_again ttl none = (1, ttl)
skipped_again ttl (some old) = (old.0 + 1, ttl)

unfoldable pub add : Text → Text → Text → Text → Option ℕ → UncacheableBuffer → UncacheableBuffer
add client domain qtype reason ttl b = record b {
  skips = put_capped b.max_keys (client, (domain, (qtype, reason))) (skipped_again ttl) b.skips;
}

abbrev pub skip_row : SkipKey × (ℕ × Option ℕ) → UncacheableAgg
skip_row x = record {
  client = x.0.0;
  domain = x.0.1.0;
  qtype = x.0.1.1.0;
  reason = x.0.1.1.1;
  last_ttl = x.1.1;
  hits = x.1.0;
}

unfoldable pub flush : UncacheableBuffer → UncacheableBuffer × Option (List UncacheableAgg)
flush b = (record b { skips = [] }, batch skip_row b.skips)

-- `stop` sets the event that ends the timer's loop, and flushes.
unfoldable pub stop : UncacheableBuffer → UncacheableBuffer × Option (List UncacheableAgg)
unfolding flush
stop b = flush b

pub record IsBounded (b : UncacheableBuffer) : Type 0 where
  pub within : length b.skips ≤ b.max_keys
  pub distinct : Distinct (Dict.keys b.skips)

-- The buffer never holds more keys than its limit. While a key is held or there is room, a skip
-- counts for its key with the lifetime it came with, and leaves the other keys as they are.
add_skip-IsBounded :
    (k : SkipKey) (ttl : Option ℕ) (b : UncacheableBuffer)
    → IsBounded b
    → IsBounded (add k.0 k.1.0 k.1.1.0 k.1.1.1 ttl b)
      × ((contains (Dict.keys b.skips) k ≡ true) ⊎ (length b.skips < b.max_keys)
          → (j : SkipKey)
          → Dict.get j (add k.0 k.1.0 k.1.1.0 k.1.1.1 ttl b).skips ≡ (
              if k == j then some (skipped_again ttl (Dict.get k b.skips)) else Dict.get j b.skips))
unfolding add
add_skip-IsBounded k ttl b h = (
  record {
    within = length-put_capped-le b.max_keys k (skipped_again ttl) b.skips h.within;
    distinct = put_capped-Distinct b.max_keys k (skipped_again ttl) b.skips h.distinct;
  },
  (λ room j. get-put_capped b.max_keys k (skipped_again ttl) b.skips j room),
)
