-- ===== src/Cache.antt =====
-- src/mirenai/domain/cache.py: an LRU cache whose entries expire. Times are readings of the
-- monotonic clock in nanoseconds; a call is given the reading that it takes.
pub mod Order
pub mod Reads
use mirenai.Python.Dict
use mirenai.Prelude.{
  Option, [], if◌then◌else◌, leb, length, list_eq, ltb, max, nat_eq, none, pair_eq, some, ℕ, ◌*◌,
  ◌++◌, ◌+◌, ◌-◌, ◌/◌, ◌==◌, ◌∷◌,
}
use mirenai.Python.Dict.{Dict}
use mirenai.Python.Text.{Text}

-- nanoseconds in a second
abbrev pub second : ℕ
second = 1_000_000_000

pub record CacheEntry {ℓ} (V : Type ℓ) : Type ℓ where
  pub value : V
  pub inserted_at : ℕ
  pub expires_at : ℕ
  pub ttl : ℕ

-- `_data` is an `OrderedDict`, the least recently used entry first.
pub record TtlCache {ℓ} (V : Type ℓ) : Type ℓ where
  pub max_entries : ℕ
  pub entries : Dict Text (CacheEntry V)

-- the value, the whole seconds that are left, and the lifetime
abbrev pub Live {ℓ} : Type ℓ → Type ℓ
Live V = V × ℕ × ℕ

module _ {ℓ} {V : Type ℓ} where
  -- `OrderedDict.move_to_end(key)`
  unfoldable pub move_to_end : Text → Dict Text V → Dict Text V
  move_to_end key [] = []
  move_to_end key ((j, w) ∷ d) = if j == key then d ++ (j, w) ∷ [] else (j, w) ∷ move_to_end key d

  -- `while len(data) > max: data.popitem(last=False)`
  unfoldable pub evict : ℕ → Dict Text V → Dict Text V
  evict most [] = []
  evict most (e ∷ d) = let rest = evict most d in if ltb most (length (e ∷ d)) then rest else e ∷ d

module _ {ℓ} {V : Type ℓ} where
  unfoldable pub init : ℕ → TtlCache V
  init max_entries = record { max_entries = max 1 max_entries; entries = [] }

  unfoldable pub get : Text → ℕ → TtlCache V → TtlCache V × Option (CacheEntry V)
  get key now c = elim (Dict.get key c.entries) [
    | none ↦ (c, none)
    | some entry ↦
        if leb entry.expires_at now
        then (record c { entries = Dict.remove key c.entries }, none)
        else (record c { entries = move_to_end key c.entries }, some entry)
  ]

  abbrev pub fresh : V → ℕ → ℕ → CacheEntry V
  fresh value ttl now = record {
    value = value;
    inserted_at = now;
    expires_at = now + ttl * second;
    ttl = ttl;
  }

  unfoldable pub set : Text → V → ℕ → ℕ → TtlCache V → TtlCache V
  set key value ttl now c = record c {
    entries = evict c.max_entries (move_to_end key (Dict.put key (fresh value ttl now) c.entries));
  }

  unfoldable pub clear : TtlCache V → TtlCache V
  clear c = record c { entries = [] }

  unfoldable pub live_entries : ℕ → Dict Text (CacheEntry V) → Dict Text (Live V)
  live_entries now [] = []
  live_entries now ((key, entry) ∷ d) =
      let rest = live_entries now d in
      if leb entry.expires_at now
      then rest
      else (key, (entry.value, (entry.expires_at - now) / second, entry.ttl)) ∷ rest

  unfoldable pub snapshot : ℕ → TtlCache V → Dict Text (Live V)
  unfolding live_entries
  snapshot now c = live_entries now c.entries

  unfoldable pub size : TtlCache V → ℕ
  size c = length c.entries

  unfoldable pub capacity : TtlCache V → ℕ
  capacity c = c.max_entries
