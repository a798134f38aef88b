-- ===== src/Buffers/Hosts.antt =====
-- src/mirenai/domain/hosts.py: the hosts that send queries, their counts and who is new.
use mirenai.Python.Dict
use mirenai.Buffers.Tally.{Event, run, reported, run-conserves}
use mirenai.Prelude.{
  Bool, Bool-cases, Distinct, List, Option, [], ap, arith, contains, contains-append, if◌then◌else◌,
  inl, inr, list_beq_iff, list_eq, max, nat_eq, none, not, pair_eq, refl, some, true, ℕ, ◌&&◌, ◌++◌,
  ◌+◌, ◌==◌, ◌||◌, ◌∙◌, ◌∷◌, ◌≡◌,
}
use mirenai.Buffers.Tally.{
  DictBuffer, batch, bump, count, handed, hits_or_zero, hits_or_zero-value, value_or_zero,
}
use mirenai.Python.Dict.{Dict}
use mirenai.Python.Text.{Text}

pub record HostTracker : Type 0 where
  pub flush_seconds : ℕ
  pub refresh_seconds : ℕ
  pub pending : Dict Text ℕ
  pub pending_new : List Text
  pub known : List Text

unfoldable pub init : ℕ → ℕ → HostTracker
init flush_seconds refresh_seconds = record {
  flush_seconds = max 1 flush_seconds;
  refresh_seconds = max 1 refresh_seconds;
  pending = [];
  pending_new = [];
  known = [];
}

-- `record`
unfoldable pub record_host : Text → HostTracker → HostTracker
record_host ip t =
    let counted : HostTracker = record t { pending = bump ip t.pending } in
    if contains t.known ip
    then counted
    else record counted { known = ip ∷ t.known; pending_new = ip ∷ t.pending_new }

abbrev pub known_hosts : HostTracker → List Text
known_hosts t = t.known

-- `refresh` with the set that `load` returned: the stored hosts and those not yet flushed
unfoldable pub refresh : List Text → HostTracker → HostTracker
refresh stored t = record t { known = stored ++ Dict.keys t.pending }

-- `if discovered and self._on_discover is not None`: what the callback is told
abbrev pub nonempty : List Text → Option (List Text)
nonempty [] = none
nonempty (x ∷ xs) = some (x ∷ xs)

abbrev pub host_row : Text × ℕ → Text × ℕ
host_row x = x

-- The counts for the database, and the new hosts for the callback if there is one. An exception of
-- either is logged, and the state is the same after it.
unfoldable pub flush :
    Bool → HostTracker → HostTracker × (Option (List (Text × ℕ)) × Option (List Text))
flush has_callback t = (
  record t { pending = []; pending_new = [] },
  (batch host_row t.pending, (if has_callback then nonempty t.pending_new else none)),
)

-- `stop` sets the event that ends the two loops, and flushes.
unfoldable pub stop :
    Bool → HostTracker → HostTracker × (Option (List (Text × ℕ)) × Option (List Text))
unfolding flush
stop has_callback t = flush has_callback t

pub pending-record_host :
    (ip : Text) (t : HostTracker) → (record_host ip t).pending ≡ bump ip t.pending
unfolding record_host
pending-record_host ip t = ground arith

pub pending-record_put :
    (ip : Text) (t : HostTracker)
    → (record_host ip t).pending ≡ Dict.put ip (hits_or_zero (Dict.get ip t.pending) + 1) t.pending
unfolding bump
pending-record_put ip t = pending-record_host ip t

pub pending-flush : (has_callback : Bool) (t : HostTracker) → (flush has_callback t).0.pending ≡ []
unfolding flush
pending-flush has_callback t = refl

pub hosts_handed :
    (has_callback : Bool) (t : HostTracker) → (flush has_callback t).1.0 ≡ batch host_row t.pending
unfolding flush
hosts_handed has_callback t = refl

pub value-one_more : (o : Option ℕ) → hits_or_zero o + 1 ≡ value_or_zero (λ n. n) o + 1
value-one_more o = hits_or_zero-value o

abbrev pub host_buffer : Bool → DictBuffer HostTracker Text (Text × ℕ) Text ℕ
host_buffer has_callback = record {
  add = record_host;
  flush = λ t. ((flush has_callback t).0, (flush has_callback t).1.0);
  data_of = λ t. t.pending;
  key = λ ip. ip;
  update = λ ip o. hits_or_zero o + 1;
  value = λ n. n;
  gain = λ ip. 1;
  row = host_row;
  row_weight = λ k r. if r.0 == k then r.1 else 0;
  data_of-add = pending-record_put;
  value-update = λ ip o. value-one_more o;
  data_of-flush = pending-flush has_callback;
  rows-flush = hosts_handed has_callback;
  row_weight-row = λ k x. refl;
}

-- Over any sequence of queries and flushes, the counts handed over for a host, with those still in
-- memory, are those in memory at first and the queries of the host.
pub hosts_conserved :
    (has_callback : Bool) (es : List (Event Text)) (t : HostTracker) (ip : Text)
    → Distinct (Dict.keys t.pending)
    → handed (host_buffer has_callback).row_weight ip (run (host_buffer has_callback) es t).1
        + value_or_zero (λ n. n) (Dict.get ip (run (host_buffer has_callback) es t).0.pending)
      ≡ value_or_zero (λ n. n) (Dict.get ip t.pending) + reported (host_buffer has_callback) ip es
hosts_conserved has_callback es t ip h = run-conserves (host_buffer has_callback) es t ip h

-- Each counted host is known, and the new ones are counted.
pub record IsValid (t : HostTracker) : Type 0 where
  pub counted_known :
      (ip : Text) → contains (Dict.keys t.pending) ip ≡ true → contains t.known ip ≡ true
  pub new_counted :
      (ip : Text) → contains t.pending_new ip ≡ true → contains (Dict.keys t.pending) ip ≡ true
  pub new_once : Distinct t.pending_new

keys-record :
    (ip j : Text) (t : HostTracker)
    → contains (Dict.keys (record_host ip t).pending) j
      ≡ (ip == j || contains (Dict.keys t.pending) j)
unfolding bump
keys-record ip j t =
    ap (λ (d : Dict Text ℕ). contains (Dict.keys d) j) (pending-record_host ip t)
    ∙ Dict.contains-keys-put ip j (count ip t.pending + 1) t.pending

known-record :
    (ip j : Text) (t : HostTracker)
    → contains (record_host ip t).known j ≡ (ip == j || contains t.known j)
unfolding record_host
known-record ip j t = ground (arith, list_beq_iff ip j)

new-record :
    (ip j : Text) (t : HostTracker)
    → contains (record_host ip t).pending_new j
      ≡ ((ip == j && not (contains t.known ip)) || contains t.pending_new j)
unfolding record_host
new-record ip j t = ground arith

record_host-new_once :
    (ip : Text) (t : HostTracker) → IsValid t → Distinct (record_host ip t).pending_new
unfolding record_host
record_host-new_once ip t v = elim (Bool-cases (contains t.known ip)) [
  | inl old ↦ rw old v.new_once
  | inr new ↦ rw new (ground (arith, v.new_counted ip, v.counted_known ip), v.new_once)
]

-- A query, a refresh with any stored set and a flush keep the tracker valid.
pub hosts-IsValid :
    (ip : Text) (stored : List Text) (has_callback : Bool) (t : HostTracker)
    → IsValid t
    → IsValid (record_host ip t) × IsValid (refresh stored t) × IsValid (flush has_callback t).0
unfolding refresh flush
hosts-IsValid ip stored has_callback t v = (
  record {
    counted_known =
        λ j h. ground (arith, keys-record ip j t, known-record ip j t, v.counted_known j);
    new_counted = λ j h. ground (arith, keys-record ip j t, new-record ip j t, v.new_counted j);
    new_once = record_host-new_once ip t v;
  },
  record {
    counted_known = λ j h. ground (arith, contains-append stored (Dict.keys t.pending) j);
    new_counted = v.new_counted;
    new_once = v.new_once;
  },
  record { counted_known = λ j h. absurd (cc); new_counted = λ j h. h; new_once = tt },
)

new-again :
    (ip : Text) (t : HostTracker)
    → (record_host ip (record_host ip t)).pending_new ≡ (record_host ip t).pending_new
unfolding record_host
new-again ip t = ground (arith, list_beq_iff ip ip)

-- A host is announced as new exactly if it was not known when its query came, or was waiting to be
-- announced; from then on it is known, and a second query does not announce it again.
pub discovered_once :
    (ip j : Text) (t : HostTracker)
    → IsValid t
    → (contains (record_host ip t).pending_new j
        ≡ ((ip == j && not (contains t.known ip)) || contains t.pending_new j))
      × (contains (known_hosts (record_host ip t)) ip ≡ true)
      × ((record_host ip (record_host ip t)).pending_new ≡ (record_host ip t).pending_new)
discovered_once ip j t v =
    (new-record ip j t, ground (arith, known-record ip ip t, list_beq_iff ip ip), new-again ip t)
