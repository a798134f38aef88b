-- ===== src/Buffers/Events.antt =====
-- src/mirenai/domain/queryevents.py: the last queries, each kept by itself.
use mathlib.Core.List.{append-nil, append_assoc}
use native.Mathlib.Nat.{suc-add, zero-add}
use mirenai.Prelude.{
  List, Option, [], ap, arith, drop, drop-nil, length, length-append, length-drop, list_eq, max,
  nat_eq, none, pair_eq, refl, some, suc, sym, zero, ℕ, ◌++◌, ◌+◌, ◌-◌, ◌∙◌, ◌∷◌, ◌≡◌, ◌≤◌,
}
use mirenai.Python.Text.{Text}

abbrev pub default_max_events : ℕ
default_max_events = 50000

pub record QueryEvent : Type 0 where
  pub client : Text
  pub domain : Text
  pub qtype : Text
  pub rcode : Text
  pub response : Text
  pub created_at : ℕ

-- `_events` is a `deque` with `maxlen`, the oldest event first.
pub record QueryEventBuffer : Type 0 where
  pub flush_seconds : ℕ
  pub max_events : ℕ
  pub events : List QueryEvent

unfoldable pub init : ℕ → ℕ → QueryEventBuffer
init flush_seconds max_events = record {
  flush_seconds = max 1 flush_seconds;
  max_events = max_events;
  events = [];
}

-- `deque.append` with `maxlen`
abbrev pub append_bounded : ℕ → List QueryEvent → QueryEvent → List QueryEvent
append_bounded most events e = drop (length events + 1 - most) (events ++ e ∷ [])

unfoldable pub add : Text → Text → Text → Text → Text → ℕ → QueryEventBuffer → QueryEventBuffer
add client domain qtype rcode response now b = record b {
  events = append_bounded b.max_events b.events (record {
    client = client;
    domain = domain;
    qtype = qtype;
    rcode = rcode;
    response = response;
    created_at = now;
  });
}

unfoldable pub flush : QueryEventBuffer → QueryEventBuffer × Option (List QueryEvent)
flush b = elim b.events [ [] ↦ (b, none) | e ∷ es ↦ (record b { events = [] }, some (e ∷ es)) ]

-- `stop` sets the event that ends the timer's loop, and flushes.
unfoldable pub stop : QueryEventBuffer → QueryEventBuffer × Option (List QueryEvent)
unfolding flush
stop b = flush b

abbrev pub add_event : QueryEvent → QueryEventBuffer → QueryEventBuffer
add_event e b = add e.client e.domain e.qtype e.rcode e.response e.created_at b

pub add_all : List QueryEvent → QueryEventBuffer → QueryEventBuffer
add_all [] b = b
add_all (e ∷ es) b = add_all es (add_event e b)

events-add_event :
    (e : QueryEvent) (b : QueryEventBuffer)
    → (add_event e b).events ≡ append_bounded b.max_events b.events e
unfolding add
events-add_event e b = refl

max_events-add_event :
    (e : QueryEvent) (b : QueryEventBuffer) → (add_event e b).max_events ≡ b.max_events
unfolding add
max_events-add_event e b = refl

drop-append_le :
    (n : ℕ) (xs ys : List QueryEvent) → n ≤ length xs → drop n xs ++ ys ≡ drop n (xs ++ ys)
drop-append_le zero xs ys h = refl
drop-append_le (suc n) [] ys h = absurd (omega arith)
drop-append_le (suc n) (x ∷ xs) ys h = drop-append_le n xs ys (omega arith)

drop-drop : (m n : ℕ) (xs : List QueryEvent) → drop m (drop n xs) ≡ drop (n + m) xs
drop-drop m zero xs = rw zero-add
drop-drop m (suc n) [] = drop-nil m ∙ sym (drop-nil (suc n + m))
drop-drop m (suc n) (x ∷ xs) = rw suc-add (drop-drop m n xs)

max_events-add_all :
    (es : List QueryEvent) (b : QueryEventBuffer) → (add_all es b).max_events ≡ b.max_events
unfolding add_all
max_events-add_all [] b = refl
max_events-add_all (e ∷ es) b = max_events-add_all es (add_event e b) ∙ max_events-add_event e b

module _ (e : QueryEvent) (es : List QueryEvent) (b : QueryEventBuffer) where
  -- What the buffer holds after one event, followed by the later events.
  events_then :
      length b.events ≤ b.max_events
      → (add_event e b).events ++ es
        ≡ drop (length b.events + 1 - b.max_events) (b.events ++ e ∷ es)
  events_then h =
      ap (λ xs. xs ++ es) (events-add_event e b)
      ∙ drop-append_le (length b.events + 1 - b.max_events) (b.events ++ e ∷ []) es
          (omega (arith, length-append b.events (e ∷ [])))
      ∙ ap (drop (length b.events + 1 - b.max_events)) (append_assoc b.events (e ∷ []) es)

  events_bounded :
      length b.events ≤ b.max_events → length (add_event e b).events ≤ (add_event e b).max_events
  events_bounded h = omega (
    arith,
    ap (length {A = QueryEvent}) (events-add_event e b),
    length-append b.events (e ∷ []),
    length-drop (length b.events + 1 - b.max_events) (b.events ++ e ∷ []),
    max_events-add_event e b,
  )

-- After any number of events the buffer holds the last ones, as many as fit, in their order.
events-add_all :
    (es : List QueryEvent) (b : QueryEventBuffer)
    → length b.events ≤ b.max_events
    → (add_all es b).events ≡ drop (length (b.events ++ es) - b.max_events) (b.events ++ es)
unfolding add_all
events-add_all [] b h =
    let z : length (b.events ++ []) - b.max_events ≡ 0 = omega (arith, length-append b.events []) in
    sym (ap (λ n. drop n (b.events ++ [])) z ∙ append-nil b.events)
events-add_all (e ∷ es) b h =
    let n = length b.events + 1 - b.max_events in
    let all : List QueryEvent = b.events ++ e ∷ es in
    let rest : List QueryEvent = (add_event e b).events ++ es in
    let later : (add_all es (add_event e b)).events
        ≡ drop (length rest - (add_event e b).max_events) rest =
      events-add_all es (add_event e b) (events_bounded e es b h) in
    let step : rest ≡ drop n all = events_then e es b h in
    let amount : n + (length rest - (add_event e b).max_events) ≡ length all - b.max_events =
      omega (
        arith,
        max_events-add_event e b,
        ap (length {A = QueryEvent}) step,
        length-drop n all,
        length-append b.events (e ∷ es),
      ) in
    later
    ∙ ap (drop (length rest - (add_event e b).max_events)) step
    ∙ drop-drop (length rest - (add_event e b).max_events) n all
    ∙ ap (λ k. drop k all) amount

-- A flush hands over what the buffer holds, if anything, and empties it.
pub flush_events :
    (b : QueryEventBuffer)
    → ((flush b).0.events ≡ []) × (elim (flush b).1 [ none ↦ [] | some es ↦ es ] ≡ b.events)
unfolding flush
flush_events b = ground arith
