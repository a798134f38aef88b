-- ===== src/Resolver/Forward.antt =====
-- src/mirenai/domain/resolver.py: the order of the upstreams, asking them in turn, and the cache in
-- front of them.
use mirenai.Resolver.Dns.{Rr, Message, Dnslib, rcode_noerror, rcode_nxdomain, rcode_servfail}
use mirenai.Resolver.Keys.{cache_key, negative_ttl, least_ttl, compute_ttl}
use mirenai.Cache
use mirenai.Cache.{TtlCache, CacheEntry, second}
use mirenai.Buffers.Rtt
use mirenai.Buffers.Rtt.{UpstreamRttBuffer}
use mirenai.Buffers.Outcome
use mirenai.Buffers.Outcome.{
  CacheOutcomeBuffer, outcome_cached, outcome_error, outcome_nodata, outcome_nxdomain,
  outcome_upstream_failure, outcome_zero_ttl,
}
use mirenai.Buffers.Uncacheable
use mirenai.Buffers.Uncacheable.{UncacheableBuffer}
use mirenai.Prelude.{
  Bool, List, Option, [], if◌then◌else◌, leb, list_eq, ltb, nat_eq, none, not, pair_eq, some, true,
  ℕ, ◌&&◌, ◌++◌, ◌+◌, ◌-◌, ◌/◌, ◌==◌, ◌>>=◌, ◌∷◌,
}
use mirenai.Policy.{normalize_domain}
use mirenai.Python.Text.{Text, codes}
use mirenai.State.{RuntimeSettings, UpstreamServer}

-- `sorted(upstreams, key=lambda u: u.priority)`: a stable sort
abbrev pub insert_upstream : UpstreamServer → List UpstreamServer → List UpstreamServer
insert_upstream u [] = u ∷ []
insert_upstream u (v ∷ vs) =
    let rest = insert_upstream u vs in if leb u.priority v.priority then u ∷ v ∷ vs else v ∷ rest

unfoldable pub by_priority : List UpstreamServer → List UpstreamServer
by_priority [] = []
by_priority (u ∷ us) = insert_upstream u (by_priority us)

abbrev pub Peers : Type 0
Peers = List (ℕ × List UpstreamServer)

-- `groupby(by_priority, key=lambda u: u.priority)`
abbrev pub join_group : UpstreamServer → Peers → Peers
join_group u [] = (u.priority, u ∷ []) ∷ []
join_group u ((p, g) ∷ gs) =
    if u.priority == p then (p, u ∷ g) ∷ gs else (u.priority, u ∷ []) ∷ (p, g) ∷ gs

unfoldable pub groups : List UpstreamServer → Peers
groups [] = []
groups (u ∷ us) = join_group u (groups us)

-- each group of equal priority as `random.shuffle` leaves it, one after the other
unfoldable pub shuffled : (List UpstreamServer → List UpstreamServer) → Peers → List UpstreamServer
shuffled shuffle [] = []
shuffled shuffle ((p, g) ∷ gs) = shuffle g ++ shuffled shuffle gs

-- `_balanced_order`
unfoldable pub balanced_order :
    (List UpstreamServer → List UpstreamServer) → List UpstreamServer → List UpstreamServer
balanced_order shuffle upstreams = shuffled shuffle (groups (by_priority upstreams))

-- What the world does while a query is handled: the answer of the upstream at a place of the order
-- to a request by UDP or TCP (`none` is an exception of `send`), the microseconds until its reply,
-- the shuffling, and the readings of the clocks (nanoseconds for `monotonic`, microseconds for
-- `datetime`).
pub record Env (R B : Type 0) : Type 0 where
  pub send : ℕ → UpstreamServer → Bool → ℕ → Message R → Option B
  pub elapsed : ℕ → ℕ
  pub shuffle : List UpstreamServer → List UpstreamServer
  pub clock_get : ℕ
  pub clock_hit : ℕ
  pub clock_set : ℕ
  pub wall_stats : ℕ
  pub wall_events : ℕ
  pub wall_outcome : ℕ
  pub wall_rtt : ℕ

-- The parts of the resolver's state that forwarding changes.
pub record Forwarder (B : Type 0) : Type 0 where
  pub cache : TtlCache B
  pub rtt : UpstreamRttBuffer
  pub uncached : UncacheableBuffer
  pub outcomes : CacheOutcomeBuffer

-- the time to live of each record, set to the same value
abbrev pub with_ttl : {R : Type 0} → ℕ → List (Rr R) → List (Rr R)
with_ttl ttl [] = []
with_ttl ttl (r ∷ rs) = record r { ttl = ttl } ∷ with_ttl ttl rs

module _ {R B : Type 0} (dns : Dnslib R B) (env : Env R B) where
  -- The exchange with one upstream: a reply that is truncated over UDP is asked for again by TCP.
  -- An exception on the way, also one of `DNSRecord.parse`, is `none`.
  unfoldable pub exchange : ℕ → UpstreamServer → RuntimeSettings → Message R → Option (Message R)
  exchange i upstream settings request =
      let use_tcp : Bool = upstream.protocol == codes "tcp" in
      do
        raw ← env.send i upstream use_tcp settings.forward_timeout request
        reply ← dns.parse raw
        if reply.tc && not use_tcp
            then (env.send i upstream true settings.forward_timeout request >>= dns.parse)
            else some reply

  -- The loop of `_forward` from the place `i` of the order on.
  unfoldable pub forward_from :
      ℕ
      → List UpstreamServer
      → RuntimeSettings
      → Message R
      → UpstreamRttBuffer
      → UpstreamRttBuffer × Option (Message R)
  forward_from i [] settings request rtt = (rtt, none)
  forward_from i (u ∷ us) settings request rtt = elim (exchange i u settings request) [
    | some reply ↦ (Rtt.add u.address (env.elapsed i) env.wall_rtt rtt, some reply)
    | none ↦ forward_from (i + 1) us settings request rtt
  ]

  -- `_forward`; for no upstreams the loop does nothing either
  unfoldable pub forward :
      List UpstreamServer
      → RuntimeSettings
      → Message R
      → UpstreamRttBuffer
      → UpstreamRttBuffer × Option (Message R)
  forward upstreams settings request rtt =
      forward_from 0 (balanced_order env.shuffle upstreams) settings request rtt

  -- `_skip_cache`
  unfoldable pub skip_cache : Text → Text → Text → Text → Option ℕ → Forwarder B → Forwarder B
  skip_cache client name qtype reason ttl f = record f {
    uncached = Uncacheable.add client name qtype reason ttl f.uncached;
    outcomes = Outcome.add reason env.wall_outcome f.outcomes;
  }

  -- `self._cache.set(key, reply.pack(), ttl)`, counted as cached
  unfoldable pub store : Text → Message R → ℕ → Forwarder B → Forwarder B
  store key reply ttl f = record f {
    cache = Cache.set key (dns.pack reply) ttl env.clock_set f.cache;
    outcomes = Outcome.add outcome_cached env.wall_outcome f.outcomes;
  }

  -- `_cache_negative`, where `none` is `False`
  unfoldable pub cache_negative :
      Text → Message R → RuntimeSettings → Forwarder B → Option (Forwarder B)
  cache_negative key reply settings f = elim (negative_ttl dns.soa_minimum reply settings) [
    | none ↦ none
    | some ttl ↦ if ttl == 0 then none else some (store key reply ttl f)
  ]

  -- `if not self._cache_negative(...): self._skip_cache(...)`
  unfoldable pub cache_negative_or_skip :
      Text → Message R → Text → Text → RuntimeSettings → Text → Text → Forwarder B → Forwarder B
  cache_negative_or_skip key reply name qtype settings client reason f =
      elim (cache_negative key reply settings f) [
        | some stored ↦ stored
        | none ↦ skip_cache client name qtype reason none f
      ]

  -- `_cache_or_record_skip`
  unfoldable pub cache_or_record_skip :
      Text → Message R → Text → Text → RuntimeSettings → Text → Forwarder B → Forwarder B
  cache_or_record_skip key reply name qtype settings client f =
      if reply.rcode == rcode_nxdomain
      then cache_negative_or_skip key reply name qtype settings client outcome_nxdomain f
      else if not (reply.rcode == rcode_noerror)
      then skip_cache client name qtype outcome_error none f
      else (elim reply.rr [
        | [] ↦ cache_negative_or_skip key reply name qtype settings client outcome_nodata f
        | r ∷ rs ↦
            let ttl = compute_ttl r rs settings in
            if ltb 0 ttl
            then store key reply ttl f
            else skip_cache client name qtype outcome_zero_ttl (some (least_ttl r rs)) f
      ])

  -- the answer made from a cache entry; `none` if its value does not parse
  unfoldable pub cached_reply : CacheEntry B → Message R → Option (Message R)
  cached_reply entry request = do
    reply ← dns.parse entry.value
    let remaining = (entry.expires_at - env.clock_hit) / second
    some (record reply {
      id = request.id;
      rr = with_ttl remaining reply.rr;
      auth = with_ttl remaining reply.auth;
      ar = with_ttl remaining reply.ar;
    })

  abbrev pub Result : Type 0
  Result = Message R × Text

  abbrev pub servfail : Message R → Message R
  servfail request = record (dns.reply request) { rcode = rcode_servfail }

  -- what follows `_forward` when it has failed or has a reply
  unfoldable pub forwarded :
      Text
      → Text
      → Text
      → RuntimeSettings
      → Text
      → Message R
      → Forwarder B
      → Option (Message R)
      → Forwarder B × Result
  forwarded key name qtype settings client request f none = (
    if settings.cache_enabled
        then skip_cache client name qtype outcome_upstream_failure none f
        else f,
    (servfail request, codes "servfail"),
  )
  forwarded key name qtype settings client request f (some reply) = (
    if settings.cache_enabled
        then cache_or_record_skip key reply name qtype settings client f
        else f,
    (reply, codes "forward"),
  )

  unfoldable pub ask_upstreams :
      Text
      → Text
      → Text
      → List UpstreamServer
      → RuntimeSettings
      → Text
      → Message R
      → Forwarder B
      → Forwarder B × Result
  ask_upstreams key name qtype upstreams settings client request f =
      let (rtt, reply) = forward upstreams settings request f.rtt in
      forwarded key name qtype settings client request (record f { rtt = rtt }) reply

  -- `self._cache.get(key)`, if caching is on
  unfoldable pub cache_lookup :
      Text → RuntimeSettings → TtlCache B → TtlCache B × Option (CacheEntry B)
  cache_lookup key settings cache =
      if settings.cache_enabled then Cache.get key env.clock_get cache else (cache, none)

  -- `_forward_or_cache`; `none` is the exception of an entry that does not parse
  unfoldable pub forward_or_cache :
      Text
      → List UpstreamServer
      → RuntimeSettings
      → Text
      → Message R
      → Forwarder B
      → Forwarder B × Option Result
  unfolding normalize_domain
  forward_or_cache qtype upstreams settings client request f =
      let name = normalize_domain request.question.qname in
      let key = cache_key request.question.qname request.question.qtype request.question.qclass in
      let (cache, found) = cache_lookup key settings f.cache in
      let f' : Forwarder B = record f { cache = cache } in
      elim found [
        | some entry ↦
            (f', (do reply ← cached_reply entry request; some (reply, codes "forward-cache")))
        | none ↦
            let (f'', result) = ask_upstreams key name qtype upstreams settings client request f' in
            (f'', some result)
      ]
