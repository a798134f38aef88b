-- ===== src/Server.antt =====
-- src/mirenai/workers/dns_server.py and src/mirenai/domain/upstream_probe.py: what stands between
-- the network and the resolver, and the background work on its state.
use mirenai.Resolver.Dns.{Message, Dnslib, rcode_servfail}
use mirenai.Resolver.Forward.{Env}
use mirenai.Resolver.Handle.{Resolver, handle, is_trusted_client, record_foreign}
use mirenai.Buffers.Hosts.{HostTracker, record_host}
use mirenai.Buffers.Rtt
use mirenai.Buffers.Rtt.{UpstreamRttBuffer, uncovered, mark_probed}
use mirenai.LocalZones.{record_count}
use mirenai.Cache
use mirenai.Python.Dict
use mirenai.Prelude.{◌>>=◌}
use mirenai.Cache.{TtlCache}
pub mod Screening
pub mod Probing
pub mod Flushing
pub mod Discovery
use mirenai.Prelude.{
  Bool, List, Option, [], false, if◌then◌else◌, length, list_eq, map, nat_eq, none, pair_eq, some,
  ℕ, ◌==◌, ◌∷◌,
}
use mirenai.Python.Dict.{Dict}
use mirenai.Python.Text.{Text}
use mirenai.State.{RuntimeState, UpstreamServer}

-- `ScreeningResolver`
pub record Server (B : Type 0) : Type 0 where
  pub core : Resolver B
  pub hosts : HostTracker

module _ {R B : Type 0} (dns : Dnslib R B) (env : Env R B) (state : RuntimeState) where
  -- `reply = request.reply()` with the code SERVFAIL
  unfoldable pub failure : Message R → Message R
  failure request = record (dns.reply request) { rcode = rcode_servfail }

  abbrev pub reply_or_failure : Message R → Option (Message R) → Message R
  reply_or_failure request none = failure request
  reply_or_failure request (some reply) = reply

  -- `ScreeningResolver.resolve`
  unfoldable pub resolve : Message R → Text → Server B → Server B × Message R
  resolve request client_ip s =
      let (core, reply) = handle dns env state request client_ip s.core in
      (
        record { core = core; hosts = record_host client_ip s.hosts },
        reply_or_failure request reply,
      )

  -- `ScreeningDNSHandler.handle`. The handler of dnslib, which comes after the test, parses the
  -- packet and asks the resolver; nothing is sent back for a packet that does not parse.
  unfoldable pub serve : B → Text → Server B → Server B × Option (Message R)
  unfolding is_trusted_client
  serve packet client_ip s =
      if is_trusted_client state client_ip
      then (elim (dns.parse packet) [
        | none ↦ (s, none)
        | some request ↦ let (s', reply) = resolve request client_ip s in (s', some reply)
      ])
      else (record s { core = record_foreign env client_ip s.core }, none)

-- the gauges of `_runtime_snapshot`
pub record RuntimeGauges : Type 0 where
  pub cache_size : ℕ
  pub cache_capacity : ℕ
  pub blocklist_domains : ℕ
  pub local_record_count : ℕ
  pub upstream_count : ℕ
  pub policy_count : ℕ

unfoldable pub runtime_snapshot : {B : Type 0} → TtlCache B → RuntimeState → RuntimeGauges
unfolding record_count
runtime_snapshot cache state = record {
  cache_size = Cache.size cache;
  cache_capacity = Cache.capacity cache;
  blocklist_domains = length state.blocklist;
  local_record_count = record_count state.local_records;
  upstream_count = length state.upstreams;
  policy_count = length state.policies;
}

-- `{server.address: server for server in state.upstreams}`
unfoldable pub by_address :
    List UpstreamServer → Dict Text UpstreamServer → Dict Text UpstreamServer
by_address [] d = d
by_address (u ∷ us) d = by_address us (Dict.put u.address u d)

-- The exchange of `probe_upstream` and its time in microseconds; `none` is a `ProbeError`.
abbrev pub Probe : Type 0
Probe = UpstreamServer → ℕ → Option ℕ

-- One round of the loop. The targets are addresses of upstreams, so the look-up finds a server.
unfoldable pub probe_target :
    Probe → ℕ → ℕ → Dict Text UpstreamServer → Text → UpstreamRttBuffer → UpstreamRttBuffer
probe_target probe timeout now servers address rtt =
    let marked = mark_probed address now rtt in
    elim (Dict.get address servers >>= λ server. probe server timeout) [
      | none ↦ marked
      | some rtt_us ↦ Rtt.add address rtt_us now marked
    ]

unfoldable pub probe_targets :
    Probe → ℕ → ℕ → Dict Text UpstreamServer → List Text → UpstreamRttBuffer → UpstreamRttBuffer
probe_targets probe timeout now servers [] rtt = rtt
probe_targets probe timeout now servers (address ∷ targets) rtt =
    probe_targets probe timeout now servers targets
      (probe_target probe timeout now servers address rtt)

abbrev pub addresses_of : List UpstreamServer → List Text
addresses_of us = map (λ (u : UpstreamServer). u.address) us

-- `_probe_rtt_gaps`
unfoldable pub probe_rtt_gaps : Probe → ℕ → RuntimeState → UpstreamRttBuffer → UpstreamRttBuffer
probe_rtt_gaps probe now state rtt =
    probe_targets probe state.settings.forward_timeout now (by_address state.upstreams [])
      (uncovered (addresses_of state.upstreams) now rtt) rtt

-- `requested == last_seen`
abbrev pub is_last : Text → Option Text → Bool
is_last requested none = false
is_last requested (some last) = requested == last

-- One poll of `_run_cache_flusher`: what `get_cache_flush_request` returns (`none` is an
-- exception), the request seen last, and the cache.
unfoldable pub flush_poll :
    {B : Type 0} → Option (Option Text) → Option Text × TtlCache B → Option Text × TtlCache B
flush_poll none s = s
flush_poll (some none) s = s
flush_poll (some (some requested)) (last_seen, cache) =
    if is_last requested last_seen then (last_seen, cache) else (some requested, Cache.clear cache)

unfoldable pub flush_polls :
    {B : Type 0} → List (Option (Option Text)) → Option Text × TtlCache B → Option Text × TtlCache B
flush_polls [] s = s
flush_polls (p ∷ ps) s = flush_polls ps (flush_poll p s)
