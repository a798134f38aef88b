-- ===== src/Resolver/Handle.antt =====
-- src/mirenai/domain/resolver.py: the resolver's state, and `handle`.
use mirenai.Resolver.Dns.{Rr, Question, Message, Dnslib, qtype_ptr, qtype_aaaa}
use mirenai.Resolver.Forward.{Env, Forwarder, forward_or_cache, Result}
use mirenai.Resolver.Answers.{deny, nodata, override, local_reply}
use mirenai.LocalZones.{owns}
use mirenai.Buffers.Queries
use mirenai.Buffers.Queries.{QueryBuffer}
use mirenai.Buffers.Stats
use mirenai.Buffers.Stats.{ClientStatsBuffer}
use mirenai.Buffers.Requests
use mirenai.Buffers.Requests.{ClientRequestBuffer}
use mirenai.Buffers.Events
use mirenai.Buffers.Events.{QueryEventBuffer}
use mirenai.Buffers.Foreign
use mirenai.Buffers.Foreign.{ForeignClientBuffer}
use mirenai.Prelude.{
  Bool, Option, contains, if◌then◌else◌, list_eq, map, nat_eq, none, not, pair_eq, some, ℕ, ◌&&◌,
  ◌==◌, ◌>>=◌,
}
use mirenai.Blocklist.{is_blocked}
use mirenai.Network.{is_trusted}
use mirenai.Policy.{PolicyRule, action_deny, action_override, normalize_domain, select_policy}
use mirenai.Python.Int.Digits.{show}
use mirenai.Python.Str.Split.{join}
use mirenai.Python.Text.{Text, codes}
use mirenai.Resolver.Keys.{is_rfc1918_ptr}
use mirenai.State.{RuntimeSettings, RuntimeState}

-- `DnsResolver`: the parts that forwarding changes, and the buffers of `handle`
pub record Resolver (B : Type 0) : Type 0 where
  pub forwarder : Forwarder B
  pub buffer : QueryBuffer
  pub stats : ClientStatsBuffer
  pub requests : ClientRequestBuffer
  pub events : QueryEventBuffer
  pub foreign : ForeignClientBuffer

-- `DnsResolver.is_trusted`
unfoldable pub is_trusted_client : RuntimeState → Text → Bool
unfolding is_trusted
is_trusted_client state client_ip = is_trusted state.network_filter client_ip

abbrev pub name_or_number : Option Text → ℕ → Text
name_or_number none value = show value
name_or_number (some name) value = name

abbrev pub comma_space : Text
comma_space = codes ", "

module _ {R B : Type 0} (env : Env R B) where
  -- `record_foreign`
  unfoldable pub record_foreign : Text → Resolver B → Resolver B
  record_foreign client_ip r = record r {
    stats = Stats.add_foreign env.wall_stats r.stats;
    foreign = Foreign.add client_ip r.foreign;
  }

module _ {R B : Type 0} (dns : Dnslib R B) where
  -- `_qtype_name` and `_rcode_name`
  unfoldable pub qtype_name : ℕ → Text
  qtype_name value = name_or_number (dns.qtype_of value) value

  unfoldable pub rcode_name : ℕ → Text
  rcode_name value = name_or_number (dns.rcode_of value) value

  -- `_answer_summary`
  unfoldable pub answer_summary : Message R → Text
  answer_summary reply = join comma_space (map (λ (r : Rr R). dns.rdata_text r.rdata) reply.rr)

-- the action of the rule that applies, or the default
abbrev pub action_of : Option PolicyRule → RuntimeSettings → Text
action_of none settings = settings.default_action
action_of (some rule) settings = rule.action

-- the rule, if it is an override
abbrev pub overriding : Option PolicyRule → Option PolicyRule
overriding none = none
overriding (some rule) = if rule.action == action_override then some rule else none

module _ (state : RuntimeState) where
  -- Whether the blocklist denies a name to a client.
  unfoldable pub blocks : Text → Text → Bool
  blocks client_ip qname =
      not (contains state.blocklist_excluded client_ip) && is_blocked state.blocklist qname

  -- the first test of `handle`
  unfoldable pub is_private_ptr : Question → Bool
  unfolding normalize_domain is_rfc1918_ptr owns
  is_private_ptr question =
      let qname = normalize_domain question.qname in
      state.settings.drop_private_ptr
      && question.qtype == qtype_ptr
      && is_rfc1918_ptr qname
      && not (owns state.local_records qname)

module _ {R B : Type 0} (dns : Dnslib R B) (env : Env R B) (state : RuntimeState) where
  -- `_resolve_local_or_forward`
  unfoldable pub resolve_local_or_forward :
      Message R → Text → Forwarder B → Forwarder B × Option (Result dns env)
  resolve_local_or_forward request client f = elim (local_reply dns state.local_records request) [
    | some reply ↦ (f, some (reply, codes "local"))
    | none ↦
        forward_or_cache dns env (qtype_name dns request.question.qtype) state.upstreams
          state.settings client request f
  ]

  -- The reply and its result, by the rule that was selected.
  unfoldable pub decide :
      Option PolicyRule → Message R → Text → Forwarder B → Forwarder B × Option (Result dns env)
  unfolding normalize_domain
  decide rule request client_ip f =
      if request.question.qtype == qtype_aaaa && not state.settings.ipv6_enabled
      then (f, some (nodata dns request, codes "nodata"))
      else (elim (overriding rule) [
        | some r ↦ (f, (override dns request r >>= λ reply. some (reply, codes "override")))
        | none ↦
            if action_of rule state.settings == action_deny
            then (f, some (deny dns request, codes "deny"))
            else if blocks state client_ip (normalize_domain request.question.qname)
            then (f, some (deny dns request, codes "blocklist"))
            else resolve_local_or_forward request client_ip f
      ])

  -- what `handle` reports of an answered query
  unfoldable pub report : Message R → Text → Message R → Text → Resolver B → Resolver B
  unfolding normalize_domain
  report request client_ip reply result r =
      let qname = normalize_domain request.question.qname in
      let qtype = qtype_name dns request.question.qtype in
      let summary = answer_summary dns reply in
      record r {
        buffer = Queries.add client_ip qname qtype result summary r.buffer;
        stats = Stats.add client_ip result env.wall_stats r.stats;
        requests = Requests.add client_ip qname qtype r.requests;
        events =
            Events.add client_ip qname qtype (rcode_name dns reply.rcode) summary env.wall_events
              r.events;
      }

  unfoldable pub finish :
      Message R
      → Text
      → Resolver B
      → Forwarder B × Option (Result dns env)
      → Resolver B × Option (Message R)
  finish request client_ip r (f, none) = (record r { forwarder = f }, none)
  finish request client_ip r (f, some (reply, result)) =
      (report request client_ip reply result (record r { forwarder = f }), some reply)

  -- `handle`; `none` is an exception, with the state in which it leaves the resolver
  unfoldable pub handle : Message R → Text → Resolver B → Resolver B × Option (Message R)
  unfolding select_policy
  handle request client_ip r =
      if is_private_ptr state request.question
      then (r, some (nodata dns request))
      else finish request client_ip r (
          decide (select_policy state.policies client_ip request.question.qname) request client_ip
            r.forwarder)
