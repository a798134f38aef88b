-- ===== src/Resolver/Precedence.antt =====
-- src/mirenai/domain/resolver.py: what decides the answer to a query, and what is reported of it.
use mirenai.Resolver.Dns.{Message, Dnslib, IsDnslib, qtype_aaaa, rcode_nxdomain}
use mirenai.Resolver.Forward.{Env, Forwarder}
use mirenai.Resolver.Answers.{deny, nodata, override}
use mirenai.Resolver.Handle.{
  Resolver, is_private_ptr, overriding, action_of, blocks, decide, resolve_local_or_forward, finish,
  handle, report,
}
use mirenai.Prelude.{
  Bool, Bool-cases, Option, [], ap, arith, false, if◌then◌else◌, inl, inr, list_eq, nat_eq, none,
  not, pair_eq, refl, some, true, ℕ, ◌&&◌, ◌==◌, ◌>>=◌, ◌||◌, ◌∙◌, ◌≡◌,
}
use mirenai.Policy.{PolicyRule, action_deny, normalize_domain, select_policy}
use mirenai.Python.Text.{Text, codes}
use mirenai.State.{RuntimeState}

-- what the replies without an answer look like
pub record IsEmptyReply {R : Type 0} (request : Message R) (rcode : ℕ) (m : Message R)
    : Type 0 where
  pub same_id : m.id ≡ request.id
  pub same_question : m.question ≡ request.question
  pub code : m.rcode ≡ rcode
  pub no_answers : m.rr ≡ []
  pub no_authority : m.auth ≡ []
  pub no_additional : m.ar ≡ []

module _ {R : Type 0} where
  -- the normalized name of the question, and the rule that applies
  abbrev pub name_of : Message R → Text
  name_of request = normalize_domain request.question.qname

module _ {R : Type 0} (state : RuntimeState) (request : Message R) where
  abbrev pub rule_of : Text → Option PolicyRule
  rule_of client_ip = select_policy state.policies client_ip request.question.qname

  -- IPv6 questions are answered empty while IPv6 is off.
  abbrev pub ipv6_off : Bool
  ipv6_off = request.question.qtype == qtype_aaaa && not state.settings.ipv6_enabled

  -- A rule or the default action denies the name, or the blocklist does.
  abbrev pub denied : Text → Bool
  denied client_ip =
      action_of (rule_of client_ip) state.settings == action_deny
      || blocks state client_ip (name_of request)

  -- which of the two it was
  abbrev pub denied_result : Text → Text
  denied_result client_ip =
      if action_of (rule_of client_ip) state.settings == action_deny
      then codes "deny"
      else codes "blocklist"

module _ {R B : Type 0} (dns : Dnslib R B) (env : Env R B) (state : RuntimeState)
    (request : Message R) (client_ip : Text) where
  deny-IsEmptyReply : IsDnslib dns → IsEmptyReply request rcode_nxdomain (deny dns request)
  unfolding deny
  deny-IsEmptyReply laws = record {
    same_id = laws.reply-id request;
    same_question = laws.reply-question request;
    code = refl;
    no_answers = laws.reply-rr request;
    no_authority = laws.reply-auth request;
    no_additional = laws.reply-ar request;
  }

  pub decide-ipv6_off :
      (f : Forwarder B)
      → (ipv6_off state request) ≡ true
      → decide dns env state (rule_of state request client_ip) request client_ip f
        ≡ (f, some (nodata dns request, codes "nodata"))
  unfolding decide
  decide-ipv6_off f h = rw (h, decide) refl

  pub decide-override :
      (f : Forwarder B) (rule : PolicyRule)
      → (ipv6_off state request) ≡ false
      → overriding (rule_of state request client_ip) ≡ some rule
      → decide dns env state (rule_of state request client_ip) request client_ip f
        ≡ (f, (override dns request rule >>= λ reply. some (reply, codes "override")))
  unfolding decide
  decide-override f rule on h = rw (on, decide) (rw (h, decide) refl)

  pub decide-plain :
      (f : Forwarder B)
      → (ipv6_off state request) ≡ false
      → overriding (rule_of state request client_ip) ≡ none
      → decide dns env state (rule_of state request client_ip) request client_ip f ≡ (
          if action_of (rule_of state request client_ip) state.settings == action_deny
          then (f, some (deny dns request, codes "deny"))
          else if blocks state client_ip (name_of request)
          then (f, some (deny dns request, codes "blocklist"))
          else resolve_local_or_forward dns env state request client_ip f)
  unfolding decide
  decide-plain f on h = rw (on, decide) (rw (h, decide) refl)

  pub decide-deny :
      (f : Forwarder B)
      → (ipv6_off state request) ≡ false
      → overriding (rule_of state request client_ip) ≡ none
      → (denied state request client_ip) ≡ true
      → decide dns env state (rule_of state request client_ip) request client_ip f
        ≡ (f, some (deny dns request, denied_result state request client_ip))
  decide-deny f on plain no_access =
      elim (Bool-cases
        (action_of (rule_of state request client_ip) state.settings == action_deny)) [
          | inl rule ↦ decide-plain f on plain ∙ rw rule refl
          | inr other ↦
              let listed : blocks state client_ip (name_of request) ≡ true = ground arith in
              decide-plain f on plain ∙ rw other (rw listed refl)
        ]

  pub handle-decided :
      (r : Resolver B) (f : Forwarder B) (reply : Message R) (result : Text)
      → is_private_ptr state request.question ≡ false
      → decide dns env state (rule_of state request client_ip) request client_ip r.forwarder
        ≡ (f, some (reply, result))
      → handle dns env state request client_ip r ≡ (
        report dns env state request client_ip reply result (record r { forwarder = f }),
        some reply,
      )
  unfolding handle finish
  handle-decided r f reply result public h = rw (public, handle) (rw (h, handle) refl)

  -- A name that a rule or the default action denies, or that the blocklist blocks for the client,
  -- is answered with NXDOMAIN and no records, whatever the local records, the cache and the
  -- upstreams hold, and none of these is touched. Before that come only the private reverse names,
  -- IPv6 questions while IPv6 is off, and a rule that overrides.
  pub handle-denied :
      (laws : IsDnslib dns) (r : Resolver B)
      → is_private_ptr state request.question ≡ false
      → (ipv6_off state request) ≡ false
      → overriding (rule_of state request client_ip) ≡ none
      → (denied state request client_ip) ≡ true
      → (reply : Message R) × ((handle dns env state request client_ip r).1 ≡ some reply)
        × IsEmptyReply request rcode_nxdomain reply
        × ((handle dns env state request client_ip r).0.forwarder ≡ r.forwarder)
  unfolding report
  handle-denied laws r public on plain no_access =
      let h = decide-deny r.forwarder on plain no_access in
      let e =
        handle-decided r r.forwarder (deny dns request) (denied_result state request client_ip)
          public h in
      (deny dns request, ap (λ x. x.1) e, deny-IsEmptyReply laws, ap (λ x. x.0.forwarder) e)
