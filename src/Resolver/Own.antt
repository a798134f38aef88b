-- ===== src/Resolver/Own.antt =====
-- src/mirenai/domain/resolver.py: the queries that the server answers by itself, and what is counted
-- of a query.
use mirenai.Resolver.Dns.{Message, Dnslib, IsDnslib}
use mirenai.Resolver.Forward.{Env, Forwarder}
use mirenai.Resolver.Answers.{deny, nodata, override, local_reply, local_answers}
use mirenai.Resolver.Handle.{
  Resolver, is_private_ptr, overriding, action_of, blocks, decide, resolve_local_or_forward, finish,
  handle, report,
}
use mirenai.Resolver.Precedence.{
  name_of, rule_of, ipv6_off, denied, denied_result, decide-ipv6_off, decide-override, decide-plain,
  decide-deny,
}
use mirenai.LocalZones.{LocalRecord, local_records, owns}
use mirenai.Resolver.Local.{IsLocalAnswer, local_answers-IsLocalAnswer}
use mirenai.Buffers.Queries
use mirenai.Buffers.Queries.{QueryBuffer, QueryKey}
use mirenai.Python.Dict
use mirenai.Prelude.{
  Bool, Bool-cases, List, Option, Option-cases, ap, arith, false, inl, inr, list_eq, nat_eq, none,
  pair_eq, refl, some, sym, true, ℕ, ◌++◌, ◌==◌, ◌>>=◌, ◌||◌, ◌∙◌, ◌≡◌,
}
use mirenai.Buffers.Tally.{value_or_zero}
use mirenai.Policy.{action_deny}
use mirenai.Python.Dict.{Dict}
use mirenai.Python.Text.{Text, codes}
use mirenai.State.{RuntimeState}

abbrev is_some {ℓ} : {A : Type ℓ} → Option A → Bool
is_some none = false
is_some (some a) = true

-- the queries that the buffer counts for a client, a name and a type
abbrev pub queries_of : QueryKey → QueryBuffer → ℕ
queries_of k b = value_or_zero (λ (c : Queries.Counter). c.count) (Dict.get k b.counters)

module _ {R : Type 0} (state : RuntimeState) (request : Message R) (client_ip : Text) where
  -- The server decides the answer itself: IPv6 is off for the question, a rule overrides, the name
  -- is denied, or the local records own it.
  abbrev pub is_own : Bool
  is_own =
      ipv6_off state request
      || is_some (overriding (rule_of state request client_ip))
      || denied state request client_ip
      || owns state.local_records (name_of request)

module _ {R B : Type 0} (dns : Dnslib R B) (state : RuntimeState) (request : Message R)
    (client_ip : Text) where
  -- the reply of the local records
  abbrev own_reply : Message R
  own_reply = record (dns.reply request) {
    rr =
        (dns.reply request).rr
        ++ local_answers dns state.local_records request.question (name_of request);
  }

  local_reply-owned :
      owns state.local_records (name_of request) ≡ true
      → local_reply dns state.local_records request ≡ some own_reply
  unfolding local_reply
  local_reply-owned h = rw (h, local_reply) refl

  decide-local :
      (env : Env R B) (f : Forwarder B)
      → ipv6_off state request ≡ false
      → overriding (rule_of state request client_ip) ≡ none
      → denied state request client_ip ≡ false
      → owns state.local_records (name_of request) ≡ true
      → decide dns env state (rule_of state request client_ip) request client_ip f
        ≡ (f, some (own_reply, codes "local"))
  unfolding resolve_local_or_forward
  decide-local env f on plain allowed owned =
      let a : (action_of (rule_of state request client_ip) state.settings == action_deny) ≡ false =
        ground arith in
      let b : blocks state client_ip (name_of request) ≡ false = ground arith in
      decide-plain dns env state request client_ip f on plain
      ∙ rw a (rw b (rw (local_reply-owned owned, resolve_local_or_forward) refl))

  decide-own :
      (is_own state request client_ip ≡ true)
      → (a : Option (Message R × Text)) × ((env : Env R B) (f : Forwarder B)
          → decide dns env state (rule_of state request client_ip) request client_ip f ≡ (f, a))
  decide-own own = elim (Bool-cases (ipv6_off state request)) [
    | inl off ↦ (
      some (nodata dns request, codes "nodata"),
      λ env f. decide-ipv6_off dns env state request client_ip f off,
    )
    | inr on ↦ elim (Option-cases (overriding (rule_of state request client_ip))) [
      | inr (rule, o) ↦ (
        (override dns request rule >>= λ reply. some (reply, codes "override")),
        λ env f. decide-override dns env state request client_ip f rule on o,
      )
      | inl plain ↦ elim (Bool-cases (denied state request client_ip)) [
        | inl no_access ↦ (
          some (deny dns request, denied_result state request client_ip),
          λ env f. decide-deny dns env state request client_ip f on plain no_access,
        )
        | inr allowed ↦ (
          some (own_reply, codes "local"),
          λ env f. decide-local env f on plain allowed (ground arith),
        )
      ]
    ]
  ]

  finish-reply :
      (env : Env R B) (r : Resolver B) (f : Forwarder B) (a : Option (Message R × Text))
      → (finish dns env state request client_ip r (f, a)).1 ≡ (a >>= λ x. some x.0)
  unfolding finish
  finish-reply env r f none = refl
  finish-reply env r f (some x) = refl

  finish-forwarder :
      (env : Env R B) (r : Resolver B) (f : Forwarder B) (a : Option (Message R × Text))
      → (finish dns env state request client_ip r (f, a)).0.forwarder ≡ f
  unfolding finish report
  finish-forwarder env r f none = refl
  finish-forwarder env r f (some x) = refl

  handle-public :
      (env : Env R B) (r : Resolver B)
      → is_private_ptr state request.question ≡ false
      → handle dns env state request client_ip r
        ≡ finish dns env state request client_ip r
            (decide dns env state (rule_of state request client_ip) request client_ip r.forwarder)
  unfolding handle
  handle-public env r public = rw (public, handle) refl

  -- A query that the configuration answers never reaches an upstream: its reply is the same
  -- whatever the upstreams answer, the cache and the buffers hold and the clocks show, and it
  -- leaves the cache and the upstream statistics as they are.
  pub handle-own :
      (env env' : Env R B) (r r' : Resolver B)
      → is_private_ptr state request.question ≡ false
      → is_own state request client_ip ≡ true
      → ((handle dns env state request client_ip r).1
          ≡ (handle dns env' state request client_ip r').1)
        × ((handle dns env state request client_ip r).0.forwarder ≡ r.forwarder)
  handle-own env env' r r' public own =
      let (a, h) = decide-own own in
      let e =
        handle-public env r public
        ∙ ap (λ x. finish dns env state request client_ip r x) (h env r.forwarder) in
      let e' =
        handle-public env' r' public
        ∙ ap (λ x. finish dns env' state request client_ip r' x) (h env' r'.forwarder) in
      (
        ap (λ x. x.1) e
            ∙ finish-reply env r r.forwarder a
            ∙ sym (ap (λ x. x.1) e' ∙ finish-reply env' r' r'.forwarder a),
        ap (λ x. x.0.forwarder) e ∙ finish-forwarder env r r.forwarder a,
      )

  -- A name that a list of local records owns is answered from them, if it is neither denied nor
  -- overridden, no private reverse name, and IPv6 is not switched off for the question: an address
  -- question by the chain of its aliases, a question for aliases or pointers by all that the list
  -- has, in order, and any other by no records.
  pub handle-local :
      (env : Env R B) (r : Resolver B) (records : List LocalRecord)
      → state.local_records ≡ local_records records
      → is_private_ptr state request.question ≡ false
      → ipv6_off state request ≡ false
      → overriding (rule_of state request client_ip) ≡ none
      → denied state request client_ip ≡ false
      → owns state.local_records (name_of request) ≡ true
      → IsDnslib dns
      → (reply : Message R) × ((handle dns env state request client_ip r).1 ≡ some reply)
        × (reply.id ≡ request.id)
        × IsLocalAnswer dns records request.question (name_of request) reply.rr
  handle-local env r records indexed public on plain allowed owned laws =
      let e =
        handle-public env r public
        ∙ ap (λ x. finish dns env state request client_ip r x)
            (decide-local env r.forwarder on plain allowed owned) in
      (
        own_reply,
        ap (λ x. x.1) e ∙ finish-reply env r r.forwarder (some (own_reply, codes "local")),
        laws.reply-id request,
        rw (laws.reply-rr request, indexed)
            (local_answers-IsLocalAnswer dns records request.question (name_of request)),
      )
