-- ===== src/Resolver/Failover.antt =====
-- src/mirenai/domain/resolver.py: which upstream's reply is returned.
use mirenai.Resolver.Dns.{Message, Dnslib}
use mirenai.Resolver.Forward.{Env, exchange, forward_from, forward, balanced_order}
use mirenai.Buffers.Rtt
use mirenai.Buffers.Rtt.{UpstreamRttBuffer}
use mirenai.Prelude.{
  List, Option, Option-cases, [], ap, arith, inl, inr, length, list_eq, nat_eq, none, pair_eq, refl,
  some, ℕ, ◌++◌, ◌+◌, ◌∙◌, ◌∷◌, ◌≡◌, ◌⊎◌,
}
use mirenai.State.{RuntimeSettings, UpstreamServer}

module _ {R B : Type 0} (dns : Dnslib R B) (env : Env R B) (settings : RuntimeSettings)
    (request : Message R) where
  -- No exchange with the upstreams from a place of the order on succeeds.
  abbrev pub AllFail : ℕ → List UpstreamServer → Type 0
  AllFail i [] = Unit
  AllFail i (u ∷ us) = (exchange dns env i u settings request ≡ none) × AllFail (i + 1) us

  -- The first upstream whose exchange succeeds, and its reply.
  pub record FirstReply (i : ℕ) (us : List UpstreamServer) (reply : Message R) : Type 0 where
    pub before : List UpstreamServer
    pub server : UpstreamServer
    pub after : List UpstreamServer
    pub order : us ≡ before ++ server ∷ after
    pub failed : AllFail i before
    pub place : ℕ
    pub place_eq : place ≡ i + length before
    pub replied : exchange dns env place server settings request ≡ some reply

  from-miss :
      (i : ℕ) (u : UpstreamServer) (us : List UpstreamServer) (rtt : UpstreamRttBuffer)
      → exchange dns env i u settings request ≡ none
      → forward_from dns env i (u ∷ us) settings request rtt
        ≡ forward_from dns env (i + 1) us settings request rtt
  unfolding forward_from
  from-miss i u us rtt h = rw (h, forward_from) refl

  from-hit :
      (i : ℕ) (u : UpstreamServer) (us : List UpstreamServer) (rtt : UpstreamRttBuffer)
      (reply : Message R)
      → exchange dns env i u settings request ≡ some reply
      → forward_from dns env i (u ∷ us) settings request rtt
        ≡ (Rtt.add u.address (env.elapsed i) env.wall_rtt rtt, some reply)
  unfolding forward_from
  from-hit i u us rtt reply h = rw (h, forward_from) refl

  -- what a run of the loop amounts to: a first reply, timed once, or failures only
  abbrev pub Ends :
      ℕ → List UpstreamServer → UpstreamRttBuffer → UpstreamRttBuffer × Option (Message R) → Type 0
  Ends i us rtt result =
      ((result ≡ (rtt, none)) × AllFail i us)
      ⊎ ((reply : Message R) × (f : FirstReply i us reply) × (result
            ≡ (Rtt.add f.server.address (env.elapsed f.place) env.wall_rtt rtt, some reply)))

  later :
      (i : ℕ) (u : UpstreamServer) (us : List UpstreamServer) (reply : Message R)
      → exchange dns env i u settings request ≡ none
      → FirstReply (i + 1) us reply
      → FirstReply i (u ∷ us) reply
  later i u us reply miss f = record {
    before = u ∷ f.before;
    server = f.server;
    after = f.after;
    order = ap (λ vs. u ∷ vs) f.order;
    failed = (miss, f.failed);
    place = f.place;
    place_eq = omega (arith, f.place_eq);
    replied = f.replied;
  }

  forward_from-Ends :
      (i : ℕ) (us : List UpstreamServer) (rtt : UpstreamRttBuffer)
      → Ends i us rtt (forward_from dns env i us settings request rtt)
  unfolding later
  forward_from-Ends i [] rtt = inl (unfold forward_from in refl, tt)
  forward_from-Ends i (u ∷ us) rtt = elim (Option-cases (exchange dns env i u settings request)) [
    | inl miss ↦ elim (forward_from-Ends (i + 1) us rtt) [
      | inl (none_left, fail) ↦ inl (from-miss i u us rtt miss ∙ none_left, (miss, fail))
      | inr (reply, f, e) ↦ inr (reply, later i u us reply miss f, from-miss i u us rtt miss ∙ e)
    ]
    | inr (reply, hit) ↦ inr (
      reply,
      record {
        before = [];
        server = u;
        after = us;
        order = refl;
        failed = tt;
        place = i;
        place_eq = omega arith;
        replied = hit;
      },
      from-hit i u us rtt reply hit,
    )
  ]

-- Forwarding returns the reply of the first upstream, in the balanced order, whose exchange
-- succeeds, and records the time of that one alone; it returns nothing, and records nothing,
-- only if no exchange succeeds.
pub forward-first :
    {R B : Type 0} (dns : Dnslib R B) (env : Env R B) (settings : RuntimeSettings)
    (request : Message R) (upstreams : List UpstreamServer) (rtt : UpstreamRttBuffer)
    → Ends dns env settings request 0
        (balanced_order env.shuffle upstreams)
        rtt
        (forward dns env upstreams settings request rtt)
unfolding forward
forward-first dns env settings request upstreams rtt =
    forward_from-Ends dns env settings request 0 (balanced_order env.shuffle upstreams) rtt
