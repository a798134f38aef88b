-- ===== src/Resolver/Hits.antt =====
-- src/mirenai/domain/resolver.py: an answer that was stored is given again while it is fresh.
use mirenai.Resolver.Dns.{Message, Dnslib, IsDnslib}
use mirenai.Resolver.Keys.{cache_key}
use mirenai.Resolver.Forward.{
  Env, Forwarder, with_ttl, store, cached_reply, cache_lookup, forward_or_cache,
}
use mirenai.Cache
use mirenai.Cache.{TtlCache, CacheEntry, second, fresh}
use mirenai.Cache.Order.{IsValid}
use mirenai.Cache.Reads
use mirenai.Prelude.{
  List, arith, list_eq, nat_eq, pair_eq, refl, some, true, ℕ, ◌*◌, ◌+◌, ◌-◌, ◌/◌, ◌<◌, ◌>>=◌, ◌∙◌,
  ◌≡◌,
}
use mirenai.Python.Text.{Text, codes}
use mirenai.State.{RuntimeSettings, UpstreamServer}

module _ {R B : Type 0} (dns : Dnslib R B) (env : Env R B) where
  -- the reply as the cache gives it to a request, with some seconds left
  abbrev pub aged : Message R → Message R → ℕ → Message R
  aged reply request left = record reply {
    id = request.id;
    rr = with_ttl left reply.rr;
    auth = with_ttl left reply.auth;
    ar = with_ttl left reply.ar;
  }

  cached_reply-aged :
      (laws : IsDnslib dns) (reply request : Message R) (ttl now : ℕ)
      → cached_reply dns env (fresh (dns.pack reply) ttl now) request
        ≡ some (aged reply request ((now + ttl * second - env.clock_hit) / second))
  unfolding cached_reply
  cached_reply-aged laws reply request ttl now = rw (laws.parse-pack reply, cached_reply) refl

  hit :
      (qtype : Text) (upstreams : List UpstreamServer) (settings : RuntimeSettings) (client : Text)
      (request : Message R) (f : Forwarder B) (entry : CacheEntry B)
      → (cache_lookup dns env
          (cache_key request.question.qname request.question.qtype request.question.qclass)
          settings
          f.cache).1
        ≡ some entry
      → (forward_or_cache dns env qtype upstreams settings client request f).1
        ≡ (cached_reply dns env entry request >>= λ reply. some (reply, codes "forward-cache"))
  unfolding forward_or_cache
  hit qtype upstreams settings client request f entry h = rw (h, forward_or_cache) refl

  looked_up :
      (key : Text) (settings : RuntimeSettings) (c : TtlCache B)
      → settings.cache_enabled ≡ true
      → (cache_lookup dns env key settings c).1 ≡ (Cache.get key env.clock_get c).1
  unfolding cache_lookup
  looked_up key settings c on = rw (on, cache_lookup) refl

  -- With the cache on and valid, a request for a question that comes right after a reply was stored
  -- under its key, and within its lifetime, gets the reply back, from the cache whatever the upstreams do, with the
  -- request's id and, in every record, the whole seconds that are left.
  pub forward_or_cache-stored :
      (laws : IsDnslib dns) (storing : Env R B) (qtype : Text) (upstreams : List UpstreamServer)
      (settings : RuntimeSettings) (client : Text) (request reply : Message R) (ttl : ℕ)
      (f : Forwarder B)
      → IsValid f.cache
      → settings.cache_enabled ≡ true
      → env.clock_get < storing.clock_set + ttl * second
      → (forward_or_cache dns env qtype upstreams settings client request (
          store dns storing
            (cache_key request.question.qname request.question.qtype request.question.qclass)
            reply
            ttl
            f)).1
        ≡ some (
          aged reply request ((storing.clock_set + ttl * second - env.clock_hit) / second),
          codes "forward-cache",
        )
  unfolding store
  forward_or_cache-stored laws storing qtype upstreams settings client request reply ttl f v on h =
      let key = cache_key request.question.qname request.question.qtype request.question.qclass in
      let entry : CacheEntry B = fresh (dns.pack reply) ttl storing.clock_set in
      hit qtype upstreams settings client request (store dns storing key reply ttl f) entry (
        looked_up key settings (Cache.set key (dns.pack reply) ttl storing.clock_set f.cache) on
        ∙ Reads.get-set_self key (dns.pack reply) ttl storing.clock_set f.cache v env.clock_get
        ∙ ground arith)
      ∙ rw (cached_reply-aged laws reply request ttl storing.clock_set) refl
