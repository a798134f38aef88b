-- ===== src/Resolver/Caching.antt =====
-- src/mirenai/domain/resolver.py: what is cached, for how long, and what a cached answer looks like.
use mirenai.Resolver.Dns.{Rr, Message, Dnslib, rcode_noerror, rcode_nxdomain}
use mirenai.Resolver.Keys.{negative_ttl, least_ttl, compute_ttl}
use mirenai.Resolver.Forward.{
  Env, Forwarder, skip_cache, store, cache_negative, cache_negative_or_skip, cache_or_record_skip,
}
use mirenai.Buffers.Outcome.{
  outcome_cached, outcome_error, outcome_nodata, outcome_nxdomain, outcome_zero_ttl,
}
use mirenai.Cache
use mirenai.Buffers.Outcome
use mirenai.Buffers.Uncacheable
use mirenai.Prelude.{
  All, ap, Bool-cases, List, Option, Option-cases, [], arith, false, if◌then◌else◌, inl, inr,
  list_eq, ltb, nat_beq_iff, nat_eq, none, pair_eq, refl, some, ℕ, ◌<◌, ◌==◌, ◌∙◌, ◌∷◌, ◌≡◌, ◌≤◌,
  ◌⊎◌,
}
use mirenai.Python.Text.{Text}
use mirenai.State.{RuntimeSettings}

All-le :
    {R : Type 0} {p q : ℕ}
    → p ≤ q
    → (rs : List (Rr R)) → All (λ (s : Rr R). q ≤ s.ttl) rs
    → All (λ (s : Rr R). p ≤ s.ttl) rs
All-le h [] g = tt
All-le h (r ∷ rs) g = (omega (arith, h, g.0), All-le h rs g.1)

least_ttl-le :
    {R : Type 0} (r : Rr R) (rs : List (Rr R)) → All (λ (s : Rr R). least_ttl r rs ≤ s.ttl) (r ∷ rs)
unfolding least_ttl
least_ttl-le r [] = (omega arith, tt)
least_ttl-le {R} r (s ∷ rs) = (omega arith, All-le (omega arith) (s ∷ rs) (least_ttl-le s rs))

-- The lifetime of an answer lies between the configured bounds, and it is no longer than that of
-- any of its records, unless the lower bound asks for more.
compute_ttl-bounds :
    {R : Type 0} (r : Rr R) (rs : List (Rr R)) (settings : RuntimeSettings)
    → settings.cache_min_ttl ≤ settings.cache_max_ttl
    → (settings.cache_min_ttl ≤ compute_ttl r rs settings)
      × (compute_ttl r rs settings ≤ settings.cache_max_ttl)
      × (settings.cache_min_ttl < compute_ttl r rs settings
          → All (λ (s : Rr R). compute_ttl r rs settings ≤ s.ttl) (r ∷ rs))
unfolding compute_ttl
compute_ttl-bounds r rs settings h =
    (omega arith, omega (arith, h), (λ g. All-le (omega (arith, g)) (r ∷ rs) (least_ttl-le r rs)))

module _ {R B : Type 0} (dns : Dnslib R B) (env : Env R B) where
  module _ (reply : Message R) (settings : RuntimeSettings) where
    -- The answer has no authority record to take a lifetime from, or that lifetime is zero.
    abbrev pub NoLifetime : Type 0
    NoLifetime =
        (negative_ttl dns.soa_minimum reply settings ≡ none)
        ⊎ (negative_ttl dns.soa_minimum reply settings ≡ some 0)

    -- how long an answer may be kept: by its records, or by its authority record if it has none
    pub data IsLifetime : ℕ → Type 0 where
      of_records :
          {r : Rr R} {rs : List (Rr R)}
          → reply.rcode ≡ rcode_noerror
          → reply.rr ≡ r ∷ rs
          → IsLifetime (compute_ttl r rs settings)
      of_authority :
          {ttl : ℕ}
          → (reply.rcode ≡ rcode_nxdomain) ⊎ ((reply.rcode ≡ rcode_noerror) × (reply.rr ≡ []))
          → negative_ttl dns.soa_minimum reply settings ≡ some ttl
          → IsLifetime ttl

    -- why an answer is not kept, with the lifetime that is noted
    pub data IsReason : Text → Option ℕ → Type 0 where
      no_name : reply.rcode ≡ rcode_nxdomain → NoLifetime → IsReason outcome_nxdomain none
      no_records :
          reply.rcode ≡ rcode_noerror → reply.rr ≡ [] → NoLifetime → IsReason outcome_nodata none
      other_code :
          (reply.rcode == rcode_nxdomain) ≡ false
          → (reply.rcode == rcode_noerror) ≡ false
          → IsReason outcome_error none
      no_time :
          {r : Rr R} {rs : List (Rr R)}
          → reply.rcode ≡ rcode_noerror
          → reply.rr ≡ r ∷ rs
          → compute_ttl r rs settings ≡ 0
          → IsReason outcome_zero_ttl (some (least_ttl r rs))

  -- The two things that can become of a forwarded answer: it is stored for its lifetime, which is
  -- positive, and counted as cached; or the cache stays, and the answer is noted as uncacheable and
  -- counted, under a reason that applies.
  pub data Verdict (key : Text) (reply : Message R) (name qtype client : Text)
      (settings : RuntimeSettings) (f : Forwarder B) : Forwarder B → Type 0 where
    stored :
        {f' : Forwarder B} (ttl : ℕ)
        → IsLifetime reply settings ttl
        → 0 < ttl
        → f'.cache ≡ Cache.set key (dns.pack reply) ttl env.clock_set f.cache
        → f'.outcomes ≡ Outcome.add outcome_cached env.wall_outcome f.outcomes
        → f'.uncached ≡ f.uncached
        → f'.rtt ≡ f.rtt
        → Verdict key reply name qtype client settings f f'
    skipped :
        {f' : Forwarder B} (reason : Text) (ttl : Option ℕ)
        → IsReason reply settings reason ttl
        → f'.cache ≡ f.cache
        → f'.outcomes ≡ Outcome.add reason env.wall_outcome f.outcomes
        → f'.uncached ≡ Uncacheable.add client name qtype reason ttl f.uncached
        → f'.rtt ≡ f.rtt
        → Verdict key reply name qtype client settings f f'

  module _ (key : Text) (reply : Message R) (name qtype client : Text) (settings : RuntimeSettings)
      (f : Forwarder B) where
    store-Verdict :
        (ttl : ℕ)
        → IsLifetime reply settings ttl
        → 0 < ttl
        → Verdict key reply name qtype client settings f (store dns env key reply ttl f)
    unfolding store
    store-Verdict ttl life positive = Verdict.stored ttl life positive refl refl refl refl

    skip_cache-Verdict :
        (reason : Text) (ttl : Option ℕ)
        → IsReason reply settings reason ttl
        → Verdict key reply name qtype client settings f
            (skip_cache dns env client name qtype reason ttl f)
    unfolding skip_cache
    skip_cache-Verdict reason ttl why = Verdict.skipped reason ttl why refl refl refl refl

    negative-skip :
        (reason : Text)
        → cache_negative dns env key reply settings f ≡ none
        → cache_negative_or_skip dns env key reply name qtype settings client reason f
          ≡ skip_cache dns env client name qtype reason none f
    unfolding cache_negative_or_skip
    negative-skip reason h = rw (h, cache_negative_or_skip) refl

    negative-store :
        (reason : Text) (f' : Forwarder B)
        → cache_negative dns env key reply settings f ≡ some f'
        → cache_negative_or_skip dns env key reply name qtype settings client reason f ≡ f'
    unfolding cache_negative_or_skip
    negative-store reason f' h = rw (h, cache_negative_or_skip) refl

    no_soa :
        negative_ttl dns.soa_minimum reply settings ≡ none
        → cache_negative dns env key reply settings f ≡ none
    unfolding cache_negative
    no_soa h = rw (h, cache_negative) refl

    with_soa :
        (ttl : ℕ)
        → negative_ttl dns.soa_minimum reply settings ≡ some ttl
        → cache_negative dns env key reply settings f
          ≡ (if ttl == 0 then none else some (store dns env key reply ttl f))
    unfolding cache_negative
    with_soa ttl h = rw (h, cache_negative) refl

    negative-Verdict :
        (reason : Text)
        → (NoLifetime reply settings → IsReason reply settings reason none)
        → (reply.rcode ≡ rcode_nxdomain) ⊎ ((reply.rcode ≡ rcode_noerror) × (reply.rr ≡ []))
        → Verdict key reply name qtype client settings f
            (cache_negative_or_skip dns env key reply name qtype settings client reason f)
    negative-Verdict reason why code =
        elim (Option-cases (negative_ttl dns.soa_minimum reply settings)) [
          | inl no_ttl ↦
              rw (negative-skip reason (no_soa no_ttl))
                (skip_cache-Verdict reason none (why (inl no_ttl)))
          | inr (ttl, soa) ↦ elim (Bool-cases (ttl == 0)) [
            | inl zero_ttl ↦ rw (negative-skip reason (with_soa ttl soa ∙ rw zero_ttl refl)) (
                skip_cache-Verdict reason none
                  (why (inr (soa ∙ ap some ((nat_beq_iff ttl 0).0 zero_ttl)))))
            | inr positive ↦
                rw
                  (negative-store reason (store dns env key reply ttl f)
                    (with_soa ttl soa ∙ rw positive refl))
                  (store-Verdict ttl (IsLifetime.of_authority code soa)
                    (ground (arith, nat_beq_iff ttl 0)))
          ]
        ]

    positive-Verdict :
        (r : Rr R) (rs : List (Rr R))
        → reply.rcode ≡ rcode_noerror
        → reply.rr ≡ r ∷ rs
        → Verdict key reply name qtype client settings f (
            let ttl = compute_ttl r rs settings in
            if ltb 0 ttl
            then store dns env key reply ttl f
            else skip_cache dns env client name qtype outcome_zero_ttl (some (least_ttl r rs)) f)
    positive-Verdict r rs code e = elim (Bool-cases (ltb 0 (compute_ttl r rs settings))) [
      | inl positive ↦
          rw positive (
            store-Verdict (compute_ttl r rs settings) (IsLifetime.of_records code e) (ground arith))
      | inr expired ↦ rw expired (
          skip_cache-Verdict outcome_zero_ttl (some (least_ttl r rs))
            (IsReason.no_time code e (ground arith)))
    ]

    noerror-Verdict :
        (rr : List (Rr R))
        → reply.rcode ≡ rcode_noerror
        → reply.rr ≡ rr
        → Verdict key reply name qtype client settings f (elim rr [
          | [] ↦
              cache_negative_or_skip dns env key reply name qtype settings client outcome_nodata f
          | r ∷ rs ↦
              let ttl = compute_ttl r rs settings in
              if ltb 0 ttl
              then store dns env key reply ttl f
              else skip_cache dns env client name qtype outcome_zero_ttl (some (least_ttl r rs)) f
        ])
    noerror-Verdict [] code e =
        negative-Verdict outcome_nodata (IsReason.no_records code e) (inr (code, e))
    noerror-Verdict (r ∷ rs) code e = positive-Verdict r rs code e

    -- A forwarded answer is kept only with the code NOERROR or NXDOMAIN, for a positive lifetime
    -- that its records, or without them its authority record, give; then it is put into the cache
    -- and counted as cached. Otherwise the cache is left as it is, and the answer is noted as
    -- uncacheable and counted, with the reason: an error code, no lifetime, or a lifetime of zero.
    pub cache_or_record_skip-Verdict :
        Verdict key reply name qtype client settings f
          (cache_or_record_skip dns env key reply name qtype settings client f)
    unfolding cache_or_record_skip
    cache_or_record_skip-Verdict = elim (Bool-cases (reply.rcode == rcode_nxdomain)) [
      | inl nx ↦
          let code = (nat_beq_iff reply.rcode rcode_nxdomain).0 nx in
          rw nx (negative-Verdict outcome_nxdomain (IsReason.no_name code) (inl code))
      | inr other ↦ elim (Bool-cases (reply.rcode == rcode_noerror)) [
        | inr err ↦
            rw other
              (rw err (skip_cache-Verdict outcome_error none (IsReason.other_code other err)))
        | inl ok ↦
            let code = (nat_beq_iff reply.rcode rcode_noerror).0 ok in
            rw other (rw ok (noerror-Verdict reply.rr code refl))
      ]
    ]
