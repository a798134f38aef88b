-- ===== src/Server/Flushing.antt =====
-- src/mirenai/workers/dns_server.py: when the cache is cleared on request.
use mirenai.Server.{is_last, flush_poll, flush_polls}
use mirenai.Cache
use mirenai.Cache.{TtlCache}
use mirenai.Prelude.{
  All, Bool-cases, List, Option, [], ap, arith, if◌then◌else◌, inl, inr, list_beq_iff, list_eq,
  nat_eq, none, pair_eq, refl, some, true, ◌==◌, ◌∙◌, ◌∷◌, ◌≡◌,
}
use mirenai.Python.Text.{Text}

-- a poll that fails, finds no request, or finds the given one
abbrev pub Quiet : Text → Option (Option Text) → Type 0
Quiet requested none = Unit
Quiet requested (some none) = Unit
Quiet requested (some (some r)) = r ≡ requested

module _ {B : Type 0} (requested : Text) where
  poll-Quiet :
      (p : Option (Option Text)) (cache : TtlCache B)
      → Quiet requested p
      → flush_poll p (some requested, cache) ≡ (some requested, cache)
  unfolding flush_poll
  poll-Quiet none cache h = refl
  poll-Quiet (some none) cache h = refl
  poll-Quiet (some (some r)) cache h =
      let same : (r == requested) ≡ true = ground (arith, list_beq_iff r requested) in rw same refl

  polls-Quiet :
      (ps : List (Option (Option Text))) (cache : TtlCache B)
      → All (Quiet requested) ps
      → flush_polls ps (some requested, cache) ≡ (some requested, cache)
  unfolding flush_polls
  polls-Quiet [] cache h = refl
  polls-Quiet (p ∷ ps) cache h =
      ap (flush_polls ps) (poll-Quiet p cache h.0) ∙ polls-Quiet ps cache h.1

  first-poll :
      (seen : Option Text) (cache : TtlCache B)
      → flush_poll (some (some requested)) (seen, cache)
        ≡ (some requested, (if is_last requested seen then cache else Cache.clear cache))
  unfolding flush_poll
  first-poll none cache = refl
  first-poll (some last) cache = elim (Bool-cases (requested == last)) [
    | inl same ↦
        let e : last ≡ requested = ground (arith, list_beq_iff requested last) in
        rw same (ap (λ (t : Text). (some t, cache)) e)
    | inr other ↦ rw other refl
  ]

  -- A flush request clears the cache once: at the first poll that finds it, unless it is the one
  -- seen last, and not again while polls fail or find the same request.
  flush_polls-once :
      (seen : Option Text) (cache : TtlCache B) (ps : List (Option (Option Text)))
      → All (Quiet requested) ps
      → flush_polls (some (some requested) ∷ ps) (seen, cache)
        ≡ (some requested, (if is_last requested seen then cache else Cache.clear cache))
  unfolding flush_polls
  flush_polls-once seen cache ps h =
      ap (flush_polls ps) (first-poll seen cache)
      ∙ polls-Quiet ps (if is_last requested seen then cache else Cache.clear cache) h
