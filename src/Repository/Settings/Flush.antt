-- ===== src/Repository/Settings/Flush.antt =====
-- src/mirenai/repository/cache_control.py: the request to flush the cache.
use mirenai.Python.Dict
use mirenai.Prelude.{Option, beq_refl, list_eq, nat_eq, pair_eq, refl, some, ℕ, ◌/◌, ◌≡◌}
use mirenai.Cache.{TtlCache, second}
use mirenai.CacheView.{microseconds}
use mirenai.Python.Dict.{Dict}
use mirenai.Python.Text.{Text, codes}
use mirenai.Server.{flush_poll}

abbrev pub flush_key : Text
flush_key = codes "cache_flush_requested_at"

-- `datetime.now().isoformat(timespec="seconds")` of a moment in microseconds
module _ (isoformat : ℕ → Text) where
  abbrev pub requested_at : ℕ → Text
  requested_at now = isoformat (now / microseconds)

  unfoldable pub request_cache_flush : ℕ → Dict Text Text → Dict Text Text × Text
  request_cache_flush now t = (Dict.put flush_key (requested_at now) t, requested_at now)

  unfoldable pub get_cache_flush_request : Dict Text Text → Option Text
  get_cache_flush_request t = Dict.get flush_key t

  pub get-request_cache_flush :
      (now : ℕ) (t : Dict Text Text)
      → get_cache_flush_request (request_cache_flush now t).0 ≡ some (requested_at now)
  unfolding get_cache_flush_request request_cache_flush
  get-request_cache_flush now t = Dict.get-put flush_key flush_key (requested_at now) t

  -- A second request within a second of the first is lost: the worker that has seen the first does
  -- not clear its cache for the second.
  pub flush_poll-same_second :
      {B : Type 0} (first second : ℕ) (t : Dict Text Text) (cache : TtlCache B)
      → first / microseconds ≡ second / microseconds
      → let after = (request_cache_flush first t).0 in
        flush_poll
          (some (get_cache_flush_request (request_cache_flush second after).0))
          (get_cache_flush_request after, cache)
        ≡ (get_cache_flush_request after, cache)
  unfolding flush_poll
  flush_poll-same_second first second t cache e =
      let after = (request_cache_flush first t).0 in
      rw (get-request_cache_flush first t, get-request_cache_flush second after, e)
        (rw (beq_refl (requested_at second)) refl)
