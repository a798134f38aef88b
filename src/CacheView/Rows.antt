-- ===== src/CacheView/Rows.antt =====
-- src/mirenai/domain/cacheview.py: a row shows the name, the type and the class of its key.
use mirenai.Resolver.Keys.{cache_key}
use mirenai.CacheView.{rsplit_once, split_key}
use mirenai.Prelude.{
  [], arith, contains, false, list_eq, nat_eq, none, pair_eq, refl, some, ℕ, ◌++◌, ◌==◌, ◌∷◌, ◌≡◌,
}
use mirenai.Policy.{normalize_domain}
use mirenai.Python.Int.Digits.{show, show-no_bar}
use mirenai.Python.Text.{Text}

rsplit_once-none : (s : Text) → contains s b'|' ≡ false → rsplit_once s ≡ none
unfolding rsplit_once
rsplit_once-none [] h = refl
rsplit_once-none (c ∷ s) h =
    let rest = rsplit_once-none s (ground arith) in
    let other : (c == b'|') ≡ false = ground arith in rw (rest, rsplit_once) (rw other refl)

-- A text is cut at its last bar.
pub rsplit_once-bar :
    (before behind : Text)
    → contains behind b'|' ≡ false
    → rsplit_once (before ++ b'|' ∷ behind) ≡ some (before, behind)
unfolding rsplit_once
rsplit_once-bar [] behind h = rw (rsplit_once-none behind h) refl
rsplit_once-bar (c ∷ before) behind h = rw (rsplit_once-bar before behind h) refl

split_key-two_bars :
    (domain qtype qclass : Text)
    → contains qtype b'|' ≡ false
    → contains qclass b'|' ≡ false
    → split_key (domain ++ b'|' ∷ qtype ++ b'|' ∷ qclass) ≡ (domain, (qtype, qclass))
unfolding split_key
split_key-two_bars domain qtype qclass h g =
    rw (rsplit_once-bar (domain ++ b'|' ∷ qtype) qclass g, split_key)
      (rw (rsplit_once-bar domain qtype h) refl)

-- A cache key is split into the normalized name, the type and the class it was made of, also if the
-- name holds bars; so no two questions of different name, type or class share a key.
pub split_key-cache_key :
    (qname : Text) (qtype qclass : ℕ)
    → split_key (cache_key qname qtype qclass) ≡ (normalize_domain qname, (show qtype, show qclass))
unfolding cache_key
split_key-cache_key qname qtype qclass =
    split_key-two_bars (normalize_domain qname) (show qtype) (show qclass) (show-no_bar qtype)
      (show-no_bar qclass)
