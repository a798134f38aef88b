-- ===== src/Downloader/Fetch.antt =====
-- `download_text` of both downloaders. The parser of URLs, the opener and the decoder are arguments.
use mirenai.Prelude.{
  Bool-cases, List, Option, Option-cases, none, some, [], ap, arith, if◌then◌else◌, inl, inr,
  length, list_eq, ltb, nat_eq, pair_eq, refl, suc, sym, take, true, zero, ℕ, ◌++◌, ◌+◌, ◌<◌, ◌==◌,
  ◌||◌, ◌∷◌, ◌≡◌, ◌≤◌,
}
use mirenai.Blocklist.{is_nil}
use mirenai.Python.Text.{Text, codes}

-- what `urlopen` and the reading give: the description of one of the four exceptions that are
-- caught, another exception, such as `InvalidURL` or `BadStatusLine`, or the bytes of the body
pub data Response : Type 0 where
  refused : Text → Response
  unexpected : Response
  body : List ℕ → Response

-- a download error with its message, another exception, or the text
pub data Fetched : Type 0 where
  failed : Text → Fetched
  uncaught : Fetched
  fetched : Text → Fetched

-- 64 MiB
abbrev pub max_bytes : ℕ
max_bytes = 67_108_864

abbrev pub or_none : Text → Text
or_none scheme = if is_nil scheme then codes "none" else scheme

take-all : (m : ℕ) (xs : List ℕ) → length (take m xs) < m → take m xs ≡ xs
take-all zero xs h = absurd (omega arith)
take-all (suc m) [] h = refl
take-all (suc m) (x ∷ xs) h = ap (◌∷◌ x) (take-all m xs (omega arith))

Fetched-apart : (a b : Text) → ¬ (failed a ≡ fetched b)
Fetched-apart a b h = cc

uncaught-apart : (b : Text) → ¬ (uncaught ≡ fetched b)
uncaught-apart b h = cc

fetched_inj : {a b : Text} → fetched a ≡ fetched b → a ≡ b
fetched_inj h = ground arith

module _ (scheme_of : Text → Option Text) (urlopen : Text → Response) (decode : List ℕ → Text) where
  -- `resp.read(limit + 1)` reads no further than one byte over the limit.
  abbrev pub read_body : ℕ → Text → Response → Fetched
  read_body limit too_long (refused why) = failed why
  read_body limit too_long unexpected = uncaught
  read_body limit too_long (body raw) =
      if ltb limit (length (take (limit + 1) raw))
      then failed too_long
      else fetched (decode (take (limit + 1) raw))

  -- the scheme of the URL; `none` is the `ValueError` of `urlparse`
  abbrev pub fetch : ℕ → Text → Text → Option Text → Fetched
  fetch limit too_long url none = uncaught
  fetch limit too_long url (some scheme) =
      if scheme == codes "http" || scheme == codes "https"
      then read_body limit too_long (urlopen url)
      else failed (codes "unsupported URL scheme: " ++ or_none scheme)

  unfoldable pub download_text : ℕ → Text → Text → Fetched
  download_text limit too_long url = fetch limit too_long url (scheme_of url)

  read_body-whole :
      (limit : ℕ) (too_long text : Text) (r : Response)
      → read_body limit too_long r ≡ fetched text
      → (raw : List ℕ) × (r ≡ body raw) × (length raw ≤ limit) × (text ≡ decode raw)
  read_body-whole limit too_long text (refused why) h = cc
  read_body-whole limit too_long text unexpected h = cc
  read_body-whole limit too_long text (body raw) h =
      elim (Bool-cases (ltb limit (length (take (limit + 1) raw)))) [
        | inl over ↦ absurd (Fetched-apart too_long text (rw over at h))
        | inr fits ↦
            let all : take (limit + 1) raw ≡ raw = take-all (limit + 1) raw (ground arith) in
            (raw, refl, ground (arith, ap length all), sym (fetched_inj (rw (fits, all) at h)))
      ]

  -- A text that is fetched is the whole body of a response within the limit, over HTTP or HTTPS.
  pub download_text-whole :
      (limit : ℕ) (too_long url text : Text)
      → download_text limit too_long url ≡ fetched text
      → (raw : List ℕ) × (urlopen url ≡ body raw)
        × (length raw ≤ limit)
        × (text ≡ decode raw)
        × ((scheme : Text) × (scheme_of url ≡ some scheme)
            × ((scheme == codes "http" || scheme == codes "https") ≡ true))
  unfolding download_text
  download_text-whole limit too_long url text h = elim (Option-cases (scheme_of url)) [
    | inl bad ↦ absurd (uncaught-apart text (rw bad at h))
    | inr (scheme, e) ↦ elim (Bool-cases (scheme == codes "http" || scheme == codes "https")) [
      | inl web ↦
          let r = read_body-whole limit too_long text (urlopen url) (rw (e, web) at h) in
          (r.0, r.1, r.2, r.3, (scheme, e, web))
      | inr other ↦ absurd (
          Fetched-apart (codes "unsupported URL scheme: " ++ or_none scheme) text
            (rw (e, other) at h))
    ]
  ]
