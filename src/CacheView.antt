-- ===== src/CacheView.antt =====
-- src/mirenai/domain/cacheview.py: the rows that show the answer cache.
use mirenai.Resolver.Dns.{Rr, Message, Dnslib}
use mirenai.Resolver.Keys.{cache_key}
use mirenai.Resolver.Handle.{answer_summary, name_or_number}
use mirenai.Cache
use mirenai.Cache.{TtlCache, Live, second}
use mirenai.Python.Dict
use mathlib.Core.List.{append_assoc}
pub mod Rows
use mirenai.Prelude.{
  List, Option, [], if◌then◌else◌, length, list_eq, map, nat_eq, none, not, pair_eq, some, ℕ, ◌&&◌,
  ◌*◌, ◌+◌, ◌==◌, ◌∷◌,
}
use mirenai.Python.Int.{parse_int}
use mirenai.Python.Text.{Text}

-- `expires_at` is a datetime, in microseconds.
pub record CacheEntrySnapshot : Type 0 where
  pub domain : Text
  pub qtype : Text
  pub qclass : Text
  pub response : Text
  pub answers : ℕ
  pub ttl : ℕ
  pub expires_at : ℕ

abbrev pub microseconds : ℕ
microseconds = 1_000_000

-- the text behind the last `|`, and the text before it, if there is one
unfoldable pub rsplit_once : Text → Option (Text × Text)
rsplit_once [] = none
rsplit_once (c ∷ s) = elim (rsplit_once s) [
  | some (before, behind) ↦ some (c ∷ before, behind)
  | none ↦ if c == b'|' then some ([], s) else none
]

-- `_split_key`: three parts of `rsplit("|", 2)`, or the key and two empty texts
unfoldable pub split_key : Text → Text × (Text × Text)
unfolding rsplit_once
split_key key = elim (rsplit_once key) [
  | none ↦ (key, ([], []))
  | some (rest, qclass) ↦ elim (rsplit_once rest) [
    | none ↦ (key, ([], []))
    | some (domain, qtype) ↦ (domain, (qtype, qclass))
  ]
]

-- `str(TABLE[int(value)])`, or the text itself after an exception. A negative number is in no table.
unfoldable pub number_name : (ℕ → Option Text) → Text → Text
unfolding parse_int
number_name table value = elim (parse_int value) [
  | none ↦ value
  | some (minus, n) ↦
      if minus && not (n == 0) then value else (elim (table n) [ none ↦ value | some name ↦ name ])
]

module _ {R B : Type 0} (dns : Dnslib R B) (qclass_of : ℕ → Option Text) where
  -- the answers of a packed reply, and how many they are; nothing if it does not parse
  unfoldable pub decoded : B → Text × ℕ
  unfolding answer_summary
  decoded value = elim (dns.parse value) [
    | none ↦ ([], 0)
    | some reply ↦ (answer_summary dns reply, length reply.rr)
  ]

  unfoldable pub snapshot_row : ℕ → Text × Live B → CacheEntrySnapshot
  snapshot_row now (key, (value, remaining, ttl)) =
      let (domain, (qtype, qclass)) = split_key key in
      let (response, answers) = decoded value in
      record {
        domain = domain;
        qtype = number_name dns.qtype_of qtype;
        qclass = number_name qclass_of qclass;
        response = response;
        answers = answers;
        ttl = ttl;
        expires_at = now + remaining * microseconds;
      }

  -- `build_cache_snapshot`, with the readings of the two clocks
  unfoldable pub build_cache_snapshot : ℕ → ℕ → TtlCache B → List CacheEntrySnapshot
  build_cache_snapshot now clock cache = map (snapshot_row now) (Cache.snapshot clock cache)
