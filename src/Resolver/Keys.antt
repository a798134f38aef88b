-- ===== src/Resolver/Keys.antt =====
-- src/mirenai/domain/resolver.py: the cache key, the lifetimes, and the private reverse names.
use mirenai.Resolver.Dns.{Rr, Message, qtype_soa}
use mirenai.Prelude.{
  Bool, List, Option, [], false, if◌then◌else◌, length, list_eq, max, min, nat_eq, none, not,
  pair_eq, some, take, ℕ, ◌*◌, ◌++◌, ◌+◌, ◌-◌, ◌==◌, ◌^◌, ◌∷◌,
}
use mirenai.Network.{any_network}
use mirenai.Policy.{normalize_domain}
use mirenai.Python.Int.Digits.{show}
use mirenai.Python.Ip.{Network, in_network, ipv4}
use mirenai.Python.Ip.V4.{parse_v4}
use mirenai.Python.Str.Affix.{ends_with}
use mirenai.Python.Str.Split.{join, split}
use mirenai.Python.Str.Strip.{rstrip}
use mirenai.Python.Text.{Text, codes}
use mirenai.State.{RuntimeSettings}

-- `_cache_key`
unfoldable pub cache_key : Text → ℕ → ℕ → Text
unfolding normalize_domain
cache_key qname qtype qclass = normalize_domain qname ++ b'|' ∷ show qtype ++ b'|' ∷ show qclass

-- `max(settings.cache_min_ttl, min(ttl, settings.cache_max_ttl))`
abbrev pub clamp : RuntimeSettings → ℕ → ℕ
clamp settings ttl = max settings.cache_min_ttl (min ttl settings.cache_max_ttl)

module _ {R : Type 0} where
  -- `next((record for record in reply.auth if record.rtype == QTYPE.SOA), None)`
  abbrev pub first_soa : List (Rr R) → Option (Rr R)
  first_soa [] = none
  first_soa (r ∷ rs) = let rest = first_soa rs in if r.rtype == qtype_soa then some r else rest

  -- `_negative_ttl`, with the field `times[4]` of the rdata
  unfoldable pub negative_ttl : (R → ℕ) → Message R → RuntimeSettings → Option ℕ
  negative_ttl soa_minimum reply settings = elim (first_soa reply.auth) [
    | none ↦ none
    | some soa ↦ some (clamp settings (min soa.ttl (soa_minimum soa.rdata)))
  ]

  -- `min(int(record.ttl) for record in reply.rr)` of the records `r ∷ rs`
  unfoldable pub least_ttl : Rr R → List (Rr R) → ℕ
  least_ttl r [] = r.ttl
  least_ttl r (s ∷ rs) = min r.ttl (least_ttl s rs)

  -- `_compute_ttl`, of an answer with the records `r ∷ rs`
  unfoldable pub compute_ttl : Rr R → List (Rr R) → RuntimeSettings → ℕ
  compute_ttl r rs settings = clamp settings (least_ttl r rs)

abbrev pub max_cname_depth : ℕ
max_cname_depth = 8

-- `10.0.0.0/8`, `172.16.0.0/12` and `192.168.0.0/16`
abbrev pub rfc1918_networks : List Network
rfc1918_networks =
    record { width = 32; network_address = 10 * 2 ^ 24; host_bits = 24 }
    ∷ record { width = 32; network_address = 172 * 2 ^ 24 + 16 * 2 ^ 16; host_bits = 20 }
    ∷ record { width = 32; network_address = 192 * 2 ^ 24 + 168 * 2 ^ 16; host_bits = 16 }
    ∷ []

abbrev pub inaddr_arpa_suffix : Text
inaddr_arpa_suffix = codes ".in-addr.arpa"

-- the labels in reverse order, joined by dots, if there are four
abbrev pub reversed_quad : List Text → Option Text
reversed_quad (a ∷ b ∷ c ∷ d ∷ []) = some (join (b'.' ∷ []) (d ∷ c ∷ b ∷ a ∷ []))
reversed_quad _ = none

-- `_is_rfc1918_ptr`
unfoldable pub is_rfc1918_ptr : Text → Bool
unfolding rstrip split join parse_v4 in_network
is_rfc1918_ptr qname =
    let name = rstrip b'.' qname in
    let labels = split b'.' (take (length name - length inaddr_arpa_suffix) name) in
    if not (ends_with name inaddr_arpa_suffix) then false else (elim (reversed_quad labels) [
      | none ↦ false
      | some quad ↦ elim (parse_v4 quad) [
        | none ↦ false
        | some n ↦ any_network (ipv4 n) rfc1918_networks
      ]
    ])
