-- ===== src/Tests/Queries.antt =====
-- src/mirenai/domain/resolver.py at concrete inputs.
use mirenai.Tests.World.{
  M, toy_dns, toy_dns-IsDnslib, ask, www_reply, one_answers, none_answers, two_upstreams,
  empty_forwarder, idle, home_state, client,
}
use mirenai.Resolver.Keys.{cache_key}
use mirenai.Resolver.Answers.{address_chain}
use mirenai.Resolver.Forward.{
  forward, forward_or_cache, cache_or_record_skip, balanced_order, store,
}
use mirenai.Resolver.Handle.{handle, is_private_ptr, overriding, blocks, qtype_name}
use mirenai.Resolver.Order.{Ascending, balanced_order-Ascending}
use mirenai.Resolver.Failover.{Ends, forward-first}
use mirenai.Resolver.Caching.{Verdict, cache_or_record_skip-Verdict}
use mirenai.Resolver.Hits.{aged, forward_or_cache-stored}
use mirenai.Resolver.Precedence.{name_of, rule_of, denied, IsEmptyReply, handle-denied}
use mirenai.Resolver.Own.{is_own, handle-own, handle-local}
use mirenai.Resolver.Chain.{IsChain, aliases, address_chain-IsChain}
use mirenai.Resolver.Dns.{rcode_nxdomain}
use mirenai.LocalZones.{local_records, owns, index_records, index_record}
use mirenai.State.{default_settings}
use mirenai.Policy.{select_policy, select_from, normalize_domain}
use mirenai.Blocklist.{is_blocked, domain_suffixes}
use mirenai.Buffers.Queries.{QueryKey}
use mirenai.Cache.{second}
use mirenai.Cache.Order.{IsValid}
use mathlib.Core.List.{Perm}
use mathlib.Core.List.Perm
use mirenai.Resolver.Local.{IsLocalAnswer}
use mirenai.Tests.World.{home_records}
use mirenai.Prelude.{
  arith, false, inl, list_eq, nat_eq, none, pair_eq, refl, some, true, ◌*◌, ◌+◌, ◌-◌, ◌/◌, ◌≡◌, ◌≤◌,
}
use mirenai.Python.Str.Split.{join, split}
use mirenai.Python.Text.{codes}

balanced_order-Ascending_example :
    Perm (balanced_order one_answers.shuffle two_upstreams) two_upstreams
    × Ascending (balanced_order one_answers.shuffle two_upstreams)
balanced_order-Ascending_example =
    balanced_order-Ascending one_answers.shuffle (λ g. Perm.refl g) two_upstreams

forward-first_example :
    Ends toy_dns one_answers default_settings
      (ask (codes "www.org") 1)
      0
      (balanced_order one_answers.shuffle two_upstreams)
      empty_forwarder.rtt
      (forward toy_dns one_answers two_upstreams default_settings
        (ask (codes "www.org") 1)
        empty_forwarder.rtt)
forward-first_example =
    forward-first toy_dns one_answers default_settings (ask (codes "www.org") 1) two_upstreams
      empty_forwarder.rtt

cache_or_record_skip-Verdict_example :
    Verdict toy_dns one_answers
      (codes "k")
      www_reply
      (codes "www.org")
      (codes "A")
      client
      default_settings
      empty_forwarder
      (cache_or_record_skip toy_dns one_answers
        (codes "k")
        www_reply
        (codes "www.org")
        (codes "A")
        default_settings
        client
        empty_forwarder)
cache_or_record_skip-Verdict_example =
    cache_or_record_skip-Verdict toy_dns one_answers (codes "k") www_reply (codes "www.org")
      (codes "A") client default_settings empty_forwarder

empty_cache-IsValid : IsValid empty_forwarder.cache
empty_cache-IsValid = record { positive = omega arith; bounded = omega arith; distinct = tt }

forward_or_cache-stored_example :
    (forward_or_cache toy_dns none_answers
      (codes "A")
      two_upstreams
      default_settings
      client
      (ask (codes "WWW.org.") 1)
      (store toy_dns one_answers
        (cache_key (codes "WWW.org.") 1 1)
        www_reply
        120
        empty_forwarder)).1
    ≡ some (
      aged toy_dns none_answers www_reply
          (ask (codes "WWW.org.") 1)
          ((10 * second + 120 * second - 20 * second) / second),
      codes "forward-cache",
    )
forward_or_cache-stored_example =
    forward_or_cache-stored toy_dns none_answers toy_dns-IsDnslib one_answers (codes "A")
      two_upstreams default_settings client (ask (codes "WWW.org.") 1) www_reply 120 empty_forwarder
      empty_cache-IsValid refl (omega arith)

ads_denied : denied home_state (ask (codes "x.ads.com.") 1) client ≡ true
unfolding select_policy select_from blocks is_blocked domain_suffixes normalize_domain split join
ads_denied = refl

ads_public : is_private_ptr home_state (ask (codes "x.ads.com.") 1).question ≡ false
unfolding is_private_ptr
ads_public = refl

ads_plain : overriding (rule_of home_state (ask (codes "x.ads.com.") 1) client) ≡ none
unfolding select_policy select_from
ads_plain = refl

handle-denied_example :
    (reply : M) × ((handle toy_dns one_answers home_state
        (ask (codes "x.ads.com.") 1)
        client
        idle).1
      ≡ some reply)
    × IsEmptyReply (ask (codes "x.ads.com.") 1) rcode_nxdomain reply
    × ((handle toy_dns one_answers home_state (ask (codes "x.ads.com.") 1) client idle).0.forwarder
        ≡ idle.forwarder)
handle-denied_example =
    handle-denied toy_dns one_answers home_state (ask (codes "x.ads.com.") 1) client
      toy_dns-IsDnslib idle ads_public refl ads_plain ads_denied

alias_own : is_own home_state (ask (codes "a.lan") 1) client ≡ true
unfolding select_policy select_from blocks is_blocked domain_suffixes normalize_domain split join
    owns local_records index_records index_record
alias_own = refl

alias_public : is_private_ptr home_state (ask (codes "a.lan") 1).question ≡ false
unfolding is_private_ptr
alias_public = refl

handle-own_example :
    ((handle toy_dns one_answers home_state (ask (codes "a.lan") 1) client idle).1
      ≡ (handle toy_dns none_answers home_state (ask (codes "a.lan") 1) client idle).1)
    × ((handle toy_dns one_answers home_state (ask (codes "a.lan") 1) client idle).0.forwarder
        ≡ idle.forwarder)
handle-own_example =
    handle-own toy_dns home_state (ask (codes "a.lan") 1) client one_answers none_answers idle idle
      alias_public alias_own

alias_plain : overriding (rule_of home_state (ask (codes "a.lan") 1) client) ≡ none
unfolding select_policy select_from
alias_plain = refl

alias_allowed : denied home_state (ask (codes "a.lan") 1) client ≡ false
unfolding select_policy select_from blocks is_blocked domain_suffixes normalize_domain split join
alias_allowed = refl

alias_owned : owns home_state.local_records (name_of (ask (codes "a.lan") 1)) ≡ true
unfolding normalize_domain owns local_records index_records index_record
alias_owned = refl

handle-local_example :
    (reply : M) × ((handle toy_dns one_answers home_state (ask (codes "a.lan") 1) client idle).1
      ≡ some reply)
    × (reply.id ≡ 77)
    × IsLocalAnswer toy_dns home_records
        (ask (codes "a.lan") 1).question
        (name_of (ask (codes "a.lan") 1))
        reply.rr
handle-local_example =
    handle-local toy_dns home_state (ask (codes "a.lan") 1) client one_answers idle home_records
      refl alias_public refl alias_plain alias_allowed alias_owned toy_dns-IsDnslib

abbrev alias_key : QueryKey
alias_key = (client, (name_of (ask (codes "a.lan") 1), qtype_name toy_dns 1))

address_chain-IsChain_example :
    IsChain toy_dns 1 home_state.local_records 8
      (codes "A.lan.")
      (codes "a.lan")
      (address_chain toy_dns 8 (codes "A.lan.") (codes "a.lan") 1 home_state.local_records)
    × (aliases toy_dns 1 home_state.local_records
          (address_chain toy_dns 8 (codes "A.lan.") (codes "a.lan") 1 home_state.local_records)
        ≤ 8)
address_chain-IsChain_example =
    address_chain-IsChain toy_dns 1 home_state.local_records (codes "A.lan.") (codes "a.lan")
      (inl refl)
