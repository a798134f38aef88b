-- ===== src/Python/Ip.antt =====
-- Python's `ipaddress`: addresses, their texts and networks, as far as the program uses them.
pub mod V4
pub mod V6
use mirenai.Prelude.{
  Bool, List, Option, [], if◌then◌else◌, leb, list_eq, nat_eq, none, pair_eq, some, suc, zero, ℕ,
  ◌&&◌, ◌*◌, ◌++◌, ◌-◌, ◌/◌, ◌==◌, ◌^◌, ◌∷◌,
}
use mirenai.Python.Ip.V4.{digits_value, parse_v4, parse_v4_int, reverse_v4, show_v4}
use mirenai.Python.Ip.V6.{parse_v6, reverse_v6, show_v6}
use mirenai.Python.Str.Split.{split}
use mirenai.Python.Text.{Text}

-- an IPv4 address, or an IPv6 address with its scope id
pub data Addr : Type 0 where
  ipv4 : ℕ → Addr
  ipv6 : ℕ → Option Text → Addr

-- `ip_address(s)`, where `none` is a `ValueError`
unfoldable pub ip_address : Text → Option Addr
unfolding parse_v4 parse_v6
ip_address s = elim (parse_v4 s) [
  | some n ↦ some (ipv4 n)
  | none ↦ elim (parse_v6 s) [ none ↦ none | some (n, scope) ↦ some (ipv6 n scope) ]
]

-- `str(addr)`
unfoldable pub addr_text : Addr → Text
unfolding show_v4 show_v6
addr_text (ipv4 n) = show_v4 n
addr_text (ipv6 n none) = show_v6 n
addr_text (ipv6 n (some scope)) = show_v6 n ++ b'%' ∷ scope

-- `addr.reverse_pointer`; it raises for an address with a scope id, whose text it parses again.
unfoldable pub reverse_pointer : Addr → Option Text
unfolding reverse_v4 reverse_v6
reverse_pointer (ipv4 n) = some (reverse_v4 n)
reverse_pointer (ipv6 n none) = some (reverse_v6 n)
reverse_pointer (ipv6 n (some scope)) = none

-- a network: its width in bits, its address, and the host bits that its mask clears
pub record Network : Type 0 where
  pub width : ℕ
  pub network_address : ℕ
  pub host_bits : ℕ

-- `n & netmask` for a mask that clears the lowest `host` bits
abbrev pub mask : ℕ → ℕ → ℕ
mask host n = n / 2 ^ host * 2 ^ host

-- the prefix length of `_prefix_from_ip_int`: `k` ones followed by zeros
prefix_of_mask : ℕ → ℕ → Option ℕ
prefix_of_mask zero m = if m == 0 then some 0 else none
prefix_of_mask (suc k) m =
    let rest = prefix_of_mask k m in if m == 2 ^ 32 - 2 ^ (31 - k) then some (suc k) else rest

-- the mask behind the `/`: digits, or for IPv4 a dotted netmask or hostmask
v4_prefix : Text → Option ℕ
unfolding prefix_of_mask parse_v4_int
v4_prefix s = elim (digits_value s) [
  | some n ↦ if leb n 32 then some n else none
  | none ↦ elim (parse_v4_int s) [
    | none ↦ none
    | some m ↦ elim (prefix_of_mask 32 m) [
      | some k ↦ some k
      | none ↦ prefix_of_mask 32 (2 ^ 32 - 1 - m)
    ]
  ]
]

v6_prefix : Text → Option ℕ
v6_prefix s = elim (digits_value s) [ none ↦ none | some n ↦ if leb n 128 then some n else none ]

network_at : ℕ → ℕ → ℕ → Network
network_at width n prefix = record {
  width = width;
  network_address = mask (width - prefix) n;
  host_bits = width - prefix;
}

v4_network : List Text → Option Network
unfolding network_at v4_prefix parse_v4
v4_network (a ∷ []) = elim (parse_v4 a) [ none ↦ none | some n ↦ some (network_at 32 n 32) ]
v4_network (a ∷ m ∷ []) = elim (parse_v4 a) [
  | none ↦ none
  | some n ↦ elim (v4_prefix m) [ none ↦ none | some k ↦ some (network_at 32 n k) ]
]
v4_network _ = none

v6_network : List Text → Option Network
unfolding network_at v6_prefix parse_v6
v6_network (a ∷ []) = elim (parse_v6 a) [ none ↦ none | some (n, _) ↦ some (network_at 128 n 128) ]
v6_network (a ∷ m ∷ []) = elim (parse_v6 a) [
  | none ↦ none
  | some (n, _) ↦ elim (v6_prefix m) [ none ↦ none | some k ↦ some (network_at 128 n k) ]
]
v6_network _ = none

-- `ip_network(s, strict=False)`, where `none` is a `ValueError`
unfoldable pub ip_network : Text → Option Network
unfolding v4_network v6_network split
ip_network s = elim (v4_network (split b'/' s)) [
  | some n ↦ some n
  | none ↦ v6_network (split b'/' s)
]

-- `addr in net`
unfoldable pub in_network : Addr → Network → Bool
in_network (ipv4 n) net = net.width == 32 && mask net.host_bits n == net.network_address
in_network (ipv6 n scope) net = net.width == 128 && mask net.host_bits n == net.network_address
