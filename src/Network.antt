-- ===== src/Network.antt =====
-- src/mirenai/domain/network.py: the source networks that are answered.
use mirenai.Prelude.{
  All, Bool, Bool-cases, List, Option-cases, [], arith, contains, false, inl, inr, list_beq_iff,
  list_eq, nat_eq, ap, none, pair_eq, refl, some, sym, true, ◌==◌, ◌||◌, ◌↔◌, ◌∙◌, ◌∷◌, ◌≡◌,
}
use mirenai.Python.Ip.{Addr, Network, in_network, ip_address, ip_network}
use mirenai.Python.Text.{Text}

pub record NetworkFilter : Type 0 where
  pub networks : List Network

abbrev pub parsed_networks : List Text → List Network
parsed_networks [] = []
parsed_networks (cidr ∷ cidrs) =
    let rest = parsed_networks cidrs in
    elim (ip_network cidr) [ some net ↦ net ∷ rest | none ↦ rest ]

unfoldable pub from_cidrs : List Text → NetworkFilter
from_cidrs cidrs = record { networks = parsed_networks cidrs }

abbrev pub any_network : Addr → List Network → Bool
any_network addr [] = false
any_network addr (net ∷ nets) = in_network addr net || any_network addr nets

unfoldable pub is_trusted : NetworkFilter → Text → Bool
is_trusted filter client_ip = elim filter.networks [
  | [] ↦ true
  | net ∷ nets ↦ elim (ip_address client_ip) [
    | none ↦ false
    | some addr ↦ any_network addr (net ∷ nets)
  ]
]

-- An address is let through by a list of subnets because of one that parses and contains it.
pub Admits : List Text → Addr → Type 0
Admits cidrs addr =
    (cidr : Text) × (net : Network) × (contains cidrs cidr ≡ true)
    × (ip_network cidr ≡ some net)
    × (in_network addr net ≡ true)

parsed_networks-miss :
    (cidr : Text) (cidrs : List Text)
    → ip_network cidr ≡ none
    → parsed_networks (cidr ∷ cidrs) ≡ parsed_networks cidrs
parsed_networks-miss cidr cidrs h = rw (h, parsed_networks) refl

parsed_networks-hit :
    (cidr : Text) (cidrs : List Text) (net : Network)
    → ip_network cidr ≡ some net
    → parsed_networks (cidr ∷ cidrs) ≡ net ∷ parsed_networks cidrs
parsed_networks-hit cidr cidrs net h = rw (h, parsed_networks) refl

weaken :
    (cidr : Text) (cidrs : List Text) (addr : Addr) → Admits cidrs addr → Admits (cidr ∷ cidrs) addr
unfolding Admits
weaken cidr cidrs addr (c, net, inside, parsed, within) = (c, net, (ground arith), parsed, within)

-- a subnet that parses leaves the filter with a network
parsed_networks-some :
    (cidrs : List Text) (cidr : Text) (net : Network)
    → contains cidrs cidr ≡ true
    → ip_network cidr ≡ some net
    → ¬ (parsed_networks cidrs ≡ [])
parsed_networks-some [] cidr net inside ok = absurd cc
parsed_networks-some (c ∷ cidrs) cidr net inside ok = elim (Option-cases (ip_network c)) [
  | inr (n, hit) ↦ rw (parsed_networks-hit c cidrs n hit) (λ h. cc)
  | inl bad ↦ elim (Bool-cases (c == cidr)) [
    | inl same ↦
        let e = (list_beq_iff c cidr).0 same in
        absurd (ground (arith, sym (ap ip_network e) ∙ bad, ok))
    | inr other ↦
        rw (parsed_networks-miss c cidrs bad)
          (parsed_networks-some cidrs cidr net (ground arith) ok)
  ]
]

parsed_networks-none :
    (cidrs : List Text) → All (λ c. ip_network c ≡ none) cidrs → parsed_networks cidrs ≡ []
parsed_networks-none [] h = refl
parsed_networks-none (c ∷ cidrs) h =
    parsed_networks-miss c cidrs h.0 ∙ parsed_networks-none cidrs h.1

any_network-Admits :
    (cidrs : List Text) (addr : Addr)
    → any_network addr (parsed_networks cidrs) ≡ true
    → Admits cidrs addr
unfolding Admits
any_network-Admits [] addr h = absurd (cc)
any_network-Admits (cidr ∷ cidrs) addr h = elim (Option-cases (ip_network cidr)) [
  | inl bad ↦
      let rest =
        any_network-Admits cidrs addr (ground (arith, parsed_networks-miss cidr cidrs bad)) in
      weaken cidr cidrs addr rest
  | inr (net, ok) ↦ elim (Bool-cases (in_network addr net)) [
    | inl within ↦ (cidr, net, (ground (arith, list_beq_iff cidr cidr)), ok, within)
    | inr other ↦
        let rest =
          any_network-Admits cidrs addr (ground (arith, parsed_networks-hit cidr cidrs net ok)) in
        weaken cidr cidrs addr rest
  ]
]

any_network-member :
    (cidrs : List Text) (addr : Addr) (cidr : Text) (net : Network)
    → contains cidrs cidr ≡ true
    → ip_network cidr ≡ some net
    → in_network addr net ≡ true
    → any_network addr (parsed_networks cidrs) ≡ true
any_network-member [] addr cidr net inside parsed within = absurd (cc)
any_network-member (c ∷ cidrs) addr cidr net inside parsed within = elim (Bool-cases (c == cidr)) [
  | inl same ↦
      let e = (list_beq_iff c cidr).0 same in
      ground (arith, parsed_networks-hit cidr cidrs net parsed)
  | inr other ↦
      let rest = any_network-member cidrs addr cidr net (ground arith) parsed within in
      elim (Option-cases (ip_network c)) [
        | inl bad ↦ ground (arith, parsed_networks-miss c cidrs bad)
        | inr (n, ok) ↦ ground (arith, parsed_networks-hit c cidrs n ok)
      ]
]

admitted :
    (cidrs : List Text) (addr : Addr)
    → Admits cidrs addr
    → any_network addr (parsed_networks cidrs) ≡ true
unfolding Admits
admitted cidrs addr (cidr, net, inside, parsed, within) =
    any_network-member cidrs addr cidr net inside parsed within

module _ (client_ip : Text) where
  trusted_bad :
      (nets : List Network)
      → ¬ (nets ≡ [])
      → ip_address client_ip ≡ none
      → is_trusted (record { networks = nets }) client_ip ≡ false
  unfolding is_trusted
  trusted_bad [] some_net bad = absurd (some_net refl)
  trusted_bad (net ∷ nets) some_net bad = rw (bad, is_trusted) refl

  trusted_any :
      (nets : List Network) (addr : Addr)
      → ¬ (nets ≡ [])
      → ip_address client_ip ≡ some addr
      → is_trusted (record { networks = nets }) client_ip ≡ any_network addr nets
  unfolding is_trusted
  trusted_any [] addr some_net ok = absurd (some_net refl)
  trusted_any (net ∷ nets) addr some_net ok = rw (ok, is_trusted) refl

-- If no subnet of the list parses, every client is answered; if one parses, exactly the clients
-- whose address parses and lies in a subnet of the list that parses.
pub is_trusted-from_cidrs :
    (cidrs : List Text) (client_ip : Text)
    → (All (λ c. ip_network c ≡ none) cidrs → is_trusted (from_cidrs cidrs) client_ip ≡ true)
      × ((cidr : Text) (net : Network)
          → contains cidrs cidr ≡ true
          → ip_network cidr ≡ some net
          → (ip_address client_ip ≡ none → is_trusted (from_cidrs cidrs) client_ip ≡ false)
            × ((addr : Addr)
                → ip_address client_ip ≡ some addr
                → (is_trusted (from_cidrs cidrs) client_ip ≡ true) ↔ Admits cidrs addr))
unfolding from_cidrs
is_trusted-from_cidrs cidrs client_ip = (
  (λ empty. unfold is_trusted in rw (parsed_networks-none cidrs empty) refl),
  (λ cidr net inside parsed.
      let some_net = parsed_networks-some cidrs cidr net inside parsed in
      (
        (λ bad. trusted_bad client_ip (parsed_networks cidrs) some_net bad),
        (λ addr ok. (
          (λ t.
              any_network-Admits cidrs addr
                (sym (trusted_any client_ip (parsed_networks cidrs) addr some_net ok) ∙ t)),
          (λ a.
              trusted_any client_ip (parsed_networks cidrs) addr some_net ok
              ∙ admitted cidrs addr a),
        )),
      )),
)
