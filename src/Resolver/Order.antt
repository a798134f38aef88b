-- ===== src/Resolver/Order.antt =====
-- src/mirenai/domain/resolver.py: the order in which the upstreams are asked.
use mathlib.Core.List.Perm
use mathlib.Core.List.{Perm, Permᴰ}
use mathlib.Core.Logic.{∥∥₁_elim}
use mirenai.Resolver.Forward.{
  insert_upstream, by_priority, Peers, join_group, groups, shuffled, balanced_order,
}
use mirenai.Prelude.{
  All, Bool-cases, List, [], ap, arith, inl, inr, leb, list_eq, nat_eq, pair_eq, refl, subst, sym,
  ℕ, ◌++◌, ◌==◌, ◌∙◌, ◌∷◌, ◌≡◌, ◌≤◌,
}
use mirenai.State.{UpstreamServer}

abbrev pub AtLeast : ℕ → List UpstreamServer → Type 0
AtLeast p us = All (λ (v : UpstreamServer). p ≤ v.priority) us

-- Lower numbers come first.
abbrev pub Ascending : List UpstreamServer → Type 0
Ascending [] = Unit
Ascending (u ∷ us) = AtLeast u.priority us × Ascending us

insert-AtLeast :
    (p : ℕ) (u : UpstreamServer) (us : List UpstreamServer)
    → p ≤ u.priority
    → AtLeast p us
    → AtLeast p (insert_upstream u us)
insert-AtLeast p u [] h g = (h, tt)
insert-AtLeast p u (v ∷ vs) h g = elim (Bool-cases (leb u.priority v.priority)) [
  | inl low ↦ rw low (h, g)
  | inr high ↦ rw high (g.0, insert-AtLeast p u vs h g.1)
]

AtLeast-trans : (p q : ℕ) (us : List UpstreamServer) → p ≤ q → AtLeast q us → AtLeast p us
AtLeast-trans p q [] h g = tt
AtLeast-trans p q (u ∷ us) h g = (omega (arith, g.0), AtLeast-trans p q us h g.1)

insert-Ascending :
    (u : UpstreamServer) (us : List UpstreamServer)
    → Ascending us
    → Ascending (insert_upstream u us)
insert-Ascending u [] h = (tt, tt)
insert-Ascending u (v ∷ vs) h = elim (Bool-cases (leb u.priority v.priority)) [
  | inl low ↦
      rw low ((ground arith, AtLeast-trans u.priority v.priority vs (ground arith) h.0), (h.0, h.1))
  | inr high ↦
      rw high (insert-AtLeast v.priority u vs (ground arith) h.0, insert-Ascending u vs h.1)
]

by_priority-Ascending : (us : List UpstreamServer) → Ascending (by_priority us)
unfolding by_priority
by_priority-Ascending [] = tt
by_priority-Ascending (u ∷ us) = insert-Ascending u (by_priority us) (by_priority-Ascending us)

insert-Perm : (u : UpstreamServer) (us : List UpstreamServer) → Perm (insert_upstream u us) (u ∷ us)
insert-Perm u [] = Perm.refl (u ∷ [])
insert-Perm u (v ∷ vs) = elim (Bool-cases (leb u.priority v.priority)) [
  | inl low ↦ rw low (Perm.refl (u ∷ v ∷ vs))
  | inr high ↦ rw high (Perm.trans (Perm.cons v (insert-Perm u vs)) (Perm.swap u v vs))
]

by_priority-Perm : (us : List UpstreamServer) → Perm (by_priority us) us
unfolding by_priority
by_priority-Perm [] = Perm.nil
by_priority-Perm (u ∷ us) =
    Perm.trans (insert-Perm u (by_priority us)) (Perm.cons u (by_priority-Perm us))

abbrev Alike : ℕ → List UpstreamServer → Type 0
Alike p us = All (λ (v : UpstreamServer). v.priority ≡ p) us

abbrev GroupsAtLeast : ℕ → Peers → Type 0
GroupsAtLeast p gs = All (λ (x : ℕ × List UpstreamServer). p ≤ x.0) gs

abbrev InGroups : Peers → Type 0
InGroups [] = Unit
InGroups ((p, g) ∷ gs) = Alike p g × GroupsAtLeast p gs × InGroups gs

join-GroupsAtLeast :
    (p : ℕ) (u : UpstreamServer) (gs : Peers)
    → p ≤ u.priority
    → GroupsAtLeast p gs
    → GroupsAtLeast p (join_group u gs)
join-GroupsAtLeast p u [] h k = (h, tt)
join-GroupsAtLeast p u ((q, g) ∷ gs) h k = elim (Bool-cases (u.priority == q)) [
  | inl same ↦ rw same k
  | inr other ↦ rw other (h, k)
]

groups-AtLeast : (p : ℕ) (us : List UpstreamServer) → AtLeast p us → GroupsAtLeast p (groups us)
unfolding groups
groups-AtLeast p [] h = tt
groups-AtLeast p (u ∷ us) h = join-GroupsAtLeast p u (groups us) h.0 (groups-AtLeast p us h.1)

join-InGroups :
    (u : UpstreamServer) (gs : Peers)
    → GroupsAtLeast u.priority gs
    → InGroups gs
    → InGroups (join_group u gs)
join-InGroups u [] h k = ((refl, tt), tt, tt)
join-InGroups u ((q, g) ∷ gs) h k = elim (Bool-cases (u.priority == q)) [
  | inl same ↦ rw same ((ground arith, k.0), k.1, k.2)
  | inr other ↦ rw other ((refl, tt), h, k)
]

groups-InGroups : (us : List UpstreamServer) → Ascending us → InGroups (groups us)
unfolding groups
groups-InGroups [] h = tt
groups-InGroups (u ∷ us) h =
    join-InGroups u (groups us) (groups-AtLeast u.priority us h.0) (groups-InGroups us h.1)

-- all members of the groups, in order
abbrev members : Peers → List UpstreamServer
members [] = []
members ((p, g) ∷ gs) = g ++ members gs

members-join : (u : UpstreamServer) (gs : Peers) → members (join_group u gs) ≡ u ∷ members gs
members-join u [] = refl
members-join u ((q, g) ∷ gs) = elim (Bool-cases (u.priority == q)) [
  | inl same ↦ rw same refl
  | inr other ↦ rw other refl
]

members-groups : (us : List UpstreamServer) → members (groups us) ≡ us
unfolding groups
members-groups [] = refl
members-groups (u ∷ us) = members-join u (groups us) ∙ ap (λ vs. u ∷ vs) (members-groups us)

Alike-prop : (p : ℕ) (us : List UpstreamServer) → IsProp (Alike p us)
Alike-prop p [] = hlevel
Alike-prop p (u ∷ us) = let rest = Alike-prop p us in hlevel

Alike-Permᴰ : (p : ℕ) {us vs : List UpstreamServer} → Permᴰ us vs → Alike p us → Alike p vs
Alike-Permᴰ p Permᴰ.nil h = tt
Alike-Permᴰ p (Permᴰ.cons e d) h =
    (subst (λ (v : UpstreamServer). v.priority ≡ p) e h.0, Alike-Permᴰ p d h.1)
Alike-Permᴰ p (Permᴰ.swap e f) h = (
  subst (λ (v : UpstreamServer). v.priority ≡ p) f h.1.0,
  (subst (λ (v : UpstreamServer). v.priority ≡ p) e h.0, h.1.1),
)
Alike-Permᴰ p (Permᴰ.trans d f) h = Alike-Permᴰ p f (Alike-Permᴰ p d h)

AtLeast-Alike : (p q : ℕ) (us : List UpstreamServer) → p ≤ q → Alike q us → AtLeast p us
AtLeast-Alike p q [] h k = tt
AtLeast-Alike p q (u ∷ us) h k = (omega (arith, k.0), AtLeast-Alike p q us h k.1)

AtLeast-append :
    (p : ℕ) (us vs : List UpstreamServer) → AtLeast p us → AtLeast p vs → AtLeast p (us ++ vs)
AtLeast-append p [] vs h k = k
AtLeast-append p (u ∷ us) vs h k = (h.0, AtLeast-append p us vs h.1 k)

Ascending-append :
    (p : ℕ) (us vs : List UpstreamServer)
    → Alike p us
    → AtLeast p vs
    → Ascending vs
    → Ascending (us ++ vs)
Ascending-append p [] vs h k a = a
Ascending-append p (u ∷ us) vs h k a = (
  AtLeast-append u.priority us vs (AtLeast-Alike u.priority p us (omega (arith, h.0)) h.1)
      (AtLeast-trans u.priority p vs (omega (arith, h.0)) k),
  Ascending-append p us vs h.1 k a,
)

module _ (shuffle : List UpstreamServer → List UpstreamServer)
    (is_shuffle : (g : List UpstreamServer) → Perm (shuffle g) g) where
  shuffled-Perm : (gs : Peers) → Perm (shuffled shuffle gs) (members gs)
  unfolding shuffled
  shuffled-Perm [] = Perm.nil
  shuffled-Perm ((p, g) ∷ gs) = Perm.append (is_shuffle g) (shuffled-Perm gs)

  Alike-shuffle : (p : ℕ) (g : List UpstreamServer) → Alike p g → Alike p (shuffle g)
  Alike-shuffle p g h =
      ∥∥₁_elim (Perm.symm (is_shuffle g)) (Alike-prop p (shuffle g)) (λ d. Alike-Permᴰ p d h)

  shuffled-AtLeast :
      (p : ℕ) (gs : Peers) → GroupsAtLeast p gs → InGroups gs → AtLeast p (shuffled shuffle gs)
  unfolding shuffled
  shuffled-AtLeast p [] h k = tt
  shuffled-AtLeast p ((q, g) ∷ gs) h k =
      AtLeast-append p (shuffle g) (shuffled shuffle gs)
        (AtLeast-Alike p q (shuffle g) h.0 (Alike-shuffle q g k.0)) (shuffled-AtLeast p gs h.1 k.2)

  shuffled-Ascending : (gs : Peers) → InGroups gs → Ascending (shuffled shuffle gs)
  unfolding shuffled
  shuffled-Ascending [] k = tt
  shuffled-Ascending ((q, g) ∷ gs) k =
      Ascending-append q (shuffle g) (shuffled shuffle gs) (Alike-shuffle q g k.0)
        (shuffled-AtLeast q gs k.1 k.2) (shuffled-Ascending gs k.2)

  -- The order in which upstreams are tried has every upstream as often as it is configured, and
  -- none of a higher number before one of a lower number; `random.shuffle` may be any function that
  -- permutes its list.
  pub balanced_order-Ascending :
      (upstreams : List UpstreamServer)
      → Perm (balanced_order shuffle upstreams) upstreams
        × Ascending (balanced_order shuffle upstreams)
  unfolding balanced_order
  balanced_order-Ascending upstreams = (
    Perm.trans (shuffled-Perm (groups (by_priority upstreams))) (
        subst (λ vs. Perm vs upstreams) (sym (members-groups (by_priority upstreams)))
          (by_priority-Perm upstreams)),
    shuffled-Ascending (groups (by_priority upstreams))
        (groups-InGroups (by_priority upstreams) (by_priority-Ascending upstreams)),
  )
