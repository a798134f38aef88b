-- ===== src/Policy/Select.antt =====
-- The chosen rule is the most specific one, and the first such rule.
use mirenai.Policy.{
  PolicyRule, Best, key_lt, rule_key, consider, select_from, select_policy, normalize_domain,
}
use mirenai.Prelude.{
  All, Bool-cases, List, Option-cases, [], ap, arith, false, inl, inr, list_eq, nat_eq, none,
  pair_eq, refl, some, subst, sym, true, ℕ, ◌++◌, ◌↔◌, ◌∷◌, ◌≡◌, ◌≢◌, ◌⊎◌,
}
use mirenai.Python.Text.{Text}

module _ (client_ip name : Text) where
  -- the rule applies with a smaller key than `key`, if it applies at all
  abbrev pub Below : ℕ × ℕ → PolicyRule → Type 0
  Below key r = (k : ℕ × ℕ) → rule_key client_ip name r ≡ some k → key_lt k key ≡ true

  abbrev pub AtMost : ℕ × ℕ → PolicyRule → Type 0
  AtMost key r = (k : ℕ × ℕ) → rule_key client_ip name r ≡ some k → key_lt key k ≡ false

  -- `rule` stands in `rules`, above every rule before it and not below any behind it.
  pub record IsFirstBest (rules : List PolicyRule) (rule : PolicyRule) (key : ℕ × ℕ) : Type 0 where
    pub before : List PolicyRule
    pub behind : List PolicyRule
    pub place : rules ≡ before ++ rule ∷ behind
    pub applies : rule_key client_ip name rule ≡ some key
    pub above : All (Below key) before
    pub not_below : All (AtMost key) behind

  key_lt_trans : (a b c : ℕ × ℕ) → key_lt a b ≡ true → key_lt b c ≡ true → key_lt a c ≡ true
  key_lt_trans a b c h k = ground arith

  key_lt_of_le : (a b c : ℕ × ℕ) → key_lt b a ≡ false → key_lt b c ≡ true → key_lt a c ≡ true
  key_lt_of_le a b c h k = ground arith

  -- What the loop returns from a best rule `old`: `old` itself, or a better rule of the list.
  abbrev Outcome : List PolicyRule → PolicyRule × (ℕ × ℕ) → PolicyRule → ℕ × ℕ → Type 0
  Outcome rules old rule key =
      (((rule, key) ≡ old) × All (AtMost old.1) rules)
      ⊎ (IsFirstBest rules rule key × (key_lt old.1 key ≡ true))

  cons-Outcome :
      (r : PolicyRule) (rules : List PolicyRule) (old : PolicyRule × (ℕ × ℕ)) (rule : PolicyRule)
      (key : ℕ × ℕ)
      → AtMost old.1 r
      → (key_lt old.1 key ≡ true → Below key r)
      → Outcome rules old rule key
      → Outcome (r ∷ rules) old rule key
  cons-Outcome r rules old rule key most below (inl (e, all)) = inl (e, (most, all))
  cons-Outcome r rules old rule key most below (inr (b, better)) = inr (
    record {
      before = r ∷ b.before;
      behind = b.behind;
      place = ap (◌∷◌ r) b.place;
      applies = b.applies;
      above = (below better, b.above);
      not_below = b.not_below;
    },
    better,
  )

  -- A better rule at the head takes the place of `old`.
  replace :
      (r : PolicyRule) (rules : List PolicyRule) (old : PolicyRule × (ℕ × ℕ)) (k : ℕ × ℕ)
      (rule : PolicyRule) (key : ℕ × ℕ)
      → rule_key client_ip name r ≡ some k
      → key_lt old.1 k ≡ true
      → Outcome rules (r, k) rule key
      → Outcome (r ∷ rules) old rule key
  replace r rules old k rule key e better (inl (same, all)) =
      subst (λ x. Outcome (r ∷ rules) old x.0 x.1) (sym same)
        (inr (
          record {
            before = [];
            behind = rules;
            place = refl;
            applies = e;
            above = tt;
            not_below = all;
          },
          better,
        ))
  replace r rules old k rule key e better (inr (b, up)) = inr (
    record {
      before = r ∷ b.before;
      behind = b.behind;
      place = ap (◌∷◌ r) b.place;
      applies = b.applies;
      above = ((λ j f. ground arith), b.above);
      not_below = b.not_below;
    },
    key_lt_trans old.1 k key better up,
  )

  consider-skip :
      (best : Best) (r : PolicyRule)
      → rule_key client_ip name r ≡ none
      → consider client_ip name best r ≡ best
  unfolding consider
  consider-skip best r h = rw (h, consider)

  consider_first :
      (r : PolicyRule) (k : ℕ × ℕ)
      → rule_key client_ip name r ≡ some k
      → consider client_ip name none r ≡ some (r, k)
  unfolding consider
  consider_first r k h = rw (h, consider)

  consider_better :
      (old : PolicyRule × (ℕ × ℕ)) (r : PolicyRule) (k : ℕ × ℕ)
      → rule_key client_ip name r ≡ some k
      → key_lt old.1 k ≡ true
      → consider client_ip name (some old) r ≡ some (r, k)
  unfolding consider
  consider_better old r k h better = rw (h, consider) (rw better)

  consider_worse :
      (old : PolicyRule × (ℕ × ℕ)) (r : PolicyRule) (k : ℕ × ℕ)
      → rule_key client_ip name r ≡ some k
      → key_lt old.1 k ≡ false
      → consider client_ip name (some old) r ≡ some old
  unfolding consider
  consider_worse old r k h worse = rw (h, consider) (rw worse)

  select_from-Outcome :
      (rules : List PolicyRule) (old : PolicyRule × (ℕ × ℕ)) (rule : PolicyRule) (key : ℕ × ℕ)
      → select_from client_ip name (some old) rules ≡ some (rule, key)
      → Outcome rules old rule key
  unfolding select_from
  select_from-Outcome [] old rule key h = inl ((cc), tt)
  select_from-Outcome (r ∷ rules) old rule key h = elim (Option-cases (rule_key client_ip name r)) [
    | inl absent ↦
        cons-Outcome r rules old rule key (λ k e. cc) (λ better k e. cc)
          (select_from-Outcome rules old rule key (rw (consider-skip (some old) r absent) at h))
    | inr (k, e) ↦ elim (Bool-cases (key_lt old.1 k)) [
      | inl better ↦
          replace r rules old k rule key e better
            (select_from-Outcome rules (r, k) rule key (rw (consider_better old r k e better) at h))
      | inr worse ↦
          cons-Outcome r rules old rule key (λ j f. (ground arith))
            (λ up j f. (ground (arith, key_lt_of_le k old.1 key)))
            (select_from-Outcome rules old rule key (rw (consider_worse old r k e worse) at h))
    ]
  ]

  first_at_head :
      (r : PolicyRule) (rules : List PolicyRule) (k : ℕ × ℕ) (rule : PolicyRule) (key : ℕ × ℕ)
      → rule_key client_ip name r ≡ some k
      → Outcome rules (r, k) rule key
      → IsFirstBest (r ∷ rules) rule key
  first_at_head r rules k rule key e (inl (same, all)) =
      subst (λ x. IsFirstBest (r ∷ rules) x.0 x.1) (sym same)
        (record {
          before = [];
          behind = rules;
          place = refl;
          applies = e;
          above = tt;
          not_below = all;
        })
  first_at_head r rules k rule key e (inr (b, up)) = record {
    before = r ∷ b.before;
    behind = b.behind;
    place = ap (◌∷◌ r) b.place;
    applies = b.applies;
    above = ((λ j f. ground arith), b.above);
    not_below = b.not_below;
  }

  -- The same of a loop that has not yet met a rule that applies.
  select_from-none :
      (rules : List PolicyRule) (rule : PolicyRule) (key : ℕ × ℕ)
      → select_from client_ip name none rules ≡ some (rule, key)
      → IsFirstBest rules rule key
  unfolding select_from
  select_from-none [] rule key h = cc
  select_from-none (r ∷ rules) rule key h = elim (Option-cases (rule_key client_ip name r)) [
    | inl absent ↦
        let b = select_from-none rules rule key (rw (consider-skip none r absent) at h) in
        record {
          before = r ∷ b.before;
          behind = b.behind;
          place = ap (◌∷◌ r) b.place;
          applies = b.applies;
          above = ((λ k e. cc), b.above);
          not_below = b.not_below;
        }
    | inr (k, e) ↦
        first_at_head r rules k rule key e
          (select_from-Outcome rules (r, k) rule key (rw (consider_first r k e) at h))
  ]

  abbrev Inapplicable : PolicyRule → Type 0
  Inapplicable r = rule_key client_ip name r ≡ none

  select_from-some :
      (rules : List PolicyRule) (old : PolicyRule × (ℕ × ℕ))
      → select_from client_ip name (some old) rules ≢ none
  unfolding select_from
  select_from-some [] old h = cc
  select_from-some (r ∷ rules) old h = elim (Option-cases (rule_key client_ip name r)) [
    | inl absent ↦ select_from-some rules old (rw (consider-skip (some old) r absent) at h)
    | inr (k, e) ↦ elim (Bool-cases (key_lt old.1 k)) [
      | inl better ↦ select_from-some rules (r, k) (rw (consider_better old r k e better) at h)
      | inr worse ↦ select_from-some rules old (rw (consider_worse old r k e worse) at h)
    ]
  ]

  select_from_absent :
      (rules : List PolicyRule)
      → select_from client_ip name none rules ≡ none
      → All Inapplicable rules
  unfolding select_from
  select_from_absent [] h = tt
  select_from_absent (r ∷ rules) h = elim (Option-cases (rule_key client_ip name r)) [
    | inl absent ↦ (absent, select_from_absent rules (rw (consider-skip none r absent) at h))
    | inr (k, e) ↦ absurd (select_from-some rules (r, k) (rw (consider_first r k e) at h))
  ]

  All-Inapplicable :
      (rules : List PolicyRule)
      → All Inapplicable rules
      → select_from client_ip name none rules ≡ none
  unfolding select_from
  All-Inapplicable [] h = refl
  All-Inapplicable (r ∷ rules) h = rw (consider-skip none r h.0) (All-Inapplicable rules h.1)

-- The chosen rule applies to the client and the normalized name; no rule that applies is more
-- specific, and every rule before it that applies is less specific: it is the first of the best.
pub select_policy-IsFirstBest :
    (rules : List PolicyRule) (client_ip qname : Text) (rule : PolicyRule)
    → select_policy rules client_ip qname ≡ some rule
    → (key : ℕ × ℕ) × IsFirstBest client_ip (normalize_domain qname) rules rule key
unfolding select_policy
select_policy-IsFirstBest rules client_ip qname rule h =
    elim (Option-cases (select_from client_ip (normalize_domain qname) none rules)) [
      | inl absent ↦ absurd (ground arith)
      | inr ((r, key), e) ↦
          (key, select_from-none client_ip (normalize_domain qname) rules rule key (ground arith))
    ]

-- No rule is chosen exactly when no rule applies.
select_policy-eq-none_iff :
    (rules : List PolicyRule) (client_ip qname : Text)
    → (select_policy rules client_ip qname ≡ none)
      ↔ All (λ r. rule_key client_ip (normalize_domain qname) r ≡ none) rules
unfolding select_policy
select_policy-eq-none_iff rules client_ip qname = (
  (λ h. select_from_absent client_ip (normalize_domain qname) rules (ground arith)),
  (λ h. rw (All-Inapplicable client_ip (normalize_domain qname) rules h, select_policy)),
)
