-- ===== src/Api/Schemas/Sound.antt =====
-- What a body that passes the checks of src/mirenai/api/schemas.py has.
use mirenai.Prelude.{
  >>=-eq-some, Bool-cases, List, Option, Option-cases, ap, arith, contains, false, inl, inr,
  list_eq, nat_eq, none, not, pair_eq, some, some_inj, subst, sym, true, ℕ, ◌&&◌, ◌==◌, ◌∙◌, ◌≡◌,
  ◌≤◌,
}
use mirenai.Api.Queries.{SignedInt}
use mirenai.Api.Schemas.{
  PolicyBody, Urlparse, check_client, check_interval, check_member, check_override, check_text,
  check_url, has_response, is_blank, policy_create, source_create,
}
use mirenai.Policy.{action_override, valid_actions}
use mirenai.Python.Ip.{ip_address}
use mirenai.Python.Text.{Text}

check_text-inv :
    (value out : Text) → check_text value ≡ some out → (is_blank value ≡ false) × (out ≡ value)
check_text-inv value out h = elim (Bool-cases (is_blank value)) [
  | inl blank ↦ absurd (none-apart out (rw blank at h))
  | inr full ↦ (full, sym (some_inj (rw full at h)))
]
  where
    none-apart : (t : Text) → ¬ (◌≡◌ {A = Option Text} none (some t))
    none-apart t e = cc

check_member-inv :
    (allowed : List Text) (value out : Text)
    → check_member allowed value ≡ some out
    → (contains allowed value ≡ true) × (out ≡ value)
check_member-inv allowed value out h = elim (Bool-cases (contains allowed value)) [
  | inl there ↦ (there, sym (some_inj (rw there at h)))
  | inr absent ↦ absurd (none-apart out (rw absent at h))
]
  where
    none-apart : (t : Text) → ¬ (◌≡◌ {A = Option Text} none (some t))
    none-apart t e = cc

check_client-inv :
    (value out : Text) → check_client value ≡ some out → check_client value ≡ some value
unfolding check_client
check_client-inv value out h = ground (arith, Option-cases (ip_address value))

check_url-inv :
    (urlparse : Urlparse) (value out : Text) → check_url urlparse value ≡ some out → out ≡ value
unfolding check_url
check_url-inv urlparse value out h = ground arith

check_interval-inv : (value : SignedInt) (n : ℕ) → check_interval value ≡ some n → 1 ≤ n
unfolding check_interval
check_interval-inv value n h = ground arith

check_override-inv :
    (b c : PolicyBody)
    → check_override b ≡ some c
    → (c ≡ b) × ((b.action == action_override) ≡ true → has_response b.override_response ≡ true)
check_override-inv b c h =
    elim (Bool-cases (b.action == action_override && not (has_response b.override_response))) [
      | inl bad ↦ absurd (none-apart c (rw bad at h))
      | inr fine ↦ (sym (some_inj (rw fine at h)), λ e. ground arith)
    ]
  where
    none-apart : (t : PolicyBody) → ¬ (◌≡◌ {A = Option PolicyBody} none (some t))
    none-apart t e = cc

-- A policy that passes the check has a client that is an address or the wildcard, a domain that is
-- not blank and a valid action, and a response if the action is to override.
pub policy_create-IsSound :
    (b c : PolicyBody)
    → policy_create b ≡ some c
    → (c ≡ b)
      × (check_client b.client ≡ some b.client)
      × (is_blank b.domain ≡ false)
      × (contains valid_actions b.action ≡ true)
      × ((b.action == action_override) ≡ true → has_response b.override_response ≡ true)
unfolding policy_create
policy_create-IsSound b c h =
    let (client, e1, r1) = >>=-eq-some (check_client b.client) _ h in
    let (domain, e2, r2) = >>=-eq-some (check_text b.domain) _ r1 in
    let (action, e3, r3) = >>=-eq-some (check_member valid_actions b.action) _ r2 in
    let last = check_override-inv b c r3 in
    (
      last.0,
      check_client-inv b.client client e1,
      (check_text-inv b.domain domain e2).0,
      (check_member-inv valid_actions b.action action e3).0,
      last.1,
    )

-- An interval that passes the check is at least one, so that a list or zone that was tried is not
-- due at once.
pub source_create-IsSound :
    (urlparse : Urlparse) (name url : Text) (interval : SignedInt) (out : Text × (Text × ℕ))
    → source_create urlparse name url interval ≡ some out
    → (out.0 ≡ name) × (out.1.0 ≡ url) × (is_blank name ≡ false) × (1 ≤ out.1.1)
unfolding source_create
source_create-IsSound urlparse name url interval out h =
    let (n, e1, r1) = >>=-eq-some (check_text name) _ h in
    let (u, e2, r2) = >>=-eq-some (check_url urlparse url) _ r1 in
    let (i, e3, r3) = >>=-eq-some (check_interval interval) _ r2 in
    let e = some_inj r3 in
    let text = check_text-inv name n e1 in
    (
      ap (λ p. p.0) (sym e) ∙ text.1,
      ap (λ p. p.1.0) (sym e) ∙ check_url-inv urlparse url u e2,
      text.0,
      subst (λ k. 1 ≤ k) (ap (λ p. p.1.1) e) (check_interval-inv interval i e3),
    )
