-- ===== src/Repository/Modes.antt =====
-- src/mirenai/repository/policies.py: the mode of a client after it was set or seeded.
use mirenai.Prelude.{
  ℕ, ◌≡◌, refl, sym, ap, subst, beq_refl, ◌∙◌, true, List, [], ◌∷◌, ◌++◌, Option, none, some, inl,
  inr, ◌==◌, list_eq, nat_eq, list_beq_iff, if◌then◌else◌, Bool-cases, Option-cases, arith,
}
use mirenai.Python.Text.{Text}
use mirenai.Policy.{wildcard}
use mirenai.Repository.Policies.{
  Policy, next_id, wildcard_row, wildcard_policy, mode_of, get_client_mode, set_action,
  set_client_mode, ensure_client_policy,
}

-- the action of the row, if there is one
abbrev action_or : Text → Option Policy → Text
action_or default_action none = default_action
action_or default_action (some p) = p.action

-- Whose wildcard row an appended row is.
row-append :
    (client other mode : Text) (id : ℕ) (ps : List Policy)
    → wildcard_row client ps ≡ none
    → wildcard_row other (ps ++ wildcard_policy id client mode ∷ [])
      ≡ (if client == other then some (wildcard_policy id client mode) else wildcard_row other ps)
unfolding wildcard_row
row-append client other mode id [] h =
    ground (arith, list_beq_iff client other, list_beq_iff wildcard wildcard)
row-append client other mode id (p ∷ ps) h = ground (
  arith,
  row-append client other mode id ps,
  list_beq_iff client other,
  list_beq_iff p.client client,
  list_beq_iff p.client other,
)

row-set_action :
    (client other mode default_action : Text) (p : Policy) (ps : List Policy)
    → wildcard_row client ps ≡ some p
    → action_or default_action (wildcard_row other (set_action client mode ps))
      ≡ (if client == other then mode else action_or default_action (wildcard_row other ps))
unfolding wildcard_row
row-set_action client other mode default_action p [] h = ground arith
row-set_action client other mode default_action p (q ∷ ps) h = ground (
  arith,
  row-set_action client other mode default_action p ps,
  list_beq_iff client other,
  list_beq_iff q.client client,
  list_beq_iff q.client other,
)

mode_of-action :
    (default_action : Text) (o : Option Policy)
    → (mode_of default_action o).0 ≡ action_or default_action o
mode_of-action default_action none = refl
mode_of-action default_action (some p) = refl

set-miss :
    (client mode : Text) (ps : List Policy)
    → wildcard_row client ps ≡ none
    → set_client_mode client mode ps ≡ ps ++ wildcard_policy (next_id ps) client mode ∷ []
unfolding set_client_mode
set-miss client mode ps h = rw (h, set_client_mode) refl

set-hit :
    (client mode : Text) (p : Policy) (ps : List Policy)
    → wildcard_row client ps ≡ some p
    → set_client_mode client mode ps ≡ set_action client mode ps
unfolding set_client_mode
set-hit client mode p ps h = rw (h, set_client_mode) refl

row-set_client_mode :
    (client other mode default_action : Text) (ps : List Policy)
    → action_or default_action (wildcard_row other (set_client_mode client mode ps))
      ≡ (if client == other then mode else action_or default_action (wildcard_row other ps))
row-set_client_mode client other mode default_action ps =
    elim (Option-cases (wildcard_row client ps)) [
      | inl new ↦
          ap (λ qs. action_or default_action (wildcard_row other qs)) (set-miss client mode ps new)
          ∙ ap (action_or default_action) (row-append client other mode (next_id ps) ps new)
          ∙ ground arith
      | inr (p, old) ↦
          ap (λ qs. action_or default_action (wildcard_row other qs)) (set-hit client mode p ps old)
          ∙ row-set_action client other mode default_action p ps old
    ]

-- After a client's mode was set, reading its mode gives it, and every other client has the mode
-- that it had, be it a row of its own or the default action.
get-set_client_mode :
    (client other mode default_action : Text) (ps : List Policy)
    → (get_client_mode default_action other (set_client_mode client mode ps)).0
      ≡ (if client == other then mode else (get_client_mode default_action other ps).0)
unfolding get_client_mode
get-set_client_mode client other mode default_action ps =
    mode_of-action default_action (wildcard_row other (set_client_mode client mode ps))
    ∙ row-set_client_mode client other mode default_action ps
    ∙ ap (λ a. if client == other then mode else a)
        (sym (mode_of-action default_action (wildcard_row other ps)))

ensure-miss :
    (client action : Text) (ps : List Policy)
    → wildcard_row client ps ≡ none
    → ensure_client_policy client action ps ≡ ps ++ wildcard_policy (next_id ps) client action ∷ []
unfolding ensure_client_policy
ensure-miss client action ps h = rw (h, ensure_client_policy) refl

ensure-hit :
    (client action : Text) (p : Policy) (ps : List Policy)
    → wildcard_row client ps ≡ some p
    → ensure_client_policy client action ps ≡ ps
unfolding ensure_client_policy
ensure-hit client action p ps h = rw (h, ensure_client_policy) refl

seeded_other :
    (client other action : Text) (id : ℕ) (ps : List Policy)
    → wildcard_row client ps ≡ none
    → (mode_of action (
        if client == other
        then some (wildcard_policy id client action)
        else wildcard_row other ps)).0
      ≡ (mode_of action (wildcard_row other ps)).0
seeded_other client other action id ps new = elim (Bool-cases (client == other)) [
  | inl same ↦
      let e : client ≡ other = (list_beq_iff client other).0 same in
      let absent : wildcard_row other ps ≡ none = subst (λ c. wildcard_row c ps ≡ none) e new in
      rw same (rw absent refl)
  | inr different ↦ rw different refl
]

seeded_self :
    (client action later_default : Text) (id : ℕ) (ps : List Policy)
    → wildcard_row client ps ≡ none
    → (mode_of later_default (
        if client == client
        then some (wildcard_policy id client action)
        else wildcard_row client ps)).0
      ≡ (mode_of action (wildcard_row client ps)).0
seeded_self client action later_default id ps new =
    let same : (client == client) ≡ true = beq_refl client in rw same (rw new refl)

-- Seeding a client with the default action changes nobody's mode at that time; the client then has
-- a row of its own, so that its mode no longer depends on the default; and a client that has a row
-- keeps it.
get-ensure_client_policy :
    (client other action later_default : Text) (ps : List Policy)
    → ((get_client_mode action other (ensure_client_policy client action ps)).0
        ≡ (get_client_mode action other ps).0)
      × ((get_client_mode later_default client (ensure_client_policy client action ps)).0
          ≡ (get_client_mode action client ps).0)
unfolding get_client_mode
get-ensure_client_policy client other action later_default ps =
    elim (Option-cases (wildcard_row client ps)) [
      | inl new ↦ (
        ap (λ qs. (mode_of action (wildcard_row other qs)).0) (ensure-miss client action ps new)
            ∙ ap (λ o. (mode_of action o).0) (row-append client other action (next_id ps) ps new)
            ∙ seeded_other client other action (next_id ps) ps new,
        ap (λ qs. (mode_of later_default (wildcard_row client qs)).0)
              (ensure-miss client action ps new)
            ∙ ap (λ o. (mode_of later_default o).0)
                (row-append client client action (next_id ps) ps new)
            ∙ seeded_self client action later_default (next_id ps) ps new,
      )
      | inr (p, old) ↦ (
        ap (λ qs. (mode_of action (wildcard_row other qs)).0) (ensure-hit client action p ps old),
        ap (λ qs. (mode_of later_default (wildcard_row client qs)).0)
              (ensure-hit client action p ps old)
            ∙ rw old refl,
      )
    ]
