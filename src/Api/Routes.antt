-- ===== src/Api/Routes.antt =====
-- src/mirenai/api/routes/policies.py and blocklists.py: the handlers that change something, with the
-- status of each reply.
use mirenai.Downloader.Fetch.{failed}
use mirenai.Downloader.Lists.{crashed, raised, updated}
use mirenai.Prelude.{
  Bool, Bool-cases, inl, inr, Option-cases, arith, [], ◌==◌, ◌∷◌, List, Option, ap, false, list_eq,
  nat_eq, none, pair_eq, refl, some, true, ℕ, ◌∙◌, ◌≡◌,
}
use mirenai.Api.Queries.{SignedInt}
use mirenai.Api.Schemas.{
  PolicyBody, PolicyChangeBody, Urlparse, policy_create, policy_update, source_create,
  source_update,
}
use mirenai.Downloader.Fetch.{Fetched}
use mirenai.Downloader.Lists.{Refreshed, Tables, refresh_blocklist, refresh_blocklist_failed}
use mirenai.Python.Text.{Text, codes}
use mirenai.Repository.Blocklists.{Blocklist, create_blocklist, get_blocklist, update_blocklist}
use mirenai.Repository.Blocklists.Domains.{delete_blocklist}
use mirenai.Repository.Policies.{
  Policy, PolicyChange, PolicyData, create_policy, delete_policy, update_policy, get_policy,
  changed, taken_by_other,
}

-- the status of the reply, with the row, or with the code of the error
pub data Reply (A : Type 0) : Type 0 where
  done : ℕ → A → Reply A
  refused : ℕ → Text → Reply A

-- `none` is an `IntegrityError`, after which the session has rolled its transaction back: a conflict.
abbrev pub created : {T A : Type 0} → T → Option (T × A) → T × Reply A
created t none = (t, refused 409 (codes "conflict"))
created t (some (t', row)) = (t', done 201 row)

abbrev pub changed_row : {T A : Type 0} → T → Option (T × Option A) → T × Reply A
changed_row t none = (t, refused 409 (codes "conflict"))
changed_row t (some (t', none)) = (t', refused 404 (codes "not_found"))
changed_row t (some (t', some row)) = (t', done 200 row)

abbrev pub deleted : {T : Type 0} → ℕ → T × Bool → T × Reply ℕ
deleted id (t', false) = (t', refused 404 (codes "not_found"))
deleted id (t', true) = (t', done 200 id)

-- A body that does not pass the check is refused with 422.
abbrev pub checked : {T A B : Type 0} → Option B → T → (B → T × Reply A) → T × Reply A
checked none t handle = (t, refused 422 (codes "validation_error"))
checked (some b) t handle = handle b

abbrev pub policy_data : PolicyBody → PolicyData
policy_data b = record {
  client = b.client;
  domain = b.domain;
  action = b.action;
  override_response = b.override_response;
  override_ttl = b.override_ttl;
  enabled = b.enabled;
  description = b.description;
}

unfoldable pub create_policy_route : PolicyBody → List Policy → List Policy × Reply Policy
create_policy_route body ps =
    checked (policy_create body) ps (λ b. created ps (create_policy (policy_data b) ps))

-- the fields of a change that `PolicyUpdate` looks at; an explicit null counts as absent
abbrev pub given : Option (Option Text) → Option Text
given none = none
given (some response) = response

abbrev pub change_body : PolicyChange → PolicyChangeBody
change_body c = record {
  client = c.client;
  domain = c.domain;
  action = c.action;
  override_response = given c.override_response;
}

unfoldable pub update_policy_route : ℕ → PolicyChange → List Policy → List Policy × Reply Policy
update_policy_route id change ps =
    checked (policy_update (change_body change)) ps
      (λ b. changed_row ps (update_policy id change ps))

unfoldable pub delete_policy_route : ℕ → List Policy → List Policy × Reply ℕ
delete_policy_route id ps = deleted id (delete_policy id ps)

module _ (urlparse : Urlparse) where
  unfoldable pub create_blocklist_route :
      Text → Text → SignedInt → Bool → List Blocklist → List Blocklist × Reply Blocklist
  create_blocklist_route name url interval enabled bs =
      checked (source_create urlparse name url interval) bs λ b. created bs (
        create_blocklist b.0 b.1.0
          (record {
            name = some b.0;
            url = some b.1.0;
            update_interval_hours = some b.1.1;
            enabled = some enabled;
          })
          bs)

  unfoldable pub update_blocklist_route :
      ℕ
      → Option Text
      → Option Text
      → Option SignedInt
      → Option Bool
      → List Blocklist
      → List Blocklist × Reply Blocklist
  update_blocklist_route id name url interval enabled bs =
      checked (source_update urlparse name url interval) bs λ b. changed_row bs (
        update_blocklist id
          (record { name = b.0; url = b.1.0; update_interval_hours = b.1.1; enabled = enabled }) bs)

unfoldable pub delete_blocklist_route : ℕ → Tables → Tables × Reply ℕ
delete_blocklist_route id s =
    let ((bs, t), found) = delete_blocklist id s.lists s.domains in
    deleted id (record { lists = bs; domains = t }, found)

abbrev pub refresh_reply : Tables × Refreshed → Tables × Reply Blocklist
refresh_reply (s, raised message) = (s, refused 502 (codes "download_failed"))
refresh_reply (s, crashed) = (s, refused 500 (codes "internal_error"))
refresh_reply (s, updated row) = (s, done 200 row)

unfoldable pub refresh_blocklist_route :
    ℕ → List Text → (ℕ → Text → Fetched) → ℕ → Tables → Tables × Reply Blocklist
refresh_blocklist_route now overrides download id s = elim (get_blocklist id s.lists) [
  | none ↦ (s, refused 404 (codes "not_found"))
  | some row ↦ refresh_reply (refresh_blocklist now overrides download id s)
]

-- A reply with an error comes with the tables as they were.
abbrev pub IsUnchanged : {T A : Type 0} → T → T × Reply A → Type 0
IsUnchanged t (t', done status row) = Unit
IsUnchanged t (t', refused status code) = t' ≡ t

created-IsUnchanged : {T A : Type 0} (t : T) (o : Option (T × A)) → IsUnchanged t (created t o)
created-IsUnchanged t none = refl
created-IsUnchanged t (some (t', row)) = tt

update_policy-IsUnchanged :
    (id : ℕ) (c : PolicyChange) (ps : List Policy)
    → IsUnchanged ps (changed_row ps (update_policy id c ps))
unfolding update_policy
update_policy-IsUnchanged id c ps = elim (Option-cases (get_policy id ps)) [
  | inl absent ↦ rw (absent, update_policy) refl
  | inr (p, found) ↦ elim (Bool-cases (taken_by_other id (changed c p) ps)) [
    | inl taken ↦ rw (found, update_policy) (rw taken refl)
    | inr free ↦ rw (found, update_policy) (rw free tt)
  ]
]

delete_policy-missing :
    (id : ℕ) (ps : List Policy) → (delete_policy id ps).1 ≡ false → (delete_policy id ps).0 ≡ ps
unfolding delete_policy
delete_policy-missing id [] h = refl
delete_policy-missing id (p ∷ ps) h = elim (Bool-cases (p.id == id)) [
  | inl here ↦ absurd (ground arith)
  | inr other ↦ rw other (ap (◌∷◌ p) (delete_policy-missing id ps (rw other at h)))
]

deleted-IsUnchanged :
    {T : Type 0} (id : ℕ) (t : T) (p : T × Bool)
    → (p.1 ≡ false → p.0 ≡ t)
    → IsUnchanged t (deleted id p)
deleted-IsUnchanged id t (t', false) h = h refl
deleted-IsUnchanged id t (t', true) h = tt

checked-IsUnchanged :
    {T A B : Type 0} (o : Option B) (t : T) (handle : B → T × Reply A)
    → ((b : B) → IsUnchanged t (handle b))
    → IsUnchanged t (checked o t handle)
checked-IsUnchanged none t handle h = refl
checked-IsUnchanged (some b) t handle h = h b

-- Whatever the handlers of the policies are sent, a reply with an error leaves the policies as they
-- were.
pub policy_routes_lem :
    (body : PolicyBody) (id : ℕ) (change : PolicyChange) (ps : List Policy)
    → IsUnchanged ps (create_policy_route body ps)
      × IsUnchanged ps (update_policy_route id change ps)
      × IsUnchanged ps (delete_policy_route id ps)
unfolding create_policy_route update_policy_route delete_policy_route
policy_routes_lem body id change ps = (
  checked-IsUnchanged (policy_create body) ps (λ b. created ps (create_policy (policy_data b) ps))
      (λ b. created-IsUnchanged ps (create_policy (policy_data b) ps)),
  checked-IsUnchanged (policy_update (change_body change)) ps
      (λ b. changed_row ps (update_policy id change ps))
      (λ b. update_policy-IsUnchanged id change ps),
  deleted-IsUnchanged id ps (delete_policy id ps) (delete_policy-missing id ps),
)

-- The refresh on request answers 404 and changes nothing for a list that is unknown, and 502 and
-- keeps all domains for a download that fails.
pub refresh_blocklist_route_lem :
    (now : ℕ) (overrides : List Text) (download : ℕ → Text → Fetched) (id : ℕ) (s : Tables)
    → (get_blocklist id s.lists ≡ none
        → refresh_blocklist_route now overrides download id s
          ≡ (s, refused 404 (codes "not_found")))
      × ((row : Blocklist) (message : Text)
          → get_blocklist id s.lists ≡ some row
          → download id row.url ≡ failed message
          → let (s', reply) = refresh_blocklist_route now overrides download id s in
            (s'.domains ≡ s.domains) × (reply ≡ refused 502 (codes "download_failed")))
refresh_blocklist_route_lem now overrides download id s = (
  λ absent. unfold refresh_blocklist_route in rw (absent, refresh_blocklist_route) refl,
  λ row message found fails.
      let r = refresh_blocklist_failed now overrides download id s row message found fails in
      let p = refresh_blocklist now overrides download id s in
      let e : refresh_blocklist_route now overrides download id s
          ≡ (p.0, refused 502 (codes "download_failed")) =
        unfold refresh_blocklist_route in
        rw (found, refresh_blocklist_route) (ap (λ q. refresh_reply (p.0, q)) r.1) in
      (ap (λ q. q.0.domains) e ∙ r.0, ap (λ q. q.1) e),
)
