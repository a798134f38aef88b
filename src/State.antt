-- ===== src/State.antt =====
-- src/mirenai/domain/state.py: the snapshot of the configuration that the server works with.
use mirenai.LocalZones.{LocalRecord, LocalRecords, local_records}
use mirenai.Prelude.{◌>>=◌}
use mirenai.Prelude.{
  >>=-eq-some, Bool, List, Option, Option-cases, [], ap, inl, inr, list_eq, nat_eq, none, pair_eq,
  refl, some, some_inj, subst, sym, true, ℕ, ◌++◌, ◌∙◌, ◌∷◌, ◌≡◌, ◌⊎◌,
}
use mirenai.Network.{NetworkFilter, from_cidrs}
use mirenai.Policy.{PolicyRule, action_forward}
use mirenai.Python.Text.{Text}

pub record UpstreamServer : Type 0 where
  pub address : Text
  pub port : ℕ
  pub protocol : Text
  pub priority : ℕ

-- Times to live are in seconds and the timeout in milliseconds.
pub record RuntimeSettings : Type 0 where
  pub cache_enabled : Bool
  pub cache_max_ttl : ℕ
  pub cache_min_ttl : ℕ
  pub cache_max_entries : ℕ
  pub forward_timeout : ℕ
  pub default_action : Text
  pub refresh_seconds : ℕ
  pub query_flush_seconds : ℕ
  pub log_queries : Bool
  pub ipv6_enabled : Bool
  pub drop_private_ptr : Bool

abbrev pub default_settings : RuntimeSettings
default_settings = record {
  cache_enabled = true;
  cache_max_ttl = 3600;
  cache_min_ttl = 0;
  cache_max_entries = 10000;
  forward_timeout = 5000;
  default_action = action_forward;
  refresh_seconds = 10;
  query_flush_seconds = 5;
  log_queries = true;
  ipv6_enabled = true;
  drop_private_ptr = true;
}

-- What the seven loaders return when a reload calls them; `none` is an exception.
pub record Loaded : Type 0 where
  pub settings : Option RuntimeSettings
  pub policies : Option (List PolicyRule)
  pub upstreams : Option (List UpstreamServer)
  pub blocklist : Option (List Text)
  pub blocklist_excluded : Option (List Text)
  pub trusted_networks : Option (List Text)
  pub local_records : Option (List LocalRecord)

pub record RuntimeState : Type 0 where
  pub settings : RuntimeSettings
  pub policies : List PolicyRule
  pub upstreams : List UpstreamServer
  pub blocklist : List Text
  pub blocklist_excluded : List Text
  pub network_filter : NetworkFilter
  pub local_records : LocalRecords

-- the state before the first reload
abbrev pub empty_state : RuntimeState
empty_state = record {
  settings = default_settings;
  policies = [];
  upstreams = [];
  blocklist = [];
  blocklist_excluded = [];
  network_filter = record { networks = [] };
  local_records = local_records [];
}

-- `reload`: the new state, or `none` if a loader raises, which leaves the state as it is
unfoldable pub reload : Loaded → Option RuntimeState
unfolding from_cidrs local_records
reload l = do
  new_settings ← l.settings
  new_policies ← l.policies
  new_upstreams ← l.upstreams
  new_blocklist ← l.blocklist
  new_blocklist_excluded ← l.blocklist_excluded
  cidrs ← l.trusted_networks
  records ← l.local_records
  some (record {
    settings = new_settings;
    policies = new_policies;
    upstreams = new_upstreams;
    blocklist = new_blocklist;
    blocklist_excluded = new_blocklist_excluded;
    network_filter = from_cidrs cidrs;
    local_records = local_records records;
  })

-- one round of `_refresh_loop`, which logs an exception and goes on
unfoldable pub refresh_once : RuntimeState → Loaded → RuntimeState
refresh_once s l = elim (reload l) [ none ↦ s | some s' ↦ s' ]

unfoldable pub refresh_loop : RuntimeState → List Loaded → RuntimeState
refresh_loop s [] = s
refresh_loop s (l ∷ ls) = refresh_loop (refresh_once s l) ls

-- A state is what one round of loading returned, all seven values of that round.
pub IsLoadedBy : Loaded → RuntimeState → Type 0
IsLoadedBy l s =
    (l.settings ≡ some s.settings)
    × (l.policies ≡ some s.policies)
    × (l.upstreams ≡ some s.upstreams)
    × (l.blocklist ≡ some s.blocklist)
    × (l.blocklist_excluded ≡ some s.blocklist_excluded)
    × ((cidrs : List Text) × (l.trusted_networks ≡ some cidrs)
        × (s.network_filter ≡ from_cidrs cidrs))
    × ((records : List LocalRecord) × (l.local_records ≡ some records)
        × (s.local_records ≡ local_records records))

reload-IsLoadedBy : (l : Loaded) (s : RuntimeState) → reload l ≡ some s → IsLoadedBy l s
unfolding reload IsLoadedBy
reload-IsLoadedBy l s h =
    let (settings, h1, e1) = >>=-eq-some l.settings _ h in
    let (policies, h2, e2) = >>=-eq-some l.policies _ e1 in
    let (upstreams, h3, e3) = >>=-eq-some l.upstreams _ e2 in
    let (blocklist, h4, e4) = >>=-eq-some l.blocklist _ e3 in
    let (excluded, h5, e5) = >>=-eq-some l.blocklist_excluded _ e4 in
    let (cidrs, h6, e6) = >>=-eq-some l.trusted_networks _ e5 in
    let (records, h7, e7) = >>=-eq-some l.local_records _ e6 in
    subst (λ s. IsLoadedBy l s) (some_inj e7)
      (h1, h2, h3, h4, h5, (cidrs, h6, refl), (records, h7, refl))

refresh_once-miss : (s : RuntimeState) (l : Loaded) → reload l ≡ none → refresh_once s l ≡ s
unfolding refresh_once
refresh_once-miss s l h = rw (h, refresh_once) refl

refresh_once-hit : (s s' : RuntimeState) (l : Loaded) → reload l ≡ some s' → refresh_once s l ≡ s'
unfolding refresh_once
refresh_once-hit s s' l h = rw (h, refresh_once) refl

-- what the theorem below says of a list of rounds
Atomic : RuntimeState → List Loaded → RuntimeState → Type 0
Atomic s ls t =
    (t ≡ s)
    ⊎ ((before : List Loaded) × (l : Loaded) × (after : List Loaded) × (ls ≡ before ++ l ∷ after)
        × IsLoadedBy l t)

Atomic-cons :
    (s s' t : RuntimeState) (l : Loaded) (ls : List Loaded)
    → (s' ≡ s) ⊎ IsLoadedBy l s'
    → Atomic s' ls t
    → Atomic s (l ∷ ls) t
unfolding Atomic
Atomic-cons s s' t l ls (inl same) (inl kept) = inl (kept ∙ same)
Atomic-cons s s' t l ls (inr loaded) (inl kept) =
    inr ([], l, ls, refl, subst (λ x. IsLoadedBy l x) (sym kept) loaded)
Atomic-cons s s' t l ls first (inr (before, m, after, e, loaded)) =
    inr (l ∷ before, m, after, ap (λ xs. l ∷ xs) e, loaded)

-- Whatever the loaders return, the state after any number of refreshes is the one before them, or
-- all of it was loaded in one and the same round: a round that fails changes nothing.
pub refresh_loop-atomic :
    (s : RuntimeState) (ls : List Loaded)
    → (refresh_loop s ls ≡ s)
      ⊎ ((before : List Loaded) × (l : Loaded) × (after : List Loaded) × (ls ≡ before ++ l ∷ after)
          × IsLoadedBy l (refresh_loop s ls))
unfolding refresh_loop Atomic
refresh_loop-atomic s [] = inl refl
refresh_loop-atomic s (l ∷ ls) = elim (Option-cases (reload l)) [
  | inl bad ↦
      Atomic-cons s (refresh_once s l) (refresh_loop (refresh_once s l) ls) l ls
        (inl (refresh_once-miss s l bad)) (refresh_loop-atomic (refresh_once s l) ls)
  | inr (s', ok) ↦
      Atomic-cons s (refresh_once s l) (refresh_loop (refresh_once s l) ls) l ls
        (inr (
          subst (λ x. IsLoadedBy l x) (sym (refresh_once-hit s s' l ok))
            (reload-IsLoadedBy l s' ok)))
        (refresh_loop-atomic (refresh_once s l) ls)
]
