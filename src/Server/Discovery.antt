-- ===== src/Server/Discovery.antt =====
-- src/mirenai/workers/dns_server.py and src/mirenai/integrations/sando.py: what happens when a new
-- client is seen. The request to Sando is an argument.
use mirenai.Prelude.{
  All, Bool, List, Option, Option-cases, [], ap, arith, false, if◌then◌else◌, inl, inr,
  list_beq_iff, list_eq, nat_eq, none, pair_eq, refl, some, true, ◌++◌, ◌∙◌, ◌∷◌, ◌≡◌,
}
use mirenai.Api.Schemas.{trimmed}
use mirenai.Policy.{wildcard}
use mirenai.Python.Dict.{is_some}
use mirenai.Python.Text.{Text}
use mirenai.Repository.Hosts.{Host, NameData, update_host_by_ip}
use mirenai.Repository.Policies.{
  Policy, ensure_client_policy, has_key, next_id, wildcard_policy, wildcard_row,
}

-- `_clean`: a text without the white space around it, or null
unfoldable pub clean : Option Text → Option Text
clean none = none
clean (some value) = trimmed value

pub record SandoDevice : Type 0 where
  pub device_name : Option Text
  pub icon : Option Text
  pub mac_address : Option Text

-- the fields of the reply of Sando that are texts
pub record Payload : Type 0 where
  pub local_description : Option Text
  pub icon : Option Text
  pub mac_address : Option Text

abbrev pub device_of : Payload → SandoDevice
device_of p = record {
  device_name = clean p.local_description;
  icon = clean p.icon;
  mac_address = clean p.mac_address;
}

-- an error of the transport, no usable record, or a record
pub data Answer : Type 0 where
  unreachable : Answer
  no_record : Answer
  found : Payload → Answer

-- only the fields that Sando has are sent
abbrev pub present : Option Text → Option (Option Text)
present none = none
present (some value) = some (some value)

abbrev pub name_data : SandoDevice → NameData
name_data d = record {
  device_name = present d.device_name;
  icon = present d.icon;
  mac_address = present d.mac_address;
}

abbrev pub hosts_after : List Host → Option (List Host × Host) → List Host
hosts_after hs none = hs
hosts_after hs (some (hs', h)) = hs'

-- `sync_host_from_sando`: the hosts afterwards
unfoldable pub sync_host_from_sando : Bool → (Text → Answer) → Text → List Host → List Host
sync_host_from_sando false ask ip hs = hs
sync_host_from_sando true ask ip hs = elim (ask ip) [
  | unreachable ↦ hs
  | no_record ↦ hs
  | found payload ↦ hosts_after hs (update_host_by_ip ip (name_data (device_of payload)) hs)
]

-- One new client: its policy, and its name. Each of the two can fail, which is logged; a failure of
-- the database is `false`.
abbrev pub seeded : Bool → Text → Text → List Policy → List Policy
seeded false ip action ps = ps
seeded true ip action ps = ensure_client_policy ip action ps

-- `_on_discover`
unfoldable pub on_discover :
    (Text → Bool)
    → Bool
    → (Text → Answer)
    → Text
    → List Text
    → List Policy × List Host
    → List Policy × List Host
on_discover works configured ask action [] s = s
on_discover works configured ask action (ip ∷ ips) (ps, hs) =
    on_discover works configured ask action ips
      (seeded (works ip) ip action ps, sync_host_from_sando configured ask ip hs)

-- The address has a wildcard policy.
abbrev pub has_wildcard : Text → List Policy → Bool
has_wildcard ip ps = is_some (wildcard_row ip ps)

wildcard_row-append :
    (ip : Text) (ps : List Policy) (p : Policy)
    → wildcard_row ip (ps ++ p ∷ []) ≡ (elim (wildcard_row ip ps) [
      | none ↦ (if has_key ip wildcard p then some p else none)
      | some q ↦ some q
    ])
unfolding wildcard_row
wildcard_row-append ip [] p = refl
wildcard_row-append ip (q ∷ ps) p = ground (arith, wildcard_row-append ip ps p)

seeded-keeps :
    (b : Bool) (ip action j : Text) (ps : List Policy) (q : Policy)
    → wildcard_row j ps ≡ some q
    → wildcard_row j (seeded b ip action ps) ≡ some q
unfolding ensure_client_policy
seeded-keeps false ip action j ps q h = h
seeded-keeps true ip action j ps q h = elim (Option-cases (wildcard_row ip ps)) [
  | inl new ↦
      rw (new, ensure_client_policy)
        (wildcard_row-append j ps (wildcard_policy (next_id ps) ip action) ∙ rw h refl)
  | inr (p, old) ↦ rw (old, ensure_client_policy) h
]

seeded-has :
    (ip action : Text) (ps : List Policy)
    → has_wildcard ip (ensure_client_policy ip action ps) ≡ true
unfolding ensure_client_policy
seeded-has ip action ps = elim (Option-cases (wildcard_row ip ps)) [
  | inl new ↦
      rw (new, ensure_client_policy)
        (ap is_some (wildcard_row-append ip ps (wildcard_policy (next_id ps) ip action))
          ∙ rw new (ground (arith, list_beq_iff ip ip, list_beq_iff wildcard wildcard)))
  | inr (p, old) ↦ rw (old, ensure_client_policy) (ap is_some old)
]

is_some-eq : (o : Option Policy) → is_some o ≡ true → (q : Policy) × (o ≡ some q)
is_some-eq none h = cc
is_some-eq (some q) h = (q, refl)

-- Every new client whose policy can be written has a wildcard policy afterwards, whatever fails for
-- the others and whatever Sando answers; and a wildcard policy that is there stays as it is.
pub on_discover-seeded :
    (works : Text → Bool) (configured : Bool) (ask : Text → Answer) (action : Text)
    (ips : List Text) (ps : List Policy) (hs : List Host)
    → ((j : Text) (q : Policy)
        → wildcard_row j ps ≡ some q
        → wildcard_row j (on_discover works configured ask action ips (ps, hs)).0 ≡ some q)
      × All
          (λ ip.
            works ip ≡ true
            → has_wildcard ip (on_discover works configured ask action ips (ps, hs)).0 ≡ true)
          ips
unfolding on_discover
on_discover-seeded works configured ask action [] ps hs = (λ j q h. h, tt)
on_discover-seeded works configured ask action (ip ∷ ips) ps hs =
    let ps' = seeded (works ip) ip action ps in
    let hs' = sync_host_from_sando configured ask ip hs in
    let ih = on_discover-seeded works configured ask action ips ps' hs' in
    (
      λ j q h. ih.0 j q (seeded-keeps (works ip) ip action j ps q h),
      (
        λ w.
            let here : has_wildcard ip ps' ≡ true =
              ap (λ b. has_wildcard ip (seeded b ip action ps)) w ∙ seeded-has ip action ps in
            let (q, row) = is_some-eq (wildcard_row ip ps') here in ap is_some (ih.0 ip q row),
        ih.1,
      ),
    )
