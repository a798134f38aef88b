-- ===== src/Api/Schemas.antt =====
-- src/mirenai/api/schemas.py: the checks of the request bodies. A body has the types that pydantic
-- has already checked; a result `none` is a validation error. `urlparse` is an argument.
pub mod Sound
use mirenai.Prelude.{
  >>=-eq-some, Bool, Bool-cases, List, Option, Option-cases, [], ap, arith, contains, false,
  if◌then◌else◌, inl, inr, leb, length, list_eq, nat_eq, none, not, pair_eq, some, some_inj, subst,
  sym, true, ℕ, ◌&&◌, ◌++◌, ◌-◌, ◌==◌, ◌>>=◌, ◌||◌, ◌∙◌, ◌∷◌, ◌≡◌, ◌≤◌,
}
use mirenai.Api.Queries.{SignedInt, is_negative}
use mirenai.Blocklist.{is_nil, normalize_override_domain}
use mirenai.Policy.{action_deny, action_forward, action_override, valid_actions, wildcard}
use mirenai.Python.Int.Digits.{show}
use mirenai.Python.Ip.{Addr, Network, addr_text, ip_address, ip_network}
use mirenai.Python.Str.Strip.{strip}
use mirenai.Python.Text.{Text, codes}

-- `_check_client`
unfoldable pub check_client : Text → Option Text
check_client value =
    if value == wildcard
    then some value
    else (elim (ip_address value) [ none ↦ none | some a ↦ some value ])

-- `_check_port`
unfoldable pub check_port : SignedInt → Option ℕ
check_port value =
    if not (is_negative value) && leb 1 value.1 && leb value.1 65535 then some value.1 else none

-- the scheme and the network location of `urlparse`
abbrev pub Urlparse : Type 0
Urlparse = Text → Text × Text

-- `_check_url`
unfoldable pub check_url : Urlparse → Text → Option Text
check_url urlparse value =
    let (scheme, netloc) = urlparse value in
    if (scheme == codes "http" || scheme == codes "https") && not (is_nil netloc)
    then some value
    else none

-- `_check_interval_hours`, `_check_interval_seconds`
unfoldable pub check_interval : SignedInt → Option ℕ
check_interval value = if not (is_negative value) && leb 1 value.1 then some value.1 else none

-- `str(net)` of a network
abbrev pub network_text : Network → Text
network_text net =
    (if net.width == 32
      then addr_text (Addr.ipv4 net.network_address)
      else addr_text (Addr.ipv6 net.network_address none))
    ++ b'/' ∷ show (net.width - net.host_bits)

-- `_check_cidr`
unfoldable pub check_cidr : Text → Option Text
check_cidr value = elim (ip_network value) [ none ↦ none | some net ↦ some (network_text net) ]

-- a text with a character that is no white space
abbrev pub is_blank : Text → Bool
is_blank s = is_nil (strip s)

abbrev pub check_text : Text → Option Text
check_text value = if is_blank value then none else some value

abbrev pub check_member : List Text → Text → Option Text
check_member allowed value = if contains allowed value then some value else none

-- a check of a field that may be absent or null
abbrev pub optional : {A B : Type 0} → (A → Option B) → Option A → Option (Option B)
optional check none = some none
optional check (some a) = elim (check a) [ none ↦ none | some b ↦ some (some b) ]

-- `value.strip() or None`
abbrev pub trimmed : Text → Option Text
trimmed value = if is_blank value then none else some (strip value)

-- a name or an icon of a host: trimmed, of at most 255 characters
abbrev pub check_label : Text → Option (Option Text)
check_label value = if leb (length (strip value)) 255 then some (trimmed value) else none

abbrev pub label_or_null : Option Text → Option (Option Text)
label_or_null none = some none
label_or_null (some value) = check_label value

pub record PolicyBody : Type 0 where
  pub client : Text
  pub domain : Text
  pub action : Text
  pub override_response : Option Text
  pub override_ttl : ℕ
  pub enabled : Bool
  pub description : Option Text

abbrev pub has_response : Option Text → Bool
has_response none = false
has_response (some r) = not (is_blank r)

-- `_override_requires_response`
abbrev pub check_override : PolicyBody → Option PolicyBody
check_override b =
    if b.action == action_override && not (has_response b.override_response) then none else some b

-- `PolicyCreate`
unfoldable pub policy_create : PolicyBody → Option PolicyBody
policy_create b = check_client b.client >>= λ client. check_text b.domain >>= λ domain.
    check_member valid_actions b.action >>= λ action. check_override b

pub record PolicyChangeBody : Type 0 where
  pub client : Option Text
  pub domain : Option Text
  pub action : Option Text
  pub override_response : Option Text

-- `PolicyUpdate`: the client and the action are checked, the domain and the response are not
unfoldable pub policy_update : PolicyChangeBody → Option PolicyChangeBody
policy_update b = optional check_client b.client >>= λ client.
    optional (check_member valid_actions) b.action >>= λ action. some b

-- `ClientModeUpdate`
unfoldable pub client_mode_update : Text → Option Text
client_mode_update mode = check_member (action_forward ∷ action_deny ∷ []) mode

abbrev pub valid_protocols : List Text
valid_protocols = codes "udp" ∷ codes "tcp" ∷ []

abbrev pub check_address : Text → Option Text
check_address value = elim (ip_address value) [ none ↦ none | some a ↦ some value ]

pub record UpstreamBody : Type 0 where
  pub address : Text
  pub port : SignedInt
  pub protocol : Text

-- `UpstreamCreate`: the address, the port and the protocol
unfoldable pub upstream_create : UpstreamBody → Option (Text × (ℕ × Text))
upstream_create b = check_address b.address >>= λ address. check_port b.port >>= λ port.
    check_member valid_protocols b.protocol >>= λ protocol. some (address, (port, protocol))

-- `UpstreamUpdate`
unfoldable pub upstream_update :
    Option Text → Option SignedInt → Option Text → Option (Option Text × (Option ℕ × Option Text))
upstream_update address port protocol = optional check_address address >>= λ address'.
    optional check_port port >>= λ port'.
    optional (check_member valid_protocols) protocol >>= λ protocol'.
    some (address', (port', protocol'))

-- `HostUpdate`: a blank name or icon becomes null
unfoldable pub host_update : Option Text → Option Text → Option (Option Text × Option Text)
host_update device_name icon =
    label_or_null device_name >>= λ name. label_or_null icon >>= λ icon'. some (name, icon')

-- `SettingsUpdate` checks the default action alone.
unfoldable pub settings_update : Option Text → Option (Option Text)
settings_update default_action =
    optional (check_member (action_deny ∷ action_forward ∷ [])) default_action

-- `BlocklistCreate` and `LocalZoneCreate`: the name, the URL and the interval
unfoldable pub source_create : Urlparse → Text → Text → SignedInt → Option (Text × (Text × ℕ))
source_create urlparse name url interval = check_text name >>= λ name'.
    check_url urlparse url >>= λ url'.
    check_interval interval >>= λ interval'. some (name', (url', interval'))

-- `BlocklistUpdate` and `LocalZoneUpdate`
unfoldable pub source_update :
    Urlparse
    → Option Text
    → Option Text
    → Option SignedInt
    → Option (Option Text × (Option Text × Option ℕ))
source_update urlparse name url interval = optional check_text name >>= λ name'.
    optional (check_url urlparse) url >>= λ url'.
    optional check_interval interval >>= λ interval'. some (name', (url', interval'))

-- `BlocklistOverrideCreate`
unfoldable pub override_create : Text → Option Text
override_create domain = normalize_override_domain domain

-- `TrustedNetworkCreate`
unfoldable pub trusted_network_create : Text → Option Text → Option (Text × Option Text)
trusted_network_create cidr description = check_cidr cidr >>= λ cidr'.
    some (cidr', (elim description [ none ↦ none | some d ↦ trimmed d ]))
