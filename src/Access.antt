-- ===== src/Access.antt =====
-- internal/httpapi/httpapi.go and the management keys of internal/config/config.go: who is behind a
-- request, and what that principal may do. net.ParseIP, net.ParseCIDR, net.SplitHostPort and
-- time.Parse are parameters; a time is in nanoseconds.
pub mod Params
pub mod Granted
pub mod Scopes
pub mod ScopeSets
pub mod Tests
use any_ns.Base.{
  ℕ, List, [], ◌∷◌, ◌++◌, Bool, true, false, not, ◌&&◌, ◌||◌, Option, none, some, Text, txt, ◌=t◌,
  is_empty, to_lower, trim_space, trim_prefix, has_prefix, has_suffix, any, ltb, leb, if◌then◌else◌,
}
use any_ns.Base.Members.{has_text}
use any_ns.Base.Dict.{Dict, lookup, insert}

-- What the code calls of Go's `net` and `time`.
pub record Platform : Type 1 where
  pub Ip : Type 0
  pub Network : Type 0
  pub parse_ip : Text → Option Ip
  pub ip_equal : Ip → Ip → Bool
  pub parse_cidr : Text → Option Network
  pub network_contains : Network → Ip → Bool
  pub split_host_port : Text → Option Text
  pub parse_time : Text → Option ℕ

pub record ManagementRole : Type 0 where
  pub id : Text
  pub scopes : List Text

pub record ManagementKey : Type 0 where
  pub id : Text
  pub api_key : Text
  pub api_key_file : Text
  pub scopes : List Text
  pub roles : List Text
  pub not_before : Text
  pub expires_at : Text
  pub revoked_at : Text
  pub allowed_client_cidrs : List Text

pub record ManagementConfig : Type 0 where
  pub api_key : Text
  pub api_key_file : Text
  pub auth_required : Bool
  pub roles : List ManagementRole
  pub keys : List ManagementKey

pub record Principal : Type 0 where
  pub id : Text
  pub scopes : List Text

-- The parts of a request that the code reads: `query` is `r.URL.Query().Get`.
pub record Request : Type 0 where
  pub method : Text
  pub path : Text
  pub authorization : Text
  pub remote_addr : Text
  pub query : Text → Text

-- A scope as it is compared.
abbrev pub scope_form : Text → Text
scope_form scope = trim_space (to_lower scope)

abbrev pub is_nil {ℓ} : {A : Type ℓ} → List A → Bool
is_nil [] = true
is_nil (x ∷ xs) = false

-- One round of `normalizedManagementScopes`; the keys of `seen` are the elements of `out`.
unfoldable pub add_scope : List Text → Text → List Text
add_scope out s = if is_empty s || has_text s out then out else out ++ s ∷ []

unfoldable pub collect_scopes : List Text → List Text → List Text
unfolding add_scope
collect_scopes out [] = out
collect_scopes out (scope ∷ scopes) = collect_scopes (add_scope out (scope_form scope)) scopes

abbrev pub or_read : List Text → List Text
or_read [] = txt "read" ∷ []
or_read (s ∷ out) = s ∷ out

unfoldable pub normalized_management_scopes : List Text → List Text
unfolding collect_scopes
normalized_management_scopes scopes = or_read (collect_scopes [] scopes)

-- The scopes of each role; of two roles with one id the later one counts.
unfoldable pub role_scopes : List ManagementRole → Dict (List Text) → Dict (List Text)
role_scopes [] found = found
role_scopes (role ∷ roles) found =
    let id = trim_space role.id in
    role_scopes roles (if is_empty id then found else insert id role.scopes found)

abbrev pub or_nothing : Option (List Text) → List Text
or_nothing none = []
or_nothing (some scopes) = scopes

unfoldable pub scopes_of_roles : Dict (List Text) → List Text → List Text
scopes_of_roles found [] = []
scopes_of_roles found (role ∷ roles) =
    or_nothing (lookup (trim_space role) found) ++ scopes_of_roles found roles

unfoldable pub scopes_for_key : ManagementConfig → ManagementKey → List Text
unfolding role_scopes scopes_of_roles normalized_management_scopes
scopes_for_key m key = normalized_management_scopes (
    key.scopes
    ++ (if not (is_nil key.roles) && not (is_nil m.roles)
        then scopes_of_roles (role_scopes m.roles []) key.roles
        else []))

module _ (p : Platform) where
  -- A blank time, or one that does not parse, is none.
  unfoldable pub parse_key_time : Text → Option ℕ
  parse_key_time value = let v = trim_space value in if is_empty v then none else p.parse_time v

-- `t, ok := …; ok && now.Before(t)`
abbrev pub is_ahead : ℕ → Option ℕ → Bool
is_ahead now none = false
is_ahead now (some t) = ltb now t

-- `t, ok := …; ok && !now.Before(t)`
abbrev pub is_reached : ℕ → Option ℕ → Bool
is_reached now none = false
is_reached now (some t) = leb t now

module _ (p : Platform) where
  unfoldable pub management_key_active : ManagementKey → ℕ → Bool
  management_key_active key now =
      if is_ahead now (parse_key_time p key.not_before)
      then false
      else if is_reached now (parse_key_time p key.expires_at)
      then false
      else if is_reached now (parse_key_time p key.revoked_at)
      then false
      else true

  abbrev pub host_of : Text → Option Text → Text
  host_of addr none = addr
  host_of addr (some host) = host

  unfoldable pub request_client_ip : Request → Option p.Ip
  request_client_ip r =
      p.parse_ip (trim_space (host_of r.remote_addr (p.split_host_port r.remote_addr)))

  abbrev pub in_network : p.Ip → Option p.Network → Bool
  in_network client none = false
  in_network client (some network) = p.network_contains network client

  abbrev pub is_ip_or_in : p.Ip → Option p.Network → Option p.Ip → Bool
  is_ip_or_in client network none = in_network client network
  is_ip_or_in client network (some ip) = p.ip_equal ip client

  -- One entry of the list: a blank one allows nobody.
  unfoldable pub entry_allows : p.Ip → Text → Bool
  entry_allows client entry =
      let allowed = trim_space entry in
      if is_empty allowed
      then false
      else is_ip_or_in client (p.parse_cidr allowed) (p.parse_ip allowed)

  abbrev pub client_in : List Text → Option p.Ip → Bool
  client_in allowed none = false
  client_in allowed (some client) = any (entry_allows client) allowed

  unfoldable pub management_key_allows_client : ManagementKey → Request → Bool
  unfolding request_client_ip entry_allows
  management_key_allows_client key r =
      if is_nil key.allowed_client_cidrs
      then true
      else client_in key.allowed_client_cidrs (request_client_ip r)

  -- The condition under which a key is passed over.
  abbrev pub is_passed : ManagementKey → ℕ → Request → Bool
  is_passed key now r =
      is_empty key.api_key
      || not (management_key_active key now)
      || not (management_key_allows_client key r)

  unfoldable pub find_key : ℕ → Request → Text → List ManagementKey → Option ManagementKey
  find_key now r got [] = none
  find_key now r got (key ∷ keys) =
      let rest = find_key now r got keys in
      if is_passed key now r then rest else if got =t key.api_key then some key else rest

  abbrev pub anonymous : Principal
  anonymous = record { id = txt "anonymous"; scopes = txt "read" ∷ txt "write" ∷ [] }

  abbrev pub legacy : Principal
  legacy = record { id = txt "legacy-management-key"; scopes = txt "read" ∷ txt "write" ∷ [] }

  abbrev pub principal_of : ManagementConfig → ManagementKey → Principal
  principal_of m key = record { id = key.id; scopes = scopes_for_key m key }

  abbrev pub is_legacy : ManagementConfig → Text → Bool
  is_legacy m got = not (is_empty m.api_key) && got =t m.api_key

  abbrev pub found_or_legacy : ManagementConfig → Text → Option ManagementKey → Option Principal
  found_or_legacy m got (some key) = some (principal_of m key)
  found_or_legacy m got none = if is_legacy m got then some legacy else none

  abbrev pub bearer : Text
  bearer = txt "Bearer "

  abbrev pub token_of : Request → Text
  token_of r = trim_space (trim_prefix r.authorization bearer)

  unfoldable pub principal_from_request : ManagementConfig → ℕ → Request → Option Principal
  principal_from_request m now r =
      if not m.auth_required
      then some anonymous
      else if not (has_prefix r.authorization bearer)
      then none
      else found_or_legacy m (token_of r) (find_key now r (token_of r) m.keys)

abbrev pub scope_access_kind : Text → Text
scope_access_kind scope =
    if has_suffix scope (txt ":read")
    then txt "read"
    else if has_suffix scope (txt ":write")
    then txt "write"
    else []

-- Whether one scope of a principal, in the compared form, covers the wanted one.
unfoldable pub scope_covers : Text → Text → Bool
scope_covers scope current =
    current =t scope
    || current =t txt "*"
    || current =t txt "admin"
    || scope_access_kind scope =t current

unfoldable pub has_scope : Principal → Text → Bool
unfolding scope_covers
has_scope who scope =
    any (λ current. scope_covers (scope_form scope) (scope_form current)) who.scopes

-- What a guard answers: the principal, or the status and message of the response.
pub data Decision : Type 0 where
  granted : Principal → Decision
  refused : ℕ → Text → Decision

abbrev pub decide : Text → Option Principal → Decision
decide scope none = refused 401 (txt "unauthorized")
decide scope (some who) = if has_scope who scope then granted who else refused 403 (txt "forbidden")

unfoldable pub require_scope_principal :
    (p : Platform) → ManagementConfig → ℕ → Request → Text → Decision
require_scope_principal p m now r scope = decide scope (principal_from_request p m now r)
