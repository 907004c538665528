-- ===== src/ControlPlane.antt =====
-- internal/controlplane/controlplane.go: what the management interface shows of its keys, and the
-- paths of its plugin controls.
pub mod Handlers
pub mod Serve
pub mod Keys
pub mod Successors
pub mod SameScopes
pub mod Mutations
pub mod Audit
pub mod Tests
use any_ns.Base.{
  ℕ, ◌+◌, ◌-◌, ◌*◌, ◌/◌, List, [], ◌∷◌, ◌++◌, Bool, true, false, not, ◌&&◌, ◌||◌, Option, none,
  some, map, filter, length, Text, txt, ◌=t◌, is_empty, to_lower, trim_space, trim_prefix,
  has_prefix, split, ltb, leb, ◌==◌, if◌then◌else◌, any,
}
use any_ns.Base.Members.{has_text}
use any_ns.Base.Dict.{Dict, lookup, insert}
use any_ns.Access.{
  Platform, ManagementConfig, ManagementKey, ManagementRole, scope_form, is_nil, or_read,
  scopes_for_key, parse_key_time, is_ahead, is_reached,
}
use any_ns.Config.{Config}

pub data Scope : Type 0 where
  scope_admin : Scope
  scope_runtime : Scope

abbrev pub scope_text : Scope → Text
scope_text scope_admin = txt "admin-api"
scope_text scope_runtime = txt "plugin-runtime"

pub record ManagementKeyView : Type 0 where
  pub id : Text
  pub scopes : List Text
  pub roles : List Text
  pub not_before : Text
  pub expires_at : Text
  pub revoked_at : Text
  pub expires_in_seconds : ℕ
  pub allowed_client_cidr_count : ℕ
  pub client_restriction_enabled : Bool
  pub status : Text
  pub rotation_due : Bool
  pub has_overlapping_successor : Bool
  pub lifecycle_action : Text

pub record ManagementRoleView : Type 0 where
  pub id : Text
  pub scopes : List Text

abbrev pub second : ℕ
second = 1000000000

-- Seven days.
abbrev pub management_rotation_warning : ℕ
management_rotation_warning = 7 * 24 * 3600 * second

-- `t, ok := …; ok && t.After(now)`
abbrev pub is_after : ℕ → Option ℕ → Bool
is_after now none = false
is_after now (some t) = ltb now t

-- `t, ok := …; ok && !t.After(end)`
abbrev pub ends_by : ℕ → Option ℕ → Bool
ends_by end none = false
ends_by end (some t) = leb t end

module _ (p : Platform) where
  unfoldable pub management_key_status : ManagementKey → ℕ → Text
  management_key_status key now =
      if is_reached now (parse_key_time p key.revoked_at)
      then txt "revoked"
      else if is_ahead now (parse_key_time p key.not_before)
      then txt "not_yet_active"
      else if is_reached now (parse_key_time p key.expires_at)
      then txt "expired"
      else txt "active"

-- `counts[k]`
abbrev pub count_of : Option ℕ → ℕ
count_of none = 0
count_of (some n) = n

-- `counts[…]++` for each scope.
unfoldable pub count_scopes : List Text → Dict ℕ → Dict ℕ
count_scopes [] counts = counts
count_scopes (scope ∷ scopes) counts =
    let s = scope_form scope in
    count_scopes scopes (insert s (count_of (lookup s counts) + 1) counts)

unfoldable pub match_scopes : List Text → Dict ℕ → Bool
match_scopes [] counts = true
match_scopes (scope ∷ scopes) counts =
    let s = scope_form scope in
    let n = count_of (lookup s counts) in
    let rest = match_scopes scopes (insert s (n - 1) counts) in if n == 0 then false else rest

unfoldable pub same_scopes : List Text → List Text → Bool
unfolding count_scopes match_scopes
same_scopes a b = if not (length a == length b) then false else match_scopes b (count_scopes a [])

module _ (p : Platform) (m : ManagementConfig) where
  -- One round of `hasOverlappingSuccessor`: whether the candidate counts, for a key that ends at
  -- `end`.
  unfoldable pub is_successor : ManagementKey → ℕ → ℕ → ManagementKey → Bool
  unfolding management_key_status same_scopes
  is_successor key end now candidate =
      if trim_space candidate.id =t trim_space key.id
        || not (same_scopes (scopes_for_key m key) (scopes_for_key m candidate))
      then false
      else if ends_by end (parse_key_time p candidate.expires_at)
      then false
      else if is_after end (parse_key_time p candidate.not_before)
      then false
      else if management_key_status p candidate now =t txt "expired"
      then false
      else true

  abbrev pub successor_of : ManagementKey → ℕ → Option ℕ → Bool
  successor_of key now none = false
  successor_of key now (some end) =
      if not (ltb now end) then false else any (is_successor key end now) m.keys

  unfoldable pub has_overlapping_successor : ManagementKey → ℕ → Bool
  unfolding is_successor
  has_overlapping_successor key now = successor_of key now (parse_key_time p key.expires_at)

abbrev pub nearing : ℕ → ℕ → Bool → Bool × Text
nearing end now has_successor =
    if leb end (now + management_rotation_warning)
    then if has_successor
      then (false, txt "successor_overlap_ready")
      else (true, txt "schedule_successor_before_expiry")
    else if has_successor
    then (false, txt "rotation_scheduled")
    else (false, txt "active")

abbrev pub by_end : Option ℕ → ℕ → Bool → Bool × Text
by_end none now has_successor = (true, txt "set_expiration_window")
by_end (some end) now has_successor = nearing end now has_successor

-- Whether a rotation is due, and the action.
unfoldable pub management_key_lifecycle : Text → Option ℕ → ℕ → Bool → Bool × Text
management_key_lifecycle status expires_at now has_successor =
    if status =t txt "revoked"
    then (true, txt "remove_revoked_key")
    else if status =t txt "expired"
    then (true, txt "remove_expired_key")
    else if status =t txt "not_yet_active"
    then (false, txt "pending_activation")
    else by_end expires_at now has_successor

abbrev pub seconds_left : ℕ → Option ℕ → ℕ
seconds_left now none = 0
seconds_left now (some end) = (end - now) / second

unfoldable pub kept_scopes : List Text → List Text
kept_scopes [] = []
kept_scopes (scope ∷ scopes) =
    let s = scope_form scope in
    let rest = kept_scopes scopes in if is_empty s then rest else s ∷ rest

unfoldable pub normalized_scopes : List Text → List Text
unfolding kept_scopes
normalized_scopes scopes = if is_nil scopes then txt "read" ∷ [] else or_read (kept_scopes scopes)

unfoldable pub collect_roles : List Text → List Text → List Text
collect_roles out [] = out
collect_roles out (role ∷ roles) =
    let r = trim_space role in
    collect_roles (if is_empty r || has_text r out then out else out ++ r ∷ []) roles

unfoldable pub normalized_roles : List Text → List Text
unfolding collect_roles
normalized_roles roles = collect_roles [] roles

module _ (p : Platform) (m : ManagementConfig) where
  unfoldable pub management_key_view : ManagementKey → ℕ → ManagementKeyView
  unfolding management_key_status has_overlapping_successor management_key_lifecycle
      normalized_roles
  management_key_view key now =
      let status = management_key_status p key now in
      let end = parse_key_time p key.expires_at in
      let successor = has_overlapping_successor p m key now in
      let (due, action) = management_key_lifecycle status end now successor in
      record {
        id = trim_space key.id;
        scopes = scopes_for_key m key;
        roles = normalized_roles key.roles;
        not_before = trim_space key.not_before;
        expires_at = trim_space key.expires_at;
        revoked_at = trim_space key.revoked_at;
        expires_in_seconds = seconds_left now end;
        allowed_client_cidr_count = length key.allowed_client_cidrs;
        client_restriction_enabled = not (is_nil key.allowed_client_cidrs);
        status = status;
        rotation_due = due;
        has_overlapping_successor = successor;
        lifecycle_action = action;
      }

unfoldable pub active_management_key_count : List ManagementKeyView → ℕ
active_management_key_count keys = length (filter (λ key. key.status =t txt "active") keys)
