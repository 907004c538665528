-- ===== src/ControlPlane/Handlers.antt =====
-- What the handlers of internal/controlplane/controlplane.go show and change. The runtime behind a
-- proxy is an argument.
use any_ns.Base.{
  ℕ, List, [], ◌∷◌, ◌++◌, Bool, true, false, not, ◌&&◌, ◌||◌, Option, none, some, map, Text, txt,
  ◌=t◌, length, is_empty, trim_space, trim_prefix, trim_right, has_prefix, split, if◌then◌else◌,
}
use any_ns.Base.Dict.{Dict}
use any_ns.Plugins.Router.{Plugin, Registry, plugins, set_plugin_enabled}
use any_ns.Plugins.Backends.{Backend, health, suffixes_of}
use any_ns.Access.{Platform}
use any_ns.Config.{Config}
use any_ns.App.{App}
use any_ns.ControlPlane.{
  Scope, scope_admin, scope_runtime, scope_text, ManagementKeyView, ManagementRoleView,
  management_key_view, normalized_scopes, active_management_key_count,
}

pub record PluginView : Type 0 where
  pub name : Text
  pub enabled : Bool
  pub suffixes : List Text
  pub healthy : Bool
  pub last_error : Text

pub record BoundaryView : Type 0 where
  pub scope : Text
  pub mode : Text
  pub note : Text
  pub config_file : Text
  pub runtime_addr : Text
  pub admin_addr : Text
  pub runtime_control_url : Text
  pub live_controls : List Text

pub record KeysView : Type 0 where
  pub auth_required : Bool
  pub legacy_key_configured : Bool
  pub configured_role_count : ℕ
  pub configured_key_count : ℕ
  pub active_key_count : ℕ
  pub rotation_warning_hours : ℕ
  pub roles : List ManagementRoleView
  pub keys : List ManagementKeyView
  pub token_material_exposed : Bool

pub data Body : Type 0 where
  error : Text → Body
  plugin_views : List PluginView → Body
  toggled : Text → Bool → Body
  flushed : Body
  stats : Dict ℕ → Body
  boundary_view : BoundaryView → Body
  keys_view : KeysView → Body
  relayed : Text → Body

pub record Response : Type 0 where
  pub status : ℕ
  pub body : Body

abbrev pub respond : ℕ → Body → Response
respond status body = record { status = status; body = body }

-- What sending a request on to the runtime comes to.
pub data Relay : Type 0 where
  failed : Text → Relay
  answered : ℕ → Text → Relay

-- The runtime by the URL of the request that it gets.
abbrev pub Runtime : Type 0
Runtime = Text → Relay

abbrev pub relay_response : Relay → Response
relay_response (failed e) = respond 502 (error e)
relay_response (answered status body) = respond status (relayed body)

abbrev pub is_admin : Scope → Bool
is_admin scope_admin = true
is_admin scope_runtime = false

-- `none`: the request is not sent on. `request_uri` is `r.URL.RequestURI()`.
unfoldable pub proxy_to_runtime : {F : Type 0} → Runtime → Text → Config F → Scope → Option Response
proxy_to_runtime runtime request_uri cfg scope =
    if not (is_admin scope)
      || not cfg.control_plane.admin_proxy_runtime
      || is_empty cfg.control_plane.runtime_control_url
    then none
    else some (
        relay_response
          (runtime (trim_right cfg.control_plane.runtime_control_url b'/' ++ request_uri)))

abbrev pub error_or_empty : Option Text → Text
error_or_empty none = []
error_or_empty (some e) = e

abbrev pub is_none {ℓ} : {A : Type ℓ} → Option A → Bool
is_none none = true
is_none (some a) = false

unfoldable pub plugin_view : Dict Backend → Plugin → PluginView
plugin_view backends p = record {
  name = p.name;
  enabled = p.enabled;
  suffixes = suffixes_of p;
  healthy = is_none (health p backends);
  last_error = error_or_empty (health p backends);
}

unfoldable pub plugin_views_of : {F : Type 0} → App F → List PluginView
unfolding plugin_view
plugin_views_of app = map (plugin_view app.backends) (plugins app.registry)

abbrev pub prefix : Text
prefix = txt "/api/v1/plugins/"

abbrev pub two_parts : List Text → Option (Text × Bool)
two_parts (name ∷ verb ∷ []) =
    if is_empty name
    then none
    else if verb =t txt "enable"
    then some (name, true)
    else if verb =t txt "disable"
    then some (name, false)
    else none
two_parts _ = none

-- The plugin, and whether it is to be enabled.
unfoldable pub parse_plugin_mutation : Text → Option (Text × Bool)
parse_plugin_mutation path =
    if not (has_prefix path prefix) then none else two_parts (split (trim_prefix path prefix) b'/')

abbrev pub plugin_operation : Bool → Text
plugin_operation enabled = if enabled then txt "plugin.enable" else txt "plugin.disable"

abbrev pub registry_set :
    {F : Type 0} → App F → Text → Bool → Registry × Bool → App F × Response × Bool
registry_set app name enabled (r, false) =
    (app, respond 404 (error (txt "plugin not found")), false)
registry_set app name enabled (r, true) =
    (record app { registry = r }, respond 200 (toggled name enabled), true)

-- The app, the response, and whether the plugin was found.
unfoldable pub set_plugin : {F : Type 0} → App F → Text → Bool → App F × Response × Bool
set_plugin app raw enabled =
    let name = trim_space raw in
    registry_set app name enabled (set_plugin_enabled name enabled app.registry)

abbrev pub live_controls : List Text
live_controls =
    txt "GET /api/v1/plugins"
    ∷ txt "POST /api/v1/plugins/{name}/enable"
    ∷ txt "POST /api/v1/plugins/{name}/disable"
    ∷ txt "POST /api/v1/cache/flush"
    ∷ txt "GET /api/v1/cache/stats"
    ∷ []

abbrev pub bounded_as : {F : Type 0} → Config F → Scope → Text → Text → List Text → BoundaryView
bounded_as cfg scope mode note controls = record {
  scope = scope_text scope;
  mode = mode;
  note = note;
  config_file = cfg.config_file;
  runtime_addr = cfg.runtime_addr;
  admin_addr = cfg.admin_addr;
  runtime_control_url = cfg.control_plane.runtime_control_url;
  live_controls = controls;
}

unfoldable pub boundary : {F : Type 0} → Scope → Config F → BoundaryView
boundary scope cfg =
    if not (is_admin scope)
    then bounded_as cfg scope (txt "runtime-local-control-plane")
        (txt
          "plugin-runtime control endpoints mutate live data-plane plugin and cache state in this process")
        live_controls
    else if cfg.control_plane.admin_proxy_runtime
        && not (is_empty cfg.control_plane.runtime_control_url)
    then bounded_as cfg scope (txt "admin-runtime-proxy")
        (txt "admin-api proxies live plugin and cache controls to plugin-runtime") live_controls
    else bounded_as cfg scope (txt "process-local")
        (txt
          "admin-api and plugin-runtime load the same config file but do not share live mutable state")
        []

unfoldable pub management_keys : {F : Type 0} → Platform → Config F → ℕ → KeysView
management_keys p cfg now =
    let m = cfg.management in
    let views = map (λ key. management_key_view p m key now) m.keys in
    record {
      auth_required = m.auth_required;
      legacy_key_configured = not (is_empty (trim_space m.api_key));
      configured_role_count = length m.roles;
      configured_key_count = length views;
      active_key_count = active_management_key_count views;
      rotation_warning_hours = 168;
      roles =
          map (λ role. record { id = trim_space role.id; scopes = normalized_scopes role.scopes })
            m.roles;
      keys = views;
      token_material_exposed = false;
    }
