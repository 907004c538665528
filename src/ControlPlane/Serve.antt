-- ===== src/ControlPlane/Serve.antt =====
-- The handlers of internal/controlplane/controlplane.go: one request to the management interface.
-- http.StatusText is an argument; the mux has taken the path apart from the rest of the URL.
use any_ns.Base.{
  ℕ, [], ◌∷◌, ◌++◌, Bool, true, false, not, Option, none, some, Text, txt, ◌=t◌, has_prefix,
  if◌then◌else◌,
}
use any_ns.Base.Dict.{Dict}
use any_ns.Base.Value.{Value, str, bool}
use any_ns.Plugins.Router.{flush_cache, cache_stats}
use any_ns.Access.{
  Platform, Principal, Request, Decision, granted, refused, require_scope_principal,
}
use any_ns.Config.{Config}
use any_ns.App.{App, Audit, append_management_audit}
use any_ns.ControlPlane.{Scope, scope_text}
use any_ns.ControlPlane.Handlers.{
  error, plugin_views, flushed, stats, boundary_view, keys_view, Response, respond, Runtime,
  proxy_to_runtime, plugin_views_of, prefix, parse_plugin_mutation, plugin_operation, set_plugin,
  boundary, management_keys,
}

-- One request to the interface: what the clock and the runtime say, the text of a status, and the
-- audit trail's part.
pub record Call : Type 0 where
  pub request : Request
  pub request_uri : Text
  pub now : ℕ
  pub runtime : Runtime
  pub status_text : ℕ → Text
  pub audit : Audit

abbrev pub method_not_allowed : Response
method_not_allowed = respond 405 (error (txt "method not allowed"))

abbrev pub not_found : Response
not_found = respond 404 (error (txt "not found"))

abbrev pub proxied_details : Scope → Dict Value → Dict Value
proxied_details scope more =
    more ++ (txt "proxied", bool true) ∷ (txt "scope", str (scope_text scope)) ∷ []

abbrev pub local_details : Scope → Dict Value → Dict Value
local_details scope more = more ++ (txt "scope", str (scope_text scope)) ∷ []

module _ {F : Type 0} (p : Platform) (cfg : Config F) (scope : Scope) (c : Call) where
  abbrev pub allowed : Text → Decision
  allowed wanted = require_scope_principal p cfg.management c.now c.request wanted

  abbrev pub proxied : Option Response
  proxied = proxy_to_runtime c.runtime c.request_uri cfg scope

  -- What a request that is let through reads, or what the runtime says in its place.
  abbrev pub or_relayed : Response → Option Response → Response
  or_relayed here none = here
  or_relayed here (some there) = there

  abbrev pub read_if : Decision → Response → Response
  read_if (refused status message) here = respond status (error message)
  read_if (granted who) here = here

  unfoldable pub get_plugins : App F → Response
  get_plugins app =
      if not (c.request.method =t txt "GET")
      then method_not_allowed
      else read_if (allowed (txt "plugins:read"))
          (or_relayed (respond 200 (plugin_views (plugin_views_of app))) proxied)

  unfoldable pub get_cache_stats : App F → Response
  get_cache_stats app =
      if not (c.request.method =t txt "GET")
      then method_not_allowed
      else read_if (allowed (txt "cache:read"))
          (or_relayed (respond 200 (stats (cache_stats c.now app.registry))) proxied)

  unfoldable pub get_boundary : Response
  get_boundary =
      if not (c.request.method =t txt "GET")
      then method_not_allowed
      else read_if (allowed (txt "management:read"))
          (respond 200 (boundary_view (boundary scope cfg)))

  unfoldable pub get_management_keys : Response
  get_management_keys =
      if not (c.request.method =t txt "GET")
      then method_not_allowed
      else read_if (allowed (txt "management:read"))
          (respond 200 (keys_view (management_keys p cfg c.now)))

  -- The line of the audit trail for what a principal did.
  abbrev pub audited : Text → Principal → Text → Dict Value → App F → App F
  audited operation who status details app =
      append_management_audit c.audit operation who.id c.request.method c.request.path status
        details app

  abbrev pub toggle_details : Text → Bool → Dict Value
  toggle_details name enabled = (txt "plugin", str name) ∷ (txt "enabled", bool enabled) ∷ []

  abbrev pub toggle_here : Principal → Text → Bool → App F × Response × Bool → App F × Response
  toggle_here who name enabled (app, response, false) = (app, response)
  toggle_here who name enabled (app, response, true) = (
    audited (plugin_operation enabled) who (txt "ok")
        (local_details scope (toggle_details name enabled)) app,
    response,
  )

  abbrev pub toggle_by : Principal → Text → Bool → Option Response → App F → App F × Response
  toggle_by who name enabled none app = toggle_here who name enabled (set_plugin app name enabled)
  toggle_by who name enabled (some there) app = (
    audited (plugin_operation enabled) who (c.status_text there.status)
        (proxied_details scope (toggle_details name enabled)) app,
    there,
  )

  abbrev pub toggle_if : Decision → Text → Bool → App F → App F × Response
  toggle_if (refused status message) name enabled app = (app, respond status (error message))
  toggle_if (granted who) name enabled app = toggle_by who name enabled proxied app

  abbrev pub toggle_parsed : Option (Text × Bool) → App F → App F × Response
  toggle_parsed none app = (app, not_found)
  toggle_parsed (some (name, enabled)) app =
      if not (c.request.method =t txt "POST")
      then (app, not_found)
      else toggle_if (allowed (txt "plugins:write")) name enabled app

  unfoldable pub post_plugin : App F → App F × Response
  post_plugin app = toggle_parsed (parse_plugin_mutation c.request.path) app

  abbrev pub flush_by : Principal → Option Response → App F → App F × Response
  flush_by who none app = (
    audited (txt "cache.flush") who (txt "ok") (local_details scope [])
        (record app { registry = flush_cache app.registry }),
    respond 200 flushed,
  )
  flush_by who (some there) app = (
    audited (txt "cache.flush") who (c.status_text there.status) (proxied_details scope []) app,
    there,
  )

  abbrev pub flush_if : Decision → App F → App F × Response
  flush_if (refused status message) app = (app, respond status (error message))
  flush_if (granted who) app = flush_by who proxied app

  unfoldable pub post_cache_flush : App F → App F × Response
  post_cache_flush app =
      if not (c.request.method =t txt "POST")
      then (app, method_not_allowed)
      else flush_if (allowed (txt "cache:write")) app

  -- The routes of `RegisterHandlers`; `none` is a path of another handler.
  unfoldable pub serve : App F → App F × Option Response
  unfolding get_plugins get_cache_stats get_boundary get_management_keys post_plugin
      post_cache_flush
  serve app =
      let path = c.request.path in
      let (toggled_app, toggle_response) = post_plugin app in
      let (flushed_app, flush_response) = post_cache_flush app in
      if path =t txt "/api/v1/plugins"
      then (app, some (get_plugins app))
      else if path =t txt "/api/v1/cache/flush"
      then (flushed_app, some flush_response)
      else if path =t txt "/api/v1/cache/stats"
      then (app, some (get_cache_stats app))
      else if path =t txt "/api/v1/control-plane/boundary"
      then (app, some get_boundary)
      else if path =t txt "/api/v1/management/keys"
      then (app, some get_management_keys)
      else if has_prefix path prefix
      then (toggled_app, some toggle_response)
      else (app, none)
