-- ===== src/ControlPlane/Audit.antt =====
-- What the management interface changes, and what it leaves in the audit trail.
use any_ns.Base.{
  ℕ, Bool, true, false, not, Option, none, some, ◌≡◌, refl, sym, ap, ◌∙◌, ◌⊎◌, inl, inr, Text, txt,
  ◌=t◌, has_prefix, if◌then◌else◌, Bool-cases,
}
use any_ns.Base.Dict.{Dict, lookup, lookup-insert}
use any_ns.Base.Value.{Value, str}
use any_ns.DnsLog.{Event}
use any_ns.Plugins.Router.{Registry, flush_cache, set_plugin_enabled}
use any_ns.Access.{
  Platform, Principal, Decision, granted, refused, has_scope, principal_from_request, decide,
  require_scope_principal,
}
use any_ns.Config.{Config}
use any_ns.App.{App, appended, principal_or_unknown, append_management_audit, audit_event}
use any_ns.ControlPlane.{Scope}
use any_ns.ControlPlane.Handlers.{Response, prefix, parse_plugin_mutation, set_plugin, registry_set}
use any_ns.ControlPlane.Serve.{
  Call, post_plugin, post_cache_flush, get_plugins, get_cache_stats, get_boundary,
  get_management_keys, serve, allowed, proxied, toggle_parsed, toggle_by, toggle_here, flush_if,
  flush_by,
}

-- What a scope lets a principal do to the registry in this process: enable or disable a plugin, or
-- empty the cache, or nothing, when the runtime answers.
pub data Moves (r : Registry) : Text → Registry → Type 0 where
  toggles :
      (name : Text) (enabled : Bool) (r' : Registry)
      → (set_plugin_enabled name enabled r).0 ≡ r'
      → Moves r (txt "plugins:write") r'
  flushes : Moves r (txt "cache:write") (flush_cache r)
  relays :
      (wanted : Text)
      → (wanted ≡ txt "plugins:write") ⊎ (wanted ≡ txt "cache:write")
      → Moves r wanted r

module _ {F : Type 0} (p : Platform) (cfg : Config F) (scope : Scope) (c : Call) where
  -- What a request may do to the app: nothing, or the plugins and the cache change, or the request
  -- is sent on to the runtime, and in both cases a principal with the scope for it is behind the
  -- request, and the log gains one event, with that principal's id and the path.
  pub data Changes (app : App F) : App F → Type 0 where
    unchanged : Changes app app
    recorded :
        (who : Principal) (wanted : Text) (r : Registry) (event : Event)
        → principal_from_request p cfg.management c.now c.request ≡ some who
        → has_scope who wanted ≡ true
        → Moves app.registry wanted r
        → lookup (txt "principal_id") event.raw_rr ≡ some (str (principal_or_unknown who.id))
        → event.qname ≡ c.request.path
        → Changes app (record app { registry = r; dns_log = appended event c.audit.io app.dns_log })

  granted_by :
      (who : Principal) (wanted : Text)
      → require_scope_principal p cfg.management c.now c.request wanted ≡ granted who
      → ((principal_from_request p cfg.management c.now c.request ≡ some who)
          × (has_scope who wanted ≡ true))
  unfolding require_scope_principal
  granted_by who wanted = go (principal_from_request p cfg.management c.now c.request)
    where
      go :
          (o : Option Principal)
          → decide wanted o ≡ granted who
          → ((o ≡ some who) × (has_scope who wanted ≡ true))
      go none h = cc
      go (some w) h = elim (Bool-cases (has_scope w wanted)) [
        | inl covered ↦
            let k : granted w ≡ granted who = rw covered at h in
            let e : w ≡ who = cc in (ap some e, ap (λ x. has_scope x wanted) (sym e) ∙ covered)
        | inr bare ↦ let k : refused 403 (txt "forbidden") ≡ granted who = rw bare at h in cc
      ]

  Decision-cases :
      (d : Decision)
      → ((who : Principal) × (d ≡ granted who))
        ⊎ ((status : ℕ) × (message : Text) × (d ≡ refused status message))
  Decision-cases (granted who) = inl (who, refl)
  Decision-cases (refused status message) = inr (status, message, refl)

  -- The event names the principal.
  names_principal :
      (operation id method path status : Text) (details : Dict Value)
      → lookup
          (txt "principal_id")
          (audit_event c.audit operation id method path status details).raw_rr
        ≡ some (str (principal_or_unknown id))
  unfolding audit_event ◌=t◌
  names_principal operation id method path status details =
      lookup-insert (txt "status") (txt "principal_id") _ _
      ∙ lookup-insert (txt "path") (txt "principal_id") _ _
      ∙ lookup-insert (txt "method") (txt "principal_id") _ _
      ∙ lookup-insert (txt "principal_id") (txt "principal_id") _ _

  record_change :
      (app : App F) (who : Principal) (wanted : Text) (r : Registry) (operation status : Text)
      (details : Dict Value)
      → Moves app.registry wanted r
      → require_scope_principal p cfg.management c.now c.request wanted ≡ granted who
      → Changes app (
          append_management_audit c.audit operation who.id c.request.method c.request.path status
            details
            (record app { registry = r }))
  unfolding append_management_audit
  record_change app who wanted r operation status details w g =
      recorded who wanted r
        (audit_event c.audit operation who.id c.request.method c.request.path status details)
        (granted_by who wanted g).0 (granted_by who wanted g).1 w
        (names_principal operation who.id c.request.method c.request.path status details)
        (unfold audit_event in refl)

  flush_by-Changes :
      (app : App F) (who : Principal) (o : Option Response)
      → require_scope_principal p cfg.management c.now c.request (txt "cache:write") ≡ granted who
      → Changes app (flush_by p cfg scope c who o app).0
  flush_by-Changes app who none g = record_change app who _ _ _ _ _ flushes g
  flush_by-Changes app who (some there) g =
      record_change app who _ app.registry _ _ _ (relays _ (inr refl)) g

  flush_if-Changes :
      (app : App F)
      → Changes app (flush_if p cfg scope c (allowed p cfg scope c (txt "cache:write")) app).0
  flush_if-Changes app = elim (Decision-cases (allowed p cfg scope c (txt "cache:write"))) [
    | inl (who, g) ↦ simp g (flush_by-Changes app who (proxied p cfg scope c) g)
    | inr (status, message, g) ↦ simp g unchanged
  ]

  post_cache_flush-Changes : (app : App F) → Changes app (post_cache_flush p cfg scope c app).0
  unfolding post_cache_flush
  post_cache_flush-Changes app = elim (Bool-cases (not (c.request.method =t txt "POST"))) [
    | inl other_method ↦ simp other_method unchanged
    | inr post ↦ simp post (flush_if-Changes app)
  ]

  toggle_here-Changes :
      (app : App F) (who : Principal) (name verb_name : Text) (enabled : Bool)
      (found : Registry × Bool)
      → found ≡ set_plugin_enabled verb_name enabled app.registry
      → require_scope_principal p cfg.management c.now c.request (txt "plugins:write") ≡ granted who
      → Changes app
          (toggle_here p cfg scope c who name enabled (registry_set app verb_name enabled found)).0
  toggle_here-Changes app who name verb_name enabled (r, false) e g = unchanged
  toggle_here-Changes app who name verb_name enabled (r, true) e g =
      record_change app who _ r _ _ _
        (toggles verb_name enabled r (ap (λ (x : Registry × Bool). x.0) (sym e))) g

  toggle_by-Changes :
      (app : App F) (who : Principal) (name : Text) (enabled : Bool) (o : Option Response)
      → require_scope_principal p cfg.management c.now c.request (txt "plugins:write") ≡ granted who
      → Changes app (toggle_by p cfg scope c who name enabled o app).0
  unfolding set_plugin
  toggle_by-Changes app who name enabled none g =
      toggle_here-Changes app who name _ enabled _ refl g
  toggle_by-Changes app who name enabled (some there) g =
      record_change app who _ app.registry _ _ _ (relays _ (inl refl)) g

  toggle_parsed-Changes :
      (app : App F) (o : Option (Text × Bool)) → Changes app (toggle_parsed p cfg scope c o app).0
  toggle_parsed-Changes app none = unchanged
  toggle_parsed-Changes app (some (name, enabled)) =
      elim (Bool-cases (not (c.request.method =t txt "POST"))) [
        | inl other_method ↦ simp other_method unchanged
        | inr post ↦ elim (Decision-cases (allowed p cfg scope c (txt "plugins:write"))) [
          | inl (who, g) ↦
              simp (post, g) (toggle_by-Changes app who name enabled (proxied p cfg scope c) g)
          | inr (status, message, g) ↦ simp (post, g) unchanged
        ]
      ]

  post_plugin-Changes : (app : App F) → Changes app (post_plugin p cfg scope c app).0
  unfolding post_plugin
  post_plugin-Changes app = toggle_parsed-Changes app (parse_plugin_mutation c.request.path)

  record Leads (app : App F) (answer : App F × Option Response) : Type 0 where
    changes : Changes app answer.0

  leads : (app : App F) (answer : App F × Option Response) → Changes app answer.0 → Leads app answer
  leads app answer h = record { changes = h }

  -- One route of the mux.
  route :
      (app : App F) (b : Bool) (x y : App F × Option Response)
      → Changes app x.0
      → Leads app y
      → Leads app (if b then x else y)
  route app true x y hx hy = leads app x hx
  route app false x y hx hy = hy

  serve-Leads : (app : App F) → Leads app (serve p cfg scope c app)
  unfolding serve
  serve-Leads app =
      let at : Text → Bool = λ path. c.request.path =t path in
      route app (at (txt "/api/v1/plugins")) (app, some (get_plugins p cfg scope c app)) _ unchanged
        (route app (at (txt "/api/v1/cache/flush"))
          ((post_cache_flush p cfg scope c app).0, some (post_cache_flush p cfg scope c app).1) _
          (post_cache_flush-Changes app)
          (route app (at (txt "/api/v1/cache/stats"))
            (app, some (get_cache_stats p cfg scope c app)) _ unchanged
            (route app (at (txt "/api/v1/control-plane/boundary"))
              (app, some (get_boundary p cfg scope c)) _ unchanged
              (route app (at (txt "/api/v1/management/keys"))
                (app, some (get_management_keys p cfg scope c)) _ unchanged
                (route app (has_prefix c.request.path prefix)
                  ((post_plugin p cfg scope c app).0, some (post_plugin p cfg scope c app).1)
                  (app, none) (post_plugin-Changes app) (leads app (app, none) unchanged))))))

  -- Whatever a request to the management interface is, it leaves the app as it was, or a principal
  -- with the scope plugins:write or cache:write is behind it, the log gains one event that holds the
  -- principal's id and the request's path, and nothing else changes but the registry: a plugin may
  -- be enabled or disabled with the first scope, and the cache emptied with the second.
  pub serve-Changes : (app : App F) → Changes app (serve p cfg scope c app).0
  serve-Changes app = (serve-Leads app).changes
