-- ===== src/Plugins/Caching.antt =====
-- What the cache of internal/plugins/router.go answers.
use any_ns.Base.{
  ℕ, ◌+◌, ◌*◌, ◌≡◌, refl, ap, ◌∙◌, Bool, true, false, none, some, Text, txt, =t_iff, ltb,
  if◌then◌else◌, Bool-cases, inl, inr,
}
use any_ns.Base.Int.{is_pos, to_ℕ}
use any_ns.Base.Result.{ok}
use any_ns.Base.Dict.{lookup, insert, lookup-insert}
use any_ns.Plugins.{ResolveRequest, ResolveResult, Route, rcode_serv_fail}
use any_ns.Plugins.Router.{
  Registry, Plugin, CacheEntry, Call, Resolved, second, or_empty, entries_at, unexpired, get_cached,
  set_cached, cache_key, cache_hit, normalized, failure, match, first_of, route_applies,
  with_plugin, paired, enable_found, answered, ask, resolve_matched, resolve, set_plugin_enabled,
}

abbrev stored_entry : ℕ → ResolveResult → CacheEntry
stored_entry now result = record { result = result; expires_at = now + to_ℕ result.ttl * second }

-- What was stored is found under its plugin and key.
pub get_cached-set_cached :
    (now w : ℕ) (plugin key : Text) (result : ResolveResult) (r : Registry)
    → is_pos result.ttl ≡ true
    → get_cached now plugin key (set_cached w plugin key result r)
      ≡ unexpired now (some (stored_entry w result))
unfolding get_cached set_cached
get_cached-set_cached now w plugin key result r h = simp h (
    ap (λ d. unexpired now (lookup key (or_empty d)))
      {y = some (insert key (stored_entry w result) (entries_at plugin r.cache))}
      (lookup-insert plugin plugin _ r.cache ∙ rw ((=t_iff plugin plugin).1 refl))
    ∙ ap (unexpired now) {y = some (stored_entry w result)}
        (lookup-insert key key _ (entries_at plugin r.cache) ∙ rw ((=t_iff key key).1 refl)))

pub match-set_cached :
    (req : ResolveRequest) (w : ℕ) (plugin key : Text) (result : ResolveResult) (r : Registry)
    → match req (set_cached w plugin key result r) ≡ match req r
unfolding match set_cached
match-set_cached req w plugin key result r = elim (Bool-cases (is_pos result.ttl)) [
  | inl e ↦ simp e refl
  | inr e ↦ simp e refl
]

-- A plugin's result as it is returned.
abbrev pub returned : Route → ResolveResult → Resolved
returned route res = record { result = res; route = route; error = none }

pub resolve_missed :
    (c : Call) (req : ResolveRequest) (r : Registry) (route : Route) (p : Plugin)
    → match (normalized req) r ≡ some (route, p)
    → p.enabled ≡ true
    → get_cached c.reads p.name (cache_key (normalized req)) r ≡ none
    → resolve c req r
      ≡ answered c route p (cache_key (normalized req)) (c.answer p.name (normalized req)) r
unfolding resolve resolve_matched ask
resolve_missed c req r route p m e g =
    ap (λ x. resolve_matched c (normalized req) x r) m
    ∙ unfold resolve_matched in simp e (ap (λ x. ask c (normalized req) route p x r) g)

pub resolve_hit :
    (c : Call) (req : ResolveRequest) (r : Registry) (route : Route) (p : Plugin)
    (res : ResolveResult)
    → match (normalized req) r ≡ some (route, p)
    → p.enabled ≡ true
    → get_cached c.reads p.name (cache_key (normalized req)) r ≡ some res
    → resolve c req r ≡ (r, returned route (cache_hit c.elapsed res))
unfolding resolve resolve_matched ask
resolve_hit c req r route p res m e g =
    ap (λ x. resolve_matched c (normalized req) x r) m
    ∙ unfold resolve_matched in simp e (ap (λ x. ask c (normalized req) route p x r) g)

-- An answer is cached for exactly its time to live. Let a request be routed to an enabled plugin
-- for which nothing is cached, and let the plugin answer with a positive TTL: that result is
-- returned, and when the request comes again, up to the TTL in seconds after the result was stored
-- it is answered by that result marked as a cache hit, whatever the plugin would say now, and the
-- registry stays as it is; later than that it is the plugin's new answer or error that is
-- returned.
pub resolve_twice :
    (c c' : Call) (req : ResolveRequest) (r : Registry) (route : Route) (p : Plugin)
    (res : ResolveResult)
    → match (normalized req) r ≡ some (route, p)
    → p.enabled ≡ true
    → get_cached c.reads p.name (cache_key (normalized req)) r ≡ none
    → c.answer p.name (normalized req) ≡ ok res
    → is_pos res.ttl ≡ true
    → let r' = (resolve c req r).0 in
      let key = cache_key (normalized req) in
      ((resolve c req r).1 ≡ returned route res)
      × (resolve c' req r' ≡ (
          if ltb (c.writes + to_ℕ res.ttl * second) c'.reads
          then answered c' route p key (c'.answer p.name (normalized req)) r'
          else (r', returned route (cache_hit c'.elapsed res))))
unfolding answered
resolve_twice c c' req r route p res m e g a h =
    let key = cache_key (normalized req) in
    let stored = set_cached c.writes p.name key res r in
    let first : resolve c req r ≡ (stored, returned route res) =
      resolve_missed c req r route p m e g ∙ ap (λ x. answered c route p key x r) a in
    let again = get_cached-set_cached c'.reads c.writes p.name key res r h in
    let m' = match-set_cached (normalized req) c.writes p.name key res r ∙ m in
    (
      ap (λ x. x.1) first,
      simp (ap (λ x. x.0) first)
          (elim (Bool-cases (ltb (c.writes + to_ℕ res.ttl * second) c'.reads)) [
            | inl late ↦ rw late (resolve_missed c' req stored route p m' e (again ∙ rw late))
            | inr soon ↦ rw soon (resolve_hit c' req stored route p res m' e (again ∙ rw soon))
          ]),
    )

match_enabled :
    (enabled : Bool) (req : ResolveRequest) (r : Registry) (route : Route) (p : Plugin)
    → first_of (route_applies req) r.routes ≡ some route
    → lookup route.plugin r.plugins ≡ some p
    → match req (set_plugin_enabled route.plugin enabled r).0
      ≡ some (route, record p { enabled = enabled })
unfolding match set_plugin_enabled
match_enabled enabled req r route p f l =
    let d = insert route.plugin (record p { enabled = enabled }) r.plugins in
    ap (λ o. match req (enable_found enabled route.plugin o r).0) l
    ∙ ap (with_plugin d) f
    ∙ ap (paired route) {y = some (record p { enabled = enabled })} (
        lookup-insert route.plugin route.plugin (record p { enabled = enabled }) r.plugins
        ∙ rw ((=t_iff route.plugin route.plugin).1 refl))

-- A plugin that was switched off is not asked, and what was cached of it is not used: when the
-- first route that applies to a request names a registered plugin and that plugin is disabled, the
-- request ends in SERVFAIL with a TTL of 5 and the error of a disabled plugin, whatever the cache
-- holds, and the registry stays as it is.
pub resolve_disabled :
    (c : Call) (req : ResolveRequest) (r : Registry) (route : Route) (p : Plugin)
    → first_of (route_applies (normalized req)) r.routes ≡ some route
    → lookup route.plugin r.plugins ≡ some p
    → let r' = (set_plugin_enabled route.plugin false r).0 in
      resolve c req r' ≡ (
        r',
        record {
          result = failure rcode_serv_fail p.name 5 c.elapsed;
          route = route;
          error = some (txt "plugin disabled");
        },
      )
unfolding resolve
resolve_disabled c req r route p f l =
    ap (λ x. resolve_matched c (normalized req) x (set_plugin_enabled route.plugin false r).0)
      (match_enabled false (normalized req) r route p f l)
    ∙ unfold resolve_matched in refl
