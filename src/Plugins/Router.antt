-- ===== src/Plugins/Router.antt =====
-- internal/plugins/router.go: the registry of plugins, its routes and its cache. Times are
-- nanoseconds; the clock and the plugin's answer are arguments.
use any_ns.Base.{
  ℕ, ◌+◌, ◌*◌, List, [], ◌∷◌, map, Bool, true, false, ◌&&◌, ◌||◌, Option, none, some, Text, txt,
  ◌=t◌, text_lt, is_empty, to_lower, trim_space, join, any, all, length, filter, ltb, if◌then◌else◌,
}
use any_ns.Base.Int.{pos, is_pos, to_ℕ, int_lt}
use any_ns.Base.Result.{Result, ok, err}
use any_ns.Base.Dict.{Dict, lookup, insert, values}
use any_ns.Base.Sort.{sort}
use any_ns.Base.Value.{bool}
use any_ns.Plugins.{
  ResolveRequest, ResolveResult, Route, rcode_nx_domain, rcode_serv_fail, normalize_qname,
  normalize_qtype, match_suffix,
}

-- What the router sees of a plugin between calls of its `Resolve`.
pub record Plugin : Type 0 where
  pub name : Text
  pub enabled : Bool

pub record CacheEntry : Type 0 where
  pub result : ResolveResult
  pub expires_at : ℕ

pub record Registry : Type 0 where
  pub plugins : Dict Plugin
  pub routes : List Route
  pub cache : Dict (Dict CacheEntry)

abbrev pub goes_first : Route → Route → Bool
goes_first a b = int_lt b.priority a.priority

unfoldable pub add_plugins : List Plugin → Dict Plugin → Dict Plugin
add_plugins [] d = d
add_plugins (p ∷ ps) d = add_plugins ps (insert p.name p d)

unfoldable pub new_registry : List Route → List Plugin → Registry
new_registry routes plugs = record {
  plugins = add_plugins plugs [];
  routes = sort goes_first routes;
  cache = [];
}

-- `Plugins`
unfoldable pub plugins : Registry → List Plugin
plugins r = sort (λ a b. text_lt a.name b.name) (values r.plugins)

unfoldable pub normalize_route_value : Text → Text
normalize_route_value value = to_lower (trim_space value)

abbrev pub or_default : Text → Text
or_default value = if is_empty value then txt "default" else value

unfoldable pub contains_or_empty : List Text → Text → Bool
contains_or_empty [] value = true
contains_or_empty (v ∷ vs) value =
    any (λ x. normalize_route_value x =t or_default (normalize_route_value value)) (v ∷ vs)

-- Every required tag is among those provided.
unfoldable pub contains_all : List Text → List Text → Bool
contains_all required provided =
    all (λ x. any (λ y. normalize_route_value y =t normalize_route_value x) provided) required

unfoldable pub route_matches_name : Route → Text → Bool
route_matches_name route qname =
    any (λ domain. normalize_qname qname =t normalize_qname domain) route.domains
    || any (λ suffix. match_suffix (normalize_qname qname) suffix) route.suffixes

-- The tests of the loop of `match`.
unfoldable pub route_applies : ResolveRequest → Route → Bool
route_applies req route =
    contains_or_empty route.client_views req.context.client_view
    && contains_or_empty route.tenants req.context.tenant
    && contains_all route.policy_tags req.context.policy_tags
    && route_matches_name route req.qname

-- The first element that passes a test.
abbrev pub first_of {ℓ} : {A : Type ℓ} → (A → Bool) → List A → Option A
first_of p [] = none
first_of p (x ∷ xs) = let rest = first_of p xs in if p x then some x else rest

abbrev pub paired : Route → Option Plugin → Option (Route × Plugin)
paired route none = none
paired route (some p) = some (route, p)

abbrev pub with_plugin : Dict Plugin → Option Route → Option (Route × Plugin)
with_plugin plugs none = none
with_plugin plugs (some route) = paired route (lookup route.plugin plugs)

-- `match`: the first route that applies decides, also when its plugin is not there.
unfoldable pub match : ResolveRequest → Registry → Option (Route × Plugin)
match req r = with_plugin r.plugins (first_of (route_applies req) r.routes)

unfoldable pub cache_key : ResolveRequest → Text
cache_key req =
    join
      (normalize_qname req.qname
        ∷ normalize_qtype req.qtype
        ∷ normalize_route_value req.context.tenant
        ∷ normalize_route_value req.context.client_view
        ∷ join (sort text_lt (map normalize_route_value req.context.policy_tags)) (txt ",")
        ∷ [])
      (txt "|")

abbrev pub second : ℕ
second = 1000000000

abbrev pub or_empty : Option (Dict CacheEntry) → Dict CacheEntry
or_empty none = []
or_empty (some entries) = entries

abbrev pub entries_at : Text → Dict (Dict CacheEntry) → Dict CacheEntry
entries_at plugin cache = or_empty (lookup plugin cache)

abbrev pub unexpired : ℕ → Option CacheEntry → Option ResolveResult
unexpired now none = none
unexpired now (some entry) = if ltb entry.expires_at now then none else some entry.result

unfoldable pub get_cached : ℕ → Text → Text → Registry → Option ResolveResult
get_cached now plugin key r = unexpired now (lookup key (entries_at plugin r.cache))

unfoldable pub set_cached : ℕ → Text → Text → ResolveResult → Registry → Registry
set_cached now plugin key result r =
    if is_pos result.ttl
    then record r {
      cache =
          insert plugin
            (insert key (record { result = result; expires_at = now + to_ℕ result.ttl * second })
              (entries_at plugin r.cache))
            r.cache;
    }
    else r

-- The empty route that comes with `ErrNoRoute`.
abbrev pub no_route : Route
no_route = record {
  name = [];
  domains = [];
  suffixes = [];
  client_views = [];
  tenants = [];
  policy_tags = [];
  plugin = [];
  priority = pos 0;
  fallback = [];
}

-- A result without records.
abbrev pub failure : Text → Text → ℕ → ℕ → ResolveResult
failure rcode source ttl latency = record {
  rrset = [];
  rcode = rcode;
  ttl = pos ttl;
  source_plugin = source;
  confidence = [];
  security_tags = [];
  raw_record = [];
  audit_metadata = [];
  latency_ms = latency;
}

-- What `Resolve` returns.
pub record Resolved : Type 0 where
  pub result : ResolveResult
  pub route : Route
  pub error : Option Text

-- What one call meets: the clock when the cache is read and when it is written, the milliseconds
-- since the start at the return, and what the plugin would answer to the normalized request.
pub record Call : Type 0 where
  pub reads : ℕ
  pub writes : ℕ
  pub elapsed : ℕ
  pub answer : Text → ResolveRequest → Result ResolveResult

abbrev pub normalized : ResolveRequest → ResolveRequest
normalized req = record req { qname = normalize_qname req.qname; qtype = normalize_qtype req.qtype }

abbrev pub cache_hit : ℕ → ResolveResult → ResolveResult
cache_hit elapsed cached = record cached {
  audit_metadata = insert (txt "cache_hit") (bool true) cached.audit_metadata;
  latency_ms = elapsed;
}

unfoldable pub answered :
    Call → Route → Plugin → Text → Result ResolveResult → Registry → Registry × Resolved
answered c route p key (ok res) r =
    (set_cached c.writes p.name key res r, record { result = res; route = route; error = none })
answered c route p key (err e) r = (
  r,
  record { result = failure rcode_serv_fail p.name 5 c.elapsed; route = route; error = some e },
)

unfoldable pub ask :
    Call → ResolveRequest → Route → Plugin → Option ResolveResult → Registry → Registry × Resolved
ask c req route p (some cached) r =
    (r, record { result = cache_hit c.elapsed cached; route = route; error = none })
ask c req route p none r = answered c route p (cache_key req) (c.answer p.name req) r

unfoldable pub resolve_matched :
    Call → ResolveRequest → Option (Route × Plugin) → Registry → Registry × Resolved
resolve_matched c req none r = (
  r,
  record {
    result = failure rcode_nx_domain (txt "router") 30 c.elapsed;
    route = no_route;
    error = some (txt "no plugin route matched");
  },
)
resolve_matched c req (some (route, p)) r =
    if p.enabled then ask c req route p (get_cached c.reads p.name (cache_key req) r) r else (
      r,
      record {
        result = failure rcode_serv_fail p.name 5 c.elapsed;
        route = route;
        error = some (txt "plugin disabled");
      },
    )

-- `Resolve`
unfoldable pub resolve : Call → ResolveRequest → Registry → Registry × Resolved
resolve c request r = resolve_matched c (normalized request) (match (normalized request) r) r

abbrev pub enable_found : Bool → Text → Option Plugin → Registry → Registry × Bool
enable_found enabled name none r = (r, false)
enable_found enabled name (some p) r =
    (record r { plugins = insert name (record p { enabled = enabled }) r.plugins }, true)

unfoldable pub set_plugin_enabled : Text → Bool → Registry → Registry × Bool
set_plugin_enabled name enabled r = enable_found enabled name (lookup name r.plugins) r

unfoldable pub flush_cache : Registry → Registry
flush_cache r = record r { cache = [] }

abbrev pub live : ℕ → Dict CacheEntry → ℕ
live now entries = length (filter (λ entry. ltb now entry.expires_at) (values entries))

abbrev pub counted : Text → ℕ → Dict ℕ → Dict ℕ
counted plugin n out = if ltb 0 n then (plugin, n) ∷ out else out

-- A plugin without a live entry is not listed.
unfoldable pub stats_of : ℕ → Dict (Dict CacheEntry) → Dict ℕ
stats_of now [] = []
stats_of now ((plugin, entries) ∷ cache) = counted plugin (live now entries) (stats_of now cache)

unfoldable pub cache_stats : ℕ → Registry → Dict ℕ
cache_stats now r = stats_of now r.cache
