-- ===== src/Plugins/Tests.antt =====
-- Runs of the model of internal/plugins at concrete inputs.
use any_ns.Base.{
  arith, ◌+◌, ◌*◌, ◌≡◌, refl, [], ◌∷◌, ◌++◌, true, Option, some, txt, ltb, if◌then◌else◌,
  trim_space, trim_left, trim_right_by, is_space, to_lower, lower, trim_suffix, trim_prefix,
  has_suffix, ◌=t◌,
}
use any_ns.Base.Int.{pos}
use any_ns.Base.Result.{ok, err}
use any_ns.Base.Dict.{lookup}
use any_ns.Plugins.{
  ResolveRequest, ResolveResult, Route, rcode_no_error, new_result, normalize_qname,
  normalize_qtype, match_suffix,
}
use any_ns.Plugins.Router.{
  Registry, Plugin, Call, new_registry, first_of, route_applies, contains_or_empty, contains_all,
  route_matches_name, normalize_route_value, match, with_plugin, resolve, normalized, cache_key,
  cache_hit, answered, get_cached, second,
}
use any_ns.Plugins.Routes.{default_routes, default_wave1_routes}
use any_ns.Plugins.Matching.{Matches, match-Matches}
use any_ns.Plugins.Caching.{returned, resolve_twice}
use any_ns.Plugins.Keys.{from, shared_answer}

abbrev pub request : ResolveRequest
request = record {
  qname = txt " Alice.ETH ";
  qtype = txt "a";
  context = record {
    trace_id = [];
    client_ip = [];
    client_view = [];
    tenant = txt "Default";
    transport = [];
    protocol = [];
    policy_tags = [];
  };
}

abbrev ens : Plugin
ens = record { name = txt "ens"; enabled = true }

abbrev pub ens_route : Route
ens_route = record {
  name = txt "ens-wave1";
  domains = [];
  suffixes = txt ".eth" ∷ [];
  client_views = txt "default" ∷ [];
  tenants = txt "default" ∷ [];
  policy_tags = [];
  plugin = txt "ens";
  priority = pos 90;
  fallback = txt "nxdomain";
}

abbrev one : Registry
one = record { plugins = (txt "ens", ens) ∷ []; routes = ens_route ∷ []; cache = [] }

abbrev found : ResolveResult
found = new_result (txt "ens") rcode_no_error (pos 60) [] (txt "2026-01-01T00:00:00Z") 3

abbrev first : Call
first = record { reads = 100; writes = 200; elapsed = 3; answer = λ name req. ok found }

abbrev later : Call
later = record { reads = 300; writes = 400; elapsed = 0; answer = λ name req. err (txt "down") }

one_applies : first_of (route_applies (normalized request)) one.routes ≡ some ens_route
unfolding route_applies contains_or_empty contains_all route_matches_name normalize_route_value
    match_suffix normalize_qname normalize_qtype trim_space trim_left trim_right_by is_space
    to_lower lower trim_suffix trim_prefix has_suffix ◌=t◌
one_applies = refl

one_matches : match (normalized request) one ≡ some (ens_route, ens)
unfolding match lookup route_applies contains_or_empty contains_all route_matches_name
    normalize_route_value match_suffix normalize_qname normalize_qtype trim_space trim_left
    trim_right_by is_space to_lower lower trim_suffix trim_prefix has_suffix ◌=t◌
one_matches = refl

resolve_twice_example :
    let r' = (resolve first request one).0 in
    let key = cache_key (normalized request) in
    ((resolve first request one).1 ≡ returned ens_route found)
    × (resolve later request r' ≡ (
        if ltb (200 + 60 * second) 300
        then answered later ens_route ens key (err (txt "down")) r'
        else (r', returned ens_route (cache_hit 0 found))))
unfolding new_result
resolve_twice_example =
    resolve_twice first later request one ens_route ens found one_matches refl
      (unfold get_cached in unfold lookup in refl) refl refl

match-Matches_example :
    let r = new_registry (default_routes ++ default_wave1_routes) (ens ∷ []) in
    (best : Option Route) × (match request r ≡ with_plugin r.plugins best)
    × Matches request (default_routes ++ default_wave1_routes) best
match-Matches_example = match-Matches request (default_routes ++ default_wave1_routes) (ens ∷ [])

-- A route for every tenant and view.
abbrev open_route : Route
open_route = record ens_route { client_views = []; tenants = [] }

abbrev open_registry : Registry
open_registry = record one { routes = open_route ∷ [] }

abbrev shared : ResolveRequest
shared = from (txt "x") (txt "y|z") request

abbrev sharing : ResolveRequest
sharing = from (txt "x|y") (txt "z") request

shared_matches : match (normalized shared) open_registry ≡ some (open_route, ens)
unfolding match lookup route_applies contains_or_empty contains_all route_matches_name
    normalize_route_value match_suffix normalize_qname normalize_qtype trim_space trim_left
    trim_right_by is_space to_lower lower trim_suffix trim_prefix has_suffix ◌=t◌
shared_matches = refl

sharing_matches : match (normalized sharing) open_registry ≡ some (open_route, ens)
unfolding match lookup route_applies contains_or_empty contains_all route_matches_name
    normalize_route_value match_suffix normalize_qname normalize_qtype trim_space trim_left
    trim_right_by is_space to_lower lower trim_suffix trim_prefix has_suffix ◌=t◌
sharing_matches = refl

abbrev soon : Call
soon = record later { reads = 220 }

shared_answer_example :
    let r' = (resolve first shared open_registry).0 in
    resolve soon sharing r' ≡ (r', returned open_route (cache_hit 0 found))
unfolding new_result is_space lower
shared_answer_example =
    shared_answer (txt "x") (txt "y") (txt "z") request first soon open_registry open_route
      open_route ens found ((refl, refl), tt) ((refl, refl), tt) ((refl, refl), tt) shared_matches
      sharing_matches refl (unfold get_cached in unfold lookup in refl) refl refl (omega arith)
