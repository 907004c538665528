-- ===== src/App/Tests.antt =====
-- Runs of the model of internal/app at concrete inputs.
use any_ns.Base.{
  [], ◌∷◌, ◌≡◌, refl, none, some, txt, trim_space, trim_left, trim_right_by, is_space, to_lower,
  lower, trim_suffix, trim_prefix, has_suffix, ◌=t◌, arith,
}
use any_ns.Base.Sort.{sort, insert_sorted}
use any_ns.Plugins.{Route, normalize_qname, normalize_qtype, match_suffix}
use any_ns.Plugins.Router.{
  match, new_registry, route_applies, contains_or_empty, contains_all, route_matches_name,
  normalize_route_value, normalized, first_of,
}
use any_ns.Plugins.Tests.{request, ens_route}
use any_ns.App.Padding.{padded_route_dead}
use any_ns.DnsLog
use any_ns.Honeypot
use any_ns.App.{Files, build_plugins}

abbrev files : Files
files = record {
  queue_file = [];
  queue_opened = Honeypot.missing;
  queue_scanner = record { line_length = λ d. 0; read_err = none };
  log_file = [];
  log_opened = DnsLog.failed (txt "denied");
  log_scanner = record { line_length = λ e. 0; read_err = none };
}

abbrev padded : Route
padded = record ens_route { plugin = txt " ens" }

padded_applies :
    first_of
      (route_applies (normalized request))
      (new_registry (padded ∷ []) (build_plugins []).0).routes
    ≡ some padded
unfolding new_registry sort insert_sorted route_applies contains_or_empty contains_all
    route_matches_name normalize_route_value match_suffix normalize_qname normalize_qtype trim_space
    trim_left trim_right_by is_space to_lower lower trim_suffix trim_prefix has_suffix ◌=t◌
padded_applies = refl

padded_differs : trim_space (txt " ens") ≡ txt " ens" → ⊥
unfolding trim_space trim_left trim_right_by is_space
padded_differs e = ground (arith, e)

padded_route_dead_example :
    match (normalized request) (new_registry (padded ∷ []) (build_plugins []).0) ≡ none
padded_route_dead_example =
    padded_route_dead [] (padded ∷ []) (normalized request) padded padded_differs padded_applies
