-- ===== src/ControlPlane/Tests.antt =====
-- Runs of the model of internal/controlplane at concrete inputs.
use any_ns.Base.{
  ℕ, ◌<◌, ◌≤◌, List, [], ◌∷◌, ◌++◌, Bool, true, false, Option, none, some, ◌≡◌, ◌≢◌, refl, ◌↔◌,
  Text, txt, ◌=t◌, is_empty, trim_space, trim_left, trim_right_by, is_space, to_lower, lower,
  if◌then◌else◌, inl, inr, Has, arith,
}
use any_ns.Base.Dict.{lookup, insert}
use any_ns.Access.{
  ManagementConfig, ManagementKey, parse_key_time, management_key_active, scopes_for_key,
  normalized_management_scopes, collect_scopes, add_scope, role_scopes, scopes_of_roles,
}
use any_ns.Access.Tests.{platform, reader, config, request}
use any_ns.Security.Tests.{thousandths, plain}
use any_ns.Config.{Config}
use any_ns.Config.Defaults.{defaults}
use any_ns.App.{App}
use any_ns.Plugins.Router.{new_registry}
use any_ns.DnsLog.{new_store}
use any_ns.Security.Counters.{new_analyzer_with_policy}
use any_ns.Security.{default_policy}
use any_ns.Honeypot.Client.{Client}
use any_ns.ControlPlane.{
  scope_runtime, has_overlapping_successor, same_scopes, match_scopes, count_scopes,
}
use any_ns.ControlPlane.Successors.{revoked_successor_counts}
use any_ns.ControlPlane.SameScopes.{SameItems, same_scopes_iff}
use any_ns.ControlPlane.Handlers.{failed, parse_plugin_mutation}
use any_ns.Base.Splits.{IsFree}
use any_ns.ControlPlane.Mutations.{control_path, parse_plugin_mutation_iff}
use any_ns.ControlPlane.Serve.{Call, serve}
use any_ns.ControlPlane.Audit.{Changes, serve-Changes}

-- A key without limits that was revoked at 100.
abbrev spent : ManagementKey
spent = record reader {
  id = txt "next";
  not_before = [];
  expires_at = [];
  revoked_at = txt "early";
}

abbrev keys : ManagementConfig
keys = record config { keys = reader ∷ spent ∷ [] }

scopes_agree : same_scopes (scopes_for_key keys reader) (scopes_for_key keys spent) ≡ true
unfolding same_scopes count_scopes match_scopes scopes_for_key normalized_management_scopes
    collect_scopes add_scope role_scopes scopes_of_roles lookup insert ◌=t◌ trim_space trim_left
    trim_right_by is_space to_lower lower
scopes_agree = refl

revoked_successor_counts_example :
    (has_overlapping_successor platform keys reader 500 ≡ true)
    × ((later : ℕ) → 500 ≤ later → management_key_active platform spent later ≡ false)
unfolding parse_key_time ◌=t◌ trim_space trim_left trim_right_by is_space
revoked_successor_counts_example =
    revoked_successor_counts platform keys reader spent 500 900 refl (omega arith) (inr (inl refl))
      (λ e. absurd (ground (arith, e))) scopes_agree refl refl refl

same_scopes_iff_example :
    (same_scopes (txt "a" ∷ txt "b" ∷ []) (txt " B" ∷ txt "a" ∷ []) ≡ true)
    ↔ SameItems (txt "a" ∷ txt "b" ∷ []) (txt " B" ∷ txt "a" ∷ [])
same_scopes_iff_example = same_scopes_iff (txt "a" ∷ txt "b" ∷ []) (txt " B" ∷ txt "a" ∷ [])

parse_plugin_mutation_iff_example :
    (parse_plugin_mutation (txt "/api/v1/plugins/ens/enable") ≡ some (txt "ens", true)) ↔ (
      (is_empty (txt "ens") ≡ false)
      × IsFree b'/' (txt "ens")
      × (txt "/api/v1/plugins/ens/enable" ≡ control_path (txt "ens") true))
parse_plugin_mutation_iff_example =
    parse_plugin_mutation_iff (txt "/api/v1/plugins/ens/enable") (txt "ens") true

abbrev pub settings : Config ℕ
settings = record (defaults (λ key. []) thousandths) { management = config }

abbrev pub client : Client
client = record {
  url = [];
  api_key = [];
  hmac_secret = [];
  queue = none;
  max_attempts = any_ns.Base.Int.pos 5;
  retry_interval = any_ns.Base.Int.pos 30;
  attempted = 0;
  delivered = 0;
  last_attempt_at = 0;
  last_error = [];
  last_latency = 0;
  retained = 0;
  dropped = 0;
}

abbrev pub app : App ℕ
app = record {
  registry = new_registry [] [];
  backends = [];
  security = new_analyzer_with_policy thousandths plain (default_policy thousandths);
  dns_log = some (new_store (any_ns.Base.Int.pos 10) []);
  honeypot = client;
  config = settings;
}

abbrev call : Call
call = record {
  request = record request { method = txt "POST"; path = txt "/api/v1/cache/flush" };
  request_uri = txt "/api/v1/cache/flush";
  now = 500;
  runtime = λ url. failed (txt "refused");
  status_text = λ status. txt "Bad Gateway";
  audit = record { now = 500; stamp = txt "x"; io = none };
}

serve-Changes_example :
    Changes platform settings scope_runtime call app
      (serve platform settings scope_runtime call app).0
serve-Changes_example = serve-Changes platform settings scope_runtime call app
