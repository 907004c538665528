-- ===== src/App.antt =====
-- internal/app/app.go: the parts of a running service, made from a configuration, and the audit
-- trail of the management interface.
pub mod Reload
pub mod Padding
pub mod Tests
use any_ns.Base.{
  ℕ, List, [], ◌∷◌, ◌++◌, Bool, true, false, Option, none, some, Text, txt, ◌=t◌, is_empty, map,
  if◌then◌else◌,
}
use any_ns.Base.Int.{ℤ, pos, is_pos}
use any_ns.Base.Dict.{Dict, lookup, insert}
use any_ns.Base.Value.{Value, str}
use any_ns.Base.Result.{Result, ok, err, ◌>>=◌}
use any_ns.DnsLog.{Event, Store, append, new_persistent_store}
use any_ns.DnsLog
use any_ns.Honeypot.{FailedQueue, new_failed_queue}
use any_ns.Honeypot
use any_ns.Honeypot.Client.{Client}
use any_ns.Plugins.Router.{Plugin, Registry, new_registry}
use any_ns.Plugins.Backends.{
  Backend, hns_name, made, no_backend, configure_backend, configure_hns_backend,
}
use any_ns.Security.{Floats}
use any_ns.Security.Counters.{Analyzer, new_analyzer_with_policy}
use any_ns.DnsName.{Idna}
use any_ns.Config.{Config, PluginConfig}

-- `backends` is what the plugins of the registry keep of their backends.
pub record App (F : Type 0) : Type 0 where
  pub registry : Registry
  pub backends : Dict Backend
  pub security : Analyzer F
  pub dns_log : Option Store
  pub honeypot : Client
  pub config : Config F

-- What the audit trail calls of the rest: the clock's reading as text, and whether the line is
-- written.
pub record Audit : Type 0 where
  pub now : ℕ
  pub stamp : Text
  pub io : Option Text

abbrev pub principal_or_unknown : Text → Text
principal_or_unknown id = if is_empty id then txt "unknown" else id

unfoldable pub audit_event : Audit → Text → Text → Text → Text → Text → Dict Value → Event
audit_event a operation principal_id method path status details = record {
  timestamp = a.now;
  trace_id = txt "management-" ++ a.stamp;
  client_ip = [];
  client_view = txt "management";
  tenant = txt "management";
  qname = path;
  qtype = method;
  rcode = status;
  answer = [];
  source_plugin = txt "management";
  risk_level = txt "low";
  action = txt "management_mutation";
  matched_rule = operation;
  raw_rr = insert (txt "status") (str status) (
      insert (txt "path") (str path) (
        insert (txt "method") (str method)
          (insert (txt "principal_id") (str (principal_or_unknown principal_id)) details)));
  latency_ms = pos 0;
}

abbrev pub appended : Event → Option Text → Option Store → Option Store
appended event io none = none
appended event io (some log) = some (append event io log)

-- Without a log nothing happens.
unfoldable pub append_management_audit :
    {F : Type 0} → Audit → Text → Text → Text → Text → Text → Dict Value → App F → App F
unfolding audit_event
append_management_audit a operation principal_id method path status details app = record app {
  dns_log =
      appended (audit_event a operation principal_id method path status details) a.io app.dns_log;
}

-- `configByName`: of two configurations of one name the later one counts.
unfoldable pub config_by_name : List PluginConfig → Dict PluginConfig → Dict PluginConfig
config_by_name [] found = found
config_by_name (c ∷ cs) found = config_by_name cs (insert c.name c found)

abbrev pub enabled_as : Plugin → Option PluginConfig → Plugin
enabled_as p none = p
enabled_as p (some c) = record p { enabled = c.enabled }

abbrev pub backend_as : Text → Option PluginConfig → Backend
backend_as name none = no_backend
backend_as name (some c) =
    if name =t hns_name
    then configure_hns_backend c.backend_url c.backend_api_key c.request_timeout no_backend
    else configure_backend c.backend_type c.backend_url c.backend_api_key c.request_timeout
        no_backend

-- The plugins, and their backends by name.
unfoldable pub build_plugins : List PluginConfig → List Plugin × Dict Backend
unfolding config_by_name
build_plugins cfgs =
    let found = config_by_name cfgs [] in
    (
      map (λ p. enabled_as p (lookup p.name found)) made,
      map (λ p. (p.name, backend_as p.name (lookup p.name found))) made,
    )

-- The files behind the failed queue and the log, and how opening and reading them ends.
pub record Files : Type 0 where
  pub queue_file : List Honeypot.Line
  pub queue_opened : Honeypot.Opened
  pub queue_scanner : Honeypot.DeliveryScanner
  pub log_file : List DnsLog.Line
  pub log_opened : DnsLog.Opened
  pub log_scanner : DnsLog.Scanner

abbrev pub client_of : {F : Type 0} → Config F → FailedQueue × Option Text → Result Client
client_of cfg (queue, some e) = err (txt "honeypot failed queue: " ++ e)
client_of cfg (queue, none) = ok (record {
  url = cfg.honeypot.url;
  api_key = cfg.honeypot.api_key;
  hmac_secret = cfg.honeypot.hmac_secret;
  queue = some queue;
  max_attempts = cfg.honeypot.max_attempts;
  retry_interval = cfg.honeypot.retry_interval;
  attempted = 0;
  delivered = 0;
  last_attempt_at = 0;
  last_error = [];
  last_latency = 0;
  retained = 0;
  dropped = 0;
})

-- The timeout of its HTTP client is left to the network.
unfoldable pub new_honeypot_client : {F : Type 0} → Files → Config F → Result Client
new_honeypot_client files cfg = client_of cfg (
    new_failed_queue cfg.honeypot.failed_queue_path cfg.honeypot.failed_queue_max_entries
      files.queue_file files.queue_opened files.queue_scanner)

abbrev pub log_of : Store × Option Text → Result Store
log_of (log, none) = ok log
log_of (log, some e) = err (txt "dnslog store: " ++ e)

unfoldable pub new_from_config :
    (fl : Floats) → Idna → Files → Config fl.Float → Result (App fl.Float)
unfolding new_honeypot_client build_plugins
new_from_config fl idna files cfg = do
  honeypot ← new_honeypot_client files cfg
  log ← log_of (
      new_persistent_store cfg.dns_log.limit cfg.dns_log.path files.log_file files.log_opened
        files.log_scanner)
  let (plugs, backends) = build_plugins cfg.plugins
  ok (record {
    registry = new_registry cfg.routes plugs;
    backends = backends;
    security = new_analyzer_with_policy fl idna cfg.security;
    dns_log = some log;
    honeypot = honeypot;
    config = cfg;
  })

abbrev pub refreshed : {F : Type 0} → App F → Result (App F) → App F × Option Text
refreshed app (err e) = (app, some e)
refreshed app (ok fresh) = (fresh, none)

-- The app and the error.
unfoldable pub reload_from_config :
    (fl : Floats) → Idna → Files → Config fl.Float → App fl.Float → App fl.Float × Option Text
unfolding new_from_config
reload_from_config fl idna files cfg app = refreshed app (new_from_config fl idna files cfg)
