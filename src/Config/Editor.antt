-- ===== src/Config/Editor.antt =====
-- internal/config/editor.go: the part of a configuration that the admin UI shows and edits. Whether
-- a file can be opened for writing is an argument. A duration that is shown in seconds is below
-- 2 ^ 53 nanoseconds, where Go's division in floating-point numbers agrees with the one here.
use any_ns.Base.{
  List, [], ◌∷◌, map, Bool, false, not, ◌&&◌, ◌||◌, Text, ◌=t◌, is_empty, if◌then◌else◌,
}
use any_ns.Base.Int.{ℤ, pos, is_pos}
use any_ns.DnsName.{Idna}
use any_ns.Plugins.{Route}
use any_ns.Security.{Policy, Floats}
use any_ns.Security.Domains.{normalize_dns_log_platform_domains}
use any_ns.Security.Counters.{with_defaults, or_list}
use any_ns.Config.{
  Config, PluginConfig, DnsLogConfig, HoneypotConfig, ControlPlaneConfig, PowerDnsConfig,
  CertificatesConfig,
}
use any_ns.Config.Defaults.{seconds, whole_seconds}

pub record EditablePlugin : Type 0 where
  pub name : Text
  pub enabled : Bool
  pub backend_type : Text
  pub backend_url : Text
  pub request_timeout_seconds : ℤ
  pub secret_configured : Bool

pub record EditableHoneypot : Type 0 where
  pub url : Text
  pub failed_queue_path : Text
  pub failed_queue_max_entries : ℤ
  pub retry_interval_seconds : ℤ
  pub max_attempts : ℤ
  pub request_timeout_seconds : ℤ
  pub api_key_configured : Bool
  pub hmac_secret_configured : Bool

pub record EditablePowerDns : Type 0 where
  pub authoritative_url : Text
  pub recursor_url : Text
  pub server_id : Text
  pub request_timeout_seconds : ℤ
  pub authoritative_key_configured : Bool
  pub recursor_key_configured : Bool

pub record EditableCertificates : Type 0 where
  pub enabled : Bool
  pub issuer_mode : Text
  pub directory_url : Text
  pub account_email : Text
  pub accept_tos : Bool
  pub storage_dir : Text
  pub request_timeout_seconds : ℤ
  pub dns_propagation_timeout_seconds : ℤ
  pub dns_poll_interval_seconds : ℤ
  pub max_attempts : ℤ
  pub renew_before_days : ℤ
  pub crl_distribution_url : Text

pub record EditableConfig (F : Type 0) : Type 0 where
  pub request_timeout_seconds : ℤ
  pub routes : List Route
  pub plugins : List EditablePlugin
  pub security : Policy F
  pub dns_log : DnsLogConfig
  pub honeypot : EditableHoneypot
  pub control_plane : ControlPlaneConfig
  pub power_dns : EditablePowerDns
  pub certificates : EditableCertificates
  pub config_file : Text
  pub writable : Bool

-- Whether a secret is there, itself or by its file.
abbrev pub has_secret : Text → Text → Bool
has_secret secret file = not (is_empty secret) || not (is_empty file)

abbrev shown_timeout : ℤ → ℤ → ℤ
shown_timeout n fallback = if is_pos n then n else fallback

unfoldable pub editable_plugin : ℤ → PluginConfig → EditablePlugin
editable_plugin request_timeout p = record {
  name = p.name;
  enabled = p.enabled;
  backend_type = p.backend_type;
  backend_url = p.backend_url;
  request_timeout_seconds =
      shown_timeout (whole_seconds p.request_timeout) (whole_seconds request_timeout);
  secret_configured = has_secret p.backend_api_key p.backend_api_key_file;
}

abbrev pub editable_honeypot : HoneypotConfig → EditableHoneypot
editable_honeypot h = record {
  url = h.url;
  failed_queue_path = h.failed_queue_path;
  failed_queue_max_entries = h.failed_queue_max_entries;
  retry_interval_seconds = whole_seconds h.retry_interval;
  max_attempts = h.max_attempts;
  request_timeout_seconds = whole_seconds h.request_timeout;
  api_key_configured = has_secret h.api_key h.api_key_file;
  hmac_secret_configured = has_secret h.hmac_secret h.hmac_secret_file;
}

abbrev pub editable_power_dns : PowerDnsConfig → EditablePowerDns
editable_power_dns d = record {
  authoritative_url = d.authoritative_url;
  recursor_url = d.recursor_url;
  server_id = d.server_id;
  request_timeout_seconds = whole_seconds d.request_timeout;
  authoritative_key_configured = has_secret d.authoritative_api_key d.authoritative_api_key_file;
  recursor_key_configured = has_secret d.recursor_api_key d.recursor_api_key_file;
}

abbrev pub editable_certificates : CertificatesConfig → EditableCertificates
editable_certificates c = record {
  enabled = c.enabled;
  issuer_mode = c.issuer_mode;
  directory_url = c.directory_url;
  account_email = c.account_email;
  accept_tos = c.accept_tos;
  storage_dir = c.storage_dir;
  request_timeout_seconds = whole_seconds c.request_timeout;
  dns_propagation_timeout_seconds = whole_seconds c.dns_propagation_timeout;
  dns_poll_interval_seconds = whole_seconds c.dns_poll_interval;
  max_attempts = c.max_attempts;
  renew_before_days = c.renew_before_days;
  crl_distribution_url = c.crl_distribution_url;
}

abbrev config_file_writable : (Text → Bool) → Text → Bool
config_file_writable can_open path = not (is_empty path) && can_open path

unfoldable pub editable : {F : Type 0} → (Text → Bool) → Config F → EditableConfig F
editable can_open cfg = record {
  request_timeout_seconds = whole_seconds cfg.request_timeout;
  routes = cfg.routes;
  plugins = map (editable_plugin cfg.request_timeout) cfg.plugins;
  security = cfg.security;
  dns_log = cfg.dns_log;
  honeypot = editable_honeypot cfg.honeypot;
  control_plane = cfg.control_plane;
  power_dns = editable_power_dns cfg.power_dns;
  certificates = editable_certificates cfg.certificates;
  config_file = cfg.config_file;
  writable = config_file_writable can_open cfg.config_file;
}

abbrev pub blank_plugin : PluginConfig
blank_plugin = record {
  name = [];
  enabled = false;
  backend_type = [];
  backend_url = [];
  backend_api_key = [];
  backend_api_key_file = [];
  request_timeout = pos 0;
}

-- The plugin of a name in `currentPlugins`: the last one, or the zero value.
unfoldable pub current_plugin : Text → PluginConfig → List PluginConfig → PluginConfig
current_plugin name found [] = found
current_plugin name found (p ∷ ps) = current_plugin name (if p.name =t name then p else found) ps

unfoldable pub merged_plugin : List PluginConfig → EditablePlugin → PluginConfig
merged_plugin current e = record (current_plugin e.name blank_plugin current) {
  name = e.name;
  enabled = e.enabled;
  backend_type = e.backend_type;
  backend_url = e.backend_url;
  request_timeout = seconds e.request_timeout_seconds;
}

abbrev pub apply_honeypot_edit : EditableHoneypot → HoneypotConfig → HoneypotConfig
apply_honeypot_edit e h = record h {
  url = e.url;
  failed_queue_path = e.failed_queue_path;
  failed_queue_max_entries = e.failed_queue_max_entries;
  retry_interval = seconds e.retry_interval_seconds;
  max_attempts = e.max_attempts;
  request_timeout = seconds e.request_timeout_seconds;
}

abbrev pub apply_power_dns_edit : EditablePowerDns → PowerDnsConfig → PowerDnsConfig
apply_power_dns_edit e d = record d {
  authoritative_url = e.authoritative_url;
  recursor_url = e.recursor_url;
  server_id = e.server_id;
  request_timeout = seconds e.request_timeout_seconds;
  request_timeout_seconds = e.request_timeout_seconds;
}

abbrev pub apply_certificates_edit : EditableCertificates → CertificatesConfig
apply_certificates_edit e = record {
  enabled = e.enabled;
  issuer_mode = e.issuer_mode;
  directory_url = e.directory_url;
  account_email = e.account_email;
  accept_tos = e.accept_tos;
  storage_dir = e.storage_dir;
  request_timeout = seconds e.request_timeout_seconds;
  request_timeout_seconds = e.request_timeout_seconds;
  dns_propagation_timeout = seconds e.dns_propagation_timeout_seconds;
  dns_propagation_timeout_secs = e.dns_propagation_timeout_seconds;
  dns_poll_interval = seconds e.dns_poll_interval_seconds;
  dns_poll_interval_seconds = e.dns_poll_interval_seconds;
  max_attempts = e.max_attempts;
  renew_before_days = e.renew_before_days;
  crl_distribution_url = e.crl_distribution_url;
}

module _ (fl : Floats) (idna : Idna) where
  -- A policy with its defaults, and its domains in their normal form where they have one.
  unfoldable pub settled_policy : Policy fl.Float → Policy fl.Float
  settled_policy p =
      let q = with_defaults fl idna p in
      record q {
        dns_log_platform_domains =
            or_list (normalize_dns_log_platform_domains idna q.dns_log_platform_domains)
              q.dns_log_platform_domains;
      }

  unfoldable pub apply_editable : Config fl.Float → EditableConfig fl.Float → Config fl.Float
  apply_editable current edit = record current {
    request_timeout =
        if is_pos edit.request_timeout_seconds
        then seconds edit.request_timeout_seconds
        else current.request_timeout;
    routes = edit.routes;
    security = settled_policy edit.security;
    dns_log = edit.dns_log;
    control_plane = edit.control_plane;
    plugins = map (merged_plugin current.plugins) edit.plugins;
    honeypot = apply_honeypot_edit edit.honeypot current.honeypot;
    honeypot_url = edit.honeypot.url;
    power_dns = apply_power_dns_edit edit.power_dns current.power_dns;
    certificates = apply_certificates_edit edit.certificates;
  }
