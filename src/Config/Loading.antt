-- ===== src/Config/Loading.antt =====
-- What a configuration file of internal/config/config.go holds, and how its sections are applied.
use any_ns.Base.{List, Bool, ◌||◌, Text, is_empty, if◌then◌else◌}
use any_ns.Base.Int.{ℤ, is_pos}
use any_ns.Plugins.{Route}
use any_ns.Security.{Policy}
use any_ns.Access.{ManagementConfig, is_nil}
use any_ns.Config.{Config, PluginConfig, DnsLogConfig, ControlPlaneConfig}
use any_ns.Config.Defaults.{whole_seconds}

pub record FileHoneypotConfig : Type 0 where
  pub url : Text
  pub api_key : Text
  pub api_key_file : Text
  pub hmac_secret : Text
  pub hmac_secret_file : Text
  pub failed_queue_path : Text
  pub failed_queue_max_entries : ℤ
  pub retry_interval : ℤ
  pub max_attempts : ℤ
  pub request_timeout : ℤ

pub record FilePowerDnsConfig : Type 0 where
  pub authoritative_url : Text
  pub authoritative_api_key : Text
  pub authoritative_api_key_file : Text
  pub recursor_url : Text
  pub recursor_api_key : Text
  pub recursor_api_key_file : Text
  pub server_id : Text
  pub request_timeout : ℤ

pub record FileCertificatesConfig : Type 0 where
  pub enabled : Bool
  pub issuer_mode : Text
  pub directory_url : Text
  pub account_email : Text
  pub accept_tos : Bool
  pub storage_dir : Text
  pub request_timeout : ℤ
  pub dns_propagation_timeout : ℤ
  pub dns_poll_interval : ℤ
  pub max_attempts : ℤ
  pub renew_before_days : ℤ
  pub crl_distribution_url : Text

pub record FileConfig (F : Type 0) : Type 0 where
  pub admin_addr : Text
  pub runtime_addr : Text
  pub log_forwarder_addr : Text
  pub request_timeout : ℤ
  pub routes : List Route
  pub plugins : List PluginConfig
  pub security : Policy F
  pub dns_log : DnsLogConfig
  pub honeypot : FileHoneypotConfig
  pub control_plane : ControlPlaneConfig
  pub management : ManagementConfig
  pub power_dns : FilePowerDnsConfig
  pub certificates : FileCertificatesConfig

-- `if raw != "" { cfg = raw }`, and the same for numbers, lists and switches.
abbrev pub text_or : Text → Text → Text
text_or raw old = if is_empty raw then old else raw

abbrev pub int_or : ℤ → ℤ → ℤ
int_or raw old = if is_pos raw then raw else old

abbrev pub seconds_or : ℤ → ℤ → ℤ
seconds_or raw old = if is_pos raw then whole_seconds raw else old

abbrev pub list_or {ℓ} : {A : Type ℓ} → List A → List A → List A
list_or raw old = if is_nil raw then old else raw

unfoldable pub apply_honeypot : {F : Type 0} → FileHoneypotConfig → Config F → Config F
apply_honeypot raw cfg = record cfg {
  honeypot_url = text_or raw.url cfg.honeypot_url;
  honeypot_api_key = text_or raw.api_key cfg.honeypot_api_key;
  honeypot_hmac_secret = text_or raw.hmac_secret cfg.honeypot_hmac_secret;
  honeypot = record cfg.honeypot {
    url = text_or raw.url cfg.honeypot.url;
    api_key = text_or raw.api_key cfg.honeypot.api_key;
    api_key_file = text_or raw.api_key_file cfg.honeypot.api_key_file;
    hmac_secret = text_or raw.hmac_secret cfg.honeypot.hmac_secret;
    hmac_secret_file = text_or raw.hmac_secret_file cfg.honeypot.hmac_secret_file;
    failed_queue_path = text_or raw.failed_queue_path cfg.honeypot.failed_queue_path;
    failed_queue_max_entries =
        int_or raw.failed_queue_max_entries cfg.honeypot.failed_queue_max_entries;
    retry_interval = int_or raw.retry_interval cfg.honeypot.retry_interval;
    max_attempts = int_or raw.max_attempts cfg.honeypot.max_attempts;
    request_timeout = int_or raw.request_timeout cfg.honeypot.request_timeout;
  };
}

unfoldable pub apply_power_dns : {F : Type 0} → FilePowerDnsConfig → Config F → Config F
apply_power_dns raw cfg = record cfg {
  power_dns = record cfg.power_dns {
    authoritative_url = text_or raw.authoritative_url cfg.power_dns.authoritative_url;
    authoritative_api_key = text_or raw.authoritative_api_key cfg.power_dns.authoritative_api_key;
    authoritative_api_key_file =
        text_or raw.authoritative_api_key_file cfg.power_dns.authoritative_api_key_file;
    recursor_url = text_or raw.recursor_url cfg.power_dns.recursor_url;
    recursor_api_key = text_or raw.recursor_api_key cfg.power_dns.recursor_api_key;
    recursor_api_key_file = text_or raw.recursor_api_key_file cfg.power_dns.recursor_api_key_file;
    server_id = text_or raw.server_id cfg.power_dns.server_id;
    request_timeout = int_or raw.request_timeout cfg.power_dns.request_timeout;
    request_timeout_seconds = seconds_or raw.request_timeout cfg.power_dns.request_timeout_seconds;
  };
}

unfoldable pub apply_certificates : {F : Type 0} → FileCertificatesConfig → Config F → Config F
apply_certificates raw cfg = record cfg {
  certificates = record cfg.certificates {
    enabled = raw.enabled || cfg.certificates.enabled;
    issuer_mode = text_or raw.issuer_mode cfg.certificates.issuer_mode;
    directory_url = text_or raw.directory_url cfg.certificates.directory_url;
    account_email = text_or raw.account_email cfg.certificates.account_email;
    accept_tos = raw.accept_tos || cfg.certificates.accept_tos;
    storage_dir = text_or raw.storage_dir cfg.certificates.storage_dir;
    request_timeout = int_or raw.request_timeout cfg.certificates.request_timeout;
    request_timeout_seconds =
        seconds_or raw.request_timeout cfg.certificates.request_timeout_seconds;
    dns_propagation_timeout =
        int_or raw.dns_propagation_timeout cfg.certificates.dns_propagation_timeout;
    dns_propagation_timeout_secs =
        seconds_or raw.dns_propagation_timeout cfg.certificates.dns_propagation_timeout_secs;
    dns_poll_interval = int_or raw.dns_poll_interval cfg.certificates.dns_poll_interval;
    dns_poll_interval_seconds =
        seconds_or raw.dns_poll_interval cfg.certificates.dns_poll_interval_seconds;
    max_attempts = int_or raw.max_attempts cfg.certificates.max_attempts;
    renew_before_days = int_or raw.renew_before_days cfg.certificates.renew_before_days;
    crl_distribution_url = text_or raw.crl_distribution_url cfg.certificates.crl_distribution_url;
  };
}
