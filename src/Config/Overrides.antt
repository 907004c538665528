-- ===== src/Config/Overrides.antt =====
-- The variables of the environment that override a loaded file in internal/config/config.go.
use any_ns.Base.{Bool, Option, none, some, Text, txt, ◌≡◌, refl, is_empty, Bool-cases, inl, inr}
use any_ns.Config.{Config, HoneypotConfig, PowerDnsConfig, CertificatesConfig}
use any_ns.Base.Int.{ℤ, is_pos}
use any_ns.Base.Number.{atoi}
use any_ns.Config.Defaults.{
  or_fallback, positive_seconds, parse_bool, env, env_int, env_bool, env_duration, whole_seconds,
}

module _ (get : Text → Text) where
  abbrev pub override_honeypot : HoneypotConfig → HoneypotConfig
  override_honeypot h = record h {
    url = env get (txt "ANYNS_HONEYPOT_URL") h.url;
    api_key = env get (txt "ANYNS_HONEYPOT_API_KEY") h.api_key;
    hmac_secret = env get (txt "ANYNS_HONEYPOT_HMAC_SECRET") h.hmac_secret;
    failed_queue_path = env get (txt "ANYNS_HONEYPOT_FAILED_QUEUE_PATH") h.failed_queue_path;
    failed_queue_max_entries =
        env_int get (txt "ANYNS_HONEYPOT_FAILED_QUEUE_MAX_ENTRIES") h.failed_queue_max_entries;
    retry_interval =
        env_duration get (txt "ANYNS_HONEYPOT_RETRY_INTERVAL_SECONDS") h.retry_interval;
    max_attempts = env_int get (txt "ANYNS_HONEYPOT_MAX_ATTEMPTS") h.max_attempts;
    request_timeout =
        env_duration get (txt "ANYNS_HONEYPOT_REQUEST_TIMEOUT_SECONDS") h.request_timeout;
  }

  abbrev pub override_power_dns : PowerDnsConfig → PowerDnsConfig
  override_power_dns d = record d {
    authoritative_url = env get (txt "ANYNS_PDNS_AUTH_URL") d.authoritative_url;
    authoritative_api_key = env get (txt "PDNS_AUTH_API_KEY") d.authoritative_api_key;
    recursor_url = env get (txt "ANYNS_PDNS_RECURSOR_URL") d.recursor_url;
    recursor_api_key = env get (txt "PDNS_RECURSOR_API_KEY") d.recursor_api_key;
    server_id = env get (txt "ANYNS_PDNS_SERVER_ID") d.server_id;
    request_timeout = env_duration get (txt "ANYNS_PDNS_REQUEST_TIMEOUT_SECONDS") d.request_timeout;
    request_timeout_seconds =
        whole_seconds
          (env_duration get (txt "ANYNS_PDNS_REQUEST_TIMEOUT_SECONDS") d.request_timeout);
  }

  abbrev pub override_certificates : CertificatesConfig → CertificatesConfig
  override_certificates c =
      let timeout = env_duration get (txt "ANYNS_ACME_REQUEST_TIMEOUT_SECONDS") c.request_timeout in
      let propagation =
        env_duration get (txt "ANYNS_ACME_DNS_PROPAGATION_TIMEOUT_SECONDS")
          c.dns_propagation_timeout in
      let poll =
        env_duration get (txt "ANYNS_ACME_DNS_POLL_INTERVAL_SECONDS") c.dns_poll_interval in
      record c {
        enabled = env_bool get (txt "ANYNS_CERTIFICATES_ENABLED") c.enabled;
        issuer_mode = env get (txt "ANYNS_CERTIFICATE_ISSUER_MODE") c.issuer_mode;
        directory_url = env get (txt "ANYNS_ACME_DIRECTORY_URL") c.directory_url;
        account_email = env get (txt "ANYNS_ACME_ACCOUNT_EMAIL") c.account_email;
        accept_tos = env_bool get (txt "ANYNS_ACME_ACCEPT_TOS") c.accept_tos;
        storage_dir = env get (txt "ANYNS_CERTIFICATE_STORAGE_DIR") c.storage_dir;
        request_timeout = timeout;
        request_timeout_seconds = whole_seconds timeout;
        dns_propagation_timeout = propagation;
        dns_propagation_timeout_secs = whole_seconds propagation;
        dns_poll_interval = poll;
        dns_poll_interval_seconds = whole_seconds poll;
        max_attempts = env_int get (txt "ANYNS_ACME_MAX_ATTEMPTS") c.max_attempts;
        renew_before_days =
            env_int get (txt "ANYNS_CERTIFICATE_RENEW_BEFORE_DAYS") c.renew_before_days;
        crl_distribution_url =
            env get (txt "ANYNS_PRIVATE_CA_CRL_DISTRIBUTION_URL") c.crl_distribution_url;
      }

  -- The three settings of the honeypot outside its record follow those inside.
  unfoldable pub apply_env_overrides : {F : Type 0} → Config F → Config F
  apply_env_overrides cfg = record cfg {
    admin_addr = env get (txt "ANYNS_ADMIN_ADDR") cfg.admin_addr;
    runtime_addr = env get (txt "ANYNS_RUNTIME_ADDR") cfg.runtime_addr;
    log_forwarder_addr = env get (txt "ANYNS_LOG_FORWARDER_ADDR") cfg.log_forwarder_addr;
    request_timeout = env_duration get (txt "ANYNS_REQUEST_TIMEOUT_SECONDS") cfg.request_timeout;
    dns_log = record {
      limit = env_int get (txt "ANYNS_DNSLOG_LIMIT") cfg.dns_log.limit;
      path = env get (txt "ANYNS_DNSLOG_PATH") cfg.dns_log.path;
    };
    honeypot = override_honeypot cfg.honeypot;
    honeypot_url = (override_honeypot cfg.honeypot).url;
    honeypot_api_key = (override_honeypot cfg.honeypot).api_key;
    honeypot_hmac_secret = (override_honeypot cfg.honeypot).hmac_secret;
    control_plane = record {
      admin_proxy_runtime =
          env_bool get (txt "ANYNS_ADMIN_PROXY_RUNTIME_CONTROL")
            cfg.control_plane.admin_proxy_runtime;
      runtime_control_url =
          env get (txt "ANYNS_RUNTIME_CONTROL_URL") cfg.control_plane.runtime_control_url;
    };
    management = record cfg.management {
      api_key = env get (txt "ANYNS_MANAGEMENT_API_KEY") cfg.management.api_key;
      auth_required =
          env_bool get (txt "ANYNS_MANAGEMENT_AUTH_REQUIRED") cfg.management.auth_required;
    };
    power_dns = override_power_dns cfg.power_dns;
    certificates = override_certificates cfg.certificates;
  }

  env_twice : (key fallback : Text) → env get key (env get key fallback) ≡ env get key fallback
  unfolding env
  env_twice key fallback = elim (Bool-cases (is_empty (get key))) [
    | inl h ↦ rw h refl
    | inr h ↦ rw h refl
  ]

  or_fallback_twice {ℓ} :
      {A : Type ℓ} (fallback : A) (o : Option A)
      → or_fallback (or_fallback fallback o) o ≡ or_fallback fallback o
  or_fallback_twice fallback none = refl
  or_fallback_twice fallback (some a) = refl

  env_int_twice :
      (key : Text) (fallback : ℤ)
      → env_int get key (env_int get key fallback) ≡ env_int get key fallback
  unfolding env_int
  env_int_twice key fallback = elim (Bool-cases (is_empty (get key))) [
    | inl h ↦ rw h refl
    | inr h ↦ rw h (or_fallback_twice fallback (atoi (get key)))
  ]

  env_bool_twice :
      (key : Text) (fallback : Bool)
      → env_bool get key (env_bool get key fallback) ≡ env_bool get key fallback
  unfolding env_bool
  env_bool_twice key fallback = elim (Bool-cases (is_empty (get key))) [
    | inl h ↦ rw h refl
    | inr h ↦ rw h (or_fallback_twice fallback (parse_bool (get key)))
  ]

  positive_seconds_twice :
      (fallback : ℤ) (o : Option ℤ)
      → positive_seconds (positive_seconds fallback o) o ≡ positive_seconds fallback o
  positive_seconds_twice fallback none = refl
  positive_seconds_twice fallback (some n) = elim (Bool-cases (is_pos n)) [
    | inl h ↦ rw h refl
    | inr h ↦ rw h refl
  ]

  env_duration_twice :
      (key : Text) (fallback : ℤ)
      → env_duration get key (env_duration get key fallback) ≡ env_duration get key fallback
  unfolding env_duration
  env_duration_twice key fallback = elim (Bool-cases (is_empty (get key))) [
    | inl h ↦ rw h refl
    | inr h ↦ rw h (positive_seconds_twice fallback (atoi (get key)))
  ]

  -- Applying the environment to a configuration a second time changes nothing: what a variable sets
  -- does not depend on what was set before, and a variable that does not count leaves it alone.
  pub apply_env_overrides_twice :
      {F : Type 0} (cfg : Config F)
      → apply_env_overrides (apply_env_overrides cfg) ≡ apply_env_overrides cfg
  unfolding apply_env_overrides
  apply_env_overrides_twice cfg =
      simp (env_twice, env_int_twice, env_bool_twice, env_duration_twice) refl
