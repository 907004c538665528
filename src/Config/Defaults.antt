-- ===== src/Config/Defaults.antt =====
-- The settings of internal/config/config.go that come from the environment: the defaults, and the
-- variables that override a loaded file. `get` is os.Getenv.
use any_ns.Base.{
  ℕ, ◌+◌, ◌-◌, ◌*◌, ◌/◌, ◌%◌, List, [], ◌∷◌, Bool, true, false, Option, none, some, map, Text, txt,
  is_empty, ltb, if◌then◌else◌,
}
use any_ns.Base.Members.{has_text}
use any_ns.Base.Int.{ℤ, pos, negsuc, is_pos}
use any_ns.Base.Number.{atoi, int_limit}
use any_ns.Plugins.Routes.{default_routes}
use any_ns.Security.{Floats, default_policy}
use any_ns.Config.{Config, PluginConfig, HoneypotConfig, PowerDnsConfig, CertificatesConfig}

-- The 64-bit integer of two's complement with these bits.
abbrev pub of_bits : ℕ → ℤ
of_bits m = if ltb m int_limit then pos m else negsuc (2 * int_limit - m - 1)

-- `time.Duration(n) * time.Second`, which wraps.
unfoldable pub seconds : ℤ → ℤ
seconds (pos n) = of_bits ((n * 1000000000) % (2 * int_limit))
seconds (negsuc n) =
    of_bits ((2 * int_limit - ((n + 1) * 1000000000) % (2 * int_limit)) % (2 * int_limit))

abbrev pub negated : ℕ → ℤ
negated n = if ltb 0 n then negsuc (n - 1) else pos 0

-- `int(d.Seconds())`: the fraction is dropped.
unfoldable pub whole_seconds : ℤ → ℤ
whole_seconds (pos n) = pos (n / 1000000000)
whole_seconds (negsuc n) = negated ((n + 1) / 1000000000)

-- `strconv.ParseBool`
unfoldable pub parse_bool : Text → Option Bool
parse_bool s =
    if has_text s (txt "1" ∷ txt "t" ∷ txt "T" ∷ txt "true" ∷ txt "TRUE" ∷ txt "True" ∷ [])
    then some true
    else if has_text s (txt "0" ∷ txt "f" ∷ txt "F" ∷ txt "false" ∷ txt "FALSE" ∷ txt "False" ∷ [])
    then some false
    else none

abbrev pub or_fallback {ℓ} : {A : Type ℓ} → A → Option A → A
or_fallback fallback none = fallback
or_fallback fallback (some a) = a

abbrev pub positive_seconds : ℤ → Option ℤ → ℤ
positive_seconds fallback none = fallback
positive_seconds fallback (some n) = if is_pos n then seconds n else fallback

module _ (get : Text → Text) where
  unfoldable pub env : Text → Text → Text
  env key fallback = if is_empty (get key) then fallback else get key

  unfoldable pub env_int : Text → ℤ → ℤ
  env_int key fallback =
      if is_empty (get key) then fallback else or_fallback fallback (atoi (get key))

  unfoldable pub env_duration : Text → ℤ → ℤ
  env_duration key fallback =
      if is_empty (get key) then fallback else positive_seconds fallback (atoi (get key))

  unfoldable pub env_bool : Text → Bool → Bool
  env_bool key fallback =
      if is_empty (get key) then fallback else or_fallback fallback (parse_bool (get key))

  abbrev pub plugin_of : Text → Bool → PluginConfig
  plugin_of name enabled = record {
    name = name;
    enabled = enabled;
    backend_type = [];
    backend_url = [];
    backend_api_key = [];
    backend_api_key_file = [];
    request_timeout = pos 0;
  }

  abbrev pub default_plugins : List PluginConfig
  default_plugins =
      plugin_of (txt "hns") true
      ∷ map (λ name. plugin_of name false)
          (txt "ens"
            ∷ txt "namecoin-bit"
            ∷ txt "stacks-bns"
            ∷ txt "pns-polkadot"
            ∷ txt "pns-pulsechain"
            ∷ txt "unstoppable-domains"
            ∷ txt "solana-sns"
            ∷ txt "space-id"
            ∷ txt "ton-dns"
            ∷ txt "tezos-domains"
            ∷ txt "aptos-names"
            ∷ txt "suins"
            ∷ txt "freename-fns"
            ∷ txt "rif-rns"
            ∷ txt "fio-handle"
            ∷ txt "openalias"
            ∷ txt "ada-handle"
            ∷ txt "did-bit"
            ∷ [])

  abbrev pub default_honeypot : HoneypotConfig
  default_honeypot = record {
    url = env (txt "ANYNS_HONEYPOT_URL") [];
    api_key = env (txt "ANYNS_HONEYPOT_API_KEY") [];
    api_key_file = [];
    hmac_secret = env (txt "ANYNS_HONEYPOT_HMAC_SECRET") [];
    hmac_secret_file = [];
    failed_queue_path = env (txt "ANYNS_HONEYPOT_FAILED_QUEUE_PATH") [];
    failed_queue_max_entries = env_int (txt "ANYNS_HONEYPOT_FAILED_QUEUE_MAX_ENTRIES") (pos 10000);
    retry_interval = seconds (env_int (txt "ANYNS_HONEYPOT_RETRY_INTERVAL_SECONDS") (pos 30));
    retry_interval_seconds = pos 0;
    max_attempts = env_int (txt "ANYNS_HONEYPOT_MAX_ATTEMPTS") (pos 5);
    request_timeout = seconds (env_int (txt "ANYNS_HONEYPOT_REQUEST_TIMEOUT_SECONDS") (pos 5));
    request_timeout_seconds = pos 0;
  }

  abbrev pub default_power_dns : PowerDnsConfig
  default_power_dns = record {
    authoritative_url = env (txt "ANYNS_PDNS_AUTH_URL") [];
    authoritative_api_key = env (txt "PDNS_AUTH_API_KEY") [];
    authoritative_api_key_file = [];
    recursor_url = env (txt "ANYNS_PDNS_RECURSOR_URL") [];
    recursor_api_key = env (txt "PDNS_RECURSOR_API_KEY") [];
    recursor_api_key_file = [];
    server_id = env (txt "ANYNS_PDNS_SERVER_ID") (txt "localhost");
    request_timeout = seconds (env_int (txt "ANYNS_PDNS_REQUEST_TIMEOUT_SECONDS") (pos 5));
    request_timeout_seconds = env_int (txt "ANYNS_PDNS_REQUEST_TIMEOUT_SECONDS") (pos 5);
  }

  abbrev pub default_certificates : CertificatesConfig
  default_certificates = record {
    enabled = env_bool (txt "ANYNS_CERTIFICATES_ENABLED") false;
    issuer_mode = env (txt "ANYNS_CERTIFICATE_ISSUER_MODE") (txt "acme");
    directory_url =
        env (txt "ANYNS_ACME_DIRECTORY_URL")
          (txt "https://acme-staging-v02.api.letsencrypt.org/directory");
    account_email = env (txt "ANYNS_ACME_ACCOUNT_EMAIL") [];
    accept_tos = env_bool (txt "ANYNS_ACME_ACCEPT_TOS") false;
    storage_dir = env (txt "ANYNS_CERTIFICATE_STORAGE_DIR") (txt "/var/lib/anyns/certificates");
    request_timeout = seconds (env_int (txt "ANYNS_ACME_REQUEST_TIMEOUT_SECONDS") (pos 300));
    request_timeout_seconds = env_int (txt "ANYNS_ACME_REQUEST_TIMEOUT_SECONDS") (pos 300);
    dns_propagation_timeout =
        seconds (env_int (txt "ANYNS_ACME_DNS_PROPAGATION_TIMEOUT_SECONDS") (pos 120));
    dns_propagation_timeout_secs =
        env_int (txt "ANYNS_ACME_DNS_PROPAGATION_TIMEOUT_SECONDS") (pos 120);
    dns_poll_interval = seconds (env_int (txt "ANYNS_ACME_DNS_POLL_INTERVAL_SECONDS") (pos 2));
    dns_poll_interval_seconds = env_int (txt "ANYNS_ACME_DNS_POLL_INTERVAL_SECONDS") (pos 2);
    max_attempts = env_int (txt "ANYNS_ACME_MAX_ATTEMPTS") (pos 3);
    renew_before_days = env_int (txt "ANYNS_CERTIFICATE_RENEW_BEFORE_DAYS") (pos 30);
    crl_distribution_url = env (txt "ANYNS_PRIVATE_CA_CRL_DISTRIBUTION_URL") [];
  }

  -- `Default`
  unfoldable pub defaults : (fl : Floats) → Config fl.Float
  unfolding env env_int env_bool seconds
  defaults fl = record {
    admin_addr = env (txt "ANYNS_ADMIN_ADDR") (txt ":8080");
    runtime_addr = env (txt "ANYNS_RUNTIME_ADDR") (txt ":8081");
    log_forwarder_addr = env (txt "ANYNS_LOG_FORWARDER_ADDR") (txt ":8082");
    honeypot_url = env (txt "ANYNS_HONEYPOT_URL") [];
    honeypot_api_key = env (txt "ANYNS_HONEYPOT_API_KEY") [];
    honeypot_hmac_secret = env (txt "ANYNS_HONEYPOT_HMAC_SECRET") [];
    request_timeout = seconds (env_int (txt "ANYNS_REQUEST_TIMEOUT_SECONDS") (pos 3));
    routes = default_routes;
    plugins = default_plugins;
    security = default_policy fl;
    dns_log = record {
      limit = env_int (txt "ANYNS_DNSLOG_LIMIT") (pos 1000);
      path = env (txt "ANYNS_DNSLOG_PATH") [];
    };
    honeypot = default_honeypot;
    control_plane = record {
      admin_proxy_runtime = env_bool (txt "ANYNS_ADMIN_PROXY_RUNTIME_CONTROL") false;
      runtime_control_url = env (txt "ANYNS_RUNTIME_CONTROL_URL") [];
    };
    management = record {
      api_key = env (txt "ANYNS_MANAGEMENT_API_KEY") [];
      api_key_file = [];
      auth_required = env_bool (txt "ANYNS_MANAGEMENT_AUTH_REQUIRED") false;
      roles = [];
      keys = [];
    };
    power_dns = default_power_dns;
    certificates = default_certificates;
    config_file = [];
  }
