-- ===== src/Config/Tests.antt =====
-- Runs of the model of internal/config at concrete inputs.
use any_ns.Base.{
  ℕ, [], ◌++◌, false, ◌≡◌, refl, Text, txt, ◌=t◌, trim_space, trim_left, trim_right_by, is_space,
  if◌then◌else◌,
}
use any_ns.Base.Result.{ok, err}
use any_ns.Security.Tests.{thousandths, plain}
use any_ns.Base.{none, true, ◌∷◌, to_lower, lower}
use any_ns.Access.{parse_key_time}
use any_ns.Access.Tests.{platform, reader, config}
use any_ns.Security.Domains.{normalize_dns_log_platform_domains}
use any_ns.Config.Validation.{check_plugins, check_routes, check_each}
use any_ns.Config.KeyChecks.{check_roles, role_ids, check_keys, check_key_roles, problems, validate}
use any_ns.Config.Valid.{IsValid, validate-IsValid}
use any_ns.Config.{
  Config, Formats, valid_plugin_backend_type, supported_management_scope, valid_client_cidr,
  has_usable_management_key,
}
use any_ns.Config.Defaults.{defaults, env, env_int, env_bool, seconds}
use any_ns.Config.Secrets.{
  FileSystem, resolve_secret_files, settle_plugins, settle_keys, settle_secret, read_secret_file,
  read_secrets,
}
use any_ns.Base.Int.{pos}
use any_ns.Security.{default_policy}
use any_ns.Config.Loading.{FileConfig}
use any_ns.Config.Files.{load_file_with_env_overrides}
use any_ns.Config.Clash.{honeypot_key_clash}
use any_ns.Config.Resolved.{IsResolved, resolve_secret_files-IsResolved}

-- An environment with one variable.
abbrev one_set : Text → Text
one_set key = if key =t txt "ANYNS_DNSLOG_LIMIT" then txt "7" else []

-- Every file holds the same secret.
abbrev disk : FileSystem
disk = record {
  is_abs = λ path. false;
  join = λ base path. base ++ txt "/" ++ path;
  dir = λ path. txt "/etc";
  read = λ path. ok (txt " secret ");
  quoted = λ s. s;
}

abbrev plain_config : Config ℕ
plain_config = record (defaults (λ key. []) thousandths) { plugins = [] }

abbrev filed : Config ℕ
filed = record plain_config {
  honeypot = record plain_config.honeypot { api_key = []; api_key_file = txt "key" };
}

filed_resolves : (cfg : Config ℕ) × (resolve_secret_files disk (txt "/etc") filed ≡ ok cfg)
unfolding resolve_secret_files read_secrets settle_secret settle_plugins settle_keys
    read_secret_file trim_space trim_left trim_right_by is_space defaults any_ns.Config.Defaults.env
filed_resolves = (_, refl)

resolve_secret_files-IsResolved_example : IsResolved disk (txt "/etc") filed filed_resolves.0
resolve_secret_files-IsResolved_example =
    resolve_secret_files-IsResolved disk (txt "/etc") filed filed_resolves.0 filed_resolves.1

abbrev nothing_said : FileConfig ℕ
nothing_said = record {
  admin_addr = [];
  runtime_addr = [];
  log_forwarder_addr = [];
  request_timeout = pos 0;
  routes = [];
  plugins = [];
  security = record (default_policy thousandths) { configured = false };
  dns_log = record { limit = pos 0; path = [] };
  honeypot = record {
    url = [];
    api_key = [];
    api_key_file = txt "key";
    hmac_secret = [];
    hmac_secret_file = [];
    failed_queue_path = [];
    failed_queue_max_entries = pos 0;
    retry_interval = pos 0;
    max_attempts = pos 0;
    request_timeout = pos 0;
  };
  control_plane = record { admin_proxy_runtime = false; runtime_control_url = [] };
  management = record {
    api_key = [];
    api_key_file = [];
    auth_required = false;
    roles = [];
    keys = [];
  };
  power_dns = record {
    authoritative_url = [];
    authoritative_api_key = [];
    authoritative_api_key_file = [];
    recursor_url = [];
    recursor_api_key = [];
    recursor_api_key_file = [];
    server_id = [];
    request_timeout = pos 0;
  };
  certificates = record {
    enabled = false;
    issuer_mode = [];
    directory_url = [];
    account_email = [];
    accept_tos = false;
    storage_dir = [];
    request_timeout = pos 0;
    dns_propagation_timeout = pos 0;
    dns_poll_interval = pos 0;
    max_attempts = pos 0;
    renew_before_days = pos 0;
    crl_distribution_url = [];
  };
}

-- An environment with the honeypot's key.
abbrev key_set : Text → Text
key_set key = if key =t txt "ANYNS_HONEYPOT_API_KEY" then txt "k" else []

honeypot_key_clash_example :
    (e : Text) × (load_file_with_env_overrides thousandths plain disk
        (λ body. ok nothing_said)
        key_set
        (txt "anyns.json")
      ≡ err e)
unfolding trim_space trim_left trim_right_by is_space ◌=t◌
honeypot_key_clash_example =
    honeypot_key_clash thousandths plain disk (λ body. ok nothing_said) key_set (txt "anyns.json")
      (txt " secret ") nothing_said refl refl refl refl refl

abbrev formats : Formats platform
formats = record { parse_url = λ s. none; is_v4 = λ ip. true; quoted = λ s. s }

abbrev short : Config ℕ
short = record (defaults (λ key. []) thousandths) {
  plugins =
      record {
        name = txt "hns";
        enabled = true;
        backend_type = [];
        backend_url = [];
        backend_api_key = [];
        backend_api_key_file = [];
        request_timeout = pos 0;
      }
      ∷ [];
  security = record (default_policy thousandths) { sinkhole_ipv4 = []; sinkhole_ipv6 = [] };
  management = record config { keys = reader ∷ [] };
}

short_is_clean : validate platform formats plain short ≡ none
unfolding validate problems check_plugins check_routes check_roles role_ids check_keys
    check_key_roles check_each defaults env env_int env_bool seconds default_policy trim_space
    trim_left trim_right_by is_space ◌=t◌ valid_plugin_backend_type to_lower lower
    supported_management_scope valid_client_cidr parse_key_time has_usable_management_key
    normalize_dns_log_platform_domains any_ns.Security.Domains.collect_platforms
short_is_clean = refl

validate-IsValid_example : IsValid platform formats plain short
validate-IsValid_example = validate-IsValid platform formats plain short short_is_clean
