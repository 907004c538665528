-- ===== src/Config.antt =====
-- internal/config/config.go: the configuration. The clock, files, URLs and addresses are read by
-- Go's library, which is a parameter; a duration is in nanoseconds, with its sign.
pub mod Defaults
pub mod Overrides
pub mod Loading
pub mod Secrets
pub mod Files
pub mod Resolved
pub mod Clash
pub mod Validation
pub mod KeyChecks
pub mod Valid
pub mod Editor
pub mod Saving
pub mod Writing
mod Sections
mod Merged
mod Written
mod Saved
mod Secrecy
mod Editing
mod EditorTests
pub mod Tests
use any_ns.Base.{
  ℕ, List, Bool, Option, Text, txt, ◌=t◌, to_lower, trim_space, is_empty, any, is_some, [], ◌∷◌,
  not, ◌&&◌, ◌||◌, true, false, none, some, if◌then◌else◌,
}
use any_ns.Base.Int.{ℤ}
use any_ns.Plugins.{Route}
use any_ns.Security.{Policy}
use any_ns.Access.{ManagementConfig, ManagementKey, Platform}
use any_ns.Base.Members.{has_text}
use any_ns.Base.Dict.{lookup}

pub record PluginConfig : Type 0 where
  pub name : Text
  pub enabled : Bool
  pub backend_type : Text
  pub backend_url : Text
  pub backend_api_key : Text
  pub backend_api_key_file : Text
  pub request_timeout : ℤ

pub record DnsLogConfig : Type 0 where
  pub limit : ℤ
  pub path : Text

pub record HoneypotConfig : Type 0 where
  pub url : Text
  pub api_key : Text
  pub api_key_file : Text
  pub hmac_secret : Text
  pub hmac_secret_file : Text
  pub failed_queue_path : Text
  pub failed_queue_max_entries : ℤ
  pub retry_interval : ℤ
  pub retry_interval_seconds : ℤ
  pub max_attempts : ℤ
  pub request_timeout : ℤ
  pub request_timeout_seconds : ℤ

pub record ControlPlaneConfig : Type 0 where
  pub admin_proxy_runtime : Bool
  pub runtime_control_url : Text

pub record PowerDnsConfig : Type 0 where
  pub authoritative_url : Text
  pub authoritative_api_key : Text
  pub authoritative_api_key_file : Text
  pub recursor_url : Text
  pub recursor_api_key : Text
  pub recursor_api_key_file : Text
  pub server_id : Text
  pub request_timeout : ℤ
  pub request_timeout_seconds : ℤ

pub record CertificatesConfig : Type 0 where
  pub enabled : Bool
  pub issuer_mode : Text
  pub directory_url : Text
  pub account_email : Text
  pub accept_tos : Bool
  pub storage_dir : Text
  pub request_timeout : ℤ
  pub request_timeout_seconds : ℤ
  pub dns_propagation_timeout : ℤ
  pub dns_propagation_timeout_secs : ℤ
  pub dns_poll_interval : ℤ
  pub dns_poll_interval_seconds : ℤ
  pub max_attempts : ℤ
  pub renew_before_days : ℤ
  pub crl_distribution_url : Text

pub record Config (F : Type 0) : Type 0 where
  pub admin_addr : Text
  pub runtime_addr : Text
  pub log_forwarder_addr : Text
  pub honeypot_url : Text
  pub honeypot_api_key : Text
  pub honeypot_hmac_secret : Text
  pub request_timeout : ℤ
  pub routes : List Route
  pub plugins : List PluginConfig
  pub security : Policy F
  pub dns_log : DnsLogConfig
  pub honeypot : HoneypotConfig
  pub control_plane : ControlPlaneConfig
  pub management : ManagementConfig
  pub power_dns : PowerDnsConfig
  pub certificates : CertificatesConfig
  pub config_file : Text

-- What `net/url.Parse` finds, and `net.IP.To4` and the format verb %q beside it.
pub record Url : Type 0 where
  pub scheme : Text
  pub host : Text

pub record Formats (p : Platform) : Type 0 where
  pub parse_url : Text → Option Url
  pub is_v4 : p.Ip → Bool
  pub quoted : Text → Text

-- `strings.TrimSpace(s) == ""`
abbrev pub is_blank : Text → Bool
is_blank s = is_empty (trim_space s)

abbrev pub has_scheme_and_host : Option Url → Bool
has_scheme_and_host none = false
has_scheme_and_host (some u) =
    let scheme = to_lower u.scheme in
    if is_empty u.scheme || is_empty u.host
    then false
    else scheme =t txt "http" || scheme =t txt "https"

abbrev pub is_backend_url : Option Url → Bool
is_backend_url none = false
is_backend_url (some u) =
    let scheme = to_lower u.scheme in
    if is_empty u.scheme
    then false
    else if scheme =t txt "http" || scheme =t txt "https" || scheme =t txt "dns"
    then not (is_empty u.host)
    else false

-- The one type of backend besides `runtime-json` that each plugin has.
abbrev pub backend_types : List (Text × Text)
backend_types =
    (txt "ens", txt "ens-json-rpc")
    ∷ (txt "namecoin-bit", txt "namecoin-json-rpc")
    ∷ (txt "stacks-bns", txt "stacks-bns-api")
    ∷ (txt "pns-polkadot", txt "pns-polkadot-api")
    ∷ (txt "pns-pulsechain", txt "pulsechain-pns-json-rpc")
    ∷ (txt "rif-rns", txt "rif-rns-json-rpc")
    ∷ (txt "unstoppable-domains", txt "unstoppable-resolution-api")
    ∷ (txt "solana-sns", txt "solana-sns-quicknode")
    ∷ (txt "space-id", txt "space-id-api")
    ∷ (txt "ton-dns", txt "toncenter-v3-dns")
    ∷ (txt "tezos-domains", txt "tezos-domains-api")
    ∷ (txt "aptos-names", txt "aptos-names-api")
    ∷ (txt "suins", txt "suins-json-rpc")
    ∷ (txt "freename-fns", txt "freename-resolution-api")
    ∷ (txt "fio-handle", txt "fio-chain-api")
    ∷ (txt "openalias", txt "openalias-dns-txt")
    ∷ (txt "ada-handle", txt "ada-handle-api")
    ∷ (txt "did-bit", txt "did-universal-resolver")
    ∷ []

abbrev pub is_type_of : Text → Option Text → Bool
is_type_of backend_type none = false
is_type_of backend_type (some wanted) = backend_type =t wanted

unfoldable pub valid_plugin_backend_type : Text → Text → Bool
valid_plugin_backend_type plugin_name raw =
    let backend_type = to_lower (trim_space raw) in
    if is_empty backend_type || backend_type =t txt "runtime-json"
    then true
    else is_type_of backend_type (lookup plugin_name backend_types)

module _ (p : Platform) (f : Formats p) where
  unfoldable pub valid_http_url : Text → Bool
  valid_http_url raw = has_scheme_and_host (f.parse_url (trim_space raw))

  unfoldable pub valid_plugin_backend_url : Text → Bool
  valid_plugin_backend_url raw = is_backend_url (f.parse_url (trim_space raw))

  abbrev pub is_some_v4 : Option p.Ip → Bool
  is_some_v4 none = false
  is_some_v4 (some ip) = f.is_v4 ip

  abbrev pub is_some_v6 : Option p.Ip → Bool
  is_some_v6 none = false
  is_some_v6 (some ip) = not (f.is_v4 ip)

  unfoldable pub is_ipv4 : Text → Bool
  is_ipv4 value = is_some_v4 (p.parse_ip value)

  unfoldable pub is_ipv6 : Text → Bool
  is_ipv6 value = is_some_v6 (p.parse_ip value)

  unfoldable pub valid_client_cidr : Text → Bool
  valid_client_cidr raw =
      let value = trim_space raw in
      if is_empty value
      then false
      else if is_some (p.parse_ip value)
      then true
      else is_some (p.parse_cidr value)

abbrev pub supported_scopes : List Text
supported_scopes =
    txt "read"
    ∷ txt "write"
    ∷ txt "admin"
    ∷ txt "*"
    ∷ txt "plugins:read"
    ∷ txt "plugins:write"
    ∷ txt "cache:read"
    ∷ txt "cache:write"
    ∷ txt "policy:write"
    ∷ txt "audit:read"
    ∷ txt "honeypot:read"
    ∷ txt "honeypot:write"
    ∷ txt "management:read"
    ∷ txt "management:write"
    ∷ txt "powerdns:read"
    ∷ txt "powerdns:write"
    ∷ txt "certificates:read"
    ∷ txt "certificates:write"
    ∷ txt "config:read"
    ∷ txt "config:write"
    ∷ []

unfoldable pub supported_management_scope : Text → Bool
supported_management_scope scope = has_text (to_lower (trim_space scope)) supported_scopes

unfoldable pub has_usable_management_key : List ManagementKey → Bool
has_usable_management_key keys = any (λ key. not (is_blank key.api_key)) keys
