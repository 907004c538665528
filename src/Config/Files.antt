-- ===== src/Config/Files.antt =====
-- Loading a configuration in internal/config/config.go: a file over the defaults, its secrets, and
-- the environment over both. The JSON decoder is a parameter.
use any_ns.Base.{[], Bool, not, ◌||◌, Text, txt, is_empty, ◌==◌, if◌then◌else◌, false}
use any_ns.Base.Int.{ℤ, pos, negsuc}
use any_ns.Base.Result.{Result, ok, err, ◌>>=◌}
use any_ns.DnsName.{Idna}
use any_ns.Security.{Floats}
use any_ns.Security.Counters.{with_defaults}
use any_ns.Config.{Config, DnsLogConfig}
use any_ns.Config.Defaults.{defaults, env}
use any_ns.Config.Overrides.{apply_env_overrides}
use any_ns.Config.Secrets.{FileSystem, resolve_secret_files}
use any_ns.Config.Loading.{
  FileConfig, text_or, int_or, list_or, apply_honeypot, apply_power_dns, apply_certificates,
}

abbrev pub is_zero : ℤ → Bool
is_zero (pos n) = n == 0
is_zero (negsuc n) = false

-- A section that says nothing of the log leaves it alone.
abbrev pub log_or : DnsLogConfig → DnsLogConfig → DnsLogConfig
log_or raw old =
    if not (is_zero raw.limit) || not (is_empty raw.path)
    then record raw { limit = int_or raw.limit old.limit }
    else old

module _ (fl : Floats) (idna : Idna) where
  -- The fields of the file that say something, over what is there.
  unfoldable pub apply_file : FileConfig fl.Float → Config fl.Float → Config fl.Float
  apply_file raw cfg =
      let base = record cfg {
        admin_addr = text_or raw.admin_addr cfg.admin_addr;
        runtime_addr = text_or raw.runtime_addr cfg.runtime_addr;
        log_forwarder_addr = text_or raw.log_forwarder_addr cfg.log_forwarder_addr;
        request_timeout = int_or raw.request_timeout cfg.request_timeout;
        routes = list_or raw.routes cfg.routes;
        plugins = list_or raw.plugins cfg.plugins;
        security =
            if raw.security.configured then with_defaults fl idna raw.security else cfg.security;
        dns_log = log_or raw.dns_log cfg.dns_log;
      } in
      let controlled = record (apply_honeypot raw.honeypot base) {
        control_plane = record {
          admin_proxy_runtime =
              raw.control_plane.admin_proxy_runtime || cfg.control_plane.admin_proxy_runtime;
          runtime_control_url =
              text_or raw.control_plane.runtime_control_url cfg.control_plane.runtime_control_url;
        };
        management = record {
          api_key = text_or raw.management.api_key cfg.management.api_key;
          api_key_file = text_or raw.management.api_key_file cfg.management.api_key_file;
          auth_required = raw.management.auth_required || cfg.management.auth_required;
          roles = list_or raw.management.roles cfg.management.roles;
          keys = list_or raw.management.keys cfg.management.keys;
        };
      } in
      apply_certificates raw.certificates (apply_power_dns raw.power_dns controlled)

  -- `decoded` is what the JSON decoder makes of the file.
  unfoldable pub load_with_base :
      FileSystem → Result (FileConfig fl.Float) → Text → Config fl.Float → Result (Config fl.Float)
  unfolding apply_file
  load_with_base fs decoded base cfg = do
    raw ← decoded
    resolve_secret_files fs base (apply_file raw cfg)

  abbrev pub decode_file :
      (Text → Result (FileConfig fl.Float)) → Result Text → Result (FileConfig fl.Float)
  decode_file decode (err e) = err e
  decode_file decode (ok body) = decode body

  unfoldable pub load_file :
      FileSystem
      → (Text → Result (FileConfig fl.Float))
      → (Text → Text)
      → Text
      → Result (Config fl.Float)
  unfolding load_with_base
  load_file fs decode get path = do
    cfg ← load_with_base fs (decode_file decode (fs.read path)) (fs.dir path) (defaults get fl)
    ok (record cfg { config_file = path })

  unfoldable pub load_file_with_env_overrides :
      FileSystem
      → (Text → Result (FileConfig fl.Float))
      → (Text → Text)
      → Text
      → Result (Config fl.Float)
  unfolding load_file
  load_file_with_env_overrides fs decode get path = do
    cfg ← load_file fs decode get path
    ok (apply_env_overrides get cfg)

  -- Without a file these are the defaults.
  unfoldable pub from_env_with_error :
      FileSystem → (Text → Result (FileConfig fl.Float)) → (Text → Text) → Result (Config fl.Float)
  unfolding load_file_with_env_overrides
  from_env_with_error fs decode get =
      let path = env get (txt "ANYNS_CONFIG_FILE") [] in
      if is_empty path
      then ok (defaults get fl)
      else load_file_with_env_overrides fs decode get path

  abbrev pub loaded_or : Config fl.Float → Result (Config fl.Float) → Config fl.Float
  loaded_or d (err e) = d
  loaded_or d (ok cfg) = cfg

  unfoldable pub from_env :
      FileSystem → (Text → Result (FileConfig fl.Float)) → (Text → Text) → Config fl.Float
  unfolding from_env_with_error
  from_env fs decode get = loaded_or (defaults get fl) (from_env_with_error fs decode get)
