-- ===== src/Config/Secrets.antt =====
-- The secrets that internal/config/config.go reads from files. The file system and the functions of
-- Go's `filepath` are parameters.
use any_ns.Base.{
  ℕ, ◌+◌, List, [], ◌∷◌, ◌++◌, Bool, not, ◌&&◌, Text, txt, is_empty, trim_space, if◌then◌else◌,
}
use any_ns.Base.Number.{itoa}
use any_ns.Base.Result.{Result, ok, err, ◌>>=◌}
use any_ns.Access.{ManagementKey}
use any_ns.Config.{Config, PluginConfig, is_blank}

pub record FileSystem : Type 0 where
  pub is_abs : Text → Bool
  pub join : Text → Text → Text
  pub dir : Text → Text
  pub read : Text → Result Text
  pub quoted : Text → Text

module _ (fs : FileSystem) where
  abbrev pub located : Text → Text → Text
  located base path =
      if not (is_empty base) && not (fs.is_abs path) then fs.join base path else path

  abbrev pub secret_of : Text → Text → Result Text → Result Text
  secret_of field path (err e) =
      err (txt "read " ++ field ++ txt "_file " ++ fs.quoted path ++ txt ": " ++ e)
  secret_of field path (ok body) =
      if is_empty (trim_space body)
      then err (field ++ txt "_file " ++ fs.quoted path ++ txt " is empty")
      else ok (trim_space body)

  -- `ok []`: there is no file.
  unfoldable pub read_secret_file : Text → Text → Text → Text → Result Text
  read_secret_file field inline_value file_path base =
      let path = trim_space file_path in
      if is_empty path
      then ok []
      else if not (is_blank inline_value)
      then err (field ++ txt " must not set both inline value and file reference")
      else secret_of field path (fs.read (located base path))

  -- A setting with its file, after the secret is read.
  abbrev pub settled : Text → Text → Text → Text × Text
  settled inline_value file_path secret =
      if is_empty secret then (inline_value, file_path) else (secret, [])

  unfoldable pub settle_secret : Text → Text → Text → Text → Result (Text × Text)
  unfolding read_secret_file
  settle_secret field inline_value file_path base =
      read_secret_file field inline_value file_path base
      >>= (λ secret. ok (settled inline_value file_path secret))

  abbrev pub field_at : Text → ℕ → Text → Text
  field_at list i field = list ++ txt "[" ++ itoa i ++ txt "]." ++ field

  abbrev pub with_backend_key : PluginConfig → Text × Text → PluginConfig
  with_backend_key p (key, file) = record p { backend_api_key = key; backend_api_key_file = file }

  abbrev pub with_api_key : ManagementKey → Text × Text → ManagementKey
  with_api_key k (key, file) = record k { api_key = key; api_key_file = file }

  unfoldable pub settle_plugins : Text → ℕ → List PluginConfig → Result (List PluginConfig)
  unfolding settle_secret
  settle_plugins base i [] = ok []
  settle_plugins base i (p ∷ ps) = do
    pair ←
        settle_secret (field_at (txt "plugins") i (txt "backend_api_key")) p.backend_api_key
          p.backend_api_key_file base
    rest ← settle_plugins base (i + 1) ps
    ok (with_backend_key p pair ∷ rest)

  unfoldable pub settle_keys : Text → ℕ → List ManagementKey → Result (List ManagementKey)
  unfolding settle_secret
  settle_keys base i [] = ok []
  settle_keys base i (k ∷ ks) = do
    pair ←
        settle_secret (field_at (txt "management.keys") i (txt "api_key")) k.api_key k.api_key_file
          base
    rest ← settle_keys base (i + 1) ks
    ok (with_api_key k pair ∷ rest)

  -- The settings that are read, in their order: the pairs of a value and its file.
  pub record Secrets : Type 0 where
    pub plugins : List PluginConfig
    pub honeypot_key : Text × Text
    pub honeypot_hmac : Text × Text
    pub management : Text × Text
    pub keys : List ManagementKey
    pub authoritative : Text × Text
    pub recursor : Text × Text

  -- The first error counts.
  abbrev pub collect :
      Result (List PluginConfig)
      → Result (Text × Text)
      → Result (Text × Text)
      → Result (Text × Text)
      → Result (List ManagementKey)
      → Result (Text × Text)
      → Result (Text × Text)
      → Result Secrets
  collect plugins key hmac management keys authoritative recursor = do
    plugins ← plugins
    key ← key
    hmac ← hmac
    management ← management
    keys ← keys
    authoritative ← authoritative
    recursor ← recursor
    ok (record {
      plugins = plugins;
      honeypot_key = key;
      honeypot_hmac = hmac;
      management = management;
      keys = keys;
      authoritative = authoritative;
      recursor = recursor;
    })

  unfoldable pub read_secrets : {F : Type 0} → Text → Config F → Result Secrets
  unfolding settle_secret settle_plugins settle_keys
  read_secrets base cfg =
      collect (settle_plugins base 0 cfg.plugins)
        (settle_secret (txt "honeypot.api_key") cfg.honeypot.api_key cfg.honeypot.api_key_file base)
        (settle_secret (txt "honeypot.hmac_secret") cfg.honeypot.hmac_secret
          cfg.honeypot.hmac_secret_file base)
        (settle_secret (txt "management.api_key") cfg.management.api_key cfg.management.api_key_file
          base)
        (settle_keys base 0 cfg.management.keys)
        (settle_secret (txt "powerdns.authoritative_api_key") cfg.power_dns.authoritative_api_key
          cfg.power_dns.authoritative_api_key_file base)
        (settle_secret (txt "powerdns.recursor_api_key") cfg.power_dns.recursor_api_key
          cfg.power_dns.recursor_api_key_file base)

  -- The mirrored settings outside the section follow where a secret is read.
  abbrev pub with_secrets : {F : Type 0} → Config F → Secrets → Config F
  with_secrets cfg s = record cfg {
    plugins = s.plugins;
    honeypot_api_key =
        if is_blank cfg.honeypot.api_key_file then cfg.honeypot_api_key else s.honeypot_key.0;
    honeypot_hmac_secret =
        if is_blank cfg.honeypot.hmac_secret_file
        then cfg.honeypot_hmac_secret
        else s.honeypot_hmac.0;
    honeypot = record cfg.honeypot {
      api_key = s.honeypot_key.0;
      api_key_file = s.honeypot_key.1;
      hmac_secret = s.honeypot_hmac.0;
      hmac_secret_file = s.honeypot_hmac.1;
    };
    management = record cfg.management {
      api_key = s.management.0;
      api_key_file = s.management.1;
      keys = s.keys;
    };
    power_dns = record cfg.power_dns {
      authoritative_api_key = s.authoritative.0;
      authoritative_api_key_file = s.authoritative.1;
      recursor_api_key = s.recursor.0;
      recursor_api_key_file = s.recursor.1;
    };
  }

  unfoldable pub resolve_secret_files : {F : Type 0} → Text → Config F → Result (Config F)
  unfolding read_secrets
  resolve_secret_files base cfg = do secrets ← read_secrets base cfg; ok (with_secrets cfg secrets)
