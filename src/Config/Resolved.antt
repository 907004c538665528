-- ===== src/Config/Resolved.antt =====
-- What loading makes of the secrets.
use any_ns.Base.{
  ℕ, ◌+◌, List, [], ◌∷◌, ◌++◌, true, false, ◌≡◌, refl, sym, ap, ◌∙◌, ◌⊎◌, inl, inr, Text, txt,
  is_empty, trim_space, Bool-cases, if◌then◌else◌,
}
use mathlib.Core.Path.{subst}
use mathlib.Core.Logic.{Lift}
use any_ns.Base.Result.{Result, ok, err, ◌>>=◌, >>=-eq-ok, ok-injective}
use any_ns.Access.{ManagementKey}
use any_ns.Config.{Config, PluginConfig, is_blank}
use any_ns.Config.Secrets.{
  FileSystem, located, secret_of, read_secret_file, settled, settle_secret, settle_plugins,
  settle_keys, field_at, resolve_secret_files, with_backend_key, with_api_key, with_secrets,
  read_secrets, Secrets, collect,
}

module _ (fs : FileSystem) (base : Text) where
  -- A setting with its file before, and both afterwards: without a file nothing changes, and with one
  -- the setting was blank, and is what the file holds, which is not blank, and the file is no longer
  -- named.
  abbrev pub Settles : Text → Text → Text → Text → Type 0
  Settles value file value' file' =
      (((is_blank file ≡ true) × (value' ≡ value) × (file' ≡ file))
        ⊎ ((is_blank file ≡ false)
            × (is_blank value ≡ true)
            × (is_empty value' ≡ false)
            × (file' ≡ [])
            × ((body : Text) × (fs.read (located fs base (trim_space file)) ≡ ok body)
                × (value' ≡ trim_space body))))

  secret_read :
      (field path secret : Text) (r : Result Text)
      → secret_of fs field path r ≡ ok secret
      → (is_empty secret ≡ false) × ((body : Text) × (r ≡ ok body) × (secret ≡ trim_space body))
  secret_read field path secret (err e) h = cc
  secret_read field path secret (ok body) h = elim (Bool-cases (is_empty (trim_space body))) [
    | inl blank ↦
        let k : err (field ++ txt "_file " ++ fs.quoted path ++ txt " is empty") ≡ ok secret =
          rw blank at h in
        cc
    | inr more ↦
        let k : ok (trim_space body) ≡ ok secret = rw more at h in
        let e : trim_space body ≡ secret = ok-injective k in
        (ap is_empty (sym e) ∙ more, (body, refl, sym e))
  ]

  settle_secret-Settles :
      (field value file value' file' : Text)
      → settle_secret fs field value file base ≡ ok (value', file')
      → Settles value file value' file'
  unfolding settle_secret read_secret_file
  settle_secret-Settles field value file value' file' h =
      let (secret, r, e) = >>=-eq-ok (read_secret_file fs field value file base) _ h in
      let pair : settled fs value file secret ≡ (value', file') = ok-injective e in
      elim (Bool-cases (is_blank file)) [
        | inl none_given ↦
            let k : ◌≡◌ {A = Result Text} (ok []) (ok secret) = rw none_given at r in
            let q : (value, file) ≡ (value', file') =
              ap (settled fs value file) (ok-injective k) ∙ pair in
            inl (
              none_given,
              sym (ap (λ (x : Text × Text). x.0) q),
              sym (ap (λ (x : Text × Text). x.1) q),
            )
        | inr given ↦ elim (Bool-cases (is_blank value)) [
          | inr inline ↦ absurd (both_set r given inline)
          | inl blank ↦
              let k : secret_of fs field (trim_space file)
                    (fs.read (located fs base (trim_space file)))
                  ≡ ok secret =
                rw (given, blank) at r in
              let (more, (body, b, t)) =
                secret_read field (trim_space file) secret
                  (fs.read (located fs base (trim_space file))) k in
              let q : (secret, []) ≡ (value', file') = rw more at pair in
              let same : secret ≡ value' = ap (λ (x : Text × Text). x.0) q in
              inr (
                given,
                blank,
                ap is_empty (sym same) ∙ more,
                sym (ap (λ (x : Text × Text). x.1) q),
                (body, b, sym same ∙ t),
              )
        ]
      ]
    where
      both_set :
          {secret : Text}
          → read_secret_file fs field value file base ≡ ok secret
          → is_blank file ≡ false
          → is_blank value ≡ false
          → ⊥
      both_set {secret = secret} r given inline =
          let k : err (field ++ txt " must not set both inline value and file reference")
              ≡ ok secret =
            rw (given, inline) at r in
          cc

  -- A plugin and a key without what can be read from a file.
  abbrev pub without_key : PluginConfig → PluginConfig
  without_key p = record p { backend_api_key = []; backend_api_key_file = [] }

  abbrev pub without_token : ManagementKey → ManagementKey
  without_token k = record k { api_key = []; api_key_file = [] }

  -- The plugins before and after, one by one.
  abbrev pub PluginsSettle : List PluginConfig → List PluginConfig → Type 0
  PluginsSettle [] [] = Unit
  PluginsSettle (p ∷ ps) (q ∷ qs) =
      (Settles p.backend_api_key p.backend_api_key_file q.backend_api_key q.backend_api_key_file
        × (without_key q ≡ without_key p)
        × PluginsSettle ps qs)
  PluginsSettle _ _ = Lift ⊥

  abbrev pub KeysSettle : List ManagementKey → List ManagementKey → Type 0
  KeysSettle [] [] = Unit
  KeysSettle (k ∷ ks) (l ∷ ls) =
      (Settles k.api_key k.api_key_file l.api_key l.api_key_file
        × (without_token l ≡ without_token k)
        × KeysSettle ks ls)
  KeysSettle _ _ = Lift ⊥

  settle_plugins-PluginsSettle :
      (i : ℕ) (ps qs : List PluginConfig)
      → settle_plugins fs base i ps ≡ ok qs
      → PluginsSettle ps qs
  unfolding settle_plugins
  settle_plugins-PluginsSettle i [] qs h = subst (PluginsSettle []) (ok-injective h) tt
  settle_plugins-PluginsSettle i (p ∷ ps) qs h =
      let field = field_at fs (txt "plugins") i (txt "backend_api_key") in
      let (pair, a, h₁) =
        >>=-eq-ok (settle_secret fs field p.backend_api_key p.backend_api_key_file base)
          (λ pair.
            settle_plugins fs base (i + 1) ps >>= (λ rest. ok (with_backend_key fs p pair ∷ rest)))
          h in
      let (rest, b, h₂) =
        >>=-eq-ok (settle_plugins fs base (i + 1) ps)
          (λ rest. ok (with_backend_key fs p pair ∷ rest)) h₁ in
      subst (PluginsSettle (p ∷ ps)) {x = with_backend_key fs p pair ∷ rest} (ok-injective h₂) (
        settle_secret-Settles field _ _ pair.0 pair.1 a,
        refl,
        settle_plugins-PluginsSettle (i + 1) ps rest b,
      )

  settle_keys-KeysSettle :
      (i : ℕ) (ks ls : List ManagementKey) → settle_keys fs base i ks ≡ ok ls → KeysSettle ks ls
  unfolding settle_keys
  settle_keys-KeysSettle i [] ls h = subst (KeysSettle []) (ok-injective h) tt
  settle_keys-KeysSettle i (k ∷ ks) ls h =
      let field = field_at fs (txt "management.keys") i (txt "api_key") in
      let (pair, a, h₁) =
        >>=-eq-ok (settle_secret fs field k.api_key k.api_key_file base)
          (λ pair. settle_keys fs base (i + 1) ks >>= (λ rest. ok (with_api_key fs k pair ∷ rest)))
          h in
      let (rest, b, h₂) =
        >>=-eq-ok (settle_keys fs base (i + 1) ks) (λ rest. ok (with_api_key fs k pair ∷ rest))
          h₁ in
      subst (KeysSettle (k ∷ ks)) {x = with_api_key fs k pair ∷ rest} (ok-injective h₂) (
        settle_secret-Settles field _ _ pair.0 pair.1 a,
        refl,
        settle_keys-KeysSettle (i + 1) ks rest b,
      )

  -- Every part of what is read.
  record AllOk (a : Result (List PluginConfig)) (b c d : Result (Text × Text))
      (e : Result (List ManagementKey)) (f g : Result (Text × Text)) (s : Secrets fs) : Type 0 where
    plugins : a ≡ ok s.plugins
    key : b ≡ ok s.honeypot_key
    hmac : c ≡ ok s.honeypot_hmac
    management : d ≡ ok s.management
    keys : e ≡ ok s.keys
    authoritative : f ≡ ok s.authoritative
    recursor : g ≡ ok s.recursor

  collect-AllOk :
      (a : Result (List PluginConfig)) (b c d : Result (Text × Text))
      (e : Result (List ManagementKey)) (f g : Result (Text × Text)) (s : Secrets fs)
      → collect fs a b c d e f g ≡ ok s
      → AllOk a b c d e f g s
  collect-AllOk (err _) b c d e f g s h = cc
  collect-AllOk (ok _) (err _) c d e f g s h = cc
  collect-AllOk (ok _) (ok _) (err _) d e f g s h = cc
  collect-AllOk (ok _) (ok _) (ok _) (err _) e f g s h = cc
  collect-AllOk (ok _) (ok _) (ok _) (ok _) (err _) f g s h = cc
  collect-AllOk (ok _) (ok _) (ok _) (ok _) (ok _) (err _) g s h = cc
  collect-AllOk (ok _) (ok _) (ok _) (ok _) (ok _) (ok _) (err _) s h = cc
  collect-AllOk (ok a) (ok b) (ok c) (ok d) (ok e) (ok f) (ok g) s h =
      let k = ok-injective h in
      record {
        plugins = ap (λ (x : Secrets fs). ok x.plugins) k;
        key = ap (λ (x : Secrets fs). ok x.honeypot_key) k;
        hmac = ap (λ (x : Secrets fs). ok x.honeypot_hmac) k;
        management = ap (λ (x : Secrets fs). ok x.management) k;
        keys = ap (λ (x : Secrets fs). ok x.keys) k;
        authoritative = ap (λ (x : Secrets fs). ok x.authoritative) k;
        recursor = ap (λ (x : Secrets fs). ok x.recursor) k;
      }

  -- A configuration with all that can be read from a file left out, and with it the two settings
  -- outside the section of the honeypot that mirror its secrets.
  abbrev pub without_secrets : {F : Type 0} → Config F → Config F
  without_secrets cfg = record cfg {
    plugins = [];
    honeypot_api_key = [];
    honeypot_hmac_secret = [];
    honeypot = record cfg.honeypot {
      api_key = [];
      api_key_file = [];
      hmac_secret = [];
      hmac_secret_file = [];
    };
    management = record cfg.management { api_key = []; api_key_file = []; keys = [] };
    power_dns = record cfg.power_dns {
      authoritative_api_key = [];
      authoritative_api_key_file = [];
      recursor_api_key = [];
      recursor_api_key_file = [];
    };
  }

  -- A setting outside the section follows the secret inside where a file is named for that.
  abbrev pub Mirrors : Text → Text → Text → Text → Type 0
  Mirrors file inside before after =
      ((is_blank file ≡ true) × (after ≡ before)) ⊎ ((is_blank file ≡ false) × (after ≡ inside))

  mirrored :
      (file inside before : Text)
      → Mirrors file inside before (if is_blank file then before else inside)
  mirrored file inside before = elim (Bool-cases (is_blank file)) [
    | inl blank ↦ rw blank (inl (refl, refl))
    | inr named ↦ rw named (inr (refl, refl))
  ]

  -- What is settled of a configuration.
  pub record IsResolved {F : Type 0} (cfg cfg' : Config F) : Type 0 where
    pub plugins : PluginsSettle cfg.plugins cfg'.plugins
    pub honeypot_key :
        Settles cfg.honeypot.api_key cfg.honeypot.api_key_file cfg'.honeypot.api_key
          cfg'.honeypot.api_key_file
    pub honeypot_hmac :
        Settles cfg.honeypot.hmac_secret cfg.honeypot.hmac_secret_file cfg'.honeypot.hmac_secret
          cfg'.honeypot.hmac_secret_file
    pub management :
        Settles cfg.management.api_key cfg.management.api_key_file cfg'.management.api_key
          cfg'.management.api_key_file
    pub keys : KeysSettle cfg.management.keys cfg'.management.keys
    pub authoritative :
        Settles cfg.power_dns.authoritative_api_key cfg.power_dns.authoritative_api_key_file
          cfg'.power_dns.authoritative_api_key cfg'.power_dns.authoritative_api_key_file
    pub recursor :
        Settles cfg.power_dns.recursor_api_key cfg.power_dns.recursor_api_key_file
          cfg'.power_dns.recursor_api_key cfg'.power_dns.recursor_api_key_file
    pub mirrored_key :
        Mirrors cfg.honeypot.api_key_file cfg'.honeypot.api_key cfg.honeypot_api_key
          cfg'.honeypot_api_key
    pub mirrored_hmac :
        Mirrors cfg.honeypot.hmac_secret_file cfg'.honeypot.hmac_secret cfg.honeypot_hmac_secret
          cfg'.honeypot_hmac_secret
    pub others : without_secrets cfg' ≡ without_secrets cfg

  settled_all :
      {F : Type 0} (cfg : Config F) (s : Secrets fs)
      → read_secrets fs base cfg ≡ ok s
      → IsResolved cfg (with_secrets fs cfg s)
  unfolding read_secrets
  settled_all cfg s h =
      let all = collect-AllOk _ _ _ _ _ _ _ s h in
      record {
        plugins = settle_plugins-PluginsSettle 0 cfg.plugins s.plugins all.plugins;
        honeypot_key = settle_secret-Settles (txt "honeypot.api_key") _ _ _ _ all.key;
        honeypot_hmac = settle_secret-Settles (txt "honeypot.hmac_secret") _ _ _ _ all.hmac;
        management = settle_secret-Settles (txt "management.api_key") _ _ _ _ all.management;
        keys = settle_keys-KeysSettle 0 cfg.management.keys s.keys all.keys;
        authoritative =
            settle_secret-Settles (txt "powerdns.authoritative_api_key") _ _ _ _ all.authoritative;
        recursor = settle_secret-Settles (txt "powerdns.recursor_api_key") _ _ _ _ all.recursor;
        mirrored_key = mirrored cfg.honeypot.api_key_file s.honeypot_key.0 cfg.honeypot_api_key;
        mirrored_hmac =
            mirrored cfg.honeypot.hmac_secret_file s.honeypot_hmac.0 cfg.honeypot_hmac_secret;
        others = refl;
      }

  -- Where loading succeeds, every secret for which no file was named is as it was; every secret for
  -- which one was named, be it of a plugin, of a management key or of a service, was blank before,
  -- and is now what the file holds without the white space around it, which is not empty, and its
  -- file is no longer named. A configuration that names a file beside a value is never loaded. The
  -- two settings that mirror the secrets of the honeypot follow them where a file was named, and
  -- stay otherwise. All else in the configuration is as it was.
  pub resolve_secret_files-IsResolved :
      {F : Type 0} (cfg cfg' : Config F)
      → resolve_secret_files fs base cfg ≡ ok cfg'
      → IsResolved cfg cfg'
  unfolding resolve_secret_files
  resolve_secret_files-IsResolved cfg cfg' h =
      let (s, r, e) = >>=-eq-ok (read_secrets fs base cfg) (λ s. ok (with_secrets fs cfg s)) h in
      subst (IsResolved cfg) (ok-injective e) (settled_all cfg s r)
