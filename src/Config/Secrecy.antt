-- ===== src/Config/Secrecy.antt =====
-- What the admin UI is shown of a configuration does not depend on its secrets.
use any_ns.Base.{
  List, [], ◌∷◌, map, Bool, false, ◌≡◌, refl, sym, ap, ◌∙◌, Text, txt, if◌then◌else◌, Bool-cases,
  inl, inr,
}
use any_ns.Base.Int.{ℤ}
use any_ns.Access.{ManagementConfig}
use any_ns.Config.{Config, PluginConfig, HoneypotConfig, PowerDnsConfig}
use any_ns.Config.Editor.{
  has_secret, editable_plugin, editable_honeypot, editable_power_dns, editable,
}

-- All that is left of a secret and of the name of its file: whether there is one.
abbrev mark : Text → Text → Text
mark secret file = if has_secret secret file then txt "*" else []

abbrev masked_plugin : PluginConfig → PluginConfig
masked_plugin p = record p {
  backend_api_key = mark p.backend_api_key p.backend_api_key_file;
  backend_api_key_file = [];
}

abbrev masked_honeypot : HoneypotConfig → HoneypotConfig
masked_honeypot h = record h {
  api_key = mark h.api_key h.api_key_file;
  api_key_file = [];
  hmac_secret = mark h.hmac_secret h.hmac_secret_file;
  hmac_secret_file = [];
}

abbrev masked_power_dns : PowerDnsConfig → PowerDnsConfig
masked_power_dns d = record d {
  authoritative_api_key = mark d.authoritative_api_key d.authoritative_api_key_file;
  authoritative_api_key_file = [];
  recursor_api_key = mark d.recursor_api_key d.recursor_api_key_file;
  recursor_api_key_file = [];
}

abbrev no_management : ManagementConfig
no_management = record {
  api_key = [];
  api_key_file = [];
  auth_required = false;
  roles = [];
  keys = [];
}

-- A configuration without its secrets and without the management keys and roles.
unfoldable pub masked : {F : Type 0} → Config F → Config F
masked cfg = record cfg {
  honeypot_api_key = [];
  honeypot_hmac_secret = [];
  plugins = map masked_plugin cfg.plugins;
  honeypot = masked_honeypot cfg.honeypot;
  management = no_management;
  power_dns = masked_power_dns cfg.power_dns;
}

has_secret-mark : (secret file : Text) → has_secret (mark secret file) [] ≡ has_secret secret file
has_secret-mark secret file = elim (Bool-cases (has_secret secret file)) [
  | inl there ↦ rw there refl
  | inr absent ↦ rw absent refl
]

hides_plugin :
    (t : ℤ) (p : PluginConfig) → editable_plugin t (masked_plugin p) ≡ editable_plugin t p
unfolding editable_plugin
hides_plugin t p =
    ap (λ b. record (editable_plugin t p) { secret_configured = b })
      (has_secret-mark p.backend_api_key p.backend_api_key_file)

hides_plugins :
    (t : ℤ) (ps : List PluginConfig)
    → map (editable_plugin t) (map masked_plugin ps) ≡ map (editable_plugin t) ps
hides_plugins t [] = refl
hides_plugins t (p ∷ ps) = simp (hides_plugin t p, hides_plugins t ps)

hides_honeypot : (h : HoneypotConfig) → editable_honeypot (masked_honeypot h) ≡ editable_honeypot h
hides_honeypot h =
    simp
      (has_secret-mark h.api_key h.api_key_file, has_secret-mark h.hmac_secret h.hmac_secret_file)

hides_power_dns :
    (d : PowerDnsConfig) → editable_power_dns (masked_power_dns d) ≡ editable_power_dns d
hides_power_dns d = simp (
  has_secret-mark d.authoritative_api_key d.authoritative_api_key_file,
  has_secret-mark d.recursor_api_key d.recursor_api_key_file,
)

editable-masked :
    {F : Type 0} (can_open : Text → Bool) (cfg : Config F)
    → editable can_open (masked cfg) ≡ editable can_open cfg
unfolding editable masked
editable-masked can_open cfg = simp (
  hides_plugins cfg.request_timeout cfg.plugins,
  hides_honeypot cfg.honeypot,
  hides_power_dns cfg.power_dns,
)

-- Two configurations that are the same apart from their secrets, the names of the files of these,
-- and the management keys and roles, and that have a secret at the same places, are shown alike.
pub editable_hides :
    {F : Type 0} (can_open : Text → Bool) (a b : Config F)
    → masked a ≡ masked b
    → editable can_open a ≡ editable can_open b
editable_hides can_open a b same =
    sym (editable-masked can_open a) ∙ ap (editable can_open) same ∙ editable-masked can_open b
