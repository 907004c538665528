-- ===== src/Config/Editing.antt =====
-- An edit that leaves everything as it is shown leaves the configuration as it is.
use any_ns.Base.{
  List, [], ◌∷◌, ◌++◌, map, Bool, true, false, ◌≡◌, refl, ap, ◌∙◌, Text, ◌=t◌, =t_iff, All,
  if◌then◌else◌, Bool-cases, inl, inr,
}
use mathlib.Core.List.{append_assoc}
use mathlib.Core.Path.{subst}
use any_ns.Base.Int.{ℤ, is_pos}
use any_ns.DnsName.{Idna}
use any_ns.Security.{Floats}
use any_ns.Config.{Config, PluginConfig, HoneypotConfig, PowerDnsConfig, CertificatesConfig}
use any_ns.Config.Defaults.{seconds, whole_seconds}
use any_ns.Config.Editor.{
  editable_plugin, editable_honeypot, editable_power_dns, editable_certificates, editable,
  blank_plugin, current_plugin, merged_plugin, apply_honeypot_edit, apply_power_dns_edit,
  apply_certificates_edit, settled_policy, apply_editable,
}

-- A duration that is shown in seconds as it is.
abbrev pub IsWhole : ℤ → Type 0
IsWhole d = seconds (whole_seconds d) ≡ d

-- A plugin whose own timeout is shown.
pub record HasTimeout (p : PluginConfig) : Type 0 where
  pub positive : is_pos (whole_seconds p.request_timeout) ≡ true
  pub whole : IsWhole p.request_timeout

-- No plugin has the name of a later one.
abbrev pub AreNamedApart : List PluginConfig → Type 0
AreNamedApart [] = Unit
AreNamedApart (p ∷ ps) = All (λ q. (q.name =t p.name) ≡ false) ps × AreNamedApart ps

pub record IsPlainHoneypot (h : HoneypotConfig) : Type 0 where
  pub interval : IsWhole h.retry_interval
  pub timeout : IsWhole h.request_timeout

pub record IsPlainPowerDns (d : PowerDnsConfig) : Type 0 where
  pub timeout : IsWhole d.request_timeout
  pub same : whole_seconds d.request_timeout ≡ d.request_timeout_seconds

pub record IsPlainCertificates (c : CertificatesConfig) : Type 0 where
  pub timeout : IsWhole c.request_timeout
  pub same_timeout : whole_seconds c.request_timeout ≡ c.request_timeout_seconds
  pub propagation : IsWhole c.dns_propagation_timeout
  pub same_propagation : whole_seconds c.dns_propagation_timeout ≡ c.dns_propagation_timeout_secs
  pub interval : IsWhole c.dns_poll_interval
  pub same_interval : whole_seconds c.dns_poll_interval ≡ c.dns_poll_interval_seconds

last_wins :
    (n : Text) (found : PluginConfig) (ps : List PluginConfig)
    → All (λ q. (q.name =t n) ≡ false) ps
    → current_plugin n found ps ≡ found
unfolding current_plugin
last_wins n found [] h = refl
last_wins n found (p ∷ ps) h = rw h.0 (last_wins n found ps h.1)

current_plugin-append :
    (n : Text) (found : PluginConfig) (xs ys : List PluginConfig)
    → current_plugin n found (xs ++ ys) ≡ current_plugin n (current_plugin n found xs) ys
unfolding current_plugin
current_plugin-append n found [] ys = refl
current_plugin-append n found (x ∷ xs) ys =
    current_plugin-append n (if x.name =t n then x else found) xs ys

finds_itself :
    (before after : List PluginConfig) (p : PluginConfig)
    → All (λ q. (q.name =t p.name) ≡ false) after
    → current_plugin p.name blank_plugin (before ++ p ∷ after) ≡ p
unfolding current_plugin
finds_itself before after p h =
    let same : (p.name =t p.name) ≡ true = (=t_iff p.name p.name).1 refl in
    current_plugin-append p.name blank_plugin before (p ∷ after)
    ∙ rw same (last_wins p.name p after h)

merges_back :
    (t : ℤ) (before after : List PluginConfig) (p : PluginConfig)
    → All (λ q. (q.name =t p.name) ≡ false) after
    → HasTimeout p
    → merged_plugin (before ++ p ∷ after) (editable_plugin t p) ≡ p
unfolding merged_plugin editable_plugin
merges_back t before after p h timeout =
    ap
      (λ (x : PluginConfig). record x {
        name = p.name;
        enabled = p.enabled;
        backend_type = p.backend_type;
        backend_url = p.backend_url;
        request_timeout =
            (merged_plugin (before ++ p ∷ after) (editable_plugin t p)).request_timeout;
      })
      (finds_itself before after p h)
    ∙ rw timeout.positive (ap (λ x. record p { request_timeout = x }) timeout.whole)

merge_all :
    (t : ℤ) (before ps : List PluginConfig)
    → AreNamedApart ps
    → All HasTimeout ps
    → map (merged_plugin (before ++ ps)) (map (editable_plugin t) ps) ≡ ps
merge_all t before [] apart timeouts = refl
merge_all t before (p ∷ ps) apart timeouts =
    let rest : map (merged_plugin (before ++ p ∷ ps)) (map (editable_plugin t) ps) ≡ ps =
      subst (λ all. map (merged_plugin all) (map (editable_plugin t) ps) ≡ ps)
        (append_assoc before (p ∷ []) ps) (merge_all t (before ++ p ∷ []) ps apart.1 timeouts.1) in
    ap (◌∷◌ (merged_plugin (before ++ p ∷ ps) (editable_plugin t p))) rest
    ∙ ap (λ x. x ∷ ps) (merges_back t before ps p apart.0 timeouts.0)

honeypot_back :
    (h : HoneypotConfig) → IsPlainHoneypot h → apply_honeypot_edit (editable_honeypot h) h ≡ h
honeypot_back h k = simp (k.interval, k.timeout)

power_dns_back :
    (d : PowerDnsConfig) → IsPlainPowerDns d → apply_power_dns_edit (editable_power_dns d) d ≡ d
power_dns_back d k =
    ap
      (λ x. record d {
        request_timeout = x;
        request_timeout_seconds = whole_seconds d.request_timeout;
      })
      k.timeout
    ∙ ap (λ x. record d { request_timeout_seconds = x }) k.same

certificates_back :
    (c : CertificatesConfig)
    → IsPlainCertificates c
    → apply_certificates_edit (editable_certificates c) ≡ c
certificates_back c k =
    simp (k.timeout, k.propagation, k.interval)
      (simp (k.same_timeout, k.same_propagation, k.same_interval))

module _ (fl : Floats) (idna : Idna) where
  -- A configuration whose shown part holds all that an edit sets.
  pub record IsPlain (cfg : Config fl.Float) : Type 0 where
    pub timeout : IsWhole cfg.request_timeout
    pub apart : AreNamedApart cfg.plugins
    pub timeouts : All HasTimeout cfg.plugins
    pub policy : settled_policy fl idna cfg.security ≡ cfg.security
    pub honeypot : IsPlainHoneypot cfg.honeypot
    pub same_url : cfg.honeypot.url ≡ cfg.honeypot_url
    pub power_dns : IsPlainPowerDns cfg.power_dns
    pub certificates : IsPlainCertificates cfg.certificates

  same_timeout :
      (d : ℤ) → IsWhole d → (if is_pos (whole_seconds d) then seconds (whole_seconds d) else d) ≡ d
  same_timeout d h = elim (Bool-cases (is_pos (whole_seconds d))) [
    | inl positive ↦ rw positive h
    | inr other ↦ rw other refl
  ]

  -- An edit of a configuration to what is shown of it leaves it as it is, where each of its
  -- durations is a number of seconds that comes back from its seconds, the plugins' ones a positive
  -- number, each duration that is also kept in seconds agrees with these, no plugin has the name of
  -- a later one, the policy is its own settled form, and the honeypot's URL is in both its places.
  pub apply_editable-editable :
      (can_open : Text → Bool) (cfg : Config fl.Float)
      → IsPlain cfg
      → apply_editable fl idna cfg (editable can_open cfg) ≡ cfg
  unfolding apply_editable editable
  apply_editable-editable can_open cfg h =
      simp
        (
          same_timeout cfg.request_timeout h.timeout,
          merge_all cfg.request_timeout [] cfg.plugins h.apart h.timeouts,
          h.policy,
          honeypot_back cfg.honeypot h.honeypot,
          power_dns_back cfg.power_dns h.power_dns,
          certificates_back cfg.certificates h.certificates,
        )
        (ap (λ x. record cfg { honeypot_url = x }) h.same_url)
