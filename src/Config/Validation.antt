-- ===== src/Config/Validation.antt =====
-- `Config.Validate` of internal/config/config.go: the list of problems, in order.
use any_ns.Base.{
  ℕ, ◌+◌, List, [], ◌∷◌, ◌++◌, Bool, true, false, not, ◌&&◌, ◌||◌, Text, txt, ◌=t◌, is_empty,
  trim_space, contains, if◌then◌else◌,
}
use any_ns.Base.Members.{has_text}
use any_ns.Base.Int.{ℤ, negsuc, pos, is_pos}
use any_ns.Base.Number.{itoa}
use any_ns.Plugins.{Route}
use any_ns.Access.{Platform, is_nil}
use any_ns.Config.{
  Config, PluginConfig, PowerDnsConfig, CertificatesConfig, Formats, is_blank, valid_http_url,
  valid_plugin_backend_url, valid_plugin_backend_type,
}

-- `if bad { problems = append(problems, message) }`
abbrev pub problem : Bool → Text → List Text
problem bad message = if bad then message ∷ [] else []

abbrev pub is_negative : ℤ → Bool
is_negative (pos n) = false
is_negative (negsuc n) = true

-- Two settings that must not be set both.
abbrev pub both : Text → Text → Text → List Text
both value file message = problem (not (is_blank value) && not (is_blank file)) message

-- `section[i]rest`
abbrev pub at : Text → ℕ → Text → Text
at section i rest = section ++ txt "[" ++ itoa i ++ txt "]" ++ rest

abbrev pub must_be_positive : ℤ → Text → List Text
must_be_positive n name = problem (not (is_pos n)) (name ++ txt " must be greater than zero")

abbrev pub required : Text → Text → List Text
required s name = problem (is_blank s) (name ++ txt " is required")

abbrev pub is_dot : Text → Bool
is_dot s = is_empty s || s =t txt "."

-- The loop over a list of texts, with what is bad of each.
unfoldable pub check_each : (Text → Bool) → (ℕ → Text → Text) → ℕ → List Text → List Text
check_each bad message j [] = []
check_each bad message j (s ∷ ss) =
    problem (bad s) (message j s) ++ check_each bad message (j + 1) ss

module _ (p : Platform) (f : Formats p) where
  abbrev pub http_url : Text → Text → List Text
  http_url s name =
      problem (not (is_empty s) && not (valid_http_url p f s))
        (name ++ txt " must be an http or https URL with a host")

  abbrev pub service_problems : {F : Type 0} → Config F → List Text
  service_problems cfg =
      required cfg.admin_addr (txt "admin_addr")
      ++ required cfg.runtime_addr (txt "runtime_addr")
      ++ required cfg.log_forwarder_addr (txt "log_forwarder_addr")
      ++ must_be_positive cfg.request_timeout (txt "request_timeout")
      ++ must_be_positive cfg.dns_log.limit (txt "dnslog.limit")
      ++ must_be_positive cfg.honeypot.failed_queue_max_entries
          (txt "honeypot.failed_queue_max_entries")
      ++ must_be_positive cfg.honeypot.retry_interval (txt "honeypot.retry_interval")
      ++ must_be_positive cfg.honeypot.max_attempts (txt "honeypot.max_attempts")
      ++ must_be_positive cfg.honeypot.request_timeout (txt "honeypot.request_timeout")
      ++ problem
          (cfg.control_plane.admin_proxy_runtime && is_blank cfg.control_plane.runtime_control_url)
          (txt
            "control_plane.runtime_control_url is required when control_plane.admin_proxy_runtime is true")
      ++ http_url cfg.control_plane.runtime_control_url (txt "control_plane.runtime_control_url")

  abbrev pub power_dns_problems : PowerDnsConfig → List Text
  power_dns_problems d =
      http_url d.authoritative_url (txt "powerdns.authoritative_url")
      ++ http_url d.recursor_url (txt "powerdns.recursor_url")
      ++ required d.server_id (txt "powerdns.server_id")
      ++ must_be_positive d.request_timeout (txt "powerdns.request_timeout")
      ++ both d.authoritative_api_key d.authoritative_api_key_file
          (txt "powerdns must not set both authoritative_api_key and authoritative_api_key_file")
      ++ both d.recursor_api_key d.recursor_api_key_file
          (txt "powerdns must not set both recursor_api_key and recursor_api_key_file")

  abbrev pub acme_problems : CertificatesConfig → PowerDnsConfig → List Text
  acme_problems c d =
      problem (not (valid_http_url p f c.directory_url))
        (txt "certificates.directory_url must be an http or https URL with a host")
      ++ problem (is_blank c.account_email || not (contains c.account_email (txt "@")))
          (txt "certificates.account_email must be a valid account email")
      ++ problem (not c.accept_tos)
          (txt "certificates.accept_tos must be true when certificate issuance is enabled")
      ++ problem (is_blank d.authoritative_url)
          (txt "powerdns.authoritative_url is required for ACME DNS-01")

  abbrev pub issuer_problems : CertificatesConfig → PowerDnsConfig → List Text
  issuer_problems c d =
      let mode = trim_space c.issuer_mode in
      if is_empty mode || mode =t txt "acme"
      then acme_problems c d
      else if mode =t txt "private-ca"
      then problem
          (not (is_blank c.crl_distribution_url) && not (valid_http_url p f c.crl_distribution_url))
          (txt "certificates.crl_distribution_url must be an http or https URL with a host")
      else txt "certificates.issuer_mode must be acme or private-ca" ∷ []

  abbrev pub certificates_problems : CertificatesConfig → PowerDnsConfig → List Text
  certificates_problems c d =
      (if c.enabled
        then required c.storage_dir (txt "certificates.storage_dir") ++ issuer_problems c d
        else [])
      ++ must_be_positive c.request_timeout (txt "certificates.request_timeout")
      ++ must_be_positive c.dns_propagation_timeout (txt "certificates.dns_propagation_timeout")
      ++ must_be_positive c.dns_poll_interval (txt "certificates.dns_poll_interval")
      ++ must_be_positive c.max_attempts (txt "certificates.max_attempts")
      ++ must_be_positive c.renew_before_days (txt "certificates.renew_before_days")

  -- One plugin whose name, trimmed, is not empty.
  abbrev pub plugin_problems : ℕ → Text → Bool → PluginConfig → List Text
  plugin_problems i name seen c =
      problem seen (at (txt "plugins") i (txt ".name " ++ f.quoted name ++ txt " is duplicated"))
      ++ problem (is_negative c.request_timeout)
          (at (txt "plugins") i (txt ".request_timeout must not be negative"))
      ++ problem (not (is_empty c.backend_url) && not (valid_plugin_backend_url p f c.backend_url))
          (at (txt "plugins") i (txt ".backend_url must use http, https, or dns scheme"))
      ++ problem (not (valid_plugin_backend_type name c.backend_type)) (
          at (txt "plugins") i (
            txt ".backend_type "
            ++ f.quoted c.backend_type
            ++ txt " is unsupported for plugin "
            ++ f.quoted name))
      ++ both c.backend_api_key c.backend_api_key_file
          (at (txt "plugins") i (txt " must not set both backend_api_key and backend_api_key_file"))

  -- The loop over the plugins: the problems, and the names.
  unfoldable pub check_plugins : ℕ → List Text → List PluginConfig → List Text × List Text
  check_plugins i names [] = ([], names)
  check_plugins i names (c ∷ cs) =
      let name = trim_space c.name in
      let (skipped, skipped_names) = check_plugins (i + 1) names cs in
      let (rest, rest_names) = check_plugins (i + 1) (names ++ name ∷ []) cs in
      if is_empty name
      then (at (txt "plugins") i (txt ".name is required") ∷ skipped, skipped_names)
      else (plugin_problems i name (has_text name names) c ++ rest, rest_names)

  abbrev pub route_problems : List Text → ℕ → Route → List Text
  route_problems names i r =
      let plugin = trim_space r.plugin in
      problem (is_blank r.name) (at (txt "routes") i (txt ".name is required"))
      ++ (if is_empty plugin
          then at (txt "routes") i (txt ".plugin is required") ∷ []
          else problem (not (has_text plugin names))
              (at (txt "routes") i (txt ".plugin " ++ f.quoted plugin ++ txt " is not configured")))
      ++ problem (is_nil r.domains && is_nil r.suffixes)
          (at (txt "routes") i (txt " must declare at least one domain or suffix"))
      ++ check_each (λ s. is_dot (trim_space s))
          (λ j s. at (txt "routes") i (at (txt ".suffixes") j (txt " is invalid"))) 0 r.suffixes
      ++ check_each is_blank
          (λ j s. at (txt "routes") i (at (txt ".domains") j (txt " is required"))) 0 r.domains

  unfoldable pub check_routes : List Text → ℕ → List Route → List Text
  unfolding check_each
  check_routes names i [] = []
  check_routes names i (r ∷ rs) = route_problems names i r ++ check_routes names (i + 1) rs
