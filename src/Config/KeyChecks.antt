-- ===== src/Config/KeyChecks.antt =====
-- `Config.Validate` of internal/config/config.go: the policy, the roles and the keys, and all
-- problems.
use any_ns.Base.{
  ℕ, ◌+◌, List, [], ◌∷◌, ◌++◌, Bool, false, not, ◌&&◌, Option, none, some, Text, txt, is_empty,
  trim_space, is_some, ltb, if◌then◌else◌,
}
use any_ns.Base.Members.{has_text}
use any_ns.Base.Int.{ℤ}
use any_ns.DnsName.{Idna}
use any_ns.Security.{Policy}
use any_ns.Security.Domains.{normalize_dns_log_platform_domains}
use any_ns.Access.{
  Platform, ManagementConfig, ManagementRole, ManagementKey, is_nil, parse_key_time,
}
use any_ns.Config.{
  Config, HoneypotConfig, Formats, is_blank, is_ipv4, is_ipv6, supported_management_scope,
  valid_client_cidr, has_usable_management_key,
}
use any_ns.Config.Validation.{
  problem, is_negative, both, at, check_each, service_problems, power_dns_problems,
  certificates_problems, check_plugins, check_routes,
}

abbrev pub not_negative : ℤ → Text → List Text
not_negative n name = problem (is_negative n) (name ++ txt " must not be negative")

module _ (p : Platform) (f : Formats p) (idna : Idna) where
  abbrev pub blank_domains : Text → List Text → List Text
  blank_domains name domains = check_each is_blank (λ i s. at name i (txt " is required")) 0 domains

  abbrev pub policy_problems : {F : Type 0} → Policy F → List Text
  policy_problems s =
      not_negative s.sinkhole_ttl (txt "security.sinkhole_ttl")
      ++ not_negative s.query_rate_window_seconds (txt "security.query_rate_window_seconds")
      ++ not_negative s.query_rate_threshold (txt "security.query_rate_threshold")
      ++ not_negative s.random_subdomain_window_sec (txt "security.random_subdomain_window_seconds")
      ++ not_negative s.random_subdomain_threshold (txt "security.random_subdomain_threshold")
      ++ not_negative s.nx_domain_window_seconds (txt "security.nxdomain_window_seconds")
      ++ not_negative s.nx_domain_threshold (txt "security.nxdomain_threshold")
      ++ problem (not (is_empty s.sinkhole_ipv4) && not (is_ipv4 p f s.sinkhole_ipv4))
          (txt "security.sinkhole_ipv4 must be a valid IPv4 address")
      ++ problem (not (is_empty s.sinkhole_ipv6) && not (is_ipv6 p f s.sinkhole_ipv6))
          (txt "security.sinkhole_ipv6 must be a valid IPv6 address")
      ++ blank_domains (txt "security.allowlist_domains") s.allowlist_domains
      ++ blank_domains (txt "security.denylist_domains") s.denylist_domains
      ++ blank_domains (txt "security.sinkhole_domains") s.sinkhole_domains
      ++ problem
          (not (is_some (normalize_dns_log_platform_domains idna s.dns_log_platform_domains)))
          (txt
            "security.dnslog_platform_domains must contain DNS host names without wildcards, regex, empty labels, or control characters")

  abbrev pub secret_problems : HoneypotConfig → ManagementConfig → List Text
  secret_problems h m =
      both h.api_key h.api_key_file (txt "honeypot must not set both api_key and api_key_file")
      ++ both h.hmac_secret h.hmac_secret_file
          (txt "honeypot must not set both hmac_secret and hmac_secret_file")
      ++ both m.api_key m.api_key_file (txt "management must not set both api_key and api_key_file")
      ++ problem (m.auth_required && is_empty m.api_key && not (has_usable_management_key m.keys)) (
          txt
            "management.auth_required requires management.api_key or at least one management.keys[].api_key")

  abbrev pub id_problems : Text → ℕ → Text → Bool → List Text
  id_problems section i id seen =
      if is_empty id
      then at section i (txt ".id is required") ∷ []
      else problem seen (at section i (txt ".id " ++ f.quoted id ++ txt " is duplicated"))

  abbrev pub unsupported : Text → ℕ → List Text → List Text
  unsupported section i scopes =
      check_each (λ s. not (supported_management_scope s))
        (λ j s.
          at section i (at (txt ".scopes") j (txt " " ++ f.quoted s ++ txt " is unsupported")))
        0 scopes

  -- The loop over the roles; `seen` holds the ids before, trimmed.
  unfoldable pub check_roles : ℕ → List Text → List ManagementRole → List Text
  check_roles i seen [] = []
  check_roles i seen (r ∷ rs) =
      let id = trim_space r.id in
      let section = txt "management.roles" in
      id_problems section i id (has_text id seen)
      ++ problem (is_nil r.scopes) (at section i (txt ".scopes must not be empty"))
      ++ unsupported section i r.scopes
      ++ check_roles (i + 1) (seen ++ id ∷ []) rs

  unfoldable pub role_ids : List ManagementRole → List Text
  role_ids [] = []
  role_ids (r ∷ rs) = trim_space r.id ∷ role_ids rs

  abbrev pub ends_first : Option ℕ → Option ℕ → Bool
  ends_first none expires = false
  ends_first (some start) none = false
  ends_first (some start) (some end) = not (ltb start end)

  abbrev pub bad_time : Text → Bool
  bad_time s = not (is_blank s) && not (is_some (parse_key_time p s))

  unfoldable pub check_key_roles : ℕ → List Text → ℕ → List Text → List Text
  check_key_roles i roles j [] = []
  check_key_roles i roles j (r ∷ rs) =
      let id = trim_space r in
      (if is_empty id
        then at (txt "management.keys") i (at (txt ".roles") j (txt " is required")) ∷ []
        else problem (not (has_text id roles)) (
            at (txt "management.keys") i
              (at (txt ".roles") j (txt " " ++ f.quoted id ++ txt " is not configured"))))
      ++ check_key_roles i roles (j + 1) rs

  abbrev pub key_problems : List Text → ℕ → ManagementKey → List Text
  key_problems roles i k =
      let section = txt "management.keys" in
      problem (bad_time k.not_before) (at section i (txt ".not_before must be RFC3339"))
      ++ problem (bad_time k.expires_at) (at section i (txt ".expires_at must be RFC3339"))
      ++ problem (bad_time k.revoked_at) (at section i (txt ".revoked_at must be RFC3339"))
      ++ both k.api_key k.api_key_file
          (at section i (txt " must not set both api_key and api_key_file"))
      ++ problem (ends_first (parse_key_time p k.not_before) (parse_key_time p k.expires_at))
          (at section i (txt ".expires_at must be after not_before"))
      ++ unsupported section i k.scopes
      ++ check_key_roles i roles 0 k.roles
      ++ check_each (λ s. not (valid_client_cidr p f s))
          (λ j s.
            at section i
              (at (txt ".allowed_client_cidrs") j (txt " must be a valid IP address or CIDR")))
          0 k.allowed_client_cidrs

  unfoldable pub check_keys : List Text → ℕ → List Text → List ManagementKey → List Text
  unfolding check_key_roles
  check_keys roles i seen [] = []
  check_keys roles i seen (k ∷ ks) =
      let id = trim_space k.id in
      id_problems (txt "management.keys") i id (has_text id seen)
      ++ key_problems roles i k
      ++ check_keys roles (i + 1) (seen ++ id ∷ []) ks

  -- All problems, in order.
  unfoldable pub problems : {F : Type 0} → Config F → List Text
  unfolding check_roles role_ids check_keys
  problems cfg =
      let (plugin_list, names) = check_plugins p f 0 [] cfg.plugins in
      service_problems p f cfg
      ++ power_dns_problems p f cfg.power_dns
      ++ certificates_problems p f cfg.certificates cfg.power_dns
      ++ plugin_list
      ++ check_routes p f names 0 cfg.routes
      ++ policy_problems cfg.security
      ++ secret_problems cfg.honeypot cfg.management
      ++ check_roles 0 [] cfg.management.roles
      ++ check_keys (role_ids cfg.management.roles) 0 [] cfg.management.keys

  -- `none`: no error.
  unfoldable pub validate : {F : Type 0} → Config F → Option (List Text)
  unfolding problems
  validate cfg = if is_nil (problems cfg) then none else some (problems cfg)
