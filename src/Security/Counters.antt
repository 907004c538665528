-- ===== src/Security/Counters.antt =====
-- `Analyzer` of internal/security/analyzer.go, its policy's defaults and its counters. Times are
-- nanoseconds; the clock and the IDNA library are arguments.
use any_ns.Base.{
  ℕ, zero, suc, ◌+◌, ◌-◌, ◌*◌, List, [], ◌∷◌, ◌++◌, Bool, true, false, not, ◌&&◌, ◌||◌, Option,
  none, some, Text, txt, is_empty, trim_suffix, split, join, filter, length, take, drop, ltb, leb,
  if◌then◌else◌,
}
use any_ns.Base.Int.{ℤ, pos, negsuc, is_pos, to_ℕ}
use any_ns.Base.Dict.{Dict, lookup, insert}
use any_ns.DnsName.{Idna}
use any_ns.Security.{Floats, Policy, default_policy}
use any_ns.Security.Domains.{normalize_dns_log_platform_domains}

pub record Analyzer (F : Type 0) : Type 0 where
  pub client_queries : Dict (List ℕ)
  pub client_base_subdomain_query : Dict (Dict ℕ)
  pub client_nx_domains : Dict (List ℕ)
  pub policy : Policy F

abbrev pub or_int : ℤ → ℤ → ℤ
or_int (pos zero) d = d
or_int (pos (suc n)) d = pos (suc n)
or_int (negsuc n) d = negsuc n

abbrev pub or_text : Text → Text → Text
or_text [] d = d
or_text (c ∷ s) d = c ∷ s

abbrev pub or_list : Option (List Text) → List Text → List Text
or_list none d = d
or_list (some xs) d = xs

module _ (fl : Floats) (idna : Idna) where
  abbrev pub or_float : fl.Float → fl.Float → fl.Float
  or_float f d = if fl.is_zero f then d else f

  unfoldable pub with_defaults : Policy fl.Float → Policy fl.Float
  with_defaults p =
      let d = default_policy fl in
      if not p.configured && not p.enabled then d else record p {
        configured = true;
        tunnel_max_qname_length = or_int p.tunnel_max_qname_length d.tunnel_max_qname_length;
        tunnel_max_label_length = or_int p.tunnel_max_label_length d.tunnel_max_label_length;
        tunnel_entropy_threshold = or_float p.tunnel_entropy_threshold d.tunnel_entropy_threshold;
        dga_entropy_threshold = or_float p.dga_entropy_threshold d.dga_entropy_threshold;
        dga_digit_ratio_threshold =
            or_float p.dga_digit_ratio_threshold d.dga_digit_ratio_threshold;
        query_rate_window_seconds = or_int p.query_rate_window_seconds d.query_rate_window_seconds;
        query_rate_threshold = or_int p.query_rate_threshold d.query_rate_threshold;
        random_subdomain_window_sec =
            or_int p.random_subdomain_window_sec d.random_subdomain_window_sec;
        random_subdomain_threshold =
            or_int p.random_subdomain_threshold d.random_subdomain_threshold;
        nx_domain_window_seconds = or_int p.nx_domain_window_seconds d.nx_domain_window_seconds;
        nx_domain_threshold = or_int p.nx_domain_threshold d.nx_domain_threshold;
        abnormal_rr_action = or_text p.abnormal_rr_action d.abnormal_rr_action;
        reflection_amplification_act =
            or_text p.reflection_amplification_act d.reflection_amplification_act;
        sinkhole_ipv4 = or_text p.sinkhole_ipv4 d.sinkhole_ipv4;
        sinkhole_ipv6 = or_text p.sinkhole_ipv6 d.sinkhole_ipv6;
        sinkhole_ttl = or_int p.sinkhole_ttl d.sinkhole_ttl;
        dns_log_platform_domains =
            or_list (normalize_dns_log_platform_domains idna p.dns_log_platform_domains)
              p.dns_log_platform_domains;
      }

  unfoldable pub new_analyzer_with_policy : Policy fl.Float → Analyzer fl.Float
  new_analyzer_with_policy policy = record {
    client_queries = [];
    client_base_subdomain_query = [];
    client_nx_domains = [];
    policy = with_defaults policy;
  }

abbrev pub second : ℕ
second = 1000000000

-- `seen.After(now.Add(-window))`
abbrev pub is_recent : ℕ → ℕ → ℕ → Bool
is_recent window now seen = ltb now (seen + window * second)

abbrev pub values_at : Option (List ℕ) → List ℕ
values_at none = []
values_at (some values) = values

abbrev pub within : ℕ → ℕ → List ℕ → List ℕ
within window now values = filter (is_recent window now) values ++ now ∷ []

-- The store after one event of `key`, and whether the threshold is reached.
unfoldable pub track_window_count : ℕ → Text → ℤ → ℤ → Dict (List ℕ) → Dict (List ℕ) × Bool
track_window_count now key window threshold store =
    if not (is_pos threshold) || not (is_pos window)
    then (store, false)
    else let kept = within (to_ℕ window) now (values_at (lookup key store)) in
      (insert key kept store, leb (to_ℕ threshold) (length kept))

abbrev pub or_unknown : Text → Text
or_unknown client_ip = if is_empty client_ip then txt "unknown" else client_ip

abbrev pub names_at : Option (Dict ℕ) → Dict ℕ
names_at none = []
names_at (some names) = names

abbrev pub track_names : ℕ → Text → Text → ℤ → ℤ → Dict (Dict ℕ) → Dict (Dict ℕ) × Bool
track_names now key subdomain window threshold store =
    let recent = filter (λ e. is_recent (to_ℕ window) now e.1) (names_at (lookup key store)) in
    let seen = insert subdomain now recent in
    (insert key seen store, leb (to_ℕ threshold) (length seen))

module _ {F : Type 0} where
  unfoldable pub track_query_rate : ℕ → Text → Analyzer F → Analyzer F × Bool
  track_query_rate now client_ip a =
      let (store, hit) =
        track_window_count now (or_unknown client_ip) a.policy.query_rate_window_seconds
          a.policy.query_rate_threshold a.client_queries in
      (record a { client_queries = store }, hit)

  unfoldable pub track_nx_domain : ℕ → Text → Analyzer F → Analyzer F × Bool
  track_nx_domain now client_ip a =
      let (store, hit) =
        track_window_count now (or_unknown client_ip) a.policy.nx_domain_window_seconds
          a.policy.nx_domain_threshold a.client_nx_domains in
      (record a { client_nx_domains = store }, hit)

  unfoldable pub track_random_subdomain : ℕ → Text → Text → Analyzer F → Analyzer F × Bool
  track_random_subdomain now client_ip qname a =
      let labels = split (trim_suffix qname b'.') b'.' in
      let n = length labels in
      if not (is_pos a.policy.random_subdomain_threshold)
        || not (is_pos a.policy.random_subdomain_window_sec)
        || ltb n 3
      then (a, false)
      else let base = join (drop (n - 2) labels) (txt ".") in
        let subdomain = join (take (n - 2) labels) (txt ".") in
        let (store, hit) =
          track_names now (or_unknown client_ip ++ txt "|" ++ base) subdomain
            a.policy.random_subdomain_window_sec a.policy.random_subdomain_threshold
            a.client_base_subdomain_query in
        (record a { client_base_subdomain_query = store }, hit)
