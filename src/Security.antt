-- ===== src/Security.antt =====
-- internal/security/analyzer.go: the policy, the lists of domains and the findings. Floating-point
-- numbers, with the entropy of a text, are a parameter.
pub mod Domains
pub mod Counters
pub mod Analyzer
pub mod Windows
pub mod Verdicts
pub mod Tests
use any_ns.Base.{
  ℕ, List, [], ◌∷◌, ◌++◌, Bool, true, false, not, ◌&&◌, ◌||◌, Text, txt, ◌=t◌, is_empty,
  if◌then◌else◌,
}
use any_ns.Base.Int.{ℤ, pos}

-- What the code uses of `float64`: comparisons, the thresholds of the default policy, the Shannon
-- entropy of a text and the quotient of two counts.
pub record Floats : Type 1 where
  pub Float : Type 0
  pub is_zero : Float → Bool
  pub at_least : Float → Float → Bool
  pub above : Float → Float → Bool
  pub tunnel_entropy : Float
  pub dga_entropy : Float
  pub dga_digit_ratio : Float
  pub entropy : Text → Float
  pub quotient : ℕ → ℕ → Float

abbrev pub risk_none : Text
risk_none = txt "none"

abbrev pub risk_medium : Text
risk_medium = txt "medium"

abbrev pub risk_high : Text
risk_high = txt "high"

abbrev pub risk_critical : Text
risk_critical = txt "critical"

abbrev pub action_allow : Text
action_allow = txt "allow"

abbrev pub action_log_only : Text
action_log_only = txt "log_only"

abbrev pub action_block : Text
action_block = txt "block"

abbrev pub action_sinkhole : Text
action_sinkhole = txt "sinkhole"

abbrev pub action_rate_limit : Text
action_rate_limit = txt "rate_limit"

abbrev pub action_forward_to_honeypot : Text
action_forward_to_honeypot = txt "forward_to_honeypot"

pub record Finding : Type 0 where
  pub rule : Text
  pub risk_level : Text
  pub action : Text
  pub reason : Text

pub record Policy (F : Type 0) : Type 0 where
  pub configured : Bool
  pub enabled : Bool
  pub tunnel_max_qname_length : ℤ
  pub tunnel_max_label_length : ℤ
  pub tunnel_entropy_threshold : F
  pub dga_entropy_threshold : F
  pub dga_digit_ratio_threshold : F
  pub query_rate_window_seconds : ℤ
  pub query_rate_threshold : ℤ
  pub random_subdomain_window_sec : ℤ
  pub random_subdomain_threshold : ℤ
  pub nx_domain_window_seconds : ℤ
  pub nx_domain_threshold : ℤ
  pub block_rebinding : Bool
  pub abnormal_rr_action : Text
  pub reflection_amplification_act : Text
  pub allowlist_domains : List Text
  pub denylist_domains : List Text
  pub sinkhole_domains : List Text
  pub reject_dns_log_platforms : Bool
  pub dns_log_platform_domains : List Text
  pub sinkhole_ipv4 : Text
  pub sinkhole_ipv6 : Text
  pub sinkhole_ttl : ℤ

unfoldable pub default_policy : (fl : Floats) → Policy fl.Float
default_policy fl = record {
  configured = true;
  enabled = true;
  tunnel_max_qname_length = pos 180;
  tunnel_max_label_length = pos 63;
  tunnel_entropy_threshold = fl.tunnel_entropy;
  dga_entropy_threshold = fl.dga_entropy;
  dga_digit_ratio_threshold = fl.dga_digit_ratio;
  query_rate_window_seconds = pos 60;
  query_rate_threshold = pos 120;
  random_subdomain_window_sec = pos 60;
  random_subdomain_threshold = pos 50;
  nx_domain_window_seconds = pos 60;
  nx_domain_threshold = pos 20;
  block_rebinding = true;
  abnormal_rr_action = action_log_only;
  reflection_amplification_act = action_rate_limit;
  allowlist_domains = [];
  denylist_domains = [];
  sinkhole_domains = [];
  reject_dns_log_platforms = false;
  dns_log_platform_domains = [];
  sinkhole_ipv4 = txt "0.0.0.0";
  sinkhole_ipv6 = txt "::";
  sinkhole_ttl = pos 60;
}
