-- ===== src/Security/Domains.antt =====
-- The domain lists of internal/security/analyzer.go.
use any_ns.Base.{
  ℕ, List, [], ◌∷◌, ◌++◌, Bool, false, not, ◌&&◌, ◌||◌, Option, none, some, Text, txt, ◌=t◌,
  is_empty, to_lower, trim_space, trim_suffix, trim_prefix, has_prefix, has_suffix, contains, split,
  any, all, leb, ◌==◌, if◌then◌else◌,
}
use any_ns.Base.Result.{Result, ok, err}
use any_ns.DnsName.{Idna, to_ascii}

unfoldable pub bare_domain : Text → Text
bare_domain s = trim_suffix (to_lower (trim_space s)) b'.'

-- Equal to the domain, or below it.
unfoldable pub is_under : Text → Text → Bool
is_under q domain = q =t domain || has_suffix q (txt "." ++ domain)

abbrev pub matches_pattern : Text → Text → Bool
matches_pattern q p =
    if is_empty p
    then false
    else if has_prefix p (txt ".")
    then is_under q (trim_prefix p (txt "."))
    else q =t p

unfoldable pub matches_domain_pattern : Text → List Text → Bool
matches_domain_pattern qname patterns =
    any (λ pattern. matches_pattern (bare_domain qname) (bare_domain pattern)) patterns

abbrev pub is_label_char : ℕ → Bool
is_label_char c = leb b'a' c && leb c b'z' || leb b'0' c && leb c b'9' || c == b'-'

abbrev pub is_label : Text → Bool
is_label label =
    not (is_empty label)
    && not (has_prefix label (txt "-"))
    && not (has_suffix label (txt "-"))
    && all is_label_char label

abbrev pub platform_form : Text → Option Text
platform_form domain =
    if is_empty domain
      || domain =t txt "."
      || has_prefix domain (txt ".")
      || contains domain (txt "..")
    then none
    else if all is_label (split domain b'.')
    then some domain
    else none

abbrev pub of_ascii : Result Text → Option Text
of_ascii (err e) = none
of_ascii (ok ascii) = platform_form (bare_domain ascii)

unfoldable pub normalize_platform_domain : Idna → Text → Option Text
normalize_platform_domain idna value = of_ascii (to_ascii idna value)

abbrev pub covers : Text → Option Text → Bool
covers q none = false
covers q (some p) = is_under q p

abbrev pub covered_by : Idna → Option Text → List Text → Bool
covered_by idna none domains = false
covered_by idna (some q) domains =
    any (λ domain. covers q (normalize_platform_domain idna domain)) domains

unfoldable pub matches_platform_domain : Idna → Text → List Text → Bool
matches_platform_domain idna qname domains =
    covered_by idna (normalize_platform_domain idna qname) domains

-- The loop of `NormalizeDNSLogPlatformDomains`.
abbrev pub add_new : Text → List Text → List Text
add_new value out = if any (λ seen. seen =t value) out then out else out ++ value ∷ []

unfoldable pub collect_platforms : Idna → List Text → List Text → Option (List Text)
collect_platforms idna [] out = some out
collect_platforms idna (domain ∷ domains) out = elim (normalize_platform_domain idna domain) [
  | none ↦ none
  | some value ↦ collect_platforms idna domains (add_new value out)
]

-- `none` is the error.
unfoldable pub normalize_dns_log_platform_domains : Idna → List Text → Option (List Text)
normalize_dns_log_platform_domains idna domains = collect_platforms idna domains []
