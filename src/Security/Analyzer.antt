-- ===== src/Security/Analyzer.antt =====
-- `AnalyzeQuery` and `AnalyzeResponse` of internal/security/analyzer.go. The clock, the IDNA library,
-- `net.ParseIP` and floating-point numbers are arguments.
use any_ns.Base.{
  ℕ, List, [], ◌∷◌, Bool, true, not, ◌&&◌, ◌||◌, Option, none, some, Text, txt, ◌=t◌, is_empty,
  trim_suffix, split, any, filter, length, ltb, leb, ◌==◌, if◌then◌else◌,
}
use any_ns.Base.Int.{ℤ, pos, negsuc}
use any_ns.DnsName.{Idna}
use any_ns.Plugins.{
  ResolveRequest, ResolveResult, Rr, normalize_qname, normalize_qtype, rcode_nx_domain,
}
use any_ns.Security.{
  Floats, Policy, Finding, risk_none, risk_medium, risk_high, risk_critical, action_allow,
  action_block, action_sinkhole, action_rate_limit, action_forward_to_honeypot,
}
use any_ns.Security.Domains.{matches_domain_pattern, matches_platform_domain}
use any_ns.Security.Counters.{Analyzer, track_query_rate, track_nx_domain, track_random_subdomain}

abbrev pub allowed : Finding
allowed = record {
  rule = txt "default-allow";
  risk_level = risk_none;
  action = action_allow;
  reason = txt "no rule matched";
}

abbrev pub switched_off : Finding
switched_off = record {
  rule = txt "security-disabled";
  risk_level = risk_none;
  action = action_allow;
  reason = txt "security policy disabled";
}

-- The first of the longest labels.
unfoldable pub longest_label : List Text → Text → Text
longest_label [] longest = longest
longest_label (label ∷ labels) longest =
    longest_label labels (if ltb (length longest) (length label) then label else longest)

-- `strings.ReplaceAll(qname, ".", "")`
abbrev pub without_dots : Text → Text
without_dots = filter (λ c. not (c == b'.'))

abbrev pub is_digit : ℕ → Bool
is_digit c = leb b'0' c && leb c b'9'

abbrev pub common_qtypes : List Text
common_qtypes =
    txt "A"
    ∷ txt "AAAA"
    ∷ txt "CNAME"
    ∷ txt "TXT"
    ∷ txt "MX"
    ∷ txt "NS"
    ∷ txt "SRV"
    ∷ txt "URI"
    ∷ txt "HTTPS"
    ∷ txt "SVCB"
    ∷ txt "TLSA"
    ∷ txt "CAA"
    ∷ txt "WALLET"
    ∷ txt "TYPE262"
    ∷ txt "ANY"
    ∷ txt "DNSKEY"
    ∷ []

unfoldable pub is_abnormal_qtype : Text → Bool
is_abnormal_qtype qtype = not (any (λ t. t =t qtype) common_qtypes)

-- `n > limit`
abbrev pub exceeds : ℕ → ℤ → Bool
exceeds n (pos limit) = ltb limit n
exceeds n (negsuc limit) = true

-- What the domain lists say of a name, if they say anything.
unfoldable pub listed_finding : {F : Type 0} → Idna → Policy F → Text → Option Finding
listed_finding idna p qname =
    if matches_domain_pattern qname p.allowlist_domains
    then some (record {
      rule = txt "allowlist-domain";
      risk_level = risk_none;
      action = action_allow;
      reason = txt "domain matched security allowlist";
    })
    else if p.reject_dns_log_platforms
        && matches_platform_domain idna qname p.dns_log_platform_domains
    then some (record {
      rule = txt "external-dnslog-platform";
      risk_level = risk_high;
      action = action_block;
      reason = txt "domain matched external DNSLog/OOB callback platform list";
    })
    else if matches_domain_pattern qname p.denylist_domains
    then some (record {
      rule = txt "denylist-domain";
      risk_level = risk_critical;
      action = action_block;
      reason = txt "domain matched security denylist";
    })
    else if matches_domain_pattern qname p.sinkhole_domains
    then some (record {
      rule = txt "sinkhole-domain";
      risk_level = risk_high;
      action = action_sinkhole;
      reason = txt "domain matched sinkhole policy";
    })
    else none

module _ (fl : Floats) where
  unfoldable pub digit_ratio : Text → fl.Float
  digit_ratio s =
      if is_empty s then fl.quotient 0 1 else fl.quotient (length (filter is_digit s)) (length s)

  abbrev pub is_tunnel : Policy fl.Float → Text → Text → Bool
  is_tunnel p qname longest =
      exceeds (length qname) p.tunnel_max_qname_length
      || exceeds (length longest) p.tunnel_max_label_length
      || fl.at_least (fl.entropy longest) p.tunnel_entropy_threshold

  -- The rules that look at the name and the type alone.
  unfoldable pub shape_finding : Policy fl.Float → Text → Text → Finding
  shape_finding p qname qtype =
      if qtype =t txt "TXT" && is_tunnel p qname (longest_label (split qname b'.') [])
      then record {
        rule = txt "dns-tunnel-high-entropy";
        risk_level = risk_high;
        action = action_forward_to_honeypot;
        reason = txt "TXT query has long or high-entropy label";
      }
      else if fl.at_least (fl.entropy (without_dots qname)) p.dga_entropy_threshold
          && fl.above (digit_ratio qname) p.dga_digit_ratio_threshold
      then record {
        rule = txt "dga-high-entropy";
        risk_level = risk_high;
        action = action_block;
        reason = txt "domain resembles DGA/high-entropy sample";
      }
      else if is_abnormal_qtype qtype
      then record {
        rule = txt "abnormal-rr-query";
        risk_level = risk_medium;
        action = p.abnormal_rr_action;
        reason = txt "unusual RR type queried";
      }
      else if qtype =t txt "ANY" || qtype =t txt "DNSKEY"
      then record {
        rule = txt "reflection-amplification-rr";
        risk_level = risk_medium;
        action = p.reflection_amplification_act;
        reason = txt "query type can amplify reflection attacks";
      }
      else allowed

  abbrev pub too_many_queries : Finding
  too_many_queries = record {
    rule = txt "query-rate-limit";
    risk_level = risk_medium;
    action = action_rate_limit;
    reason = txt "client exceeded query rate threshold";
  }

  abbrev pub too_many_subdomains : Finding
  too_many_subdomains = record {
    rule = txt "random-subdomain-rate-limit";
    risk_level = risk_high;
    action = action_rate_limit;
    reason = txt "client queried too many unique subdomains under one base domain";
  }

  -- The rules after the lists: both counters, the second only if the first lets the query pass.
  unfoldable pub counted_finding :
      ℕ → ℕ → Text → Text → Text → Analyzer fl.Float → Analyzer fl.Float × Finding
  counted_finding now₁ now₂ client_ip qname qtype a =
      let (a₁, fast) = track_query_rate now₁ client_ip a in
      let (a₂, many) = track_random_subdomain now₂ client_ip qname a₁ in
      if fast
      then (a₁, too_many_queries)
      else if many
      then (a₂, too_many_subdomains)
      else (a₂, shape_finding a.policy qname qtype)

  abbrev pub listed_or_counted :
      ℕ → ℕ → Text → Text → Text → Option Finding → Analyzer fl.Float → Analyzer fl.Float × Finding
  listed_or_counted now₁ now₂ client_ip qname qtype (some f) a = (a, f)
  listed_or_counted now₁ now₂ client_ip qname qtype none a =
      counted_finding now₁ now₂ client_ip qname qtype a

  -- `AnalyzeQuery`, the clock being read before each counter.
  unfoldable pub analyze_query :
      Idna → ℕ → ℕ → ResolveRequest → Analyzer fl.Float → Analyzer fl.Float × Finding
  analyze_query idna now₁ now₂ req a =
      let qname = trim_suffix (normalize_qname req.qname) b'.' in
      if not a.policy.enabled
      then (a, switched_off)
      else listed_or_counted now₁ now₂ req.context.client_ip qname (normalize_qtype req.qtype)
          (listed_finding idna a.policy qname) a

  abbrev pub is_rebinding : (Text → Bool) → Policy fl.Float → Rr → Bool
  is_rebinding is_private p rr =
      p.block_rebinding
      && (rr.rr_type =t txt "A" || rr.rr_type =t txt "AAAA")
      && is_private rr.value

  abbrev pub answer_finding : (Text → Bool) → Policy fl.Float → List Rr → Finding
  answer_finding is_private p rrset =
      if any (is_rebinding is_private p) rrset
      then record {
        rule = txt "dns-rebinding-private-address";
        risk_level = risk_high;
        action = action_block;
        reason = txt "answer contains private or local address";
      }
      else allowed

  -- `AnalyzeResponse`; NXDOMAIN answers are counted, others are not.
  unfoldable pub analyze_response :
      (Text → Bool)
      → ℕ
      → ResolveRequest
      → ResolveResult
      → Analyzer fl.Float
      → Analyzer fl.Float × Finding
  analyze_response is_private now req result a =
      let (a', flood) = track_nx_domain now req.context.client_ip a in
      if not a.policy.enabled
      then (a, switched_off)
      else if result.rcode =t rcode_nx_domain
      then if flood
        then (
          a',
          record {
            rule = txt "nxdomain-flood";
            risk_level = risk_high;
            action = action_rate_limit;
            reason = txt "client exceeded NXDOMAIN threshold";
          },
        )
        else (a', answer_finding is_private a.policy result.rrset)
      else (a, answer_finding is_private a.policy result.rrset)
