-- ===== src/Security/Tests.antt =====
-- Runs of the model of internal/security/analyzer.go at concrete inputs.
use any_ns.Base.{
  ℕ, suc, ◌+◌, ◌*◌, ◌≤◌, ◌≡◌, ◌↔◌, refl, List, [], ◌∷◌, ◌++◌, Bool, true, false, Text, txt, filter,
  length, leb, ltb, ◌==◌, ◌⊎◌, ◌=t◌, arith, has_prefix, trim_prefix, trim_space, to_lower, lower,
  trim_suffix, trim_left, trim_right_by, is_space, has_suffix,
}
use any_ns.Base.Int.{pos}
use any_ns.DnsName.{Idna}
use any_ns.Base.Result.{ok}
use any_ns.Plugins.{ResolveRequest}
use any_ns.Security.{Floats, default_policy}
use any_ns.Security.Domains.{is_under, bare_domain, matches_domain_pattern}
use any_ns.Security.Counters.{Analyzer, is_recent, track_window_count, new_analyzer_with_policy}
use any_ns.Security.Windows.{track_all, times_of, track_window_count-exact}

-- Thousandths, with no entropy at all.
abbrev pub thousandths : Floats
thousandths = record {
  Float = ℕ;
  is_zero = λ x. x == 0;
  at_least = λ x y. leb y x;
  above = λ x y. ltb y x;
  tunnel_entropy = 4000;
  dga_entropy = 4200;
  dga_digit_ratio = 250;
  entropy = λ s. 0;
  quotient = λ a b. a;
}

abbrev pub plain : Idna
plain = ok

abbrev events : List (Text × ℕ)
events = (txt "a", 5) ∷ (txt "b", 6) ∷ (txt "a", 7) ∷ []

track_window_count-exact_example :
    (track_window_count 9 (txt "a") (pos 60) (pos 3) (track_all 59 2 events [])).1
    ≡ leb 3 (length (filter (is_recent 60 9) (times_of (txt "a") events) ++ 9 ∷ []))
unfolding ◌=t◌
track_window_count-exact_example =
    track_window_count-exact 59 2 9 (txt "a") events (omega arith, (omega arith, tt))

third_is_flagged :
    (track_window_count 9 (txt "a") (pos 60) (pos 3) (track_all 59 2 events [])).1 ≡ true
unfolding track_window_count track_all any_ns.Base.Dict.lookup any_ns.Base.Dict.insert ◌=t◌
third_is_flagged = refl

pattern_test : matches_domain_pattern (txt "A.Evil.hns.") (txt "" ∷ txt ".evil.hns" ∷ []) ≡ true
unfolding matches_domain_pattern bare_domain is_under has_prefix trim_prefix trim_space to_lower
    lower trim_suffix trim_left trim_right_by is_space has_suffix ◌=t◌
pattern_test = refl

abbrev request : ResolveRequest
request = record {
  qname = txt "Alice.ETH";
  qtype = txt "a";
  context = record {
    trace_id = [];
    client_ip = [];
    client_view = [];
    tenant = [];
    transport = [];
    protocol = [];
    policy_tags = [];
  };
}

abbrev fresh : Analyzer ℕ
fresh = new_analyzer_with_policy thousandths plain (default_policy thousandths)
