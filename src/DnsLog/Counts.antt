-- ===== src/DnsLog/Counts.antt =====
-- What `Summary` of internal/dnslog/dnslog.go counts.
use any_ns.Base.{
  ℕ, ◌+◌, ◌≡◌, refl, ap, ◌∙◌, List, [], ◌∷◌, Text, ◌=t◌, =t_iff, length, filter, drop,
  if◌then◌else◌, arith,
}
use any_ns.Base.Int.{ℤ, pos}
use any_ns.Base.Dict.{Dict, lookup, lookup-insert}
use any_ns.DnsLog.{Event, Store}
use any_ns.DnsLog.Query.{matches, no_filter, filtered_ordered_events, list}
use any_ns.DnsLog.Summary.{
  Summary, named, count_at, increment, Tally, no_tally, tally, tally_all, summary,
}

-- How often a field has a name.
pub occurrences : (Event → Text) → Text → List Event → ℕ
occurrences field key es = length (filter (λ e. named (field e) =t key) es)

counted : (Event → Text) → Dict ℕ → List Event → Dict ℕ
counted field m [] = m
counted field m (e ∷ es) = counted field (increment m (field e)) es

count_at-increment :
    (m : Dict ℕ) (key j : Text)
    → count_at j (increment m key) ≡ count_at j m + (if named key =t j then 1 else 0)
unfolding count_at increment
count_at-increment m key j =
    ground (arith, lookup-insert (named key) j (count_at (named key) m + 1) m, =t_iff (named key) j)

count_at-counted :
    (field : Event → Text) (m : Dict ℕ) (j : Text) (es : List Event)
    → count_at j (counted field m es) ≡ count_at j m + occurrences field j es
unfolding counted occurrences
count_at-counted field m j [] = omega arith
count_at-counted field m j (e ∷ es) =
    ground
      (arith, count_at-counted field (increment m (field e)) j es, count_at-increment m (field e) j)

all_match : (es : List Event) → filter (matches no_filter) es ≡ es
unfolding matches
all_match [] = refl
all_match (e ∷ es) = ap (◌∷◌ e) (all_match es)

-- Without a filter and a limit the list is what the store holds.
pub list_all : (s : Store) → list (pos 0) s ≡ s.events
unfolding list filtered_ordered_events ◌=t◌
list_all s = rw (all_match s.events) (ap (λ n. drop n s.events) {y = 0} (omega arith))

-- The counters of the loop, each by the field that it counts.
record Counted (t : Tally) (es : List Event) : Type 0 where
  by_risk_level : (tally_all t es).by_risk_level ≡ counted (λ e. e.risk_level) t.by_risk_level es
  by_action : (tally_all t es).by_action ≡ counted (λ e. e.action) t.by_action es
  by_rule : (tally_all t es).by_rule ≡ counted (λ e. e.matched_rule) t.by_rule es
  by_plugin : (tally_all t es).by_plugin ≡ counted (λ e. e.source_plugin) t.by_plugin es
  by_rcode : (tally_all t es).by_rcode ≡ counted (λ e. e.rcode) t.by_rcode es
  latency_count : (tally_all t es).latency_count ≡ t.latency_count + length es

tally_all-Counted : (t : Tally) (es : List Event) → Counted t es
unfolding tally_all counted tally
tally_all-Counted t [] = record {
  by_risk_level = refl;
  by_action = refl;
  by_rule = refl;
  by_plugin = refl;
  by_rcode = refl;
  latency_count = omega arith;
}
tally_all-Counted t (e ∷ es) =
    let ih = tally_all-Counted (tally t e) es in
    record {
      by_risk_level = ih.by_risk_level;
      by_action = ih.by_action;
      by_rule = ih.by_rule;
      by_plugin = ih.by_plugin;
      by_rcode = ih.by_rcode;
      latency_count = omega (arith, ih.latency_count);
    }

-- Every counter map of a summary holds, at each key, the number of held events whose field has
-- that name (an empty field is named `unknown`), and the total is the number of held events.
pub record CountsEvents (sum : Summary) (es : List Event) : Type 0 where
  pub total : sum.total ≡ length es
  pub risk_levels : (k : Text) → count_at k sum.by_risk_level ≡ occurrences (λ e. e.risk_level) k es
  pub actions : (k : Text) → count_at k sum.by_action ≡ occurrences (λ e. e.action) k es
  pub rules : (k : Text) → count_at k sum.by_rule ≡ occurrences (λ e. e.matched_rule) k es
  pub plugins : (k : Text) → count_at k sum.by_plugin ≡ occurrences (λ e. e.source_plugin) k es
  pub rcodes : (k : Text) → count_at k sum.by_rcode ≡ occurrences (λ e. e.rcode) k es
  pub latencies : sum.latency_ms.count ≡ length es

count_at_none : (k : Text) → count_at k [] ≡ 0
unfolding count_at lookup
count_at_none k = refl

from_empty :
    (field : Event → Text) (m : Dict ℕ) (es : List Event)
    → m ≡ counted field [] es
    → (k : Text) → count_at k m ≡ occurrences field k es
from_empty field m es h k =
    ap (count_at k) h ∙ omega (arith, count_at-counted field [] k es, count_at_none k)

-- A summary of a store counts the events that the store holds.
pub summary-CountsEvents : (top_n : ℤ) (s : Store) → CountsEvents (summary top_n s) s.events
unfolding summary
summary-CountsEvents top_n s = rw (list_all s) (
    let c = tally_all-Counted no_tally s.events in
    record {
      total = refl;
      risk_levels = from_empty _ _ s.events c.by_risk_level;
      actions = from_empty _ _ s.events c.by_action;
      rules = from_empty _ _ s.events c.by_rule;
      plugins = from_empty _ _ s.events c.by_plugin;
      rcodes = from_empty _ _ s.events c.by_rcode;
      latencies = omega (arith, c.latency_count);
    })
