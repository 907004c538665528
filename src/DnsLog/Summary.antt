-- ===== src/DnsLog/Summary.antt =====
-- `Summary` of internal/dnslog/dnslog.go: counters, latencies and the most frequent values. A
-- latency sum is taken to stay within an `int`.
use any_ns.Base.{
  ℕ, ◌+◌, ◌/◌, List, [], ◌∷◌, Bool, none, some, Text, txt, text_lt, is_empty, length, take, ltb,
  ◌==◌, if◌then◌else◌,
}
use any_ns.Base.Int.{ℤ, pos, is_pos, to_ℕ}
use any_ns.Base.Dict.{Dict, lookup, insert}
use any_ns.Base.Sort.{sort}
use any_ns.DnsLog.{Event, Store}
use any_ns.DnsLog.Query.{list}

pub record LatencySummary : Type 0 where
  pub count : ℕ
  pub average : ℕ
  pub max : ℕ

pub record LatencyStats : Type 0 where
  pub count : ℕ
  pub sum : ℕ
  pub average : ℕ
  pub max : ℕ

pub record TopValue : Type 0 where
  pub value : Text
  pub count : ℕ

pub record Summary : Type 0 where
  pub total : ℕ
  pub by_risk_level : Dict ℕ
  pub by_action : Dict ℕ
  pub by_rule : Dict ℕ
  pub by_plugin : Dict ℕ
  pub by_rcode : Dict ℕ
  pub latency_ms : LatencySummary
  pub latency_by_plugin : Dict LatencyStats
  pub top_clients : List TopValue
  pub top_qnames : List TopValue

-- An empty name is counted as `unknown`.
unfoldable pub named : Text → Text
named key = if is_empty key then txt "unknown" else key

-- What a map of counters holds at a key; a missing key reads as 0.
unfoldable pub count_at : Text → Dict ℕ → ℕ
count_at key counts = elim (lookup key counts) [ none ↦ 0 | some n ↦ n ]

unfoldable pub increment : Dict ℕ → Text → Dict ℕ
increment counts key = insert (named key) (count_at (named key) counts + 1) counts

abbrev pub no_stats : LatencyStats
no_stats = record { count = 0; sum = 0; average = 0; max = 0 }

unfoldable pub stats_at : Text → Dict LatencyStats → LatencyStats
stats_at key m = elim (lookup key m) [ none ↦ no_stats | some st ↦ st ]

unfoldable pub add_latency : ℕ → LatencyStats → LatencyStats
add_latency latency st = record {
  count = st.count + 1;
  sum = st.sum + latency;
  average = (st.sum + latency) / (st.count + 1);
  max = if ltb st.max latency then latency else st.max;
}

-- What the loop over the events carries.
pub record Tally : Type 0 where
  pub by_risk_level : Dict ℕ
  pub by_action : Dict ℕ
  pub by_rule : Dict ℕ
  pub by_plugin : Dict ℕ
  pub by_rcode : Dict ℕ
  pub clients : Dict ℕ
  pub qnames : Dict ℕ
  pub latency_count : ℕ
  pub latency_sum : ℕ
  pub latency_max : ℕ
  pub latency_by_plugin : Dict LatencyStats

abbrev pub no_tally : Tally
no_tally = record {
  by_risk_level = [];
  by_action = [];
  by_rule = [];
  by_plugin = [];
  by_rcode = [];
  clients = [];
  qnames = [];
  latency_count = 0;
  latency_sum = 0;
  latency_max = 0;
  latency_by_plugin = [];
}

-- The body of the loop. A negative latency counts as 0.
unfoldable pub tally : Tally → Event → Tally
tally t e =
    let latency = to_ℕ e.latency_ms in
    let plugin = named e.source_plugin in
    record {
      by_risk_level = increment t.by_risk_level e.risk_level;
      by_action = increment t.by_action e.action;
      by_rule = increment t.by_rule e.matched_rule;
      by_plugin = increment t.by_plugin e.source_plugin;
      by_rcode = increment t.by_rcode e.rcode;
      clients = increment t.clients e.client_ip;
      qnames = increment t.qnames e.qname;
      latency_count = t.latency_count + 1;
      latency_sum = t.latency_sum + latency;
      latency_max = if ltb t.latency_max latency then latency else t.latency_max;
      latency_by_plugin =
          insert plugin (add_latency latency (stats_at plugin t.latency_by_plugin))
            t.latency_by_plugin;
    }

unfoldable pub tally_all : Tally → List Event → Tally
tally_all t [] = t
tally_all t (e ∷ es) = tally_all (tally t e) es

-- The order of the top values: by falling count, then by rising value.
unfoldable pub precedes : TopValue → TopValue → Bool
precedes a b = if a.count == b.count then text_lt a.value b.value else ltb b.count a.count

unfoldable pub entries : Dict ℕ → List TopValue
entries [] = []
entries ((v, n) ∷ m) = record { value = v; count = n } ∷ entries m

unfoldable pub top_values : Dict ℕ → ℤ → List TopValue
unfolding precedes entries sort
top_values counts limit =
    let n = if is_pos limit then to_ℕ limit else 10 in take n (sort precedes (entries counts))

unfoldable pub summary : ℤ → Store → Summary
summary top_n s =
    let events = list (pos 0) s in
    let t = tally_all no_tally events in
    record {
      total = length events;
      by_risk_level = t.by_risk_level;
      by_action = t.by_action;
      by_rule = t.by_rule;
      by_plugin = t.by_plugin;
      by_rcode = t.by_rcode;
      latency_ms = record {
        count = t.latency_count;
        average = if ltb 0 t.latency_count then t.latency_sum / t.latency_count else 0;
        max = t.latency_max;
      };
      latency_by_plugin = t.latency_by_plugin;
      top_clients = top_values t.clients top_n;
      top_qnames = top_values t.qnames top_n;
    }
