-- ===== src/DnsLog/Tests.antt =====
-- Runs of the event log, and each of its theorems at a concrete input.
use any_ns.Base.{
  ◌+◌, ℕ, suc, ◌≡◌, refl, List, [], ◌∷◌, ◌++◌, Option, none, some, Text, txt, ◌=t◌, text_lt,
  trim_space, to_lower, lower, trim_right, length, last_n, arith,
}
use any_ns.Base.Int.{ℤ, pos, negsuc}
use any_ns.Base.Dict.{Dict, insert}
use any_ns.DnsLog.{Event, Store, new_persistent_store, opened, Scanner, append, last_error}
use any_ns.DnsLog.Query.{
  EventFilter, no_filter, matches, equal_qname, filtered_ordered_events, list_filtered,
}
use any_ns.DnsLog.Summary.{top_values, summary}
use any_ns.DnsLog.Window.{append_all, events_of, append_all-window, restart_recovers}
use any_ns.DnsLog.Paging.{collect, collect-eq-filtered}
use any_ns.DnsLog.Counts.{CountsEvents, summary-CountsEvents}

-- Every line has as many bytes as the name of its event, and 200 more.
abbrev sizes : Scanner
sizes = record { line_length = λ e. 200 + length e.qname; read_err = none }

abbrev query : ℕ → Text → Text → ℤ → Event
query at name plugin latency = record {
  timestamp = at;
  trace_id = txt "t";
  client_ip = txt "10.0.0.1";
  client_view = txt "default";
  tenant = txt "default";
  qname = name;
  qtype = txt "A";
  rcode = txt "NOERROR";
  answer = [];
  source_plugin = plugin;
  risk_level = txt "none";
  action = txt "allow";
  matched_rule = txt "default-allow";
  raw_rr = [];
  latency_ms = latency;
}

abbrev first : Event
first = query 1 (txt "a.eth.") (txt "ens") (pos 4)

abbrev second : Event
second = query 2 (txt "B.hns.") (txt "hns") (negsuc 3)

abbrev third : Event
third = query 3 (txt "c.hns.") [] (pos 9)

abbrev path : Text
path = txt "events.jsonl"

abbrev fresh : Store
fresh = (new_persistent_store (pos 2) path [] opened sizes).0

abbrev writes : List (Event × Option Text)
writes = (first, none) ∷ (second, none) ∷ (third, none) ∷ []

abbrev full : Store
full = append_all writes fresh

keeps_two : full.events ≡ second ∷ third ∷ []
unfolding append_all append new_persistent_store
keeps_two = refl

failed_write_is_reported :
    last_error (append first (some (txt "disk full")) fresh) ≡ some (txt "disk full")
unfolding append new_persistent_store last_error
failed_write_is_reported = refl

abbrev about_b : EventFilter
about_b = record no_filter { qname = txt " b.HNS"; order = txt "desc" }

finds_b : list_filtered about_b (pos 0) full ≡ second ∷ []
unfolding list_filtered matches append_all append new_persistent_store equal_qname trim_space
    to_lower trim_right lower ◌=t◌
finds_b = refl

top_of :
    top_values (insert (txt "b") 2 (insert (txt "a") 2 (insert (txt "c") 3 []))) (pos 2)
    ≡ record { value = txt "c"; count = 3 } ∷ record { value = txt "a"; count = 2 } ∷ []
unfolding top_values insert ◌=t◌ text_lt
top_of = refl

append_all-window_example :
    (append_all writes fresh).events ≡ last_n fresh.limit ([] ++ events_of writes)
unfolding new_persistent_store
append_all-window_example = append_all-window [] writes fresh refl

restart_recovers_example :
    ((new_persistent_store (pos 2) path full.disk opened sizes).0.events ≡ full.events)
    × ((new_persistent_store (pos 2) path full.disk opened sizes).1 ≡ none)
restart_recovers_example =
    restart_recovers sizes (pos 2) path [] writes refl (unfold new_persistent_store in refl)
      (refl, omega arith, (refl, omega arith, (refl, omega arith, tt)))

collect-eq-filtered_example :
    collect (suc (length (filtered_ordered_events no_filter full))) no_filter (pos 1) [] full
    ≡ some (filtered_ordered_events no_filter full)
collect-eq-filtered_example = collect-eq-filtered no_filter (pos 1) full (
    unfold filtered_ordered_events matches append_all append new_persistent_store ◌=t◌ in
    omega arith)

summary-CountsEvents_example : CountsEvents (summary (pos 3) full) full.events
summary-CountsEvents_example = summary-CountsEvents (pos 3) full

abbrev counts : Dict ℕ
counts = (txt "b", 2) ∷ (txt "a", 2) ∷ (txt "c", 3) ∷ []

abbrev counts' : Dict ℕ
counts' = (txt "a", 2) ∷ (txt "b", 2) ∷ (txt "c", 3) ∷ []
