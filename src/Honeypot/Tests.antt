-- ===== src/Honeypot/Tests.antt =====
-- Runs of the failed queue and the client, and each of their theorems at a concrete input.
use any_ns.Base.{
  ℕ, suc, ◌+◌, ◌≤◌, ◌≡◌, ◌≢◌, refl, List, [], ◌∷◌, ◌++◌, Bool, true, false, Option, none, some,
  Text, txt, ◌=t◌, is_empty, length, last_n, drop, ltb, if◌then◌else◌, arith,
}
use any_ns.Base.Int.{pos}
use any_ns.DnsLog.{Event}
use any_ns.Honeypot.{
  FailedDelivery, FailedQueue, Attempt, cancelled, accepted, refused, Network, rewritten, broken,
  enqueue, select, settle, drain, drain_loop, no_progress, new_failed_queue, missing, opened,
  oldest_queued_at,
}
use any_ns.Honeypot.Client.{Client, responded, Call, deliver, delivery_error, Meets, done, calls}
use any_ns.Honeypot.Drain.{Accounted, drain_accounts}
use any_ns.Honeypot.Retries.{drain_all, drain_all-empty}
use any_ns.Honeypot.Race.{Arrival, arrive, settle_drops_arrivals}

abbrev entry : ℕ → FailedDelivery
entry at = record { queued_at = at; attempts = 1; last_error = txt "HTTP 500"; events = [] }

abbrev two : FailedQueue
two = record { path = []; max = 2; entries = entry 5 ∷ entry 4 ∷ []; file = [] }

-- The first delivery is refused, the second accepted, and then the context is done.
abbrev flaky : Network
flaky i d =
    if ltb i 1
    then refused (txt "timeout")
    else if ltb i 2
    then accepted
    else cancelled (txt "done")

abbrev down : Network
down i d = refused (txt "timeout")

drain-two :
    (drain flaky (pos 0) (pos 5) rewritten two).0.entries
    ≡ record { queued_at = 5; attempts = 2; last_error = txt "timeout"; events = [] } ∷ []
unfolding drain select drain_loop settle any_ns.Honeypot.drain_one
drain-two = refl

oldest_of_two : oldest_queued_at two ≡ 4
unfolding oldest_queued_at
oldest_of_two = refl

drain_accounts_example :
    let (q', r, err) = drain flaky (pos 1) (pos 5) rewritten two in
    Accounted flaky (pos 1) (pos 5) two q' r
drain_accounts_example = drain_accounts flaky (pos 1) (pos 5) rewritten two

drain_all-empty_example :
    (drain_all (pos 2) ((down, rewritten) ∷ (down, rewritten) ∷ []) two).entries ≡ []
drain_all-empty_example =
    drain_all-empty 2 ((down, rewritten) ∷ (down, rewritten) ∷ []) two (omega arith)
      (λ i d h. h, (λ i d h. h, tt)) (omega arith)

abbrev late : List Arrival
late = record { now = 9; delivery = entry 8; io = none } ∷ []

abbrev roomy : FailedQueue
roomy = record two { max = 3 }

settle_drops_arrivals_example :
    (settle (length two.entries) [] rewritten (arrive late two)).0.entries ≡ []
settle_drops_arrivals_example = settle_drops_arrivals [] late rewritten two refl

abbrev client : Client
client = record {
  url = txt "https://honeypot.example";
  api_key = txt "key";
  hmac_secret = txt "secret";
  queue = some two;
  max_attempts = pos 3;
  retry_interval = pos 0;
  attempted = 0;
  delivered = 0;
  last_attempt_at = 0;
  last_error = [];
  last_latency = 0;
  retained = 0;
  dropped = 0;
}

abbrev call : ℕ → Call
call code = record { exchange = responded code; now = 10; latency = 2 }

server_error : (deliver (call 503) client).1 ≡ some (txt "honeypot returned HTTP 503")
unfolding deliver delivery_error any_ns.Base.Number.itoa
server_error = refl

abbrev meets : ℕ → FailedDelivery → Meets
meets i d = if ltb i 1 then calls (call 204) else done (txt "context canceled")

abbrev seen : Event
seen = record {
  timestamp = 1;
  trace_id = txt "t1";
  client_ip = [];
  client_view = [];
  tenant = [];
  qname = [];
  qtype = [];
  rcode = [];
  answer = [];
  source_plugin = [];
  risk_level = [];
  action = [];
  matched_rule = [];
  raw_rr = [];
  latency_ms = pos 0;
}

-- An encoding and a keyed hash for the run.
abbrev plain : List Event → Text
plain events = txt "{}"

abbrev hash : Text → Text → Text
hash secret body = secret ++ body
