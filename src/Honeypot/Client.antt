-- ===== src/Honeypot/Client.antt =====
-- The client of internal/honeypot/client.go: deliveries over HTTP, and drains of its queue. The
-- JSON encoding of a body and its HMAC are arguments.
use any_ns.Base.{
  ℕ, ◌+◌, ◌-◌, ◌/◌, List, [], ◌∷◌, ◌++◌, Bool, not, ◌||◌, Option, none, some, Text, txt, is_empty,
  length, ltb, leb, ◌==◌, if◌then◌else◌,
}
use any_ns.Base.Int.{ℤ, pos, is_pos}
use any_ns.Base.Dict.{Dict, insert}
use any_ns.Base.Number.{itoa}
use any_ns.DnsLog.{Event}
use any_ns.Honeypot.{
  FailedDelivery, FailedQueue, DrainResult, Attempt, cancelled, accepted, refused, Progress,
  Rewrite, enqueue, len, oldest_queued_at, select, drain_one, no_progress, settle,
}

pub record Client : Type 0 where
  pub url : Text
  pub api_key : Text
  pub hmac_secret : Text
  pub queue : Option FailedQueue
  pub max_attempts : ℤ
  pub retry_interval : ℤ
  pub attempted : ℕ
  pub delivered : ℕ
  pub last_attempt_at : ℕ
  pub last_error : Text
  pub last_latency : ℕ
  pub retained : ℕ
  pub dropped : ℕ

pub record Request : Type 0 where
  pub url : Text
  pub headers : Dict Text
  pub body : Text

-- The trace id of the first event.
first_trace : List Event → Text
first_trace [] = []
first_trace (e ∷ es) = e.trace_id

unfoldable pub set_unless_empty : Text → Text → Text → Dict Text → Dict Text
set_unless_empty guard name value headers =
    if is_empty guard then headers else insert name value headers

module _ (encode : List Event → Text) (hmac_hex : Text → Text → Text) where
  -- `Sign`
  unfoldable pub sign : Text → Text → Text
  sign body secret = txt "sha256=" ++ hmac_hex secret body

  -- The request that `Deliver` sends.
  unfoldable pub request : Client → List Event → Request
  unfolding sign first_trace set_unless_empty
  request c events =
      let body = encode events in
      let typed = insert (txt "Content-Type") (txt "application/json") [] in
      let keyed =
        set_unless_empty c.api_key (txt "Authorization") (txt "Bearer " ++ c.api_key) typed in
      let signed =
        set_unless_empty c.hmac_secret (txt "X-anyNS-Signature") (sign body c.hmac_secret) keyed in
      record {
        url = c.url;
        headers =
            set_unless_empty (first_trace events) (txt "X-anyNS-Idempotency-Key")
              (first_trace events) signed;
        body = body;
      }

-- How the exchange ends: an error before or instead of a response, or a status code.
pub data Exchange : Type 0 where
  no_response : Text → Exchange
  responded : ℕ → Exchange

-- The exchange with the clock at its end and the time that it took.
pub record Call : Type 0 where
  pub exchange : Exchange
  pub now : ℕ
  pub latency : ℕ

unfoldable pub record_attempt : ℕ → ℕ → Option Text → Client → Client
record_attempt now latency err c =
    let c' = record c {
      attempted = c.attempted + 1;
      last_attempt_at = now;
      last_latency = latency;
    } in
    elim err [
      | none ↦ record c' { delivered = c.delivered + 1; last_error = [] }
      | some e ↦ record c' { last_error = e }
    ]

unfoldable pub error_of : Exchange → Option Text
error_of (no_response err) = some err
error_of (responded status) =
    if ltb status 200 || leb 300 status
    then some (txt "honeypot returned HTTP " ++ itoa status)
    else none

unfoldable pub delivery_error : Client → Exchange → Option Text
unfolding error_of
delivery_error c ex = if is_empty c.url then some (txt "honeypot url is empty") else error_of ex

unfoldable pub deliver : Call → Client → Client × Option Text
deliver call c =
    let err = delivery_error c call.exchange in (record_attempt call.now call.latency err c, err)

-- The entry that a failed delivery becomes.
abbrev pub failed_delivery : ℕ → Text → List Event → FailedDelivery
failed_delivery now err events = record {
  queued_at = now;
  attempts = 1;
  last_error = err;
  events = events;
}

-- The error of a delivery, with that of queuing it.
unfoldable pub both_errors : Text → Option Text → Text
both_errors e none = e
both_errors e (some f) = e ++ txt "; failed to queue delivery: " ++ f

-- After the delivery ended with an error or none. `now` and `io` are the queue's clock and write.
unfoldable pub or_queue :
    Option Text → Option FailedQueue → ℕ → Option Text → List Event → Client → Client × Option Text
or_queue none queue now io events c = (c, none)
or_queue (some e) none now io events c = (c, some e)
or_queue (some e) (some q) now io events c =
    let (q', queue_err) = enqueue now io (failed_delivery now e events) q in
    (record c { queue = some q' }, some (both_errors e queue_err))

unfoldable pub deliver_or_queue :
    Call → ℕ → Option Text → List Event → Client → Client × Option Text
deliver_or_queue call now io events c =
    let (c', err) = deliver call c in or_queue err c.queue now io events c'

-- What each entry of a drain meets: a context that is done, or a call.
pub data Meets : Type 0 where
  done : Text → Meets
  calls : Call → Meets

unfoldable pub attempt_of : Option Text → Attempt
attempt_of none = accepted
attempt_of (some err) = refused err

-- One entry's delivery: an entry whose context is done is not tried.
unfoldable pub meet : Meets → Client → Client × Attempt
meet (done err) c = (c, cancelled err)
meet (calls call) c = let (c', err) = deliver call c in (c', attempt_of err)

-- The loop of the queue's `Drain` with the client's `Deliver` as its callback.
unfoldable pub client_loop :
    (ℕ → FailedDelivery → Meets)
    → ℤ
    → ℕ
    → List FailedDelivery
    → Client
    → Progress
    → Client × Progress
client_loop net m i [] c p = (c, p)
client_loop net m i (d ∷ ds) c p =
    let (c', a) = meet (net i (record d { attempts = d.attempts + 1 })) c in
    client_loop net m (i + 1) ds c' (drain_one m d a p)

unfoldable pub record_drain : DrainResult → Option Text → Client → Client
record_drain r err c =
    let c' = record c { retained = c.retained + r.retained; dropped = c.dropped + r.dropped } in
    elim err [
      | some e ↦ record c' { last_error = e }
      | none ↦ if is_empty r.last_error then c' else record c' { last_error = r.last_error }
    ]

abbrev pub no_result : DrainResult
no_result = no_progress.result

-- A client's bound on attempts; one that is not positive becomes 5.
unfoldable pub attempts_bound : Client → ℤ
attempts_bound c = if is_pos c.max_attempts then c.max_attempts else pos 5

-- `Client.Drain` once it has a queue and an address; a limit that is not positive takes the
-- whole queue.
unfoldable pub drain_queue :
    (ℕ → FailedDelivery → Meets)
    → ℤ
    → Rewrite
    → FailedQueue
    → Client
    → Client × DrainResult × Option Text
drain_queue net limit io q c =
    let n = if is_pos limit then limit else pos (len q) in
    let selected = select n q in
    let (c', p) = client_loop net (attempts_bound c) 0 selected c no_progress in
    let (q', err) = settle (length selected) p.kept io q in
    (record_drain p.result err (record c' { queue = some q' }), p.result, err)

unfoldable pub drain_from :
    Option FailedQueue
    → (ℕ → FailedDelivery → Meets)
    → ℤ
    → Rewrite
    → Client
    → Client × DrainResult × Option Text
drain_from none net limit io c =
    (c, no_result, some (txt "honeypot failed queue is not configured"))
drain_from (some q) net limit io c =
    if is_empty c.url
    then (c, no_result, some (txt "honeypot url is empty"))
    else drain_queue net limit io q c

unfoldable pub client_drain :
    (ℕ → FailedDelivery → Meets) → ℤ → Rewrite → Client → Client × DrainResult × Option Text
unfolding drain_from
client_drain net limit io c = drain_from c.queue net limit io c

pub record DeliveryStatus : Type 0 where
  pub enabled : Bool
  pub last_attempt_at : ℕ
  pub last_error : Text
  pub last_latency_ms : ℕ
  pub attempted : ℕ
  pub delivered : ℕ
  pub retained : ℕ
  pub dropped : ℕ
  pub failed_queue_length : ℕ
  pub oldest_queued_at : ℕ
  pub oldest_queued_age_seconds : ℕ

-- Whole seconds from `past` to `now`, 0 if `past` is later. Times are in nanoseconds.
abbrev seconds_since : ℕ → ℕ → ℕ
seconds_since past now = (now - past) / 1000000000

-- `clock` is what the clock says if `now` is the zero time.
unfoldable pub status : ℕ → ℕ → Client → DeliveryStatus
status now clock c =
    let st : DeliveryStatus = record {
      enabled = not (is_empty c.url);
      last_attempt_at = c.last_attempt_at;
      last_error = c.last_error;
      last_latency_ms = c.last_latency / 1000000;
      attempted = c.attempted;
      delivered = c.delivered;
      retained = c.retained;
      dropped = c.dropped;
      failed_queue_length = 0;
      oldest_queued_at = 0;
      oldest_queued_age_seconds = 0;
    } in
    elim c.queue [
      | none ↦ st
      | some q ↦
          let oldest = oldest_queued_at q in
          record st {
            failed_queue_length = len q;
            oldest_queued_at = oldest;
            oldest_queued_age_seconds =
                if oldest == 0 then 0 else seconds_since oldest (if now == 0 then clock else now);
          }
    ]

-- The period of the replay worker, in nanoseconds.
unfoldable pub replay_interval : ℤ → Client → ℤ
replay_interval asked c =
    if is_pos asked
    then asked
    else if is_pos c.retry_interval
    then c.retry_interval
    else pos 30000000000

-- One round of the replay worker: a drain when there is something to drain, and the result that
-- it offers on its channel.
unfoldable pub drain_for_worker :
    (ℕ → FailedDelivery → Meets) → ℤ → Rewrite → Client → Client × Option DrainResult
drain_for_worker net limit io c = elim c.queue [
  | none ↦ (c, none)
  | some q ↦
      if len q == 0 || is_empty c.url
      then (c, none)
      else let (c', r, err) = client_drain net limit io c in
        (c', some (elim err [ none ↦ r | some e ↦ record r { last_error = e } ]))
]
