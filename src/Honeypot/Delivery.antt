-- ===== src/Honeypot/Delivery.antt =====
-- The client of internal/honeypot/client.go: its counters, its queue and the request that it sends.
use any_ns.Base.{
  ℕ, ◌+◌, ◌≡◌, ◌≢◌, refl, ap, ◌∙◌, List, [], ◌∷◌, ◌++◌, true, false, Option, none, some, Text, txt,
  ◌=t◌, is_empty, length, last_n, if◌then◌else◌, arith, Bool-cases, inl, inr, Option-cases,
}
use any_ns.Base.Int.{ℤ, pos, is_pos}
use any_ns.Base.Dict.{lookup, insert}
use any_ns.DnsLog.{Event}
use any_ns.Honeypot.{
  FailedDelivery, FailedQueue, DrainResult, Network, Progress, Rewrite, enqueue, drain_one,
  drain_loop, no_progress, select, settle, len,
}
use any_ns.Honeypot.Queue.{stamped, entries-enqueue}
use any_ns.Honeypot.Client.{
  Client, Call, record_attempt, error_of, delivery_error, deliver, deliver_or_queue, or_queue,
  failed_delivery, Meets, done, calls, meet, attempt_of, client_loop, record_drain, attempts_bound,
  drain_queue, drain_from, client_drain, sign, request,
}

-- What a queue's drain meets, for the client `c`.
pub network : Client → (ℕ → FailedDelivery → Meets) → Network
network c net i d = (meet (net i d) c).1

-- What a client keeps while it delivers.
record SameTarget (c c' : Client) : Type 0 where
  url : c'.url ≡ c.url
  queue : c'.queue ≡ c.queue
  retained : c'.retained ≡ c.retained
  dropped : c'.dropped ≡ c.dropped

meet-SameTarget : (x : Meets) (c : Client) → SameTarget c (meet x c).0
unfolding meet deliver record_attempt
meet-SameTarget (done err) c = ground arith
meet-SameTarget (calls call) c = ground arith

meet_same : (x : Meets) (c c' : Client) → c'.url ≡ c.url → (meet x c').1 ≡ (meet x c).1
unfolding meet deliver delivery_error
meet_same (done err) c c' h = refl
meet_same (calls call) c c' h =
    ap
      (λ u.
        attempt_of
          (if is_empty u then some (txt "honeypot url is empty") else error_of call.exchange))
      h

drain_loop_same :
    (c c' : Client) (net : ℕ → FailedDelivery → Meets) (m : ℤ) (i : ℕ) (ds : List FailedDelivery)
    (p : Progress)
    → c'.url ≡ c.url
    → drain_loop (network c' net) m i ds p ≡ drain_loop (network c net) m i ds p
unfolding network
drain_loop_same c c' net m i ds p h =
    ap (λ n. drain_loop n m i ds p) (λ j k d. meet_same (net k d) c c' h j)

-- The loop with the client's deliveries makes the progress of the queue's own drain, over the
-- network that the client sees.
pub client_loop-progress :
    (net : ℕ → FailedDelivery → Meets) (m : ℤ) (i : ℕ) (ds : List FailedDelivery) (c : Client)
    (p : Progress)
    → (client_loop net m i ds c p).1 ≡ drain_loop (network c net) m i ds p
unfolding client_loop drain_loop
client_loop-progress net m i [] c p = refl
client_loop-progress net m i (d ∷ ds) c p =
    let x = net i (record d { attempts = d.attempts + 1 }) in
    let (c', a) = meet x c in
    client_loop-progress net m (i + 1) ds c' (drain_one m d a p)
    ∙ drain_loop_same c c' net m (i + 1) ds (drain_one m d a p) (meet-SameTarget x c).url
    ∙ ap (λ b. drain_loop (network c net) m (i + 1) ds (drain_one m d b p)) {x = a}
        {y = network c net i (record d { attempts = d.attempts + 1 })} (unfold network in refl)

-- How far a client's counters are ahead of a drain's.
record Ahead (c : Client) (p : Progress) (a b : ℕ) : Type 0 where
  attempted : c.attempted ≡ a + p.result.attempted
  delivered : c.delivered ≡ b + p.result.delivered

meet-Ahead :
    (m : ℤ) (d : FailedDelivery) (x : Meets) (c : Client) (p : Progress) (a b : ℕ)
    → Ahead c p a b
    → Ahead (meet x c).0 (drain_one m d (meet x c).1 p) a b
unfolding meet deliver record_attempt drain_one attempt_of
meet-Ahead m d (done err) c p a b h = omega (arith, h)
meet-Ahead m d (calls call) c p a b h = elim (Option-cases (delivery_error c call.exchange)) [
  | inl ok ↦ rw ok (omega (arith, h))
  | inr bad ↦ rw bad.1 (ground (arith, h))
]

client_loop-Ahead :
    (net : ℕ → FailedDelivery → Meets) (m : ℤ) (i : ℕ) (ds : List FailedDelivery) (c : Client)
    (p : Progress) (a b : ℕ)
    → Ahead c p a b
    → Ahead (client_loop net m i ds c p).0 (client_loop net m i ds c p).1 a b
unfolding client_loop
client_loop-Ahead net m i [] c p a b h = h
client_loop-Ahead net m i (d ∷ ds) c p a b h =
    let x = net i (record d { attempts = d.attempts + 1 }) in
    client_loop-Ahead net m (i + 1) ds (meet x c).0 (drain_one m d (meet x c).1 p) a b
      (meet-Ahead m d x c p a b h)

client_loop-SameTarget :
    (net : ℕ → FailedDelivery → Meets) (m : ℤ) (i : ℕ) (ds : List FailedDelivery) (c : Client)
    (p : Progress)
    → SameTarget c (client_loop net m i ds c p).0
unfolding client_loop
client_loop-SameTarget net m i [] c p = record {
  url = refl;
  queue = refl;
  retained = refl;
  dropped = refl;
}
client_loop-SameTarget net m i (d ∷ ds) c p =
    let x = net i (record d { attempts = d.attempts + 1 }) in
    let s = meet-SameTarget x c in
    let t = client_loop-SameTarget net m (i + 1) ds (meet x c).0 (drain_one m d (meet x c).1 p) in
    record {
      url = t.url ∙ s.url;
      queue = t.queue ∙ s.queue;
      retained = t.retained ∙ s.retained;
      dropped = t.dropped ∙ s.dropped;
    }

record_drain_counts :
    (r : DrainResult) (err : Option Text) (c : Client)
    → let c' = record_drain r err c in
      (c'.attempted ≡ c.attempted)
      × (c'.delivered ≡ c.delivered)
      × (c'.retained ≡ c.retained + r.retained)
      × (c'.dropped ≡ c.dropped + r.dropped)
unfolding record_drain
record_drain_counts r err c = ground arith

-- How a client's counters move with a result.
pub record Moves (c c' : Client) (r : DrainResult) : Type 0 where
  pub attempted : c'.attempted ≡ c.attempted + r.attempted
  pub delivered : c'.delivered ≡ c.delivered + r.delivered
  pub retained : c'.retained ≡ c.retained + r.retained
  pub dropped : c'.dropped ≡ c.dropped + r.dropped

drain_queue-Moves :
    (net : ℕ → FailedDelivery → Meets) (limit : ℤ) (io : Rewrite) (q : FailedQueue) (c : Client)
    → Moves c (drain_queue net limit io q c).0 (drain_queue net limit io q c).1
unfolding drain_queue
drain_queue-Moves net limit io q c =
    let selected = select (if is_pos limit then limit else pos (len q)) q in
    let loop = client_loop net (attempts_bound c) 0 selected c no_progress in
    let s = client_loop-SameTarget net (attempts_bound c) 0 selected c no_progress in
    let h =
      client_loop-Ahead net (attempts_bound c) 0 selected c no_progress c.attempted c.delivered
        (omega arith) in
    let (q', err) = settle (length selected) loop.1.kept io q in
    let k = record_drain_counts loop.1.result err (record loop.0 { queue = some q' }) in
    omega (arith, h, k, s.retained, s.dropped)

drain_from-Moves :
    (o : Option FailedQueue) (net : ℕ → FailedDelivery → Meets) (limit : ℤ) (io : Rewrite)
    (c : Client)
    → Moves c (drain_from o net limit io c).0 (drain_from o net limit io c).1
unfolding drain_from
drain_from-Moves none net limit io c = omega arith
drain_from-Moves (some q) net limit io c = elim (Bool-cases (is_empty c.url)) [
  | inl e ↦ rw e (omega arith)
  | inr e ↦ rw e (drain_queue-Moves net limit io q c)
]

-- Draining through the client moves its four counters by exactly what the drain reports, whatever
-- the network answers, also when the drain fails or is refused.
client_drain-Moves :
    (net : ℕ → FailedDelivery → Meets) (limit : ℤ) (io : Rewrite) (c : Client)
    → Moves c (client_drain net limit io c).0 (client_drain net limit io c).1
unfolding client_drain
client_drain-Moves net limit io c = drain_from-Moves c.queue net limit io c

-- What `DeliverOrQueue` leaves after a delivery that ended with `err`, for a client with a queue.
pub data Handled (c c' : Client) (q : FailedQueue) (now : ℕ) (events : List Event)
    (reported : Option Text) : Option Text → Type 0 where
  sent :
      reported ≡ none
      → c'.delivered ≡ c.delivered + 1
      → c'.queue ≡ some q
      → Handled c c' q now events reported none
  queued :
      (e : Text) (q' : FailedQueue)
      → reported ≢ none
      → c'.delivered ≡ c.delivered
      → c'.queue ≡ some q'
      → q'.entries ≡ last_n q.max (q.entries ++ stamped now (failed_delivery now e events) ∷ [])
      → Handled c c' q now events reported (some e)

-- With a queue, a delivery that succeeds is counted and leaves the queue alone, and one that fails
-- reports an error and stands at the end of the queue with one attempt, whether or not the file
-- could be written; the queue keeps its newest entries.
deliver_or_queue-Handled :
    (call : Call) (now : ℕ) (io : Option Text) (events : List Event) (c : Client) (q : FailedQueue)
    → c.queue ≡ some q
    → let (c', err) = deliver_or_queue call now io events c in
      Handled c c' q now events err (delivery_error c call.exchange)
unfolding deliver_or_queue deliver
deliver_or_queue-Handled call now io events c q h =
    simp h (by_error (delivery_error c call.exchange))
  where
    by_error :
        (err : Option Text)
        → let (c', reported) =
            or_queue err (some q) now io events (record_attempt call.now call.latency err c) in
          Handled c c' q now events reported err
    by_error none =
        sent (unfold or_queue in refl) (unfold or_queue record_attempt in refl)
          (unfold or_queue record_attempt in h)
    by_error (some e) =
        queued e (enqueue now io (failed_delivery now e events) q).0 (unfold or_queue in (λ p. cc))
          (unfold or_queue record_attempt in refl) (unfold or_queue record_attempt in refl)
          (entries-enqueue now io (failed_delivery now e events) q)

-- The request that `Deliver` sends carries the key of a client that has one as a bearer token,
-- the signature of its body if the client has a secret, and the trace id of the first event as
-- its idempotency key.
pub request_headers :
    (encode : List Event → Text) (hmac_hex : Text → Text → Text) (c : Client) (e : Event)
    (es : List Event)
    → let r = request encode hmac_hex c (e ∷ es) in
      (is_empty c.api_key ≡ false
        → lookup (txt "Authorization") r.headers ≡ some (txt "Bearer " ++ c.api_key))
      × (is_empty c.api_key ≡ true → lookup (txt "Authorization") r.headers ≡ none)
      × (is_empty c.hmac_secret ≡ false
          → lookup (txt "X-anyNS-Signature") r.headers
            ≡ some (sign encode hmac_hex r.body c.hmac_secret))
      × (is_empty e.trace_id ≡ false
          → lookup (txt "X-anyNS-Idempotency-Key") r.headers ≡ some e.trace_id)
unfolding request lookup insert ◌=t◌
request_headers encode hmac_hex c e es =
    (λ h. ground arith, λ h. ground arith, λ h. ground arith, λ h. ground arith)
