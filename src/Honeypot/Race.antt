-- ===== src/Honeypot/Race.antt =====
-- Deliveries that are queued while `Drain` of internal/honeypot/client.go is delivering: between
-- `select` and `settle` any number of `enqueue` calls may run.
use any_ns.Base.{
  ℕ, ◌+◌, ◌≤◌, ◌≡◌, refl, sym, ap, ◌∙◌, List, [], ◌∷◌, ◌++◌, false, Option, Text, length, drop,
  drop_all, drop-append, last_n, last_n-append-last_n, length-last_n, length-append, ltb,
  if◌then◌else◌, arith,
}
use any_ns.Honeypot.{FailedDelivery, FailedQueue, enqueue, settle, Rewrite}
use any_ns.Honeypot.Queue.{stamped, entries-enqueue, max-enqueue, entries-settle}
use mathlib.Core.List.{append-nil, append_assoc}

-- One delivery that fails meanwhile: the clock, the delivery, and how its write ends.
pub record Arrival : Type 0 where
  pub now : ℕ
  pub delivery : FailedDelivery
  pub io : Option Text

unfoldable pub arrive : List Arrival → FailedQueue → FailedQueue
arrive [] q = q
arrive (a ∷ rest) q = arrive rest (enqueue a.now a.io a.delivery q).0

abbrev pub stamped_all : List Arrival → List FailedDelivery
stamped_all [] = []
stamped_all (a ∷ rest) = stamped a.now a.delivery ∷ stamped_all rest

max-arrive : (arrivals : List Arrival) (q : FailedQueue) → (arrive arrivals q).max ≡ q.max
unfolding arrive
max-arrive [] q = refl
max-arrive (a ∷ arrivals) q =
    max-arrive arrivals (enqueue a.now a.io a.delivery q).0 ∙ max-enqueue a.now a.io a.delivery q

entries-arrive :
    (before : List FailedDelivery) (arrivals : List Arrival) (q : FailedQueue)
    → q.entries ≡ last_n q.max before
    → (arrive arrivals q).entries ≡ last_n q.max (before ++ stamped_all arrivals)
unfolding arrive
entries-arrive before [] q h = rw append-nil h
entries-arrive before (a ∷ arrivals) q h =
    let q' = (enqueue a.now a.io a.delivery q).0 in
    let d = stamped a.now a.delivery in
    let m = max-enqueue a.now a.io a.delivery q in
    entries-arrive (before ++ d ∷ []) arrivals q' (
      entries-enqueue a.now a.io a.delivery q
      ∙ ap (λ es. last_n q.max (es ++ d ∷ [])) h
      ∙ last_n-append-last_n q.max before (d ∷ [])
      ∙ ap (λ k. last_n k (before ++ d ∷ [])) (sym m))
    ∙ ap (λ k. last_n k ((before ++ d ∷ []) ++ stamped_all arrivals)) m
    ∙ ap (last_n q.max) (append_assoc before (d ∷ []) (stamped_all arrivals))

last_n_all : (n : ℕ) (es : List FailedDelivery) → length es ≤ n → es ≡ last_n n es
last_n_all n es h = sym (ap (λ k. drop k es) {y = 0} (omega arith))

-- While the queue has room, what arrives during a drain is kept: after the first `n` entries were
-- taken up, the queue is what the drain keeps, then the entries not taken up, then the arrivals.
pub settle_with_room :
    (n : ℕ) (kept : List FailedDelivery) (arrivals : List Arrival) (io : Rewrite) (q : FailedQueue)
    → n ≤ length q.entries
    → length q.entries + length (stamped_all arrivals) ≤ q.max
    → (settle n kept io (arrive arrivals q)).0.entries
      ≡ kept ++ (drop n q.entries ++ stamped_all arrivals)
settle_with_room n kept arrivals io q small room =
    let all = q.entries ++ stamped_all arrivals in
    let same : (arrive arrivals q).entries ≡ all =
      entries-arrive q.entries arrivals q (last_n_all q.max q.entries (omega arith))
      ∙ sym
          (last_n_all q.max all (omega (arith, length-append q.entries (stamped_all arrivals)))) in
    entries-settle n kept io (arrive arrivals q)
    ∙ ap (λ es. if ltb (length es) n then kept else kept ++ drop n es) same
    ∙ rw (
      long n q.entries (stamped_all arrivals) small,
      drop-append n q.entries (stamped_all arrivals) small,
    )
  where
    long : (n : ℕ) (xs ys : List FailedDelivery) → n ≤ length xs → ltb (length (xs ++ ys)) n ≡ false
    long n xs ys h = ground (arith, length-append xs ys)

-- When a full queue is drained whole, every delivery that arrives meanwhile is lost: whatever
-- arrives, the queue afterwards is only what the drain keeps of its own selection.
pub settle_drops_arrivals :
    (kept : List FailedDelivery) (arrivals : List Arrival) (io : Rewrite) (q : FailedQueue)
    → length q.entries ≡ q.max
    → (settle (length q.entries) kept io (arrive arrivals q)).0.entries ≡ kept
settle_drops_arrivals kept arrivals io q full =
    let all = q.entries ++ stamped_all arrivals in
    let cut : (arrive arrivals q).entries ≡ last_n q.max all =
      entries-arrive q.entries arrivals q (last_n_all q.max q.entries (omega arith)) in
    let short : length (arrive arrivals q).entries ≤ length q.entries =
      omega (arith, ap length cut, length-last_n q.max all) in
    entries-settle (length q.entries) kept io (arrive arrivals q)
    ∙ rw (drop_all (length q.entries) (arrive arrivals q).entries short, append-nil) (ground arith)
