-- ===== src/Honeypot/Queue.antt =====
-- The bound and the order of the failed queue of internal/honeypot/client.go.
use any_ns.Base.{
  ℕ, ◌≤◌, ◌≡◌, ap, List, [], ◌∷◌, ◌++◌, Option, Text, length, drop, last_n, length-last_n,
  length-append, length-drop, drop_excess, ltb, ◌==◌, if◌then◌else◌, arith,
}
use any_ns.Honeypot.{FailedDelivery, FailedQueue, enqueue, settle, Rewrite, rewritten, broken}

-- The delivery as it is queued.
abbrev pub stamped : ℕ → FailedDelivery → FailedDelivery
stamped now d = record d { queued_at = if d.queued_at == 0 then now else d.queued_at }

-- Enqueuing leaves the last `max` deliveries of the queue with the new one at its end, whether
-- or not the file could be written.
pub entries-enqueue :
    (now : ℕ) (io : Option Text) (d : FailedDelivery) (q : FailedQueue)
    → (enqueue now io d q).0.entries ≡ last_n q.max (q.entries ++ stamped now d ∷ [])
unfolding enqueue
entries-enqueue now io d q = ground (arith, drop_excess q.max (q.entries ++ stamped now d ∷ []))

pub max-enqueue :
    (now : ℕ) (io : Option Text) (d : FailedDelivery) (q : FailedQueue)
    → (enqueue now io d q).0.max ≡ q.max
unfolding enqueue
max-enqueue now io d q = ground arith

abbrev pub IsBounded : FailedQueue → Type 0
IsBounded q = length q.entries ≤ q.max

pub enqueue-IsBounded :
    (now : ℕ) (io : Option Text) (d : FailedDelivery) (q : FailedQueue)
    → IsBounded (enqueue now io d q).0
enqueue-IsBounded now io d q = omega (
  arith,
  ap length (entries-enqueue now io d q),
  length-last_n q.max (q.entries ++ stamped now d ∷ []),
  max-enqueue now io d q,
)

-- What `settle` leaves in memory does not depend on the file.
pub entries-settle :
    (n : ℕ) (kept : List FailedDelivery) (io : Rewrite) (q : FailedQueue)
    → (settle n kept io q).0.entries
      ≡ (if ltb (length q.entries) n then kept else kept ++ drop n q.entries)
unfolding settle
entries-settle n kept rewritten q = ground arith
entries-settle n kept (broken err lines) q = ground arith

pub max-settle :
    (n : ℕ) (kept : List FailedDelivery) (io : Rewrite) (q : FailedQueue)
    → (settle n kept io q).0.max ≡ q.max
unfolding settle
max-settle n kept rewritten q = ground arith
max-settle n kept (broken err lines) q = ground arith

-- Whatever happened to a bounded queue during the deliveries, settling at most as many entries
-- as were selected, out of a selection no larger than the bound, keeps it bounded.
pub settle-IsBounded :
    (n : ℕ) (kept : List FailedDelivery) (io : Rewrite) (q : FailedQueue)
    → n ≤ q.max
    → length kept ≤ n
    → IsBounded q
    → IsBounded (settle n kept io q).0
settle-IsBounded n kept io q small fewer h = ground (
  arith,
  entries-settle n kept io q,
  max-settle n kept io q,
  length-append kept (drop n q.entries),
  length-drop n q.entries,
)
