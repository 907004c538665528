-- ===== src/Honeypot.antt =====
-- internal/honeypot/client.go: the queue of failed deliveries and the client that fills and
-- drains it. The HTTP exchange is what the network answers, an argument of each operation; each
-- method of the queue is one step under its mutex, but `Drain` is two, with the deliveries in
-- between.
pub mod Client
pub mod Queue
pub mod Drain
pub mod Retries
pub mod Race
pub mod Delivery
mod Tests
use any_ns.Base.{
  ℕ, suc, ◌+◌, ◌-◌, List, [], ◌∷◌, ◌++◌, Bool, true, false, not, ◌&&◌, ◌||◌, Option, none, some,
  Text, txt, is_empty, length, take, drop, ltb, leb, ◌==◌, if◌then◌else◌,
}
use any_ns.Base.Int.{ℤ, pos, is_pos, to_ℕ}
use any_ns.DnsLog.{Event, max_scan_token_size}

pub record FailedDelivery : Type 0 where
  pub queued_at : ℕ
  pub attempts : ℕ
  pub last_error : Text
  pub events : List Event

-- A line of the queue's file.
pub data Line : Type 0 where
  encoded : FailedDelivery → Line
  garbled : Text → Line

-- `file` is the content of the file at `path`.
pub record FailedQueue : Type 0 where
  pub path : Text
  pub max : ℕ
  pub entries : List FailedDelivery
  pub file : List Line

-- `copy(q.entries, q.entries[len-max:]); q.entries = q.entries[:max]`
unfoldable pub trim : ℕ → List FailedDelivery → List FailedDelivery
trim max entries = if ltb max (length entries) then drop (length entries - max) entries else entries

-- `now` is what the clock says if the delivery has no time of its own; `io` is the error of
-- writing the line, if it fails.
unfoldable pub enqueue : ℕ → Option Text → FailedDelivery → FailedQueue → FailedQueue × Option Text
unfolding trim
enqueue now io delivery q =
    let d = record delivery {
      queued_at = if delivery.queued_at == 0 then now else delivery.queued_at;
    } in
    let t = record q { entries = trim q.max (q.entries ++ d ∷ []) } in
    if is_empty q.path then (t, none) else elim io [
      | none ↦ (record t { file = q.file ++ encoded d ∷ [] }, none)
      | some err ↦ (t, some err)
    ]

unfoldable pub len : FailedQueue → ℕ
len q = length q.entries

unfoldable pub list : ℤ → FailedQueue → List FailedDelivery
list limit q =
    let n = length q.entries in
    drop (n - (if not (is_pos limit) || ltb n (to_ℕ limit) then n else to_ℕ limit)) q.entries

oldest_from : ℕ → List FailedDelivery → ℕ
oldest_from oldest [] = oldest
oldest_from oldest (e ∷ es) =
    oldest_from
      (if not (e.queued_at == 0) && (oldest == 0 || ltb e.queued_at oldest)
        then e.queued_at
        else oldest)
      es

-- 0 is the zero time.
unfoldable pub oldest_queued_at : FailedQueue → ℕ
unfolding oldest_from
oldest_queued_at q = elim q.entries [ [] ↦ 0 | e ∷ es ↦ oldest_from e.queued_at es ]

pub record DrainResult : Type 0 where
  pub attempted : ℕ
  pub delivered : ℕ
  pub retained : ℕ
  pub dropped : ℕ
  pub last_error : Text

-- What the loop of `Drain` meets at one entry: the context is done, or a delivery that ends with
-- or without an error.
pub data Attempt : Type 0 where
  cancelled : Text → Attempt
  accepted : Attempt
  refused : Text → Attempt

-- `deliver` answers at each entry of the loop, by its place in the loop.
abbrev pub Network : Type 0
Network = ℕ → FailedDelivery → Attempt

unfoldable pub gives_up : ℤ → ℕ → Bool
gives_up max_attempts attempts = is_pos max_attempts && leb (to_ℕ max_attempts) attempts

-- What the loop carries: the result, and the entries to keep.
pub record Progress : Type 0 where
  pub result : DrainResult
  pub kept : List FailedDelivery

-- The body of the loop.
unfoldable pub drain_one : ℤ → FailedDelivery → Attempt → Progress → Progress
unfolding gives_up
drain_one max_attempts d (cancelled err) p = record p {
  result = record p.result { last_error = err };
  kept = p.kept ++ d ∷ [];
}
drain_one max_attempts d accepted p =
    let r = p.result in
    record p { result = record r { attempted = r.attempted + 1; delivered = r.delivered + 1 } }
drain_one max_attempts d (refused err) p =
    let r = record p.result { attempted = p.result.attempted + 1; last_error = err } in
    let d' = record d { attempts = d.attempts + 1; last_error = err } in
    if gives_up max_attempts (d.attempts + 1)
    then record p { result = record r { dropped = r.dropped + 1 } }
    else record p { result = record r { retained = r.retained + 1 }; kept = p.kept ++ d' ∷ [] }

-- The delivery is tried with its attempts already counted.
unfoldable pub drain_loop : Network → ℤ → ℕ → List FailedDelivery → Progress → Progress
drain_loop net max_attempts i [] p = p
drain_loop net max_attempts i (d ∷ ds) p =
    drain_loop net max_attempts (i + 1) ds
      (drain_one max_attempts d (net i (record d { attempts = d.attempts + 1 })) p)

abbrev pub no_progress : Progress
no_progress = record {
  result = record { attempted = 0; delivered = 0; retained = 0; dropped = 0; last_error = [] };
  kept = [];
}

-- The entries that a drain takes up, under the read lock.
unfoldable pub select : ℤ → FailedQueue → List FailedDelivery
select limit q =
    let n = length q.entries in
    take (if not (is_pos limit) || ltb n (to_ℕ limit) then n else to_ℕ limit) q.entries

-- How rewriting the file ends: a failure leaves some lines behind.
pub data Rewrite : Type 0 where
  rewritten : Rewrite
  broken : Text → List Line → Rewrite

encode_all : List FailedDelivery → List Line
encode_all [] = []
encode_all (d ∷ ds) = encoded d ∷ encode_all ds

unfoldable pub rewrite_locked : Rewrite → FailedQueue → FailedQueue × Option Text
unfolding encode_all
rewrite_locked rewritten q = (record q { file = encode_all q.entries }, none)
rewrite_locked (broken err lines) q = (record q { file = lines }, some err)

-- The end of `Drain`, under the write lock: the queue may have changed since `select`.
unfoldable pub settle : ℕ → List FailedDelivery → Rewrite → FailedQueue → FailedQueue × Option Text
unfolding rewrite_locked
settle selected kept io q =
    let t = record q {
      entries = if ltb (length q.entries) selected then kept else kept ++ drop selected q.entries;
    } in
    if is_empty q.path then (t, none) else rewrite_locked io t

-- `FailedQueue.Drain` when nothing else touches the queue meanwhile.
unfoldable pub drain :
    Network → ℤ → ℤ → Rewrite → FailedQueue → FailedQueue × DrainResult × Option Text
drain net limit max_attempts io q =
    let selected = select limit q in
    let p = drain_loop net max_attempts 0 selected no_progress in
    let (q', err) = settle (length selected) p.kept io q in (q', p.result, err)

pub data Opened : Type 0 where
  opened : Opened
  missing : Opened
  failed : Text → Opened

-- A `bufio.Scanner` on the file: the length of a delivery's line and the error of reading after the
-- last line.
pub record DeliveryScanner : Type 0 where
  pub line_length : FailedDelivery → ℕ
  pub read_err : Option Text

unfoldable pub load_lines :
    ℕ → DeliveryScanner → List FailedDelivery → List Line → List FailedDelivery × Option Text
unfolding trim
load_lines max scanner entries [] = (entries, scanner.read_err)
load_lines max scanner entries (garbled err ∷ lines) = (entries, some err)
load_lines max scanner entries (encoded d ∷ lines) =
    let rest = load_lines max scanner (trim max (entries ++ d ∷ [])) lines in
    if leb max_scan_token_size (scanner.line_length d)
    then (entries, some (txt "bufio.Scanner: token too long"))
    else rest

unfoldable pub load : Opened → DeliveryScanner → FailedQueue → FailedQueue × Option Text
unfolding load_lines
load missing scanner q = (q, none)
load (failed err) scanner q = (q, some err)
load opened scanner q =
    let (entries, err) = load_lines q.max scanner q.entries q.file in
    (record q { entries = entries }, err)

-- A bound that is not positive becomes 10000.
unfoldable pub new_failed_queue :
    Text → ℤ → List Line → Opened → DeliveryScanner → FailedQueue × Option Text
unfolding load
new_failed_queue path max_entries file how scanner =
    let q : FailedQueue = record {
      path = path;
      max = if is_pos max_entries then to_ℕ max_entries else 10000;
      entries = [];
      file = file;
    } in
    if is_empty path then (q, none) else load how scanner q
