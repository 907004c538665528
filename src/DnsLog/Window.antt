-- ===== src/DnsLog/Window.antt =====
-- The store of internal/dnslog/dnslog.go against a log that keeps everything, and the file
-- against the store.
use any_ns.Base.{
  ℕ, ◌≡◌, refl, sym, ap, ◌∙◌, List, [], ◌∷◌, ◌++◌, false, Option, none, some, Text, is_empty, txt,
  leb, ◌<◌, Bool-cases, inl, inr, last_n, last_n-append-last_n, arith, drop_excess,
}
use any_ns.Base.Int.{ℤ}
use any_ns.DnsLog.{
  Event, Store, Line, garbled, encoded, opened, Scanner, max_scan_token_size, trim, append,
  load_lines, new_persistent_store, effective_limit,
}
use mathlib.Core.List.{append-nil, append_assoc}

-- A run of appends, each with what the operating system answers to its write.
unfoldable pub append_all : List (Event × Option Text) → Store → Store
append_all [] s = s
append_all ((e, io) ∷ rest) s = append_all rest (append e io s)

unfoldable pub events_of : List (Event × Option Text) → List Event
events_of [] = []
events_of ((e, io) ∷ rest) = e ∷ events_of rest

trim_lem : (n : ℕ) (es : List Event) → trim n es ≡ last_n n es
unfolding trim
trim_lem n es = drop_excess n es

events-append :
    (e : Event) (io : Option Text) (s : Store)
    → (append e io s).events ≡ last_n s.limit (s.events ++ e ∷ [])
unfolding append
events-append e io s = ground (arith, trim_lem s.limit (s.events ++ e ∷ []))

limit-append : (e : Event) (io : Option Text) (s : Store) → (append e io s).limit ≡ s.limit
unfolding append
limit-append e io s = ground arith

-- A store that holds the last `limit` events of a history does so after more appends: whatever
-- the writes do, the events are the last `limit` of the history and what was appended.
pub append_all-window :
    (history : List Event) (ops : List (Event × Option Text)) (s : Store)
    → s.events ≡ last_n s.limit history
    → (append_all ops s).events ≡ last_n s.limit (history ++ events_of ops)
unfolding append_all events_of
append_all-window history [] s h = rw append-nil h
append_all-window history ((e, io) ∷ ops) s h =
    let next : (append e io s).events ≡ last_n s.limit (history ++ e ∷ []) =
      events-append e io s
      ∙ ap (λ es. last_n s.limit (es ++ e ∷ [])) h
      ∙ last_n-append-last_n s.limit history (e ∷ []) in
    let l = limit-append e io s in
    append_all-window (history ++ e ∷ []) ops (append e io s)
      (next ∙ ap (λ k. last_n k (history ++ e ∷ [])) (sym l))
    ∙ ap (λ k. last_n k ((history ++ e ∷ []) ++ events_of ops)) l
    ∙ ap (last_n s.limit) (append_assoc history (e ∷ []) (events_of ops))

-- What a store loads from its file is what it holds, and no error stops the load.
pub IsRecoverable : Scanner → Store → Type 0
IsRecoverable sc s = load_lines s.limit sc [] s.disk ≡ (s.events, none)

-- A line of the event fits in the scanner's buffer.
abbrev pub Fits : Scanner → Event → Type 0
Fits sc e = sc.line_length e < max_scan_token_size

load_lines-append :
    (sc : Scanner) (n : ℕ) (acc es : List Event) (lines : List Line) (e : Event)
    → Fits sc e
    → load_lines n sc acc lines ≡ (es, none)
    → load_lines n sc acc (lines ++ encoded e ∷ []) ≡ (trim n (es ++ e ∷ []), none)
unfolding load_lines
load_lines-append sc n acc es [] e fits h =
    let short : leb max_scan_token_size (sc.line_length e) ≡ false = ground (arith, fits) in
    rw short (ap (λ r. (trim n (r.0 ++ e ∷ []), r.1)) h)
load_lines-append sc n acc es (garbled err ∷ lines) e fits h = ground arith
load_lines-append sc n acc es (encoded x ∷ lines) e fits h =
    elim (Bool-cases (leb max_scan_token_size (sc.line_length x))) [
      | inl long ↦
          let k : (acc, some (txt "bufio.Scanner: token too long")) ≡ (es, none) = rw long at h in
          absurd (ground arith)
      | inr short ↦
          rw short (load_lines-append sc n (trim n (acc ++ x ∷ [])) es lines e fits (rw short at h))
    ]

append-IsRecoverable :
    (sc : Scanner) (e : Event) (s : Store)
    → is_empty s.path ≡ false
    → Fits sc e
    → IsRecoverable sc s
    → IsRecoverable sc (append e none s)
unfolding append IsRecoverable
append-IsRecoverable sc e s p fits h =
    rw p (load_lines-append sc s.limit [] s.events s.disk e fits h)

path-append : (e : Event) (io : Option Text) (s : Store) → (append e io s).path ≡ s.path
unfolding append
path-append e io s = ground arith

-- Every event is written, on a line that fits.
abbrev pub AllWritten : Scanner → List (Event × Option Text) → Type 0
AllWritten sc [] = Unit
AllWritten sc ((e, io) ∷ rest) = (io ≡ none) × Fits sc e × AllWritten sc rest

append_all-IsRecoverable :
    (sc : Scanner) (ops : List (Event × Option Text)) (s : Store)
    → is_empty s.path ≡ false
    → AllWritten sc ops
    → IsRecoverable sc s
    → IsRecoverable sc (append_all ops s)
unfolding append_all
append_all-IsRecoverable sc [] s p w h = h
append_all-IsRecoverable sc ((e, none) ∷ ops) s p w h =
    append_all-IsRecoverable sc ops (append e none s) (ap is_empty (path-append e none s) ∙ p) w.2
      (append-IsRecoverable sc e s p w.1 h)
append_all-IsRecoverable sc ((e, some err) ∷ ops) s p w h = cc (w.0)

restart-IsRecoverable :
    (sc : Scanner) (limit : ℤ) (path : Text) (disk : List Line)
    → is_empty path ≡ false
    → (new_persistent_store limit path disk opened sc).1 ≡ none
    → IsRecoverable sc (new_persistent_store limit path disk opened sc).0
unfolding new_persistent_store IsRecoverable
restart-IsRecoverable sc limit path disk p h =
    rw p (ap (λ e. ((load_lines (effective_limit limit) sc [] disk).0, e)) (rw p at h))

path-new_persistent_store :
    (sc : Scanner) (limit : ℤ) (path : Text) (disk : List Line)
    → (new_persistent_store limit path disk opened sc).0.path ≡ path
unfolding new_persistent_store
path-new_persistent_store sc limit path disk = ground arith

limit-append_all :
    (ops : List (Event × Option Text)) (s : Store) → (append_all ops s).limit ≡ s.limit
unfolding append_all
limit-append_all [] s = refl
limit-append_all ((e, io) ∷ ops) s = limit-append_all ops (append e io s) ∙ limit-append e io s

limit-new_persistent_store :
    (sc : Scanner) (limit : ℤ) (path : Text) (disk : List Line)
    → (new_persistent_store limit path disk opened sc).0.limit ≡ effective_limit limit
unfolding new_persistent_store
limit-new_persistent_store sc limit path disk = ground arith

reopen :
    (sc : Scanner) (limit : ℤ) (path : Text) (disk : List Line) (es : List Event)
    → is_empty path ≡ false
    → load_lines (effective_limit limit) sc [] disk ≡ (es, none)
    → ((new_persistent_store limit path disk opened sc).0.events ≡ es)
      × ((new_persistent_store limit path disk opened sc).1 ≡ none)
unfolding new_persistent_store
reopen sc limit path disk es p h = rw p (ap (λ r. r.0) h, ap (λ r. r.1) h)

-- Opening a store on a readable file, appending events that are all written, each on a line of less
-- than 65536 bytes, and opening the store again with the same limit on the file left behind gives
-- the events that were held, whatever the lengths of the lines are otherwise.
pub restart_recovers :
    (sc : Scanner) (limit : ℤ) (path : Text) (disk : List Line) (ops : List (Event × Option Text))
    → is_empty path ≡ false
    → (new_persistent_store limit path disk opened sc).1 ≡ none
    → AllWritten sc ops
    → let s = append_all ops (new_persistent_store limit path disk opened sc).0 in
      let (t, err) = new_persistent_store limit path s.disk opened sc in
      (t.events ≡ s.events) × (err ≡ none)
restart_recovers sc limit path disk ops p h w =
    let start = (new_persistent_store limit path disk opened sc).0 in
    let s = append_all ops start in
    let r =
      append_all-IsRecoverable sc ops start
        (ap is_empty (path-new_persistent_store sc limit path disk) ∙ p) w
        (restart-IsRecoverable sc limit path disk p h) in
    let l = limit-append_all ops start ∙ limit-new_persistent_store sc limit path disk in
    reopen sc limit path s.disk s.events p
      (ap (λ n. load_lines n sc [] s.disk) (sym l) ∙ (unfold IsRecoverable in r))
