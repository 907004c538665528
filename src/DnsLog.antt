-- ===== src/DnsLog.antt =====
-- internal/dnslog/dnslog.go: the event log, a window on the last `limit` events with an optional
-- file behind it. The mutex makes each method one step, so a method is a function on the store.
-- Times are nanoseconds since Go's zero time; the file is its list of lines.
pub mod Query
pub mod Summary
pub mod Window
pub mod Matching
pub mod Paging
pub mod Counts
pub mod Latency
pub mod Top
mod Tests
use any_ns.Base.{
  leb, txt, ℕ, ◌-◌, List, [], ◌∷◌, ◌++◌, Option, none, some, Text, is_empty, length, drop, ltb,
  if◌then◌else◌,
}
use any_ns.Base.Int.{ℤ, is_pos, to_ℕ}
use any_ns.Base.Dict.{Dict}
use any_ns.Base.Value.{Value}

pub record Event : Type 0 where
  pub timestamp : ℕ
  pub trace_id : Text
  pub client_ip : Text
  pub client_view : Text
  pub tenant : Text
  pub qname : Text
  pub qtype : Text
  pub rcode : Text
  pub answer : List Text
  pub source_plugin : Text
  pub risk_level : Text
  pub action : Text
  pub matched_rule : Text
  pub raw_rr : Dict Value
  pub latency_ms : ℤ

-- A line of the file: an event's JSON, or something that does not decode.
pub data Line : Type 0 where
  encoded : Event → Line
  garbled : Text → Line

-- `disk` is the content of the file at `path`.
pub record Store : Type 0 where
  pub events : List Event
  pub limit : ℕ
  pub path : Text
  pub last_err : Option Text
  pub disk : List Line

-- A limit that is not positive becomes 1000.
unfoldable pub effective_limit : ℤ → ℕ
effective_limit limit = if is_pos limit then to_ℕ limit else 1000

unfoldable pub new_store : ℤ → List Line → Store
unfolding effective_limit
new_store limit disk = record {
  events = [];
  limit = effective_limit limit;
  path = [];
  last_err = none;
  disk = disk;
}

-- `copy(s.events, s.events[len-limit:]); s.events = s.events[:limit]`
unfoldable pub trim : ℕ → List Event → List Event
trim limit events =
    if ltb limit (length events) then drop (length events - limit) events else events

-- `appendJSONLine`: the operating system decides whether the write fails. A failed write is taken
-- to leave no line.
unfoldable pub append_json_line : Event → Option Text → List Line → List Line
append_json_line event none disk = disk ++ encoded event ∷ []
append_json_line event (some err) disk = disk

unfoldable pub append : Event → Option Text → Store → Store
unfolding trim append_json_line
append event io s =
    let t = record s { events = trim s.limit (s.events ++ event ∷ []) } in
    if is_empty s.path
    then t
    else record t { last_err = io; disk = append_json_line event io s.disk }

-- How opening the file ends.
pub data Opened : Type 0 where
  opened : Opened
  missing : Opened
  failed : Text → Opened

-- A `bufio.Scanner` on the file: the length of the line that an event's JSON makes, which is up to
-- the encoder, and the error of reading after the last line.
pub record Scanner : Type 0 where
  pub line_length : Event → ℕ
  pub read_err : Option Text

-- `bufio.MaxScanTokenSize`: a line and its end have to fit.
abbrev pub max_scan_token_size : ℕ
max_scan_token_size = 65536

-- The loop of `load`: the events so far, and the error that stopped it, which is that of the line
-- or that of the scanner.
unfoldable pub load_lines : ℕ → Scanner → List Event → List Line → List Event × Option Text
unfolding trim
load_lines limit scanner events [] = (events, scanner.read_err)
load_lines limit scanner events (garbled err ∷ lines) = (events, some err)
load_lines limit scanner events (encoded event ∷ lines) =
    let rest = load_lines limit scanner (trim limit (events ++ event ∷ [])) lines in
    if leb max_scan_token_size (scanner.line_length event)
    then (events, some (txt "bufio.Scanner: token too long"))
    else rest

unfoldable pub load : Opened → Scanner → Store → Store × Option Text
unfolding load_lines
load missing scanner s = (s, none)
load (failed err) scanner s = (s, some err)
load opened scanner s =
    let (events, err) = load_lines s.limit scanner s.events s.disk in
    (record s { events = events }, err)

-- The second part is the error; the store is returned beside it.
unfoldable pub new_persistent_store : ℤ → Text → List Line → Opened → Scanner → Store × Option Text
unfolding new_store load
new_persistent_store limit path disk file scanner =
    let s = record (new_store limit disk) { path = path } in
    if is_empty path then (s, none) else load file scanner s

unfoldable pub last_error : Store → Option Text
last_error s = s.last_err
