-- ===== src/DnsLog/Query.antt =====
-- The queries of internal/dnslog/dnslog.go: filters, lists and pages.
use any_ns.Base.{
  ℕ, ◌+◌, ◌-◌, List, [], reverse, Bool, true, false, not, ◌&&◌, ◌||◌, Option, none, some, Text, txt,
  ◌=t◌, is_empty, to_lower, trim_space, trim_right, contains, length, take, drop, filter, ltb, ◌==◌,
  if◌then◌else◌,
}
use any_ns.Base.Int.{ℤ, pos, negsuc, is_pos, to_ℕ}
use any_ns.Base.Number.{itoa, atoi}
use any_ns.DnsLog.{Event, Store}

-- An empty text and the zero time leave a field unconstrained.
pub record EventFilter : Type 0 where
  pub trace_id : Text
  pub client_ip : Text
  pub client_view : Text
  pub tenant : Text
  pub qname : Text
  pub qname_contains : Text
  pub qtype : Text
  pub source_plugin : Text
  pub risk_level : Text
  pub action : Text
  pub matched_rule : Text
  pub rcode : Text
  pub since : ℕ
  pub until : ℕ
  pub order : Text

unfoldable pub normalize : Text → Text
normalize value = trim_right (to_lower (trim_space value)) b'.'

unfoldable pub equal_qname : Text → Text → Bool
unfolding normalize
equal_qname left right = normalize left =t normalize right

-- `want != "" && have != want`
abbrev pub differs : Text → Text → Bool
differs want have = not (is_empty want) && not (have =t want)

unfoldable pub matches : EventFilter → Event → Bool
matches f e =
    if not (f.since == 0) && ltb e.timestamp f.since
    then false
    else if not (f.until == 0) && ltb f.until e.timestamp
    then false
    else if differs f.trace_id e.trace_id
    then false
    else if differs f.client_ip e.client_ip
    then false
    else if differs f.client_view e.client_view
    then false
    else if differs f.tenant e.tenant
    then false
    else if not (is_empty f.qname) && not (equal_qname e.qname f.qname)
    then false
    else if not (is_empty f.qname_contains)
        && not (contains (to_lower e.qname) (to_lower f.qname_contains))
    then false
    else if differs f.qtype e.qtype
    then false
    else if differs f.source_plugin e.source_plugin
    then false
    else if differs f.risk_level e.risk_level
    then false
    else if differs f.action e.action
    then false
    else if differs f.matched_rule e.matched_rule
    then false
    else if differs f.rcode e.rcode
    then false
    else true

unfoldable pub filtered_ordered_events : EventFilter → Store → List Event
filtered_ordered_events f s =
    let events = filter (matches f) s.events in
    if f.order =t txt "desc" then reverse events else events

-- A limit that is not positive, or too large, becomes the length of the list.
abbrev pub clamp : ℤ → ℕ → ℕ
clamp limit n = if not (is_pos limit) || ltb n (to_ℕ limit) then n else to_ℕ limit

unfoldable pub list_filtered : EventFilter → ℤ → Store → List Event
unfolding filtered_ordered_events
list_filtered f limit s =
    let events = filtered_ordered_events f s in
    let n = clamp limit (length events) in
    if is_empty f.order then drop (length events - n) events else take n events

abbrev pub no_filter : EventFilter
no_filter = record {
  trace_id = [];
  client_ip = [];
  client_view = [];
  tenant = [];
  qname = [];
  qname_contains = [];
  qtype = [];
  source_plugin = [];
  risk_level = [];
  action = [];
  matched_rule = [];
  rcode = [];
  since = 0;
  until = 0;
  order = [];
}

unfoldable pub list : ℤ → Store → List Event
unfolding list_filtered
list limit s = list_filtered no_filter limit s

-- What `Atoi` returned, as an offset.
offset_of : Option ℤ → ℕ
offset_of none = 0
offset_of (some (negsuc n)) = 0
offset_of (some (pos n)) = n

unfoldable pub parse_cursor : Text → ℕ
unfolding offset_of
parse_cursor cursor = let c = trim_space cursor in if is_empty c then 0 else offset_of (atoi c)

pub record EventPage : Type 0 where
  pub events : List Event
  pub next_cursor : Text

-- A page limit that is not positive or passes 1000 becomes 1000.
abbrev pub page_limit : ℤ → ℕ
page_limit limit = if not (is_pos limit) || ltb 1000 (to_ℕ limit) then 1000 else to_ℕ limit

unfoldable pub page_end : ℕ → ℕ → ℕ → ℕ
page_end total limit offset = if ltb total (offset + limit) then total else offset + limit

-- `events[offset:end]` with the next cursor, for an offset within the list.
unfoldable pub page_at : List Event → ℕ → ℕ → EventPage
page_at events limit offset =
    let end = page_end (length events) limit offset in
    record {
      events = take (end - offset) (drop offset events);
      next_cursor = if ltb end (length events) then itoa end else [];
    }

-- An offset past the end is the end.
unfoldable pub clip : ℕ → ℕ → ℕ
clip total offset = if ltb total offset then total else offset

unfoldable pub list_filtered_page : EventFilter → ℤ → Text → Store → EventPage
list_filtered_page f limit cursor s =
    let events = filtered_ordered_events f s in
    page_at events (page_limit limit) (clip (length events) (parse_cursor cursor))
