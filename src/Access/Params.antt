-- ===== src/Access/Params.antt =====
-- The parameters of a query that internal/httpapi/httpapi.go reads.
use any_ns.Base.{
  ℕ, zero, suc, refl, [], Bool, true, false, not, ◌||◌, ◌&&◌, Option, none, some, ◌≡◌, Text, txt,
  ◌=t◌, is_empty, to_lower, trim_space, if◌then◌else◌, arith, ltb,
}
use any_ns.Base.Int.{ℤ, pos, negsuc, is_pos, int_lt}
use any_ns.Base.Number.{atoi}
use any_ns.DnsLog.Query.{EventFilter}
use any_ns.Access.{Request, Platform}

abbrev pub parsed_or : ℤ → Option ℤ → ℤ
parsed_or fallback none = fallback
parsed_or fallback (some parsed) = parsed

-- `value := fallback`, and the parameter where it is a number.
abbrev pub read_int : Text → ℤ → ℤ
read_int raw fallback = if is_empty raw then fallback else parsed_or fallback (atoi raw)

-- A bound that is not positive does not count.
abbrev pub raised_to : ℤ → ℤ → ℤ
raised_to least value = if is_pos least && int_lt value least then least else value

abbrev pub capped_at : ℤ → ℤ → ℤ
capped_at most value = if is_pos most && int_lt most value then most else value

unfoldable pub query_int_bounded : Request → Text → ℤ → ℤ → ℤ → ℤ
query_int_bounded r name fallback least most =
    capped_at most (raised_to least (read_int (trim_space (r.query name)) fallback))

unfoldable pub query_audit_order : Text → Text
query_audit_order value =
    let v = to_lower (trim_space value) in if v =t txt "asc" || v =t txt "desc" then v else []

abbrev pub or_zero : Option ℕ → ℕ
or_zero none = 0
or_zero (some t) = t

-- The zero time, 0 here, where there is none.
unfoldable pub query_time : Platform → Text → ℕ
query_time p value = let v = trim_space value in if is_empty v then 0 else or_zero (p.parse_time v)

unfoldable pub audit_event_filter_from_query : Platform → Request → EventFilter
unfolding query_time query_audit_order
audit_event_filter_from_query p r = record {
  trace_id = trim_space (r.query (txt "trace_id"));
  client_ip = trim_space (r.query (txt "client_ip"));
  client_view = trim_space (r.query (txt "client_view"));
  tenant = trim_space (r.query (txt "tenant"));
  qname = trim_space (r.query (txt "qname"));
  qname_contains = trim_space (r.query (txt "qname_contains"));
  qtype = trim_space (r.query (txt "qtype"));
  source_plugin = trim_space (r.query (txt "source_plugin"));
  risk_level = trim_space (r.query (txt "risk_level"));
  action = trim_space (r.query (txt "action"));
  matched_rule = trim_space (r.query (txt "matched_rule"));
  rcode = trim_space (r.query (txt "rcode"));
  since = query_time p (r.query (txt "since"));
  until = query_time p (r.query (txt "until"));
  order = query_audit_order (r.query (txt "order"));
}

unfoldable pub audit_event_cursor : Request → Text
audit_event_cursor r = trim_space (r.query (txt "cursor"))

abbrev pub is_yes : Text → Bool
is_yes v = v =t txt "1" || v =t txt "true" || v =t txt "yes"

unfoldable pub audit_event_page_requested : Request → Bool
audit_event_page_requested r =
    if not (is_empty (trim_space (r.query (txt "cursor"))))
    then true
    else is_yes (to_lower (trim_space (r.query (txt "page"))))

-- `value` lies within the bounds that count, where these are in order.
abbrev pub IsWithin : ℤ → ℤ → ℤ → Type 0
IsWithin least most value =
    ((is_pos least ≡ true → int_lt value least ≡ false)
      × (is_pos most ≡ true → int_lt most value ≡ false))

is_pos_pos : (n : ℕ) → is_pos (pos n) ≡ ltb 0 n
is_pos_pos zero = refl
is_pos_pos (suc n) = ground arith

bounded :
    (least most value : ℤ)
    → int_lt most least ≡ false
    → IsWithin least most (capped_at most (raised_to least value))
unfolding int_lt
bounded (pos a) (pos b) (pos c) h = ground (arith, is_pos_pos a, is_pos_pos b, is_pos_pos c)
bounded (pos a) (pos b) (negsuc c) h = ground (arith, is_pos_pos a, is_pos_pos b, is_pos_pos c)
bounded (pos a) (negsuc b) (pos c) h = ground (arith, is_pos_pos a, is_pos_pos b, is_pos_pos c)
bounded (pos a) (negsuc b) (negsuc c) h = ground (arith, is_pos_pos a, is_pos_pos b, is_pos_pos c)
bounded (negsuc a) (pos b) (pos c) h = ground (arith, is_pos_pos a, is_pos_pos b, is_pos_pos c)
bounded (negsuc a) (pos b) (negsuc c) h = ground (arith, is_pos_pos a, is_pos_pos b, is_pos_pos c)
bounded (negsuc a) (negsuc b) (pos c) h = ground (arith, is_pos_pos a, is_pos_pos b, is_pos_pos c)
bounded (negsuc a) (negsuc b) (negsuc c) h =
    ground (arith, is_pos_pos a, is_pos_pos b, is_pos_pos c)

-- Whatever the query says, the number that is read from it lies within the bounds: it is not
-- below a positive lower bound and not above a positive upper bound, if the lower one is not above
-- the upper one.
pub query_int_bounded-IsWithin :
    (r : Request) (name : Text) (fallback least most : ℤ)
    → int_lt most least ≡ false
    → IsWithin least most (query_int_bounded r name fallback least most)
unfolding query_int_bounded
query_int_bounded-IsWithin r name fallback least most h =
    bounded least most (read_int (trim_space (r.query name)) fallback) h
