-- ===== src/DnsLog/Paging.antt =====
-- `ListFilteredPage` of internal/dnslog/dnslog.go: following the cursors gives every event once.
use any_ns.Base.{
  ℕ, zero, suc, ◌+◌, ◌-◌, ◌≤◌, ◌<◌, ◌≡◌, refl, sym, ap, ◌∙◌, ◌⊎◌, inl, inr, List, [], ◌++◌, true,
  false, Option, some, none, Text, is_empty, trim_space, length, take, drop, take-append-drop,
  drop-drop, length-take, drop_all, ltb, if◌then◌else◌, arith, Bool-cases,
}
use any_ns.Base.Int.{ℤ}
use any_ns.Base.Number.{int_limit, itoa, atoi-itoa, trim_space-itoa, itoa_nonempty}
use any_ns.DnsLog.{Event, Store}
use any_ns.DnsLog.Query.{
  EventFilter, filtered_ordered_events, page_limit, page_end, clip, page_at, parse_cursor,
  list_filtered_page,
}
use mathlib.Core.List.{append-nil}

parse_cursor-itoa : (n : ℕ) → n < int_limit → parse_cursor (itoa n) ≡ n
unfolding parse_cursor
parse_cursor-itoa n h = rw (trim_space-itoa n, itoa_nonempty n, atoi-itoa n h)

page_limit_bounds : (limit : ℤ) → (0 < page_limit limit) × (page_limit limit ≤ 1000)
page_limit_bounds limit = ground arith

page_end_bounds :
    (total limit offset : ℕ)
    → offset ≤ total
    → (offset ≤ page_end total limit offset)
      × (page_end total limit offset ≤ total)
      × (page_end total limit offset ≤ offset + limit)
      × ((page_end total limit offset ≡ total) ⊎ (page_end total limit offset ≡ offset + limit))
unfolding page_end
page_end_bounds total limit offset h = ground arith

module _ (es : List Event) (limit offset : ℕ) (within : offset ≤ length es) where
  abbrev stop : ℕ
  stop = page_end (length es) limit offset

  -- A page, and then what comes after it.
  page_at-append : (page_at es limit offset).events ++ drop stop es ≡ drop offset es
  unfolding page_at
  page_at-append =
      let b = page_end_bounds (length es) limit offset within in
      ap (λ k. take (stop - offset) (drop offset es) ++ drop k es) (omega arith)
      ∙ ap (λ xs. take (stop - offset) (drop offset es) ++ xs)
          (sym (drop-drop (stop - offset) offset es))
      ∙ take-append-drop (stop - offset) (drop offset es)

  page_at-length : length (page_at es limit offset).events ≤ limit
  unfolding page_at
  page_at-length = omega (
    arith,
    length-take (stop - offset) (drop offset es),
    page_end_bounds (length es) limit offset within,
  )

followed_by : List Event → Option (List Event) → Option (List Event)
followed_by es none = none
followed_by es (some rest) = some (es ++ rest)

-- Asking for pages, from a cursor on, until no next cursor comes; `none` if one still comes after so
-- many requests.
unfoldable pub collect : ℕ → EventFilter → ℤ → Text → Store → Option (List Event)
unfolding followed_by
collect zero f limit cursor s = none
collect (suc fuel) f limit cursor s =
    let page = list_filtered_page f limit cursor s in
    let rest = collect fuel f limit page.next_cursor s in
    if is_empty page.next_cursor then some page.events else followed_by page.events rest

-- From an offset on, the pages give what is left of the list.
clip_within : {total offset : ℕ} → offset ≤ total → clip total offset ≡ offset
unfolding clip
clip_within h = ground arith

clip-le : (total offset : ℕ) → clip total offset ≤ total
unfolding clip
clip-le total offset = ground arith

next-more :
    (es : List Event) (limit offset : ℕ)
    → ltb (page_end (length es) limit offset) (length es) ≡ true
    → (page_at es limit offset).next_cursor ≡ itoa (page_end (length es) limit offset)
unfolding page_at
next-more es limit offset h = rw h

next-done :
    (es : List Event) (limit offset : ℕ)
    → ltb (page_end (length es) limit offset) (length es) ≡ false
    → (page_at es limit offset).next_cursor ≡ []
unfolding page_at
next-done es limit offset h = rw h

page_of :
    (f : EventFilter) (limit : ℤ) (cursor : Text) (s : Store) (offset : ℕ)
    → parse_cursor cursor ≡ offset
    → offset ≤ length (filtered_ordered_events f s)
    → list_filtered_page f limit cursor s
      ≡ page_at (filtered_ordered_events f s) (page_limit limit) offset
unfolding list_filtered_page
page_of f limit cursor s offset c within =
    ap (page_at (filtered_ordered_events f s) (page_limit limit))
      (ap (clip (length (filtered_ordered_events f s))) c ∙ clip_within within)

collect-from :
    (fuel : ℕ) (f : EventFilter) (limit : ℤ) (cursor : Text) (s : Store) (offset : ℕ)
    → length (filtered_ordered_events f s) < int_limit
    → parse_cursor cursor ≡ offset
    → offset ≤ length (filtered_ordered_events f s)
    → length (filtered_ordered_events f s) < offset + fuel
    → collect fuel f limit cursor s ≡ some (drop offset (filtered_ordered_events f s))
unfolding collect
collect-from zero f limit cursor s offset big c within enough = absurd (omega arith)
collect-from (suc fuel) f limit cursor s offset big c within enough =
    let es = filtered_ordered_events f s in
    let n = page_limit limit in
    let end = page_end (length es) n offset in
    let b = page_end_bounds (length es) n offset within in
    let page = page_at es n offset in
    let whole = page_at-append es n offset within in
    rw (page_of f limit cursor s offset c within) (elim (Bool-cases (ltb end (length es))) [
      | inl more ↦
          let next = next-more es n offset more in
          rw next (
            rw itoa_nonempty (
              rw
                (collect-from fuel f limit (itoa end) s end big
                  (parse_cursor-itoa end (ground arith)) (ground arith)
                  (ground (arith, page_limit_bounds limit)))
                (ap some whole)))
      | inr done ↦ rw (next-done es n offset done) (
          ap some (
            sym (append-nil page.events)
            ∙ ap (λ xs. page.events ++ xs) (sym (drop_all end es (ground arith)))
            ∙ whole))
    ])

-- Asking for a page and following the cursors ends: after at most one request more than there are
-- events no cursor comes back, and what was received is exactly the filtered events in their order,
-- as long as the number of events is an `int`.
pub collect-eq-filtered :
    (f : EventFilter) (limit : ℤ) (s : Store)
    → length (filtered_ordered_events f s) < int_limit
    → collect (suc (length (filtered_ordered_events f s))) f limit [] s
      ≡ some (filtered_ordered_events f s)
unfolding parse_cursor trim_space
collect-eq-filtered f limit s h =
    collect-from (suc (length (filtered_ordered_events f s))) f limit [] s 0 h refl (omega arith)
      (omega arith)

-- A page is never longer than 1000 events, nor than a limit that is asked for within that bound,
-- whatever the cursor.
pub length-list_filtered_page :
    (f : EventFilter) (limit : ℤ) (cursor : Text) (s : Store)
    → length (list_filtered_page f limit cursor s).events ≤ page_limit limit
unfolding list_filtered_page
length-list_filtered_page f limit cursor s =
    let es = filtered_ordered_events f s in
    page_at-length es (page_limit limit) (clip (length es) (parse_cursor cursor))
      (clip-le (length es) (parse_cursor cursor))
