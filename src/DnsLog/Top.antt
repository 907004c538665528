-- ===== src/DnsLog/Top.antt =====
-- `topValues` of internal/dnslog/dnslog.go: sorted, cut, and independent of the order in which Go
-- goes through the map.
use any_ns.Base.{
  ℕ, ◌≤◌, ◌≡◌, ap, List, ◌++◌, length, take, drop, take-append-drop, length-take, if◌then◌else◌,
  arith,
}
use any_ns.Base.Int.{ℤ, is_pos, to_ℕ}
use any_ns.Base.Dict.{Dict}
use any_ns.Base.Sort.{
  sort, IsStrictOrder, IsStrictOrder-IsWeakOrder, IsSortedBy, sort-perm, sort-IsSortedBy,
  sort-eq_of_perm,
}
use any_ns.Base.Order.{text_lt-IsStrictOrder}
use any_ns.DnsLog.Summary.{TopValue, precedes, entries, top_values}
use mathlib.Core.List.{Perm, Permᴰ}
use mathlib.Core.Logic.{∥∥₁_map}

precedes-IsStrictOrder : IsStrictOrder precedes
unfolding precedes
precedes-IsStrictOrder = record {
  asymm = λ a b h. ground (arith, text_lt-IsStrictOrder.asymm a.value b.value);
  trans = λ a b c h k. ground (arith, text_lt-IsStrictOrder.trans a.value b.value c.value);
  connex = λ a b h k. ground (arith, text_lt-IsStrictOrder.connex a.value b.value);
}

TopValue-set : IsSet (List TopValue)
TopValue-set = hlevel

entries-Permᴰ : {m n : Dict ℕ} → Permᴰ m n → Permᴰ (entries m) (entries n)
unfolding entries
entries-Permᴰ Permᴰ.nil = Permᴰ.nil
entries-Permᴰ (Permᴰ.cons e p) =
    Permᴰ.cons (λ i. record { value = (e i).0; count = (e i).1 }) (entries-Permᴰ p)
entries-Permᴰ (Permᴰ.swap e f) =
    Permᴰ.swap (λ i. record { value = (e i).0; count = (e i).1 })
      (λ i. record { value = (f i).0; count = (f i).1 })
entries-Permᴰ (Permᴰ.trans p q) = Permᴰ.trans (entries-Permᴰ p) (entries-Permᴰ q)

-- The top values do not depend on the order in which a map is gone through.
pub top_values_order :
    (m n : Dict ℕ) (limit : ℤ) → Perm m n → top_values m limit ≡ top_values n limit
unfolding top_values
top_values_order m n limit p = ap (take (if is_pos limit then to_ℕ limit else 10)) (
    sort-eq_of_perm precedes precedes-IsStrictOrder (entries m) (entries n) TopValue-set
      (∥∥₁_map p entries-Permᴰ))

-- The top values and the values left out are the entries of the map, in one falling order of
-- counts with rising values among equals, and no more than the limit (10 if it is not positive)
-- are kept.
top_values_lem :
    (m : Dict ℕ) (limit : ℤ)
    → (rest : List TopValue) × Perm (top_values m limit ++ rest) (entries m)
      × IsSortedBy precedes (top_values m limit ++ rest)
      × (length (top_values m limit) ≤ (if is_pos limit then to_ℕ limit else 10))
unfolding top_values
top_values_lem m limit =
    let n = if is_pos limit then to_ℕ limit else 10 in
    let sorted = sort precedes (entries m) in
    (
      drop n sorted,
      rw take-append-drop (sort-perm precedes (entries m)),
      rw take-append-drop (
          sort-IsSortedBy precedes (IsStrictOrder-IsWeakOrder precedes precedes-IsStrictOrder)
            (entries m)),
      omega (arith, length-take n sorted),
    )
