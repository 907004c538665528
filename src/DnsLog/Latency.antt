-- ===== src/DnsLog/Latency.antt =====
-- The latencies in `Summary` of internal/dnslog/dnslog.go.
use any_ns.Base.{
  ℕ, ◌+◌, ◌*◌, ◌/◌, ◌≤◌, ◌≡◌, refl, List, [], ◌∷◌, Bool, true, false, Option, none, some, Text,
  ◌=t◌, ltb, if◌then◌else◌, arith, All,
}
use any_ns.Base.Int.{ℤ, to_ℕ}
use any_ns.Base.Dict.{Dict, lookup, insert, lookup-insert}
use any_ns.DnsLog.{Event, Store}
use any_ns.DnsLog.Counts.{list_all}
use any_ns.DnsLog.Summary.{
  Summary, named, Tally, no_tally, tally, tally_all, summary, LatencyStats, add_latency, stats_at,
  no_stats,
}
use mathlib.Core.Path.{subst}
use native.Mathlib.Nat.{div-le_of_le-mul}

-- A count, a sum and a maximum that fit together.
pub record Fits (count sum max : ℕ) : Type 0 where
  pub bound : sum ≤ count * max

mul_mono_right : (k a b : ℕ) → a ≤ b → k * a ≤ k * b
mul_mono_right k a b h = grind arith

raise_bound :
    (count sum max latency top : ℕ)
    → sum ≤ count * max
    → max ≤ top
    → latency ≤ top
    → sum + latency ≤ (count + 1) * top
raise_bound count sum max latency top h m l = omega (arith, mul_mono_right count max top m)

Fits-add :
    (count sum max latency : ℕ)
    → Fits count sum max
    → Fits (count + 1) (sum + latency) (if ltb max latency then latency else max)
Fits-add count sum max latency h = record {
  bound =
      let top = if ltb max latency then latency else max in
      raise_bound count sum max latency top h.bound (ground arith) (ground arith);
}

pub record IsSound (st : LatencyStats) : Type 0 where
  pub fits : Fits st.count st.sum st.max
  pub average : st.average ≤ st.max

add_latency-IsSound :
    (latency : ℕ) (st : LatencyStats) → IsSound st → IsSound (add_latency latency st)
unfolding add_latency
add_latency-IsSound latency st h =
    let f = Fits-add st.count st.sum st.max latency h.fits in
    record { fits = f; average = div-le_of_le-mul (st.count + 1) f.bound }

abbrev AllSound : Dict LatencyStats → Type 0
AllSound m = (k : Text) (st : LatencyStats) → lookup k m ≡ some st → IsSound st

stats_at-IsSound : (k : Text) (m : Dict LatencyStats) → AllSound m → IsSound (stats_at k m)
unfolding stats_at
stats_at-IsSound k m h = found (lookup k m) refl
  where
    found :
        (o : Option LatencyStats)
        → lookup k m ≡ o
        → IsSound (elim o [ none ↦ no_stats | some st ↦ st ])
    found none e = record { fits = record { bound = omega arith }; average = omega arith }
    found (some st) e = h k st e

insert-AllSound :
    (k : Text) (st : LatencyStats) (m : Dict LatencyStats)
    → IsSound st
    → AllSound m
    → AllSound (insert k st m)
insert-AllSound k st m s h j st' e = split (k =t j) (rw lookup-insert at e)
  where
    split : (b : Bool) → (if b then some st else lookup j m) ≡ some st' → IsSound st'
    split true e = subst IsSound {x = st} {y = st'} (cc) s
    split false e = h j st' e

-- What holds of the loop's variables after the events `es`.
record Measured (t : Tally) : Type 0 where
  fits : Fits t.latency_count t.latency_sum t.latency_max
  plugins : AllSound t.latency_by_plugin

tally-Measured : (t : Tally) (e : Event) → Measured t → Measured (tally t e)
unfolding tally
tally-Measured t e h =
    let latency = to_ℕ e.latency_ms in
    let plugin = named e.source_plugin in
    record {
      fits = Fits-add t.latency_count t.latency_sum t.latency_max latency h.fits;
      plugins =
          insert-AllSound plugin (add_latency latency (stats_at plugin t.latency_by_plugin))
            t.latency_by_plugin
            (add_latency-IsSound latency _ (stats_at-IsSound plugin t.latency_by_plugin h.plugins))
            h.plugins;
    }

tally_all-Measured : (t : Tally) (es : List Event) → Measured t → Measured (tally_all t es)
unfolding tally_all
tally_all-Measured t [] h = h
tally_all-Measured t (e ∷ es) h = tally_all-Measured (tally t e) es (tally-Measured t e h)

max_grows : (t : Tally) (es : List Event) → t.latency_max ≤ (tally_all t es).latency_max
unfolding tally_all tally
max_grows t [] = omega arith
max_grows t (e ∷ es) = ground (arith, max_grows (tally t e) es)

max_covers :
    (t : Tally) (es : List Event) → All (λ e. to_ℕ e.latency_ms ≤ (tally_all t es).latency_max) es
unfolding tally_all
max_covers t [] = tt
max_covers t (e ∷ es) =
    (unfold tally in ground (arith, max_grows (tally t e) es), max_covers (tally t e) es)

-- The averages and maxima of a summary: no held event is slower than the maximum, the average
-- does not pass the maximum, and for each source plugin the average does not pass its maximum.
pub record LatenciesFit (sum : Summary) (es : List Event) : Type 0 where
  pub covers : All (λ e. to_ℕ e.latency_ms ≤ sum.latency_ms.max) es
  pub average : sum.latency_ms.average ≤ sum.latency_ms.max
  pub plugins :
      (k : Text) (st : LatencyStats)
      → lookup k sum.latency_by_plugin ≡ some st
      → st.average ≤ st.max

average_fits :
    (count sum max : ℕ) → sum ≤ count * max → (if ltb 0 count then sum / count else 0) ≤ max
average_fits count sum max h = ground (arith, div-le_of_le-mul count {n = max} h)

no_tally-Measured : Measured no_tally
unfolding lookup
no_tally-Measured = record { fits = record { bound = omega arith }; plugins = λ k st e. cc }

-- The latencies of a summary fit the events that the store holds.
summary-LatenciesFit : (top_n : ℤ) (s : Store) → LatenciesFit (summary top_n s) s.events
unfolding summary
summary-LatenciesFit top_n s = rw (list_all s) (
    let m = tally_all-Measured no_tally s.events no_tally-Measured in
    record {
      covers = max_covers no_tally s.events;
      average = average_fits _ _ _ m.fits.bound;
      plugins = λ k st e. (m.plugins k st e).average;
    })
