-- ===== src/Honeypot/Drain.antt =====
-- What `Drain` of internal/honeypot/client.go does to the entries that it takes up.
use any_ns.Base.{
  ℕ, zero, suc, ◌+◌, ◌≤◌, ◌<◌, ◌≡◌, ◌⊎◌, inl, inr, refl, sym, ap, ◌∙◌, List, [], ◌∷◌, ◌++◌, true,
  false, Text, length, take, drop, length-append, length-take, length-drop, ltb, not, ◌||◌,
  if◌then◌else◌, arith, Bool-cases,
}
use mathlib.Core.List.{append-nil, append_assoc}
use any_ns.Base.Int.{ℤ, is_pos, to_ℕ}
use any_ns.Honeypot.{
  FailedDelivery, FailedQueue, Attempt, cancelled, accepted, refused, Network, Progress, gives_up,
  DrainResult, drain_one, drain_loop, no_progress, select, settle, Rewrite, drain,
}
use any_ns.Honeypot.Queue.{entries-settle}

select_short : (limit : ℤ) (q : FailedQueue) → length (select limit q) ≤ length q.entries
unfolding select
select_short limit q = omega (
  arith,
  length-take
      (if not (is_pos limit) || ltb (length q.entries) (to_ℕ limit)
        then length q.entries
        else to_ℕ limit)
      q.entries,
)

-- The counters of a drain over `n` entries.
pub record Accounts (p : Progress) (n : ℕ) : Type 0 where
  pub attempts : p.result.attempted ≡ p.result.delivered + p.result.retained + p.result.dropped
  pub entries : length p.kept + p.result.delivered + p.result.dropped ≡ n

drain_one-Accounts :
    (m : ℤ) (d : FailedDelivery) (a : Attempt) (p : Progress) (n : ℕ)
    → Accounts p n
    → Accounts (drain_one m d a p) (suc n)
unfolding drain_one
drain_one-Accounts m d (cancelled err) p n h = omega (arith, h, length-append p.kept (d ∷ []))
drain_one-Accounts m d accepted p n h = omega (arith, h)
drain_one-Accounts m d (refused err) p n h =
    ground (
      arith,
      h,
      length-append p.kept (record d { attempts = d.attempts + 1; last_error = err } ∷ []),
    )

drain_loop-Accounts :
    (net : Network) (m : ℤ) (i : ℕ) (ds : List FailedDelivery) (p : Progress) (n : ℕ)
    → Accounts p n
    → Accounts (drain_loop net m i ds p) (n + length ds)
unfolding drain_loop
drain_loop-Accounts net m i [] p n h = omega (arith, h)
drain_loop-Accounts net m i (d ∷ ds) p n h =
    let a = net i (record d { attempts = d.attempts + 1 }) in
    let q = drain_one m d a p in
    omega (arith, drain_loop-Accounts net m (i + 1) ds q (suc n) (drain_one-Accounts m d a p n h))

-- An entry with one more attempt.
abbrev pub tried : FailedDelivery → FailedDelivery
tried d = record d { attempts = d.attempts + 1 }

abbrev pub refused_with : Text → FailedDelivery → FailedDelivery
refused_with err d = record d { attempts = d.attempts + 1; last_error = err }

-- What becomes of entries from the place `i` of the loop on: those that are kept, in their order, and
-- how many are delivered, retained and dropped.
pub data Drains (net : Network) (m : ℤ)
    : ℕ → List FailedDelivery → List FailedDelivery → ℕ → ℕ → ℕ → Type 0 where
  finishes : (i : ℕ) → Drains net m i [] [] 0 0 0
  cancels :
      (i : ℕ) (d : FailedDelivery) (ds kept : List FailedDelivery) (a b c : ℕ) (err : Text)
      → net i (tried d) ≡ cancelled err
      → Drains net m (i + 1) ds kept a b c
      → Drains net m i (d ∷ ds) (d ∷ kept) a b c
  delivers :
      (i : ℕ) (d : FailedDelivery) (ds kept : List FailedDelivery) (a b c : ℕ)
      → net i (tried d) ≡ accepted
      → Drains net m (i + 1) ds kept a b c
      → Drains net m i (d ∷ ds) kept (suc a) b c
  retains :
      (i : ℕ) (d : FailedDelivery) (ds kept : List FailedDelivery) (a b c : ℕ) (err : Text)
      → net i (tried d) ≡ refused err
      → (is_pos m ≡ false) ⊎ (d.attempts + 1 < to_ℕ m)
      → Drains net m (i + 1) ds kept a b c
      → Drains net m i (d ∷ ds) (refused_with err d ∷ kept) a (suc b) c
  drops :
      (i : ℕ) (d : FailedDelivery) (ds kept : List FailedDelivery) (a b c : ℕ) (err : Text)
      → net i (tried d) ≡ refused err
      → is_pos m ≡ true
      → to_ℕ m ≤ d.attempts + 1
      → Drains net m (i + 1) ds kept a b c
      → Drains net m i (d ∷ ds) kept a b (suc c)

-- The loop from a progress `p` to `q`.
record LoopEnds (net : Network) (m : ℤ) (i : ℕ) (ds : List FailedDelivery) (p q : Progress)
    : Type 0 where
  kept : List FailedDelivery
  delivered : ℕ
  retained : ℕ
  dropped : ℕ
  drains : Drains net m i ds kept delivered retained dropped
  entries : q.kept ≡ p.kept ++ kept
  delivered_sum : q.result.delivered ≡ p.result.delivered + delivered
  retained_sum : q.result.retained ≡ p.result.retained + retained
  dropped_sum : q.result.dropped ≡ p.result.dropped + dropped

attempt-LoopEnds :
    (net : Network) (m : ℤ) (i : ℕ) (d : FailedDelivery) (ds : List FailedDelivery) (p q : Progress)
    (x : Attempt)
    → net i (tried d) ≡ x
    → LoopEnds net m (i + 1) ds (drain_one m d x p) q
    → LoopEnds net m i (d ∷ ds) p q
unfolding drain_one gives_up
attempt-LoopEnds net m i d ds p q (cancelled err) e h = record {
  kept = d ∷ h.kept;
  delivered = h.delivered;
  retained = h.retained;
  dropped = h.dropped;
  drains = cancels i d ds h.kept _ _ _ err e h.drains;
  entries = h.entries ∙ append_assoc p.kept (d ∷ []) h.kept;
  delivered_sum = h.delivered_sum;
  retained_sum = h.retained_sum;
  dropped_sum = h.dropped_sum;
}
attempt-LoopEnds net m i d ds p q accepted e h = record {
  kept = h.kept;
  delivered = suc h.delivered;
  retained = h.retained;
  dropped = h.dropped;
  drains = delivers i d ds h.kept _ _ _ e h.drains;
  entries = h.entries;
  delivered_sum = omega (arith, h.delivered_sum);
  retained_sum = h.retained_sum;
  dropped_sum = h.dropped_sum;
}
attempt-LoopEnds net m i d ds p q (refused err) e h =
    elim (Bool-cases (gives_up m (d.attempts + 1))) [
      | inl last ↦
          let k = rw last at h in
          record {
            kept = k.kept;
            delivered = k.delivered;
            retained = k.retained;
            dropped = suc k.dropped;
            drains =
                drops i d ds k.kept _ _ _ err e (ground (arith, last)) (ground (arith, last))
                  k.drains;
            entries = k.entries;
            delivered_sum = k.delivered_sum;
            retained_sum = k.retained_sum;
            dropped_sum = omega (arith, k.dropped_sum);
          }
      | inr more ↦
          let k = rw more at h in
          record {
            kept = refused_with err d ∷ k.kept;
            delivered = k.delivered;
            retained = suc k.retained;
            dropped = k.dropped;
            drains = retains i d ds k.kept _ _ _ err e (ground (arith, more)) k.drains;
            entries = k.entries ∙ append_assoc p.kept (refused_with err d ∷ []) k.kept;
            delivered_sum = k.delivered_sum;
            retained_sum = omega (arith, k.retained_sum);
            dropped_sum = k.dropped_sum;
          }
    ]

drain_loop-LoopEnds :
    (net : Network) (m : ℤ) (i : ℕ) (ds : List FailedDelivery) (p : Progress)
    → LoopEnds net m i ds p (drain_loop net m i ds p)
unfolding drain_loop
drain_loop-LoopEnds net m i [] p = record {
  kept = [];
  delivered = 0;
  retained = 0;
  dropped = 0;
  drains = finishes i;
  entries = sym (append-nil p.kept);
  delivered_sum = omega arith;
  retained_sum = omega arith;
  dropped_sum = omega arith;
}
drain_loop-LoopEnds net m i (d ∷ ds) p =
    attempt-LoopEnds net m i d ds p _ (net i (tried d)) refl
      (drain_loop-LoopEnds net m (i + 1) ds (drain_one m d (net i (tried d)) p))

-- How a drain from `q` to `q'` accounts for the entries.
pub record Accounted (net : Network) (limit m : ℤ) (q q' : FailedQueue) (r : DrainResult)
    : Type 0 where
  pub kept : List FailedDelivery
  pub rest : List FailedDelivery
  pub before : q.entries ≡ select limit q ++ rest
  pub after : q'.entries ≡ kept ++ rest
  pub drains : Drains net m 0 (select limit q) kept r.delivered r.retained r.dropped
  pub attempts : r.attempted ≡ r.delivered + r.retained + r.dropped
  pub total : length q'.entries + r.delivered + r.dropped ≡ length q.entries

split_at_taken : (n : ℕ) (ds : List FailedDelivery) → take n ds ++ drop (length (take n ds)) ds ≡ ds
split_at_taken zero ds = refl
split_at_taken (suc n) [] = refl
split_at_taken (suc n) (d ∷ ds) = ap (◌∷◌ d) (split_at_taken n ds)

select-append :
    (limit : ℤ) (q : FailedQueue)
    → select limit q ++ drop (length (select limit q)) q.entries ≡ q.entries
unfolding select
select-append limit q =
    split_at_taken
      (if not (is_pos limit) || ltb (length q.entries) (to_ℕ limit)
        then length q.entries
        else to_ℕ limit)
      q.entries

-- A drain that nothing disturbs accounts for every entry. The entries that it does not take up stay
-- at the end of the queue as they were. Of those that it takes up, one that is delivered leaves the
-- queue; one that is refused leaves it if its attempts with this one reach a positive maximum, and
-- otherwise stays with the attempt and the error noted; one that is reached when the context is done
-- stays as it was. The order stays, the counters count these ends, the attempts are their sum, and
-- as many entries left the queue as were delivered or dropped.
pub drain_accounts :
    (net : Network) (limit m : ℤ) (io : Rewrite) (q : FailedQueue)
    → let (q', r, err) = drain net limit m io q in Accounted net limit m q q' r
unfolding drain
drain_accounts net limit m io q =
    let ds = select limit q in
    let p = drain_loop net m 0 ds no_progress in
    let h = drain_loop-Accounts net m 0 ds no_progress 0 (omega arith) in
    let l = drain_loop-LoopEnds net m 0 ds no_progress in
    let e : (settle (length ds) p.kept io q).0.entries ≡ p.kept ++ drop (length ds) q.entries =
      ground (arith, entries-settle (length ds) p.kept io q, select_short limit q) in
    record {
      kept = p.kept;
      rest = drop (length ds) q.entries;
      before = sym (select-append limit q);
      after = e;
      drains = loop_drains l;
      attempts = omega (arith, h);
      total = omega (
        arith,
        h,
        ap length e,
        length-append p.kept (drop (length ds) q.entries),
        length-drop (length ds) q.entries,
        select_short limit q,
      );
    }
  where
    loop_drains :
        {ds : List FailedDelivery} {p : Progress}
        → LoopEnds net m 0 ds no_progress p
        → Drains net m 0 ds p.kept p.result.delivered p.result.retained p.result.dropped
    loop_drains {p = p} l =
        let kept : p.kept ≡ l.kept = l.entries in
        let delivered : p.result.delivered ≡ l.delivered = omega (arith, l.delivered_sum) in
        let retained : p.result.retained ≡ l.retained = omega (arith, l.retained_sum) in
        let dropped : p.result.dropped ≡ l.dropped = omega (arith, l.dropped_sum) in
        rw (kept, delivered, retained, dropped) l.drains
