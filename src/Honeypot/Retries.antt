-- ===== src/Honeypot/Retries.antt =====
-- Retries of internal/honeypot/client.go end: no entry outlives its attempts.
use any_ns.Base.{
  ℕ, zero, suc, ◌+◌, ◌≤◌, ◌<◌, ◌≡◌, refl, ap, ◌∙◌, List, [], ◌∷◌, false, length, drop_all, take_all,
  All, All-append, ltb, leb, arith, Bool-cases, inl, inr,
}
use any_ns.Base.Int.{ℤ, pos}
use any_ns.Honeypot.{
  FailedDelivery, FailedQueue, Attempt, cancelled, accepted, refused, Network, Progress, drain_one,
  drain_loop, no_progress, select, settle, Rewrite, drain,
}
use any_ns.Honeypot.Queue.{entries-settle}
use mathlib.Core.List.{append-nil}
use mathlib.Core.Path.{subst}
use native.Mathlib.Numerals.{add-one}

-- At least `k` attempts made, and fewer than `m`.
pub record Tried (k m : ℕ) (d : FailedDelivery) : Type 0 where
  pub least : k ≤ d.attempts
  pub most : d.attempts < m

abbrev pub IsCancelled : Attempt → Type 0
IsCancelled (cancelled err) = Unit
IsCancelled accepted = ⊥
IsCancelled (refused err) = ⊥

abbrev pub NeverCancels : Network → Type 0
NeverCancels net = (i : ℕ) (d : FailedDelivery) → ¬ IsCancelled (net i d)

drain_one-Tried :
    (m k : ℕ) (d : FailedDelivery) (a : Attempt) (p : Progress)
    → ¬ IsCancelled a
    → k ≤ d.attempts
    → All (Tried (suc k) (suc m)) p.kept
    → All (Tried (suc k) (suc m)) (drain_one (pos (suc m)) d a p).kept
unfolding drain_one
drain_one-Tried m k d (cancelled err) p no_cancel b h = absurd (no_cancel tt)
drain_one-Tried m k d accepted p no_cancel b h = h
drain_one-Tried m k d (refused err) p no_cancel b h =
    elim (Bool-cases (leb (suc m) (d.attempts + 1))) [
      | inl last ↦ rw last h
      | inr more ↦ rw more (
          All-append (Tried (suc k) (suc m)) p.kept
            (record d { attempts = d.attempts + 1; last_error = err } ∷ []) h
            (record { least = omega arith; most = ground arith }, tt))
    ]

drain_loop-Tried :
    (net : Network) (m k i : ℕ) (ds : List FailedDelivery) (p : Progress)
    → NeverCancels net
    → All (λ d. k ≤ d.attempts) ds
    → All (Tried (suc k) (suc m)) p.kept
    → All (Tried (suc k) (suc m)) (drain_loop net (pos (suc m)) i ds p).kept
unfolding drain_loop
drain_loop-Tried net m k i [] p never b h = h
drain_loop-Tried net m k i (d ∷ ds) p never b h =
    let a = net i (record d { attempts = d.attempts + 1 }) in
    drain_loop-Tried net m k (i + 1) ds (drain_one (pos (suc m)) d a p) never b.1
      (drain_one-Tried m k d a p (never i (record d { attempts = d.attempts + 1 })) b.0 h)

select_all : (q : FailedQueue) → select (pos 0) q ≡ q.entries
unfolding select
select_all q = take_all (length q.entries) q.entries (omega arith)

entries-drain_all :
    (net : Network) (m : ℤ) (io : Rewrite) (q : FailedQueue)
    → (drain net (pos 0) m io q).0.entries ≡ (drain_loop net m 0 q.entries no_progress).kept
unfolding drain
entries-drain_all net m io q =
    let p = drain_loop net m 0 q.entries no_progress in
    ap (λ ds. (settle (length ds) (drain_loop net m 0 ds no_progress).kept io q).0.entries)
      (select_all q)
    ∙ entries-settle (length q.entries) p.kept io q
    ∙ rw (not_less (length q.entries), drop_all (length q.entries) q.entries (omega arith))
        (append-nil p.kept)
  where
    not_less : (n : ℕ) → ltb n n ≡ false
    not_less n = ground arith

-- Drains of the whole queue, one after another, each with its network and its write.
unfoldable pub drain_all : ℤ → List (Network × Rewrite) → FailedQueue → FailedQueue
drain_all m [] q = q
drain_all m ((net, io) ∷ rest) q = drain_all m rest (drain net (pos 0) m io q).0

abbrev pub NeverCancelled : List (Network × Rewrite) → Type 0
NeverCancelled [] = Unit
NeverCancelled ((net, io) ∷ rest) = NeverCancels net × NeverCancelled rest

least_of : (k m : ℕ) (ds : List FailedDelivery) → All (Tried k m) ds → All (λ d. k ≤ d.attempts) ds
least_of k m [] h = tt
least_of k m (d ∷ ds) h = (h.0.least, least_of k m ds h.1)

drain_all-Tried :
    (m k : ℕ) (rounds : List (Network × Rewrite)) (q : FailedQueue)
    → NeverCancelled rounds
    → 0 < length rounds
    → All (λ d. k ≤ d.attempts) q.entries
    → All (Tried (k + length rounds) (suc m)) (drain_all (pos (suc m)) rounds q).entries
unfolding drain_all
drain_all-Tried m k [] q never some_round b = absurd (omega arith)
drain_all-Tried m k ((net, io) ∷ []) q never some_round b =
    rw (entries-drain_all net (pos (suc m)) io q, add-one)
      (drain_loop-Tried net m k 0 q.entries no_progress never.0 b tt)
drain_all-Tried m k ((net, io) ∷ round ∷ rest) q never some_round b =
    let q' = (drain net (pos 0) (pos (suc m)) io q).0 in
    let step : All (Tried (suc k) (suc m)) q'.entries =
      rw (entries-drain_all net (pos (suc m)) io q)
        (drain_loop-Tried net m k 0 q.entries no_progress never.0 b tt) in
    subst (λ j. All (Tried j (suc m)) (drain_all (pos (suc m)) (round ∷ rest) q').entries)
      {x = suc k + length (round ∷ rest)} {y = k + length ((net, io) ∷ round ∷ rest)} (omega arith)
      (drain_all-Tried m (suc k) (round ∷ rest) q' never.1 (omega arith)
        (least_of (suc k) (suc m) q'.entries step))

none-Tried : (k m : ℕ) (ds : List FailedDelivery) → m ≤ k → All (Tried k m) ds → ds ≡ []
none-Tried k m [] h t = refl
none-Tried k m (d ∷ ds) h t = absurd (omega (arith, t.0))

All-zero : (ds : List FailedDelivery) → All (λ d. 0 ≤ d.attempts) ds
All-zero [] = tt
All-zero (d ∷ ds) = (omega arith, All-zero ds)

-- With a positive bound `m` on attempts, `m` undisturbed drains of the whole queue whose context
-- is never done leave no entry in it, whatever the network answers and however the file fails.
pub drain_all-empty :
    (m : ℕ) (rounds : List (Network × Rewrite)) (q : FailedQueue)
    → 0 < m
    → NeverCancelled rounds
    → m ≤ length rounds
    → (drain_all (pos m) rounds q).entries ≡ []
drain_all-empty zero rounds q h never enough = absurd (omega arith)
drain_all-empty (suc m) rounds q h never enough =
    none-Tried (0 + length rounds) (suc m) (drain_all (pos (suc m)) rounds q).entries (omega arith)
      (drain_all-Tried m 0 rounds q never (omega arith) (All-zero q.entries))
