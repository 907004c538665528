-- ===== src/Certificates/Runs.antt =====
-- The attempts of `run` of internal/certificates/manager.go in a row.
use any_ns.Base.{
  ℕ, zero, suc, ◌+◌, ◌≤◌, ◌<◌, ◌≡◌, refl, sym, ap, ◌∙◌, [], Bool, true, some, Text, ◌==◌, ==_iff,
  if◌then◌else◌, arith, Bool-cases, inl, inr,
}
use mathlib.Core.Path.{subst}
use any_ns.Base.Int.{pos, to_ℕ}
use any_ns.Base.Result.{ok, err}
use any_ns.Base.Dict.{lookup}
use any_ns.Certificates.{issued, failed, Job, IssueOutput, sanitized_error}
use any_ns.Certificates.Manager.{Manager}
use any_ns.Certificates.Worker.{Attempt, try_once, run_from, run}
use any_ns.Certificates.Updates.{outcome}
use any_ns.Certificates.Issuance.{HasFiles, TryEnds, issues, fails, try_once-TryEnds}

-- The attempt ended with an error.
abbrev pub IsRefused : Attempt → Type 0
IsRefused a = (e : Text) × (outcome a ≡ err e)

-- How the loop ends that has the attempts from `first` up to before `stop`: the job is issued by
-- the first attempt that succeeds, and failed with the last error if none does.
pub data RunEnds (world : ℕ → Attempt) (first stop : ℕ) (id : Text) (m : Manager) : Type 0 where
  issued_by :
      (k : ℕ) (output : IssueOutput) (job : Job)
      → first ≤ k
      → k < stop
      → ((i : ℕ) → first ≤ i → i < k → IsRefused (world i))
      → outcome (world k) ≡ ok output
      → lookup id m.jobs ≡ some job
      → job.status ≡ issued
      → job.attempt ≡ k
      → job.not_after ≡ some output.not_after
      → job.error ≡ []
      → HasFiles id output m
      → RunEnds world first stop id m
  all_refused :
      (k : ℕ) (e : Text) (job : Job)
      → suc k ≡ stop
      → ((i : ℕ) → first ≤ i → i < stop → IsRefused (world i))
      → outcome (world k) ≡ err e
      → lookup id m.jobs ≡ some job
      → job.status ≡ failed
      → job.attempt ≡ k
      → job.error ≡ sanitized_error e
      → RunEnds world first stop id m

-- One refused attempt in front.
IsRefused-first :
    (world : ℕ → Attempt) (first k : ℕ)
    → IsRefused (world first)
    → ((i : ℕ) → first + 1 ≤ i → i < k → IsRefused (world i))
    → (i : ℕ) → first ≤ i
    → i < k
    → IsRefused (world i)
IsRefused-first world first k r more i low high = elim (Bool-cases (i == first)) [
  | inl same ↦
      subst (λ j. IsRefused (world j)) {x = first} {y = i} (sym ((==_iff i first).0 same)) r
  | inr apart ↦ more i (ground (arith, apart, ==_iff i first)) high
]

RunEnds-step :
    (world : ℕ → Attempt) (first stop : ℕ) (id : Text) (m : Manager)
    → IsRefused (world first)
    → RunEnds world (first + 1) stop id m
    → RunEnds world first stop id m
RunEnds-step world first stop id m r (issued_by k output job low high before o at s a n e f) =
    issued_by k output job (omega arith) high (IsRefused-first world first k r before) o at s a n e
      f
RunEnds-step world first stop id m r (all_refused k e job last before o at s a t) =
    all_refused k e job last (IsRefused-first world first stop r before) o at s a t

-- After one attempt, with `rest` for the attempts that are left.
after_try :
    (world : ℕ → Attempt) (first stop : ℕ) (last : Bool) (id : Text) (r : Manager × Bool)
    (rest : Manager)
    → suc first ≤ stop
    → TryEnds (world first) first last id r
    → last ≡ (suc first == stop)
    → (suc first ≡ stop → rest ≡ r.0)
    → (suc first < stop
        → (job : Job) → lookup id r.0.jobs ≡ some job
        → RunEnds world (first + 1) stop id rest)
    → RunEnds world first stop id (if r.1 then r.0 else rest)
after_try world first stop last id r rest room (issues output job o done at s a n e f) same done_now
      more =
    rw done (
      issued_by first output job (omega arith) (omega arith) (λ i low high. absurd (omega arith)) o
        at s a n e f)
after_try world first stop last id r rest room (fails e job o done at s a t) same done_now more =
    elim (Bool-cases (suc first == stop)) [
      | inl final ↦
          let ended = (==_iff (suc first) stop).0 final in
          rw (done, done_now ended)
            (all_refused first e job ended
              (IsRefused-first world first stop (e, o) (λ i low high. absurd (omega arith))) o at
              (s ∙ rw (same, final)) a t)
      | inr going ↦ rw done (
          RunEnds-step world first stop id rest (e, o)
            (more (ground (arith, going, ==_iff (suc first) stop)) job at))
    ]

run_from-RunEnds :
    (world : ℕ → Attempt) (left first : ℕ) (id : Text) (m : Manager) (job : Job)
    → lookup id m.jobs ≡ some job
    → RunEnds world first (suc left + first) id (run_from (suc left) first world id m)
unfolding run_from
run_from-RunEnds world zero first id m job h =
    after_try world first (1 + first) true id (try_once (world first) first true id m) _
      (omega arith) (try_once-TryEnds (world first) first true id m job h)
      (ground (arith, ==_iff (suc first) (1 + first))) (λ e. refl) (λ room. absurd (omega arith))
run_from-RunEnds world (suc left) first id m job h =
    after_try world first (suc (suc left) + first) (suc left == 0) id
      (try_once (world first) first (suc left == 0) id m) _ (omega arith)
      (try_once-TryEnds (world first) first (suc left == 0) id m job h)
      (ground (arith, ==_iff (suc left) 0, ==_iff (suc first) (suc (suc left) + first)))
      (λ e. absurd (omega arith))
      (λ room next found.
        subst
          (λ stop. RunEnds world (first + 1) stop id (
            run_from (suc left) (first + 1) world id
              (try_once (world first) first (suc left == 0) id m).0))
          {x = suc left + (first + 1)} {y = suc (suc left) + first} (omega arith)
          (run_from-RunEnds world left (first + 1) id
            (try_once (world first) first (suc left == 0) id m).0 next found))

-- The issuance of a pending job always comes to an end that is recorded: with a positive number n of attempts allowed and the job known, the
-- job is afterwards issued by the first attempt whose answer and certificate files are accepted,
-- all earlier ones being refused, with that attempt's number, its expiry, no error and both files
-- in its directory; or all n attempts were refused, and the job is failed with the number n and the
-- cleaned text of the last error.
pub run-RunEnds :
    (world : ℕ → Attempt) (id : Text) (m : Manager) (n : ℕ) (job : Job)
    → m.max_attempts ≡ pos (suc n)
    → lookup id m.jobs ≡ some job
    → RunEnds world 1 (suc n + 1) id (run world id m)
unfolding run
run-RunEnds world id m n job limit h =
    subst (λ k. RunEnds world 1 (suc n + 1) id (run_from k 1 world id m)) {x = suc n}
      {y = to_ℕ m.max_attempts} (sym (ap to_ℕ limit)) (run_from-RunEnds world n 1 id m job h)
