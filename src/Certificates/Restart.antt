-- ===== src/Certificates/Restart.antt =====
-- What `load` of internal/certificates/manager.go makes of the state file of an earlier process.
use any_ns.Base.{
  if◌then◌else◌, txt, ℕ, ◌≡◌, refl, sym, ap, ◌∙◌, List, [], ◌∷◌, map, false, Option, none, some,
  Text, ◌=t◌, =t_iff, arith, Bool-cases, inl, inr, ◌⊎◌, All, Has, map-Has,
}
use any_ns.Base.Result.{ok, ok-injective}
use any_ns.Base.Dict.{Dict, lookup, insert, values, lookup-insert}
use any_ns.Base.Sort.{sort, sort-All, sort-Has}
use any_ns.Certificates.{failed, in_flight, Job, public_job}
use any_ns.Certificates.Manager.{Manager, save_locked, older}
use any_ns.Certificates.Worker.{restored, load_jobs, any_in_flight, load, loaded, new_manager}
use any_ns.Certificates.Updates.{jobs-save_locked}

-- Every job stands under its own id, once.
abbrev pub IsKeyed : Dict Job → Type 0
IsKeyed [] = Unit
IsKeyed ((k, job) ∷ d) = (job.id ≡ k) × (lookup k d ≡ none) × IsKeyed d

lookup_missing :
    (k j : Text) (job : Job) (d : Dict Job)
    → lookup j d ≡ none
    → (k =t j) ≡ false
    → lookup j (insert k job d) ≡ none
lookup_missing k j job d h apart = lookup-insert k j job d ∙ rw apart h

-- Storing a job under its id keeps the jobs keyed.
pub insert-IsKeyed : (job : Job) (d : Dict Job) → IsKeyed d → IsKeyed (insert job.id job d)
unfolding insert lookup
insert-IsKeyed job [] h = (refl, refl, tt)
insert-IsKeyed job ((k, x) ∷ d) h = elim (Bool-cases (k =t job.id)) [
  | inl same ↦ rw same (sym ((=t_iff k job.id).0 same), h.1, h.2)
  | inr apart ↦ rw apart (
    h.0,
    lookup_missing job.id k job d h.1 (ground (arith, =t_iff k job.id, =t_iff job.id k)),
    insert-IsKeyed job d h.2,
  )
]

lookup_behind :
    (k : Text) (x : Job) (d : Dict Job) (job : Job)
    → lookup k d ≡ none
    → lookup job.id d ≡ some job
    → lookup job.id ((k, x) ∷ d) ≡ some job
unfolding lookup
lookup_behind k x d job free h = elim (Bool-cases (k =t job.id)) [
  | inl same ↦ absurd (cc (ap (λ i. lookup i d) ((=t_iff k job.id).0 same)))
  | inr apart ↦ rw apart h
]

-- A property of the jobs that are found by their id holds of all values.
values-All :
    (P : Job → Type 0) (d : Dict Job)
    → IsKeyed d
    → ((job : Job) → lookup job.id d ≡ some job → P job)
    → All P (values d)
unfolding lookup values
values-All P [] h f = tt
values-All P ((k, x) ∷ d) h f = (
  f x (rw ((=t_iff k x.id).1 (sym h.0))),
  values-All P d h.2 (λ job found. f job (lookup_behind k x d job h.1 found)),
)

values-Has : (j : Text) (x : Job) (d : Dict Job) → lookup j d ≡ some x → Has x (values d)
unfolding lookup values
values-Has j x [] h = absurd (cc)
values-Has j x ((k, y) ∷ d) h = elim (Bool-cases (k =t j)) [
  | inl same ↦ inl (cc (rw same at h))
  | inr apart ↦ inr (values-Has j x d (rw apart at h))
]

id-restored : (now : ℕ) (x : Job) → (restored now x).id ≡ x.id
unfolding restored
id-restored now x = elim (Bool-cases (in_flight x.status)) [ inl h ↦ rw h | inr h ↦ rw h ]

-- After one job of the file is stored, the job `x` is there or still to come.
there_or_to_come :
    (now : ℕ) (x y : Job) (ys : List Job) (d : Dict Job)
    → (y.id ≡ x.id → y ≡ x)
    → Has x (y ∷ ys) ⊎ (lookup x.id d ≡ some (restored now x))
    → Has x ys ⊎ (lookup x.id (insert y.id (restored now y) d) ≡ some (restored now x))
there_or_to_come now x y ys d u h = elim (Bool-cases (y.id =t x.id)) [
  | inl same ↦ inr (
      lookup-insert y.id x.id (restored now y) d
      ∙ rw same (ap (λ z. some (restored now z)) (u ((=t_iff y.id x.id).0 same))))
  | inr apart ↦ elim h [
    | inl (inl e) ↦ absurd (ground (arith, =t_iff y.id x.id, ap (λ z. z.id) e))
    | inl (inr k) ↦ inl k
    | inr found ↦ inr (lookup-insert y.id x.id (restored now y) d ∙ rw apart found)
  ]
]

-- A job that the file names once is there after the load.
lookup-load_jobs :
    (now : ℕ) (x : Job) (xs : List Job) (d : Dict Job)
    → All (λ y. y.id ≡ x.id → y ≡ x) xs
    → Has x xs ⊎ (lookup x.id d ≡ some (restored now x))
    → lookup x.id (load_jobs now xs d) ≡ some (restored now x)
unfolding load_jobs
lookup-load_jobs now x [] d u (inl h) = absurd h.lower
lookup-load_jobs now x [] d u (inr h) = h
lookup-load_jobs now x (y ∷ ys) d u h =
    lookup-load_jobs now x ys (insert y.id (restored now y) d) u.1
      (there_or_to_come now x y ys d u.0 h)

-- A job that the file does not name is not there, unless it was before.
lookup-load_jobs_ne :
    (now : ℕ) (j : Text) (xs : List Job) (d : Dict Job)
    → All (λ y. (y.id =t j) ≡ false) xs
    → lookup j (load_jobs now xs d) ≡ lookup j d
unfolding load_jobs
lookup-load_jobs_ne now j [] d h = refl
lookup-load_jobs_ne now j (y ∷ ys) d h =
    lookup-load_jobs_ne now j ys (insert y.id (restored now y) d) h.1
    ∙ lookup-insert y.id j (restored now y) d
    ∙ rw h.0

jobs-load :
    (now : ℕ) (io : Option Text) (jobs : List Job) (f : Manager)
    → f.state ≡ some jobs
    → (load now none io f).0.jobs ≡ load_jobs now jobs f.jobs
unfolding load
jobs-load now io jobs f h = elim (Bool-cases (any_in_flight jobs)) [
  | inl e ↦ simp h (simp e (jobs-save_locked io _))
  | inr e ↦ simp h (simp e refl)
]

-- The jobs as the state file lists them.
abbrev listed : Manager → List Job
listed m = map public_job (sort older (values m.jobs))

map-All :
    (P : Job → Type 0) (f : Job → Job) (xs : List Job) → All (λ x. P (f x)) xs → All P (map f xs)
map-All P f [] h = tt
map-All P f (x ∷ xs) h = (h.0, map-All P f xs h.1)

listed-All :
    (P : Job → Type 0) (m : Manager)
    → IsKeyed m.jobs
    → ((job : Job) → lookup job.id m.jobs ≡ some job → P (public_job job))
    → All P (listed m)
listed-All P m k f = map-All P public_job (sort older (values m.jobs)) (
    sort-All older (λ x. P (public_job x)) (values m.jobs)
      (values-All (λ x. P (public_job x)) m.jobs k f))

lookup_id : (j : Text) (x : Job) (d : Dict Job) → IsKeyed d → lookup j d ≡ some x → x.id ≡ j
unfolding lookup
lookup_id j x [] k h = absurd (cc)
lookup_id j x ((i, y) ∷ d) k h = elim (Bool-cases (i =t j)) [
  | inl same ↦ cc (k.0, (=t_iff i j).0 same, rw same at h)
  | inr apart ↦ lookup_id j x d k.2 (rw apart at h)
]

-- A job whose issuance a restart cut off.
abbrev pub interrupted : ℕ → Job → Job
interrupted now job = record job {
  status = failed;
  error = txt "issuance interrupted by process restart; submit a new idempotency key";
  updated_at = now;
}

-- What a restart leaves of a job.
abbrev pub after_restart : ℕ → Option Job → Option Job
after_restart now none = none
after_restart now (some job) =
    some (if in_flight job.status then interrupted now (public_job job) else public_job job)

reload_found :
    (now : ℕ) (m : Manager) (j : Text) (found : Option Job)
    → IsKeyed m.jobs
    → lookup j m.jobs ≡ found
    → lookup j (load_jobs now (listed m) []) ≡ after_restart now found
unfolding public_job restored
reload_found now m j none k h =
    lookup-load_jobs_ne now j (listed m) [] (
      listed-All (λ y. (y.id =t j) ≡ false) m k
        (λ job found. elim (Bool-cases (job.id =t j)) [
          | inl same ↦ absurd (cc (ap (λ i. lookup i m.jobs) ((=t_iff job.id j).0 same)))
          | inr apart ↦ apart
        ]))
    ∙ unfold lookup in refl
reload_found now m j (some x) k h =
    let xj = lookup_id j x m.jobs k h in
    ap (λ i. lookup i (load_jobs now (listed m) [])) (sym xj)
    ∙ lookup-load_jobs now (public_job x) (listed m) []
        (listed-All (λ y. y.id ≡ x.id → y ≡ public_job x) m k
          (λ job found e. ap public_job {x = job} {y = x} (cc)))
        (inl (
          map-Has public_job x (sort older (values m.jobs))
            (sort-Has older x (values m.jobs) (values-Has j x m.jobs h))))

of_loaded : (r : Manager × Option Text) (f : Manager) → loaded r ≡ ok f → r.0 ≡ f
of_loaded (m, none) f h = ok-injective h
of_loaded (m, some e) f h = absurd (cc)

-- A new manager that starts on the files of another one knows the same jobs: when every job of the
-- other stands under its own id, and the state file is the one that saving the other's jobs
-- writes, a lookup in the new manager finds a job exactly where the other had one, and finds that
-- job without its key and, if it was in flight, failed.
pub restart_keeps :
    (now i : ℕ) (io : Option Text) (m disk f : Manager) (j : Text)
    → IsKeyed m.jobs
    → disk.state ≡ (save_locked none m).0.state
    → new_manager now (some i) none none io disk ≡ ok f
    → lookup j f.jobs ≡ after_restart now (lookup j m.jobs)
unfolding new_manager
restart_keeps now i io m disk f j k same h =
    let fresh = record disk { issuer = i; jobs = []; closed = false } in
    ap (λ x. lookup j x.jobs) (sym (of_loaded (load now none io fresh) f h))
    ∙ ap (lookup j) (jobs-load now io (listed m) fresh (same ∙ unfold save_locked in refl))
    ∙ reload_found now m j (lookup j m.jobs) k refl
