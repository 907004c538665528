-- ===== src/Certificates/Histories.antt =====
-- Histories of the certificate manager of internal/certificates/manager.go: the critical sections
-- and file writes of requests, workers and revocations in any order.
use any_ns.Base.{
  none, txt, false, ℕ, ◌≡◌, refl, sym, ap, ◌∙◌, [], true, Option, none, some, Text, ◌=t◌, =t_iff,
  arith, Bool-cases, inl, inr,
}
use mathlib.Core.Path.{subst}
use any_ns.Base.Result.{Result, ok, err}
use any_ns.Base.Members.{has_text}
use any_ns.Base.Dict.{lookup, insert, erase, lookup-insert, lookup-erase}
use any_ns.DnsName.{Idna}
use any_ns.Certificates.{
  IssueRequest, Status, pending, validating, finalizing, issued, failed, revoked, other, Job,
  IssueOutput, public_job,
}
use any_ns.Certificates.Requests.{refused, known, created, start-StartEnds}
use any_ns.Certificates.Manager.{
  Manager, CertFiles, start, close, set_issuer, store_revoked, read_file, pem_of, shown, get,
  certificate_pem,
}
use any_ns.Certificates.Worker.{
  Writes, update, report_one, begin_job, issue_job, fail_job, finalizing_job, store_answer,
}
use any_ns.Certificates.Updates.{certs-update, certs-save_locked}
use any_ns.Certificates.Issuance.{store_answer-StoredAs}
use any_ns.Certificates.Served.{
  certified, IsReadable, IsServed, update-IsServed, store_answer-IsReadable, store_answer-IsServed,
  start-IsServed, store_revoked-IsServed,
}
use any_ns.Certificates.Steps.{
  System, Step, starts, closes, sets_issuer, begins, reports, stores, accepts, fails, checks,
  revokes, Steps, stop, step,
}

-- The certificates that jobs, workers and revocations rely on can be read.
record IsSound (s : System) : Type 0 where
  served : IsServed s.manager
  stored :
      (id : Text) (output : IssueOutput)
      → lookup id s.results ≡ some (ok output)
      → IsReadable id s.manager.certs
  read : (id : Text) → has_text id s.checked ≡ true → IsReadable id s.manager.certs

-- A step of the manager alone.
manager-IsSound :
    (s : System) (m : Manager)
    → IsServed m
    → m.certs ≡ s.manager.certs
    → IsSound s
    → IsSound (record s { manager = m })
manager-IsSound s m served certs h = record {
  served = served;
  stored = λ id output e. rw certs (h.stored id output e);
  read = λ id e. rw certs (h.read id e);
}

start-certs :
    (idna : Idna) (hash_hex : Text → Text) (now : ℕ) (io : Option Text) (request : IssueRequest)
    (m : Manager)
    → (start idna hash_hex now io request m).0.certs ≡ m.certs
start-certs idna hash_hex now io request m = elim (start-StartEnds idna hash_hex now io request m) [
  | refused e r jobs state certs ↦ certs
  | known job domains u found same r back ↦ ap (λ x. x.certs) back
  | created job domains u free own p a ds r jobs f certs closed ↦ certs
]

-- The worker holds the results `r` for the job at `id`.
stores-IsSound :
    (answer : Result IssueOutput) (w : Writes) (id : Text) (s : System)
    → IsSound s
    → IsSound (record s {
      manager = (store_answer answer w id s.manager).0;
      results = insert id (store_answer answer w id s.manager).1 s.results;
    })
unfolding read_file
stores-IsSound answer w id s h =
    let r = store_answer answer w id s.manager in
    record {
      served = store_answer-IsServed answer w id s.manager h.served;
      stored = λ j output e. elim (Bool-cases (id =t j)) [
        | inl same ↦
            let i = (=t_iff id j).0 same in
            let k : some r.1 ≡ some (ok output) =
              sym (lookup-insert id j r.1 s.results ∙ rw same) ∙ e in
            let same_result : r.1 ≡ ok output = cc in
            let files = (store_answer-StoredAs answer w id s.manager).files output same_result in
            subst (λ x. IsReadable x r.0.certs) i (output.certificate_pem, ap read_file files)
        | inr apart ↦
            store_answer-IsReadable answer w id j s.manager
              (h.stored j output (sym (lookup-insert id j r.1 s.results ∙ rw apart) ∙ e))
      ];
      read = λ j e. store_answer-IsReadable answer w id j s.manager (h.read j e);
    }

begins-IsSound :
    (now : ℕ) (io : Option Text) (id : Text) (n : ℕ) (s : System)
    → IsSound s
    → IsSound (record s {
      manager = update now io id (begin_job n) s.manager;
      results = erase id s.results;
    })
unfolding begin_job
begins-IsSound now io id n s h =
    let certs = certs-update now io id (begin_job n) s.manager in
    record {
      served = update-IsServed now io id (begin_job n) s.manager (λ x c. absurd (cc)) h.served;
      stored = λ j output e.
          rw certs (h.stored j output (ground (arith, lookup-erase id j s.results, e)));
      read = λ j e. rw certs (h.read j e);
    }

report_one-IsSound :
    (status : Status) (now : ℕ) (io : Option Text) (id : Text) (s : System)
    → IsSound s
    → IsSound (record s { manager = report_one status now io id s.manager })
unfolding report_one
report_one-IsSound finalizing now io id s h =
    manager-IsSound s (update now io id finalizing_job s.manager)
      (update-IsServed now io id finalizing_job s.manager (λ x c. absurd (cc)) h.served)
      (certs-update now io id finalizing_job s.manager) h
report_one-IsSound pending now io id s h = h
report_one-IsSound validating now io id s h = h
report_one-IsSound issued now io id s h = h
report_one-IsSound failed now io id s h = h
report_one-IsSound revoked now io id s h = h
report_one-IsSound (other t) now io id s h = h

ok-pem_of :
    (found : Option Job) (files : Option CertFiles) (pem : Text)
    → pem_of found files ≡ ok pem
    → read_file files ≡ ok pem
unfolding pem_of
ok-pem_of none files pem h = absurd (cc)
ok-pem_of (some job) files pem h = elim (Bool-cases (certified job)) [
  | inl has ↦ rw has at h
  | inr never ↦
      let k : err (txt "certificate is not available") ≡ ok pem = rw never at h in absurd (cc)
]

-- A certificate that was returned without an error can be read.
certificate_pem-IsReadable :
    (id pem : Text) (m : Manager) → certificate_pem id m ≡ ok pem → IsReadable id m.certs
unfolding certificate_pem
certificate_pem-IsReadable id pem m h = (pem, ok-pem_of (get id m) (lookup id m.certs) pem h)

Step-IsSound :
    (idna : Idna) (hash_hex : Text → Text) (s t : System)
    → Step idna hash_hex s t
    → IsSound s
    → IsSound t
unfolding issue_job fail_job close set_issuer
Step-IsSound idna hash_hex s t (starts now io request) h =
    manager-IsSound s (start idna hash_hex now io request s.manager).0
      (start-IsServed idna hash_hex now io request s.manager h.served)
      (start-certs idna hash_hex now io request s.manager) h
Step-IsSound idna hash_hex s t closes h = manager-IsSound s (close s.manager) h.served refl h
Step-IsSound idna hash_hex s t (sets_issuer none) h = h
Step-IsSound idna hash_hex s t (sets_issuer (some i)) h = elim (Bool-cases s.manager.closed) [
  | inl shut ↦ simp shut h
  | inr live ↦
      simp live
        (manager-IsSound s (record s.manager { issuer = i; closed = false }) h.served refl h)
]
Step-IsSound idna hash_hex s t (begins now io id n) h = begins-IsSound now io id n s h
Step-IsSound idna hash_hex s t (reports status now io id) h =
    report_one-IsSound status now io id s h
Step-IsSound idna hash_hex s t (stores answer w id) h = stores-IsSound answer w id s h
Step-IsSound idna hash_hex s t (accepts now io id output e) h =
    manager-IsSound s (update now io id (issue_job output) s.manager)
      (update-IsServed now io id (issue_job output) s.manager (λ x c. h.stored id output e)
        h.served)
      (certs-update now io id (issue_job output) s.manager) h
Step-IsSound idna hash_hex s t (fails now io id last e f) h =
    manager-IsSound s (update now io id (fail_job last e) s.manager)
      (update-IsServed now io id (fail_job last e) s.manager (λ x c. absurd (ground arith))
        h.served)
      (certs-update now io id (fail_job last e) s.manager) h
Step-IsSound idna hash_hex s t (checks id pem e) h = record {
  served = h.served;
  stored = h.stored;
  read = λ j k. elim (Bool-cases (id =t j)) [
    | inl same ↦
        subst (λ x. IsReadable x s.manager.certs) ((=t_iff id j).0 same)
          (certificate_pem-IsReadable id pem s.manager e)
    | inr apart ↦ h.read j (ground (arith, k, apart))
  ];
}
Step-IsSound idna hash_hex s t (revokes now io id e) h =
    manager-IsSound s (store_revoked now io id s.manager).0
      (store_revoked-IsServed now io id s.manager (h.read id e) h.served)
      (unfold store_revoked in certs-save_locked io _) h

module _ (idna : Idna) (hash_hex : Text → Text) where
  Steps-IsSound : (s t : System) → Steps idna hash_hex s t → IsSound s → IsSound t
  Steps-IsSound s t (stop _) h = h
  Steps-IsSound s t (step _ s₁ _ one more) h =
      Steps-IsSound s₁ t more (Step-IsSound idna hash_hex s s₁ one h)

  pem_readable :
      (j : Text) (m : Manager) (x : Job)
      → lookup j m.jobs ≡ some x
      → certified x ≡ true
      → IsReadable j m.certs
      → (pem : Text) × (certificate_pem j m ≡ ok pem)
  unfolding certificate_pem get pem_of public_job
  pem_readable j m x h c (pem, r) = (pem, ap (λ o. pem_of (shown o) (lookup j m.certs)) h ∙ rw c r)

  -- In every history that starts without jobs, in whatever order the critical sections and file
  -- writes of requests, workers and revocations come and whichever of them fail, a job that is issued
  -- or revoked has a certificate that can be fetched. A worker knows of its files only the error that
  -- storing them ended with, and a revocation that it has read the certificate at some time before.
  pub issued_is_readable :
      (s t : System) (j : Text) (x : Job)
      → s.manager.jobs ≡ []
      → s.results ≡ []
      → s.checked ≡ []
      → Steps idna hash_hex s t
      → lookup j t.manager.jobs ≡ some x
      → certified x ≡ true
      → (pem : Text) × (certificate_pem j t.manager ≡ ok pem)
  unfolding lookup
  issued_is_readable s t j x no_jobs no_results none_checked steps h c =
      let sound = Steps-IsSound s t steps (record {
        served = λ i y k. absurd (cc (ap (lookup i) no_jobs));
        stored = λ i y k. absurd (cc (ap (lookup i) no_results));
        read = λ i k. absurd (ground (arith, ap (has_text i) none_checked, k));
      }) in
      pem_readable j t.manager x h c (sound.served j x h c)
