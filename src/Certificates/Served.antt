-- ===== src/Certificates/Served.antt =====
-- What the requests and the workers of internal/certificates/manager.go do to the certificates that
-- can be read.
use any_ns.Base.{
  ℕ, ◌≡◌, refl, sym, ap, ◌∙◌, Bool, true, ◌||◌, Option, none, some, Text, ◌=t◌, =t_iff,
  Option-cases, if◌then◌else◌, arith, Bool-cases, inl, inr,
}
use mathlib.Core.Path.{subst}
use any_ns.Base.Result.{Result, ok, err}
use any_ns.Base.Dict.{Dict, lookup, insert, lookup-insert}
use any_ns.DnsName.{Idna}
use any_ns.Certificates.{is_issued, is_revoked, IssueRequest, Job, IssueOutput}
use any_ns.Certificates.Manager.{
  Manager, CertFiles, start, revoked_job, store_revoked, job_or_zero, read_file,
}
use any_ns.Certificates.Worker.{
  touched, update, put_files, Writes, save_files, save_certificate, store_answer,
}
use any_ns.Certificates.Updates.{
  lookup-update, update_missing, certs-update, jobs-save_locked, certs-save_locked,
}
use any_ns.Certificates.Issuance.{jobs-stored_as, store_answer-StoredAs}
use any_ns.Certificates.Requests.{refused, known, created, start-StartEnds}

-- A job that has, or had, a certificate.
abbrev pub certified : Job → Bool
certified job = is_issued job.status || is_revoked job.status

-- The certificate of `id` can be read.
abbrev pub IsReadable : Text → Dict CertFiles → Type 0
IsReadable id certs = (pem : Text) × (read_file (lookup id certs) ≡ ok pem)

-- The certificate of every job that is said to have one can be read.
abbrev pub IsServed : Manager → Type 0
IsServed m =
    (j : Text) (x : Job) → lookup j m.jobs ≡ some x → certified x ≡ true → IsReadable j m.certs

-- The same jobs and certificates by id.
same-IsServed :
    (m m' : Manager)
    → ((j : Text) → lookup j m'.jobs ≡ lookup j m.jobs)
    → m'.certs ≡ m.certs
    → IsServed m
    → IsServed m'
same-IsServed m m' jobs certs s j x h = rw certs (s j x (sym (jobs j) ∙ h))

-- One job is put in, which is served.
put-IsServed :
    (m m' : Manager) (id : Text) (job : Job)
    → ((j : Text) → lookup j m'.jobs ≡ (if id =t j then some job else lookup j m.jobs))
    → m'.certs ≡ m.certs
    → (certified job ≡ true → IsReadable id m.certs)
    → IsServed m
    → IsServed m'
put-IsServed m m' id job jobs certs c s j x h = elim (Bool-cases (id =t j)) [
  | inl same ↦
      let e = (=t_iff id j).0 same in
      let at_j : lookup j m'.jobs ≡ some job = jobs j ∙ rw same in
      let jx : job ≡ x = cc in
      subst (λ y. certified y ≡ true → IsReadable j m'.certs) jx
        (λ k. subst (λ i. IsReadable i m'.certs) e (rw certs (c k)))
  | inr apart ↦ rw certs (s j x (sym (jobs j ∙ rw apart) ∙ h))
]

pub update-IsServed :
    (now : ℕ) (io : Option Text) (id : Text) (f : Job → Job) (m : Manager)
    → ((x : Job) → certified (f x) ≡ true → IsReadable id m.certs)
    → IsServed m
    → IsServed (update now io id f m)
update-IsServed now io id f m c s = elim (Option-cases (lookup id m.jobs)) [
  | inl missing ↦ subst IsServed (sym (update_missing now io id f m missing)) s
  | inr (job, found) ↦
      put-IsServed m (update now io id f m) id (touched now (f job))
        (lookup-update now io id f m job found) (certs-update now io id f m) (c job) s
]

insert-IsReadable :
    (id j : Text) (files : CertFiles) (pem : Text) (certs : Dict CertFiles)
    → files.fullchain ≡ some pem
    → IsReadable j certs
    → IsReadable j (insert id files certs)
unfolding read_file
insert-IsReadable id j files pem certs full (old, h) = elim (Bool-cases (id =t j)) [
  | inl same ↦ (
    pem,
    ap read_file {y = some files} (lookup-insert id j files certs ∙ rw same) ∙ simp full refl,
  )
  | inr apart ↦
      (old, ap read_file {y = lookup j certs} (lookup-insert id j files certs ∙ rw apart) ∙ h)
]

save_files-IsReadable :
    (d f k : Option Text) (id j : Text) (output : IssueOutput) (m : Manager)
    → IsReadable j m.certs
    → IsReadable j (save_files d f k id output m).0.certs
unfolding save_files put_files
save_files-IsReadable (some e) f k id j output m h = h
save_files-IsReadable none (some e) k id j output m h = h
save_files-IsReadable none none (some e) id j output m h =
    insert-IsReadable id j _ output.certificate_pem m.certs refl h
save_files-IsReadable none none none id j output m h =
    insert-IsReadable id j _ output.certificate_pem m.certs refl h

-- What the worker of a job takes from the issuer's answer and the writes never makes a certificate
-- unreadable, nor changes a job.
pub store_answer-IsReadable :
    (r : Result IssueOutput) (w : Writes) (id j : Text) (m : Manager)
    → IsReadable j m.certs
    → IsReadable j (store_answer r w id m).0.certs
unfolding store_answer save_certificate
store_answer-IsReadable (err e) w id j m h = h
store_answer-IsReadable (ok output) w id j m h =
    subst (λ x. IsReadable j x.certs) (sym (jobs-stored_as output _))
      (save_files-IsReadable w.make_dir w.fullchain w.private_key id j output m h)

pub store_answer-IsServed :
    (r : Result IssueOutput) (w : Writes) (id : Text) (m : Manager)
    → IsServed m
    → IsServed (store_answer r w id m).0
store_answer-IsServed r w id m s j x h c =
    store_answer-IsReadable r w id j m
      (s j x (ap (lookup j) (sym (store_answer-StoredAs r w id m).jobs) ∙ h) c)

pub start-IsServed :
    (idna : Idna) (hash_hex : Text → Text) (now : ℕ) (io : Option Text) (request : IssueRequest)
    (m : Manager)
    → IsServed m
    → IsServed (start idna hash_hex now io request m).0
start-IsServed idna hash_hex now io request m s =
    let m' = (start idna hash_hex now io request m).0 in
    elim (start-StartEnds idna hash_hex now io request m) [
      | refused e r jobs state certs ↦ same-IsServed m m' jobs certs s
      | known job domains u found same r back ↦ subst IsServed (sym back) s
      | created job domains u free own p a ds r jobs f certs closed ↦
          put-IsServed m m' _ job jobs certs (λ c. absurd (ground (arith, p))) s
    ]

pub store_revoked-IsServed :
    (now : ℕ) (io : Option Text) (id : Text) (m : Manager)
    → IsReadable id m.certs
    → IsServed m
    → IsServed (store_revoked now io id m).0
unfolding store_revoked
store_revoked-IsServed now io id m readable s =
    let job = revoked_job now (job_or_zero (lookup id m.jobs)) in
    put-IsServed m (store_revoked now io id m).0 id job
      (λ j. ap (lookup j) (jobs-save_locked io _) ∙ lookup-insert id j job m.jobs)
      (certs-save_locked io _) (λ c. readable) s
