-- ===== src/Certificates/Requests.antt =====
-- What `Start` of internal/certificates/manager.go does with a request.
use any_ns.Base.{
  ℕ, ◌≡◌, refl, sym, ap, ◌∙◌, List, [], ◌∷◌, Bool, true, false, Option, none, some, Text, ◌=t◌,
  =t_iff, ◌||◌, is_empty, ltb, length, join, trim_space, if◌then◌else◌, arith, Bool-cases, inl, inr,
}
use mathlib.Core.Path.{subst}
use any_ns.Base.Result.{Result, ok, err, ok-injective}
use any_ns.Base.Dict.{Dict, lookup, insert, erase, lookup-insert, lookup-erase}
use any_ns.DnsName.{Idna}
use any_ns.Certificates.{pending, IssueRequest, Job, public_job, normalize_domains}
use any_ns.Certificates.Manager.{
  Manager, save_locked, put_job, Started, job_id, new_job, create, again, start_with, start_domains,
  start,
}

-- A request with the key `key` and the normalized domains `d` that passes the checks.
pub record IsUsable (key : Text) (d : Result (List Text)) (domains : List Text) (m : Manager)
    : Type 0 where
  pub normal : d ≡ ok domains
  pub key_fits : (is_empty key || ltb 128 (length key)) ≡ false
  pub live : m.closed ≡ false

-- The domains that a job was made for, as they are compared.
abbrev pub same_domains : List Text → Job → Bool
same_domains domains job = join job.domains (0 ∷ []) =t join domains (0 ∷ [])

-- What a request comes to, whose key has the job id `id`: the manager before and after, and the
-- answer.
pub data StartEnds (id key : Text) (d : Result (List Text)) (m m' : Manager) (r : Result Started)
    : Type 0 where
  refused :
      (e : Text)
      → r ≡ err e
      → ((j : Text) → lookup j m'.jobs ≡ lookup j m.jobs)
      → m'.state ≡ m.state
      → m'.certs ≡ m.certs
      → StartEnds id key d m m' r
  known :
      (job : Job) (domains : List Text)
      → IsUsable key d domains m
      → lookup id m.jobs ≡ some job
      → same_domains domains job ≡ true
      → r ≡ ok (record { job = public_job job; created = false })
      → m' ≡ m
      → StartEnds id key d m m' r
  created :
      (job : Job) (domains : List Text)
      → IsUsable key d domains m
      → lookup id m.jobs ≡ none
      → job.id ≡ id
      → job.status ≡ pending
      → job.attempt ≡ 0
      → job.domains ≡ domains
      → r ≡ ok (record { job = public_job job; created = true })
      → ((j : Text) → lookup j m'.jobs ≡ (if id =t j then some job else lookup j m.jobs))
      → m'.state ≡ (save_locked none m').0.state
      → m'.certs ≡ m.certs
      → m'.closed ≡ m.closed
      → StartEnds id key d m m' r

taken_back :
    (id : Text) (job : Job) (d : Dict Job) (j : Text)
    → lookup id d ≡ none
    → lookup j (erase id (insert id job d)) ≡ lookup j d
taken_back id job d j h =
    lookup-erase id j (insert id job d) ∙ ground (arith, h, =t_iff id j, lookup-insert id j job d)

module _ (idna : Idna) (hash_hex : Text → Text) where
  create-StartEnds :
      (now : ℕ) (io : Option Text) (job : Job) (key : Text) (d : Result (List Text)) (m : Manager)
      → IsUsable key d job.domains m
      → lookup job.id m.jobs ≡ none
      → job.status ≡ pending
      → job.attempt ≡ 0
      → let r = create idna hash_hex now io job m in StartEnds job.id key d m r.0 r.1
  unfolding create put_job save_locked
  create-StartEnds now none job key d m u h s a =
      created job job.domains u h refl s a refl refl (λ j. lookup-insert job.id j job m.jobs) refl
        refl refl
  create-StartEnds now (some e) job key d m u h s a =
      refused e refl (λ j. taken_back job.id job m.jobs j h) refl refl

  again-StartEnds :
      (id key : Text) (d : Result (List Text)) (domains : List Text) (job : Job) (m : Manager)
      → IsUsable key d domains m
      → lookup id m.jobs ≡ some job
      → StartEnds id key d m m (again idna hash_hex domains job)
  unfolding again
  again-StartEnds id key d domains job m u h = elim (Bool-cases (same_domains domains job)) [
    | inl same ↦ rw same (known job domains u h same refl refl)
    | inr differs ↦ rw differs (refused _ refl (λ j. refl) refl refl)
  ]

  start_with-StartEnds :
      (now : ℕ) (io : Option Text) (domains : List Text) (request : IssueRequest) (key : Text)
      (found : Option Job) (d : Result (List Text)) (m : Manager)
      → IsUsable key d domains m
      → lookup (job_id idna hash_hex key) m.jobs ≡ found
      → let r = start_with idna hash_hex now io domains request key found m in
        StartEnds (job_id idna hash_hex key) key d m r.0 r.1
  unfolding start_with new_job
  start_with-StartEnds now io domains request key none d m u h =
      create-StartEnds now io (new_job idna hash_hex now m domains request key) key d m u h refl
        refl
  start_with-StartEnds now io domains request key (some job) d m u h =
      again-StartEnds (job_id idna hash_hex key) key d domains job m u h

  start_domains-StartEnds :
      (now : ℕ) (io : Option Text) (request : IssueRequest) (d : Result (List Text)) (m : Manager)
      → let key = trim_space request.idempotency_key in
        let r = start_domains idna hash_hex now io request d m in
        StartEnds (job_id idna hash_hex key) key d m r.0 r.1
  unfolding start_domains
  start_domains-StartEnds now io request (err e) m = refused e refl (λ j. refl) refl refl
  start_domains-StartEnds now io request (ok domains) m =
      let key = trim_space request.idempotency_key in
      elim (Bool-cases (is_empty key || ltb 128 (length key))) [
        | inl bad ↦ rw bad (refused _ refl (λ j. refl) refl refl)
        | inr good ↦ elim (Bool-cases m.closed) [
          | inl shut ↦ simp (good, shut) (refused _ refl (λ j. refl) refl refl)
          | inr live ↦
              simp (good, live)
                (start_with-StartEnds now io domains request key
                  (lookup (job_id idna hash_hex key) m.jobs) (ok domains) m
                  (record { normal = refl; key_fits = good; live = live }) refl)
        ]
      ]

  -- A request for a certificate ends in one of three ways. It is refused with an error, and the
  -- jobs that can be looked up, the state file and the certificates are as before, also when the
  -- new job could not be saved. Or its key is known, and the answer is that key's job, which was
  -- made for the same domains, without its key and marked as not created, the manager unchanged.
  -- Or a pending job for the normalized domains with no attempt made is stored under the key's job
  -- id, which was free and is its own, every other job stays, the state file is the one that saving the new jobs
  -- writes, and the answer is that job without its key, marked as created. A request that is not
  -- refused has a key of 1 to 128 bytes, and the manager is not closed.
  pub start-StartEnds :
      (now : ℕ) (io : Option Text) (request : IssueRequest) (m : Manager)
      → let key = trim_space request.idempotency_key in
        let r = start idna hash_hex now io request m in
        StartEnds (job_id idna hash_hex key) key (normalize_domains idna request.domains) m r.0 r.1
  unfolding start
  start-StartEnds now io request m =
      start_domains-StartEnds now io request (normalize_domains idna request.domains) m

  -- A usable request whose key's job is there is answered with that job.
  start_known :
      (now : ℕ) (io : Option Text) (request : IssueRequest) (d : Result (List Text)) (m : Manager)
      (job : Job) (domains : List Text)
      → let key = trim_space request.idempotency_key in
        IsUsable key d domains m
        → lookup (job_id idna hash_hex key) m.jobs ≡ some job
        → same_domains domains job ≡ true
        → start_domains idna hash_hex now io request d m
          ≡ (m, ok (record { job = public_job job; created = false }))
  unfolding start_domains start_with again
  start_known now io request d m job domains u h same =
      simp (u.normal, u.key_fits, u.live, h, same) refl

  again_same :
      (now' : ℕ) (io' : Option Text) (request : IssueRequest) (d : Result (List Text))
      (m m' : Manager) (s : Started)
      → let key = trim_space request.idempotency_key in
        StartEnds (job_id idna hash_hex key) key d m m' (ok s)
        → start_domains idna hash_hex now' io' request d m'
          ≡ (m', ok (record s { created = false }))
  again_same now' io' request d m m' s (refused e r j f c) = absurd (cc)
  again_same now' io' request d m m' s (known job domains u h same r back) =
      start_known now' io' request d m' job domains
        (record {
          normal = u.normal;
          key_fits = u.key_fits;
          live = ap (λ x. x.closed) back ∙ u.live;
        })
        (ap (λ x. lookup (job_id idna hash_hex (trim_space request.idempotency_key)) x.jobs) back
          ∙ h)
        same
      ∙ ap (λ x. (m', ok (record x { created = false }))) (sym (ok-injective r))
  again_same now' io' request d m m' s (created job domains u free i p a ds r jobs f c closed) =
      let id = job_id idna hash_hex (trim_space request.idempotency_key) in
      start_known now' io' request d m' job domains
        (record { normal = u.normal; key_fits = u.key_fits; live = closed ∙ u.live })
        (jobs id ∙ rw ((=t_iff id id).1 refl)) (rw ds ((=t_iff _ _).1 refl))
      ∙ ap (λ x. (m', ok (record x { created = false }))) (sym (ok-injective r))

  -- Asking again is harmless: when a request was answered with a job, the same request, at any
  -- later time and however the state file can be written then, leaves the manager as it is and is
  -- answered with the same job, marked as not created.
  pub start_twice :
      (now now' : ℕ) (io io' : Option Text) (request : IssueRequest) (m m' : Manager) (s : Started)
      → start idna hash_hex now io request m ≡ (m', ok s)
      → start idna hash_hex now' io' request m' ≡ (m', ok (record s { created = false }))
  unfolding start
  start_twice now now' io io' request m m' s h =
      let d = normalize_domains idna request.domains in
      let key = trim_space request.idempotency_key in
      again_same now' io' request d m m' s (
        subst (λ r. StartEnds (job_id idna hash_hex key) key d m r.0 r.1) h
          (start_domains-StartEnds now io request d m))
