-- ===== src/Certificates/Manager.antt =====
-- The operations of `Manager` in internal/certificates/manager.go.
use any_ns.Base.{
  ℕ, suc, ◌+◌, ◌*◌, List, [], ◌∷◌, map, Bool, true, false, not, ◌&&◌, ◌||◌, Option, none, some,
  Text, txt, ◌=t◌, text_lt, is_empty, trim_space, join, length, ltb, if◌then◌else◌, filter,
}
use any_ns.Base.Int.{ℤ, pos, negsuc}
use any_ns.Base.Result.{Result, ok, err, ◌>>=◌}
use any_ns.Base.Dict.{Dict, lookup, insert, erase, values}
use any_ns.Base.Sort.{sort}
use any_ns.DnsName.{Idna}
use any_ns.Certificates.{
  other, pending, revoked, is_issued, is_revoked, IssueRequest, Job, public_job, normalize_domains,
}

-- The two files of a certificate's directory.
pub record CertFiles : Type 0 where
  pub fullchain : Option Text
  pub private_key : Option Text

-- `state` is the state file's list of jobs, `none` if there is no file; `certs` is the directory
-- of certificates. The issuer in use is known by a number.
pub record Manager : Type 0 where
  pub max_attempts : ℤ
  pub renew_before_days : ℤ
  pub issuer : ℕ
  pub jobs : Dict Job
  pub closed : Bool
  pub state : Option (List Job)
  pub certs : Dict CertFiles

abbrev pub older : Job → Job → Bool
older a b = ltb a.created_at b.created_at

-- `saveLocked`: the state file is replaced as a whole or not at all, and holds no key.
unfoldable pub save_locked : Option Text → Manager → Manager × Option Text
save_locked none m = (record m { state = some (map public_job (sort older (values m.jobs))) }, none)
save_locked (some e) m = (m, some e)

-- The manager with a job under its id, and the attempt to save it.
unfoldable pub put_job : Option Text → Job → Manager → Manager × Option Text
put_job io job m = save_locked io (record m { jobs = insert job.id job m.jobs })

-- A job's answer, with whether it was created by this request.
pub record Started : Type 0 where
  pub job : Job
  pub created : Bool

module _ (idna : Idna) (hash_hex : Text → Text) where
  -- `jobID`
  unfoldable pub job_id : Text → Text
  job_id key = hash_hex key

  unfoldable pub new_job : ℕ → Manager → List Text → IssueRequest → Text → Job
  new_job now m domains request key = record {
    id = job_id key;
    domains = domains;
    status = pending;
    attempt = 0;
    max_attempts = m.max_attempts;
    created_at = now;
    updated_at = now;
    not_before = none;
    not_after = none;
    error = [];
    renewal_of = trim_space request.renewal_of;
    revoked_at = none;
    idempotency_key = key;
  }

  -- After the key is known to be new: the job is stored, or taken back if it cannot be saved.
  unfoldable pub create : ℕ → Option Text → Job → Manager → Manager × Result Started
  create now io job m =
      let (saved, e) = put_job io job m in
      elim e [
        | none ↦ (saved, ok (record { job = public_job job; created = true }))
        | some e' ↦ (record saved { jobs = erase job.id saved.jobs }, err e')
      ]

  -- A key that is known answers with its job, if it asks for the same domains.
  unfoldable pub again : List Text → Job → Result Started
  again domains existing =
      if join existing.domains (0 ∷ []) =t join domains (0 ∷ [])
      then ok (record { job = public_job existing; created = false })
      else err (txt "idempotency_key was already used for different domains")

  unfoldable pub start_with :
      ℕ
      → Option Text
      → List Text
      → IssueRequest
      → Text
      → Option Job
      → Manager
      → Manager × Result Started
  unfolding new_job
  start_with now io domains request key (some existing) m = (m, again domains existing)
  start_with now io domains request key none m = create now io (new_job now m domains request key) m

  unfoldable pub start_domains :
      ℕ → Option Text → IssueRequest → Result (List Text) → Manager → Manager × Result Started
  start_domains now io request (err e) m = (m, err e)
  start_domains now io request (ok domains) m =
      let key = trim_space request.idempotency_key in
      if is_empty key || ltb 128 (length key)
      then (m, err (txt "idempotency_key is required and must be at most 128 characters"))
      else if m.closed
      then (m, err (txt "certificate manager is closed"))
      else start_with now io domains request key (lookup (job_id key) m.jobs) m

  -- `Start`; a created job's issuance runs on its own afterwards.
  unfoldable pub start : ℕ → Option Text → IssueRequest → Manager → Manager × Result Started
  unfolding start_domains
  start now io request m = start_domains now io request (normalize_domains idna request.domains) m

unfoldable pub close : Manager → Manager
close m = record m { closed = true }

-- `none` is a nil issuer.
unfoldable pub set_issuer : Option ℕ → Manager → Manager × Option Text
set_issuer none m = (m, some (txt "certificate issuer is required"))
set_issuer (some i) m =
    if m.closed
    then (m, some (txt "certificate manager is closed"))
    else (record m { issuer = i }, none)

abbrev pub shown : Option Job → Option Job
shown none = none
shown (some job) = some (public_job job)

unfoldable pub get : Text → Manager → Option Job
get id m = shown (lookup id m.jobs)

abbrev newer : Job → Job → Bool
newer a b = ltb b.created_at a.created_at

-- Newest first; jobs of one time come in no particular order.
unfoldable pub list : Manager → List Job
list m = sort newer (map public_job (values m.jobs))

-- A day in nanoseconds.
abbrev pub day : ℕ
day = 86400000000000

-- `now.Before(notAfter.Add(-days * 24h))`
unfoldable pub too_early : ℕ → ℕ → ℤ → Bool
too_early now not_after (pos days) = ltb (now + days * day) not_after
too_early now not_after (negsuc n) = ltb now (not_after + suc n * day)

unfoldable pub not_due : Bool → ℕ → Option ℕ → ℤ → Bool
not_due force now none days = false
not_due force now (some not_after) days = not force && too_early now not_after days

module _ (idna : Idna) (hash_hex : Text → Text) where
  renew_job : ℕ → Option Text → Text → Bool → Option Job → Manager → Manager × Result Started
  renew_job now io key force none m = (m, err (txt "certificate job not found"))
  renew_job now io key force (some current) m =
      if not (is_issued current.status)
      then (m, err (txt "only issued certificates can be renewed"))
      else if not_due force now current.not_after m.renew_before_days
      then (m, err (txt "certificate is not due for renewal"))
      else start idna hash_hex now io
          (record { domains = current.domains; idempotency_key = key; renewal_of = current.id }) m

  -- `Renew`; the clock is read once here, and again in `Start`.
  unfoldable pub renew : ℕ → Option Text → Text → Text → Bool → Manager → Manager × Result Started
  unfolding renew_job
  renew now io id key force m = renew_job now io key force (get id m) m

unfoldable pub read_file : Option CertFiles → Result Text
read_file none = err (txt "no such file or directory")
read_file (some files) = elim files.fullchain [
  | none ↦ err (txt "no such file or directory")
  | some pem ↦ ok pem
]

unfoldable pub pem_of : Option Job → Option CertFiles → Result Text
pem_of none files = err (txt "certificate is not available")
pem_of (some job) files =
    if is_issued job.status || is_revoked job.status
    then read_file files
    else err (txt "certificate is not available")

unfoldable pub certificate_pem : Text → Manager → Result Text
unfolding pem_of read_file
certificate_pem id m = pem_of (get id m) (lookup id m.certs)

unfoldable pub revoked_job : ℕ → Job → Job
revoked_job now job = record job {
  status = revoked;
  revoked_at = some now;
  updated_at = now;
  error = [];
}

-- The job at an id, which is Go's zero value where there is none.
abbrev pub zero_job : Job
zero_job = record {
  id = [];
  domains = [];
  status = other [];
  attempt = 0;
  max_attempts = pos 0;
  created_at = 0;
  updated_at = 0;
  not_before = none;
  not_after = none;
  error = [];
  renewal_of = [];
  revoked_at = none;
  idempotency_key = [];
}

abbrev pub job_or_zero : Option Job → Job
job_or_zero none = zero_job
job_or_zero (some job) = job

-- The last critical section of `Revoke`: the job that is then at the id is stored as revoked; the
-- answer is the job and the error of saving it.
unfoldable pub store_revoked : ℕ → Option Text → Text → Manager → Manager × Job × Option Text
unfolding revoked_job
store_revoked now io id m =
    let job = revoked_job now (job_or_zero (lookup id m.jobs)) in
    let (m', e) = save_locked io (record m { jobs = insert id job m.jobs }) in
    (m', public_job job, e)

-- What `Revoke` answers: an error, or a job with the error of saving it.
pub data Revoked : Type 0 where
  rejected : Text → Revoked
  answered : Job → Option Text → Revoked

-- `authority` is the error that the issuer's own revocation ends with.
unfoldable pub revoke_issued :
    ℕ → Option Text → Option Text → Text → Result Text → Manager → Manager × Revoked
revoke_issued now authority io id (err e) m = (m, rejected e)
revoke_issued now authority io id (ok pem) m = elim authority [
  | some e ↦ (m, rejected e)
  | none ↦ let (m', j, e) = store_revoked now io id m in (m', answered j e)
]

unfoldable pub revoke_job :
    ℕ → Option Text → Option Text → Text → Option Job → Manager → Manager × Revoked
revoke_job now authority io id none m = (m, rejected (txt "certificate job not found"))
revoke_job now authority io id (some job) m =
    if is_revoked job.status
    then (m, answered (public_job job) none)
    else if not (is_issued job.status)
    then (m, rejected (txt "only issued certificates can be revoked"))
    else revoke_issued now authority io id (certificate_pem id m) m

-- `Revoke`, when no other request changes the job meanwhile.
unfoldable pub revoke : ℕ → Option Text → Option Text → Text → Manager → Manager × Revoked
unfolding revoke_issued revoke_job
revoke now authority io id m = revoke_job now authority io id (lookup id m.jobs) m

read_all : Manager → List Text → Result (List Text)
read_all m [] = ok []
read_all m (id ∷ ids) = do
  pem ← read_file (lookup id m.certs)
  rest ← read_all m ids
  ok (pem ∷ rest)

unfoldable pub revoked_certificate_pems : Manager → Result (List Text)
unfolding read_all read_file
revoked_certificate_pems m =
    read_all m
      (sort text_lt (map (λ job. job.id) (filter (λ job. is_revoked job.status) (values m.jobs))))
