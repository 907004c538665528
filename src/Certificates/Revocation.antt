-- ===== src/Certificates/Revocation.antt =====
-- What `Revoke` of internal/certificates/manager.go comes to.
use any_ns.Base.{
  ℕ, ◌≡◌, refl, sym, ap, ◌∙◌, true, Option, none, some, Text, txt, ◌=t◌, =t_iff, if◌then◌else◌,
  Bool-cases, inl, inr,
}
use mathlib.Core.Path.{subst}
use any_ns.Base.Result.{Result, ok, err}
use any_ns.Base.Dict.{lookup, lookup-insert}
use any_ns.Certificates.{Job, public_job, is_issued, is_revoked}
use any_ns.Certificates.Manager.{
  Manager, save_locked, revoked_job, job_or_zero, store_revoked, Revoked, rejected, answered,
  revoke_issued, revoke_job, revoke, certificate_pem,
}
use any_ns.Certificates.Updates.{jobs-save_locked, certs-save_locked}

error-save_locked : (io : Option Text) (m : Manager) → (save_locked io m).1 ≡ io
unfolding save_locked
error-save_locked none m = refl
error-save_locked (some e) m = refl

-- The ways in which a revocation of `id` at a time ends.
pub data RevokeEnds (now : ℕ) (authority io : Option Text) (id : Text) (m m' : Manager)
    (r : Revoked) : Type 0 where
  rejects : (e : Text) → r ≡ rejected e → m' ≡ m → RevokeEnds now authority io id m m' r
  was_revoked :
      (job : Job)
      → lookup id m.jobs ≡ some job
      → is_revoked job.status ≡ true
      → r ≡ answered (public_job job) none
      → m' ≡ m
      → RevokeEnds now authority io id m m' r
  revokes :
      (job : Job) (pem : Text)
      → lookup id m.jobs ≡ some job
      → is_issued job.status ≡ true
      → certificate_pem id m ≡ ok pem
      → authority ≡ none
      → r ≡ answered (public_job (revoked_job now job)) io
      → ((j : Text)
          → lookup j m'.jobs ≡ (if id =t j then some (revoked_job now job) else lookup j m.jobs))
      → m'.certs ≡ m.certs
      → RevokeEnds now authority io id m m' r

revoke_issued-RevokeEnds :
    (now : ℕ) (authority io : Option Text) (id : Text) (job : Job) (pem : Result Text) (m : Manager)
    → lookup id m.jobs ≡ some job
    → is_issued job.status ≡ true
    → certificate_pem id m ≡ pem
    → let r = revoke_issued now authority io id pem m in RevokeEnds now authority io id m r.0 r.1
unfolding revoke_issued store_revoked
revoke_issued-RevokeEnds now authority io id job (err e) m h i p = rejects e refl refl
revoke_issued-RevokeEnds now (some e) io id job (ok pem) m h i p = rejects e refl refl
revoke_issued-RevokeEnds now none io id job (ok pem) m h i p =
    let there : job_or_zero (lookup id m.jobs) ≡ job = ap job_or_zero h in
    let stored = revoked_job now (job_or_zero (lookup id m.jobs)) in
    revokes job pem h i p refl
      (ap (answered (public_job stored)) (error-save_locked io _)
        ∙ ap (λ x. answered (public_job (revoked_job now x)) io) there)
      (λ j.
        ap (lookup j) (jobs-save_locked io _)
        ∙ lookup-insert id j stored m.jobs
        ∙ ap (λ x. if id =t j then some (revoked_job now x) else lookup j m.jobs) there)
      (certs-save_locked io _)

revoke_job-RevokeEnds :
    (now : ℕ) (authority io : Option Text) (id : Text) (found : Option Job) (m : Manager)
    → lookup id m.jobs ≡ found
    → let r = revoke_job now authority io id found m in RevokeEnds now authority io id m r.0 r.1
unfolding revoke_job
revoke_job-RevokeEnds now authority io id none m h =
    rejects (txt "certificate job not found") refl refl
revoke_job-RevokeEnds now authority io id (some job) m h =
    elim (Bool-cases (is_revoked job.status)) [
      | inl gone ↦ rw gone (was_revoked job h gone refl refl)
      | inr there ↦ elim (Bool-cases (is_issued job.status)) [
        | inr never ↦
            rw (there, never) (rejects (txt "only issued certificates can be revoked") refl refl)
        | inl has ↦
            rw (there, has)
              (revoke_issued-RevokeEnds now authority io id job (certificate_pem id m) m h has refl)
      ]
    ]

-- A revocation ends in one of three ways. It is rejected with an error and nothing changes; or the
-- job was revoked before, is answered again without its key, and nothing changes; or the job is
-- issued, its certificate can be read and the authority accepts the revocation, and then the job
-- is stored as revoked at this time while every other job and all certificate files stay, and the
-- answer is that job without its key together with the error of saving the state, if there was
-- one.
pub revoke-RevokeEnds :
    (now : ℕ) (authority io : Option Text) (id : Text) (m : Manager)
    → let r = revoke now authority io id m in RevokeEnds now authority io id m r.0 r.1
unfolding revoke
revoke-RevokeEnds now authority io id m =
    revoke_job-RevokeEnds now authority io id (lookup id m.jobs) m refl

revoke_revoked :
    (now : ℕ) (authority io : Option Text) (id : Text) (m : Manager) (job : Job)
    → lookup id m.jobs ≡ some job
    → is_revoked job.status ≡ true
    → revoke now authority io id m ≡ (m, answered (public_job job) none)
unfolding revoke revoke_job
revoke_revoked now authority io id m job h gone =
    ap (λ o. revoke_job now authority io id o m) h ∙ unfold revoke_job in rw gone

answered-injective : {j k : Job} {e f : Option Text} → answered j e ≡ answered k f → j ≡ k
answered-injective h = cc

-- Revoking again changes nothing. When a revocation was answered with a job, even if the state could
-- not be saved then, revoking the same job in the manager that it left, at any time and whatever the
-- authority would answer, leaves that manager as it is and is answered with the same job and no
-- error.
pub revoke_twice :
    (now now' : ℕ) (authority authority' io io' : Option Text) (id : Text) (m m' : Manager)
    (job : Job) (e : Option Text)
    → revoke now authority io id m ≡ (m', answered job e)
    → revoke now' authority' io' id m' ≡ (m', answered job none)
revoke_twice now now' authority authority' io io' id m m' job e h = again (
    subst (λ r. RevokeEnds now authority io id m r.0 r.1) h
      (revoke-RevokeEnds now authority io id m))
  where
    again :
        RevokeEnds now authority io id m m' (answered job e)
        → revoke now' authority' io' id m' ≡ (m', answered job none)
    again (rejects e r back) = absurd (cc)
    again (was_revoked x found gone r back) =
        revoke_revoked now' authority' io' id m' x (ap (λ y. lookup id y.jobs) back ∙ found) gone
        ∙ ap (λ y. (m', answered y none)) (sym (answered-injective r))
    again (revokes x pem found i p a r jobs certs) =
        revoke_revoked now' authority' io' id m' (revoked_job now x)
          (jobs id ∙ rw ((=t_iff id id).1 refl)) (unfold revoked_job in refl)
        ∙ ap (λ y. (m', answered y none)) (sym (answered-injective r))
