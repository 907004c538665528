-- ===== src/Certificates/Issuance.antt =====
-- How one attempt of `run` in internal/certificates/manager.go ends.
use any_ns.Base.{
  ℕ, ◌≡◌, refl, sym, ap, ◌∙◌, List, [], ◌∷◌, Bool, true, false, Option, none, some, Text,
  if◌then◌else◌,
}
use mathlib.Core.Path.{subst}
use any_ns.Base.Result.{Result, ok, err, ok-injective}
use any_ns.Base.Dict.{lookup}
use any_ns.Certificates.{
  Status, pending, validating, finalizing, issued, failed, revoked, other, Job, IssueOutput,
  sanitized_error,
}
use any_ns.Certificates.Manager.{Manager}
use any_ns.Certificates.Worker.{
  touched, finalizing_job, update, Writes, save_certificate, Attempt, Report, report_one, report,
  begin_job, issue_job, fail_job, stored_as, store_answer, conclude, try_once,
}
use any_ns.Certificates.Updates.{
  lookup-update_self, certs-update, write_error, stored_or, outcome_of, outcome,
  jobs-save_certificate, error-save_certificate, fullchain-save_certificate,
}

-- The job at an id, with the number of its attempt.
record At (id : Text) (attempt : ℕ) (m : Manager) : Type 0 where
  job : Job
  found : lookup id m.jobs ≡ some job
  attempts : job.attempt ≡ attempt

report_one-At :
    (status : Status) (now : ℕ) (io : Option Text) (id : Text) (n : ℕ) (m : Manager)
    → At id n m
    → At id n (report_one status now io id m)
unfolding report_one
report_one-At finalizing now io id n m h = record {
  job = touched now (record h.job { status = finalizing });
  found = lookup-update_self now io id finalizing_job m h.job h.found;
  attempts = h.attempts;
}
report_one-At pending now io id n m h = h
report_one-At validating now io id n m h = h
report_one-At issued now io id n m h = h
report_one-At failed now io id n m h = h
report_one-At revoked now io id n m h = h
report_one-At (other s) now io id n m h = h

report-At :
    (id : Text) (rs : List Report) (n : ℕ) (m : Manager) → At id n m → At id n (report id rs m)
unfolding report
report-At id [] n m h = h
report-At id (r ∷ rs) n m h =
    report-At id rs n (report_one r.status r.now r.io id m)
      (report_one-At r.status r.now r.io id n m h)

-- The certificate of `output` lies in its directory.
abbrev pub HasFiles : Text → IssueOutput → Manager → Type 0
HasFiles id output m =
    lookup id m.certs
    ≡ some (record {
      fullchain = some output.certificate_pem;
      private_key = some output.private_key_pem;
    })

-- What `store_answer` does: the jobs stay, the result is the attempt's outcome, and a
-- certificate that is accepted lies in its directory.
pub record StoredAs (r : Result IssueOutput) (w : Writes) (id : Text) (m : Manager) : Type 0 where
  pub jobs : (store_answer r w id m).0.jobs ≡ m.jobs
  pub result : (store_answer r w id m).1 ≡ outcome_of r (write_error w)
  pub files :
      (output : IssueOutput)
      → (store_answer r w id m).1 ≡ ok output
      → HasFiles id output (store_answer r w id m).0

pub jobs-stored_as :
    (output : IssueOutput) (s : Manager × Option Text) → (stored_as output s).0 ≡ s.0
jobs-stored_as output (m, none) = refl
jobs-stored_as output (m, some e) = refl

result-stored_as :
    (output : IssueOutput) (s : Manager × Option Text)
    → (stored_as output s).1 ≡ stored_or s.1 output
result-stored_as output (m, none) = refl
result-stored_as output (m, some e) = refl

accepted :
    (output got : IssueOutput) (w : Option Text)
    → stored_or w output ≡ ok got
    → (w ≡ none) × (output ≡ got)
accepted output got none h = (refl, ok-injective h)
accepted output got (some e) h = absurd (cc)

pub store_answer-StoredAs :
    (r : Result IssueOutput) (w : Writes) (id : Text) (m : Manager) → StoredAs r w id m
unfolding store_answer
store_answer-StoredAs (err e) w id m = record {
  jobs = refl;
  result = refl;
  files = λ output h. absurd (cc);
}
store_answer-StoredAs (ok output) w id m =
    let saved = save_certificate w id output m in
    record {
      jobs = ap (λ x. x.jobs) (jobs-stored_as output saved) ∙ jobs-save_certificate w id output m;
      result =
          result-stored_as output saved
          ∙ ap (λ e. stored_or e output) (error-save_certificate w id output m);
      files = λ got h.
          let (clean, same) =
            accepted output got saved.1 (sym (result-stored_as output saved) ∙ h) in
          subst (λ o. HasFiles id o (stored_as output saved).0) same
            (ap (λ x. lookup id x.certs) (jobs-stored_as output saved)
              ∙ fullchain-save_certificate w id output m
                  (sym (error-save_certificate w id output m) ∙ clean));
    }

-- How one attempt ends for the job at `id`.
pub data TryEnds (a : Attempt) (n : ℕ) (last : Bool) (id : Text) (r : Manager × Bool) : Type 0 where
  issues :
      (output : IssueOutput) (job : Job)
      → outcome a ≡ ok output
      → r.1 ≡ true
      → lookup id r.0.jobs ≡ some job
      → job.status ≡ issued
      → job.attempt ≡ n
      → job.not_after ≡ some output.not_after
      → job.error ≡ []
      → HasFiles id output r.0
      → TryEnds a n last id r
  fails :
      (e : Text) (job : Job)
      → outcome a ≡ err e
      → r.1 ≡ false
      → lookup id r.0.jobs ≡ some job
      → job.status ≡ (if last then failed else pending)
      → job.attempt ≡ n
      → job.error ≡ sanitized_error e
      → TryEnds a n last id r

conclude-TryEnds :
    (a : Attempt) (n : ℕ) (last : Bool) (id : Text) (m : Manager) (r : Result IssueOutput)
    → At id n m
    → outcome a ≡ r
    → ((output : IssueOutput) → r ≡ ok output → HasFiles id output m)
    → TryEnds a n last id (conclude a last id m r)
unfolding conclude issue_job fail_job
conclude-TryEnds a n last id m (ok output) h o files =
    issues output (touched a.now (issue_job output h.job)) o refl
      (lookup-update_self a.now a.io id (issue_job output) m h.job h.found) refl h.attempts refl
      refl (ap (lookup id) (certs-update a.now a.io id (issue_job output) m) ∙ files output refl)
conclude-TryEnds a n last id m (err e) h o files =
    fails e (touched a.now (fail_job last e h.job)) o refl
      (lookup-update_self a.now a.io id (fail_job last e) m h.job h.found) refl h.attempts refl

outcome_lem : (a : Attempt) → outcome_of a.answer (write_error a.writes) ≡ outcome a
unfolding outcome
outcome_lem a = refl

pub try_once-TryEnds :
    (a : Attempt) (n : ℕ) (last : Bool) (id : Text) (m : Manager) (job : Job)
    → lookup id m.jobs ≡ some job
    → TryEnds a n last id (try_once a n last id m)
unfolding try_once
try_once-TryEnds a n last id m job h =
    let begun = update a.begun_now a.begun_io id (begin_job n) m in
    let told = report id a.reported begun in
    let b : At id n begun = record {
      job = touched a.begun_now (begin_job n job);
      found = lookup-update_self a.begun_now a.begun_io id (begin_job n) m job h;
      attempts = unfold begin_job in refl;
    } in
    let t = report-At id a.reported n begun b in
    let s = store_answer-StoredAs a.answer a.writes id told in
    let stored = (store_answer a.answer a.writes id told).0 in
    conclude-TryEnds a n last id stored (store_answer a.answer a.writes id told).1
      (record { job = t.job; found = ap (lookup id) s.jobs ∙ t.found; attempts = t.attempts })
      (sym (s.result ∙ outcome_lem a)) (λ output e. s.files output e)
