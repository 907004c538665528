-- ===== src/Certificates/Worker.antt =====
-- The issuance of one job in internal/certificates/manager.go, and the load of the state file.
use any_ns.Base.{
  ℕ, zero, suc, ◌+◌, List, [], ◌∷◌, Bool, true, false, ◌||◌, Option, none, some, Text, txt, ◌==◌,
  if◌then◌else◌,
}
use any_ns.Base.Int.{to_ℕ}
use any_ns.Base.Result.{Result, ok, err}
use any_ns.Base.Dict.{Dict, lookup, insert}
use any_ns.Certificates.{
  Status, pending, validating, finalizing, issued, failed, in_flight, Job, IssueOutput,
  sanitized_error,
}
use any_ns.Certificates.Manager.{Manager, CertFiles, save_locked}

abbrev pub touched : ℕ → Job → Job
touched now job = record job { updated_at = now }

unfoldable pub update_found : Option Job → ℕ → Option Text → Text → (Job → Job) → Manager → Manager
update_found none now io id mutate m = m
update_found (some job) now io id mutate m =
    (save_locked io (record m { jobs = insert id (touched now (mutate job)) m.jobs })).0

-- `update`: a change of one job, saved as far as the state file can be written.
unfoldable pub update : ℕ → Option Text → Text → (Job → Job) → Manager → Manager
update now io id mutate m = update_found (lookup id m.jobs) now io id mutate m

-- What the operating system answers when a certificate is stored: each of the three calls may end
-- with an error, and a file that could not be replaced stays.
pub record Writes : Type 0 where
  pub make_dir : Option Text
  pub fullchain : Option Text
  pub private_key : Option Text

abbrev pub no_files : CertFiles
no_files = record { fullchain = none; private_key = none }

abbrev pub files_at : Text → Manager → CertFiles
files_at id m = elim (lookup id m.certs) [ none ↦ no_files | some files ↦ files ]

unfoldable pub put_files : Text → CertFiles → Manager → Manager
put_files id files m = record m { certs = insert id files m.certs }

abbrev pub with_chain : Text → IssueOutput → Manager → CertFiles
with_chain id output m = record (files_at id m) { fullchain = some output.certificate_pem }

-- The directory, the chain and the key, in this order, until one fails.
unfoldable pub save_files :
    Option Text → Option Text → Option Text → Text → IssueOutput → Manager → Manager × Option Text
save_files (some e) chain key id output m = (m, some e)
save_files none (some e) key id output m = (m, some e)
save_files none none (some e) id output m = (put_files id (with_chain id output m) m, some e)
save_files none none none id output m = (
  put_files id (record (with_chain id output m) { private_key = some output.private_key_pem }) m,
  none,
)

unfoldable pub save_certificate : Writes → Text → IssueOutput → Manager → Manager × Option Text
unfolding save_files
save_certificate w id output m = save_files w.make_dir w.fullchain w.private_key id output m

-- A status that the issuer reports, with the clock and the state file's write at its update.
pub record Report : Type 0 where
  pub status : Status
  pub now : ℕ
  pub io : Option Text

-- What one attempt meets: the clock and the state file's write at its start, the statuses that the
-- issuer reports, how it ends, how the files are written, and the clock and the state file's write
-- at its end.
pub record Attempt : Type 0 where
  pub begun_now : ℕ
  pub begun_io : Option Text
  pub reported : List Report
  pub answer : Result IssueOutput
  pub writes : Writes
  pub now : ℕ
  pub io : Option Text

abbrev pub finalizing_job : Job → Job
finalizing_job job = record job { status = finalizing }

-- The issuer's callback: only `finalizing` is taken over.
unfoldable pub report_one : Status → ℕ → Option Text → Text → Manager → Manager
report_one finalizing now io id m = update now io id finalizing_job m
report_one _ now io id m = m

unfoldable pub report : Text → List Report → Manager → Manager
report id [] m = m
report id (r ∷ rest) m = report id rest (report_one r.status r.now r.io id m)

unfoldable pub begin_job : ℕ → Job → Job
begin_job attempt job = record job { attempt = attempt; status = validating; error = [] }

unfoldable pub issue_job : IssueOutput → Job → Job
issue_job output job = record job {
  status = issued;
  not_before = some output.not_before;
  not_after = some output.not_after;
  error = [];
}

unfoldable pub fail_job : Bool → Text → Job → Job
fail_job last e job = record job {
  error = sanitized_error e;
  status = if last then failed else pending;
}

abbrev pub stored_as : IssueOutput → Manager × Option Text → Manager × Result IssueOutput
stored_as output (m, none) = (m, ok output)
stored_as output (m, some e) = (m, err e)

-- After the issuer returned: the certificate is stored if there is one.
unfoldable pub store_answer :
    Result IssueOutput → Writes → Text → Manager → Manager × Result IssueOutput
store_answer (err e) w id m = (m, err e)
store_answer (ok output) w id m = stored_as output (save_certificate w id output m)

-- The end of an attempt; `true` says that the certificate is issued and the loop returns.
unfoldable pub conclude : Attempt → Bool → Text → Manager → Result IssueOutput → Manager × Bool
conclude a last id m (ok output) = (update a.now a.io id (issue_job output) m, true)
conclude a last id m (err e) = (update a.now a.io id (fail_job last e) m, false)

unfoldable pub try_once : Attempt → ℕ → Bool → Text → Manager → Manager × Bool
try_once a attempt last id m =
    let begun = update a.begun_now a.begun_io id (begin_job attempt) m in
    let told = report id a.reported begun in
    let (stored, result) = store_answer a.answer a.writes id told in
    conclude a last id stored result

-- The loop of `run`: attempts from `attempt` on while some are left.
unfoldable pub run_from : ℕ → ℕ → (ℕ → Attempt) → Text → Manager → Manager
run_from zero attempt world id m = m
run_from (suc left) attempt world id m =
    let (m', finished) = try_once (world attempt) attempt (left == 0) id m in
    let rest = run_from left (attempt + 1) world id m' in if finished then m' else rest

-- The whole issuance, `world n` being what attempt `n` meets.
unfoldable pub run : (ℕ → Attempt) → Text → Manager → Manager
run world id m = run_from (to_ℕ m.max_attempts) 1 world id m

-- `load`: jobs of an earlier process that were not finished are failed.
unfoldable pub restored : ℕ → Job → Job
restored now job =
    if in_flight job.status
    then record job {
      status = failed;
      error = txt "issuance interrupted by process restart; submit a new idempotency key";
      updated_at = now;
    }
    else job

unfoldable pub load_jobs : ℕ → List Job → Dict Job → Dict Job
load_jobs now [] jobs = jobs
load_jobs now (job ∷ rest) jobs = load_jobs now rest (insert job.id (restored now job) jobs)

unfoldable pub any_in_flight : List Job → Bool
any_in_flight [] = false
any_in_flight (job ∷ rest) = in_flight job.status || any_in_flight rest

load_read : ℕ → Option Text → List Job → Manager → Manager × Option Text
load_read now io jobs m =
    let m' = record m { jobs = load_jobs now jobs m.jobs } in
    if any_in_flight jobs then save_locked io m' else (m', none)

load_state : ℕ → Option Text → Option Text → Option (List Job) → Manager → Manager × Option Text
load_state now unread io none m = (m, none)
load_state now none io (some jobs) m = load_read now io jobs m
load_state now (some e) io (some jobs) m = (m, some e)

-- `unread` is the error of reading or decoding a state file that is there.
unfoldable pub load : ℕ → Option Text → Option Text → Manager → Manager × Option Text
unfolding load_read load_state
load now unread io m = load_state now unread io m.state m

abbrev pub loaded : Manager × Option Text → Result Manager
loaded (m, none) = ok m
loaded (m, some e) = err e

-- `NewManager`: `disk` is a manager's configuration and files, `make_dir` the error of creating the
-- directory.
unfoldable pub new_manager :
    ℕ → Option ℕ → Option Text → Option Text → Option Text → Manager → Result Manager
new_manager now none make_dir unread io disk = err (txt "certificate issuer is required")
new_manager now (some i) (some e) unread io disk = err e
new_manager now (some i) none unread io disk =
    loaded (load now unread io (record disk { issuer = i; jobs = []; closed = false }))
