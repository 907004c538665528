-- ===== src/Certificates/Tests.antt =====
-- Runs of the model of internal/certificates/manager.go at concrete inputs.
use any_ns.Base.{
  ℕ, ◌+◌, ◌≡◌, ◌↔◌, refl, [], ◌∷◌, true, false, none, some, Text, txt, ◌==◌, if◌then◌else◌,
  trim_space, has_prefix, to_lower, trim_suffix, lower, ◌=t◌, split, join, trim_prefix, is_space,
  text_lt, trim_left, trim_right_by,
}
use any_ns.Base.Int.{pos}
use any_ns.Base.Result.{ok, err}
use any_ns.Base.Dict.{lookup, insert, erase, values}
use any_ns.Base.Sort.{insert_sorted, sort}
use any_ns.DnsName.{
  Idna, to_ascii, replace_dots, convert_labels, convert_label, label_to_ascii, join_checked,
}
use any_ns.DnsName.Ascii.{IsLookupForm, to_ascii-IsLookupForm}
use any_ns.Certificates.{
  revoked, pending, issued, failed, finalizing, IssueRequest, Job, IssueOutput, public_job,
  normalize_domains, collect_domains, normalize_domain,
}
use any_ns.Certificates.Manager.{
  revoke, revoke_job, revoke_issued, store_revoked, revoked_job, answered, get, pem_of, read_file,
  Manager, start, start_domains, start_with, new_job, create, put_job, job_id, certificate_pem,
  save_locked,
}
use any_ns.Certificates.Worker.{
  Attempt, Writes, store_answer, run, update, begin_job, issue_job, save_certificate, save_files,
  put_files, update_found, load, load_jobs, restored, any_in_flight, new_manager,
}
use any_ns.Certificates.Domains.{IsDomainSet, normalize_domains-IsDomainSet}
use any_ns.Certificates.Runs.{RunEnds, run-RunEnds}
use any_ns.Certificates.Restart.{after_restart, restart_keeps}
use any_ns.Certificates.Revocation.{RevokeEnds, revoke-RevokeEnds, revoke_twice}
use any_ns.Certificates.Steps.{System, starts, begins, stores, accepts, Steps, stop, step}
use any_ns.Certificates.Histories.{issued_is_readable}

abbrev plain : Idna
plain = ok

abbrev same_hash : Text → Text
same_hash key = key

abbrev empty : Manager
empty = record {
  max_attempts = pos 3;
  renew_before_days = pos 30;
  issuer = 0;
  jobs = [];
  closed = false;
  state = none;
  certs = [];
}

abbrev request : IssueRequest
request = record {
  domains = txt "b.hns" ∷ txt "*.A.hns." ∷ txt "b.hns" ∷ [];
  idempotency_key = txt " k ";
  renewal_of = [];
}

abbrev job : Job
job = record {
  id = txt "k";
  domains = txt "*.a.hns" ∷ txt "b.hns" ∷ [];
  status = pending;
  attempt = 0;
  max_attempts = pos 3;
  created_at = 5;
  updated_at = 5;
  not_before = none;
  not_after = none;
  error = [];
  renewal_of = [];
  revoked_at = none;
  idempotency_key = txt "k";
}

abbrev with_job : Manager
with_job = record empty { jobs = (txt "k", job) ∷ [] }

abbrev output : IssueOutput
output = record {
  certificate_pem = txt "C";
  private_key_pem = txt "P";
  not_before = 6;
  not_after = 90;
}

abbrev clean : Writes
clean = record { make_dir = none; fullchain = none; private_key = none }

-- The first attempt is refused by the issuer, the second one is not.
abbrev world : ℕ → Attempt
world n = record {
  begun_now = 6 + n;
  begun_io = none;
  reported = record { status = finalizing; now = 6 + n; io = some (txt "disk full") } ∷ [];
  answer = if n == 1 then err (txt "no") else ok output;
  writes = clean;
  now = 7 + n;
  io = none;
}

domains_test : normalize_domains plain (request.domains) ≡ ok (txt "*.a.hns" ∷ txt "b.hns" ∷ [])
unfolding normalize_domains collect_domains normalize_domain to_ascii replace_dots trim_space
    has_prefix to_lower trim_suffix lower ◌=t◌ convert_labels split convert_label label_to_ascii
    join_checked join trim_prefix insert_sorted sort is_space text_lt trim_left trim_right_by
domains_test = refl

normalize_domains-IsDomainSet_example :
    IsDomainSet plain request.domains (txt "*.a.hns" ∷ txt "b.hns" ∷ [])
normalize_domains-IsDomainSet_example =
    normalize_domains-IsDomainSet plain request.domains (txt "*.a.hns" ∷ txt "b.hns" ∷ [])
      domains_test

first_start : start plain same_hash 5 none request empty ≡ (
  record with_job { state = some (record job { idempotency_key = [] } ∷ []) },
  ok (record { job = record job { idempotency_key = [] }; created = true }),
)
unfolding start start_domains start_with new_job create put_job save_locked public_job insert lookup
    erase values job_id normalize_domains collect_domains normalize_domain to_ascii replace_dots
    trim_space has_prefix to_lower trim_suffix lower ◌=t◌ convert_labels split convert_label
    label_to_ascii join_checked join trim_prefix insert_sorted sort is_space text_lt trim_left
    trim_right_by
first_start = refl

job_there : lookup (txt "k") with_job.jobs ≡ some job
unfolding lookup ◌=t◌
job_there = refl

run-RunEnds_example : RunEnds world 1 (3 + 1) (txt "k") (run world (txt "k") with_job)
run-RunEnds_example = run-RunEnds world (txt "k") with_job 2 job refl job_there

abbrev on_disk : Manager
on_disk = record empty { state = some (record job { idempotency_key = [] } ∷ []); closed = true }

abbrev restarted : Manager
restarted = record empty {
  jobs =
      (
        txt "k",
        record job {
          status = failed;
          error = txt "issuance interrupted by process restart; submit a new idempotency key";
          updated_at = 20;
          idempotency_key = [];
        },
      )
      ∷ [];
  state = some (
      record job {
        status = failed;
        error = txt "issuance interrupted by process restart; submit a new idempotency key";
        updated_at = 20;
        idempotency_key = [];
      }
      ∷ []);
}

restart_test : new_manager 20 (some 0) none none none on_disk ≡ ok restarted
unfolding new_manager load load_jobs restored any_in_flight save_locked insert values public_job
    insert_sorted sort
restart_test = refl

saved_test : on_disk.state ≡ (save_locked none with_job).0.state
unfolding save_locked values public_job insert_sorted sort
saved_test = refl

restart_keeps_example :
    lookup (txt "k") restarted.jobs ≡ after_restart 20 (lookup (txt "k") with_job.jobs)
restart_keeps_example =
    restart_keeps 20 0 none with_job on_disk restarted (txt "k") (refl, unfold lookup in refl, tt)
      saved_test restart_test

to_ascii_test : to_ascii plain (txt " A.hns. ") ≡ ok (txt "a.hns.")
unfolding to_ascii replace_dots trim_space to_lower trim_suffix lower ◌=t◌ convert_labels split
    convert_label label_to_ascii join_checked join is_space trim_left trim_right_by
to_ascii_test = refl

to_ascii-IsLookupForm_example :
    (to_ascii plain (txt " A.hns. ") ≡ ok (txt "a.hns."))
    ↔ IsLookupForm plain (replace_dots (trim_space (txt " A.hns. "))) (txt "a.hns.")
to_ascii-IsLookupForm_example = to_ascii-IsLookupForm plain (txt " A.hns. ") (txt "a.hns.")

abbrev started : Manager
started = (start plain same_hash 5 none request empty).0

abbrev begun : Manager
begun = update 6 none (txt "k") (begin_job 1) started

abbrev stored : Manager
stored = (save_certificate clean (txt "k") output begun).0

abbrev finished : Manager
finished = update 7 none (txt "k") (issue_job output) stored

abbrev finished_job : Job
finished_job = record job {
  status = issued;
  attempt = 1;
  updated_at = 7;
  not_before = some 6;
  not_after = some 90;
}

finished_there : lookup (txt "k") finished.jobs ≡ some finished_job
unfolding save_certificate save_files put_files update update_found start start_domains start_with
    new_job create put_job save_locked public_job insert lookup erase values job_id begin_job
    issue_job normalize_domains collect_domains normalize_domain to_ascii replace_dots trim_space
    has_prefix to_lower trim_suffix lower ◌=t◌ convert_labels split convert_label label_to_ascii
    join_checked join trim_prefix insert_sorted sort is_space text_lt trim_left trim_right_by
finished_there = refl

abbrev idle : System
idle = record { manager = empty; results = []; checked = [] }

abbrev told : System
told = record idle { manager = begun; results = erase (txt "k") [] }

abbrev kept : System
kept = record {
  manager = (store_answer (ok output) clean (txt "k") begun).0;
  results = insert (txt "k") (store_answer (ok output) clean (txt "k") begun).1 told.results;
  checked = [];
}

abbrev over : System
over = record kept { manager = update 7 none (txt "k") (issue_job output) kept.manager }

kept_result : lookup (txt "k") kept.results ≡ some (ok output)
unfolding store_answer save_certificate save_files lookup insert erase ◌=t◌
kept_result = refl

history : Steps plain same_hash idle over
history =
    step idle (record idle { manager = started }) over (starts 5 none request)
      (step (record idle { manager = started }) told over (begins 6 none (txt "k") 1)
        (step told kept over (stores (ok output) clean (txt "k"))
          (step kept over over (accepts 7 none (txt "k") output kept_result) (stop over))))

over_there : lookup (txt "k") over.manager.jobs ≡ some finished_job
unfolding store_answer save_certificate
over_there = finished_there

issued_is_readable_example : (pem : Text) × (certificate_pem (txt "k") over.manager ≡ ok pem)
issued_is_readable_example =
    issued_is_readable plain same_hash idle over (txt "k") finished_job refl refl refl history
      over_there refl

revoke-RevokeEnds_example :
    let r = revoke 50 none none (txt "k") finished in
    RevokeEnds 50 none none (txt "k") finished r.0 r.1
revoke-RevokeEnds_example = revoke-RevokeEnds 50 none none (txt "k") finished

abbrev withdrawn : Manager
withdrawn = (revoke 50 none (some (txt "disk full")) (txt "k") finished).0

abbrev withdrawn_job : Job
withdrawn_job = record finished_job {
  status = revoked;
  revoked_at = some 50;
  updated_at = 50;
  idempotency_key = [];
}

revoke_test :
    revoke 50 none (some (txt "disk full")) (txt "k") finished
    ≡ (withdrawn, answered withdrawn_job (some (txt "disk full")))
unfolding revoke revoke_job revoke_issued store_revoked revoked_job certificate_pem get pem_of
    read_file save_certificate save_files put_files update update_found start start_domains
    start_with new_job create put_job save_locked public_job insert lookup erase values job_id
    begin_job issue_job normalize_domains collect_domains normalize_domain to_ascii replace_dots
    trim_space has_prefix to_lower trim_suffix lower ◌=t◌ convert_labels split convert_label
    label_to_ascii join_checked join trim_prefix insert_sorted sort is_space text_lt trim_left
    trim_right_by
revoke_test = refl

revoke_twice_example :
    revoke 60 (some (txt "unreachable")) none (txt "k") withdrawn
    ≡ (withdrawn, answered withdrawn_job none)
revoke_twice_example =
    revoke_twice 50 60 none (some (txt "unreachable")) (some (txt "disk full")) none (txt "k")
      finished withdrawn withdrawn_job (some (txt "disk full")) revoke_test
