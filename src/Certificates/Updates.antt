-- ===== src/Certificates/Updates.antt =====
-- What one update of a job and one write of its certificate do, in
-- internal/certificates/manager.go.
use any_ns.Base.{
  ℕ, ◌≡◌, refl, sym, ap, ◌∙◌, false, Option, none, some, Text, ◌=t◌, =t_iff, if◌then◌else◌,
  Bool-cases, inl, inr,
}
use any_ns.Base.Result.{Result, ok, err}
use any_ns.Base.Dict.{lookup, lookup-insert}
use any_ns.Certificates.{Job, IssueOutput}
use any_ns.Certificates.Manager.{Manager, save_locked}
use any_ns.Certificates.Worker.{
  touched, update_found, update, put_files, Writes, save_files, save_certificate, Attempt,
}

pub jobs-save_locked : (io : Option Text) (m : Manager) → (save_locked io m).0.jobs ≡ m.jobs
unfolding save_locked
jobs-save_locked none m = refl
jobs-save_locked (some e) m = refl

pub certs-save_locked : (io : Option Text) (m : Manager) → (save_locked io m).0.certs ≡ m.certs
unfolding save_locked
certs-save_locked none m = refl
certs-save_locked (some e) m = refl

lookup-update_found :
    (found : Option Job) (now : ℕ) (io : Option Text) (id : Text) (f : Job → Job) (m : Manager)
    (job : Job)
    → found ≡ some job
    → lookup id (update_found found now io id f m).jobs ≡ some (touched now (f job))
unfolding update_found
lookup-update_found none now io id f m job h = cc
lookup-update_found (some x) now io id f m job h =
    ap (lookup id) (jobs-save_locked io _)
    ∙ lookup-insert id id (touched now (f x)) m.jobs
    ∙ rw ((=t_iff id id).1 refl) (ap (λ o. some (touched now (f o))) {x = x} {y = job} (cc))

-- An update changes the job at its id.
pub lookup-update_self :
    (now : ℕ) (io : Option Text) (id : Text) (f : Job → Job) (m : Manager) (job : Job)
    → lookup id m.jobs ≡ some job
    → lookup id (update now io id f m).jobs ≡ some (touched now (f job))
unfolding update
lookup-update_self now io id f m job h = lookup-update_found (lookup id m.jobs) now io id f m job h

lookup-update_found_ne :
    (found : Option Job) (now : ℕ) (io : Option Text) (id : Text) (f : Job → Job) (m : Manager)
    (j : Text)
    → (id =t j) ≡ false
    → lookup j (update_found found now io id f m).jobs ≡ lookup j m.jobs
unfolding update_found
lookup-update_found_ne none now io id f m j h = refl
lookup-update_found_ne (some x) now io id f m j h =
    ap (lookup j) (jobs-save_locked io _) ∙ lookup-insert id j (touched now (f x)) m.jobs ∙ rw h

-- An update leaves every other job alone.
pub lookup-update_ne :
    (now : ℕ) (io : Option Text) (id : Text) (f : Job → Job) (m : Manager) (j : Text)
    → (id =t j) ≡ false
    → lookup j (update now io id f m).jobs ≡ lookup j m.jobs
unfolding update
lookup-update_ne now io id f m j h = lookup-update_found_ne (lookup id m.jobs) now io id f m j h

pub lookup-update :
    (now : ℕ) (io : Option Text) (id : Text) (f : Job → Job) (m : Manager) (job : Job)
    → lookup id m.jobs ≡ some job
    → (j : Text)
    → lookup j (update now io id f m).jobs
      ≡ (if id =t j then some (touched now (f job)) else lookup j m.jobs)
lookup-update now io id f m job h j = elim (Bool-cases (id =t j)) [
  | inl same ↦
      ap (λ i. lookup i (update now io id f m).jobs) (sym ((=t_iff id j).0 same))
      ∙ lookup-update_self now io id f m job h
      ∙ rw same
  | inr apart ↦ lookup-update_ne now io id f m j apart ∙ rw apart
]

-- Nothing happens to a job that is not there.
pub update_missing :
    (now : ℕ) (io : Option Text) (id : Text) (f : Job → Job) (m : Manager)
    → lookup id m.jobs ≡ none
    → update now io id f m ≡ m
unfolding update update_found
update_missing now io id f m h = simp h refl

certs-update_found :
    (found : Option Job) (now : ℕ) (io : Option Text) (id : Text) (f : Job → Job) (m : Manager)
    → (update_found found now io id f m).certs ≡ m.certs
unfolding update_found
certs-update_found none now io id f m = refl
certs-update_found (some x) now io id f m = certs-save_locked io _

pub certs-update :
    (now : ℕ) (io : Option Text) (id : Text) (f : Job → Job) (m : Manager)
    → (update now io id f m).certs ≡ m.certs
unfolding update
certs-update now io id f m = certs-update_found (lookup id m.jobs) now io id f m

-- What an attempt comes to: the issuer's answer, or the error of storing the certificate.
abbrev pub first_error : Option Text → Option Text → Option Text → Option Text
first_error (some e) f k = some e
first_error none (some e) k = some e
first_error none none k = k

unfoldable pub write_error : Writes → Option Text
write_error w = first_error w.make_dir w.fullchain w.private_key

abbrev pub stored_or : Option Text → IssueOutput → Result IssueOutput
stored_or none output = ok output
stored_or (some e) output = err e

abbrev pub outcome_of : Result IssueOutput → Option Text → Result IssueOutput
outcome_of (err e) w = err e
outcome_of (ok output) w = stored_or w output

unfoldable pub outcome : Attempt → Result IssueOutput
unfolding write_error
outcome a = outcome_of a.answer (write_error a.writes)

jobs-save_files :
    (d f k : Option Text) (id : Text) (output : IssueOutput) (m : Manager)
    → (save_files d f k id output m).0.jobs ≡ m.jobs
unfolding save_files put_files
jobs-save_files (some e) f k id output m = refl
jobs-save_files none (some e) k id output m = refl
jobs-save_files none none (some e) id output m = refl
jobs-save_files none none none id output m = refl

pub jobs-save_certificate :
    (w : Writes) (id : Text) (output : IssueOutput) (m : Manager)
    → (save_certificate w id output m).0.jobs ≡ m.jobs
unfolding save_certificate
jobs-save_certificate w id output m =
    jobs-save_files w.make_dir w.fullchain w.private_key id output m

error-save_files :
    (d f k : Option Text) (id : Text) (output : IssueOutput) (m : Manager)
    → (save_files d f k id output m).1 ≡ first_error d f k
unfolding save_files
error-save_files (some e) f k id output m = refl
error-save_files none (some e) k id output m = refl
error-save_files none none (some e) id output m = refl
error-save_files none none none id output m = refl

pub error-save_certificate :
    (w : Writes) (id : Text) (output : IssueOutput) (m : Manager)
    → (save_certificate w id output m).1 ≡ write_error w
unfolding save_certificate write_error
error-save_certificate w id output m =
    error-save_files w.make_dir w.fullchain w.private_key id output m

certs-save_files :
    (d f k : Option Text) (id : Text) (output : IssueOutput) (m : Manager)
    → first_error d f k ≡ none
    → lookup id (save_files d f k id output m).0.certs
      ≡ some (record {
        fullchain = some output.certificate_pem;
        private_key = some output.private_key_pem;
      })
unfolding save_files put_files
certs-save_files (some e) f k id output m h = cc
certs-save_files none (some e) k id output m h = cc
certs-save_files none none (some e) id output m h = cc
certs-save_files none none none id output m h =
    lookup-insert id id _ m.certs ∙ rw ((=t_iff id id).1 refl)

pub fullchain-save_certificate :
    (w : Writes) (id : Text) (output : IssueOutput) (m : Manager)
    → write_error w ≡ none
    → lookup id (save_certificate w id output m).0.certs
      ≡ some (record {
        fullchain = some output.certificate_pem;
        private_key = some output.private_key_pem;
      })
unfolding save_certificate write_error
fullchain-save_certificate w id output m h =
    certs-save_files w.make_dir w.fullchain w.private_key id output m h
