-- ===== src/Certificates/Steps.antt =====
-- The steps of internal/certificates/manager.go: the critical sections and file writes of requests,
-- workers and revocations.
use any_ns.Base.{ℕ, ◌≡◌, List, ◌∷◌, Bool, true, Option, some, Text}
use any_ns.Base.Result.{Result, ok, err}
use any_ns.Base.Members.{has_text}
use any_ns.Base.Dict.{Dict, lookup, insert, erase}
use any_ns.DnsName.{Idna}
use any_ns.Certificates.{IssueRequest, Status, IssueOutput}
use any_ns.Certificates.Manager.{Manager, start, close, set_issuer, store_revoked, certificate_pem}
use any_ns.Certificates.Worker.{
  Writes, update, report_one, begin_job, issue_job, fail_job, store_answer,
}

-- The manager with what its goroutines hold: for a worker that has stored the answer of the issuer,
-- by the id of its job, what `output` and `err` are then; and for revocations, the ids for which
-- `CertificatePEM` returned without an error.
pub record System : Type 0 where
  pub manager : Manager
  pub results : Dict (Result IssueOutput)
  pub checked : List Text

-- One critical section of a request, a worker or a revocation, or one write of a certificate's files.
-- A worker goes on from its own `err`, as `run` does, and a revocation from the certificate it read.
pub data Step (idna : Idna) (hash_hex : Text → Text) (s : System) : System → Type 0 where
  starts :
      (now : ℕ) (io : Option Text) (request : IssueRequest)
      → Step idna hash_hex s
          (record s { manager = (start idna hash_hex now io request s.manager).0 })
  closes : Step idna hash_hex s (record s { manager = close s.manager })
  sets_issuer :
      (i : Option ℕ) → Step idna hash_hex s (record s { manager = (set_issuer i s.manager).0 })
  begins :
      (now : ℕ) (io : Option Text) (id : Text) (n : ℕ)
      → Step idna hash_hex s (record s {
        manager = update now io id (begin_job n) s.manager;
        results = erase id s.results;
      })
  reports :
      (status : Status) (now : ℕ) (io : Option Text) (id : Text)
      → Step idna hash_hex s (record s { manager = report_one status now io id s.manager })
  stores :
      (answer : Result IssueOutput) (w : Writes) (id : Text)
      → Step idna hash_hex s (record s {
        manager = (store_answer answer w id s.manager).0;
        results = insert id (store_answer answer w id s.manager).1 s.results;
      })
  accepts :
      (now : ℕ) (io : Option Text) (id : Text) (output : IssueOutput)
      → lookup id s.results ≡ some (ok output)
      → Step idna hash_hex s (record s { manager = update now io id (issue_job output) s.manager })
  fails :
      (now : ℕ) (io : Option Text) (id : Text) (last : Bool) (e : Text)
      → lookup id s.results ≡ some (err e)
      → Step idna hash_hex s (record s { manager = update now io id (fail_job last e) s.manager })
  checks :
      (id pem : Text)
      → certificate_pem id s.manager ≡ ok pem
      → Step idna hash_hex s (record s { checked = id ∷ s.checked })
  revokes :
      (now : ℕ) (io : Option Text) (id : Text)
      → has_text id s.checked ≡ true
      → Step idna hash_hex s (record s { manager = (store_revoked now io id s.manager).0 })

-- Any number of steps.
pub data Steps (idna : Idna) (hash_hex : Text → Text) : System → System → Type 0 where
  stop : (s : System) → Steps idna hash_hex s s
  step :
      (s s₁ s₂ : System)
      → Step idna hash_hex s s₁
      → Steps idna hash_hex s₁ s₂
      → Steps idna hash_hex s s₂
