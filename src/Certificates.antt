-- ===== src/Certificates.antt =====
-- internal/certificates/manager.go: certificate jobs, from the request to the issued, failed or
-- revoked certificate. The clock, the issuer's answers and the results of file writes are
-- arguments; SHA-256 and the IDNA library are parameters. Every critical section is one step. An
-- error text leaves out the index, the time or the prefix that the source puts into it.
pub mod Manager
pub mod Worker
pub mod Domains
pub mod Updates
pub mod Issuance
pub mod Runs
pub mod Requests
pub mod Restart
pub mod Served
pub mod Steps
pub mod Histories
pub mod Revocation
pub mod Tests
use any_ns.Base.{
  ℕ, suc, ◌+◌, ◌*◌, List, [], ◌∷◌, Bool, true, false, not, ◌&&◌, ◌||◌, Option, none, some, Text,
  txt, ◌=t◌, text_lt, is_empty, to_lower, trim_space, trim_suffix, trim_prefix, has_prefix, join,
  length, any, ◌++◌, ltb, leb, ◌==◌, if◌then◌else◌, take, map,
}
use any_ns.Base.Int.{ℤ}
use any_ns.Base.Result.{Result, ok, err, ◌>>=◌}
use any_ns.Base.Sort.{sort}
use any_ns.DnsName.{Idna, to_ascii}

-- `other` is a status that only a state file can hold.
pub data Status : Type 0 where
  pending validating finalizing issued failed revoked : Status
  other : Text → Status

abbrev pub is_issued : Status → Bool
is_issued issued = true
is_issued _ = false

abbrev pub is_revoked : Status → Bool
is_revoked revoked = true
is_revoked _ = false

-- A job that a process was working on.
abbrev pub in_flight : Status → Bool
in_flight pending = true
in_flight validating = true
in_flight finalizing = true
in_flight _ = false

pub record IssueRequest : Type 0 where
  pub domains : List Text
  pub idempotency_key : Text
  pub renewal_of : Text

-- Times are nanoseconds; a missing time is Go's nil pointer.
pub record Job : Type 0 where
  pub id : Text
  pub domains : List Text
  pub status : Status
  pub attempt : ℕ
  pub max_attempts : ℤ
  pub created_at : ℕ
  pub updated_at : ℕ
  pub not_before : Option ℕ
  pub not_after : Option ℕ
  pub error : Text
  pub renewal_of : Text
  pub revoked_at : Option ℕ
  pub idempotency_key : Text

pub record IssueOutput : Type 0 where
  pub certificate_pem : Text
  pub private_key_pem : Text
  pub not_before : ℕ
  pub not_after : ℕ

-- What leaves the manager never carries the key.
unfoldable pub public_job : Job → Job
public_job job = record job { idempotency_key = [] }

-- One domain as it is stored: lower-cased, in ASCII lookup form without the final dot, a wildcard
-- kept.
bare : Text → Text
bare domain = to_lower (trim_suffix (trim_space domain) b'.')

is_wildcard : Text → Bool
is_wildcard domain = has_prefix domain (txt "*.")

abbrev with_star : Bool → Text → Text
with_star wildcard ascii = if wildcard then txt "*." ++ ascii else ascii

unfoldable pub normalize_domain : Idna → Text → Result Text
unfolding bare is_wildcard
normalize_domain idna domain = do
  let d = bare domain
  ascii ← to_ascii idna (if is_wildcard d then trim_prefix d (txt "*.") else d)
  let a = trim_suffix ascii b'.'
  if is_empty a || a =t txt "."
      then err (txt "domain is required")
      else ok (with_star (is_wildcard d) a)

-- The loop over the domains; what was seen before is not added again.
unfoldable pub collect_domains : Idna → List Text → List Text → Result (List Text)
collect_domains idna [] out = ok out
collect_domains idna (domain ∷ domains) out = normalize_domain idna domain >>= λ ascii.
    collect_domains idna domains
      (if any (λ seen. seen =t ascii) out then out else out ++ ascii ∷ [])

unfoldable pub normalize_domains : Idna → List Text → Result (List Text)
normalize_domains idna domains =
    if length domains == 0 || ltb 10 (length domains)
    then err (txt "between 1 and 10 domains are required")
    else (collect_domains idna domains [] >>= λ out. ok (sort text_lt out))

replace_breaks : Text → Text
replace_breaks = map (λ c. if c == 13 || c == 10 then 32 else c)

-- An error text fit to be shown: one line, at most 500 bytes.
unfoldable pub sanitized_error : Text → Text
unfolding replace_breaks
sanitized_error message =
    let m = replace_breaks (trim_space message) in if ltb 500 (length m) then take 500 m else m
