-- ===== src/PowerDns/Serials.antt =====
-- The update of an SOA record: its serial and its timers.
use any_ns.Base.{
  ℕ, zero, suc, Option, none, some, ap, ◌≤◌, ◌<◌, ◌+◌, Bool, true, false, not, ◌&&◌, ◌≡◌, refl,
  Text, txt, ltb, leb, ◌==◌, if◌then◌else◌, arith, Bool-cases, inl, inr, ◌⊎◌,
}
use mathlib.Core.Path.{subst}
use any_ns.DnsName.{Idna}
use any_ns.PowerDns.{
  validated, normalize_zone_name, Reply, invalid, done, SoaConfig, SoaRecord, default_uint32,
  is_blank_text,
}
use any_ns.Base.{some_inj}
use any_ns.Base.Number.{scan_digits}
use any_ns.PowerDns.Soa.{
  parse_uint32, in_uint32, number_at, parse_soa_fields, updated_name, next_serial, next_soa,
  validate_soa_record, uint32_limit,
}
use any_ns.PowerDns.Replies.{done_inj, >>=-eq-done, require-eq-done}

next_serial_lem :
    (current update next : ℕ)
    → next_serial current update ≡ done next
    → current < uint32_limit
    → update < uint32_limit
    → (current < next) × (next < uint32_limit)
unfolding next_serial
next_serial_lem current update next h c u = elim (Bool-cases (update == 0)) [
  | inr given ↦ elim (Bool-cases (leb update current)) [
    | inl old ↦ let k : invalid _ ≡ done next = rw (given, old) at h in cc
    | inr new ↦
        let e : update ≡ next = done_inj (rw (given, new) at h) in (ground (arith), ground arith)
  ]
  | inl unset ↦ elim (Bool-cases (current == 4294967295)) [
    | inl full ↦ let k : invalid _ ≡ done next = rw (unset, full) at h in cc
    | inr free ↦
        let e : current + 1 ≡ next = done_inj (rw (unset, free) at h) in
        (omega (arith, e), ground (arith, e))
  ]
]

-- What `validateSOARecord` asks of a record.
pub record IsSound (soa : SoaRecord) : Type 0 where
  pub primary_ns : is_blank_text soa.primary_ns ≡ false
  pub hostmaster : is_blank_text soa.hostmaster ≡ false
  pub serial : 0 < soa.serial
  pub ttl : (soa.ttl ≡ 0) ⊎ (60 ≤ soa.ttl)
  pub refresh : 60 ≤ soa.refresh
  pub retry : 60 ≤ soa.retry
  pub expire : 300 ≤ soa.expire
  pub minimum : 60 ≤ soa.minimum

passes :
    (bad : Bool) (m : Text) (rest : Reply (Unit {0})) {u : Unit {0}}
    → (if bad then invalid m else rest) ≡ done u
    → (bad ≡ false) × (rest ≡ done u)
passes true m rest h = cc
passes false m rest h = (refl, h)

ttl_lem : (ttl : ℕ) → (not (ttl == 0) && ltb ttl 60) ≡ false → (ttl ≡ 0) ⊎ (60 ≤ ttl)
ttl_lem zero h = inl refl
ttl_lem (suc n) h = inr (ground (arith, h))

validate_soa_record_lem :
    (soa : SoaRecord) {u : Unit {0}} → validate_soa_record soa ≡ done u → IsSound soa
unfolding validate_soa_record
validate_soa_record_lem soa h =
    let (a, h1) = passes (is_blank_text soa.primary_ns) _ _ h in
    let (b, h2) = passes (is_blank_text soa.hostmaster) _ _ h1 in
    let (c, h3) = passes (soa.serial == 0) _ _ h2 in
    let (d, h4) = passes (not (soa.ttl == 0) && ltb soa.ttl 60) _ _ h3 in
    let (e, h5) = passes (ltb soa.refresh 60) _ _ h4 in
    let (f, h6) = passes (ltb soa.retry 60) _ _ h5 in
    let (g, h7) = passes (ltb soa.expire 300) _ _ h6 in
    let i = require-eq-done (not (ltb soa.minimum 60)) _ h7 in
    record {
      primary_ns = a;
      hostmaster = b;
      serial = ground (arith, c);
      ttl = ttl_lem soa.ttl d;
      refresh = ground (arith, e);
      retry = ground (arith, f);
      expire = ground (arith, g);
      minimum = ground (arith, i);
    }

-- How an update moves a record on.
pub record Advances (current : SoaRecord) (next : SoaRecord) : Type 0 where
  pub later : current.serial < next.serial
  pub in_range : next.serial < uint32_limit
  pub sound : IsSound next

pub next_soa-Advances :
    (idna : Idna) (current : SoaRecord) (update : SoaConfig) (next : SoaRecord)
    → next_soa idna current update ≡ done next
    → current.serial < uint32_limit
    → update.serial < uint32_limit
    → Advances current next
unfolding next_soa
next_soa-Advances idna current update next h c u =
    let (primary_ns, a, h1) =
      >>=-eq-done
        (updated_name idna (txt "soa.primary_ns is invalid") current.primary_ns update.primary_ns) _
        h in
    let (hostmaster, b, h2) =
      >>=-eq-done
        (updated_name idna (txt "soa.hostmaster is invalid") current.hostmaster update.hostmaster) _
        h1 in
    let (serial, n, h3) = >>=-eq-done (next_serial current.serial update.serial) _ h2 in
    let made : SoaRecord = record {
      primary_ns = primary_ns;
      hostmaster = hostmaster;
      serial = serial;
      ttl = default_uint32 update.ttl current.ttl;
      refresh = default_uint32 update.refresh current.refresh;
      retry = default_uint32 update.retry current.retry;
      expire = default_uint32 update.expire current.expire;
      minimum = default_uint32 update.minimum current.minimum;
    } in
    let (valid, v, h4) = >>=-eq-done (validate_soa_record made) (λ valid. done made) h3 in
    let (later, in_range) = next_serial_lem current.serial update.serial serial n c u in
    subst (Advances current) (done_inj h4)
      (record { later = later; in_range = in_range; sound = validate_soa_record_lem made v })

parse_uint32_lem : (t : Text) (n : ℕ) → parse_uint32 t ≡ some n → n < uint32_limit
unfolding parse_uint32
parse_uint32_lem t n h = in_range (scan_digits t) h
  where
    in_range : (o : Option ℕ) → in_uint32 o ≡ some n → n < uint32_limit
    in_range none k = cc
    in_range (some m) k = elim (Bool-cases (ltb m uint32_limit)) [
      | inl small ↦ let e : m ≡ n = some_inj (rw small at k) in ground (arith, e)
      | inr large ↦ let e : none ≡ some n = rw large at k in cc
    ]

number_at_lem : (i : ℕ) (o : Option ℕ) {n : ℕ} → number_at i o ≡ done n → o ≡ some n
number_at_lem i none h = cc
number_at_lem i (some m) h = ap some (done_inj h)

unfoldable pub IsInRange : SoaRecord → Type 0
IsInRange soa = soa.serial < uint32_limit

pub parse_soa_fields-IsInRange :
    (idna : Idna) (f0 f1 f2 f3 f4 f5 f6 : Text) (soa : SoaRecord)
    → parse_soa_fields idna f0 f1 f2 f3 f4 f5 f6 ≡ done soa
    → IsInRange soa
unfolding parse_soa_fields IsInRange
parse_soa_fields-IsInRange idna f0 f1 f2 f3 f4 f5 f6 soa h =
    let (a, _, h1) =
      >>=-eq-done
        (validated (txt "SOA primary nameserver is invalid") (normalize_zone_name idna f0)) _ h in
    let (b, _, h2) =
      >>=-eq-done (validated (txt "SOA hostmaster is invalid") (normalize_zone_name idna f1)) _
        h1 in
    let (serial, n, h3) = >>=-eq-done (number_at 3 (parse_uint32 f2)) _ h2 in
    let (r, _, h4) = >>=-eq-done (number_at 4 (parse_uint32 f3)) _ h3 in
    let (t, _, h5) = >>=-eq-done (number_at 5 (parse_uint32 f4)) _ h4 in
    let (e, _, h6) = >>=-eq-done (number_at 6 (parse_uint32 f5)) _ h5 in
    let (m, _, h7) = >>=-eq-done (number_at 7 (parse_uint32 f6)) _ h6 in
    let made : SoaRecord = record {
      primary_ns = a;
      hostmaster = b;
      serial = serial;
      ttl = 0;
      refresh = r;
      retry = t;
      expire = e;
      minimum = m;
    } in
    let (valid, _, h8) = >>=-eq-done (validate_soa_record made) (λ valid. done made) h7 in
    subst (λ x. x.serial < uint32_limit) (done_inj h8)
      (parse_uint32_lem f2 serial (number_at_lem 3 (parse_uint32 f2) n))
