-- ===== src/PowerDns/Soa.antt =====
-- The SOA records of internal/powerdns/client.go: the text of one, reading it, and its update.
use any_ns.Base.{
  ℕ, ◌+◌, List, [], ◌∷◌, ◌++◌, not, ◌&&◌, Option, none, some, Text, txt, ◌=t◌, trim_space, to_upper,
  ltb, leb, ◌==◌, if◌then◌else◌,
}
use any_ns.Base.Fields.{fields, spaced}
use any_ns.Base.Number.{itoa, scan_digits}
use any_ns.DnsName.{Idna}
use any_ns.PowerDns.{
  Reply, invalid, done, ◌>>=◌, validated, require, Record, RrSet, Zone, SoaConfig, SoaRecord,
  normalize_zone_name, is_blank_text, default_uint32,
}

-- One more than the largest uint32.
abbrev pub uint32_limit : ℕ
uint32_limit = 4294967296

abbrev pub in_uint32 : Option ℕ → Option ℕ
in_uint32 none = none
in_uint32 (some n) = if ltb n uint32_limit then some n else none

-- `strconv.ParseUint(s, 10, 32)`
unfoldable pub parse_uint32 : Text → Option ℕ
parse_uint32 s = in_uint32 (scan_digits s)

unfoldable pub validate_soa_record : SoaRecord → Reply (Unit {0})
validate_soa_record soa =
    if is_blank_text soa.primary_ns
    then invalid (txt "soa.primary_ns is required")
    else if is_blank_text soa.hostmaster
    then invalid (txt "soa.hostmaster is required")
    else if soa.serial == 0
    then invalid (txt "soa.serial must be greater than zero")
    else if not (soa.ttl == 0) && ltb soa.ttl 60
    then invalid (txt "soa.ttl must be at least 60 seconds")
    else if ltb soa.refresh 60
    then invalid (txt "soa.refresh must be at least 60 seconds")
    else if ltb soa.retry 60
    then invalid (txt "soa.retry must be at least 60 seconds")
    else if ltb soa.expire 300
    then invalid (txt "soa.expire must be at least 300 seconds")
    else require (not (ltb soa.minimum 60)) (txt "soa.minimum must be at least 60 seconds")

unfoldable pub content : SoaRecord → Text
content s = spaced s.primary_ns (
    spaced s.hostmaster (
      spaced (itoa s.serial) (
        spaced (itoa s.refresh) (spaced (itoa s.retry) (spaced (itoa s.expire) (itoa s.minimum))))))

abbrev pub number_at : ℕ → Option ℕ → Reply ℕ
number_at i none = invalid (txt "SOA numeric field " ++ itoa i ++ txt " is invalid")
number_at i (some n) = done n

unfoldable pub parse_soa_fields :
    Idna → Text → Text → Text → Text → Text → Text → Text → Reply SoaRecord
parse_soa_fields idna f0 f1 f2 f3 f4 f5 f6 = do
  primary_ns ← validated (txt "SOA primary nameserver is invalid") (normalize_zone_name idna f0)
  hostmaster ← validated (txt "SOA hostmaster is invalid") (normalize_zone_name idna f1)
  serial ← number_at 3 (parse_uint32 f2)
  refresh ← number_at 4 (parse_uint32 f3)
  retry ← number_at 5 (parse_uint32 f4)
  expire ← number_at 6 (parse_uint32 f5)
  minimum ← number_at 7 (parse_uint32 f6)
  let soa : SoaRecord = record {
    primary_ns = primary_ns;
    hostmaster = hostmaster;
    serial = serial;
    ttl = 0;
    refresh = refresh;
    retry = retry;
    expire = expire;
    minimum = minimum;
  }
  valid ← validate_soa_record soa
  done soa

abbrev pub of_seven : Idna → List Text → Reply SoaRecord
of_seven idna (f0 ∷ f1 ∷ f2 ∷ f3 ∷ f4 ∷ f5 ∷ f6 ∷ []) = parse_soa_fields idna f0 f1 f2 f3 f4 f5 f6
of_seven idna fs = invalid (txt "SOA record requires seven fields")

unfoldable pub parse_soa_content : Idna → Text → Reply SoaRecord
parse_soa_content idna text = of_seven idna (fields text)

abbrev pub with_ttl : ℕ → SoaRecord → SoaRecord
with_ttl ttl soa = record soa { ttl = ttl }

-- The loop over the records of a set; the last argument is how the search goes on after it.
unfoldable pub active_soa : Idna → ℕ → List Record → Reply SoaRecord → Reply SoaRecord
active_soa idna ttl [] after = after
active_soa idna ttl (r ∷ rs) after =
    let rest = active_soa idna ttl rs after in
    if r.disabled
    then rest
    else parse_soa_content idna r.content >>= (λ soa. done (with_ttl (default_uint32 ttl 300) soa))

unfoldable pub apex_soa : Idna → Text → List RrSet → Reply SoaRecord
unfolding active_soa
apex_soa idna zone_name [] =
    invalid (txt "zone " ++ zone_name ++ txt " has no active apex SOA record")
apex_soa idna zone_name (r ∷ rs) =
    let rest = apex_soa idna zone_name rs in
    if not (to_upper (trim_space r.type_name) =t txt "SOA")
    then rest
    else if not (r.name =t zone_name)
    then invalid (txt "apex SOA name " ++ r.name ++ txt " does not match zone " ++ zone_name)
    else active_soa idna r.ttl r.records rest

unfoldable pub zone_soa : Idna → Zone → Reply SoaRecord
unfolding apex_soa
zone_soa idna zone = apex_soa idna zone.name zone.rrsets

-- A name of an update, which is left alone when it is blank.
abbrev pub updated_name : Idna → Text → Text → Text → Reply Text
updated_name idna message name update =
    if is_blank_text update then done name else validated message (normalize_zone_name idna update)

unfoldable pub next_serial : ℕ → ℕ → Reply ℕ
next_serial current update =
    if not (update == 0)
    then (if leb update current
        then invalid (txt "soa.serial must be greater than current serial " ++ itoa current)
        else done update)
    else if current == 4294967295
    then invalid (txt "soa.serial cannot be incremented beyond " ++ itoa current)
    else done (current + 1)

-- The record that an update makes of the current one.
unfoldable pub next_soa : Idna → SoaRecord → SoaConfig → Reply SoaRecord
next_soa idna current update = do
  primary_ns ←
      updated_name idna (txt "soa.primary_ns is invalid") current.primary_ns update.primary_ns
  hostmaster ←
      updated_name idna (txt "soa.hostmaster is invalid") current.hostmaster update.hostmaster
  serial ← next_serial current.serial update.serial
  let next : SoaRecord = record {
    primary_ns = primary_ns;
    hostmaster = hostmaster;
    serial = serial;
    ttl = default_uint32 update.ttl current.ttl;
    refresh = default_uint32 update.refresh current.refresh;
    retry = default_uint32 update.retry current.retry;
    expire = default_uint32 update.expire current.expire;
    minimum = default_uint32 update.minimum current.minimum;
  }
  valid ← validate_soa_record next
  done next
