-- ===== src/PowerDns/Initial.antt =====
-- The first record sets of a zone (`initialZoneRRSets` in internal/powerdns/client.go).
-- `net.ParseIP` and the date are arguments.
use any_ns.Base.{
  ℕ, List, [], ◌∷◌, ◌++◌, map, Bool, true, false, not, Option, none, some, min, Text, txt,
  trim_space, if◌then◌else◌,
}
use any_ns.Base.Number.{itoa, scan_digits}
use any_ns.DnsName.{Idna}
use any_ns.PowerDns.{
  Reply, invalid, done, ◌>>=◌, validated, Record, RrSet, SoaConfig, CreateZoneRequest,
  normalize_zone_name, is_blank_text, name_inside_zone, default_uint32,
}
use any_ns.Base.Fields.{spaced}

-- `net.ParseIP` with the test on `To4`: `some true` for an address with a form of four bytes.
abbrev pub ParseIp : Type 0
ParseIp = Text → Option Bool

abbrev no_soa : SoaConfig
no_soa = record {
  primary_ns = [];
  hostmaster = [];
  serial = 0;
  ttl = 0;
  refresh = 0;
  retry = 0;
  expire = 0;
  minimum = 0;
}

abbrev soa_or_none : Option SoaConfig → SoaConfig
soa_or_none none = no_soa
soa_or_none (some c) = c

-- `strconv.ParseUint` without its error: the largest uint32 where the value is out of range.
abbrev clamped : Option ℕ → ℕ
clamped none = 0
clamped (some n) = min n 4294967295

abbrev date_serial : Text → ℕ
date_serial today = clamped (scan_digits (today ++ txt "01"))

abbrev name_or : Idna → Text → Text → Text → Reply Text
name_or idna message given fallback =
    if is_blank_text given
    then done fallback
    else validated message (normalize_zone_name idna given)

abbrev rrset_of : Text → Text → ℕ → List Record → RrSet
rrset_of name type_name ttl records = record {
  name = name;
  unicode_name = [];
  type_name = type_name;
  ttl = ttl;
  change_type = txt "REPLACE";
  records = records;
  comments = [];
}

abbrev enabled_record : Text → Record
enabled_record content = record { content = content; disabled = false }

abbrev soa_text : Text → Text → ℕ → SoaConfig → Text
soa_text primary_ns hostmaster serial c = spaced primary_ns (
    spaced hostmaster (
      spaced (itoa serial) (
        spaced (itoa (default_uint32 c.refresh 3600)) (
          spaced (itoa (default_uint32 c.retry 600)) (
            spaced (itoa (default_uint32 c.expire 86400)) (itoa (default_uint32 c.minimum 300)))))))

abbrev has_form : Bool → Option Bool → Bool
has_form four none = false
has_form four (some b) = if four then b else not b

-- The settings of an address record: its field, its type, and whether it has four bytes.
pub record Family : Type 0 where
  field : Text
  shown : Text
  type_name : Text
  four : Bool

abbrev ipv4 : Family
ipv4 = record { field = txt "glue_ipv4"; shown = txt "IPv4"; type_name = txt "A"; four = true }

abbrev ipv6 : Family
ipv6 = record { field = txt "glue_ipv6"; shown = txt "IPv6"; type_name = txt "AAAA"; four = false }

-- The address record of the primary nameserver, when an address is given.
unfoldable pub glue : ParseIp → Family → Text → Text → Text → ℕ → Reply (List RrSet)
glue parse_ip f address primary_ns zone_name ttl =
    if is_blank_text address
    then done []
    else if not (has_form f.four (parse_ip (trim_space address)))
    then invalid (f.field ++ txt " must be a valid " ++ f.shown ++ txt " address")
    else if not (name_inside_zone primary_ns zone_name)
    then invalid (
        f.field
        ++ txt " requires primary nameserver "
        ++ primary_ns
        ++ txt " to be inside zone "
        ++ zone_name)
    else done (rrset_of primary_ns f.type_name ttl (enabled_record (trim_space address) ∷ []) ∷ [])

-- `initialZoneRRSets`
unfoldable pub initial_zone_rrsets :
    Idna → ParseIp → Text → Text → List Text → CreateZoneRequest → Reply (List RrSet)
initial_zone_rrsets idna parse_ip today zone_name [] request =
    invalid (txt "at least one nameserver is required to initialize SOA")
initial_zone_rrsets idna parse_ip today zone_name (first ∷ others) request = do
  let c : SoaConfig = soa_or_none request.soa
  let ttl : ℕ = default_uint32 c.ttl 300
  let serial : ℕ = default_uint32 c.serial (date_serial today)
  primary_ns ← name_or idna (txt "soa.primary_ns is invalid") c.primary_ns first
  hostmaster ←
      name_or idna (txt "soa.hostmaster is invalid") c.hostmaster (txt "hostmaster." ++ zone_name)
  v4 ← glue parse_ip ipv4 request.glue_ipv4 primary_ns zone_name ttl
  v6 ← glue parse_ip ipv6 request.glue_ipv6 primary_ns zone_name ttl
  done (
      rrset_of zone_name (txt "SOA") ttl
          (enabled_record (soa_text primary_ns hostmaster serial c) ∷ [])
        ∷ rrset_of zone_name (txt "NS") ttl (map enabled_record (first ∷ others))
        ∷ v4
      ++ v6)
