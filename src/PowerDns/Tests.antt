-- ===== src/PowerDns/Tests.antt =====
-- Runs of the PowerDNS client on small inputs.
use any_ns.Base.{
  leb, List, [], ◌∷◌, true, false, none, ◌≡◌, refl, Text, txt, ◌=t◌, length, arith, inr,
  if◌then◌else◌, contains, has_prefix, has_suffix, is_space, join, lower, split, to_lower, to_upper,
  trim_left, trim_prefix, trim_right, trim_right_by, trim_space, trim_suffix, upper,
}
use any_ns.Base.Int.{pos}
use any_ns.Base.Result.{ok, err}
use any_ns.DnsName.{
  Idna, convert_label, convert_labels, is_ascii, join_checked, label_to_ascii, replace_dots,
  to_ascii, to_unicode,
}
use any_ns.Config.{PowerDnsConfig}
use any_ns.Records.{canonical, managed_type, RrLibrary, DnsRr, other, normalize_record, rr_content}
use any_ns.PowerDns.{
  done, Zone, SoaConfig, SoaRecord, CreateZoneRequest, required_zone_id, decorate_rrsets,
  decorate_zone, name_inside_zone, trim_hns_suffix, valid_record_type, validate_hns_top_level_label,
}
use any_ns.Base.Fields.{fields}
use any_ns.PowerDns.Soa.{
  content, parse_soa_content, with_ttl, active_soa, apex_soa, next_serial, next_soa,
  parse_soa_fields, parse_uint32, validate_soa_record, zone_soa,
}
use any_ns.PowerDns.Calls.{
  no_server, Call, Answer, response, Server, do_json, endpoint, read_answer, server_path,
}
use any_ns.PowerDns.Client.{
  empty_zone, update_authoritative_soa, patch_authoritative_zone, authoritative_zone,
  checked_rrsets, delete_zone, spelled_zone_id,
}
use any_ns.PowerDns.Zones.{
  create_authoritative_zone, initialize_zone, new_zone_name, normalize_nameservers, plan_zone,
  zone_nameservers,
}
use any_ns.PowerDns.Serials.{IsSound}
use any_ns.PowerDns.Inside.{SendsFit, patch-SendsFit}
use any_ns.PowerDns.RoundTrip.{IsNormal, parse-content}
use any_ns.PowerDns.Rollback.{IsSettled, create-IsSettled}
use any_ns.PowerDns.Updates.{IsTaken, update_authoritative_soa-IsTaken}
use any_ns.Base.Number.{itoa, scan_digits}
use any_ns.PowerDns.Patch.{
  normalize_field, normalize_fields, normalize_record_content, validate_record_content_safety,
  validate_rrset_owner_for_type, validate_tlsa_labels, validate_tlsa_owner,
}
use any_ns.PowerDns.RrSets.{
  check_change, check_owner, check_record, check_records, check_rrset, check_rrsets,
}
use any_ns.PowerDns.Initial.{glue, initial_zone_rrsets}

abbrev keeping : Idna
keeping label = ok label

abbrev example_soa : SoaRecord
example_soa = record {
  primary_ns = txt "ns.a.";
  hostmaster = txt "h.a.";
  serial = 7;
  ttl = 300;
  refresh = 3600;
  retry = 600;
  expire = 86400;
  minimum = 300;
}

soa_is_printed : content example_soa ≡ txt "ns.a. h.a. 7 3600 600 86400 300"
unfolding content itoa
soa_is_printed = refl

abbrev example_zone : Zone
example_zone = record empty_zone {
  name = txt "a.";
  rrsets =
      record {
        name = txt "a.";
        unicode_name = [];
        type_name = txt "SOA";
        ttl = 300;
        change_type = [];
        records = record { content = txt "ns.a. h.a. 7 3600 600 86400 300"; disabled = false } ∷ [];
        comments = [];
      }
      ∷ [];
}

abbrev example_config : PowerDnsConfig
example_config = record {
  authoritative_url = txt "http://p/";
  authoritative_api_key = txt "k";
  authoritative_api_key_file = [];
  recursor_url = [];
  recursor_api_key = [];
  recursor_api_key_file = [];
  server_id = txt "localhost";
  request_timeout = pos 0;
  request_timeout_seconds = pos 0;
}

-- A library that reads a line as a record of its own text.
abbrev plain_records : RrLibrary
plain_records = record {
  fqdn = λ t. t;
  new_rr = λ line. ok (other line);
  print = shown_rr;
  to_ds = λ key t. none;
  decode_base64 = λ t. ok t;
  sha256 = λ t. t;
  decode_pem = λ t. none;
  parse_certificate = λ t. err (txt "no certificate");
}
  where
    shown_rr : DnsRr → Text
    shown_rr (other line) = line
    shown_rr rr = []

-- A server whose answers all are of one code; a zone it sends is the example's.
abbrev server_of : (List Call → Answer) → Server
server_of answer = record {
  config = example_config;
  path_escape = λ t. t;
  query_escape = λ t. t;
  answer = answer;
  decode_zone = λ body. ok example_zone;
  decode_zones = λ body. ok [];
  decode_key = λ body. err (txt "no key");
  decode_keys = λ body. ok [];
  decode_server = λ body. ok no_server;
  decode_statistics = λ body. ok [];
  decode_settings = λ body. ok [];
  decode_flush = λ body. err (txt "no result");
  idna = keeping;
  unicode = keeping;
  records = plain_records;
}

abbrev willing : Server
willing = server_of (λ calls. response 200 (txt "OK") (txt "{}"))

-- A server that takes a zone and refuses the second request.
abbrev stubborn : Server
stubborn = server_of (λ calls.
    if leb 2 (length calls) then response 422 (txt "no") [] else response 201 (txt "ok") (txt "{}"))

abbrev no_change : SoaConfig
no_change = record {
  primary_ns = [];
  hostmaster = [];
  serial = 0;
  ttl = 0;
  refresh = 0;
  retry = 0;
  expire = 0;
  minimum = 0;
}

abbrev hns_request : CreateZoneRequest
hns_request = record {
  name = txt "A.hns";
  kind = [];
  nameservers = [];
  masters = [];
  dnssec = false;
  hns = true;
  glue_ipv4 = [];
  glue_ipv6 = [];
  soa = none;
}

abbrev methods : List Call → List Text
methods [] = []
methods (c ∷ cs) = c.method ∷ methods cs

-- The serial moves on by one.
abbrev next_soa_record : SoaRecord
next_soa_record = record example_soa { serial = 8 }

update_runs : (update_authoritative_soa willing (txt "A") no_change []).0 ≡ done next_soa_record
unfolding to_ascii convert_labels convert_label label_to_ascii is_ascii join_checked replace_dots
    trim_space trim_left trim_right_by trim_suffix is_space split join ◌=t◌ to_lower to_upper lower
    upper has_suffix has_prefix trim_prefix contains spelled_zone_id required_zone_id checked_rrsets
    check_rrsets check_rrset check_owner check_change check_records check_record
    validate_record_content_safety normalize_record_content normalize_fields normalize_field
    validate_rrset_owner_for_type validate_tlsa_owner validate_tlsa_labels name_inside_zone
    valid_record_type managed_type normalize_record canonical rr_content fields content endpoint
    server_path do_json read_answer patch_authoritative_zone authoritative_zone
    update_authoritative_soa zone_soa apex_soa active_soa parse_soa_content parse_soa_fields
    parse_uint32 scan_digits validate_soa_record next_soa next_serial decorate_zone decorate_rrsets
    to_unicode itoa create_authoritative_zone plan_zone new_zone_name zone_nameservers
    normalize_nameservers initial_zone_rrsets glue initialize_zone delete_zone trim_hns_suffix
    validate_hns_top_level_label trim_right
update_runs = refl

create_runs :
    methods (create_authoritative_zone stubborn (λ t. none) (txt "20260102") hns_request []).1
    ≡ txt "POST" ∷ txt "PATCH" ∷ txt "DELETE" ∷ []
unfolding to_ascii convert_labels convert_label label_to_ascii is_ascii join_checked replace_dots
    trim_space trim_left trim_right_by trim_suffix is_space split join ◌=t◌ to_lower to_upper lower
    upper has_suffix has_prefix trim_prefix contains spelled_zone_id required_zone_id checked_rrsets
    check_rrsets check_rrset check_owner check_change check_records check_record
    validate_record_content_safety normalize_record_content normalize_fields normalize_field
    validate_rrset_owner_for_type validate_tlsa_owner validate_tlsa_labels name_inside_zone
    valid_record_type managed_type normalize_record canonical rr_content fields content endpoint
    server_path do_json read_answer patch_authoritative_zone authoritative_zone
    update_authoritative_soa zone_soa apex_soa active_soa parse_soa_content parse_soa_fields
    parse_uint32 scan_digits validate_soa_record next_soa next_serial decorate_zone decorate_rrsets
    to_unicode itoa create_authoritative_zone plan_zone new_zone_name zone_nameservers
    normalize_nameservers initial_zone_rrsets glue initialize_zone delete_zone trim_hns_suffix
    validate_hns_top_level_label trim_right
create_runs = refl

patch-SendsFit_example :
    SendsFit willing
      (txt "a")
      example_zone.rrsets
      []
      (patch_authoritative_zone willing (txt "a") example_zone.rrsets []).1
patch-SendsFit_example = patch-SendsFit willing (txt "a") example_zone.rrsets []

update_authoritative_soa-IsTaken_example :
    (id : Text) × (required_zone_id keeping (txt "A") ≡ done id)
    × IsTaken willing no_change [] id next_soa_record
update_authoritative_soa-IsTaken_example =
    update_authoritative_soa-IsTaken willing (txt "A") no_change [] next_soa_record (omega arith)
      update_runs

create-IsSettled_example :
    IsSettled stubborn
      (λ t. none)
      (txt "20260102")
      hns_request
      []
      (create_authoritative_zone stubborn (λ t. none) (txt "20260102") hns_request [])
create-IsSettled_example = create-IsSettled stubborn (λ t. none) (txt "20260102") hns_request []

example_soa-IsNormal : IsNormal keeping example_soa
unfolding to_ascii convert_labels convert_label label_to_ascii is_ascii join_checked replace_dots
    trim_space trim_left trim_right_by trim_suffix is_space split join ◌=t◌ to_lower lower
example_soa-IsNormal = record {
  primary_ns = refl;
  hostmaster = refl;
  primary_word = record { some_byte = refl; no_space = (refl, (refl, (refl, (refl, (refl, tt))))) };
  hostmaster_word = record { some_byte = refl; no_space = (refl, (refl, (refl, (refl, tt)))) };
  serial = omega arith;
  refresh = omega arith;
  retry = omega arith;
  expire = omega arith;
  minimum = omega arith;
}

example_soa-IsSound : IsSound example_soa
unfolding trim_space trim_left trim_right_by is_space
example_soa-IsSound = record {
  primary_ns = refl;
  hostmaster = refl;
  serial = omega arith;
  ttl = inr (omega arith);
  refresh = omega arith;
  retry = omega arith;
  expire = omega arith;
  minimum = omega arith;
}

parse-content_example :
    parse_soa_content keeping (content example_soa) ≡ done (with_ttl 0 example_soa)
parse-content_example = parse-content keeping example_soa example_soa-IsNormal example_soa-IsSound
