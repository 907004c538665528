-- ===== src/Records/Tests.antt =====
-- Runs of internal/dnsrr/records.go on small inputs.
use any_ns.Base.{
  [], true, none, some, ◌≡◌, ◌↔◌, refl, Text, txt, ◌=t◌, to_lower, lower, trim_space, trim_left,
  trim_right_by, is_space, has_suffix, arith,
}
use any_ns.Base.Hex.{hex_decode}
use any_ns.Base.Number.{itoa}
use any_ns.Base.Result.{ok}
use any_ns.Records.{
  Certificate, Caa, caa, other, RrLibrary, validate_tag, canonical, tlsa_from_certificate_pem,
  parse_tlsa_owner,
}
use any_ns.PowerDns.{name_inside_zone}
use any_ns.PowerDns.Patch.{validate_tlsa_owner}
use any_ns.Records.Canonical.{IsCanonical, folded, canonical_iff}
use any_ns.Records.Generated.{IsData, Generates, tlsa_from_certificate_pem_lem}
use any_ns.Records.Owners.{parse_tlsa_owner-accepted}

-- A library whose certificates all hold the same two bytes, and whose hashes are all one.
abbrev example_library : RrLibrary
example_library = record {
  fqdn = λ t. t;
  new_rr = λ line. ok (other line);
  print = λ rr. txt "a. 300 IN X y";
  to_ds = λ key t. none;
  decode_base64 = λ t. ok t;
  sha256 = λ t. txt "0123456789abcdef0123456789abcdef";
  decode_pem = λ t. some (txt "CERTIFICATE", txt "AB");
  parse_certificate = λ t. ok (record { raw = t; raw_subject_public_key_info = txt "K" });
}

abbrev tagged : Text → Caa
tagged tag = record {
  header = record { name = txt "a."; rr_type = 257; class = 1; ttl = 300 };
  flag = 0;
  tag = tag;
  value = txt "ca.example";
}

hex_runs : hex_decode (txt "4a4B") ≡ some (txt "JK")
unfolding hex_decode
hex_runs = refl

lowers_tag :
    canonical example_library (caa (tagged (txt "Issue"))) ≡ ok (caa (tagged (txt "issue")))
unfolding canonical validate_tag to_lower lower
lowers_tag = refl

canonical_iff_example :
    (canonical example_library (caa (tagged (txt "Issue"))) ≡ ok (caa (tagged (txt "issue")))) ↔ (
      IsCanonical example_library (caa (tagged (txt "issue")))
      × (caa (tagged (txt "issue")) ≡ folded (caa (tagged (txt "Issue")))))
canonical_iff_example =
    canonical_iff example_library (caa (tagged (txt "Issue"))) (caa (tagged (txt "issue")))

hashed : (x : Text) → IsData (example_library.sha256 x)
hashed x = (refl, omega arith)

abbrev signed : Certificate
signed = record { raw = txt "AB"; raw_subject_public_key_info = txt "K" }

tlsa_from_certificate_pem_lem_example :
    Generates example_library signed 3 0 1 (tlsa_from_certificate_pem example_library [] 3 0 1)
tlsa_from_certificate_pem_lem_example =
    tlsa_from_certificate_pem_lem example_library (λ x. refl) hashed [] (txt "AB") signed 3 0 1 refl
      refl (refl, (omega arith, (omega arith, tt))) (refl, (omega arith, tt))

owner_runs :
    parse_tlsa_owner example_library 443 (txt " TCP") (txt "www.a.") ≡ ok (txt "_443._tcp.www.a.")
unfolding parse_tlsa_owner itoa ◌=t◌ to_lower lower trim_space trim_left trim_right_by is_space
owner_runs = refl

www_inside : name_inside_zone (trim_space (txt "www.a.")) (txt "a.") ≡ true
unfolding name_inside_zone has_suffix ◌=t◌ trim_space trim_left trim_right_by is_space
www_inside = refl

parse_tlsa_owner-accepted_example : validate_tlsa_owner (txt "_443._tcp.www.a.") (txt "a.") ≡ ok tt
parse_tlsa_owner-accepted_example =
    parse_tlsa_owner-accepted example_library 443 (txt " TCP") (txt "www.a.")
      (txt "_443._tcp.www.a.") (txt "a.") owner_runs (omega arith) (omega arith) www_inside
