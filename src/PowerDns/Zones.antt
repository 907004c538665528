-- ===== src/PowerDns/Zones.antt =====
-- The creation of a zone (internal/powerdns/client.go): the checks of the request,
-- and the removal of the zone when its first record sets are not taken.
use any_ns.Base.{
  ℕ, ◌+◌, List, [], ◌∷◌, ◌++◌, Bool, not, ◌&&◌, ◌||◌, Text, txt, is_empty, trim_suffix, contains,
  if◌then◌else◌, is_some,
}
use any_ns.Base.Number.{itoa}
use any_ns.Base.Result.{Result, ok, err}
use any_ns.Access.{is_nil}
use any_ns.DnsName.{Idna}
use any_ns.PowerDns.{
  Reply, invalid, failed, done, ◌>>=◌, validated, require, RrSet, Zone, CreateZoneRequest,
  normalize_zone_name, is_root, is_blank_text, trim_hns_suffix, validate_hns_top_level_label,
  decorate_zone,
}
use any_ns.PowerDns.Initial.{ParseIp, initial_zone_rrsets}
use any_ns.PowerDns.Calls.{
  NewZone, new_zone, authoritative, Call, Server, Client, server_path, do_json,
}
use any_ns.PowerDns.Client.{and_then, empty_zone, patch_authoritative_zone, delete_zone}

abbrev nameserver_error : ℕ → Text → Text
nameserver_error i e = txt "nameservers[" ++ itoa i ++ txt "] is invalid: " ++ e

abbrev nameserver_of : ℕ → Result Text → Reply Text
nameserver_of i (err e) = invalid (nameserver_error i e)
nameserver_of i (ok name) =
    if is_empty name || is_root name then invalid (nameserver_error i (txt "<nil>")) else done name

unfoldable pub normalize_nameservers : Idna → ℕ → List Text → Reply (List Text)
normalize_nameservers idna i [] = done []
normalize_nameservers idna i (n ∷ ns) = do
  first ← nameserver_of i (normalize_zone_name idna n)
  rest ← normalize_nameservers idna (i + 1) ns
  done (first ∷ rest)

-- The name of a zone to be created.
unfoldable pub new_zone_name : Idna → CreateZoneRequest → Reply Text
new_zone_name idna request = do
  zone_name ← validated (txt "invalid zone name") (
      normalize_zone_name idna (if request.hns then trim_hns_suffix request.name else request.name))
  named ← require (not (is_root zone_name || is_blank_text zone_name)) (txt "zone name is required")
  single ←
      require (not (request.hns && contains (trim_suffix zone_name b'.') (txt ".")))
        (txt "HNS zone must be a single top-level label")
  valid ← if request.hns then validate_hns_top_level_label zone_name else done tt
  done zone_name

abbrev or_default_server : CreateZoneRequest → Text → List Text → List Text
or_default_server request zone_name ns =
    if is_nil ns && (request.hns || is_some request.soa) then (txt "ns1." ++ zone_name) ∷ [] else ns

unfoldable pub zone_nameservers : Idna → Text → CreateZoneRequest → Reply (List Text)
unfolding normalize_nameservers
zone_nameservers idna zone_name request = do
  ns ← normalize_nameservers idna 0 request.nameservers
  done (or_default_server request zone_name ns)

abbrev needs_rrsets : CreateZoneRequest → Bool
needs_rrsets request =
    request.hns
    || is_some request.soa
    || not (is_empty request.glue_ipv4)
    || not (is_empty request.glue_ipv6)

-- What is sent to create a zone, and the record sets for the patch after it.
pub record Plan : Type 0 where
  pub zone_name : Text
  pub zone : NewZone
  pub rrsets : List RrSet

unfoldable pub plan_zone : Idna → ParseIp → Text → CreateZoneRequest → Reply Plan
plan_zone idna parse_ip today request = do
  zone_name ← new_zone_name idna request
  nameservers ← zone_nameservers idna zone_name request
  rrsets ←
      if needs_rrsets request
      then initial_zone_rrsets idna parse_ip today zone_name nameservers request
      else done []
  done (record {
    zone_name = zone_name;
    zone = record {
      name = zone_name;
      kind = if is_empty request.kind then txt "Native" else request.kind;
      nameservers = nameservers;
      masters = request.masters;
      dnssec = request.dnssec;
    };
    rrsets = rrsets;
  })

-- An error of the patch, wrapped with `%w`.
abbrev wrapped : Text → Text → Text
wrapped zone_name e = txt "initialize authoritative zone " ++ zone_name ++ txt ": " ++ e

module _ (s : Server) where
  -- The end of the creation: after an error of the patch the zone is deleted, and the error of
  -- the deletion is dropped.
  abbrev pub settled_zone : Text → Zone → Reply (Unit {0}) × List Call → Reply Zone × List Call
  settled_zone zone_name zone (done u, sent) = (done zone, sent)
  settled_zone zone_name zone (invalid e, sent) =
      (invalid (wrapped zone_name e), (delete_zone s zone_name sent).1)
  settled_zone zone_name zone (failed e, sent) =
      (failed (wrapped zone_name e), (delete_zone s zone_name sent).1)

  unfoldable pub initialize_zone : Plan → Zone → Client Zone
  initialize_zone plan zone sent =
      if is_nil plan.rrsets
      then (done (decorate_zone s.unicode zone), sent)
      else settled_zone plan.zone_name (decorate_zone s.unicode zone)
          (patch_authoritative_zone s plan.zone_name plan.rrsets sent)

  unfoldable pub create_authoritative_zone : ParseIp → Text → CreateZoneRequest → Client Zone
  create_authoritative_zone parse_ip today request sent =
      and_then (plan_zone s.idna parse_ip today request, sent)
        (λ plan calls.
          and_then
            (do_json s authoritative (txt "POST") (server_path s (txt "/zones"))
              (new_zone plan.zone) s.decode_zone empty_zone calls)
            (initialize_zone plan))
