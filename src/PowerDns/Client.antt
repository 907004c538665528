-- ===== src/PowerDns/Client.antt =====
-- The operations of the client in internal/powerdns/client.go on zones, keys and the cache.
use any_ns.Base.{
  ℕ, map, ◌||◌, List, [], ◌∷◌, ◌++◌, Bool, false, not, Text, txt, is_empty, trim_space, to_lower,
  to_upper, if◌then◌else◌,
}
use any_ns.Base.Int.{ℤ, pos, negsuc}
use any_ns.Base.Number.{itoa}
use any_ns.Base.Members.{has_text}
use any_ns.Access.{is_nil}
use any_ns.DnsName.{Idna}
use any_ns.Records.{normalize_record, ds_from_dns_key}
use any_ns.PowerDns.{
  Reply, invalid, failed, done, ◌>>=◌, validated, require, RrSet, Zone, SoaConfig, SoaRecord,
  normalize_zone_name, is_root, is_blank_text, required_zone_id, decorate_zone,
}
use any_ns.PowerDns.Soa.{content, zone_soa, next_soa}
use any_ns.PowerDns.RrSets.{check_rrsets}
use any_ns.PowerDns.Calls.{
  NewKey, CryptoKey, CacheFlushResult, no_input, patch, new_key, Service, authoritative, recursor,
  Call, Server, Client, server_path, zone_path, do_json, send,
}

-- An operation that stops at an error.
abbrev pub and_then {ℓ κ} :
    {A : Type ℓ} {B : Type κ} → Reply A × List Call → (A → Client B) → Reply B × List Call
and_then (invalid e, sent) next = (invalid e, sent)
and_then (failed e, sent) next = (failed e, sent)
and_then (done a, sent) next = next a sent

abbrev pub empty_zone : Zone
empty_zone = record {
  id = [];
  name = [];
  unicode_name = [];
  kind = [];
  dnssec = false;
  serial = 0;
  notified_serial = 0;
  last_check = pos 0;
  masters = [];
  account = [];
  url = [];
  rrsets = [];
}

abbrev empty_key : CryptoKey
empty_key = record {
  id = pos 0;
  key_type = [];
  active = false;
  published = false;
  dnskey = [];
  ds = [];
}

-- The check at the head of AuthoritativeZone and PatchAuthoritativeZone.
unfoldable pub spelled_zone_id : Idna → Text → Reply Text
spelled_zone_id idna zone_id =
    validated (txt "invalid zone id") (normalize_zone_name idna zone_id) >>= (λ id.
      if is_root id || is_blank_text id then invalid (txt "zone id is required") else done id)

module _ (s : Server) where
  unfoldable pub zones : Service → Client (List Zone)
  zones service sent =
      and_then
        (do_json s service (txt "GET") (server_path s (txt "/zones")) no_input s.decode_zones []
          sent)
        (λ zs calls. (done (map (decorate_zone s.unicode) zs), calls))

  unfoldable pub authoritative_zone : Text → Client Zone
  authoritative_zone zone_id sent =
      and_then (spelled_zone_id s.idna zone_id, sent)
        (λ id calls.
          and_then
            (do_json s authoritative (txt "GET") (zone_path s id) no_input s.decode_zone empty_zone
              calls)
            (λ zone after. (done (decorate_zone s.unicode zone), after)))

  -- The record sets of a patch, after the checks.
  unfoldable pub checked_rrsets : Text → List RrSet → Reply (List RrSet)
  checked_rrsets id rs =
      require (not (is_nil rs)) (txt "at least one rrset is required")
      >>= (λ given. check_rrsets s.idna (normalize_record s.records) id 0 rs)

  unfoldable pub patch_authoritative_zone : Text → List RrSet → Client (Unit {0})
  patch_authoritative_zone zone_id rs sent =
      and_then (spelled_zone_id s.idna zone_id, sent)
        (λ id calls.
          and_then (checked_rrsets id rs, calls)
            (λ checked after. send s (txt "PATCH") (zone_path s id) (patch checked) after))

  abbrev pub soa_rrset : Text → SoaRecord → RrSet
  soa_rrset zone_id next = record {
    name = zone_id;
    unicode_name = [];
    type_name = txt "SOA";
    ttl = next.ttl;
    change_type = txt "REPLACE";
    records = record { content = content next; disabled = false } ∷ [];
    comments = [];
  }

  abbrev pub current_and_next : SoaConfig → Zone → Reply SoaRecord
  current_and_next update zone =
      zone_soa s.idna zone >>= (λ current. next_soa s.idna current update)

  unfoldable pub update_authoritative_soa : Text → SoaConfig → Client SoaRecord
  update_authoritative_soa zone_id update sent =
      and_then (required_zone_id s.idna zone_id, sent)
        (λ id calls. and_then (authoritative_zone id calls) (λ zone after.
          and_then (current_and_next update zone, after)
            (λ next last.
              and_then (patch_authoritative_zone id (soa_rrset id next ∷ []) last)
                (λ patched end. (done next, end)))))

  unfoldable pub authoritative_crypto_keys : Text → Client (List CryptoKey)
  authoritative_crypto_keys zone_id sent =
      and_then (required_zone_id s.idna zone_id, sent)
        (λ id calls.
          do_json s authoritative (txt "GET") (zone_path s id ++ txt "/cryptokeys") no_input
            s.decode_keys [] calls)

  unfoldable pub key_type_of : Text → Reply Text
  key_type_of given =
      let trimmed = to_lower (trim_space given) in
      let key_type = if is_empty trimmed then txt "csk" else trimmed in
      if has_text key_type (txt "csk" ∷ txt "ksk" ∷ txt "zsk" ∷ [])
      then done key_type
      else invalid (txt "keytype must be csk, ksk, or zsk")

  abbrev with_key_type : NewKey → Text → NewKey
  with_key_type k key_type = record k {
    key_type = key_type;
    algorithm = if is_empty k.algorithm then [] else to_upper (trim_space k.algorithm);
  }

  unfoldable pub create_authoritative_crypto_key : Text → NewKey → Client CryptoKey
  create_authoritative_crypto_key zone_id request sent =
      and_then (required_zone_id s.idna zone_id, sent)
        (λ id calls.
          and_then (key_type_of request.key_type, calls)
            (λ key_type after.
              do_json s authoritative (txt "POST") (zone_path s id ++ txt "/cryptokeys")
                (new_key (with_key_type request key_type)) s.decode_key empty_key after))

  abbrev key_id_of : ℤ → Reply ℕ
  key_id_of (pos n) = done n
  key_id_of (negsuc n) = invalid (txt "key id must not be negative")

  unfoldable pub delete_authoritative_crypto_key : Text → ℤ → Client (Unit {0})
  delete_authoritative_crypto_key zone_id key_id sent =
      and_then (required_zone_id s.idna zone_id, sent)
        (λ id calls.
          and_then (key_id_of key_id, calls)
            (λ n after.
              send s (txt "DELETE") (zone_path s id ++ txt "/cryptokeys/" ++ itoa n) no_input
                after))

  unfoldable pub derive_ds : Text → Text → ℕ → Reply Text
  derive_ds zone_name content digest_type = do
    name ← validated (txt "invalid zone name") (normalize_zone_name s.idna zone_name)
    validated (txt "derive DS") (ds_from_dns_key s.records name content digest_type)

  -- `deleteAuthoritativeZone`
  unfoldable pub delete_zone : Text → Client (Unit {0})
  delete_zone id = send s (txt "DELETE") (zone_path s id) no_input

  unfoldable pub delete_authoritative_zone : Text → Client (Unit {0})
  delete_authoritative_zone zone_id sent =
      and_then (required_zone_id s.idna zone_id, sent) delete_zone

  abbrev bool_text : Bool → Text
  bool_text b = if b then txt "true" else txt "false"

  abbrev flush_path : Text → Bool → Text
  flush_path domain subtree =
      server_path s (txt "/cache/flush")
      ++ txt "?domain="
      ++ s.query_escape domain
      ++ txt "&subtree="
      ++ bool_text subtree

  unfoldable pub flush_recursor_cache : Text → Bool → Client CacheFlushResult
  flush_recursor_cache given subtree sent =
      and_then (validated (txt "invalid cache domain") (normalize_zone_name s.idna given), sent)
        (λ domain calls.
          do_json s recursor (txt "PUT")
            (flush_path (if is_root domain then [] else domain) subtree) no_input s.decode_flush
            (record { count = pos 0; result = [] }) calls)
