-- ===== src/PowerDns/Patch.antt =====
-- The record sets that internal/powerdns/client.go sends in a patch: the rules that they pass, and
-- the form they are given. The content of the types of internal/dnsrr goes through the function
-- `Normalize` of it.
use any_ns.Base.{
  ℕ, zero, suc, ◌-◌, List, [], ◌∷◌, ◌++◌, Bool, false, not, ◌&&◌, ◌||◌, Option, some, Text, txt,
  ◌=t◌, is_empty, trim_space, trim_prefix, has_suffix, split, join, length, take, any, ltb, leb,
  ◌==◌, if◌then◌else◌,
}
use any_ns.Base.Int.{ℤ, pos}
use any_ns.Base.Number.{atoi}
use any_ns.Base.Result.{Result, ok, err, ◌>>=◌}
use any_ns.Base.Members.{has_text}
use any_ns.DnsName.{Idna}
use any_ns.Records.{managed_type, checked}
use any_ns.PowerDns.{normalize_zone_name, is_root, max_record_content_length}
use any_ns.Base.Fields.{fields}

abbrev pub is_control : ℕ → Bool
is_control c = ltb c 0x20 || c == 0x7f

-- `ok` stands for a nil error, here and in the owner checks.
unfoldable pub validate_record_content_safety : Text → Result (Unit {0})
validate_record_content_safety given =
    let content = trim_space given in
    if ltb max_record_content_length (length content)
    then err (txt "record content exceeds 4096 bytes")
    else checked (not (any is_control content))
        (txt "record content must not contain literal control characters")

-- `strings.TrimSuffix`
abbrev pub without_suffix : Text → Text → Text
without_suffix s p = if has_suffix s p then take (length s - length p) s else s

abbrev pub is_port : Option ℤ → Bool
is_port (some (pos n)) = not (n == 0) && leb n 65535
is_port o = false

unfoldable pub validate_tlsa_labels : List Text → Result (Unit {0})
validate_tlsa_labels (port_label ∷ protocol ∷ labels) =
    let port = trim_prefix port_label (txt "_") in
    if port =t port_label || is_empty port
    then err (txt "TLSA port label must start with underscore")
    else if not (is_port (atoi port))
    then err (txt "TLSA port label must be between _1 and _65535")
    else checked (has_text protocol (txt "_tcp" ∷ txt "_udp" ∷ txt "_sctp" ∷ []))
        (txt "TLSA protocol label must be _tcp, _udp, or _sctp")
validate_tlsa_labels labels = err (txt "TLSA owner must include _port._protocol labels")

unfoldable pub validate_tlsa_owner : Text → Text → Result (Unit {0})
unfolding validate_tlsa_labels
validate_tlsa_owner owner zone_id =
    let relative = without_suffix owner (b'.' ∷ zone_id) in
    if owner =t zone_id
    then err (txt "TLSA owner must include _port._protocol labels")
    else if relative =t owner || is_empty relative
    then err (txt "TLSA owner must be inside zone and include _port._protocol labels")
    else validate_tlsa_labels (split relative b'.')

unfoldable pub validate_rrset_owner_for_type : Text → Text → Text → Result (Unit {0})
validate_rrset_owner_for_type zone_id owner record_type =
    if has_text record_type (txt "SOA" ∷ txt "DNSKEY" ∷ [])
    then checked (owner =t zone_id) (record_type ++ txt " records must be at the zone apex")
    else if record_type =t txt "TLSA"
    then validate_tlsa_owner owner zone_id
    else ok tt

-- `normalizeField(index)` on the fields.
unfoldable pub normalize_field : Idna → ℕ → List Text → Result (List Text)
normalize_field idna i [] = ok []
normalize_field idna zero (f ∷ fs) =
    if is_root f then ok (f ∷ fs) else do name ← normalize_zone_name idna f; ok (name ∷ fs)
normalize_field idna (suc i) (f ∷ fs) = do rest ← normalize_field idna i fs; ok (f ∷ rest)

-- The names among the fields of a content, by the type of its record.
unfoldable pub normalize_fields : Idna → Text → List Text → Result (List Text)
normalize_fields idna t fs =
    if has_text t (txt "CNAME" ∷ txt "DNAME" ∷ txt "NS" ∷ txt "PTR" ∷ [])
    then (if length fs == 1
        then normalize_field idna 0 fs
        else err (t ++ txt " record requires one DNS name"))
    else if t =t txt "MX"
    then (if length fs == 2
        then normalize_field idna 1 fs
        else err (txt "MX record requires priority and target"))
    else if t =t txt "SRV"
    then (if length fs == 4
        then normalize_field idna 3 fs
        else err (txt "SRV record requires priority, weight, port, and target"))
    else if t =t txt "SOA"
    then (if length fs == 7
        then normalize_field idna 0 fs >>= normalize_field idna 1
        else err (txt "SOA record requires seven fields"))
    else if has_text t (txt "SVCB" ∷ txt "HTTPS" ∷ [])
    then (if ltb (length fs) 2
        then err (t ++ txt " record requires priority and target")
        else normalize_field idna 1 fs)
    else ok fs

-- `dnsrr.Normalize`: an owner, a type and a content to the content's normal form.
abbrev pub Normalize : Type 0
Normalize = Text → Text → Text → Result Text

abbrev in_normal_form : Normalize → Text → Text → Result Text
in_normal_form normalize record_type content =
    if managed_type record_type
    then normalize (txt "_validation.invalid.") record_type content
    else ok content

unfoldable pub normalize_record_content : Idna → Normalize → Text → Text → Result Text
normalize_record_content idna normalize record_type given =
    let content = trim_space given in
    if is_empty content then ok [] else do
      fs ← normalize_fields idna record_type (fields content)
      in_normal_form normalize record_type (join fs (txt " "))
