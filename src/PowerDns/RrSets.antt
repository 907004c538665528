-- ===== src/PowerDns/RrSets.antt =====
-- The loops of PatchAuthoritativeZone (internal/powerdns/client.go) over the record sets and their
-- records.
use any_ns.Base.{
  ℕ, ◌+◌, List, [], ◌∷◌, ◌++◌, not, Text, txt, ◌=t◌, is_empty, trim_space, to_upper, ◌||◌,
  if◌then◌else◌,
}
use any_ns.Base.Number.{itoa}
use any_ns.Access.{is_nil}
use any_ns.DnsName.{Idna}
use any_ns.PowerDns.{
  Reply, invalid, done, ◌>>=◌, validated, require, Record, RrSet, normalize_zone_name, is_root,
  valid_record_type, name_inside_zone, default_uint32,
}
use any_ns.PowerDns.Patch.{
  validate_record_content_safety, validate_rrset_owner_for_type, Normalize,
  normalize_record_content,
}

abbrev pub rrset_message : ℕ → Text → Text
rrset_message i rest = txt "rrsets[" ++ itoa i ++ txt "]." ++ rest

abbrev pub record_message : ℕ → ℕ → Text → Text
record_message i j rest = rrset_message i (txt "records[" ++ itoa j ++ txt "].content is " ++ rest)

abbrev with_content : Record → Text → Record
with_content r content = record r { content = content }

module _ (idna : Idna) (normalize : Normalize) where
  unfoldable pub check_record : Text → ℕ → ℕ → Record → Reply Record
  check_record type_name i j r = do
    safe ← validated (record_message i j (txt "invalid")) (validate_record_content_safety r.content)
    content ←
        validated (record_message i j (txt "invalid"))
          (normalize_record_content idna normalize type_name r.content)
    given ← require (not (is_empty content)) (record_message i j (txt "required"))
    done (with_content r content)

  unfoldable pub check_records : Text → ℕ → ℕ → List Record → Reply (List Record)
  check_records type_name i j [] = done []
  check_records type_name i j (r ∷ rs) = do
    first ← check_record type_name i j r
    rest ← check_records type_name i (j + 1) rs
    done (first ∷ rest)

  abbrev pub replaced : RrSet → List Record → RrSet
  replaced r rs = record r { ttl = default_uint32 r.ttl 300; records = rs }

  abbrev pub deleted : RrSet → RrSet
  deleted r = record r { ttl = 0; records = []; comments = [] }

  -- The switch on the type of the change.
  unfoldable pub check_change : ℕ → RrSet → Reply RrSet
  check_change i r =
      if r.change_type =t txt "REPLACE"
      then (require (not (is_nil r.records))
            (rrset_message i (txt "records is required for REPLACE"))
          >>= (λ given. check_records r.type_name i 0 r.records)
          >>= (λ rs. done (replaced r rs)))
      else if r.change_type =t txt "DELETE"
      then done (deleted r)
      else invalid (rrset_message i (txt "changetype must be REPLACE or DELETE"))

  abbrev upper : Text → Text
  upper s = to_upper (trim_space s)

  abbrev pub cleaned : RrSet → Text → RrSet
  cleaned r name = record r {
    name = name;
    unicode_name = [];
    type_name = upper r.type_name;
    change_type = upper r.change_type;
  }

  -- The rules on the name and the type of a set.
  unfoldable pub check_owner : Text → ℕ → RrSet → Reply (Unit {0})
  check_owner zone_id i r =
      if is_root r.name || is_empty r.name
      then invalid (rrset_message i (txt "name is required"))
      else if not (name_inside_zone r.name zone_id)
      then invalid (rrset_message i (txt "name must be inside zone " ++ zone_id))
      else if not (valid_record_type r.type_name)
      then invalid (rrset_message i (txt "type is invalid"))
      else validated (rrset_message i (txt "name is invalid for " ++ r.type_name))
          (validate_rrset_owner_for_type zone_id r.name r.type_name)

  -- The body of the loop over the sets.
  unfoldable pub check_rrset : Text → ℕ → RrSet → Reply RrSet
  check_rrset zone_id i given = do
    name ← validated (rrset_message i (txt "name is invalid")) (normalize_zone_name idna given.name)
    owned ← check_owner zone_id i (cleaned given name)
    check_change i (cleaned given name)

  unfoldable pub check_rrsets : Text → ℕ → List RrSet → Reply (List RrSet)
  check_rrsets zone_id i [] = done []
  check_rrsets zone_id i (r ∷ rs) = do
    first ← check_rrset zone_id i r
    rest ← check_rrsets zone_id (i + 1) rs
    done (first ∷ rest)
