-- ===== src/PowerDns/Fit.antt =====
-- The record sets that pass the checks of a patch (internal/powerdns/client.go).
use any_ns.Base.{
  ℕ, suc, ◌||◌, ◌+◌, List, [], ◌∷◌, ◌++◌, true, false, not, ◌≡◌, refl, ap, ◌⊎◌, inl, inr, Text, txt,
  ◌=t◌, =t_iff, is_empty, length, All, ◌==◌, arith, Bool-cases,
}
use mathlib.Core.Path.{subst}
use any_ns.Base.Result.{ok}
use any_ns.Access.{is_nil}
use any_ns.DnsName.{Idna}
use any_ns.PowerDns.{
  invalid, done, ◌>>=◌, validated, require, Record, RrSet, default_uint32, is_root,
  normalize_zone_name, valid_record_type, name_inside_zone,
}
use any_ns.PowerDns.Patch.{
  validate_record_content_safety, normalize_record_content, Normalize,
  validate_rrset_owner_for_type,
}
use any_ns.PowerDns.RrSets.{
  rrset_message, record_message, replaced, cleaned, check_record, check_records, check_change,
  check_owner, check_rrset, check_rrsets,
}
use any_ns.PowerDns.Replies.{done_inj, >>=-eq-done, validated-eq-done, require-eq-done}

abbrev pub HasContent : Record → Type 0
HasContent r = is_empty r.content ≡ false

pub record IsReplacement (r : RrSet) : Type 0 where
  change : r.change_type ≡ txt "REPLACE"
  some_ttl : (r.ttl == 0) ≡ false
  some_record : is_nil r.records ≡ false
  contents : All HasContent r.records

pub record IsDeletion (r : RrSet) : Type 0 where
  change : r.change_type ≡ txt "DELETE"
  no_ttl : r.ttl ≡ 0
  no_record : r.records ≡ []
  no_comment : r.comments ≡ []

abbrev pub IsChange : RrSet → Type 0
IsChange r = IsReplacement r ⊎ IsDeletion r

-- A record set that may be sent for a zone.
pub record IsFit (zone_id : Text) (r : RrSet) : Type 0 where
  inside : name_inside_zone r.name zone_id ≡ true
  typed : valid_record_type r.type_name ≡ true
  owned : validate_rrset_owner_for_type zone_id r.name r.type_name ≡ ok tt
  change : IsChange r

default_nonzero : (v : ℕ) → (default_uint32 v 300 == 0) ≡ false
default_nonzero v = ground arith

module _ (idna : Idna) (normalize : Normalize) where
  check_record_lem :
      (t : Text) (i j : ℕ) (r q : Record)
      → check_record idna normalize t i j r ≡ done q
      → HasContent q
  unfolding check_record
  check_record_lem t i j r q h =
      let (safe, a, h1) =
        >>=-eq-done
          (validated (record_message i j (txt "invalid"))
            (validate_record_content_safety r.content))
          _ h in
      let (content, b, h2) =
        >>=-eq-done
          (validated (record_message i j (txt "invalid"))
            (normalize_record_content idna normalize t r.content))
          _ h1 in
      let (given, c, h3) =
        >>=-eq-done (require (not (is_empty content)) (record_message i j (txt "required"))) _ h2 in
      let good = require-eq-done (not (is_empty content)) _ c in
      subst HasContent (done_inj h3) (ground arith)

  check_records_lem :
      (t : Text) (i j : ℕ) (rs qs : List Record)
      → check_records idna normalize t i j rs ≡ done qs
      → (is_nil qs ≡ is_nil rs) × All HasContent qs
  unfolding check_records
  check_records_lem t i j [] qs h =
      subst (λ x. (is_nil x ≡ true) × All HasContent x) (done_inj h) (refl, tt)
  check_records_lem t i j (r ∷ rs) qs h =
      let (first, a, h1) = >>=-eq-done (check_record idna normalize t i j r) _ h in
      let (rest, b, h2) = >>=-eq-done (check_records idna normalize t i (j + 1) rs) _ h1 in
      subst (λ x. (is_nil x ≡ false) × All HasContent x) (done_inj h2)
        (refl, (check_record_lem t i j r first a, (check_records_lem t i (j + 1) rs rest b).1))

  check_change_lem :
      (i : ℕ) (r q : RrSet)
      → check_change idna normalize i r ≡ done q
      → IsChange q × (q.name ≡ r.name) × (q.type_name ≡ r.type_name)
  unfolding check_change
  check_change_lem i r q h = elim (Bool-cases (r.change_type =t txt "REPLACE")) [
    | inl is_so ↦
        let (rs, b, h2) =
          >>=-eq-done
            (require (not (is_nil r.records))
                (rrset_message i (txt "records is required for REPLACE"))
              >>= (λ given. check_records idna normalize r.type_name i 0 r.records))
            (λ rs. done (replaced idna normalize r rs)) (rw is_so at h) in
        let (given, c, h1) =
          >>=-eq-done
            (require (not (is_nil r.records))
              (rrset_message i (txt "records is required for REPLACE")))
            (λ given. check_records idna normalize r.type_name i 0 r.records) b in
        let good = require-eq-done (not (is_nil r.records)) _ c in
        let (same, full) = check_records_lem r.type_name i 0 r.records rs h1 in
        subst (λ x. IsChange x × (x.name ≡ r.name) × (x.type_name ≡ r.type_name)) (done_inj h2)
          (
            inl (record {
              change = (=t_iff _ _).0 is_so;
              some_ttl = default_nonzero r.ttl;
              some_record = ground arith;
              contents = full;
            }),
            refl,
            refl,
          )
    | inr is_not ↦ elim (Bool-cases (r.change_type =t txt "DELETE")) [
      | inl is_so ↦
          subst (λ x. IsChange x × (x.name ≡ r.name) × (x.type_name ≡ r.type_name))
            (done_inj (rw (is_not, is_so) at h))
            (
              inr (record {
                change = (=t_iff _ _).0 is_so;
                no_ttl = refl;
                no_record = refl;
                no_comment = refl;
              }),
              refl,
              refl,
            )
      | inr neither ↦
          let k : invalid (rrset_message i (txt "changetype must be REPLACE or DELETE")) ≡ done q =
            rw (is_not, neither) at h in
          cc
    ]
  ]

  check_owner_lem :
      (zone_id : Text) (i : ℕ) (r : RrSet) {u : Unit {0}}
      → check_owner idna normalize zone_id i r ≡ done u
      → (name_inside_zone r.name zone_id ≡ true)
        × (valid_record_type r.type_name ≡ true)
        × (validate_rrset_owner_for_type zone_id r.name r.type_name ≡ ok u)
  unfolding check_owner
  check_owner_lem zone_id i r h = elim (Bool-cases (is_root r.name || is_empty r.name)) [
    | inl none ↦
        let k : invalid (rrset_message i (txt "name is required")) ≡ done _ = rw none at h in cc
    | inr some ↦ elim (Bool-cases (name_inside_zone r.name zone_id)) [
      | inr outside ↦
          let k : invalid (rrset_message i (txt "name must be inside zone " ++ zone_id)) ≡ done _ =
            rw (some, outside) at h in
          cc
      | inl inside ↦ elim (Bool-cases (valid_record_type r.type_name)) [
        | inr bad ↦
            let k : invalid (rrset_message i (txt "type is invalid")) ≡ done _ =
              rw (some, inside, bad) at h in
            cc
        | inl good ↦ (
          inside,
          good,
          validated-eq-done (rrset_message i (txt "name is invalid for " ++ r.type_name)) _
              (rw (some, inside, good) at h),
        )
      ]
    ]
  ]

  check_rrset_lem :
      (zone_id : Text) (i : ℕ) (r q : RrSet)
      → check_rrset idna normalize zone_id i r ≡ done q
      → IsFit zone_id q
  unfolding check_rrset
  check_rrset_lem zone_id i r q h =
      let (name, a, h1) =
        >>=-eq-done
          (validated (rrset_message i (txt "name is invalid")) (normalize_zone_name idna r.name)) _
          h in
      let (owned, b, h2) =
        >>=-eq-done (check_owner idna normalize zone_id i (cleaned idna normalize r name)) _ h1 in
      let (inside, typed, owner) = check_owner_lem zone_id i (cleaned idna normalize r name) b in
      let (change, same_name, same_type) =
        check_change_lem i (cleaned idna normalize r name) q h2 in
      record {
        inside = rw same_name inside;
        typed = rw same_type typed;
        owned = rw (same_name, same_type) owner;
        change = change;
      }

  pub check_rrsets_lem :
      (zone_id : Text) (i : ℕ) (rs qs : List RrSet)
      → check_rrsets idna normalize zone_id i rs ≡ done qs
      → (length qs ≡ length rs) × All (IsFit zone_id) qs
  unfolding check_rrsets
  check_rrsets_lem zone_id i [] qs h =
      subst (λ x. (length x ≡ 0) × All (IsFit zone_id) x) (done_inj h) (refl, tt)
  check_rrsets_lem zone_id i (r ∷ rs) qs h =
      let (first, a, h1) = >>=-eq-done (check_rrset idna normalize zone_id i r) _ h in
      let (rest, b, h2) = >>=-eq-done (check_rrsets idna normalize zone_id (i + 1) rs) _ h1 in
      let (size, fits) = check_rrsets_lem zone_id (i + 1) rs rest b in
      subst (λ x. (length x ≡ suc (length rs)) × All (IsFit zone_id) x) (done_inj h2)
        (ap suc size, (check_rrset_lem zone_id i r first a, fits))
