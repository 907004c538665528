-- ===== src/PowerDns/Updates.antt =====
-- The update of an SOA record on the server: the serial moves on from the one that was read.
use any_ns.Base.{
  ℕ, ◌<◌, List, [], ◌∷◌, ◌++◌, ◌≡◌, inl, inr, Text, txt, ◌=t◌, trim_space, to_upper, Bool-cases,
}
use mathlib.Core.Path.{subst}
use any_ns.Base.Fields.{fields}
use any_ns.DnsName.{Idna}
use any_ns.PowerDns.{
  Reply, invalid, done, Record, RrSet, Zone, SoaConfig, SoaRecord, default_uint32, required_zone_id,
}
use any_ns.PowerDns.Soa.{
  uint32_limit, of_seven, parse_soa_content, with_ttl, active_soa, apex_soa, zone_soa, next_soa,
}
use any_ns.PowerDns.Calls.{Call, Server}
use any_ns.PowerDns.Client.{
  soa_rrset, current_and_next, authoritative_zone, patch_authoritative_zone,
  update_authoritative_soa,
}
use any_ns.PowerDns.Replies.{done_inj, >>=-eq-done, and_then-eq-done}
use any_ns.PowerDns.Serials.{IsInRange, parse_soa_fields-IsInRange, Advances, next_soa-Advances}

of_seven-IsInRange :
    (idna : Idna) (fs : List Text) (soa : SoaRecord) → of_seven idna fs ≡ done soa → IsInRange soa
of_seven-IsInRange idna ([]) soa h = cc
of_seven-IsInRange idna (f0 ∷ []) soa h = cc
of_seven-IsInRange idna (f0 ∷ f1 ∷ []) soa h = cc
of_seven-IsInRange idna (f0 ∷ f1 ∷ f2 ∷ []) soa h = cc
of_seven-IsInRange idna (f0 ∷ f1 ∷ f2 ∷ f3 ∷ []) soa h = cc
of_seven-IsInRange idna (f0 ∷ f1 ∷ f2 ∷ f3 ∷ f4 ∷ []) soa h = cc
of_seven-IsInRange idna (f0 ∷ f1 ∷ f2 ∷ f3 ∷ f4 ∷ f5 ∷ []) soa h = cc
of_seven-IsInRange idna (f0 ∷ f1 ∷ f2 ∷ f3 ∷ f4 ∷ f5 ∷ f6 ∷ []) soa h =
    parse_soa_fields-IsInRange idna f0 f1 f2 f3 f4 f5 f6 soa h
of_seven-IsInRange idna (f0 ∷ f1 ∷ f2 ∷ f3 ∷ f4 ∷ f5 ∷ f6 ∷ f7 ∷ rest) soa h = cc

active_soa-IsInRange :
    (idna : Idna) (ttl : ℕ) (rs : List Record) (after : Reply SoaRecord) (soa : SoaRecord)
    → active_soa idna ttl rs after ≡ done soa
    → ((x : SoaRecord) → after ≡ done x → IsInRange x)
    → IsInRange soa
unfolding active_soa parse_soa_content IsInRange
active_soa-IsInRange idna ttl [] after soa h k = k soa h
active_soa-IsInRange idna ttl (r ∷ rs) after soa h k = elim (Bool-cases r.disabled) [
  | inl off ↦ active_soa-IsInRange idna ttl rs after soa (rw off at h) k
  | inr on ↦
      let (read, a, b) =
        >>=-eq-done (parse_soa_content idna r.content)
          (λ soa. done (with_ttl (default_uint32 ttl 300) soa)) (rw on at h) in
      subst (λ x. x.serial < uint32_limit) (done_inj b)
        (of_seven-IsInRange idna (fields r.content) read a)
]

apex_soa-IsInRange :
    (idna : Idna) (name : Text) (rs : List RrSet) (soa : SoaRecord)
    → apex_soa idna name rs ≡ done soa
    → IsInRange soa
unfolding apex_soa
apex_soa-IsInRange idna name [] soa h = cc
apex_soa-IsInRange idna name (r ∷ rs) soa h =
    elim (Bool-cases (to_upper (trim_space r.type_name) =t txt "SOA")) [
      | inr other ↦ apex_soa-IsInRange idna name rs soa (rw other at h)
      | inl found ↦ elim (Bool-cases (r.name =t name)) [
        | inr apart ↦
            let k : invalid (txt "apex SOA name " ++ r.name ++ txt " does not match zone " ++ name)
                ≡ done soa =
              rw (found, apart) at h in
            cc
        | inl same ↦
            active_soa-IsInRange idna r.ttl r.records (apex_soa idna name rs) soa
              (rw (found, same) at h) (λ x k. apex_soa-IsInRange idna name rs x k)
      ]
    ]

zone_soa-IsInRange :
    (idna : Idna) (zone : Zone) (soa : SoaRecord) → zone_soa idna zone ≡ done soa → IsInRange soa
unfolding zone_soa
zone_soa-IsInRange idna zone soa h = apex_soa-IsInRange idna zone.name zone.rrsets soa h

module _ (s : Server) where
  -- An update that succeeds: the record `next` is the update of the one that the zone had.
  pub record IsTaken (update : SoaConfig) (sent : List Call) (id : Text) (next : SoaRecord)
      : Type 0 where
    zone : Zone
    current : SoaRecord
    was_read : (authoritative_zone s id sent).0 ≡ done zone
    was_current : zone_soa s.idna zone ≡ done current
    advances : Advances current next
    was_patched :
        (patch_authoritative_zone s id
          (soa_rrset s id next ∷ [])
          (authoritative_zone s id sent).1).0
        ≡ done tt

  -- Where the serial of an update fits in 32 bits, an update of a zone's SOA record that returns a
  -- record has a valid zone ID, has read the zone and found its SOA record, and had the patch with
  -- the record taken. The serial of the record is greater than the one found and fits in 32 bits,
  -- its names are not blank, its refresh, retry and minimum are at least 60 and its expire at least
  -- 300, and its TTL is 0 or at least 60.
  pub update_authoritative_soa-IsTaken :
      (zone_id : Text) (update : SoaConfig) (sent : List Call) (next : SoaRecord)
      → update.serial < uint32_limit
      → (update_authoritative_soa s zone_id update sent).0 ≡ done next
      → (id : Text) × (required_zone_id s.idna zone_id ≡ done id) × IsTaken update sent id next
  unfolding update_authoritative_soa IsInRange
  update_authoritative_soa-IsTaken zone_id update sent next small h =
      let (id, named, h1) = and_then-eq-done (required_zone_id s.idna zone_id) _ sent h in
      let got = authoritative_zone s id sent in
      let (zone, was_read, h2) = and_then-eq-done got.0 _ got.1 h1 in
      let (next', chosen, h3) = and_then-eq-done (current_and_next s update zone) _ got.1 h2 in
      let (current, was_current, was_next) =
        >>=-eq-done (zone_soa s.idna zone) (λ current. next_soa s.idna current update) chosen in
      let put = patch_authoritative_zone s id (soa_rrset s id next' ∷ []) got.1 in
      let (patched, was_patched, h4) = and_then-eq-done put.0 _ put.1 h3 in
      let fine =
        next_soa-Advances s.idna current update next' was_next
          (zone_soa-IsInRange s.idna zone current was_current) small in
      (
        id,
        named,
        subst (IsTaken update sent id) (done_inj h4) (record {
          zone = zone;
          current = current;
          was_read = was_read;
          was_current = was_current;
          advances = fine;
          was_patched = was_patched;
        }),
      )
