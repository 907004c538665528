-- ===== src/PowerDns/Inside.antt =====
-- What a patch of a zone sends (internal/powerdns/client.go).
use any_ns.Base.{
  List, [], ◌∷◌, ◌++◌, false, not, ◌≡◌, refl, ◌∙◌, ◌⊎◌, inl, inr, Text, txt, length, All, arith,
}
use any_ns.Base.Result.{ok}
use any_ns.Access.{is_nil}
use any_ns.Records.{normalize_record}
use any_ns.PowerDns.{done, require, RrSet}
use any_ns.PowerDns.RrSets.{check_rrsets}
use any_ns.PowerDns.Calls.{Call, Server, authoritative, patch, call_to, zone_path}
use any_ns.PowerDns.Client.{spelled_zone_id, checked_rrsets, patch_authoritative_zone}
use any_ns.PowerDns.Fit.{IsFit, check_rrsets_lem}
use any_ns.PowerDns.Replies.{>>=-eq-done, and_then-cases, do_json-cases, require-eq-done}

same_nil : (qs rs : List RrSet) → length qs ≡ length rs → is_nil rs ≡ false → is_nil qs ≡ false
same_nil [] [] l h = h
same_nil [] (r ∷ rs) l h = absurd (omega (arith, l))
same_nil (q ∷ qs) rs l h = refl

module _ (s : Server) where
  checked_rrsets_lem :
      (id : Text) (rs qs : List RrSet)
      → checked_rrsets s id rs ≡ done qs
      → (length qs ≡ length rs) × (is_nil qs ≡ false) × All (IsFit id) qs
  unfolding checked_rrsets
  checked_rrsets_lem id rs qs h =
      let (given, a, checked) =
        >>=-eq-done (require (not (is_nil rs)) (txt "at least one rrset is required"))
          (λ given. check_rrsets s.idna (normalize_record s.records) id 0 rs) h in
      let some = require-eq-done (not (is_nil rs)) (txt "at least one rrset is required") a in
      let (size, fits) = check_rrsets_lem s.idna (normalize_record s.records) id 0 rs qs checked in
      (size, same_nil qs rs size (ground arith), fits)

  -- The patch that is sent for a zone.
  abbrev pub patch_of : Text → List RrSet → Call
  patch_of id qs = call_to s authoritative (txt "PATCH") (zone_path s id) (patch qs)

  -- The requests after a patch: none more, or the patch of fit record sets, as many as given.
  unfoldable pub SendsFit : Text → List RrSet → List Call → List Call → Type 0
  SendsFit zone_id rs sent after =
      (after ≡ sent)
      ⊎ ((id : Text) × (qs : List RrSet) × (after ≡ sent ++ patch_of id qs ∷ [])
          × (length qs ≡ length rs)
          × (is_nil qs ≡ false)
          × All (IsFit id) qs)

  -- A patch of a zone sends no request, or one PATCH to a zone of a name `id` with as many record
  -- sets as were given, and at least one. Each is fit for that zone: its name is the zone's or ends
  -- in it behind a dot, its type is valid and may stand at that name, and it either replaces, with
  -- a TTL other than 0 and at least one record, none without content, or deletes, with a TTL of 0,
  -- no records and no comments.
  pub patch-SendsFit :
      (zone_id : Text) (rs : List RrSet) (sent : List Call)
      → SendsFit zone_id rs sent (patch_authoritative_zone s zone_id rs sent).1
  unfolding SendsFit patch_authoritative_zone checked_rrsets
  patch-SendsFit zone_id rs sent = elim (and_then-cases (spelled_zone_id s.idna zone_id) _ sent) [
    | inl stopped ↦ inl stopped
    | inr (id, named, to_checks) ↦ elim (and_then-cases (checked_rrsets s id rs) _ sent) [
      | inl stopped ↦ inl (to_checks ∙ stopped)
      | inr (qs, checked, to_send) ↦
          elim (do_json-cases s authoritative (txt "PATCH") (zone_path s id) (patch qs)
            (λ body. ok tt) tt sent) [
              | inl unsent ↦ inl (to_checks ∙ to_send ∙ unsent)
              | inr called ↦
                  let (size, some, fits) = checked_rrsets_lem id rs qs checked in
                  inr (id, qs, to_checks ∙ to_send ∙ called, size, some, fits)
            ]
    ]
  ]
