-- ===== src/PowerDns/Rollback.antt =====
-- What the creation of a zone leaves behind on the server.
use any_ns.Base.{
  List, [], ◌∷◌, ◌++◌, true, false, ◌≡◌, refl, sym, ap, ◌∙◌, ◌⊎◌, inl, inr, Text, txt, is_empty,
  Bool-cases,
}
use any_ns.Access.{is_nil}
use any_ns.PowerDns.{Reply, invalid, failed, done, Zone, CreateZoneRequest, decorate_zone}
use any_ns.PowerDns.Calls.{
  Input, Service, Client, service_name, no_input, new_zone, authoritative, Call, Server, endpoint,
  call_to, server_path, zone_path, do_json,
}
use any_ns.PowerDns.Initial.{ParseIp}
use any_ns.PowerDns.Zones.{
  Plan, plan_zone, settled_zone, initialize_zone, create_authoritative_zone,
}
use any_ns.Base.Result.{Result}
use mathlib.Core.Path.{subst}
use any_ns.PowerDns.Client.{and_then, empty_zone, patch_authoritative_zone, delete_zone}

abbrev pub IsError {ℓ} : {A : Type ℓ} → Reply A → Type 0
IsError (done a) = ⊥
IsError r = Unit

abbrev reply_of : Reply Zone × List Call → Reply Zone
reply_of x = x.0

abbrev calls_of : Reply Zone × List Call → List Call
calls_of x = x.1

module _ {ℓ κ} {A : Type ℓ} {B : Type κ} where
  -- An operation ends in the error of its first part, or as the rest does on its value.
  and_then-split :
      (first : Reply A) (next : A → Client B) (sent : List Call)
      → (IsError first
          × IsError (and_then (first, sent) next).0
          × ((and_then (first, sent) next).1 ≡ sent))
        ⊎ ((a : A) × (first ≡ done a) × (and_then (first, sent) next ≡ next a sent))
  and_then-split (invalid e) next sent = inl (tt, tt, refl)
  and_then-split (failed e) next sent = inl (tt, tt, refl)
  and_then-split (done a) next sent = inr (a, refl, refl)

module _ (s : Server) where
  -- A request that has a value was sent to an endpoint.
  do_json_configured :
      {A : Type 0} (service : Service) (method path : Text) (input : Input)
      (decode : Text → Result A) (empty : A) (sent : List Call) {a : A}
      → (do_json s service method path input decode empty sent).0 ≡ done a
      → is_empty (endpoint s service).0 ≡ false
  unfolding do_json
  do_json_configured service method path input decode empty sent h =
      elim (Bool-cases (is_empty (endpoint s service).0)) [
        | inl unset ↦
            let k : failed (service_name service ++ txt " PowerDNS endpoint is not configured")
                ≡ done _ =
              simp (unset) at h in
            cc
        | inr set ↦ set
      ]

  abbrev posted : Plan → List Call → Reply Zone × List Call
  posted plan =
      do_json s authoritative (txt "POST") (server_path s (txt "/zones")) (new_zone plan.zone)
        s.decode_zone empty_zone

  abbrev patched : Plan → List Call → Reply (Unit {0}) × List Call
  patched plan = patch_authoritative_zone s plan.zone_name plan.rrsets

  abbrev delete_call : Plan → Call
  delete_call plan = call_to s authoritative (txt "DELETE") (zone_path s plan.zone_name) no_input

  delete_zone_sends :
      (plan : Plan) (sent : List Call)
      → is_empty (endpoint s authoritative).0 ≡ false
      → (delete_zone s plan.zone_name sent).1 ≡ sent ++ delete_call plan ∷ []
  unfolding delete_zone do_json
  delete_zone_sends plan sent set = simp (set)

  module _ (parse_ip : ParseIp) (today : Text) (request : CreateZoneRequest)
      (sent : List Call) where
    -- How a creation may end: `out` is its reply, with the requests after it.
    pub data IsSettled (out : Reply Zone × List Call) : Type 0 where
      refused :
          IsError (plan_zone s.idna parse_ip today request)
          → IsError out.0
          → out.1 ≡ sent
          → IsSettled out
      not_created :
          (plan : Plan)
          → plan_zone s.idna parse_ip today request ≡ done plan
          → IsError (posted plan sent).0
          → IsError out.0
          → out.1 ≡ (posted plan sent).1
          → IsSettled out
      created :
          (plan : Plan) (zone : Zone)
          → plan_zone s.idna parse_ip today request ≡ done plan
          → (posted plan sent).0 ≡ done zone
          → out.0 ≡ done (decorate_zone s.unicode zone)
          → ((is_nil plan.rrsets ≡ true) × (out.1 ≡ (posted plan sent).1))
            ⊎ (((patched plan (posted plan sent).1).0 ≡ done tt)
                × (out.1 ≡ (patched plan (posted plan sent).1).1))
          → IsSettled out
      rolled_back :
          (plan : Plan) (zone : Zone)
          → plan_zone s.idna parse_ip today request ≡ done plan
          → (posted plan sent).0 ≡ done zone
          → IsError (patched plan (posted plan sent).1).0
          → IsError out.0
          → out.1 ≡ (patched plan (posted plan sent).1).1 ++ delete_call plan ∷ []
          → IsSettled out

    settled-cases :
        (plan : Plan) (zone : Zone) (put : Reply (Unit {0}) × List Call)
        → is_empty (endpoint s authoritative).0 ≡ false
        → ((put.0 ≡ done tt) × (settled_zone s plan.zone_name zone put ≡ (done zone, put.1)))
          ⊎ (IsError put.0
              × IsError (settled_zone s plan.zone_name zone put).0
              × ((settled_zone s plan.zone_name zone put).1 ≡ put.1 ++ delete_call plan ∷ []))
    settled-cases plan zone (done u, calls) set = inl (refl, refl)
    settled-cases plan zone (invalid e, calls) set = inr (tt, tt, delete_zone_sends plan calls set)
    settled-cases plan zone (failed e, calls) set = inr (tt, tt, delete_zone_sends plan calls set)

    with_rrsets :
        (plan : Plan) (zone : Zone) (calls : List Call)
        → is_nil plan.rrsets ≡ false
        → initialize_zone s plan zone calls
          ≡ settled_zone s plan.zone_name (decorate_zone s.unicode zone) (patched plan calls)
    unfolding initialize_zone
    with_rrsets plan zone calls full = simp (full)

    initialize_zone-IsSettled :
        (plan : Plan) (zone : Zone)
        → plan_zone s.idna parse_ip today request ≡ done plan
        → (posted plan sent).0 ≡ done zone
        → IsSettled (initialize_zone s plan zone (posted plan sent).1)
    unfolding initialize_zone
    initialize_zone-IsSettled plan zone planned was_posted =
        elim (Bool-cases (is_nil plan.rrsets)) [
          | inl bare ↦ created plan zone planned was_posted (simp (bare)) (inl (bare, simp (bare)))
          | inr full ↦
              let set = do_json_configured authoritative _ _ _ _ _ _ was_posted in
              elim (settled-cases plan (decorate_zone s.unicode zone)
                (patched plan (posted plan sent).1) set) [
                  | inl (fine, out) ↦
                      let e = with_rrsets plan zone (posted plan sent).1 full in
                      created plan zone planned was_posted (ap reply_of (e ∙ out))
                        (inr (fine, ap calls_of (e ∙ out)))
                  | inr (bad, out, calls) ↦
                      let e = with_rrsets plan zone (posted plan sent).1 full in
                      rolled_back plan zone planned was_posted bad
                        (subst (λ x. IsError (reply_of x)) (sym e) out) (ap calls_of e ∙ calls)
                ]
        ]

    -- A creation of a zone ends in one of four ways. The request is refused, with an error and no
    -- request sent. The POST of the zone has an error, which is the end. The zone is returned as the
    -- server sent it, decorated, and either there were no record sets for it or their patch was
    -- taken. Or the patch had an error: then there is an error, and the last request sent is the
    -- DELETE of the zone.
    pub create-IsSettled : IsSettled (create_authoritative_zone s parse_ip today request sent)
    unfolding create_authoritative_zone
    create-IsSettled =
        elim (and_then-split (plan_zone s.idna parse_ip today request)
          (λ plan calls. and_then (posted plan calls) (initialize_zone s plan)) sent) [
            | inl (bad, out, calls) ↦ refused bad out calls
            | inr (plan, planned, rest) ↦
                elim (and_then-split (posted plan sent).0 (initialize_zone s plan)
                  (posted plan sent).1) [
                    | inl (bad, out, calls) ↦
                        not_created plan planned bad
                          (subst (λ x. IsError (reply_of x)) (sym rest) out)
                          (ap calls_of rest ∙ calls)
                    | inr (zone, was_posted, out) ↦
                        subst IsSettled (sym (rest ∙ out))
                          (initialize_zone-IsSettled plan zone planned was_posted)
                  ]
          ]
