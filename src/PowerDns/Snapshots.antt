-- ===== src/PowerDns/Snapshots.antt =====
-- Which requests a snapshot of a service sends, and when it shows the service as healthy.
use any_ns.Base.{
  List, [], ◌∷◌, ◌++◌, true, false, none, some, ◌≡◌, refl, sym, ap, ◌∙◌, inl, inr, Text, txt,
  is_empty, arith, Bool-cases, map,
}
use mathlib.Core.List.{append_assoc}
use mathlib.Core.Path.{subst}
use any_ns.Base.Value.{Value}
use any_ns.Base.Result.{Result}
use any_ns.PowerDns.{Reply, invalid, failed, done, Zone, decorate_zone}
use any_ns.PowerDns.Calls.{
  ServerInfo, Statistic, no_server, no_input, Service, Call, Server, endpoint, server_path, call_to,
  do_json,
}
use any_ns.PowerDns.Client.{and_then, zones}
use any_ns.PowerDns.Rollback.{IsError}
use any_ns.PowerDns.Snapshot.{
  ServiceSnapshot, blank_snapshot, with_server, with_zones, with_statistics, with_config, get_part,
  filled, answered_by, service_snapshot,
}

-- What the rest of a snapshot does not change.
keeps_zones :
    (r : Reply (List Zone)) (x : ServiceSnapshot)
    → ((with_zones r x).healthy ≡ x.healthy) × ((with_zones r x).server ≡ x.server)
keeps_zones (done zs) x = (refl, refl)
keeps_zones (invalid e) x = (refl, refl)
keeps_zones (failed e) x = (refl, refl)

keeps_statistics :
    (r : Reply (List Statistic)) (x : ServiceSnapshot)
    → ((with_statistics r x).healthy ≡ x.healthy) × ((with_statistics r x).server ≡ x.server)
keeps_statistics (done ss) x = (refl, refl)
keeps_statistics (invalid e) x = (refl, refl)
keeps_statistics (failed e) x = (refl, refl)

keeps_config :
    (r : Reply (List Value)) (x : ServiceSnapshot)
    → ((with_config r x).healthy ≡ x.healthy) × ((with_config r x).server ≡ x.server)
keeps_config (done vs) x = (refl, refl)
keeps_config (invalid e) x = (refl, refl)
keeps_config (failed e) x = (refl, refl)

same_calls {ℓ κ} :
    {A : Type ℓ} {B : Type κ} (p : Reply A × List Call) (f : A → B)
    → (and_then p (λ a calls. (done (f a), calls))).1 ≡ p.1
same_calls (done a, calls) f = refl
same_calls (invalid e, calls) f = refl
same_calls (failed e, calls) f = refl

module _ (s : Server) (service : Service) where
  abbrev get_call : Text → Call
  get_call suffix = call_to s service (txt "GET") (server_path s suffix) no_input

  sends_one :
      {A : Type 0} (suffix : Text) (decode : Text → Result A) (empty : A) (sent : List Call)
      → is_empty (endpoint s service).0 ≡ false
      → (get_part s service suffix decode empty sent).1 ≡ sent ++ get_call suffix ∷ []
  unfolding do_json
  sends_one suffix decode empty sent set = simp (set)

  zones_sends_one :
      (sent : List Call)
      → is_empty (endpoint s service).0 ≡ false
      → (zones s service sent).1 ≡ sent ++ get_call (txt "/zones") ∷ []
  unfolding zones
  zones_sends_one sent set =
      same_calls (get_part s service (txt "/zones") s.decode_zones [] sent)
        (map (decorate_zone s.unicode))
      ∙ sends_one (txt "/zones") s.decode_zones [] sent set

  filled_lem :
      (x : ServiceSnapshot) (sent : List Call)
      → is_empty (endpoint s service).0 ≡ false
      → ((filled s service x sent).0.healthy ≡ x.healthy)
        × ((filled s service x sent).0.server ≡ x.server)
        × ((filled s service x sent).1
            ≡ sent
              ++ (get_call (txt "/zones")
                  ∷ get_call (txt "/statistics")
                  ∷ get_call (txt "/config")
                  ∷ []))
  unfolding filled
  filled_lem x sent set =
      let z = zones s service sent in
      let t = get_part s service (txt "/statistics") s.decode_statistics [] z.1 in
      let c = get_part s service (txt "/config") s.decode_settings [] t.1 in
      let (cz, sz) = keeps_zones z.0 x in
      let (ct, st) = keeps_statistics t.0 (with_zones z.0 x) in
      let (cc', sc) = keeps_config c.0 (with_statistics t.0 (with_zones z.0 x)) in
      (
        cc' ∙ ct ∙ cz,
        sc ∙ st ∙ sz,
        sends_one (txt "/config") s.decode_settings [] t.1 set
            ∙ ap (λ l. l ++ get_call (txt "/config") ∷ [])
                (sends_one (txt "/statistics") s.decode_statistics [] z.1 set
                  ∙ ap (λ l. l ++ get_call (txt "/statistics") ∷ []) (zones_sends_one sent set))
            ∙ simp (append_assoc),
      )

  abbrev rest_calls : List Call
  rest_calls =
      get_call (txt "/zones") ∷ get_call (txt "/statistics") ∷ get_call (txt "/config") ∷ []

  -- The reply to the first request of a snapshot.
  abbrev first_reply : List Call → Reply ServerInfo
  first_reply sent = (get_part s service [] s.decode_server no_server sent).0

  -- What may come of a snapshot.
  data Shows (sent : List Call) (out : ServiceSnapshot × List Call) : Type 0 where
    unset :
        is_empty (endpoint s service).0 ≡ true
        → out.0.configured ≡ false
        → out.0.healthy ≡ false
        → out.1 ≡ sent
        → Shows sent out
    down :
        IsError (first_reply sent)
        → out.0.healthy ≡ false
        → out.0.server ≡ none
        → out.1 ≡ sent ++ get_call [] ∷ []
        → Shows sent out
    up :
        (info : ServerInfo)
        → first_reply sent ≡ done info
        → out.0.healthy ≡ true
        → out.0.server ≡ some info
        → out.1
          ≡ sent
            ++ (get_call []
                ∷ get_call (txt "/zones")
                ∷ get_call (txt "/statistics")
                ∷ get_call (txt "/config")
                ∷ [])
        → Shows sent out

  answered_by-Shows :
      (url : Text) (sent calls : List Call) (r : Reply ServerInfo)
      → first_reply sent ≡ r
      → calls ≡ sent ++ get_call [] ∷ []
      → is_empty (endpoint s service).0 ≡ false
      → Shows sent (answered_by s service (blank_snapshot url) (r, calls))
  answered_by-Shows url sent calls (done info) h e set =
      let (healthy, server, last) =
        filled_lem (with_server (done info) (blank_snapshot url)) calls set in
      up info h healthy server
        (last ∙ ap (λ l. l ++ rest_calls) e ∙ append_assoc sent (get_call [] ∷ []) rest_calls)
  answered_by-Shows url sent calls (invalid m) h e set = down (subst IsError (sym h) tt) refl refl e
  answered_by-Shows url sent calls (failed m) h e set = down (subst IsError (sym h) tt) refl refl e

  -- A snapshot of a service without an endpoint sends nothing and shows it as neither configured nor
  -- healthy. With one it asks for the server first: on an error that is all, and the service is not
  -- healthy; on a reply the service is healthy, and the zones, the statistics and the settings are
  -- asked for, in this order, whatever the replies are.
  service_snapshot-Shows : (sent : List Call) → Shows sent (service_snapshot s service sent)
  unfolding service_snapshot
  service_snapshot-Shows sent = elim (Bool-cases (is_empty (endpoint s service).0)) [
    | inl none_set ↦
        let e : service_snapshot s service sent ≡ (blank_snapshot (endpoint s service).0, sent) =
          simp (none_set) in
        subst (Shows sent) (sym e) (unset none_set (ground (arith, none_set)) refl refl)
    | inr set ↦
        let e : service_snapshot s service sent
            ≡ answered_by s service (blank_snapshot (endpoint s service).0)
                (get_part s service [] s.decode_server no_server sent) =
          simp (set) in
        subst (Shows sent) (sym e) (
          answered_by-Shows (endpoint s service).0 sent
            (get_part s service [] s.decode_server no_server sent).1 (first_reply sent) refl
            (sends_one [] s.decode_server no_server sent set) set)
  ]
