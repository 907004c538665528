-- ===== src/PowerDns/Snapshot.antt =====
-- The snapshot of the two services that internal/powerdns/client.go takes for the admin API.
use any_ns.Base.{
  List, [], ◌∷◌, Bool, true, false, not, Option, none, some, Text, txt, is_empty, if◌then◌else◌,
}
use any_ns.Base.Dict.{Dict, insert}
use any_ns.Base.Value.{Value}
use any_ns.Base.Result.{Result}
use any_ns.PowerDns.{Reply, invalid, failed, done, Zone}
use any_ns.PowerDns.Calls.{
  ServerInfo, no_server, Statistic, no_input, Service, authoritative, recursor, Call, Server,
  endpoint, server_path, do_json,
}
use any_ns.PowerDns.Client.{zones}

pub record ServiceSnapshot : Type 0 where
  pub configured : Bool
  pub healthy : Bool
  pub url : Text
  pub server : Option ServerInfo
  pub zones : List Zone
  pub statistics : Dict Value
  pub config : List Value
  pub error : Text

pub record Snapshot : Type 0 where
  pub authoritative : ServiceSnapshot
  pub recursor : ServiceSnapshot

abbrev pub blank_snapshot : Text → ServiceSnapshot
blank_snapshot url = record {
  configured = not (is_empty url);
  healthy = false;
  url = url;
  server = none;
  zones = [];
  statistics = [];
  config = [];
  error = [];
}

abbrev pub with_server : Reply ServerInfo → ServiceSnapshot → ServiceSnapshot
with_server (done server) snapshot = record snapshot { server = some server; healthy = true }
with_server (invalid e) snapshot = record snapshot { error = e }
with_server (failed e) snapshot = record snapshot { error = e }

abbrev pub with_zones : Reply (List Zone) → ServiceSnapshot → ServiceSnapshot
with_zones (done zones) snapshot = record snapshot { zones = zones }
with_zones (invalid e) snapshot = record snapshot { error = e }
with_zones (failed e) snapshot = record snapshot { error = e }

-- The loop over the statistics: a later value of a name takes the place of an earlier one.
abbrev pub by_name : List Statistic → Dict Value → Dict Value
by_name [] m = m
by_name (s ∷ ss) m = by_name ss (insert s.name s.value m)

abbrev pub with_statistics : Reply (List Statistic) → ServiceSnapshot → ServiceSnapshot
with_statistics (done ss) snapshot = record snapshot { statistics = by_name ss snapshot.statistics }
with_statistics r snapshot = snapshot

abbrev pub with_config : Reply (List Value) → ServiceSnapshot → ServiceSnapshot
with_config (done settings) snapshot = record snapshot { config = settings }
with_config r snapshot = snapshot

module _ (s : Server) where
  abbrev pub get_part {ℓ} :
      {A : Type ℓ} → Service → Text → (Text → Result A) → A → List Call → Reply A × List Call
  get_part service suffix decode empty =
      do_json s service (txt "GET") (server_path s suffix) no_input decode empty

  -- The rest of a snapshot, once the server has answered.
  unfoldable pub filled : Service → ServiceSnapshot → List Call → ServiceSnapshot × List Call
  filled service snapshot sent =
      let z = zones s service sent in
      let t = get_part service (txt "/statistics") s.decode_statistics [] z.1 in
      let c = get_part service (txt "/config") s.decode_settings [] t.1 in
      (with_config c.0 (with_statistics t.0 (with_zones z.0 snapshot)), c.1)

  abbrev pub answered_by :
      Service → ServiceSnapshot → Reply ServerInfo × List Call → ServiceSnapshot × List Call
  answered_by service snapshot (done server, sent) =
      filled service (with_server (done server) snapshot) sent
  answered_by service snapshot (r, sent) = (with_server r snapshot, sent)

  unfoldable pub service_snapshot : Service → List Call → ServiceSnapshot × List Call
  service_snapshot service sent =
      let snapshot = blank_snapshot (endpoint s service).0 in
      if is_empty (endpoint s service).0
      then (snapshot, sent)
      else answered_by service snapshot (get_part service [] s.decode_server no_server sent)

  -- `Client.Snapshot`
  unfoldable pub snapshot : List Call → Snapshot × List Call
  snapshot sent =
      let a = service_snapshot authoritative sent in
      let r = service_snapshot recursor a.1 in (record { authoritative = a.0; recursor = r.0 }, r.1)
