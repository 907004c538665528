-- ===== src/PowerDns/Calls.antt =====
-- The requests of internal/powerdns/client.go. The server is a function of the requests sent so
-- far, the last one among them; an operation takes the requests that were sent before it, and
-- returns them with its own behind. JSON is an argument, and `net/http` ends in an answer.
use any_ns.Base.{
  ℕ, List, [], ◌∷◌, ◌++◌, Bool, ◌||◌, Text, txt, is_empty, trim_space, trim_right, ltb, leb, take,
  if◌then◌else◌,
}
use any_ns.Base.Int.{ℤ}
use any_ns.Base.Value.{Value}
use any_ns.Base.Result.{Result, ok, err}
use any_ns.Config.{PowerDnsConfig}
use any_ns.DnsName.{Idna}
use any_ns.PowerDns.{Reply, failed, done, RrSet, Zone}
use any_ns.Records.{RrLibrary}

-- `powerDNSCreateZoneRequest`
pub record NewZone : Type 0 where
  pub name : Text
  pub kind : Text
  pub nameservers : List Text
  pub masters : List Text
  pub dnssec : Bool

-- `CreateCryptoKeyRequest`
pub record NewKey : Type 0 where
  pub key_type : Text
  pub active : Bool
  pub published : Bool
  pub algorithm : Text
  pub bits : ℤ

pub record CryptoKey : Type 0 where
  pub id : ℤ
  pub key_type : Text
  pub active : Bool
  pub published : Bool
  pub dnskey : Text
  pub ds : List Text

pub record CacheFlushResult : Type 0 where
  pub count : ℤ
  pub result : Text

-- `Server`
pub record ServerInfo : Type 0 where
  pub id : Text
  pub daemon_type : Text
  pub version : Text
  pub url : Text
  pub zones_url : Text
  pub config_url : Text

abbrev pub no_server : ServerInfo
no_server = record {
  id = [];
  daemon_type = [];
  version = [];
  url = [];
  zones_url = [];
  config_url = [];
}

pub record Statistic : Type 0 where
  pub name : Text
  pub type_name : Text
  pub value : Value

-- The input of a request, before it is encoded.
pub data Input : Type 0 where
  no_input : Input
  new_zone : NewZone → Input
  patch : List RrSet → Input
  new_key : NewKey → Input

pub data Service : Type 0 where
  authoritative : Service
  recursor : Service

-- A request, with the headers `Accept` and `Content-Type` left out.
pub record Call : Type 0 where
  pub method : Text
  pub url : Text
  pub api_key : Text
  pub input : Input

-- What `httpClient.Do` and `io.ReadAll` end in.
pub data Answer : Type 0 where
  broken : Text → Answer
  response : ℕ → Text → Text → Answer

pub record Server : Type 0 where
  pub config : PowerDnsConfig
  pub path_escape : Text → Text
  pub answer : List Call → Answer
  pub query_escape : Text → Text
  pub decode_zone : Text → Result Zone
  pub decode_zones : Text → Result (List Zone)
  pub decode_key : Text → Result CryptoKey
  pub decode_keys : Text → Result (List CryptoKey)
  pub decode_server : Text → Result ServerInfo
  pub decode_statistics : Text → Result (List Statistic)
  pub decode_settings : Text → Result (List Value)
  pub decode_flush : Text → Result CacheFlushResult
  pub idna : Idna
  pub unicode : Idna
  pub records : RrLibrary

-- The requests so far to a reply, and the requests with those that were sent.
abbrev pub Client {ℓ} : Type ℓ → Type ℓ
Client A = List Call → Reply A × List Call

abbrev pub service_name : Service → Text
service_name authoritative = txt "authoritative"
service_name recursor = txt "recursor"

abbrev pub max_body : ℕ
max_body = 4194304

module _ (s : Server) where
  unfoldable pub endpoint : Service → Text × Text
  endpoint authoritative =
      (trim_right (trim_space s.config.authoritative_url) b'/', s.config.authoritative_api_key)
  endpoint recursor =
      (trim_right (trim_space s.config.recursor_url) b'/', s.config.recursor_api_key)

  unfoldable pub server_path : Text → Text
  server_path suffix = txt "/api/v1/servers/" ++ s.path_escape s.config.server_id ++ suffix

  abbrev pub zone_path : Text → Text
  zone_path zone_id = server_path (txt "/zones/" ++ s.path_escape zone_id)

  abbrev pub call_to : Service → Text → Text → Input → Call
  call_to service method path input = record {
    method = method;
    url = (endpoint service).0 ++ path;
    api_key = (endpoint service).1;
    input = input;
  }

  abbrev message_or : Text → Text → Text
  message_or body status = if is_empty (trim_space body) then status else trim_space body

  abbrev decoded {ℓ} : {A : Type ℓ} → Service → Result A → Reply A
  decoded service (err e) =
      failed (txt "decode " ++ service_name service ++ txt " PowerDNS response: " ++ e)
  decoded service (ok a) = done a

  -- What the client makes of an answer: the value is `empty` for an empty body.
  unfoldable pub read_answer {ℓ} :
      {A : Type ℓ} → Service → Text → Text → (Text → Result A) → A → Answer → Reply A
  read_answer service method path decode empty (broken e) = failed e
  read_answer service method path decode empty (response code status whole) =
      let body = take max_body whole in
      if ltb code 200 || leb 300 code
      then failed (
          service_name service
          ++ txt " PowerDNS API "
          ++ method
          ++ txt " "
          ++ path
          ++ txt ": "
          ++ message_or body status)
      else if is_empty body
      then done empty
      else decoded service (decode body)

  unfoldable pub do_json {ℓ} :
      {A : Type ℓ} → Service → Text → Text → Input → (Text → Result A) → A → Client A
  do_json service method path input decode empty sent =
      if is_empty (endpoint service).0
      then (failed (service_name service ++ txt " PowerDNS endpoint is not configured"), sent)
      else let calls = sent ++ call_to service method path input ∷ [] in
        (read_answer service method path decode empty (s.answer calls), calls)

  -- A request whose output is nil.
  abbrev pub send : Text → Text → Input → Client (Unit {0})
  send method path input = do_json authoritative method path input (λ body. ok tt) tt
