-- ===== src/Access/Tests.antt =====
-- Runs of the model of internal/httpapi at concrete inputs.
use any_ns.Base.{
  [], ◌∷◌, ◌++◌, true, false, none, some, ◌≡◌, refl, Text, txt, ◌=t◌, trim_space, trim_left,
  trim_right_by, is_space, trim_prefix, has_prefix, has_suffix, to_lower, lower, if◌then◌else◌, inl,
  inr, arith,
}
use any_ns.Base.Dict.{lookup, insert}
use any_ns.Access.{
  Platform, ManagementConfig, ManagementKey, Request, refused, require_scope_principal,
  principal_from_request, find_key, management_key_active, management_key_allows_client,
  parse_key_time, request_client_ip, entry_allows, scopes_for_key, normalized_management_scopes,
  collect_scopes, add_scope, role_scopes, scopes_of_roles,
}
use any_ns.Access.Granted.{Comes, principal_from_request-Comes, over_key_ignored}
use any_ns.Access.Scopes.{reading_refused}

-- Addresses are texts, and a time is written as one of two texts.
abbrev pub platform : Platform
platform = record {
  Ip = Text;
  Network = Text;
  parse_ip = λ s. if s =t txt "10.0.0.7" then some s else none;
  ip_equal = λ a b. a =t b;
  parse_cidr = λ s. some s;
  network_contains = λ network ip. false;
  split_host_port = λ s. none;
  parse_time =
      λ s. if s =t txt "early" then some 100 else if s =t txt "late" then some 900 else none;
}

abbrev pub reader : ManagementKey
reader = record {
  id = txt "reader";
  api_key = txt "r1";
  api_key_file = [];
  scopes = txt " Audit:Read" ∷ [];
  roles = txt "viewer" ∷ [];
  not_before = txt "early";
  expires_at = txt "late";
  revoked_at = [];
  allowed_client_cidrs = txt "10.0.0.7" ∷ [];
}

abbrev pub revoked : ManagementKey
revoked = record reader { id = txt "old"; revoked_at = txt "early" }

abbrev pub config : ManagementConfig
config = record {
  api_key = [];
  api_key_file = [];
  auth_required = true;
  roles = record { id = txt "viewer"; scopes = txt "cache:read" ∷ txt "audit:read" ∷ [] } ∷ [];
  keys = revoked ∷ reader ∷ [];
}

abbrev pub request : Request
request = record {
  method = txt "GET";
  path = txt "/api/v1/plugins";
  authorization = txt "Bearer r1 ";
  remote_addr = txt "10.0.0.7";
  query = λ name. txt "70000";
}

reader_comes :
    principal_from_request platform config 500 request
    ≡ some (record { id = txt "reader"; scopes = txt "audit:read" ∷ txt "cache:read" ∷ [] })
unfolding principal_from_request find_key management_key_active management_key_allows_client
    parse_key_time request_client_ip entry_allows scopes_for_key normalized_management_scopes
    collect_scopes add_scope role_scopes scopes_of_roles lookup insert ◌=t◌ trim_space trim_left
    trim_right_by is_space trim_prefix has_prefix to_lower lower
reader_comes = refl

principal_from_request-Comes_example :
    Comes platform config 500 request (principal_from_request platform config 500 request)
principal_from_request-Comes_example = principal_from_request-Comes platform config 500 request

revoked_is_over : parse_key_time platform revoked.revoked_at ≡ some 100
unfolding parse_key_time ◌=t◌ trim_space trim_left trim_right_by is_space
revoked_is_over = refl

over_key_ignored_example :
    principal_from_request platform
      (record config { keys = [] ++ revoked ∷ (reader ∷ []) })
      500
      request
    ≡ principal_from_request platform (record config { keys = [] ++ (reader ∷ []) }) 500 request
over_key_ignored_example =
    over_key_ignored platform config [] (reader ∷ []) revoked 200 500 request (omega arith)
      (inl (rw revoked_is_over refl))

reading_refused_example :
    require_scope_principal platform config 500 request (txt "cache:write")
    ≡ refused 403 (txt "forbidden")
unfolding ◌=t◌ trim_space trim_left trim_right_by is_space to_lower lower has_suffix
reading_refused_example =
    reading_refused platform config 500 request
      (record { id = txt "reader"; scopes = txt "audit:read" ∷ txt "cache:read" ∷ [] })
      (txt "cache:write") reader_comes (inr refl, (inr refl, tt)) refl
