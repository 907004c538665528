-- ===== src/Plugins.antt =====
-- internal/plugins/types.go: requests, results, routes and the normal forms of names.
pub mod Names
pub mod Router
pub mod Routes
pub mod Matching
pub mod Caching
pub mod Keys
pub mod Backends
pub mod Tests
use any_ns.Base.{
  ℕ, List, [], ◌∷◌, ◌++◌, Bool, true, false, ◌||◌, Text, txt, ◌=t◌, is_empty, to_lower, to_upper,
  trim_space, trim_suffix, trim_prefix, has_suffix, length, if◌then◌else◌,
}
use any_ns.Base.Int.{ℤ, pos}
use any_ns.Base.Dict.{Dict}
use any_ns.Base.Value.{Value, num, str}

pub record QueryContext : Type 0 where
  pub trace_id : Text
  pub client_ip : Text
  pub client_view : Text
  pub tenant : Text
  pub transport : Text
  pub protocol : Text
  pub policy_tags : List Text

pub record ResolveRequest : Type 0 where
  pub qname : Text
  pub qtype : Text
  pub context : QueryContext

pub record Rr : Type 0 where
  pub name : Text
  pub rr_type : Text
  pub ttl : ℤ
  pub value : Text

-- A map that is nil is one without entries.
pub record ResolveResult : Type 0 where
  pub rrset : List Rr
  pub rcode : Text
  pub ttl : ℤ
  pub source_plugin : Text
  pub confidence : Text
  pub security_tags : List Text
  pub raw_record : Dict Value
  pub audit_metadata : Dict Value
  pub latency_ms : ℕ

pub record Route : Type 0 where
  pub name : Text
  pub domains : List Text
  pub suffixes : List Text
  pub client_views : List Text
  pub tenants : List Text
  pub policy_tags : List Text
  pub plugin : Text
  pub priority : ℤ
  pub fallback : Text

abbrev pub rcode_no_error : Text
rcode_no_error = txt "NOERROR"

abbrev pub rcode_nx_domain : Text
rcode_nx_domain = txt "NXDOMAIN"

abbrev pub rcode_serv_fail : Text
rcode_serv_fail = txt "SERVFAIL"

-- `NewResult`, with the time as it is printed and the milliseconds since the start.
unfoldable pub new_result : Text → Text → ℤ → List Rr → Text → ℕ → ResolveResult
new_result plugin rcode ttl rrset resolved_at elapsed = record {
  rrset = rrset;
  rcode = rcode;
  ttl = ttl;
  source_plugin = plugin;
  confidence = txt "authoritative";
  security_tags = txt "decentralized" ∷ plugin ∷ [];
  raw_record = (txt "rr_count", num (pos (length rrset))) ∷ [];
  audit_metadata = (txt "resolved_at", str resolved_at) ∷ [];
  latency_ms = elapsed;
}

abbrev pub with_dot : Text → Text
with_dot q = if is_empty q then txt "." else q ++ txt "."

unfoldable pub normalize_qname : Text → Text
normalize_qname qname = with_dot (trim_suffix (to_lower (trim_space qname)) b'.')

unfoldable pub normalize_qtype : Text → Text
normalize_qtype qtype = to_upper (trim_space qtype)

abbrev pub ends_in : Text → Text → Bool
ends_in q s =
    if is_empty s then false else q =t s ++ txt "." || has_suffix q (txt "." ++ s ++ txt ".")

unfoldable pub match_suffix : Text → Text → Bool
match_suffix qname suffix =
    ends_in (normalize_qname qname)
      (trim_suffix (trim_prefix (to_lower (trim_space suffix)) (txt ".")) b'.')
