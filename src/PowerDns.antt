-- ===== src/PowerDns.antt =====
-- internal/powerdns/client.go: the zones, record sets and SOA records of the PowerDNS client, and
-- the rules for the names and types in them. Numbers of type uint32 and int64 are ℕ and ℤ.
pub mod Soa
pub mod Patch
pub mod RrSets
pub mod Calls
pub mod Client
pub mod Initial
pub mod Zones
pub mod Snapshot
mod Snapshots
mod Replies
mod Fit
mod Inside
mod Serials
mod Updates
mod Rollback
mod RoundTrip
mod Tests
use any_ns.Base.{
  ℕ, List, [], ◌∷◌, ◌++◌, ◌-◌, Bool, true, false, not, ◌&&◌, ◌||◌, Option, Text, txt, ◌=t◌,
  is_empty, to_lower, trim_space, trim_suffix, has_prefix, has_suffix, contains, leb, ◌==◌, length,
  take, all, if◌then◌else◌,
}
use any_ns.Base.Int.{ℤ}
use any_ns.Base.Result.{Result, ok, err}
use any_ns.DnsName.{Idna, to_ascii, to_unicode}

-- A value, a ValidationError with its message, or another error.
pub data Reply {ℓ} (A : Type ℓ) : Type ℓ where
  invalid : Text → Reply A
  failed : Text → Reply A
  done : A → Reply A

module _ {ℓ κ} {A : Type ℓ} {B : Type κ} where
  infixl 5 ◌>>=◌
  abbrev pub ◌>>=◌ : Reply A → (A → Reply B) → Reply B
  invalid e >>= next = invalid e
  failed e >>= next = failed e
  done a >>= next = next a

-- An error of a helper, wrapped by `validationErrorf` behind a message.
abbrev pub validated {ℓ} : {A : Type ℓ} → Text → Result A → Reply A
validated message (err e) = invalid (message ++ txt ": " ++ e)
validated message (ok a) = done a

-- `unit` stands for a nil error.
abbrev pub require : Bool → Text → Reply (Unit {0})
require good message = if good then done tt else invalid message

pub record Record : Type 0 where
  pub content : Text
  pub disabled : Bool

pub record Comment : Type 0 where
  pub content : Text
  pub account : Text
  pub modified_at : ℤ

pub record RrSet : Type 0 where
  pub name : Text
  pub unicode_name : Text
  pub type_name : Text
  pub ttl : ℕ
  pub change_type : Text
  pub records : List Record
  pub comments : List Comment

pub record Zone : Type 0 where
  pub id : Text
  pub name : Text
  pub unicode_name : Text
  pub kind : Text
  pub dnssec : Bool
  pub serial : ℕ
  pub notified_serial : ℕ
  pub last_check : ℤ
  pub masters : List Text
  pub account : Text
  pub url : Text
  pub rrsets : List RrSet

pub record SoaConfig : Type 0 where
  pub primary_ns : Text
  pub hostmaster : Text
  pub serial : ℕ
  pub ttl : ℕ
  pub refresh : ℕ
  pub retry : ℕ
  pub expire : ℕ
  pub minimum : ℕ

pub record SoaRecord : Type 0 where
  pub primary_ns : Text
  pub hostmaster : Text
  pub serial : ℕ
  pub ttl : ℕ
  pub refresh : ℕ
  pub retry : ℕ
  pub expire : ℕ
  pub minimum : ℕ

pub record CreateZoneRequest : Type 0 where
  pub name : Text
  pub kind : Text
  pub nameservers : List Text
  pub masters : List Text
  pub dnssec : Bool
  pub hns : Bool
  pub glue_ipv4 : Text
  pub glue_ipv6 : Text
  pub soa : Option SoaConfig

abbrev pub max_record_content_length : ℕ
max_record_content_length = 4096

abbrev pub normalize_zone_name : Idna → Text → Result Text
normalize_zone_name = to_ascii

abbrev pub is_root : Text → Bool
is_root name = name =t txt "."

-- `strings.TrimSpace(s) == ""`
abbrev pub is_blank_text : Text → Bool
is_blank_text s = is_empty (trim_space s)

unfoldable pub trim_hns_suffix : Text → Text
trim_hns_suffix given =
    let name = trim_suffix (trim_space given) b'.' in
    if has_suffix (to_lower name) (txt ".hns")
    then take (length name - 4) name
    else if has_suffix (to_lower name) (txt ".hsd")
    then take (length name - 4) name
    else name

abbrev pub is_label_byte : ℕ → Bool
is_label_byte c = leb b'a' c && leb c b'z' || leb b'0' c && leb c b'9' || c == b'-'

unfoldable pub validate_hns_top_level_label : Text → Reply (Unit {0})
validate_hns_top_level_label zone_name =
    let label = trim_suffix zone_name b'.' in
    if is_empty label || contains label (txt ".")
    then invalid (txt "HNS zone must be a single top-level label")
    else if has_prefix label (txt "-") || has_suffix label (txt "-")
    then invalid (txt "HNS zone label must not start or end with hyphen")
    else require (all is_label_byte label) (
        txt "HNS zone label must contain only letters, digits, and hyphen after IDNA normalization")

abbrev named_zone : Text → Reply Text
named_zone normalized =
    if is_empty normalized || is_root normalized
    then invalid (txt "zone id is required")
    else done normalized

unfoldable pub required_zone_id : Idna → Text → Reply Text
required_zone_id idna zone_id =
    validated (txt "invalid zone id") (normalize_zone_name idna zone_id) >>= named_zone

-- Digits may stand behind the first byte.
unfoldable pub valid_record_type : Text → Bool
valid_record_type [] = false
valid_record_type (c ∷ s) =
    leb b'A' c && leb c b'Z' && all (λ x. leb b'A' x && leb x b'Z' || leb b'0' x && leb x b'9') s

unfoldable pub name_inside_zone : Text → Text → Bool
name_inside_zone name zone_name = (name =t zone_name) || has_suffix name (b'.' ∷ zone_name)

abbrev pub default_uint32 : ℕ → ℕ → ℕ
default_uint32 value fallback = if value == 0 then fallback else value

abbrev decorate_rrset : Idna → RrSet → RrSet
decorate_rrset unicode r = record r { unicode_name = to_unicode unicode r.name }

unfoldable pub decorate_rrsets : Idna → List RrSet → List RrSet
decorate_rrsets unicode [] = []
decorate_rrsets unicode (r ∷ rs) = decorate_rrset unicode r ∷ decorate_rrsets unicode rs

unfoldable pub decorate_zone : Idna → Zone → Zone
unfolding decorate_rrsets
decorate_zone unicode z = record z {
  unicode_name = to_unicode unicode z.name;
  rrsets = decorate_rrsets unicode z.rrsets;
}
