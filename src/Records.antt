-- ===== src/Records.antt =====
-- internal/dnsrr/records.go: the normal forms of DNS records. The DNS library that parses and
-- prints records is an argument, and so are the functions of Go's crypto and encoding packages
-- other than hexadecimal digits.
mod Canonical
mod Generated
mod Owners
mod Tests
use any_ns.Base.{
  ℕ, List, [], ◌∷◌, ◌++◌, Bool, not, ◌&&◌, ◌||◌, Option, none, some, Text, txt, ◌=t◌, is_empty,
  trim_space, to_lower, to_upper, join, length, drop, all, ltb, leb, ◌==◌, if◌then◌else◌,
}
use any_ns.Base.Fields.{fields}
use any_ns.Base.Hex.{hex_decode, hex_encode}
use any_ns.Base.Number.{itoa}
use any_ns.Base.Members.{has_text}
use any_ns.Base.Result.{Result, ok, err, ◌>>=◌}

-- `dns.RR_Header`
pub record RrHeader : Type 0 where
  pub name : Text
  pub rr_type : ℕ
  pub class : ℕ
  pub ttl : ℕ

-- `dns.DS`, `dns.DNSKEY`, `dns.TLSA` and `dns.CAA`
pub record Ds : Type 0 where
  pub header : RrHeader
  pub key_tag : ℕ
  pub algorithm : ℕ
  pub digest_type : ℕ
  pub digest : Text

pub record DnsKey : Type 0 where
  pub header : RrHeader
  pub flags : ℕ
  pub protocol : ℕ
  pub algorithm : ℕ
  pub public_key : Text

pub record Tlsa : Type 0 where
  pub header : RrHeader
  pub usage : ℕ
  pub selector : ℕ
  pub matching_type : ℕ
  pub certificate : Text

pub record Caa : Type 0 where
  pub header : RrHeader
  pub flag : ℕ
  pub tag : Text
  pub value : Text

-- A `dns.RR`: one of the types that the program looks into, or another by its text.
pub data DnsRr : Type 0 where
  ds : Ds → DnsRr
  dns_key : DnsKey → DnsRr
  tlsa : Tlsa → DnsRr
  caa : Caa → DnsRr
  other : Text → DnsRr

-- `x509.Certificate`
pub record Certificate : Type 0 where
  pub raw : Text
  pub raw_subject_public_key_info : Text

pub record RrLibrary : Type 0 where
  pub fqdn : Text → Text
  pub new_rr : Text → Result DnsRr
  pub print : DnsRr → Text
  pub to_ds : DnsKey → ℕ → Option Ds
  pub decode_base64 : Text → Result Text
  pub sha256 : Text → Text
  pub decode_pem : Text → Option (Text × Text)
  pub parse_certificate : Text → Result Certificate

unfoldable pub managed_type : Text → Bool
managed_type record_type = has_text (to_upper (trim_space record_type)) (
    txt "A"
    ∷ txt "AAAA"
    ∷ txt "CAA"
    ∷ txt "CNAME"
    ∷ txt "DNAME"
    ∷ txt "DNSKEY"
    ∷ txt "DS"
    ∷ txt "HTTPS"
    ∷ txt "MX"
    ∷ txt "NS"
    ∷ txt "PTR"
    ∷ txt "SOA"
    ∷ txt "SRV"
    ∷ txt "SVCB"
    ∷ txt "TLSA"
    ∷ txt "TXT"
    ∷ txt "URI"
    ∷ [])

-- `ok` stands for a nil error.
abbrev pub checked : Bool → Text → Result (Unit {0})
checked good message = if good then ok tt else err message

abbrev digest_size : ℕ → ℕ
digest_size digest_type = if digest_type == 1 then 20 else if digest_type == 2 then 32 else 48

abbrev check_digest : ℕ → Option Text → Result (Unit {0})
check_digest digest_type none = err (txt "DS digest must be hexadecimal")
check_digest digest_type (some digest) = checked (length digest == digest_size digest_type) (
    txt "DS digest type "
    ++ itoa digest_type
    ++ txt " requires "
    ++ itoa (digest_size digest_type)
    ++ txt " bytes, got "
    ++ itoa (length digest))

unfoldable pub validate_ds : Ds → Result (Unit {0})
validate_ds d =
    if not (d.digest_type == 1 || d.digest_type == 2 || d.digest_type == 4)
    then err (txt "DS digest type must be 1 (SHA-1), 2 (SHA-256), or 4 (SHA-384)")
    else check_digest d.digest_type (hex_decode d.digest)

abbrev check_association : ℕ → Option Text → Result (Unit {0})
check_association matching none = err (txt "TLSA association data must be non-empty hexadecimal")
check_association matching (some association) =
    if is_empty association
    then err (txt "TLSA association data must be non-empty hexadecimal")
    else if matching == 1
    then checked (length association == 32) (txt "TLSA SHA-256 association data must be 32 bytes")
    else checked (not (matching == 2) || length association == 64)
        (txt "TLSA SHA-512 association data must be 64 bytes")

unfoldable pub validate_tlsa : Tlsa → Result (Unit {0})
validate_tlsa t =
    if ltb 3 t.usage
    then err (txt "TLSA certificate usage must be between 0 and 3")
    else if ltb 1 t.selector
    then err (txt "TLSA selector must be 0 or 1")
    else if ltb 2 t.matching_type
    then err (txt "TLSA matching type must be between 0 and 2")
    else check_association t.matching_type (hex_decode t.certificate)

abbrev pub is_alphanumeric : ℕ → Bool
is_alphanumeric c = leb b'a' c && leb c b'z' || leb b'A' c && leb c b'Z' || leb b'0' c && leb c b'9'

unfoldable pub validate_tag : Text → Result (Unit {0})
validate_tag tag =
    if is_empty tag
    then err (txt "CAA tag is required")
    else checked (all is_alphanumeric tag)
        (txt "CAA tag must contain only ASCII letters and digits")

unfoldable pub rr_content : Text → Text
rr_content text =
    let fs = fields text in if ltb (length fs) 5 then [] else join (drop 4 fs) (txt " ")

abbrev check_public_key : Result Text → Result (Unit {0})
check_public_key (err e) = err (txt "DNSKEY public key is not valid base64: " ++ e)
check_public_key (ok key) = ok tt

module _ (lib : RrLibrary) where
  unfoldable pub validate_dns_key : DnsKey → Result (Unit {0})
  validate_dns_key k =
      if not (k.protocol == 3)
      then err (txt "DNSKEY protocol must be 3")
      else check_public_key (lib.decode_base64 k.public_key)

  -- The switch on the type of the record.
  unfoldable pub canonical : DnsRr → Result DnsRr
  canonical (ds d) = do valid ← validate_ds d; ok (ds (record d { digest = to_upper d.digest }))
  canonical (dns_key k) = do valid ← validate_dns_key k; ok (dns_key k)
  canonical (tlsa t) = do
    valid ← validate_tlsa t
    ok (tlsa (record t { certificate = to_upper t.certificate }))
  canonical (caa c) = do valid ← validate_tag c.tag; ok (caa (record c { tag = to_lower c.tag }))
  canonical (other text) = ok (other text)

  abbrev rr_line : Text → Text → Text → Text
  rr_line owner record_type content = owner ++ txt " 300 IN " ++ record_type ++ txt " " ++ content

  abbrev pub content_of : DnsRr → Text
  content_of rr = rr_content (lib.print rr)

  -- On an owner and a content without white space around them, and a type in upper case.
  abbrev normalize_trimmed : Text → Text → Text → Result Text
  normalize_trimmed owner record_type content =
      if owner =t txt "." || is_empty content
      then err (txt "owner and record content are required")
      else if not (managed_type record_type)
      then err (txt "record type " ++ record_type ++ txt " is not managed by anyNS")
      else (lib.new_rr (rr_line owner record_type content)
          >>= canonical
          >>= (λ rr. ok (content_of rr)))

  unfoldable pub normalize_record : Text → Text → Text → Result Text
  normalize_record owner record_type content =
      normalize_trimmed (lib.fqdn (trim_space owner)) (to_upper (trim_space record_type))
        (trim_space content)

  -- `rr.(*dns.DNSKEY)`, which panics on another type.
  abbrev as_dns_key : DnsRr → Result DnsKey
  as_dns_key (dns_key k) = ok k
  as_dns_key rr = err (txt "panic: interface conversion")

  abbrev derived : ℕ → Option Ds → Result Text
  derived digest_type none = err (txt "unsupported DS digest type " ++ itoa digest_type)
  derived digest_type (some d) = do
    valid ← validate_ds d
    ok (content_of (ds (record d { digest = to_upper d.digest })))

  unfoldable pub ds_from_dns_key : Text → Text → ℕ → Result Text
  ds_from_dns_key owner content digest_type = do
    normalized ← normalize_record owner (txt "DNSKEY") content
    rr ← lib.new_rr (rr_line (lib.fqdn owner) (txt "DNSKEY") normalized)
    key ← as_dns_key rr
    derived digest_type (lib.to_ds key digest_type)

  abbrev certificate_block : Option (Text × Text) → Result Text
  certificate_block none = err (txt "certificate PEM is invalid")
  certificate_block (some (block_type, bytes)) =
      if block_type =t txt "CERTIFICATE" then ok bytes else err (txt "certificate PEM is invalid")

  abbrev parsed : Result Certificate → Result Certificate
  parsed (err e) = err (txt "parse certificate: " ++ e)
  parsed (ok c) = ok c

  abbrev pub selected : Certificate → ℕ → Result Text
  selected c selector =
      if selector == 0
      then ok c.raw
      else if selector == 1
      then ok c.raw_subject_public_key_info
      else err (txt "TLSA selector must be 0 or 1")

  abbrev pub associated : Text → ℕ → Result Text
  associated data_bytes matching =
      if matching == 0
      then ok data_bytes
      else if matching == 1
      then ok (lib.sha256 data_bytes)
      else err (txt "TLSA matching type must be 0 or 1; SHA-512 generation is not enabled")

  abbrev pub made_tlsa : ℕ → ℕ → ℕ → Text → Tlsa
  made_tlsa usage selector matching association = record {
    header = record { name = txt "."; rr_type = 52; class = 1; ttl = 300 };
    usage = usage;
    selector = selector;
    matching_type = matching;
    certificate = to_upper (hex_encode association);
  }

  unfoldable pub tlsa_from_certificate_pem : Text → ℕ → ℕ → ℕ → Result Text
  tlsa_from_certificate_pem pem usage selector matching = do
    bytes ← certificate_block (lib.decode_pem pem)
    certificate ← parsed (lib.parse_certificate bytes)
    data_bytes ← selected certificate selector
    association ← associated data_bytes matching
    let made : Tlsa = made_tlsa usage selector matching association
    valid ← validate_tlsa made
    ok (content_of (tlsa made))

  -- On a protocol in lower case and a full domain.
  abbrev pub tlsa_owner : ℕ → Text → Text → Result Text
  tlsa_owner port protocol domain =
      if not (has_text protocol (txt "tcp" ∷ txt "udp" ∷ txt "sctp" ∷ []))
      then err (txt "TLSA protocol must be tcp, udp, or sctp")
      else if domain =t txt "."
      then err (txt "TLSA domain is required")
      else ok (txt "_" ++ itoa port ++ txt "._" ++ protocol ++ txt "." ++ domain)

  unfoldable pub parse_tlsa_owner : ℕ → Text → Text → Result Text
  parse_tlsa_owner port protocol domain =
      tlsa_owner port (to_lower (trim_space protocol)) (lib.fqdn (trim_space domain))
