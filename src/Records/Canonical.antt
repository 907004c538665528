-- ===== src/Records/Canonical.antt =====
-- The normal form of a record is its own normal form (internal/dnsrr/records.go).
use any_ns.Base.{
  ℕ, ◌≤◌, ◌<◌, ◌↔◌, ◌⊎◌, inl, inr, sym, [], ◌∷◌, ◌≡◌, refl, ap, true, some, Option-cases,
  Bool-cases, Text, is_empty, length, upper, lower, to_upper, to_lower, all, arith,
}
use mathlib.Core.Path.{subst}
use any_ns.Base.Hex.{hex_decode, hex_decode-to_upper}
use any_ns.Base.Result.{Result, Result-cases, ok, ◌>>=◌, ok-injective, >>=-eq-ok}
use any_ns.Records.{
  Ds, DnsKey, Tlsa, Caa, DnsRr, ds, dns_key, tlsa, caa, other, RrLibrary, is_alphanumeric,
  validate_ds, validate_tlsa, validate_tag, validate_dns_key, canonical,
}

upper-upper : (c : ℕ) → upper (upper c) ≡ upper c
unfolding upper
upper-upper c = ground arith

lower-lower : (c : ℕ) → lower (lower c) ≡ lower c
unfolding lower
lower-lower c = ground arith

pub to_upper-to_upper : (s : Text) → to_upper (to_upper s) ≡ to_upper s
unfolding to_upper
to_upper-to_upper [] = refl
to_upper-to_upper (c ∷ s) = simp (upper-upper c, to_upper-to_upper s)

to_lower-to_lower : (s : Text) → to_lower (to_lower s) ≡ to_lower s
unfolding to_lower
to_lower-to_lower [] = refl
to_lower-to_lower (c ∷ s) = simp (lower-lower c, to_lower-to_lower s)

abbrev upper_ds : Ds → Ds
upper_ds d = record d { digest = to_upper d.digest }

abbrev pub upper_tlsa : Tlsa → Tlsa
upper_tlsa t = record t { certificate = to_upper t.certificate }

abbrev lower_caa : Caa → Caa
lower_caa c = record c { tag = to_lower c.tag }

pub upper_tlsa-upper_tlsa : (t : Tlsa) → upper_tlsa (upper_tlsa t) ≡ upper_tlsa t
upper_tlsa-upper_tlsa t = ap (λ x. record t { certificate = x }) (to_upper-to_upper t.certificate)

validate_ds-upper_ds : (d : Ds) → validate_ds (upper_ds d) ≡ validate_ds d
unfolding validate_ds
validate_ds-upper_ds d = simp (hex_decode-to_upper d.digest)

pub validate_tlsa-upper_tlsa : (t : Tlsa) → validate_tlsa (upper_tlsa t) ≡ validate_tlsa t
unfolding validate_tlsa
validate_tlsa-upper_tlsa t = simp (hex_decode-to_upper t.certificate)

is_alphanumeric-lower : (c : ℕ) → is_alphanumeric (lower c) ≡ is_alphanumeric c
unfolding lower
is_alphanumeric-lower c = ground arith

all_alphanumeric : (s : Text) → all is_alphanumeric (to_lower s) ≡ all is_alphanumeric s
unfolding to_lower
all_alphanumeric [] = refl
all_alphanumeric (c ∷ s) = simp (is_alphanumeric-lower c, all_alphanumeric s)

is_empty-to_lower : (s : Text) → is_empty (to_lower s) ≡ is_empty s
unfolding to_lower
is_empty-to_lower [] = refl
is_empty-to_lower (c ∷ s) = refl

validate_tag-to_lower : (s : Text) → validate_tag (to_lower s) ≡ validate_tag s
unfolding validate_tag
validate_tag-to_lower s = simp (is_empty-to_lower s, all_alphanumeric s)

-- A step that passes, with a value behind it.
passed {ℓ κ} :
    {A : Type ℓ} {B : Type κ} (r : Result A) (b : B) {c : B}
    → (r >>= (λ a. ok b)) ≡ ok c
    → (a : A) × (r ≡ ok a) × (b ≡ c)
passed r b h = let (a, e, k) = >>=-eq-ok r (λ a. ok b) h in (a, e, ok-injective k)

-- Digest types and their sizes in bytes.
abbrev pub IsDigestSize : ℕ → ℕ → Type 0
IsDigestSize digest_type size =
    ((digest_type ≡ 1) × (size ≡ 20))
    ⊎ (((digest_type ≡ 2) × (size ≡ 32)) ⊎ ((digest_type ≡ 4) × (size ≡ 48)))

-- The sizes in bytes of what is associated under a matching type: any but 0 for a whole, and that of
-- the hash otherwise.
abbrev pub IsAssociationSize : ℕ → ℕ → Type 0
IsAssociationSize matching size =
    ((matching ≡ 0) × (0 < size))
    ⊎ (((matching ≡ 1) × (size ≡ 32)) ⊎ ((matching ≡ 2) × (size ≡ 64)))

abbrev pub IsDs : Ds → Type 0
IsDs d =
    (bytes : Text) × (hex_decode d.digest ≡ some bytes) × IsDigestSize d.digest_type (length bytes)

abbrev pub IsTlsa : Tlsa → Type 0
IsTlsa t =
    (t.usage ≤ 3)
    × (t.selector ≤ 1)
    × ((bytes : Text) × (hex_decode t.certificate ≡ some bytes)
        × IsAssociationSize t.matching_type (length bytes))

abbrev pub IsTag : Text → Type 0
IsTag tag = (0 < length tag) × (all is_alphanumeric tag ≡ true)

validate_ds_iff : (d : Ds) → (validate_ds d ≡ ok tt) ↔ IsDs d
unfolding validate_ds
validate_ds_iff d = elim (Option-cases (hex_decode d.digest)) [
  | inl bad ↦ rw bad (λ h. absurd (ground (arith, h)), λ h. absurd (cc (h.1)))
  | inr (bytes, good) ↦ rw good (
    λ h. (bytes, refl, ground (arith, h)),
    λ h. let same : bytes ≡ h.0 = cc (h.1) in ground (arith, h.2, ap length same),
  )
]

validate_tlsa_iff : (t : Tlsa) → (validate_tlsa t ≡ ok tt) ↔ IsTlsa t
unfolding validate_tlsa
validate_tlsa_iff t = elim (Option-cases (hex_decode t.certificate)) [
  | inl bad ↦ rw bad (λ h. absurd (ground (arith, h)), λ h. absurd (cc (h.2.1)))
  | inr ([], good) ↦ rw good (
    λ h. absurd (ground (arith, h)),
    λ h. let same : [] ≡ h.2.0 = cc (h.2.1) in absurd (ground (arith, h.2.2, ap length same)),
  )
  | inr (b ∷ bytes, good) ↦ rw good (
    λ h. (ground (arith, h), ground (arith, h), (b ∷ bytes, refl, ground (arith, h))),
    λ h.
        let same : b ∷ bytes ≡ h.2.0 = cc (h.2.1) in
        ground (arith, h.0, h.1, h.2.2, ap length same),
  )
]

validate_tag_iff : (tag : Text) → (validate_tag tag ≡ ok tt) ↔ IsTag tag
unfolding validate_tag
validate_tag_iff [] = (λ h. absurd (cc), λ h. absurd (omega (arith, h.0)))
validate_tag_iff (c ∷ tag) = elim (Bool-cases (all is_alphanumeric (c ∷ tag))) [
  | inl good ↦ rw good (λ h. (omega arith, refl), λ h. refl)
  | inr bad ↦ rw bad (λ h. absurd (cc), λ h. absurd (cc (h.1)))
]

-- The digits in upper case, and a tag in lower case.
unfoldable pub folded : DnsRr → DnsRr
folded (ds d) = ds (upper_ds d)
folded (dns_key k) = dns_key k
folded (tlsa t) = tlsa (upper_tlsa t)
folded (caa c) = caa (lower_caa c)
folded (other text) = other text

module _ (lib : RrLibrary) where
  -- The records that stand for themselves, but for the case of their letters.
  unfoldable pub IsCanonical : DnsRr → Type 0
  IsCanonical (ds d) = IsDs d
  IsCanonical (dns_key k) =
      (k.protocol ≡ 3) × ((key : Text) × (lib.decode_base64 k.public_key ≡ ok key))
  IsCanonical (tlsa t) = IsTlsa t
  IsCanonical (caa c) = IsTag c.tag
  IsCanonical (other text) = Unit

  validate_dns_key_iff :
      (k : DnsKey)
      → (validate_dns_key lib k ≡ ok tt)
        ↔ ((k.protocol ≡ 3) × ((key : Text) × (lib.decode_base64 k.public_key ≡ ok key)))
  unfolding validate_dns_key
  validate_dns_key_iff k = elim (Result-cases (lib.decode_base64 k.public_key)) [
    | inl (e, bad) ↦ rw bad (λ h. absurd (ground (arith, h)), λ h. absurd (cc (h.1.1)))
    | inr (key, good) ↦ rw good (λ h. (ground (arith, h), (key, refl)), λ h. ground (arith, h.0))
  ]

  -- A check, and the record that is made where it passes.
  made_iff :
      (r : Result (Unit {0})) (made q : DnsRr)
      → (r ≡ ok tt) ↔ IsCanonical made
      → ((r >>= (λ u. ok made)) ≡ ok q) ↔ (IsCanonical q × (q ≡ made))
  made_iff r made q iff = (
    λ h.
        let (a, e, same) = passed r made h in
        subst (λ x. IsCanonical x × (x ≡ made)) same (iff.0 e, refl),
    λ h. rw (iff.1 (subst IsCanonical h.1 h.0)) (ap ok (sym h.1)),
  )

  -- `Normalize` accepts the fields of a record exactly if, in upper case where they are hexadecimal
  -- digits and in lower case where they are a tag, they are canonical, and then it returns them so:
  -- a DS record has a digest of 20, 32 or 48 bytes as its type 1, 2 or 4 says, a DNSKEY record the
  -- protocol 3 and a key in base64, a TLSA record a usage up to 3, a selector up to 1 and data that
  -- are not empty, with 32 bytes for the matching type 1 and 64 for 2, no other matching type than 0
  -- beside these, and a CAA record a tag of ASCII letters and digits that is not empty. A record of
  -- another type is canonical as it is.
  pub canonical_iff : (rr q : DnsRr) → (canonical lib rr ≡ ok q) ↔ (IsCanonical q × (q ≡ folded rr))
  unfolding canonical folded IsCanonical
  canonical_iff (ds d) q = made_iff (validate_ds d) (ds (upper_ds d)) q (
      subst (λ r. (r ≡ ok tt) ↔ IsDs (upper_ds d)) (validate_ds-upper_ds d)
        (validate_ds_iff (upper_ds d)))
  canonical_iff (dns_key k) q =
      made_iff (validate_dns_key lib k) (dns_key k) q (validate_dns_key_iff k)
  canonical_iff (tlsa t) q = made_iff (validate_tlsa t) (tlsa (upper_tlsa t)) q (
      subst (λ r. (r ≡ ok tt) ↔ IsTlsa (upper_tlsa t)) (validate_tlsa-upper_tlsa t)
        (validate_tlsa_iff (upper_tlsa t)))
  canonical_iff (caa c) q = made_iff (validate_tag c.tag) (caa (lower_caa c)) q (
      subst (λ r. (r ≡ ok tt) ↔ IsTag (to_lower c.tag)) (validate_tag-to_lower c.tag)
        (validate_tag_iff (to_lower c.tag)))
  canonical_iff (other text) q = (
    λ h. subst (λ x. IsCanonical x × (x ≡ other text)) (ok-injective h) (tt, refl),
    λ h. ap ok (sym h.1),
  )
