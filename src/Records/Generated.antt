-- ===== src/Records/Generated.antt =====
-- The TLSA records that are made of certificates (internal/dnsrr/records.go).
use any_ns.Base.{
  ℕ, zero, suc, ◌<◌, ◌≤◌, ◌⊎◌, sym, false, some, ◌≡◌, refl, ap, ◌∙◌, inl, inr, Text, txt, ◌=t◌,
  is_empty, length, All, ltb, ◌==◌, ==_iff, arith, Bool-cases,
}
use any_ns.Base.Hex.{hex_decode, hex_encode, IsByte, hex_decode-to_upper, hex_decode-hex_encode}
use any_ns.Base.Result.{Result, ok, err, ok-injective}
use any_ns.Records.{
  Tlsa, tlsa, Certificate, RrLibrary, validate_tlsa, check_association, canonical, selected,
  associated, made_tlsa, content_of, tlsa_from_certificate_pem,
}
use any_ns.Records.Canonical.{upper_tlsa-upper_tlsa}

selector_bound :
    (lib : RrLibrary) (c : Certificate) (selector : ℕ) {data_bytes : Text}
    → selected lib c selector ≡ ok data_bytes
    → selector ≤ 1
selector_bound lib c selector h = elim (Bool-cases (selector == 0)) [
  | inl raw ↦ ground (arith, raw)
  | inr more ↦ elim (Bool-cases (selector == 1)) [
    | inl spki ↦ ground (arith, spki)
    | inr neither ↦
        let k : err (txt "TLSA selector must be 0 or 1") ≡ ok _ = rw (more, neither) at h in cc
  ]
]

module _ (lib : RrLibrary) (hashes : (x : Text) → length (lib.sha256 x) ≡ 32) where
  -- The data of an association are whole, or a hash.
  matching_cases :
      (data_bytes association : Text) (matching : ℕ)
      → associated lib data_bytes matching ≡ ok association
      → (matching ≡ 0) ⊎ ((matching ≡ 1) × (length association ≡ 32))
  matching_cases data_bytes association matching h = elim (Bool-cases (matching == 0)) [
    | inl whole ↦ inl ((==_iff matching 0).0 whole)
    | inr more ↦ elim (Bool-cases (matching == 1)) [
      | inl hash ↦
          let e : lib.sha256 data_bytes ≡ association = ok-injective (rw (more, hash) at h) in
          inr ((==_iff matching 1).0 hash, ap length (sym e) ∙ hashes data_bytes)
      | inr neither ↦
          let k : err (txt "TLSA matching type must be 0 or 1; SHA-512 generation is not enabled")
              ≡ ok association =
            rw (more, neither) at h in
          cc
    ]
  ]

  fits_association :
      (matching : ℕ) (association : Text)
      → is_empty association ≡ false
      → (matching ≡ 0) ⊎ ((matching ≡ 1) × (length association ≡ 32))
      → check_association matching (some association) ≡ ok tt
  fits_association matching association full h = elim h [
    | inl whole ↦ rw (full, whole) refl
    | inr (hash, size) ↦ rw (full, hash, size) refl
  ]

  validate_made :
      (usage selector matching : ℕ) (c : Certificate) (data_bytes association : Text)
      → usage ≤ 3
      → selected lib c selector ≡ ok data_bytes
      → associated lib data_bytes matching ≡ ok association
      → is_empty association ≡ false
      → All IsByte association
      → (hex_decode (made_tlsa lib usage selector matching association).certificate
          ≡ some association)
        × (validate_tlsa (made_tlsa lib usage selector matching association) ≡ ok tt)
  unfolding validate_tlsa
  validate_made usage selector matching c data_bytes association u s m full bytes =
      let usage_ok : ltb 3 usage ≡ false = ground (arith, u) in
      let selector_ok : ltb 1 selector ≡ false = ground (arith, selector_bound lib c selector s) in
      let cases = matching_cases data_bytes association matching m in
      let matching_ok : ltb 2 matching ≡ false = ground (arith, cases) in
      let read =
        hex_decode-to_upper (hex_encode association) ∙ hex_decode-hex_encode association bytes in
      (
        read,
        rw (usage_ok, selector_ok, matching_ok, read)
            (fits_association matching association full cases),
      )

  generated :
      (pem bytes : Text) (c : Certificate) (usage selector matching : ℕ)
      (data_bytes association : Text)
      → lib.decode_pem pem ≡ some (txt "CERTIFICATE", bytes)
      → lib.parse_certificate bytes ≡ ok c
      → usage ≤ 3
      → selected lib c selector ≡ ok data_bytes
      → associated lib data_bytes matching ≡ ok association
      → is_empty association ≡ false
      → All IsByte association
      → let made : Tlsa = made_tlsa lib usage selector matching association in
        (tlsa_from_certificate_pem lib pem usage selector matching
          ≡ ok (content_of lib (tlsa made)))
        × (hex_decode made.certificate ≡ some association)
        × (canonical lib (tlsa made) ≡ ok (tlsa made))
  unfolding tlsa_from_certificate_pem canonical ◌=t◌
  generated pem bytes c usage selector matching data_bytes association p x u s m full all_bytes =
      let (read, valid) =
        validate_made usage selector matching c data_bytes association u s m full all_bytes in
      (
        simp (p, x, s, m, valid),
        read,
        simp (valid) (
            ap (λ z. ok (tlsa z))
              (upper_tlsa-upper_tlsa (record {
                header = record { name = txt "."; rr_type = 52; class = 1; ttl = 300 };
                usage = usage;
                selector = selector;
                matching_type = matching;
                certificate = hex_encode association;
              }))),
      )

-- What a selector and a matching type take of a certificate.
pub data Associates (lib : RrLibrary) (c : Certificate) : ℕ → ℕ → Text → Type 0 where
  whole_certificate : Associates lib c 0 0 c.raw
  certificate_hash : Associates lib c 0 1 (lib.sha256 c.raw)
  whole_key : Associates lib c 1 0 c.raw_subject_public_key_info
  key_hash : Associates lib c 1 1 (lib.sha256 c.raw_subject_public_key_info)

-- How the generation ends.
pub data Generates (lib : RrLibrary) (c : Certificate) (usage selector matching : ℕ)
    (r : Result Text) : Type 0 where
  generates :
      (t : Tlsa) (association : Text)
      → usage ≤ 3
      → Associates lib c selector matching association
      → t.usage ≡ usage
      → t.selector ≡ selector
      → t.matching_type ≡ matching
      → hex_decode t.certificate ≡ some association
      → canonical lib (tlsa t) ≡ ok (tlsa t)
      → r ≡ ok (content_of lib (tlsa t))
      → Generates lib c usage selector matching r
  rejects :
      (e : Text)
      → (3 < usage) ⊎ ((1 < selector) ⊎ (1 < matching))
      → r ≡ err e
      → Generates lib c usage selector matching r

-- Some text of bytes.
abbrev pub IsData : Text → Type 0
IsData s = (is_empty s ≡ false) × All IsByte s

module _ (lib : RrLibrary) (hashes : (x : Text) → length (lib.sha256 x) ≡ 32)
    (hashed : (x : Text) → IsData (lib.sha256 x)) where
  generated-Generates :
      (pem bytes : Text) (c : Certificate) (usage selector matching : ℕ)
      (data_bytes association : Text)
      → lib.decode_pem pem ≡ some (txt "CERTIFICATE", bytes)
      → lib.parse_certificate bytes ≡ ok c
      → selected lib c selector ≡ ok data_bytes
      → associated lib data_bytes matching ≡ ok association
      → Associates lib c selector matching association
      → IsData association
      → Generates lib c usage selector matching
          (tlsa_from_certificate_pem lib pem usage selector matching)
  unfolding tlsa_from_certificate_pem validate_tlsa ◌=t◌
  generated-Generates pem bytes c usage selector matching data_bytes association p x s m made full =
      elim (Bool-cases (ltb 3 usage)) [
        | inl large ↦
            rejects (txt "TLSA certificate usage must be between 0 and 3")
              (inl (ground (arith, large))) (simp (p, x, s, m, large))
        | inr small ↦
            let u : usage ≤ 3 = ground (arith, small) in
            let (out, read, normal) =
              generated lib hashes pem bytes c usage selector matching data_bytes association p x u
                s m full.0 full.1 in
            generates (made_tlsa lib usage selector matching association) association u made refl
              refl refl read normal out
      ]

  associated_over :
      (data_bytes : Text) (n : ℕ)
      → associated lib data_bytes (suc (suc n))
        ≡ err (txt "TLSA matching type must be 0 or 1; SHA-512 generation is not enabled")
  associated_over data_bytes n = ground arith

  selected_over :
      (c : Certificate) (n : ℕ)
      → selected lib c (suc (suc n)) ≡ err (txt "TLSA selector must be 0 or 1")
  selected_over c n = ground arith

  -- Where hashes are 32 bytes, and the PEM text holds a certificate that parses, which is not empty
  -- and has a key that is not empty, both made of bytes: generating a TLSA record ends in one of two
  -- ways, for every usage, selector and matching type. The usage is at most 3; the record has the
  -- three numbers and, in hexadecimal digits, the whole certificate or its public key by the selector
  -- 0 or 1, as it is or its SHA-256 hash by the matching type 0 or 1; it is its own normal form, and
  -- its content is returned. Or there is an error, and the usage is greater than 3, or the selector
  -- or the matching type greater than 1.
  pub tlsa_from_certificate_pem_lem :
      (pem bytes : Text) (c : Certificate) (usage selector matching : ℕ)
      → lib.decode_pem pem ≡ some (txt "CERTIFICATE", bytes)
      → lib.parse_certificate bytes ≡ ok c
      → IsData c.raw
      → IsData c.raw_subject_public_key_info
      → Generates lib c usage selector matching
          (tlsa_from_certificate_pem lib pem usage selector matching)
  unfolding tlsa_from_certificate_pem ◌=t◌
  tlsa_from_certificate_pem_lem pem bytes c usage zero zero p x raw key =
      generated-Generates pem bytes c usage 0 0 _ _ p x refl refl whole_certificate raw
  tlsa_from_certificate_pem_lem pem bytes c usage zero (suc zero) p x raw key =
      generated-Generates pem bytes c usage 0 1 _ _ p x refl refl certificate_hash (hashed c.raw)
  tlsa_from_certificate_pem_lem pem bytes c usage (suc zero) zero p x raw key =
      generated-Generates pem bytes c usage 1 0 _ _ p x refl refl whole_key key
  tlsa_from_certificate_pem_lem pem bytes c usage (suc zero) (suc zero) p x raw key =
      generated-Generates pem bytes c usage 1 1 _ _ p x refl refl key_hash
        (hashed c.raw_subject_public_key_info)
  tlsa_from_certificate_pem_lem pem bytes c usage zero (suc (suc n)) p x raw key =
      rejects (txt "TLSA matching type must be 0 or 1; SHA-512 generation is not enabled")
        (inr (inr (omega arith))) (simp (p, x, associated_over c.raw n))
  tlsa_from_certificate_pem_lem pem bytes c usage (suc zero) (suc (suc n)) p x raw key =
      rejects (txt "TLSA matching type must be 0 or 1; SHA-512 generation is not enabled")
        (inr (inr (omega arith))) (simp (p, x, associated_over c.raw_subject_public_key_info n))
  tlsa_from_certificate_pem_lem pem bytes c usage (suc (suc n)) matching p x raw key =
      rejects (txt "TLSA selector must be 0 or 1") (inr (inl (omega arith)))
        (simp (p, x, selected_over c n))
