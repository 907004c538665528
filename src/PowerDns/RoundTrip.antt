-- ===== src/PowerDns/RoundTrip.antt =====
-- The text of an SOA record is read back as the record.
use any_ns.Base.{ℕ, ◌<◌, [], ◌∷◌, false, some, ◌≡◌, ap, ◌∙◌, ltb, ◌==◌, arith}
use any_ns.Base.Fields.{fields, IsWord, fields-spaced, fields_word}
use any_ns.Base.Number.{itoa, itoa_nonempty, itoa-All, scan_digits-itoa}
use any_ns.Base.Result.{ok}
use any_ns.DnsName.{Idna}
use any_ns.PowerDns.{done, SoaRecord, normalize_zone_name}
use any_ns.PowerDns.Soa.{
  uint32_limit, parse_uint32, content, of_seven, parse_soa_fields, parse_soa_content,
  validate_soa_record, with_ttl,
}
use any_ns.PowerDns.Serials.{IsSound}

itoa-IsWord : (n : ℕ) → IsWord (itoa n)
itoa-IsWord n = record { some_byte = itoa_nonempty n; no_space = itoa-All n }

parse_uint32-itoa : (n : ℕ) → n < uint32_limit → parse_uint32 (itoa n) ≡ some n
unfolding parse_uint32
parse_uint32-itoa n h = rw (scan_digits-itoa n) (ground (arith, h))

-- Names in their normal form, and numbers in 32 bits.
pub record IsNormal (idna : Idna) (soa : SoaRecord) : Type 0 where
  pub primary_ns : normalize_zone_name idna soa.primary_ns ≡ ok soa.primary_ns
  pub hostmaster : normalize_zone_name idna soa.hostmaster ≡ ok soa.hostmaster
  pub primary_word : IsWord soa.primary_ns
  pub hostmaster_word : IsWord soa.hostmaster
  pub serial : soa.serial < uint32_limit
  pub refresh : soa.refresh < uint32_limit
  pub retry : soa.retry < uint32_limit
  pub expire : soa.expire < uint32_limit
  pub minimum : soa.minimum < uint32_limit

validate_sound : (soa : SoaRecord) → IsSound soa → validate_soa_record (with_ttl 0 soa) ≡ done tt
unfolding validate_soa_record
validate_sound soa h =
    let serial : (soa.serial == 0) ≡ false = ground (arith, h.serial) in
    let refresh : ltb soa.refresh 60 ≡ false = ground (arith, h.refresh) in
    let retry : ltb soa.retry 60 ≡ false = ground (arith, h.retry) in
    let expire : ltb soa.expire 300 ≡ false = ground (arith, h.expire) in
    let minimum : ltb soa.minimum 60 ≡ false = ground (arith, h.minimum) in
    simp (h.primary_ns, h.hostmaster, serial, refresh, retry, expire, minimum)

fields-content :
    (idna : Idna) (soa : SoaRecord)
    → IsNormal idna soa
    → fields (content soa)
      ≡ soa.primary_ns
        ∷ soa.hostmaster
        ∷ itoa soa.serial
        ∷ itoa soa.refresh
        ∷ itoa soa.retry
        ∷ itoa soa.expire
        ∷ itoa soa.minimum
        ∷ []
unfolding content
fields-content idna soa h =
    fields-spaced _ _ h.primary_word
    ∙ ap (◌∷◌ soa.primary_ns) (
        fields-spaced _ _ h.hostmaster_word
        ∙ ap (◌∷◌ soa.hostmaster) (
            fields-spaced _ _ (itoa-IsWord soa.serial)
            ∙ ap (◌∷◌ (itoa soa.serial)) (
                fields-spaced _ _ (itoa-IsWord soa.refresh)
                ∙ ap (◌∷◌ (itoa soa.refresh)) (
                    fields-spaced _ _ (itoa-IsWord soa.retry)
                    ∙ ap (◌∷◌ (itoa soa.retry)) (
                        fields-spaced _ _ (itoa-IsWord soa.expire)
                        ∙ ap (◌∷◌ (itoa soa.expire)) (fields_word _ (itoa-IsWord soa.minimum)))))))

-- The content of an SOA record is read back as the record with a TTL of 0, where its names are
-- in their normal form, with at least one byte and no space, its numbers fit in 32 bits, and it
-- satisfies the rules for SOA records.
pub parse-content :
    (idna : Idna) (soa : SoaRecord)
    → IsNormal idna soa
    → IsSound soa
    → parse_soa_content idna (content soa) ≡ done (with_ttl 0 soa)
unfolding parse_soa_content parse_soa_fields
parse-content idna soa h sound =
    ap (of_seven idna) (fields-content idna soa h)
    ∙ simp (
      h.primary_ns,
      h.hostmaster,
      parse_uint32-itoa _ h.serial,
      parse_uint32-itoa _ h.refresh,
      parse_uint32-itoa _ h.retry,
      parse_uint32-itoa _ h.expire,
      parse_uint32-itoa _ h.minimum,
      validate_sound soa sound,
    )
