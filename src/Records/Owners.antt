-- ===== src/Records/Owners.antt =====
-- The owners of TLSA records: those that internal/dnsrr/records.go makes pass the check of
-- internal/powerdns/client.go.
use any_ns.Base.{
  ℕ, ◌≤◌, ◌<◌, List, [], ◌∷◌, ◌++◌, true, false, ◌≡◌, refl, sym, ap, ◌∙◌, inl, inr, Text, txt, ◌=t◌,
  =t_iff, to_lower, trim_space, trim_prefix, split, length-append, All, take, arith, Bool-cases,
}
use mathlib.Core.List.{append_assoc}
use mathlib.Core.Path.{subst}
use any_ns.Base.Members.{has_text}
use any_ns.Base.Number.{is_digit, itoa, itoa_digits, itoa_nonempty, atoi, atoi-itoa}
use any_ns.Base.Result.{ok, err, ok-injective}
use any_ns.Base.Splits.{IsFree, split_free, split_at, take-append, =t_length, =t_length_gt}
use any_ns.Base.Suffixes.{has_suffix_append}
use any_ns.Records.{RrLibrary, parse_tlsa_owner}
use any_ns.PowerDns.{name_inside_zone}
use any_ns.Base.Suffixes.{suffix_split}
use any_ns.PowerDns.Patch.{without_suffix, is_port, validate_tlsa_labels, validate_tlsa_owner}

digits-IsFree : (s : Text) → All (λ c. is_digit c ≡ true) s → IsFree b'.' s
digits-IsFree [] h = tt
digits-IsFree (c ∷ s) h = (ground (arith, h.0), digits-IsFree s h.1)

abbrev protocols : List Text
protocols = txt "tcp" ∷ txt "udp" ∷ txt "sctp" ∷ []

-- The protocols have no dot, and are known with an underscore before them.
protocol-IsFree : (p : Text) → has_text p protocols ≡ true → IsFree b'.' p
protocol-IsFree p h = elim (Bool-cases (txt "tcp" =t p)) [
  | inl tcp ↦ subst (IsFree b'.') ((=t_iff _ p).0 tcp) (refl, (refl, (refl, tt)))
  | inr a ↦ elim (Bool-cases (txt "udp" =t p)) [
    | inl udp ↦ subst (IsFree b'.') ((=t_iff _ p).0 udp) (refl, (refl, (refl, tt)))
    | inr b ↦ elim (Bool-cases (txt "sctp" =t p)) [
      | inl sctp ↦ subst (IsFree b'.') ((=t_iff _ p).0 sctp) (refl, (refl, (refl, (refl, tt))))
      | inr c ↦ absurd (ground (arith, a, b, c, h))
    ]
  ]
]

known_label :
    (p : Text)
    → has_text p protocols ≡ true
    → has_text (b'_' ∷ p) (txt "_tcp" ∷ txt "_udp" ∷ txt "_sctp" ∷ []) ≡ true
unfolding ◌=t◌
known_label p h = h

without_suffix-append : (s t : Text) → without_suffix (s ++ t) t ≡ s
without_suffix-append s t =
    rw (has_suffix_append s t)
      (ap (λ n. take n (s ++ t)) (omega (arith, length-append s t)) ∙ take-append s t)

-- The labels of an owner before its zone.
abbrev port_labels : ℕ → Text → Text
port_labels port label = b'_' ∷ itoa port ++ b'.' ∷ label

shape :
    (port : ℕ) (label tail : Text)
    → port_labels port label ++ tail ≡ b'_' ∷ (itoa port ++ (b'.' ∷ (label ++ tail)))
shape port label tail = ap (◌∷◌ b'_') (append_assoc (itoa port) (b'.' ∷ label) tail)

owner_shape :
    (port : ℕ) (p d : Text)
    → txt "_" ++ itoa port ++ txt "._" ++ p ++ txt "." ++ d
      ≡ b'_' ∷ (itoa port ++ (b'.' ∷ b'_' ∷ (p ++ (b'.' ∷ d))))
owner_shape port p d = simp (append_assoc)

good_labels :
    (port : ℕ) (p : Text) (labels : List Text)
    → 0 < port
    → port ≤ 65535
    → has_text p protocols ≡ true
    → validate_tlsa_labels ((b'_' ∷ itoa port) ∷ (b'_' ∷ p) ∷ labels) ≡ ok tt
unfolding validate_tlsa_labels trim_prefix
good_labels port p labels low high known =
    let longer : (itoa port =t b'_' ∷ itoa port) ≡ false = =t_length _ _ (omega arith) in
    let full = itoa_nonempty port in
    let read = atoi-itoa port (omega arith) in
    let port_read : is_port (atoi (itoa port)) ≡ true = rw read (ground (arith, low, high)) in
    rw (longer, full, port_read, known_label p known) refl

owner_accepted :
    (port : ℕ) (p zone rest : Text) (labels : List Text)
    → 0 < port
    → port ≤ 65535
    → has_text p protocols ≡ true
    → split rest b'.' ≡ (b'_' ∷ p) ∷ labels
    → validate_tlsa_owner (port_labels port rest ++ b'.' ∷ zone) zone ≡ ok tt
unfolding validate_tlsa_owner
owner_accepted port p zone rest labels low high known cut =
    let relative = port_labels port rest in
    let owner : Text = relative ++ b'.' ∷ zone in
    let apart : (owner =t zone) ≡ false =
      =t_length_gt owner zone (omega (arith, length-append relative (b'.' ∷ zone))) in
    let inside = without_suffix-append relative (b'.' ∷ zone) in
    let shorter : (relative =t owner) ≡ false =
      =t_length relative owner (omega (arith, length-append relative (b'.' ∷ zone))) in
    let labels_of : split relative b'.' ≡ (b'_' ∷ itoa port) ∷ (b'_' ∷ p) ∷ labels =
      split_at b'.' (b'_' ∷ itoa port) rest (refl, digits-IsFree (itoa port) (itoa_digits port))
      ∙ ap (◌∷◌ (b'_' ∷ itoa port)) cut in
    rw (apart, inside, shorter, labels_of) (good_labels port p labels low high known)

module _ (lib : RrLibrary) where
  -- An owner that is made for a port from 1 to 65535, a protocol and a domain in a zone is accepted
  -- as the owner of a TLSA record in that zone.
  pub parse_tlsa_owner-accepted :
      (port : ℕ) (protocol domain owner zone : Text)
      → parse_tlsa_owner lib port protocol domain ≡ ok owner
      → 0 < port
      → port ≤ 65535
      → name_inside_zone (lib.fqdn (trim_space domain)) zone ≡ true
      → validate_tlsa_owner owner zone ≡ ok tt
  unfolding parse_tlsa_owner name_inside_zone
  parse_tlsa_owner-accepted port protocol domain owner zone h low high inside =
      let p = to_lower (trim_space protocol) in
      let d = lib.fqdn (trim_space domain) in
      elim (Bool-cases (has_text p protocols)) [
        | inr bad ↦
            let k : err (txt "TLSA protocol must be tcp, udp, or sctp") ≡ ok owner = rw bad at h in
            cc
        | inl known ↦ elim (Bool-cases (d =t txt ".")) [
          | inl root ↦
              let k : err (txt "TLSA domain is required") ≡ ok owner = rw (known, root) at h in cc
          | inr more ↦
              let made : txt "_" ++ itoa port ++ txt "._" ++ p ++ txt "." ++ d ≡ owner =
                ok-injective (rw (known, more) at h) in
              elim (Bool-cases (d =t zone)) [
                | inl apex ↦
                    subst (λ o. validate_tlsa_owner o zone ≡ ok tt)
                      (shape port (b'_' ∷ p) (b'.' ∷ zone)
                        ∙ ap (λ x. b'_' ∷ (itoa port ++ (b'.' ∷ b'_' ∷ (p ++ (b'.' ∷ x)))))
                            (sym ((=t_iff d zone).0 apex))
                        ∙ sym (owner_shape port p d)
                        ∙ made)
                      (owner_accepted port p zone (b'_' ∷ p) [] low high known
                        (split_free b'.' (b'_' ∷ p) (refl, protocol-IsFree p known)))
                | inr below ↦
                    let (front, is_under) =
                      suffix_split d (b'.' ∷ zone) (ground (arith, inside, below)) in
                    subst (λ o. validate_tlsa_owner o zone ≡ ok tt)
                      (shape port (b'_' ∷ p ++ b'.' ∷ front) (b'.' ∷ zone)
                        ∙ ap (λ x. b'_' ∷ (itoa port ++ (b'.' ∷ b'_' ∷ x)))
                            (append_assoc p (b'.' ∷ front) (b'.' ∷ zone))
                        ∙ ap (λ x. b'_' ∷ (itoa port ++ (b'.' ∷ b'_' ∷ (p ++ (b'.' ∷ x)))))
                            (sym is_under)
                        ∙ sym (owner_shape port p d)
                        ∙ made)
                      (owner_accepted port p zone (b'_' ∷ p ++ b'.' ∷ front) (split front b'.') low
                        high known (split_at b'.' (b'_' ∷ p) front (refl, protocol-IsFree p known)))
              ]
        ]
      ]
