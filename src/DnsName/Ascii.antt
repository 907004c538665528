-- ===== src/DnsName/Ascii.antt =====
-- What `ToASCII` of internal/dnsname/idna.go returns, for every name.
use any_ns.Base.{
  ◌≤◌, ◌<◌, ◌≡◌, ◌⊎◌, inl, inr, refl, sym, ap, ◌∙◌, List, [], ◌∷◌, ◌++◌, true, false, ◌||◌, Text,
  txt, ◌=t◌, is_empty, to_lower, trim_space, trim_suffix, split, join, length, length-append, any,
  ltb, leb, ◌==◌, if◌then◌else◌, arith, All, Bool-cases, ◌↔◌,
}
use mathlib.Core.Logic.{Lift}
use mathlib.Core.Path.{subst}
use any_ns.Base.Result.{Result, ok, err, ◌>>=◌, >>=-eq-ok, ok-injective}
use any_ns.DnsName.{
  Idna, is_ascii, label_to_ascii, convert_label, convert_labels, join_checked, to_ascii,
  replace_dots,
}

length-to_lower : (s : Text) → length (to_lower s) ≡ length s
unfolding to_lower
length-to_lower [] = refl
length-to_lower (c ∷ s) = omega (arith, length-to_lower s)

-- No space, no control character.
abbrev pub IsVisible : Text → Type 0
IsVisible s = All (λ c. (0x20 < c) × ((c == 0x7f) ≡ false)) s

any-IsVisible : (s : Text) → (any (λ c. leb c 0x20 || c == 0x7f) s ≡ false) ↔ IsVisible s
any-IsVisible [] = (λ h. tt, λ h. refl)
any-IsVisible (c ∷ s) =
    let (there, back) = any-IsVisible s in
    (
      λ h. ((ground (arith, h), ground (arith, h)), there (ground (arith, h))),
      λ h. ground (arith, h.0, back h.1),
    )

module _ (idna : Idna) where
  -- What a label becomes: one in ASCII, without spaces and control characters, stays, and another is
  -- what the IDNA library makes of it, in lower case and of at most 63 octets either way.
  pub record Converts (label a : Text) : Type 0 where
    pub nonempty : is_empty label ≡ false
    pub how :
        ((is_ascii label ≡ true) × IsVisible label × (a ≡ to_lower label))
        ⊎ ((is_ascii label ≡ false) × ((x : Text) × (idna label ≡ ok x) × (a ≡ to_lower x)))
    pub short : length a ≤ 63

  abbrev bounded : Text → Result Text
  bounded x = if ltb 63 (length x) then err (txt "DNS label exceeds 63 octets") else ok (to_lower x)

  bounded_iff : (x a : Text) → (bounded x ≡ ok a) ↔ ((a ≡ to_lower x) × (length a ≤ 63))
  bounded_iff x a = elim (Bool-cases (ltb 63 (length x))) [
    | inl long ↦ rw long (
      λ h. absurd (cc),
      λ h. absurd (ground (arith, long, length-to_lower x, ap length h.0, h.1)),
    )
    | inr fits ↦ rw fits (
      λ h. let e = ok-injective h in (sym e, ground (arith, fits, length-to_lower x, ap length e)),
      λ h. ap ok (sym h.0),
    )
  ]

  convert_label-Converts : (label a : Text) → convert_label idna label ≡ ok a → Converts label a
  unfolding convert_label label_to_ascii
  convert_label-Converts [] a h = absurd (cc)
  convert_label-Converts (c ∷ s) a h =
      let (x, converted, tail) = >>=-eq-ok (label_to_ascii idna (c ∷ s)) bounded h in
      let (e, short) = (bounded_iff x a).0 tail in
      record {
        nonempty = refl;
        how = elim (Bool-cases (is_ascii (c ∷ s))) [
          | inr wide ↦ inr (wide, (x, rw wide at converted, e))
          | inl plain ↦ elim (Bool-cases (any (λ c. leb c 0x20 || c == 0x7f) (c ∷ s))) [
            | inl bad ↦
                let k : err (txt "contains whitespace or control characters") ≡ ok x =
                  rw (plain, bad) at converted in
                absurd (cc)
            | inr good ↦
                let k : ok (c ∷ s) ≡ ok x = rw (plain, good) at converted in
                inl (plain, (any-IsVisible (c ∷ s)).0 good, e ∙ ap to_lower (sym (ok-injective k)))
          ]
        ];
        short = short;
      }

  Converts-convert_label : (label a : Text) → Converts label a → convert_label idna label ≡ ok a
  unfolding convert_label label_to_ascii
  Converts-convert_label [] a h = absurd (cc (h.nonempty))
  Converts-convert_label (c ∷ s) a h = elim h.how [
    | inl (plain, visible, e) ↦
        rw (plain, (any-IsVisible (c ∷ s)).1 visible) ((bounded_iff (c ∷ s) a).1 (e, h.short))
    | inr (wide, (x, converted, e)) ↦ rw (wide, converted) ((bounded_iff x a).1 (e, h.short))
  ]

  -- Label by label.
  abbrev pub AllConvert : List Text → List Text → Type 0
  AllConvert [] [] = Unit
  AllConvert (label ∷ labels) (a ∷ found) = Converts label a × AllConvert labels found
  AllConvert _ _ = Lift ⊥

  convert_labels-AllConvert :
      (labels found : List Text) → convert_labels idna labels ≡ ok found → AllConvert labels found
  unfolding convert_labels
  convert_labels-AllConvert [] found h = subst (AllConvert []) (ok-injective h) tt
  convert_labels-AllConvert (label ∷ labels) found h =
      let (a, first, more) =
        >>=-eq-ok (convert_label idna label)
          (λ a. convert_labels idna labels >>= (λ rest. ok (a ∷ rest))) h in
      let (rest, others, done) =
        >>=-eq-ok (convert_labels idna labels) (λ rest. ok (a ∷ rest)) more in
      subst (AllConvert (label ∷ labels)) {x = a ∷ rest} (ok-injective done)
        (convert_label-Converts label a first, convert_labels-AllConvert labels rest others)

  AllConvert-convert_labels :
      (labels found : List Text) → AllConvert labels found → convert_labels idna labels ≡ ok found
  unfolding convert_labels
  AllConvert-convert_labels [] [] h = refl
  AllConvert-convert_labels [] (a ∷ found) h = absurd h.lower
  AllConvert-convert_labels (label ∷ labels) [] h = absurd h.lower
  AllConvert-convert_labels (label ∷ labels) (a ∷ found) h =
      rw (Converts-convert_label label a h.0, AllConvert-convert_labels labels found h.1) refl

  -- What a name with its dots replaced becomes: the empty name and the root stay, and another is its
  -- labels, joined by dots with a final dot, of at most 254 octets in all.
  pub data IsLookupForm (s r : Text) : Type 0 where
    root : (is_empty s || s =t txt ".") ≡ true → r ≡ s → IsLookupForm s r
    labelled :
        (found : List Text)
        → (is_empty s || s =t txt ".") ≡ false
        → AllConvert (split (trim_suffix s b'.') b'.') found
        → r ≡ join found (txt ".") ++ txt "."
        → length r ≤ 254
        → IsLookupForm s r

  join_checked_iff :
      (found : List Text) (r : Text)
      → (join_checked found ≡ ok r) ↔ ((r ≡ join found (txt ".") ++ txt ".") × (length r ≤ 254))
  unfolding join_checked
  join_checked_iff found r =
      let size = length-append (join found (txt ".")) (txt ".") in
      elim (Bool-cases (ltb 253 (length (join found (txt "."))))) [
        | inl long ↦
            rw long (λ h. absurd (cc), λ h. absurd (ground (arith, long, size, ap length h.0, h.1)))
        | inr fits ↦ rw fits (
          λ h. let e = ok-injective h in (sym e, ground (arith, fits, size, ap length e)),
          λ h. ap ok (sym h.0),
        )
      ]

  -- The lookup form of a name, whatever the IDNA library answers: `ToASCII` returns a name exactly if
  -- that is the given one, without white space around it and with its ideographic full stops
  -- replaced, for the empty name and the root; and for any other name, if no label between its dots
  -- is empty, every label in ASCII is without spaces and control characters, the library converts
  -- each of the others, what comes of a label has at most 63 octets, and the labels in lower case,
  -- joined by dots with a final dot, are the name and have at most 254 octets.
  pub to_ascii-IsLookupForm :
      (name r : Text)
      → (to_ascii idna name ≡ ok r) ↔ IsLookupForm (replace_dots (trim_space name)) r
  unfolding to_ascii
  to_ascii-IsLookupForm name r =
      let s = replace_dots (trim_space name) in
      elim (Bool-cases (is_empty s || s =t txt ".")) [
        | inl plain ↦ rw plain (λ h. root plain (sym (ok-injective h)), from_root plain)
        | inr other ↦ rw other (
          λ h.
              let (found, converted, joined) =
                >>=-eq-ok (convert_labels idna (split (trim_suffix s b'.') b'.')) join_checked h in
              let (e, fits) = (join_checked_iff found r).0 joined in
              labelled found other (convert_labels-AllConvert _ found converted) e fits,
          from_labels other,
        )
      ]
    where
      from_root :
          (is_empty (replace_dots (trim_space name)) || replace_dots (trim_space name) =t txt ".")
            ≡ true
          → IsLookupForm (replace_dots (trim_space name)) r
          → ok (replace_dots (trim_space name)) ≡ ok r
      from_root p (root q e) = ap ok (sym e)
      from_root p (labelled found q c e fits) = absurd (cc)

      from_labels :
          (is_empty (replace_dots (trim_space name)) || replace_dots (trim_space name) =t txt ".")
            ≡ false
          → IsLookupForm (replace_dots (trim_space name)) r
          → (convert_labels idna (split (trim_suffix (replace_dots (trim_space name)) b'.') b'.')
              >>= join_checked)
            ≡ ok r
      from_labels p (root q e) = absurd (cc)
      from_labels p (labelled found q c e fits) =
          rw (AllConvert-convert_labels _ found c) ((join_checked_iff found r).1 (e, fits))
