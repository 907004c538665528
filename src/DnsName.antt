-- ===== src/DnsName.antt =====
-- internal/dnsname/idna.go: names to their ASCII lookup form and back. The conversions of one
-- label by the IDNA library are arguments. Error texts name the rule that failed, and leave out
-- the label that is quoted in them.
pub mod Ascii
use any_ns.Base.{
  ℕ, suc, ◌+◌, List, [], ◌∷◌, ◌++◌, Bool, true, false, not, ◌&&◌, ◌||◌, Text, txt, ◌=t◌, is_empty,
  to_lower, trim_space, trim_suffix, has_prefix, has_suffix, split, join, length, any, all, ltb,
  leb, ◌==◌, if◌then◌else◌,
}
use any_ns.Base.Result.{Result, ok, err, ◌>>=◌}

-- The three ideographic full stops, in UTF-8.
abbrev is_wide_dot : ℕ → ℕ → ℕ → Bool
is_wide_dot a b c =
    a == 0xe3 && b == 0x80 && c == 0x82
    || a == 0xef && b == 0xbc && c == 0x8e
    || a == 0xef && b == 0xbd && c == 0xa1

-- `unicodeDots.Replace`
unfoldable pub replace_dots : Text → Text
replace_dots (a ∷ b ∷ c ∷ s) =
    let dotted = b'.' ∷ replace_dots s in
    let rest = a ∷ replace_dots (b ∷ c ∷ s) in if is_wide_dot a b c then dotted else rest
replace_dots s = s

-- Every code point is below 0x80, which in UTF-8 is to say that every byte is.
unfoldable pub is_ascii : Text → Bool
is_ascii value = all (λ c. ltb c 0x80) value

-- A conversion of one label: `idna.Lookup.ToASCII` or `idna.Lookup.ToUnicode`.
abbrev pub Idna : Type 0
Idna = Text → Result Text

unfoldable pub label_to_ascii : Idna → Text → Result Text
unfolding is_ascii
label_to_ascii idna label =
    if is_ascii label
    then (if any (λ c. leb c 0x20 || c == 0x7f) label
        then err (txt "contains whitespace or control characters")
        else ok label)
    else idna label

-- The body of the loop over the labels.
unfoldable pub convert_label : Idna → Text → Result Text
convert_label idna label =
    if is_empty label then err (txt "DNS name contains an empty label") else do
      ascii ← label_to_ascii idna label
      if ltb 63 (length ascii) then err (txt "DNS label exceeds 63 octets") else ok (to_lower ascii)

unfoldable pub convert_labels : Idna → List Text → Result (List Text)
convert_labels idna [] = ok []
convert_labels idna (label ∷ labels) = do
  ascii ← convert_label idna label
  rest ← convert_labels idna labels
  ok (ascii ∷ rest)

unfoldable pub join_checked : List Text → Result Text
join_checked labels =
    let ascii = join labels (txt ".") in
    if ltb 253 (length ascii)
    then err (txt "DNS name exceeds 253 octets")
    else ok (ascii ++ txt ".")

unfoldable pub to_ascii : Idna → Text → Result Text
to_ascii idna name =
    let s = replace_dots (trim_space name) in
    if is_empty s || s =t txt "."
    then ok s
    else do labels ← convert_labels idna (split (trim_suffix s b'.') b'.'); join_checked labels

-- A label that cannot be decoded stays as it is.
unfoldable pub show_label : Idna → Text → Text
show_label idna label =
    if has_prefix (to_lower label) (txt "xn--")
    then elim (idna label) [ ok decoded ↦ decoded | err e ↦ label ]
    else label

show_labels : Idna → List Text → List Text
show_labels idna [] = []
show_labels idna (label ∷ labels) = show_label idna label ∷ show_labels idna labels

unfoldable pub to_unicode : Idna → Text → Text
unfolding show_labels
to_unicode idna name =
    let s = replace_dots (trim_space name) in
    if is_empty s || s =t txt "."
    then s
    else let result = join (show_labels idna (split (trim_suffix s b'.') b'.')) (txt ".") in
      if has_suffix s (txt ".") then result ++ txt "." else result
