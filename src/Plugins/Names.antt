-- ===== src/Plugins/Names.antt =====
-- `NormalizeQName` of internal/plugins/types.go and `cacheKey` of internal/plugins/router.go.
use any_ns.Base.{
  ℕ, ◌≡◌, refl, ap, ◌∙◌, [], ◌∷◌, ◌++◌, map, Bool, true, false, ◌&&◌, Text, txt, lower, is_space,
  to_lower, to_upper, upper, trim_left, trim_right_by, trim_space, trim_suffix, is_empty, ◌==◌,
  ==_iff, All, arith, Bool-cases, inl, inr,
}
use any_ns.Plugins.{ResolveRequest, normalize_qname, normalize_qtype, with_dot}
use any_ns.Plugins.Router.{Registry, Call, normalized, match, resolve_matched, resolve}

-- A text that does not begin with a space.
abbrev StartsBare : Text → Type 0
StartsBare [] = Unit
StartsBare (c ∷ s) = is_space c ≡ false

trim_left-StartsBare : (s : Text) → StartsBare (trim_left s)
unfolding trim_left
trim_left-StartsBare [] = tt
trim_left-StartsBare (c ∷ s) = elim (Bool-cases (is_space c)) [
  | inl e ↦ rw e (trim_left-StartsBare s)
  | inr e ↦ rw e e
]

trim_left_bare : (s : Text) → StartsBare s → trim_left s ≡ s
unfolding trim_left
trim_left_bare [] h = refl
trim_left_bare (c ∷ s) h = rw h

trim_right_by-StartsBare : (p : ℕ → Bool) (s : Text) → StartsBare s → StartsBare (trim_right_by p s)
unfolding trim_right_by
trim_right_by-StartsBare p [] h = tt
trim_right_by-StartsBare p (c ∷ s) h = elim (Bool-cases (is_empty (trim_right_by p s) && p c)) [
  | inl e ↦ rw e tt
  | inr e ↦ rw e h
]

lower_space : (c : ℕ) → is_space c ≡ false → is_space (lower c) ≡ false
unfolding is_space lower
lower_space c h = ground arith

to_lower-StartsBare : (s : Text) → StartsBare s → StartsBare (to_lower s)
unfolding to_lower
to_lower-StartsBare [] h = tt
to_lower-StartsBare (c ∷ s) h = lower_space c h

trim_suffix-StartsBare : (d : ℕ) (s : Text) → StartsBare s → StartsBare (trim_suffix s d)
unfolding trim_suffix
trim_suffix-StartsBare d [] h = tt
trim_suffix-StartsBare d (c ∷ []) h = elim (Bool-cases (c == d)) [
  | inl e ↦ rw e tt
  | inr e ↦ rw e h
]
trim_suffix-StartsBare d (c ∷ b ∷ s) h = h

is_empty_snoc : (s : Text) (c : ℕ) → is_empty (s ++ c ∷ []) ≡ false
is_empty_snoc [] c = refl
is_empty_snoc (b ∷ s) c = refl

trim_right_by_last :
    (p : ℕ → Bool) (s : Text) (c : ℕ) → p c ≡ false → trim_right_by p (s ++ c ∷ []) ≡ s ++ c ∷ []
unfolding trim_right_by
trim_right_by_last p [] c h = rw h
trim_right_by_last p (b ∷ s) c h = rw (trim_right_by_last p s c h, is_empty_snoc s c)

append-StartsBare : (s : Text) → StartsBare s → StartsBare (s ++ txt ".")
unfolding is_space
append-StartsBare [] h = unfold is_space in refl
append-StartsBare (c ∷ s) h = h

-- Nothing is left to trim before a text with a dot behind it.
trim_space_dotted : (s : Text) → StartsBare s → trim_space (s ++ txt ".") ≡ s ++ txt "."
unfolding trim_space
trim_space_dotted s h =
    ap (trim_right_by is_space) (trim_left_bare (s ++ txt ".") (append-StartsBare s h))
    ∙ trim_right_by_last is_space s b'.' (unfold is_space in refl)

lower_idem : (c : ℕ) → lower (lower c) ≡ lower c
unfolding lower
lower_idem c = ground arith

to_lower-to_lower : (s : Text) → to_lower (to_lower s) ≡ to_lower s
unfolding to_lower
to_lower-to_lower [] = refl
to_lower-to_lower (c ∷ s) = rw (lower_idem c, to_lower-to_lower s)

==_refl : (d : ℕ) → (d == d) ≡ true
==_refl d = (==_iff d d).1 refl

trim_suffix_dotted : (s : Text) (d : ℕ) → trim_suffix (s ++ d ∷ []) d ≡ s
unfolding trim_suffix
trim_suffix_dotted [] d = rw (==_refl d)
trim_suffix_dotted (c ∷ []) d = rw (==_refl d)
trim_suffix_dotted (c ∷ b ∷ s) d = ap (◌∷◌ c) (trim_suffix_dotted (b ∷ s) d)

-- Letters are small.
abbrev IsLower : Text → Type 0
IsLower s = All (λ c. lower c ≡ c) s

to_lower-IsLower : (s : Text) → IsLower (to_lower s)
unfolding to_lower
to_lower-IsLower [] = tt
to_lower-IsLower (c ∷ s) = (lower_idem c, to_lower-IsLower s)

trim_suffix-IsLower : (d : ℕ) (s : Text) → IsLower s → IsLower (trim_suffix s d)
unfolding trim_suffix
trim_suffix-IsLower d [] h = tt
trim_suffix-IsLower d (c ∷ []) h = elim (Bool-cases (c == d)) [ inl e ↦ rw e tt | inr e ↦ rw e h ]
trim_suffix-IsLower d (c ∷ b ∷ s) h = (h.0, trim_suffix-IsLower d (b ∷ s) h.1)

to_lower_small : (s : Text) → IsLower s → to_lower s ≡ s
unfolding to_lower
to_lower_small [] h = refl
to_lower_small (c ∷ s) h = rw (h.0, to_lower_small s h.1)

dotted-IsLower : (s : Text) → IsLower s → IsLower (s ++ txt ".")
dotted-IsLower [] h = (unfold lower in refl, tt)
dotted-IsLower (c ∷ s) h = (h.0, dotted-IsLower s h.1)

root_lem : normalize_qname (txt ".") ≡ txt "."
unfolding normalize_qname trim_space trim_left trim_right_by is_space to_lower lower trim_suffix
root_lem = refl

normalize_dotted : (k : Text) → StartsBare k → IsLower k → normalize_qname (with_dot k) ≡ with_dot k
unfolding normalize_qname
normalize_dotted [] b l = root_lem
normalize_dotted (c ∷ s) b l =
    ap (λ x. with_dot (trim_suffix (to_lower x) b'.')) (trim_space_dotted (c ∷ s) b)
    ∙ ap (λ x. with_dot (trim_suffix x b'.'))
        (to_lower_small (c ∷ s ++ txt ".") (dotted-IsLower (c ∷ s) l))
    ∙ ap with_dot (trim_suffix_dotted (c ∷ s) b'.')

-- The normal form of a name is its own normal form.
pub normalize_qname-normalize_qname :
    (qname : Text) → normalize_qname (normalize_qname qname) ≡ normalize_qname qname
unfolding normalize_qname
normalize_qname-normalize_qname qname =
    let bare = trim_right_by-StartsBare is_space (trim_left qname) (trim_left-StartsBare qname) in
    normalize_dotted (trim_suffix (to_lower (trim_space qname)) b'.')
      (trim_suffix-StartsBare b'.' _
        (to_lower-StartsBare (trim_space qname) (unfold trim_space in bare)))
      (trim_suffix-IsLower b'.' _ (to_lower-IsLower (trim_space qname)))

trim_right_by_idem :
    (p : ℕ → Bool) (s : Text) → trim_right_by p (trim_right_by p s) ≡ trim_right_by p s
unfolding trim_right_by
trim_right_by_idem p [] = refl
trim_right_by_idem p (c ∷ s) = elim (Bool-cases (is_empty (trim_right_by p s) && p c)) [
  | inl e ↦ rw e
  | inr e ↦ rw (e, trim_right_by_idem p s, e)
]

trim_space_idem : (s : Text) → trim_space (trim_space s) ≡ trim_space s
unfolding trim_space
trim_space_idem s =
    ap (trim_right_by is_space)
      (trim_left_bare _ (trim_right_by-StartsBare is_space (trim_left s) (trim_left-StartsBare s)))
    ∙ trim_right_by_idem is_space (trim_left s)

upper_space : (c : ℕ) → is_space (upper c) ≡ is_space c
unfolding is_space upper
upper_space c = ground arith

is_empty-map : (f : ℕ → ℕ) (s : Text) → is_empty (map f s) ≡ is_empty s
is_empty-map f [] = refl
is_empty-map f (c ∷ s) = refl

trim_left-to_upper : (s : Text) → trim_left (to_upper s) ≡ to_upper (trim_left s)
unfolding trim_left to_upper
trim_left-to_upper [] = refl
trim_left-to_upper (c ∷ s) = elim (Bool-cases (is_space c)) [
  | inl e ↦ rw (upper_space c, e) (trim_left-to_upper s)
  | inr e ↦ rw (upper_space c, e)
]

trim_right-to_upper :
    (s : Text) → trim_right_by is_space (to_upper s) ≡ to_upper (trim_right_by is_space s)
unfolding trim_right_by to_upper
trim_right-to_upper [] = refl
trim_right-to_upper (c ∷ s) =
    let ih = trim_right-to_upper s in
    elim (Bool-cases (is_empty (trim_right_by is_space s) && is_space c)) [
      | inl e ↦ rw (ih, is_empty-map upper (trim_right_by is_space s), upper_space c, e)
      | inr e ↦ rw (ih, is_empty-map upper (trim_right_by is_space s), upper_space c, e)
    ]

upper_idem : (c : ℕ) → upper (upper c) ≡ upper c
unfolding upper
upper_idem c = ground arith

to_upper-to_upper : (s : Text) → to_upper (to_upper s) ≡ to_upper s
unfolding to_upper
to_upper-to_upper [] = refl
to_upper-to_upper (c ∷ s) = rw (upper_idem c, to_upper-to_upper s)

pub normalize_qtype-normalize_qtype :
    (qtype : Text) → normalize_qtype (normalize_qtype qtype) ≡ normalize_qtype qtype
unfolding normalize_qtype trim_space
normalize_qtype-normalize_qtype qtype =
    ap (λ x. to_upper (trim_right_by is_space x)) (trim_left-to_upper (trim_space qtype))
    ∙ ap to_upper (trim_right-to_upper (trim_left (trim_space qtype)))
    ∙ to_upper-to_upper (trim_space (trim_space qtype))
    ∙ ap to_upper (trim_space_idem qtype)

-- Spelling does not matter: a request whose name and type are brought to their normal form is
-- answered and cached as the request itself.
pub resolve-normalized :
    (c : Call) (req : ResolveRequest) (r : Registry)
    → resolve c (normalized req) r ≡ resolve c req r
unfolding resolve
resolve-normalized c req r =
    let same : normalized (normalized req) ≡ normalized req = λ i. record req {
      qname = normalize_qname-normalize_qname req.qname i;
      qtype = normalize_qtype-normalize_qtype req.qtype i;
    } in
    ap (λ x. resolve_matched c x (match x r) r) same
