-- ===== src/Access/ScopeSets.antt =====
-- The scopes of a key of internal/config/config.go.
use any_ns.Base.{
  List, [], ◌∷◌, true, false, ◌||◌, ◌≡◌, refl, sym, ap, ◌∙◌, ◌↔◌, ◌⊎◌, inl, inr, Text, txt,
  is_empty, All, All-append, Has, arith, Bool-cases,
}
use any_ns.Base.Members.{has_text, Has-All, has_text_iff, IsApart, append-IsApart, append-Has}
use mathlib.Core.Path.{subst}
use any_ns.Access.{add_scope, scope_form, or_read, collect_scopes, normalized_management_scopes}

-- The scope stands in the list, up to white space and the case of letters.
abbrev pub Names : List Text → Text → Type 0
Names scopes s = ((raw : Text) × Has raw scopes × (scope_form raw ≡ s))

add_scope-IsApart : (out : List Text) (s : Text) → IsApart out → IsApart (add_scope out s)
unfolding add_scope
add_scope-IsApart out s a = elim (Bool-cases (is_empty s || has_text s out)) [
  | inl h ↦ rw h a
  | inr h ↦ rw h (append-IsApart out s a (ground (arith, h)))
]

abbrev IsFull : List Text → Type 0
IsFull = All (λ s. is_empty s ≡ false)

add_scope-IsFull : (out : List Text) (s : Text) → IsFull out → IsFull (add_scope out s)
unfolding add_scope
add_scope-IsFull out s a = elim (Bool-cases (is_empty s || has_text s out)) [
  | inl h ↦ rw h a
  | inr h ↦ rw h (All-append _ out (s ∷ []) a (ground (arith, h), tt))
]

add_scope-Has :
    (out : List Text) (s t : Text)
    → is_empty t ≡ false
    → Has t (add_scope out s) ↔ (Has t out ⊎ (s ≡ t))
unfolding add_scope
add_scope-Has out s t full = elim (Bool-cases (is_empty s)) [
  | inl blank ↦
      rw blank (inl, λ h. elim h [ inl k ↦ k | inr e ↦ absurd (ground (arith, ap is_empty e)) ])
  | inr more ↦ elim (Bool-cases (has_text s out)) [
    | inl old ↦
        rw (more, old)
          (
            inl,
            λ h. elim h [
              | inl k ↦ k
              | inr e ↦ subst (λ u. Has u out) e ((has_text_iff s out).0 old)
            ],
          )
    | inr new ↦
        rw (more, new)
          (
            λ h. elim ((append-Has t out (s ∷ [])).0 h) [
              | inl k ↦ inl k
              | inr k ↦ elim k [ inl e ↦ inr e | inr n ↦ absurd n.lower ]
            ],
            λ h. (append-Has t out (s ∷ [])).1 (elim h [ inl k ↦ inl k | inr e ↦ inr (inl e) ]),
          )
  ]
]

collect_scopes-IsApart :
    (out scopes : List Text) → IsApart out → IsApart (collect_scopes out scopes)
unfolding collect_scopes
collect_scopes-IsApart out [] a = a
collect_scopes-IsApart out (s ∷ ss) a =
    collect_scopes-IsApart (add_scope out (scope_form s)) ss
      (add_scope-IsApart out (scope_form s) a)

collect_scopes-IsFull : (out scopes : List Text) → IsFull out → IsFull (collect_scopes out scopes)
unfolding collect_scopes
collect_scopes-IsFull out [] a = a
collect_scopes-IsFull out (s ∷ ss) a =
    collect_scopes-IsFull (add_scope out (scope_form s)) ss (add_scope-IsFull out (scope_form s) a)

collect_scopes-Has :
    (out scopes : List Text) (t : Text)
    → is_empty t ≡ false
    → Has t (collect_scopes out scopes) ↔ (Has t out ⊎ Names scopes t)
unfolding collect_scopes
collect_scopes-Has out [] t full = (inl, λ h. elim h [ inl k ↦ k | inr n ↦ absurd n.1.lower ])
collect_scopes-Has out (s ∷ ss) t full =
    let (there, back) = collect_scopes-Has (add_scope out (scope_form s)) ss t full in
    let (split, merge) = add_scope-Has out (scope_form s) t full in
    (
      λ h. elim (there h) [
        | inl k ↦ elim (split k) [ inl i ↦ inl i | inr e ↦ inr (s, inl refl, e) ]
        | inr (raw, i, e) ↦ inr (raw, inr i, e)
      ],
      λ h. elim h [
        | inl i ↦ back (inl (merge (inl i)))
        | inr (raw, i, e) ↦ elim i [
          | inl same ↦ back (inl (merge (inr (ap scope_form same ∙ e))))
          | inr k ↦ back (inr (raw, k, e))
        ]
      ],
    )

-- The scopes of a list of configured ones: those that are not blank, each once and in the form in
-- which scopes are compared, or `read` alone where there is none.
pub record IsScopesOf (scopes out : List Text) : Type 0 where
  pub apart : IsApart out
  pub members :
      (s : Text)
      → Has s out ↔ (
          ((is_empty s ≡ false) × Names scopes s)
          ⊎ ((s ≡ txt "read") × ((t : Text) → Names scopes t → is_empty t ≡ true)))

or_read-IsScopesOf :
    (scopes found : List Text)
    → IsApart found
    → IsFull found
    → ((t : Text) → is_empty t ≡ false → Has t found ↔ Names scopes t)
    → IsScopesOf scopes (or_read found)
or_read-IsScopesOf scopes [] a full h = record {
  apart = (refl, tt);
  members = λ s. (
    λ i. elim i [
      | inl e ↦ inr (
        sym e,
        λ t n. elim (Bool-cases (is_empty t)) [
          | inl blank ↦ blank
          | inr more ↦ absurd ((h t more).1 n).lower
        ],
      )
      | inr k ↦ absurd k.lower
    ],
    λ c. elim c [ inl (more, n) ↦ absurd ((h s more).1 n).lower | inr (e, _) ↦ inl (sym e) ],
  );
}
or_read-IsScopesOf scopes (f ∷ found) a full h = record {
  apart = a;
  members = λ s. (
    λ i.
        let more : is_empty s ≡ false = Has-All (λ t. is_empty t ≡ false) s (f ∷ found) full i in
        inl (more, (h s more).0 i),
    λ c. elim c [
      | inl (more, n) ↦ (h s more).1 n
      | inr (_, blank) ↦ absurd (ground (arith, blank f ((h f full.0).0 (inl refl)), full.0))
    ],
  );
}

-- What becomes of the scopes of a key and of its roles, in the order in which they are configured:
-- the result names no scope twice; a scope is in it exactly if it is not blank and one of the
-- configured scopes, up to white space around it and the case of its letters; and if all configured
-- scopes are blank or there are none, then `read` alone is in it.
normalized_management_scopes-IsScopesOf :
    (scopes : List Text) → IsScopesOf scopes (normalized_management_scopes scopes)
unfolding normalized_management_scopes
normalized_management_scopes-IsScopesOf scopes =
    or_read-IsScopesOf scopes (collect_scopes [] scopes) (collect_scopes-IsApart [] scopes tt)
      (collect_scopes-IsFull [] scopes tt)
      (λ t full.
        let (there, back) = collect_scopes-Has [] scopes t full in
        (λ i. elim (there i) [ inl k ↦ absurd k.lower | inr n ↦ n ], λ n. back (inr n)))
