-- ===== src/Access/Scopes.antt =====
-- What a principal may do by its scopes.
use any_ns.Base.{
  ℕ, Bool, true, some, ◌≡◌, refl, ap, ◌∙◌, ◌↔◌, ◌⊎◌, inl, inr, Text, txt, =t_iff, has_suffix, All,
  Has, arith, Bool-cases,
}
use any_ns.Base.Members.{any_iff, Has-All}
use any_ns.Base.Suffixes.{suffix_split, last, last-append}
use any_ns.Access.{
  Platform, ManagementConfig, Principal, Request, refused, scope_form, scope_access_kind,
  scope_covers, has_scope, principal_from_request, require_scope_principal,
}

-- A scope that covers the wanted one, both in the compared form: that scope itself, one for all
-- scopes, or the one for all scopes of its kind.
abbrev pub Covers : Text → Text → Type 0
Covers scope current =
    ((current ≡ scope)
      ⊎ ((current ≡ txt "*") ⊎ ((current ≡ txt "admin") ⊎ (current ≡ scope_access_kind scope))))

scope_covers_iff :
    (scope current : Text) → (scope_covers scope current ≡ true) ↔ Covers scope current
unfolding scope_covers
scope_covers_iff scope current = ground (
  arith,
  =t_iff current scope,
  =t_iff current (txt "*"),
  =t_iff current (txt "admin"),
  =t_iff (scope_access_kind scope) current,
)

-- A principal has a scope exactly if one of its scopes covers it, where white space around a scope
-- and the case of its letters do not count: the scope itself, `*`, `admin`, and the plain `read` or
-- `write` where the scope ends in `:read` or `:write`.
pub has_scope_iff :
    (who : Principal) (scope : Text)
    → (has_scope who scope ≡ true)
      ↔ ((current : Text) × Has current who.scopes × Covers (scope_form scope) (scope_form current))
unfolding has_scope
has_scope_iff who scope =
    let test : Text → Bool = λ current. scope_covers (scope_form scope) (scope_form current) in
    let (there, back) = any_iff test who.scopes in
    (
      λ h.
          let (c, i, k) = there h in
          (c, i, (scope_covers_iff (scope_form scope) (scope_form c)).0 k),
      λ (c, i, k). back (c, i, (scope_covers_iff (scope_form scope) (scope_form c)).1 k),
    )

-- A scope for reading only.
abbrev pub IsReading : Text → Type 0
IsReading scope =
    ((scope_form scope ≡ txt "read") ⊎ (has_suffix (scope_form scope) (txt ":read") ≡ true))

ends_d : (s : Text) → has_suffix s (txt ":read") ≡ true → last s ≡ b'd'
ends_d s h =
    let (front, e) = suffix_split s (txt ":read") h in
    ap last e ∙ last-append front b':' (txt "read")

ends_e : (s : Text) → has_suffix s (txt ":write") ≡ true → last s ≡ b'e'
ends_e s h =
    let (front, e) = suffix_split s (txt ":write") h in
    ap last e ∙ last-append front b':' (txt "write")

writing_kind : (s : Text) → has_suffix s (txt ":write") ≡ true → scope_access_kind s ≡ txt "write"
writing_kind s h = elim (Bool-cases (has_suffix s (txt ":read"))) [
  | inl r ↦ absurd (ground (arith, ends_d s r, ends_e s h))
  | inr r ↦ rw (r, h) refl
]

last_reading : (c : Text) → IsReading c → last (scope_form c) ≡ b'd'
last_reading c (inl e) = ap last e
last_reading c (inr h) = ends_d (scope_form c) h

last_covering : (s c : Text) → has_suffix s (txt ":write") ≡ true → Covers s c → (last c ≡ b'd') → ⊥
last_covering s c w (inl e) d = ground (arith, ends_e s w, ap last e)
last_covering s c w (inr (inl e)) d = ground (arith, ap last e)
last_covering s c w (inr (inr (inl e))) d = ground (arith, ap last e)
last_covering s c w (inr (inr (inr e))) d = ground (arith, ap last (e ∙ writing_kind s w))

-- A principal whose scopes are all for reading is refused, with status 403, whatever takes a scope
-- that ends in `:write`.
pub reading_refused :
    (p : Platform) (m : ManagementConfig) (now : ℕ) (r : Request) (who : Principal) (scope : Text)
    → principal_from_request p m now r ≡ some who
    → All IsReading who.scopes
    → has_suffix (scope_form scope) (txt ":write") ≡ true
    → require_scope_principal p m now r scope ≡ refused 403 (txt "forbidden")
unfolding require_scope_principal
reading_refused p m now r who scope h a w = elim (Bool-cases (has_scope who scope)) [
  | inr none_covers ↦ rw (h, none_covers) refl
  | inl some_covers ↦
      let (c, i, k) = (has_scope_iff who scope).0 some_covers in
      absurd (
        last_covering (scope_form scope) (scope_form c) w k
          (last_reading c (Has-All IsReading c who.scopes a i)))
]
