-- ===== src/ControlPlane/SameScopes.antt =====
-- When two keys have the same scopes.
use any_ns.Base.{
  ℕ, suc, ◌+◌, ◌-◌, ◌≤◌, List, [], ◌∷◌, true, false, ◌≡◌, refl, ap, ◌∙◌, ◌↔◌, Text, ◌=t◌, =t_iff,
  length, ◌==◌, ==_iff, if◌then◌else◌, arith, Bool-cases, inl, inr,
}
use mathlib.Core.Path.{subst}
use any_ns.Base.Dict.{Dict, lookup, insert, lookup-insert}
use any_ns.Access.{scope_form}
use any_ns.ControlPlane.{count_of, count_scopes, match_scopes, same_scopes}

-- How often a scope stands in a list, up to white space and the case of letters.
abbrev pub count : Text → List Text → ℕ
count s [] = 0
count s (scope ∷ scopes) = (if scope_form scope =t s then 1 else 0) + count s scopes

-- The same scopes, as often: the order does not count.
abbrev pub SameItems : List Text → List Text → Type 0
SameItems a b = (s : Text) → count s a ≡ count s b

=t_self : (t : Text) → (t =t t) ≡ true
=t_self t = (=t_iff t t).1 refl

count_of-insert :
    (s t : Text) (n : ℕ) (counts : Dict ℕ)
    → count_of (lookup s (insert t n counts)) ≡ (if t =t s then n else count_of (lookup s counts))
count_of-insert s t n counts = elim (Bool-cases (t =t s)) [
  | inl same ↦ ap count_of (lookup-insert t s n counts) ∙ rw same refl
  | inr other_key ↦ ap count_of (lookup-insert t s n counts) ∙ rw other_key refl
]

count_scopes-count :
    (scopes : List Text) (counts : Dict ℕ) (s : Text)
    → count_of (lookup s (count_scopes scopes counts)) ≡ count_of (lookup s counts) + count s scopes
unfolding count_scopes
count_scopes-count [] counts s = omega arith
count_scopes-count (scope ∷ scopes) counts s =
    let t = scope_form scope in
    count_scopes-count scopes (insert t (count_of (lookup t counts) + 1) counts) s
    ∙ rw (count_of-insert s t (count_of (lookup t counts) + 1) counts) (elim (Bool-cases (t =t s)) [
      | inl same ↦ rw (same, (=t_iff t s).0 same) (omega arith)
      | inr other_key ↦ rw other_key (omega arith)
    ])

runs_out : (t : Text) (c n : ℕ) → n ≡ 0 → (if t =t t then 1 else 0) + c ≤ n → ⊥
runs_out t c n e h = let k : 1 + c ≤ n = rw (=t_self t) at h in omega arith

has_one : (t : Text) (c n : ℕ) → (if t =t t then 1 else 0) + c ≤ n → 1 ≤ n
has_one t c n h = let k : 1 + c ≤ n = rw (=t_self t) at h in omega arith

-- One scope less to be found, against one count less.
step :
    (t s : Text) (c : ℕ) (counts : Dict ℕ)
    → (count_of (lookup t counts) == 0) ≡ false
    → c ≤ (if t =t s then count_of (lookup t counts) - 1 else count_of (lookup s counts))
    → (if t =t s then 1 else 0) + c ≤ count_of (lookup s counts)
step t s c counts more h = elim (Bool-cases (t =t s)) [
  | inr other_key ↦
      let k : c ≤ count_of (lookup s counts) = rw other_key at h in rw other_key (omega arith)
  | inl same ↦
      let k : c ≤ count_of (lookup t counts) - 1 = rw same at h in
      rw (same, ← (=t_iff t s).0 same) (ground arith)
]

unstep :
    (t s : Text) (c : ℕ) (counts : Dict ℕ)
    → (count_of (lookup t counts) == 0) ≡ false
    → (if t =t s then 1 else 0) + c ≤ count_of (lookup s counts)
    → c ≤ (if t =t s then count_of (lookup t counts) - 1 else count_of (lookup s counts))
unstep t s c counts more h = elim (Bool-cases (t =t s)) [
  | inr other_key ↦
      let k : 0 + c ≤ count_of (lookup s counts) = rw other_key at h in rw other_key (omega arith)
  | inl same ↦
      let k : 1 + c ≤ count_of (lookup s counts) = rw same at h in
      rw (same, (=t_iff t s).0 same) (omega arith)
]

-- The loop over the second list goes through exactly if no scope runs out.
match_scopes_iff :
    (scopes : List Text) (counts : Dict ℕ)
    → (match_scopes scopes counts ≡ true)
      ↔ ((s : Text) → count s scopes ≤ count_of (lookup s counts))
unfolding match_scopes
match_scopes_iff [] counts = (λ h s. omega arith, λ h. refl)
match_scopes_iff (scope ∷ scopes) counts =
    let t = scope_form scope in
    let n = count_of (lookup t counts) in
    let (there, back) = match_scopes_iff scopes (insert t (n - 1) counts) in
    elim (Bool-cases (n == 0)) [
      | inl out ↦ rw out (
        λ h. absurd (ground (arith, h)),
        λ h. absurd (runs_out t (count t scopes) n ((==_iff n 0).0 out) (h t)),
      )
      | inr more ↦ rw more (
        λ h s.
            step t s (count s scopes) counts more
              (subst (λ k. count s scopes ≤ k) (count_of-insert s t (n - 1) counts) (there h s)),
        λ h. back (λ s.
            rw (count_of-insert s t (n - 1) counts)
              (unstep t s (count s scopes) counts more (h s))),
      )
    ]

-- A list with one item of the form taken out.
remove_one :
    (t : Text) (a : List Text)
    → 1 ≤ count t a
    → (rest : List Text) × (suc (length rest) ≡ length a)
      × ((s : Text) → count s a ≡ (if t =t s then 1 else 0) + count s rest)
remove_one t [] h = absurd (omega arith)
remove_one t (x ∷ a) h = elim (Bool-cases (scope_form x =t t)) [
  | inl same ↦ (a, refl, λ s. rw ((=t_iff (scope_form x) t).0 same) refl)
  | inr other_key ↦
      let k : 1 ≤ 0 + count t a = rw other_key at h in
      let (rest, len, counts) = remove_one t a (omega arith) in
      (x ∷ rest, ap suc len, λ s. omega (arith, counts s))
]

-- Of two lists of one length, one that holds all items of the other holds no more.
pigeonhole :
    (a b : List Text) → length a ≡ length b → ((s : Text) → count s b ≤ count s a) → SameItems a b
pigeonhole [] [] e h s = refl
pigeonhole (x ∷ a) [] e h s = absurd (omega arith)
pigeonhole a (y ∷ b) e h s =
    let t = scope_form y in
    let (rest, len, counts) = remove_one t a (has_one t (count t b) (count t a) (h t)) in
    counts s
    ∙ ap (λ k. (if t =t s then 1 else 0) + k)
        (pigeonhole rest b (omega (arith, len)) (λ u. omega (arith, h u, counts u)) s)

length_same : (a b : List Text) → SameItems a b → length a ≡ length b
length_same [] [] h = refl
length_same [] (y ∷ b) h =
    absurd
      (runs_out (scope_form y) (count (scope_form y) b) 0 refl (omega (arith, h (scope_form y))))
length_same (x ∷ a) b h =
    let t = scope_form x in
    let (rest, len, counts) =
      remove_one t b (has_one t (count t a) (count t b) (omega (arith, h t))) in
    let same : length a ≡ length rest = length_same a rest (λ s. omega (arith, h s, counts s)) in
    omega (arith, len, same)

total_of : (a : List Text) (s : Text) → count_of (lookup s (count_scopes a [])) ≡ count s a
unfolding lookup
total_of a s = count_scopes-count a [] s ∙ omega arith

-- Two lists of scopes count as the same exactly if every scope stands in both as often, up to white
-- space around it and the case of its letters: the order makes no difference, repetition does.
pub same_scopes_iff : (a b : List Text) → (same_scopes a b ≡ true) ↔ SameItems a b
unfolding same_scopes
same_scopes_iff a b =
    let (there, back) = match_scopes_iff b (count_scopes a []) in
    elim (Bool-cases (length a == length b)) [
      | inr apart ↦
          rw apart (
            λ h. absurd (ground (arith, h)),
            λ h. absurd (ground (arith, apart, length_same a b h)),
          )
      | inl level ↦ rw level (
        λ h.
            pigeonhole a b ((==_iff _ _).0 level)
              (λ s. subst (λ k. count s b ≤ k) (total_of a s) (there h s)),
        λ h. back (λ s. rw (total_of a s) (omega (arith, h s))),
      )
    ]
