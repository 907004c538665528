-- ===== src/Base/Members.antt =====
-- Elements of a list: tests on some of them, membership and repetition.
use mathlib.Core.Path.{◌≡◌, refl, ap, ◌∙◌, subst}
use mathlib.Core.Logic.{◌⊎◌, inl, inr, ◌↔◌}
use mathlib.Core.Bool.{Bool, true, false, ◌||◌}
use mathlib.Core.List.{List, [], ◌∷◌, ◌++◌}
use native.Mathlib.Omega.{arith}
use any_ns.Base.Tests.{Bool-cases}
use any_ns.Base.Lists.{any, All, Has}
use any_ns.Base.Texts.{Text, ◌=t◌, =t_iff}

pub any_iff {ℓ} :
    {A : Type ℓ} (f : A → Bool) (xs : List A)
    → (any f xs ≡ true) ↔ ((x : A) × Has x xs × (f x ≡ true))
any_iff f [] = (λ h. absurd (ground arith), λ h. absurd h.1.lower)
any_iff f (x ∷ xs) =
    let (there, back) = any_iff f xs in
    (
      λ h. elim (Bool-cases (f x)) [
        | inl e ↦ (x, inl refl, e)
        | inr e ↦ let (y, i, k) = there (rw e at h) in (y, inr i, k)
      ],
      λ (y, i, k). elim i [
        | inl e ↦ let h : f x ≡ true = ap f e ∙ k in rw h refl
        | inr j ↦ let h : any f xs ≡ true = back (y, j, k) in ground (arith, h)
      ],
    )

pub Has-All {ℓ κ} : {A : Type ℓ} (P : A → Type κ) (x : A) (xs : List A) → All P xs → Has x xs → P x
Has-All P x [] a h = absurd h.lower
Has-All P x (y ∷ xs) a (inl e) = subst P e a.0
Has-All P x (y ∷ xs) a (inr h) = Has-All P x xs a.1 h

abbrev pub has_text : Text → List Text → Bool
has_text t ts = any (λ u. u =t t) ts

-- No text stands twice in the list.
abbrev pub IsApart : List Text → Type 0
IsApart [] = Unit
IsApart (s ∷ ss) = (has_text s ss ≡ false) × IsApart ss

has_text-append :
    (t : Text) (xs ys : List Text) → has_text t (xs ++ ys) ≡ (has_text t xs || has_text t ys)
has_text-append t [] ys = refl
has_text-append t (x ∷ xs) ys = ground (arith, has_text-append t xs ys)

=t_sym : (s t : Text) → s =t t ≡ false → t =t s ≡ false
=t_sym s t h = ground (arith, =t_iff s t, =t_iff t s)

pub append-IsApart :
    (xs : List Text) (s : Text) → IsApart xs → has_text s xs ≡ false → IsApart (xs ++ s ∷ [])
append-IsApart [] s a h = (refl, tt)
append-IsApart (x ∷ xs) s a h = (
  has_text-append x xs (s ∷ []) ∙ ground (arith, a.0, =t_iff x s, =t_iff s x, h),
  append-IsApart xs s a.1 (ground (arith, h)),
)

pub append-Has {ℓ} :
    {A : Type ℓ} (x : A) (xs ys : List A) → Has x (xs ++ ys) ↔ (Has x xs ⊎ Has x ys)
append-Has x [] ys = (inr, λ h. elim h [ inl e ↦ absurd e.lower | inr k ↦ k ])
append-Has x (y ∷ xs) ys =
    let (there, back) = append-Has x xs ys in
    (
      λ h. elim h [
        | inl e ↦ inl (inl e)
        | inr k ↦ elim (there k) [ inl l ↦ inl (inr l) | inr r ↦ inr r ]
      ],
      λ h. elim h [
        | inl i ↦ elim i [ inl e ↦ inl e | inr l ↦ inr (back (inl l)) ]
        | inr r ↦ inr (back (inr r))
      ],
    )

pub has_text_iff : (t : Text) (ts : List Text) → (has_text t ts ≡ true) ↔ Has t ts
has_text_iff t [] = (λ h. absurd (ground arith), λ h. absurd h.lower)
has_text_iff t (u ∷ ts) =
    let (there, back) = has_text_iff t ts in
    (
      λ h. elim (Bool-cases (u =t t)) [
        | inl e ↦ inl ((=t_iff u t).0 e)
        | inr e ↦ inr (there (rw e at h))
      ],
      λ h. elim h [ inl e ↦ ground (arith, (=t_iff u t).1 e) | inr k ↦ ground (arith, back k) ],
    )
