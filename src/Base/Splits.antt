-- ===== src/Base/Splits.antt =====
-- What `strings.Split` makes of a text whose first separator is known, and how texts differ from
-- longer ones.
use mathlib.Core.Path.{◌≡◌, refl, ap}
use mathlib.Core.Logic.{inl, inr}
use mathlib.Core.Bool.{false}
use mathlib.Core.List.{[], ◌∷◌, ◌++◌}
use Prim.Native.Nat.{ℕ, ◌<◌}
use native.Mathlib.Omega.{arith}
use any_ns.Base.Tests.{◌==◌, ==_iff, Bool-cases}
use any_ns.Base.Lists.{All, length, take}
use any_ns.Base.Texts.{Text, split, ◌=t◌, =t_iff}

-- A text without the byte.
abbrev pub IsFree : ℕ → Text → Type 0
IsFree c s = All (λ x. (x == c) ≡ false) s

pub split_free : (c : ℕ) (s : Text) → IsFree c s → split s c ≡ s ∷ []
unfolding split
split_free c [] h = refl
split_free c (x ∷ s) h = rw (h.0, split_free c s h.1) refl

pub split_at : (c : ℕ) (a b : Text) → IsFree c a → split (a ++ c ∷ b) c ≡ a ∷ split b c
unfolding split
split_at c [] b h = rw ((==_iff c c).1 refl) refl
split_at c (x ∷ a) b h = rw (h.0, split_at c a b h.1) refl

pub take-append : (s t : Text) → take (length s) (s ++ t) ≡ s
take-append [] t = take_none t
  where
    take_none : (t : Text) → take 0 t ≡ []
    take_none [] = refl
    take_none (x ∷ t) = refl
take-append (x ∷ s) t = ap (◌∷◌ x) (take-append s t)

pub =t_length : (s t : Text) → length s < length t → (s =t t) ≡ false
=t_length s t h = elim (Bool-cases (s =t t)) [
  | inl same ↦ absurd (omega (arith, ap length ((=t_iff s t).0 same)))
  | inr differ ↦ differ
]

pub =t_length_gt : (s t : Text) → length t < length s → (s =t t) ≡ false
=t_length_gt s t h = elim (Bool-cases (s =t t)) [
  | inl same ↦ absurd (omega (arith, ap length ((=t_iff s t).0 same)))
  | inr differ ↦ differ
]
