-- ===== src/Base/Suffixes.antt =====
-- What it means that a text ends in another.
use mathlib.Core.Path.{◌≡◌, refl, sym, ap, ◌∙◌}
use mathlib.Core.List.{[], ◌∷◌, ◌++◌}
use mathlib.Core.Bool.{true}
use Prim.Native.Nat.{ℕ, ◌-◌}
use native.Mathlib.Omega.{arith}
use any_ns.Base.Lists.{take, drop, length, take-append-drop, length-append, drop-length-append}
use any_ns.Base.Texts.{Text, ◌=t◌, =t_iff, has_suffix}

pub suffix_split : (q p : Text) → has_suffix q p ≡ true → (front : Text) × (q ≡ front ++ p)
unfolding has_suffix
suffix_split q p h =
    let tail : (drop (length q - length p) q =t p) ≡ true = ground arith in
    (
      take (length q - length p) q,
      sym (take-append-drop (length q - length p) q)
          ∙ ap (λ x. take (length q - length p) q ++ x) ((=t_iff _ p).0 tail),
    )

pub has_suffix_append : (front p : Text) → has_suffix (front ++ p) p ≡ true
unfolding has_suffix
has_suffix_append front p =
    let n : length (front ++ p) - length p ≡ length front = omega (arith, length-append front p) in
    let tail : (drop (length (front ++ p) - length p) (front ++ p) =t p) ≡ true =
      (=t_iff _ p).1 (ap (λ k. drop k (front ++ p)) n ∙ drop-length-append front p) in
    rw tail (ground (arith, length-append front p))

-- The last byte, with 0 for an empty text.
abbrev pub last : Text → ℕ
last [] = 0
last (c ∷ []) = c
last (c ∷ d ∷ s) = last (d ∷ s)

pub last-append : (front : Text) (c : ℕ) (s : Text) → last (front ++ c ∷ s) ≡ last (c ∷ s)
last-append [] c s = refl
last-append (x ∷ []) c s = refl
last-append (x ∷ y ∷ front) c s = last-append (y ∷ front) c s
