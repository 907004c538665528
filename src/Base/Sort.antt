-- ===== src/Base/Sort.antt =====
-- `sort.Slice`, `sort.SliceStable` and `sort.Strings` by a strict test `less`: insertion from the
-- right keeps the order of elements that neither precede one another.
use Prim.Native.Nat.{suc}
use mathlib.Core.Path.{◌≡◌, refl, ap, ap₂, ◌∙◌}
use mathlib.Core.Bool.{Bool, true, false}
use mathlib.Core.List.{List, [], ◌∷◌, Perm, Permᴰ}
use mathlib.Core.Logic.{∥∥₁_elim, inl, inr}
use mathlib.Core.List.Perm
use native.Mathlib.Omega.{arith}
use any_ns.Base.Tests.{if◌then◌else◌, Bool-cases}
use any_ns.Base.Lists.{All, Has, length}

module _ {ℓ} {A : Type ℓ} (less : A → A → Bool) where
  unfoldable pub insert_sorted : A → List A → List A
  insert_sorted x [] = x ∷ []
  insert_sorted x (y ∷ ys) =
      let rest = insert_sorted x ys in if less y x then y ∷ rest else x ∷ y ∷ ys

  unfoldable pub sort : List A → List A
  unfolding insert_sorted
  sort [] = []
  sort (x ∷ xs) = insert_sorted x (sort xs)

-- A strict order in which elements that neither precede one another are the same.
pub record IsStrictOrder {ℓ} {A : Type ℓ} (less : A → A → Bool) : Type ℓ where
  pub asymm : (x y : A) → less x y ≡ true → less y x ≡ false
  pub trans : (x y z : A) → less x y ≡ true → less y z ≡ true → less x z ≡ true
  pub connex : (x y : A) → less x y ≡ false → less y x ≡ false → x ≡ y

-- A strict order in which elements that neither precede one another may differ.
pub record IsWeakOrder {ℓ} {A : Type ℓ} (less : A → A → Bool) : Type ℓ where
  pub asymm : (x y : A) → less x y ≡ true → less y x ≡ false
  pub behind : (x y z : A) → less y x ≡ false → less z y ≡ false → less z x ≡ false

-- No element is preceded by a later one.
abbrev pub IsSortedBy {ℓ} : {A : Type ℓ} → (A → A → Bool) → List A → Type 0
IsSortedBy less [] = Unit
IsSortedBy less (x ∷ xs) = All (λ y. less y x ≡ false) xs × IsSortedBy less xs

module _ {ℓ} {A : Type ℓ} (less : A → A → Bool) where
  pub insert_sorted-perm : (x : A) (xs : List A) → Perm (insert_sorted less x xs) (x ∷ xs)
  unfolding insert_sorted
  insert_sorted-perm x [] = Perm.refl (x ∷ [])
  insert_sorted-perm x (y ∷ ys) = elim (Bool-cases (less y x)) [
    | inl h ↦ rw h (Perm.trans (Perm.cons y (insert_sorted-perm x ys)) (Perm.swap x y ys))
    | inr h ↦ rw h (Perm.refl (x ∷ y ∷ ys))
  ]

  pub sort-perm : (xs : List A) → Perm (sort less xs) xs
  unfolding sort
  sort-perm [] = Perm.refl []
  sort-perm (x ∷ xs) = Perm.trans (insert_sorted-perm x (sort less xs)) (Perm.cons x (sort-perm xs))

  pub insert_sorted-All :
      (P : A → Type 0) (x : A) (xs : List A) → P x → All P xs → All P (insert_sorted less x xs)
  unfolding insert_sorted
  insert_sorted-All P x [] p h = (p, tt)
  insert_sorted-All P x (y ∷ ys) p h = elim (Bool-cases (less y x)) [
    | inl e ↦ rw e (h.0, insert_sorted-All P x ys p h.1)
    | inr e ↦ rw e (p, h)
  ]

  length-insert_sorted : (x : A) (xs : List A) → length (insert_sorted less x xs) ≡ suc (length xs)
  unfolding insert_sorted
  length-insert_sorted x [] = refl
  length-insert_sorted x (y ∷ ys) = ground (arith, length-insert_sorted x ys)

  pub length-sort : (xs : List A) → length (sort less xs) ≡ length xs
  unfolding sort
  length-sort [] = refl
  length-sort (x ∷ xs) = length-insert_sorted x (sort less xs) ∙ ap suc (length-sort xs)

  pub sort-All : (P : A → Type 0) (xs : List A) → All P xs → All P (sort less xs)
  unfolding sort
  sort-All P [] h = tt
  sort-All P (x ∷ xs) h = insert_sorted-All P x (sort less xs) h.0 (sort-All P xs h.1)

  insert_sorted-Has_new : (x y : A) (ys : List A) → y ≡ x → Has x (insert_sorted less y ys)
  unfolding insert_sorted
  insert_sorted-Has_new x y [] h = inl h
  insert_sorted-Has_new x y (z ∷ zs) h = elim (Bool-cases (less z y)) [
    | inl e ↦ rw e (inr (insert_sorted-Has_new x y zs h))
    | inr e ↦ rw e (inl h)
  ]

  insert_sorted-Has : (x y : A) (ys : List A) → Has x ys → Has x (insert_sorted less y ys)
  unfolding insert_sorted
  insert_sorted-Has x y [] h = absurd h.lower
  insert_sorted-Has x y (z ∷ zs) (inl h) = elim (Bool-cases (less z y)) [
    | inl e ↦ rw e (inl h)
    | inr e ↦ rw e (inr (inl h))
  ]
  insert_sorted-Has x y (z ∷ zs) (inr h) = elim (Bool-cases (less z y)) [
    | inl e ↦ rw e (inr (insert_sorted-Has x y zs h))
    | inr e ↦ rw e (inr (inr h))
  ]

  pub sort-Has : (x : A) (ys : List A) → Has x ys → Has x (sort less ys)
  unfolding sort
  sort-Has x [] h = absurd h.lower
  sort-Has x (y ∷ ys) (inl e) = insert_sorted-Has_new x y (sort less ys) e
  sort-Has x (y ∷ ys) (inr h) = insert_sorted-Has x y (sort less ys) (sort-Has x ys h)

module _ {ℓ} {A : Type ℓ} (less : A → A → Bool) (o : IsWeakOrder less) where
  pub All-behind :
      (x y : A) (ys : List A)
      → less y x ≡ false
      → All (λ z. less z y ≡ false) ys
      → All (λ z. less z x ≡ false) ys
  All-behind x y [] p h = tt
  All-behind x y (z ∷ ys) p h = (o.behind x y z p h.0, All-behind x y ys p h.1)

  pub insert_sorted-IsSortedBy :
      (x : A) (xs : List A) → IsSortedBy less xs → IsSortedBy less (insert_sorted less x xs)
  unfolding insert_sorted
  insert_sorted-IsSortedBy x [] h = (tt, tt)
  insert_sorted-IsSortedBy x (y ∷ ys) h = elim (Bool-cases (less y x)) [
    | inl e ↦ rw e (
      insert_sorted-All less (λ z. less z y ≡ false) x ys (o.asymm y x e) h.0,
      insert_sorted-IsSortedBy x ys h.1,
    )
    | inr e ↦ rw e ((e, All-behind x y ys e h.0), h)
  ]

  -- The result is in order.
  pub sort-IsSortedBy : (xs : List A) → IsSortedBy less (sort less xs)
  unfolding sort
  sort-IsSortedBy [] = tt
  sort-IsSortedBy (x ∷ xs) = insert_sorted-IsSortedBy x (sort less xs) (sort-IsSortedBy xs)

module _ {ℓ} {A : Type ℓ} (less : A → A → Bool) (o : IsStrictOrder less) where
  -- What comes behind `y` comes behind what is not behind `y`.
  behind : (x y z : A) → less y x ≡ false → less z y ≡ false → less z x ≡ false
  behind x y z p q = ground (arith, o.trans z x y, o.connex x y)

  pub IsStrictOrder-IsWeakOrder : IsWeakOrder less
  IsStrictOrder-IsWeakOrder = record { asymm = o.asymm; behind = behind }

  insert_sorted_comm :
      (x y : A) (xs : List A)
      → insert_sorted less x (insert_sorted less y xs)
        ≡ insert_sorted less y (insert_sorted less x xs)
  unfolding insert_sorted
  insert_sorted_comm x y [] = ground (arith, o.asymm x y, o.connex x y)
  insert_sorted_comm x y (z ∷ zs) =
      ground
        (arith, o.asymm x y, o.connex x y, behind x y z, behind y x z, insert_sorted_comm x y zs)

  sort-Permᴰ : {xs ys : List A} → Permᴰ xs ys → sort less xs ≡ sort less ys
  unfolding sort
  sort-Permᴰ Permᴰ.nil = refl
  sort-Permᴰ (Permᴰ.cons e p) = ap₂ (insert_sorted less) e (sort-Permᴰ p)
  sort-Permᴰ (Permᴰ.swap {a} {b} {l = l} e f) =
      insert_sorted_comm a b (sort less l)
      ∙ ap₂ (λ u v. insert_sorted less u (insert_sorted less v (sort less l))) f e
  sort-Permᴰ (Permᴰ.trans p q) = sort-Permᴰ p ∙ sort-Permᴰ q

  -- The result does not depend on the order in which the elements are given.
  pub sort-eq_of_perm : (xs ys : List A) → IsSet (List A) → Perm xs ys → sort less xs ≡ sort less ys
  sort-eq_of_perm xs ys s p = ∥∥₁_elim p (s (sort less xs) (sort less ys)) sort-Permᴰ
