-- ===== src/Base/Number.antt =====
-- `strconv.Itoa` and `strconv.Atoi` in base ten, for a 64-bit `int`.
use Prim.Native.Nat.{ℕ, zero, suc, ◌+◌, ◌-◌, ◌*◌, ◌/◌, ◌%◌, ◌<◌}
use mathlib.Core.Path.{◌≡◌, refl, ◌∙◌, ap}
use mathlib.Core.Logic.{inl, inr}
use mathlib.Core.Bool.{Bool, true, false, ◌&&◌}
use mathlib.Core.List.{[], ◌∷◌, ◌++◌}
use mathlib.Core.Option.{Option, none, some}
use native.Mathlib.Omega.{arith}
use any_ns.Base.Tests.{if◌then◌else◌, leb, ltb, ◌==◌, Bool-cases}
use any_ns.Base.Lists.{All, All-append}
use any_ns.Base.Int.{ℤ, pos, negsuc}
use any_ns.Base.Texts.{Text, is_empty, is_space, trim_space, trim_space_none}

-- One more than the largest `int`.
abbrev pub int_limit : ℕ
int_limit = 9223372036854775808

abbrev pub is_digit : ℕ → Bool
is_digit c = leb 48 c && leb c 57

-- The digits of `n`, by as many divisions as the fuel allows.
digits : ℕ → ℕ → Text
digits zero n = []
digits (suc f) n =
    let front = digits f (n / 10) in if ltb n 10 then (48 + n) ∷ [] else front ++ (48 + n % 10) ∷ []

-- `strconv.Itoa` of a number that is not negative; n + 1 rounds are enough for n.
unfoldable pub itoa : ℕ → Text
unfolding digits
itoa n = digits (suc n) n

scan : ℕ → Text → Option ℕ
scan acc [] = some acc
scan acc (c ∷ s) = let rest = scan (acc * 10 + (c - 48)) s in if is_digit c then rest else none

-- A run of at least one digit.
unfoldable pub scan_digits : Text → Option ℕ
unfolding scan
scan_digits s = if is_empty s then none else scan 0 s

positive : Option ℕ → Option ℤ
positive none = none
positive (some n) = if ltb n int_limit then some (pos n) else none

-- The least `int` is -2 ^ 63.
negative : Option ℕ → Option ℤ
negative none = none
negative (some zero) = some (pos 0)
negative (some (suc n)) = if ltb n int_limit then some (negsuc n) else none

-- `strconv.Atoi`; `none` is its error.
unfoldable pub atoi : Text → Option ℤ
unfolding positive negative scan_digits
atoi [] = none
atoi (c ∷ s) =
    if c == b'-'
    then negative (scan_digits s)
    else if c == b'+'
    then positive (scan_digits s)
    else positive (scan_digits (c ∷ s))

scan-append :
    (acc : ℕ) (s : Text) (n c : ℕ)
    → scan acc s ≡ some n
    → is_digit c ≡ true
    → scan acc (s ++ c ∷ []) ≡ some (n * 10 + (c - 48))
unfolding scan
scan-append acc [] n c h d = ground arith
scan-append acc (x ∷ s) n c h d = elim (Bool-cases (is_digit x)) [
  | inl e ↦ rw e (scan-append (acc * 10 + (x - 48)) s n c (rw e at h) d)
  | inr e ↦ ground arith
]

scan-digits : (f n : ℕ) → n < f → scan 0 (digits f n) ≡ some n
unfolding digits scan
scan-digits zero n h = absurd (omega arith)
scan-digits (suc f) n h = elim (Bool-cases (ltb n 10)) [
  | inl small ↦ rw small (ground arith)
  | inr large ↦ rw large (
      scan-append 0 (digits f (n / 10)) (n / 10) (48 + n % 10)
        (scan-digits f (n / 10) (ground arith)) (ground arith)
      ∙ ap some (omega arith))
]

digits-All : (f n : ℕ) → All (λ c. is_digit c ≡ true) (digits f n)
unfolding digits
digits-All zero n = tt
digits-All (suc f) n = elim (Bool-cases (ltb n 10)) [
  | inl small ↦ rw small (ground arith, tt)
  | inr large ↦ rw large (
      All-append (λ c. is_digit c ≡ true) (digits f (n / 10)) ((48 + n % 10) ∷ [])
        (digits-All f (n / 10)) (ground arith, tt))
]

digits_nonempty : (f n : ℕ) → is_empty (digits (suc f) n) ≡ false
unfolding digits
digits_nonempty f n = elim (Bool-cases (ltb n 10)) [
  | inl small ↦ rw small
  | inr large ↦ rw large (nonempty (digits f (n / 10)))
]
  where
    nonempty : (s : Text) → is_empty (s ++ (48 + n % 10) ∷ []) ≡ false
    nonempty [] = refl
    nonempty (x ∷ s) = refl

pub itoa_nonempty : (n : ℕ) → is_empty (itoa n) ≡ false
unfolding itoa
itoa_nonempty n = digits_nonempty n n

not_space : (s : Text) → All (λ c. is_digit c ≡ true) s → All (λ c. is_space c ≡ false) s
unfolding is_space
not_space [] h = tt
not_space (c ∷ s) h = (ground arith, not_space s h.1)

pub trim_space-itoa : (n : ℕ) → trim_space (itoa n) ≡ itoa n
unfolding itoa
trim_space-itoa n = trim_space_none _ (not_space _ (digits-All (suc n) n))

-- An unsigned run of digits is read as its number.
atoi_unsigned :
    (s : Text) (n : ℕ)
    → All (λ c. is_digit c ≡ true) s
    → is_empty s ≡ false
    → scan 0 s ≡ some n
    → n < int_limit
    → atoi s ≡ some (pos n)
unfolding atoi
atoi_unsigned [] n d e h l = cc
atoi_unsigned (c ∷ s) n d e h l =
    let not_minus : (c == b'-') ≡ false = ground arith in
    let not_plus : (c == b'+') ≡ false = ground arith in
    rw (not_minus, not_plus) (rw h (ground arith))

-- Reading back what was printed.
pub atoi-itoa : (n : ℕ) → n < int_limit → atoi (itoa n) ≡ some (pos n)
unfolding itoa
atoi-itoa n h =
    atoi_unsigned (digits (suc n) n) n (digits-All (suc n) n) (digits_nonempty n n)
      (scan-digits (suc n) n (omega arith)) h

-- What was printed is a run of digits, and it is read as its number.
pub itoa-All : (n : ℕ) → All (λ c. is_space c ≡ false) (itoa n)
unfolding itoa
itoa-All n = not_space _ (digits-All (suc n) n)

pub itoa_digits : (n : ℕ) → All (λ c. is_digit c ≡ true) (itoa n)
unfolding itoa
itoa_digits n = digits-All (suc n) n

pub scan_digits-itoa : (n : ℕ) → scan_digits (itoa n) ≡ some n
unfolding scan_digits itoa
scan_digits-itoa n = rw (digits_nonempty n n) (scan-digits (suc n) n (omega arith))
