-- ===== src/Base/Texts.antt =====
-- Texts as lists of bytes, and the functions of Go's `strings` that the program calls. Letter case
-- and white space are those of the ASCII range, where `strings` works byte by byte.
use Prim.Native.Char.{code}
use Prim.Native.Nat.{ℕ, ◌+◌, ◌-◌}
use Prim.Native.String.{String}
use mathlib.Core.Path.{◌≡◌, refl}
use mathlib.Core.Logic.{◌↔◌}
use mathlib.Core.Bool.{Bool, true, false, ◌&&◌, ◌||◌}
use mathlib.Core.List.{List, [], ◌∷◌, ◌++◌, map}
use native.Mathlib.Omega.{arith}
use any_ns.Base.Tests.{ltb, leb, ◌==◌, if◌then◌else◌, ==_iff}
use any_ns.Base.Lists.{length, drop, All}

abbrev pub Text : Type 0
Text = List ℕ

-- A literal of the source as a text.
abbrev pub txt : String → Text
txt String.[] = []
txt (String.◌∷◌ c s) = code c ∷ txt s

infix 50 ◌=t◌
unfoldable pub ◌=t◌ : Text → Text → Bool
[] =t [] = true
[] =t (y ∷ ys) = false
(x ∷ xs) =t [] = false
(x ∷ xs) =t (y ∷ ys) = x == y && xs =t ys

-- `a < b` on strings: byte by byte.
unfoldable pub text_lt : Text → Text → Bool
text_lt [] [] = false
text_lt [] (y ∷ ys) = true
text_lt (x ∷ xs) [] = false
text_lt (x ∷ xs) (y ∷ ys) = ltb x y || x == y && text_lt xs ys

abbrev pub is_empty : Text → Bool
is_empty [] = true
is_empty (x ∷ xs) = false

-- `"\t\n\v\f\r "`, the ASCII part of `unicode.IsSpace`.
unfoldable pub is_space : ℕ → Bool
is_space c = c == 32 || leb 9 c && leb c 13

unfoldable pub lower : ℕ → ℕ
lower c = if leb b'A' c && leb c b'Z' then c + 32 else c

unfoldable pub upper : ℕ → ℕ
upper c = if leb b'a' c && leb c b'z' then c - 32 else c

-- `strings.ToLower`, `strings.ToUpper`
unfoldable pub to_lower : Text → Text
to_lower = map lower

unfoldable pub to_upper : Text → Text
to_upper = map upper

unfoldable pub trim_left : Text → Text
trim_left [] = []
trim_left (c ∷ s) = let rest = trim_left s in if is_space c then rest else c ∷ s

-- Drops the trailing run of bytes that pass the test.
unfoldable pub trim_right_by : (ℕ → Bool) → Text → Text
trim_right_by p [] = []
trim_right_by p (c ∷ s) =
    let rest = trim_right_by p s in if is_empty rest && p c then [] else c ∷ rest

-- `strings.TrimSpace`
unfoldable pub trim_space : Text → Text
unfolding trim_left trim_right_by is_space
trim_space s = trim_right_by is_space (trim_left s)

-- `strings.TrimRight(s, string(c))` for one byte `c`.
unfoldable pub trim_right : Text → ℕ → Text
unfolding trim_right_by
trim_right s c = trim_right_by (λ x. x == c) s

-- `strings.HasPrefix(s, p)`
unfoldable pub has_prefix : Text → Text → Bool
has_prefix s [] = true
has_prefix [] (p ∷ ps) = false
has_prefix (c ∷ s) (p ∷ ps) = c == p && has_prefix s ps

-- `strings.HasSuffix(s, p)`
unfoldable pub has_suffix : Text → Text → Bool
unfolding ◌=t◌
has_suffix s p = leb (length p) (length s) && drop (length s - length p) s =t p

-- `strings.TrimPrefix(s, p)`
unfoldable pub trim_prefix : Text → Text → Text
unfolding has_prefix
trim_prefix s p = if has_prefix s p then drop (length p) s else s

-- `strings.TrimSuffix(s, string(c))` for one byte `c`.
unfoldable pub trim_suffix : Text → ℕ → Text
trim_suffix [] c = []
trim_suffix (x ∷ []) c = if x == c then [] else x ∷ []
trim_suffix (x ∷ y ∷ s) c = x ∷ trim_suffix (y ∷ s) c

-- `strings.Contains(s, p)`
unfoldable pub contains : Text → Text → Bool
unfolding has_prefix
contains [] p = has_prefix [] p
contains (c ∷ s) p = has_prefix (c ∷ s) p || contains s p

-- `strings.Join(parts, sep)`
unfoldable pub join : List Text → Text → Text
join [] sep = []
join (s ∷ []) sep = s
join (s ∷ t ∷ rest) sep = s ++ sep ++ join (t ∷ rest) sep

abbrev pub cons_first : ℕ → List Text → List Text
cons_first x [] = (x ∷ []) ∷ []
cons_first x (w ∷ ws) = (x ∷ w) ∷ ws

-- `strings.Split(s, string(c))` for one byte `c`.
unfoldable pub split : Text → ℕ → List Text
split [] c = [] ∷ []
split (x ∷ s) c = let rest = split s c in if x == c then [] ∷ rest else cons_first x rest

pub =t_iff : (s t : Text) → (s =t t ≡ true) ↔ (s ≡ t)
unfolding ◌=t◌
=t_iff [] [] = ground arith
=t_iff [] (y ∷ t) = ground arith
=t_iff (x ∷ s) [] = ground arith
=t_iff (x ∷ s) (y ∷ t) = ground (arith, =t_iff s t, ==_iff x y)

-- Texts that begin and end with no space are left alone.
pub trim_right_by_none :
    (p : ℕ → Bool) (s : Text) → All (λ c. p c ≡ false) s → trim_right_by p s ≡ s
unfolding trim_right_by
trim_right_by_none p [] h = refl
trim_right_by_none p (c ∷ s) h = rw (h.0, trim_right_by_none p s h.1) (ground arith)

trim_left_none : (s : Text) → All (λ c. is_space c ≡ false) s → trim_left s ≡ s
unfolding trim_left
trim_left_none [] h = refl
trim_left_none (c ∷ s) h = rw h.0

pub trim_space_none : (s : Text) → All (λ c. is_space c ≡ false) s → trim_space s ≡ s
unfolding trim_space
trim_space_none s h = rw (trim_left_none s h) (trim_right_by_none is_space s h)
