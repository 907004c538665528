-- ===== src/Base/Fields.antt =====
-- `strings.Fields`, and the texts whose fields are known.
use mathlib.Core.Path.{◌≡◌, ap, ◌∙◌}
use mathlib.Core.Bool.{Bool, true, false}
use mathlib.Core.List.{List, [], ◌∷◌, ◌++◌}
use Prim.Native.Nat.{ℕ}
use native.Mathlib.Omega.{arith}
use any_ns.Base.Tests.{if◌then◌else◌}
use any_ns.Base.Lists.{All}
use any_ns.Base.Texts.{Text, is_empty, is_space, cons_first}

abbrev pub starts_blank : Text → Bool
starts_blank [] = true
starts_blank (c ∷ s) = is_space c

-- `strings.Fields`
unfoldable pub fields : Text → List Text
fields [] = []
fields (c ∷ s) =
    let rest = fields s in
    if is_space c then rest else if starts_blank s then (c ∷ []) ∷ rest else cons_first c rest

abbrev pub spaced : Text → Text → Text
spaced s t = s ++ b' ' ∷ t

-- A text without spaces, of at least one byte.
pub record IsWord (w : Text) : Type 0 where
  pub some_byte : is_empty w ≡ false
  pub no_space : All (λ c. is_space c ≡ false) w

word_step :
    (c : ℕ) (s : Text)
    → is_space c ≡ false
    → starts_blank s ≡ false
    → fields (c ∷ s) ≡ cons_first c (fields s)
unfolding fields
word_step c s h k = simp (h, k)

next_word :
    (c : ℕ) (w t : Text)
    → is_space c ≡ false
    → All (λ x. is_space x ≡ false) w
    → fields (spaced (c ∷ w) t) ≡ (c ∷ w) ∷ fields t
unfolding fields is_space
next_word c [] t h k = simp (h)
next_word c (d ∷ w) t h k =
    word_step c (spaced (d ∷ w) t) h k.0 ∙ ap (cons_first c) (next_word d w t k.0 k.1)

pub fields-spaced : (w t : Text) → IsWord w → fields (spaced w t) ≡ w ∷ fields t
fields-spaced [] t h = absurd (ground (arith, h.some_byte))
fields-spaced (c ∷ w) t h = next_word c w t h.no_space.0 h.no_space.1

last_word :
    (c : ℕ) (w : Text)
    → is_space c ≡ false
    → All (λ x. is_space x ≡ false) w
    → fields (c ∷ w) ≡ (c ∷ w) ∷ []
unfolding fields
last_word c [] h k = simp (h)
last_word c (d ∷ w) h k = word_step c (d ∷ w) h k.0 ∙ ap (cons_first c) (last_word d w k.0 k.1)

pub fields_word : (w : Text) → IsWord w → fields w ≡ w ∷ []
fields_word [] h = absurd (ground (arith, h.some_byte))
fields_word (c ∷ w) h = last_word c w h.no_space.0 h.no_space.1
