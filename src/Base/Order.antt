-- ===== src/Base/Order.antt =====
-- The order of texts is strict.
use any_ns.Base.Texts.{Text, text_lt}
use any_ns.Base.Sort.{IsStrictOrder}
use mathlib.Core.Path.{◌≡◌, refl}
use mathlib.Core.Bool.{true, false}
use mathlib.Core.List.{[], ◌∷◌}
use native.Mathlib.Omega.{arith}

text_lt-asymm : (a b : Text) → text_lt a b ≡ true → text_lt b a ≡ false
unfolding text_lt
text_lt-asymm [] [] h = refl
text_lt-asymm [] (y ∷ b) h = refl
text_lt-asymm (x ∷ a) [] h = cc
text_lt-asymm (x ∷ a) (y ∷ b) h = ground (arith, text_lt-asymm a b)

text_lt_trans : (a b c : Text) → text_lt a b ≡ true → text_lt b c ≡ true → text_lt a c ≡ true
unfolding text_lt
text_lt_trans [] [] c h k = k
text_lt_trans [] (y ∷ b) [] h k = cc
text_lt_trans [] (y ∷ b) (z ∷ c) h k = refl
text_lt_trans (x ∷ a) [] c h k = cc
text_lt_trans (x ∷ a) (y ∷ b) [] h k = cc
text_lt_trans (x ∷ a) (y ∷ b) (z ∷ c) h k = ground (arith, text_lt_trans a b c)

text_lt-connex : (a b : Text) → text_lt a b ≡ false → text_lt b a ≡ false → a ≡ b
unfolding text_lt
text_lt-connex [] [] h k = refl
text_lt-connex [] (y ∷ b) h k = cc
text_lt-connex (x ∷ a) [] h k = cc
text_lt-connex (x ∷ a) (y ∷ b) h k = ground (arith, text_lt-connex a b)

pub text_lt-IsStrictOrder : IsStrictOrder text_lt
text_lt-IsStrictOrder = record {
  asymm = text_lt-asymm;
  trans = text_lt_trans;
  connex = text_lt-connex;
}
