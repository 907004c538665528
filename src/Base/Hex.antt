-- ===== src/Base/Hex.antt =====
-- `hex.DecodeString` and `hex.EncodeToString`.
use Prim.Native.Nat.{ℕ, ◌+◌, ◌-◌, ◌*◌, ◌/◌, ◌%◌, ◌<◌}
use mathlib.Core.Path.{◌≡◌, refl, ap}
use mathlib.Core.Bool.{◌&&◌}
use mathlib.Core.List.{[], ◌∷◌}
use mathlib.Core.Option.{Option, none, some}
use native.Mathlib.Omega.{arith}
use any_ns.Base.Tests.{if◌then◌else◌, leb, ltb}
use any_ns.Base.Lists.{All}
use any_ns.Base.Texts.{Text, upper, to_upper}

abbrev pub hex_value : ℕ → Option ℕ
hex_value c =
    if leb b'0' c && leb c b'9'
    then some (c - 48)
    else if leb b'a' c && leb c b'f'
    then some (c - 87)
    else if leb b'A' c && leb c b'F'
    then some (c - 55)
    else none

abbrev hex_byte : Option ℕ → Option ℕ → Option Text → Option Text
hex_byte (some h) (some l) (some rest) = some ((h * 16 + l) ∷ rest)
hex_byte h l rest = none

unfoldable pub hex_decode : Text → Option Text
hex_decode [] = some []
hex_decode (x ∷ []) = none
hex_decode (x ∷ y ∷ s) = hex_byte (hex_value x) (hex_value y) (hex_decode s)

abbrev hex_digit : ℕ → ℕ
hex_digit n = if ltb n 10 then n + 48 else n + 87

unfoldable pub hex_encode : Text → Text
hex_encode [] = []
hex_encode (b ∷ bs) = hex_digit (b / 16) ∷ hex_digit (b % 16) ∷ hex_encode bs

hex_value-upper : (c : ℕ) → hex_value (upper c) ≡ hex_value c
unfolding upper
hex_value-upper c = ground arith

-- Letters of either case are read alike.
pub hex_decode-to_upper : (s : Text) → hex_decode (to_upper s) ≡ hex_decode s
unfolding hex_decode to_upper
hex_decode-to_upper [] = refl
hex_decode-to_upper (x ∷ []) = refl
hex_decode-to_upper (x ∷ y ∷ s) = simp (hex_value-upper x, hex_value-upper y, hex_decode-to_upper s)

abbrev pub IsByte : ℕ → Type 0
IsByte b = b < 256

hex_value-hex_digit : (n : ℕ) → n < 16 → hex_value (hex_digit n) ≡ some n
hex_value-hex_digit n h = ground (arith, h)

pub hex_decode-hex_encode : (bs : Text) → All IsByte bs → hex_decode (hex_encode bs) ≡ some bs
unfolding hex_decode hex_encode
hex_decode-hex_encode [] h = refl
hex_decode-hex_encode (b ∷ bs) h =
    simp
      (
        hex_value-hex_digit (b / 16) (omega (arith, h.0)),
        hex_value-hex_digit (b % 16) (omega arith),
        hex_decode-hex_encode bs h.1,
      )
      (ap (λ x. some (x ∷ bs)) (omega arith))
