-- ===== src/Claims/Json/Hex.antt =====
-- `toHex` and `fromHex`, packages/sdk/src/bytes.ts.
use core_flow.Prelude.{
  ℕ, ◌+◌, ◌-◌, ◌*◌, ◌/◌, ◌%◌, ◌<◌, ◌≡◌, refl, ap, Bool, true, ◌&&◌, ◌||◌, List, [], ◌∷◌, All, all,
  leb, ltb, length, ◌==◌, nat_eq, if◌then◌else◌, arith,
}
use core_flow.Prelude.Bytes.{Bytes}
use core_flow.Claims.Types.{invalid_input, Checked, ok, fail}

-- A text, as its code units.
abbrev pub Text : Type 0
Text = List ℕ

abbrev pub hex_digit : ℕ → ℕ
hex_digit d = if ltb d 10 then 48 + d else 87 + d

unfoldable pub to_hex : Bytes → Text
to_hex [] = []
to_hex (b ∷ bytes) = hex_digit (b / 16) ∷ hex_digit (b % 16) ∷ to_hex bytes

-- `[0-9a-fA-F]`
abbrev pub is_hex : ℕ → Bool
is_hex c = (leb 48 c && leb c 57) || (leb 97 c && leb c 102) || (leb 65 c && leb c 70)

-- `parseInt(c, 16)` of one digit.
abbrev pub digit_value : ℕ → ℕ
digit_value c = if leb c 57 then c - 48 else if leb c 70 then c - 55 else c - 87

abbrev pub pairs : Text → Bytes
pairs [] = []
pairs (c ∷ []) = []
pairs (c ∷ d ∷ s) = (digit_value c * 16 + digit_value d) ∷ pairs s

unfoldable pub from_hex : Text → Checked Bytes
from_hex hex = if length hex % 2 == 0 && all is_hex hex then ok (pairs hex) else fail invalid_input

-- Every element is a byte.
abbrev pub AreBytes : Bytes → Type 0
AreBytes bytes = All (λ b. b < 256) bytes

pub length-to_hex : (bytes : Bytes) → length (to_hex bytes) ≡ 2 * length bytes
unfolding to_hex
length-to_hex [] = refl
length-to_hex (b ∷ bytes) = omega (arith, length-to_hex bytes)

digit_back : (d : ℕ) → d < 16 → (digit_value (hex_digit d) ≡ d) × (is_hex (hex_digit d) ≡ true)
digit_back d h = ground arith

pub pairs-to_hex :
    (bytes : Bytes)
    → AreBytes bytes
    → (pairs (to_hex bytes) ≡ bytes) × (all is_hex (to_hex bytes) ≡ true)
unfolding to_hex
pairs-to_hex [] h = (refl, refl)
pairs-to_hex (b ∷ bytes) h =
    let high = digit_back (b / 16) (let small = h.0 in omega arith) in
    let low = digit_back (b % 16) (omega arith) in
    let (rest, digits) = pairs-to_hex bytes h.1 in
    let back : b / 16 * 16 + b % 16 ≡ b = omega arith in
    (rw (high.0, low.0, back) (ap (λ t. b ∷ t) rest), rw (high.1, low.1) digits)
