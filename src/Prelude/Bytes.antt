-- ===== src/Prelude/Bytes.antt =====
-- Byte arrays, with the methods of JavaScript's `Uint8Array` and `DataView` that the program calls.
use Prim.Native.Nat.{ℕ, zero, suc, ◌+◌, ◌*◌, ◌/◌, ◌%◌, ◌^◌, ◌<◌}
use Prim.Native.Nat.pow
use mathlib.Core.Path.{◌≡◌, refl, ◌∙◌, ap}
use mathlib.Core.Bool.{Bool, true, false, ◌&&◌}
use mathlib.Core.List.{List, [], ◌∷◌, ◌++◌}
use native.Mathlib.Omega.{arith}
use core_flow.Prelude.Equality.{◌==◌, nat_eq, eq_self}
use core_flow.Prelude.Lists.{length, length-append}

abbrev pub Bytes : Type 0
Bytes = List ℕ

abbrev pub take {ℓ} : {A : Type ℓ} → ℕ → List A → List A
take zero xs = []
take (suc n) [] = []
take (suc n) (x ∷ xs) = x ∷ take n xs

abbrev pub drop {ℓ} : {A : Type ℓ} → ℕ → List A → List A
drop zero xs = xs
drop (suc n) [] = []
drop (suc n) (x ∷ xs) = drop n xs

-- `bytes.slice(offset, offset + size)`
unfoldable pub slice : ℕ → ℕ → Bytes → Bytes
slice offset size bytes = take size (drop offset bytes)

-- `new Uint8Array(n)`
unfoldable pub zeros : ℕ → Bytes
zeros zero = []
zeros (suc n) = 0 ∷ zeros n

abbrev pub overlay : Bytes → Bytes → Bytes
overlay [] buf = buf
overlay (x ∷ xs) [] = []
overlay (x ∷ xs) (b ∷ buf) = x ∷ overlay xs buf

-- `out.set(bytes, offset)`, within the bounds of the array.
unfoldable pub set_bytes : Bytes → ℕ → Bytes → Bytes
set_bytes bytes zero buf = overlay bytes buf
set_bytes bytes (suc n) [] = []
set_bytes bytes (suc n) (b ∷ buf) = b ∷ set_bytes bytes n buf

-- `n` bytes of a number, the most significant first: `setUint16` and `setBigUint64`.
unfoldable pub big_endian : ℕ → ℕ → Bytes
big_endian zero v = []
big_endian (suc n) v = big_endian n (v / 256) ++ (v % 256) ∷ []

abbrev from_digits : ℕ → Bytes → ℕ
from_digits acc [] = acc
from_digits acc (b ∷ bs) = from_digits (acc * 256 + b) bs

-- `getUint16` and `getBigUint64`
unfoldable pub from_big_endian : Bytes → ℕ
from_big_endian bytes = from_digits 0 bytes

-- `bytes[i]`, within the bounds of the array.
unfoldable pub byte_at : ℕ → Bytes → ℕ
byte_at i [] = 0
byte_at zero (b ∷ bs) = b
byte_at (suc i) (b ∷ bs) = byte_at i bs

-- `x.every((v, i) => v === y[i])`
unfoldable pub every_same : Bytes → Bytes → Bool
every_same [] ys = true
every_same (x ∷ xs) [] = false
every_same (x ∷ xs) (y ∷ ys) = x == y && every_same xs ys

pub every_same-eq : (xs ys : Bytes) → length xs ≡ length ys → every_same xs ys ≡ true → xs ≡ ys
unfolding every_same
every_same-eq [] [] l h = refl
every_same-eq [] (y ∷ ys) l h = absurd (omega arith)
every_same-eq (x ∷ xs) [] l h = absurd (omega arith)
every_same-eq (x ∷ xs) (y ∷ ys) l h = ground (arith, every_same-eq xs ys)

pub every_same_self : (xs : Bytes) → every_same xs xs ≡ true
unfolding every_same
every_same_self [] = refl
every_same_self (x ∷ xs) = ground (arith, eq_self x, every_same_self xs)

-- ── Words ──

from_digits-append :
    (acc : ℕ) (bs : Bytes) (b : ℕ) → from_digits acc (bs ++ b ∷ []) ≡ from_digits acc bs * 256 + b
from_digits-append acc [] b = refl
from_digits-append acc (x ∷ bs) b = from_digits-append (acc * 256 + x) bs b

pub length-big_endian : (n v : ℕ) → length (big_endian n v) ≡ n
unfolding big_endian
length-big_endian zero v = refl
length-big_endian (suc n) v = omega (
  arith,
  length-append {0} (big_endian n (v / 256)) (v % 256 ∷ []),
  length-big_endian n (v / 256),
)

-- A word that fits is read back.
pub from_big_endian-big_endian : (n v : ℕ) → v < 256 ^ n → from_big_endian (big_endian n v) ≡ v
unfolding from_big_endian big_endian
from_big_endian-big_endian zero v h = omega arith
from_big_endian-big_endian (suc n) v h =
    let power = pow.suc 256 n in
    let small : v / 256 < 256 ^ n = omega arith in
    from_digits-append 0 (big_endian n (v / 256)) (v % 256)
    ∙ omega (arith, from_big_endian-big_endian n (v / 256) small)

pub length-zeros : (n : ℕ) → length (zeros n) ≡ n
unfolding zeros
length-zeros zero = refl
length-zeros (suc n) = ap suc (length-zeros n)
