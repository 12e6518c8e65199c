-- ===== src/Prelude/Slices.antt =====
-- Regions of a byte array: contiguous writes lay them side by side, and slices read them back.
use Prim.Native.Nat.{ℕ, zero, suc, ◌+◌, ◌-◌, ◌≤◌}
use mathlib.Core.Path.{◌≡◌, refl, sym, ◌∙◌, ap}
use mathlib.Core.List.{List, [], ◌∷◌, ◌++◌, append_assoc}
use mathlib.Core.Logic.{inl, inr}
use mathlib.Core.Option.{Option, none, some}
use native.Mathlib.Omega.{arith}
use core_flow.Prelude.Tests.{if◌then◌else◌, Bool-cases}
use core_flow.Prelude.Equality.{◌==◌, nat_eq}
use core_flow.Prelude.Lists.{length, length-append}
use core_flow.Prelude.Bytes.{Bytes, take, drop, slice, zeros, overlay, set_bytes, byte_at}

-- A run of writes, each an offset and the bytes that go there.
unfoldable pub write_all : List (ℕ × Bytes) → Bytes → Bytes
write_all [] buf = buf
write_all ((offset, bytes) ∷ ws) buf = write_all ws (set_bytes bytes offset buf)

unfoldable pub joined : List (ℕ × Bytes) → Bytes
joined [] = []
joined ((offset, bytes) ∷ ws) = bytes ++ joined ws

-- Each region begins where the one before it ends.
abbrev pub Contiguous : ℕ → List (ℕ × Bytes) → ℕ → Type 0
Contiguous start [] end = start ≡ end
Contiguous start ((offset, bytes) ∷ ws) end =
    (offset ≡ start) × Contiguous (start + length bytes) ws end

overlay-zeros : (bs : Bytes) (n : ℕ) → overlay bs (zeros (length bs + n)) ≡ bs ++ zeros n
unfolding zeros
overlay-zeros [] n = ap zeros (omega arith)
overlay-zeros (b ∷ bs) n =
    let grown : suc (length bs) + n ≡ suc (length bs + n) = omega arith in
    rw grown (ap (λ t. b ∷ t) (overlay-zeros bs n))

set_bytes-append :
    (pre bs rest : Bytes) → set_bytes bs (length pre) (pre ++ rest) ≡ pre ++ overlay bs rest
unfolding set_bytes
set_bytes-append [] bs rest = refl
set_bytes-append (p ∷ pre) bs rest = ap (λ t. p ∷ t) (set_bytes-append pre bs rest)

Contiguous-le : (start end : ℕ) (ws : List (ℕ × Bytes)) → Contiguous start ws end → start ≤ end
Contiguous-le start end [] c = omega arith
Contiguous-le start end ((o, bs) ∷ ws) c =
    omega (arith, Contiguous-le (start + length bs) end ws c.1)

-- Contiguous writes into a fresh array lay the regions side by side.
write_all-joined :
    (pre : Bytes) (ws : List (ℕ × Bytes)) (end : ℕ)
    → Contiguous (length pre) ws end
    → write_all ws (pre ++ zeros (end - length pre)) ≡ pre ++ joined ws
unfolding write_all joined zeros
write_all-joined pre [] end c = let none_left : end - length pre ≡ 0 = omega arith in rw none_left
write_all-joined pre ((o, bs) ∷ ws) end c =
    let reach = Contiguous-le (length pre + length bs) end ws c.1 in
    let room : end - length pre ≡ length bs + (end - (length pre + length bs)) = omega arith in
    let here : o ≡ length pre = c.0 in
    let next = length-append {0} pre bs in
    let written : set_bytes bs o (pre ++ zeros (end - length pre))
        ≡ (pre ++ bs) ++ zeros (end - length (pre ++ bs)) =
      rw (here, room, next)
        (set_bytes-append pre bs (zeros (length bs + (end - (length pre + length bs))))
          ∙ rw (overlay-zeros bs (end - (length pre + length bs)))
              (sym (append_assoc pre bs (zeros (end - (length pre + length bs)))))) in
    rw written (write_all-joined (pre ++ bs) ws end (rw next c.1) ∙ append_assoc pre bs (joined ws))

length-joined :
    (start end : ℕ) (ws : List (ℕ × Bytes))
    → Contiguous start ws end
    → start + length (joined ws) ≡ end
unfolding joined
length-joined start end [] c = omega arith
length-joined start end ((o, bs) ∷ ws) c =
    omega (arith, length-append {0} bs (joined ws), length-joined (start + length bs) end ws c.1)

-- A fresh array of the right length holds exactly the regions that are written to it.
pub write_all-zeros :
    (ws : List (ℕ × Bytes)) (end : ℕ)
    → Contiguous 0 ws end
    → (write_all ws (zeros end) ≡ joined ws) × (length (joined ws) ≡ end)
write_all-zeros ws end c =
    let all : end ≡ end - 0 = omega arith in
    (
      ap (λ n. write_all ws (zeros n)) all ∙ write_all-joined [] ws end c,
      omega (arith, length-joined 0 end ws c),
    )

-- The region that begins at the offset.
abbrev pub region : ℕ → List (ℕ × Bytes) → Option Bytes
region offset [] = none
region offset ((o, bs) ∷ ws) = if o == offset then some bs else region offset ws

take-append : (xs ys : Bytes) → take (length xs) (xs ++ ys) ≡ xs
take-append [] ys = refl
take-append (x ∷ xs) ys = ap (λ t. x ∷ t) (take-append xs ys)

drop-append : (xs ys : Bytes) (n : ℕ) → drop (length xs + n) (xs ++ ys) ≡ drop n ys
drop-append [] ys n = ap (λ k. drop k ys) (omega arith)
drop-append (x ∷ xs) ys n =
    let grown : suc (length xs) + n ≡ suc (length xs + n) = omega arith in
    rw grown (drop-append xs ys n)

region-le :
    (offset start end : ℕ) (ws : List (ℕ × Bytes)) (bs : Bytes)
    → Contiguous start ws end
    → region offset ws ≡ some bs
    → start ≤ offset
region-le offset start end [] bs c h = absurd (ground arith)
region-le offset start end ((o, xs) ∷ ws) bs c h =
    ground (arith, region-le offset (start + length xs) end ws bs c.1)

-- A slice at a region's offset, of the region's size, is the region.
pub slice-region :
    (offset start end size : ℕ) (ws : List (ℕ × Bytes)) (bs : Bytes)
    → Contiguous start ws end
    → region offset ws ≡ some bs
    → length bs ≡ size
    → slice (offset - start) size (joined ws) ≡ bs
unfolding slice joined
slice-region offset start end size [] bs c h l = absurd (ground arith)
slice-region offset start end size ((o, xs) ∷ ws) bs c h l = elim (Bool-cases (o == offset)) [
  | inl here ↦
      let none_left : offset - start ≡ 0 = ground arith in
      let same : xs ≡ bs = ground arith in rw (none_left, same, ← l) (take-append bs (joined ws))
  | inr past ↦
      let later : region offset ws ≡ some bs = ground arith in
      let beyond = region-le offset (start + length xs) end ws bs c.1 later in
      let split : offset - start ≡ length xs + (offset - (start + length xs)) = omega arith in
      rw (split, drop-append xs (joined ws) (offset - (start + length xs)))
        (slice-region offset (start + length xs) end size ws bs c.1 later l)
]

-- A byte is its slice of one.
pub byte_at-slice : (i : ℕ) (bytes : Bytes) (b : ℕ) → slice i 1 bytes ≡ b ∷ [] → byte_at i bytes ≡ b
unfolding slice byte_at
byte_at-slice zero [] b h = absurd (ground arith)
byte_at-slice zero (x ∷ xs) b h = ground arith
byte_at-slice (suc i) [] b h = absurd (ground arith)
byte_at-slice (suc i) (x ∷ xs) b h = byte_at-slice i xs b h
