-- ===== src/Claims/Compare.antt =====
-- The comparison of two preimages misses no byte: the fields of the layout cover them.
use core_flow.Prelude.{
  ℕ, zero, suc, ◌+◌, ◌≡◌, refl, sym, ap, ◌∙◌, ◌↔◌, inl, inr, List, [], ◌∷◌, ◌++◌, ◌==◌, nat_eq,
  eq_self, length, Bool-cases, arith,
}
use core_flow.Prelude.Bytes.{Bytes, take, drop, slice, every_same, every_same-eq, every_same_self}
use core_flow.Claims.Types.{invalid_input, ok}
use core_flow.Claims.Layout.{PreimageField, preimage_layout}
use core_flow.Claims.Encode.{require, assert_bytes}
use core_flow.Claims.Shape.{ok_inj}
use core_flow.Claims.Decode.{field_diffs, compare_preimages}

-- The fields of a layout lie side by side from `start` to `end`.
abbrev Covers : ℕ → List PreimageField → ℕ → Type 0
Covers start [] end = start ≡ end
Covers start (f ∷ fs) end = (f.offset ≡ start) × Covers (start + f.size) fs end

take-drop : (n : ℕ) (xs : Bytes) → take n xs ++ drop n xs ≡ xs
take-drop zero xs = refl
take-drop (suc n) [] = refl
take-drop (suc n) (x ∷ xs) = ap (λ t. x ∷ t) (take-drop n xs)

drop-nil : (n : ℕ) → drop {A = ℕ} n [] ≡ []
drop-nil zero = refl
drop-nil (suc n) = refl

drop-drop : (m n : ℕ) (xs : Bytes) → drop n (drop m xs) ≡ drop (m + n) xs
drop-drop zero n xs = ap (λ k. drop k xs) (omega arith)
drop-drop (suc m) n [] = drop-nil n ∙ sym (drop-nil (suc m + n))
drop-drop (suc m) n (x ∷ xs) =
    let grown : suc m + n ≡ suc (m + n) = omega arith in rw grown (drop-drop m n xs)

drop_all : (xs : Bytes) → drop (length xs) xs ≡ []
drop_all [] = refl
drop_all (x ∷ xs) = drop_all xs

length-slice :
    (o n : ℕ) (a b : Bytes) → length a ≡ length b → length (slice o n a) ≡ length (slice o n b)
unfolding slice
length-slice zero zero a b h = refl
length-slice zero (suc n) [] [] h = refl
length-slice zero (suc n) [] (y ∷ b) h = absurd (omega arith)
length-slice zero (suc n) (x ∷ a) [] h = absurd (omega arith)
length-slice zero (suc n) (x ∷ a) (y ∷ b) h = ap suc (length-slice zero n a b (omega arith))
length-slice (suc o) n [] [] h = refl
length-slice (suc o) n [] (y ∷ b) h = absurd (omega arith)
length-slice (suc o) n (x ∷ a) [] h = absurd (omega arith)
length-slice (suc o) n (x ∷ a) (y ∷ b) h = length-slice o n a b (omega arith)

no_diffs-drop :
    (start end : ℕ) (fs : List PreimageField) (a b : Bytes)
    → Covers start fs end
    → length a ≡ end
    → length a ≡ length b
    → field_diffs fs a b ≡ []
    → drop start a ≡ drop start b
unfolding field_diffs slice
no_diffs-drop start end [] a b c l h d =
    let ea : start ≡ length a = omega arith in
    let eb : start ≡ length b = omega arith in
    ap (λ k. drop k a) ea ∙ drop_all a ∙ sym (drop_all b) ∙ ap (λ k. drop k b) (sym eb)
no_diffs-drop start end (f ∷ fs) a b c l h d =
    elim (Bool-cases (every_same (slice f.offset f.size a) (slice f.offset f.size b))) [
      | inr differ ↦ absurd (ground arith)
      | inl same ↦
          let rest : field_diffs fs a b ≡ [] = ground arith in
          let head =
            every_same-eq (slice f.offset f.size a) (slice f.offset f.size b)
              (length-slice f.offset f.size a b h) same in
          let later = no_diffs-drop (start + f.size) end fs a b c.1 l h rest in
          let whole = λ (xs : Bytes).
            sym (take-drop f.size (drop start xs))
            ∙ ap (λ t. take f.size (drop start xs) ++ t) (drop-drop start f.size xs) in
          let front : take f.size (drop start a) ≡ take f.size (drop start b) =
            ap (λ k. take f.size (drop k a)) (sym c.0)
            ∙ head
            ∙ ap (λ k. take f.size (drop k b)) c.0 in
          whole a ∙ (λ i. front i ++ later i) ∙ sym (whole b)
    ]

field_diffs_self : (fs : List PreimageField) (a : Bytes) → field_diffs fs a a ≡ []
unfolding field_diffs
field_diffs_self [] a = refl
field_diffs_self (f ∷ fs) a = rw (every_same_self (slice f.offset f.size a)) (field_diffs_self fs a)

-- Two arrays of 256 bytes are compared without a difference exactly when they are the same bytes.
pub compare_preimages-nil :
    (a b : Bytes) → length a ≡ 256 → length b ≡ 256 → (compare_preimages a b ≡ ok []) ↔ (a ≡ b)
unfolding compare_preimages assert_bytes
compare_preimages-nil a b la lb =
    let sized : (n : ℕ) → n ≡ 256 → require (n == 256) invalid_input ≡ ok tt =
      λ n e. rw e (ap (λ t. require t invalid_input) (eq_self {A = ℕ} 256)) in
    let checked : compare_preimages a b ≡ ok (field_diffs preimage_layout a b) =
      rw (sized (length a) la, sized (length b) lb) in
    (
      λ h.
          no_diffs-drop 0 256 preimage_layout a b covers la (la ∙ sym lb)
            (ok_inj (sym checked ∙ h)),
      λ same.
          checked
          ∙ ap ok
              (ap (field_diffs preimage_layout a) (sym same) ∙ field_diffs_self preimage_layout a),
    )
  where
    covers : Covers 0 preimage_layout 256
    covers = omega arith
