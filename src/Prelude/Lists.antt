-- ===== src/Prelude/Lists.antt =====
-- Lists measured by native numbers and searched by Boolean tests, as the array methods `find`,
-- `filter`, `some`, `every` and `includes` do.
use Prim.Native.Nat.{ℕ, suc, ◌+◌, ◌≤◌}
use mathlib.Core.Path.{◌≡◌, refl, sym}
use mathlib.Core.Logic.{◌⊎◌, inl, inr}
use mathlib.Core.Bool.{Bool, true, false, ◌&&◌, ◌||◌}
use mathlib.Core.Option.{Option, none, some}
use mathlib.Core.List.{List, [], ◌∷◌, ◌++◌}
use native.Mathlib.Omega.{arith}
use core_flow.Prelude.Tests.{if◌then◌else◌, Bool-cases}
use core_flow.Prelude.Equality.{Eq, ◌==◌, eq-eq_true}

module _ {ℓ} {A : Type ℓ} where
  abbrev pub length : List A → ℕ
  length [] = 0
  length (x ∷ xs) = suc (length xs)

  abbrev pub find? : (A → Bool) → List A → Option A
  find? p [] = none
  find? p (x ∷ xs) = if p x then some x else find? p xs

  abbrev pub filter : (A → Bool) → List A → List A
  filter p [] = []
  filter p (x ∷ xs) = let rest = filter p xs in if p x then x ∷ rest else rest

  abbrev pub any : (A → Bool) → List A → Bool
  any p [] = false
  any p (x ∷ xs) = p x || any p xs

  abbrev pub all : (A → Bool) → List A → Bool
  all p [] = true
  all p (x ∷ xs) = p x && all p xs

  abbrev pub All {κ} : (A → Type κ) → List A → Type κ
  All P [] = Unit
  All P (x ∷ xs) = P x × All P xs

-- The value stands in the list.
abbrev pub Member : {A : Type 0} → A → List A → Type 0
Member a [] = ⊥
Member a (x ∷ xs) = (a ≡ x) ⊎ Member a xs

module _ {ℓ} {A : Type ℓ} where
  pub length-append : (xs ys : List A) → length (xs ++ ys) ≡ length xs + length ys
  length-append [] ys = omega arith
  length-append (x ∷ xs) ys = omega (arith, length-append xs ys)

  pub find?-passes : (p : A → Bool) (xs : List A) (a : A) → find? p xs ≡ some a → p a ≡ true
  find?-passes p [] a h = ground arith
  find?-passes p (x ∷ xs) a h = ground (arith, find?-passes p xs a)

  pub find?-none : (p : A → Bool) (xs : List A) → find? p xs ≡ none → any p xs ≡ false
  find?-none p [] h = refl
  find?-none p (x ∷ xs) h = ground (arith, find?-none p xs)

  pub filter-nil : (p : A → Bool) (xs : List A) → any p xs ≡ false → filter p xs ≡ []
  filter-nil p [] h = refl
  filter-nil p (x ∷ xs) h = ground (arith, filter-nil p xs)

  pub length-filter : (p : A → Bool) (xs : List A) → length (filter p xs) ≤ length xs
  length-filter p [] = omega arith
  length-filter p (x ∷ xs) = ground (arith, length-filter p xs)

module _ {A : Type 0} where
  pub Member-filter :
      (p : A → Bool) (a : A) (xs : List A) → Member a (filter p xs) → Member a xs × (p a ≡ true)
  Member-filter p a [] m = absurd m
  Member-filter p a (x ∷ xs) m = ground (arith, Member-filter p a xs)

  pub Member-filter_intro :
      (p : A → Bool) (a : A) (xs : List A) → Member a xs → p a ≡ true → Member a (filter p xs)
  Member-filter_intro p a [] m h = absurd m
  Member-filter_intro p a (x ∷ xs) m h = ground (arith, Member-filter_intro p a xs)

  pub find?-Member : (p : A → Bool) (xs : List A) (a : A) → find? p xs ≡ some a → Member a xs
  find?-Member p [] a h = ground arith
  find?-Member p (x ∷ xs) a h = ground (arith, find?-Member p xs a)

  pub any-Member : (p : A → Bool) (a : A) (xs : List A) → Member a xs → p a ≡ true → any p xs ≡ true
  any-Member p a [] m h = absurd m
  any-Member p a (x ∷ xs) m h = ground (arith, any-Member p a xs)

  pub All-Member {κ} : (P : A → Type κ) (xs : List A) → ((a : A) → Member a xs → P a) → All P xs
  All-Member P [] h = tt
  All-Member P (x ∷ xs) h = (h x (inl refl), All-Member P xs (λ a m. h a (inr m)))

-- `includes`
abbrev pub contains {ℓ} : {A : Type ℓ} ⦃e : Eq A⦄ → A → List A → Bool
contains a [] = false
contains a (x ∷ xs) = x == a || contains a xs

module _ {A : Type 0} ⦃e : Eq A⦄ where
  pub contains-Member : (a : A) (xs : List A) → contains a xs ≡ true → Member a xs
  contains-Member a [] h = cc
  contains-Member a (x ∷ xs) h = elim (Bool-cases (x == a)) [
    | inl same ↦ inl (sym (eq-eq_true x a same))
    | inr differ ↦ inr (contains-Member a xs (rw differ at h))
  ]

module _ {A : Type 0} where
  pub All-at : (P : A → Type 0) (a : A) (xs : List A) → All P xs → Member a xs → P a
  All-at P a [] h m = absurd m
  All-at P a (x ∷ xs) h m = elim m [ inl same ↦ rw same h.0 | inr later ↦ All-at P a xs h.1 later ]
