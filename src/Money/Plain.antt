-- ===== src/Money/Plain.antt =====
-- The characters of a printed amount survive the reader's cleaning, and its point splits it.
use core_flow.Prelude.{
  ℕ, ◌≡◌, refl, ap, ◌∙◌, Bool, true, false, ◌&&◌, ◌||◌, not, [], ◌∷◌, ◌++◌, none, some, ◌==◌,
  nat_eq, all, filter, arith, ℕ_discrete,
}
use mathlib.Core.List.{reverse, reverse-append, reverse-reverse}
use core_flow.Prelude.Text.{is_space, trim, trim_start}
use core_flow.Money.Amount.{Text, is_digit, is_comma, split_point}

-- The characters of a printed amount.
abbrev pub is_plain : ℕ → Bool
is_plain c = is_digit c || c == 46 || c == 45

pub and_parts : (a b : Bool) → (a && b) ≡ true → (a ≡ true) × (b ≡ true)
and_parts a b h = ground arith

pub not_mark : (c : ℕ) → is_digit c ≡ true → ((c == 46) ≡ false) × ((c == 45) ≡ false)
not_mark c h = ground arith

plain_kept : (c : ℕ) → is_plain c ≡ true → (is_space c ≡ false) × (is_comma c ≡ false)
plain_kept c h = ground arith

pub filter-plain : (s : Text) → all is_plain s ≡ true → filter (λ c. not (is_comma c)) s ≡ s
filter-plain [] h = refl
filter-plain (c ∷ s) h =
    let both = and_parts (is_plain c) (all is_plain s) h in
    rw ((plain_kept c both.0).1) (ap (λ t. c ∷ t) (filter-plain s both.1))

trim_start-plain : (s : Text) → all is_plain s ≡ true → trim_start s ≡ s
unfolding trim_start
trim_start-plain [] h = refl
trim_start-plain (c ∷ s) h =
    let both = and_parts (is_plain c) (all is_plain s) h in rw ((plain_kept c both.0).0) refl

pub plain-append :
    (xs ys : Text)
    → all is_plain xs ≡ true
    → all is_plain ys ≡ true
    → all is_plain (xs ++ ys) ≡ true
plain-append [] ys h k = k
plain-append (x ∷ xs) ys h k = ground (arith, plain-append xs ys)

reverse-plain : (s : Text) → all is_plain s ≡ true → all is_plain (reverse s) ≡ true
reverse-plain [] h = refl
reverse-plain (c ∷ s) h =
    let both = and_parts (is_plain c) (all is_plain s) h in
    ap (all is_plain) (reverse-append (c ∷ []) s)
    ∙ plain-append (reverse s) (c ∷ []) (reverse-plain s both.1) (rw (both.0) refl)

pub trim-plain : (s : Text) → all is_plain s ≡ true → trim s ≡ s
unfolding trim
trim-plain s h =
    rw (trim_start-plain s h)
      (rw (trim_start-plain (reverse s) (reverse-plain s h)) (reverse-reverse s))

pub digits-plain : (s : Text) → all is_digit s ≡ true → all is_plain s ≡ true
digits-plain [] h = refl
digits-plain (c ∷ s) h = ground (arith, digits-plain s)

pub split_point-digits :
    (whole fraction : Text)
    → all is_digit whole ≡ true
    → split_point (whole ++ 46 ∷ fraction) ≡ (whole, some fraction)
unfolding split_point ℕ_discrete
split_point-digits [] fraction h = refl
split_point-digits (c ∷ whole) fraction h =
    let both = and_parts (is_digit c) (all is_digit whole) h in
    let next = split_point-digits whole fraction both.1 in rw ((not_mark c both.0).0, next) refl

pub split_point-whole :
    (whole : Text) → all is_digit whole ≡ true → split_point whole ≡ (whole, none)
unfolding split_point
split_point-whole [] h = refl
split_point-whole (c ∷ whole) h =
    let both = and_parts (is_digit c) (all is_digit whole) h in
    rw ((not_mark c both.0).0, split_point-whole whole both.1) refl
