-- ===== src/Prelude/Table.antt =====
-- A database table as the client of `lib/payments/__tests__/fake-db.ts` keeps it: its rows in
-- the order of their creation, read and written through row tests.
use Prim.Native.Nat.{ℕ, suc, ◌+◌, ◌≤◌}
use mathlib.Core.Path.{◌≡◌, refl}
use mathlib.Core.Logic.{inl, inr}
use core_flow.Prelude.Equality.{◌==◌, nat_eq}
use mathlib.Core.Bool.{Bool, true, false}
use mathlib.Core.Option.{Option, none, some}
use mathlib.Core.List.{List, [], ◌∷◌, ◌++◌, map}
use native.Mathlib.Omega.{arith}
use core_flow.Prelude.Tests.{if◌then◌else◌, Bool-cases}
use core_flow.Prelude.Lists.{length, find?, filter, Member}

module _ {ℓ} {R : Type ℓ} where
  -- The first row that passes: `findFirst`, and `findUnique` where the columns are a key.
  abbrev pub find_first : (R → Bool) → List R → Option R
  find_first = find?

  abbrev pub count : (R → Bool) → List R → ℕ
  count p rows = length (filter p rows)

  abbrev pub create : R → List R → List R
  create r rows = rows ++ r ∷ []

  abbrev pub update_rows : (R → Bool) → (R → R) → List R → List R
  update_rows p f = map (λ r. if p r then f r else r)

  -- Every row that passes is rewritten, and the number of them is returned.
  abbrev pub update_many : (R → Bool) → (R → R) → List R → List R × ℕ
  update_many p f rows = (update_rows p f rows, count p rows)

  -- The first row that passes is rewritten; a new one is added if there is none.
  abbrev pub upsert : (R → Bool) → R → (R → R) → List R → List R
  upsert p new f [] = new ∷ []
  upsert p new f (r ∷ rows) = let rest = upsert p new f rows in if p r then f r ∷ rows else r ∷ rest

  -- `update`: the first row that passes is rewritten.
  abbrev pub update : (R → Bool) → (R → R) → List R → List R
  update p f [] = []
  update p f (r ∷ rows) = let rest = update p f rows in if p r then f r ∷ rows else r ∷ rest

module _ {ℓ} {R : Type ℓ} where
  -- No row passes: nothing is written.
  pub update_rows_idle :
      (p : R → Bool) (f : R → R) (rows : List R) → count p rows ≡ 0 → update_rows p f rows ≡ rows
  update_rows_idle p f [] h = refl
  update_rows_idle p f (r ∷ rows) h = ground (arith, update_rows_idle p f rows)

  pub length-update_rows :
      (p : R → Bool) (f : R → R) (rows : List R) → length (update_rows p f rows) ≡ length rows
  length-update_rows p f [] = refl
  length-update_rows p f (r ∷ rows) = ground (arith, length-update_rows p f rows)

  -- A test that the rewriting keeps is passed by as many rows as before.
  pub count-update_rows :
      (p q : R → Bool) (f : R → R)
      → ((r : R) → p r ≡ true → q (f r) ≡ q r)
      → (rows : List R) → count q (update_rows p f rows) ≡ count q rows
  count-update_rows p q f keep [] = refl
  count-update_rows p q f keep (r ∷ rows) =
      ground (arith, keep r, count-update_rows p q f keep rows)

  pub find?-update_rows :
      (p q : R → Bool) (f : R → R)
      → ((r : R) → p r ≡ true → q (f r) ≡ q r)
      → (rows : List R)
      → find_first q (update_rows p f rows)
        ≡ elim (find_first q rows) [ none ↦ none | some r ↦ some (if p r then f r else r) ]
  find?-update_rows p q f keep [] = refl
  find?-update_rows p q f keep (r ∷ rows) =
      ground (arith, keep r, find?-update_rows p q f keep rows)

  pub length-create : (r : R) (rows : List R) → length (create r rows) ≡ suc (length rows)
  length-create r [] = refl
  length-create r (x ∷ rows) = ground (arith, length-create r rows)

  pub count-create :
      (p : R → Bool) (r : R) (rows : List R)
      → count p (create r rows) ≡ (if p r then suc (count p rows) else count p rows)
  count-create p r [] = ground arith
  count-create p r (x ∷ rows) = ground (arith, count-create p r rows)

module _ {R : Type 0} where
  pub find_first-create :
      (p : R → Bool) (a : R) (rows : List R)
      → find_first p (create a rows) ≡ elim (find_first p rows) [
        | some r ↦ some r
        | none ↦ elim (p a) [ true ↦ some a | false ↦ none ]
      ]
  find_first-create p a [] = ground arith
  find_first-create p a (r ∷ rows) = ground (arith, find_first-create p a rows)

-- Two tables that hold row for row what the relation allows.
abbrev pub Rows : {R : Type 0} → (R → R → Type 0) → List R → List R → Type 0
Rows P [] [] = Unit
Rows P [] (y ∷ ys) = ⊥
Rows P (x ∷ xs) [] = ⊥
Rows P (x ∷ xs) (y ∷ ys) = P x y × Rows P xs ys

module _ {R : Type 0} where
  pub Rows-refl : (P : R → R → Type 0) → ((r : R) → P r r) → (rows : List R) → Rows P rows rows
  Rows-refl P h [] = tt
  Rows-refl P h (r ∷ rows) = (h r, Rows-refl P h rows)

  pub Rows-trans :
      (P Q S : R → R → Type 0)
      → ((x y z : R) → P x y → Q y z → S x z)
      → (xs ys zs : List R) → Rows P xs ys
      → Rows Q ys zs
      → Rows S xs zs
  Rows-trans P Q S h [] [] [] p q = tt
  Rows-trans P Q S h [] [] (z ∷ zs) p q = absurd q
  Rows-trans P Q S h [] (y ∷ ys) zs p q = absurd p
  Rows-trans P Q S h (x ∷ xs) [] zs p q = absurd p
  Rows-trans P Q S h (x ∷ xs) (y ∷ ys) [] p q = absurd q
  Rows-trans P Q S h (x ∷ xs) (y ∷ ys) (z ∷ zs) p q =
      (h x y z p.0 q.0, Rows-trans P Q S h xs ys zs p.1 q.1)

  pub Rows-update_rows :
      (P : R → R → Type 0) (p : R → Bool) (f : R → R)
      → ((r : R) → P r r)
      → ((r : R) → p r ≡ true → P r (f r))
      → (rows : List R) → Rows P rows (update_rows p f rows)
  Rows-update_rows P p f same step [] = tt
  Rows-update_rows P p f same step (r ∷ rows) = elim (Bool-cases (p r)) [
    | inl hit ↦ rw hit (step r hit, Rows-update_rows P p f same step rows)
    | inr miss ↦ rw miss (same r, Rows-update_rows P p f same step rows)
  ]

  pub Rows-update_rows_split :
      (P : R → R → Type 0) (p : R → Bool) (f : R → R)
      → ((r : R) → p r ≡ true → P r (f r))
      → ((r : R) → p r ≡ false → P r r)
      → (rows : List R) → Rows P rows (update_rows p f rows)
  Rows-update_rows_split P p f step same [] = tt
  Rows-update_rows_split P p f step same (r ∷ rows) = elim (Bool-cases (p r)) [
    | inl hit ↦ rw hit (step r hit, Rows-update_rows_split P p f step same rows)
    | inr miss ↦ rw miss (same r miss, Rows-update_rows_split P p f step same rows)
  ]

  -- Where a test counts some row, it finds one.
  pub count-find_first :
      (p q : R → Bool)
      → ((r : R) → p r ≡ q r)
      → (rows : List R) → (count p rows == 0) ≡ false
      → (r : R) × (find_first q rows ≡ some r)
  count-find_first p q same [] h = absurd (ground arith)
  count-find_first p q same (r ∷ rows) h = elim (Bool-cases (p r)) [
    | inl hit ↦ (r, ground (arith, same r))
    | inr miss ↦
        let rest = count-find_first p q same rows (ground arith) in
        (rest.0, ground (arith, same r, rest.1))
  ]

  -- Rows that are not written are read back as they were.
  pub filter-update_rows :
      (p q : R → Bool) (f : R → R)
      → ((r : R) → p r ≡ true → (q r ≡ false) × (q (f r) ≡ false))
      → (rows : List R) → filter q (update_rows p f rows) ≡ filter q rows
  filter-update_rows p q f apart [] = refl
  filter-update_rows p q f apart (r ∷ rows) =
      ground (arith, apart r, filter-update_rows p q f apart rows)

  -- An update rewrites the first row that passes; a count changes by that row alone.
  pub count-update :
      (p q : R → Bool) (f : R → R) (rows : List R) (r : R)
      → find_first p rows ≡ some r
      → count q (update p f rows) + (if q r then 1 else 0)
        ≡ count q rows + (if q (f r) then 1 else 0)
  count-update p q f [] r found = absurd (ground arith)
  count-update p q f (x ∷ rows) r found = ground (arith, count-update p q f rows r)

  -- An update leaves the count of rows that it does not touch.
  pub count-update_apart :
      (p q : R → Bool) (f : R → R)
      → ((r : R) → p r ≡ true → (q r ≡ false) × (q (f r) ≡ false))
      → (rows : List R) → count q (update p f rows) ≡ count q rows
  count-update_apart p q f apart [] = refl
  count-update_apart p q f apart (x ∷ rows) =
      ground (arith, apart x, count-update_apart p q f apart rows)

  pub count_le :
      (p q : R → Bool)
      → ((r : R) → p r ≡ true → q r ≡ true)
      → (rows : List R) → count p rows ≤ count q rows
  count_le p q h [] = omega arith
  count_le p q h (x ∷ rows) = ground (arith, h x, count_le p q h rows)

  pub count-update_rows_none :
      (p : R → Bool) (f : R → R)
      → ((r : R) → p r ≡ true → p (f r) ≡ false)
      → (rows : List R) → count p (update_rows p f rows) ≡ 0
  count-update_rows_none p f h [] = refl
  count-update_rows_none p f h (x ∷ rows) = ground (arith, h x, count-update_rows_none p f h rows)

  -- A row that is found is still found, related, where the relation keeps the test.
  pub Rows-find_first :
      (P : R → R → Type 0) (q : R → Bool)
      → ((x y : R) → P x y → q y ≡ q x)
      → (xs ys : List R) (x : R) → Rows P xs ys
      → find_first q xs ≡ some x
      → (y : R) × (find_first q ys ≡ some y) × P x y
  Rows-find_first P q keep [] ys x rows found = absurd (ground arith)
  Rows-find_first P q keep (a ∷ xs) [] x rows found = absurd rows
  Rows-find_first P q keep (a ∷ xs) (b ∷ ys) x rows found = elim (Bool-cases (q a)) [
    | inl hit ↦
        let same : a ≡ x = ground arith in (b, ground (arith, keep a b rows.0), rw (← same) rows.0)
    | inr miss ↦
        let rest = Rows-find_first P q keep xs ys x rows.1 (ground arith) in
        (rest.0, ground (arith, keep a b rows.0, rest.1), rest.2)
  ]

  pub find_first-append :
      (p : R → Bool) (xs ys : List R) (x : R)
      → find_first p xs ≡ some x
      → find_first p (xs ++ ys) ≡ some x
  find_first-append p [] ys x found = absurd (ground arith)
  find_first-append p (a ∷ xs) ys x found = ground (arith, find_first-append p xs ys x)

  -- Rows that fail a test that the searched row passes do not matter to the search.
  pub find_first-filter :
      (p q : R → Bool)
      → ((r : R) → q r ≡ true → p r ≡ true)
      → (rows : List R) → find_first q (filter p rows) ≡ find_first q rows
  find_first-filter p q h [] = refl
  find_first-filter p q h (r ∷ rows) = ground (arith, h r, find_first-filter p q h rows)

  pub Rows-weaken :
      (P Q : R → R → Type 0) (xs ys : List R)
      → ((x y : R) → Member x xs → P x y → Q x y)
      → Rows P xs ys
      → Rows Q xs ys
  Rows-weaken P Q [] [] h rows = tt
  Rows-weaken P Q [] (y ∷ ys) h rows = rows
  Rows-weaken P Q (x ∷ xs) [] h rows = rows
  Rows-weaken P Q (x ∷ xs) (y ∷ ys) h rows =
      (h x y (inl refl) rows.0, Rows-weaken P Q xs ys (λ a b m. h a b (inr m)) rows.1)
