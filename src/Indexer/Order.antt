-- ===== src/Indexer/Order.antt =====
-- The order of a batch of events, `ordered` in `processBatch` of src/lib/indexer/index.ts.
use core_flow.Prelude.{
  String, string_eq, nat_eq, ◌≡◌, refl, sym, ◌∙◌, ap, Bool, true, false, List, [], ◌∷◌, map, arith,
}
use mathlib.Core.List.{Permᴰ}
use core_flow.Indexer.World.{Database}
use core_flow.Indexer.Batch.{
  RawIndexedEvent, Deps, Faults, comes_before, insert, sort, process_batch,
}

-- A comparison that orders all values and tells different ones apart.
pub record IsTotalOrder {A : Type 0} (le : A → A → Bool) : Type 0 where
  pub total : (a b : A) → le a b ≡ false → le b a ≡ true
  pub transitive : (a b c : A) → le a b ≡ true → le b c ≡ true → le a c ≡ true
  pub antisymmetric : (a b : A) → le a b ≡ true → le b a ≡ true → a ≡ b

module _ {A : Type 0} (le : A → A → Bool) (order : IsTotalOrder le) where
  insert_comm : (a b : A) (l : List A) → insert le a (insert le b l) ≡ insert le b (insert le a l)
  unfolding insert
  insert_comm a b [] = ground (arith, order.total a b, order.total b a, order.antisymmetric a b)
  insert_comm a b (x ∷ l) = ground (
    arith,
    order.total a b,
    order.total b a,
    order.antisymmetric a b,
    order.transitive a b x,
    order.transitive b a x,
    order.total a x,
    order.total b x,
    insert_comm a b l,
  )

  pub sort-Perm : {xs ys : List A} → Permᴰ xs ys → sort le xs ≡ sort le ys
  unfolding sort
  sort-Perm Permᴰ.nil = refl
  sort-Perm (Permᴰ.cons e d) = λ i. insert le (e i) (sort-Perm d i)
  sort-Perm (Permᴰ.swap {a = a} {b = b} {l = l} e f) =
      insert_comm a b (sort le l) ∙ (λ i. insert le (f i) (insert le (e i) (sort le l)))
  sort-Perm (Permᴰ.trans p q) = sort-Perm p ∙ sort-Perm q

module _ {A B : Type 0} (le : B → B → Bool) (f : A → B) where
  abbrev pub pulled : A → A → Bool
  pulled a b = le (f a) (f b)

  insert-map : (x : A) (xs : List A) → insert le (f x) (map f xs) ≡ map f (insert pulled x xs)
  unfolding insert
  insert-map x [] = refl
  insert-map x (y ∷ ys) = ground (arith, insert-map x ys)

  sort-map : (xs : List A) → sort le (map f xs) ≡ map f (sort pulled xs)
  unfolding sort
  sort-map [] = refl
  sort-map (x ∷ xs) = ap (insert le (f x)) (sort-map xs) ∙ insert-map x (sort pulled xs)

-- The comparison of the ids tells the events of the log apart, and orders them totally.
abbrev pub OrdersIds : {A : Type 0} → (String → String → Bool) → (A → RawIndexedEvent) → Type 0
OrdersIds le log = IsTotalOrder (pulled le (λ a. (log a).id))

-- Then so does the comparison by ledger and, within a ledger, by id.
comes_before-IsTotalOrder :
    {A : Type 0} (le : String → String → Bool) (log : A → RawIndexedEvent)
    → OrdersIds le log
    → IsTotalOrder (pulled (comes_before le) log)
comes_before-IsTotalOrder le log ids = record {
  total = λ a b h. ground (arith, ids.total a b);
  transitive = λ a b c h k. ground (arith, ids.transitive a b c);
  antisymmetric = λ a b h k. ground (arith, ids.antisymmetric a b);
}

-- Where `localeCompare` orders the ids of a log totally and tells them apart, the order in which a
-- batch of the log's events is delivered does not matter, also of events of one ledger: the same
-- outcome and the same database.
pub process_batch-Perm :
    {A : Type 0} (deps : Deps) (fault : Faults) (log : A → RawIndexedEvent) (xs ys : List A)
    (db : Database)
    → OrdersIds deps.locale_le log
    → Permᴰ xs ys
    → process_batch (map log xs) deps fault db ≡ process_batch (map log ys) deps fault db
unfolding process_batch
process_batch-Perm deps fault log xs ys db ids perm =
    let le = comes_before deps.locale_le in
    let order = comes_before-IsTotalOrder deps.locale_le log ids in
    let same : sort le (map log xs) ≡ sort le (map log ys) =
      sort-map le log xs
      ∙ ap (map log) (sort-Perm (pulled le log) order perm)
      ∙ sym (sort-map le log ys) in
    rw same refl
