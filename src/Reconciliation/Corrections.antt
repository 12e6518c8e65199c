-- ===== src/Reconciliation/Corrections.antt =====
-- What a run over the failed transactions may change.
use core_flow.Prelude.{
  ℕ, zero, suc, ◌+◌, ◌≤◌, ◌≡◌, refl, sym, ap, ◌∙◌, ◌⊎◌, inl, inr, String, string_eq, Bool, true,
  List, [], ◌∷◌, Option, ◌==◌, eq-eq_true, filter, length, All, All-Member, Member, Member-filter,
  if◌then◌else◌, Bool-cases, arith,
}
use mathlib.Core.Path.{subst}
use core_flow.Prelude.Table.{Rows, Rows-refl, Rows-trans, Rows-weaken}
use core_flow.Prelude.Bytes.{take}
use core_flow.Payments.Store.{confirmed, BlockchainTransaction}
use core_flow.Reconciliation.Findings.{ReconciliationFinding, Books, record_finding}
use core_flow.Reconciliation.Failed.{
  is_failed, failed_transactions, correct, correct_failure, succeeded, correct_failures,
  reconcile_failed_transactions,
}

record_finding-store :
    (f : ReconciliationFinding) (b : Books) → (record_finding f b).1.store ≡ b.store
unfolding record_finding
record_finding-store f b = ground arith

-- A row after the run: as it was, or confirmed, where it is itself a failed transaction of the
-- organization and the chain confirms its own hash.
abbrev pub Corrected :
    (String → Option Bool) → String → BlockchainTransaction → BlockchainTransaction → Type 0
Corrected fetch org a b =
    (b ≡ a)
    ⊎ ((b ≡ record a { status = confirmed })
        × (is_failed org a ≡ true)
        × (succeeded fetch org a ≡ true))

-- The id is a key.
abbrev pub IdIsKey : List BlockchainTransaction → Type 0
IdIsKey rows = (s t : BlockchainTransaction) → Member s rows → Member t rows → s.id ≡ t.id → s ≡ t

module _ (fetch : String → Option Bool) (org : String) (table : List BlockchainTransaction) where
  abbrev IsLoaded : BlockchainTransaction → Type 0
  IsLoaded tx = Member tx table × (is_failed org tx ≡ true)

  -- A row after the run, by the loaded transaction that has its id.
  abbrev Confirmed : BlockchainTransaction → BlockchainTransaction → Type 0
  Confirmed a b =
      (b ≡ a)
      ⊎ ((b ≡ record a { status = confirmed })
          × (tx : BlockchainTransaction) × (tx.id ≡ a.id)
          × IsLoaded tx
          × (succeeded fetch org tx ≡ true))

  Confirmed-trans : (a b c : BlockchainTransaction) → Confirmed a b → Confirmed b c → Confirmed a c
  Confirmed-trans a b c p q = elim p [
    | inl e ↦ subst (λ x. Confirmed x c) e q
    | inr changed ↦
        let (first, tx, same, f, s) = changed in
        elim q [
          | inl e ↦ inr (e ∙ first, tx, same, f, s)
          | inr again ↦ inr (
            again.0 ∙ ap {A = BlockchainTransaction} (λ t. record t { status = confirmed }) first,
            tx,
            same,
            f,
            s,
          )
        ]
  ]

  correct-Confirmed :
      (tx : BlockchainTransaction) (rows : List BlockchainTransaction)
      → IsLoaded tx
      → succeeded fetch org tx ≡ true
      → Rows Confirmed rows (correct tx.id rows)
  correct-Confirmed tx [] f s = tt
  correct-Confirmed tx (r ∷ rows) f s = elim (Bool-cases (r.id == tx.id)) [
    | inl hit ↦ rw hit (
      inr (refl, tx, sym (eq-eq_true r.id tx.id hit), f, s),
      Rows-refl Confirmed (λ r. inl refl) rows,
    )
    | inr miss ↦ rw miss (inl refl, correct-Confirmed tx rows f s)
  ]

  -- What a run leaves of the tables.
  record Kept (before after : Books) (bound n : ℕ) : Type 0 where
    rows : Rows Confirmed before.store.transactions after.store.transactions
    payments : after.store.payments ≡ before.store.payments
    counted : n ≤ bound

  correct_failure-Kept :
      (tx : BlockchainTransaction) (b : Books)
      → IsLoaded tx
      → succeeded fetch org tx ≡ true
      → Rows Confirmed b.store.transactions (correct_failure org tx b).store.transactions
        × ((correct_failure org tx b).store.payments ≡ b.store.payments)
  unfolding correct_failure
  correct_failure-Kept tx b f s =
      let same = record_finding-store _ b in
      (rw same (correct-Confirmed tx b.store.transactions f s), ap (λ s. s.payments) same)

  -- What a run has kept, by whether the chain confirms the first transaction.
  abbrev Advanced : BlockchainTransaction → List BlockchainTransaction → Books → ℕ → Bool → Type 0
  Advanced tx rest b n x =
      let s = if x then (correct_failure org tx b, suc n) else (b, n) in
      Kept b (correct_failures fetch org rest s).0 (n + length (tx ∷ rest))
        (correct_failures fetch org rest s).1

  correct_failures-Kept :
      (loaded : List BlockchainTransaction) (b : Books) (n : ℕ)
      → All IsLoaded loaded
      → Kept b
          (correct_failures fetch org loaded (b, n)).0
          (n + length loaded)
          (correct_failures fetch org loaded (b, n)).1
  unfolding correct_failures
  correct_failures-Kept [] b n h = record {
    rows = Rows-refl Confirmed (λ r. inl refl) b.store.transactions;
    payments = refl;
    counted = omega arith;
  }
  correct_failures-Kept (tx ∷ rest) b n h = elim (Bool-cases (succeeded fetch org tx)) [
    | inl yes_it ↦
        let first = correct_failure-Kept tx b h.0 yes_it in
        let later = correct_failures-Kept rest (correct_failure org tx b) (suc n) h.1 in
        subst (Advanced tx rest b n) (sym yes_it) (record {
          rows = Rows-trans Confirmed Confirmed Confirmed Confirmed-trans _ _ _ first.0 later.rows;
          payments = later.payments ∙ first.1;
          counted = (let c = later.counted in omega arith);
        })
    | inr not_it ↦
        let later = correct_failures-Kept rest b n h.1 in
        subst (Advanced tx rest b n) (sym not_it) (record {
          rows = later.rows;
          payments = later.payments;
          counted = (let c = later.counted in omega arith);
        })
  ]

take-All : {A : Type 0} (P : A → Type 0) (n : ℕ) (xs : List A) → All P xs → All P (take n xs)
take-All P zero xs h = tt
take-All P (suc n) [] h = tt
take-All P (suc n) (x ∷ xs) h = (h.0, take-All P n xs h.1)

failed_transactions-IsLoaded :
    (fetch : String → Option Bool) (org : String) (rows : List BlockchainTransaction)
    → All (IsLoaded fetch org rows) (failed_transactions org rows)
unfolding failed_transactions
failed_transactions-IsLoaded fetch org rows =
    take-All (IsLoaded fetch org rows) 200 (filter (is_failed org) rows) (
      All-Member (IsLoaded fetch org rows) (filter (is_failed org) rows)
        (λ t m. Member-filter (is_failed org) t rows m))

Confirmed-Corrected :
    (fetch : String → Option Bool) (org : String) (rows : List BlockchainTransaction)
    → IdIsKey rows
    → (a b : BlockchainTransaction) → Member a rows
    → Confirmed fetch org rows a b
    → Corrected fetch org a b
Confirmed-Corrected fetch org rows key a b m (inl same) = inl same
Confirmed-Corrected fetch org rows key a b m (inr changed) =
    let (now, tx, same, loaded, landed) = changed in
    let it : tx ≡ a = key tx a loaded.0 m same in inr (now, rw (← it) loaded.1, rw (← it) landed)

length-take : {A : Type 0} (n : ℕ) (xs : List A) → length (take n xs) ≤ n
length-take zero xs = omega arith
length-take (suc n) [] = omega arith
length-take (suc n) (x ∷ xs) = omega (arith, length-take n xs)

failed_transactions_few :
    (org : String) (rows : List BlockchainTransaction) → length (failed_transactions org rows) ≤ 200
unfolding failed_transactions
failed_transactions_few org rows = length-take 200 (filter (is_failed org) rows)

-- Where the ids of the transactions are a key, a run over the failed transactions of an
-- organization changes no payment, and leaves each transaction as it was or confirms it; the latter
-- only where that transaction was a failed one of the organization and the chain confirms its own
-- hash. At most 200 are checked, and no more are corrected than checked.
pub reconcile_failed_transactions-Corrected :
    (fetch : String → Option Bool) (org : String) (books : Books)
    → IdIsKey books.store.transactions
    → Rows
        (Corrected fetch org)
        books.store.transactions
        (reconcile_failed_transactions fetch org books).books.store.transactions
      × ((reconcile_failed_transactions fetch org books).books.store.payments
          ≡ books.store.payments)
      × ((reconcile_failed_transactions fetch org books).falsely_failed
          ≤ (reconcile_failed_transactions fetch org books).checked)
      × ((reconcile_failed_transactions fetch org books).checked ≤ 200)
unfolding reconcile_failed_transactions
reconcile_failed_transactions-Corrected fetch org books key =
    let rows = books.store.transactions in
    let k =
      correct_failures-Kept fetch org rows (failed_transactions org rows) books 0
        (failed_transactions-IsLoaded fetch org rows) in
    (
      Rows-weaken (Confirmed fetch org rows) (Corrected fetch org) rows _
          (Confirmed-Corrected fetch org rows key) k.rows,
      k.payments,
      (let c = k.counted in omega arith),
      failed_transactions_few org rows,
    )
