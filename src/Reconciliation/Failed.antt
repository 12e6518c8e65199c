-- ===== src/Reconciliation/Failed.antt =====
-- `reconcileFailedTransactions` of src/lib/payments/reconcile.ts. The chain is read through the
-- parameter `fetch`, and `none` is a read that threw. What the code writes in errorMessage is prose.
use core_flow.Prelude.{
  ℕ, suc, String, string_eq, Bool, true, false, ◌&&◌, List, [], ◌∷◌, Option, none, some, ◌==◌,
  filter, length, if◌then◌else◌,
}
use core_flow.Prelude.Table.{update}
use core_flow.Prelude.Bytes.{take}
use core_flow.Payments.Store.{confirmed, failed, tx_status_eq, BlockchainTransaction}
use core_flow.Reconciliation.Findings.{failed_tx_actually_succeeded, word, Books, record_finding}
use core_flow.Reconciliation.Reconcile.{finding}

abbrev pub has_hash : Option String → Bool
has_hash none = false
has_hash (some hash) = true

abbrev pub is_failed : String → BlockchainTransaction → Bool
is_failed org t = t.org_id == org && t.status == failed && has_hash t.hash

-- What the query returns, with its limit.
unfoldable pub failed_transactions :
    String → List BlockchainTransaction → List BlockchainTransaction
failed_transactions org rows = take 200 (filter (is_failed org) rows)

abbrev pub correct : String → List BlockchainTransaction → List BlockchainTransaction
correct id rows = update (λ t. t.id == id) (λ t. record t { status = confirmed }) rows

-- A transaction that the chain confirms.
unfoldable pub correct_failure : String → BlockchainTransaction → Books → Books
correct_failure org tx books =
    let noted =
      (record_finding
        (finding org tx.payment_id failed_tx_actually_succeeded (some (word "FAILED"))
          (some (word "SUCCESS")))
        books).1 in
    record noted {
      store = record noted.store { transactions = correct tx.id noted.store.transactions };
    }

pub record FailedReport : Type 0 where
  pub books : Books
  pub checked : ℕ
  pub falsely_failed : ℕ

abbrev pub is_true : Option Bool → Bool
is_true none = false
is_true (some b) = b

module _ (fetch : String → Option Bool) (org : String) where
  unfoldable pub succeeded : BlockchainTransaction → Bool
  succeeded tx = elim tx.hash [ none ↦ false | some hash ↦ is_true (fetch hash) ]

  unfoldable pub correct_failures : List BlockchainTransaction → Books × ℕ → Books × ℕ
  correct_failures [] s = s
  correct_failures (tx ∷ rest) s =
      correct_failures rest (if succeeded tx then (correct_failure org tx s.0, suc s.1) else s)

  unfoldable pub reconcile_failed_transactions : Books → FailedReport
  reconcile_failed_transactions books =
      let loaded = failed_transactions org books.store.transactions in
      let out = correct_failures loaded (books, 0) in
      record { books = out.0; checked = length loaded; falsely_failed = out.1 }
