-- ===== src/Reconciliation/Tests.antt =====
-- A run of the reconciliation on two escrows, and its theorems at inputs that meet their hypotheses.
use core_flow.Prelude.{
  ℕ, ◌≤◌, String, ◌≡◌, ◌∙◌, sym, inl, inr, Bool, false, [], ◌∷◌, Option, none, some, ◌==◌, nat_eq,
  if◌then◌else◌, arith,
}
use core_flow.Prelude.Int.{pos}
use core_flow.Prelude.Table.{Rows}
use core_flow.Payments.Types.{confirming}
use core_flow.Payments.Store.{Payment}
use core_flow.Reconciliation.Views.{ChainPaymentView, ChainEscrowView, LoadedEscrow, Run}
use core_flow.Reconciliation.Findings.{orphan_on_chain, Quoted, ReconciliationFinding, Books}
use core_flow.Reconciliation.Reconcile.{finding, settle_up, reconcile_organization}
use core_flow.Reconciliation.Discrepancies.{Unrepeated}
use core_flow.Reconciliation.Evidence.{reconcile_organization-Unrepeated}
use core_flow.Reconciliation.Moves.{Explained, settle_up-Explained}
use core_flow.Payments.Store.{pay_batch, failed, BlockchainTransaction}
use core_flow.Reconciliation.Failed.{reconcile_failed_transactions}
use core_flow.Reconciliation.Corrections.{
  Corrected, IdIsKey, reconcile_failed_transactions-Corrected,
}

abbrev slot : ℕ → ChainPaymentView
slot i = record {
  index = i;
  worker = "GWORKER";
  token = "CUSDC";
  amount_base_units = pos 700;
  hours = pos 7;
  proof_verified = Bool.true;
  status = 3;
}

abbrev payment : Payment
payment = record {
  id = "pay_1";
  org_id = "org_a";
  batch_id = "bat_1";
  project_id = none;
  escrow_id = some "esc_1";
  worker_id = none;
  recipient_address = "GWORKER";
  on_chain_payment_index = some 0;
  asset_code = "USDC";
  asset_contract_id = some "CUSDC";
  asset_decimals = 7;
  amount_base_units = pos 700;
  rate_base_units = pos 1;
  hours = pos 700;
  period_start = none;
  period_end = none;
  source_reference = none;
  state = confirming;
  state_updated_at = 10;
  state_reason = none;
  settlement_tx_hash = none;
  settled_at = none;
}

abbrev books : Books
books = record {
  store = record { payments = payment ∷ []; approvals = []; transactions = []; audit_events = [] };
  findings = [];
}

abbrev escrow : LoadedEscrow
escrow = record { id = "esc_1"; on_chain_id = 1; payments = payment ∷ [] }

-- The chain holds a second slot, which has no row.
abbrev chain : ℕ → Option ChainEscrowView
chain n =
    if n == 1
    then some (record {
      on_chain_id = 1;
      manager_approved = Bool.true;
      finance_approved = Bool.true;
      cancelled = false;
      payments = slot 0 ∷ slot 1 ∷ [];
    })
    else none

books-Unrepeated : Unrepeated books.findings
books-Unrepeated org p kind = omega arith

reconcile_organization-Unrepeated_example :
    Unrepeated (reconcile_organization chain "org_a" 50 (escrow ∷ []) books).books.findings
reconcile_organization-Unrepeated_example =
    reconcile_organization-Unrepeated chain "org_a" 50 (escrow ∷ []) books books-Unrepeated

abbrev idle_run : Books → Run
idle_run db = record {
  books = db;
  report = record {
    escrows_checked = 0;
    payments_checked = 0;
    findings_opened = 0;
    advanced_to_paid = 0;
    flagged_for_review = 0;
    unreadable = 0;
  };
}

-- The finding of another slot of another escrow.
abbrev orphan : ReconciliationFinding
orphan = finding "org_a" none orphan_on_chain none (some (Quoted.status 3))

abbrev reported : Run
reported = idle_run (record books { findings = orphan ∷ [] })

settle_up-Explained_example :
    Rows
      (Explained payment (slot 0))
      (idle_run books).books.store.payments
      (settle_up "org_a" 50 escrow payment (slot 0) (idle_run books)).books.store.payments
settle_up-Explained_example =
    settle_up-Explained "org_a" 50 escrow payment (slot 0) (idle_run books)

-- An attempt that is recorded as failed although it landed.
abbrev landed : BlockchainTransaction
landed = record {
  id = "tx_1";
  org_id = "org_a";
  payment_id = some "pay_1";
  escrow_id = some "esc_1";
  kind = pay_batch;
  status = failed;
  hash = some "hash_1";
  idempotency_key = "key_1";
  attempt = 1;
  contract_id = none;
}

abbrev late_books : Books
late_books = record {
  store = record {
    payments = payment ∷ [];
    approvals = [];
    transactions = landed ∷ [];
    audit_events = [];
  };
  findings = [];
}

abbrev ledger : String → Option Bool
ledger hash = some Bool.true

one_id : IdIsKey late_books.store.transactions
one_id s t (inl p) (inl q) same = p ∙ sym q
one_id s t (inl p) (inr q) same = absurd q
one_id s t (inr p) q same = absurd p

reconcile_failed_transactions-Corrected_example :
    Rows
      (Corrected ledger "org_a")
      late_books.store.transactions
      (reconcile_failed_transactions ledger "org_a" late_books).books.store.transactions
    × ((reconcile_failed_transactions ledger "org_a" late_books).books.store.payments
        ≡ late_books.store.payments)
    × ((reconcile_failed_transactions ledger "org_a" late_books).falsely_failed
        ≤ (reconcile_failed_transactions ledger "org_a" late_books).checked)
    × ((reconcile_failed_transactions ledger "org_a" late_books).checked ≤ 200)
reconcile_failed_transactions-Corrected_example =
    reconcile_failed_transactions-Corrected ledger "org_a" late_books one_id
