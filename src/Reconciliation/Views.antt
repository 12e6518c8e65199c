-- ===== src/Reconciliation/Views.antt =====
-- What a reconciliation reads and reports (src/lib/payments/reconcile.ts): the views of the chain,
-- the escrows with their payments, and the report.
use core_flow.Prelude.{ℕ, String, Bool, List}
use core_flow.Prelude.Int.{ℤ}
use core_flow.Payments.Store.{Payment}
use core_flow.Reconciliation.Findings.{Books}

abbrev pub finalized : ℕ
finalized = 3

abbrev pub chain_cancelled : ℕ
chain_cancelled = 4

pub record ChainPaymentView : Type 0 where
  pub index : ℕ
  pub worker : String
  pub token : String
  pub amount_base_units : ℤ
  pub hours : ℤ
  pub proof_verified : Bool
  pub status : ℕ

pub record ChainEscrowView : Type 0 where
  pub on_chain_id : ℕ
  pub manager_approved : Bool
  pub finance_approved : Bool
  pub cancelled : Bool
  pub payments : List ChainPaymentView

-- An escrow row with an id on the chain, and the payments that were loaded with it.
pub record LoadedEscrow : Type 0 where
  pub id : String
  pub on_chain_id : ℕ
  pub payments : List Payment

pub record ReconcileReport : Type 0 where
  pub escrows_checked : ℕ
  pub payments_checked : ℕ
  pub findings_opened : ℕ
  pub advanced_to_paid : ℕ
  pub flagged_for_review : ℕ
  pub unreadable : ℕ

-- The tables and the report, as the run goes on.
pub record Run : Type 0 where
  pub books : Books
  pub report : ReconcileReport
