-- ===== src/Reconciliation/Findings.antt =====
-- `recordFinding` of src/lib/payments/reconcile.ts and the rows that it writes. The columns that
-- hold prose (detail, metadata) are left out.
use core_flow.Prelude.{
  ℕ, String, Bool, true, false, Eq, List, Option, none, some, ◌==◌, string_eq, option_eq, ◌&&◌,
}
use core_flow.Prelude.Int.{ℤ}
use core_flow.Prelude.Table.{create, find_first}
use core_flow.Payments.Types.{PaymentState}
use core_flow.Payments.Store.{Store}

pub data FindingKind : Type 0 where
  db_paid_chain_not chain_paid_db_not amount_mismatch asset_mismatch recipient_mismatch
        missing_on_chain orphan_on_chain unknown_on_chain_object failed_tx_actually_succeeded
        missing_payment_event duplicate_payment_event chain_unreadable other :
      FindingKind

unfoldable pub FindingKind-discrete : Discrete FindingKind
FindingKind-discrete = hlevel

instance abbrev pub finding_kind_eq : Eq FindingKind
finding_kind_eq = record { dec = FindingKind-discrete }

-- What a finding quotes from one of the two sides, before it is printed.
pub data Quoted : Type 0 where
  state : PaymentState → Quoted
  status : ℕ → Quoted
  amount : ℤ → Quoted
  address : String → Quoted
  payments : ℕ → Quoted
  word : String → Quoted
  slot : String → ℤ → Quoted
  finalized : ℕ → Quoted

pub record ReconciliationFinding : Type 0 where
  pub org_id : String
  pub payment_id : Option String
  pub kind : FindingKind
  pub db_state : Option Quoted
  pub chain_state : Option Quoted
  pub resolved_at : Option ℕ

-- The tables of a run.
pub record Books : Type 0 where
  pub store : Store
  pub findings : List ReconciliationFinding

abbrev pub is_unresolved : Option ℕ → Bool
is_unresolved none = true
is_unresolved (some t) = false

-- `where: { orgId, paymentId, kind, resolvedAt: null }`
abbrev pub is_open : String → Option String → FindingKind → ReconciliationFinding → Bool
is_open org payment kind f =
    f.org_id == org && f.payment_id == payment && f.kind == kind && is_unresolved f.resolved_at

-- Opens a finding, unless an unresolved one of the same kind and payment exists.
unfoldable pub record_finding : ReconciliationFinding → Books → Bool × Books
record_finding f db = elim (find_first (is_open f.org_id f.payment_id f.kind) db.findings) [
  | some existing ↦ (false, db)
  | none ↦ (true, record db { findings = create f db.findings })
]
