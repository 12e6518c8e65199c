-- ===== src/Reconciliation/Reconcile.antt =====
-- `reconcileOrganization` of src/lib/payments/reconcile.ts, after its query: `escrows` are the rows
-- that it returned. The chain is read through the parameter `fetch`, and `none` is a read that threw.
use core_flow.Prelude.{
  ℕ, ◌+◌, String, Bool, true, false, List, [], ◌∷◌, Option, none, some, ◌==◌, string_eq, nat_eq,
  option_eq, ◌&&◌, not, any, length, if◌then◌else◌,
}
use core_flow.Prelude.Int.{int_eq}
use core_flow.Payments.Types.{
  PaymentState, paid, cancelled, reconciliation_required, payment_state_eq, ActorKind, Actor,
}
use core_flow.Payments.Store.{Payment, tx_status_eq, text, number, Metadata}
use core_flow.Payments.Service.{TransitionRequest, TransitionOutcome, changed, apply_transition}
use core_flow.Reconciliation.Views.{
  finalized, chain_cancelled, ChainPaymentView, ChainEscrowView, LoadedEscrow, Run,
}
use core_flow.Reconciliation.Findings.{
  FindingKind, db_paid_chain_not, chain_paid_db_not, amount_mismatch, recipient_mismatch,
  missing_on_chain, orphan_on_chain, Quoted, ReconciliationFinding, Books, record_finding,
}

abbrev pub reconciler : Actor
reconciler = record {
  kind = ActorKind.reconciler;
  role = none;
  address = none;
  system = some "reconciler";
}

abbrev pub finding :
    String → Option String → FindingKind → Option Quoted → Option Quoted → ReconciliationFinding
finding org payment kind db chain = record {
  org_id = org;
  payment_id = payment;
  kind = kind;
  db_state = db;
  chain_state = chain;
  resolved_at = none;
}

-- `if (await recordFinding(...)) report.findingsOpened++`
unfoldable pub open_finding : ReconciliationFinding → Run → Run
open_finding f r =
    let out = record_finding f r.books in
    record {
      books = out.1;
      report =
          if out.0
          then record r.report { findings_opened = r.report.findings_opened + 1 }
          else r.report;
    }

-- `transitionPayment`, as the reconciler.
abbrev pub ask : String → Payment → PaymentState → Option String → Metadata → TransitionRequest
ask org p to reason metadata = record {
  payment_id = p.id;
  to = to;
  actor = reconciler;
  org_id = org;
  reason = reason;
  tx_hash = none;
  metadata = metadata;
  settled_at = none;
}

abbrev pub has_changed : TransitionOutcome → Bool
has_changed (changed a b) = true
has_changed _ = false

abbrev pub transit : TransitionRequest → ℕ → Run → TransitionOutcome × Run
transit req now r =
    let out = apply_transition req now r.books.store in
    (out.0, record r { books = record r.books { store = out.1 } })

abbrev pub is_slot : ChainPaymentView → Payment → Bool
is_slot cp p = p.on_chain_payment_index == some cp.index

unfoldable pub check_slot : String → LoadedEscrow → Run → ChainPaymentView → Run
check_slot org escrow r cp =
    if any (is_slot cp) escrow.payments
    then r
    else open_finding (finding org none orphan_on_chain none (some (Quoted.status cp.status))) r

-- The identity of the payment, which must match in every state.
unfoldable pub check_identity : String → Payment → ChainPaymentView → Run → Run
check_identity org p cp r =
    let r' =
      (if p.amount_base_units == cp.amount_base_units
        then r
        else open_finding
            (finding org (some p.id) amount_mismatch (some (Quoted.amount p.amount_base_units))
              (some (Quoted.amount cp.amount_base_units)))
            r) in
    if p.recipient_address == cp.worker
    then r'
    else open_finding
        (finding org (some p.id) recipient_mismatch (some (Quoted.address p.recipient_address))
          (some (Quoted.address cp.worker)))
        r'

-- `if (outcome.ok && outcome.changed) report.flaggedForReview++`
unfoldable pub flagged : TransitionOutcome × Run → Run
flagged (o, r) =
    if has_changed o
    then record r {
      report = record r.report { flagged_for_review = r.report.flagged_for_review + 1 };
    }
    else r

unfoldable pub caught_up : String → Payment → TransitionOutcome × Run → Run
caught_up org p (o, r) =
    if has_changed o
    then record r { report = record r.report { advanced_to_paid = r.report.advanced_to_paid + 1 } }
    else open_finding
        (finding org (some p.id) chain_paid_db_not (some (Quoted.state p.state))
          (some (Quoted.word "FINALIZED")))
        r

unfoldable pub catch_up : String → ℕ → Payment → Metadata → Run → Run
catch_up org now p metadata r = caught_up org p (
    transit
      (ask org p paid (some "Reconciliation: the chain reports this payment as settled.") metadata)
      now r)

unfoldable pub doubt : String → ℕ → Payment → ChainPaymentView → Run → Run
doubt org now p cp r = flagged (
    transit
      (ask org p reconciliation_required
        (some "Reconciliation: recorded as PAID but the chain disagrees.")
        (("chainStatus", number cp.status) ∷ []))
      now
      (open_finding
        (finding org (some p.id) db_paid_chain_not (some (Quoted.word "PAID"))
          (some (Quoted.status cp.status)))
        r))

unfoldable pub withdraw : String → ℕ → Payment → Run → Run
withdraw org now p r = flagged (
    transit (ask org p cancelled (some "Reconciliation: the escrow was cancelled on-chain.") []) now
      r)

unfoldable pub settle_up : String → ℕ → LoadedEscrow → Payment → ChainPaymentView → Run → Run
settle_up org now escrow p cp r =
    if cp.status == finalized && not (p.state == paid)
    then catch_up org now p
        (("source", text "reconciliation")
          ∷ ("chainStatus", number cp.status)
          ∷ ("escrowOnChainId", number escrow.on_chain_id)
          ∷ ("paymentIndex", number cp.index)
          ∷ [])
        r
    else if p.state == paid && not (cp.status == finalized)
    then doubt org now p cp r
    else if cp.status == chain_cancelled && not (p.state == cancelled) && not (p.state == paid)
    then withdraw org now p r
    else r

-- `byIndex.get(i)`: the last slot that was set under the index.
abbrev pub slot_at : ℕ → List ChainPaymentView → Option ChainPaymentView
slot_at i [] = none
slot_at i (cp ∷ cps) = elim (slot_at i cps) [
  | some later ↦ some later
  | none ↦ if cp.index == i then some cp else none
]

abbrev pub slot_of : Option ℕ → List ChainPaymentView → Option ChainPaymentView
slot_of none cps = none
slot_of (some i) cps = slot_at i cps

unfoldable pub check_row : String → ℕ → LoadedEscrow → List ChainPaymentView → Run → Payment → Run
check_row org now escrow slots r p =
    let r' = record r {
      report = record r.report { payments_checked = r.report.payments_checked + 1 };
    } in
    elim (slot_of p.on_chain_payment_index slots) [
      | none ↦
          open_finding (finding org (some p.id) missing_on_chain (some (Quoted.state p.state)) none)
            r'
      | some cp ↦ settle_up org now escrow p cp (check_identity org p cp r')
    ]

-- A loop over a list that carries the run.
abbrev pub each {ℓ} : {A : Type ℓ} → (Run → A → Run) → Run → List A → Run
each f r [] = r
each f r (x ∷ xs) = each f (f r x) xs

unfoldable pub check_escrow : (ℕ → Option ChainEscrowView) → String → ℕ → Run → LoadedEscrow → Run
check_escrow fetch org now r escrow =
    let r' = record r {
      report = record r.report { escrows_checked = r.report.escrows_checked + 1 };
    } in
    elim (fetch escrow.on_chain_id) [
      | none ↦
          open_finding
            (finding org none missing_on_chain (some (Quoted.payments (length escrow.payments)))
              (some (Quoted.word "unreadable")))
            (record r' { report = record r'.report { unreadable = r'.report.unreadable + 1 } })
      | some chain ↦
          each (check_row org now escrow chain.payments)
            (each (check_slot org escrow) r' chain.payments) escrow.payments
    ]

-- `escrows` are the rows that the first query returned.
unfoldable pub reconcile_organization :
    (ℕ → Option ChainEscrowView) → String → ℕ → List LoadedEscrow → Books → Run
reconcile_organization fetch org now escrows db =
    each (check_escrow fetch org now)
      (record {
        books = db;
        report = record {
          escrows_checked = 0;
          payments_checked = 0;
          findings_opened = 0;
          advanced_to_paid = 0;
          flagged_for_review = 0;
          unreadable = 0;
        };
      })
      escrows
