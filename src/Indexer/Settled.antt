-- ===== src/Indexer/Settled.antt =====
-- `applyEvent` of src/lib/indexer/index.ts: the settlement, the refund and the summary of payments.
use core_flow.Prelude.{
  ℕ, suc, String, string_eq, nat_eq, option_eq, Bool, ◌&&◌, not, [], ◌∷◌, none, some, ◌==◌,
  if◌then◌else◌,
}
use core_flow.Prelude.Int.{int_eq}
use core_flow.Prelude.Table.{count}
use core_flow.Payments.Types.{paid, cancelled, payment_state_eq}
use core_flow.Payments.Store.{Payment, MetaValue}
use core_flow.Payments.Service.{TransitionRequest, TransitionOutcome, changed, unchanged, denied}
use core_flow.Reconciliation.Findings.{
  amount_mismatch, recipient_mismatch, orphan_on_chain, chain_paid_db_not, db_paid_chain_not,
  Quoted, ReconciliationFinding,
}
use core_flow.Reconciliation.Reconcile.{finding}
use core_flow.Indexer.Events.{PaidSlot}
use core_flow.Indexer.World.{World, Env, open_finding, transition}
use core_flow.Indexer.Added.{ApplyResult, nothing, EventMeta, ask, on_escrow, on_slot}

-- A finding, and the count of it.
abbrev pub note : ReconciliationFinding → ApplyResult × World → ApplyResult × World
note f out = (record out.0 { findings = suc out.0.findings }, open_finding f out.1)

abbrev pub note_if : Bool → ReconciliationFinding → ApplyResult × World → ApplyResult × World
note_if b f out = if b then note f out else out

-- ── payment_paid ──

unfoldable pub paid_request : EventMeta → String → ℕ → PaidSlot → Payment → TransitionRequest
paid_request meta org id s p = ask org p.id paid none meta.tx_hash (
    ("ledger", MetaValue.number meta.ledger)
    ∷ (("escrowOnChainId", MetaValue.number id)
        ∷ (("paymentIndex", MetaValue.number s.payment_index)
            ∷ (("settledAmountBaseUnits", MetaValue.printed s.amount_base_units)
                ∷ (("hours", MetaValue.printed s.hours) ∷ [])))))

-- What the chain says otherwise than the row.
unfoldable pub compare_paid :
    String → PaidSlot → Payment → ApplyResult × World → ApplyResult × World
compare_paid org s p out =
    note_if (not (p.recipient_address == s.worker))
      (finding org (some p.id) recipient_mismatch (some (Quoted.address p.recipient_address))
        (some (Quoted.address s.worker)))
      (note_if (not (p.amount_base_units == s.amount_base_units))
        (finding org (some p.id) amount_mismatch (some (Quoted.amount p.amount_base_units))
          (some (Quoted.amount s.amount_base_units)))
        out)

-- What follows the transition of the payment.
unfoldable pub after_paid :
    String → Payment → ApplyResult → TransitionOutcome × World → ApplyResult × World
after_paid org p out (changed previous next, w) = (record out { payments_paid = 1 }, w)
after_paid org p out (unchanged state, w) = (out, w)
after_paid org p out (denied status code, w) =
    note
      (finding org (some p.id) chain_paid_db_not (some (Quoted.state p.state))
        (some (Quoted.state paid)))
      (out, w)

unfoldable pub settle :
    Env → EventMeta → String → ℕ → PaidSlot → Payment → World → ApplyResult × World
settle env meta org id s p w =
    let out = compare_paid org s p (nothing, w) in
    if p.state == paid
    then out
    else after_paid org p out.0 (transition (paid_request meta org id s p) env.now out.1)

unfoldable pub apply_paid : Env → EventMeta → String → ℕ → PaidSlot → World → ApplyResult × World
apply_paid env meta org id s w = on_escrow id w (λ escrow.
    on_slot escrow.id s.payment_index w
      (note (finding org none orphan_on_chain none (some (Quoted.state paid))) (nothing, w))
      (λ p. settle env meta org id s p w))

-- ── payment_cancelled ──

abbrev pub refund_request : EventMeta → String → Payment → TransitionRequest
refund_request meta org p =
    ask org p.id cancelled (some "Escrow cancelled on-chain; custody refunded.") meta.tx_hash
      (("ledger", MetaValue.number meta.ledger) ∷ [])

unfoldable pub refund : Env → EventMeta → String → Payment → World → ApplyResult × World
refund env meta org p w =
    if p.state == paid
    then note
        (finding org (some p.id) db_paid_chain_not (some (Quoted.state paid))
          (some (Quoted.state cancelled)))
        (nothing, w)
    else (nothing, (transition (refund_request meta org p) env.now w).1)

unfoldable pub apply_payment_cancelled :
    Env → EventMeta → String → ℕ → ℕ → World → ApplyResult × World
apply_payment_cancelled env meta org id index w =
    on_escrow id w (λ escrow. on_slot escrow.id index w (nothing, w) (λ p. refund env meta org p w))

-- ── finalized ──

-- `where: { escrowId, state: { not: PAID } }`
abbrev pub is_unpaid : String → Payment → Bool
is_unpaid escrow p = p.escrow_id == some escrow && not (p.state == paid)

unfoldable pub apply_finalized : String → ℕ → (payments : ℕ) → World → ApplyResult × World
apply_finalized org id payments w = on_escrow id w (λ escrow.
    note_if (not (count (is_unpaid escrow.id) w.books.store.payments == 0))
      (finding org none chain_paid_db_not none (some (Quoted.finalized payments))) (nothing, w))
