-- ===== src/Reconciliation/Evidence.antt =====
-- What a run of the reconciliation does: its findings stay without repetition, and it moves a
-- payment only on the evidence of the chain.
use core_flow.Prelude.{
  ℕ, ◌+◌, String, ◌≡◌, false, List, Option, none, some, string_eq, nat_eq, length, any, arith,
}
use core_flow.Prelude.Table.{find_first}
use core_flow.Payments.Types.{payment_state_eq}
use core_flow.Reconciliation.Views.{ChainPaymentView, ChainEscrowView, LoadedEscrow, Run}
use core_flow.Reconciliation.Findings.{
  orphan_on_chain, missing_on_chain, Quoted, ReconciliationFinding, Books, is_open, record_finding,
}
use core_flow.Reconciliation.Reconcile.{
  finding, open_finding, is_slot, check_slot, check_row, each, check_escrow, reconcile_organization,
}
use core_flow.Reconciliation.Discrepancies.{
  Unrepeated, IsTidy, open_finding-IsTidy, kept, each-IsTidy, check_slot-IsTidy, check_row-IsTidy,
}

check_escrow-IsTidy :
    (fetch : ℕ → Option ChainEscrowView) (org : String) (now : ℕ) (r : Run) (escrow : LoadedEscrow)
    → IsTidy r
    → IsTidy (check_escrow fetch org now r escrow)
unfolding check_escrow
check_escrow-IsTidy fetch org now r escrow u =
    elim (fetch escrow.on_chain_id)
      as (λ view. IsTidy (elim view [
        | none ↦
            open_finding
              (finding org none missing_on_chain (some (Quoted.payments (length escrow.payments)))
                (some (Quoted.word "unreadable")))
              (record counted {
                report = record counted.report { unreadable = counted.report.unreadable + 1 };
              })
        | some chain ↦
            each (check_row org now escrow chain.payments)
              (each (check_slot org escrow) counted chain.payments) escrow.payments
      ])) [
        | none ↦ open_finding-IsTidy _ _ (kept counted r.books.store _ tidy)
        | some chain ↦
            each-IsTidy (check_row org now escrow chain.payments)
              (check_row-IsTidy org now escrow chain.payments) _ escrow.payments
              (each-IsTidy (check_slot org escrow) (check_slot-IsTidy org escrow) counted
                chain.payments tidy)
      ]
  where
    counted : Run
    counted = record r {
      report = record r.report { escrows_checked = r.report.escrows_checked + 1 };
    }

    tidy : IsTidy counted
    tidy = kept r r.books.store _ u

-- Whatever the chain answers, a run leaves at most one unresolved finding for an organization, a
-- payment and a kind if there was at most one before: running it again multiplies nothing.
pub reconcile_organization-Unrepeated :
    (fetch : ℕ → Option ChainEscrowView) (org : String) (now : ℕ) (escrows : List LoadedEscrow)
    (db : Books)
    → Unrepeated db.findings
    → Unrepeated (reconcile_organization fetch org now escrows db).books.findings
unfolding reconcile_organization
reconcile_organization-Unrepeated fetch org now escrows db u =
    (each-IsTidy (check_escrow fetch org now) (check_escrow-IsTidy fetch org now) _ escrows
      (record { unrepeated = u })).unrepeated

-- While an organization has an unresolved finding of a slot without a row, no other such slot is
-- reported, in whichever escrow and under whichever index it stands.
check_slot_masked :
    (org : String) (escrow : LoadedEscrow) (r : Run) (cp : ChainPaymentView)
    (earlier : ReconciliationFinding)
    → find_first (is_open org none orphan_on_chain) r.books.findings ≡ some earlier
    → any (is_slot cp) escrow.payments ≡ false
    → check_slot org escrow r cp ≡ r
unfolding check_slot open_finding record_finding
check_slot_masked org escrow r cp earlier seen orphan =
    let f = finding org none orphan_on_chain none (some (Quoted.status cp.status)) in
    let quiet : record_finding f r.books ≡ (false, r.books) = ground arith in rw (orphan, quiet)
