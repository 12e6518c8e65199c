-- ===== src/Indexer/Approvals.antt =====
-- `applyEvent` of src/lib/indexer/index.ts: attestations, approvals, and what happens to an escrow.
use core_flow.Prelude.{
  ℕ, String, string_eq, nat_eq, option_eq, Bool, true, ◌&&◌, List, [], ◌∷◌, none, some, ◌==◌,
  contains, filter,
}
use core_flow.Prelude.Int.{ℤ, int_eq}
use core_flow.Prelude.Table.{update_rows}
use core_flow.Payments.Types.{
  PaymentState, awaiting_oracle, oracle_verified, awaiting_manager, awaiting_finance,
  ready_to_settle, payment_state_eq,
}
use core_flow.Payments.Store.{Payment, MetaValue}
use core_flow.Indexer.World.{Escrow, World, Env, patch_escrow, write_payments, audit}
use core_flow.Indexer.Added.{
  ApplyResult, nothing, EventMeta, observed, is_waiting, advance, on_escrow, on_slot,
}

abbrev pub attest : ℤ → ℕ → Payment → Payment
attest logged now p = record p { state = oracle_verified; state_updated_at = now; hours = logged }

-- `where: { id: payment.id, state: AWAITING_ORACLE }`
abbrev pub is_unattested : String → Payment → Bool
is_unattested id p = p.id == id && p.state == awaiting_oracle

unfoldable pub apply_hours : Env → EventMeta → String → ℕ → ℕ → ℤ → World → ApplyResult × World
apply_hours env meta org id index logged w = on_escrow id w (λ escrow.
    on_slot escrow.id index w (nothing, w)
      (λ p. (
        nothing,
        audit
            (observed org "payment.oracle.verified" (some p.id) none (some escrow.id) (some p.state)
              oracle_verified meta
              (("hours", MetaValue.printed logged) ∷ ("ledger", MetaValue.number meta.ledger) ∷ []))
            (write_payments (update_rows (is_unattested p.id) (attest logged env.now)) w),
      )))

pub data Half : Type 0 where
  manager finance : Half

abbrev pub waiting_on : Half → PaymentState
waiting_on manager = awaiting_manager
waiting_on finance = awaiting_finance

abbrev pub next_state : Half → PaymentState
next_state manager = awaiting_finance
next_state finance = ready_to_settle

abbrev pub observed_type : Half → String
observed_type manager = "approval.manager.observed"
observed_type finance = "approval.finance.observed"

abbrev pub mark_approved : Half → Escrow → Escrow
mark_approved manager e = record e { manager_approved = true }
mark_approved finance e = record e { finance_approved = true }

-- One audit event for each payment that was waiting.
unfoldable pub audit_all : EventMeta → String → Half → String → List Payment → World → World
audit_all meta org half escrow [] w = w
audit_all meta org half escrow (p ∷ rest) w = audit_all meta org half escrow rest (
    audit
      (observed org (observed_type half) (some p.id) none (some escrow) (some (waiting_on half))
        (next_state half) meta (("ledger", MetaValue.number meta.ledger) ∷ []))
      w)

unfoldable pub apply_approved : Env → EventMeta → String → Half → ℕ → World → ApplyResult × World
apply_approved env meta org half id w = on_escrow id w (λ escrow.
    let w1 = patch_escrow escrow.id (mark_approved half) w in
    let w2 =
      write_payments
        (update_rows (is_waiting escrow.id oracle_verified) (advance awaiting_manager env.now))
        w1 in
    let affected = filter (is_waiting escrow.id (waiting_on half)) w2.books.store.payments in
    let w3 =
      write_payments
        (update_rows (is_waiting escrow.id (waiting_on half)) (advance (next_state half) env.now))
        w2 in
    (nothing, audit_all meta org half escrow.id affected w3))

-- ── The escrow's own events ──

unfoldable pub apply_cancelled : ℕ → World → ApplyResult × World
apply_cancelled id w =
    on_escrow id w
      (λ escrow. (nothing, patch_escrow escrow.id (λ e. record e { cancelled = true }) w))

abbrev pub attested_states : List PaymentState
attested_states = oracle_verified ∷ awaiting_manager ∷ awaiting_finance ∷ ready_to_settle ∷ []

abbrev pub is_attested : String → Payment → Bool
is_attested escrow p = p.escrow_id == some escrow && contains p.state attested_states

abbrev pub revoke : ℕ → Payment → Payment
revoke now p = record p {
  state = awaiting_oracle;
  state_updated_at = now;
  state_reason = some "Oracle key rotated on-chain; prior attestations revoked.";
}

unfoldable pub apply_rotated : Env → ℕ → (rotations : ℕ) → World → ApplyResult × World
apply_rotated env id rotations w = on_escrow id w (λ escrow. (
  nothing,
  write_payments (update_rows (is_attested escrow.id) (revoke env.now))
      (patch_escrow escrow.id (λ e. record e { oracle_rotations = rotations }) w),
))
