-- ===== src/Indexer/Branches.antt =====
-- What the branches of `applyEvent` (src/lib/indexer/index.ts) that settle nothing do to the table of
-- payments.
use core_flow.Prelude.{
  ℕ, String, ◌≡◌, refl, inl, inr, Bool, true, false, none, some, ◌==◌, string_eq, option_eq, nat_eq,
  Bool-cases, Option-cases, arith,
}
use core_flow.Prelude.Int.{ℤ}
use core_flow.Prelude.Table.{Rows-trans}
use core_flow.Payments.Types.{
  paid, oracle_verified, awaiting_manager, payment_state_eq, PaymentState-discrete,
}
use core_flow.Payments.Transitions.{is_terminal}
use core_flow.Payments.Store.{Payment}
use core_flow.Reconciliation.Findings.{ReconciliationFinding}
use core_flow.Indexer.World.{Escrow, World, Env, find_escrow, find_slot}
use core_flow.Indexer.Added.{ApplyResult, nothing, EventMeta, on_escrow, on_slot}
use core_flow.Indexer.Approvals.{
  Half, manager, finance, apply_hours, waiting_on, next_state, apply_approved, apply_cancelled,
  apply_rotated,
}
use core_flow.Indexer.Settled.{
  note_if, refund_request, refund, apply_payment_cancelled, apply_finalized,
}
use core_flow.Indexer.Held.{Held, nobody, Held-trans}
use core_flow.Indexer.Effects.{
  payments_of, Calm, calm, audit_all-payments, waiting-Held, attest-Held, revoke-Held,
  transition-Held,
}

on_escrow-none :
    (id : ℕ) (w : World) (body : Escrow → ApplyResult × World)
    → find_escrow id w ≡ none
    → on_escrow id w body ≡ (nothing, w)
unfolding on_escrow
on_escrow-none id w body e = ground arith

on_escrow-some :
    (id : ℕ) (w : World) (body : Escrow → ApplyResult × World) (escrow : Escrow)
    → find_escrow id w ≡ some escrow
    → on_escrow id w body ≡ body escrow
unfolding on_escrow
on_escrow-some id w body escrow e = ground arith

on_slot-none :
    (escrow : String) (index : ℕ) (w : World) (otherwise : ApplyResult × World)
    (body : Payment → ApplyResult × World)
    → find_slot escrow index w ≡ none
    → on_slot escrow index w otherwise body ≡ otherwise
unfolding on_slot
on_slot-none escrow index w otherwise body e = ground arith

on_slot-some :
    (escrow : String) (index : ℕ) (w : World) (otherwise : ApplyResult × World)
    (body : Payment → ApplyResult × World) (p : Payment)
    → find_slot escrow index w ≡ some p
    → on_slot escrow index w otherwise body ≡ body p
unfolding on_slot
on_slot-some escrow index w otherwise body p e = ground arith

module _ (P : ApplyResult × World → Type 0) where
  pub on_escrow-cases :
      (id : ℕ) (w : World) (body : Escrow → ApplyResult × World)
      → P (nothing, w)
      → ((e : Escrow) → find_escrow id w ≡ some e → P (body e))
      → P (on_escrow id w body)
  on_escrow-cases id w body missing found = elim (Option-cases (find_escrow id w)) [
    | inl e ↦ rw (on_escrow-none id w body e) missing
    | inr (escrow, e) ↦ rw (on_escrow-some id w body escrow e) (found escrow e)
  ]

  pub on_slot-cases :
      (escrow : String) (index : ℕ) (w : World) (otherwise : ApplyResult × World)
      (body : Payment → ApplyResult × World)
      → P otherwise
      → ((p : Payment) → find_slot escrow index w ≡ some p → P (body p))
      → P (on_slot escrow index w otherwise body)
  on_slot-cases escrow index w otherwise body missing found =
      elim (Option-cases (find_slot escrow index w)) [
        | inl e ↦ rw (on_slot-none escrow index w otherwise body e) missing
        | inr (p, e) ↦ rw (on_slot-some escrow index w otherwise body p e) (found p e)
      ]

-- What follows leaves every payment unsettled.
abbrev CalmOut : World → ApplyResult × World → Type 0
CalmOut w out = Calm w out.1

pub apply_hours-Calm :
    (env : Env) (meta : EventMeta) (org : String) (id index : ℕ) (logged : ℤ) (w : World)
    → Calm w (apply_hours env meta org id index logged w).1
unfolding apply_hours
apply_hours-Calm env meta org id index logged w =
    on_escrow-cases (CalmOut w) id w _ (calm w) (λ e found.
      on_slot-cases (CalmOut w) e.id index w _ _ (calm w)
        (λ p slot. attest-Held p.id logged env.now (payments_of w)))

half_open : (half : Half) → is_terminal (waiting_on half) ≡ false
unfolding is_terminal PaymentState-discrete
half_open manager = refl
half_open finance = refl

half_unpaid : (half : Half) → (next_state half == paid) ≡ false
unfolding PaymentState-discrete
half_unpaid manager = refl
half_unpaid finance = refl

pub apply_approved-Calm :
    (env : Env) (meta : EventMeta) (org : String) (half : Half) (id : ℕ) (w : World)
    → Calm w (apply_approved env meta org half id w).1
unfolding apply_approved is_terminal PaymentState-discrete
apply_approved-Calm env meta org half id w = on_escrow-cases (CalmOut w) id w _ (calm w) (λ e found.
    rw (audit_all-payments meta org half e.id _ _) (
      Rows-trans (Held nobody) (Held nobody) (Held nobody)
        (Held-trans nobody nobody nobody (λ r h. h) (λ r s same h. h)) (payments_of w) _ _
        (waiting-Held e.id oracle_verified awaiting_manager env.now (payments_of w) refl refl)
        (waiting-Held e.id (waiting_on half) (next_state half) env.now _ (half_open half)
          (half_unpaid half))))

pub apply_cancelled-Calm : (id : ℕ) (w : World) → Calm w (apply_cancelled id w).1
unfolding apply_cancelled
apply_cancelled-Calm id w = on_escrow-cases (CalmOut w) id w _ (calm w) (λ e found. calm w)

pub apply_rotated-Calm : (env : Env) (id n : ℕ) (w : World) → Calm w (apply_rotated env id n w).1
unfolding apply_rotated
apply_rotated-Calm env id n w =
    on_escrow-cases (CalmOut w) id w _ (calm w)
      (λ e found. revoke-Held e.id env.now (payments_of w))

pub note_if-payments :
    (b : Bool) (f : ReconciliationFinding) (out : ApplyResult × World)
    → payments_of (note_if b f out).1 ≡ payments_of out.1
note_if-payments true f out = refl
note_if-payments false f out = refl

pub apply_finalized-Calm :
    (org : String) (id n : ℕ) (w : World) → Calm w (apply_finalized org id n w).1
unfolding apply_finalized
apply_finalized-Calm org id n w =
    on_escrow-cases (CalmOut w) id w _ (calm w)
      (λ e found. rw (note_if-payments _ _ (nothing, w)) (calm w))

pub apply_payment_cancelled-Calm :
    (env : Env) (meta : EventMeta) (org : String) (id index : ℕ) (w : World)
    → Calm w (apply_payment_cancelled env meta org id index w).1
unfolding apply_payment_cancelled refund PaymentState-discrete
apply_payment_cancelled-Calm env meta org id index w =
    on_escrow-cases (CalmOut w) id w _ (calm w) (λ e found.
      on_slot-cases (CalmOut w) e.id index w _ _ (calm w) (λ p slot.
        elim (Bool-cases (p.state == paid)) [
          | inl settled ↦ rw settled (calm w)
          | inr unpaid ↦ rw unpaid (transition-Held (refund_request meta org p) env.now w refl)
        ]))
