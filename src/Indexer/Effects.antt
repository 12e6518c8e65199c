-- ===== src/Indexer/Effects.antt =====
-- What the writes of `applyEvent` (src/lib/indexer/index.ts) do to the table of payments.
use core_flow.Prelude.{
  ℕ, String, ◌≡◌, refl, inl, inr, Bool, false, List, [], ◌∷◌, none, some, ◌==◌, string_eq,
  option_eq, nat_eq, Option-cases, arith,
}
use core_flow.Prelude.Int.{ℤ}
use core_flow.Prelude.Table.{find_first, update_rows, Rows, Rows-refl, Rows-trans, Rows-update_rows}
use core_flow.Payments.Types.{PaymentState, paid, awaiting_oracle, payment_state_eq}
use core_flow.Payments.Transitions.{is_terminal}
use core_flow.Payments.Store.{Payment}
use core_flow.Payments.Service.{TransitionRequest, apply_transition}
use core_flow.Payments.Transfer.{Follows, apply_read-Follows}
use core_flow.Payroll.Batches.{has_reference}
use core_flow.Payroll.Writing.{has_wallet}
use core_flow.Indexer.World.{
  Escrow, World, IndexerContext, Env, find_escrow, ensure_escrow, ensure_batch, ensure_worker,
  transition, find_slot, escrow_batch_reference,
}
use core_flow.Indexer.Added.{EventMeta, is_waiting, advance}
use core_flow.Indexer.Approvals.{Half, attest, is_unattested, audit_all, is_attested, revoke}
use core_flow.Indexer.Held.{Held, nobody, Held-refl, Follows-Held}

abbrev pub payments_of : World → List Payment
payments_of w = w.books.store.payments

-- The payment in the slot of an escrow of the chain.
abbrev pub is_at : ℕ → ℕ → World → Payment → Bool
is_at id index w p = elim (find_escrow id w) [
  | none ↦ false
  | some escrow ↦ elim (find_slot escrow.id index w) [ none ↦ false | some r ↦ r.id == p.id ]
]

abbrev pub IsNew : Payment → Type 0
IsNew p = p.state ≡ awaiting_oracle

-- Row for row, with no row settled.
abbrev pub Calm : World → World → Type 0
Calm w w' = Rows (Held nobody) (payments_of w) (payments_of w')

pub calm : (w : World) → Calm w w
calm w = Rows-refl (Held nobody) (Held-refl nobody) (payments_of w)

-- ── Rows that other tables' writes leave ──

pub ensure_escrow-payments :
    (ctx : IndexerContext) (env : Env) (org : String) (id : ℕ) (patch : Escrow → Escrow) (w : World)
    → payments_of (ensure_escrow ctx env org id patch w).1 ≡ payments_of w
unfolding ensure_escrow
ensure_escrow-payments ctx env org id patch w = elim (Option-cases (find_escrow id w)) [
  | inl missing ↦ rw (missing, payments_of)
  | inr (e, found) ↦ rw (found, payments_of)
]

pub ensure_batch-payments :
    (env : Env) (org : String) (id : ℕ) (w : World)
    → payments_of (ensure_batch env org (escrow_batch_reference id) w).1 ≡ payments_of w
unfolding ensure_batch
ensure_batch-payments env org id w =
    elim (Option-cases (find_first (has_reference org (escrow_batch_reference id)) w.batches)) [
      | inl missing ↦ rw (missing, payments_of)
      | inr (b, found) ↦ rw (found, payments_of)
    ]

pub ensure_worker-payments :
    (env : Env) (org wallet : String) (w : World)
    → payments_of (ensure_worker env org wallet w).1 ≡ payments_of w
unfolding ensure_worker
ensure_worker-payments env org wallet w =
    elim (Option-cases (find_first (has_wallet org wallet) w.workers)) [
      | inl missing ↦ rw (missing, payments_of)
      | inr (k, found) ↦ rw (found, payments_of)
    ]

pub audit_all-payments :
    (meta : EventMeta) (org : String) (half : Half) (escrow : String) (ps : List Payment)
    (w : World)
    → payments_of (audit_all meta org half escrow ps w) ≡ payments_of w
unfolding audit_all
audit_all-payments meta org half escrow [] w = refl
audit_all-payments meta org half escrow (p ∷ ps) w = audit_all-payments meta org half escrow ps _

-- ── Writes on the payments ──

-- A row that leaves a state which is not terminal for one that is not PAID.
pub advance-Held :
    (to : PaymentState) (now : ℕ) (p : Payment)
    → (to == paid) ≡ false
    → is_terminal p.state ≡ false
    → Held nobody p (advance to now p)
advance-Held to now p unpaid open_ = record {
  same_row = (refl, refl);
  same_slot = (refl, refl);
  same_money = (refl, refl);
  frozen = λ over. cc (over, open_);
  settled = λ e. absurd (ground arith);
}

pub waiting-Held :
    (escrow : String) (from to : PaymentState) (now : ℕ) (rows : List Payment)
    → is_terminal from ≡ false
    → (to == paid) ≡ false
    → Rows (Held nobody) rows (update_rows (is_waiting escrow from) (advance to now) rows)
waiting-Held escrow from to now rows open_ unpaid =
    Rows-update_rows (Held nobody) (is_waiting escrow from) (advance to now) (Held-refl nobody)
      (λ p hit.
        let here : p.state ≡ from = ground arith in advance-Held to now p unpaid (rw here open_))
      rows

pub attest-Held :
    (id : String) (logged : ℤ) (now : ℕ) (rows : List Payment)
    → Rows (Held nobody) rows (update_rows (is_unattested id) (attest logged now) rows)
unfolding is_terminal
attest-Held id logged now rows =
    Rows-update_rows (Held nobody) (is_unattested id) (attest logged now) (Held-refl nobody)
      (λ p hit.
        let here : p.state ≡ awaiting_oracle = ground arith in
        record {
          same_row = (refl, refl);
          same_slot = (refl, refl);
          same_money = (refl, refl);
          frozen = λ over. absurd (ground arith);
          settled = λ e. absurd (ground arith);
        })
      rows

pub revoke-Held :
    (escrow : String) (now : ℕ) (rows : List Payment)
    → Rows (Held nobody) rows (update_rows (is_attested escrow) (revoke now) rows)
unfolding is_terminal
revoke-Held escrow now rows =
    Rows-update_rows (Held nobody) (is_attested escrow) (revoke now) (Held-refl nobody)
      (λ p hit. record {
        same_row = (refl, refl);
        same_slot = (refl, refl);
        same_money = (refl, refl);
        frozen = λ over. absurd (ground arith);
        settled = λ e. absurd (ground arith);
      })
      rows

-- A transition to a state other than PAID.
pub transition-Held :
    (req : TransitionRequest) (now : ℕ) (w : World)
    → (req.to == paid) ≡ false
    → Calm w (transition req now w).1
unfolding transition apply_transition
transition-Held req now w other =
    Rows-trans (Follows req) (λ p q. p ≡ q) (Held nobody)
      (λ x y z f e. rw (← e) (Follows-Held nobody req x y (λ r here to. absurd (ground arith)) f))
      (payments_of w) _ _ (apply_read-Follows req now w.books.store w.books.store)
      (Rows-refl (λ p q. p ≡ q) (λ p. refl) _)
