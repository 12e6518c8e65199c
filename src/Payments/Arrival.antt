-- ===== src/Payments/Arrival.antt =====
-- Where a transition that reports a change leaves its payment.
use core_flow.Prelude.{
  ℕ, String, ◌≡◌, inl, inr, some, ◌==◌, string_eq, nat_eq, Bool-cases, Option-cases, arith,
}
use core_flow.Prelude.Table.{find_first}
use core_flow.Payments.Types.{PaymentState, payment_state_eq, actor_kind_eq}
use core_flow.Payments.Store.{Payment, Store}
use core_flow.Payments.Service.{
  TransitionRequest, changed, unchanged, is_row, read_payment, swap_state, apply_found, apply_read,
  apply_transition,
}
use core_flow.Payments.Transfer.{check_cases}
use core_flow.Payments.History.{apply_transition_repeat}

-- The payment of that id and organization is in the table, in the state `s`.
abbrev pub Stands : String → String → PaymentState → Store → Type 0
Stands id org s db =
    (p : Payment) × (find_first (is_row id org) db.payments ≡ some p) × (p.state ≡ s)

unchanged-Stands :
    (req : TransitionRequest) (now : ℕ) (db : Store)
    → apply_transition req now db ≡ (unchanged req.to, db)
    → Stands req.payment_id req.org_id req.to db
unfolding apply_transition apply_read apply_found swap_state read_payment
unchanged-Stands req now db h =
    elim (Option-cases (find_first (is_row req.payment_id req.org_id) db.payments)) [
      | inl missing ↦ absurd (ground arith)
      | inr (p, found) ↦ elim (Bool-cases (p.state == req.to)) [
        | inl there ↦ (p, found, ground arith)
        | inr elsewhere ↦ elim (check_cases p.state req.to req) [
          | inr (c, refused) ↦ absurd (ground arith)
          | inl (t, admitted) ↦ absurd (ground arith)
        ]
      ]
    ]

-- A request that has made its change leaves the payment in the requested state.
pub apply_transition-Stands :
    (req : TransitionRequest) (now : ℕ) (db : Store) (a b : PaymentState)
    → (apply_transition req now db).0 ≡ changed a b
    → Stands req.payment_id req.org_id req.to (apply_transition req now db).1
apply_transition-Stands req now db a b h =
    unchanged-Stands req now (apply_transition req now db).1
      (apply_transition_repeat req now now db a b h)
