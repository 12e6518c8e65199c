-- ===== src/Payments/Rollup.antt =====
-- `rollupBatch` of src/lib/payments/service.ts: the standing of a batch, from its payments.
use core_flow.Prelude.{
  ℕ, ◌+◌, String, Bool, List, [], ◌∷◌, none, some, ◌==◌, length, find?, map, contains,
  if◌then◌else◌,
}
use core_flow.Prelude.Int.{ℤ, pos, ◌+ℤ◌}
use core_flow.Payments.Types
use core_flow.Payments.Types.{PaymentState, payment_state_eq}
use core_flow.Payments.Descriptors.{describe_state}

-- The fields of a payment that a rollup reads.
pub record BatchPayment : Type 0 where
  pub state : PaymentState
  pub amount_base_units : ℤ

pub record BatchRollup : Type 0 where
  pub total : ℕ
  pub by_state : List (PaymentState × ℕ)
  pub total_amount_base_units : ℤ
  pub paid_amount_base_units : ℤ
  pub needs_attention : ℕ
  pub headline : String

abbrev pub progress_order : List PaymentState
progress_order =
    Types.draft ∷ Types.validating ∷ Types.awaiting_oracle ∷ Types.oracle_verified
    ∷ Types.awaiting_manager ∷ Types.awaiting_finance ∷ Types.ready_to_settle ∷ Types.submitting
    ∷ Types.confirming ∷ Types.paid ∷ []

abbrev pub broken_states : List PaymentState
broken_states =
    Types.reconciliation_required ∷ Types.settlement_failed ∷ Types.submission_failed
    ∷ Types.expired ∷ []

-- `byState[s] = (byState[s] ?? 0) + 1`
abbrev pub tally : PaymentState → List (PaymentState × ℕ) → List (PaymentState × ℕ)
tally s [] = (s, 1) ∷ []
tally s ((t, n) ∷ m) = let rest = tally s m in if t == s then (t, n + 1) ∷ m else (t, n) ∷ rest

-- `byState[s] ?? 0`
abbrev pub tally_of : PaymentState → List (PaymentState × ℕ) → ℕ
tally_of s [] = 0
tally_of s ((t, n) ∷ m) = if t == s then n else tally_of s m

abbrev pub is_paid : BatchPayment → Bool
is_paid p = p.state == Types.paid

abbrev pub wants_attention : BatchPayment → Bool
wants_attention p = (describe_state p.state).needs_attention

-- One turn of the loop.
unfoldable pub roll : BatchRollup → BatchPayment → BatchRollup
roll r p = record r {
  by_state = tally p.state r.by_state;
  total_amount_base_units = r.total_amount_base_units +ℤ p.amount_base_units;
  paid_amount_base_units =
      if is_paid p
      then r.paid_amount_base_units +ℤ p.amount_base_units
      else r.paid_amount_base_units;
  needs_attention = if wants_attention p then r.needs_attention + 1 else r.needs_attention;
}

unfoldable pub roll_all : BatchRollup → List BatchPayment → BatchRollup
roll_all r [] = r
roll_all r (p ∷ ps) = roll_all (roll r p) ps

abbrev pub label_of : PaymentState → String
label_of s = (describe_state s).label

abbrev pub states_of : List BatchPayment → List PaymentState
states_of payments = map (λ (p : BatchPayment). p.state) payments

unfoldable pub headline_of : List PaymentState → String
headline_of [] = "Empty"
headline_of (s ∷ ss) = elim (find? (λ t. contains t broken_states) (s ∷ ss)) [
  | some broken ↦ label_of broken
  | none ↦ elim (find? (λ t. contains t (s ∷ ss)) progress_order) [
    | some least ↦ label_of least
    | none ↦ label_of s
  ]
]

abbrev pub empty_rollup : BatchRollup
empty_rollup = record {
  total = 0;
  by_state = [];
  total_amount_base_units = pos 0;
  paid_amount_base_units = pos 0;
  needs_attention = 0;
  headline = "";
}

unfoldable pub rollup_batch : List BatchPayment → BatchRollup
rollup_batch payments = record (roll_all empty_rollup payments) {
  total = length payments;
  headline = headline_of (states_of payments);
}
