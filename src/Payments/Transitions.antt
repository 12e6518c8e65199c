-- ===== src/Payments/Transitions.antt =====
-- The table of transitions and its lookups (src/lib/payments/state-machine.ts). What is absent from
-- the table is invalid.
mod Approval
mod Settlement
use core_flow.Prelude.{Bool, List, [], ◌∷◌, ◌++◌, ◌&&◌, Option, ◌==◌, find?, filter, contains}
use core_flow.Payments.Types.{
  PaymentState, paid, rejected, cancelled, expired, payment_state_eq, Transition,
}
use Approval.{authoring, oracle, dual_approval}
use Settlement.{settlement, recovery, reconciliation_outcomes}

unfoldable pub transitions : List Transition
transitions =
    authoring ++ oracle ++ dual_approval ++ settlement ++ recovery ++ reconciliation_outcomes

abbrev pub terminal_states : List PaymentState
terminal_states = paid ∷ rejected ∷ cancelled ∷ expired ∷ []

unfoldable pub is_terminal : PaymentState → Bool
is_terminal state = contains state terminal_states

unfoldable pub transitions_from : PaymentState → List Transition
transitions_from state = filter (λ t. t.from == state) transitions

unfoldable pub find_transition : PaymentState → PaymentState → Option Transition
find_transition from to = find? (λ t. t.from == from && t.to == to) transitions
