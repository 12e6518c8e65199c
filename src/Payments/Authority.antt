-- ===== src/Payments/Authority.antt =====
-- Who may bring a payment where: consequences of the table for each kind of actor.
use core_flow.Prelude.{◌≡◌, ◌↔◌, ◌⊎◌, true, [], ◌==◌, contains, eq_self, All, All-at, arith}
use core_flow.Payments.Types.{
  PaymentState, draft, validating, awaiting_manager, awaiting_finance, ready_to_settle, submitting,
  paid, rejected, cancelled, submission_failed, reconciliation_required, payment_state_eq,
  ActorKind, actor_kind_eq, Actor, Transition,
}
use core_flow.Payments.Transitions.{transitions, is_terminal, transitions_from}
use core_flow.Payments.Check.{ok, check_transition, state_machine}
use core_flow.Payments.Admission.{check_transition_sound}

abbrev PaysByChain : ActorKind → Transition → Type 0
PaysByChain k t =
    (t.to == paid) ≡ true
    → contains k t.actors ≡ true
    → (k ≡ ActorKind.indexer) ⊎ (k ≡ ActorKind.reconciler)

rows_pay_by_chain : (k : ActorKind) → All (PaysByChain k) transitions
unfolding state_machine
rows_pay_by_chain ActorKind.user = ground arith
rows_pay_by_chain _ = ground arith

-- Only the indexer or the reconciler is ever admitted to move a payment to PAID, from any state and
-- in any role.
pub paid_needs_chain :
    (from : PaymentState) (actor : Actor) (t : Transition)
    → check_transition from paid actor ≡ ok t
    → (actor.kind ≡ ActorKind.indexer) ⊎ (actor.kind ≡ ActorKind.reconciler)
paid_needs_chain from actor t h =
    let (_, to, row, permits, _) = check_transition_sound from paid actor t h in
    All-at (PaysByChain actor.kind) t transitions (rows_pay_by_chain actor.kind) row
      (rw to (eq_self paid)) permits.kind_listed

-- The states that a user can bring a payment to, and where from.
abbrev pub UserMove : PaymentState → PaymentState → Type 0
UserMove from validating = from ≡ draft
UserMove from cancelled =
    (from ≡ draft)
    ⊎ (from ≡ validating)
    ⊎ (from ≡ submission_failed)
    ⊎ (from ≡ reconciliation_required)
UserMove from rejected = (from ≡ validating) ⊎ (from ≡ awaiting_manager) ⊎ (from ≡ awaiting_finance)
UserMove from submitting = from ≡ ready_to_settle
UserMove from ready_to_settle = from ≡ submission_failed
UserMove from _ = ⊥

abbrev IsUserMove : Transition → Type 0
IsUserMove t = contains ActorKind.user t.actors ≡ true → UserMove t.from t.to

rows_user_moves : All IsUserMove transitions
unfolding state_machine
rows_user_moves = ground arith

-- A user is admitted to five kinds of move only: submit for validation, cancel, reject, start a
-- settlement that is ready, and retry a submission that never reached the network. None of them
-- passes a gate that the chain guards.
user_moves :
    (from to : PaymentState) (actor : Actor) (t : Transition)
    → actor.kind ≡ ActorKind.user
    → check_transition from to actor ≡ ok t
    → UserMove from to
user_moves from to actor t u h =
    let (starts, ends, row, permits, _) = check_transition_sound from to actor t h in
    let move = All-at IsUserMove t transitions rows_user_moves row (rw u at permits.kind_listed) in
    rw (starts, ends) at move

-- The listed terminal states are exactly those that no row of the table leaves.
is_terminal_iff : (s : PaymentState) → (is_terminal s ≡ true) ↔ (transitions_from s ≡ [])
unfolding state_machine transitions_from
is_terminal_iff draft = ground arith
is_terminal_iff _ = ground arith
