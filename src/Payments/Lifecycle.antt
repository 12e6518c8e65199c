-- ===== src/Payments/Lifecycle.antt =====
-- Sequences of admitted moves: what a payment has been through when it is paid, and that no state
-- that is not terminal is a dead end.
use core_flow.Prelude.{
  ℕ, zero, suc, ◌≤◌, ◌<◌, ◌≡◌, refl, ◌⊎◌, inl, inr, Bool, true, false, not, ◌&&◌, List, [], ◌∷◌,
  Option, none, some, ◌==◌, contains, any, Bool-cases, leb, leb_iff, ◌∙◌, ap, ◌||◌, eq-eq_true,
  eq_self, All, All-at, arith,
}
use core_flow.Roles.{OrgRole}
use core_flow.Payments.Types.{
  PaymentState, draft, validating, awaiting_oracle, oracle_verified, awaiting_manager,
  awaiting_finance, ready_to_settle, submitting, confirming, paid, rejected, cancelled, expired,
  submission_failed, settlement_failed, reconciliation_required, payment_state_eq, ActorKind,
  actor_kind_eq, Actor, Transition,
}
use core_flow.Payments.Transitions.{transitions, is_terminal}
use core_flow.Payments.Check.{
  TransitionCheck, TransitionErrorCode, ok, fail, check_transition, state_machine,
}
use core_flow.Payments.Admission.{Permits, check_transition_sound}

-- One requested move: where to, and by whom.
abbrev pub Move : Type 0
Move = PaymentState × Actor

unfoldable pub run : PaymentState → List Move → Option PaymentState
run s [] = some s
run s ((to, actor) ∷ moves) =
    let rest = run to moves in elim (check_transition s to actor) [ ok _ ↦ rest | fail _ ↦ none ]

-- The gates on the way to settlement that a payment in this state has passed.
abbrev pub gates_passed : PaymentState → ℕ
gates_passed awaiting_oracle = 1
gates_passed oracle_verified = 2
gates_passed awaiting_manager = 3
gates_passed awaiting_finance = 4
gates_passed ready_to_settle = 5
gates_passed submitting = 5
gates_passed confirming = 5
gates_passed paid = 5
gates_passed submission_failed = 5
gates_passed settlement_failed = 5
gates_passed reconciliation_required = 5
gates_passed _ = 0

-- The state behind each gate.
abbrev pub gate : ℕ → PaymentState
gate (suc zero) = awaiting_oracle
gate (suc (suc zero)) = oracle_verified
gate (suc (suc (suc zero))) = awaiting_manager
gate (suc (suc (suc (suc zero)))) = awaiting_finance
gate _ = ready_to_settle

-- A move through gate `n` that no user makes.
abbrev pub passes : ℕ → Move → Bool
passes n (to, actor) = to == gate n && not (actor.kind == ActorKind.user)

abbrev Climbs : Transition → Type 0
Climbs t =
    (gates_passed t.to ≤ gates_passed t.from)
    ⊎ ((gates_passed t.to ≡ suc (gates_passed t.from))
        × (t.to ≡ gate (gates_passed t.to))
        × (contains ActorKind.user t.actors ≡ false))

rows_climb : All Climbs transitions
unfolding state_machine
rows_climb = ground arith

not_user :
    (actor : Actor) (t : Transition)
    → Permits t actor
    → contains ActorKind.user t.actors ≡ false
    → (actor.kind == ActorKind.user) ≡ false
not_user actor t p closed = elim (Bool-cases (actor.kind == ActorKind.user)) [
  | inl user ↦ cc (eq-eq_true actor.kind ActorKind.user user, p.kind_listed)
  | inr machine ↦ machine
]

-- One admitted move passes at most the next gate, and only by another actor than a user.
step_climbs :
    (n : ℕ) (from to : PaymentState) (actor : Actor) (t : Transition)
    → check_transition from to actor ≡ ok t
    → gates_passed from < n
    → n ≤ gates_passed to
    → passes n (to, actor) ≡ true
step_climbs n from to actor t h below above =
    let (starts, ends, row, permits, _) = check_transition_sound from to actor t h in
    let climb = All-at Climbs t transitions rows_climb row in
    elim (rw (starts, ends) at climb) [
      | inl flat ↦ absurd (omega arith)
      | inr (next, here, closed) ↦
          let e : to ≡ gate n = here ∙ ap gate (omega arith) in
          rw (not_user actor t permits closed, ← e, eq_self to)
    ]

check_cases :
    (s to : PaymentState) (actor : Actor)
    → ((t : Transition) × (check_transition s to actor ≡ ok t))
      ⊎ ((c : TransitionErrorCode) × (check_transition s to actor ≡ fail c))
check_cases s to actor = go (check_transition s to actor)
  where
    go :
        (r : TransitionCheck)
        → ((t : Transition) × (r ≡ ok t)) ⊎ ((c : TransitionErrorCode) × (r ≡ fail c))
    go (ok t) = inl (t, refl)
    go (fail c) = inr (c, refl)

or_true : (b : Bool) → (b || true) ≡ true
or_true true = refl
or_true false = refl

passed_between :
    (n : ℕ) (s u : PaymentState) (moves : List Move)
    → run s moves ≡ some u
    → gates_passed s < n
    → n ≤ gates_passed u
    → any (passes n) moves ≡ true
unfolding run
passed_between n s u [] h below above = absurd (ground arith)
passed_between n s u ((to, actor) ∷ moves) h below above = elim (check_cases s to actor) [
  | inr refused ↦ absurd (ground arith)
  | inl (t, admitted) ↦ elim (Bool-cases (leb n (gates_passed to))) [
    | inl reached ↦ rw (step_climbs n s to actor t admitted below ((leb_iff _ _).0 reached))
    | inr under ↦
        let later = passed_between n to u moves (ground arith) (ground arith) above in
        rw later (or_true (passes n (to, actor)))
  ]
]

-- A payment that went from DRAFT to PAID was moved, by another actor than a user each time, to
-- AWAITING_ORACLE, ORACLE_VERIFIED, AWAITING_MANAGER, AWAITING_FINANCE and READY_TO_SETTLE: none of
-- the gates can be skipped, and no user opens one.
pub paid_passed_gates :
    (moves : List Move)
    → run draft moves ≡ some paid
    → (n : ℕ) → 1 ≤ n
    → n ≤ 5
    → any (passes n) moves ≡ true
paid_passed_gates moves h n low high = passed_between n draft paid moves h (omega arith) high

abbrev machine : ActorKind → Actor
machine k = record { kind = k; role = none; address = none; system = none }

abbrev preparer : Actor
preparer = record {
  kind = ActorKind.user;
  role = some OrgRole.manager;
  address = none;
  system = none;
}

-- The moves from each gate to PAID.
abbrev observed : Actor
observed = machine ActorKind.indexer

abbrev from_ready : List Move
from_ready = (paid, observed) ∷ []

abbrev from_finance : List Move
from_finance = (ready_to_settle, observed) ∷ from_ready

abbrev from_manager : List Move
from_manager = (awaiting_finance, observed) ∷ from_finance

abbrev from_verified : List Move
from_verified = (awaiting_manager, machine ActorKind.system) ∷ from_manager

abbrev from_oracle : List Move
from_oracle = (oracle_verified, observed) ∷ from_verified

abbrev from_validating : List Move
from_validating = (awaiting_oracle, observed) ∷ from_oracle

-- From every state that is not terminal some sequence of admitted moves leads to PAID: no payment
-- is stuck in a state that the table forgot.
pub settles :
    (s : PaymentState) → is_terminal s ≡ false → (moves : List Move) × (run s moves ≡ some paid)
unfolding state_machine run
settles draft live = ((validating, preparer) ∷ from_validating, refl)
settles validating live = (from_validating, refl)
settles awaiting_oracle live = (from_oracle, refl)
settles oracle_verified live = (from_verified, refl)
settles awaiting_manager live = (from_manager, refl)
settles awaiting_finance live = (from_finance, refl)
settles ready_to_settle live = (from_ready, refl)
settles submitting live = (from_ready, refl)
settles confirming live = (from_ready, refl)
settles submission_failed live = ((ready_to_settle, preparer) ∷ from_ready, refl)
settles settlement_failed live = (from_ready, refl)
settles reconciliation_required live = (from_ready, refl)
settles paid live = cc
settles rejected live = cc
settles cancelled live = cc
settles expired live = cc
