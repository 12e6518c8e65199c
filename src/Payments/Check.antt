-- ===== src/Payments/Check.antt =====
-- `checkTransition` and `assertTransition` of src/lib/payments/state-machine.ts. The error's
-- message, prose for an operator, is left out; its code is kept.
use core_flow.Prelude.{
  Bool, true, false, List, [], ◌∷◌, Option, none, some, not, ◌==◌, contains, if◌then◌else◌,
}
use core_flow.Roles.{OrgRole, org_role_eq, OrgRole-discrete}
use core_flow.Payments.Types.{
  PaymentState, payment_state_eq, PaymentState-discrete, ActorKind, actor_kind_eq,
  ActorKind-discrete, Actor, Transition,
}
use core_flow.Payments.Transitions.{transitions, is_terminal, find_transition}

pub data TransitionErrorCode : Type 0 where
  same_state terminal invalid_transition actor_not_permitted role_not_permitted role_required :
      TransitionErrorCode

pub data TransitionCheck : Type 0 where
  ok : Transition → TransitionCheck
  fail : TransitionErrorCode → TransitionCheck

-- The roles of a transition, with `?? []`.
abbrev pub allowed_roles : Transition → List OrgRole
allowed_roles t = elim t.roles [ none ↦ [] | some roles ↦ roles ]

-- `allowed.length === 0`
abbrev pub is_empty : List OrgRole → Bool
is_empty [] = true
is_empty (_ ∷ _) = false

-- The part of the check that is for users.
unfoldable pub check_user : Transition → Option OrgRole → TransitionCheck
check_user t none =
    if is_empty (allowed_roles t) then fail role_not_permitted else fail role_required
check_user t (some role) =
    if is_empty (allowed_roles t)
    then fail role_not_permitted
    else if not (contains role (allowed_roles t))
    then fail role_not_permitted
    else ok t

unfoldable pub check_actor : Transition → Actor → TransitionCheck
check_actor t actor =
    if not (contains actor.kind t.actors)
    then fail actor_not_permitted
    else if actor.kind == ActorKind.user
    then check_user t actor.role
    else ok t

unfoldable pub check_transition : PaymentState → PaymentState → Actor → TransitionCheck
check_transition from to actor =
    if from == to
    then fail same_state
    else if is_terminal from
    then fail terminal
    else elim (find_transition from to) [
      | none ↦ fail invalid_transition
      | some t ↦ check_actor t actor
    ]

-- For proofs that compute with the whole machine.
unfoldable pub state_machine : Unit {0}
unfolding check_transition is_terminal find_transition transitions check_actor check_user
    PaymentState-discrete ActorKind-discrete OrgRole-discrete
state_machine = tt
