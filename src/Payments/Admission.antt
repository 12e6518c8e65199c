-- ===== src/Payments/Admission.antt =====
-- What `checkTransition` admits, described by the rows of the table.
use core_flow.Prelude.{
  ◌≡◌, refl, inl, inr, true, false, List, [], ◌∷◌, Option, none, some, ◌==◌, eq-eq_true, ◌&&◌,
  contains, Member, find?-passes, find?-Member, Bool-cases, Option-cases, All, All-at, arith,
}
use core_flow.Roles.{OrgRole, org_role_eq}
use core_flow.Payments.Types.{
  PaymentState, payment_state_eq, ActorKind, actor_kind_eq, Actor, Transition,
}
use core_flow.Payments.Transitions.{transitions, is_terminal, find_transition}
use core_flow.Payments.Check.{
  ok, allowed_roles, is_empty, check_user, check_actor, check_transition, state_machine,
}

-- A row that lets the actor pass: its kind is listed, and a user holds a listed role.
pub record Permits (t : Transition) (actor : Actor) : Type 0 where
  pub kind_listed : contains actor.kind t.actors ≡ true
  pub role_listed :
      actor.kind ≡ ActorKind.user
      → (role : OrgRole) × (actor.role ≡ some role) × (contains role (allowed_roles t) ≡ true)

check_user_sound :
    (t u : Transition) (r : Option OrgRole)
    → check_user t r ≡ ok u
    → (u ≡ t) × ((role : OrgRole) × (r ≡ some role) × (contains role (allowed_roles t) ≡ true))
unfolding check_user
check_user_sound t u none h = ground arith
check_user_sound t u (some role) h = elim (Bool-cases (contains role (allowed_roles t))) [
  | inl listed ↦ (ground arith, (role, refl, listed))
  | inr missing ↦ absurd (ground arith)
]

check_actor_sound :
    (t u : Transition) (actor : Actor) → check_actor t actor ≡ ok u → (u ≡ t) × Permits t actor
unfolding check_actor
check_actor_sound t u actor h = elim (Bool-cases (contains actor.kind t.actors)) [
  | inr missing ↦ absurd (ground arith)
  | inl listed ↦ elim (Bool-cases (actor.kind == ActorKind.user)) [
    | inl user ↦
        let s = check_user_sound t u actor.role (ground arith) in
        (s.0, record { kind_listed = listed; role_listed = λ _. s.1 })
    | inr machine ↦
        (ground arith, record { kind_listed = listed; role_listed = λ e. absurd (ground arith) })
  ]
]

find_transition_sound :
    (from to : PaymentState) (t : Transition)
    → find_transition from to ≡ some t
    → (t.from ≡ from) × (t.to ≡ to) × Member t transitions
unfolding find_transition
find_transition_sound from to t h =
    let ends = find?-passes (λ u. u.from == from && u.to == to) transitions t h in
    (ground arith, ground arith, find?-Member _ transitions t h)

-- An admitted move follows a row of the table, between its ends, that lets the actor pass; it does
-- not leave a terminal state.
pub check_transition_sound :
    (from to : PaymentState) (actor : Actor) (t : Transition)
    → check_transition from to actor ≡ ok t
    → (t.from ≡ from)
      × (t.to ≡ to)
      × Member t transitions
      × Permits t actor
      × (is_terminal from ≡ false)
unfolding check_transition
check_transition_sound from to actor t h = elim (Option-cases (find_transition from to)) [
  | inl missing ↦ absurd (ground arith)
  | inr (u, found) ↦
      let s = check_actor_sound u t actor (ground arith) in
      let ends = find_transition_sound from to u found in
      (rw s.0 ends.0, rw s.0 ends.1, rw s.0 ends.2, rw s.0 s.1, ground arith)
]

-- No two rows have the same ends, and none leaves a terminal state or stays where it is.
abbrev IsUsable : Transition → Type 0
IsUsable t =
    (find_transition t.from t.to ≡ some t)
    × (is_terminal t.from ≡ false)
    × ((t.from == t.to) ≡ false)

rows-IsUsable : All IsUsable transitions
unfolding state_machine
rows-IsUsable = ground arith

contains-not_empty : (r : OrgRole) (rs : List OrgRole) → contains r rs ≡ true → is_empty rs ≡ false
contains-not_empty r [] h = cc
contains-not_empty r (x ∷ rs) h = refl

check_user_complete :
    (t : Transition) (role : OrgRole)
    → contains role (allowed_roles t) ≡ true
    → check_user t (some role) ≡ ok t
unfolding check_user
check_user_complete t role h = rw (contains-not_empty role (allowed_roles t) h, h)

check_actor_complete :
    (t : Transition) (actor : Actor) → Permits t actor → check_actor t actor ≡ ok t
unfolding check_actor
check_actor_complete t actor p = elim (Bool-cases (actor.kind == ActorKind.user)) [
  | inl user ↦
      let (role, held, listed) = p.role_listed (eq-eq_true _ _ user) in
      rw (p.kind_listed, user, held) (check_user_complete t role listed)
  | inr machine ↦ rw (p.kind_listed, machine)
]

-- A row of the table that lets the actor pass is admitted between its ends.
pub check_transition_complete :
    (t : Transition) (actor : Actor)
    → Member t transitions
    → Permits t actor
    → check_transition t.from t.to actor ≡ ok t
unfolding check_transition
check_transition_complete t actor m p =
    let (found, live, moves) = All-at IsUsable t transitions rows-IsUsable m in
    rw (moves, live, found) (check_actor_complete t actor p)
