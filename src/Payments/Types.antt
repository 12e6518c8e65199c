-- ===== src/Payments/Types.antt =====
-- The types of src/lib/payments/state-machine.ts, and `enum PaymentState` of prisma/schema.prisma.
use core_flow.Prelude.{Eq, String, List, [], ◌∷◌, Option}
use core_flow.Roles.{OrgRole}

pub data PaymentState : Type 0 where
  draft validating awaiting_oracle oracle_verified awaiting_manager awaiting_finance ready_to_settle
        submitting confirming paid rejected cancelled expired submission_failed settlement_failed
        reconciliation_required :
      PaymentState

unfoldable pub PaymentState-discrete : Discrete PaymentState
PaymentState-discrete = hlevel

instance abbrev pub payment_state_eq : Eq PaymentState
payment_state_eq = record { dec = PaymentState-discrete }

pub data ActorKind : Type 0 where
  user indexer reconciler system : ActorKind

unfoldable pub ActorKind-discrete : Discrete ActorKind
ActorKind-discrete = hlevel

instance abbrev pub actor_kind_eq : Eq ActorKind
actor_kind_eq = record { dec = ActorKind-discrete }

pub record Actor : Type 0 where
  pub kind : ActorKind
  pub role : Option OrgRole
  pub address : Option String
  pub system : Option String

pub record Transition : Type 0 where
  pub from : PaymentState
  pub to : PaymentState
  pub actors : List ActorKind
  pub roles : Option (List OrgRole)
  pub reason : String

abbrev pub administrative : List OrgRole
administrative = OrgRole.owner ∷ OrgRole.admin ∷ []

-- The actors whose authority is that the chain says so.
abbrev pub chain_observers : List ActorKind
chain_observers = ActorKind.indexer ∷ ActorKind.reconciler ∷ []
