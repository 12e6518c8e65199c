-- ===== src/Indexer/Events.antt =====
-- Contract events, src/lib/indexer/events.ts. The two topics are symbols of the contract, in which no
-- colon stands, so that they are compared one by one where the code joins them by a colon. A payload
-- is what `scValToNative` returns: a scalar or a tuple of scalars. A number that is not negative and
-- a text read as they are; JavaScript's conversions of other values are parameters that give a
-- number. A text that `BigInt` throws at, and a value that `Number` turns into NaN, are left out.
use core_flow.Prelude.{
  ℕ, zero, suc, String, string_eq, Bool, List, [], ◌∷◌, Option, none, some, ◌==◌, ◌&&◌,
  if◌then◌else◌,
}
use core_flow.Prelude.Int.{ℤ, pos}

pub record AddedSlot : Type 0 where
  pub payment_index : ℕ
  pub worker : String
  pub token : String
  pub amount_base_units : ℤ
  pub rate_base_units : ℤ
  pub period_start : ℤ
  pub period_end : ℤ

pub record PaidSlot : Type 0 where
  pub payment_index : ℕ
  pub worker : String
  pub token : String
  pub amount_base_units : ℤ
  pub hours : ℤ

-- The number in front is the escrow's id on the chain.
pub data CoreFlowEvent : Type 0 where
  created : ℕ → (manager : String) → (total_amount : ℤ) → CoreFlowEvent
  payment_added : ℕ → AddedSlot → CoreFlowEvent
  hours : ℕ → (payment_index : ℕ) → (logged : ℤ) → CoreFlowEvent
  manager_approved finance_approved : ℕ → CoreFlowEvent
  payment_paid : ℕ → PaidSlot → CoreFlowEvent
  payment_cancelled : ℕ → (payment_index : ℕ) → CoreFlowEvent
  finalized : ℕ → (total_amount : ℤ) → (count : ℕ) → CoreFlowEvent
  cancelled : ℕ → CoreFlowEvent
  oracle_rotated : ℕ → (rotations : ℕ) → CoreFlowEvent

abbrev pub escrow_id_of : CoreFlowEvent → ℕ
escrow_id_of (CoreFlowEvent.created e m t) = e
escrow_id_of (CoreFlowEvent.payment_added e s) = e
escrow_id_of (CoreFlowEvent.hours e i h) = e
escrow_id_of (CoreFlowEvent.manager_approved e) = e
escrow_id_of (CoreFlowEvent.finance_approved e) = e
escrow_id_of (CoreFlowEvent.payment_paid e s) = e
escrow_id_of (CoreFlowEvent.payment_cancelled e i) = e
escrow_id_of (CoreFlowEvent.finalized e t c) = e
escrow_id_of (CoreFlowEvent.cancelled e) = e
escrow_id_of (CoreFlowEvent.oracle_rotated e r) = e

-- `ev.kind`
unfoldable pub kind_of : CoreFlowEvent → String
kind_of (CoreFlowEvent.created e m t) = "created"
kind_of (CoreFlowEvent.payment_added e s) = "payment_added"
kind_of (CoreFlowEvent.hours e i h) = "hours"
kind_of (CoreFlowEvent.manager_approved e) = "manager_approved"
kind_of (CoreFlowEvent.finance_approved e) = "finance_approved"
kind_of (CoreFlowEvent.payment_paid e s) = "payment_paid"
kind_of (CoreFlowEvent.payment_cancelled e i) = "payment_cancelled"
kind_of (CoreFlowEvent.finalized e t c) = "finalized"
kind_of (CoreFlowEvent.cancelled e) = "cancelled"
kind_of (CoreFlowEvent.oracle_rotated e r) = "oracle_rotated"

unfoldable pub payment_index_of : CoreFlowEvent → Option ℕ
payment_index_of (CoreFlowEvent.payment_added e s) = some s.payment_index
payment_index_of (CoreFlowEvent.hours e i h) = some i
payment_index_of (CoreFlowEvent.payment_paid e s) = some s.payment_index
payment_index_of (CoreFlowEvent.payment_cancelled e i) = some i
payment_index_of _ = none

pub data Scalar : Type 0 where
  number : ℕ → Scalar
  bigint : ℤ → Scalar
  text : String → Scalar
  undefined : Scalar

pub data Value : Type 0 where
  scalar : Scalar → Value
  array : List Scalar → Value

-- `Number(v)`, `BigInt(s)` and `String(v)`, where the result is not the value itself.
pub record Conversions : Type 0 where
  pub number_of : Scalar → ℕ
  pub bigint_of : String → ℤ
  pub text_of : Scalar → String

abbrev pub fields : Value → List Scalar
fields (scalar v) = v ∷ []
fields (array vs) = vs

-- `t[i]`
abbrev pub at : ℕ → List Scalar → Scalar
at i [] = undefined
at zero (v ∷ vs) = v
at (suc i) (v ∷ vs) = at i vs

module _ (conv : Conversions) where
  unfoldable pub to_num : Scalar → ℕ
  to_num (number n) = n
  to_num (bigint (pos n)) = n
  to_num v = conv.number_of v

  unfoldable pub to_big : Scalar → ℤ
  to_big (bigint v) = v
  to_big (number n) = pos n
  to_big (text s) = conv.bigint_of s
  to_big undefined = pos 0

  unfoldable pub to_addr : Scalar → String
  to_addr (text s) = s
  to_addr v = conv.text_of v

  unfoldable pub parse_core_flow_event : (topic0 topic1 : String) → Value → Option CoreFlowEvent
  parse_core_flow_event topic0 topic1 value =
      let t = fields value in
      let is : String → String → Bool = λ a b. topic0 == a && topic1 == b in
      if is "escrow" "created"
      then some (CoreFlowEvent.created (to_num (at 0 t)) (to_addr (at 1 t)) (to_big (at 2 t)))
      else if is "payment" "add"
      then some (
          CoreFlowEvent.payment_added (to_num (at 0 t)) (record {
            payment_index = to_num (at 1 t);
            worker = to_addr (at 2 t);
            token = to_addr (at 3 t);
            amount_base_units = to_big (at 4 t);
            rate_base_units = to_big (at 5 t);
            period_start = to_big (at 6 t);
            period_end = to_big (at 7 t);
          }))
      else if is "hours" "submit"
      then some (CoreFlowEvent.hours (to_num (at 0 t)) (to_num (at 1 t)) (to_big (at 2 t)))
      else if is "approve" "manager"
      then some (CoreFlowEvent.manager_approved (to_num (at 0 t)))
      else if is "approve" "finance"
      then some (CoreFlowEvent.finance_approved (to_num (at 0 t)))
      else if is "payment" "paid"
      then some (
          CoreFlowEvent.payment_paid (to_num (at 0 t)) (record {
            payment_index = to_num (at 1 t);
            worker = to_addr (at 2 t);
            token = to_addr (at 3 t);
            amount_base_units = to_big (at 4 t);
            hours = to_big (at 5 t);
          }))
      else if is "payment" "cancel"
      then some (CoreFlowEvent.payment_cancelled (to_num (at 0 t)) (to_num (at 1 t)))
      else if is "payment" "final"
      then some (CoreFlowEvent.finalized (to_num (at 0 t)) (to_big (at 1 t)) (to_num (at 2 t)))
      else if is "escrow" "cancel"
      then some (CoreFlowEvent.cancelled (to_num (at 0 t)))
      else if is "oracle" "rotate"
      then some (CoreFlowEvent.oracle_rotated (to_num (at 0 t)) (to_num (at 1 t)))
      else none
