-- ===== src/Payments/Outcomes.antt =====
-- What the actions do on the payments that they meet: a second settlement attempt, and the
-- decision that a rejection leaves.
use core_flow.Prelude.{
  ℕ, String, ◌≡◌, refl, ◌∙◌, ap, inl, inr, Bool, true, List, [], ◌∷◌, Option, none, some, string_eq,
  find?-none, find?-passes, eq_self, option_eq, Bool-cases, Option-cases, arith,
}
use core_flow.Prelude.Table.{find_first, create, upsert}
use core_flow.Roles.{OrgRole, org_role_eq}
use core_flow.Tenancy.Resolve.{allowed}
use core_flow.Payments.Types.{PaymentState, submitting, rejected, payment_state_eq}
use core_flow.Payments.Store.{Payment, Approval, ApprovalDecision, Store}
use core_flow.Payments.Service
use core_flow.Payments.Service.{
  TransitionOutcome, changed, unchanged, TransitionRequest, truthy, is_row, read_payment,
  apply_transition, apply_read, apply_found,
}
use core_flow.Payments.Transfer.{Reports, apply_read-Reports}
use core_flow.Payments.Arrival.{Stands, apply_transition-Stands}
use core_flow.Payments.Actions.{
  ActionContext, Environment, Body, done, plain_body, find_payment, outcome_to_result, is_approval,
}
use core_flow.Payments.Requests.{
  has_key, view, submit_request, create_transaction, attempt_of, record_attempt, submit_with_key,
  submit_payment_for_settlement, decline_role, declined_half, turned_down, reject_request,
  is_too_short, decline, after_reject, reject_payment,
}
use core_flow.Payments.Submission.{locates, located}

-- A request for the state that the payment is already in.
arrived_already :
    (req : TransitionRequest) (now : ℕ) (db : Store) (payment : Payment)
    → find_first (is_row req.payment_id req.org_id) db.payments ≡ some payment
    → payment.state ≡ req.to
    → apply_transition req now db ≡ (unchanged req.to, db)
unfolding apply_transition apply_read apply_found read_payment
arrived_already req now db payment found there = rw (found, there) (rw (eq_self req.to))

fresh_attempt :
    (env : Environment) (ctx : ActionContext) (key : String) (payment : Payment) (db : Store)
    → find_first (has_key key) db.transactions ≡ none
    → record_attempt env ctx key payment (unchanged submitting) db
      ≡ some (
        done 200 (record (plain_body submitting) {
          previous_state = some submitting;
          transaction = some (view (attempt_of env ctx key payment db));
        }),
        record db { transactions = create (attempt_of env ctx key payment db) db.transactions },
      )
unfolding record_attempt create_transaction outcome_to_result attempt_of
fresh_attempt env ctx key payment db fresh =
    let new = find?-none (has_key key) db.transactions fresh in ground arith

-- A key not seen before, for a payment that is SUBMITTING already, records one more settlement
-- attempt beside the one in flight, whatever the role of the caller.
pub submit_payment_for_settlement_again :
    (env : Environment) (ctx : ActionContext) (db : Store) (key : String) (payment : Payment)
    → truthy ctx.idempotency_key ≡ some key
    → find_payment db ctx.membership ctx.payment_id ≡ allowed payment
    → payment.state ≡ submitting
    → find_first (has_key key) db.transactions ≡ none
    → submit_payment_for_settlement env ctx db
      ≡ some (
        done 200 (record (plain_body submitting) {
          previous_state = some submitting;
          transaction = some (view (attempt_of env ctx key payment db));
        }),
        record db { transactions = create (attempt_of env ctx key payment db) db.transactions },
      )
unfolding submit_payment_for_settlement submit_with_key
submit_payment_for_settlement_again env ctx db key payment given found there fresh =
    let here = find?-passes (locates ctx) db.payments payment (located db ctx payment found) in
    let same_id : payment.id ≡ ctx.payment_id = ground arith in
    let row : find_first (is_row payment.id ctx.membership.org_id) db.payments ≡ some payment =
      ap (λ (id : String). find_first (is_row id ctx.membership.org_id) db.payments) same_id
      ∙ located db ctx payment found in
    let idle = arrived_already (submit_request ctx key payment) env.now db payment row there in
    let attempt = fresh_attempt env ctx key payment db fresh in ground arith

find_first-upsert :
    (p : Approval → Bool) (a : Approval) (f : Approval → Approval) (rows : List Approval)
    → p a ≡ true
    → ((r : Approval) → p r ≡ true → p (f r) ≡ true)
    → find_first p (upsert p a f rows)
      ≡ elim (find_first p rows) [ none ↦ some a | some r ↦ some (f r) ]
find_first-upsert p a f [] own keep = ground arith
find_first-upsert p a f (r ∷ rows) own keep =
    ground (arith, keep r, find_first-upsert p a f rows own keep)

abbrev half_in : Store → String → OrgRole → Option Approval
half_in db payment role = find_first (is_approval payment role) db.approvals

-- The decision that a rejection leaves for the caller's half of the gate.
abbrev pub Declined : ActionContext → Payment → Store → Store → Type 0
Declined ctx payment before after =
    (a : Approval) × (half_in after payment.id (decline_role ctx.membership.role) ≡ some a)
    × (a.decision ≡ ApprovalDecision.rejected)
    × (a.reason ≡ ctx.reason)
    × (a.actor_address ≡ elim (half_in before payment.id (decline_role ctx.membership.role)) [
      | none ↦ ctx.membership.wallet_address
      | some earlier ↦ earlier.actor_address
    ])

decline-Declined :
    (ctx : ActionContext) (payment : Payment) (db db1 : Store)
    → db1.approvals ≡ db.approvals
    → Declined ctx payment db (decline ctx payment db1)
unfolding decline
decline-Declined ctx payment db db1 same =
    let half = is_approval payment.id (decline_role ctx.membership.role) in
    let own : half (declined_half ctx payment) ≡ true =
      rw (eq_self payment.id) (eq_self (decline_role ctx.membership.role)) in
    let written : find_first half (decline ctx payment db1).approvals
        ≡ elim (find_first half db.approvals) [
          | none ↦ some (declined_half ctx payment)
          | some r ↦ some (turned_down ctx r)
        ] =
      ap (λ rows. find_first half (upsert half (declined_half ctx payment) (turned_down ctx) rows))
        same
      ∙ find_first-upsert half (declined_half ctx payment) (turned_down ctx) db.approvals own
          (λ r hit. hit) in
    elim (Option-cases (find_first half db.approvals)) [
      | inl none_yet ↦ (declined_half ctx payment, ground arith, refl, refl, ground arith)
      | inr (r, earlier) ↦ (turned_down ctx r, ground arith, refl, refl, ground arith)
    ]

reports :
    (req : TransitionRequest) (now : ℕ) (db : Store) → Reports req db (apply_transition req now db)
unfolding apply_transition
reports req now db = apply_read-Reports req now db db

decline-Stands :
    (id org : String) (s : PaymentState) (ctx : ActionContext) (payment : Payment) (db : Store)
    → Stands id org s db
    → Stands id org s (decline ctx payment db)
unfolding decline
decline-Stands id org s ctx payment db h = h

after_reject-Declined :
    (ctx : ActionContext) (payment : Payment) (req : TransitionRequest) (db db' : Store) (b : Body)
    (out : TransitionOutcome × Store)
    → Reports req db out
    → ((x y : PaymentState) → out.0 ≡ changed x y → Stands req.payment_id req.org_id req.to out.1)
    → after_reject ctx payment out ≡ some (done 200 b, db')
    → b.changed ≡ true
    → Stands req.payment_id req.org_id req.to db' × Declined ctx payment db db'
unfolding outcome_to_result
after_reject-Declined ctx payment req db db' b (Service.denied status code, db1) r m h c =
    absurd (ground arith)
after_reject-Declined ctx payment req db db' b (unchanged s, db1) r m h c = absurd (ground arith)
after_reject-Declined ctx payment req db db' b (changed x y, db1) r m h c =
    let same : db' ≡ decline ctx payment db1 = ground arith in
    rw same (
      decline-Stands req.payment_id req.org_id req.to ctx payment db1 (m x y refl),
      decline-Declined ctx payment db db1 r.3,
    )

-- A rejection that reports a change leaves the payment of that id in the caller's organization in
-- the state REJECTED in the table, and leaves a rejected decision with the caller's reason under
-- the caller's half of the gate: under the caller's wallet if that half was undecided, and under
-- the wallet of the earlier decision if it was not.
pub reject_payment-Declined :
    (env : Environment) (ctx : ActionContext) (db db' : Store) (payment : Payment) (b : Body)
    → find_payment db ctx.membership ctx.payment_id ≡ allowed payment
    → reject_payment env ctx db ≡ some (done 200 b, db')
    → b.changed ≡ true
    → Stands payment.id ctx.membership.org_id rejected db' × Declined ctx payment db db'
unfolding reject_payment
reject_payment-Declined env ctx db db' payment b found h c =
    let req = reject_request ctx payment in
    elim (Bool-cases (is_too_short ctx.reason)) [
      | inl short ↦ absurd (ground arith)
      | inr reasoned ↦
          after_reject-Declined ctx payment req db db' b (apply_transition req env.now db)
            (reports req env.now db) (apply_transition-Stands req env.now db) (ground arith) c
    ]
