-- ===== src/Payments/ActionTests.antt =====
-- Runs of the payment actions on small tables, and their theorems at inputs that meet their
-- hypotheses.
use core_flow.Prelude.{
  length, filter, Member, contains, ◌==◌, ℕ, String, ◌≡◌, refl, Bool, true, false, List, [], ◌∷◌,
  ◌++◌, Option, none, some, arith, string_discrete, option_discrete,
}
use core_flow.Prelude.Int.{pos}
use core_flow.Prelude.Table.{create}
use core_flow.Roles.{OrgRole, OrgRole-discrete}
use core_flow.Tenancy.Resolve.{TenantContext, scoped}
use core_flow.Payments.Types.{
  PaymentState, PaymentState-discrete, submitting, rejected, awaiting_manager, paid,
  settlement_failed, payment_state_eq,
}
use core_flow.Payments.Rollup.{BatchPayment}
use core_flow.Payments.Check.{state_machine}
use core_flow.Payments.Store.{Payment, TxStatus, BlockchainTransaction, Store}
use core_flow.Payments.Service.{
  apply_transition, apply_read, apply_found, read_payment, swap_state, is_unmoved,
}
use core_flow.Payments.Actions.{
  ActionContext, Environment, Body, done, plain_body, find_payment, approve_payment, new_approval,
  outcome_to_result,
}
use core_flow.Payments.Requests.{
  view, reject_request, attempt_of, submit_payment_for_settlement, reject_payment, decline,
  is_too_short,
}
use core_flow.Payments.Decisions.{Separated, Answers, SameOther, approve_payment-Answers}
use core_flow.Payments.Submission.{Replays, submit_payment_for_settlement-Replays}
use core_flow.Payments.Arrival.{Stands}
use core_flow.Payments.Outcomes.{
  Declined, submit_payment_for_settlement_again, reject_payment-Declined,
}

abbrev payment_in : PaymentState → Payment
payment_in s = record {
  id = "pay_1";
  org_id = "org_a";
  batch_id = "bat_1";
  project_id = none;
  escrow_id = some "esc_1";
  worker_id = none;
  recipient_address = "GWORKER";
  on_chain_payment_index = some 0;
  asset_code = "USDC";
  asset_contract_id = some "CUSDC";
  asset_decimals = 7;
  amount_base_units = pos 2505000000;
  rate_base_units = pos 1;
  hours = pos 2505000000;
  period_start = none;
  period_end = none;
  source_reference = none;
  state = s;
  state_updated_at = 10;
  state_reason = none;
  settlement_tx_hash = none;
  settled_at = none;
}

abbrev desk : PaymentState → Store
desk s = record {
  payments = payment_in s ∷ [];
  approvals = [];
  transactions = [];
  audit_events = [];
}

abbrev member_of : OrgRole → TenantContext
member_of role = record {
  org_id = "org_a";
  org_name = "A";
  org_slug = "a";
  user_id = "u1";
  wallet_address = "GONE";
  role = role;
}

abbrev request : OrgRole → ActionContext
request role = record {
  membership = member_of role;
  payment_id = "pay_1";
  idempotency_key = some "k1";
  reason = some "wrong hours";
}

abbrev env : Environment
env = record { now = 50; fresh_id = "tx_1" }

-- The half that is approved was decided by another wallet after the reads.
abbrev raced_desk : Store
raced_desk = record (desk awaiting_manager) {
  approvals =
      record (new_approval (request OrgRole.admin) (payment_in awaiting_manager) OrgRole.manager) {
        actor_address = "GTWO";
      }
      ∷ [];
}

raced_desk-Separated : Separated raced_desk
unfolding OrgRole-discrete
raced_desk-Separated p w held = ground arith

raced_desk-SameOther : SameOther (request OrgRole.admin) (desk awaiting_manager) raced_desk
unfolding string_discrete
raced_desk-SameOther p found = ground arith

approve_payment-Answers_example :
    Answers
      (request OrgRole.admin)
      (desk awaiting_manager)
      raced_desk
      (approve_payment (request OrgRole.admin) (desk awaiting_manager) raced_desk)
approve_payment-Answers_example =
    approve_payment-Answers (request OrgRole.admin) (desk awaiting_manager) raced_desk
      raced_desk-Separated raced_desk-SameOther

-- A worker, whom the table never lets submit, adds an attempt to a payment in flight.
submit_payment_for_settlement_again_example :
    submit_payment_for_settlement env (request OrgRole.worker) (desk submitting)
    ≡ some (
      done 200 (record (plain_body submitting) {
        previous_state = some submitting;
        transaction = some (
            view (
              attempt_of env
                (request OrgRole.worker)
                "k1"
                (payment_in submitting)
                (desk submitting)));
      }),
      record (desk submitting) {
        transactions =
            create
              (attempt_of env
                (request OrgRole.worker)
                "k1"
                (payment_in submitting)
                (desk submitting))
              [];
      },
    )
unfolding find_payment scoped string_discrete
submit_payment_for_settlement_again_example =
    submit_payment_for_settlement_again env (request OrgRole.worker) (desk submitting) "k1"
      (payment_in submitting) refl refl refl refl

abbrev accepted : Body
accepted = record (plain_body submitting) {
  previous_state = some submitting;
  transaction =
      some (record { id = "tx_1"; status = TxStatus.preparing; hash = none; attempt = 1 });
}

abbrev after_accepted : Store
after_accepted = record (desk submitting) {
  transactions =
      attempt_of env (request OrgRole.worker) "k1" (payment_in submitting) (desk submitting) ∷ [];
}

submit_runs :
    submit_payment_for_settlement env (request OrgRole.worker) (desk submitting)
    ≡ some (done 200 accepted, after_accepted)
unfolding attempt_of find_payment scoped string_discrete
submit_runs =
    submit_payment_for_settlement_again env (request OrgRole.worker) (desk submitting) "k1"
      (payment_in submitting) refl refl refl refl

-- The attempt is confirmed by now and the payment settled, and another attempt was recorded.
abbrev progressed : List BlockchainTransaction
progressed =
    record (attempt_of env (request OrgRole.worker) "k1" (payment_in submitting)
      (desk submitting)) { status = TxStatus.confirmed; hash = some "abc" }
    ∷ []

abbrev added_later : List BlockchainTransaction
added_later =
    attempt_of (record env { fresh_id = "tx_9" }) (request OrgRole.owner) "k2" (payment_in paid)
      (desk paid)
    ∷ []

abbrev much_later : Store
much_later = record (desk paid) { transactions = progressed ++ added_later }

submit_payment_for_settlement-Replays_example :
    Replays (record env { fresh_id = "tx_2" }) (request OrgRole.worker) accepted much_later
unfolding find_payment scoped string_discrete
submit_payment_for_settlement-Replays_example =
    submit_payment_for_settlement-Replays env (record env { fresh_id = "tx_2" })
      (request OrgRole.worker) (desk submitting) after_accepted much_later accepted
      (payment_in paid) progressed added_later submit_runs ((refl, refl, refl, refl), tt) refl refl

abbrev turned_away : Store
turned_away =
    decline (request OrgRole.manager) (payment_in awaiting_manager)
      (apply_transition (reject_request (request OrgRole.manager) (payment_in awaiting_manager)) 50
        (desk awaiting_manager)).1

abbrev turned_away_body : Body
turned_away_body = record (plain_body rejected) {
  previous_state = some awaiting_manager;
  changed = true;
}

reject_runs :
    reject_payment env (request OrgRole.manager) (desk awaiting_manager)
    ≡ some (done 200 turned_away_body, turned_away)
unfolding reject_payment is_too_short find_payment scoped outcome_to_result apply_transition
    apply_read apply_found read_payment swap_state is_unmoved state_machine string_discrete
    PaymentState-discrete core_flow.Prelude.ℕ_discrete core_flow.Prelude.Text.utf16_length
    core_flow.Prelude.Text.trim
reject_runs = refl

reject_payment-Declined_example :
    Stands "pay_1" "org_a" rejected turned_away
    × Declined
        (request OrgRole.manager)
        (payment_in awaiting_manager)
        (desk awaiting_manager)
        turned_away
unfolding find_payment scoped string_discrete
reject_payment-Declined_example =
    reject_payment-Declined env (request OrgRole.manager) (desk awaiting_manager) turned_away
      (payment_in awaiting_manager) turned_away_body refl reject_runs refl

abbrev batch : List BatchPayment
batch =
    record { state = paid; amount_base_units = pos 700 }
    ∷ record { state = settlement_failed; amount_base_units = pos 300 }
    ∷ []
