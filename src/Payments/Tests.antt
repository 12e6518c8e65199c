-- ===== src/Payments/Tests.antt =====
-- Runs of the payment state machine and of the transition service on small tables, and the
-- theorems at inputs that meet their hypotheses.
use text.Mathlib.TextEquality.{eq_iff}
use core_flow.Prelude.{
  ℕ, zero, suc, ◌≤◌, String, ◌≡◌, refl, ◌≢◌, ◌↔◌, ◌⊎◌, inl, inr, Bool, true, false, List, [], ◌∷◌,
  Option, none, some, ◌==◌, filter, any, arith, string_discrete,
}
use core_flow.Prelude.Int.{pos}
use core_flow.Prelude.Table.{Rows}
use core_flow.Roles.{OrgRole}
use core_flow.Payments.Types.{
  draft, validating, awaiting_oracle, oracle_verified, awaiting_manager, awaiting_finance,
  ready_to_settle, submitting, confirming, paid, rejected, cancelled, ActorKind, Actor, Transition,
}
use core_flow.Payments.Transitions.{transitions, is_terminal}
use core_flow.Payments.Check.{
  ok, fail, role_not_permitted, terminal, check_transition, state_machine,
}
use core_flow.Payments.Admission.{Permits, check_transition_sound, check_transition_complete}
use core_flow.Payments.Lifecycle.{Move, run, passes, paid_passed_gates, settles}
use core_flow.Payments.Store.{Payment, Store}
use core_flow.Payments.Service.{
  TransitionRequest, changed, unchanged, denied, concurrent_modification, read_payment, is_unmoved,
  apply_read, apply_transition,
}
use core_flow.Payments.Transfer.{Follows, Reports, apply_read-Follows, apply_read-Reports}
use core_flow.Payments.History.{
  Served, serve, Kept, in_org, serve_keeps, apply_read_isolates, apply_transition_repeat,
}

abbrev indexer : Actor
indexer = record { kind = ActorKind.indexer; role = none; address = none; system = some "indexer" }

abbrev system : Actor
system = record { kind = ActorKind.system; role = none; address = none; system = none }

abbrev manager : Actor
manager = record {
  kind = ActorKind.user;
  role = some OrgRole.manager;
  address = some "GMANAGER";
  system = none;
}

-- A manager cannot exercise the finance half by rejecting in its place.
manager_not_finance : check_transition awaiting_finance rejected manager ≡ fail role_not_permitted
unfolding state_machine
manager_not_finance = refl

paid_is_final : check_transition paid cancelled indexer ≡ fail terminal
unfolding state_machine
paid_is_final = refl

abbrev submit_row : Transition
submit_row = record {
  from = draft;
  to = validating;
  actors = ActorKind.user ∷ [];
  roles = some (OrgRole.owner ∷ OrgRole.admin ∷ OrgRole.manager ∷ []);
  reason = "Submitted for validation by whoever is preparing the batch.";
}

submit_row-Permits : Permits submit_row manager
unfolding state_machine
submit_row-Permits = record { kind_listed = refl; role_listed = λ _. (OrgRole.manager, refl, refl) }

check_transition_sound_example :
    (submit_row.from ≡ draft)
    × (submit_row.to ≡ validating)
    × core_flow.Prelude.Member submit_row transitions
    × Permits submit_row manager
    × (is_terminal draft ≡ false)
unfolding state_machine
check_transition_sound_example = check_transition_sound draft validating manager submit_row refl

check_transition_complete_example :
    check_transition submit_row.from submit_row.to manager ≡ ok submit_row
unfolding state_machine
check_transition_complete_example =
    check_transition_complete submit_row manager (inl refl) submit_row-Permits

abbrev settle_row : Transition
settle_row = record {
  from = confirming;
  to = paid;
  actors = ActorKind.indexer ∷ ActorKind.reconciler ∷ [];
  roles = none;
  reason =
      "A confirmed `payment/paid` event was observed in the contract log, which the contract emits only after the SAC transfer for that payee succeeded.";
}

abbrev whole_life : List Move
whole_life =
    (validating, manager)
    ∷ (awaiting_oracle, indexer)
    ∷ (oracle_verified, indexer)
    ∷ (awaiting_manager, system)
    ∷ (awaiting_finance, indexer)
    ∷ (ready_to_settle, indexer)
    ∷ (submitting, manager)
    ∷ (confirming, system)
    ∷ (paid, indexer)
    ∷ []

paid_passed_gates_example : any (passes 4) whole_life ≡ true
unfolding state_machine run
paid_passed_gates_example = paid_passed_gates whole_life refl 4 (omega arith) (omega arith)

settles_example : (moves : List Move) × (run awaiting_oracle moves ≡ some paid)
unfolding state_machine
settles_example = settles awaiting_oracle refl

abbrev payment_a : Payment
payment_a = record {
  id = "pay_1";
  org_id = "org_a";
  batch_id = "bat_1";
  project_id = none;
  escrow_id = some "esc_1";
  worker_id = none;
  recipient_address = "GWORKER";
  on_chain_payment_index = some 0;
  asset_code = "USDC";
  asset_contract_id = some "CUSDC";
  asset_decimals = 7;
  amount_base_units = pos 2505000000;
  rate_base_units = pos 1;
  hours = pos 2505000000;
  period_start = none;
  period_end = none;
  source_reference = none;
  state = confirming;
  state_updated_at = 10;
  state_reason = none;
  settlement_tx_hash = none;
  settled_at = none;
}

abbrev payment_b : Payment
payment_b = record payment_a { id = "pay_2"; org_id = "org_b" }

abbrev db : Store
db = record {
  payments = payment_a ∷ payment_b ∷ [];
  approvals = [];
  transactions = [];
  audit_events = [];
}

-- The same tables after another request has settled the payment.
abbrev db_settled : Store
db_settled = record db { payments = record payment_a { state = paid } ∷ payment_b ∷ [] }

abbrev settle : TransitionRequest
settle = record {
  payment_id = "pay_1";
  to = paid;
  actor = indexer;
  org_id = "org_a";
  reason = none;
  tx_hash = some "abc";
  metadata = [];
  settled_at = none;
}

settle_runs : (apply_transition settle 20 db).0 ≡ changed confirming paid
unfolding apply_transition apply_read read_payment core_flow.Payments.Service.apply_found
    core_flow.Payments.Service.swap_state core_flow.Payments.Service.is_unmoved state_machine
    string_discrete core_flow.Prelude.ℕ_discrete
settle_runs = refl

apply_read-Follows_example :
    Rows (Follows settle) db.payments (apply_read settle 20 (read_payment settle db) db).1.payments
apply_read-Follows_example = apply_read-Follows settle 20 db db

apply_read-Reports_example : Reports settle db (apply_read settle 20 (read_payment settle db) db)
apply_read-Reports_example = apply_read-Reports settle 20 db db

abbrev history : List Served
history =
    record { seen = db; now = 20; request = settle }
    ∷ record { seen = db; now = 21; request = settle }
    ∷ []

serve_keeps_example : Rows (Kept history) db.payments (serve history db).payments
serve_keeps_example = serve_keeps history db

-- The same payments of the organization, and another one's.
abbrev db_elsewhere : Store
db_elsewhere = record db { payments = record payment_b { id = "pay_1" } ∷ payment_a ∷ [] }

apply_read_isolates_example :
    (apply_read settle 20 (read_payment settle db_elsewhere) db
      ≡ apply_read settle 20 (read_payment settle db) db)
    × (filter (in_org "org_b") (apply_read settle 20 (read_payment settle db) db).1.payments
        ≡ filter (in_org "org_b") db.payments)
unfolding string_discrete
apply_read_isolates_example =
    apply_read_isolates settle 20 db db_elsewhere db "org_b" refl
      (ground (arith, eq_iff "org_b" "org_a"))

apply_transition_repeat_example :
    let db' = (apply_transition settle 20 db).1 in
    apply_transition settle 30 db' ≡ (unchanged paid, db')
apply_transition_repeat_example =
    apply_transition_repeat settle 20 30 db confirming paid settle_runs
