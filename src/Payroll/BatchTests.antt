-- ===== src/Payroll/BatchTests.antt =====
-- A batch of two rows, created and asked for again.
use core_flow.Prelude.{
  ◌≡◌, refl, true, false, [], ◌∷◌, none, some, ℕ_discrete, string_discrete, option_discrete,
}
use core_flow.Prelude.Int.{pos, ◌+ℤ◌}
use core_flow.Prelude.Text.{codes, trim, trim_start}
use core_flow.Money.Amount.{sum_amounts}
use core_flow.Roles.{OrgRole}
use core_flow.Tenancy.Resolve.{TenantContext}
use core_flow.Payroll.Batches.{
  PayrollTables, PayrollRow, CreateDraftBatchInput, CreatedBatch, accepted, BatchEnv, trimmed,
  has_reference_format, derive_batch_period,
}
use core_flow.Payroll.Writing.{clash_of, created_batch}
use core_flow.Payroll.Create.{answer_or_create, attempt_batch, create_draft_batch}
use core_flow.Payroll.Drafts.{Answers}
use core_flow.Payroll.Once.{create_draft_batch-Answers, create_draft_batch-repeat}

abbrev manager : TenantContext
manager = record {
  org_id = "o1";
  org_name = "One";
  org_slug = "one";
  user_id = "u1";
  wallet_address = "GM";
  role = OrgRole.manager;
}

abbrev env : BatchEnv
env = record { now = 1000; batch = "b1"; payment = λ n. "p"; key_first = true }

abbrev row : PayrollRow
row = record {
  recipient = "GW";
  amount_base_units = pos 700;
  rate_base_units = pos 100;
  hours = pos 7;
  period_start = some (pos 10);
  period_end = some (pos 20);
  reference = none;
}

abbrev march : CreateDraftBatchInput
march = record {
  rows = row ∷ (record row { amount_base_units = pos 300; hours = pos 3 }) ∷ [];
  asset = record { code = "USDC"; decimals = 7; contract_id = some "CU" };
  reference = some (codes "March");
  project_id = none;
  source_filename = none;
  source_row_count = none;
  source_checksum = none;
  idempotency_key = some (codes "k1");
  idempotency_fingerprint = some (codes "f1");
}

abbrev empty : PayrollTables
empty = record {
  store = record { payments = []; approvals = []; transactions = []; audit_events = [] };
  batches = [];
  workers = [];
}

create_draft_batch-Answers_example :
    Answers env manager march empty (create_draft_batch env manager march empty empty)
create_draft_batch-Answers_example = create_draft_batch-Answers env manager march empty empty

abbrev march_batch : CreatedBatch
march_batch = record {
  id = "b1";
  reference = codes "March";
  payment_count = 2;
  period_start = some (pos 10);
  period_end = some (pos 20);
  total_base_units = pos 1000;
  unlinked_recipients = 1;
}

key_kept : trimmed march.idempotency_key ≡ some (codes "k1")
unfolding trim trim_start ℕ_discrete
key_kept = refl

created_lem : (create_draft_batch env manager march empty empty).0 ≡ accepted true march_batch
unfolding create_draft_batch trim trim_start has_reference_format ℕ_discrete answer_or_create
    attempt_batch clash_of created_batch derive_batch_period sum_amounts string_discrete ◌+ℤ◌
    option_discrete
created_lem = refl

create_draft_batch-repeat_example :
    let db = (create_draft_batch env manager march empty empty).1 in
    (c : CreatedBatch) × (create_draft_batch env manager march db db ≡ (accepted false c, db))
    × (c.id ≡ "b1")
    × (c.reference ≡ codes "March")
    × ((c.period_start ≡ some (pos 10)) × (c.period_end ≡ some (pos 20)))
    × (c.payment_count ≡ 2)
    × (c.total_base_units ≡ pos 1000)
create_draft_batch-repeat_example =
    create_draft_batch-repeat env env manager march empty empty march_batch (codes "k1") key_kept
      refl created_lem
