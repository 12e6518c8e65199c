-- ===== src/Payroll/Writing.antt =====
-- The transaction of `createDraftBatch` in src/lib/payroll/batches.ts, and what its insert can meet in
-- the two unique indexes.
use core_flow.Prelude.{
  ℕ, suc, String, string_eq, nat_eq, option_eq, Bool, true, false, not, ◌&&◌, ◌||◌, List, [], ◌∷◌,
  ◌++◌, map, Option, none, some, ◌==◌, length, contains, if◌then◌else◌,
}
use core_flow.Prelude.Int.{ℤ}
use core_flow.Prelude.Table.{find_first, create, count}
use core_flow.Money.{Text, sum_amounts}
use core_flow.Tenancy.Resolve.{TenantContext}
use core_flow.Payments.Types.{draft}
use core_flow.Payments.Store.{Payment, MetaValue, AuditEvent}
use core_flow.Payments.Service.{value_or}
use core_flow.Payroll.Checks.{text_eq}
use core_flow.Payroll.Batches.{
  PayrollBatch, Worker, PayrollTables, PayrollRow, CreateDraftBatchInput, CreatedBatch, BatchEnv,
  trimmed, derive_batch_period, has_key, has_reference,
}

-- ── The transaction ──

abbrev pub has_wallet : String → String → Worker → Bool
has_wallet org wallet k = k.org_id == org && k.wallet_address == wallet

-- `workerByAddress.get(recipient) ?? null`
abbrev pub worker_of : PayrollTables → String → String → Option String
worker_of db org wallet = elim (find_first (has_wallet org wallet) db.workers) [
  | none ↦ none
  | some k ↦ some k.id
]

unfoldable pub payment_of :
    BatchEnv → TenantContext → CreateDraftBatchInput → PayrollTables → ℕ → PayrollRow → Payment
payment_of env ctx input seen i row = record {
  id = env.payment i;
  org_id = ctx.org_id;
  batch_id = env.batch;
  project_id = input.project_id;
  escrow_id = none;
  worker_id = worker_of seen ctx.org_id row.recipient;
  recipient_address = row.recipient;
  on_chain_payment_index = none;
  asset_code = input.asset.code;
  asset_contract_id = input.asset.contract_id;
  asset_decimals = input.asset.decimals;
  amount_base_units = row.amount_base_units;
  rate_base_units = row.rate_base_units;
  hours = row.hours;
  period_start = row.period_start;
  period_end = row.period_end;
  source_reference = row.reference;
  state = draft;
  state_updated_at = env.now;
  state_reason = none;
  settlement_tx_hash = none;
  settled_at = none;
}

-- One row in, one payment out.
unfoldable pub payments_from :
    BatchEnv
    → TenantContext
    → CreateDraftBatchInput
    → PayrollTables
    → ℕ
    → List PayrollRow
    → List Payment
payments_from env ctx input seen i [] = []
payments_from env ctx input seen i (row ∷ rows) =
    payment_of env ctx input seen i row ∷ payments_from env ctx input seen (suc i) rows

abbrev pub or_null : Option String → MetaValue
or_null none = MetaValue.null
or_null (some s) = MetaValue.text s

abbrev pub label_or_null : Option Text → MetaValue
label_or_null none = MetaValue.null
label_or_null (some s) = MetaValue.label s

abbrev pub total_of : List PayrollRow → ℤ
total_of rows = sum_amounts (map (λ (r : PayrollRow). r.amount_base_units) rows)

unfoldable pub batch_event :
    BatchEnv → TenantContext → CreateDraftBatchInput → Text → Option Text → AuditEvent
batch_event env ctx input reference key = record {
  org_id = ctx.org_id;
  type = "payroll.batch.created";
  actor_address = some ctx.wallet_address;
  actor_system = none;
  payment_id = none;
  batch_id = some env.batch;
  escrow_id = none;
  previous_state = none;
  new_state = none;
  tx_hash = none;
  metadata =
      ("reference", MetaValue.label reference)
      ∷ (("paymentCount", MetaValue.number (length input.rows))
          ∷ (("totalBaseUnits", MetaValue.printed (total_of input.rows))
              ∷ (("asset", MetaValue.text input.asset.code)
                  ∷ (("assetContractId", or_null input.asset.contract_id)
                      ∷ (("sourceFilename", or_null input.source_filename)
                          ∷ ((
                            "sourceRowCount",
                            MetaValue.number (value_or input.source_row_count (length input.rows)),
                          )
                              ∷ (("sourceChecksum", or_null input.source_checksum)
                                  ∷ (("uploadedByUserId", MetaValue.text ctx.user_id)
                                      ∷ (("idempotencyKey", label_or_null key) ∷ [])))))))));
}

unfoldable pub new_batch :
    BatchEnv → TenantContext → CreateDraftBatchInput → Text → Option Text → PayrollBatch
new_batch env ctx input reference key = record {
  id = env.batch;
  org_id = ctx.org_id;
  project_id = input.project_id;
  reference = reference;
  period_start = (derive_batch_period input.rows).0;
  period_end = (derive_batch_period input.rows).1;
  source_filename = input.source_filename;
  source_row_count = some (value_or input.source_row_count (length input.rows));
  source_checksum = input.source_checksum;
  idempotency_key = key;
  idempotency_fingerprint = trimmed input.idempotency_fingerprint;
  uploaded_by = some ctx.user_id;
  created_at = env.now;
}

unfoldable pub write_batch :
    BatchEnv
    → TenantContext
    → CreateDraftBatchInput
    → PayrollTables
    → Text
    → Option Text
    → PayrollTables
    → PayrollTables
write_batch env ctx input seen reference key db = record db {
  store = record db.store {
    payments = db.store.payments ++ payments_from env ctx input seen 0 input.rows;
    audit_events = create (batch_event env ctx input reference key) db.store.audit_events;
  };
  batches = create (new_batch env ctx input reference key) db.batches;
}

-- `Array.from(new Set(...))`, of which the last of equal ones is kept: only their number is used.
abbrev pub distinct : List String → List String
distinct [] = []
distinct (a ∷ rest) = let kept = distinct rest in if contains a rest then kept else a ∷ kept

unfoldable pub created_batch :
    BatchEnv → TenantContext → CreateDraftBatchInput → PayrollTables → Text → CreatedBatch
created_batch env ctx input seen reference = record {
  id = env.batch;
  reference = reference;
  payment_count = length input.rows;
  period_start = (derive_batch_period input.rows).0;
  period_end = (derive_batch_period input.rows).1;
  total_base_units = total_of input.rows;
  unlinked_recipients =
      count (λ wallet. worker_of seen ctx.org_id wallet == none)
        (distinct (map (λ (r : PayrollRow). r.recipient) input.rows));
}

-- ── The attempts ──

abbrev pub max_reference_attempts : ℕ
max_reference_attempts = 5

abbrev pub is_some {ℓ} : {A : Type ℓ} → Option A → Bool
is_some none = false
is_some (some a) = true

-- The batch that holds the key.
abbrev pub prior_of : PayrollTables → String → Option Text → Option PayrollBatch
prior_of db org none = none
prior_of db org (some key) = find_first (has_key org key) db.batches

abbrev pub is_taken : PayrollTables → String → Text → Bool
is_taken db org reference = is_some (find_first (has_reference org reference) db.batches)

-- What the insert of the batch meets: a batch that holds the key, or the reference, or neither.
pub data Clash : Type 0 where
  on_key : PayrollBatch → Clash
  on_reference no_clash : Clash

unfoldable pub clash_of : BatchEnv → String → Text → Option PayrollBatch → PayrollTables → Clash
clash_of env org reference none db = if is_taken db org reference then on_reference else no_clash
clash_of env org reference (some prior) db =
    if env.key_first || not (is_taken db org reference) then on_key prior else on_reference
