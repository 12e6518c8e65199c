-- ===== src/Payroll/Drafts.antt =====
-- What `createDraftBatch` of src/lib/payroll/batches.ts writes, and what it does not.
use core_flow.Prelude.{
  ℕ, suc, String, string_eq, ◌≡◌, refl, sym, ap, true, false, List, [], ◌∷◌, ◌++◌, map, length,
  Option, none, some, arith,
}
use core_flow.Prelude.Table.{create}
use core_flow.Money.{Text, sum_amounts}
use core_flow.Tenancy.Resolve.{TenantContext}
use core_flow.Payments.Types.{draft}
use core_flow.Payments.Store.{Payment, AuditEvent}
use core_flow.Payroll.Batches.{
  PayrollBatch, PayrollTables, PayrollRow, CreateDraftBatchInput, CreatedBatch, CreateResult,
  accepted, refused, BatchEnv, trimmed,
}
use core_flow.Payroll.Writing.{
  payment_of, payments_from, batch_event, new_batch, write_batch, created_batch, prior_of, is_taken,
  no_clash, clash_of,
}

-- A payment that stands for a row of the file: what it pays is what the row says, and it is a draft
-- that nothing has happened to.
pub record Pays (env : BatchEnv) (ctx : TenantContext) (input : CreateDraftBatchInput)
    (r : PayrollRow) (p : Payment) : Type 0 where
  pub owned : (p.org_id ≡ ctx.org_id) × (p.batch_id ≡ env.batch)
  pub money :
      (p.recipient_address ≡ r.recipient)
      × (p.amount_base_units ≡ r.amount_base_units)
      × (p.rate_base_units ≡ r.rate_base_units)
      × (p.hours ≡ r.hours)
  pub asset :
      (p.asset_contract_id ≡ input.asset.contract_id) × (p.asset_decimals ≡ input.asset.decimals)
  pub period : (p.period_start ≡ r.period_start) × (p.period_end ≡ r.period_end)
  pub untouched :
      (p.state ≡ draft)
      × (p.escrow_id ≡ none)
      × (p.settlement_tx_hash ≡ none)
      × (p.settled_at ≡ none)

-- Row by row, in the order of the file.
abbrev pub PaysAll :
    BatchEnv → TenantContext → CreateDraftBatchInput → List PayrollRow → List Payment → Type 0
PaysAll env ctx input [] [] = Unit
PaysAll env ctx input [] (p ∷ ps) = ⊥
PaysAll env ctx input (r ∷ rs) [] = ⊥
PaysAll env ctx input (r ∷ rs) (p ∷ ps) = Pays env ctx input r p × PaysAll env ctx input rs ps

payments_from-PaysAll :
    (env : BatchEnv) (ctx : TenantContext) (input : CreateDraftBatchInput) (seen : PayrollTables)
    (i : ℕ) (rows : List PayrollRow)
    → PaysAll env ctx input rows (payments_from env ctx input seen i rows)
unfolding payments_from payment_of
payments_from-PaysAll env ctx input seen i [] = tt
payments_from-PaysAll env ctx input seen i (r ∷ rows) = (
  record {
    owned = (refl, refl);
    money = (refl, refl, refl, refl);
    asset = (refl, refl);
    period = (refl, refl);
    untouched = (refl, refl, refl, refl);
  },
  payments_from-PaysAll env ctx input seen (suc i) rows,
)

pub payments_from-amounts :
    (env : BatchEnv) (ctx : TenantContext) (input : CreateDraftBatchInput) (seen : PayrollTables)
    (i : ℕ) (rows : List PayrollRow)
    → map (λ (p : Payment). p.amount_base_units) (payments_from env ctx input seen i rows)
      ≡ map (λ (r : PayrollRow). r.amount_base_units) rows
unfolding payments_from payment_of
payments_from-amounts env ctx input seen i [] = refl
payments_from-amounts env ctx input seen i (r ∷ rows) =
    ap (λ l. r.amount_base_units ∷ l) (payments_from-amounts env ctx input seen (suc i) rows)

pub length-payments_from :
    (env : BatchEnv) (ctx : TenantContext) (input : CreateDraftBatchInput) (seen : PayrollTables)
    (i : ℕ) (rows : List PayrollRow)
    → length (payments_from env ctx input seen i rows) ≡ length rows
unfolding payments_from
length-payments_from env ctx input seen i [] = refl
length-payments_from env ctx input seen i (r ∷ rows) =
    ap suc (length-payments_from env ctx input seen (suc i) rows)

-- The tables after a batch was created, and the summary that is returned.
pub record IsCreated (env : BatchEnv) (ctx : TenantContext) (input : CreateDraftBatchInput)
    (db db' : PayrollTables) (b : CreatedBatch) : Type 0 where
  pub payments :
      (new : List Payment) × (db'.store.payments ≡ db.store.payments ++ new)
      × PaysAll env ctx input input.rows new
      × (b.payment_count ≡ length new)
      × (b.total_base_units ≡ sum_amounts (map (λ (p : Payment). p.amount_base_units) new))
  pub batch :
      (row : PayrollBatch) × (db'.batches ≡ create row db.batches)
      × ((row.id ≡ env.batch)
          × (b.id ≡ env.batch)
          × (row.reference ≡ b.reference)
          × (row.org_id ≡ ctx.org_id))
      × ((row.idempotency_key ≡ trimmed input.idempotency_key)
          × (row.idempotency_fingerprint ≡ trimmed input.idempotency_fingerprint))
      × ((row.period_start ≡ b.period_start) × (row.period_end ≡ b.period_end))
  pub unused :
      (prior_of db ctx.org_id (trimmed input.idempotency_key) ≡ none)
      × (is_taken db ctx.org_id b.reference ≡ false)
  pub audited :
      (e : AuditEvent) × (db'.store.audit_events ≡ create e db.store.audit_events)
      × (e.batch_id ≡ some b.id)
      × (e.actor_address ≡ some ctx.wallet_address)
  pub others : (db'.workers ≡ db.workers) × (db'.store.approvals ≡ db.store.approvals)

abbrev pub Answers :
    BatchEnv
    → TenantContext
    → CreateDraftBatchInput
    → PayrollTables
    → CreateResult × PayrollTables
    → Type 0
Answers env ctx input db (accepted true b, db') = IsCreated env ctx input db db' b
Answers env ctx input db (accepted false b, db') = db' ≡ db
Answers env ctx input db (refused status code, db') = db' ≡ db

pub clear_cases :
    (env : BatchEnv) (org : String) (reference : Text) (prior : Option PayrollBatch)
    (db : PayrollTables)
    → clash_of env org reference prior db ≡ no_clash
    → (prior ≡ none) × (is_taken db org reference ≡ false)
unfolding clash_of
clear_cases env org reference none db clear = (refl, ground arith)
clear_cases env org reference (some prior) db clear = absurd (ground arith)

pub write_batch-IsCreated :
    (env : BatchEnv) (ctx : TenantContext) (input : CreateDraftBatchInput) (seen db : PayrollTables)
    (reference : Text)
    → (prior_of db ctx.org_id (trimmed input.idempotency_key) ≡ none)
      × (is_taken db ctx.org_id reference ≡ false)
    → IsCreated env ctx input db
        (write_batch env ctx input seen reference (trimmed input.idempotency_key) db)
        (created_batch env ctx input seen reference)
unfolding write_batch created_batch batch_event new_batch
write_batch-IsCreated env ctx input seen db reference free = record {
  payments = (
    payments_from env ctx input seen 0 input.rows,
    refl,
    payments_from-PaysAll env ctx input seen 0 input.rows,
    sym (length-payments_from env ctx input seen 0 input.rows),
    sym (ap sum_amounts (payments_from-amounts env ctx input seen 0 input.rows)),
  );
  batch = (
    new_batch env ctx input reference (trimmed input.idempotency_key),
    refl,
    (refl, refl, refl, refl),
    (refl, refl),
    (refl, refl),
  );
  unused = free;
  audited = (batch_event env ctx input reference (trimmed input.idempotency_key), refl, refl, refl);
  others = (refl, refl);
}
