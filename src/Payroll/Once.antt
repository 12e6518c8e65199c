-- ===== src/Payroll/Once.antt =====
-- `createDraftBatch` of src/lib/payroll/batches.ts as a whole: one payment for each row, once.
use core_flow.Prelude.{
  ℕ, zero, suc, String, string_eq, ◌≡◌, refl, sym, ◌∙◌, ap, ◌⊎◌, inl, inr, true, false, List, [],
  ◌∷◌, ◌++◌, map, length, Option, none, some, filter, option_eq, eq_self, Bool-cases, Option-cases,
  arith,
}
use mathlib.Core.Path.{subst}
use core_flow.Prelude.Table.{find_first, find_first-create}
use core_flow.Money.{Text, sum_amounts}
use core_flow.Tenancy.Resolve.{TenantContext}
use core_flow.Payments.Store.{Payment}
use core_flow.Payroll.Checks.{text_eq}
use core_flow.Payroll.Batches.{
  PayrollBatch, PayrollTables, PayrollRow, CreateDraftBatchInput, CreatedBatch, accepted, refused,
  reference_taken, BatchEnv, trimmed, answer_prior, describe_existing, in_batch, has_key, is_replay,
}
use core_flow.Payroll.Writing.{
  write_batch, created_batch, max_reference_attempts, prior_of, Clash, on_key, on_reference,
  no_clash, clash_of,
}
use core_flow.Payroll.Create.{
  is_malformed, is_empty, reference_for, attempt_batch, answer_or_create, create_draft_batch,
}
use core_flow.Payroll.Drafts.{Answers, IsCreated, PaysAll, clear_cases, write_batch-IsCreated}

module _ (env : BatchEnv) (ctx : TenantContext) (input : CreateDraftBatchInput)
    (seen : PayrollTables) where
  -- The clash of an attempt.
  abbrev clash_at : ℕ → PayrollTables → Clash
  clash_at attempt db =
      clash_of env ctx.org_id (reference_for (trimmed input.reference) db ctx.org_id attempt)
        (prior_of db ctx.org_id (trimmed input.idempotency_key)) db

  attempt_batch-clear :
      (left attempt : ℕ) (db : PayrollTables)
      → clash_at attempt db ≡ no_clash
      → let reference = reference_for (trimmed input.reference) db ctx.org_id attempt in
        attempt_batch env ctx input seen (suc left) attempt db ≡ (
          accepted true (created_batch env ctx input seen reference),
          write_batch env ctx input seen reference (trimmed input.idempotency_key) db,
        )
  unfolding attempt_batch
  attempt_batch-clear left attempt db clear = ground arith

  attempt_batch-prior :
      (left attempt : ℕ) (db : PayrollTables) (prior : PayrollBatch)
      → clash_at attempt db ≡ on_key prior
      → attempt_batch env ctx input seen (suc left) attempt db
        ≡ (answer_prior db ctx.org_id (trimmed input.idempotency_fingerprint) prior, db)
  unfolding attempt_batch
  attempt_batch-prior left attempt db prior held = ground arith

  attempt_batch-taken :
      (left attempt : ℕ) (db : PayrollTables) (s : Text)
      → clash_at attempt db ≡ on_reference
      → trimmed input.reference ≡ some s
      → attempt_batch env ctx input seen (suc left) attempt db
        ≡ (refused 409 (some reference_taken), db)
  unfolding attempt_batch
  attempt_batch-taken left attempt db s held supplied = ground arith

  attempt_batch-next :
      (left attempt : ℕ) (db : PayrollTables)
      → clash_at attempt db ≡ on_reference
      → trimmed input.reference ≡ none
      → attempt_batch env ctx input seen (suc left) attempt db
        ≡ attempt_batch env ctx input seen left (suc attempt) db
  unfolding attempt_batch
  attempt_batch-next left attempt db held supplied = ground arith

  clash_cases :
      (c : Clash)
      → (c ≡ no_clash) ⊎ (((prior : PayrollBatch) × (c ≡ on_key prior)) ⊎ (c ≡ on_reference))
  clash_cases no_clash = inl refl
  clash_cases (on_key prior) = inr (inl (prior, refl))
  clash_cases on_reference = inr (inr refl)

  answer_prior-Answers :
      (db at : PayrollTables) (f : Option Text) (prior : PayrollBatch)
      → Answers env ctx input db (answer_prior at ctx.org_id f prior, db)
  unfolding answer_prior
  answer_prior-Answers db at f prior =
      elim (Bool-cases (is_replay prior.idempotency_fingerprint f)) [
        | inl same ↦ rw same refl
        | inr other ↦ rw other refl
      ]

  attempt_batch-Answers :
      (left attempt : ℕ) (db : PayrollTables)
      → Answers env ctx input db (attempt_batch env ctx input seen left attempt db)
  unfolding attempt_batch
  attempt_batch-Answers zero attempt db = refl
  attempt_batch-Answers (suc left) attempt db = elim (clash_cases (clash_at attempt db)) [
    | inl clear ↦
        rw (attempt_batch-clear left attempt db clear)
          (write_batch-IsCreated env ctx input seen db _ (clear_cases env ctx.org_id _ _ db clear))
    | inr (inl (prior, held)) ↦
        rw (attempt_batch-prior left attempt db prior held) (answer_prior-Answers db db _ prior)
    | inr (inr held) ↦ elim (Option-cases (trimmed input.reference)) [
      | inl generated ↦
          rw (attempt_batch-next left attempt db held generated)
            (attempt_batch-Answers left (suc attempt) db)
      | inr (s, supplied) ↦ rw (attempt_batch-taken left attempt db s held supplied) refl
    ]
  ]

  answer_or_create-Answers :
      (prior : Option PayrollBatch) (db : PayrollTables)
      → Answers env ctx input db (answer_or_create env ctx input seen prior db)
  unfolding answer_or_create
  answer_or_create-Answers none db = attempt_batch-Answers max_reference_attempts 0 db
  answer_or_create-Answers (some prior) db = answer_prior-Answers db seen _ prior

-- A batch that is reported as created adds one draft payment for each row of the file, in its order,
-- with the row's recipient, amount, rate, hours and period, nothing else to the payments, one batch
-- under the returned id and reference, and one audit event; the reported count and total are those
-- of the new payments; and no batch held the key or the reference before. Any other answer, a replay
-- included, writes nothing.
pub create_draft_batch-Answers :
    (env : BatchEnv) (ctx : TenantContext) (input : CreateDraftBatchInput) (seen db : PayrollTables)
    → Answers env ctx input db (create_draft_batch env ctx input seen db)
unfolding create_draft_batch
create_draft_batch-Answers env ctx input seen db = elim (Bool-cases (is_empty input.rows)) [
  | inl empty ↦ rw empty refl
  | inr some_rows ↦ rw some_rows (elim (Bool-cases (is_malformed (trimmed input.reference))) [
    | inl malformed ↦ rw malformed refl
    | inr fine ↦ rw fine (
        answer_or_create-Answers env ctx input seen
          (prior_of seen ctx.org_id (trimmed input.idempotency_key)) db)
  ])
]

-- ── A request that is repeated ──

filter-paid :
    (env : BatchEnv) (ctx : TenantContext) (input : CreateDraftBatchInput) (rows : List PayrollRow)
    (new old : List Payment)
    → PaysAll env ctx input rows new
    → filter (in_batch ctx.org_id env.batch) old ≡ []
    → filter (in_batch ctx.org_id env.batch) (old ++ new) ≡ new
filter-paid env ctx input [] [] [] pays fresh = refl
filter-paid env ctx input [] (p ∷ new) [] pays fresh = absurd pays
filter-paid env ctx input (r ∷ rows) [] [] pays fresh = absurd pays
filter-paid env ctx input (r ∷ rows) (p ∷ new) [] pays fresh = ground (
  arith,
  pays.0.owned.0,
  pays.0.owned.1,
  eq_self ctx.org_id,
  eq_self env.batch,
  filter-paid env ctx input rows new [] pays.1 refl,
)
filter-paid env ctx input rows new (p ∷ old) pays fresh =
    ground (arith, filter-paid env ctx input rows new old pays)

is_replay_self : (f : Option Text) → is_replay f f ≡ true
is_replay_self none = refl
is_replay_self (some f) = eq_self f

create_draft_batch-IsCreated :
    (env : BatchEnv) (ctx : TenantContext) (input : CreateDraftBatchInput) (seen db : PayrollTables)
    (b : CreatedBatch)
    → (create_draft_batch env ctx input seen db).0 ≡ accepted true b
    → IsCreated env ctx input db (create_draft_batch env ctx input seen db).1 b
create_draft_batch-IsCreated env ctx input seen db b h =
    subst (λ r. Answers env ctx input db (r, (create_draft_batch env ctx input seen db).1)) (h)
      (create_draft_batch-Answers env ctx input seen db)

passes :
    (env : BatchEnv) (ctx : TenantContext) (input : CreateDraftBatchInput) (seen db : PayrollTables)
    (b : CreatedBatch)
    → (create_draft_batch env ctx input seen db).0 ≡ accepted true b
    → (is_empty input.rows ≡ false) × (is_malformed (trimmed input.reference) ≡ false)
unfolding create_draft_batch
passes env ctx input seen db b h = (ground arith, ground arith)

has_key_lem :
    (org : String) (key : Text) (row : PayrollBatch)
    → row.org_id ≡ org
    → row.idempotency_key ≡ some key
    → has_key org key row ≡ true
has_key_lem org key row owner holds = rw (owner, holds) (rw (eq_self org, eq_self (some key)) refl)

-- The batch that was created holds the key.
held_key :
    (env : BatchEnv) (ctx : TenantContext) (input : CreateDraftBatchInput) (db db' : PayrollTables)
    (b : CreatedBatch) (key : Text) (k : IsCreated env ctx input db db' b)
    → trimmed input.idempotency_key ≡ some key
    → prior_of db' ctx.org_id (trimmed input.idempotency_key) ≡ some k.batch.0
held_key env ctx input db db' b key k keyed =
    let row = k.batch.0 in
    let free : find_first (has_key ctx.org_id key) db.batches ≡ none = rw keyed at k.unused.0 in
    let hit : has_key ctx.org_id key row ≡ true =
      has_key_lem ctx.org_id key row k.batch.2.3 (k.batch.3.0 ∙ keyed) in
    rw (keyed, k.batch.1)
      (find_first-create (has_key ctx.org_id key) row db.batches ∙ ground (arith, free, hit))

new_payments :
    (env : BatchEnv) (ctx : TenantContext) (input : CreateDraftBatchInput) (db db' : PayrollTables)
    (b : CreatedBatch) (k : IsCreated env ctx input db db' b)
    → filter (in_batch ctx.org_id env.batch) db.store.payments ≡ []
    → filter (in_batch ctx.org_id k.batch.0.id) db'.store.payments ≡ k.payments.0
new_payments env ctx input db db' b k fresh =
    rw (k.batch.2.0, k.payments.1)
      (filter-paid env ctx input input.rows k.payments.0 db.store.payments k.payments.2 fresh)

answered :
    (again : BatchEnv) (ctx : TenantContext) (input : CreateDraftBatchInput) (db : PayrollTables)
    (row : PayrollBatch)
    → (is_empty input.rows ≡ false) × (is_malformed (trimmed input.reference) ≡ false)
    → prior_of db ctx.org_id (trimmed input.idempotency_key) ≡ some row
    → row.idempotency_fingerprint ≡ trimmed input.idempotency_fingerprint
    → create_draft_batch again ctx input db db
      ≡ (accepted false (describe_existing db ctx.org_id row), db)
unfolding create_draft_batch answer_or_create answer_prior
answered again ctx input db row passes_ held same =
    let agree : is_replay row.idempotency_fingerprint (trimmed input.idempotency_fingerprint)
        ≡ true =
      rw same (is_replay_self (trimmed input.idempotency_fingerprint)) in
    rw (passes_.0, passes_.1, held) (rw agree refl)

-- A request with an idempotency key that has created a batch, under an id that no payment of the
-- organization had, and is sent again: the answer is the same batch, with the same reference, period,
-- number of payments and total, marked as not created, and nothing is written.
pub create_draft_batch-repeat :
    (env again : BatchEnv) (ctx : TenantContext) (input : CreateDraftBatchInput)
    (seen db : PayrollTables) (b : CreatedBatch) (key : Text)
    → trimmed input.idempotency_key ≡ some key
    → filter (in_batch ctx.org_id env.batch) db.store.payments ≡ []
    → (create_draft_batch env ctx input seen db).0 ≡ accepted true b
    → let db' = (create_draft_batch env ctx input seen db).1 in
      (c : CreatedBatch) × (create_draft_batch again ctx input db' db' ≡ (accepted false c, db'))
      × (c.id ≡ b.id)
      × (c.reference ≡ b.reference)
      × ((c.period_start ≡ b.period_start) × (c.period_end ≡ b.period_end))
      × (c.payment_count ≡ b.payment_count)
      × (c.total_base_units ≡ b.total_base_units)
unfolding describe_existing
create_draft_batch-repeat env again ctx input seen db b key keyed fresh h =
    let k = create_draft_batch-IsCreated env ctx input seen db b h in
    let db' = (create_draft_batch env ctx input seen db).1 in
    let row = k.batch.0 in
    let same = new_payments env ctx input db db' b k fresh in
    (
      describe_existing db' ctx.org_id row,
      answered again ctx input db' row (passes env ctx input seen db b h)
          (held_key env ctx input db db' b key k keyed) k.batch.3.1,
      k.batch.2.0 ∙ sym k.batch.2.1,
      k.batch.2.2,
      (k.batch.4.0, k.batch.4.1),
      ap length same ∙ sym k.payments.3,
      ap (λ ps. sum_amounts (map (λ (p : Payment). p.amount_base_units) ps)) same
          ∙ sym k.payments.4,
    )
