-- ===== src/Payroll/Create.antt =====
-- `createDraftBatch` of src/lib/payroll/batches.ts. `seen` is what the request read first, `db` the
-- tables as other requests may have left them when it writes. An error of the database other than a
-- unique index is thrown before anything is written, and left out.
use core_flow.Prelude.{
  ℕ, zero, suc, String, Bool, true, false, not, List, [], ◌∷◌, Option, none, some, if◌then◌else◌,
}
use core_flow.Money.{Text}
use core_flow.Tenancy.Resolve.{TenantContext}
use core_flow.Payroll.Batches.{
  PayrollBatch, PayrollTables, CreateDraftBatchInput, CreateResult, accepted, refused,
  invalid_reference, reference_taken, reference_exhausted, BatchEnv, trimmed, has_reference_format,
  generate_reference, answer_prior,
}
use core_flow.Payroll.Writing.{
  write_batch, created_batch, max_reference_attempts, prior_of, on_key, on_reference, no_clash,
  clash_of,
}

-- A reference that was supplied and does not have the form.
abbrev pub is_malformed : Option Text → Bool
is_malformed none = false
is_malformed (some s) = not (has_reference_format s)

abbrev pub is_empty {ℓ} : {A : Type ℓ} → List A → Bool
is_empty [] = true
is_empty (x ∷ xs) = false

-- `suppliedReference ?? (await generateReference(db, ctx.orgId, attempt))`
abbrev pub reference_for : Option Text → PayrollTables → String → ℕ → Text
reference_for none db org attempt = generate_reference db org attempt
reference_for (some s) db org attempt = s

module _ (env : BatchEnv) (ctx : TenantContext) (input : CreateDraftBatchInput)
    (seen : PayrollTables) where
  -- The attempts that are left; `attempt` is the number of this one.
  unfoldable pub attempt_batch : ℕ → (attempt : ℕ) → PayrollTables → CreateResult × PayrollTables
  attempt_batch zero attempt db = (refused 409 (some reference_exhausted), db)
  attempt_batch (suc left) attempt db =
      let supplied = trimmed input.reference in
      let key = trimmed input.idempotency_key in
      let reference = reference_for supplied db ctx.org_id attempt in
      elim (clash_of env ctx.org_id reference (prior_of db ctx.org_id key) db) [
        | no_clash ↦ (
          accepted true (created_batch env ctx input seen reference),
          write_batch env ctx input seen reference key db,
        )
        | on_key prior ↦
            (answer_prior db ctx.org_id (trimmed input.idempotency_fingerprint) prior, db)
        | on_reference ↦ elim supplied [
          | some s ↦ (refused 409 (some reference_taken), db)
          | none ↦ attempt_batch left (suc attempt) db
        ]
      ]

  -- What follows the lookup of the key.
  unfoldable pub answer_or_create :
      Option PayrollBatch → PayrollTables → CreateResult × PayrollTables
  answer_or_create none db = attempt_batch max_reference_attempts 0 db
  answer_or_create (some prior) db =
      (answer_prior seen ctx.org_id (trimmed input.idempotency_fingerprint) prior, db)

  unfoldable pub create_draft_batch : PayrollTables → CreateResult × PayrollTables
  create_draft_batch db =
      if is_empty input.rows
      then (refused 400 none, db)
      else if is_malformed (trimmed input.reference)
      then (refused 400 (some invalid_reference), db)
      else answer_or_create (prior_of seen ctx.org_id (trimmed input.idempotency_key)) db
