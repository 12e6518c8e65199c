-- ===== src/Payroll/Batches.antt =====
-- The creation of a batch from validated rows, src/lib/payroll/batches.ts. The rows are those of
-- csv.ts, with the recipient as a native text. The two unique indexes are those of the organization's
-- batches on the reference and on the idempotency key; which of them the database reports, where a
-- new batch offends against both, is a parameter. The SHA-256 of checksumCsv is Node crypto.
use core_flow.Prelude.{
  ℕ, ◌+◌, ◌*◌, String, string_eq, nat_eq, option_eq, Bool, true, false, not, ◌&&◌, ◌||◌, List, [],
  ◌∷◌, ◌++◌, map, Option, none, some, ◌==◌, length, filter, all, leb, ltb, if◌then◌else◌,
}
use core_flow.Prelude.Int.{ℤ, leb_ℤ}
use core_flow.Prelude.Text.{codes, trim}
use core_flow.Prelude.Table.{count}
use core_flow.Money.{Text, sum_amounts, to_decimal}
use core_flow.Money.Amount.{pad_start}
use core_flow.Payments.Store.{Payment, Store}
use core_flow.Funding.Eligibility.{SettlementAsset}
use core_flow.Payroll.Checks.{text_eq}

pub record PayrollBatch : Type 0 where
  pub id : String
  pub org_id : String
  pub project_id : Option String
  pub reference : Text
  pub period_start : Option ℤ
  pub period_end : Option ℤ
  pub source_filename : Option String
  pub source_row_count : Option ℕ
  pub source_checksum : Option String
  pub idempotency_key : Option Text
  pub idempotency_fingerprint : Option Text
  pub uploaded_by : Option String
  pub created_at : ℕ

pub record Worker : Type 0 where
  pub id : String
  pub org_id : String
  pub wallet_address : String

pub record PayrollTables : Type 0 where
  pub store : Store
  pub batches : List PayrollBatch
  pub workers : List Worker

-- A row of the file.
pub record PayrollRow : Type 0 where
  pub recipient : String
  pub amount_base_units : ℤ
  pub rate_base_units : ℤ
  pub hours : ℤ
  pub period_start : Option ℤ
  pub period_end : Option ℤ
  pub reference : Option Text

pub record CreateDraftBatchInput : Type 0 where
  pub rows : List PayrollRow
  pub asset : SettlementAsset
  pub reference : Option Text
  pub project_id : Option String
  pub source_filename : Option String
  pub source_row_count : Option ℕ
  pub source_checksum : Option String
  pub idempotency_key : Option Text
  pub idempotency_fingerprint : Option Text

pub record CreatedBatch : Type 0 where
  pub id : String
  pub reference : Text
  pub payment_count : ℕ
  pub period_start : Option ℤ
  pub period_end : Option ℤ
  pub total_base_units : ℤ
  pub unlinked_recipients : ℕ

pub data BatchCode : Type 0 where
  invalid_reference key_reused reference_taken reference_exhausted : BatchCode

pub data CreateResult : Type 0 where
  accepted : (created : Bool) → CreatedBatch → CreateResult
  refused : (status : ℕ) → Option BatchCode → CreateResult

-- The ids of the new rows, the time, and the index that is reported first.
pub record BatchEnv : Type 0 where
  pub now : ℕ
  pub batch : String
  pub payment : ℕ → String
  pub key_first : Bool

-- ── Small pieces ──

abbrev pub non_empty : Text → Option Text
non_empty [] = none
non_empty (c ∷ s) = some (c ∷ s)

-- `value?.trim() || null`
abbrev pub trimmed : Option Text → Option Text
trimmed none = none
trimmed (some s) = non_empty (trim s)

abbrev pub is_alphanumeric : ℕ → Bool
is_alphanumeric c =
    (leb b'0' c && leb c b'9') || (leb b'A' c && leb c b'Z') || (leb b'a' c && leb c b'z')

abbrev pub is_reference_code : ℕ → Bool
is_reference_code c =
    is_alphanumeric c || c == b'.' || c == b'_' || c == b'-' || c == b'/' || c == b' '

-- `REFERENCE_FORMAT`
unfoldable pub has_reference_format : Text → Bool
has_reference_format [] = false
has_reference_format (c ∷ s) = is_alphanumeric c && all is_reference_code s && leb (length s) 62

abbrev pub earlier : Option ℤ → Option ℤ → Option ℤ
earlier old none = old
earlier none (some t) = some t
earlier (some u) (some t) = if leb_ℤ u t then some u else some t

abbrev pub later : Option ℤ → Option ℤ → Option ℤ
later old none = old
later none (some t) = some t
later (some u) (some t) = if leb_ℤ t u then some u else some t

abbrev pub period_from : Option ℤ × Option ℤ → List PayrollRow → Option ℤ × Option ℤ
period_from p [] = p
period_from p (r ∷ rows) = period_from (earlier p.0 r.period_start, later p.1 r.period_end) rows

unfoldable pub derive_batch_period : List PayrollRow → Option ℤ × Option ℤ
derive_batch_period rows = period_from (none, none) rows

abbrev pub in_org : String → PayrollBatch → Bool
in_org org b = b.org_id == org

-- `CF-${String(existing + 1 + attempt).padStart(5, '0')}`
unfoldable pub generate_reference : PayrollTables → String → ℕ → Text
generate_reference db org attempt =
    codes "CF-" ++ pad_start 5 (to_decimal (count (in_org org) db.batches + 1 + attempt))

-- `where: { orgId, idempotencyKey }`
abbrev pub has_key : String → Text → PayrollBatch → Bool
has_key org key b = b.org_id == org && b.idempotency_key == some key

abbrev pub has_reference : String → Text → PayrollBatch → Bool
has_reference org reference b = b.org_id == org && b.reference == reference

-- `where: { orgId, batchId }`
abbrev pub in_batch : String → String → Payment → Bool
in_batch org batch p = p.org_id == org && p.batch_id == batch

abbrev pub is_unlinked : Payment → Bool
is_unlinked p = p.worker_id == none

unfoldable pub describe_existing : PayrollTables → String → PayrollBatch → CreatedBatch
describe_existing db org b =
    let payments = filter (in_batch org b.id) db.store.payments in
    record {
      id = b.id;
      reference = b.reference;
      payment_count = length payments;
      period_start = b.period_start;
      period_end = b.period_end;
      total_base_units = sum_amounts (map (λ (p : Payment). p.amount_base_units) payments);
      unlinked_recipients = count is_unlinked payments;
    }

-- `replayVerdict`: whether it is a replay.
abbrev pub is_replay : Option Text → Option Text → Bool
is_replay stored none = true
is_replay none (some f) = true
is_replay (some s) (some f) = s == f

unfoldable pub answer_prior : PayrollTables → String → Option Text → PayrollBatch → CreateResult
answer_prior db org fingerprint prior =
    if is_replay prior.idempotency_fingerprint fingerprint
    then accepted false (describe_existing db org prior)
    else refused 409 (some key_reused)

-- ── Files that were uploaded before ──

abbrev pub duplicate_upload_window_ms : ℕ
duplicate_upload_window_ms = 60 * 60 * 1000

-- The batch of the file, since a time that is written as `createdAt + window >= now`.
abbrev pub is_same_upload : String → String → ℕ → Option String → PayrollBatch → Bool
is_same_upload org checksum now exclude b =
    b.org_id == org
    && b.source_checksum == some checksum
    && leb now (b.created_at + duplicate_upload_window_ms)
    && not (exclude == some b.id)

-- `orderBy: { createdAt: 'desc' }`, and the first.
abbrev pub newest : List PayrollBatch → Option PayrollBatch
newest [] = none
newest (b ∷ rest) =
    let best = newest rest in
    elim best [ none ↦ some b | some c ↦ if ltb b.created_at c.created_at then some c else some b ]

unfoldable pub find_duplicate_upload :
    PayrollTables → String → (checksum : String) → ℕ → Option String → Option PayrollBatch
find_duplicate_upload db org checksum now exclude =
    if checksum == ""
    then none
    else newest (filter (is_same_upload org checksum now exclude) db.batches)
