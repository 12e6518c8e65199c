-- ===== src/Funding/Eligibility.antt =====
-- `assessFundingEligibility` of src/lib/funding/eligibility.ts. Prose is left out; a blocker keeps
-- its code and the row that it is about. Base units and times are bigints.
use core_flow.Prelude.{
  ℕ, ◌+◌, String, Bool, true, false, List, [], ◌∷◌, ◌++◌, Option, none, some, ◌==◌, string_eq,
  nat_eq, ◌||◌, not, ltb, length, filter, map, contains, if◌then◌else◌,
}
use core_flow.Prelude.Int.{ℤ, pos, ◌+ℤ◌, ◌*ℤ◌, leb_ℤ, int_eq}
use core_flow.Roles.{OrgRole, org_role_eq}
use core_flow.Payments.Types.{PaymentState, draft, validating, payment_state_eq}
use core_flow.Payments.Store.{TxStatus, tx_status_eq}
use core_flow.Payments.Service.{truthy}

abbrev pub max_fundable_payments : ℕ
max_fundable_payments = 100

abbrev pub fundable_states : List PaymentState
fundable_states = draft ∷ validating ∷ []

abbrev pub funding_roles : List OrgRole
funding_roles = OrgRole.owner ∷ OrgRole.admin ∷ OrgRole.manager ∷ []

pub data FundingBlockerCode : Type 0 where
  no_payments too_many_payments already_funded funding_in_flight payment_not_fundable
        payment_already_on_chain settlement_asset_unconfigured asset_mismatch mixed_assets
        amount_not_positive hours_rate_mismatch period_required period_invalid
        no_distinct_finance_approver oracle_key_unavailable role_not_permitted :
      FundingBlockerCode

pub record FundingBlocker : Type 0 where
  pub code : FundingBlockerCode
  pub payment_id : Option String
  pub position : Option ℕ

pub record FundingPayment : Type 0 where
  pub id : String
  pub recipient_address : String
  pub asset_code : String
  pub asset_contract_id : Option String
  pub asset_decimals : ℕ
  pub amount_base_units : ℤ
  pub rate_base_units : ℤ
  pub hours : ℤ
  pub period_start : Option ℤ
  pub period_end : Option ℤ
  pub state : PaymentState
  pub escrow_id : Option String
  pub on_chain_payment_index : Option ℕ

pub record ExistingFundingAttempt : Type 0 where
  pub id : String
  pub status : TxStatus
  pub hash : Option String
  pub created_at : ℤ

pub record SettlementAsset : Type 0 where
  pub code : String
  pub decimals : ℕ
  pub contract_id : Option String

pub record Funder : Type 0 where
  pub wallet_address : String
  pub role : OrgRole

pub record EligibilityInput : Type 0 where
  pub payments : List FundingPayment
  pub asset : SettlementAsset
  pub funder : Funder
  pub finance_approver_address : Option String
  pub attempt : Option ExistingFundingAttempt
  pub oracle_public_key : Option String

pub record FundingAssessment : Type 0 where
  pub eligible : Bool
  pub blockers : List FundingBlocker
  pub total_base_units : ℤ
  pub payment_count : ℕ

abbrev pub in_flight : List TxStatus
in_flight =
    TxStatus.preparing ∷ TxStatus.simulating ∷ TxStatus.awaiting_signature ∷ TxStatus.submitted ∷ []

-- A blocker of the whole batch, where the condition holds.
abbrev pub block_if : Bool → FundingBlockerCode → List FundingBlocker
block_if b code = if b then record { code = code; payment_id = none; position = none } ∷ [] else []

abbrev pub is_null {ℓ} : {A : Type ℓ} → Option A → Bool
is_null none = true
is_null (some a) = false

-- The members of a `Set` that the texts are put into, in the order of insertion.
abbrev pub distinct : List String → List String
distinct [] = []
distinct (x ∷ xs) = x ∷ filter (λ y. not (y == x)) (distinct xs)

unfoldable pub attempt_blockers : Option ExistingFundingAttempt → List FundingBlocker
attempt_blockers none = []
attempt_blockers (some a) =
    if a.status == TxStatus.confirmed
    then block_if true already_funded
    else block_if (contains a.status in_flight) funding_in_flight

abbrev pub is_positive : ℤ → Bool
is_positive n = not (leb_ℤ n (pos 0))

unfoldable pub amount_code : FundingPayment → Option FundingBlockerCode
amount_code p =
    if not (is_positive p.amount_base_units)
      || not (is_positive p.rate_base_units)
      || not (is_positive p.hours)
    then some amount_not_positive
    else if p.hours *ℤ p.rate_base_units == p.amount_base_units
    then none
    else some hours_rate_mismatch

unfoldable pub period_code : Option ℤ → Option ℤ → Option FundingBlockerCode
period_code (some start) (some end) = if leb_ℤ end start then some period_invalid else none
period_code _ _ = some period_required

abbrev pub code_if : Bool → FundingBlockerCode → Option FundingBlockerCode
code_if b code = if b then some code else none

-- A blocker of the payment at a position, where there is a code for it.
abbrev pub at_row : FundingPayment → ℕ → Option FundingBlockerCode → List FundingBlocker
at_row p position none = []
at_row p position (some code) =
    record { code = code; payment_id = some p.id; position = some position } ∷ []

unfoldable pub payment_blockers : SettlementAsset → ℕ → FundingPayment → List FundingBlocker
payment_blockers asset position p =
    at_row p position (code_if (not (contains p.state fundable_states)) payment_not_fundable)
    ++ at_row p position (
        code_if (not (is_null p.escrow_id) || not (is_null p.on_chain_payment_index))
          payment_already_on_chain)
    ++ at_row p position (code_if (not (p.asset_code == asset.code)) asset_mismatch)
    ++ at_row p position (amount_code p)
    ++ at_row p position (period_code p.period_start p.period_end)

-- The loop over the payments; `i` of them are behind it.
unfoldable pub row_blockers : SettlementAsset → ℕ → List FundingPayment → List FundingBlocker
row_blockers asset i [] = []
row_blockers asset i (p ∷ ps) = payment_blockers asset (i + 1) p ++ row_blockers asset (i + 1) ps

unfoldable pub total_from : ℤ → List FundingPayment → ℤ
total_from total [] = total
total_from total (p ∷ ps) = total_from (total +ℤ p.amount_base_units) ps

unfoldable pub approver_blockers : Option String → String → List FundingBlocker
approver_blockers none wallet = block_if true no_distinct_finance_approver
approver_blockers (some a) wallet = block_if (a == wallet) no_distinct_finance_approver

unfoldable pub all_blockers : EligibilityInput → List FundingBlocker
all_blockers i =
    block_if (not (contains i.funder.role funding_roles)) role_not_permitted
    ++ attempt_blockers i.attempt
    ++ block_if (length i.payments == 0) no_payments
    ++ block_if (ltb max_fundable_payments (length i.payments)) too_many_payments
    ++ block_if (is_null i.asset.contract_id) settlement_asset_unconfigured
    ++ block_if (ltb 1 (length (distinct (map (λ (p : FundingPayment). p.asset_code) i.payments))))
        mixed_assets
    ++ row_blockers i.asset 0 i.payments
    ++ approver_blockers i.finance_approver_address i.funder.wallet_address
    ++ block_if (is_null (truthy i.oracle_public_key)) oracle_key_unavailable

unfoldable pub assess_funding_eligibility : EligibilityInput → FundingAssessment
assess_funding_eligibility i = record {
  eligible = length (all_blockers i) == 0;
  blockers = all_blockers i;
  total_base_units = total_from (pos 0) i.payments;
  payment_count = length i.payments;
}
