-- ===== src/Reconciliation/Discrepancies.antt =====
-- What a run of the reconciliation leaves in the tables of findings: no discrepancy twice.
use core_flow.Prelude.{
  ℕ, ◌+◌, ◌≤◌, String, ◌≡◌, ap, inl, inr, Bool, true, false, List, [], ◌∷◌, Option, none, some,
  ◌==◌, string_eq, nat_eq, option_eq, if◌then◌else◌, eq-eq_true, filter-nil, length, find?-none,
  Bool-cases, Option-cases, arith,
}
use core_flow.Prelude.Int.{int_eq}
use core_flow.Prelude.Table.{find_first, count, create, count-create}
use core_flow.Payments.Types.{payment_state_eq}
use core_flow.Payments.Store.{Payment, Metadata, Store}
use core_flow.Payments.Service.{TransitionRequest, TransitionOutcome}
use core_flow.Reconciliation.Views.{ChainPaymentView, LoadedEscrow, ReconcileReport, Run}
use core_flow.Reconciliation.Findings.{
  FindingKind, finding_kind_eq, missing_on_chain, Quoted, ReconciliationFinding, Books, is_open,
  record_finding,
}
use core_flow.Reconciliation.Reconcile.{
  finding, open_finding, transit, has_changed, flagged, caught_up, check_slot, check_identity,
  catch_up, doubt, withdraw, settle_up, slot_of, check_row, each,
}

-- At most one unresolved finding for an organization, payment and kind.
abbrev pub Unrepeated : List ReconciliationFinding → Type 0
Unrepeated fs =
    (org : String) (payment : Option String) (kind : FindingKind)
    → count (is_open org payment kind) fs ≤ 1

abbrev pub findings_of : Run → List ReconciliationFinding
findings_of r = r.books.findings

is_open_key :
    (org : String) (payment : Option String) (kind : FindingKind) (f : ReconciliationFinding)
    → is_open org payment kind f ≡ true
    → (f.org_id ≡ org) × (f.payment_id ≡ payment) × (f.kind ≡ kind)
is_open_key org payment kind f h = (
  eq-eq_true f.org_id org (ground arith),
  eq-eq_true f.payment_id payment (ground arith),
  eq-eq_true f.kind kind (ground arith),
)

none_open :
    (org : String) (payment : Option String) (kind : FindingKind) (fs : List ReconciliationFinding)
    → find_first (is_open org payment kind) fs ≡ none
    → count (is_open org payment kind) fs ≡ 0
none_open org payment kind fs h =
    ap length
      (filter-nil (is_open org payment kind) fs (find?-none (is_open org payment kind) fs h))

record_finding-Unrepeated :
    (f : ReconciliationFinding) (db : Books)
    → Unrepeated db.findings
    → Unrepeated (record_finding f db).1.findings
unfolding record_finding
record_finding-Unrepeated f db u org payment kind =
    elim (Option-cases (find_first (is_open f.org_id f.payment_id f.kind) db.findings)) [
      | inr (e, found) ↦ rw (found, record_finding) (u org payment kind)
      | inl fresh ↦ rw (fresh, record_finding) (grown fresh)
    ]
  where
    grown :
        find_first (is_open f.org_id f.payment_id f.kind) db.findings ≡ none
        → count (is_open org payment kind) (create f db.findings) ≤ 1
    grown fresh =
        let total = count-create (is_open org payment kind) f db.findings in
        elim (Bool-cases (is_open org payment kind f)) [
          | inr other ↦ ground (arith, u org payment kind)
          | inl own ↦
              let key = is_open_key org payment kind f own in
              let zero = none_open f.org_id f.payment_id f.kind db.findings fresh in
              let same : count (is_open org payment kind) db.findings ≡ 0 =
                rw (← key.0, ← key.1, ← key.2) zero in
              ground arith
        ]

-- The tables of findings of a run have no discrepancy twice.
pub record IsTidy (r : Run) : Type 0 where
  pub unrepeated : Unrepeated r.books.findings

pub open_finding-IsTidy :
    (f : ReconciliationFinding) (r : Run) → IsTidy r → IsTidy (open_finding f r)
unfolding open_finding
open_finding-IsTidy f r u = record { unrepeated = record_finding-Unrepeated f r.books u.unrepeated }

if-IsTidy : (b : Bool) (x y : Run) → IsTidy x → IsTidy y → IsTidy (if b then x else y)
if-IsTidy true x y u v = u
if-IsTidy false x y u v = v

-- A change of the report, or of the tables of payments.
pub kept :
    (r : Run) (store : Store) (report : ReconcileReport)
    → IsTidy r
    → IsTidy (record { books = record r.books { store = store }; report = report })
kept r store report u = record { unrepeated = u.unrepeated }

pub each-IsTidy :
    {A : Type 0} (f : Run → A → Run)
    → ((r : Run) (a : A) → IsTidy r → IsTidy (f r a))
    → (r : Run) (xs : List A) → IsTidy r
    → IsTidy (each f r xs)
each-IsTidy f step r [] u = u
each-IsTidy f step r (x ∷ xs) u = each-IsTidy f step (f r x) xs (step r x u)

pub check_slot-IsTidy :
    (org : String) (escrow : LoadedEscrow) (r : Run) (cp : ChainPaymentView)
    → IsTidy r
    → IsTidy (check_slot org escrow r cp)
unfolding check_slot
check_slot-IsTidy org escrow r cp u = if-IsTidy _ _ _ u (open_finding-IsTidy _ r u)

check_identity-IsTidy :
    (org : String) (p : Payment) (cp : ChainPaymentView) (r : Run)
    → IsTidy r
    → IsTidy (check_identity org p cp r)
unfolding check_identity
check_identity-IsTidy org p cp r u =
    let v =
      if-IsTidy (p.amount_base_units == cp.amount_base_units) r _ u (open_finding-IsTidy _ r u) in
    if-IsTidy _ _ _ v (open_finding-IsTidy _ _ v)

transit-IsTidy :
    (req : TransitionRequest) (now : ℕ) (r : Run) → IsTidy r → IsTidy (transit req now r).1
transit-IsTidy req now r u = record { unrepeated = u.unrepeated }

flagged-IsTidy : (o : TransitionOutcome) (r : Run) → IsTidy r → IsTidy (flagged (o, r))
unfolding flagged
flagged-IsTidy o r u = if-IsTidy (has_changed o) _ r (kept r r.books.store _ u) u

caught_up-IsTidy :
    (org : String) (p : Payment) (o : TransitionOutcome) (r : Run)
    → IsTidy r
    → IsTidy (caught_up org p (o, r))
unfolding caught_up
caught_up-IsTidy org p o r u =
    if-IsTidy (has_changed o) _ _ (kept r r.books.store _ u) (open_finding-IsTidy _ r u)

catch_up-IsTidy :
    (org : String) (now : ℕ) (p : Payment) (m : Metadata) (r : Run)
    → IsTidy r
    → IsTidy (catch_up org now p m r)
unfolding catch_up
catch_up-IsTidy org now p m r u = caught_up-IsTidy org p _ _ (transit-IsTidy _ now r u)

doubt-IsTidy :
    (org : String) (now : ℕ) (p : Payment) (cp : ChainPaymentView) (r : Run)
    → IsTidy r
    → IsTidy (doubt org now p cp r)
unfolding doubt
doubt-IsTidy org now p cp r u =
    flagged-IsTidy _ _ (transit-IsTidy _ now _ (open_finding-IsTidy _ r u))

withdraw-IsTidy :
    (org : String) (now : ℕ) (p : Payment) (r : Run) → IsTidy r → IsTidy (withdraw org now p r)
unfolding withdraw
withdraw-IsTidy org now p r u = flagged-IsTidy _ _ (transit-IsTidy _ now r u)

settle_up-IsTidy :
    (org : String) (now : ℕ) (escrow : LoadedEscrow) (p : Payment) (cp : ChainPaymentView) (r : Run)
    → IsTidy r
    → IsTidy (settle_up org now escrow p cp r)
unfolding settle_up
settle_up-IsTidy org now escrow p cp r u = if-IsTidy _ _ _ (catch_up-IsTidy org now p _ r u) (
    if-IsTidy _ _ _ (doubt-IsTidy org now p cp r u)
      (if-IsTidy _ _ _ (withdraw-IsTidy org now p r u) u))

pub check_row-IsTidy :
    (org : String) (now : ℕ) (escrow : LoadedEscrow) (slots : List ChainPaymentView) (r : Run)
    (p : Payment)
    → IsTidy r
    → IsTidy (check_row org now escrow slots r p)
unfolding check_row
check_row-IsTidy org now escrow slots r p u =
    elim (slot_of p.on_chain_payment_index slots)
      as (λ slot. IsTidy (elim slot [
        | none ↦
            open_finding
              (finding org (some p.id) missing_on_chain (some (Quoted.state p.state)) none) counted
        | some cp ↦ settle_up org now escrow p cp (check_identity org p cp counted)
      ])) [
        | none ↦ open_finding-IsTidy _ counted (kept r _ _ u)
        | some cp ↦
            settle_up-IsTidy org now escrow p cp (check_identity org p cp counted)
              (check_identity-IsTidy org p cp counted (kept r _ _ u))
      ]
  where
    counted : Run
    counted = record r {
      report = record r.report { payments_checked = r.report.payments_checked + 1 };
    }
