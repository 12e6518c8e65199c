-- ===== src/Payments/Decisions.antt =====
-- What recording an approval keeps: the two halves of the gate are held by two wallets.
use core_flow.Prelude.{
  String, ◌≡◌, if◌then◌else◌, refl, ◌⊎◌, inl, inr, Bool, true, false, Option, none, some, string_eq,
  nat_eq, ◌==◌, find?-none, find?-Member, find?-passes, any-Member, ◌∙◌, Option-cases, Bool-cases,
  arith,
}
use core_flow.Prelude.Table.{find_first, create, find_first-create}
use core_flow.Roles.{OrgRole, org_role_eq}
use core_flow.Tenancy.Resolve.{Result, allowed, denied}
use core_flow.Payments.Store.{Payment, Approval, Store}
use core_flow.Payments.Actions.{
  ActionContext, ActionResult, done, refused, plain_body, Outcome, may_approve, approval_role_of,
  is_approval, other_half, held_by, find_payment, create_approval, new_approval, record_approval,
  approve_found, approve_payment,
}

abbrev pub half_of : Store → String → OrgRole → Option Approval
half_of db payment role = find_first (is_approval payment role) db.approvals

-- No wallet holds the decisions of both halves of a payment.
abbrev pub Separated : Store → Type 0
Separated db =
    (payment wallet : String)
    → held_by wallet (half_of db payment OrgRole.manager) ≡ true
    → held_by wallet (half_of db payment OrgRole.finance) ≡ false

-- The half of the gate that the caller decides.
abbrev pub own_half : ActionContext → Payment → OrgRole
own_half ctx payment = approval_role_of ctx.membership.role payment

-- Between the reads and the insert another request decided this half of the payment: none was read,
-- and the table holds one.
abbrev pub IsRaced : ActionContext → Store → Store → Type 0
IsRaced ctx seen db =
    (payment : Payment) × (find_payment seen ctx.membership ctx.payment_id ≡ allowed payment)
    × (half_of seen payment.id (own_half ctx payment) ≡ none)
    × ((a : Approval) × (half_of db payment.id (own_half ctx payment) ≡ some a))

abbrev pub is_created : ActionResult → Bool
is_created (done status b) = status == 201
is_created (refused status code) = false

-- The caller's approval was added for the half that was free, and nothing else was decided.
abbrev pub IsRecorded : ActionContext → Store → Store → ActionResult × Store → Type 0
IsRecorded ctx seen db (r, db') =
    (is_created r ≡ true)
    × (payment : Payment) × (find_payment seen ctx.membership ctx.payment_id ≡ allowed payment)
    × (half_of db payment.id (own_half ctx payment) ≡ none)
    × (db'.approvals ≡ create (new_approval ctx payment (own_half ctx payment)) db.approvals)

-- What an approval leaves; `none` is the error that the insert meets.
abbrev pub Answers : ActionContext → Store → Store → Outcome → Type 0
Answers ctx seen db none = IsRaced ctx seen db
Answers ctx seen db (some (r, db')) =
    (db'.payments ≡ db.payments)
    × (db'.transactions ≡ db.transactions)
    × Separated db'
    × (((is_created r ≡ false) × (db' ≡ db)) ⊎ IsRecorded ctx seen db (r, db'))

-- Whether the caller's wallet holds the other half of the payment is as it was read.
abbrev pub SameOther : ActionContext → Store → Store → Type 0
SameOther ctx seen db =
    (payment : Payment)
    → find_payment seen ctx.membership ctx.payment_id ≡ allowed payment
    → held_by ctx.membership.wallet_address
        (half_of db payment.id (other_half (own_half ctx payment)))
      ≡ held_by ctx.membership.wallet_address
          (half_of seen payment.id (other_half (own_half ctx payment)))

abbrev pub IsHalf : OrgRole → Type 0
IsHalf role = (role ≡ OrgRole.manager) ⊎ (role ≡ OrgRole.finance)

approval_role_of-IsHalf :
    (role : OrgRole) (payment : Payment) → IsHalf (approval_role_of role payment)
unfolding approval_role_of
approval_role_of-IsHalf role payment = ground arith

added-Separated :
    (ctx : ActionContext) (payment : Payment) (role : OrgRole) (db : Store)
    → IsHalf role
    → Separated db
    → half_of db payment.id role ≡ none
    → held_by ctx.membership.wallet_address (half_of db payment.id (other_half role)) ≡ false
    → Separated (record db { approvals = create (new_approval ctx payment role) db.approvals })
added-Separated ctx payment role db h s free other p w held =
    let a = new_approval ctx payment role in
    let manager = find_first-create (is_approval p OrgRole.manager) a db.approvals in
    let finance = find_first-create (is_approval p OrgRole.finance) a db.approvals in
    ground (arith, s p w, h)

create_approval_fresh :
    (a : Approval) (db : Store)
    → half_of db a.payment_id a.role ≡ none
    → create_approval a db ≡ some (record db { approvals = create a db.approvals })
unfolding create_approval
create_approval_fresh a db free =
    let fresh = find?-none (is_approval a.payment_id a.role) db.approvals free in rw fresh

create_approval_taken :
    (a : Approval) (db : Store) (b : Approval)
    → half_of db a.payment_id a.role ≡ some b
    → create_approval a db ≡ none
unfolding create_approval
create_approval_taken a db b found =
    let is_half = is_approval a.payment_id a.role in
    let there =
      any-Member is_half b db.approvals (find?-Member is_half db.approvals b found)
        (find?-passes is_half db.approvals b found) in
    rw there refl

record_approval-Answers :
    (ctx : ActionContext) (payment : Payment) (seen db : Store)
    → Separated db
    → find_payment seen ctx.membership ctx.payment_id ≡ allowed payment
    → half_of seen payment.id (own_half ctx payment) ≡ none
    → held_by ctx.membership.wallet_address
        (half_of db payment.id (other_half (own_half ctx payment)))
      ≡ false
    → Answers ctx seen db (record_approval ctx payment (own_half ctx payment) db)
unfolding record_approval core_flow.Prelude.ℕ_discrete
record_approval-Answers ctx payment seen db s found unread other =
    let role = own_half ctx payment in
    elim (Option-cases (half_of db payment.id role)) [
      | inl free ↦
          rw (create_approval_fresh (new_approval ctx payment role) db free, Answers)
            (
              refl,
              refl,
              added-Separated ctx payment role db
                  (approval_role_of-IsHalf ctx.membership.role payment) s free other,
              inr (refl, payment, found, free, refl),
            )
      | inr (a, taken) ↦
          rw (create_approval_taken (new_approval ctx payment role) db a taken, Answers)
            (payment, found, unread, (a, taken))
    ]

approve_found-Answers :
    (ctx : ActionContext) (payment : Payment) (seen db : Store)
    → Separated db
    → SameOther ctx seen db
    → find_payment seen ctx.membership ctx.payment_id ≡ allowed payment
    → Answers ctx seen db (approve_found ctx payment (own_half ctx payment) seen db)
unfolding approve_found core_flow.Prelude.ℕ_discrete
approve_found-Answers ctx payment seen db s same found =
    go (half_of seen payment.id (own_half ctx payment)) refl
      (held_by ctx.membership.wallet_address
        (half_of seen payment.id (other_half (own_half ctx payment))))
      refl
  where
    go :
        (existing : Option Approval)
        → half_of seen payment.id (own_half ctx payment) ≡ existing
        → (both : Bool)
        → held_by ctx.membership.wallet_address
            (half_of seen payment.id (other_half (own_half ctx payment)))
          ≡ both
        → Answers ctx seen db (elim existing [
          | some a ↦
              some (done 200 (record (plain_body payment.state) { decision = some a.decision }), db)
          | none ↦
              if both
              then some (refused 409 none, db)
              else record_approval ctx payment (own_half ctx payment) db
        ])
    go (some a) decided both held = (refl, refl, s, inl (refl, refl))
    go none unread true held = (refl, refl, s, inl (refl, refl))
    go none unread false held =
        record_approval-Answers ctx payment seen db s found unread (same payment found ∙ held)

-- Of an approval whose reads may be stale, where no wallet holds both halves of a payment's gate, and
-- where the caller's wallet holds the other half of this payment just as was read: it moves no
-- payment and starts no transaction. It answers that it was created where it has added one
-- decision, under the caller's wallet and for the caller's half of the payment, which nobody had
-- decided; otherwise it writes nothing. Still no wallet holds both halves. It fails with an error
-- of the database only where another request decided the same half between its reads and its
-- insert.
pub approve_payment-Answers :
    (ctx : ActionContext) (seen db : Store)
    → Separated db
    → SameOther ctx seen db
    → Answers ctx seen db (approve_payment ctx seen db)
unfolding approve_payment core_flow.Prelude.ℕ_discrete
approve_payment-Answers ctx seen db s same = elim (Bool-cases (may_approve ctx.membership.role)) [
  | inr barred ↦ rw barred (refl, refl, s, inl (refl, refl))
  | inl admitted ↦ rw admitted (located (find_payment seen ctx.membership ctx.payment_id) refl)
]
  where
    located :
        (r : Result Payment)
        → find_payment seen ctx.membership ctx.payment_id ≡ r
        → Answers ctx seen db (elim r [
          | denied d ↦ some (refused d.status none, db)
          | allowed payment ↦ approve_found ctx payment (own_half ctx payment) seen db
        ])
    located (denied d) found = (refl, refl, s, inl (refl, refl))
    located (allowed payment) found = approve_found-Answers ctx payment seen db s same found
