-- ===== src/Payments/Transfer.antt =====
-- What one transition does to the tables, also where other requests wrote between its read and its
-- swap: `seen` is the store that it read, `db` the store that it writes.
use core_flow.Prelude.{
  ℕ, ◌≡◌, refl, ◌∙◌, ap, ◌≢◌, ◌⊎◌, inl, inr, Bool, true, false, List, some, ◌==◌, ◌&&◌, string_eq,
  nat_eq, find?-passes, Bool-cases, Option-cases, arith,
}
use core_flow.Prelude.Table.{
  find_first, count, create, update_rows, Rows, Rows-refl, Rows-update_rows, Rows-update_rows_split,
  count-find_first,
}
use core_flow.Payments.Types.{PaymentState, payment_state_eq, Transition}
use core_flow.Payments.Check.{TransitionCheck, TransitionErrorCode, ok, fail, check_transition}
use core_flow.Payments.Store.{Payment, AuditEvent, Store}
use core_flow.Payments.Service.{
  TransitionRequest, TransitionOutcome, changed, unchanged, denied, concurrent_modification, moved,
  transition_event, is_row, read_payment, is_unmoved, swap_state, apply_found, apply_read,
}

pub check_cases :
    (from to : PaymentState) (req : TransitionRequest)
    → ((t : Transition) × (check_transition from to req.actor ≡ ok t))
      ⊎ ((c : TransitionErrorCode) × (check_transition from to req.actor ≡ fail c))
check_cases from to req = go (check_transition from to req.actor)
  where
    go :
        (r : TransitionCheck)
        → ((t : Transition) × (r ≡ ok t)) ⊎ ((c : TransitionErrorCode) × (r ≡ fail c))
    go (ok t) = inl (t, refl)
    go (fail c) = inr (c, refl)

-- A row that a transition has moved: in the request's organization, with the request's id, from a
-- state that the table lets the actor leave for the requested one.
pub record IsMoved (req : TransitionRequest) (p q : Payment) : Type 0 where
  pub in_scope : (p.id ≡ req.payment_id) × (p.org_id ≡ req.org_id)
  pub same_row : (q.id ≡ p.id) × (q.org_id ≡ p.org_id)
  pub same_slot :
      (q.escrow_id ≡ p.escrow_id) × (q.on_chain_payment_index ≡ p.on_chain_payment_index)
  pub same_money :
      (q.amount_base_units ≡ p.amount_base_units) × (q.recipient_address ≡ p.recipient_address)
  pub arrives : q.state ≡ req.to
  pub admitted : (t : Transition) × (check_transition p.state req.to req.actor ≡ ok t)

abbrev pub Follows : TransitionRequest → Payment → Payment → Type 0
Follows req p q = (q ≡ p) ⊎ IsMoved req p q

moved-IsMoved :
    (req : TransitionRequest) (now : ℕ) (payment : Payment) (t : Transition)
    → payment.id ≡ req.payment_id
    → check_transition payment.state req.to req.actor ≡ ok t
    → (p : Payment) → is_unmoved req payment p ≡ true
    → IsMoved req p (moved req now p)
unfolding is_unmoved moved
moved-IsMoved req now payment t same h p hit =
    let id : p.id ≡ payment.id = ground arith in
    let state : p.state ≡ payment.state = ground arith in
    record {
      in_scope = (id ∙ same, ground arith);
      same_row = (refl, refl);
      same_slot = (refl, refl);
      same_money = (refl, refl);
      arrives = refl;
      admitted = (t, rw state h);
    }

read_payment-id :
    (req : TransitionRequest) (seen : Store) (payment : Payment)
    → read_payment req seen ≡ some payment
    → payment.id ≡ req.payment_id
unfolding read_payment
read_payment-id req seen payment found =
    let hit = find?-passes (is_row req.payment_id req.org_id) seen.payments payment found in
    ground arith

swap_state-Follows :
    (req : TransitionRequest) (now : ℕ) (payment : Payment) (t : Transition) (db : Store)
    → payment.id ≡ req.payment_id
    → check_transition payment.state req.to req.actor ≡ ok t
    → Rows (Follows req) db.payments (swap_state req now payment t db).1.payments
unfolding swap_state
swap_state-Follows req now payment t db same h =
    elim (Bool-cases (count (is_unmoved req payment) db.payments == 0)) [
      | inl raced ↦ rw raced (Rows-refl (Follows req) (λ p. inl refl) db.payments)
      | inr free ↦ rw free (
          Rows-update_rows (Follows req) (is_unmoved req payment) (moved req now) (λ p. inl refl)
            (λ p hit. inr (moved-IsMoved req now payment t same h p hit)) db.payments)
    ]

apply_found-Follows :
    (req : TransitionRequest) (now : ℕ) (payment : Payment) (db : Store)
    → payment.id ≡ req.payment_id
    → Rows (Follows req) db.payments (apply_found req now payment db).1.payments
unfolding apply_found
apply_found-Follows req now payment db same = elim (Bool-cases (payment.state == req.to)) [
  | inl there ↦ rw there (Rows-refl (Follows req) (λ p. inl refl) db.payments)
  | inr elsewhere ↦ elim (check_cases payment.state req.to req) [
    | inr (c, refused) ↦
        rw (elsewhere, refused) (Rows-refl (Follows req) (λ p. inl refl) db.payments)
    | inl (t, admitted) ↦
        rw (elsewhere, admitted) (swap_state-Follows req now payment t db same admitted)
  ]
]

-- Whatever was written between the read and the swap, a transition changes a payment row only as
-- the table lets the actor: each row stays as it is, or it is the requested payment, in the
-- request's organization, moved from the state it was in at the swap to the requested state along
-- an admitted transition, with its id, organization, amount and recipient kept.
pub apply_read-Follows :
    (req : TransitionRequest) (now : ℕ) (seen db : Store)
    → Rows (Follows req) db.payments (apply_read req now (read_payment req seen) db).1.payments
unfolding apply_read
apply_read-Follows req now seen db = elim (Option-cases (read_payment req seen)) [
  | inl missing ↦ rw missing (Rows-refl (Follows req) (λ p. inl refl) db.payments)
  | inr (payment, found) ↦
      rw found (apply_found-Follows req now payment db (read_payment-id req seen payment found))
]

-- A row of the request, in the state `a`.
abbrev pub stood_at : TransitionRequest → PaymentState → Payment → Bool
stood_at req a p = is_row req.payment_id req.org_id p && p.state == a

-- The payments before and after a change out of `a`: the rows of the request that stood there are
-- in the requested state, at the same id and in the same organization, and no other row differs.
pub record Swapped (req : TransitionRequest) (a : PaymentState) (p q : Payment) : Type 0 where
  pub went : stood_at req a p ≡ true → (q.state ≡ req.to) × (q.id ≡ p.id) × (q.org_id ≡ p.org_id)
  pub stayed : stood_at req a p ≡ false → q ≡ p

-- What a transition returns, and what it has then written.
abbrev pub Reports : TransitionRequest → Store → TransitionOutcome × Store → Type 0
Reports req db (changed a b, db') =
    (b ≡ req.to)
    × ((t : Transition) × (check_transition a b req.actor ≡ ok t))
    × ((e : AuditEvent) × (db'.audit_events ≡ create e db.audit_events)
        × (e.payment_id ≡ some req.payment_id)
        × (e.org_id ≡ req.org_id)
        × (e.previous_state ≡ some a)
        × (e.new_state ≡ some b)
        × (e.actor_address ≡ req.actor.address))
    × (db'.approvals ≡ db.approvals)
    × (db'.transactions ≡ db.transactions)
    × ((p : Payment) × (find_first (stood_at req a) db.payments ≡ some p))
    × Rows (Swapped req a) db.payments db'.payments
Reports req db (unchanged s, db') = (s ≡ req.to) × (db' ≡ db)
Reports req db (denied status code, db') = db' ≡ db

unmoved_stood :
    (req : TransitionRequest) (payment : Payment)
    → payment.id ≡ req.payment_id
    → (p : Payment) → is_unmoved req payment p ≡ stood_at req payment.state p
unfolding is_unmoved
unmoved_stood req payment same p = rw same refl

update_rows-Swapped :
    (req : TransitionRequest) (now : ℕ) (payment : Payment) (rows : List Payment)
    → payment.id ≡ req.payment_id
    → Rows
        (Swapped req payment.state)
        rows
        (update_rows (is_unmoved req payment) (moved req now) rows)
unfolding moved
update_rows-Swapped req now payment rows same =
    Rows-update_rows_split (Swapped req payment.state) (is_unmoved req payment) (moved req now)
      (λ p hit. record {
        went = λ _. (refl, refl, refl);
        stayed = λ miss. absurd (cc (unmoved_stood req payment same p, hit, miss));
      })
      (λ p miss. record {
        went = λ hit. absurd (cc (unmoved_stood req payment same p, hit, miss));
        stayed = λ _. refl;
      })
      rows

apply_found-Reports :
    (req : TransitionRequest) (now : ℕ) (payment : Payment) (db : Store)
    → payment.id ≡ req.payment_id
    → Reports req db (apply_found req now payment db)
unfolding apply_found swap_state transition_event
apply_found-Reports req now payment db same = elim (Bool-cases (payment.state == req.to)) [
  | inl there ↦ rw there (refl, refl)
  | inr elsewhere ↦ elim (check_cases payment.state req.to req) [
    | inr (c, refused) ↦ rw (elsewhere, refused)
    | inl (t, admitted) ↦ elim (Bool-cases (count (is_unmoved req payment) db.payments == 0)) [
      | inl raced ↦ rw (elsewhere, admitted, raced)
      | inr free ↦
          rw (elsewhere, admitted, free)
            (
              refl,
              (t, admitted),
              (transition_event req payment t, refl, ap some same, refl, refl, refl, refl),
              refl,
              refl,
              count-find_first (is_unmoved req payment) (stood_at req payment.state)
                  (unmoved_stood req payment same) db.payments free,
              update_rows-Swapped req now payment db.payments same,
            )
    ]
  ]
]

-- Whatever was written between its read and its swap, a transition that reports a change from `a`
-- found, in the table that it writes, a row of the requested payment and organization in `a`; every
-- such row is now in the requested state, to which the table admits the actor from `a`, and no
-- other row is changed; exactly one audit event is appended, which names the payment, both states
-- and the actor's address. Any other result, the errors included, leaves every table as it was.
pub apply_read-Reports :
    (req : TransitionRequest) (now : ℕ) (seen db : Store)
    → Reports req db (apply_read req now (read_payment req seen) db)
unfolding apply_read
apply_read-Reports req now seen db = elim (Option-cases (read_payment req seen)) [
  | inl missing ↦ rw missing
  | inr (payment, found) ↦
      rw found (apply_found-Reports req now payment db (read_payment-id req seen payment found))
]

-- If by the swap no row is left in the state that was read, the transition fails with a conflict
-- and writes nothing, though the table would have admitted it.
apply_read_raced :
    (req : TransitionRequest) (now : ℕ) (seen db : Store) (payment : Payment) (t : Transition)
    → read_payment req seen ≡ some payment
    → payment.state ≢ req.to
    → check_transition payment.state req.to req.actor ≡ ok t
    → count (is_unmoved req payment) db.payments ≡ 0
    → apply_read req now (read_payment req seen) db ≡ (denied 409 concurrent_modification, db)
unfolding apply_read apply_found swap_state
apply_read_raced req now seen db payment t found moves admitted gone = ground arith
