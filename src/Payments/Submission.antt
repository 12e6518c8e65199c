-- ===== src/Payments/Submission.antt =====
-- Settlement requests: what an idempotency key guarantees, and what it does not.
use core_flow.Prelude.{
  String, ◌≡◌, refl, sym, ◌∙◌, ap, ◌⊎◌, inl, inr, Bool, true, false, none, some, ◌==◌, ◌&&◌,
  string_eq, find?-passes, eq_self, eq-eq_true, option_eq, List, ◌++◌, Bool-cases, Option-cases,
  arith,
}
use core_flow.Prelude.Table.{
  find_first, create, Rows, find_first-create, Rows-find_first, find_first-append,
}
use core_flow.Tenancy.Resolve.{Denial, Result, allowed, denied, scoped}
use core_flow.Payments.Types.{payment_state_eq}
use core_flow.Payments.Store.{Payment, BlockchainTransaction, Store}
use core_flow.Payments.Service.{
  TransitionOutcome, changed, unchanged, TransitionRequest, truthy, read_payment, apply_transition,
  apply_read, apply_found,
}
use core_flow.Payments.Service
use core_flow.Payments.Transfer.{Reports, apply_read-Reports}
use core_flow.Payments.Actions.{
  ActionContext, Environment, Body, TransactionView, done, plain_body, find_payment,
  outcome_to_result,
}
use core_flow.Payments.Requests.{
  has_key, view, submit_request, after_submit, state_now, replay, create_transaction, attempt_of,
  record_attempt, submit_with_key, submit_payment_for_settlement,
}

abbrev pub locates : ActionContext → Payment → Bool
locates ctx p = p.id == ctx.payment_id && p.org_id == ctx.membership.org_id

pub located :
    (db : Store) (ctx : ActionContext) (payment : Payment)
    → find_payment db ctx.membership ctx.payment_id ≡ allowed payment
    → find_first (locates ctx) db.payments ≡ some payment
unfolding find_payment scoped
located db ctx payment found = ground arith

-- A key that is known for the payment: the answer is the attempt recorded under it.
known_key :
    (env : Environment) (ctx : ActionContext) (db : Store) (key : String) (payment : Payment)
    (t : BlockchainTransaction)
    → truthy ctx.idempotency_key ≡ some key
    → find_payment db ctx.membership ctx.payment_id ≡ allowed payment
    → find_first (has_key key) db.transactions ≡ some t
    → (t.payment_id == some payment.id) ≡ true
    → submit_payment_for_settlement env ctx db
      ≡ some (
        done 200 (record (plain_body (state_now db payment)) { transaction = some (view t) }),
        db,
      )
unfolding submit_payment_for_settlement submit_with_key replay
known_key env ctx db key payment t given found seen same = ground arith

-- What a recorded attempt leaves behind.
record Attempted (key : String) (payment : Payment) (b : Body) (db db' : Store) : Type 0 where
  attempt : BlockchainTransaction
  added : db' ≡ record db { transactions = create attempt db.transactions }
  keyed : (attempt.idempotency_key == key) ≡ true
  owned : attempt.payment_id ≡ some payment.id
  viewed : b.transaction ≡ some (view attempt)

record_attempt-Attempted :
    (env : Environment) (ctx : ActionContext) (key : String) (payment : Payment)
    (o : TransitionOutcome) (db db' : Store) (b : Body)
    → record_attempt env ctx key payment o db ≡ some (done 200 b, db')
    → Attempted key payment b db db'
unfolding record_attempt create_transaction attempt_of outcome_to_result
record_attempt-Attempted env ctx key payment (Service.denied status code) db db' b h =
    absurd (ground arith)
record_attempt-Attempted env ctx key payment (changed x y) db db' b h = record {
  attempt = attempt_of env ctx key payment db;
  added = ground arith;
  keyed = eq_self key;
  owned = refl;
  viewed = ground arith;
}
record_attempt-Attempted env ctx key payment (unchanged x) db db' b h = record {
  attempt = attempt_of env ctx key payment db;
  added = ground arith;
  keyed = eq_self key;
  owned = refl;
  viewed = ground arith;
}

submitted :
    (env : Environment) (ctx : ActionContext) (key : String) (payment : Payment)
    (req : TransitionRequest) (db : Store) (out : TransitionOutcome × Store) (b : Body)
    (db' : Store)
    → Reports req db out
    → after_submit env ctx key payment out ≡ some (done 200 b, db')
    → Attempted key payment b out.1 db' × (out.1.transactions ≡ db.transactions)
submitted env ctx key payment req db (Service.denied status code, db1) b db' r h =
    absurd (ground arith)
submitted env ctx key payment req db (changed x y, db1) b db' r h =
    (record_attempt-Attempted env ctx key payment (changed x y) db1 db' b h, r.4)
submitted env ctx key payment req db (unchanged x, db1) b db' r h = (
  record_attempt-Attempted env ctx key payment (unchanged x) db1 db' b h,
  ap (λ (s : Store). s.transactions) r.1,
)

attempt_found :
    (key : String) (payment : Payment) (b : Body) (db db1 db' : Store)
    → find_first (has_key key) db.transactions ≡ none
    → db1.transactions ≡ db.transactions
    → (a : Attempted key payment b db1 db')
    → find_first (has_key key) db'.transactions ≡ some a.attempt
attempt_found key payment b db db1 db' fresh same a =
    let grown = find_first-create (has_key key) a.attempt db.transactions in
    let stored : db'.transactions ≡ create a.attempt db.transactions =
      ap (λ (s : Store). s.transactions) a.added ∙ ap (create a.attempt) same in
    rw stored (ground (arith, a.keyed))

-- The row that an accepted request has under its key.
abbrev Recorded : ActionContext → String → Body → Store → Type 0
Recorded ctx key b db' =
    (t : BlockchainTransaction) × (find_first (has_key key) db'.transactions ≡ some t)
    × (t.payment_id ≡ some ctx.payment_id)
    × (b.transaction ≡ some (view t))

request_cases :
    (db : Store) (ctx : ActionContext)
    → ((d : Denial) × (find_payment db ctx.membership ctx.payment_id ≡ denied d))
      ⊎ ((p : Payment) × (find_payment db ctx.membership ctx.payment_id ≡ allowed p))
request_cases db ctx = go (find_payment db ctx.membership ctx.payment_id)
  where
    go : (r : Result Payment) → ((d : Denial) × (r ≡ denied d)) ⊎ ((p : Payment) × (r ≡ allowed p))
    go (denied d) = inl (d, refl)
    go (allowed p) = inr (p, refl)

find_payment-id :
    (ctx : ActionContext) (db : Store) (payment : Payment)
    → find_payment db ctx.membership ctx.payment_id ≡ allowed payment
    → payment.id ≡ ctx.payment_id
find_payment-id ctx db payment found =
    let here = find?-passes (locates ctx) db.payments payment (located db ctx payment found) in
    ground arith

submit_with_key-Recorded :
    (env : Environment) (ctx : ActionContext) (key : String) (payment : Payment) (db db' : Store)
    (b : Body)
    → payment.id ≡ ctx.payment_id
    → submit_with_key env ctx key payment db ≡ some (done 200 b, db')
    → Recorded ctx key b db'
unfolding submit_with_key replay apply_transition
submit_with_key-Recorded env ctx key payment db db' b same h =
    elim (Option-cases (find_first (has_key key) db.transactions)) [
      | inr (t, seen) ↦ elim (Bool-cases (t.payment_id == some payment.id)) [
        | inr foreign ↦ absurd (ground arith)
        | inl own ↦ (
          t,
          ground arith,
          eq-eq_true t.payment_id (some payment.id) own ∙ ap some same,
          ground arith,
        )
      ]
      | inl fresh ↦
          let req = submit_request ctx key payment in
          let out = apply_transition req env.now db in
          let s =
            submitted env ctx key payment req db out b db' (apply_read-Reports req env.now db db)
              (ground arith) in
          (
            s.0.attempt,
            attempt_found key payment b db out.1 db' fresh s.1 s.0,
            s.0.owned ∙ ap some same,
            s.0.viewed,
          )
    ]

-- The same attempt, however far it has come: its status and its hash may have changed.
abbrev pub Continues : BlockchainTransaction → BlockchainTransaction → Type 0
Continues t u =
    (u.id ≡ t.id)
    × (u.idempotency_key ≡ t.idempotency_key)
    × (u.payment_id ≡ t.payment_id)
    × (u.attempt ≡ t.attempt)

-- The answer of a repeated settlement request over the tables `db`.
pub record Replays (env : Environment) (ctx : ActionContext) (b : Body) (db : Store) : Type 0 where
  pub key : String
  pub given : truthy ctx.idempotency_key ≡ some key
  pub attempt : BlockchainTransaction
  pub standing : find_first (has_key key) db.transactions ≡ some attempt
  pub again : Body
  pub answered : submit_payment_for_settlement env ctx db ≡ some (done 200 again, db)
  pub shown : again.transaction ≡ some (view attempt)
  pub same_attempt :
      (first : TransactionView) × (b.transaction ≡ some first)
      × (attempt.id ≡ first.id)
      × (attempt.attempt ≡ first.attempt)
  pub idle : again.changed ≡ false

replayed :
    (later : Environment) (ctx : ActionContext) (key : String) (db' db2 : Store) (b : Body)
    (payment : Payment) (kept more : List BlockchainTransaction)
    → truthy ctx.idempotency_key ≡ some key
    → Recorded ctx key b db'
    → Rows Continues db'.transactions kept
    → db2.transactions ≡ kept ++ more
    → find_payment db2 ctx.membership ctx.payment_id ≡ allowed payment
    → Replays later ctx b db2
replayed later ctx key db' db2 b payment kept more given r rows grown found =
    let (t, stored, owned, viewed) = r in
    let (u, there, same) =
      Rows-find_first Continues (has_key key) (λ x y c. ap (λ k. k == key) c.1) db'.transactions
        kept t rows stored in
    let standing : find_first (has_key key) db2.transactions ≡ some u =
      ap (find_first (has_key key)) grown ∙ find_first-append (has_key key) kept more u there in
    let own : u.payment_id ≡ some payment.id =
      same.2 ∙ owned ∙ ap some (sym (find_payment-id ctx db2 payment found)) in
    record {
      key = key;
      given = given;
      attempt = u;
      standing = standing;
      again = record (plain_body (state_now db2 payment)) { transaction = some (view u) };
      answered =
          known_key later ctx db2 key payment u given found standing
            (rw own (eq_self (some payment.id)));
      shown = refl;
      same_attempt = (view t, viewed, same.0, same.3);
      idle = refl;
    }

-- A settlement request that was accepted is sent again under its key, over later tables in which the
-- recorded attempts have their ids, keys, payments and numbers but may have any status and hash,
-- attempts may have been added after them, and the payment is still found, in whatever state. It
-- is answered with the attempt that the first answer showed, as it stands by then, reports no
-- change, and writes nothing.
pub submit_payment_for_settlement-Replays :
    (env later : Environment) (ctx : ActionContext) (db db' db2 : Store) (b : Body)
    (payment : Payment) (kept more : List BlockchainTransaction)
    → submit_payment_for_settlement env ctx db ≡ some (done 200 b, db')
    → Rows Continues db'.transactions kept
    → db2.transactions ≡ kept ++ more
    → find_payment db2 ctx.membership ctx.payment_id ≡ allowed payment
    → Replays later ctx b db2
unfolding submit_payment_for_settlement
submit_payment_for_settlement-Replays env later ctx db db' db2 b payment kept more h rows grown
      found =
    elim (Option-cases (truthy ctx.idempotency_key)) [
      | inl keyless ↦ absurd (ground arith)
      | inr (key, given) ↦ elim (request_cases db ctx) [
        | inl (d, refusal) ↦ absurd (ground arith)
        | inr (p, first) ↦
            let r =
              submit_with_key-Recorded env ctx key p db db' b (find_payment-id ctx db p first)
                (ground arith) in
            replayed later ctx key db' db2 b payment kept more given r rows grown found
      ]
    ]
