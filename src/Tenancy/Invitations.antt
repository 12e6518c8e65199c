-- ===== src/Tenancy/Invitations.antt =====
-- Invitations are used once, give the role that they carry, and change nobody's role.
use core_flow.Prelude.{
  ℕ, ◌<◌, String, ◌≡◌, refl, inl, inr, Bool, List, [], ◌∷◌, none, ◌==◌, string_eq, nat_eq,
  eq-eq_true, eq_self, Bool-cases, Option-cases, ◌≢◌, ◌∙◌, ◌++◌, ap, sym, ◌⊎◌, true, All, Member,
  find?-Member, arith,
}
use core_flow.Prelude.Table.{
  find_first, count, create, update, update_rows, Rows, count-update_rows_none,
}
use core_flow.Tenancy.Resolve.{
  MembershipStatus, membership_status_eq, OrgMember, denied, not_found, is_member,
}
use core_flow.Tenancy.Membership.{
  Invitation, AcceptableInvitation, acceptable, Roster, judge_invitation, resolve_invitation,
  is_claimable, claim, reactivate, rejoin, join, claim_invitation,
}

rejoin-invitations :
    (now : ℕ) (i : AcceptableInvitation) (user wallet : String) (m : OrgMember) (db : Roster)
    → (rejoin now i user wallet m db).1.invitations ≡ db.invitations
unfolding rejoin
rejoin-invitations now i user wallet m db = ground arith

claim_spends :
    (id : String) (now : ℕ) (rows : List Invitation)
    → count (is_claimable id) (update_rows (is_claimable id) (claim now) rows) ≡ 0
claim_spends id now rows =
    count-update_rows_none (is_claimable id) (claim now) (λ r hit. ground arith) rows

claim_invitation_spends :
    (id : String) (now : ℕ) (i : AcceptableInvitation) (user wallet : String) (db : Roster)
    → count (is_claimable i.id) (claim_invitation id now i user wallet db).1.invitations ≡ 0
unfolding claim_invitation join
claim_invitation_spends id now i user wallet db =
    elim (Bool-cases (count (is_claimable i.id) db.invitations == 0)) [
      | inl spent ↦ rw spent (eq-eq_true _ _ spent)
      | inr fresh ↦ elim (Option-cases (find_first (is_member i.org_id user) db.members)) [
        | inl new ↦ rw (fresh, new) (claim_spends i.id now db.invitations)
        | inr (m, old) ↦ rw (fresh, old, rejoin-invitations) (claim_spends i.id now db.invitations)
      ]
    ]

claim_invitation_spent :
    (id : String) (now : ℕ) (i : AcceptableInvitation) (user wallet : String) (db : Roster)
    → count (is_claimable i.id) db.invitations ≡ 0
    → claim_invitation id now i user wallet db ≡ (denied not_found, db)
unfolding claim_invitation
claim_invitation_spent id now i user wallet db spent = rw (spent, eq_self {A = ℕ} 0)

-- A later state of an invitation: that of the id was not issued again, which would make it good
-- although it was used or revoked, and another one may have changed in any way.
abbrev pub NotReissued : String → Invitation → Invitation → Type 0
NotReissued id a b =
    (b.id ≡ a.id)
    × ((a.id ≢ id)
        ⊎ ((b.used_at ≡ none → a.used_at ≡ none) × (b.revoked_at ≡ none → a.revoked_at ≡ none)))

not_reissued_lem :
    (id : String) (a b : Invitation)
    → NotReissued id a b
    → is_claimable id b ≡ true
    → is_claimable id a ≡ true
not_reissued_lem id a b (same, kept) open_now =
    let named : (b.id == id) ≡ true = ground arith in
    let here : a.id ≡ id = sym same ∙ eq-eq_true b.id id named in
    elim kept [
      | inl other ↦ absurd (other here)
      | inr h ↦
          let used : b.used_at ≡ none = ground arith in
          let revoked : b.revoked_at ≡ none = ground arith in
          rw (h.0 used, h.1 revoked, here) (rw (eq_self id) refl)
    ]

spent_stays :
    (id : String) (rows kept more : List Invitation)
    → count (is_claimable id) rows ≡ 0
    → Rows (NotReissued id) rows kept
    → All (λ j. j.id ≢ id) more
    → count (is_claimable id) (kept ++ more) ≡ 0
spent_stays id [] [] [] spent rows new = refl
spent_stays id [] [] (j ∷ more) spent rows new =
    ground (arith, new.0, spent_stays id [] [] more refl tt new.1)
spent_stays id [] (k ∷ kept) more spent rows new = absurd rows
spent_stays id (r ∷ rows) [] more spent related new = absurd related
spent_stays id (r ∷ rows) (k ∷ kept) more spent related new = ground (
  arith,
  not_reissued_lem id r k related.0,
  spent_stays id rows kept more (ground arith) related.1 new,
)

-- After an acceptance of an invitation has run, whatever came of it, an acceptance of that
-- invitation is refused and changes nothing, also one that had read the invitation before, over
-- any later tables in which that invitation was not issued again (which makes it unused): other
-- invitations may have changed and new ones been added, and the members are any.
pub claim_invitation_once :
    (id id' : String) (now later : ℕ) (i : AcceptableInvitation)
    (user user' wallet wallet' : String) (db db2 : Roster) (kept more : List Invitation)
    → Rows (NotReissued i.id) (claim_invitation id now i user wallet db).1.invitations kept
    → All (λ j. j.id ≢ i.id) more
    → db2.invitations ≡ kept ++ more
    → claim_invitation id' later i user' wallet' db2 ≡ (denied not_found, db2)
claim_invitation_once id id' now later i user user' wallet wallet' db db2 kept more same new grown =
    let first = (claim_invitation id now i user wallet db).1 in
    claim_invitation_spent id' later i user' wallet' db2 (
      ap (count (is_claimable i.id)) grown
      ∙ spent_stays i.id first.invitations kept more
          (claim_invitation_spends id now i user wallet db) same new)

-- The row that an invitation must have to be accepted: its token's hash is the one presented, it is
-- neither revoked nor used, and it has not expired.
pub record IsUsable (hash : String) (now : ℕ) (i : Invitation) (a : AcceptableInvitation)
    : Type 0 where
  pub same_token : i.token_hash ≡ hash
  pub not_revoked : i.revoked_at ≡ none
  pub not_used : i.used_at ≡ none
  pub not_expired : now < i.expires_at
  pub same_terms : (a.id ≡ i.id) × (a.org_id ≡ i.org_id) × (a.org_role ≡ i.org_role)

judge_invitation_sound :
    (hash : String) (now : ℕ) (i : Invitation) (a : AcceptableInvitation)
    → judge_invitation hash now i ≡ acceptable a
    → IsUsable hash now i a
unfolding judge_invitation
judge_invitation_sound hash now i a h = ground arith

-- An invitation is resolved as acceptable only from a stored row that is usable, and with that
-- row's organization and role.
pub resolve_invitation_sound :
    (invitations : List Invitation) (hash : String) (now : ℕ) (a : AcceptableInvitation)
    → resolve_invitation invitations hash now ≡ acceptable a
    → (i : Invitation) × Member i invitations × IsUsable hash now i a
unfolding resolve_invitation
resolve_invitation_sound invitations hash now a h =
    elim (Option-cases (find_first (λ (i : Invitation). i.token_hash == hash) invitations)) [
      | inl missing ↦ absurd (ground arith)
      | inr (i, found) ↦ (
        i,
        find?-Member _ invitations i found,
        judge_invitation_sound hash now i a (ground arith),
      )
    ]

-- Whoever joined before keeps the role that they held; a member who is new gets the invitation's.
abbrev pub Keeps : AcceptableInvitation → String → List OrgMember → List OrgMember → Type 0
Keeps i user [] [] = Unit
Keeps i user [] (n ∷ []) = (n.role ≡ i.org_role) × (n.org_id ≡ i.org_id) × (n.user_id ≡ user)
Keeps i user [] (n ∷ m ∷ rows) = ⊥
Keeps i user (m ∷ rows) [] = ⊥
Keeps i user (m ∷ rows) (n ∷ rows') =
    ((n.role ≡ m.role) × (n.id ≡ m.id) × (n.org_id ≡ m.org_id)) × Keeps i user rows rows'

Keeps-same :
    (i : AcceptableInvitation) (user : String) (rows : List OrgMember) → Keeps i user rows rows
Keeps-same i user [] = tt
Keeps-same i user (m ∷ rows) = ((refl, refl, refl), Keeps-same i user rows)

Keeps-update :
    (i : AcceptableInvitation) (user : String) (p : OrgMember → Bool) (now : ℕ)
    (rows : List OrgMember)
    → Keeps i user rows (update p (reactivate now) rows)
Keeps-update i user p now [] = tt
Keeps-update i user p now (m ∷ rows) = elim (Bool-cases (p m)) [
  | inl hit ↦ rw hit ((refl, refl, refl), Keeps-same i user rows)
  | inr miss ↦ rw miss ((refl, refl, refl), Keeps-update i user p now rows)
]

Keeps-create :
    (i : AcceptableInvitation) (user : String) (n : OrgMember) (rows : List OrgMember)
    → (n.role ≡ i.org_role) × (n.org_id ≡ i.org_id) × (n.user_id ≡ user)
    → Keeps i user rows (create n rows)
Keeps-create i user n [] h = h
Keeps-create i user n (m ∷ rows) h = ((refl, refl, refl), Keeps-create i user n rows h)

rejoin-Keeps :
    (now : ℕ) (i : AcceptableInvitation) (user wallet : String) (m : OrgMember) (db : Roster)
    → Keeps i user db.members (rejoin now i user wallet m db).1.members
unfolding rejoin
rejoin-Keeps now i user wallet m db = elim (Bool-cases (m.status == MembershipStatus.active)) [
  | inl active ↦ rw active (Keeps-same i user db.members)
  | inr other ↦ elim (Bool-cases (m.status == MembershipStatus.removed)) [
    | inl gone ↦ rw (other, gone) (Keeps-same i user db.members)
    | inr back ↦
        rw (other, back) (Keeps-update i user (λ (r : OrgMember). r.id == m.id) now db.members)
  ]
]

-- Accepting an invitation changes no existing member's role, id or organization, and adds at most
-- one member: the accepting user, in the invitation's organization and with the invitation's role.
pub claim_invitation-Keeps :
    (id : String) (now : ℕ) (i : AcceptableInvitation) (user wallet : String) (db : Roster)
    → Keeps i user db.members (claim_invitation id now i user wallet db).1.members
unfolding claim_invitation join
claim_invitation-Keeps id now i user wallet db =
    elim (Bool-cases (count (is_claimable i.id) db.invitations == 0)) [
      | inl spent ↦ rw spent (Keeps-same i user db.members)
      | inr fresh ↦ elim (Option-cases (find_first (is_member i.org_id user) db.members)) [
        | inl new ↦ rw (fresh, new) (Keeps-create i user _ db.members (refl, refl, refl))
        | inr (m, old) ↦ rw (fresh, old) (rejoin-Keeps now i user wallet m _)
      ]
    ]
