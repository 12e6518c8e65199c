-- ===== src/Tenancy/LastAdmin.antt =====
-- The active administrators of an organization under a change of one member row.
use core_flow.Prelude.{
  ℕ, ◌<◌, String, ◌≡◌, refl, ◌∙◌, inl, inr, Bool, true, false, List, [], ◌∷◌, none, some, ◌==◌,
  string_eq, nat_eq, eq_self, eq-eq_true, ◌&&◌, ◌||◌, contains, Bool-cases, arith,
}
use core_flow.Prelude.Table.{find_first, count, update, count-update, count-update_apart, count_le}
use core_flow.Roles.{OrgRole, org_role_eq}
use core_flow.Tenancy.Rbac.{administrative_roles, is_administrative}
use core_flow.Tenancy.Resolve.{MembershipStatus, membership_status_eq, OrgMember}
use core_flow.Tenancy.Membership.{is_other_admin, check_not_last_administrator}
use core_flow.Tenancy.Members.{
  Wanted, absent, unknown, value, Members, set_role, set_status, with_id, in_tenant,
}

abbrev pub is_active_admin : String → OrgMember → Bool
is_active_admin org m =
    m.org_id == org && m.status == MembershipStatus.active && contains m.role administrative_roles

-- The active administrators of the organization.
abbrev pub admins : String → Members → ℕ
admins org db = count (is_active_admin org) db.rows

-- Ids are the table's primary key.
abbrev pub UniqueIds : List OrgMember → Type 0
UniqueIds [] = Unit
UniqueIds (m ∷ rows) = (count (with_id m.id) rows ≡ 0) × UniqueIds rows

pub or_true : (b : Bool) → (b || true) ≡ true
or_true true = refl
or_true false = refl

pub set_status-role :
    (now : ℕ) (status : Wanted MembershipStatus) (m : OrgMember)
    → (set_status now status m).role ≡ m.role
set_status-role now absent m = refl
set_status-role now unknown m = refl
set_status-role now (value MembershipStatus.invited) m = refl
set_status-role now (value _) m = refl

pub set_role_scope :
    (role : Wanted OrgRole) (m : OrgMember)
    → ((set_role role m).id ≡ m.id)
      × ((set_role role m).org_id ≡ m.org_id)
      × ((set_role role m).status ≡ m.status)
set_role_scope absent m = (refl, refl, refl)
set_role_scope _ m = (refl, refl, refl)

pub set_status_scope :
    (now : ℕ) (status : Wanted MembershipStatus) (m : OrgMember)
    → ((set_status now status m).id ≡ m.id) × ((set_status now status m).org_id ≡ m.org_id)
set_status_scope now absent m = (refl, refl)
set_status_scope now unknown m = (refl, refl)
set_status_scope now (value MembershipStatus.invited) m = (refl, refl)
set_status_scope now (value _) m = (refl, refl)

found-counted :
    (p : OrgMember → Bool) (rows : List OrgMember) (m : OrgMember)
    → find_first p rows ≡ some m
    → 0 < count p rows
found-counted p [] m h = absurd (ground arith)
found-counted p (x ∷ rows) m h = ground (arith, found-counted p rows m)

pub found_by_id :
    (id org : String) (rows : List OrgMember) (m : OrgMember)
    → UniqueIds rows
    → find_first (in_tenant id org) rows ≡ some m
    → find_first (with_id m.id) rows ≡ some m
found_by_id id org [] m u h = absurd (ground arith)
found_by_id id org (x ∷ rows) m u h = elim (Bool-cases (in_tenant id org x)) [
  | inl here ↦ let same : x ≡ m = ground arith in rw (same, eq_self m.id)
  | inr later ↦
      let rest = found_by_id id org rows m u.1 (rw later at h) in
      elim (Bool-cases (x.id == m.id)) [
        | inr apart ↦ rw apart rest
        | inl clash ↦
            let same : x.id ≡ m.id = eq-eq_true x.id m.id clash in
            absurd (omega (arith, found-counted (with_id m.id) rows m rest, rw same at u.0))
      ]
]

pub admin_parts :
    (org : String) (m : OrgMember)
    → is_active_admin org m ≡ true
    → (contains m.role administrative_roles ≡ true) × ((m.status == MembershipStatus.active) ≡ true)
admin_parts org m h = ground arith

-- What the guards leave: unless the change keeps an active administrator one, another is there.
pub cover :
    (org : String) (rows : List OrgMember) (m : OrgMember)
    → is_active_admin org m ≡ true
    → check_not_last_administrator rows org m ≡ none
    → 0 < count (is_other_admin org m.id) rows
unfolding check_not_last_administrator is_administrative
cover org rows m admin free =
    let (role, active) = admin_parts org m admin in
    elim (Bool-cases (count (is_other_admin org m.id) rows == 0)) [
      | inl alone ↦ absurd (cc (rw (role, active, alone) at free))
      | inr others ↦ ground arith
    ]

not_other : (org id : String) (r : OrgMember) → r.id ≡ id → is_other_admin org id r ≡ false
not_other org id r h = ground arith

pub change_keeps_admin :
    (org : String) (rows : List OrgMember) (m : OrgMember) (f : OrgMember → OrgMember)
    → find_first (with_id m.id) rows ≡ some m
    → ((r : OrgMember) → (f r).id ≡ r.id)
    → (is_active_admin org m ≡ true
        → is_active_admin org (f m) ≡ false
        → 0 < count (is_other_admin org m.id) rows)
    → 0 < count (is_active_admin org) rows
    → 0 < count (is_active_admin org) (update (with_id m.id) f rows)
change_keeps_admin org rows m f found keeps covered some_admin =
    let bal = count-update (with_id m.id) (is_active_admin org) f rows m found in
    elim (Bool-cases (is_active_admin org m)) [
      | inr plain ↦ omega (arith, rw plain at bal)
      | inl admin ↦ elim (Bool-cases (is_active_admin org (f m))) [
        | inl still ↦ omega (arith, rw (admin, still) at bal)
        | inr gone ↦ omega (
          arith,
          covered admin gone,
          count-update_apart (with_id m.id) (is_other_admin org m.id) f
              (λ r hit. (
                not_other org m.id r (eq-eq_true _ _ hit),
                not_other org m.id (f r) (keeps r ∙ eq-eq_true _ _ hit),
              ))
              rows,
          count_le (is_other_admin org m.id) (is_active_admin org) (λ r other. ground arith)
              (update (with_id m.id) f rows),
        )
      ]
    ]
