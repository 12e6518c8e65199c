-- ===== src/Tenancy/MemberGuards.antt =====
-- An organization never loses its last active administrator to a member request: the guards of the
-- handlers in Members.antt, for a request that no other one interrupts.
use core_flow.Prelude.{
  ℕ, ◌<◌, String, ◌≡◌, ap, ◌∙◌, inl, inr, true, false, List, none, some, ◌==◌, string_eq, nat_eq,
  eq_self, eq-eq_true, contains, Bool-cases, Option-cases, arith,
}
use core_flow.Prelude.Table.{find_first, count}
use core_flow.Roles.{OrgRole, org_role_eq}
use core_flow.Tenancy.Rbac.{administrative_roles}
use core_flow.Tenancy.Resolve.{
  MembershipStatus, membership_status_eq, MembershipStatus-discrete, OrgMember, TenantContext,
}
use core_flow.Tenancy.Membership.{
  membership_transitions, is_other_admin, check_not_last_administrator, check_role_assignment,
  can_transition_membership,
}
use core_flow.Tenancy.Members.{
  Wanted, absent, unknown, value, Members, requires_admin_cover, role_guard, status_guard, set_role,
  set_status, in_tenant, write_member, patch_found, patch_member, delete_found, delete_member,
}
use core_flow.Tenancy.LastAdmin.{
  is_active_admin, admins, UniqueIds, cover, change_keeps_admin, found_by_id, admin_parts, or_true,
  set_status-role, set_role_scope, set_status_scope,
}

-- A role change that would end an administrator's role passed the check for another one.
role_cover :
    (ctx : TenantContext) (rows : List OrgMember) (m : OrgMember) (role : Wanted OrgRole)
    → role_guard ctx rows m role ≡ none
    → is_active_admin ctx.org_id m ≡ true
    → contains (set_role role m).role administrative_roles ≡ false
    → 0 < count (is_other_admin ctx.org_id m.id) rows
unfolding role_guard
role_cover ctx rows m absent free admin gone = cc ((admin_parts ctx.org_id m admin).0)
role_cover ctx rows m unknown free admin gone = cc
role_cover ctx rows m (value r) free admin gone =
    elim (Option-cases (check_role_assignment ctx r)) [
      | inr (d, refused) ↦ absurd (ground arith)
      | inl assignable ↦ elim (Bool-cases (m.role == r)) [
        | inl same ↦ cc (
          ap (λ x. contains x administrative_roles) (eq-eq_true m.role r same),
          (admin_parts ctx.org_id m admin).0,
        )
        | inr other ↦ cover ctx.org_id rows m admin (ground arith)
      ]
    ]

no_way_back :
    (m : OrgMember)
    → (m.status == MembershipStatus.active) ≡ true
    → can_transition_membership m.status MembershipStatus.invited ≡ false
unfolding can_transition_membership membership_transitions MembershipStatus-discrete
no_way_back m h = rw (eq-eq_true m.status MembershipStatus.active h)

covered_status :
    (ctx : TenantContext) (rows : List OrgMember) (m : OrgMember) (s : MembershipStatus)
    → requires_admin_cover s ≡ true
    → status_guard ctx rows m (value s) ≡ none
    → check_not_last_administrator rows ctx.org_id m ≡ none
unfolding status_guard
covered_status ctx rows m s needs free = elim (Bool-cases (can_transition_membership m.status s)) [
  | inr barred ↦ absurd (cc (rw barred at free))
  | inl open_to ↦ elim (Option-cases (check_not_last_administrator rows ctx.org_id m)) [
    | inl fine ↦ fine
    | inr (d, refused) ↦ absurd (cc (rw (open_to, needs, refused) at free))
  ]
]

-- So did a status change that would end an active membership.
status_cover :
    (now : ℕ) (ctx : TenantContext) (rows : List OrgMember) (m r : OrgMember)
    → (status : Wanted MembershipStatus) → status_guard ctx rows m status ≡ none
    → is_active_admin ctx.org_id m ≡ true
    → r.status ≡ m.status
    → ((set_status now status r).status == MembershipStatus.active) ≡ false
    → 0 < count (is_other_admin ctx.org_id m.id) rows
unfolding status_guard requires_admin_cover
status_cover now ctx rows m r absent free admin kept gone =
    absurd (cc (rw kept at gone, (admin_parts ctx.org_id m admin).1))
status_cover now ctx rows m r unknown free admin kept gone = cc
status_cover now ctx rows m r (value MembershipStatus.active) free admin kept gone =
    absurd (cc (eq_self MembershipStatus.active))
status_cover now ctx rows m r (value MembershipStatus.invited) free admin kept gone =
    absurd (cc (rw (no_way_back m (admin_parts ctx.org_id m admin).1) at free))
status_cover now ctx rows m r (value MembershipStatus.suspended) free admin kept gone =
    cover ctx.org_id rows m admin (
      covered_status ctx rows m MembershipStatus.suspended (rw (eq_self MembershipStatus.suspended))
        free)
status_cover now ctx rows m r (value MembershipStatus.removed) free admin kept gone =
    cover ctx.org_id rows m admin (
      covered_status ctx rows m MembershipStatus.removed
        (rw (eq_self MembershipStatus.removed)
          (or_true (MembershipStatus.removed == MembershipStatus.suspended)))
        free)

ended :
    (org : String) (r : OrgMember)
    → is_active_admin org r ≡ false
    → contains r.role administrative_roles ≡ true
    → r.org_id ≡ org
    → (r.status == MembershipStatus.active) ≡ false
ended org r gone admin here = ground arith

active_org : (org : String) (m : OrgMember) → is_active_admin org m ≡ true → m.org_id ≡ org
active_org org m h = ground arith

guards_cover :
    (now : ℕ) (ctx : TenantContext) (rows : List OrgMember) (m : OrgMember)
    → (role : Wanted OrgRole) (status : Wanted MembershipStatus) → role_guard ctx rows m role ≡ none
    → status_guard ctx rows m status ≡ none
    → is_active_admin ctx.org_id m ≡ true
    → is_active_admin ctx.org_id (set_status now status (set_role role m)) ≡ false
    → 0 < count (is_other_admin ctx.org_id m.id) rows
guards_cover now ctx rows m role status r s admin gone =
    let changed = set_status now status (set_role role m) in
    elim (Bool-cases (contains changed.role administrative_roles)) [
      | inr demoted ↦
          role_cover ctx rows m role r admin
            (rw (set_status-role now status (set_role role m)) at demoted)
      | inl still ↦
          status_cover now ctx rows m (set_role role m) status s admin (set_role_scope role m).2 (
            ended ctx.org_id changed gone still (
              (set_status_scope now status (set_role role m)).1
              ∙ (set_role_scope role m).1
              ∙ (active_org ctx.org_id m admin)))
    ]

write_member-keeps :
    (now : ℕ) (ctx : TenantContext) (id : String) (db : Members) (m : OrgMember)
    → (role : Wanted OrgRole) (status : Wanted MembershipStatus) → UniqueIds db.rows
    → find_first (in_tenant id ctx.org_id) db.rows ≡ some m
    → role_guard ctx db.rows m role ≡ none
    → status_guard ctx db.rows m status ≡ none
    → 0 < admins ctx.org_id db
    → 0 < admins ctx.org_id (write_member now ctx m role status db).1
unfolding write_member
write_member-keeps now ctx id db m role status unique found r s some_admin =
    change_keeps_admin ctx.org_id db.rows m (λ x. set_status now status (set_role role x))
      (found_by_id id ctx.org_id db.rows m unique found)
      (λ x. (set_status_scope now status (set_role role x)).0 ∙ (set_role_scope role x).0)
      (guards_cover now ctx db.rows m role status r s) some_admin

-- A request to change a member's role, status or both, whoever makes it and whatever it asks, leaves
-- its organization with an active OWNER or ADMIN if it had one, the member ids being unique.
pub patch_member_keeps_admin :
    (now : ℕ) (ctx : TenantContext) (org id : String)
    → (role : Wanted OrgRole) (status : Wanted MembershipStatus) (db : Members) → UniqueIds db.rows
    → 0 < admins ctx.org_id db
    → 0 < admins ctx.org_id (patch_member now ctx org id role status db).1
unfolding patch_member patch_found
patch_member_keeps_admin now ctx org id role status db unique some_admin =
    elim (Option-cases (find_first (in_tenant id ctx.org_id) db.rows)) [
      | inl missing ↦ ground arith
      | inr (m, found) ↦ elim (Option-cases (role_guard ctx db.rows m role)) [
        | inr (d, refused) ↦ ground arith
        | inl r ↦ elim (Option-cases (status_guard ctx db.rows m status)) [
          | inr (d, refused) ↦ ground arith
          | inl s ↦
              ground
                (arith, write_member-keeps now ctx id db m role status unique found r s some_admin)
        ]
      ]
    ]

delete_cover :
    (now : ℕ) (ctx : TenantContext) (rows : List OrgMember) (m : OrgMember)
    → check_not_last_administrator rows ctx.org_id m ≡ none
    → is_active_admin ctx.org_id m ≡ true
    → 0 < count (is_other_admin ctx.org_id m.id) rows
delete_cover now ctx rows m free admin = cover ctx.org_id rows m admin free

-- A request to remove a member, whoever makes it, leaves its organization with an active OWNER or
-- ADMIN if it had one, the member ids being unique.
pub delete_member_keeps_admin :
    (now : ℕ) (ctx : TenantContext) (org id : String) (db : Members)
    → UniqueIds db.rows
    → 0 < admins ctx.org_id db
    → 0 < admins ctx.org_id (delete_member now ctx org id db).1
unfolding delete_member delete_found
delete_member_keeps_admin now ctx org id db unique some_admin =
    elim (Option-cases (find_first (in_tenant id ctx.org_id) db.rows)) [
      | inl missing ↦ ground arith
      | inr (m, found) ↦ elim (Option-cases (check_not_last_administrator db.rows ctx.org_id m)) [
        | inr (d, refused) ↦ ground arith
        | inl free ↦ ground (
          arith,
          change_keeps_admin ctx.org_id db.rows m (set_status now (value MembershipStatus.removed))
              (found_by_id id ctx.org_id db.rows m unique found)
              (λ x. (set_status_scope now (value MembershipStatus.removed) x).0)
              (λ admin _. delete_cover now ctx db.rows m free admin) some_admin,
        )
      ]
    ]
