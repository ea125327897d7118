-- ===== src/Types/Roles.antt =====
-- The roles of pkg/common/types.go, and the gateway's and the API's tests on them
-- (pkg/auth/auth.go, pkg/api/middelware.go).
use orion_belt.Prelude.{
  Bool, Option, String, arith, false, if◌then◌else◌, inl, inr, leb, none, some, text_cases, true, ℕ,
  ◌==◌, ◌||◌, ◌↔◌, ◌≡◌, ◌⊎◌,
}
use orion_belt.Types.{User}

abbrev pub role_admin : String
role_admin = "admin"

abbrev pub role_operator : String
role_operator = "operator"

abbrev pub role_auditor : String
role_auditor = "auditor"

abbrev pub role_user : String
role_user = "user"

resolve_role : String → Bool → String
resolve_role role is_admin =
    if role == role_admin || role == role_operator || role == role_auditor
    then role
    else if is_admin
    then role_admin
    else if role == ""
    then role_user
    else role

unfoldable pub effective_role : User → String
unfolding resolve_role
effective_role u = resolve_role u.role u.is_admin

-- `order[role]` of `HasRole`; a missing key reads as 0.
unfoldable pub role_order : String → ℕ
role_order r =
    if r == role_user
    then 1
    else if r == role_auditor
    then 2
    else if r == role_operator
    then 3
    else if r == role_admin
    then 4
    else 0

unfoldable pub has_role : User → String → Bool
unfolding role_order
has_role u min = leb (role_order min) (role_order (effective_role u))

unfoldable pub is_privileged_role : String → Bool
is_privileged_role r = r == role_admin || r == role_operator

-- `privilegedAccess`
unfoldable pub privileged_access : Option User → Bool
privileged_access none = false
privileged_access (some u) = if u.is_admin then true else is_privileged_role (effective_role u)

-- The operator's rank or more is the operator's role or the admin's.
operator_rank : (r : String) → leb (role_order role_operator) (role_order r) ≡ is_privileged_role r
unfolding role_order is_privileged_role
operator_rank r = elim (text_cases r role_user) [
  | inl e ↦ rw e
  | inr a ↦ elim (text_cases r role_auditor) [ inl e ↦ rw e | inr b ↦ ground arith ]
]

admin_without_rank :
    (r : String) (b : Bool)
    → b ≡ true
    → is_privileged_role (resolve_role r b) ≡ false
    → r ≡ role_auditor
unfolding resolve_role is_privileged_role
admin_without_rank r true p h = elim (text_cases r role_auditor) [
  | inl e ↦ e
  | inr b ↦ elim (text_cases r role_operator) [
    | inl e ↦ cc (rw e at h)
    | inr c ↦ elim (text_cases r role_admin) [
      | inl e ↦ cc (rw e at h)
      | inr d ↦ cc (rw (d, c, b) at h)
    ]
  ]
]
admin_without_rank r false p h = cc

-- Exactly the users with the operator's privileges, and those who carry the admin flag beside the
-- auditor role, bypass ReBAC.
pub privileged_access_iff :
    (u : User)
    → (privileged_access (some u) ≡ true)
      ↔ ((has_role u role_operator ≡ true) ⊎ ((u.is_admin ≡ true) × (u.role ≡ role_auditor)))
unfolding privileged_access has_role effective_role
privileged_access_iff u =
    let rank = operator_rank (effective_role u) in
    let flagged = admin_without_rank u.role u.is_admin in
    (λ h. ground (arith, rank, flagged), λ h. ground (arith, rank))
