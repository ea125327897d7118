-- ===== src/Auth/Decision.antt =====
-- What a permission check answers: pkg/auth/auth.go over pkg/database/postgres.go.
pub mod Complete
use orion_belt.Prelude.{
  Any, Any-map, List, Option-cases, String, any, any-Any, arith, eq_iff, find, find-Any, inl, inr,
  none, some, suc, true, ℕ, ◌==◌, ◌≡◌, ◌≢◌, ◌⊎◌,
}
use orion_belt.Apperr.{ok}
use orion_belt.Types.{User}
use orion_belt.Types.Roles.{privileged_access}
use orion_belt.World.{Env, World}
use orion_belt.Store.Permissions.{
  grants, grants_as, has_permission, has_permission_with_remote_user,
}
use orion_belt.Auth.Check.{check_exact_access, check_permission_with_remote_user}
use orion_belt.Store.{get_user}
use orion_belt.Store.Permissions.Meaning.{CoversType, Grants, GrantsAs, grants_as_iff, grants_iff}

-- The user of an id has a role that bypasses the grants.
abbrev pub IsPrivileged : String → World → Type 0
IsPrivileged user_id w =
    Any (λ (u : User). (u.id ≡ user_id) × (privileged_access (some u) ≡ true)) w.users

privileged-found :
    (u : String) (xs : List User)
    → privileged_access (find (λ (y : User). y.id == u) xs) ≡ true
    → Any (λ (y : User). (y.id ≡ u) × (privileged_access (some y) ≡ true)) xs
unfolding privileged_access
privileged-found u xs h = elim (Option-cases (find (λ (y : User). y.id == u) xs)) [
  | inl e ↦ cc (rw e at h)
  | inr (x, e) ↦
      Any-map (λ y q. ((eq_iff y.id u).0 q.0, q.1))
        (find-Any (λ (y : User). y.id == u) xs x e (rw e at h))
]

module _ (env : Env) where
  -- The step at which the grants are read: after the user, and after the authorizer if there is one.
  abbrev pub grant_step : World → ℕ
  grant_step w = elim env.authorizer [ none ↦ suc w.tick | some _ ↦ suc (suc w.tick) ]

  check_remote_cases :
      (u m a r : String) (w w' : World)
      → check_permission_with_remote_user env u m a r w ≡ (ok tt, w')
      → (privileged_access (find (λ (y : User). y.id == u) w.users) ≡ true)
        ⊎ (any (grants_as (env.db_clock (grant_step w)) u m a r) w.permissions ≡ true)
  unfolding check_permission_with_remote_user get_user has_permission_with_remote_user
  check_remote_cases u m a r w w' h = ground arith

  check_exact_cases :
      (u m a : String) (w w' : World)
      → check_exact_access env u m a w ≡ (ok tt, w')
      → (privileged_access (find (λ (y : User). y.id == u) w.users) ≡ true)
        ⊎ (any (grants (env.db_clock (grant_step w)) u m a) w.permissions ≡ true)
  unfolding check_exact_access get_user has_permission
  check_exact_cases u m a w w' h = ground arith

  -- An access as a remote account that the gateway allows is allowed by a role, or by a grant in the
  -- local table that is live when it is read, covers the type and lists the account, whatever the
  -- authorizer answers and whichever statements fail.
  pub check_permission_with_remote_user-safe :
      (u m a r : String) (w w' : World)
      → check_permission_with_remote_user env u m a r w ≡ (ok tt, w')
      → IsPrivileged u w ⊎ Any (GrantsAs (env.db_clock (grant_step w)) u m a r) w.permissions
  check_permission_with_remote_user-safe u m a r w w' h = elim (check_remote_cases u m a r w w' h) [
    | inl p ↦ inl (privileged-found u w.users p)
    | inr g ↦ inr (
        Any-map (λ p. (grants_as_iff (env.db_clock (grant_step w)) u m a r p).0)
          (any-Any (grants_as (env.db_clock (grant_step w)) u m a r) w.permissions g))
  ]

  exact_type : (a have : String) → a ≢ "ssh" → a ≢ "scp" → CoversType have a → have ≡ a
  exact_type a have s c (inl e) = e
  exact_type a have s c (inr (b, inl e)) = absurd (s e)
  exact_type a have s c (inr (b, inr e)) = absurd (c e)

  -- An access that is neither ssh nor scp is allowed by a role, or by a live local grant of exactly
  -- that type: an ssh or a "both" grant never opens rdp, vnc or k8s, whatever the authorizer answers.
  pub check_exact_access-safe :
      (u m a : String) (w w' : World)
      → a ≢ "ssh"
      → a ≢ "scp"
      → check_exact_access env u m a w ≡ (ok tt, w')
      → IsPrivileged u w
        ⊎ Any
            (λ p. Grants (env.db_clock (grant_step w)) u m a p × (p.access_type ≡ a))
            w.permissions
  check_exact_access-safe u m a w w' s c h = elim (check_exact_cases u m a w w' h) [
    | inl p ↦ inl (privileged-found u w.users p)
    | inr g ↦ inr (
        Any-map
          (λ p q.
            let k = (grants_iff (env.db_clock (grant_step w)) u m a p).0 q in
            (k, exact_type a p.access_type s c k.covers))
          (any-Any (grants (env.db_clock (grant_step w)) u m a) w.permissions g))
  ]
