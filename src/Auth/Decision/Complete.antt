-- ===== src/Auth/Decision/Complete.antt =====
-- When a permission check says yes, and what it leaves behind: pkg/auth/auth.go.
use orion_belt.Prelude.{
  Any, Any-any, Any-map, String, any, arith, false, find, inl, inr, none, some, suc, true, ℕ, ◌==◌,
  ◌≡◌, ◌≢◌, ◌⊎◌,
}
use orion_belt.World.{Env, World}
use orion_belt.Apperr.{ok}
use orion_belt.Auth.Check.{check_permission_with_remote_user}
use orion_belt.Store.{get_user}
use orion_belt.Types.{User}
use orion_belt.Types.Roles.{privileged_access}
use orion_belt.Store.Permissions.{grants_as, has_permission_with_remote_user}
use orion_belt.Store.Permissions.Meaning.{GrantsAs, grants_as_iff}
use orion_belt.Auth.Decision.{grant_step}

-- The authorizer is absent, fails, or allows the access at the step of its call.
abbrev pub IsNotRefused : Env → ℕ → String → String → String → Type 0
IsNotRefused env n u m a = elim env.authorizer [ none ↦ Unit | some s ↦ s.check n u m a ≢ ok false ]

module _ (env : Env) where
  -- A check changes no table and calls nothing: only the steps are counted on, whatever it answers.
  pub check_permission_with_remote_user_unchanged :
      (u m a r : String) (w : World)
      → (check_permission_with_remote_user env u m a r w).1
        ≡ record w { tick = (check_permission_with_remote_user env u m a r w).1.tick }
  unfolding check_permission_with_remote_user get_user has_permission_with_remote_user
  check_permission_with_remote_user_unchanged u m a r w = ground arith

  check_complete :
      (u m a r : String) (w : World) (x : User)
      → env.fault w.tick ≡ none
      → env.fault (suc w.tick) ≡ none
      → env.fault (suc (suc w.tick)) ≡ none
      → find (λ (y : User). y.id == u) w.users ≡ some x
      → (privileged_access (some x) ≡ true)
        ⊎ (IsNotRefused env (suc w.tick) u m a
            × (any (grants_as (env.db_clock (grant_step env w)) u m a r) w.permissions ≡ true))
      → (check_permission_with_remote_user env u m a r w).0 ≡ ok tt
  unfolding check_permission_with_remote_user get_user has_permission_with_remote_user
  check_complete u m a r w x f0 f1 f2 e h = ground arith

  -- Where no statement fails and the user is known, a role that bypasses the grants, or a live local
  -- grant that covers the type and lists the account together with an authorizer that does not
  -- refuse, is enough for the gateway to allow the access.
  pub check_permission_with_remote_user_complete :
      (u m a r : String) (w : World) (x : User)
      → ((n : ℕ) → env.fault n ≡ none)
      → find (λ (y : User). y.id == u) w.users ≡ some x
      → (privileged_access (some x) ≡ true)
        ⊎ (IsNotRefused env (suc w.tick) u m a
            × Any (GrantsAs (env.db_clock (grant_step env w)) u m a r) w.permissions)
      → (check_permission_with_remote_user env u m a r w).0 ≡ ok tt
  check_permission_with_remote_user_complete u m a r w x f e h =
      check_complete u m a r w x (f w.tick) (f (suc w.tick)) (f (suc (suc w.tick))) e (elim h [
        | inl p ↦ inl p
        | inr (n, g) ↦ inr (
          n,
          Any-any (grants_as (env.db_clock (grant_step env w)) u m a r) w.permissions
              (Any-map (λ p. (grants_as_iff (env.db_clock (grant_step env w)) u m a r p).1) g),
        )
      ])
