-- ===== src/Auth/Explain/Agree.antt =====
-- An explanation beside the check that it explains: pkg/auth/explain.go.
use orion_belt.Prelude.{
  Bool, List, String, any, any-keep, any-sort_desc, any_same, ap, arith, false, find, inl, inr,
  keep, none, refl, some, sort_desc, suc, ℕ, ◌&&◌, ◌==◌, ◌||◌, ◌∙◌, ◌≡◌,
}
use orion_belt.Apperr.{Result, Result-cases, ok}
use orion_belt.Access.{is_tunnel_access_type}
use orion_belt.World.{Env, World, step}
use orion_belt.Store.{get_machine, get_user}
use orion_belt.Store.Listing.{list_pair_permissions, list_user_access_requests}
use orion_belt.Store.Permissions.{grants, grants_as, has_permission_with_remote_user}
use orion_belt.Types.{AccessRequest, Machine, Permission, User}
use orion_belt.Auth.Decision.Complete.{check_permission_with_remote_user_unchanged}
use orion_belt.Auth.Check.{check_permission_with_remote_user}
use orion_belt.Auth.Explain.{
  AccessExplanation, AccessLink, explain_access, explain_request_history, explanation, grant_links,
  is_ok,
}
use orion_belt.Auth.Explain.Links.{
  covers_now, explanation-allowed, explanation-holds, grant_links-covers_now, holds,
}
use orion_belt.Types.Roles.{privileged_access}

module _ (env : Env) (format : ℕ → String) where
  get_user-step : (u : String) (w : World) → (get_user env u w).1 ≡ step w
  unfolding get_user
  get_user-step u w = ground arith

  pub get_user-find :
      (u : String) (w : World) (x : User)
      → (get_user env u w).0 ≡ ok x
      → find (λ (y : User). y.id == u) w.users ≡ some x
  unfolding get_user
  get_user-find u w x h = ground arith

  get_machine-step : (m : String) (w : World) → (get_machine env m w).1 ≡ step w
  unfolding get_machine
  get_machine-step m w = ground arith

  list_pair_permissions-step :
      (u m : String) (w : World) → (list_pair_permissions env u m w).1 ≡ step w
  unfolding list_pair_permissions
  list_pair_permissions-step u m w = ground arith

  abbrev granted : Permission → ℕ
  granted p = p.granted_at

  abbrev is_pair : String → String → Permission → Bool
  is_pair u m p = p.user_id == u && p.machine_id == m

  list_pair_permissions-rows :
      (u m : String) (w : World) (ps : List Permission)
      → (list_pair_permissions env u m w).0 ≡ ok ps
      → ps ≡ sort_desc granted (keep (is_pair u m) w.permissions)
  unfolding list_pair_permissions
  list_pair_permissions-rows u m w ps h = ground arith

  list_user_access_requests-step :
      (u : String) (n k : ℕ) (w : World) → (list_user_access_requests env u n k w).1 ≡ step w
  unfolding list_user_access_requests
  list_user_access_requests-step u n k w = ground arith

  pair_covers :
      (t : ℕ) (u m a r : String) (ps : List Permission)
      → any (covers_now t a r) (sort_desc granted (keep (is_pair u m) ps))
        ≡ any (grants_as t u m a r) ps
  unfolding grants_as grants
  pair_covers t u m a r ps =
      any-sort_desc granted (covers_now t a r) (keep (is_pair u m) ps)
      ∙ (any-keep (covers_now t a r) (is_pair u m) ps
          ∙ any_same _ (grants_as t u m a r) ps (λ p. ground arith))

  module _ (u m a r : String) (w : World) where
    -- The world after the check, which the lists read.
    abbrev pub checked : Result (Unit {0}) × World
    checked = check_permission_with_remote_user env u m a r (step (step w))

    abbrev pub two_more : World
    two_more = step (step checked.1)

    abbrev pub IsAgreed : AccessExplanation → Type 0
    IsAgreed ex =
        (x : User) × (find (λ (y : User). y.id == u) w.users ≡ some x)
        × (ex.allowed ≡ is_ok checked.0)
        × (any holds ex.chain ≡ (
            privileged_access (some x)
            || any (grants_as (env.clock two_more.tick) u m a r) w.permissions))

    pub explain_access-parts :
        (v : World) (ex : AccessExplanation)
        → explain_access env format u m a r w ≡ (ok ex, v)
        → (x : User) × (y : Machine) × (gs : List Permission) × (rs : List AccessRequest)
          × ((get_user env u w).0 ≡ ok x)
          × ((list_pair_permissions env u m checked.1).0 ≡ ok gs)
          × (((links : List AccessLink) (n : ℕ)
              → grant_links env format a r rs (env.clock two_more.tick) gs (step two_more)
                ≡ (ok links, record two_more { tick = n })
              → ex ≡ explanation env format x y m a r (is_ok checked.0) links rs))
    unfolding explain_access
    explain_access-parts v ex h =
        let s1 = get_user-step u w in
        let s2 = get_machine-step m (step w) in
        let s3 = list_pair_permissions-step u m checked.1 in
        let s4 = list_user_access_requests-step u explain_request_history 0 (step checked.1) in
        elim (Result-cases (get_user env u w).0) [
          | inl (e, g1) ↦ absurd (ground (arith, g1, s1))
          | inr (x, g1) ↦ elim (Result-cases (get_machine env m (step w)).0) [
            | inl (e, g2) ↦ absurd (ground (arith, g1, s1, g2, s2))
            | inr (y, g2) ↦ elim (Result-cases (list_pair_permissions env u m checked.1).0) [
              | inl (e, g3) ↦ absurd (ground (arith, g1, s1, g2, s2, g3, s3))
              | inr (gs, g3) ↦
                  elim (Result-cases
                    (list_user_access_requests env u explain_request_history 0
                      (step checked.1)).0) [
                        | inl (e, g4) ↦ absurd (ground (arith, g1, s1, g2, s2, g3, s3, g4, s4))
                        | inr (rs, g4) ↦ (
                          x,
                          y,
                          gs,
                          rs,
                          g1,
                          g3,
                          λ links n e. ground (arith, g1, s1, g2, s2, g3, s3, g4, s4, e),
                        )
                      ]
            ]
          ]
        ]

    checked_permissions : checked.1.permissions ≡ w.permissions
    checked_permissions =
        ap (λ (z : World). z.permissions)
          (check_permission_with_remote_user_unchanged env u m a r (step (step w)))

    -- An explanation of an access of any type but a tunnel's says "allowed" exactly when
    -- CheckPermissionWithRemoteUser, which is the gateway's check for ssh and not the one for kubectl,
    -- answers yes in the state in which the explanation calls it; and one of its links holds exactly
    -- when the user's role bypasses the grants, or a grant of the user on the machine is live at the
    -- time of the explanation, covers the type and lists the account.
    pub explain_access-IsAgreed :
        (v : World) (ex : AccessExplanation)
        → is_tunnel_access_type a ≡ false
        → explain_access env format u m a r w ≡ (ok ex, v)
        → IsAgreed ex
    explain_access-IsAgreed v ex t h =
        let (x, y, gs, rs, g1, g3, make) = explain_access-parts v ex h in
        let now = env.clock two_more.tick in
        let (links, n, e, l) = grant_links-covers_now env format a r rs now gs (step two_more) t in
        let same = make links n e in
        let rows : gs ≡ sort_desc granted (keep (is_pair u m) w.permissions) =
          list_pair_permissions-rows u m checked.1 gs g3
          ∙ ap (λ ps. sort_desc granted (keep (is_pair u m) ps)) checked_permissions in
        (
          x,
          get_user-find u w x g1,
          rw same (explanation-allowed env format x y m a r (is_ok checked.0) links rs),
          rw
              (
                same,
                explanation-holds env format x y m a r (is_ok checked.0) links rs,
                l,
                rows,
                pair_covers now u m a r w.permissions,
              )
              refl,
        )

    check-local :
        (x : User)
        → env.authorizer ≡ none
        → ((n : ℕ) → env.fault n ≡ none)
        → find (λ (y : User). y.id == u) w.users ≡ some x
        → is_ok checked.0 ≡ (
            privileged_access (some x)
            || any (grants_as (env.db_clock (suc (suc (suc w.tick)))) u m a r) w.permissions)
    unfolding check_permission_with_remote_user get_user has_permission_with_remote_user
    check-local x n f e = ground (arith, n, f (suc (suc w.tick)), f (suc (suc (suc w.tick))), e)

    -- Without an external authorizer, while no statement fails and the clocks stand at one time, an
    -- explanation of an access of any type but a tunnel's says "allowed" exactly when one of its links
    -- holds.
    pub explain_access-allowed :
        (t : ℕ) (v : World) (ex : AccessExplanation)
        → is_tunnel_access_type a ≡ false
        → env.authorizer ≡ none
        → ((n : ℕ) → env.fault n ≡ none)
        → ((n : ℕ) → env.clock n ≡ t)
        → ((n : ℕ) → env.db_clock n ≡ t)
        → explain_access env format u m a r w ≡ (ok ex, v)
        → ex.allowed ≡ any holds ex.chain
    explain_access-allowed t v ex tunnel n f c d h =
        let (x, e, allowed, chain) = explain_access-IsAgreed v ex tunnel h in
        rw (allowed, chain, check-local x n f e, c two_more.tick, d (suc (suc (suc w.tick)))) refl
