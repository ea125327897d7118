-- ===== src/Store/Listing.antt =====
-- The lists that pkg/database/postgres.go reads: users, machines, grants and access requests. Rows that
-- an `ORDER BY` does not tell apart stand in the order of the table.
use orion_belt.Prelude.{List, String, drop, keep, sort_desc, take, ℕ, ◌&&◌, ◌==◌}
use orion_belt.Apperr.{ok, ◌+++◌}
use orion_belt.Types.{AccessRequest, Machine, Permission, User}
use orion_belt.World.{Env, M, sql, wrap}
use orion_belt.Store.Permissions.{unexpired}

-- ORDER BY ... DESC LIMIT limit OFFSET offset
abbrev pub page : {A : Type 0} → (A → ℕ) → ℕ → ℕ → List A → List A
page key limit offset xs = take limit (drop offset (sort_desc key xs))

module _ (env : Env) where
  unfoldable pub list_users : ℕ → ℕ → M (List User)
  list_users limit offset =
      wrap "failed to list users"
        (sql env (λ _ w. (ok (page (λ (u : User). u.created_at) limit offset w.users), w)))

  unfoldable pub list_machines : ℕ → ℕ → M (List Machine)
  list_machines limit offset =
      wrap "failed to list machines"
        (sql env (λ _ w. (ok (page (λ (m : Machine). m.created_at) limit offset w.machines), w)))

  unfoldable pub list_user_access_requests : String → ℕ → ℕ → M (List AccessRequest)
  list_user_access_requests user_id limit offset = wrap "failed to list user access requests" (
      sql env (λ _ w. (
        ok (
            page (λ (r : AccessRequest). r.requested_at) limit offset
              (keep (λ (r : AccessRequest). r.user_id == user_id) w.requests)),
        w,
      )))

  unfoldable pub list_user_permissions : String → M (List Permission)
  list_user_permissions user_id = wrap "failed to list user permissions" (
      sql env (λ t w. (
        ok (
            sort_desc (λ (p : Permission). p.granted_at)
              (keep (λ (p : Permission). p.user_id == user_id && unexpired p.expires_at t)
                w.permissions)),
        w,
      )))

  unfoldable pub list_machine_permissions : String → M (List Permission)
  list_machine_permissions machine_id = wrap "failed to list machine permissions" (
      sql env (λ t w. (
        ok (
            sort_desc (λ (p : Permission). p.granted_at)
              (keep (λ (p : Permission). p.machine_id == machine_id && unexpired p.expires_at t)
                w.permissions)),
        w,
      )))

  unfoldable pub list_pair_permissions : String → String → M (List Permission)
  list_pair_permissions user_id machine_id =
      wrap ("failed to list permissions for user " +++ user_id +++ " on machine " +++ machine_id) (
        sql env (λ _ w. (
          ok (
              sort_desc (λ (p : Permission). p.granted_at)
                (keep (λ (p : Permission). p.user_id == user_id && p.machine_id == machine_id)
                  w.permissions)),
          w,
        )))
