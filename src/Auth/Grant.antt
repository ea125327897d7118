-- ===== src/Auth/Grant.antt =====
-- Granting and revoking: `GrantPermission` and `RevokePermission` of pkg/auth/auth.go.
use orion_belt.Prelude.{
  List, Option, String, if◌then◌else◌, ltb, none, some, ℕ, ◌%◌, ◌*◌, ◌+◌, ◌-◌, ◌^◌, ◌∷◌,
}
use orion_belt.Apperr.{err, ok}
use orion_belt.Types.{Permission, new_permission}
use orion_belt.World.{
  Env, GrantCall, M, attempt, delete, fresh_id, pure, step, time_now, wrap, write, ◌>>=◌, ◌>>◌,
}
use orion_belt.Store.Permissions.{
  create_permission, delete_permission, find_active_permission, get_permission, update_permission,
}

-- `t.Add(d)` for a `time.Duration`, an int64 kept as its bit pattern. The subtraction is exact at
-- any time after 1970, which is more than 2^63 nanoseconds after Go's zero time.
unfoldable pub add_duration : ℕ → ℕ → ℕ
add_duration t d = if ltb d (2 ^ 63) then t + d else t - (2 ^ 64 - d)

-- `time.Duration(seconds) * time.Second`, which wraps around.
unfoldable pub seconds_to_duration : ℕ → ℕ
seconds_to_duration n = n * 1000000000 % 2 ^ 64

abbrev pub expiry_from : ℕ → Option ℕ → Option ℕ
expiry_from t none = none
expiry_from t (some d) = some (add_duration t d)

module _ (env : Env) where
  -- `WriteGrant` and `DeleteGrant` on the authorizer, if there is one; an error is only logged.
  unfoldable pub tell_authorizer : GrantCall → M (Unit {0})
  tell_authorizer call w = elim env.authorizer [
    | none ↦ (ok tt, w)
    | some a ↦ (ok tt, step (record w { sent = call ∷ w.sent }))
  ]

  abbrev pub expiry : Option ℕ → M (Option ℕ)
  expiry none = pure none
  expiry (some d) = do t ← time_now env; pure (some (add_duration t d))

  abbrev pub create_new : String → String → String → List String → String → Option ℕ → M (Unit {0})
  create_new user_id machine_id access_type remote_users granted_by expires_at = do
    id ← fresh_id env
    t ← time_now env
    wrap "failed to create permission" (
        create_permission env
          (new_permission id t user_id machine_id access_type remote_users granted_by expires_at))
    tell_authorizer (write user_id machine_id access_type)

  abbrev pub replace : Permission → List String → String → Option ℕ → M (Unit {0})
  replace existing remote_users granted_by expires_at = do
    t ← time_now env
    wrap "failed to update permission" (
        update_permission env (record existing {
          remote_users = remote_users;
          expires_at = expires_at;
          granted_by = granted_by;
          granted_at = t;
        }))

  unfoldable pub grant_permission :
      String → String → String → List String → String → Option ℕ → M (Unit {0})
  unfolding tell_authorizer
  grant_permission user_id machine_id access_type remote_users granted_by duration = do
    expires_at ← expiry duration
    existing ← attempt (find_active_permission env user_id machine_id access_type)
    elim existing [
      | ok p ↦ replace p remote_users granted_by expires_at
      | err _ ↦ create_new user_id machine_id access_type remote_users granted_by expires_at
    ]

  unfoldable pub revoke_permission : String → M (Unit {0})
  unfolding tell_authorizer
  revoke_permission permission_id = do
    perm ← wrap "failed to get permission" (get_permission env permission_id)
    wrap "failed to revoke permission" (delete_permission env permission_id)
    tell_authorizer (delete perm.user_id perm.machine_id perm.access_type)
