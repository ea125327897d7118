-- ===== src/Store/Permissions.antt =====
-- The statements on grants of pkg/database/postgres.go. A `WHERE` clause is a Boolean test on a row.
pub mod Meaning
pub mod Selection
use orion_belt.Prelude.{
  Bool, List, Option, String, [], any, find, if◌then◌else◌, keep, ltb, map, none, not, some, true,
  update_where, ℕ, ◌&&◌, ◌++◌, ◌==◌, ◌||◌, ◌∷◌,
}
use orion_belt.Apperr.{err, ok}
use orion_belt.Types.{Permission, PermissionVersion, permission_end_revoked, permission_end_updated}
use orion_belt.World.{Env, M, fail, pure, sql, time_now, wrap, ◌>>=◌, ◌>>◌}
use orion_belt.Store.Rows.{
  err_not_found, machine_exists, nullable_user_ok, query_row, row_of, user_exists,
}

-- access_type = $3 OR (access_type = 'both' AND $3 IN ('ssh', 'scp'))
abbrev pub type_matches : String → String → Bool
type_matches have wanted =
    have == wanted || (have == "both" && (wanted == "ssh" || wanted == "scp"))

-- expires_at IS NULL OR expires_at > NOW()
abbrev pub unexpired : Option ℕ → ℕ → Bool
unexpired none now = true
unexpired (some e) now = ltb now e

abbrev pub has_text : String → List String → Bool
has_text s xs = any (λ x. x == s) xs

unfoldable pub grants : ℕ → String → String → String → Permission → Bool
grants now user_id machine_id access_type p =
    p.user_id == user_id
    && (p.machine_id == machine_id
        && (type_matches p.access_type access_type && unexpired p.expires_at now))

unfoldable pub grants_as : ℕ → String → String → String → String → Permission → Bool
unfolding grants
grants_as now user_id machine_id access_type remote_user p =
    grants now user_id machine_id access_type p && has_text remote_user p.remote_users

-- The most recently granted of the rows, the first of them where several are as recent.
unfoldable pub newest : List Permission → Option Permission
newest [] = none
newest (p ∷ ps) = elim (newest ps) [
  | none ↦ some p
  | some q ↦ if ltb p.granted_at q.granted_at then some q else some p
]

abbrev pub is_active_trio : ℕ → String → String → String → Permission → Bool
is_active_trio now user_id machine_id access_type p =
    p.user_id == user_id
    && (p.machine_id == machine_id && (p.access_type == access_type && unexpired p.expires_at now))

abbrev pub version : ℕ → String → Permission → PermissionVersion
version t reason p = record { permission = p; superseded_at = some t; end_reason = reason }

abbrev pub versions : ℕ → String → String → List Permission → List PermissionVersion
versions t reason id ps = map (version t reason) (keep (λ (p : Permission). p.id == id) ps)

module _ (env : Env) where
  unfoldable pub has_permission : String → String → String → M Bool
  unfolding grants
  has_permission user_id machine_id access_type =
      wrap "failed to check permission"
        (sql env (λ t w. (ok (any (grants t user_id machine_id access_type) w.permissions), w)))

  unfoldable pub has_permission_with_remote_user : String → String → String → String → M Bool
  unfolding grants_as
  has_permission_with_remote_user user_id machine_id access_type remote_user =
      wrap "failed to check permission" (
        sql env (λ t w.
          (ok (any (grants_as t user_id machine_id access_type remote_user) w.permissions), w)))

  unfoldable pub get_permission : String → M Permission
  get_permission id =
      query_row env "failed to get permission"
        (λ w. find (λ (p : Permission). p.id == id) w.permissions)

  unfoldable pub find_active_permission : String → String → String → M Permission
  unfolding newest
  find_active_permission user_id machine_id access_type = sql env (λ t w.
      (row_of (newest (keep (is_active_trio t user_id machine_id access_type) w.permissions)), w))

  unfoldable pub create_permission : Permission → M (Unit {0})
  create_permission p = wrap "failed to create permission" (
      sql env (λ _ w.
        if any (λ (q : Permission). q.id == p.id) w.permissions
          || not (user_exists p.user_id w)
          || not (machine_exists p.machine_id w)
          || not (nullable_user_ok p.granted_by w)
        then (err env.constraint_error, w)
        else (ok tt, record w { permissions = p ∷ w.permissions })))

  -- The row that is replaced goes to the history in the same statement.
  unfoldable pub update_permission : Permission → M (Unit {0})
  update_permission p = do
    t ← time_now env
    wrap "failed to update permission" (
        sql env (λ _ w.
          if any (λ (q : Permission). q.id == p.id) w.permissions
            && not (nullable_user_ok p.granted_by w)
          then (err env.constraint_error, w)
          else (
            ok tt,
            record w {
              history = versions t permission_end_updated p.id w.permissions ++ w.history;
              permissions =
                  update_where (λ q. q.id == p.id)
                    (λ q. record q {
                      access_type = p.access_type;
                      remote_users = p.remote_users;
                      expires_at = p.expires_at;
                      granted_by = p.granted_by;
                      granted_at = p.granted_at;
                    })
                    w.permissions;
            },
          )))

  unfoldable pub delete_permission : String → M (Unit {0})
  delete_permission id = do
    t ← time_now env
    gone ← wrap "failed to delete permission" (
        sql env (λ _ w. (
          ok (any (λ (q : Permission). q.id == id) w.permissions),
          record w {
            history = versions t permission_end_revoked id w.permissions ++ w.history;
            permissions = keep (λ q. not (q.id == id)) w.permissions;
          },
        )))
    if gone then pure tt else fail err_not_found
