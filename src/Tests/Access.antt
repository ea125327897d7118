-- ===== src/Tests/Access.antt =====
-- Permission checks, grants and approvals of a small gateway.
use orion_belt.Prelude.{Any, [], decimal, inl, none, pos, refl, some, text_ne, ◌∷◌, ◌≡◌, ◌⊎◌}
use orion_belt.World.{Env, World, step}
use orion_belt.Auth.Decision.{
  IsPrivileged, check_exact_access-safe, check_permission_with_remote_user-safe, grant_step,
}
use orion_belt.Tests.Fixtures.{
  boom, env, env_with, failing_at, no_permissions, omar, request, world,
}
use orion_belt.Types.{AccessRequest, new_permission}
use orion_belt.Apperr.{Error, err, ok, wrapped}
use orion_belt.Types.Roles.{effective_role, is_privileged_role, privileged_access}
use orion_belt.Auth.{
  add_duration, approve_access_request_with_ttl, check_exact_access,
  check_permission_with_remote_user, grant_permission, or_both, reject_access_request,
}
use orion_belt.Auth.Effect.{IsGrant, grant_permission-IsGrant}
use orion_belt.Auth.Approval.{
  approval, approve_access_request_with_ttl-grants, approve_access_request_with_ttl_lost,
  approve_access_request_with_ttl_once, granted_until, refusal, request_of, review_all,
}
use orion_belt.Auth.Decision.Complete.{check_permission_with_remote_user_complete}
use orion_belt.Store.Permissions.Meaning.{Grants, GrantsAs}
use orion_belt.Store.Requests.{get_access_request, reviewed, update_access_request}
use orion_belt.Store.{get_user}
use orion_belt.Store.Permissions.{
  create_permission, find_active_permission, has_permission, has_permission_with_remote_user,
  update_permission,
}

check_permission_with_remote_user-safe_example :
    IsPrivileged "alice" world
    ⊎ Any
        (GrantsAs (env.db_clock (grant_step env world)) "alice" "web" "ssh" "deploy")
        world.permissions
unfolding check_permission_with_remote_user get_user privileged_access is_privileged_role
    effective_role has_permission_with_remote_user
check_permission_with_remote_user-safe_example =
    check_permission_with_remote_user-safe env "alice" "web" "ssh" "deploy" world
      (record world { tick = 2 }) refl

check_permission_with_remote_user_complete_example :
    (check_permission_with_remote_user env "omar" "web" "ssh" "root" world).0 ≡ ok tt
unfolding privileged_access is_privileged_role effective_role
check_permission_with_remote_user_complete_example =
    check_permission_with_remote_user_complete env "omar" "web" "ssh" "root" world omar (λ n. refl)
      refl (inl refl)

check_exact_access-safe_example :
    IsPrivileged "alice" world
    ⊎ Any
        (λ p.
          Grants (env.db_clock (grant_step env world)) "alice" "web" "rdp" p
          × (p.access_type ≡ "rdp"))
        world.permissions
unfolding check_exact_access get_user privileged_access is_privileged_role effective_role
    has_permission
check_exact_access-safe_example =
    check_exact_access-safe env "alice" "web" "rdp" world (record world { tick = 2 })
      (text_ne "rdp" "ssh" refl) (text_ne "rdp" "scp" refl) refl

abbrev after_grant : World
after_grant = (grant_permission env "alice" "web" "both" ("root" ∷ []) "omar" (some 60) world).1

grant_permission-IsGrant_example :
    Any (IsGrant "alice" "web" "both" ("root" ∷ []) "omar" (some 160)) after_grant.permissions
    × (after_grant.requests ≡ world.requests)
unfolding grant_permission find_active_permission update_permission add_duration
grant_permission-IsGrant_example =
    grant_permission-IsGrant env "alice" "web" "both" ("root" ∷ []) "omar" (some 60) world
      after_grant refl

abbrev refused : Error
refused = wrapped "failed to create permission" (wrapped "failed to create permission" boom)

abbrev after_failure : World
after_failure =
    (grant_permission (env_with (failing_at 3)) "alice" "web" "vnc" ("root" ∷ []) "omar" none
      no_permissions).1

abbrev after_approval : World
after_approval = (approve_access_request_with_ttl env "r1" "omar" none world).1

approve_access_request_with_ttl-grants_example :
    (r : AccessRequest) × (request_of "r1" world.requests ≡ some r)
    × (r.status ≡ "pending")
    × (after_approval.requests ≡ review_all (approval env "omar" none world r) world.requests)
    × Any
        (IsGrant r.user_id r.machine_id
          (or_both r.access_type)
          r.remote_users
          "omar"
          (granted_until env none world r))
        after_approval.permissions
unfolding approve_access_request_with_ttl get_access_request update_access_request grant_permission
    find_active_permission create_permission new_permission decimal
approve_access_request_with_ttl-grants_example =
    approve_access_request_with_ttl-grants env "r1" "omar" none world after_approval refl

-- A later world, in which other tables have changed.
abbrev much_later : World
much_later = record after_approval { permissions = []; tick = 40 }

approve_access_request_with_ttl_once_example :
    (approve_access_request_with_ttl env "r1" "alice" (some (pos 5)) much_later
      ≡ (err (refusal env much_later), step much_later))
    × (reject_access_request env "r1" "alice" much_later
        ≡ (err (refusal env much_later), step much_later))
unfolding approve_access_request_with_ttl get_access_request update_access_request grant_permission
    find_active_permission create_permission new_permission decimal
approve_access_request_with_ttl_once_example =
    approve_access_request_with_ttl_once env "r1" "omar" "alice" none (some (pos 5)) world
      after_approval much_later refl refl

abbrev broken : Env
broken = env_with (failing_at 7)

abbrev failed_approval : World
failed_approval = (approve_access_request_with_ttl broken "r1" "omar" none no_permissions).1

approve_access_request_with_ttl_lost_example :
    let (answer, w') = approve_access_request_with_ttl broken "r1" "omar" none no_permissions in
    (answer ≡ err (wrapped "failed to grant permission" refused))
    × (w'.permissions ≡ [])
    × (request_of "r1" w'.requests
        ≡ some (reviewed (approval broken "omar" none no_permissions request) request))
    × (approve_access_request_with_ttl broken "r1" "omar" none failed_approval
        ≡ (err (refusal broken failed_approval), step failed_approval))
    × (reject_access_request broken "r1" "omar" failed_approval
        ≡ (err (refusal broken failed_approval), step failed_approval))
unfolding grant_permission find_active_permission create_permission approve_access_request_with_ttl
    get_access_request update_access_request
approve_access_request_with_ttl_lost_example =
    approve_access_request_with_ttl_lost broken "r1" "omar" "omar" none none no_permissions
      failed_approval request refused refl refl refl refl refl refl refl refl
