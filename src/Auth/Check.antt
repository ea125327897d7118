-- ===== src/Auth/Check.antt =====
-- `AuthenticateUser` and the permission checks of pkg/auth/auth.go.
use Prim.Native.Char.{code}
use orion_belt.Prelude.{
  Bool, Option, String, any, eqb, false, if◌then◌else◌, none, not, some, true, ◌==◌,
}
use orion_belt.Apperr.{Error, Result, err, forbiddenf, invalidf, ok, plain, ◌+++◌}
use orion_belt.Access.{is_tunnel_access_type}
use orion_belt.Types.{SshKey, User}
use orion_belt.Types.Roles.{privileged_access}
use orion_belt.World.{Authorizer, Env, M, attempt, fail, pure, step, wrap, ◌>>=◌}
use orion_belt.Store.{err_permission_denied, get_user, get_user_by_username, list_user_ssh_keys}
use orion_belt.Store.Permissions.{has_permission, has_permission_with_remote_user}

abbrev pub authentication_failed : Error
authentication_failed = plain "authentication failed"

-- What stands before the first '+' of a text, none where it has no '+'.
unfoldable pub before_plus : String → Option String
before_plus String.[] = none
before_plus (String.◌∷◌ c s) = elim (eqb (code c) b'+') [
  | true ↦ some ""
  | false ↦ elim (before_plus s) [ none ↦ none | some t ↦ some (String.◌∷◌ c t) ]
]

-- `strings.IndexByte(username, '+') > 0`, and the text before it.
unfoldable pub auth_user : String → String
unfolding before_plus
auth_user username = elim (before_plus username) [
  | none ↦ username
  | some t ↦ if t == "" then username else t
]

-- `parse` is `ssh.ParseAuthorizedKey` followed by `Marshal`, none where it reports an error;
-- `presented` is the marshalled key of the client.
unfoldable pub match_ssh_key : (String → Option String) → String → String → Bool
match_ssh_key parse presented line = elim (parse line) [ none ↦ false | some k ↦ presented == k ]

abbrev pub denied_text : String → String → String
denied_text remote_user machine_id =
    "permission denied: " +++ remote_user +++ " not allowed to access " +++ machine_id

module _ (env : Env) where
  -- The error of the key list is dropped.
  unfoldable pub authenticate_user : (String → Option String) → String → String → M User
  unfolding auth_user match_ssh_key
  authenticate_user parse username presented = do
    found ← attempt (get_user_by_username env (auth_user username))
    elim found [
      | err _ ↦ fail authentication_failed
      | ok user ↦ if match_ssh_key parse presented user.public_key then pure user else do
        keys ← attempt (list_user_ssh_keys env user.id)
        elim keys [
          | err _ ↦ fail authentication_failed
          | ok ks ↦
              if any (λ (k : SshKey). match_ssh_key parse presented k.public_key) ks
              then pure user
              else fail authentication_failed
        ]
    ]

  -- `authorizer.Check`
  unfoldable pub authorizer_check : Authorizer → String → String → String → M (Result Bool)
  authorizer_check a user_id machine_id access_type w =
      (ok (a.check w.tick user_id machine_id access_type), step w)

  abbrev pub require_permission : String → String → String → M (Unit {0})
  require_permission user_id machine_id access_type = do
    has ← wrap "failed to check permission" (has_permission env user_id machine_id access_type)
    if has then pure tt else fail err_permission_denied

  abbrev pub require_remote_user : String → String → String → String → M (Unit {0})
  require_remote_user user_id machine_id access_type remote_user = do
    has ←
        wrap "failed to check permission"
          (has_permission_with_remote_user env user_id machine_id access_type remote_user)
    if has then pure tt else fail (forbiddenf (denied_text remote_user machine_id))

  unfoldable pub check_permission : String → String → String → M (Unit {0})
  unfolding authorizer_check
  check_permission user_id machine_id access_type = do
    user ← wrap "failed to get user" (get_user env user_id)
    if privileged_access (some user) then pure tt else elim env.authorizer [
      | none ↦ require_permission user_id machine_id access_type
      | some a ↦ do
        answer ← authorizer_check a user_id machine_id access_type
        elim answer [
          | err _ ↦ require_permission user_id machine_id access_type
          | ok allowed ↦ if allowed then pure tt else fail err_permission_denied
        ]
    ]

  -- The authorizer does not know the remote user: the local store is asked for it in any case.
  unfoldable pub check_permission_with_remote_user :
      String → String → String → String → M (Unit {0})
  unfolding authorizer_check
  check_permission_with_remote_user user_id machine_id access_type remote_user = do
    user ← wrap "failed to get user" (get_user env user_id)
    if privileged_access (some user) then pure tt else elim env.authorizer [
      | none ↦ require_remote_user user_id machine_id access_type remote_user
      | some a ↦ do
        answer ← authorizer_check a user_id machine_id access_type
        elim answer [
          | err _ ↦ require_remote_user user_id machine_id access_type remote_user
          | ok allowed ↦
              if allowed
              then require_remote_user user_id machine_id access_type remote_user
              else fail (forbiddenf (denied_text remote_user machine_id))
        ]
    ]

  unfoldable pub check_exact_access : String → String → String → M (Unit {0})
  unfolding authorizer_check
  check_exact_access user_id machine_id access_type = do
    user ← wrap "failed to get user" (get_user env user_id)
    if privileged_access (some user) then pure tt else elim env.authorizer [
      | none ↦ require_permission user_id machine_id access_type
      | some a ↦ do
        answer ← authorizer_check a user_id machine_id access_type
        elim answer [
          | err _ ↦ require_permission user_id machine_id access_type
          | ok allowed ↦
              if allowed
              then require_permission user_id machine_id access_type
              else fail err_permission_denied
        ]
    ]

  unfoldable pub check_tunnel_permission : String → String → String → M (Unit {0})
  unfolding check_exact_access
  check_tunnel_permission user_id machine_id protocol =
      if not (is_tunnel_access_type protocol)
      then fail (invalidf (env.quote protocol +++ " is not a tunnel protocol"))
      else check_exact_access user_id machine_id protocol
