-- ===== src/Api/Middleware.antt =====
-- Who calls the API, and what a caller may do: pkg/api/middelware.go.
pub mod Identified
pub mod Revoked
use orion_belt.Prelude.{
  Bool, Option, String, drop_text, false, if◌then◌else◌, ltb, none, not, some, starts_with, true, ℕ,
  ◌-◌, ◌==◌, ◌||◌, ◌∷◌,
}
use orion_belt.Apperr.{err, ok, plain}
use orion_belt.Types.{User}
use orion_belt.Api.Review.{Caller}
use orion_belt.World.{
  Background, Env, M, attempt, fail, key_used, modify, pure, session_seen, time_now, ◌>>=◌, ◌>>◌,
}
use orion_belt.Types.Roles.{effective_role, role_admin, role_auditor, role_operator, role_user}
use orion_belt.Auth.Jwt.{JwtCodec, JwtManager, jwt_enabled, jwt_validate}
use orion_belt.Store.{get_user}
use orion_belt.Store.Tokens.{
  delete_http_session, get_api_key_by_hash, get_http_session_by_token, update_api_key_last_used,
  update_http_session_last_seen,
}

-- The credentials of a request; an absent header, cookie or parameter is empty, except that a cookie
-- that is present may be empty too.
pub record Credentials : Type 0 where
  pub api_key : String
  pub session_header : String
  pub session_cookie : Option String
  pub token_query : String
  pub authorization : String
  pub access_token_query : String

-- Nanoseconds from Go's zero time to the Unix epoch; a clock before it reads as the epoch here.
abbrev pub epoch : ℕ
epoch = 62135596800000000000

unfoldable pub session_token : Credentials → String
session_token c =
    let header = c.session_header in
    let cookie : String =
      if header == "" then elim c.session_cookie [ none ↦ "" | some v ↦ v ] else header in
    if cookie == "" then c.token_query else cookie

unfoldable pub bearer_token : Credentials → String
bearer_token c =
    let header : String =
      if starts_with c.authorization "Bearer " then drop_text 7 c.authorization else "" in
    if header == "" then c.access_token_query else header

-- A credential that is empty is passed over, and so is one that does not validate.
abbrev pub try_credential :
    String → String → (String → M User) → M (Option (User × String)) → M (Option (User × String))
try_credential credential method validate next = if credential == "" then next else do
  found ← attempt (validate credential)
  elim found [ ok u ↦ pure (some (u, method)) | err _ ↦ next ]

-- `sha256_hex` is the hash of keys and session tokens, and `jwt` the manager if one is configured.
module _ (env : Env) (sha256_hex : String → String) (codec : JwtCodec)
    (jwt : Option JwtManager) where
  start_background : Background → M (Unit {0})
  start_background b = modify (λ w. record w { background = b ∷ w.background })

  -- `time.Now().After(*expiresAt)`; the clock is read only where there is an expiry.
  abbrev pub key_expired : Option ℕ → M Bool
  key_expired none = pure false
  key_expired (some e) = do now ← time_now env; pure (ltb e now)

  unfoldable pub validate_api_key : String → M User
  unfolding get_api_key_by_hash get_user start_background
  validate_api_key api_key = do
    found ← attempt (get_api_key_by_hash env (sha256_hex api_key))
    elim found [
      | err _ ↦ fail (plain "invalid API key")
      | ok key ↦ elim key.revoked_at [
        | some _ ↦ fail (plain "API key has been revoked")
        | none ↦ do
          expired ← key_expired key.expires_at
          if expired then fail (plain "API key has expired") else do
            _ ← start_background (key_used key.id)
            user ← attempt (get_user env key.user_id)
            elim user [ err _ ↦ fail (plain "user not found for API key") | ok u ↦ pure u ]
      ]
    ]

  unfoldable pub validate_session : String → M User
  unfolding get_http_session_by_token delete_http_session get_user start_background
  validate_session token = do
    found ← attempt (get_http_session_by_token env (sha256_hex token))
    elim found [
      | err _ ↦ fail (plain "invalid session token")
      | ok session ↦ do
        now ← time_now env
        if ltb session.expires_at now
            then (attempt (delete_http_session env session.id)
                >> fail (plain "session has expired"))
            else do
              _ ← start_background (session_seen session.id)
              user ← attempt (get_user env session.user_id)
              elim user [ err _ ↦ fail (plain "user not found for session") | ok u ↦ pure u ]
    ]

  unfoldable pub validate_bearer_token : String → M User
  unfolding jwt_validate get_user
  validate_bearer_token token =
      if not (jwt_enabled jwt) then fail (plain "JWT authentication not configured") else do
        now ← time_now env
        elim (jwt_validate codec jwt (now - epoch) token) [
          | err e ↦ fail e
          | ok claims ↦ do
            user ← attempt (get_user env claims.user_id)
            elim user [ err _ ↦ fail (plain "user not found for token") | ok u ↦ pure u ]
        ]

  unfoldable pub authenticate : Credentials → M (Option (User × String))
  unfolding session_token bearer_token validate_api_key validate_session validate_bearer_token
  authenticate c = try_credential c.api_key "api_key" validate_api_key (
      try_credential (session_token c) "session" validate_session
        (try_credential (bearer_token c) "bearer" validate_bearer_token (pure none)))

  unfoldable pub optional_caller : Credentials → M (Option User)
  unfolding authenticate
  optional_caller c = do
    found ← authenticate c
    pure (elim found [ none ↦ none | some (u, _) ↦ some u ])

  -- The role is read again; where it cannot be, the admin flag alone decides it.
  unfoldable pub set_auth_context : User → M Caller
  unfolding get_user effective_role
  set_auth_context user = do
    found ← attempt (get_user env user.id)
    elim found [
      | err _ ↦ pure (record {
        user_id = user.id;
        role = if user.is_admin then role_admin else role_user;
        is_admin = user.is_admin;
      })
      | ok u ↦
          let role = effective_role u in
          pure
            (record { user_id = user.id; role = role; is_admin = u.is_admin || role == role_admin })
    ]

  -- The caller that the handlers see, none where the request is answered with 401.
  unfoldable pub auth_middleware : Credentials → M (Option Caller)
  unfolding authenticate set_auth_context
  auth_middleware c = do
    found ← authenticate c
    elim found [
      | none ↦ pure none
      | some (user, _) ↦ do caller ← set_auth_context user; pure (some caller)
    ]

  -- The update that a goroutine makes at some later time.
  unfoldable pub run_background : Background → M (Unit {0})
  unfolding update_api_key_last_used update_http_session_last_seen
  run_background (key_used id) = do now ← time_now env; update_api_key_last_used env id now
  run_background (session_seen id) = do now ← time_now env; update_http_session_last_seen env id now

-- Whether the request goes on to the handler, or is answered with 403.
unfoldable pub admin_middleware : Caller → Bool
admin_middleware c = c.is_admin || (c.role == role_admin || c.role == role_operator)

unfoldable pub is_privileged_viewer : Caller → Bool
is_privileged_viewer c =
    if c.role == role_admin || (c.role == role_operator || c.role == role_auditor)
    then true
    else c.is_admin
