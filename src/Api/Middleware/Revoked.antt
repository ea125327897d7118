-- ===== src/Api/Middleware/Revoked.antt =====
-- Who is let through no more, and who is let through to the handlers of administrators:
-- pkg/api/middelware.go over pkg/database/postgres.go.
use orion_belt.Prelude.{
  All, Bool-cases, List, Option, String, [], ap, arith, eq_refl, find, inl, inr, none, refl, some,
  sym, true, update_where, ℕ, ◌==◌, ◌∙◌, ◌∷◌, ◌≡◌, ◌≢◌,
}
use orion_belt.Apperr.{ok}
use orion_belt.Types.Roles.{is_privileged_role, privileged_access}
use orion_belt.World.{Env, World}
use orion_belt.Auth.Jwt.{JwtCodec, JwtManager}
use orion_belt.Types.{ApiKey, User}
use orion_belt.Api.Middleware.{admin_middleware, set_auth_context, validate_api_key}
use orion_belt.Store.Tokens.{revoke_api_key}
use orion_belt.Api.Middleware.Identified.{api_key_parts, usable}
use orion_belt.Store.{get_user}
use orion_belt.Api.Review.{Caller}

module _ (env : Env) (sha256_hex : String → String) (codec : JwtCodec)
    (jwt : Option JwtManager) where
  none-usable :
      (hash id : String) (t : ℕ) (xs : List ApiKey)
      → All (λ k. (k.key_hash == hash) ≡ true → k.id ≡ id) xs
      → find
          (usable env sha256_hex codec jwt hash)
          (update_where (λ k. k.id == id) (λ k. record k { revoked_at = some t }) xs)
        ≡ none
  none-usable hash id t [] h = refl
  none-usable hash id t (k ∷ ks) h =
      let rest = none-usable hash id t ks h.1 in
      elim (Bool-cases (k.key_hash == hash)) [
        | inl e ↦ rw (h.0 e, eq_refl id, e) rest
        | inr e ↦ elim (Bool-cases (k.id == id)) [ inl f ↦ rw (f, e) rest | inr f ↦ rw (f, e) rest ]
      ]

  revoke_api_key-rows :
      (id : String) (w v : World)
      → revoke_api_key env id w ≡ (ok tt, v)
      → (t : ℕ) × (v.api_keys
          ≡ update_where (λ k. k.id == id) (λ k. record k { revoked_at = some t }) w.api_keys)
  unfolding revoke_api_key
  revoke_api_key-rows id w v h = (env.clock w.tick, ground arith)

  -- Once a key was revoked, no text with its hash is validated, where no other key has that hash.
  pub revoke_api_key-validate_api_key :
      (id api_key : String) (w v : World) (u : User)
      → All (λ k. (k.key_hash == sha256_hex api_key) ≡ true → k.id ≡ id) w.api_keys
      → revoke_api_key env id w ≡ (ok tt, v)
      → (validate_api_key env sha256_hex codec jwt api_key v).0 ≢ ok u
  revoke_api_key-validate_api_key id api_key w v u only h valid =
      let (t, rows) = revoke_api_key-rows id w v h in
      let r = (validate_api_key env sha256_hex codec jwt api_key v).1 in
      let (k, found, _, _) = api_key_parts env sha256_hex codec jwt api_key v r u (rw valid refl) in
      absurd (
        cc (
          sym found
          ∙ (ap (λ ks. find (usable env sha256_hex codec jwt (sha256_hex api_key)) ks) rows
              ∙ none-usable (sha256_hex api_key) id t w.api_keys only)))

  -- The handlers of administrators are open to exactly the users whose role bypasses the grants, where
  -- the user can be read.
  pub admin_middleware-privileged_access :
      (user u : User) (c : Caller) (w v : World)
      → env.fault w.tick ≡ none
      → find (λ (x : User). x.id == user.id) w.users ≡ some u
      → set_auth_context env sha256_hex codec jwt user w ≡ (ok c, v)
      → admin_middleware c ≡ privileged_access (some u)
  unfolding admin_middleware privileged_access set_auth_context get_user is_privileged_role
  admin_middleware-privileged_access user u c w v f e h = ground (arith, f, e)
