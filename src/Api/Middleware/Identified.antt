-- ===== src/Api/Middleware/Identified.antt =====
-- Whom the API takes a caller for: pkg/api/middelware.go.
use orion_belt.Prelude.{
  Any, Any-map, Bool, Bool-cases, List, Option, Option-cases, String, ap, arith, eq_iff, false,
  find, find-Any, find-test, if◌then◌else◌, inl, inr, ltb, none, refl, some, suc, sym, true, ℕ,
  ◌&&◌, ◌-◌, ◌==◌, ◌∙◌, ◌≡◌, ◌⊎◌,
}
use orion_belt.Apperr.{Result-cases, ok}
use orion_belt.World.{Env, M, World, pure}
use orion_belt.Types.{ApiKey, HttpSession, User}
use orion_belt.Auth.Jwt.{JwtClaims, JwtCodec, JwtManager, jwt_validate}
use orion_belt.Api.Middleware.{
  Credentials, authenticate, bearer_token, epoch, session_token, try_credential, validate_api_key,
  validate_bearer_token, validate_session,
}
use orion_belt.Store.Tokens.{get_api_key_by_hash, get_http_session_by_token}
use orion_belt.Store.{get_user}

abbrev pub is_over : Option ℕ → ℕ → Bool
is_over none t = false
is_over (some e) t = ltb e t

-- The key has this hash, belongs to the user, is not revoked, and has not expired at `t`.
pub record IsKey (hash user_id : String) (t : ℕ) (k : ApiKey) : Type 0 where
  pub hashed : k.key_hash ≡ hash
  pub owner : k.user_id ≡ user_id
  pub unrevoked : k.revoked_at ≡ none
  pub current : is_over k.expires_at t ≡ false

-- The session has this hash, belongs to the user, and has not expired at `t`.
pub record IsSession (hash user_id : String) (t : ℕ) (s : HttpSession) : Type 0 where
  pub hashed : s.token ≡ hash
  pub owner : s.user_id ≡ user_id
  pub current : ltb s.expires_at t ≡ false

module _ (env : Env) (sha256_hex : String → String) (codec : JwtCodec)
    (jwt : Option JwtManager) where
  abbrev pub usable : String → ApiKey → Bool
  usable hash k = k.key_hash == hash && elim k.revoked_at [ none ↦ true | some _ ↦ false ]

  pub api_key_parts :
      (api_key : String) (w v : World) (u : User)
      → validate_api_key env sha256_hex codec jwt api_key w ≡ (ok u, v)
      → (k : ApiKey) × (find (usable (sha256_hex api_key)) w.api_keys ≡ some k)
        × (find (λ (x : User). x.id == k.user_id) w.users ≡ some u)
        × (is_over k.expires_at (env.clock (suc w.tick)) ≡ false)
  unfolding validate_api_key get_api_key_by_hash get_user
  api_key_parts api_key w v u h = elim (Option-cases (env.fault w.tick)) [
    | inr (e, f) ↦ absurd (ground (arith, f))
    | inl f ↦ elim (Option-cases (find (usable (sha256_hex api_key)) w.api_keys)) [
      | inl g ↦ absurd (ground (arith, f, g))
      | inr (k, g) ↦ elim (Option-cases k.expires_at) [
        | inl x ↦ (k, g, ground (arith, f, g, x), rw x refl)
        | inr (e, x) ↦ (k, g, ground (arith, f, g, x), rw x (ground (arith, f, g, x)))
      ]
    ]
  ]

  abbrev live_session : String → ℕ → HttpSession → Bool
  live_session hash t s = s.token == hash && ltb t s.expires_at

  session_parts :
      (token : String) (w v : World) (u : User)
      → validate_session env sha256_hex codec jwt token w ≡ (ok u, v)
      → (s : HttpSession) × (m : ℕ) × (find (live_session (sha256_hex token) m) w.http_sessions
          ≡ some s)
        × (find (λ (x : User). x.id == s.user_id) w.users ≡ some u)
        × (ltb s.expires_at (env.clock (suc w.tick)) ≡ false)
  unfolding validate_session get_http_session_by_token get_user
  session_parts token w v u h = elim (Option-cases (env.fault w.tick)) [
    | inr (e, f) ↦ absurd (ground (arith, f))
    | inl f ↦
        elim (Option-cases
          (find (live_session (sha256_hex token) (env.db_clock w.tick)) w.http_sessions)) [
            | inl g ↦ absurd (ground (arith, f, g))
            | inr (s, g) ↦ elim (Bool-cases (ltb s.expires_at (env.clock (suc w.tick)))) [
              | inl x ↦ absurd (ground (arith, f, g, x))
              | inr x ↦ (s, env.db_clock w.tick, g, ground (arith, f, g, x), x)
            ]
          ]
  ]

  bearer_parts :
      (token : String) (w v : World) (u : User)
      → validate_bearer_token env sha256_hex codec jwt token w ≡ (ok u, v)
      → (claims : JwtClaims) × (jwt_validate codec jwt (env.clock w.tick - epoch) token ≡ ok claims)
        × (find (λ (x : User). x.id == claims.user_id) w.users ≡ some u)
  unfolding validate_bearer_token get_user
  bearer_parts token w v u h =
      elim (Result-cases (jwt_validate codec jwt (env.clock w.tick - epoch) token)) [
        | inl (e, f) ↦ absurd (ground (arith, f))
        | inr (claims, f) ↦ (claims, f, ground (arith, f))
      ]

  validate_api_key_http_sessions :
      (api_key : String) (w : World)
      → (validate_api_key env sha256_hex codec jwt api_key w).1.http_sessions ≡ w.http_sessions
  unfolding validate_api_key get_api_key_by_hash get_user
  validate_api_key_http_sessions api_key w = ground arith

  -- The world after one attempt, if it fails, and those in which the session and the bearer token
  -- are tried.
  abbrev pub after_try : String → (String → M User) → World → World
  after_try credential validate w = if credential == "" then w else (validate credential w).1

  abbrev pub session_world : Credentials → World → World
  session_world c w = after_try c.api_key (validate_api_key env sha256_hex codec jwt) w

  abbrev pub bearer_world : Credentials → World → World
  bearer_world c w =
      after_try (session_token c) (validate_session env sha256_hex codec jwt) (session_world c w)

  -- A way in which the credentials are the user's, at the time that the attempt reads the clock: one
  -- statement after it began for a key and for a session, at its begin for a bearer token.
  pub data IsIdentified (c : Credentials) (u : User) (w : World) : String → Type 0 where
    by_key :
        Any (IsKey (sha256_hex c.api_key) u.id (env.clock (suc w.tick))) w.api_keys
        → IsIdentified c u w "api_key"
    by_session :
        Any
          (IsSession (sha256_hex (session_token c)) u.id (env.clock (suc (session_world c w).tick)))
          w.http_sessions
        → IsIdentified c u w "session"
    by_bearer :
        (claims : JwtClaims)
        → jwt_validate codec jwt (env.clock (bearer_world c w).tick - epoch) (bearer_token c)
          ≡ ok claims
        → claims.user_id ≡ u.id
        → IsIdentified c u w "bearer"

  owner_id :
      (xs : List User) (id : String) (u : User)
      → find (λ (x : User). x.id == id) xs ≡ some u
      → id ≡ u.id
  owner_id xs id u h = sym ((eq_iff u.id id).0 (find-test (λ (x : User). x.id == id) xs u h))

  find-IsKey :
      (hash id : String) (n : ℕ) (k : ApiKey) (xs : List ApiKey)
      → find (usable hash) xs ≡ some k
      → k.user_id ≡ id
      → is_over k.expires_at (env.clock n) ≡ false
      → Any (IsKey hash id (env.clock n)) xs
  find-IsKey hash id n k xs f o x =
      Any-map
        (λ y q. record {
          hashed = ground (arith, q.0, eq_iff y.key_hash hash);
          owner = ap (λ (z : ApiKey). z.user_id) q.1 ∙ o;
          unrevoked = ground (arith, q.0);
          current = rw q.1 x;
        })
        (find-Any (usable hash) {Q = λ y. y ≡ k} xs k f refl)

  find-IsSession :
      (hash id : String) (n t : ℕ) (s : HttpSession) (xs : List HttpSession)
      → find (live_session hash t) xs ≡ some s
      → s.user_id ≡ id
      → ltb s.expires_at (env.clock n) ≡ false
      → Any (IsSession hash id (env.clock n)) xs
  find-IsSession hash id n t s xs f o x =
      Any-map
        (λ y q. record {
          hashed = ground (arith, q.0, eq_iff y.token hash);
          owner = ap (λ (z : HttpSession). z.user_id) q.1 ∙ o;
          current = rw q.1 x;
        })
        (find-Any (live_session hash t) {Q = λ y. y ≡ s} xs s f refl)

  -- What one attempt makes of the request.
  abbrev Answer : Type 0
  Answer = Option (User × String)

  tried :
      (credential method m : String) (validate : String → M User) (next : M Answer) (w v : World)
      (u : User)
      → try_credential credential method validate next w ≡ (ok (some (u, m)), v)
      → ((x : World) × (validate credential w ≡ (ok u, x)) × (m ≡ method))
        ⊎ (next (after_try credential validate w) ≡ (ok (some (u, m)), v))
  tried credential method m validate next w v u h = elim (Bool-cases (credential == "")) [
    | inl e ↦ inr (ground (arith, e))
    | inr e ↦ elim (Result-cases (validate credential w).0) [
      | inl (x, f) ↦ inr (ground (arith, e, f))
      | inr (x, f) ↦ inl ((validate credential w).1, ground (arith, e, f), ground (arith, e, f))
    ]
  ]

  abbrev last_try : Credentials → M Answer
  last_try c =
      try_credential (bearer_token c) "bearer" (validate_bearer_token env sha256_hex codec jwt)
        (pure none)

  abbrev second_try : Credentials → M Answer
  second_try c =
      try_credential (session_token c) "session" (validate_session env sha256_hex codec jwt)
        (last_try c)

  session_world-http_sessions :
      (c : Credentials) (w : World) → (session_world c w).http_sessions ≡ w.http_sessions
  session_world-http_sessions c w = elim (Bool-cases (c.api_key == "")) [
    | inl e ↦ rw e refl
    | inr e ↦ rw e (validate_api_key_http_sessions c.api_key w)
  ]

  -- A request that is authenticated carries the credentials of its user: a stored key that is not
  -- revoked and has not expired when the handler reads the clock, a stored session that has not
  -- expired when it does, or a token that validates for the user's id at the time of its attempt,
  -- whichever statements fail and whichever other credentials it carries.
  pub authenticate-IsIdentified :
      (c : Credentials) (w v : World) (u : User) (m : String)
      → authenticate env sha256_hex codec jwt c w ≡ (ok (some (u, m)), v)
      → IsIdentified c u w m
  unfolding authenticate
  authenticate-IsIdentified c w v u m h =
      elim (tried c.api_key "api_key" m (validate_api_key env sha256_hex codec jwt) (second_try c) w
        v u h) [
          | inl (x, e, f) ↦
              let (k, found, owner, current) = api_key_parts c.api_key w x u e in
              rw f (
                by_key (
                  find-IsKey (sha256_hex c.api_key) u.id (suc w.tick) k w.api_keys found
                    (owner_id w.users k.user_id u owner) current))
          | inr g ↦
              let x = session_world c w in
              elim (tried (session_token c) "session" m (validate_session env sha256_hex codec jwt)
                (last_try c) x v u g) [
                  | inl (y, e, f) ↦
                      let (s, d, found, owner, current) = session_parts (session_token c) x y u e in
                      rw f (
                        by_session (
                          find-IsSession (sha256_hex (session_token c)) u.id (suc x.tick) d s
                            w.http_sessions (rw (session_world-http_sessions c w) at found)
                            (owner_id x.users s.user_id u owner) current))
                  | inr k ↦
                      let y = bearer_world c w in
                      elim (tried (bearer_token c) "bearer" m
                        (validate_bearer_token env sha256_hex codec jwt) (pure none) y v u k) [
                          | inl (z, e, f) ↦
                              let (claims, valid, owner) = bearer_parts (bearer_token c) y z u e in
                              rw f
                                (by_bearer claims valid (owner_id y.users claims.user_id u owner))
                          | inr l ↦ absurd (cc l)
                        ]
                ]
        ]
