-- ===== src/Auth/Jwt.antt =====
-- API tokens: pkg/auth/jwt.go. Times count nanoseconds from the Unix epoch.
pub mod Valid
use orion_belt.Prelude.{
  Bool, List, Option, String, [], false, if◌then◌else◌, is_positive, ltb_ℤ, none, not, pos,
  pos_part, some, split_on, ℕ, ℤ, ◌+◌, ◌/◌, ◌==◌, ◌∷◌,
}
use orion_belt.Apperr.{Result, err, ok, plain, ◌+++◌}

pub record JwtClaims : Type 0 where
  pub user_id : String
  pub username : String
  pub is_admin : Bool
  pub issued_at : ℤ
  pub expires : ℤ

pub record JwtManager : Type 0 where
  pub secret : String
  pub ttl : ℕ

-- What the code calls: unpadded base64url, JSON of the claims, and HMAC-SHA256 of a text under a
-- secret, which is encoded too.
pub record JwtCodec : Type 0 where
  pub encode : String → String
  pub decode : String → Option String
  pub marshal : JwtClaims → Result String
  pub unmarshal : String → Option JwtClaims
  pub hmac : String → String → String

abbrev pub day : ℕ
day = 86400000000000

-- A duration that is not positive is a day.
unfoldable pub new_jwt_manager : String → ℤ → JwtManager
new_jwt_manager secret ttl = record {
  secret = secret;
  ttl = if is_positive ttl then pos_part ttl else day;
}

-- A nil manager is `none`.
abbrev pub jwt_enabled : Option JwtManager → Bool
jwt_enabled none = false
jwt_enabled (some j) = not (j.secret == "")

-- `Unix()`
abbrev pub unix : ℕ → ℤ
unix t = pos (t / 1000000000)

module _ (lib : JwtCodec) where
  unfoldable pub jwt_sign : JwtManager → String → String
  jwt_sign j input = lib.hmac j.secret input

  abbrev pub jwt_header : String
  jwt_header = lib.encode "{\"alg\":\"HS256\",\"typ\":\"JWT\"}"

  unfoldable pub jwt_issue : Option JwtManager → ℕ → String → String → Bool → Result (String × ℕ)
  unfolding jwt_sign
  jwt_issue none now user_id username is_admin = err (plain "JWT secret not configured")
  jwt_issue (some j) now user_id username is_admin =
      let exp = now + j.ttl in
      let claims : JwtClaims = record {
        user_id = user_id;
        username = username;
        is_admin = is_admin;
        issued_at = unix now;
        expires = unix exp;
      } in
      if not (jwt_enabled (some j))
      then err (plain "JWT secret not configured")
      else elim (lib.marshal claims) [
        | err e ↦ err e
        | ok payload ↦
            let signing_input = jwt_header +++ "." +++ lib.encode payload in
            ok (signing_input +++ "." +++ jwt_sign j signing_input, exp)
      ]

  unfoldable pub jwt_claims : ℕ → String → Result JwtClaims
  jwt_claims now part = elim (lib.decode part) [
    | none ↦ err (plain "invalid token payload")
    | some payload ↦ elim (lib.unmarshal payload) [
      | none ↦ err (plain "invalid token claims")
      | some claims ↦
          if ltb_ℤ claims.expires (unix now) then err (plain "token expired") else ok claims
    ]
  ]

  -- The token's three parts.
  unfoldable pub jwt_parts : JwtManager → ℕ → List String → Result JwtClaims
  unfolding jwt_sign jwt_claims
  jwt_parts j now (header ∷ payload ∷ signature ∷ []) =
      if jwt_sign j (header +++ "." +++ payload) == signature
      then jwt_claims now payload
      else err (plain "invalid token signature")
  jwt_parts j now _ = err (plain "invalid token format")

  unfoldable pub jwt_validate : Option JwtManager → ℕ → String → Result JwtClaims
  unfolding jwt_parts split_on
  jwt_validate none now token = err (plain "JWT authentication not configured")
  jwt_validate (some j) now token =
      if not (jwt_enabled (some j))
      then err (plain "JWT authentication not configured")
      else jwt_parts j now (split_on 46 token)
