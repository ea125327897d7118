-- ===== src/Auth/Jwt/Valid.antt =====
-- What becomes of an issued token: pkg/auth/jwt.go.
use text.Mathlib.TextLemmas.{append_assoc}
use orion_belt.Prelude.{
  Bool, Bool-cases, String, [], ap, arith, eq_refl, has_no, if◌then◌else◌, inl, inr, is_mark, ltb_ℤ,
  refl, some, split_on, split_on-append, split_on_one, true, ℕ, ◌+◌, ◌==◌, ◌∙◌, ◌∷◌, ◌≡◌,
}
use orion_belt.Apperr.{Result-cases, err, ok, plain, ◌+++◌}
use orion_belt.Auth.Jwt.{
  JwtClaims, JwtCodec, JwtManager, jwt_claims, jwt_header, jwt_issue, jwt_parts, jwt_sign,
  jwt_validate, unix,
}

module _ (lib : JwtCodec) where
  abbrev pub issued_claims : JwtManager → ℕ → String → String → Bool → JwtClaims
  issued_claims j now user_id username is_admin = record {
    user_id = user_id;
    username = username;
    is_admin = is_admin;
    issued_at = unix now;
    expires = unix (now + j.ttl);
  }

  -- What the code relies on for some claims: base64 and JSON give back what they were given, and
  -- encoded texts hold no dot.
  pub record IsCodec (claims : JwtClaims) : Type 0 where
    pub header_plain : has_no 46 (jwt_header lib) ≡ true
    pub payload_plain : (s : String) → lib.marshal claims ≡ ok s → has_no 46 (lib.encode s) ≡ true
    pub decoded : (s : String) → lib.marshal claims ≡ ok s → lib.decode (lib.encode s) ≡ some s
    pub unmarshaled : (s : String) → lib.marshal claims ≡ ok s → lib.unmarshal s ≡ some claims
    pub hmac_plain : (k s : String) → has_no 46 (lib.hmac k s) ≡ true

  dot_is_mark : is_mark 46 "." ≡ true
  unfolding is_mark
  dot_is_mark = refl

  split_token :
      (a b c : String)
      → has_no 46 a ≡ true
      → has_no 46 b ≡ true
      → has_no 46 c ≡ true
      → split_on 46 (a +++ ("." +++ (b +++ ("." +++ c)))) ≡ a ∷ b ∷ c ∷ []
  split_token a b c h k l =
      split_on-append 46 "." a (b +++ ("." +++ c)) dot_is_mark h
      ∙ ap (λ ps. a ∷ ps)
          (split_on-append 46 "." b c dot_is_mark k ∙ ap (λ ps. b ∷ ps) (split_on_one 46 c l))

  signed_token :
      (header body signature : String)
      → has_no 46 header ≡ true
      → has_no 46 body ≡ true
      → has_no 46 signature ≡ true
      → split_on 46 ((header +++ "." +++ body) +++ "." +++ signature)
        ≡ header ∷ body ∷ signature ∷ []
  signed_token header body signature h k l =
      rw
        (
          append_assoc header ("." +++ body) ("." +++ signature),
          append_assoc "." body ("." +++ signature),
        )
        (split_token header body signature h k l)

  signed_claims :
      (j : JwtManager) (later : ℕ) (claims : JwtClaims) (header payload : String)
      → IsCodec claims
      → lib.marshal claims ≡ ok payload
      → jwt_parts lib j later (
          header ∷ lib.encode payload ∷ jwt_sign lib j (header +++ "." +++ lib.encode payload) ∷ [])
        ≡ (if ltb_ℤ claims.expires (unix later) then err (plain "token expired") else ok claims)
  unfolding jwt_parts jwt_claims
  signed_claims j later claims header payload lawful f =
      rw
        (
          eq_refl (jwt_sign lib j (header +++ "." +++ lib.encode payload)),
          jwt_claims,
          lawful.decoded payload f,
          lawful.unmarshaled payload f,
        )
        refl

  -- A token that was issued is, until its expiry is past, validated with the claims that it was issued
  -- with, and refused as expired from then on.
  pub jwt_issue-jwt_validate :
      (j : JwtManager) (now later exp : ℕ) (user_id username token : String) (is_admin : Bool)
      → IsCodec (issued_claims j now user_id username is_admin)
      → jwt_issue lib (some j) now user_id username is_admin ≡ ok (token, exp)
      → jwt_validate lib (some j) later token ≡ (
          if ltb_ℤ (unix exp) (unix later)
          then err (plain "token expired")
          else ok (issued_claims j now user_id username is_admin))
  unfolding jwt_issue jwt_validate jwt_sign
  jwt_issue-jwt_validate j now later exp user_id username token is_admin lawful h =
      elim (Bool-cases (j.secret == "")) [
        | inl secret ↦ absurd (ground (arith, secret))
        | inr secret ↦
            elim (Result-cases (lib.marshal (issued_claims j now user_id username is_admin))) [
              | inl (e, f) ↦ absurd (ground (arith, f, secret))
              | inr (payload, f) ↦
                  let body = lib.encode payload in
                  let signature = jwt_sign lib j (jwt_header lib +++ "." +++ body) in
                  let issued : token ≡ (jwt_header lib +++ "." +++ body) +++ "." +++ signature =
                    ground (arith, f, secret) in
                  let until : exp ≡ now + j.ttl = ground (arith, f, secret) in
                  rw
                    (
                      secret,
                      issued,
                      signed_token (jwt_header lib) body signature lawful.header_plain
                          (lawful.payload_plain payload f) (lawful.hmac_plain j.secret _),
                      signed_claims j later (issued_claims j now user_id username is_admin)
                          (jwt_header lib) payload lawful f,
                      until,
                    )
                    refl
            ]
      ]
