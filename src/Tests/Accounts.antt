-- ===== src/Tests/Accounts.antt =====
-- Who a caller is and what access is explained as, on a small gateway.
use orion_belt.Prelude.{
  List, String, [], arith, decimal, false, here, if◌then◌else◌, length, ltb_ℤ, none, pos, refl,
  some, trim_space, true, ℕ, ◌∷◌, ◌≡◌, ◌≢◌,
}
use orion_belt.Apperr.{Result, err, ok, plain, ◌+++◌}
use orion_belt.Auth.Jwt.{JwtClaims, JwtCodec, JwtManager, jwt_header, jwt_issue, jwt_validate, unix}
use orion_belt.Auth.Mfa.{
  Codes, generate_backup_codes, hash_backup_code, join_lines, validate_mfa_code, validate_totp,
}
use orion_belt.Kube.Scope.{parse_scope, scope_string}
use orion_belt.World.{Env, World, step}
use orion_belt.Auth.GatewayUser.{format_target, parse_gateway_ssh_user}
use orion_belt.Api.Middleware.{
  Credentials, admin_middleware, authenticate, set_auth_context, validate_api_key,
}
use orion_belt.Types.{ApiKey}
use orion_belt.Auth.Explain.Agree.{IsAgreed, explain_access-IsAgreed}
use orion_belt.Auth.Jwt.Valid.{IsCodec, issued_claims, jwt_issue-jwt_validate}
use orion_belt.Auth.Explain.{AccessExplanation, explain_access}
use orion_belt.Auth.Effective.{EffectiveAccess, effective_for_user}
use orion_belt.Api.Review.{Caller}
use orion_belt.Api.Middleware.Identified.{IsIdentified, authenticate-IsIdentified}
use orion_belt.Auth.Mfa.Generate.{generate_backup_codes-validate_mfa_code}
use orion_belt.Types.Roles.{is_privileged_role, privileged_access}
use orion_belt.Tests.Fixtures.{alice, env, omar, world}
use orion_belt.Auth.Mfa.Once.{validate_mfa_code_once}
use orion_belt.Store.Tokens.{revoke_api_key}
use orion_belt.Auth.GatewayUser.Agree.{format_target-parse_gateway_ssh_user}
use orion_belt.Auth.{check_permission_with_remote_user}
use orion_belt.Kube.Scope.Stored.{parse_scope-scope_string}
use orion_belt.Api.Middleware.Revoked.{
  admin_middleware-privileged_access, revoke_api_key-validate_api_key,
}
use orion_belt.Store.{get_machine, get_user}
use orion_belt.Access.{is_tunnel_access_type}
use orion_belt.Store.Listing.{list_pair_permissions, list_user_access_requests}
use orion_belt.Store.Permissions.{has_permission_with_remote_user}
use orion_belt.Auth.Mfa.Lines.{is_line}
use orion_belt.Api.Explain.{ExplainQuery}

abbrev still : Env
still = record env { clock = λ n. 100; db_clock = λ n. 100 }

abbrev format : ℕ → String
format n = decimal n

abbrev no_explanation : AccessExplanation
no_explanation = record {
  allowed = false;
  summary = "";
  user_id = "";
  username = "";
  machine_id = "";
  machine = "";
  access_type = "";
  remote_user = "";
  chain = [];
}

abbrev from_ok : {A : Type 0} → A → Result A → A
from_ok d (ok a) = a
from_ok d (err _) = d

abbrev explained : AccessExplanation
explained = from_ok no_explanation (explain_access env format "alice" "web" "scp" "deploy" world).0

explain_access-IsAgreed_example : IsAgreed env format "alice" "web" "scp" "deploy" world explained
unfolding is_tunnel_access_type explain_access get_user get_machine list_pair_permissions
    list_user_access_requests check_permission_with_remote_user is_privileged_role
    has_permission_with_remote_user
explain_access-IsAgreed_example =
    explain_access-IsAgreed env format "alice" "web" "scp" "deploy" world
      (explain_access env format "alice" "web" "scp" "deploy" world).1 explained refl refl

abbrev rows : List EffectiveAccess
rows = from_ok [] (effective_for_user still "alice" world).0

abbrev codes : Codes
codes = record {
  to_upper = λ s. s;
  sha256_hex = λ s. "h" +++ s;
  base32 = λ bs. "CODE";
  totp_valid = λ s t. false;
}

validate_mfa_code_once_example :
    (validate_mfa_code codes "secret" "hBBBB" "AAAA" ≡ ("", false))
    × ((validate_mfa_code codes "secret" "hBBBB" "BBBB").1
        ≡ (validate_mfa_code codes "secret" (join_lines ("hAAAA" ∷ "hBBBB" ∷ [])) "BBBB").1)
unfolding is_line validate_totp hash_backup_code validate_mfa_code
validate_mfa_code_once_example =
    validate_mfa_code_once codes "secret" "AAAA" "BBBB" "hBBBB" ("hAAAA" ∷ "hBBBB" ∷ [])
      (refl, (refl, tt)) (refl, (refl, tt)) refl refl refl refl

abbrev one_code : Codes
one_code = record codes { sha256_hex = λ s. "h" }

abbrev eight_codes : List String
eight_codes = "CODE" ∷ "CODE" ∷ "CODE" ∷ "CODE" ∷ "CODE" ∷ "CODE" ∷ "CODE" ∷ "CODE" ∷ []

abbrev eight_hashes : String
eight_hashes = join_lines ("h" ∷ "h" ∷ "h" ∷ "h" ∷ "h" ∷ "h" ∷ "h" ∷ "h" ∷ [])

generate_backup_codes-validate_mfa_code_example :
    (length eight_codes ≡ 8) × ((validate_mfa_code one_code "secret" eight_hashes "CODE").1 ≡ true)
unfolding is_line trim_space generate_backup_codes
generate_backup_codes-validate_mfa_code_example =
    generate_backup_codes-validate_mfa_code one_code (λ n. ok []) eight_codes eight_hashes "secret"
      "CODE" (λ t. refl) (λ bs. refl) refl (here refl)

abbrev manager : JwtManager
manager = record { secret = "secret"; ttl = 3600000000000 }

abbrev claims : JwtClaims
claims = record {
  user_id = "alice";
  username = "alice";
  is_admin = false;
  issued_at = pos 5;
  expires = pos 3605;
}

abbrev codec : JwtCodec
codec = record {
  encode = λ s. s;
  decode = λ s. some s;
  marshal = λ c. ok "claims";
  unmarshal = λ s. some claims;
  hmac = λ k s. "mac";
}

codec-IsCodec : IsCodec codec claims
codec-IsCodec = record {
  header_plain = refl;
  payload_plain = λ s e. let same : s ≡ "claims" = ground (arith, e) in rw same refl;
  decoded = λ s e. refl;
  unmarshaled = λ s e. refl;
  hmac_plain = λ k s. refl;
}

abbrev token : String
token = jwt_header codec +++ "." +++ "claims" +++ "." +++ "mac"

jwt_issue-jwt_validate_example : jwt_validate codec (some manager) 3605000000000 token ≡ (
    if ltb_ℤ (unix 3605000000000) (unix 3605000000000)
    then err (plain "token expired")
    else ok (issued_claims codec manager 5000000000 "alice" "alice" false))
unfolding jwt_issue
jwt_issue-jwt_validate_example =
    jwt_issue-jwt_validate codec manager 5000000000 3605000000000 3605000000000 "alice" "alice"
      token false codec-IsCodec refl

abbrev laptop_key : ApiKey
laptop_key = record {
  id = "key1";
  user_id = "alice";
  name = "laptop";
  key_hash = "k";
  key_prefix = "k";
  last_used_at = none;
  expires_at = some 200;
  created_at = 0;
  revoked_at = none;
}

abbrev with_key : World
with_key = record world { api_keys = laptop_key ∷ [] }

abbrev credentials : Credentials
credentials = record {
  api_key = "k";
  session_header = "";
  session_cookie = none;
  token_query = "";
  authorization = "";
  access_token_query = "";
}

authenticate-IsIdentified_example :
    IsIdentified env (λ s. s) codec none credentials alice with_key "api_key"
unfolding authenticate
authenticate-IsIdentified_example =
    authenticate-IsIdentified env (λ s. s) codec none credentials with_key
      (authenticate env (λ s. s) codec none credentials with_key).1 alice "api_key" refl

abbrev revoked_world : World
revoked_world = (revoke_api_key env "key1" with_key).1

revoke_api_key-validate_api_key_example :
    (validate_api_key env (λ s. s) codec none "k" revoked_world).0 ≢ ok alice
unfolding revoke_api_key
revoke_api_key-validate_api_key_example =
    revoke_api_key-validate_api_key env (λ s. s) codec none "key1" "k" with_key revoked_world alice
      (λ e. refl, tt) refl

abbrev operator : Caller
operator = record { user_id = "omar"; role = "operator"; is_admin = false }

admin_middleware-privileged_access_example :
    admin_middleware operator ≡ privileged_access (some omar)
unfolding set_auth_context
admin_middleware-privileged_access_example =
    admin_middleware-privileged_access env (λ s. s) codec none omar omar operator world (step world)
      refl refl refl

format_target-parse_gateway_ssh_user_example :
    parse_gateway_ssh_user ("alice" +++ "+" +++ format_target "deploy" "web")
    ≡ ("alice", "deploy", "web")
format_target-parse_gateway_ssh_user_example =
    format_target-parse_gateway_ssh_user "alice" "deploy" "web" refl refl refl

parse_scope-scope_string_example :
    parse_scope (λ s. s) (scope_string (record { namespace = ""; role = "view" }))
    ≡ ok (record { namespace = ""; role = "view" })
unfolding parse_scope
parse_scope-scope_string_example =
    parse_scope-scope_string (λ s. s) " */view" (record { namespace = ""; role = "view" }) refl

abbrev question : ExplainQuery
question = record { machine = "web"; remote_user = "deploy"; access_type = none; user = "" }

abbrev alice_calls : Caller
alice_calls = record { user_id = "alice"; role = "user"; is_admin = false }

abbrev own_access : AccessExplanation
own_access =
    from_ok no_explanation (explain_access env format "alice" "web" "ssh" "deploy" (step world)).0
