-- ===== src/Auth/Explain/Parts.antt =====
-- The links of an explanation: grantLink, sourceRequest and requestLink of pkg/auth/explain.go, and
-- the records of pkg/common/types.go.
use orion_belt.Prelude.{
  Bool, List, Option, String, [], false, find, if◌then◌else◌, join_with, keep, ltb, none, not, some,
  true, ℕ, ◌&&◌, ◌+◌, ◌==◌, ◌∷◌,
}
use orion_belt.Apperr.{◌+++◌}
use orion_belt.Access.{access_type_covers, is_tunnel_access_type}
use orion_belt.Types.{AccessRequest, Permission, User}
use orion_belt.Types.Roles.{effective_role, privileged_access}
use orion_belt.World.{Env}
use orion_belt.Store.Permissions.{has_text}

pub record AccessLink : Type 0 where
  pub relation : String
  pub ref : String
  pub holds : Bool
  pub detail : String
  pub via : String
  pub reason : String
  pub granted_by : String
  pub at : Option ℕ
  pub expires_at : Option ℕ

pub record AccessExplanation : Type 0 where
  pub allowed : Bool
  pub summary : String
  pub user_id : String
  pub username : String
  pub machine_id : String
  pub machine : String
  pub access_type : String
  pub remote_user : String
  pub chain : List AccessLink

abbrev pub link_role : String
link_role = "role"

abbrev pub link_grant : String
link_grant = "grant"

abbrev pub link_access_request : String
link_access_request = "access_request"

abbrev pub link_open_fga : String
link_open_fga = "openfga"

abbrev pub link_none : String
link_none = "none"

abbrev pub explain_request_history : ℕ
explain_request_history = 50

-- 5*time.Second
abbrev pub five_seconds : ℕ
five_seconds = 5000000000

abbrev pub list_or_none : List String → String
list_or_none [] = "no account"
list_or_none (s ∷ ss) = join_with ", " (s ∷ ss)

-- The request was approved by the grantor ("" for the risk policy) and reviewed when the grant was
-- written.
unfoldable pub is_source_of : Permission → AccessRequest → Bool
is_source_of g r = elim r.reviewed_at [
  | none ↦ false
  | some t ↦
      r.status == "approved"
      && (r.machine_id == g.machine_id
          && ((elim r.reviewed_by [ none ↦ "" | some by ↦ by ]) == g.granted_by
              && (ltb t (g.granted_at + five_seconds) && ltb g.granted_at (t + five_seconds))))
]

unfoldable pub source_request : Permission → List AccessRequest → Option AccessRequest
unfolding is_source_of
source_request g requests = find (is_source_of g) requests

-- `format` is `Format(time.RFC3339)` of a time in UTC.
module _ (format : ℕ → String) where
  -- The switch on the grant: whether it holds, and the text.
  unfoldable pub grant_detail : ℕ → String → String → Permission → Bool × String
  unfolding access_type_covers is_tunnel_access_type
  grant_detail now access_type remote_user g =
      let accounts = list_or_none g.remote_users in
      let until : String = elim g.expires_at [ none ↦ "" | some e ↦ " until " +++ format e ] in
      let ended : Option String = elim g.expires_at [
        | none ↦ none
        | some e ↦ if ltb now e then none else some (format e)
      ] in
      elim ended [
        | some e ↦ (false, "grant expired at " +++ e)
        | none ↦
            if not (access_type_covers g.access_type access_type)
            then (false, "grant is for " +++ g.access_type +++ ", not " +++ access_type)
            else if not (is_tunnel_access_type access_type)
                && not (has_text remote_user g.remote_users)
            then (false, "grant allows " +++ accounts +++ ", not " +++ remote_user)
            else (true, "grant allows " +++ access_type +++ " as " +++ accounts +++ until)
      ]

  -- The link of a grant whose grantor has the name `grantor`.
  unfoldable pub link_of_grant :
      ℕ → String → String → List AccessRequest → Permission → String → AccessLink
  unfolding grant_detail source_request
  link_of_grant now access_type remote_user requests g grantor =
      let source : Option AccessRequest = source_request g requests in
      let by : String = elim source [
        | none ↦ grantor
        | some r ↦ elim r.reviewed_by [ none ↦ "risk policy" | some _ ↦ grantor ]
      ] in
      let (holds, detail) = grant_detail now access_type remote_user g in
      record {
        relation = link_grant;
        ref = "permission:" +++ g.id;
        holds = holds;
        detail = if by == "" then detail else detail +++ ", granted by " +++ by;
        via = elim source [ none ↦ "" | some r ↦ "access_request:" +++ r.id ];
        reason = elim source [ none ↦ "" | some r ↦ r.reason ];
        granted_by = by;
        at = some g.granted_at;
        expires_at = g.expires_at;
      }

  unfoldable pub request_link : AccessRequest → String → AccessLink
  request_link r remote_user =
      let accounts = "request for " +++ list_or_none r.remote_users in
      let detail =
        if r.status == "pending"
        then accounts +++ " is waiting for approval"
        else if r.status == "rejected"
        then accounts +++ " was rejected"
        else accounts +++ " is " +++ r.status in
      record {
        relation = link_access_request;
        ref = "access_request:" +++ r.id;
        holds = false;
        detail =
            if has_text remote_user r.remote_users
            then detail
            else detail +++ " (it does not cover " +++ remote_user +++ ")";
        via = "";
        reason = r.reason;
        granted_by = "";
        at = some r.requested_at;
        expires_at = none;
      }

abbrev pub plain_link : String → String → Bool → String → AccessLink
plain_link relation ref holds detail = record {
  relation = relation;
  ref = ref;
  holds = holds;
  detail = detail;
  via = "";
  reason = "";
  granted_by = "";
  at = none;
  expires_at = none;
}

unfoldable pub role_links : User → List AccessLink
unfolding effective_role privileged_access
role_links user =
    if privileged_access (some user)
    then plain_link link_role ("role:" +++ effective_role user) true (
        user.username
        +++ " has the "
        +++ effective_role user
        +++ " role, which reaches every machine as any account")
      ∷ []
    else []

-- The requests about the machine that made no grant.
abbrev pub shown_requests : String → List AccessRequest → List AccessRequest
shown_requests machine_id rs =
    keep (λ r. r.machine_id == machine_id && not (r.status == "approved")) rs

unfoldable pub authorizer_links : Env → List AccessLink
authorizer_links env = elim env.authorizer [
  | none ↦ []
  | some _ ↦
      plain_link link_open_fga "" false
        "OpenFGA is consulted for machine access; the remote account is still checked against the grants above"
      ∷ []
]

abbrev pub or_no_link : String → String → List AccessLink → List AccessLink
or_no_link username machine [] =
    plain_link link_none "" false
      (username +++ " has no grant on " +++ machine +++ " and has not requested access")
    ∷ []
or_no_link username machine (l ∷ ls) = l ∷ ls
