-- ===== src/Api/Review.antt =====
-- The review of an access request over the API: pkg/api/api.go, with callerIsAdmin of
-- pkg/api/middelware.go, fail of pkg/api/errors.go and recordAudit of pkg/api/audit.go.
pub mod Escalation
use orion_belt.Apperr.{Error, Result, err, http_status, kind_of, message, ok, ◌+++◌}
use orion_belt.Prelude.{
  Bool, List, Option, String, [], false, if◌then◌else◌, is_negative, none, not, some, ℕ, ℤ, ◌&&◌,
  ◌++◌, ◌==◌, ◌||◌, ◌∷◌,
}
use orion_belt.Types.{AccessRequest, RiskDecision}
use orion_belt.Apperr.{Error, Result, err, http_status, kind_of, message, ok, ◌+++◌}
use orion_belt.Types.Roles.{role_admin}
use orion_belt.World.{Env, M, attempt, pure, sql, ◌>>=◌, ◌>>◌}
use orion_belt.Access.{access_type_k8s}
use orion_belt.Risk.{outcome_escalate}
use orion_belt.Store.Requests.{get_access_request}
use orion_belt.Auth.{approve_access_request_with_ttl, reject_access_request}
use orion_belt.Store.{nullable_user_ok}

-- What the middleware put into the request's context; the id is empty where there is none.
pub record Caller : Type 0 where
  pub user_id : String
  pub role : String
  pub is_admin : Bool

-- The status with an error's text, or with the access request.
pub data Response : Type 0 where
  refused : ℕ → String → Response
  answered : ℕ → AccessRequest → Response

-- What is told to other parts of the program, which answer nothing that the handler reads.
pub data Notice : Type 0 where
  kube_grant_changed : String → Notice
  request_approved : String → Notice
  request_rejected : String → Notice
  access_request_hook : String → Notice
  access_granted_hook : String → String → Notice

abbrev pub caller_is_admin : Caller → Bool
caller_is_admin c = c.role == role_admin || c.is_admin

-- `resolveReviewerID`: the refusal, none where the caller is the reviewer.
unfoldable pub resolve_reviewer_id : Caller → String → Option Response
resolve_reviewer_id c requested =
    if c.user_id == ""
    then some (refused 401 "authentication required")
    else if not (requested == "") && not (requested == c.user_id)
    then some (refused 403 "reviewer_id must be the authenticated user")
    else none

abbrev pub is_negative_override : Option ℤ → Bool
is_negative_override none = false
is_negative_override (some d) = is_negative d

abbrev pub is_escalated_decision : Option RiskDecision → Bool
is_escalated_decision none = false
is_escalated_decision (some d) = d.outcome == outcome_escalate

-- The request could be read and its risk decision is an escalation.
abbrev pub is_escalated : Result AccessRequest → Bool
is_escalated (err e) = false
is_escalated (ok r) = is_escalated_decision r.risk_decision

-- `fail`
abbrev pub failed : Error → Response
failed e = refused (http_status (kind_of e)) (message e)

abbrev pub kube_notices : AccessRequest → List Notice
kube_notices r =
    if r.access_type == access_type_k8s then kube_grant_changed r.machine_id ∷ [] else []

module _ (env : Env) where
  -- `recordAudit`: a failed write is only logged.
  unfoldable pub record_audit : Caller → String → String → M (Unit {0})
  record_audit c action resource = do
    written ← attempt (
        sql env (λ _ w.
          if nullable_user_ok c.user_id w
          then (
            ok (tt {0}),
            record w {
              audits =
                  record { user_id = c.user_id; action = action; resource = resource } ∷ w.audits;
            },
          )
          else (err env.constraint_error, w)))
    pure tt

  abbrev pub approval_answer : Caller → String → M (Response × List Notice)
  unfolding record_audit
  approval_answer c id = do
    fetched ← attempt (get_access_request env id)
    elim fetched [
      | err _ ↦ pure (refused 500 "request approved but failed to fetch", [])
      | ok r ↦ do
        record_audit c "access.approve" ("access_request:" +++ id)
        pure (
          answered 200 r,
          kube_notices r ++ request_approved id ∷ access_granted_hook id c.user_id ∷ [],
        )
    ]

  abbrev pub approve_resolved : Caller → String → Option ℤ → M (Response × List Notice)
  unfolding record_audit
  approve_resolved c id override = do
    pending ← attempt (get_access_request env id)
    if is_escalated pending && not (caller_is_admin c)
        then pure (
          refused 403
              "this request was escalated by the risk policy and needs an admin to approve it",
          [],
        )
        else do
          done ← attempt (approve_access_request_with_ttl env id c.user_id override)
          elim done [ err e ↦ pure (failed e, []) | ok _ ↦ approval_answer c id ]

  -- `approveAccessRequest`, with the reviewer and the duration of the request's body.
  unfoldable pub handle_approve : Caller → String → String → Option ℤ → M (Response × List Notice)
  unfolding resolve_reviewer_id record_audit
  handle_approve c id requested override = elim (resolve_reviewer_id c requested) [
    | some refusal ↦ pure (refusal, [])
    | none ↦
        if is_negative_override override
        then pure (refused 400 "duration must be >= 0 (0 = unlimited)", [])
        else approve_resolved c id override
  ]

  abbrev pub rejection_answer : Caller → String → M (Response × List Notice)
  unfolding record_audit
  rejection_answer c id = do
    fetched ← attempt (get_access_request env id)
    elim fetched [
      | err _ ↦ pure (refused 500 "request rejected but failed to fetch", [])
      | ok r ↦ do
        record_audit c "access.reject" ("access_request:" +++ id)
        pure (answered 200 r, request_rejected id ∷ [])
    ]

  -- `rejectAccessRequest`
  unfoldable pub handle_reject : Caller → String → String → M (Response × List Notice)
  unfolding resolve_reviewer_id record_audit
  handle_reject c id requested = elim (resolve_reviewer_id c requested) [
    | some refusal ↦ pure (refusal, [])
    | none ↦ do
      done ← attempt (reject_access_request env id c.user_id)
      elim done [ err e ↦ pure (failed e, []) | ok _ ↦ rejection_answer c id ]
  ]
