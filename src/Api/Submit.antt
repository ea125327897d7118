-- ===== src/Api/Submit.antt =====
-- The submission of an access request over the API: createAccessRequest of pkg/api/api.go,
-- validateGrantTargets of pkg/api/kube.go and the routing of pkg/api/risk.go.
pub mod Routing
use orion_belt.Apperr.{Error, Result, err, error_text, ok, plain, ◌+++◌}
use orion_belt.Prelude.{
  Bool, CaseMap, List, Option, String, [], eqb, false, if◌then◌else◌, is_negative, none, pos, some,
  true, ℕ, ℤ, ◌%◌, ◌*◌, ◌++◌, ◌/◌, ◌==◌, ◌∷◌,
}
use orion_belt.Types.{AccessRequest, RiskSignals, new_access_request}
use orion_belt.Kube.Scope.{validate_scopes}
use orion_belt.Risk.{Net, RiskPolicy, evaluate_risk, new_risk_signals, outcome_auto_approve}
use orion_belt.World.{Env, M, attempt, fresh_id, pure, step, time_now, ◌>>=◌, ◌>>◌}
use orion_belt.Access.{access_type_k8s, is_tunnel_access_type}
use orion_belt.Api.Review.{
  Caller, Notice, Response, access_granted_hook, access_request_hook, answered,
  is_escalated_decision, kube_notices, record_audit, refused, request_approved,
}
use orion_belt.Store.{get_machine, get_user}
use orion_belt.Store.Requests.{create_access_request, get_access_request}
use orion_belt.Auth.{approve_access_request_with_ttl}

-- The body of the request after it was bound.
pub record Submission : Type 0 where
  pub machine_id : String
  pub remote_users : List String
  pub access_type : String
  pub reason : String
  pub duration : Option ℤ

-- What the transport tells about the client.
pub record Client : Type 0 where
  pub client_ip : String
  pub user_agent : String
  pub auth_method : String

-- The libraries that the handler calls, and the answer of `GetRiskPolicy` at each step.
pub record Host : Type 0 where
  pub cases : CaseMap
  pub net : Net
  pub truncate : String → String
  pub policies : ℕ → Result (Option RiskPolicy)

abbrev pub default_access_request_ttl_seconds : ℕ
default_access_request_ttl_seconds = 30 * 60

-- `Hour` and `Weekday` of a time in UTC: Go's zero time is the start of a Monday.
abbrev pub hour_of : ℕ → ℕ
hour_of t = (t / 3600000000000) % 24

abbrev pub day_name : ℕ → String
day_name n =
    if eqb n 0
    then "Monday"
    else if eqb n 1
    then "Tuesday"
    else if eqb n 2
    then "Wednesday"
    else if eqb n 3
    then "Thursday"
    else if eqb n 4
    then "Friday"
    else if eqb n 5
    then "Saturday"
    else "Sunday"

abbrev pub weekday_of : ℕ → String
weekday_of t = day_name ((t / 86400000000000) % 7)

abbrev pub is_no_account : List String → Bool
is_no_account [] = true
is_no_account (a ∷ as') = false

-- `validateGrantTargets`
unfoldable pub validate_grant_targets : (String → String) → String → List String → Option Error
unfolding validate_scopes is_tunnel_access_type
validate_grant_targets quote access_type remote_users =
    if access_type == access_type_k8s
    then validate_scopes quote remote_users
    else if is_tunnel_access_type access_type
    then none
    else if is_no_account remote_users
    then some
        (plain "remote_users is required (the target accounts the grant allows, e.g. [\"root\"])")
    else none

abbrev pub submitted_duration : Option ℤ → ℤ
submitted_duration none = pos default_access_request_ttl_seconds
submitted_duration (some d) = d

abbrev pub to_option : {A : Type 0} → Result A → Option A
to_option (err e) = none
to_option (ok a) = some a

abbrev pub policy_or_none : Result (Option RiskPolicy) → Option RiskPolicy
policy_or_none (err e) = none
policy_or_none (ok p) = p

abbrev pub is_auto_approved : AccessRequest → Bool
is_auto_approved r = elim r.risk_decision [
  | none ↦ false
  | some d ↦ d.outcome == outcome_auto_approve
]

module _ (env : Env) (host : Host) where
  -- `collectRiskSignals`
  unfoldable pub collect_risk_signals : Client → String → String → M RiskSignals
  unfolding new_risk_signals
  collect_risk_signals client user_id machine_id = do
    user ← attempt (get_user env user_id)
    machine ← attempt (get_machine env machine_id)
    t ← time_now env
    pure (
        new_risk_signals host.cases host.truncate client.client_ip client.user_agent
          client.auth_method (to_option user) (to_option machine) t (hour_of t) (weekday_of t))

  -- `GetRiskPolicy`, of which only the answer is used.
  abbrev pub risk_policy : M (Option RiskPolicy)
  risk_policy w = (ok (policy_or_none (host.policies w.tick)), step w)

  -- The request as it is stored: its signals, and the decision of `evaluateRisk`.
  unfoldable pub assess : Client → String → Submission → M AccessRequest
  unfolding collect_risk_signals evaluate_risk new_access_request
  assess client user_id s = do
    id ← fresh_id env
    t ← time_now env
    let request =
        new_access_request id t user_id s.machine_id s.remote_users s.reason
          (submitted_duration s.duration)
    signals ← collect_risk_signals client user_id s.machine_id
    policy ← risk_policy
    pure (record request {
      access_type = if s.access_type == "" then request.access_type else s.access_type;
      risk_signals = some signals;
      risk_decision =
          some (evaluate_risk host.net policy (some signals) request.remote_users request.duration);
    })

  abbrev pub auto_approve : Caller → AccessRequest → M (AccessRequest × List Notice)
  unfolding record_audit
  auto_approve c r = do
    done ← attempt (approve_access_request_with_ttl env r.id "" none)
    elim done [
      | err _ ↦ pure (r, [])
      | ok _ ↦ do
        fetched ← attempt (get_access_request env r.id)
        elim fetched [
          | err _ ↦ pure (r, [])
          | ok a ↦ do
            record_audit env c "access.auto_approve" ("access_request:" +++ r.id)
            pure (
              a,
              kube_notices a ++ request_approved a.id ∷ access_granted_hook a.id "risk_policy" ∷ [],
            )
        ]
    ]

  -- `applyRiskPolicy`
  unfoldable pub apply_risk_policy : Caller → AccessRequest → M (AccessRequest × List Notice)
  unfolding record_audit
  apply_risk_policy c r =
      if is_escalated_decision r.risk_decision
      then record_audit env c "access.escalate" ("access_request:" +++ r.id) >> pure (r, [])
      else if is_auto_approved r
      then auto_approve c r
      else pure (r, [])

  -- The handler from the answer of the statement on.
  unfoldable pub created : Caller → AccessRequest → Result (Unit {0}) → M (Response × List Notice)
  unfolding apply_risk_policy record_audit
  created c r (err _) = pure (refused 500 "failed to create access request", [])
  created c r (ok _) = do
    record_audit env c "access.request" ("access_request:" +++ r.id)
    routed ← apply_risk_policy c r
    pure (answered 201 routed.0, access_request_hook r.id ∷ routed.1)

  unfoldable pub submit_valid : Caller → Client → Submission → M (Response × List Notice)
  unfolding assess created
  submit_valid c client s = do
    r ← assess client c.user_id s
    answer ← attempt (create_access_request env r)
    created c r answer

  -- `createAccessRequest`
  unfoldable pub handle_create : Caller → Client → Submission → M (Response × List Notice)
  unfolding validate_grant_targets submit_valid
  handle_create c client s = elim (validate_grant_targets env.quote s.access_type s.remote_users) [
    | some e ↦ pure (refused 400 (error_text e), [])
    | none ↦
        if is_negative (submitted_duration s.duration)
        then pure (refused 400 "duration must be >= 0 (0 = unlimited)", [])
        else submit_valid c client s
  ]
