-- ===== src/Auth/Request.antt =====
-- The life of an access request in pkg/auth/auth.go: made, approved or rejected.
use orion_belt.Prelude.{
  List, Option, String, if◌then◌else◌, is_positive, none, not, pos_part, some, ℕ, ℤ, ◌==◌,
}
use orion_belt.Apperr.{Error, conflict, kinded}
use orion_belt.Types.{AccessRequest, new_access_request}
use orion_belt.World.{Env, M, fail, fresh_id, pure, time_now, wrap, ◌>>=◌, ◌>>◌}
use orion_belt.Store.Requests.{create_access_request, get_access_request, update_access_request}
use orion_belt.Auth.Grant.{expiry_from, grant_permission, seconds_to_duration}

abbrev pub not_pending : Error
not_pending = kinded conflict "request is not pending"

abbrev pub chosen_duration : ℤ → Option ℤ → ℤ
chosen_duration requested none = requested
chosen_duration requested (some d) = d

-- The duration of the grant: none, that is no expiry, unless the seconds are positive.
abbrev pub grant_duration : ℤ → Option ℕ
grant_duration seconds =
    if is_positive seconds then some (seconds_to_duration (pos_part seconds)) else none

-- An approval by the risk policy has no reviewer.
abbrev pub reviewer : String → Option String
reviewer id = if id == "" then none else some id

abbrev pub or_both : String → String
or_both access_type = if access_type == "" then "both" else access_type

unfoldable pub approved : String → ℤ → ℕ → AccessRequest → AccessRequest
approved reviewer_id seconds t request = record request {
  duration = seconds;
  status = "approved";
  reviewed_at = some t;
  reviewed_by = reviewer reviewer_id;
  expires_at = expiry_from t (grant_duration seconds);
}

unfoldable pub rejected : String → ℕ → AccessRequest → AccessRequest
rejected reviewer_id t request = record request {
  status = "rejected";
  reviewed_at = some t;
  reviewed_by = some reviewer_id;
}

module _ (env : Env) where
  unfoldable pub request_temporary_access :
      String → String → List String → String → ℤ → M AccessRequest
  request_temporary_access user_id machine_id remote_users reason duration = do
    id ← fresh_id env
    t ← time_now env
    let request = new_access_request id t user_id machine_id remote_users reason duration
    wrap "failed to create access request" (create_access_request env request)
    pure request

  unfoldable pub approve_access_request_with_ttl : String → String → Option ℤ → M (Unit {0})
  unfolding approved
  approve_access_request_with_ttl request_id reviewer_id duration_override = do
    request ← wrap "failed to get access request" (get_access_request env request_id)
    if not (request.status == "pending") then fail not_pending else do
      let seconds = chosen_duration request.duration duration_override
      t ← time_now env
      wrap "failed to update access request"
          (update_access_request env (approved reviewer_id seconds t request))
      wrap "failed to grant permission" (
          grant_permission env request.user_id request.machine_id (or_both request.access_type)
            request.remote_users reviewer_id (grant_duration seconds))

  unfoldable pub approve_access_request : String → String → M (Unit {0})
  unfolding approve_access_request_with_ttl
  approve_access_request request_id reviewer_id =
      approve_access_request_with_ttl request_id reviewer_id none

  unfoldable pub reject_access_request : String → String → M (Unit {0})
  unfolding rejected
  reject_access_request request_id reviewer_id = do
    request ← wrap "failed to get access request" (get_access_request env request_id)
    if not (request.status == "pending") then fail not_pending else do
      t ← time_now env
      wrap "failed to update access request"
          (update_access_request env (rejected reviewer_id t request))
