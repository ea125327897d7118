-- ===== src/Tests/Handlers.antt =====
-- The handlers of the API at concrete inputs.
use orion_belt.Apperr.{Result, err, ok}
use orion_belt.Prelude.{
  List, Option, [], decimal, false, map, none, pos, refl, some, subst, ℕ, ◌∷◌, ◌≡◌,
}
use orion_belt.Api.Submit.{Client, Host, Submission, assess, handle_create}
use orion_belt.Types.{AccessRequest, new_permission}
use orion_belt.Risk.{RiskPolicy, validate}
use orion_belt.Api.Review.{Caller, Notice, access_granted_hook, handle_approve, request_approved}
use orion_belt.World.{Env, World}
use orion_belt.Tests.Fixtures.{env, env_with, failing_at, request, world}
use orion_belt.Tests.Policies.{cases, net, policy}
use orion_belt.Api.Review.Escalation.{handle_approve-is_escalated}
use orion_belt.Api.Submit.Routing.{handle_create_validated}
use orion_belt.Store.{get_machine, get_user}
use orion_belt.Store.Requests.{get_access_request, update_access_request}
use orion_belt.Auth.{approve_access_request_with_ttl, grant_permission}
use orion_belt.Store.Permissions.{create_permission, find_active_permission}

abbrev escalated : AccessRequest
escalated = record request { risk_decision = some (record { outcome = "escalate"; reasons = [] }) }

abbrev escalated_world : World
escalated_world = record world { requests = escalated ∷ [] }

abbrev operator : Caller
operator = record { user_id = "omar"; role = "operator"; is_admin = false }

handle_approve-is_escalated_example :
    ((handle_approve env operator "r1" "" none escalated_world).1.permissions
      ≡ escalated_world.permissions)
    × ((handle_approve env operator "r1" "" none escalated_world).1.requests
        ≡ escalated_world.requests)
    × ((handle_approve env operator "r1" "" none escalated_world).1.sent ≡ escalated_world.sent)
handle_approve-is_escalated_example =
    handle_approve-is_escalated env operator "r1" "" none escalated_world escalated refl refl refl
      refl

abbrev unread : Env
unread = env_with (failing_at 0)

-- The read of the request fails, and an operator's approval of the escalated request goes through.
operator_approves :
    map
      (λ (r : AccessRequest). r.status)
      (handle_approve unread operator "r1" "" none escalated_world).1.requests
    ≡ "approved" ∷ []
unfolding handle_approve get_access_request approve_access_request_with_ttl update_access_request
    grant_permission find_active_permission create_permission new_permission decimal
operator_approves = refl

abbrev answer : AccessRequest
answer = record request {
  status = "approved";
  reviewed_at = some 102;
  reviewed_by = some "omar";
  expires_at = some 60000000102;
}

abbrev notices : List Notice
notices = request_approved "r1" ∷ access_granted_hook "r1" "omar" ∷ []

abbrev host : Host
host = record { cases = cases; net = net; truncate = λ s. s; policies = λ n. ok (some policy) }

abbrev requester : Caller
requester = record { user_id = "alice"; role = "user"; is_admin = false }

abbrev client : Client
client = record { client_ip = "10.0.0.7"; user_agent = "cli"; auth_method = "key" }

abbrev submission : Submission
submission = record {
  machine_id = "web";
  remote_users = "deploy" ∷ [];
  access_type = "ssh";
  reason = "fix";
  duration = some (pos 90000);
}

abbrev assessed : AccessRequest
assessed = record {
  id = "0";
  user_id = "alice";
  machine_id = "web";
  remote_users = "deploy" ∷ [];
  access_type = "ssh";
  reason = "fix";
  duration = pos 90000;
  status = "pending";
  requested_at = 101;
  reviewed_at = none;
  reviewed_by = none;
  expires_at = none;
  risk_signals = some (record {
    source_ip = "10.0.0.7";
    device = "cli";
    auth_method = "key";
    mfa_enrolled = false;
    hour_utc = 0;
    weekday = "Monday";
    target_sensitivity = "unset";
    collected_at = 104;
  });
  risk_decision =
      some (record { outcome = "escalate"; reasons = "requester has no MFA enrolled" ∷ [] });
}

abbrev IsValidOrNone : Result (Option RiskPolicy) → Type 0
IsValidOrNone (ok (some q)) = validate host.net q ≡ []
IsValidOrNone (ok none) = Unit
IsValidOrNone (err e) = Unit

passed : (n : ℕ) (q : RiskPolicy) → host.policies n ≡ ok (some q) → validate host.net q ≡ []
unfolding validate
passed n q h = subst (λ (x : Result (Option RiskPolicy)). IsValidOrNone x) h refl

handle_create_validated_example :
    ((handle_create env host requester client submission world).1.permissions ≡ world.permissions)
    × ((handle_create env host requester client submission world).1.sent ≡ world.sent)
unfolding assess decimal get_user get_machine
handle_create_validated_example =
    handle_create_validated env host requester client submission world assessed passed refl refl
