-- ===== src/Tests/Policies.antt =====
-- Risk policies and notification policies at concrete inputs.
use orion_belt.Prelude.{
  CaseMap, Option, [], eqb, false, none, pos, refl, some, true, ◌==◌, ◌↔◌, ◌∷◌, ◌≡◌,
}
use orion_belt.Notify.{
  NotificationPolicy, NotificationPrefs, allows, clamp_prefs, deliver, normalize,
}
use orion_belt.Risk.{
  AutoApproveRule, EscalateRule, Net, RiskPolicy, evaluate_risk, outcome_auto_approve,
}
use orion_belt.Types.{RiskSignals}
use orion_belt.Risk.Decision.{Escalates, IsLowRisk, evaluate_risk-approves}
use orion_belt.Notify.Clamp.{clamp_prefs-deliver}
use orion_belt.Notify.Normal.{normalize-allowed}

abbrev pub net : Net
net = record { quote = λ s. s; parse_ip = λ s. some 7; parse_cidr = λ s. some (λ n. eqb n 7) }

abbrev auto_approve : AutoApproveRule
auto_approve = record {
  enabled = true;
  max_sensitivity = "medium";
  max_duration_seconds = pos 3600;
  hours_utc = none;
  source_cidrs = [];
  require_mfa = true;
  remote_users = [];
}

abbrev escalate : EscalateRule
escalate = record {
  enabled = true;
  sensitivities = "high" ∷ [];
  outside_hours_utc = none;
  without_mfa = true;
  source_outside_cidrs = [];
}

abbrev pub policy : RiskPolicy
policy = record {
  auto_approve = auto_approve;
  escalate = escalate;
  updated_at = 0;
  updated_by = "";
}

abbrev signals : RiskSignals
signals = record {
  source_ip = "10.0.0.7";
  device = "";
  auth_method = "key";
  mfa_enrolled = true;
  hour_utc = 12;
  weekday = "Monday";
  target_sensitivity = "low";
  collected_at = 0;
}

evaluate_risk-approves_example :
    ((evaluate_risk net (some policy) (some signals) [] (pos 60)).outcome ≡ outcome_auto_approve)
    ↔ ((¬ ((policy.escalate.enabled ≡ true) × Escalates net policy.escalate signals))
        × (policy.auto_approve.enabled ≡ true)
        × IsLowRisk net policy.auto_approve signals [] (pos 60))
evaluate_risk-approves_example = evaluate_risk-approves net policy signals [] (pos 60)

abbrev notification_policy : NotificationPolicy
notification_policy = record {
  allowed_channels = "in_app" ∷ [];
  mandatory_events = ("break_glass", "email" ∷ []) ∷ [];
  updated_at = 0;
}

abbrev prefs : NotificationPrefs
prefs = record {
  user_id = "alice";
  in_app_enabled = true;
  email_enabled = false;
  event_types = "login" ∷ [];
}

abbrev pub cases : CaseMap
cases = record { to_lower = λ s. s; equal_fold = λ s t. s == t }

abbrev stored : Option NotificationPolicy
unfolding normalize
stored = some (normalize cases notification_policy)

clamp_prefs-deliver_example :
    deliver stored (some (clamp_prefs stored prefs).0) "email" "logout"
    ≡ allows (some (clamp_prefs stored prefs).0) "email" "logout"
unfolding stored
clamp_prefs-deliver_example =
    clamp_prefs-deliver stored prefs "email" "logout"
      (λ c e h. normalize-allowed cases notification_policy c e (λ d k. refl) h)
