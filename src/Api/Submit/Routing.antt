-- ===== src/Api/Submit/Routing.antt =====
-- When a submission gives access with no reviewer: pkg/api/risk.go.
use orion_belt.Prelude.{
  Bool, Bool-cases, List, Option, Option-cases, String, [], arith, false, inl, inr, is_negative,
  ltb_ℤ, none, pos, refl, some, suc, text_cases, true, ℕ, ℤ, ◌==◌, ◌∙◌, ◌≡◌, ◌≤ℤ◌,
}
use orion_belt.World.{Env, World}
use orion_belt.Api.Submit.{
  Client, Host, Submission, apply_risk_policy, assess, collect_risk_signals, created, handle_create,
  is_auto_approved, policy_or_none, submit_valid, submitted_duration, validate_grant_targets,
}
use orion_belt.Api.Review.{Caller, record_audit}
use orion_belt.Store.{get_machine, get_user}
use orion_belt.Types.{AccessRequest, RiskSignals, new_access_request}
use orion_belt.Apperr.{Result, err, ok, ◌+++◌}
use orion_belt.Store.Requests.{create_access_request}
use orion_belt.Risk.{
  RiskPolicy, evaluate_risk, max_auto_approve_duration, outcome_auto_approve, validate,
}
use orion_belt.Risk.Decision.{evaluate_risk_validated}

beyond : (m d : ℤ) → d ≤ℤ m → ltb_ℤ m d ≡ true → ((A : Bool) → A ≡ false)
beyond m d l h A = ground arith

policy_or_none-some :
    (x : Result (Option RiskPolicy)) (q : RiskPolicy) → policy_or_none x ≡ some q → x ≡ ok (some q)
policy_or_none-some (err e) q h = absurd (cc h)
policy_or_none-some (ok p) q h = rw h refl

-- Two worlds with the same grants and the same calls of the authorizer.
abbrev Same : World → World → Type 0
Same v w = (v.permissions ≡ w.permissions) × (v.sent ≡ w.sent)

module _ (env : Env) (host : Host) where
  assess_unchanged :
      (client : Client) (u : String) (s : Submission) (w : World)
      → ((assess env host client u s w).1.permissions ≡ w.permissions)
        × ((assess env host client u s w).1.sent ≡ w.sent)
  unfolding assess collect_risk_signals get_user get_machine
  assess_unchanged client u s w = ground arith

  apply_risk_policy_unchanged :
      (c : Caller) (r : AccessRequest) (w : World)
      → is_auto_approved r ≡ false
      → ((apply_risk_policy env host c r w).1.permissions ≡ w.permissions)
        × ((apply_risk_policy env host c r w).1.sent ≡ w.sent)
  unfolding apply_risk_policy record_audit
  apply_risk_policy_unchanged c r w h = ground arith

  create_unchanged :
      (r : AccessRequest) (w : World)
      → ((create_access_request env r w).1.permissions ≡ w.permissions)
        × ((create_access_request env r w).1.sent ≡ w.sent)
  unfolding create_access_request
  create_unchanged r w = ground arith

  record_audit_unchanged :
      (c : Caller) (a t : String) (w : World)
      → ((record_audit env c a t w).1.permissions ≡ w.permissions)
        × ((record_audit env c a t w).1.sent ≡ w.sent)
  unfolding record_audit
  record_audit_unchanged c a t w = ground arith

  -- The step at which the policy is read.
  abbrev policy_step : World → ℕ
  policy_step w = suc (suc (suc (suc (suc w.tick))))

  assess-decision :
      (client : Client) (u : String) (s : Submission) (w : World) (r : AccessRequest)
      → (assess env host client u s w).0 ≡ ok r
      → r.risk_decision
        ≡ some (
            evaluate_risk host.net
              (policy_or_none (host.policies (policy_step w)))
              r.risk_signals
              s.remote_users
              (submitted_duration s.duration))
  unfolding assess collect_risk_signals get_user get_machine new_access_request
  assess-decision client u s w r h = ground arith

  created_unchanged :
      (c : Caller) (r : AccessRequest) (x : Result (Unit {0})) (w : World)
      → is_auto_approved r ≡ false
      → Same (created env host c r x w).1 w
  unfolding created
  created_unchanged c r (err e) w n = (refl, refl)
  created_unchanged c r (ok u) w n =
      let w2 : World = (record_audit env c "access.request" ("access_request:" +++ r.id) w).1 in
      let logged = record_audit_unchanged c "access.request" ("access_request:" +++ r.id) w in
      let routed = apply_risk_policy_unchanged c r w2 n in
      (ground (arith, logged, routed), ground (arith, logged, routed))

  submit_valid_unchanged :
      (c : Caller) (client : Client) (s : Submission) (w : World) (r : AccessRequest)
      → (assess env host client c.user_id s w).0 ≡ ok r
      → is_auto_approved r ≡ false
      → Same (submit_valid env host c client s w).1 w
  unfolding submit_valid
  submit_valid_unchanged c client s w r h n =
      let kept = assess_unchanged client c.user_id s w in
      let w1 : World = (assess env host client c.user_id s w).1 in
      let stored = create_unchanged r w1 in
      let answered_then =
        created_unchanged c r (create_access_request env r w1).0 (create_access_request env r w1).1
          n in
      let run : submit_valid env host c client s w
          ≡ created env host c r (create_access_request env r w1).0
              (create_access_request env r w1).1 =
        ground (arith, h) in
      rw run (answered_then.0 ∙ (stored.0 ∙ kept.0), answered_then.1 ∙ (stored.1 ∙ kept.1))

  -- A submission whose assessment is not an automatic approval changes no grant and tells the
  -- authorizer nothing.
  pub handle_create_unapproved :
      (c : Caller) (client : Client) (s : Submission) (w : World) (r : AccessRequest)
      → (assess env host client c.user_id s w).0 ≡ ok r
      → is_auto_approved r ≡ false
      → ((handle_create env host c client s w).1.permissions ≡ w.permissions)
        × ((handle_create env host c client s w).1.sent ≡ w.sent)
  unfolding handle_create
  handle_create_unapproved c client s w r h n =
      elim (Option-cases (validate_grant_targets env.quote s.access_type s.remote_users)) [
        | inr (e, i) ↦ rw (i, handle_create) (refl, refl)
        | inl i ↦ elim (Bool-cases (is_negative (submitted_duration s.duration))) [
          | inl b ↦ rw (i, b, handle_create) (refl, refl)
          | inr b ↦ rw (i, b, handle_create) (submit_valid_unchanged c client s w r h n)
        ]
      ]

  not_approved :
      (p : Option RiskPolicy) (g : Option RiskSignals) (us : List String) (d : ℤ)
      → ((q : RiskPolicy) → p ≡ some q → validate host.net q ≡ [])
      → (ltb_ℤ (pos max_auto_approve_duration) d) ≡ true
      → ((evaluate_risk host.net p g us d).outcome == outcome_auto_approve) ≡ false
  unfolding evaluate_risk
  not_approved none g us d v h = refl
  not_approved (some q) none us d v h = refl
  not_approved (some q) (some g) us d v h =
      elim (text_cases (evaluate_risk host.net (some q) (some g) us d).outcome
        outcome_auto_approve) [
          | inr n ↦ n
          | inl e ↦
              beyond (pos max_auto_approve_duration) d
                (evaluate_risk_validated host.net q g us d (v q refl) e).1 h _
        ]

  -- Where every stored policy passed the validation, a submission for more than a day changes no
  -- grant: it never gives access before a reviewer has approved it.
  pub handle_create_validated :
      (c : Caller) (client : Client) (s : Submission) (w : World) (r : AccessRequest)
      → ((n : ℕ) (q : RiskPolicy) → host.policies n ≡ ok (some q) → validate host.net q ≡ [])
      → ltb_ℤ (pos max_auto_approve_duration) (submitted_duration s.duration) ≡ true
      → (assess env host client c.user_id s w).0 ≡ ok r
      → ((handle_create env host c client s w).1.permissions ≡ w.permissions)
        × ((handle_create env host c client s w).1.sent ≡ w.sent)
  handle_create_validated c client s w r v l h = handle_create_unapproved c client s w r h (
      rw (assess-decision client c.user_id s w r h) (
        not_approved (policy_or_none (host.policies (policy_step w))) r.risk_signals s.remote_users
          (submitted_duration s.duration) (λ q e. v (policy_step w) q (policy_or_none-some _ q e))
          l))
