-- ===== src/Risk/Decision.antt =====
-- When a request is escalated or approved without a reviewer: pkg/common/risk_policy.go.
use orion_belt.Prelude.{
  Bool, List, String, [], all, ap, arith, false, if◌then◌else◌, inl, inr, is_positive, ltb_ℤ, not,
  pos, refl, some, subst, sym, text_cases, text_ne, true, ℤ, ◌&&◌, ◌++◌, ◌==◌, ◌||◌, ◌↔◌, ◌∙◌, ◌∷◌,
  ◌≡◌, ◌≢◌, ◌≤ℤ◌, ◌⊎◌,
}
use orion_belt.Risk.Policy.{
  AutoApproveRule, EscalateRule, Net, RiskPolicy, above, account_reasons, contains_text,
  escalate_reasons, evaluate_auto_approve, evaluate_risk, failed_reasons, is_empty,
  max_auto_approve_duration, outcome_auto_approve, outcome_escalate, outcome_manual, outside_hours,
  outside_networks, report, sensitivity_rank, validate, validate_auto_approve,
}
use orion_belt.Types.{RiskSignals}
use orion_belt.Risk.Signals.{sensitivity_high, sensitivity_low, sensitivity_medium}

is_empty-append {ℓ} :
    {A : Type ℓ} (xs ys : List A) → is_empty (xs ++ ys) ≡ (is_empty xs && is_empty ys)
is_empty-append [] ys = refl
is_empty-append (x ∷ xs) ys = refl

not-not : (b : Bool) → not (not b) ≡ b
not-not true = refl
not-not false = refl

is_empty-report : (b : Bool) (s : String) → is_empty (report b s) ≡ not b
is_empty-report true s = refl
is_empty-report false s = refl

false-true : ¬ (false ≡ true)
false-true h = cc

-- Nothing was reported: neither by the first rule nor by the rest.
report-none :
    (b : Bool) (t : String) (rest : List String)
    → report b t ++ rest ≡ []
    → (b ≡ false) × (rest ≡ [])
report-none true t rest h = elim (false-true (ap is_empty h)) [ ]
report-none false t rest h = (refl, h)

append-empty {ℓ} : {A : Type ℓ} (xs ys : List A) → xs ++ ys ≡ [] → xs ≡ []
append-empty [] ys h = refl
append-empty (x ∷ xs) ys h = elim (false-true (ap is_empty h)) [ ]

not_true : (b : Bool) → ¬ (b ≡ true) → b ≡ false
not_true true h = absurd (h refl)
not_true false h = refl

module _ (net : Net) where
  -- A condition of the escalation rule holds.
  abbrev pub Escalates : EscalateRule → RiskSignals → Type 0
  Escalates e s =
      (contains_text e.sensitivities s.target_sensitivity ≡ true)
      ⊎ ((outside_hours e.outside_hours_utc s.hour_utc ≡ true)
          ⊎ (((e.without_mfa ≡ true) × (s.mfa_enrolled ≡ false))
              ⊎ (outside_networks net s.source_ip e.source_outside_cidrs ≡ true)))

  escalate_reasons-empty :
      (e : EscalateRule) (s : RiskSignals)
      → is_empty (escalate_reasons net e s) ≡ (
          not (contains_text e.sensitivities s.target_sensitivity)
          && (not (outside_hours e.outside_hours_utc s.hour_utc)
              && (not (e.without_mfa && not s.mfa_enrolled)
                  && not (outside_networks net s.source_ip e.source_outside_cidrs))))
  unfolding escalate_reasons
  escalate_reasons-empty e s = simp (is_empty-append, is_empty-report)

  is_empty-accounts :
      (allowed us : List String)
      → is_empty (account_reasons net allowed us) ≡ all (contains_text allowed) us
  unfolding account_reasons
  is_empty-accounts allowed [] = refl
  is_empty-accounts allowed (u ∷ us) =
      simp (is_empty-append, is_empty-report, is_empty-accounts allowed us, not-not)

  abbrev accounts_ok : List String → List String → Bool
  accounts_ok allowed us = if is_empty allowed then true else all (contains_text allowed) us

  is_empty-account_rule :
      (allowed us : List String)
      → is_empty (if is_empty allowed then [] else account_reasons net allowed us)
        ≡ accounts_ok allowed us
  is_empty-account_rule [] us = refl
  is_empty-account_rule (a ∷ as') us = is_empty-accounts (a ∷ as') us

  failed_reasons-empty :
      (a : AutoApproveRule) (s : RiskSignals) (us : List String) (d : ℤ)
      → is_empty (failed_reasons net a s us d) ≡ (
          not (above net s.target_sensitivity a.max_sensitivity)
          && (not (not (is_positive d) || ltb_ℤ a.max_duration_seconds d)
              && (not (outside_hours a.hours_utc s.hour_utc)
                  && (not (outside_networks net s.source_ip a.source_cidrs)
                      && (not (a.require_mfa && not s.mfa_enrolled)
                          && accounts_ok a.remote_users us)))))
  unfolding failed_reasons
  failed_reasons-empty a s us d = simp (is_empty-append, is_empty-report, is_empty-account_rule)

  route : Bool → Bool → String
  route escalated accepted =
      if escalated
      then outcome_escalate
      else if accepted
      then outcome_auto_approve
      else outcome_manual

  evaluate_risk-route :
      (p : RiskPolicy) (s : RiskSignals) (us : List String) (d : ℤ)
      → (evaluate_risk net (some p) (some s) us d).outcome
        ≡ route
            (p.escalate.enabled && not (is_empty (escalate_reasons net p.escalate s)))
            (p.auto_approve.enabled && is_empty (failed_reasons net p.auto_approve s us d))
  unfolding evaluate_risk evaluate_auto_approve route
  evaluate_risk-route p s us d = ground arith

  route-escalate : (x y : Bool) → (route x y ≡ outcome_escalate) ↔ (x ≡ true)
  unfolding route
  route-escalate true y = (λ _. refl, λ _. refl)
  route-escalate false true =
      (λ h. absurd (text_ne outcome_auto_approve outcome_escalate refl h), λ h. cc)
  route-escalate false false =
      (λ h. absurd (text_ne outcome_manual outcome_escalate refl h), λ h. cc)

  route-auto_approve :
      (x y : Bool) → (route x y ≡ outcome_auto_approve) ↔ ((x ≡ false) × (y ≡ true))
  unfolding route
  route-auto_approve true y =
      (λ h. absurd (text_ne outcome_escalate outcome_auto_approve refl h), λ h. cc)
  route-auto_approve false true = (λ h. (refl, refl), λ h. refl)
  route-auto_approve false false =
      (λ h. absurd (text_ne outcome_manual outcome_auto_approve refl h), λ h. cc)

  -- A request is escalated exactly when the escalation rule is on and one of its conditions holds,
  -- whatever the auto-approval rule says.
  pub evaluate_risk-Escalates :
      (p : RiskPolicy) (s : RiskSignals) (us : List String) (d : ℤ)
      → ((evaluate_risk net (some p) (some s) us d).outcome ≡ outcome_escalate)
        ↔ ((p.escalate.enabled ≡ true) × Escalates p.escalate s)
  evaluate_risk-Escalates p s us d =
      let e = escalate_reasons-empty p.escalate s in
      rw (evaluate_risk-route p s us d) (
        λ h. ground (arith, (route-escalate _ _).0 h, e),
        λ h. (route-escalate _ _).1 (ground (arith, e)),
      )

  -- The conditions of the auto-approval rule.
  pub record IsLowRisk (a : AutoApproveRule) (s : RiskSignals) (us : List String) (d : ℤ)
      : Type 0 where
    pub known : above net s.target_sensitivity a.max_sensitivity ≡ false
    pub some_time : is_positive d ≡ true
    pub duration : d ≤ℤ a.max_duration_seconds
    pub hours : outside_hours a.hours_utc s.hour_utc ≡ false
    pub network : outside_networks net s.source_ip a.source_cidrs ≡ false
    pub mfa : a.require_mfa ≡ true → s.mfa_enrolled ≡ true
    pub accounts : accounts_ok a.remote_users us ≡ true

  -- A request is approved without a reviewer exactly when it is not escalated, the auto-approval
  -- rule is on, and every one of its conditions holds.
  pub evaluate_risk-approves :
      (p : RiskPolicy) (s : RiskSignals) (us : List String) (d : ℤ)
      → ((evaluate_risk net (some p) (some s) us d).outcome ≡ outcome_auto_approve) ↔ (
          (¬ ((p.escalate.enabled ≡ true) × Escalates p.escalate s))
          × (p.auto_approve.enabled ≡ true)
          × IsLowRisk p.auto_approve s us d)
  evaluate_risk-approves p s us d =
      let e = escalate_reasons-empty p.escalate s in
      let f = failed_reasons-empty p.auto_approve s us d in
      rw (evaluate_risk-route p s us d) (
        λ h. (
          λ x. ground (arith, (route-auto_approve _ _).0 h, e),
          ground (arith, (route-auto_approve _ _).0 h, f),
          ground (arith, (route-auto_approve _ _).0 h, f),
        ),
        λ h.
            (route-auto_approve _ _).1
              (not_true _ (λ on. h.0 (ground (arith, e))), ground (arith, f)),
      )

  validate-none :
      (p : RiskPolicy)
      → validate net p ≡ []
      → p.auto_approve.enabled ≡ true
      → ((not (p.auto_approve.max_sensitivity == sensitivity_low)
            && not (p.auto_approve.max_sensitivity == sensitivity_medium))
          ≡ false)
        × (p.auto_approve.max_duration_seconds ≤ℤ pos max_auto_approve_duration)
  unfolding validate
  validate-none p h on =
      let e =
        subst (λ b. (if b then validate_auto_approve net p.auto_approve else []) ≡ []) on
          (append-empty _ _ h) in
      let k = report-none _ _ _ e in
      let l =
        report-none
          (not (is_positive p.auto_approve.max_duration_seconds)
            || ltb_ℤ (pos max_auto_approve_duration) p.auto_approve.max_duration_seconds)
          _ _ k.1 in
      (k.0, ground (arith, l.0))

  -- Every target that a rule accepted by the validation may approve has a known, low or medium, level.
  above_validated :
      (m s : String)
      → (not (m == sensitivity_low) && not (m == sensitivity_medium)) ≡ false
      → above net s m ≡ false
      → s ≢ sensitivity_high
  unfolding sensitivity_rank
  above_validated m s h k e = elim (text_cases m sensitivity_low) [
    | inl i ↦ false-true (sym k ∙ (rw (e, i) refl))
    | inr b ↦ elim (text_cases m sensitivity_medium) [
      | inl i ↦ false-true (sym k ∙ (rw (e, i) refl))
      | inr c ↦ false-true (sym (rw (b, c) at h))
    ]
  ]

  -- Under a policy that `validate` accepts, no request is approved without a reviewer on a target
  -- of high sensitivity or for more than a day.
  pub evaluate_risk_validated :
      (p : RiskPolicy) (s : RiskSignals) (us : List String) (d : ℤ)
      → validate net p ≡ []
      → (evaluate_risk net (some p) (some s) us d).outcome ≡ outcome_auto_approve
      → (s.target_sensitivity ≢ sensitivity_high) × (d ≤ℤ pos max_auto_approve_duration)
  evaluate_risk_validated p s us d v h =
      let a = (evaluate_risk-approves p s us d).0 h in
      let k = validate-none p v a.1 in
      (above_validated _ _ k.0 a.2.known, ground (arith, a.2.duration, k.1))
