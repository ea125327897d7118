-- ===== src/Risk/Policy.antt =====
-- The risk policy, its validation and its evaluation: pkg/common/risk_policy.go.
use orion_belt.Prelude.{
  Bool, List, Option, String, [], any, decimal, decimal_ℤ, false, if◌then◌else◌, is_negative,
  is_positive, leb_ℤ, ltb, ltb_ℤ, none, not, pos, some, trim_space, true, two_digits, two_digits_ℤ,
  ℕ, ℤ, ◌&&◌, ◌*◌, ◌++◌, ◌==◌, ◌||◌, ◌∷◌,
}
use orion_belt.Risk.Signals.{
  sensitivity_high, sensitivity_low, sensitivity_medium, sensitivity_unset,
}
use orion_belt.Types.{RiskDecision, RiskSignals}
use orion_belt.Apperr.{◌+++◌}

abbrev pub outcome_manual : String
outcome_manual = "manual"

abbrev pub outcome_auto_approve : String
outcome_auto_approve = "auto_approve"

abbrev pub outcome_escalate : String
outcome_escalate = "escalate"

abbrev pub max_auto_approve_duration : ℕ
max_auto_approve_duration = 24 * 60 * 60

pub record HourRange : Type 0 where
  pub start : ℤ
  pub end : ℤ

-- `HourRange.Contains`
unfoldable pub contains_hour : HourRange → ℕ → Bool
contains_hour r hour =
    if leb_ℤ r.start r.end
    then leb_ℤ r.start (pos hour) && ltb_ℤ (pos hour) r.end
    else leb_ℤ r.start (pos hour) || ltb_ℤ (pos hour) r.end

abbrev pub same_ℤ : ℤ → ℤ → Bool
same_ℤ a b = leb_ℤ a b && leb_ℤ b a

-- `HourRange.validate` reports an error.
unfoldable pub hours_invalid : HourRange → Bool
hours_invalid r =
    is_negative r.start
    || (ltb_ℤ (pos 23) r.start
        || (is_negative r.end || (ltb_ℤ (pos 24) r.end || same_ℤ r.start r.end)))

pub record AutoApproveRule : Type 0 where
  pub enabled : Bool
  pub max_sensitivity : String
  pub max_duration_seconds : ℤ
  pub hours_utc : Option HourRange
  pub source_cidrs : List String
  pub require_mfa : Bool
  pub remote_users : List String

pub record EscalateRule : Type 0 where
  pub enabled : Bool
  pub sensitivities : List String
  pub outside_hours_utc : Option HourRange
  pub without_mfa : Bool
  pub source_outside_cidrs : List String

pub record RiskPolicy : Type 0 where
  pub auto_approve : AutoApproveRule
  pub escalate : EscalateRule
  pub updated_at : ℕ
  pub updated_by : String

-- The library calls of the file: `net.ParseIP` and `net.ParseCIDR`, with `IPNet.Contains` over an
-- address as a number, and the quoting of `%q`.
pub record Net : Type 0 where
  pub quote : String → String
  pub parse_ip : String → Option ℕ
  pub parse_cidr : String → Option (ℕ → Bool)

-- `sensitivityRank`, and what a missing key reads as in `sensitivityRank[...]`.
unfoldable pub sensitivity_rank : String → Option ℕ
sensitivity_rank s =
    if s == sensitivity_low
    then some 1
    else if s == sensitivity_medium
    then some 2
    else if s == sensitivity_high
    then some 3
    else none

abbrev pub rank_or_zero : String → ℕ
rank_or_zero s = elim (sensitivity_rank s) [ none ↦ 0 | some r ↦ r ]

abbrev pub contains_text : List String → String → Bool
contains_text xs s = any (λ x. x == s) xs

unfoldable pub or_unknown : String → String
unfolding trim_space
or_unknown v = if trim_space v == "" then "an unknown source" else v

-- One error text for each broken rule.
abbrev pub report : Bool → String → List String
report b s = if b then s ∷ [] else []

abbrev pub is_empty {ℓ} : {A : Type ℓ} → List A → Bool
is_empty [] = true
is_empty (x ∷ xs) = false

abbrev pub report_hours : String → Option HourRange → List String
report_hours field none = []
report_hours field (some r) = report (hours_invalid r) (
    field
    +++ ": hours "
    +++ decimal_ℤ r.start
    +++ "-"
    +++ decimal_ℤ r.end
    +++ ": start must be 0-23, end 0-24, and they must differ")

abbrev pub outside_hours : Option HourRange → ℕ → Bool
outside_hours none hour = false
outside_hours (some r) hour = not (contains_hour r hour)

abbrev pub hours_text : Option HourRange → ℕ → String
hours_text none hour = ""
hours_text (some r) hour =
    "requested at "
    +++ two_digits hour
    +++ ":00 UTC, outside "
    +++ two_digits_ℤ r.start
    +++ "-"
    +++ two_digits_ℤ r.end

abbrev pub unknown_level : String → Bool
unknown_level s = not (
    contains_text (sensitivity_low ∷ sensitivity_medium ∷ sensitivity_high ∷ sensitivity_unset ∷ [])
      s)

module _ (net : Net) where
  abbrev pub is_none {ℓ} : {A : Type ℓ} → Option A → Bool
  is_none none = true
  is_none (some a) = false

  unfoldable pub validate_cidrs : String → List String → List String
  validate_cidrs field [] = []
  validate_cidrs field (c ∷ cs) =
      report (is_none (net.parse_cidr c)) (field +++ ": " +++ net.quote c +++ " is not a CIDR")
      ++ validate_cidrs field cs

  unfoldable pub unknown_levels : List String → List String
  unknown_levels [] = []
  unknown_levels (s ∷ ss) =
      report (unknown_level s) ("escalate.sensitivities: unknown level " +++ net.quote s)
      ++ unknown_levels ss

  abbrev pub validate_auto_approve : AutoApproveRule → List String
  validate_auto_approve a =
      report
        (not (a.max_sensitivity == sensitivity_low)
          && not (a.max_sensitivity == sensitivity_medium))
        "auto_approve.max_sensitivity must be low or medium"
      ++ (report
            (not (is_positive a.max_duration_seconds)
              || ltb_ℤ (pos max_auto_approve_duration) a.max_duration_seconds)
            ("auto_approve.max_duration_seconds must be 1-" +++ decimal max_auto_approve_duration)
          ++ (report_hours "auto_approve.hours_utc" a.hours_utc
              ++ validate_cidrs "auto_approve.source_cidrs" a.source_cidrs))

  abbrev pub validate_escalate : EscalateRule → List String
  validate_escalate e =
      unknown_levels e.sensitivities
      ++ (report_hours "escalate.outside_hours_utc" e.outside_hours_utc
          ++ validate_cidrs "escalate.source_outside_cidrs" e.source_outside_cidrs)

  -- `(*RiskPolicy).Validate`: the errors that are joined, none where the policy is accepted.
  unfoldable pub validate : RiskPolicy → List String
  unfolding validate_cidrs unknown_levels
  validate p =
      (if p.auto_approve.enabled then validate_auto_approve p.auto_approve else [])
      ++ (if p.escalate.enabled then validate_escalate p.escalate else [])

  abbrev pub cidr_has : ℕ → String → Bool
  cidr_has addr c = elim (net.parse_cidr c) [ none ↦ false | some has ↦ has addr ]

  unfoldable pub ip_in : String → List String → Bool
  ip_in ip cidrs = elim (net.parse_ip ip) [ none ↦ false | some addr ↦ any (cidr_has addr) cidrs ]

  abbrev pub outside_networks : String → List String → Bool
  outside_networks ip cidrs = not (is_empty cidrs) && not (ip_in ip cidrs)

  unfoldable pub escalate_reasons : EscalateRule → RiskSignals → List String
  unfolding ip_in or_unknown
  escalate_reasons e s =
      report (contains_text e.sensitivities s.target_sensitivity)
        ("target sensitivity is " +++ s.target_sensitivity)
      ++ (report (outside_hours e.outside_hours_utc s.hour_utc)
            (hours_text e.outside_hours_utc s.hour_utc)
          ++ (report (e.without_mfa && not s.mfa_enrolled) "requester has no MFA enrolled"
              ++ report (outside_networks s.source_ip e.source_outside_cidrs)
                  ("source " +++ or_unknown s.source_ip +++ " is outside the trusted networks")))

  unfoldable pub account_reasons : List String → List String → List String
  account_reasons allowed [] = []
  account_reasons allowed (u ∷ us) =
      report (not (contains_text allowed u)) ("account " +++ u +++ " is not auto-approvable")
      ++ account_reasons allowed us

  abbrev pub above : String → String → Bool
  above s max = elim (sensitivity_rank s) [ none ↦ true | some r ↦ ltb (rank_or_zero max) r ]

  unfoldable pub failed_reasons : AutoApproveRule → RiskSignals → List String → ℤ → List String
  unfolding ip_in or_unknown account_reasons
  failed_reasons a s remote_users duration =
      report (above s.target_sensitivity a.max_sensitivity)
        ("target sensitivity " +++ s.target_sensitivity +++ " is above " +++ a.max_sensitivity)
      ++ (report (not (is_positive duration) || ltb_ℤ a.max_duration_seconds duration) (
            "duration "
            +++ decimal_ℤ duration
            +++ "s is not within 1-"
            +++ decimal_ℤ a.max_duration_seconds
            +++ "s")
          ++ (report (outside_hours a.hours_utc s.hour_utc) (hours_text a.hours_utc s.hour_utc)
              ++ (report (outside_networks s.source_ip a.source_cidrs)
                    ("source " +++ or_unknown s.source_ip +++ " is not in an allowed network")
                  ++ (report (a.require_mfa && not s.mfa_enrolled) "requester has no MFA enrolled"
                      ++ (if is_empty a.remote_users
                          then []
                          else account_reasons a.remote_users remote_users)))))

  abbrev pub decision : String → List String → RiskDecision
  decision o reasons = record { outcome = o; reasons = reasons }

  unfoldable pub evaluate_auto_approve :
      AutoApproveRule → RiskSignals → List String → ℤ → RiskDecision
  unfolding failed_reasons
  evaluate_auto_approve a s remote_users duration =
      if not a.enabled
      then decision outcome_manual ("auto-approval is off" ∷ [])
      else if is_empty (failed_reasons a s remote_users duration)
      then decision outcome_auto_approve (
          ("low risk: "
            +++ s.target_sensitivity
            +++ "-sensitivity target, "
            +++ decimal_ℤ duration
            +++ "s, from "
            +++ or_unknown s.source_ip)
          ∷ [])
      else decision outcome_manual (failed_reasons a s remote_users duration)

  unfoldable pub evaluate_risk :
      Option RiskPolicy → Option RiskSignals → List String → ℤ → RiskDecision
  unfolding escalate_reasons evaluate_auto_approve
  evaluate_risk (some p) (some s) remote_users duration =
      if p.escalate.enabled && not (is_empty (escalate_reasons p.escalate s))
      then decision outcome_escalate (escalate_reasons p.escalate s)
      else evaluate_auto_approve p.auto_approve s remote_users duration
  evaluate_risk _ _ remote_users duration = decision outcome_manual ("no risk policy" ∷ [])
