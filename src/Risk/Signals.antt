-- ===== src/Risk/Signals.antt =====
-- The sensitivity of a target and the signals of a request: pkg/common/risk.go.
use orion_belt.Prelude.{
  Bool, CaseMap, List, Option, String, [], false, if◌then◌else◌, none, some, trim_space, ℕ, ◌==◌,
  ◌||◌, ◌∷◌,
}
use orion_belt.Types.{Machine, User, RiskSignals}

abbrev pub sensitivity_low : String
sensitivity_low = "low"

abbrev pub sensitivity_medium : String
sensitivity_medium = "medium"

abbrev pub sensitivity_high : String
sensitivity_high = "high"

abbrev pub sensitivity_unset : String
sensitivity_unset = "unset"

-- `v, ok := tags[key]`
unfoldable pub tag : String → List (String × String) → Option String
tag k [] = none
tag k ((j, v) ∷ m) = if j == k then some v else tag k m

-- `tags[key]`: a missing key reads as "".
abbrev pub tag_or_empty : String → List (String × String) → String
tag_or_empty k m = elim (tag k m) [ none ↦ "" | some v ↦ v ]

module _ (cases : CaseMap) where
  unfoldable pub is_pci_in_scope : Option Machine → Bool
  unfolding tag trim_space
  is_pci_in_scope none = false
  is_pci_in_scope (some m) = elim (tag "pci" m.tags) [
    | none ↦ false
    | some v ↦ cases.equal_fold (trim_space v) "in-scope"
  ]

  abbrev pub is_level : String → Bool
  is_level v = v == sensitivity_low || (v == sensitivity_medium || v == sensitivity_high)

  unfoldable pub machine_sensitivity : Option Machine → String
  unfolding tag trim_space is_pci_in_scope
  machine_sensitivity none = sensitivity_unset
  machine_sensitivity (some m) =
      let v = cases.to_lower (trim_space (tag_or_empty "sensitivity" m.tags)) in
      if is_level v
      then v
      else if is_pci_in_scope (some m)
      then sensitivity_high
      else sensitivity_unset

  abbrev pub enrolled : Option User → Bool
  enrolled none = false
  enrolled (some u) = u.mfa_enabled || u.web_authn_enabled

  -- `now` is given with its UTC hour and weekday; `truncate` is the cut of the User-Agent at 200
  -- bytes, which can fall inside a character.
  unfoldable pub new_risk_signals :
      (String → String)
      → String
      → String
      → String
      → Option User
      → Option Machine
      → ℕ
      → ℕ
      → String
      → RiskSignals
  unfolding machine_sensitivity trim_space
  new_risk_signals truncate source_ip user_agent auth_method user target t hour weekday = record {
    source_ip = source_ip;
    device = truncate (trim_space user_agent);
    auth_method = auth_method;
    mfa_enrolled = enrolled user;
    hour_utc = hour;
    weekday = weekday;
    target_sensitivity = machine_sensitivity target;
    collected_at = t;
  }
