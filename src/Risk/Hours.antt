-- ===== src/Risk/Hours.antt =====
-- The windows of hours: `HourRange` of pkg/common/risk_policy.go.
use orion_belt.Risk.Policy.{contains_hour, hours_invalid}
use orion_belt.Prelude.{
  arith, false, if◌then◌else◌, leb, not, pos, true, ℕ, ◌%◌, ◌+◌, ◌-◌, ◌<◌, ◌↔◌, ◌≡◌, ◌≢◌,
}

-- The hours of a window, whether it wraps midnight or not.
abbrev pub window_length : ℕ → ℕ → ℕ
window_length start end = if leb start end then end - start else end + 24 - start

-- A window that passes the validation holds exactly the hours that come after its start, counted
-- round the clock, and before its length: one that wraps midnight too, and {0, 24} is the whole day.
pub contains_hour-window :
    (start end hour : ℕ)
    → hours_invalid (record { start = pos start; end = pos end }) ≡ false
    → hour < 24
    → (contains_hour (record { start = pos start; end = pos end }) hour ≡ true)
      ↔ ((hour + 24 - start) % 24 < window_length start end)
unfolding hours_invalid contains_hour
contains_hour-window start end hour v h = (λ c. ground arith, λ c. ground arith)

-- A validated window and the window with its ends exchanged share no hour and miss none, where both
-- are windows.
pub contains_hour_complement :
    (start end hour : ℕ)
    → start ≢ end
    → contains_hour (record { start = pos end; end = pos start }) hour
      ≡ not (contains_hour (record { start = pos start; end = pos end }) hour)
unfolding contains_hour
contains_hour_complement start end hour ne = ground arith
