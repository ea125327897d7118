-- ===== src/Live/Sessions.antt =====
-- The sessions of the gateway: internal/livesessions/livesessions.go.
pub mod Waiting
use orion_belt.Prelude.{
  Bool, List, Option, String, [], false, if◌then◌else◌, keep, none, not, some, suc, true, zero, ℕ,
  ◌==◌, ◌∷◌,
}

-- `stops` has the ids of the sessions with a stop function, and `waiting` is the counter of the
-- wait group.
pub record Tracker : Type 0 where
  pub closing : Bool
  pub stops : List String
  pub waiting : ℕ

abbrev pub new_tracker : Tracker
new_tracker = record { closing = false; stops = []; waiting = 0 }

abbrev pub without : String → List String → List String
without id ids = keep (λ x. not (x == id)) ids

-- `Begin`
unfoldable pub begin_session : Tracker → String → Bool × Tracker
begin_session l id = if l.closing then (false, l) else (
  true,
  record { closing = l.closing; stops = id ∷ without id l.stops; waiting = suc l.waiting },
)

-- `End`: a counter below zero panics.
unfoldable pub end_session : Tracker → String → Option Tracker
end_session l id = elim l.waiting [
  | zero ↦ none
  | suc n ↦ some (record { closing = l.closing; stops = without id l.stops; waiting = n })
]

-- `Drain` up to the wait: the sessions whose stop function it calls, and the tracker.
unfoldable pub start_drain : Tracker → List String × Tracker
start_drain l = (l.stops, record { closing = true; stops = l.stops; waiting = l.waiting })
