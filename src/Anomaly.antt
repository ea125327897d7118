-- ===== src/Anomaly.antt =====
-- Flags for unusual sessions: pkg/anomaly/anomaly.go.
pub mod Hours
pub mod Flagged
use orion_belt.Prelude.{
  Bool, CaseMap, List, Option, String, [], any, decimal, eqb, false, if◌then◌else◌, join_with, keep,
  length, ltb, map, none, not, some, suc, true, two_digits, zero, ℕ, ◌%◌, ◌++◌, ◌+◌, ◌/◌, ◌==◌,
  ◌||◌, ◌∷◌,
}
use orion_belt.Apperr.{Error, err, ok, ◌+++◌}
use orion_belt.Types.{Machine, Session}
use orion_belt.Risk.{machine_sensitivity, sensitivity_high}
use orion_belt.World.{M, pure, ◌>>=◌, wrap, attempt}

abbrev pub action_prefix : String
action_prefix = "anomaly."

abbrev pub kind_first_access : String
kind_first_access = "first_time_access"

abbrev pub kind_off_hours : String
kind_off_hours = "off_hours"

abbrev pub history_limit : ℕ
history_limit = 500

abbrev pub min_history : ℕ
min_history = 10

pub record Flag : Type 0 where
  pub kind : String
  pub signal : String

-- An audit entry without its id and time.
pub record Entry : Type 0 where
  pub user_id : String
  pub action : String
  pub resource : String
  pub ip : String
  pub details : List (String × String)

-- `Store`, the part of the database that the detector needs.
pub record AnomalyStore : Type 0 where
  pub list_user_sessions : String → ℕ → ℕ → M (List Session)
  pub create_audit_log : Entry → M (Unit {0})

-- `Hour()` in UTC.
abbrev pub hour_of : ℕ → ℕ
hour_of t = (t / 3600000000000) % 24

abbrev pub has_hour : ℕ → List ℕ → Bool
has_hour h hs = any (λ k. eqb k h) hs

-- The keys of the map, each once.
unfoldable pub usual_hours : List Session → List ℕ
usual_hours [] = []
usual_hours (p ∷ ps) =
    let rest = usual_hours ps in
    if has_hour (hour_of p.start_time) rest then rest else hour_of p.start_time ∷ rest

-- `sort.Ints`
abbrev pub insert_hour : ℕ → List ℕ → List ℕ
insert_hour h [] = h ∷ []
insert_hour h (k ∷ ks) = if ltb k h then k ∷ insert_hour h ks else h ∷ k ∷ ks

unfoldable pub sort_hours : List ℕ → List ℕ
sort_hours [] = []
sort_hours (h ∷ hs) = insert_hour h (sort_hours hs)

-- The inner loop: the last of the consecutive hours that begin with `h`, and what is left.
unfoldable pub run_end : ℕ → List ℕ → ℕ × List ℕ
run_end h [] = (h, [])
run_end h (k ∷ ks) = elim (eqb k (h + 1)) [ true ↦ run_end k ks | false ↦ (h, k ∷ ks) ]

-- The outer loop, one round for each unit of fuel: the first and the last hour of each range, none
-- where the fuel does not suffice.
unfoldable pub hour_ranges : ℕ → List ℕ → Option (List (ℕ × ℕ))
unfolding run_end
hour_ranges fuel [] = some []
hour_ranges zero (h ∷ hs) = none
hour_ranges (suc fuel) (h ∷ hs) =
    let (last, left) = run_end h hs in
    let rest = hour_ranges fuel left in elim rest [ none ↦ none | some rs ↦ some ((h, last) ∷ rs) ]

abbrev pub range_text : ℕ × ℕ → String
range_text (h, last) = if eqb h last then two_digits h else two_digits h +++ "-" +++ two_digits last

-- A list of hours never has more ranges than items.
unfoldable pub format_hours : List ℕ → String
unfolding hour_ranges sort_hours
format_hours hours =
    let sorted = sort_hours hours in
    elim (hour_ranges (length sorted) sorted) [
      | none ↦ ""
      | some rs ↦ join_with ", " (map range_text rs)
    ]

abbrev pub others : Session → List Session → List Session
others session history = keep (λ h. not (h.id == session.id)) history

module _ (cases : CaseMap) where
  unfoldable pub first_access : Session → Machine → List Session → Option Flag
  unfolding machine_sensitivity
  first_access session machine past =
      let sensitivity = machine_sensitivity cases (some machine) in
      if not (sensitivity == sensitivity_high)
      then none
      else if any (λ (p : Session). p.machine_id == session.machine_id) past
      then none
      else some (record {
        kind = kind_first_access;
        signal =
            "first session by this user on " +++ machine.name +++ " (sensitivity " +++ sensitivity
            +++ ")";
      })

-- `usual[(hour+d+24)%24]` for d = -1, 0, 1.
abbrev pub near_usual : ℕ → List ℕ → Bool
near_usual hour usual =
    has_hour ((hour + 23) % 24) usual
    || (has_hour ((hour + 24) % 24) usual || has_hour ((hour + 25) % 24) usual)

unfoldable pub off_hours : Session → List Session → Option Flag
unfolding usual_hours format_hours
off_hours session past =
    let usual = usual_hours past in
    let hour = hour_of session.start_time in
    if ltb (length past) min_history
    then none
    else if near_usual hour usual
    then none
    else some (record {
      kind = kind_off_hours;
      signal =
          "session started at "
          +++ two_digits hour
          +++ ":00 UTC; this user's previous "
          +++ decimal (length past)
          +++ " sessions started at "
          +++ format_hours usual
          +++ " UTC";
    })

abbrev pub option_list : Option Flag → List Flag
option_list none = []
option_list (some f) = f ∷ []

module _ (cases : CaseMap) (store : AnomalyStore) where
  unfoldable pub detect : Session → Machine → M (List Flag)
  unfolding first_access off_hours
  detect session machine = do
    history ←
        wrap ("list sessions of user " +++ session.user_id)
          (store.list_user_sessions session.user_id history_limit 0)
    let past = others session history
    pure (
        option_list (first_access cases session machine past)
        ++ option_list (off_hours session past))

  abbrev pub entry_of : Session → Machine → String → Flag → Entry
  entry_of session machine ip f = record {
    user_id = session.user_id;
    action = action_prefix +++ f.kind;
    resource = "session:" +++ session.id;
    ip = ip;
    details =
        ("signal", f.signal)
        ∷ ("machine_id", session.machine_id)
        ∷ ("machine", machine.name)
        ∷ ("remote_user", session.remote_user)
        ∷ ("session_id", session.id)
        ∷ [];
  }

  unfoldable pub record_flags : Session → Machine → String → List Flag → M (Unit {0})
  record_flags session machine ip [] = pure tt
  record_flags session machine ip (f ∷ fs) = do
    _ ←
        wrap ("record " +++ f.kind +++ " anomaly for session " +++ session.id)
          (store.create_audit_log (entry_of session machine ip f))
    record_flags session machine ip fs

  -- The flags, and the error of recording them.
  unfoldable pub check_session : Session → Machine → String → M (List Flag × Option Error)
  unfolding detect record_flags
  check_session session machine ip = do
    flags ← detect session machine
    done ← attempt (record_flags session machine ip flags)
    pure (flags, elim done [ ok _ ↦ none | err e ↦ some e ])
