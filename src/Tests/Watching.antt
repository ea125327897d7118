-- ===== src/Tests/Watching.antt =====
-- Connections, watchers, unusual sessions and bulk revocations at concrete inputs.
use orion_belt.Prelude.{
  All, List, Option, String, [], any, false, leb, leb→le, length, ltb, map, none, not, pos, refl,
  some, true, ℕ, ◌&&◌, ◌*◌, ◌+◌, ◌↔◌, ◌∷◌, ◌≡◌, ◌≤◌,
}
use orion_belt.Api.Review.{Caller, Notice}
use orion_belt.Live.Conn.Bounded.{Reached, Reached-acquire, acquired, opened}
use orion_belt.Live.Conn.{ClientConn, acquire, new_client_conn, release}
use orion_belt.Api.Bulk.{BulkFailure, bulk_revoke_permissions}
use orion_belt.Live.Hub.{
  Call, SessionHub, finish, new_session_hub, output, run_calls, take_chunk, unwatch, watch,
}
use orion_belt.Anomaly.Flagged.{detect-has_kind, has_kind, is_first, is_near}
use orion_belt.Anomaly.{
  AnomalyStore, Flag, detect, hour_ranges, kind_first_access, kind_off_hours, others,
}
use orion_belt.World.{World}
use orion_belt.Api.Bulk.Revoked.{IsSettled, bulk_revoke_permissions-IsSettled}
use orion_belt.Types.{Session}
use orion_belt.Anomaly.Hours.{expand, hour_ranges_enough}
use orion_belt.Tests.Fixtures.{env, web, world}
use orion_belt.Live.Hub.Open.{IsOpen}
use orion_belt.Live.Hub.Safe.{run_calls-IsOpen}
use orion_belt.Store.Permissions.{delete_permission}
use orion_belt.Apperr.{kind_name, ok}
use orion_belt.Api.Grants.{
  FailedPair, GrantTerms, all_pairs, bulk_grant_permissions, bulk_granted, grant_lifetime,
}
use orion_belt.Api.Grants.Counted.{Outcomes, bulk_grant_permissions-counts}
use orion_belt.Auth.{seconds_to_duration}
use orion_belt.Api.Submit.{validate_grant_targets}
use orion_belt.Tests.Policies.{cases}

abbrev conn : ClientConn
conn = new_client_conn "alice" "alice" 60 1

abbrev busy : ClientConn
busy = (acquire conn).1

busy-Reached : Reached (λ k t. Unit) "alice" "alice" 60 1 1 busy
unfolding acquire new_client_conn
busy-Reached = acquired opened refl

abbrev slots_held : ℕ
slots_held = 1

Reached-acquire_example :
    (slots_held ≤ slots_held)
    × ((acquire busy).0 ≡ ltb slots_held slots_held)
    × ((release busy ≡ none) ↔ (slots_held ≡ 0))
Reached-acquire_example = Reached-acquire busy-Reached

abbrev calls : List Call
calls =
    watch "s"
    ∷ output "s" (1 ∷ 2 ∷ [])
    ∷ watch "s"
    ∷ output "s" (3 ∷ [])
    ∷ take_chunk 0
    ∷ unwatch "s" 0
    ∷ unwatch "s" 0
    ∷ finish "s"
    ∷ output "s" (4 ∷ [])
    ∷ []

run_calls-IsOpen_example : (h : SessionHub) × (run_calls calls new_session_hub ≡ some h) × IsOpen h
run_calls-IsOpen_example = run_calls-IsOpen calls

hour_ranges_enough_example :
    (rs : List (ℕ × ℕ)) × (hour_ranges 4 (8 ∷ 9 ∷ 10 ∷ 14 ∷ []) ≡ some rs)
    × (expand rs ≡ 8 ∷ 9 ∷ 10 ∷ 14 ∷ [])
hour_ranges_enough_example = hour_ranges_enough 4 (8 ∷ 9 ∷ 10 ∷ 14 ∷ []) (leb→le 4 4 refl)

abbrev session_at : ℕ → Session
session_at hour = record {
  id = "s";
  user_id = "alice";
  machine_id = "web";
  remote_user = "root";
  source = "ssh";
  start_time = hour * 3600000000000;
  end_time = none;
  recording_path = "";
  status = "active";
  created_at = 0;
}

abbrev mornings : List Session
mornings = map session_at (8 ∷ 9 ∷ 8 ∷ 9 ∷ 8 ∷ 9 ∷ 8 ∷ 9 ∷ 8 ∷ 23 ∷ [])

-- A store that has the ten sessions, and the session itself.
abbrev session_store : AnomalyStore
session_store = record {
  list_user_sessions =
      λ user_id limit offset w. (ok (record (session_at 15) { id = "s15" } ∷ mornings), w);
  create_audit_log = λ e w. (ok tt, w);
}

detect-has_kind_example :
    let session = record (session_at 15) { id = "s15" } in
    let past = others session (session ∷ mornings) in
    (fs : List Flag) × (detect cases session_store session web world ≡ (ok fs, world))
    × (has_kind kind_off_hours fs ≡ (leb 10 (length past) && not (any (is_near 15) past)))
    × (has_kind kind_first_access fs ≡ is_first cases session web past)
detect-has_kind_example =
    detect-has_kind cases session_store (record (session_at 15) { id = "s15" }) web
      (record (session_at 15) { id = "s15" } ∷ mornings) world world refl

abbrev admin : Caller
admin = record { user_id = "omar"; role = "operator"; is_admin = false }

abbrev missing : BulkFailure
missing = record { permission_id = "p9"; error = "no such grant" }

abbrev after_bulk : World
after_bulk = (bulk_revoke_permissions env admin ("p1" ∷ "p9" ∷ []) world).1

bulk_revoke_permissions-IsSettled_example :
    (1 + 1 ≡ 2) × All (IsSettled env admin (missing ∷ []) after_bulk) ("p1" ∷ "p9" ∷ [])
unfolding bulk_revoke_permissions delete_permission kind_name
bulk_revoke_permissions-IsSettled_example =
    bulk_revoke_permissions-IsSettled env admin ("p1" ∷ "p9" ∷ []) world after_bulk 1 (missing ∷ [])
      [] refl

abbrev administrator : Caller
administrator = record { user_id = "omar"; role = "admin"; is_admin = true }

abbrev terms : GrantTerms
terms = record {
  access_type = "ssh";
  remote_users = "deploy" ∷ [];
  expires_at = "";
  duration_sec = none;
}

abbrev no_times : String → Option ℕ
no_times s = none

bulk_grant_permissions-counts_example :
    (gs fs : List FailedPair) × (ns : List Notice) × (u : World) × (bulk_grant_permissions env
        no_times administrator
        ("alice" ∷ "nobody" ∷ [])
        ("web" ∷ [])
        terms
        world
      ≡ (ok (bulk_granted (length gs) fs ns), u))
    × Outcomes env no_times administrator terms none
        (all_pairs ("alice" ∷ "nobody" ∷ []) ("web" ∷ []))
        gs
        fs
        world
        u
    × (length gs + length fs ≡ 2)
unfolding validate_grant_targets grant_lifetime
bulk_grant_permissions-counts_example =
    bulk_grant_permissions-counts env no_times administrator ("alice" ∷ "nobody" ∷ []) ("web" ∷ [])
      terms none world world refl refl refl

-- Seconds beyond the range of a duration wrap around: more than five hundred years become a third
-- of a second.
grant_lifetime_wraps :
    (grant_lifetime env no_times (some (pos 18446744074)) "" world).0 ≡ ok (some 290448384)
unfolding grant_lifetime seconds_to_duration
grant_lifetime_wraps = refl
