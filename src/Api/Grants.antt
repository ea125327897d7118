-- ===== src/Api/Grants.antt =====
-- The grants that an administrator writes: grantPermission of pkg/api/api.go, and grantDuration and
-- bulkGrantPermissions of pkg/api/permissions_bulk.go. Parsing a time is a parameter.
pub mod Counted
use orion_belt.Prelude.{
  Bool, List, Option, String, [], all, decimal, eqb, false, find, if◌then◌else◌, is_positive, leb,
  length, ltb, none, pos_part, some, suc, ℕ, ℤ, ◌&&◌, ◌*◌, ◌++◌, ◌-◌, ◌==◌, ◌∷◌,
}
use orion_belt.Apperr.{Result, err, error_text, ok, plain, ◌+++◌}
use orion_belt.World.{Env, M, attempt, fail, pure, time_now, ◌>>=◌, ◌>>◌}
use orion_belt.Api.Review.{Caller, Notice, kube_grant_changed, record_audit}
use orion_belt.Types.{Permission}
use orion_belt.Access.{access_type_k8s}
use orion_belt.Auth.{grant_permission, seconds_to_duration}
use orion_belt.Api.Submit.{validate_grant_targets}
use orion_belt.Store.Listing.{list_user_permissions}
use orion_belt.Api.Bulk.{max_bulk_grants}
use orion_belt.Store.Permissions.{has_text}

-- The decoded body of a request; a bulk request has lists of users and machines.
pub record GrantTerms : Type 0 where
  pub access_type : String
  pub remote_users : List String
  pub expires_at : String
  pub duration_sec : Option ℤ

pub data GrantAnswer : Type 0 where
  grant_refused : ℕ → String → GrantAnswer
  grant_shown : Permission → GrantAnswer
  grant_made : GrantAnswer

pub record FailedPair : Type 0 where
  pub user_id : String
  pub machine_id : String

pub data BulkGrantAnswer : Type 0 where
  bulk_grant_refused : String → BulkGrantAnswer
  bulk_granted : ℕ → List FailedPair → List Notice → BulkGrantAnswer

abbrev pub is_positive_seconds : Option ℤ → Bool
is_positive_seconds none = false
is_positive_seconds (some d) = is_positive d

abbrev pub seconds_of : Option ℤ → ℕ
seconds_of none = 0
seconds_of (some d) = pos_part d

-- `kubeGrantChanged`
abbrev pub grant_notice : String → String → List Notice
grant_notice machine_id access_type =
    if access_type == access_type_k8s then kube_grant_changed machine_id ∷ [] else []

-- The user and machine of each round of the two loops.
abbrev pub pairs_with : String → List String → List FailedPair
pairs_with user_id [] = []
pairs_with user_id (m ∷ ms) = record { user_id = user_id; machine_id = m } ∷ pairs_with user_id ms

abbrev pub all_pairs : List String → List String → List FailedPair
all_pairs [] ms = []
all_pairs (u ∷ us) ms = pairs_with u ms ++ all_pairs us ms

-- `changed[machineID] = true`
abbrev pub add_changed : String → List String → List String
add_changed m ms = if has_text m ms then ms else m ∷ ms

abbrev pub bulk_one_more :
    String → ℕ × List FailedPair × List String → ℕ × List FailedPair × List String
bulk_one_more m (n, fs, ms) = (suc n, fs, add_changed m ms)

abbrev pub bulk_one_failed :
    FailedPair → ℕ × List FailedPair × List String → ℕ × List FailedPair × List String
bulk_one_failed f (n, fs, ms) = (n, f ∷ fs, ms)

-- The notices for the machines that changed, each told of once.
abbrev pub changed_notices : String → List String → List Notice
changed_notices access_type [] = []
changed_notices access_type (m ∷ ms) = grant_notice m access_type ++ changed_notices access_type ms

module _ (env : Env) (parse_time : String → Option ℕ) where
  unfoldable pub grant_lifetime : Option ℤ → String → M (Option ℕ)
  grant_lifetime duration_sec expires_at =
      if is_positive_seconds duration_sec
      then pure (some (seconds_to_duration (seconds_of duration_sec)))
      else if expires_at == ""
      then pure none
      else elim (parse_time expires_at) [
        | none ↦ fail (plain "expires_at must be RFC3339")
        | some t ↦ do
          now ← time_now env
          if leb t now
              then fail (plain "expires_at must be in the future")
              else pure (some (t - now))
      ]

  abbrev pub latest_grant : String → String → Result (List Permission) → GrantAnswer
  latest_grant machine_id access_type (err _) = grant_made
  latest_grant machine_id access_type (ok ps) =
      elim (find (λ (p : Permission). p.machine_id == machine_id && p.access_type == access_type)
        ps) [ none ↦ grant_made | some p ↦ grant_shown p ]

  unfoldable pub grant_for :
      Caller → String → String → GrantTerms → Option ℕ → M (GrantAnswer × List Notice)
  unfolding grant_permission record_audit list_user_permissions
  grant_for c user_id machine_id t duration = do
    done ←
        attempt
          (grant_permission env user_id machine_id t.access_type t.remote_users c.user_id duration)
    elim done [
      | err _ ↦ pure (grant_refused 500 "failed to grant permission", [])
      | ok _ ↦ do
        _ ← record_audit env c "permission.grant" ("machine:" +++ machine_id)
        perms ← attempt (list_user_permissions env user_id)
        pure (latest_grant machine_id t.access_type perms, grant_notice machine_id t.access_type)
    ]

  -- `grantPermission`
  unfoldable pub handle_grant :
      Caller → String → String → GrantTerms → M (GrantAnswer × List Notice)
  unfolding grant_lifetime grant_for validate_grant_targets
  handle_grant c user_id machine_id t =
      elim (validate_grant_targets env.quote t.access_type t.remote_users) [
        | some e ↦ pure (grant_refused 400 (error_text e), [])
        | none ↦ do
          duration ← attempt (grant_lifetime t.duration_sec t.expires_at)
          elim duration [
            | err e ↦ pure (grant_refused 400 (error_text e), [])
            | ok d ↦ grant_for c user_id machine_id t d
          ]
      ]

  -- One round of the bulk loop.
  unfoldable pub bulk_grant_one :
      Caller → GrantTerms → Option ℕ → FailedPair → M (Result (Unit {0}))
  unfolding grant_permission record_audit
  bulk_grant_one c t duration p = do
    done ← attempt (
        grant_permission env p.user_id p.machine_id t.access_type t.remote_users c.user_id duration)
    elim done [
      | err e ↦ pure (err e)
      | ok _ ↦ do
        _ ← record_audit env c "permission.grant" ("machine:" +++ p.machine_id)
        pure (ok tt)
    ]

  unfoldable pub bulk_grant_all :
      Caller → GrantTerms → Option ℕ → List FailedPair → M (ℕ × List FailedPair × List String)
  unfolding bulk_grant_one
  bulk_grant_all c t duration [] = pure (0, [], [])
  bulk_grant_all c t duration (p ∷ ps) = do
    one ← bulk_grant_one c t duration p
    rest ← bulk_grant_all c t duration ps
    pure (elim one [ err e ↦ bulk_one_failed p rest | ok _ ↦ bulk_one_more p.machine_id rest ])

  abbrev pub bulk_grant_valid : Caller → List FailedPair → GrantTerms → M BulkGrantAnswer
  unfolding grant_lifetime bulk_grant_all
  bulk_grant_valid c ps t = do
    duration ← attempt (grant_lifetime t.duration_sec t.expires_at)
    elim duration [
      | err e ↦ pure (bulk_grant_refused (error_text e))
      | ok d ↦ do
        all ← bulk_grant_all c t d ps
        pure (bulk_granted all.0 all.1 (changed_notices t.access_type all.2))
    ]

  -- `bulkGrantPermissions`
  unfoldable pub bulk_grant_permissions :
      Caller → List String → List String → GrantTerms → M BulkGrantAnswer
  unfolding validate_grant_targets grant_lifetime bulk_grant_all
  bulk_grant_permissions c users machines t =
      let pairs = length users * length machines in
      if eqb pairs 0
      then pure (bulk_grant_refused "user_ids and machine_ids each need at least one entry")
      else if ltb max_bulk_grants pairs
      then pure (
          bulk_grant_refused (
            decimal pairs
            +++ " grants requested; at most "
            +++ decimal max_bulk_grants
            +++ " per request"))
      else elim (validate_grant_targets env.quote t.access_type t.remote_users) [
        | some e ↦ pure (bulk_grant_refused (error_text e))
        | none ↦ bulk_grant_valid c (all_pairs users machines) t
      ]
