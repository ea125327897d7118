-- ===== src/Api/Bulk.antt =====
-- The revocation of many grants at once: bulkRevokePermissions of pkg/api/permissions_bulk.go, with
-- kubeGrantChanged of pkg/api/kube.go.
pub mod Revoked
use orion_belt.Prelude.{
  List, String, [], all, decimal, eqb, if◌then◌else◌, length, ltb, suc, ℕ, ◌++◌, ◌==◌, ◌||◌, ◌∷◌,
}
use orion_belt.Apperr.{Error, Result, err, ok, ◌+++◌}
use orion_belt.Auth.{revoke_permission}
use orion_belt.Api.Review.{Caller, Notice, kube_grant_changed, record_audit}
use orion_belt.World.{Env, M, attempt, pure, ◌>>=◌, ◌>>◌}
use orion_belt.Types.{Permission}
use orion_belt.Access.{access_type_k8s}
use orion_belt.Store.Permissions.{get_permission}
use orion_belt.Store.{is_err_not_found}

abbrev pub max_bulk_grants : ℕ
max_bulk_grants = 500

pub record BulkFailure : Type 0 where
  pub permission_id : String
  pub error : String

pub data BulkAnswer : Type 0 where
  bulk_refused : String → BulkAnswer
  bulk_revoked : ℕ → List BulkFailure → List Notice → BulkAnswer

abbrev pub failure_of : String → Error → BulkFailure
failure_of id e = record {
  permission_id = id;
  error = if is_err_not_found e then "no such grant" else "could not revoke";
}

-- `kubeGrantChanged` with a reconciler, for a grant that was read before it was revoked.
abbrev pub changed_cluster : Result Permission → List Notice
changed_cluster (err _) = []
changed_cluster (ok p) =
    if p.access_type == access_type_k8s then kube_grant_changed p.machine_id ∷ [] else []

abbrev pub one_more :
    List Notice → ℕ × List BulkFailure × List Notice → ℕ × List BulkFailure × List Notice
one_more ns (n, fs, ms) = (suc n, fs, ns ++ ms)

abbrev pub one_failure :
    BulkFailure → ℕ × List BulkFailure × List Notice → ℕ × List BulkFailure × List Notice
one_failure f (n, fs, ms) = (n, f ∷ fs, ms)

module _ (env : Env) where
  -- One round of the loop: the notices of the grant that was revoked, or the failure.
  unfoldable pub bulk_revoke_one : Caller → String → M (Result (List Notice))
  unfolding get_permission revoke_permission record_audit is_err_not_found
  bulk_revoke_one c id = do
    perm ← attempt (get_permission env id)
    done ← attempt (revoke_permission env id)
    elim done [
      | err e ↦ pure (err e)
      | ok _ ↦ do
        _ ← record_audit env c "permission.revoke" ("permission:" +++ id)
        pure (ok (changed_cluster perm))
    ]

  unfoldable pub bulk_revoke_all : Caller → List String → M (ℕ × List BulkFailure × List Notice)
  unfolding bulk_revoke_one is_err_not_found
  bulk_revoke_all c [] = pure (0, [], [])
  bulk_revoke_all c (id ∷ ids) = do
    one ← bulk_revoke_one c id
    rest ← bulk_revoke_all c ids
    pure (elim one [ err e ↦ one_failure (failure_of id e) rest | ok ns ↦ one_more ns rest ])

  unfoldable pub bulk_revoke_permissions : Caller → List String → M BulkAnswer
  unfolding bulk_revoke_all
  bulk_revoke_permissions c ids =
      if eqb (length ids) 0 || ltb max_bulk_grants (length ids)
      then pure
          (bulk_refused ("ids needs between 1 and " +++ decimal max_bulk_grants +++ " entries"))
      else do all ← bulk_revoke_all c ids; pure (bulk_revoked all.0 all.1 all.2)
