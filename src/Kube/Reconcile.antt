-- ===== src/Kube/Reconcile.antt =====
-- A reconciliation of one cluster: pkg/server/kube.go. The cluster is reached through its agent,
-- whose answers to the three operations are a parameter; only one round of a cluster runs at a time
-- (`kubeLocks`).
pub mod Carried
pub mod Settled
pub mod Done
pub mod DryRun
use orion_belt.Prelude.{
  Bool, List, Option, String, [], if◌then◌else◌, none, not, some, ◌++◌, ◌==◌, ◌||◌, ◌∷◌,
}
use orion_belt.Apperr.{Error, Result, err, ok, plain, wrapped, ◌+++◌}
use orion_belt.World.{Env, M, World, attempt, fail, pure, time_now, wrap, ◌>>=◌, ◌>>◌}
use orion_belt.Types.{Permission, User}
use orion_belt.Kube.Binding.{Binding, Grant, Plan, desired, diff, plan_empty}
use orion_belt.Store.{create_audit_log, get_user, get_user_by_username}
use orion_belt.Store.Listing.{list_machine_permissions}
use orion_belt.Access.{access_type_k8s}

-- `kubeOp` on one agent: the answer, and the cluster after it.
pub record KubeAgent : Type 1 where
  pub Cluster : Type 0
  pub list_op : Cluster → Result (List Binding)
  pub apply_op : Binding → Cluster → Option Error × Cluster
  pub delete_op : Binding → Cluster → Option Error × Cluster

abbrev pub user_id_of : Result User → String
user_id_of (ok u) = u.id
user_id_of (err _) = ""

module _ (env : Env) where
  -- One grant of the machine: none for another kind of access, or for a user that cannot be read.
  unfoldable pub kube_grant : Permission → M (Option Grant)
  kube_grant p = if not (p.access_type == access_type_k8s) then pure none else do
    user ← attempt (get_user env p.user_id)
    elim user [
      | err _ ↦ pure none
      | ok u ↦ pure (
          some (record {
            permission_id = p.id;
            username = u.username;
            scopes = p.remote_users;
            expires_at = p.expires_at;
          }))
    ]

  unfoldable pub kube_grants : List Permission → M (List Grant)
  unfolding kube_grant
  kube_grants [] = pure []
  kube_grants (p ∷ ps) = do
    first ← kube_grant p
    rest ← kube_grants ps
    pure (elim first [ none ↦ rest | some g ↦ g ∷ rest ])

  -- `auditKubeBinding`: a failed write is only logged.
  unfoldable pub audit_kube_binding : String → String → Binding → World → World
  unfolding create_audit_log
  audit_kube_binding machine_id action b w =
      let (user, w1) = get_user_by_username env b.user w in
      (create_audit_log env (user_id_of user) action ("machine:" +++ machine_id) w1).1

module _ (env : Env) (digest quote : String → String) where
  unfoldable pub desired_kube_bindings : String → M (List Binding)
  unfolding kube_grants
  desired_kube_bindings machine_id = do
    perms ← wrap "list grants" (list_machine_permissions env machine_id)
    grants ← kube_grants env perms
    pure (desired digest quote grants)

module _ (env : Env) (agent : KubeAgent) where
  -- What a round has done so far, less the metadata of the audit log; the failures stand in the order in which they came.
  pub record Round : Type 0 where
    pub world : World
    pub cluster : agent.Cluster
    pub failed : List Error

  unfoldable pub record_op :
      String → String → String → Binding → Option Error × agent.Cluster → Round → Round
  unfolding audit_kube_binding
  record_op machine_id op action b (none, c) r = record {
    world = audit_kube_binding env machine_id action b r.world;
    cluster = c;
    failed = r.failed;
  }
  record_op machine_id op action b (some e, c) r = record {
    world = audit_kube_binding env machine_id (action +++ "_failed") b r.world;
    cluster = c;
    failed = r.failed ++ (wrapped (op +++ " " +++ b.name) e ∷ []);
  }

  unfoldable pub apply_each : String → String → List Binding → Round → Round
  unfolding record_op
  apply_each machine_id action [] r = r
  apply_each machine_id action (b ∷ bs) r =
      apply_each machine_id action bs
        (record_op machine_id "apply" action b (agent.apply_op b r.cluster) r)

  unfoldable pub delete_each : String → List Binding → Round → Round
  unfolding record_op
  delete_each machine_id [] r = r
  delete_each machine_id (b ∷ bs) r =
      delete_each machine_id bs
        (record_op machine_id "delete" "k8s.binding.delete" b (agent.delete_op b r.cluster) r)

  unfoldable pub carry_out : String → Plan → Round → Round
  unfolding apply_each delete_each
  carry_out machine_id p r = delete_each machine_id p.delete (
      apply_each machine_id "k8s.binding.update" p.update
        (apply_each machine_id "k8s.binding.create" p.create r))

-- `kube.ErrNoAgent`
abbrev pub err_no_agent : Error
err_no_agent = plain "no connected in-cluster Kubernetes agent"

module _ (env : Env) (agent : KubeAgent) (digest quote : String → String) where
  -- `ReconcileKube`: the plan, the failures of its operations, and the cluster; a cluster with no
  -- connected agent, and a list that cannot be read, fail before anything is done.
  unfoldable pub reconcile_kube :
      String → Bool → Bool → agent.Cluster → M (Plan × (List Error × agent.Cluster))
  unfolding desired_kube_bindings carry_out plan_empty diff
  reconcile_kube machine_id connected dry_run c = if not connected then fail err_no_agent else do
    ds ← desired_kube_bindings env digest quote machine_id
    elim (agent.list_op c) [
      | err e ↦ fail e
      | ok actual ↦ do now ← time_now env; round_of c (diff ds actual now)
    ]
    where
      round_of : agent.Cluster → Plan → M (Plan × (List Error × agent.Cluster))
      round_of c plan w =
          if dry_run || plan_empty plan
          then (ok (plan, ([], c)), w)
          else let r =
              carry_out env agent machine_id plan
                (record { world = w; cluster = c; failed = [] }) in
            (ok (plan, (r.failed, r.cluster)), r.world)
