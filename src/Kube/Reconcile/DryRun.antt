-- ===== src/Kube/Reconcile/DryRun.antt =====
-- A dry run of a reconciliation: pkg/server/kube.go.
use orion_belt.Prelude.{
  Bool, Bool-cases, List, Option, String, [], arith, false, inl, inr, none, refl, some, suc, true,
  ℕ, ◌==◌, ◌∷◌, ◌≡◌,
}
use orion_belt.Kube.Reconcile.{
  KubeAgent, desired_kube_bindings, kube_grant, kube_grants, reconcile_kube,
}
use orion_belt.Apperr.{Error, Result, Result-cases, err, ok}
use orion_belt.World.{Env, World, step}
use orion_belt.Types.{Permission}
use orion_belt.Kube.Binding.{Grant, Plan, diff}
use orion_belt.Store.{get_user}
use orion_belt.Store.Listing.{list_machine_permissions}
use orion_belt.Access.{access_type_k8s}

module _ (env : Env) where
  get_user-step : (id : String) (w : World) → (get_user env id w).1 ≡ step w
  unfolding get_user
  get_user-step id w = ground arith

  list_step : (id : String) (w : World) → (list_machine_permissions env id w).1 ≡ step w
  unfolding list_machine_permissions
  list_step id w = ground arith

  kube_grant-ticks :
      (p : Permission) (w : World)
      → (g : Option Grant) × (n : ℕ) × (kube_grant env p w ≡ (ok g, record w { tick = n }))
  unfolding kube_grant
  kube_grant-ticks p w = elim (Bool-cases (p.access_type == access_type_k8s)) [
    | inr other ↦ (none, w.tick, ground (arith, other))
    | inl k8s ↦ elim (Result-cases (get_user env p.user_id w).0) [
      | inl (e, missing) ↦
          (none, suc w.tick, ground (arith, k8s, missing, get_user-step p.user_id w))
      | inr (u, found) ↦ (
        some (record {
          permission_id = p.id;
          username = u.username;
          scopes = p.remote_users;
          expires_at = p.expires_at;
        }),
        suc w.tick,
        ground (arith, k8s, found, get_user-step p.user_id w),
      )
    ]
  ]

  kube_grants-ticks :
      (ps : List Permission) (w : World)
      → (gs : List Grant) × (n : ℕ) × (kube_grants env ps w ≡ (ok gs, record w { tick = n }))
  unfolding kube_grants
  kube_grants-ticks [] w = ([], w.tick, refl)
  kube_grants-ticks (p ∷ ps) w =
      let (g, n, first) = kube_grant-ticks p w in
      let (gs, k, rest) = kube_grants-ticks ps (record w { tick = n }) in
      (elim g [ none ↦ gs | some x ↦ x ∷ gs ], k, ground (arith, first, rest))

module _ (env : Env) (digest quote : String → String) where
  desired_kube_bindings-ticks :
      (machine_id : String) (w : World)
      → (n : ℕ) × ((desired_kube_bindings env digest quote machine_id w).1 ≡ record w { tick = n })
  unfolding desired_kube_bindings
  desired_kube_bindings-ticks machine_id w =
      let listed = list_step env machine_id w in
      elim (Result-cases (list_machine_permissions env machine_id w).0) [
        | inl (e, fails) ↦ (suc w.tick, ground (arith, fails, listed))
        | inr (ps, reads) ↦
            let (gs, n, grants) = kube_grants-ticks env ps (step w) in
            (n, ground (arith, reads, listed, grants))
      ]

module _ (env : Env) (agent : KubeAgent) (digest quote : String → String) where
  -- What a call gives back: an error, or a plan with no failure and the cluster as it was.
  abbrev pub IsReport : agent.Cluster → Result (Plan × (List Error × agent.Cluster)) → Type 0
  IsReport c (err e) = Unit
  IsReport c (ok (p, (failed, d))) = (failed ≡ []) × (d ≡ c)

  -- A dry run changes neither the cluster nor any table, whatever the agent and the database
  -- answer: it takes steps only, and gives back an error or a plan without a failure.
  pub reconcile_kube-dry_run :
      (machine_id : String) (connected : Bool) (c : agent.Cluster) (w : World)
      → (n : ℕ) × ((reconcile_kube env agent digest quote machine_id connected true c w).1
          ≡ record w { tick = n })
        × IsReport c (reconcile_kube env agent digest quote machine_id connected true c w).0
  unfolding reconcile_kube
  reconcile_kube-dry_run machine_id false c w = (w.tick, refl, tt)
  reconcile_kube-dry_run machine_id true c w =
      let (n, ticks) = desired_kube_bindings-ticks env digest quote machine_id w in
      elim (Result-cases (desired_kube_bindings env digest quote machine_id w).0) [
        | inl (e, fails) ↦
            let whole : reconcile_kube env agent digest quote machine_id true true c w
                ≡ (err e, record w { tick = n }) =
              ground (arith, fails, ticks) in
            (n, rw whole refl, rw whole tt)
        | inr (ds, reads) ↦ elim (Result-cases (agent.list_op c)) [
          | inl (e, fails) ↦
              let whole : reconcile_kube env agent digest quote machine_id true true c w
                  ≡ (err e, record w { tick = n }) =
                ground (arith, reads, ticks, fails) in
              (n, rw whole refl, rw whole tt)
          | inr (actual, lists) ↦
              let whole : reconcile_kube env agent digest quote machine_id true true c w
                  ≡ (ok (diff ds actual (env.clock n), ([], c)), record w { tick = suc n }) =
                ground (arith, reads, ticks, lists) in
              (suc n, rw whole refl, rw whole (refl, refl))
        ]
      ]
