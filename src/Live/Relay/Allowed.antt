-- ===== src/Live/Relay/Allowed.antt =====
-- Who gets a kubectl relay: pkg/server/kube.go.
use orion_belt.Prelude.{Any, String, ◌≡◌, ◌⊎◌}
use orion_belt.World.{Env, World}
use orion_belt.Access.{access_type_k8s}
use orion_belt.Auth.Decision.{IsPrivileged, grant_step}
use orion_belt.Store.Permissions.Meaning.{Grants}
use orion_belt.Live.Relay.Runs.{Runs}

module _ (env : Env) where
  -- The user has a privileged role, or a live local grant of kubectl access to the cluster.
  abbrev pub HasKubeAccess : String → String → World → Type 0
  HasKubeAccess user machine_id w =
      IsPrivileged user w
      ⊎ Any
          (λ p.
            Grants (env.db_clock (grant_step env w)) user machine_id access_type_k8s p
            × (p.access_type ≡ access_type_k8s))
          w.permissions
