-- ===== src/Kube/Agent.antt =====
-- The in-cluster agent: pkg/agent/kube.go.
pub mod Sweep
use orion_belt.Prelude.{
  Bool, List, Option, String, [], if◌then◌else◌, none, not, some, suc, ℕ, ◌&&◌, ◌==◌, ◌||◌, ◌∷◌,
}
use orion_belt.Apperr.{Error, Result, err, ok, plain, ◌+++◌}
use orion_belt.Kube.Binding.{Binding, expired}
use orion_belt.Kube.Client.{ApiServer, TimeText, apply_binding, delete_binding, list_bindings}

pub record Request : Type 0 where
  pub op : String
  pub user : String
  pub binding : Option Binding

-- What the gateway gets: its channel is refused, kubectl traffic flows or ends at once, or the
-- bindings or the error of an operation are written.
pub data KubeReply : Type 0 where
  channel_rejected : String → KubeReply
  proxying : String → KubeReply
  closed : KubeReply
  written : List Binding → Option Error → KubeReply

abbrev written_list : Result (List Binding) → KubeReply
written_list (ok bs) = written bs none
written_list (err e) = written [] (some e)

-- `relay user` is what the kubectl traffic of a user does to the cluster, until the stream of
-- `kube.ServeStream` ends: it is the user's to choose and the API server's to carry out.
module _ (times : TimeText) (quote : String → String) (api : ApiServer)
    (relay : String → api.State → api.State) where
  abbrev written_error : Option Error × api.State → KubeReply × api.State
  written_error (e, s) = (written [] e, s)

  -- One operation on a cluster that is served; `begins` says whether the agent still takes work.
  unfoldable pub serve_kube : Request → Bool → api.State → KubeReply × api.State
  unfolding list_bindings apply_binding delete_binding
  serve_kube r begins s =
      if r.op == "proxy"
      then (if begins then (proxying r.user, relay r.user s) else (closed, s))
      else if r.op == "list"
      then (written_list (list_bindings times quote api s), s)
      else if r.op == "apply" || r.op == "delete"
      then elim r.binding [
        | none ↦ (written [] (some (plain (r.op +++ " needs a binding"))), s)
        | some b ↦
            if r.op == "apply"
            then written_error (apply_binding times quote api b s)
            else written_error (delete_binding times quote api b s)
      ]
      else (written [] (some (plain ("unknown operation " +++ quote r.op))), s)

  -- `handleKube`, for a request that could be read and a channel that is accepted; `usable` says
  -- whether the agent has a client.
  unfoldable pub handle_kube : Bool → Bool → Bool → Request → api.State → KubeReply × api.State
  unfolding serve_kube
  handle_kube usable draining begins r s =
      if not usable
      then (channel_rejected "kubernetes is not enabled on this agent", s)
      else if r.op == "proxy" && r.user == ""
      then (channel_rejected "proxy needs a user", s)
      else if r.op == "proxy" && draining
      then (channel_rejected "agent is draining for maintenance; try again shortly", s)
      else serve_kube r begins s

  abbrev pub count_deleted : Option Error → ℕ × api.State → ℕ × api.State
  count_deleted none (n, s) = (suc n, s)
  count_deleted (some e) (n, s) = (n, s)

  -- The bindings that `sweepKube` deletes, with the count of the calls that succeed.
  unfoldable pub sweep_each : ℕ → List Binding → api.State → ℕ × api.State
  unfolding delete_binding expired
  sweep_each now [] s = (0, s)
  sweep_each now (b ∷ bs) s =
      if expired now b
      then count_deleted (delete_binding times quote api b s).0
          (sweep_each now bs (delete_binding times quote api b s).1)
      else sweep_each now bs s

  -- `sweepKube`, of an agent that has a client.
  unfoldable pub sweep_kube : ℕ → api.State → ℕ × api.State
  unfolding list_bindings sweep_each
  sweep_kube now s = elim (list_bindings times quote api s) [
    | err e ↦ (0, s)
    | ok bs ↦ sweep_each now bs s
  ]
