-- ===== src/Live/Relay.antt =====
-- The kubectl relay of a client's connection: handleClientKube of pkg/server/kube.go, up to the relay
-- itself and after it. Spans and the metadata of audit entries are left out.
pub mod Allowed
pub mod Runs
use orion_belt.Prelude.{Bool, String, if◌then◌else◌, none, some, ◌&&◌}
use orion_belt.Apperr.{Result, err, ok, ◌+++◌}
use orion_belt.Types.{Machine}
use orion_belt.World.{Env, World, step}
use orion_belt.Live.Conn.{ClientConn, acquire, allowed, release, remember}
use orion_belt.Store.{create_audit_log, get_machine_by_name}
use orion_belt.Access.{access_type_k8s}
use orion_belt.Auth.{check_exact_access}

pub data KubeRelay : Type 0 where
  slots_full cluster_unknown relay_denied relay_unavailable relaying : KubeRelay

-- The deferred `cc.release()`; it has an item to take after `acquire`.
abbrev pub released_slot : ClientConn → ClientConn
released_slot c = elim (release c) [ none ↦ c | some d ↦ d ]

-- `machine.ID + "|" + common.AccessTypeK8s`
abbrev pub kube_key : String → String
kube_key machine_id = machine_id +++ "|" +++ access_type_k8s

module _ (env : Env) (agent_ready : String → Bool) (channels_open : Bool) where
  abbrev pub audit_relay : String → String → String → World → World
  audit_relay user_id action machine_id w =
      (create_audit_log env user_id action ("machine:" +++ machine_id) w).1

  -- The rest of the handler, once the access is allowed.
  unfoldable pub connect_kube : String → ClientConn → World → KubeRelay × ClientConn × World
  unfolding create_audit_log release
  connect_kube machine_id c w =
      if agent_ready machine_id && channels_open
      then (relaying, c, audit_relay c.user_id "k8s.access.open" machine_id w)
      else (relay_unavailable, released_slot c, w)

  -- A check that passed is remembered with the time of that.
  unfoldable pub after_check :
      String → ClientConn → Result (Unit {0}) × World → KubeRelay × ClientConn × World
  unfolding connect_kube remember create_audit_log release
  after_check machine_id c (err e, w) =
      (relay_denied, released_slot c, audit_relay c.user_id "k8s.access.denied" machine_id w)
  after_check machine_id c (ok x, w) =
      connect_kube machine_id (remember c (kube_key machine_id) (env.clock w.tick)) (step w)

  unfoldable pub authorize_kube : Machine → ClientConn → World → KubeRelay × ClientConn × World
  unfolding allowed connect_kube after_check check_exact_access
  authorize_kube m c w =
      if allowed c (kube_key m.id) (env.clock w.tick)
      then connect_kube m.id c (step w)
      else after_check m.id c (check_exact_access env c.user_id m.id access_type_k8s (step w))

  abbrev pub found_cluster : ClientConn → Result Machine × World → KubeRelay × ClientConn × World
  unfolding authorize_kube release
  found_cluster c (err e, w) = (cluster_unknown, released_slot c, w)
  found_cluster c (ok m, w) = authorize_kube m c w

  unfoldable pub open_kube_relay : String → ClientConn → World → KubeRelay × ClientConn × World
  unfolding acquire get_machine_by_name authorize_kube release
  open_kube_relay cluster c w =
      let (taken, c1) = acquire c in
      if taken then found_cluster c1 (get_machine_by_name env cluster w) else (slots_full, c1, w)

  -- The end of a relay.
  unfoldable pub close_kube_relay : String → ClientConn → World → ClientConn × World
  unfolding create_audit_log release
  close_kube_relay machine_id c w =
      (released_slot c, audit_relay c.user_id "k8s.access.close" machine_id w)
