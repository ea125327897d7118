-- ===== src/Kube/Reconcile/Carried.antt =====
-- What a round leaves in a cluster whose agent carries out what it is asked: pkg/server/kube.go.
use orion_belt.Prelude.{
  Bool, List, Option, String, [], all, ap, arith, false, if◌then◌else◌, none, refl, some, true,
  ◌==◌, ◌||◌, ◌∙◌, ◌∷◌, ◌≡◌,
}
use orion_belt.Kube.Reconcile.{KubeAgent, Round, apply_each, carry_out, delete_each, record_op}
use orion_belt.World.{Env}
use orion_belt.Kube.Binding.{Binding, Plan, have, key, or_else, same_spec}
use orion_belt.Apperr.{Error, ok}
use orion_belt.Kube.Converge.{has_key}

-- An agent in touch with its cluster: it lists the managed bindings, a binding that it accepts is
-- carried out: one that is applied is then found under its key in its stored form, with the same specification, and a binding that is
-- deleted is not found; other keys are left alone.
pub record IsWorking (agent : KubeAgent) : Type 0 where
  pub bindings : agent.Cluster → List Binding
  pub accepts : Binding → Bool
  pub stored : Binding → Binding
  pub same_key : (b : Binding) → key (stored b) ≡ key b
  pub spec_kept : (b : Binding) → same_spec (stored b) b ≡ true
  pub lists : (c : agent.Cluster) → agent.list_op c ≡ ok (bindings c)
  pub applies : (b : Binding) (c : agent.Cluster) → accepts b ≡ true → (agent.apply_op b c).0 ≡ none
  pub deletes :
      (b : Binding) (c : agent.Cluster) → accepts b ≡ true → (agent.delete_op b c).0 ≡ none
  pub have_applied :
      (b : Binding) (c : agent.Cluster) (k : String)
      → accepts b ≡ true
      → have (bindings (agent.apply_op b c).1) k
        ≡ (if key b == k then some (stored b) else have (bindings c) k)
  pub have_deleted :
      (b : Binding) (c : agent.Cluster) (k : String)
      → accepts b ≡ true
      → have (bindings (agent.delete_op b c).1) k
        ≡ (if key b == k then none else have (bindings c) k)

module _ (agent : KubeAgent) (works : IsWorking agent) where
  abbrev pub stored_form : Option Binding → Option Binding
  stored_form none = none
  stored_form (some b) = some (works.stored b)

  last_found :
      (b : Binding) (later old : Option Binding) (same : Bool)
      → or_else (stored_form later) (if same then some (works.stored b) else old)
        ≡ or_else (stored_form (or_else later (if same then some b else none))) old
  last_found b none old true = refl
  last_found b none old false = refl
  last_found b (some c) old same = refl

module _ (env : Env) (agent : KubeAgent) (works : IsWorking agent) where
  -- `have` of the cluster of a round.
  abbrev pub found : Round env agent → String → Option Binding
  found r k = have (works.bindings r.cluster) k

  record_op-done :
      (m op a : String) (b : Binding) (x : Option Error × agent.Cluster) (r : Round env agent)
      → x.0 ≡ none
      → ((record_op env agent m op a b x r).cluster ≡ x.1)
        × ((record_op env agent m op a b x r).failed ≡ r.failed)
  unfolding record_op
  record_op-done m op a b (none, c) r h = (refl, refl)
  record_op-done m op a b (some e, c) r h = cc

  apply_each-done :
      (m a : String) (bs : List Binding) (r : Round env agent)
      → all works.accepts bs ≡ true
      → ((apply_each env agent m a bs r).failed ≡ r.failed)
        × ((k : String)
            → found (apply_each env agent m a bs r) k
              ≡ or_else (stored_form agent works (have bs k)) (found r k))
  unfolding apply_each have
  apply_each-done m a [] r h = (refl, λ k. refl)
  apply_each-done m a (b ∷ bs) r h =
      let own : works.accepts b ≡ true = ground arith in
      let others : all works.accepts bs ≡ true = ground arith in
      let one : Round env agent =
        record_op env agent m "apply" a b (agent.apply_op b r.cluster) r in
      let (cluster, failed) =
        record_op-done m "apply" a b (agent.apply_op b r.cluster) r
          (works.applies b r.cluster own) in
      let (no_more, rest) = apply_each-done m a bs one others in
      (
        no_more ∙ failed,
        λ k.
            rest k
            ∙ ap (λ c. or_else (stored_form agent works (have bs k)) (have (works.bindings c) k))
                cluster
            ∙ ap (λ o. or_else (stored_form agent works (have bs k)) o)
                (works.have_applied b r.cluster k own)
            ∙ last_found agent works b (have bs k) (found r k) (key b == k),
      )

  none_left :
      (later same : Bool) (old : Option Binding)
      → (if later then none else if same then none else old) ≡ (if same || later then none else old)
  none_left true true old = refl
  none_left true false old = refl
  none_left false true old = refl
  none_left false false old = refl

  delete_each-done :
      (m : String) (bs : List Binding) (r : Round env agent)
      → all works.accepts bs ≡ true
      → ((delete_each env agent m bs r).failed ≡ r.failed)
        × ((k : String)
            → found (delete_each env agent m bs r) k ≡ (if has_key bs k then none else found r k))
  unfolding delete_each
  delete_each-done m [] r h = (refl, λ k. refl)
  delete_each-done m (b ∷ bs) r h =
      let own : works.accepts b ≡ true = ground arith in
      let others : all works.accepts bs ≡ true = ground arith in
      let one : Round env agent =
        record_op env agent m "delete" "k8s.binding.delete" b (agent.delete_op b r.cluster) r in
      let (cluster, failed) =
        record_op-done m "delete" "k8s.binding.delete" b (agent.delete_op b r.cluster) r
          (works.deletes b r.cluster own) in
      let (no_more, rest) = delete_each-done m bs one others in
      (
        no_more ∙ failed,
        λ k.
            rest k
            ∙ ap (λ c. if has_key bs k then none else have (works.bindings c) k) cluster
            ∙ ap (λ o. if has_key bs k then none else o) (works.have_deleted b r.cluster k own)
            ∙ none_left (has_key bs k) (key b == k) (found r k),
      )

  -- What a plan leaves under a key: nothing if it deletes the key, else what it updated or created,
  -- else what was there.
  pub carry_out-done :
      (m : String) (p : Plan) (r : Round env agent)
      → all works.accepts p.create ≡ true
      → all works.accepts p.update ≡ true
      → all works.accepts p.delete ≡ true
      → ((carry_out env agent m p r).failed ≡ r.failed)
        × ((k : String)
            → found (carry_out env agent m p r) k ≡ (
                if has_key p.delete k
                then none
                else or_else
                    (stored_form agent works (have p.update k))
                    (or_else (stored_form agent works (have p.create k)) (found r k))))
  unfolding carry_out
  carry_out-done m p r hc hu hd =
      let created : Round env agent = apply_each env agent m "k8s.binding.create" p.create r in
      let updated : Round env agent =
        apply_each env agent m "k8s.binding.update" p.update created in
      let (c_failed, c_found) = apply_each-done m "k8s.binding.create" p.create r hc in
      let (u_failed, u_found) = apply_each-done m "k8s.binding.update" p.update created hu in
      let (d_failed, d_found) = delete_each-done m p.delete updated hd in
      (
        d_failed ∙ (u_failed ∙ c_failed),
        λ k.
            d_found k
            ∙ ap (λ o. if has_key p.delete k then none else o)
                (u_found k
                  ∙ ap (λ o. or_else (stored_form agent works (have p.update k)) o) (c_found k)),
      )
