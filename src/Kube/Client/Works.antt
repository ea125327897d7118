-- ===== src/Kube/Client/Works.antt =====
-- The agent's client over a Kubernetes API server that does what its documentation says:
-- pkg/kube/client.go.
use orion_belt.Prelude.{
  Bool, List, Option-cases, String, arith, eq_iff, false, if◌then◌else◌, inl, inr, map, none, refl,
  some, subst, text_cases, true, ◌&&◌, ◌++◌, ◌==◌, ◌≡◌,
}
use orion_belt.Apperr.{ok}
use orion_belt.Kube.Client.{
  ApiServer, Object, TimeText, answer_error, apply_binding, delete_binding, done, from_object,
  has_status, to_object, validate_apply, validate_name,
}
use orion_belt.Kube.Binding.{Binding, have, key}

module _ (times : TimeText) (quote : String → String) (api : ApiServer) where
  -- What a binding is once the cluster has stored it, and the managed bindings of a cluster.
  abbrev pub stored : Binding → Binding
  stored b = from_object times (to_object times b)

  abbrev pub listed :
      (api.State → List Object) → (api.State → List Object) → api.State → List Binding
  listed rows cluster_rows s =
      map (from_object times) (rows s) ++ map (from_object times) (cluster_rows s)

  -- The API server, for an agent whose account may list and remove bindings. A binding that is
  -- admitted, which takes that its namespace exists and that the account may bind its role, is
  -- created under a free name. It replaces the one of its own name only if that has the same role,
  -- since `roleRef` cannot be changed. Creating one under a name that is taken is a conflict (409),
  -- and removing one that is not there is not found (404). No other object has a name of the
  -- program's bindings, and lists are answered.
  pub record IsKubernetes : Type 0 where
    pub rows : api.State → List Object
    pub cluster_rows : api.State → List Object
    pub admits : Binding → api.State → Bool
    pub get_rows : (s : api.State) → api.get true s ≡ ok (rows s)
    pub get_cluster_rows : (s : api.State) → api.get false s ≡ ok (cluster_rows s)
    pub post_new :
        (b : Binding) (s : api.State)
        → admits b s ≡ true
        → have (listed rows cluster_rows s) (key b) ≡ none
        → ((api.post b.namespace (to_object times b) s).0 ≡ done)
          × ((k : String)
              → have (listed rows cluster_rows (api.post b.namespace (to_object times b) s).1) k
                ≡ (if key b == k then some (stored b) else have (listed rows cluster_rows s) k))
    pub post_old :
        (b c : Binding) (s : api.State)
        → have (listed rows cluster_rows s) (key b) ≡ some c
        → (has_status 409 (api.post b.namespace (to_object times b) s).0 ≡ true)
          × ((api.post b.namespace (to_object times b) s).1 ≡ s)
    pub put_old :
        (b c : Binding) (s : api.State)
        → admits b s ≡ true
        → have (listed rows cluster_rows s) (key b) ≡ some c
        → c.cluster_role ≡ b.cluster_role
        → ((api.put b.namespace b.name (to_object times b) s).0 ≡ done)
          × ((k : String)
              → have
                  (listed rows cluster_rows (api.put b.namespace b.name (to_object times b) s).1)
                  k
                ≡ (if key b == k then some (stored b) else have (listed rows cluster_rows s) k))
    pub remove_old :
        (b c : Binding) (s : api.State)
        → have (listed rows cluster_rows s) (key b) ≡ some c
        → ((api.remove b.namespace b.name s).0 ≡ done)
          × ((k : String)
              → have (listed rows cluster_rows (api.remove b.namespace b.name s).1) k
                ≡ (if key b == k then none else have (listed rows cluster_rows s) k))
    pub remove_new :
        (b : Binding) (s : api.State)
        → have (listed rows cluster_rows s) (key b) ≡ none
        → (has_status 404 (api.remove b.namespace b.name s).0 ≡ true)
          × ((api.remove b.namespace b.name s).1 ≡ s)

  -- A binding that passes the checks of `Apply`, which include those of `Delete`.
  abbrev pub is_valid : Binding → Bool
  is_valid b = elim (validate_apply quote b) [ none ↦ true | some e ↦ false ]

  valid_names :
      (b : Binding)
      → is_valid b ≡ true
      → (validate_apply quote b ≡ none) × (validate_name quote b ≡ none)
  unfolding validate_apply
  valid_names b h = ground arith

  module _ (k8s : IsKubernetes) where
    abbrev pub bindings : api.State → List Binding
    bindings = listed k8s.rows k8s.cluster_rows

    -- The server admits the binding, and what it has under the binding's key has its role.
    abbrev pub is_appliable : Binding → api.State → Bool
    is_appliable b s = k8s.admits b s && elim (have (bindings s) (key b)) [
      | none ↦ true
      | some c ↦ c.cluster_role == b.cluster_role
    ]

    -- A binding that passes the checks of `Apply` and can be applied is in the cluster after that,
    -- in the form in which the cluster stores it, and the others stay.
    pub apply_binding-done :
        (b : Binding) (s : api.State)
        → is_valid b ≡ true
        → is_appliable b s ≡ true
        → ((apply_binding times quote api b s).0 ≡ none)
          × ((k : String)
              → have (bindings (apply_binding times quote api b s).1) k
                ≡ (if key b == k then some (stored b) else have (bindings s) k))
    unfolding apply_binding answer_error
    apply_binding-done b s valid able =
        let (checks, named) = valid_names b valid in
        elim (Option-cases (have (bindings s) (key b))) [
          | inl free ↦
              let (created, after) = k8s.post_new b s (ground (arith, able)) free in
              rw (apply_binding, checks, created) (refl, after)
          | inr (c, taken) ↦
              let (taken_status, same) = k8s.post_old b c s taken in
              let (replaced, after) =
                k8s.put_old b c s (ground (arith, able)) taken
                  ((eq_iff c.cluster_role b.cluster_role).0 (ground (arith, able, taken))) in
              rw (apply_binding, checks, taken_status, same, replaced) (refl, after)
        ]

    gone_key :
        (b : Binding) (s : api.State)
        → have (bindings s) (key b) ≡ none
        → (k : String) → have (bindings s) k ≡ (if key b == k then none else have (bindings s) k)
    gone_key b s free k = elim (text_cases (key b) k) [
      | inl e ↦ rw ((eq_iff (key b) k).1 e) (subst (λ j. have (bindings s) j ≡ none) e free)
      | inr other ↦ rw other refl
    ]

    -- A binding that passes the checks is not in the cluster once it is deleted, whether or not it
    -- was there, and the others stay.
    pub delete_binding-done :
        (b : Binding) (s : api.State)
        → is_valid b ≡ true
        → ((delete_binding times quote api b s).0 ≡ none)
          × ((k : String)
              → have (bindings (delete_binding times quote api b s).1) k
                ≡ (if key b == k then none else have (bindings s) k))
    unfolding delete_binding answer_error
    delete_binding-done b s valid =
        let (checks, named) = valid_names b valid in
        elim (Option-cases (have (bindings s) (key b))) [
          | inl free ↦
              let (missing, same) = k8s.remove_new b s free in
              rw (delete_binding, named, missing, same) (refl, λ k. gone_key b s free k)
          | inr (c, there_c) ↦
              let (removed, after) = k8s.remove_old b c s there_c in
              rw (delete_binding, named, removed) (refl, after)
        ]
