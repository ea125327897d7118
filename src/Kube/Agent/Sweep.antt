-- ===== src/Kube/Agent/Sweep.antt =====
-- What the in-cluster agent does to its cluster: pkg/agent/kube.go.
use orion_belt.Prelude.{
  Bool, Bool-cases, List, Option, Option-cases, String, [], all, any, ap, arith, eq_iff, false,
  if◌then◌else◌, inl, inr, none, not, refl, some, starts_with, text_cases, true, ℕ, ◌&&◌, ◌==◌,
  ◌||◌, ◌∙◌, ◌∷◌, ◌≡◌, ◌≢◌, ◌⊎◌,
}
use orion_belt.Kube.Client.{
  ApiServer, TimeText, apply_binding, delete_binding, has_mark, list_bindings, validate_apply,
  validate_name,
}
use orion_belt.Kube.Agent.{Request, count_deleted, handle_kube, serve_kube, sweep_each, sweep_kube}
use orion_belt.Kube.Binding.{Binding, expired, have, key}
use orion_belt.Kube.Client.Works.{IsKubernetes, bindings, delete_binding-done, is_valid}
use orion_belt.Apperr.{Error, ok}

-- The name of a binding of the program.
abbrev pub IsOwnName : String → Type 0
IsOwnName name = (starts_with name "orion-" ≡ true) × (has_mark name ≡ false)

module _ (times : TimeText) (quote : String → String) (api : ApiServer) where
  own_name : (b : Binding) → validate_name quote b ≡ none → IsOwnName b.name
  unfolding validate_name
  own_name b h = ground arith

  apply_binding-own :
      (b : Binding) (s : api.State) → ((apply_binding times quote api b s).1 ≡ s) ⊎ IsOwnName b.name
  unfolding validate_apply apply_binding
  apply_binding-own b s = elim (Option-cases (validate_name quote b)) [
    | inl e ↦ inr (own_name b e)
    | inr (f, e) ↦
        let checks : validate_apply quote b ≡ some f = rw (validate_apply, e) refl in
        inl (rw (apply_binding, checks) refl)
  ]

  proxy_refused :
      (draining begins nobody : Bool)
      → ((nobody ≡ false) × (draining ≡ false) × (begins ≡ true))
        ⊎ ((nobody || (draining || not begins)) ≡ true)
  proxy_refused true begins nobody = inr (ground arith)
  proxy_refused false false nobody = inr (ground arith)
  proxy_refused false true true = inr refl
  proxy_refused false true false = inl (refl, refl, refl)

  delete_binding-own :
      (b : Binding) (s : api.State)
      → ((delete_binding times quote api b s).1 ≡ s) ⊎ IsOwnName b.name
  unfolding delete_binding
  delete_binding-own b s = elim (Option-cases (validate_name quote b)) [
    | inl e ↦ inr (own_name b e)
    | inr (f, e) ↦ inl (rw (delete_binding, e) refl)
  ]

  -- A request of the gateway leaves the cluster as it is, unless the agent is set up for it and
  -- either the request relays the kubectl traffic of a user, who is named, while the agent does not
  -- drain, or it names a binding whose name is one of the program's: it begins with "orion-" and
  -- has none of the characters "/", "?" and "#".
  pub handle_kube-own :
      (relay : String → api.State → api.State) (usable draining begins : Bool) (r : Request)
      (s : api.State)
      → ((handle_kube times quote api relay usable draining begins r s).1 ≡ s)
        ⊎ ((usable ≡ true)
            × (((r.op ≡ "proxy") × ((r.user == "") ≡ false) × (draining ≡ false) × (begins ≡ true))
                ⊎ ((r.op ≢ "proxy") × (b : Binding) × (r.binding ≡ some b) × IsOwnName b.name)))
  unfolding handle_kube serve_kube
  handle_kube-own relay false draining begins r s = inl refl
  handle_kube-own relay true draining begins r s = elim (text_cases r.op "proxy") [
    | inl proxy ↦ elim (proxy_refused draining begins (r.user == "")) [
      | inl (u, d, b) ↦ inr (refl, inl (proxy, u, d, b))
      | inr refused ↦
          let same : (r.op == "proxy") ≡ true = (eq_iff r.op "proxy").1 proxy in
          inl (ground (arith, same, refused))
    ]
    | inr other ↦ elim (Option-cases r.binding) [
      | inl e ↦ inl (ground (arith, other, e))
      | inr (b, e) ↦
          let not_proxy : r.op ≢ "proxy" = λ same. cc (other, (eq_iff r.op "proxy").1 same) in
          elim (apply_binding-own b s) [
            | inr own ↦ inr (refl, inr (not_proxy, b, e, own))
            | inl kept ↦ elim (delete_binding-own b s) [
              | inr own ↦ inr (refl, inr (not_proxy, b, e, own))
              | inl kept' ↦ inl (ground (arith, other, e, kept, kept'))
            ]
          ]
    ]
  ]

  module _ (relay : String → api.State → api.State) (k8s : IsKubernetes times quote api) where
    abbrev in_cluster : api.State → List Binding
    in_cluster = bindings times quote api k8s

    -- The binding is past its expiry, under the key.
    abbrev expired_at : ℕ → String → Binding → Bool
    expired_at now k b = expired now b && key b == k

    counted :
        (e : Option Error) (p : ℕ × api.State) → (count_deleted times quote api relay e p).1 ≡ p.1
    counted none (n, s) = refl
    counted (some f) (n, s) = refl

    either_gone :
        (later same : Bool) (old : Option Binding)
        → (if later then none else if same then none else old)
          ≡ (if same || later then none else old)
    either_gone true true old = refl
    either_gone true false old = refl
    either_gone false true old = refl
    either_gone false false old = refl

    sweep_each-done :
        (now : ℕ) (bs : List Binding) (s : api.State) (k : String)
        → all (is_valid times quote api) bs ≡ true
        → have (in_cluster (sweep_each times quote api relay now bs s).1) k
          ≡ (if any (expired_at now k) bs then none else have (in_cluster s) k)
    unfolding sweep_each
    sweep_each-done now [] s k h = refl
    sweep_each-done now (b ∷ bs) s k h =
        let own : is_valid times quote api b ≡ true = ground arith in
        let others : all (is_valid times quote api) bs ≡ true = ground arith in
        let (e, s1) = delete_binding times quote api b s in
        let rest = sweep_each times quote api relay now bs s1 in
        elim (Bool-cases (expired now b)) [
          | inr live ↦ rw live (sweep_each-done now bs s k others)
          | inl past ↦ rw past (
              ap (λ t. have (in_cluster t) k) (counted e rest)
              ∙ sweep_each-done now bs s1 k others
              ∙ ap (λ o. if any (expired_at now k) bs then none else o)
                  ((delete_binding-done times quote api k8s b s own).1 k)
              ∙ either_gone (any (expired_at now k) bs) (key b == k) (have (in_cluster s) k))
        ]

    list_bindings-all : (s : api.State) → list_bindings times quote api s ≡ ok (in_cluster s)
    unfolding list_bindings
    list_bindings-all s = rw (list_bindings, k8s.get_rows s, k8s.get_cluster_rows s) refl

    -- After a sweep no binding that the cluster has is past its expiry, and each one that it had
    -- and that is not is still there. The names of the managed bindings pass the client's checks.
    pub sweep_kube-done :
        (now : ℕ) (s : api.State)
        → all (is_valid times quote api) (in_cluster s) ≡ true
        → ((k : String)
            → have (in_cluster (sweep_kube times quote api relay now s).1) k
              ≡ (if any (expired_at now k) (in_cluster s) then none else have (in_cluster s) k))
    unfolding sweep_kube
    sweep_kube-done now s h k =
        let listed = list_bindings-all s in
        rw (sweep_kube, listed) (sweep_each-done now (in_cluster s) s k h)
