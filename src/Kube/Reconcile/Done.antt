-- ===== src/Kube/Reconcile/Done.antt =====
-- A reconciliation with an agent that works: pkg/server/kube.go.
use orion_belt.Prelude.{
  Bool, Bool-cases, List, Option, String, [], arith, eq_refl, false, if◌then◌else◌, inl, inr, keep,
  none, refl, some, subst, text_cases, true, ℕ, ◌∷◌, ◌≡◌,
}
use orion_belt.Kube.Reconcile.{KubeAgent}
use orion_belt.Kube.Binding.{Binding, have, key, or_else, same_second, same_spec}
use orion_belt.Kube.Converge.{has_key, plan}
use orion_belt.Kube.Reconcile.Carried.{IsWorking, stored_form}
use orion_belt.World.{World}

pub same_spec_self : (b : Binding) → same_spec b b ≡ true
unfolding same_spec
same_spec_self b =
    rw (eq_refl b.cluster_role, eq_refl b.subject, eq_refl b.permission) (self b.expires_at)
  where
    self : (e : Option ℕ) → same_second e e ≡ true
    self none = refl
    self (some e) = ground arith

pub have-drop :
    (f : String → Bool) (xs : List Binding) (k : String)
    → f k ≡ false
    → have (keep (λ a. f (key a)) xs) k ≡ none
unfolding have
have-drop f [] k h = refl
have-drop f (x ∷ xs) k h = elim (Bool-cases (f (key x))) [
  | inl e ↦ elim (text_cases (key x) k) [
    | inl i ↦ absurd (cc (subst (λ s. f s ≡ true) i e, h))
    | inr i ↦ rw (e, i, have-drop f xs k h) refl
  ]
  | inr e ↦ rw e (have-drop f xs k h)
]

module _ (ds actual : List Binding) (now : ℕ) where
  module _ (agent : KubeAgent) (works : IsWorking agent) where
    -- What is found under a key after the operations of the plan.
    abbrev pub left : String → Option Binding
    left k =
        if has_key (plan ds actual now).delete k
        then none
        else or_else (stored_form agent works (have (plan ds actual now).update k))
            (or_else (stored_form agent works (have (plan ds actual now).create k)) (have actual k))
