-- ===== src/Kube/Reconcile/Settled.antt =====
-- Plans for clusters that look alike: pkg/kube/binding.go.
use orion_belt.Prelude.{
  Bool-cases, List, Option, Option-cases, String, [], arith, eq_iff, eq_refl, false, inl, inr, keep,
  none, not, refl, some, subst, true, ℕ, ◌&&◌, ◌==◌, ◌∙◌, ◌∷◌, ◌≡◌,
}
use orion_belt.Kube.Binding.{
  Binding, diff, expired, have, is_changed, is_missing, key, plan_empty, same_second, same_spec,
  want,
}
use orion_belt.Kube.Members.{In, keep-none, no_bindings-sort}
use orion_belt.Kube.Converge.{
  KeysDiffer, carried_out, carried_out-want, have-In, have-carried_out, plan,
}

-- Nothing under either key, or bindings of one specification and one key.
abbrev pub Alike : Option Binding → Option Binding → Type 0
Alike none none = Unit
Alike none (some y) = ⊥
Alike (some x) none = ⊥
Alike (some x) (some y) = (same_spec x y ≡ true) × (key x ≡ key y)

same_second_trans :
    (a b c : Option ℕ) → same_second a b ≡ true → same_second b c ≡ true → same_second a c ≡ true
same_second_trans none none none h k = refl
same_second_trans none none (some c) h k = k
same_second_trans none (some b) c h k = cc
same_second_trans (some a) none c h k = cc
same_second_trans (some a) (some b) none h k = k
same_second_trans (some a) (some b) (some c) h k = ground arith

eq_trans : (a b c : String) → (a == b) ≡ true → (b == c) ≡ true → (a == c) ≡ true
eq_trans a b c h k = (eq_iff a c).1 ((eq_iff a b).0 h ∙ (eq_iff b c).0 k)

same_spec-parts :
    (x y : Binding)
    → same_spec x y ≡ true
    → ((x.cluster_role == y.cluster_role) ≡ true)
      × (((x.subject == y.subject) ≡ true)
          × (((x.permission == y.permission) ≡ true)
              × (same_second x.expires_at y.expires_at ≡ true)))
unfolding same_spec
same_spec-parts x y h = ground arith

same_spec_trans :
    (x y z : Binding) → same_spec x y ≡ true → same_spec y z ≡ true → same_spec x z ≡ true
unfolding same_spec
same_spec_trans x y z h k =
    let (r, (s, (p, e))) = same_spec-parts x y h in
    let (r', (s', (p', e'))) = same_spec-parts y z k in
    rw
      (
        eq_trans x.cluster_role y.cluster_role z.cluster_role r r',
        eq_trans x.subject y.subject z.subject s s',
        eq_trans x.permission y.permission z.permission p p',
      )
      (same_second_trans x.expires_at y.expires_at z.expires_at e e')

have-some : (a : Binding) (bs : List Binding) → In a bs → (x : Binding) × (have bs (key a) ≡ some x)
unfolding have
have-some a [] i = absurd i
have-some a (b ∷ bs) (inl e) =
    let here : (key b == key a) ≡ true = rw e (eq_refl (key a)) in
    elim (Option-cases (have bs (key a))) [
      | inl h ↦ (b, rw (h, here) refl)
      | inr (x, h) ↦ (x, rw h refl)
    ]
have-some a (b ∷ bs) (inr i) = let (x, h) = have-some a bs i in (x, rw h refl)

Alike-some :
    (o : Option Binding) (c b : Binding)
    → Alike o (some c)
    → same_spec c b ≡ true
    → (y : Binding) × (o ≡ some y) × (same_spec y b ≡ true)
Alike-some none c b h k = absurd h
Alike-some (some y) c b (h, e) k = (y, refl, same_spec_trans y c b h k)

Alike-found :
    (x : Binding) (o : Option Binding)
    → Alike (some x) o
    → (y : Binding) × (o ≡ some y) × (key x ≡ key y)
Alike-found x none h = absurd h
Alike-found x (some y) (h, e) = (y, refl, e)

module _ (ds actual : List Binding) (now : ℕ) where
  module _ (bs : List Binding) (differ : KeysDiffer ds actual now)
      (alike : (k : String)
        → Alike (have bs k) (have (carried_out (plan ds actual now) actual) k)) where
    settled_live :
        (b : Binding)
        → In b ds
        → ((not (expired now b) && is_missing bs b) ≡ false)
          × ((not (expired now b) && is_changed bs b) ≡ false)
    settled_live b i = elim (Bool-cases (expired now b)) [
      | inl e ↦ (rw e refl, rw e refl)
      | inr e ↦
          let (c, (h, spec)) = have-carried_out ds actual now b differ i e in
          let (y, g, same) = Alike-some (have bs (key b)) c b (rw h at (alike (key b))) spec in
          (rw (e, is_missing, g) refl, rw (e, is_changed, g, same) refl)
    ]

    settled_want : (a : Binding) → In a bs → want now ds (key a) ≡ true
    settled_want a i =
        let (x, h) = have-some a bs i in
        let (y, g, e) =
          Alike-found x (have (carried_out (plan ds actual now) actual) (key a))
            (rw h at (alike (key a))) in
        let (there_y, key_y) = have-In (carried_out (plan ds actual now) actual) (key a) y g in
        subst (λ k. want now ds k ≡ true) key_y (carried_out-want ds actual now y there_y)

  -- A plan is empty for a cluster that looks like the one that the plan before it was to leave.
  pub diff-settled :
      (bs : List Binding)
      → KeysDiffer ds actual now
      → ((k : String) → Alike (have bs k) (have (carried_out (plan ds actual now) actual) k))
      → plan_empty (diff ds bs now) ≡ true
  unfolding diff plan_empty
  diff-settled bs differ alike =
      let c =
        no_bindings-sort (keep (λ b. not (expired now b) && is_missing bs b) ds)
        ∙ keep-none _ ds (λ b i. (settled_live bs differ alike b i).0) in
      let u =
        no_bindings-sort (keep (λ b. not (expired now b) && is_changed bs b) ds)
        ∙ keep-none _ ds (λ b i. (settled_live bs differ alike b i).1) in
      let d =
        no_bindings-sort (keep (λ b. not (want now ds (key b))) bs)
        ∙ keep-none _ bs (λ a i. rw (settled_want bs differ alike a i) refl) in
      rw (c, u, d) refl
