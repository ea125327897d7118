-- ===== src/Kube/Converge.antt =====
-- The managed bindings of a cluster after a plan: pkg/kube/binding.go.
use orion_belt.Prelude.{
  Bool, Bool-cases, List, Option, Option-cases, String, [], any, arith, eq_iff, eq_refl, false, inl,
  inr, keep, none, not, refl, some, subst, sym, text_cases, true, ℕ, ◌&&◌, ◌++◌, ◌==◌, ◌||◌, ◌∙◌,
  ◌∷◌, ◌≡◌,
}
use orion_belt.Kube.Binding.{
  Binding, Plan, diff, expired, have, is_changed, is_missing, key, or_else, plan_empty, same_second,
  same_spec, sort_bindings, want,
}
use orion_belt.Kube.Members.{
  In, In-any, In-append, In-keep, In-sort, any-In, any-sort, keep-In, keep-none, no_bindings-sort,
}

false-true : ¬ (false ≡ true)
false-true h = cc

not-false : (b : Bool) → not b ≡ false → b ≡ true
not-false true h = refl
not-false false h = absurd (cc h)

some_eq : (x c : Binding) → some x ≡ some c → x ≡ c
some_eq x c h = cc h

same_second_refl : (e : Option ℕ) → same_second e e ≡ true
same_second_refl none = refl
same_second_refl (some e) = ground arith

same_spec_refl : (b : Binding) → same_spec b b ≡ true
unfolding same_spec
same_spec_refl b =
    rw (eq_refl b.cluster_role, eq_refl b.subject, eq_refl b.permission)
      (same_second_refl b.expires_at)

-- A binding of the list has the key.
abbrev pub has_key : List Binding → String → Bool
has_key bs k = any (λ b. key b == k) bs

-- The managed bindings of a cluster after the plan: an update replaces the binding with its key, a
-- deletion removes it.
abbrev pub carried_out : Plan → List Binding → List Binding
carried_out p actual =
    keep (λ a. not (has_key p.delete (key a)) && not (has_key p.update (key a))) actual
    ++ (p.create ++ p.update)

pub or_else_assoc : (a b c : Option Binding) → or_else (or_else a b) c ≡ or_else a (or_else b c)
or_else_assoc none b c = refl
or_else_assoc (some x) b c = refl

pub or_else-none : (a : Option Binding) → or_else a none ≡ a
or_else-none none = refl
or_else-none (some x) = refl

pub have-append :
    (xs ys : List Binding) (k : String) → have (xs ++ ys) k ≡ or_else (have ys k) (have xs k)
unfolding have
have-append [] ys k = sym (or_else-none (have ys k))
have-append (x ∷ xs) ys k = rw (have-append xs ys k) (or_else_assoc (have ys k) (have xs k) _)

pub have-keep :
    (f : String → Bool) (xs : List Binding) (k : String)
    → f k ≡ true
    → have (keep (λ a. f (key a)) xs) k ≡ have xs k
unfolding have
have-keep f [] k h = refl
have-keep f (x ∷ xs) k h = elim (Bool-cases (f (key x))) [
  | inl e ↦ rw e (rw (have-keep f xs k h) refl)
  | inr e ↦ elim (text_cases (key x) k) [
    | inl i ↦ absurd (false-true (sym e ∙ subst (λ s. f s ≡ true) (sym i) h))
    | inr i ↦ rw (e, i, or_else-none) (have-keep f xs k h)
  ]
]

pub have-In :
    (xs : List Binding) (k : String) (c : Binding) → have xs k ≡ some c → In c xs × (key c ≡ k)
unfolding have
have-In [] k c h = absurd (cc h)
have-In (x ∷ xs) k c h = elim (Option-cases (have xs k)) [
  | inr (d, e) ↦ let r = have-In xs k c (e ∙ (rw e at h)) in (inr r.0, r.1)
  | inl e ↦ elim (text_cases (key x) k) [
    | inl i ↦ let j = some_eq x c (rw (e, i, eq_refl k) at h) in (inl j, subst (λ b. key b ≡ k) j i)
    | inr i ↦ absurd (cc (rw (e, i) at h))
  ]
]

pub have-none : (xs : List Binding) (k : String) → have xs k ≡ none → has_key xs k ≡ false
unfolding have
have-none [] k h = refl
have-none (x ∷ xs) k h = ground (arith, have-none xs k)

pub has_key-append :
    (xs ys : List Binding) (k : String) → has_key (xs ++ ys) k ≡ (has_key xs k || has_key ys k)
has_key-append [] ys k = refl
has_key-append (x ∷ xs) ys k = ground (arith, has_key-append xs ys k)

-- An item that passes a test gives its key to the sorted list of those that do.
has_key-planned :
    (p : Binding → Bool) (b : Binding) (bs : List Binding)
    → In b bs
    → p b ≡ true
    → has_key (sort_bindings (keep p bs)) (key b) ≡ true
has_key-planned p b bs i e =
    any-sort (λ x. key x == key b) (keep p bs)
    ∙ In-any (λ x. key x == key b) b (keep p bs) (keep-In p b bs i e) (eq_refl (key b))

module _ (ds actual : List Binding) (now : ℕ) where
  -- The grants call for at most one live binding with each key.
  abbrev pub KeysDiffer : Type 0
  KeysDiffer =
      (b c : Binding)
      → In b ds
      → In c ds
      → expired now b ≡ false
      → expired now c ≡ false
      → key b ≡ key c
      → b ≡ c

  abbrev pub plan : Plan
  plan = diff ds actual now

  -- What is created or updated is a live binding that the grants call for.
  pub planned-In :
      (c : Binding) → In c (plan.create ++ plan.update) → In c ds × (expired now c ≡ false)
  unfolding diff
  planned-In c h = elim (In-append c plan.create plan.update h) [
    | inl i ↦
        let r = In-keep (λ b. not (expired now b) && is_missing actual b) c ds (In-sort c _ i) in
        (r.0, ground (arith, r.1))
    | inr i ↦
        let r = In-keep (λ b. not (expired now b) && is_changed actual b) c ds (In-sort c _ i) in
        (r.0, ground (arith, r.1))
  ]

  pub In-want : (b : Binding) → In b ds → expired now b ≡ false → want now ds (key b) ≡ true
  unfolding want
  In-want b i l =
      In-any (λ d. not (expired now d) && key d == key b) b ds i (rw l (eq_refl (key b)))

  -- Every binding of the cluster is then one that the grants call for.
  pub carried_out-want : (a : Binding) → In a (carried_out plan actual) → want now ds (key a) ≡ true
  unfolding diff
  carried_out-want a h = elim (In-append a _ (plan.create ++ plan.update) h) [
    | inr i ↦ let r = planned-In a i in In-want a r.0 r.1
    | inl i ↦
        let r =
          In-keep (λ x. not (has_key plan.delete (key x)) && not (has_key plan.update (key x))) a
            actual i in
        elim (Bool-cases (want now ds (key a))) [
          | inl w ↦ w
          | inr w ↦ absurd (
              false-true (
                ground (
                  arith,
                  r.1,
                  has_key-planned (λ x. not (want now ds (key x))) a actual r.0 (rw w refl),
                )))
        ]
  ]

  absent_create :
      (b : Binding)
      → In b ds
      → expired now b ≡ false
      → has_key plan.create (key b) ≡ false
      → is_missing actual b ≡ false
  unfolding diff
  absent_create b i l f = elim (Bool-cases (is_missing actual b)) [
    | inr m ↦ m
    | inl m ↦ absurd (
        false-true (
          sym f
          ∙ has_key-planned (λ d. not (expired now d) && is_missing actual d) b ds i
              (rw (l, m) refl)))
  ]

  absent_update :
      (b : Binding)
      → In b ds
      → expired now b ≡ false
      → has_key plan.update (key b) ≡ false
      → is_changed actual b ≡ false
  unfolding diff
  absent_update b i l f = elim (Bool-cases (is_changed actual b)) [
    | inr m ↦ m
    | inl m ↦ absurd (
        false-true (
          sym f
          ∙ has_key-planned (λ d. not (expired now d) && is_changed actual d) b ds i
              (rw (l, m) refl)))
  ]

  -- A live binding that the plan neither creates nor updates is there already.
  settled :
      (b : Binding)
      → is_missing actual b ≡ false
      → is_changed actual b ≡ false
      → (c : Binding) × ((have actual (key b) ≡ some c) × (same_spec c b ≡ true))
  settled b m u = elim (Option-cases (have actual (key b))) [
    | inl e ↦ absurd (cc (rw (e, is_missing) at m))
    | inr (c, e) ↦ (c, (e, not-false _ (rw (e, is_changed) at u)))
  ]

  -- A key that is called for is not deleted.
  pub kept_key : (k : String) → want now ds k ≡ true → has_key plan.delete k ≡ false
  unfolding diff
  kept_key k w = elim (Bool-cases (has_key plan.delete k)) [
    | inr m ↦ m
    | inl m ↦
        let r = any-In (λ b. key b == k) plan.delete m in
        let q = In-keep (λ b. not (want now ds (key b))) r.0 actual (In-sort r.0 _ r.1.0) in
        absurd (cc (rw ((eq_iff _ _).0 r.1.1, w) at q.1))
  ]

  -- Every live binding that the grants call for is then there, as they call for it.
  pub have-carried_out :
      (b : Binding)
      → KeysDiffer
      → In b ds
      → expired now b ≡ false
      → (c : Binding) × ((have (carried_out plan actual) (key b) ≡ some c) × (same_spec c b ≡ true))
  unfolding diff
  have-carried_out b k i l =
      let kept =
        keep (λ x. not (has_key plan.delete (key x)) && not (has_key plan.update (key x))) actual in
      let split = have-append kept (plan.create ++ plan.update) (key b) in
      elim (Option-cases (have (plan.create ++ plan.update) (key b))) [
        | inr (c, e) ↦
            let r = have-In _ (key b) c e in
            let q = planned-In c r.0 in
            (
              c,
              (
                split ∙ rw e refl,
                subst (λ x. same_spec c x ≡ true) (k c b q.0 i q.1 l r.1) (same_spec_refl c),
              ),
            )
        | inl e ↦
            let free =
              sym (has_key-append plan.create plan.update (key b))
              ∙ have-none (plan.create ++ plan.update) (key b) e in
            let cur =
              settled b (absent_create b i l (ground (arith, free)))
                (absent_update b i l (ground (arith, free))) in
            let f : (not (has_key plan.delete (key b)) && not (has_key plan.update (key b)))
                ≡ true =
              ground (arith, kept_key (key b) (In-want b i l), free) in
            (
              cur.0,
              (
                split
                    ∙ rw e (
                        have-keep (λ s. not (has_key plan.delete s) && not (has_key plan.update s))
                          actual (key b) f
                        ∙ cur.1.0),
                cur.1.1,
              ),
            )
      ]

  no_more :
      (b : Binding)
      → KeysDiffer
      → In b ds
      → ((not (expired now b) && is_missing (carried_out plan actual) b) ≡ false)
        × ((not (expired now b) && is_changed (carried_out plan actual) b) ≡ false)
  no_more b k i = elim (Bool-cases (expired now b)) [
    | inl e ↦ (rw e refl, rw e refl)
    | inr e ↦
        let r = have-carried_out b k i e in
        (rw (e, is_missing, r.1.0) refl, rw (e, is_changed, r.1.0, r.1.1) refl)
  ]

  -- After the plan is carried out, a second plan at the same time is empty: one round brings any
  -- cluster in line with grants whose live bindings have different keys.
  pub diff-converges : KeysDiffer → plan_empty (diff ds (carried_out plan actual) now) ≡ true
  unfolding diff plan_empty
  diff-converges k =
      let after = carried_out plan actual in
      let c =
        no_bindings-sort (keep (λ b. not (expired now b) && is_missing after b) ds)
        ∙ keep-none _ ds (λ b i. (no_more b k i).0) in
      let u =
        no_bindings-sort (keep (λ b. not (expired now b) && is_changed after b) ds)
        ∙ keep-none _ ds (λ b i. (no_more b k i).1) in
      let d =
        no_bindings-sort (keep (λ b. not (want now ds (key b))) after)
        ∙ keep-none _ after (λ a i. rw (carried_out-want a i) refl) in
      rw (c, u, d) refl
