-- ===== src/Kube/Members.antt =====
-- Membership in the lists that pkg/kube/binding.go builds.
use orion_belt.Prelude.{
  Bool, Bool-cases, List, [], any, arith, false, inl, inr, keep, refl, subst, true, ◌++◌, ◌||◌, ◌∷◌,
  ◌≡◌, ◌⊎◌,
}
use orion_belt.Kube.Binding.{Binding, insert_binding, key, key_leb, no_bindings, sort_bindings}

abbrev pub In : Binding → List Binding → Type 0
In b [] = ⊥
In b (c ∷ cs) = (c ≡ b) ⊎ In b cs

module _ (p : Binding → Bool) where
  pub In-keep : (b : Binding) (bs : List Binding) → In b (keep p bs) → In b bs × (p b ≡ true)
  In-keep b [] h = absurd h
  In-keep b (c ∷ cs) h = elim (Bool-cases (p c)) [
    | inl e ↦ elim (rw e at h) [
      | inl i ↦ (inl i, subst (λ x. p x ≡ true) i e)
      | inr t ↦ (inr (In-keep b cs t).0, (In-keep b cs t).1)
    ]
    | inr e ↦ (inr (In-keep b cs (rw e at h)).0, (In-keep b cs (rw e at h)).1)
  ]

  pub keep-In : (b : Binding) (bs : List Binding) → In b bs → p b ≡ true → In b (keep p bs)
  keep-In b [] h e = h
  keep-In b (c ∷ cs) (inl i) e = rw (i, e) (inl refl)
  keep-In b (c ∷ cs) (inr t) e = elim (Bool-cases (p c)) [
    | inl f ↦ rw f (inr (keep-In b cs t e))
    | inr f ↦ rw f (keep-In b cs t e)
  ]

  pub In-any : (b : Binding) (bs : List Binding) → In b bs → p b ≡ true → any p bs ≡ true
  In-any b [] h e = absurd h
  In-any b (c ∷ cs) (inl i) e = rw (i, e) refl
  In-any b (c ∷ cs) (inr t) e = ground (arith, In-any b cs t e)

  pub any-In : (bs : List Binding) → any p bs ≡ true → (b : Binding) × (In b bs × (p b ≡ true))
  any-In [] h = absurd (cc h)
  any-In (c ∷ cs) h = elim (Bool-cases (p c)) [
    | inl e ↦ (c, (inl refl, e))
    | inr e ↦ let r = any-In cs (rw e at h) in (r.0, (inr r.1.0, r.1.1))
  ]

  pub keep-none :
      (bs : List Binding) → ((b : Binding) → In b bs → p b ≡ false) → no_bindings (keep p bs) ≡ true
  keep-none [] h = refl
  keep-none (c ∷ cs) h = rw (h c (inl refl)) (keep-none cs (λ b i. h b (inr i)))

pub In-append : (b : Binding) (xs ys : List Binding) → In b (xs ++ ys) → In b xs ⊎ In b ys
In-append b [] ys h = inr h
In-append b (x ∷ xs) ys (inl i) = inl (inl i)
In-append b (x ∷ xs) ys (inr t) = elim (In-append b xs ys t) [ inl k ↦ inl (inr k) | inr k ↦ inr k ]

any-insert :
    (p : Binding → Bool) (b : Binding) (cs : List Binding)
    → any p (insert_binding b cs) ≡ (p b || any p cs)
unfolding insert_binding key
any-insert p b [] = refl
any-insert p b (c ∷ cs) = ground (arith, any-insert p b cs)

-- Sorting changes neither what is in a list nor whether it is empty.
pub any-sort : (p : Binding → Bool) (bs : List Binding) → any p (sort_bindings bs) ≡ any p bs
unfolding sort_bindings
any-sort p [] = refl
any-sort p (b ∷ bs) = ground (arith, any-insert p b (sort_bindings bs), any-sort p bs)

In-insert : (a b : Binding) (cs : List Binding) → In a (insert_binding b cs) → (b ≡ a) ⊎ In a cs
unfolding insert_binding key
In-insert a b [] h = h
In-insert a b (c ∷ cs) h = elim (Bool-cases (key_leb b c)) [
  | inl e ↦ rw e at h
  | inr e ↦ elim (rw e at h) [
    | inl i ↦ inr (inl i)
    | inr t ↦ elim (In-insert a b cs t) [ inl i ↦ inl i | inr u ↦ inr (inr u) ]
  ]
]

insert-some : (b : Binding) (cs : List Binding) → no_bindings (insert_binding b cs) ≡ false
unfolding insert_binding key
insert-some b [] = refl
insert-some b (c ∷ cs) = ground arith

pub In-sort : (a : Binding) (bs : List Binding) → In a (sort_bindings bs) → In a bs
unfolding sort_bindings insert_binding
In-sort a [] h = h
In-sort a (b ∷ bs) h = elim (In-insert a b (sort_bindings bs) h) [
  | inl e ↦ inl e
  | inr t ↦ inr (In-sort a bs t)
]

pub no_bindings-sort : (bs : List Binding) → no_bindings (sort_bindings bs) ≡ no_bindings bs
unfolding sort_bindings
no_bindings-sort [] = refl
no_bindings-sort (b ∷ bs) = insert-some b (sort_bindings bs)
