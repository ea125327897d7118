-- ===== src/Prelude/Lists.antt =====
-- Lists measured by native numbers, Boolean search, and predicates over all or some items.
use Prim.Native.Nat.{ℕ, zero, suc}
use mathlib.Core.Path.{◌≡◌, refl, ap, sym, subst, ◌∙◌}
use mathlib.Core.Logic.{inl, inr}
use mathlib.Core.Bool.{Bool, true, false, ◌&&◌, ◌||◌, false≢true}
use mathlib.Core.List.{List, [], ◌∷◌, ◌++◌}
use mathlib.Core.Option.{Option, none, some, some-injective}
use orion_belt.Prelude.Tests.{Bool-cases, if◌then◌else◌, ltb}

module _ {ℓ} {A : Type ℓ} where
  abbrev pub length : List A → ℕ
  length [] = 0
  length (x ∷ xs) = suc (length xs)

  -- The library's `any`, `all` and `filter` over a Boolean test, which run.
  abbrev pub any : (A → Bool) → List A → Bool
  any p [] = false
  any p (x ∷ xs) = p x || any p xs

  abbrev pub all : (A → Bool) → List A → Bool
  all p [] = true
  all p (x ∷ xs) = p x && all p xs

  abbrev pub keep : (A → Bool) → List A → List A
  keep p [] = []
  keep p (x ∷ xs) = if p x then x ∷ keep p xs else keep p xs

  abbrev pub find : (A → Bool) → List A → Option A
  find p [] = none
  find p (x ∷ xs) = if p x then some x else find p xs

  -- The rows that a test selects are rewritten, the others stay.
  abbrev pub update_where : (A → Bool) → (A → A) → List A → List A
  update_where p f [] = []
  update_where p f (x ∷ xs) = (if p x then f x else x) ∷ update_where p f xs

module _ {ℓ κ} {A : Type ℓ} (P : A → Type κ) where
  abbrev pub All : List A → Type κ
  All [] = Unit
  All (x ∷ xs) = P x × All xs

  -- "There is" with the item kept.
  pub data Any : List A → Type (ℓ ⊔ κ) where
    here : {x : A} {xs : List A} → P x → Any (x ∷ xs)
    there : {x : A} {xs : List A} → Any xs → Any (x ∷ xs)

module _ {ℓ} {A : Type ℓ} (p : A → Bool) where
  pub any-Any : (xs : List A) → any p xs ≡ true → Any (λ x. p x ≡ true) xs
  any-Any [] h = elim (false≢true h) [ ]
  any-Any (x ∷ xs) h = elim (Bool-cases (p x)) [
    | inl e ↦ here e
    | inr e ↦ there (any-Any xs (rw e at h))
  ]

  pub Any-any : (xs : List A) → Any (λ x. p x ≡ true) xs → any p xs ≡ true
  Any-any [] t = elim t [ ]
  Any-any (x ∷ xs) (here e) = rw e
  Any-any (x ∷ xs) (there t) = elim (Bool-cases (p x)) [
    | inl e ↦ rw e
    | inr e ↦ rw e (Any-any xs t)
  ]

pub Any-map {ℓ κ λ'} :
    {A : Type ℓ} {P : A → Type κ} {Q : A → Type λ'} (f : (x : A) → P x → Q x) {xs : List A}
    → Any P xs
    → Any Q xs
Any-map f (here {x = x} e) = here (f x e)
Any-map f (there t) = there (Any-map f t)

pub find-Any {ℓ κ} :
    {A : Type ℓ} (p : A → Bool) {Q : A → Type κ} (xs : List A) (x : A)
    → find p xs ≡ some x
    → Q x
    → Any (λ y. (p y ≡ true) × Q y) xs
find-Any p [] x h q = cc
find-Any p {Q} (y ∷ ys) x h q = elim (Bool-cases (p y)) [
  | inl e ↦ here (e, subst Q (sym (some-injective y x (rw e at h))) q)
  | inr e ↦ there (find-Any p ys x (rw e at h) q)
]

module _ {ℓ κ} {A : Type ℓ} {P : A → Type κ} (p : A → Bool) where
  pub Any-keep : (xs : List A) → Any P (keep p xs) → Any (λ x. P x × (p x ≡ true)) xs
  Any-keep [] t = elim t [ ]
  Any-keep (x ∷ xs) t = elim (Bool-cases (p x)) [
    | inl e ↦ kept (Any-keep xs) e (rw e at t)
    | inr e ↦ there (Any-keep xs (rw e at t))
  ]
    where
      kept :
          (Any P (keep p xs) → Any (λ y. P y × (p y ≡ true)) xs)
          → p x ≡ true
          → Any P (x ∷ keep p xs)
          → Any (λ y. P y × (p y ≡ true)) (x ∷ xs)
      kept rest e (here q) = here (q, e)
      kept rest e (there r) = there (rest r)

  -- A row that the test selects is found in its new form.
  pub Any-update_where :
      {Q : A → Type κ} (f : A → A) (new : (x : A) → P x → Q (f x)) (xs : List A)
      → Any (λ x. P x × (p x ≡ true)) xs
      → Any Q (update_where p f xs)
  Any-update_where f new [] t = elim t [ ]
  Any-update_where f new (x ∷ xs) (here (q, e)) = here (rw e (new x q))
  Any-update_where f new (x ∷ xs) (there t) = there (Any-update_where f new xs t)

-- The first row that a test finds is found in its new form, if the change keeps the test.
pub find-update_where {ℓ} :
    {A : Type ℓ} (p q : A → Bool) (f : A → A) (xs : List A) (x : A)
    → ((y : A) → p (f y) ≡ p y)
    → ((y : A) → p y ≡ true → q y ≡ true)
    → find p xs ≡ some x
    → find p (update_where q f xs) ≡ some (f x)
find-update_where p q f [] x same sel h = cc
find-update_where p q f (y ∷ ys) x same sel h = elim (Bool-cases (p y)) [
  | inl e ↦ rw (sel y e, same y, e) (ap some (ap f (some-injective y x (rw e at h))))
  | inr e ↦ elim (Bool-cases (q y)) [
    | inl s ↦ rw (s, same y, e) (find-update_where p q f ys x same sel (rw e at h))
    | inr s ↦ rw (s, e) (find-update_where p q f ys x same sel (rw e at h))
  ]
]

-- What is found meets the test.
pub find-test {ℓ} :
    {A : Type ℓ} (p : A → Bool) (xs : List A) (x : A) → find p xs ≡ some x → p x ≡ true
find-test p [] x h = cc
find-test p (y ∷ ys) x h = elim (Bool-cases (p y)) [
  | inl e ↦ subst (λ z. p z ≡ true) (some-injective y x (rw e at h)) e
  | inr e ↦ find-test p ys x (rw e at h)
]

-- What is found is there.
pub find-eq {ℓ} :
    {A : Type ℓ} (p : A → Bool) (xs : List A) (x : A) → find p xs ≡ some x → Any (λ y. y ≡ x) xs
find-eq p [] x h = cc
find-eq p (y ∷ ys) x h = elim (Bool-cases (p y)) [
  | inl e ↦ here (some-injective y x (rw e at h))
  | inr e ↦ there (find-eq p ys x (rw e at h))
]

-- The items in descending order of a key, those of one key in their own order.
module _ {ℓ} {A : Type ℓ} (key : A → ℕ) where
  abbrev pub insert_desc : A → List A → List A
  insert_desc x [] = x ∷ []
  insert_desc x (y ∷ ys) = if ltb (key x) (key y) then y ∷ insert_desc x ys else x ∷ y ∷ ys

  abbrev pub sort_desc : List A → List A
  sort_desc [] = []
  sort_desc (x ∷ xs) = insert_desc x (sort_desc xs)

  or_swap : (a b c : Bool) → (a || (b || c)) ≡ (b || (a || c))
  or_swap true true c = refl
  or_swap true false c = refl
  or_swap false b c = refl

  any-insert_desc : (p : A → Bool) (x : A) (ys : List A) → any p (insert_desc x ys) ≡ any p (x ∷ ys)
  any-insert_desc p x [] = refl
  any-insert_desc p x (y ∷ ys) = elim (Bool-cases (ltb (key x) (key y))) [
    | inl e ↦ rw (e, any-insert_desc p x ys) (or_swap (p y) (p x) (any p ys))
    | inr e ↦ rw e refl
  ]

  pub any-sort_desc : (p : A → Bool) (xs : List A) → any p (sort_desc xs) ≡ any p xs
  any-sort_desc p [] = refl
  any-sort_desc p (x ∷ xs) =
      any-insert_desc p x (sort_desc xs) ∙ ap (λ b. p x || b) (any-sort_desc p xs)

module _ {ℓ} {A : Type ℓ} where
  abbrev pub take : ℕ → List A → List A
  take zero xs = []
  take (suc n) [] = []
  take (suc n) (x ∷ xs) = x ∷ take n xs

  abbrev pub drop : ℕ → List A → List A
  drop zero xs = xs
  drop (suc n) [] = []
  drop (suc n) (x ∷ xs) = drop n xs

  pub any-append : (p : A → Bool) (xs ys : List A) → any p (xs ++ ys) ≡ (any p xs || any p ys)
  any-append p [] ys = refl
  any-append p (x ∷ xs) ys = elim (Bool-cases (p x)) [
    | inl e ↦ rw e refl
    | inr e ↦ rw e (any-append p xs ys)
  ]

  pub any-keep : (p q : A → Bool) (xs : List A) → any p (keep q xs) ≡ any (λ x. q x && p x) xs
  any-keep p q [] = refl
  any-keep p q (x ∷ xs) = elim (Bool-cases (q x)) [
    | inl e ↦ rw e (ap (λ b. p x || b) (any-keep p q xs))
    | inr e ↦ rw e (any-keep p q xs)
  ]

  pub any_same : (p q : A → Bool) (xs : List A) → ((x : A) → p x ≡ q x) → any p xs ≡ any q xs
  any_same p q [] h = refl
  any_same p q (x ∷ xs) h = rw (h x) (ap (λ b. q x || b) (any_same p q xs h))
