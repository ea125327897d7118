-- ===== src/Live/Sessions/Waiting.antt =====
-- Which sessions the shutdown of a gateway waits for: internal/livesessions/livesessions.go.
use orion_belt.Prelude.{
  Bool, Bool-cases, List, String, [], any, ap, arith, eq_refl, false, inl, inr, length, not, refl,
  some, subst, suc, sym, text_cases, true, ◌&&◌, ◌==◌, ◌∷◌, ◌≡◌,
}
use orion_belt.Live.Sessions.{
  Tracker, begin_session, end_session, new_tracker, start_drain, without,
}

abbrev pub is_live : Tracker → String → Bool
is_live l id = any (λ x. x == id) l.stops

-- The states that a tracker comes to: a session begins under an id that no live session has, and
-- ends once.
pub data Reachable : Tracker → Type 0 where
  initial : Reachable new_tracker
  begins :
      {l : Tracker} (id : String)
      → Reachable l
      → is_live l id ≡ false
      → Reachable (begin_session l id).1
  ends :
      {l l' : Tracker} (id : String)
      → Reachable l
      → is_live l id ≡ true
      → end_session l id ≡ some l'
      → Reachable l'
  drains : {l : Tracker} → Reachable l → Reachable (start_drain l).1

without-absent :
    (id : String) (ids : List String) → any (λ x. x == id) ids ≡ false → without id ids ≡ ids
without-absent id [] h = refl
without-absent id (x ∷ xs) h = elim (Bool-cases (x == id)) [
  | inl e ↦ absurd (cc (rw e at h))
  | inr e ↦ rw e (ap (λ t. x ∷ t) (without-absent id xs (rw e at h)))
]

distinct : List String → Bool
distinct [] = true
distinct (x ∷ xs) = not (any (λ y. y == x) xs) && distinct xs

any-without :
    (id y : String) (ids : List String)
    → any (λ x. x == y) ids ≡ false
    → any (λ x. x == y) (without id ids) ≡ false
any-without id y [] h = h
any-without id y (x ∷ xs) h = ground (arith, any-without id y xs)

distinct-without :
    (id : String) (ids : List String) → distinct ids ≡ true → distinct (without id ids) ≡ true
unfolding distinct
distinct-without id [] h = h
distinct-without id (x ∷ xs) h = ground (arith, distinct-without id xs, any-without id x xs)

length-without :
    (id : String) (ids : List String)
    → distinct ids ≡ true
    → any (λ x. x == id) ids ≡ true
    → suc (length (without id ids)) ≡ length ids
unfolding distinct
length-without id [] d h = absurd (cc h)
length-without id (x ∷ xs) d h = elim (text_cases x id) [
  | inl e ↦
      rw (e, eq_refl id)
        (ap (λ n. suc (length n))
          (without-absent id xs (subst (λ z. any (λ y. y == z) xs ≡ false) e (ground arith))))
  | inr e ↦ rw e (ap suc (length-without id xs (ground arith) (rw e at h)))
]

-- The wait group counts the live sessions, each of which can be ended early.
Reachable-waiting :
    (l : Tracker) → Reachable l → (distinct l.stops ≡ true) × (l.waiting ≡ length l.stops)
unfolding begin_session end_session start_drain distinct
Reachable-waiting _ initial = (refl, refl)
Reachable-waiting _ (begins {l = l} id r f) =
    let k = Reachable-waiting l r in ground (arith, k, without-absent id l.stops f)
Reachable-waiting _ (ends {l = l} {l'} id r f e) =
    let k = Reachable-waiting l r in
    ground (arith, k, f, e, distinct-without id l.stops, length-without id l.stops)
Reachable-waiting _ (drains {l = l} r) = Reachable-waiting l r

-- Shutdown ends as many sessions as it then waits for, and none begins after it started.
pub start_drain-waits :
    (l : Tracker) (id : String)
    → Reachable l
    → (length (start_drain l).0 ≡ (start_drain l).1.waiting)
      × ((begin_session (start_drain l).1 id).0 ≡ false)
unfolding start_drain begin_session
start_drain-waits l id r = (sym (Reachable-waiting l r).1, refl)
