-- ===== src/Anomaly/Flagged.antt =====
-- When a session is flagged: pkg/anomaly/anomaly.go.
use orion_belt.Prelude.{
  Bool, Bool-cases, CaseMap, List, Option, String, [], any, ap, arith, eqb, false, if◌then◌else◌,
  inl, inr, leb, length, ltb, none, not, refl, some, subst, true, ℕ, ◌%◌, ◌&&◌, ◌++◌, ◌+◌, ◌==◌,
  ◌||◌, ◌∙◌, ◌∷◌, ◌≡◌,
}
use orion_belt.Anomaly.{
  AnomalyStore, Flag, detect, first_access, has_hour, hour_of, kind_first_access, kind_off_hours,
  min_history, near_usual, off_hours, option_list, others, usual_hours, machine_sensitivity, ok,
  sensitivity_high,
}
use orion_belt.Types.{Machine, Session}
use orion_belt.World.{World}
use orion_belt.Risk.{machine_sensitivity, sensitivity_high}
use orion_belt.Apperr.{ok}

-- A session that started in the same hour of the day, or in the one before or after, round the clock.
abbrev pub is_near : ℕ → Session → Bool
is_near hour p =
    let h = hour_of p.start_time in
    eqb h ((hour + 23) % 24) || (eqb h hour || eqb h ((hour + 1) % 24))

same_hour :
    (a h : ℕ) (hs : List ℕ)
    → has_hour a hs ≡ true
    → has_hour h (if has_hour a hs then hs else a ∷ hs) ≡ (eqb a h || has_hour h hs)
same_hour a h hs e = elim (Bool-cases (eqb a h)) [
  | inl f ↦ let g : a ≡ h = ground (arith, f) in rw (e, f) (subst (λ x. has_hour x hs ≡ true) g e)
  | inr f ↦ rw (e, f) refl
]

has_hour-usual_hours :
    (h : ℕ) (ps : List Session)
    → has_hour h (usual_hours ps) ≡ any (λ (p : Session). eqb (hour_of p.start_time) h) ps
unfolding usual_hours
has_hour-usual_hours h [] = refl
has_hour-usual_hours h (p ∷ ps) =
    let rest = has_hour-usual_hours h ps in
    let a = hour_of p.start_time in
    elim (Bool-cases (has_hour a (usual_hours ps))) [
      | inl e ↦ same_hour a h (usual_hours ps) e ∙ ap (λ b. eqb a h || b) rest
      | inr e ↦ rw (usual_hours, e) (ap (λ b. eqb a h || b) rest)
    ]

any_or :
    (p q : Session → Bool) (xs : List Session) → (any p xs || any q xs) ≡ any (λ x. p x || q x) xs
any_or p q [] = refl
any_or p q (x ∷ xs) =
    mixed (p x) (q x) (any p xs) (any q xs) ∙ ap (λ b. (p x || q x) || b) (any_or p q xs)
  where
    mixed : (a b c d : Bool) → ((a || c) || (b || d)) ≡ ((a || b) || (c || d))
    mixed a b c d = ground arith

hour_bound : (t : ℕ) → (hour_of t + 24) % 24 ≡ hour_of t
hour_bound t = omega arith

next_hour : (h : ℕ) → (h + 25) % 24 ≡ (h + 1) % 24
next_hour h = omega arith

near_usual-is_near :
    (t : ℕ) (ps : List Session)
    → near_usual (hour_of t) (usual_hours ps) ≡ any (is_near (hour_of t)) ps
near_usual-is_near t ps =
    let at : ℕ → Session → Bool = λ h p. eqb (hour_of p.start_time) h in
    rw
      (
        hour_bound t,
        next_hour (hour_of t),
        has_hour-usual_hours ((hour_of t + 23) % 24) ps,
        has_hour-usual_hours (hour_of t) ps,
        has_hour-usual_hours ((hour_of t + 1) % 24) ps,
        any_or (at (hour_of t)) (at ((hour_of t + 1) % 24)) ps,
        any_or (at ((hour_of t + 23) % 24)) (λ p. at (hour_of t) p || at ((hour_of t + 1) % 24) p)
            ps,
      )
      refl

abbrev pub is_flagged : Option Flag → Bool
is_flagged none = false
is_flagged (some _) = true

-- Against the given sessions, one is flagged for its hour exactly when they are at least ten and none
-- of them started in the same hour of the day, the one before or the one after, round the clock.
pub off_hours-is_near :
    (session : Session) (past : List Session)
    → is_flagged (off_hours session past)
      ≡ (leb 10 (length past) && not (any (is_near (hour_of session.start_time)) past))
unfolding off_hours
off_hours-is_near session past =
    let near = near_usual-is_near session.start_time past in
    elim (Bool-cases (any (is_near (hour_of session.start_time)) past)) [
      | inl e ↦ rw (near, e) (ground arith)
      | inr e ↦ rw (near, e) (ground arith)
    ]

abbrev pub has_kind : String → List Flag → Bool
has_kind kind fs = any (λ (f : Flag). f.kind == kind) fs

off_hours-kind :
    (session : Session) (past : List Session)
    → (has_kind kind_off_hours (option_list (off_hours session past))
        ≡ is_flagged (off_hours session past))
      × (has_kind kind_first_access (option_list (off_hours session past)) ≡ false)
unfolding off_hours
off_hours-kind session past = elim (Bool-cases (ltb (length past) min_history)) [
  | inl few ↦ rw few (refl, refl)
  | inr many ↦ elim (Bool-cases (near_usual (hour_of session.start_time) (usual_hours past))) [
    | inl near ↦ rw (many, near) (refl, refl)
    | inr far ↦ rw (many, far) (refl, refl)
  ]
]

module _ (cases : CaseMap) where
  -- The machine is of high sensitivity and none of the sessions was on it.
  abbrev pub is_first : Session → Machine → List Session → Bool
  is_first session machine past =
      (machine_sensitivity cases (some machine) == sensitivity_high)
      && not (any (λ (p : Session). p.machine_id == session.machine_id) past)

  first_access-kind :
      (session : Session) (machine : Machine) (past : List Session)
      → (has_kind kind_first_access (option_list (first_access cases session machine past))
          ≡ is_first session machine past)
        × (has_kind kind_off_hours (option_list (first_access cases session machine past)) ≡ false)
  unfolding first_access
  first_access-kind session machine past =
      let high = machine_sensitivity cases (some machine) == sensitivity_high in
      elim (Bool-cases high) [
        | inr low ↦ rw low (refl, refl)
        | inl e ↦
            elim (Bool-cases (any (λ (p : Session). p.machine_id == session.machine_id) past)) [
              | inl known ↦ rw (e, known) (refl, refl)
              | inr new ↦ rw (e, new) (refl, refl)
            ]
      ]

  has_kind-append :
      (kind : String) (xs ys : List Flag)
      → has_kind kind (xs ++ ys) ≡ (has_kind kind xs || has_kind kind ys)
  has_kind-append kind [] ys = refl
  has_kind-append kind (x ∷ xs) ys = let rest = has_kind-append kind xs ys in ground (arith, rest)

  -- Where the store answers with the sessions of the user, which the detector asks for 500 of, the
  -- flags of a session are decided by those of them that are not the session itself: one for its
  -- hour exactly when they are at least ten and none started in the same hour of the day, the one
  -- before or the one after, round the clock; and one for a first access exactly when the machine is
  -- of high sensitivity and none of them was on it.
  pub detect-has_kind :
      (store : AnomalyStore) (session : Session) (machine : Machine) (history : List Session)
      (w v : World)
      → store.list_user_sessions session.user_id 500 0 w ≡ (ok history, v)
      → let past = others session history in
        (fs : List Flag) × (detect cases store session machine w ≡ (ok fs, v))
        × (has_kind kind_off_hours fs
            ≡ (leb 10 (length past) && not (any (is_near (hour_of session.start_time)) past)))
        × (has_kind kind_first_access fs ≡ is_first session machine past)
  unfolding detect
  detect-has_kind store session machine history w v h =
      let past = others session history in
      let first = option_list (first_access cases session machine past) in
      let hours = option_list (off_hours session past) in
      let (of_first, not_hours) = first_access-kind session machine past in
      let (of_hours, not_first) = off_hours-kind session past in
      (
        first ++ hours,
        ground (arith, h),
        has_kind-append kind_off_hours first hours
            ∙ rw (not_hours, of_hours) (off_hours-is_near session past),
        has_kind-append kind_first_access first hours ∙ rw (of_first, not_first) (ground arith),
      )
