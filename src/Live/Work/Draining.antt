-- ===== src/Live/Work/Draining.antt =====
-- What a drain waits for, and what its timeout closes: pkg/agent/manage.go.
use orion_belt.Prelude.{
  Bool, Bool-cases, List, Option, [], all, any, arith, eqb, false, inl, inr, none, not, refl, some,
  true, ℕ, ◌&&◌, ◌||◌, ◌∷◌, ◌≡◌,
}
use orion_belt.Live.Work.{
  Work, begin_work, drain, drain_timeout, drain_wakes, drop_id, end_work, has_number, is_idle,
  undrain,
}

-- What happens to the work of an agent, other than a drain or its end by `undrain`: work asks to
-- begin, work ends, or the goroutine of a drain wakes or times out.
pub data WorkCall : Type 0 where
  begins : WorkCall
  ends : ℕ → WorkCall
  wakes : ℕ → WorkCall
  times_out : ℕ → WorkCall

unfoldable pub run_call : WorkCall → Work → Work
unfolding begin_work end_work drain_wakes drain_timeout
run_call begins w = (begin_work w).1
run_call (ends id) w = end_work id w
run_call (wakes d) w = drain_wakes d w
run_call (times_out d) w = (drain_timeout d w).1

abbrev pub run_calls : List WorkCall → Work → Work
run_calls [] w = w
run_calls (x ∷ xs) w = run_calls xs (run_call x w)

abbrev pub ended : List WorkCall → List ℕ
ended [] = []
ended (begins ∷ xs) = ended xs
ended (ends id ∷ xs) = id ∷ ended xs
ended (wakes d ∷ xs) = ended xs
ended (times_out d ∷ xs) = ended xs

abbrev is_some_of : Option ℕ → ℕ → Bool
is_some_of none c = false
is_some_of (some d) c = eqb d c

covered : List ℕ → List ℕ → Bool
covered ids xs = all (has_number ids) xs

covered-drop_id :
    (id : ℕ) (ids xs : List ℕ) → covered (id ∷ ids) xs ≡ true → covered ids (drop_id id xs) ≡ true
unfolding covered
covered-drop_id id ids [] h = refl
covered-drop_id id ids (x ∷ xs) h = ground (arith, covered-drop_id id ids xs)

covered-none : (xs : List ℕ) → (not (is_idle xs) && covered [] xs) ≡ false
unfolding covered
covered-none [] = refl
covered-none (x ∷ xs) = refl

-- The channel is closed, or it waits for work that is still to end.
waits : ℕ → List ℕ → Work → Bool
waits c ids w =
    has_number w.idle_closed c
    || (is_some_of w.idle c && (w.draining && (not (is_idle w.active) && covered ids w.active)))

end_work-waits :
    (c id : ℕ) (ids : List ℕ) (w : Work)
    → waits c (id ∷ ids) w ≡ true
    → waits c ids (end_work id w) ≡ true
unfolding waits end_work
end_work-waits c id ids w h = let k = covered-drop_id id ids w.active in ground arith

begin_work-waits :
    (c : ℕ) (ids : List ℕ) (w : Work) → waits c ids w ≡ true → waits c ids (begin_work w).1 ≡ true
unfolding waits begin_work
begin_work-waits c ids w h = ground arith

run_call-waits :
    (c : ℕ) (x : WorkCall) (xs : List WorkCall) (w : Work)
    → waits c (ended (x ∷ xs)) w ≡ true
    → waits c (ended xs) (run_call x w) ≡ true
unfolding waits run_call drain_wakes drain_timeout
run_call-waits c begins xs w h = begin_work-waits c (ended xs) w h
run_call-waits c (ends id) xs w h = end_work-waits c id (ended xs) w h
run_call-waits c (wakes d) xs w h = ground arith
run_call-waits c (times_out d) xs w h = ground arith

run_calls-closed :
    (c : ℕ) (xs : List WorkCall) (w : Work)
    → waits c (ended xs) w ≡ true
    → has_number (run_calls xs w).idle_closed c ≡ true
unfolding waits
run_calls-closed c [] w h = ground (arith, h, covered-none w.active)
run_calls-closed c (x ∷ xs) w h = run_calls-closed c xs (run_call x w) (run_call-waits c x xs w h)

-- If no other drain and no `undrain` comes in between, then once all the work that ran when a drain
-- began has ended, in any order and whatever else begins, ends or times out meanwhile, the channel
-- that the drain returned is closed, by its goroutine, which is woken if its timeout has not come.
pub drain-closes :
    (w : Work) (xs : List WorkCall)
    → is_idle w.active ≡ false
    → all (λ a. has_number (ended xs) a) w.active ≡ true
    → let (d, draining) = drain w in
      has_number (drain_wakes d (run_calls xs draining)).done_closed d ≡ true
unfolding drain drain_wakes waits covered
drain-closes w xs a h =
    let (d, draining) = drain w in
    let woken : has_number (run_calls xs draining).idle_closed d ≡ true =
      run_calls-closed d xs draining (ground arith) in
    rw (drain_wakes, woken) (ground arith)

-- The drain `d` waits, and the agent would tell another one of the end of its work.
is_forgotten : ℕ → Work → Bool
is_forgotten d w =
    not (has_number w.idle_closed d)
    && (not (has_number w.done_closed d) && not (is_some_of w.idle d))

abbrev pub is_timeout_of : ℕ → WorkCall → Bool
is_timeout_of d begins = false
is_timeout_of d (ends id) = false
is_timeout_of d (wakes c) = false
is_timeout_of d (times_out c) = eqb c d

run_call_forgotten :
    (d : ℕ) (x : WorkCall) (w : Work)
    → is_timeout_of d x ≡ false
    → is_forgotten d w ≡ true
    → is_forgotten d (run_call x w) ≡ true
unfolding is_forgotten run_call begin_work end_work drain_wakes drain_timeout
run_call_forgotten d begins w t h = ground arith
run_call_forgotten d (ends id) w t h = ground arith
run_call_forgotten d (wakes c) w t h = elim (Bool-cases (eqb c d)) [
  | inl e ↦ let same : c ≡ d = ground (arith, e) in rw same (ground arith)
  | inr e ↦ ground arith
]
run_call_forgotten d (times_out c) w t h = ground arith

run_calls_forgotten :
    (d : ℕ) (xs : List WorkCall) (w : Work)
    → any (is_timeout_of d) xs ≡ false
    → is_forgotten d w ≡ true
    → is_forgotten d (run_calls xs w) ≡ true
run_calls_forgotten d [] w t h = h
run_calls_forgotten d (x ∷ xs) w t h =
    run_calls_forgotten d xs (run_call x w) (ground arith)
      (run_call_forgotten d x w (ground arith) h)

-- The number of the next drain is that of no drain that is over.
abbrev pub is_new : Work → Bool
is_new w = not (has_number w.idle_closed w.drains) && not (has_number w.done_closed w.drains)

-- A second drain replaces the idle channel of the first one. Where work runs and the first drain's
-- number is a new one, its goroutine is then not woken, however the work begins and ends later: it
-- waits for its timeout, and closes all work that runs at that time.
pub drain_replaced :
    (w : Work) (xs : List WorkCall)
    → is_idle w.active ≡ false
    → is_new w ≡ true
    → any (is_timeout_of (drain w).0) xs ≡ false
    → let (first, draining) = drain w in
      let later = run_calls xs (drain draining).1 in
      (drain_wakes first later ≡ later) × ((drain_timeout first later).0 ≡ later.active)
unfolding drain drain_wakes drain_timeout is_forgotten
drain_replaced w xs a f t =
    let (first, draining) = drain w in
    let later = run_calls xs (drain draining).1 in
    let lost = run_calls_forgotten first xs (drain draining).1 t (ground arith) in
    (ground (arith, lost), ground (arith, lost))

-- While an agent drains it takes no work, and after `undrain` it takes work again.
pub drain_refuses :
    (w : Work)
    → ((begin_work (drain w).1) ≡ (none, (drain w).1))
      × ((begin_work (undrain (drain w).1)).0 ≡ some w.next)
unfolding drain begin_work undrain
drain_refuses w = elim (Bool-cases (is_idle w.active)) [
  | inl e ↦ (rw e refl, rw e refl)
  | inr e ↦ (rw e refl, rw e refl)
]

-- `undrain` does not call off the timeout of a drain that still waited: the timeout then closes
-- work that began after `undrain`.
pub undrain-drain_timeout :
    (w : Work)
    → is_idle w.active ≡ false
    → is_new w ≡ true
    → has_number (drain_timeout (drain w).0 (begin_work (undrain (drain w).1)).1).0 w.next ≡ true
unfolding drain begin_work undrain drain_timeout
undrain-drain_timeout w a f = ground arith
