-- ===== src/Anomaly/Hours.antt =====
-- The ranges of hours in a flag's text: formatHours of pkg/anomaly/anomaly.go.
use orion_belt.Prelude.{
  Bool-cases, List, [], ap, arith, eqb, inl, inr, length, refl, some, suc, sym, zero, ℕ, ◌++◌, ◌+◌,
  ◌-◌, ◌∙◌, ◌∷◌, ◌≡◌, ◌≤◌,
}
use orion_belt.Anomaly.{hour_ranges, run_end}

-- The `n` hours from `h` on.
abbrev pub hours_from : ℕ → ℕ → List ℕ
hours_from h zero = []
hours_from h (suc n) = h ∷ hours_from (suc h) n

-- The hours of the ranges, in their order.
abbrev pub expand : List (ℕ × ℕ) → List ℕ
expand [] = []
expand ((a, b) ∷ rs) = hours_from a (suc (b - a)) ++ expand rs

one_more :
    (h k last : ℕ)
    → k ≡ suc h
    → k ≤ last
    → hours_from k (suc (last - k)) ≡ hours_from (suc h) (last - h)
one_more h k last e l =
    let count : suc (last - k) ≡ last - h = omega arith in
    ap (λ n. hours_from k n) count ∙ ap (λ x. hours_from x (last - h)) e

minus_self : (n : ℕ) → n - n ≡ 0
minus_self n = omega arith

run_end-hours_from :
    (h : ℕ) (hs : List ℕ)
    → (h ≤ (run_end h hs).0)
      × (h ∷ hs ≡ hours_from h (suc ((run_end h hs).0 - h)) ++ (run_end h hs).1)
      × (length (run_end h hs).1 ≤ length hs)
unfolding run_end
run_end-hours_from h [] = (ground arith, rw (minus_self h) refl, ground arith)
run_end-hours_from h (k ∷ ks) = elim (Bool-cases (eqb k (h + 1))) [
  | inl e ↦
      let (more, same, shorter) = run_end-hours_from k ks in
      let next : k ≡ suc h = ground (arith, e) in
      let last = (run_end k ks).0 in
      let until : h ≤ last = omega arith in
      let fewer : length (run_end k ks).1 ≤ suc (length ks) = omega arith in
      rw (run_end, e)
        (
          until,
          ap (λ xs. h ∷ xs)
              (same ∙ ap (λ xs. xs ++ (run_end k ks).1) (one_more h k last next more)),
          fewer,
        )
  | inr e ↦ rw (run_end, e, minus_self h) (ground arith, refl, ground arith)
]

-- For a list of hours, as many rounds of the loop as it has items are enough, and the ranges that
-- come out stand for exactly these hours in their order.
pub hour_ranges_enough :
    (fuel : ℕ) (hs : List ℕ)
    → length hs ≤ fuel
    → (rs : List (ℕ × ℕ)) × (hour_ranges fuel hs ≡ some rs) × (expand rs ≡ hs)
unfolding hour_ranges
hour_ranges_enough fuel [] l = ([], refl, refl)
hour_ranges_enough zero (h ∷ hs) l = absurd (ground (arith, l))
hour_ranges_enough (suc fuel) (h ∷ hs) l =
    let (first, same, shorter) = run_end-hours_from h hs in
    let (rs, run, rest) = hour_ranges_enough fuel (run_end h hs).1 (ground (arith, l, shorter)) in
    ((h, (run_end h hs).0) ∷ rs, ground (arith, run), rw rest (sym same))
