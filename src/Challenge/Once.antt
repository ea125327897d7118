-- ===== src/Challenge/Once.antt =====
-- The calls of a challenge store over time: pkg/api/challenge.go.
use orion_belt.Prelude.{
  Bool, List, Option-cases, String, [], any, ap, arith, inl, inr, leb_ℤ, none, pos, refl, some, sym,
  true, ℕ, ℤ, ◌&&◌, ◌||◌, ◌∙◌, ◌∷◌, ◌≡◌, ◌≢◌, ◌≤◌,
}
use orion_belt.Challenge.Store.{
  ChallengeStore, Codec, authentic, expiry_of, gc_locked, is_redeemed, redeem, redeem_live,
  same_bytes, take_bytes, verify,
}

same_bytes_refl : (xs : List ℕ) → same_bytes xs xs ≡ true
same_bytes_refl [] = refl
same_bytes_refl (x ∷ xs) = ground (arith, same_bytes_refl xs)

-- The nonce is remembered until the expiry at least.
recorded : List ℕ → ℤ → List (List ℕ × ℤ) → Bool
recorded nonce expires rs = any (λ r. same_bytes r.0 nonce && leb_ℤ expires r.1) rs

recorded-is_redeemed :
    (nonce : List ℕ) (expires : ℤ) (rs : List (List ℕ × ℤ))
    → recorded nonce expires rs ≡ true
    → is_redeemed rs nonce ≡ true
unfolding recorded
recorded-is_redeemed nonce expires [] h = h
recorded-is_redeemed nonce expires (r ∷ rs) h =
    ground (arith, recorded-is_redeemed nonce expires rs)

-- It is remembered, or the challenge is over.
spent : List ℕ → ℤ → List (List ℕ × ℤ) → ℕ → Bool
spent nonce expires rs now = leb_ℤ expires (pos now) || recorded nonce expires rs

-- What is dropped from the memory is over.
gc_locked-spent :
    (nonce : List ℕ) (expires : ℤ) (rs : List (List ℕ × ℤ)) (now : ℕ)
    → spent nonce expires rs now ≡ true
    → spent nonce expires (gc_locked now rs) now ≡ true
unfolding spent gc_locked recorded
gc_locked-spent nonce expires [] now h = h
gc_locked-spent nonce expires (r ∷ rs) now h =
    let rest = gc_locked-spent nonce expires rs now in ground arith

redeem-spent :
    (nonce : List ℕ) (expires : ℤ) (s : ChallengeStore) (now : ℕ) (n : List ℕ) (e : ℤ)
    → spent nonce expires s.redeemed now ≡ true
    → spent nonce expires (redeem s now n e).1.redeemed now ≡ true
unfolding redeem spent recorded
redeem-spent nonce expires s now n e h =
    let g = gc_locked-spent nonce expires s.redeemed now h in ground arith

spent-later :
    (nonce : List ℕ) (expires : ℤ) (rs : List (List ℕ × ℤ)) (now after : ℕ)
    → now ≤ after
    → spent nonce expires rs now ≡ true
    → spent nonce expires rs after ≡ true
unfolding spent
spent-later nonce expires rs now after l h = ground arith

redeem_live-spent :
    (nonce : List ℕ) (expires : ℤ) (s : ChallengeStore) (now : ℕ) (n : List ℕ) (e : ℤ)
    → spent nonce expires s.redeemed now ≡ true
    → spent nonce expires (redeem_live s now n e).1.redeemed now ≡ true
unfolding redeem_live
redeem_live-spent nonce expires s now n e h = ground (arith, redeem-spent nonce expires s now n e h)

redeem_live-key :
    (s : ChallengeStore) (now : ℕ) (n : List ℕ) (e : ℤ) → (redeem_live s now n e).1.key ≡ s.key
unfolding redeem_live redeem
redeem_live-key s now n e = ground arith

redeem_live-records :
    (nonce : List ℕ) (expires : ℤ) (s : ChallengeStore) (now : ℕ)
    → (redeem_live s now nonce expires).0 ≡ none
    → spent nonce expires (redeem_live s now nonce expires).1.redeemed now ≡ true
unfolding redeem_live redeem spent recorded
redeem_live-records nonce expires s now h = ground (arith, same_bytes_refl nonce)

redeem_live-spent_again :
    (nonce : List ℕ) (expires : ℤ) (s : ChallengeStore) (now : ℕ)
    → spent nonce expires s.redeemed now ≡ true
    → (redeem_live s now nonce expires).0 ≢ none
unfolding redeem_live redeem spent
redeem_live-spent_again nonce expires s now h k =
    ground (arith, recorded-is_redeemed nonce expires s.redeemed)

module _ (codec : Codec) where
  -- The calls of `Verify` after a store was in a state, at times that never go back.
  pub data Later : ChallengeStore × ℕ → ChallengeStore × ℕ → Type 0 where
    same : {s : ChallengeStore × ℕ} → Later s s
    call :
        {s : ChallengeStore × ℕ} {t : ChallengeStore} {last : ℕ} (now : ℕ) (username value : String)
        → Later s (t, last)
        → last ≤ now
        → Later s ((verify codec t now username value).1, now)

  verify-spent :
      (nonce : List ℕ) (expires : ℤ) (s : ChallengeStore) (now : ℕ) (u v : String)
      → spent nonce expires s.redeemed now ≡ true
      → spent nonce expires (verify codec s now u v).1.redeemed now ≡ true
  unfolding verify
  verify-spent nonce expires s now u v h = elim (Option-cases (authentic codec s.key u v)) [
    | inl e ↦ rw (e, verify) h
    | inr (p, e) ↦
        rw (e, verify) (redeem_live-spent nonce expires s now (take_bytes 16 p) (expiry_of p) h)
  ]

  verify-key :
      (s : ChallengeStore) (now : ℕ) (u v : String) → (verify codec s now u v).1.key ≡ s.key
  unfolding verify
  verify-key s now u v = elim (Option-cases (authentic codec s.key u v)) [
    | inl e ↦ rw (e, verify) refl
    | inr (p, e) ↦ rw (e, verify) (redeem_live-key s now (take_bytes 16 p) (expiry_of p))
  ]

  verify-authentic :
      (s : ChallengeStore) (now : ℕ) (u v : String) (p : List ℕ)
      → authentic codec s.key u v ≡ some p
      → verify codec s now u v ≡ redeem_live s now (take_bytes 16 p) (expiry_of p)
  unfolding verify
  verify-authentic s now u v p e = rw (e, verify) refl

  Later-spent :
      (nonce : List ℕ) (expires : ℤ) (s t : ChallengeStore × ℕ)
      → Later s t
      → spent nonce expires s.0.redeemed s.1 ≡ true
      → (t.0.key ≡ s.0.key) × (spent nonce expires t.0.redeemed t.1 ≡ true)
  Later-spent nonce expires s _ same h = (refl, h)
  Later-spent nonce expires s _ (call {t = t} {last} now u v l o) h =
      let k = Later-spent nonce expires s (t, last) l h in
      (
        verify-key t now u v ∙ k.0,
        verify-spent nonce expires t now u v (spent-later nonce expires t.redeemed last now o k.1),
      )

  -- A challenge that was accepted is not accepted again for that user, whatever calls come between
  -- and however often the memory is cleared, as long as the clock does not go back.
  pub verify_once :
      (s t : ChallengeStore) (now last later : ℕ) (username value : String)
      → (verify codec s now username value).0 ≡ none
      → Later ((verify codec s now username value).1, now) (t, last)
      → last ≤ later
      → (verify codec t later username value).0 ≢ none
  unfolding verify
  verify_once s t now last later username value h l o =
      elim (Option-cases (authentic codec s.key username value)) [
        | inl e ↦ absurd (cc (rw (e, verify) at h))
        | inr (p, e) ↦
            let first = verify-authentic s now username value p e in
            let recorded_then =
              redeem_live-records (take_bytes 16 p) (expiry_of p) s now
                (sym (ap (λ r. r.0) first) ∙ h) in
            let k =
              Later-spent (take_bytes 16 p) (expiry_of p) _ (t, last) l (rw first recorded_then) in
            let same_key = k.0 ∙ verify-key s now username value in
            λ again.
              redeem_live-spent_again (take_bytes 16 p) (expiry_of p) t later
                (spent-later _ _ _ last later o k.1)
                (sym (ap (λ r. r.0) (verify-authentic t later username value p (rw same_key e)))
                  ∙ again)
      ]
