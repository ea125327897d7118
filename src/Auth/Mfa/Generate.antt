-- ===== src/Auth/Mfa/Generate.antt =====
-- The backup codes that a user is given: pkg/auth/mfa.go.
use orion_belt.Prelude.{
  All, Any, Bool, Bool-cases, List, String, [], all, ap, arith, eq_refl, false, here, inl, inr,
  length, map, refl, subst, suc, there, trim_space, true, zero, ℕ, ◌==◌, ◌||◌, ◌∙◌, ◌∷◌, ◌≡◌,
}
use orion_belt.Store.Permissions.{has_text}
use orion_belt.Apperr.{Result, Result-cases, ok}
use orion_belt.Auth.Mfa.{
  Codes, backup_code, generate_backup_codes, generate_from, hash_backup_code, join_lines,
  validate_mfa_code, validate_totp,
}
use orion_belt.Auth.Mfa.Lines.{IsLine}
use orion_belt.Auth.Mfa.Once.{validate_backup_code, wanted}

module _ (lib : Codes) where
  abbrev IsGenerated : String → Type 0
  IsGenerated s = (bytes : List ℕ) × (s ≡ backup_code lib bytes)

  generate_from-IsGenerated :
      (random : ℕ → Result (List ℕ)) (i n : ℕ) (codes : List String)
      → generate_from lib random i n ≡ ok codes
      → (length codes ≡ n) × All IsGenerated codes
  unfolding generate_from
  generate_from-IsGenerated random i zero codes h =
      let e : codes ≡ [] = ground arith in rw e (refl, tt)
  generate_from-IsGenerated random i (suc n) codes h = elim (Result-cases (random i)) [
    | inl (e, f) ↦ absurd (cc (rw (generate_from, f) at h))
    | inr (bytes, f) ↦ elim (Result-cases (generate_from lib random (suc i) n)) [
      | inl (e, g) ↦ absurd (cc (rw (generate_from, f, g) at h))
      | inr (rest, g) ↦
          let (k, all) = generate_from-IsGenerated random (suc i) n rest g in
          let e : codes ≡ backup_code lib bytes ∷ rest = ground (arith, f, g) in
          rw e (ap suc k, ((bytes, refl), all))
    ]
  ]

  hashes-IsLine :
      ((s : String) → IsLine (lib.sha256_hex s))
      → (codes : List String) → All IsLine (map (hash_backup_code lib) codes)
  unfolding hash_backup_code
  hashes-IsLine hex [] = tt
  hashes-IsLine hex (c ∷ cs) = (hex _, hashes-IsLine hex cs)

  or_true : (b : Bool) → (b || true) ≡ true
  or_true true = refl
  or_true false = refl

  listed :
      (cs : List String) (s : String)
      → Any (λ c. c ≡ s) cs
      → has_text (hash_backup_code lib s) (map (hash_backup_code lib) cs) ≡ true
  listed [] s t = elim t [ ]
  listed (c ∷ cs) s (here e) = rw (e, eq_refl (hash_backup_code lib s)) refl
  listed (c ∷ cs) s (there t) =
      rw (listed cs s t) (or_true (hash_backup_code lib c == hash_backup_code lib s))

  generated :
      (codes : List String) (s : String)
      → All IsGenerated codes
      → Any (λ c. c ≡ s) codes
      → IsGenerated s
  generated [] s h t = elim t [ ]
  generated (c ∷ cs) s h (here e) = subst IsGenerated e h.0
  generated (c ∷ cs) s h (there t) = generated cs s h.1 t

  valid :
      (secret s : String) (hs : List String)
      → All IsLine hs
      → has_text (wanted lib s) hs ≡ true
      → (validate_mfa_code lib secret (join_lines hs) s).1 ≡ true
  unfolding validate_mfa_code
  valid secret s hs h l = elim (Bool-cases (validate_totp lib secret s)) [
    | inl t ↦ rw (validate_mfa_code, t) refl
    | inr t ↦ rw (validate_backup_code lib secret s hs h t, l) refl
  ]

  -- Where SHA-256 in hexadecimal has no white space and the codes are in upper case without white
  -- space round them, a call that generates codes gives 8 of them, and each is accepted with the
  -- text that it gives to store.
  pub generate_backup_codes-validate_mfa_code :
      (random : ℕ → Result (List ℕ)) (codes : List String) (store secret s : String)
      → ((t : String) → IsLine (lib.sha256_hex t))
      → ((bytes : List ℕ)
          → trim_space (lib.to_upper (backup_code lib bytes)) ≡ backup_code lib bytes)
      → generate_backup_codes lib random ≡ ok (codes, store)
      → Any (λ c. c ≡ s) codes
      → (length codes ≡ 8) × ((validate_mfa_code lib secret store s).1 ≡ true)
  unfolding generate_backup_codes
  generate_backup_codes-validate_mfa_code random codes store secret s hex upper h t =
      elim (Result-cases (generate_from lib random 0 8)) [
        | inl (e, f) ↦ absurd (cc (rw (generate_backup_codes, f) at h))
        | inr (cs, f) ↦
            let same : codes ≡ cs = ground (arith, f) in
            let stored : store ≡ join_lines (map (hash_backup_code lib) cs) = ground (arith, f) in
            let (k, all) = generate_from-IsGenerated random 0 8 cs f in
            let found : Any (λ c. c ≡ s) cs = subst (λ ds. Any (λ c. c ≡ s) ds) same t in
            let (bytes, g) = generated cs s all found in
            let same_text : trim_space (lib.to_upper s) ≡ s = rw g (upper bytes) in
            let want : wanted lib s ≡ hash_backup_code lib s =
              ap (hash_backup_code lib) same_text in
            (
              ap length same ∙ k,
              rw stored (
                  valid secret s (map (hash_backup_code lib) cs) (hashes-IsLine hex cs)
                    (rw want (listed cs s found))),
            )
      ]
