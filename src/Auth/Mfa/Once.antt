-- ===== src/Auth/Mfa/Once.antt =====
-- What is left of the backup codes after one is used: pkg/auth/mfa.go.
use orion_belt.Prelude.{
  All, Bool, Bool-cases, List, String, [], code, false, if◌then◌else◌, inl, inr, refl, split_on,
  trim_left, trim_space, true, ◌==◌, ◌∷◌, ◌≡◌,
}
use orion_belt.Store.Permissions.{has_text}
use orion_belt.Auth.Mfa.{
  Codes, consume_backup_code, hash_backup_code, join_lines, keep_lines, split_lines,
  validate_mfa_code, validate_totp,
}
use orion_belt.Auth.Mfa.Lines.{
  Distinct, IsLine, drop_first, drop_first-All, drop_first-gone, drop_first-others, join_lines-ne,
  keep_lines-drop_first, split_lines-join_lines,
}

module _ (lib : Codes) where
  -- The hash that a code is looked up by.
  abbrev pub wanted : String → String
  wanted code = hash_backup_code lib (trim_space (lib.to_upper code))

  keep_lines-join_lines :
      (want : String) (hs : List String)
      → All IsLine hs
      → keep_lines want false (split_lines (join_lines hs)) ≡ (drop_first want hs, has_text want hs)
  unfolding split_on keep_lines trim_space trim_left
  keep_lines-join_lines want [] h = refl
  keep_lines-join_lines want (l ∷ ls) h =
      rw (split_lines-join_lines l ls h) (keep_lines-drop_first want (l ∷ ls) h)

  -- Of a stored list of hashes, a code takes out the first that is its own and leaves the others in
  -- their order; a code whose hash is not listed is refused and leaves the text as it is.
  pub consume_backup_code-drop_first :
      (hs : List String) (code : String)
      → All IsLine hs
      → consume_backup_code lib (join_lines hs) code ≡ (
          if has_text (wanted code) hs
          then (join_lines (drop_first (wanted code) hs), true)
          else (join_lines hs, false))
  unfolding consume_backup_code
  consume_backup_code-drop_first hs code h = rw (keep_lines-join_lines (wanted code) hs h) refl

  pub validate_backup_code :
      (secret code : String) (hs : List String)
      → All IsLine hs
      → validate_totp lib secret code ≡ false
      → validate_mfa_code lib secret (join_lines hs) code ≡ (
          if has_text (wanted code) hs
          then (join_lines (drop_first (wanted code) hs), true)
          else ("", false))
  unfolding validate_mfa_code
  validate_backup_code secret code [] h t = rw t refl
  validate_backup_code secret code (l ∷ ls) h t =
      let used = consume_backup_code-drop_first (l ∷ ls) code h in
      elim (Bool-cases (has_text (wanted code) (l ∷ ls))) [
        | inl e ↦ rw (t, join_lines-ne l ls h.0, used, e) refl
        | inr e ↦ rw (t, join_lines-ne l ls h.0, used, e) refl
      ]

  taken :
      (secret code store : String) (hs : List String)
      → All IsLine hs
      → validate_totp lib secret code ≡ false
      → validate_mfa_code lib secret (join_lines hs) code ≡ (store, true)
      → store ≡ join_lines (drop_first (wanted code) hs)
  taken secret code store hs h t r =
      let e = validate_backup_code secret code hs h t in
      elim (Bool-cases (has_text (wanted code) hs)) [
        | inl f ↦ cc (rw (e, f) at r)
        | inr f ↦ absurd (cc (rw (e, f) at r))
      ]

  -- Where the hashes of the stored codes differ, a backup code that was accepted is refused with the
  -- text that is stored then, and a code with another hash is accepted with it exactly when it was
  -- accepted before, neither of them being a valid TOTP code.
  pub validate_mfa_code_once :
      (secret code other store : String) (hs : List String)
      → All IsLine hs
      → Distinct hs
      → validate_totp lib secret code ≡ false
      → validate_totp lib secret other ≡ false
      → (wanted code == wanted other) ≡ false
      → validate_mfa_code lib secret (join_lines hs) code ≡ (store, true)
      → (validate_mfa_code lib secret store code ≡ ("", false))
        × ((validate_mfa_code lib secret store other).1
            ≡ (validate_mfa_code lib secret (join_lines hs) other).1)
  validate_mfa_code_once secret code other store hs h d t u n r =
      let want = wanted code in
      let e = taken secret code store hs h t r in
      let left = drop_first-All want hs h in
      (
        rw
            (
              e,
              validate_backup_code secret code (drop_first want hs) left t,
              drop_first-gone want hs d,
            )
            refl,
        rw
            (
              e,
              validate_backup_code secret other (drop_first want hs) left u,
              validate_backup_code secret other hs h u,
              drop_first-others want (wanted other) hs n,
            )
            (accepted (has_text (wanted other) hs) _ _),
      )
    where
      answer : Bool → String → String × Bool
      answer b s = if b then (s, true) else ("", false)

      accepted : (b : Bool) (s t : String) → (answer b s).1 ≡ (answer b t).1
      accepted true s t = refl
      accepted false s t = refl
