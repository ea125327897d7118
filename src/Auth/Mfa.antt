-- ===== src/Auth/Mfa.antt =====
-- Backup codes of the second factor: pkg/auth/mfa.go. A stored text has one hash on each line.
pub mod Lines
pub mod Once
pub mod Generate
use orion_belt.Prelude.{
  Bool, List, String, [], code, false, if◌then◌else◌, join_with, map, not, split_on, suc, take_text,
  trim_space, true, zero, ℕ, ◌&&◌, ◌==◌, ◌||◌, ◌∷◌,
}
use orion_belt.Apperr.{Result, err, ok}

-- `strings.Split(s, "\n")`
abbrev pub split_lines : String → List String
split_lines s = split_on 10 s

-- `strings.Join(ls, "\n")`
abbrev pub join_lines : List String → String
join_lines ls = join_with "\n" ls

-- The loop over the lines, with `matched`: the lines kept, and `matched` after it.
unfoldable pub keep_lines : String → Bool → List String → List String × Bool
unfolding trim_space
keep_lines want matched [] = ([], matched)
keep_lines want matched (l ∷ ls) =
    let line = trim_space l in
    let hit = not matched && line == want in
    let (kept, found) = keep_lines want (matched || (not (line == "") && hit)) ls in
    if line == "" then (kept, found) else if hit then (kept, found) else (line ∷ kept, found)

-- What the code calls: `strings.ToUpper`, SHA-256 in hexadecimal, base32 without padding, and the
-- check of a TOTP code against a secret at the time of the call.
pub record Codes : Type 0 where
  pub to_upper : String → String
  pub sha256_hex : String → String
  pub base32 : List ℕ → String
  pub totp_valid : String → String → Bool

module _ (lib : Codes) where
  unfoldable pub hash_backup_code : String → String
  unfolding trim_space
  hash_backup_code code = lib.sha256_hex (lib.to_upper (trim_space code))

  unfoldable pub consume_backup_code : String → String → String × Bool
  unfolding trim_space hash_backup_code split_on keep_lines
  consume_backup_code store code =
      let want = hash_backup_code (trim_space (lib.to_upper code)) in
      let (kept, matched) = keep_lines want false (split_lines store) in
      if matched then (join_lines kept, true) else (store, false)

  unfoldable pub validate_totp : String → String → Bool
  unfolding trim_space
  validate_totp secret code =
      if secret == "" || code == "" then false else lib.totp_valid secret (trim_space code)

  unfoldable pub validate_mfa_code : String → String → String → String × Bool
  unfolding validate_totp consume_backup_code
  validate_mfa_code secret store code =
      if validate_totp secret code
      then (store, true)
      else if store == ""
      then ("", false)
      else let (new_store, matched) = consume_backup_code store code in
        if matched then (new_store, true) else ("", false)

  abbrev pub backup_code_count : ℕ
  backup_code_count = 8

  -- `code[:10]` of a longer code.
  abbrev pub backup_code : List ℕ → String
  backup_code bytes = take_text 10 (lib.to_upper (lib.base32 bytes))

  -- The loop, from `i` on for `n` rounds; `random` is what `rand.Read` answers in each.
  unfoldable pub generate_from : (ℕ → Result (List ℕ)) → ℕ → ℕ → Result (List String)
  generate_from random i zero = ok []
  generate_from random i (suc n) =
      let rest = generate_from random (suc i) n in
      elim (random i) [
        | err e ↦ err e
        | ok bytes ↦ elim rest [ err e ↦ err e | ok codes ↦ ok (backup_code bytes ∷ codes) ]
      ]

  -- The codes and the text that is stored.
  unfoldable pub generate_backup_codes : (ℕ → Result (List ℕ)) → Result (List String × String)
  unfolding generate_from hash_backup_code
  generate_backup_codes random = elim (generate_from random 0 backup_code_count) [
    | err e ↦ err e
    | ok codes ↦ ok (codes, join_lines (map hash_backup_code codes))
  ]
