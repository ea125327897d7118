-- ===== src/Store/Rows.antt =====
-- Users, keys and machines of pkg/database/postgres.go, the sentinels of pkg/database/errors.go, and
-- the constraints of the schema that the statements can break.
use orion_belt.Prelude.{
  Bool, List, Option, String, any, false, find, if◌then◌else◌, keep, ltb, negsuc, none, pos, some,
  ℤ, ◌&&◌, ◌==◌, ◌||◌, ◌∷◌,
}
use orion_belt.Apperr.{
  Error, Result, caused, err, forbidden, kind_name, kinded, not_found, ok, plain, wrapped,
}
use orion_belt.Types.{Machine, SshKey, User}
use orion_belt.World.{Env, M, World, sql, step, wrap}

abbrev pub err_not_found : Error
err_not_found = kinded not_found "record not found"

-- `errors.Is(err, database.ErrNotFound)`, the sentinel told by its kind and text.
unfoldable pub is_err_not_found : Error → Bool
is_err_not_found (plain s) = false
is_err_not_found (wrapped s e) = is_err_not_found e
is_err_not_found (kinded k s) = kind_name k == "not_found" && s == "record not found"
is_err_not_found (caused k s e) = is_err_not_found e

abbrev pub err_permission_denied : Error
err_permission_denied = kinded forbidden "permission denied"

abbrev pub row_of : {A : Type 0} → Option A → Result A
row_of none = err err_not_found
row_of (some a) = ok a

-- `errors.Is(err, sql.ErrNoRows)` is answered with ErrNotFound, and only a failure is wrapped.
abbrev pub query_row : {A : Type 0} → Env → String → (World → Option A) → M A
query_row env s f w = elim (env.fault w.tick) [
  | none ↦ (row_of (f (step w)), step w)
  | some e ↦ (err (wrapped s e), step w)
]

abbrev pub user_exists : String → World → Bool
user_exists id w = any (λ (u : User). u.id == id) w.users

abbrev pub machine_exists : String → World → Bool
machine_exists id w = any (λ (m : Machine). m.id == id) w.machines

-- A nullable column that references users; the empty text is stored as NULL.
abbrev pub nullable_user_ok : String → World → Bool
nullable_user_ok id w = id == "" || user_exists id w

-- The range of the column type INTEGER.
abbrev pub fits_integer : ℤ → Bool
fits_integer (pos n) = ltb n 2147483648
fits_integer (negsuc n) = ltb n 2147483648

module _ (env : Env) where
  unfoldable pub get_user : String → M User
  get_user id = query_row env "failed to get user" (λ w. find (λ (u : User). u.id == id) w.users)

  unfoldable pub get_user_by_username : String → M User
  get_user_by_username name =
      query_row env "failed to get user" (λ w. find (λ (u : User). u.username == name) w.users)

  unfoldable pub get_machine : String → M Machine
  get_machine id =
      query_row env "failed to get machine" (λ w. find (λ (m : Machine). m.id == id) w.machines)

  unfoldable pub get_machine_by_name : String → M Machine
  get_machine_by_name name =
      query_row env "failed to get machine" (λ w. find (λ (m : Machine). m.name == name) w.machines)

  unfoldable pub list_user_ssh_keys : String → M (List SshKey)
  list_user_ssh_keys user_id =
      sql env (λ _ w. (ok (keep (λ (k : SshKey). k.user_id == user_id) w.ssh_keys), w))

  -- The table audit_logs keeps who did what to what; the rest of an entry is not read.
  unfoldable pub create_audit_log : String → String → String → M (Unit {0})
  create_audit_log user_id action resource = wrap "failed to create audit log" (
      sql env (λ _ w.
        if nullable_user_ok user_id w
        then (
          ok (tt {0}),
          record w {
            audits = record { user_id = user_id; action = action; resource = resource } ∷ w.audits;
          },
        )
        else (err env.constraint_error, w)))
