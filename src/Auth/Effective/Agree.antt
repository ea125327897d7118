-- ===== src/Auth/Effective/Agree.antt =====
-- The list of a user's access beside the gateway's check: pkg/auth/effective.go and pkg/auth/auth.go.
use orion_belt.Prelude.{
  Bool, List, String, any, false, keep, none, some, sort_desc, ℕ, ◌&&◌, ◌==◌, ◌≡◌,
}
use orion_belt.Auth.Effective.{EffectiveAccess, effective_list_limit}
use orion_belt.Types.{Machine, Permission}
use orion_belt.Store.Permissions.{has_text, unexpired}
use orion_belt.World.{Env, World}
use orion_belt.Store.Listing.{page}

-- The row gives access of the type to the machine as the account: a row without a list of accounts
-- gives every type as any account.
abbrev pub gives : String → String → String → EffectiveAccess → Bool
gives m a r row = row.machine_id == m && elim row.remote_users [
  | none ↦ row.access_type == "*"
  | some rs ↦ row.access_type == a && has_text r rs
]

-- A grant has one of the types that grants are made for, which are not empty.
abbrev pub IsTyped : Permission → Type 0
IsTyped p = (p.access_type == "") ≡ false

module _ (env : Env) (u m a r : String) (w : World) where
  abbrev pub created_time : Machine → ℕ
  created_time x = x.created_at

  -- The machine is among those that the list is made for.
  abbrev pub is_listed : Bool
  is_listed = any (λ (x : Machine). x.id == m) (page created_time effective_list_limit 0 w.machines)

  abbrev live_rows : ℕ → List Permission
  live_rows t =
      sort_desc (λ (p : Permission). p.granted_at)
        (keep (λ (p : Permission). p.user_id == u && unexpired p.expires_at t) w.permissions)
