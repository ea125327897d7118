-- ===== src/World.antt =====
-- The state behind one gateway: the tables of pkg/database/postgres.go, the calls sent to an
-- external authorizer, and the environment that answers each step. Every read of the clock, every
-- fresh id and every SQL statement is one step, numbered by `tick`, so that what the environment
-- does is a function of the step's number and any schedule of failures is one such function.
use orion_belt.Prelude.{Bool, List, Option, String, arith, inl, inr, none, some, suc, ℕ, ◌≡◌}
use orion_belt.Apperr.{Error, Result, Result-cases, err, ok, wrapped}
use orion_belt.Plugin.{PluginSetting}
use orion_belt.Types.{
  AccessRequest, ApiKey, HttpSession, Machine, Permission, PermissionVersion, SshKey, User,
}

pub record AuditLog : Type 0 where
  pub user_id : String
  pub action : String
  pub resource : String

-- A call of `WriteGrant` or `DeleteGrant` on the external authorizer.
pub data GrantCall : Type 0 where
  write : String → String → String → GrantCall
  delete : String → String → String → GrantCall

-- The optional external authorizer (`AuthService.authorizer`): its answers at each step.
pub record Authorizer : Type 0 where
  pub check : ℕ → String → String → String → Result Bool
  pub call_error : ℕ → Option Error

pub record Env : Type 0 where
  -- `time.Now()` in the gateway, and `NOW()` in the database
  pub clock : ℕ → ℕ
  pub db_clock : ℕ → ℕ
  -- `uuid.New().String()`
  pub fresh : ℕ → String
  -- the failure of a SQL statement, none where the database answers
  pub fault : ℕ → Option Error
  -- what the driver reports for a row that breaks a constraint of the schema
  pub constraint_error : Error
  pub authorizer : Option Authorizer
  -- the quoting of `%q` in an error's text
  pub quote : String → String

-- A goroutine that a handler starts and does not wait for.
pub data Background : Type 0 where
  key_used : String → Background
  session_seen : String → Background

pub record World : Type 0 where
  pub users : List User
  pub ssh_keys : List SshKey
  pub machines : List Machine
  pub permissions : List Permission
  pub history : List PermissionVersion
  pub requests : List AccessRequest
  pub audits : List AuditLog
  pub api_keys : List ApiKey
  pub http_sessions : List HttpSession
  pub background : List Background
  pub plugin_settings : List PluginSetting
  pub sent : List GrantCall
  pub tick : ℕ

-- A call: it returns a value or an error, and the world as it stands after it.
abbrev pub M : Type 0 → Type 0
M A = World → Result A × World

infixl 5 ◌>>=◌ ◌>>◌
abbrev pub ◌>>=◌ : {A B : Type 0} → M A → (A → M B) → M B
◌>>=◌ m f w = let (r, w') = m w in elim r [ ok a ↦ f a w' | err e ↦ (err e, w') ]

abbrev pub ◌>>◌ : {A B : Type 0} → M A → M B → M B
m >> k = m >>= λ _. k

abbrev pub pure : {A : Type 0} → A → M A
pure a w = (ok a, w)

abbrev pub fail : {A : Type 0} → Error → M A
fail e w = (err e, w)

abbrev pub read : {A : Type 0} → (World → A) → M A
read f w = (ok (f w), w)

abbrev pub modify : (World → World) → M (Unit {0})
modify f w = (ok tt, f w)

-- `fmt.Errorf("text: %w", err)` round a call.
abbrev pub wrap : {A : Type 0} → String → M A → M A
wrap s m w = let (r, w') = m w in elim r [ ok a ↦ (ok a, w') | err e ↦ (err (wrapped s e), w') ]

-- The error is handed to the caller as a value.
abbrev pub attempt : {A : Type 0} → M A → M (Result A)
attempt m w = let (r, w') = m w in (ok r, w')

abbrev pub step : World → World
step w = record w { tick = suc w.tick }

module _ (env : Env) where
  abbrev pub time_now : M ℕ
  time_now w = (ok (env.clock w.tick), step w)

  abbrev pub fresh_id : M String
  fresh_id w = (ok (env.fresh w.tick), step w)

  -- One SQL statement: it fails as a whole, or its effect is `f` at the time that `NOW()` reads,
  -- which may break a constraint.
  abbrev pub sql : {A : Type 0} → (ℕ → World → Result A × World) → M A
  sql f w = elim (env.fault w.tick) [
    | none ↦ f (env.db_clock w.tick) (step w)
    | some e ↦ (err e, step w)
  ]

-- A wrapped call that fails hands on the world of the call.
pub wrap-err :
    {A : Type 0} (s : String) (m : M A) (w : World) (e : Error)
    → (m w).0 ≡ err e
    → wrap s m w ≡ (err (wrapped s e), (m w).1)
wrap-err s m w e h = ground arith

-- A chain of two calls that returns a value: both return one.
pub bind-ok :
    {A B : Type 0} (m : M A) (f : A → M B) (w : World) (b : B) (v : World)
    → (m >>= f) w ≡ (ok b, v)
    → (a : A) × (u : World) × (m w ≡ (ok a, u)) × (f a u ≡ (ok b, v))
bind-ok m f w b v h = elim (Result-cases (m w).0) [
  | inl (e, g) ↦ absurd (ground (arith, g))
  | inr (a, g) ↦ (a, (m w).1, ground (arith, g), ground (arith, g))
]

pub wrap-ok :
    {A : Type 0} (s : String) (m : M A) (w : World) (a : A) (v : World)
    → wrap s m w ≡ (ok a, v)
    → m w ≡ (ok a, v)
wrap-ok s m w a v h = ground arith
