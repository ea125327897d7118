-- ===== src/Live/Conn.antt =====
-- One SSH connection of a client: the slots of its tunnels and the grants it was allowed lately, in
-- pkg/server/resilience.go. The calls of a connection interleave in any order.
pub mod Bounded
use orion_belt.Prelude.{
  Bool, List, Option, String, [], false, if◌then◌else◌, keep, ltb, none, not, some, suc, true, zero,
  ℕ, ◌+◌, ◌==◌, ◌∷◌,
}

-- `slots` is the number of items in the buffered channel, and `grants` maps a key to the time until
-- which it is allowed.
pub record ClientConn : Type 0 where
  pub user_id : String
  pub username : String
  pub slots : ℕ
  pub limit : ℕ
  pub grant_ttl : ℕ
  pub grants : List (String × ℕ)

unfoldable pub new_client_conn : String → String → ℕ → ℕ → ClientConn
new_client_conn user_id username grant_ttl limit = record {
  user_id = user_id;
  username = username;
  slots = 0;
  limit = limit;
  grant_ttl = grant_ttl;
  grants = [];
}

unfoldable pub acquire : ClientConn → Bool × ClientConn
acquire c = if ltb c.slots c.limit then (true, record c { slots = suc c.slots }) else (false, c)

-- Receiving from the channel blocks while it is empty, which is `none`.
unfoldable pub release : ClientConn → Option ClientConn
release c = elim c.slots [ zero ↦ none | suc n ↦ some (record c { slots = n }) ]

-- A key that is missing reads as the zero time.
abbrev pub allowed_until : String → List (String × ℕ) → ℕ
allowed_until key [] = 0
allowed_until key ((k, t) ∷ m) = if k == key then t else allowed_until key m

unfoldable pub allowed : ClientConn → String → ℕ → Bool
allowed c key now = ltb now (allowed_until key c.grants)

unfoldable pub remember : ClientConn → String → ℕ → ClientConn
remember c key now = record c {
  grants = (key, now + c.grant_ttl) ∷ keep (λ e. not (e.0 == key)) c.grants;
}
