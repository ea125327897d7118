-- ===== src/Store/Tokens.antt =====
-- The statements on API keys and HTTP sessions of pkg/database/postgres.go.
use orion_belt.Prelude.{
  Option, String, false, find, keep, ltb, none, not, some, true, update_where, ℕ, ◌&&◌, ◌==◌,
}
use orion_belt.Apperr.{ok}
use orion_belt.Types.{ApiKey, HttpSession}
use orion_belt.World.{Env, World, M, sql, ◌>>=◌, time_now}
use orion_belt.Store.Rows.{row_of}

-- A lookup whose error is not wrapped.
abbrev pub query_plain : {A : Type 0} → Env → (ℕ → World → Option A) → M A
query_plain env f = sql env (λ t w. (row_of (f t w), w))

module _ (env : Env) where
  unfoldable pub get_api_key_by_hash : String → M ApiKey
  get_api_key_by_hash hash = query_plain env (λ _ w.
      find
        (λ (k : ApiKey). k.key_hash == hash && elim k.revoked_at [ none ↦ true | some _ ↦ false ])
        w.api_keys)

  unfoldable pub update_api_key_last_used : String → ℕ → M (Unit {0})
  update_api_key_last_used id t = sql env (λ _ w. (
    ok tt,
    record w {
      api_keys =
          update_where (λ k. k.id == id) (λ k. record k { last_used_at = some t }) w.api_keys;
    },
  ))

  unfoldable pub revoke_api_key : String → M (Unit {0})
  revoke_api_key id = do
    t ← time_now env
    sql env (λ _ w. (
      ok tt,
      record w {
        api_keys =
            update_where (λ k. k.id == id) (λ k. record k { revoked_at = some t }) w.api_keys;
      },
    ))

  unfoldable pub delete_api_key : String → M (Unit {0})
  delete_api_key id =
      sql env (λ _ w. (ok tt, record w { api_keys = keep (λ k. not (k.id == id)) w.api_keys }))

  unfoldable pub get_http_session_by_token : String → M HttpSession
  get_http_session_by_token hash =
      query_plain env
        (λ t w. find (λ (s : HttpSession). s.token == hash && ltb t s.expires_at) w.http_sessions)

  unfoldable pub update_http_session_last_seen : String → ℕ → M (Unit {0})
  update_http_session_last_seen id t = sql env (λ _ w. (
    ok tt,
    record w {
      http_sessions =
          update_where (λ s. s.id == id) (λ s. record s { last_seen_at = t }) w.http_sessions;
    },
  ))

  unfoldable pub delete_http_session : String → M (Unit {0})
  delete_http_session id =
      sql env
        (λ _ w. (ok tt, record w { http_sessions = keep (λ s. not (s.id == id)) w.http_sessions }))

  unfoldable pub delete_expired_http_sessions : M (Unit {0})
  delete_expired_http_sessions = sql env (λ t w.
      (ok tt, record w { http_sessions = keep (λ s. not (ltb s.expires_at t)) w.http_sessions }))
