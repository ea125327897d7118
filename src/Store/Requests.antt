-- ===== src/Store/Requests.antt =====
-- The statements on access requests of pkg/database/postgres.go.
use orion_belt.Prelude.{
  Bool, Option, String, any, find, if◌then◌else◌, none, not, some, true, update_where, ◌&&◌, ◌==◌,
  ◌||◌, ◌∷◌,
}
use orion_belt.Apperr.{err, ok}
use orion_belt.Types.{AccessRequest}
use orion_belt.World.{Env, M, World, fail, pure, sql, wrap, ◌>>=◌}
use orion_belt.Store.Rows.{err_not_found, fits_integer, machine_exists, query_row, user_exists}

abbrev pub reviewer_ok : Option String → World → Bool
reviewer_ok none w = true
reviewer_ok (some id) w = user_exists id w

-- The columns that `UpdateAccessRequest` writes.
abbrev pub reviewed : AccessRequest → AccessRequest → AccessRequest
reviewed r old = record old {
  status = r.status;
  reviewed_at = r.reviewed_at;
  reviewed_by = r.reviewed_by;
  expires_at = r.expires_at;
  duration = r.duration;
}

module _ (env : Env) where
  unfoldable pub create_access_request : AccessRequest → M (Unit {0})
  create_access_request r0 =
      let r = (if r0.access_type == "" then record r0 { access_type = "both" } else r0) in
      wrap "failed to create access request" (
        sql env (λ _ w.
          if any (λ (q : AccessRequest). q.id == r.id) w.requests
            || not (user_exists r.user_id w)
            || not (machine_exists r.machine_id w)
            || not (fits_integer r.duration)
            || not (reviewer_ok r.reviewed_by w)
          then (err env.constraint_error, w)
          else (ok tt, record w { requests = r ∷ w.requests })))

  unfoldable pub get_access_request : String → M AccessRequest
  get_access_request id =
      query_row env "failed to get access request"
        (λ w. find (λ (r : AccessRequest). r.id == id) w.requests)

  unfoldable pub update_access_request : AccessRequest → M (Unit {0})
  update_access_request r = do
    found ← wrap "failed to update access request" (
        sql env (λ _ w.
          if any (λ (q : AccessRequest). q.id == r.id) w.requests
            && (not (fits_integer r.duration) || not (reviewer_ok r.reviewed_by w))
          then (err env.constraint_error, w)
          else (
            ok (any (λ (q : AccessRequest). q.id == r.id) w.requests),
            record w { requests = update_where (λ q. q.id == r.id) (reviewed r) w.requests },
          )))
    if found then pure tt else fail err_not_found
