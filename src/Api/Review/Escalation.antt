-- ===== src/Api/Review/Escalation.antt =====
-- Who can approve an escalated access request: pkg/api/api.go.
use orion_belt.Prelude.{
  Any, List, Option, String, arith, false, none, refl, some, sym, true, ℤ, ◌≡◌,
}
use orion_belt.World.{Env, World, step}
use orion_belt.Api.Review.{
  Caller, Notice, answered, caller_is_admin, handle_approve, is_escalated_decision, record_audit,
  resolve_reviewer_id,
}
use orion_belt.Store.Requests.{get_access_request}
use orion_belt.Apperr.{ok}
use orion_belt.Types.{AccessRequest}
use orion_belt.Auth.Approval.{approve_access_request_with_ttl-grants, granted_until, request_of}
use orion_belt.Auth.Effect.{IsGrant}
use orion_belt.Auth.{approve_access_request_with_ttl, or_both}

module _ (env : Env) where
  -- A caller who is not an admin changes nothing by approving a request that the risk policy
  -- escalated, where the request can be read.
  pub handle_approve-is_escalated :
      (c : Caller) (id requested : String) (o : Option ℤ) (w : World) (r : AccessRequest)
      → env.fault w.tick ≡ none
      → request_of id w.requests ≡ some r
      → is_escalated_decision r.risk_decision ≡ true
      → caller_is_admin c ≡ false
      → ((handle_approve env c id requested o w).1.permissions ≡ w.permissions)
        × ((handle_approve env c id requested o w).1.requests ≡ w.requests)
        × ((handle_approve env c id requested o w).1.sent ≡ w.sent)
  unfolding handle_approve get_access_request resolve_reviewer_id
  handle_approve-is_escalated c id requested o w r f e d a = ground arith

  answered-approves :
      (c : Caller) (id requested : String) (o : Option ℤ) (w : World) (a : AccessRequest)
      (n : List Notice)
      → (handle_approve env c id requested o w).0 ≡ ok (answered 200 a, n)
      → ((approve_access_request_with_ttl env id c.user_id o (step w)).0 ≡ ok tt)
        × ((handle_approve env c id requested o w).1.permissions
            ≡ (approve_access_request_with_ttl env id c.user_id o (step w)).1.permissions)
  unfolding handle_approve get_access_request resolve_reviewer_id record_audit
  answered-approves c id requested o w a n h = (ground arith, ground arith)

  -- A request that is answered as approved was pending, and the caller is now the grantor of a grant
  -- of exactly what it asked for, for the caller's duration if one was given.
  pub handle_approve-grants :
      (c : Caller) (id requested : String) (o : Option ℤ) (w : World) (a : AccessRequest)
      (n : List Notice)
      → (handle_approve env c id requested o w).0 ≡ ok (answered 200 a, n)
      → (r : AccessRequest) × (request_of id w.requests ≡ some r)
        × (r.status ≡ "pending")
        × Any
            (IsGrant r.user_id r.machine_id
              (or_both r.access_type)
              r.remote_users
              c.user_id
              (granted_until env o (step w) r))
            (handle_approve env c id requested o w).1.permissions
  handle_approve-grants c id requested o w a n h =
      let (done, same) = answered-approves c id requested o w a n h in
      let w' : World = (approve_access_request_with_ttl env id c.user_id o (step w)).1 in
      let (r, e, pending, changed, row) =
        approve_access_request_with_ttl-grants env id c.user_id o (step w) w'
          (rw (sym done) refl) in
      (r, e, pending, rw same row)
