-- ===== src/Auth/Approval.antt =====
-- Approving and rejecting an access request: pkg/auth/auth.go.
use orion_belt.Prelude.{
  Any, Any-any, Any-map, List, Option, Option-cases, String, any, ap, arith, eq_iff, eq_join,
  eq_refl, false, find, find-eq, find-test, find-update_where, inl, inr, none, refl, some, subst,
  suc, true, update_where, ℕ, ℤ, ◌==◌, ◌∙◌, ◌≡◌,
}
use orion_belt.World.{Env, M, World, step, wrap, wrap-err}
use orion_belt.Types.{AccessRequest}
use orion_belt.Auth.Request.{
  approve_access_request_with_ttl, approved, chosen_duration, grant_duration, not_pending, or_both,
  reject_access_request,
}
use orion_belt.Store.Requests.{get_access_request, reviewed, update_access_request}
use orion_belt.Auth.Grant.{expiry_from, grant_permission}
use orion_belt.Apperr.{Error, err, ok, wrapped}
use orion_belt.Auth.Effect.{IsGrant, grant_permission-IsGrant, grant_permission_unchanged}
use orion_belt.Store.{fits_integer, nullable_user_ok}

abbrev pub request_of : String → List AccessRequest → Option AccessRequest
request_of id = find (λ (r : AccessRequest). r.id == id)

abbrev pub review_all : AccessRequest → List AccessRequest → List AccessRequest
review_all r = update_where (λ (q : AccessRequest). q.id == r.id) (reviewed r)

same_id : (q r : AccessRequest) → q ≡ r → (q.id == r.id) ≡ true
same_id q r s = rw s (eq_refl r.id)

reviewed_row :
    (id : String) (r n : AccessRequest) (xs : List AccessRequest)
    → n.id ≡ r.id
    → request_of id xs ≡ some r
    → request_of id (review_all n xs) ≡ some (reviewed n r)
reviewed_row id r n xs same e =
    find-update_where (λ (q : AccessRequest). q.id == id) (λ q. q.id == n.id) (reviewed n) xs r
      (λ y. refl)
      (λ y h.
        eq_join y.id id n.id h (rw same (find-test (λ (q : AccessRequest). q.id == id) xs r e)))
      e

module _ (env : Env) where
  -- What a review of a request that is not pending is refused with: the conflict, or the error of
  -- the read where that fails.
  abbrev pub refusal : World → Error
  refusal v = elim (env.fault v.tick) [
    | none ↦ not_pending
    | some e ↦ wrapped "failed to get access request" (wrapped "failed to get access request" e)
  ]

  approve_refused :
      (id by : String) (o : Option ℤ) (w : World) (r : AccessRequest)
      → request_of id w.requests ≡ some r
      → (r.status == "pending") ≡ false
      → approve_access_request_with_ttl env id by o w ≡ (err (refusal w), step w)
  unfolding approve_access_request_with_ttl get_access_request
  approve_refused id by o w r e h = ground arith

  reject_refused :
      (id by : String) (w : World) (r : AccessRequest)
      → request_of id w.requests ≡ some r
      → (r.status == "pending") ≡ false
      → reject_access_request env id by w ≡ (err (refusal w), step w)
  unfolding reject_access_request get_access_request
  reject_refused id by w r e h = ground arith

  -- The request as an approval in `w` leaves it, and the world before its grant is written.
  abbrev pub approval : String → Option ℤ → World → AccessRequest → AccessRequest
  approval by override w r =
      approved by (chosen_duration r.duration override) (env.clock (suc w.tick)) r

  abbrev pub approved_world : String → Option ℤ → World → AccessRequest → World
  approved_world by override w r = record w {
    requests = review_all (approval by override w r) w.requests;
    tick = suc (suc (suc w.tick));
  }

  abbrev pub grant_for : String → Option ℤ → AccessRequest → M (Unit {0})
  grant_for by override r =
      grant_permission env r.user_id r.machine_id (or_both r.access_type) r.remote_users by
        (grant_duration (chosen_duration r.duration override))

  approval-id :
      (by : String) (o : Option ℤ) (w : World) (r : AccessRequest) → (approval by o w r).id ≡ r.id
  unfolding approved
  approval-id by o w r = refl

  approval_closed :
      (by : String) (o : Option ℤ) (w : World) (r : AccessRequest)
      → ((reviewed (approval by o w r) r).status == "pending") ≡ false
  unfolding approved
  approval_closed by o w r = refl

  approve-ok :
      (id by : String) (o : Option ℤ) (w w' : World)
      → approve_access_request_with_ttl env id by o w ≡ (ok tt, w')
      → (r : AccessRequest) × (request_of id w.requests ≡ some r)
        × (r.status ≡ "pending")
        × (grant_for by o r (approved_world by o w r) ≡ (ok tt, w'))
  unfolding approve_access_request_with_ttl get_access_request update_access_request
  approve-ok id by o w w' h = elim (Option-cases (request_of id w.requests)) [
    | inl e ↦ ground arith
    | inr (r, e) ↦ (r, e, ground (arith, eq_iff r.status "pending"), ground arith)
  ]

  -- The expiry of the grant that an approval writes: counted from the clock when it is written.
  abbrev pub granted_until : Option ℤ → World → AccessRequest → Option ℕ
  granted_until override w r =
      expiry_from (env.clock (suc (suc (suc w.tick))))
        (grant_duration (chosen_duration r.duration override))

  -- A successful approval approves the request of that id, which was pending, and leaves a grant of
  -- exactly the accounts, the user, the machine and the type that were requested, by the reviewer,
  -- for the overriding duration if there is one; the other columns of the requests stay.
  pub approve_access_request_with_ttl-grants :
      (id by : String) (o : Option ℤ) (w w' : World)
      → approve_access_request_with_ttl env id by o w ≡ (ok tt, w')
      → (r : AccessRequest) × (request_of id w.requests ≡ some r)
        × (r.status ≡ "pending")
        × (w'.requests ≡ review_all (approval by o w r) w.requests)
        × Any
            (IsGrant r.user_id r.machine_id
              (or_both r.access_type)
              r.remote_users
              by
              (granted_until o w r))
            w'.permissions
  approve_access_request_with_ttl-grants id by o w w' h =
      let (r, e, pending, g) = approve-ok id by o w w' h in
      let (row, same) =
        grant_permission-IsGrant env r.user_id r.machine_id (or_both r.access_type) r.remote_users
          by (grant_duration (chosen_duration r.duration o)) (approved_world by o w r) w' g in
      (r, e, pending, same, row)

  -- A successful approval is final: in every later world in which the row of the request is still as
  -- the approval left it, a second approval and a rejection, by anyone, change nothing, and are
  -- refused as a conflict, or with the error of their read where that fails.
  pub approve_access_request_with_ttl_once :
      (id by by' : String) (o o' : Option ℤ) (w w' v : World)
      → approve_access_request_with_ttl env id by o w ≡ (ok tt, w')
      → request_of id v.requests ≡ request_of id w'.requests
      → (approve_access_request_with_ttl env id by' o' v ≡ (err (refusal v), step v))
        × (reject_access_request env id by' v ≡ (err (refusal v), step v))
  approve_access_request_with_ttl_once id by by' o o' w w' v h kept =
      let (r, e, pending, same, row) = approve_access_request_with_ttl-grants id by o w w' h in
      let left : request_of id w'.requests ≡ some (reviewed (approval by o w r) r) =
        ap (request_of id) same
        ∙ reviewed_row id r (approval by o w r) w.requests (approval-id by o w r) e in
      let found = kept ∙ left in
      let closed = approval_closed by o w r in
      (
        approve_refused id by' o' v (reviewed (approval by o w r) r) found closed,
        reject_refused id by' v (reviewed (approval by o w r) r) found closed,
      )

  approve_access_request_with_ttl_lem :
      (id by : String) (o : Option ℤ) (w : World) (r : AccessRequest)
      → request_of id w.requests ≡ some r
      → r.status ≡ "pending"
      → fits_integer (chosen_duration r.duration o) ≡ true
      → nullable_user_ok by w ≡ true
      → env.fault w.tick ≡ none
      → env.fault (suc (suc w.tick)) ≡ none
      → any (λ (q : AccessRequest). q.id == r.id) w.requests ≡ true
      → approve_access_request_with_ttl env id by o w
        ≡ wrap "failed to grant permission" (grant_for by o r) (approved_world by o w r)
  unfolding approve_access_request_with_ttl get_access_request update_access_request
  approve_access_request_with_ttl_lem id by o w r found pending fits known f0 f2 present =
      ground (arith, eq_iff r.status "pending")

  -- The approval is not atomic. Where the request is read, its update is answered, the reviewer is a
  -- user and the duration fits the column, but the grant then fails to be written, the approval
  -- reports an error and writes no grant: the permissions stay as they were. In every later world in
  -- which the row of the request is still as this left it, approving and rejecting it change nothing
  -- and are refused as a conflict, or with the error of their read where that fails: the requester is
  -- left with an approved request and no grant of it.
  pub approve_access_request_with_ttl_lost :
      (id by by' : String) (o o' : Option ℤ) (w v : World) (r : AccessRequest) (e : Error)
      → request_of id w.requests ≡ some r
      → r.status ≡ "pending"
      → fits_integer (chosen_duration r.duration o) ≡ true
      → nullable_user_ok by w ≡ true
      → env.fault w.tick ≡ none
      → env.fault (suc (suc w.tick)) ≡ none
      → (grant_for by o r (approved_world by o w r)).0 ≡ err e
      → request_of id v.requests
        ≡ request_of id (approve_access_request_with_ttl env id by o w).1.requests
      → let (answer, w') = approve_access_request_with_ttl env id by o w in
        (answer ≡ err (wrapped "failed to grant permission" e))
        × (w'.permissions ≡ w.permissions)
        × (request_of id w'.requests ≡ some (reviewed (approval by o w r) r))
        × (approve_access_request_with_ttl env id by' o' v ≡ (err (refusal v), step v))
        × (reject_access_request env id by' v ≡ (err (refusal v), step v))
  approve_access_request_with_ttl_lost id by by' o o' w v r e found pending fits known f0 f2 g
        kept =
      let row = find-eq (λ (q : AccessRequest). q.id == id) w.requests r found in
      let present =
        Any-any (λ (q : AccessRequest). q.id == r.id) w.requests
          (Any-map (λ q s. same_id q r s) row) in
      let granted = grant_for by o r (approved_world by o w r) in
      let (same, keeps) =
        grant_permission_unchanged env r.user_id r.machine_id (or_both r.access_type) r.remote_users
          by (grant_duration (chosen_duration r.duration o)) (approved_world by o w r) in
      let after : request_of id granted.1.requests ≡ some (reviewed (approval by o w r) r) =
        rw same (reviewed_row id r (approval by o w r) w.requests (approval-id by o w r) found) in
      let closed = approval_closed by o w r in
      let failed : approve_access_request_with_ttl env id by o w
          ≡ (err (wrapped "failed to grant permission" e), granted.1) =
        approve_access_request_with_ttl_lem id by o w r found pending fits known f0 f2 present
        ∙ wrap-err "failed to grant permission" (grant_for by o r) (approved_world by o w r) e g in
      let later : request_of id v.requests ≡ some (reviewed (approval by o w r) r) =
        subst (λ t. request_of id v.requests ≡ request_of id t.1.requests) failed kept ∙ after in
      rw failed (
        refl,
        keeps e g,
        after,
        approve_refused id by' o' v (reviewed (approval by o w r) r) later closed,
        reject_refused id by' v (reviewed (approval by o w r) r) later closed,
      )
