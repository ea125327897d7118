-- ===== src/Api/Bulk/Revoked.antt =====
-- What is left after grants were revoked together: pkg/api/permissions_bulk.go.
use orion_belt.Prelude.{
  All, Any, Bool, Bool-cases, List, String, [], any, arith, false, here, inl, inr, keep, length,
  not, refl, suc, there, ℕ, ◌++◌, ◌+◌, ◌==◌, ◌∷◌, ◌≡◌, ◌⊎◌,
}
use orion_belt.Apperr.{Error, Result, Result-cases, err, ok, ◌+++◌}
use orion_belt.Auth.{revoke_permission}
use orion_belt.Api.Review.{Caller, Notice, record_audit}
use orion_belt.Types.{Permission}
use orion_belt.World.{Env, World, step}
use orion_belt.Store.Permissions.{delete_permission, get_permission}
use orion_belt.Api.Bulk.{
  BulkFailure, bulk_revoke_all, bulk_revoke_one, bulk_revoke_permissions, bulk_revoked,
  changed_cluster, failure_of,
}

abbrev pub has_id : String → Permission → Bool
has_id id p = p.id == id

gone :
    (id : String) (ps : List Permission) → any (has_id id) (keep (λ p. not (p.id == id)) ps) ≡ false
gone id [] = refl
gone id (p ∷ ps) = elim (Bool-cases (p.id == id)) [
  | inl e ↦ rw e (gone id ps)
  | inr e ↦ rw (e, e) (gone id ps)
]

still_absent :
    (id : String) (q : Permission → Bool) (ps : List Permission)
    → any (has_id id) ps ≡ false
    → any (has_id id) (keep q ps) ≡ false
still_absent id q [] h = refl
still_absent id q (p ∷ ps) h =
    let rest = still_absent id q ps in
    elim (Bool-cases (q p)) [
      | inl e ↦ ground (arith, e, h, rest)
      | inr e ↦ ground (arith, e, h, rest)
    ]

module _ (env : Env) (c : Caller) where
  revoke_rows :
      (id : String) (w : World)
      → ((revoke_permission env id w).1.permissions ≡ w.permissions)
        ⊎ ((revoke_permission env id w).1.permissions ≡ keep (λ p. not (p.id == id)) w.permissions)
  unfolding revoke_permission get_permission delete_permission
  revoke_rows id w = ground arith

  revoke_done :
      (id : String) (w : World)
      → (revoke_permission env id w).0 ≡ ok tt
      → (revoke_permission env id w).1.permissions ≡ keep (λ p. not (p.id == id)) w.permissions
  unfolding revoke_permission get_permission delete_permission
  revoke_done id w h = ground arith

  record_audit_rows :
      (a r : String) (w : World) → (record_audit env c a r w).1.permissions ≡ w.permissions
  unfolding record_audit
  record_audit_rows a r w = ground arith

  get_permission-step : (id : String) (w : World) → (get_permission env id w).1 ≡ step w
  unfolding get_permission
  get_permission-step id w = ground arith

  abbrev after_one : String → World → World
  after_one id w = (bulk_revoke_one env c id w).1

  -- A round ends, and brings no grant back; where it reports no failure, its grant is gone.
  one_round :
      (id : String) (w : World)
      → (r : Result (List Notice)) × (bulk_revoke_one env c id w ≡ (ok r, after_one id w))
        × ((after_one id w).permissions ≡ (revoke_permission env id (step w)).1.permissions)
        × (((e : Error) × (r ≡ err e))
            ⊎ ((ns : List Notice) × (r ≡ ok ns) × ((revoke_permission env id (step w)).0 ≡ ok tt)))
  unfolding bulk_revoke_one
  one_round id w =
      let s = get_permission-step id w in
      let audit =
        record_audit_rows "permission.revoke" ("permission:" +++ id)
          (revoke_permission env id (step w)).1 in
      elim (Result-cases (revoke_permission env id (step w)).0) [
        | inl (e, f) ↦ (err e, ground (arith, s, f), ground (arith, s, f), inl (e, refl))
        | inr (x, f) ↦ (
          ok (changed_cluster (get_permission env id w).0),
          ground (arith, s, f),
          ground (arith, s, f, audit),
          inr (changed_cluster (get_permission env id w).0, refl, f),
        )
      ]

  stays_gone :
      (id other : String) (w : World)
      → any (has_id other) w.permissions ≡ false
      → any (has_id other) (after_one id w).permissions ≡ false
  stays_gone id other w h =
      let (r, e, rows, _) = one_round id w in
      elim (revoke_rows id (step w)) [
        | inl f ↦ rw (rows, f) h
        | inr f ↦ rw (rows, f) (still_absent other (λ p. not (p.id == id)) w.permissions h)
      ]

  removed :
      (id : String) (w : World)
      → (revoke_permission env id (step w)).0 ≡ ok tt
      → any (has_id id) (after_one id w).permissions ≡ false
  removed id w h =
      let (r, e, rows, _) = one_round id w in
      rw (rows, revoke_done id (step w) h) (gone id w.permissions)

  -- The grant is reported as a failure, or no row has its id.
  abbrev pub IsSettled : List BulkFailure → World → String → Type 0
  IsSettled fs w id =
      Any (λ (f : BulkFailure). f.permission_id ≡ id) fs ⊎ (any (has_id id) w.permissions ≡ false)

  later_failures :
      (f : BulkFailure) (fs : List BulkFailure) (w : World) (ids : List String)
      → All (IsSettled fs w) ids
      → All (IsSettled (f ∷ fs) w) ids
  later_failures f fs w [] h = tt
  later_failures f fs w (id ∷ ids) h =
      (elim h.0 [ inl t ↦ inl (there t) | inr g ↦ inr g ], later_failures f fs w ids h.1)

  bulk_revoke_all-IsSettled :
      (ids : List String) (w : World)
      → (n : ℕ) × (fs : List BulkFailure) × (ns : List Notice) × (v : World) × (bulk_revoke_all env
            c ids w
          ≡ (ok (n, fs, ns), v))
        × (n + length fs ≡ length ids)
        × All (IsSettled fs v) ids
        × ((other : String)
            → any (has_id other) w.permissions ≡ false
            → any (has_id other) v.permissions ≡ false)
  unfolding bulk_revoke_all
  bulk_revoke_all-IsSettled [] w = (0, [], [], w, refl, refl, tt, λ other h. h)
  bulk_revoke_all-IsSettled (id ∷ ids) w =
      let (r, e, rows, kind) = one_round id w in
      let (n, fs, ns, v, run, count, settled, stay) =
        bulk_revoke_all-IsSettled ids (after_one id w) in
      elim kind [
        | inl (x, f) ↦ (
          n,
          failure_of id x ∷ fs,
          ns,
          v,
          ground (arith, e, f, run),
          ground (arith, count),
          (inl (here refl), later_failures (failure_of id x) fs v ids settled),
          λ other h. stay other (stays_gone id other w h),
        )
        | inr (ms, f, done) ↦ (
          suc n,
          fs,
          ms ++ ns,
          v,
          ground (arith, e, f, run),
          ground (arith, count),
          (inr (stay id (removed id w done)), settled),
          λ other h. stay other (stays_gone id other w h),
        )
      ]

  -- A bulk revocation that is carried out counts each listed grant once, as revoked or as failed, and
  -- leaves no row of a grant that it does not report as failed, whichever statements fail.
  pub bulk_revoke_permissions-IsSettled :
      (ids : List String) (w v : World) (n : ℕ) (fs : List BulkFailure) (ns : List Notice)
      → bulk_revoke_permissions env c ids w ≡ (ok (bulk_revoked n fs ns), v)
      → (n + length fs ≡ length ids) × All (IsSettled fs v) ids
  unfolding bulk_revoke_permissions
  bulk_revoke_permissions-IsSettled ids w v n fs ns h =
      let (m, gs, ms, x, run, count, settled, _) = bulk_revoke_all-IsSettled ids w in
      let same_n : n ≡ m = ground (arith, run) in
      let same_fs : fs ≡ gs = ground (arith, run) in
      let same_v : v ≡ x = ground (arith, run) in rw (same_n, same_fs, same_v) (count, settled)
