-- ===== src/Auth/Effect.antt =====
-- What granting leaves in the tables: `GrantPermission` of
-- pkg/auth/auth.go.
use orion_belt.Prelude.{
  Any, Any-map, Any-update_where, List, Option, String, ap, arith, eq_iff, eq_refl, here, keep,
  none, refl, some, suc, sym, true, update_where, ℕ, ◌==◌, ◌∙◌, ◌∷◌, ◌≡◌,
}
use orion_belt.World.{Env, World, step}
use orion_belt.Types.{Permission, new_permission}
use orion_belt.Store.Permissions.{
  create_permission, find_active_permission, is_active_trio, newest, update_permission,
}
use orion_belt.Auth.Grant.{
  add_duration, create_new, expiry_from, grant_permission, replace, tell_authorizer,
}
use orion_belt.Apperr.{Error, Result, err, ok}
use orion_belt.Store.Permissions.Selection.{newest-keep}

-- The row gives exactly what was asked for.
pub record IsGrant (u m a : String) (rs : List String) (by : String) (e : Option ℕ) (p : Permission)
    : Type 0 where
  pub user : p.user_id ≡ u
  pub machine : p.machine_id ≡ m
  pub kind : p.access_type ≡ a
  pub accounts : p.remote_users ≡ rs
  pub grantor : p.granted_by ≡ by
  pub expiry : p.expires_at ≡ e

abbrev pub rewritten : Permission → ℕ → Permission → Permission
rewritten p t q = record q {
  access_type = p.access_type;
  remote_users = p.remote_users;
  expires_at = p.expires_at;
  granted_by = p.granted_by;
  granted_at = t;
}

module _ (env : Env) where
  replace-ok :
      (p : Permission) (rs : List String) (by : String) (e : Option ℕ) (w w' : World)
      → replace env p rs by e w ≡ (ok tt, w')
      → (w'.permissions
          ≡ update_where
              (λ q. q.id == p.id)
              (rewritten
                (record p { remote_users = rs; expires_at = e; granted_by = by })
                (env.clock w.tick))
              w.permissions)
        × (w'.requests ≡ w.requests)
  unfolding update_permission
  replace-ok p rs by e w w' h = ground arith

  create_new-ok :
      (u m a : String) (rs : List String) (by : String) (e : Option ℕ) (w w' : World)
      → create_new env u m a rs by e w ≡ (ok tt, w')
      → (w'.permissions
          ≡ new_permission (env.fresh w.tick) (env.clock (suc w.tick)) u m a rs by e
            ∷ w.permissions)
        × (w'.requests ≡ w.requests)
  unfolding create_permission tell_authorizer
  create_new-ok u m a rs by e w w' h = ground arith

  trio_of :
      (t : ℕ) (u m a : String) (q : Permission)
      → is_active_trio t u m a q ≡ true
      → (q.user_id ≡ u) × (q.machine_id ≡ m) × (q.access_type ≡ a)
  trio_of t u m a q h =
      ground (arith, eq_iff q.user_id u, eq_iff q.machine_id m, eq_iff q.access_type a)

  find_active_permission-ok :
      (u m a : String) (w : World) (p : Permission)
      → (find_active_permission env u m a w).0 ≡ ok p
      → newest (keep (is_active_trio (env.db_clock w.tick) u m a) w.permissions) ≡ some p
  unfolding find_active_permission
  find_active_permission-ok u m a w p h = ground arith

  find_active_permission_unchanged :
      (u m a : String) (w : World) → (find_active_permission env u m a w).1 ≡ step w
  unfolding find_active_permission
  find_active_permission_unchanged u m a w = ground arith

  abbrev after_expiry : Option ℕ → World → World
  after_expiry none w = w
  after_expiry (some d) w = step w

  abbrev store_grant :
      String
      → String
      → String
      → List String
      → String
      → Option ℕ
      → World
      → Result Permission
      → Result (Unit {0}) × World
  store_grant u m a rs by e w (ok p) = replace env p rs by e w
  store_grant u m a rs by e w (err _) = create_new env u m a rs by e w

  grant_permission_lem :
      (u m a : String) (rs : List String) (by : String) (d : Option ℕ) (w : World)
      → grant_permission env u m a rs by d w
        ≡ store_grant u m a rs by
            (expiry_from (env.clock w.tick) d)
            (step (after_expiry d w))
            (find_active_permission env u m a (after_expiry d w)).0
  unfolding grant_permission
  grant_permission_lem u m a rs by none w = ground (arith, find_active_permission_unchanged u m a w)
  grant_permission_lem u m a rs by (some d) w =
      ground (arith, find_active_permission_unchanged u m a (step w))

  after_expiry_requests : (d : Option ℕ) (w : World) → (after_expiry d w).requests ≡ w.requests
  after_expiry_requests none w = refl
  after_expiry_requests (some d) w = refl

  rewritten-IsGrant :
      (u m a : String) (rs : List String) (by : String) (e : Option ℕ) (t t' : ℕ) (p q : Permission)
      → q ≡ p
      → is_active_trio t u m a q ≡ true
      → IsGrant u m a rs by e
          (rewritten (record p { remote_users = rs; expires_at = e; granted_by = by }) t' q)
  rewritten-IsGrant u m a rs by e t t' p q same h =
      let (hu, hm, ha) = trio_of t u m a q h in
      record {
        user = hu;
        machine = hm;
        kind = ap (λ (x : Permission). x.access_type) (sym same) ∙ ha;
        accounts = refl;
        grantor = refl;
        expiry = refl;
      }

  store_grant-ok :
      (u m a : String) (rs : List String) (by : String) (e : Option ℕ) (v w' : World)
      (r : Result Permission)
      → (find_active_permission env u m a v).0 ≡ r
      → store_grant u m a rs by e (step v) r ≡ (ok tt, w')
      → Any (IsGrant u m a rs by e) w'.permissions × (w'.requests ≡ v.requests)
  unfolding new_permission
  store_grant-ok u m a rs by e v w' (err x) f h =
      let (made, same) = create_new-ok u m a rs by e (step v) w' h in
      (
        rw made (
            here (record {
              user = refl;
              machine = refl;
              kind = refl;
              accounts = refl;
              grantor = refl;
              expiry = refl;
            })),
        same,
      )
  store_grant-ok u m a rs by e v w' (ok p) f h =
      let (made, same) = replace-ok p rs by e (step v) w' h in
      let test = is_active_trio (env.db_clock v.tick) u m a in
      let row = newest-keep test v.permissions p (find_active_permission-ok u m a v p f) in
      (
        rw made (
            Any-update_where {P = λ (q : Permission). (q ≡ p) × (test q ≡ true)}
              (λ (q : Permission). q.id == p.id) {Q = IsGrant u m a rs by e}
              (rewritten (record p { remote_users = rs; expires_at = e; granted_by = by })
                (env.clock (suc v.tick)))
              (λ q same_row.
                rewritten-IsGrant u m a rs by e (env.db_clock v.tick) (env.clock (suc v.tick)) p q
                  same_row.0 same_row.1)
              v.permissions
              (Any-map (λ q s. (s, rw (ap (λ (x : Permission). x.id) s.0) (eq_refl p.id))) row)),
        same,
      )

  -- A grant that succeeds leaves a row in the table that gives exactly what was asked for and ends
  -- the given time after the clock was read, whether it is new or replaces a live one; no access
  -- request changes.
  pub grant_permission-IsGrant :
      (u m a : String) (rs : List String) (by : String) (d : Option ℕ) (w w' : World)
      → grant_permission env u m a rs by d w ≡ (ok tt, w')
      → Any (IsGrant u m a rs by (expiry_from (env.clock w.tick) d)) w'.permissions
        × (w'.requests ≡ w.requests)
  grant_permission-IsGrant u m a rs by d w w' h =
      let (row, same) =
        store_grant-ok u m a rs by (expiry_from (env.clock w.tick) d) (after_expiry d w) w'
          (find_active_permission env u m a (after_expiry d w)).0 refl
          (rw (grant_permission_lem u m a rs by d w) at h) in
      (row, same ∙ after_expiry_requests d w)

  replace_unchanged :
      (p : Permission) (rs : List String) (by : String) (e : Option ℕ) (w : World)
      → ((replace env p rs by e w).1.requests ≡ w.requests)
        × ((x : Error)
            → (replace env p rs by e w).0 ≡ err x
            → (replace env p rs by e w).1.permissions ≡ w.permissions)
  unfolding update_permission
  replace_unchanged p rs by e w = (ground arith, λ x h. ground arith)

  create_new_unchanged :
      (u m a : String) (rs : List String) (by : String) (e : Option ℕ) (w : World)
      → ((create_new env u m a rs by e w).1.requests ≡ w.requests)
        × ((x : Error)
            → (create_new env u m a rs by e w).0 ≡ err x
            → (create_new env u m a rs by e w).1.permissions ≡ w.permissions)
  unfolding create_permission tell_authorizer
  create_new_unchanged u m a rs by e w = (ground arith, λ x h. ground arith)

  store_grant_unchanged :
      (u m a : String) (rs : List String) (by : String) (e : Option ℕ) (w : World)
      (r : Result Permission)
      → ((store_grant u m a rs by e w r).1.requests ≡ w.requests)
        × ((x : Error)
            → (store_grant u m a rs by e w r).0 ≡ err x
            → (store_grant u m a rs by e w r).1.permissions ≡ w.permissions)
  store_grant_unchanged u m a rs by e w (ok p) = replace_unchanged p rs by e w
  store_grant_unchanged u m a rs by e w (err _) = create_new_unchanged u m a rs by e w

  -- The requests and, where it fails, the grants after a grant.
  pub grant_permission_unchanged :
      (u m a : String) (rs : List String) (by : String) (d : Option ℕ) (w : World)
      → ((grant_permission env u m a rs by d w).1.requests ≡ w.requests)
        × ((x : Error)
            → (grant_permission env u m a rs by d w).0 ≡ err x
            → (grant_permission env u m a rs by d w).1.permissions ≡ w.permissions)
  grant_permission_unchanged u m a rs by none w =
      rw (grant_permission_lem u m a rs by none w)
        (store_grant_unchanged u m a rs by none (step w) (find_active_permission env u m a w).0)
  grant_permission_unchanged u m a rs by (some d) w =
      rw (grant_permission_lem u m a rs by (some d) w) (
        store_grant_unchanged u m a rs by (some (add_duration (env.clock w.tick) d)) (step (step w))
          (find_active_permission env u m a (step w)).0)

  -- A grant that fails, at whichever of its steps, changes no grant and no access request.
  pub grant_permission-fails :
      (u m a : String) (rs : List String) (by : String) (d : Option ℕ) (w w' : World) (x : Error)
      → grant_permission env u m a rs by d w ≡ (err x, w')
      → (w'.permissions ≡ w.permissions) × (w'.requests ≡ w.requests)
  grant_permission-fails u m a rs by d w w' x h =
      let k = grant_permission_unchanged u m a rs by d w in
      let same = ap (λ r. r.1) h in
      (
        sym (ap (λ (v : World). v.permissions) same) ∙ k.1 x (ap (λ r. r.0) h),
        sym (ap (λ (v : World). v.requests) same) ∙ k.0,
      )
