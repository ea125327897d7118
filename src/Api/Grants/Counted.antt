-- ===== src/Api/Grants/Counted.antt =====
-- What a bulk grant answers: pkg/api/permissions_bulk.go.
use orion_belt.Prelude.{
  Any, List, Option, String, [], ap, arith, eqb, false, inl, inr, length, ltb, none, refl, suc, ℕ,
  ◌*◌, ◌++◌, ◌+◌, ◌||◌, ◌∙◌, ◌∷◌, ◌≡◌,
}
use orion_belt.Apperr.{Error, Result-cases, err, ok, ◌+++◌}
use orion_belt.Api.Review.{Caller, Notice, record_audit}
use orion_belt.Api.Grants.{
  FailedPair, GrantTerms, add_changed, all_pairs, bulk_grant_all, bulk_grant_one,
  bulk_grant_permissions, bulk_granted, changed_notices, grant_lifetime, pairs_with,
}
use orion_belt.World.{Env, M, World}
use orion_belt.Auth.{expiry_from, grant_permission}
use orion_belt.Api.Bulk.{max_bulk_grants}
use orion_belt.Api.Submit.{validate_grant_targets}
use orion_belt.Auth.Effect.{IsGrant, grant_permission_unchanged, grant_permission-IsGrant}

length-append : (xs ys : List FailedPair) → length (xs ++ ys) ≡ length xs + length ys
length-append [] ys = omega arith
length-append (x ∷ xs) ys = rw (length-append xs ys) (omega arith)

length-pairs_with : (u : String) (ms : List String) → length (pairs_with u ms) ≡ length ms
length-pairs_with u [] = refl
length-pairs_with u (m ∷ ms) = ap suc (length-pairs_with u ms)

pub length-all_pairs : (us ms : List String) → length (all_pairs us ms) ≡ length us * length ms
length-all_pairs [] ms = ground arith
length-all_pairs (u ∷ us) ms =
    length-append (pairs_with u ms) (all_pairs us ms)
    ∙ rw (length-pairs_with u ms, length-all_pairs us ms) (ground arith)

module _ (env : Env) (parse_time : String → Option ℕ) where
  abbrev pub grant_pair : Caller → GrantTerms → Option ℕ → FailedPair → M (Unit {0})
  grant_pair c t d p =
      grant_permission env p.user_id p.machine_id t.access_type t.remote_users c.user_id d

  -- The grant of each pair is asked for in turn, each in the world that the one before has left: the
  -- pairs that were granted, which leaves their row, and those that were not, which changes none.
  pub data Outcomes (c : Caller) (t : GrantTerms) (d : Option ℕ)
      : List FailedPair → List FailedPair → List FailedPair → World → World → Type 0 where
    over : (w : World) → Outcomes c t d [] [] [] w w
    was_granted :
        {ps gs fs : List FailedPair} {w x v : World} (p : FailedPair)
        → grant_pair c t d p w ≡ (ok tt, x)
        → Any
            (IsGrant p.user_id p.machine_id t.access_type t.remote_users c.user_id
              (expiry_from (env.clock w.tick) d))
            x.permissions
        → Outcomes c t d ps gs fs
            (record_audit env c "permission.grant" ("machine:" +++ p.machine_id) x).1
            v
        → Outcomes c t d (p ∷ ps) (p ∷ gs) fs w v
    was_refused :
        {ps gs fs : List FailedPair} {w x v : World} (p : FailedPair) (e : Error)
        → grant_pair c t d p w ≡ (err e, x)
        → x.permissions ≡ w.permissions
        → Outcomes c t d ps gs fs x v
        → Outcomes c t d (p ∷ ps) gs (p ∷ fs) w v

  Outcomes-length :
      {c : Caller} {t : GrantTerms} {d : Option ℕ} {ps gs fs : List FailedPair} {w v : World}
      → Outcomes c t d ps gs fs w v
      → length gs + length fs ≡ length ps
  Outcomes-length (over w) = refl
  Outcomes-length (was_granted p e row r) = let k = Outcomes-length r in ground (arith, k)
  Outcomes-length (was_refused p e f same r) = let k = Outcomes-length r in ground (arith, k)

  audit_ok : (c : Caller) (a r : String) (w : World) → (record_audit env c a r w).0 ≡ ok tt
  unfolding record_audit
  audit_ok c a r w = ground arith

  bulk_grant_one-granted :
      (c : Caller) (t : GrantTerms) (d : Option ℕ) (p : FailedPair) (w x : World)
      → grant_pair c t d p w ≡ (ok tt, x)
      → bulk_grant_one env parse_time c t d p w
        ≡ (ok (ok tt), (record_audit env c "permission.grant" ("machine:" +++ p.machine_id) x).1)
  unfolding bulk_grant_one
  bulk_grant_one-granted c t d p w x h =
      let audit = audit_ok c "permission.grant" ("machine:" +++ p.machine_id) x in
      ground (arith, h, audit)

  bulk_grant_one-refused :
      (c : Caller) (t : GrantTerms) (d : Option ℕ) (p : FailedPair) (w x : World) (e : Error)
      → grant_pair c t d p w ≡ (err e, x)
      → bulk_grant_one env parse_time c t d p w ≡ (ok (err e), x)
  unfolding bulk_grant_one
  bulk_grant_one-refused c t d p w x e h = ground (arith, h)

  -- The loop of a bulk grant counts the pairs that were granted and lists those that were not.
  pub bulk_grant_all-Outcomes :
      (c : Caller) (t : GrantTerms) (d : Option ℕ) (ps : List FailedPair) (w : World)
      → (gs fs : List FailedPair) × (ms : List String) × (v : World) × (bulk_grant_all env
            parse_time c t d ps w
          ≡ (ok (length gs, fs, ms), v))
        × Outcomes c t d ps gs fs w v
  unfolding bulk_grant_all
  bulk_grant_all-Outcomes c t d [] w = ([], [], [], w, refl, over w)
  bulk_grant_all-Outcomes c t d (p ∷ ps) w =
      let u = p.user_id in
      let m = p.machine_id in
      let call = grant_pair c t d p w in
      elim (Result-cases call.0) [
        | inl (e, h) ↦
            let failed : call ≡ (err e, call.1) = ground (arith, h) in
            let one = bulk_grant_one-refused c t d p w call.1 e failed in
            let (gs, fs, ms, v, rest, outcomes) = bulk_grant_all-Outcomes c t d ps call.1 in
            let (_, keeps) =
              grant_permission_unchanged env u m t.access_type t.remote_users c.user_id d w in
            (
              gs,
              p ∷ fs,
              ms,
              v,
              ground (arith, one, rest),
              was_refused p e failed (keeps e h) outcomes,
            )
        | inr (x, h) ↦
            let done : call ≡ (ok tt, call.1) = ground (arith, h) in
            let after = (record_audit env c "permission.grant" ("machine:" +++ m) call.1).1 in
            let one = bulk_grant_one-granted c t d p w call.1 done in
            let (gs, fs, ms, v, rest, outcomes) = bulk_grant_all-Outcomes c t d ps after in
            let (row, _) =
              grant_permission-IsGrant env u m t.access_type t.remote_users c.user_id d w call.1
                done in
            (
              p ∷ gs,
              fs,
              add_changed m ms,
              v,
              ground (arith, one, rest),
              was_granted p done row outcomes,
            )
      ]

  -- A bulk grant whose body is in order asks for the grant of each pair of a user and a machine in
  -- turn, and is answered with the number of the pairs that were granted, each of which left its row
  -- when it was, and with the pairs that were refused, which changed no row; together they are all
  -- pairs, whichever statements fail.
  pub bulk_grant_permissions-counts :
      (c : Caller) (us ms : List String) (t : GrantTerms) (d : Option ℕ) (w v : World)
      → (eqb (length us * length ms) 0 || ltb max_bulk_grants (length us * length ms)) ≡ false
      → validate_grant_targets env.quote t.access_type t.remote_users ≡ none
      → grant_lifetime env parse_time t.duration_sec t.expires_at w ≡ (ok d, v)
      → (gs fs : List FailedPair) × (ns : List Notice) × (u : World) × (bulk_grant_permissions env
            parse_time c us ms t w
          ≡ (ok (bulk_granted (length gs) fs ns), u))
        × Outcomes c t d (all_pairs us ms) gs fs v u
        × (length gs + length fs ≡ length us * length ms)
  unfolding bulk_grant_permissions
  bulk_grant_permissions-counts c us ms t d w v size targets lifetime =
      let (gs, fs, changed, u, run, outcomes) = bulk_grant_all-Outcomes c t d (all_pairs us ms) v in
      (
        gs,
        fs,
        changed_notices t.access_type changed,
        u,
        ground (arith, size, targets, lifetime, run),
        outcomes,
        Outcomes-length outcomes ∙ length-all_pairs us ms,
      )
