-- ===== src/Auth/Explain/Links.antt =====
-- Which links of an explanation hold: pkg/auth/explain.go.
use orion_belt.Prelude.{
  Bool, Bool-cases, List, Option-cases, String, [], any, any-append, arith, false, find, inl, inr,
  map, refl, some, suc, text_cases, true, ℕ, ◌&&◌, ◌++◌, ◌==◌, ◌||◌, ◌∷◌, ◌≡◌,
}
use orion_belt.Apperr.{ok}
use orion_belt.Access.{is_tunnel_access_type}
use orion_belt.Auth.Explain.{
  AccessLink, authorizer_links, explanation, grant_detail, grant_link, grant_links, link_of_grant,
  or_no_link, request_link, role_links, shown_requests, username,
}
use orion_belt.World.{Env, World}
use orion_belt.Types.{AccessRequest, Machine, Permission, User}
use orion_belt.Store.Permissions.{has_text, type_matches, unexpired}
use orion_belt.Store.Permissions.Meaning.{access_type_covers-type_matches}
use orion_belt.Store.{get_user}
use orion_belt.Types.Roles.{privileged_access}

abbrev pub holds : AccessLink → Bool
holds l = l.holds

-- The test of a grant that the explanation makes, without the user and the machine.
abbrev pub covers_now : ℕ → String → String → Permission → Bool
covers_now now a r p =
    (type_matches p.access_type a && unexpired p.expires_at now) && has_text r p.remote_users

module _ (format : ℕ → String) where
  grant_detail-covers_now :
      (now : ℕ) (a r : String) (p : Permission)
      → is_tunnel_access_type a ≡ false
      → (grant_detail format now a r p).0 ≡ covers_now now a r p
  unfolding grant_detail
  grant_detail-covers_now now a r p t =
      ground (arith, access_type_covers-type_matches p.access_type a)

  link_of_grant-holds :
      (now : ℕ) (a r : String) (rs : List AccessRequest) (p : Permission) (name : String)
      → is_tunnel_access_type a ≡ false
      → holds (link_of_grant format now a r rs p name) ≡ covers_now now a r p
  unfolding link_of_grant
  link_of_grant-holds now a r rs p name t = grant_detail-covers_now now a r p t

  pub request_links_hold :
      (r : String) (rs : List AccessRequest)
      → any holds (map (λ q. request_link format q r) rs) ≡ false
  unfolding request_link
  request_links_hold r [] = refl
  request_links_hold r (q ∷ qs) = request_links_hold r qs

module _ (env : Env) (format : ℕ → String) where
  username-ok :
      (id : String) (w : World)
      → (name : String) × (n : ℕ) × (username env format id w ≡ (ok name, record w { tick = n }))
  unfolding username get_user
  username-ok id w = elim (text_cases id "") [
    | inl e ↦ ("", w.tick, rw e refl)
    | inr e ↦ elim (Option-cases (env.fault w.tick)) [
      | inr (x, f) ↦ (id, suc w.tick, ground (arith, e, f))
      | inl f ↦ elim (Option-cases (find (λ (u : User). u.id == id) w.users)) [
        | inl g ↦ (id, suc w.tick, ground (arith, e, f, g))
        | inr (u, g) ↦ (u.username, suc w.tick, ground (arith, e, f, g))
      ]
    ]
  ]

  pub grant_links-covers_now :
      (a r : String) (rs : List AccessRequest) (now : ℕ) (gs : List Permission) (w : World)
      → is_tunnel_access_type a ≡ false
      → (links : List AccessLink) × (n : ℕ) × (grant_links env format a r rs now gs w
          ≡ (ok links, record w { tick = n }))
        × (any holds links ≡ any (covers_now now a r) gs)
  unfolding grant_links grant_link
  grant_links-covers_now a r rs now [] w t = ([], w.tick, refl, refl)
  grant_links-covers_now a r rs now (g ∷ gs) w t =
      let (name, n, e) = username-ok g.granted_by w in
      let (links, k, f, h) = grant_links-covers_now a r rs now gs (record w { tick = n }) t in
      (
        link_of_grant format now a r rs g name ∷ links,
        k,
        ground (arith, e, f),
        rw (link_of_grant-holds format now a r rs g name t, h) refl,
      )

  or_no_link-holds :
      (u m : String) (ls : List AccessLink) → any holds (or_no_link u m ls) ≡ any holds ls
  or_no_link-holds u m [] = refl
  or_no_link-holds u m (l ∷ ls) = refl

  role_links-holds : (u : User) → any holds (role_links u) ≡ privileged_access (some u)
  unfolding role_links
  role_links-holds u = elim (Bool-cases (privileged_access (some u))) [
    | inl e ↦ rw e refl
    | inr e ↦ rw e refl
  ]

  authorizer_links-holds : any holds (authorizer_links env) ≡ false
  unfolding authorizer_links
  authorizer_links-holds = elim (Option-cases env.authorizer) [
    | inl e ↦ rw e refl
    | inr (s, e) ↦ rw e refl
  ]

  or_false : (b : Bool) → (b || false) ≡ b
  or_false true = refl
  or_false false = refl

  pub explanation-holds :
      (u : User) (m : Machine) (mid a r : String) (allowed : Bool) (ls : List AccessLink)
      (rs : List AccessRequest)
      → any holds (explanation env format u m mid a r allowed ls rs).chain
        ≡ (privileged_access (some u) || any holds ls)
  unfolding explanation
  explanation-holds u m mid a r allowed ls rs =
      let shown = map (λ q. request_link format q r) (shown_requests mid rs) in
      rw
        (
          or_no_link-holds u.username m.name
              (role_links u ++ (ls ++ (shown ++ authorizer_links env))),
          any-append holds (role_links u) (ls ++ (shown ++ authorizer_links env)),
          any-append holds ls (shown ++ authorizer_links env),
          any-append holds shown (authorizer_links env),
          role_links-holds u,
          request_links_hold format r (shown_requests mid rs),
          authorizer_links-holds,
          or_false (any holds ls),
        )
        refl

  pub explanation-allowed :
      (x : User) (y : Machine) (mid a r : String) (b : Bool) (links : List AccessLink)
      (rs : List AccessRequest)
      → (explanation env format x y mid a r b links rs).allowed ≡ b
  unfolding explanation
  explanation-allowed x y mid a r b links rs = refl
