-- ===== src/Api/Explain/Own.antt =====
-- Whose access a caller is told about: pkg/api/explain.go.
use orion_belt.Prelude.{
  Bool, Bool-cases, List, String, ap, arith, eq_iff, false, find-test, inl, inr, none, not, refl,
  some, text_cases, trim_space, true, ℕ, ◌&&◌, ◌==◌, ◌||◌, ◌∙◌, ◌≡◌, ◌⊎◌,
}
use orion_belt.Apperr.{Result, Result-cases, ok}
use orion_belt.Access.{is_tunnel_access_type}
use orion_belt.Auth.Explain.{AccessExplanation, AccessLink, explain_access, explanation, is_ok}
use orion_belt.World.{Env, M, World, step}
use orion_belt.Types.{AccessRequest, Machine, User}
use orion_belt.Api.Explain.{
  ExplainQuery, asked_user, explain_for, explain_found, first_found, handle_explain,
}
use orion_belt.Api.Review.{Caller}
use orion_belt.Auth.Explain.Agree.{checked, explain_access-parts, get_user-find, two_more}
use orion_belt.Auth.Explain.Links.{grant_links-covers_now}
use orion_belt.Store.{get_machine, get_machine_by_name, get_user, get_user_by_username}
use orion_belt.Api.Middleware.{is_privileged_viewer}

module _ (env : Env) (format : ℕ → String) where
  explanation-user_id :
      (x : User) (y : Machine) (mid a r : String) (b : Bool) (links : List AccessLink)
      (rs : List AccessRequest)
      → (explanation env format x y mid a r b links rs).user_id ≡ x.id
  unfolding explanation
  explanation-user_id x y mid a r b links rs = refl

  explain_access-user_id :
      (u m a r : String) (w v : World) (ex : AccessExplanation)
      → is_tunnel_access_type a ≡ false
      → explain_access env format u m a r w ≡ (ok ex, v)
      → ex.user_id ≡ u
  explain_access-user_id u m a r w v ex t h =
      let (x, y, gs, rs, g1, g3, make) = explain_access-parts env format u m a r w v ex h in
      let (links, n, e, l) =
        grant_links-covers_now env format a r rs (env.clock (two_more env format u m a r w).tick) gs
          (step (two_more env format u m a r w)) t in
      ap (λ (z : AccessExplanation). z.user_id) (make links n e)
      ∙ (explanation-user_id x y m a r (is_ok (checked env format u m a r w).0) links rs
          ∙ (eq_iff x.id u).0
              (find-test (λ (z : User). z.id == u) w.users x (get_user-find env format u w x g1)))

  first_found_ends :
      {A : Type 0} (first second : M A) (w : World)
      → (r : Result A) × (v : World) × (first_found first second w ≡ (ok r, v))
  first_found_ends first second w = elim (Result-cases (first w).0) [
    | inr (a, e) ↦ (ok a, (first w).1, ground (arith, e))
    | inl (x, e) ↦ ((second (first w).1).0, (second (first w).1).1, ground (arith, e))
  ]

  explain_for-user_id :
      (u ref a r : String) (w v : World) (ex : AccessExplanation)
      → is_tunnel_access_type a ≡ false
      → explain_for env format u ref a r w ≡ (ok (explain_found ex), v)
      → ex.user_id ≡ u
  unfolding explain_for
  explain_for-user_id u ref a r w v ex t h =
      let (found, x, e) = first_found_ends (get_machine env ref) (get_machine_by_name env ref) w in
      elim (Result-cases found) [
        | inl (y, f) ↦ absurd (ground (arith, e, f))
        | inr (machine, f) ↦ elim (Result-cases (explain_access env format u machine.id a r x).0) [
          | inl (y, g) ↦ absurd (ground (arith, e, f, g))
          | inr (y, g) ↦
              let same : ex ≡ y = ground (arith, e, f, g) in
              let after = (explain_access env format u machine.id a r x).1 in
              let full : explain_access env format u machine.id a r x ≡ (ok y, after) =
                ground (arith, g) in
              rw same (explain_access-user_id u machine.id a r x after y t full)
        ]
      ]

  asked_user-is_privileged_viewer :
      (c : Caller) (ref id : String) (w v : World)
      → asked_user env format c ref w ≡ (ok (inr id), v)
      → (id ≡ c.user_id) ⊎ (is_privileged_viewer c ≡ true)
  unfolding asked_user
  asked_user-is_privileged_viewer c ref id w v h = elim (Bool-cases (ref == "")) [
    | inl e ↦ inl (ground (arith, e))
    | inr e ↦
        let (found, x, f) = first_found_ends (get_user env ref) (get_user_by_username env ref) w in
        elim (Result-cases found) [
          | inl (y, g) ↦ absurd (ground (arith, e, f, g))
          | inr (u, g) ↦ elim (text_cases u.id c.user_id) [
            | inl k ↦ inl (let same : id ≡ u.id = ground (arith, e, f, g) in same ∙ k)
            | inr k ↦ elim (Bool-cases (is_privileged_viewer c)) [
              | inl l ↦ inr l
              | inr l ↦ absurd (ground (arith, e, f, g, k, l))
            ]
          ]
        ]
  ]

  tunnel_free :
      (a : String) → ((a == "ssh") ≡ true) ⊎ ((a == "scp") ≡ true) → is_tunnel_access_type a ≡ false
  unfolding is_tunnel_access_type
  tunnel_free a (inl e) = rw ((eq_iff a "ssh").0 e) refl
  tunnel_free a (inr e) = rw ((eq_iff a "scp").0 e) refl

  ssh_or_scp : (x y : Bool) → (not x && not y) ≡ false → (x ≡ true) ⊎ (y ≡ true)
  ssh_or_scp x y h = ground arith

  abbrev query_type : ExplainQuery → String
  query_type q = elim q.access_type [ none ↦ "ssh" | some t ↦ t ]

  -- Who is told about another user's access is an administrator, an operator or an auditor, or has
  -- the admin flag.
  pub handle_explain-is_privileged_viewer :
      (c : Caller) (q : ExplainQuery) (w v : World) (ex : AccessExplanation)
      → handle_explain env format c q w ≡ (ok (explain_found ex), v)
      → (ex.user_id ≡ c.user_id) ⊎ (is_privileged_viewer c ≡ true)
  unfolding handle_explain
  handle_explain-is_privileged_viewer c q w v ex h =
      let a = trim_space (query_type q) in
      let asked = asked_user env format c (trim_space q.user) w in
      elim (Bool-cases (trim_space q.machine == "" || trim_space q.remote_user == "")) [
        | inl e ↦ absurd (ground (arith, e))
        | inr e ↦ elim (Bool-cases (not (a == "ssh") && not (a == "scp"))) [
          | inl f ↦ absurd (ground (arith, e, f))
          | inr f ↦ elim (Result-cases asked.0) [
            | inl (x, g) ↦ absurd (ground (arith, e, f, g))
            | inr (inl refusal, g) ↦ absurd (ground (arith, e, f, g))
            | inr (inr id, g) ↦
                let run : explain_for env format id (trim_space q.machine) a
                      (trim_space q.remote_user) asked.1
                    ≡ (ok (explain_found ex), v) =
                  ground (arith, e, f, g) in
                let own : ex.user_id ≡ id =
                  explain_for-user_id id (trim_space q.machine) a (trim_space q.remote_user) asked.1
                    v ex (tunnel_free a (ssh_or_scp (a == "ssh") (a == "scp") f)) run in
                let asks : asked ≡ (ok (inr id), asked.1) = ground (arith, g) in
                elim (asked_user-is_privileged_viewer c (trim_space q.user) id w asked.1 asks) [
                  | inl k ↦ inl (own ∙ k)
                  | inr k ↦ inr k
                ]
          ]
        ]
      ]
