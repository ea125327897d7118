-- ===== src/Api/Explain.antt =====
-- Questions about access over the API: pkg/api/explain.go, and effectivePermissions of
-- pkg/api/permissions_bulk.go.
pub mod Own
use orion_belt.Prelude.{
  List, Option, String, if◌then◌else◌, inl, inr, none, not, some, trim_space, ℕ, ◌&&◌, ◌==◌, ◌||◌,
  ◌⊎◌,
}
use orion_belt.Apperr.{Result, err, ok}
use orion_belt.Auth.Explain.{AccessExplanation, explain_access}
use orion_belt.Auth.Effective.{EffectiveAccess, effective_for_machine, effective_for_user}
use orion_belt.Api.Review.{Caller}
use orion_belt.Api.Middleware.{is_privileged_viewer}
use orion_belt.World.{Env, M, attempt, pure, ◌>>=◌, ◌>>◌}
use orion_belt.Store.{
  get_machine, get_machine_by_name, get_user, get_user_by_username, is_err_not_found,
}

-- The parameters of the request; an absent one is empty, but for the access type.
pub record ExplainQuery : Type 0 where
  pub machine : String
  pub remote_user : String
  pub access_type : Option String
  pub user : String

pub data ExplainAnswer : Type 0 where
  explain_refused : ℕ → String → ExplainAnswer
  explain_found : AccessExplanation → ExplainAnswer

pub data EffectiveAnswer : Type 0 where
  effective_refused : ℕ → String → EffectiveAnswer
  effective_found : List EffectiveAccess → EffectiveAnswer

-- The first lookup that answers.
abbrev pub first_found : {A : Type 0} → M A → M A → M (Result A)
first_found first second = do
  found ← attempt first
  elim found [ ok a ↦ pure (ok a) | err _ ↦ attempt second ]

module _ (env : Env) (format : ℕ → String) where
  -- The id of the user that is asked about, or the status and text of the refusal.
  unfoldable pub asked_user : Caller → String → M ((ℕ × String) ⊎ String)
  unfolding get_user get_user_by_username is_privileged_viewer
  asked_user c ref = if ref == "" then pure (inr c.user_id) else do
    found ← first_found (get_user env ref) (get_user_by_username env ref)
    elim found [
      | err _ ↦ pure (inl (404, "user not found"))
      | ok u ↦
          if not (u.id == c.user_id) && not (is_privileged_viewer c)
          then pure
              (inl (403, "only admins, operators and auditors can explain another user's access"))
          else pure (inr u.id)
    ]

  unfoldable pub explain_for : String → String → String → String → M ExplainAnswer
  unfolding get_machine get_machine_by_name explain_access is_err_not_found
  explain_for user_id machine_ref access_type remote_user = do
    found ← first_found (get_machine env machine_ref) (get_machine_by_name env machine_ref)
    elim found [
      | err _ ↦ pure (explain_refused 404 "machine not found")
      | ok machine ↦ do
        ex ← attempt (explain_access env format user_id machine.id access_type remote_user)
        elim ex [
          | ok e ↦ pure (explain_found e)
          | err e ↦
              if is_err_not_found e
              then pure (explain_refused 404 "user or machine not found")
              else pure (explain_refused 500 "failed to explain access")
        ]
    ]

  -- `(*APIServer).explainAccess`
  unfoldable pub handle_explain : Caller → ExplainQuery → M ExplainAnswer
  unfolding asked_user explain_for trim_space
  handle_explain c q =
      let machine_ref = trim_space q.machine in
      let remote_user = trim_space q.remote_user in
      let given : String = elim q.access_type [ none ↦ "ssh" | some t ↦ t ] in
      let access_type = trim_space given in
      if machine_ref == "" || remote_user == ""
      then pure (explain_refused 400 "machine and remote_user are required")
      else if not (access_type == "ssh") && not (access_type == "scp")
      then pure (explain_refused 400 "access_type must be ssh or scp")
      else do
        asked ← asked_user c (trim_space q.user)
        elim asked [
          | inl (status, text) ↦ pure (explain_refused status text)
          | inr user_id ↦ explain_for user_id machine_ref access_type remote_user
        ]

  -- The explanation that goes with a refused session, "" where there is none.
  unfoldable pub denial_reason : String → String → String → M String
  unfolding explain_access
  denial_reason user_id machine_id remote_user = do
    ex ← attempt (explain_access env format user_id machine_id "ssh" remote_user)
    elim ex [ ok e ↦ pure e.summary | err _ ↦ pure "" ]

  unfoldable pub effective_permissions : String → String → M EffectiveAnswer
  unfolding effective_for_user effective_for_machine is_err_not_found
  effective_permissions user_id machine_id =
      let both = not (user_id == "") && not (machine_id == "") in
      let neither = user_id == "" && machine_id == "" in
      if both || neither
      then pure (effective_refused 400 "pass exactly one of user_id or machine_id")
      else do
        found ← attempt (
            if user_id == ""
            then effective_for_machine env machine_id
            else effective_for_user env user_id)
        elim found [
          | ok rows ↦ pure (effective_found rows)
          | err e ↦
              if is_err_not_found e
              then pure (effective_refused 404 "user or machine not found")
              else pure (effective_refused 500 "failed to resolve permissions")
        ]
