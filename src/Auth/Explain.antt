-- ===== src/Auth/Explain.antt =====
-- `ExplainAccess` of pkg/auth/explain.go over the links of Parts.
mod Parts
pub mod Links
pub mod Agree
use orion_belt.Prelude.{
  [], String, contains_text, find, if◌then◌else◌, none, some, ◌&&◌, ◌==◌, Bool, ℕ, List, true, ◌++◌,
  ◌∷◌, false, map,
}
use orion_belt.Apperr.{◌+++◌, Result, ok, err}
use orion_belt.World.{pure, time_now, ◌>>=◌, ◌>>◌, Env, M, wrap, attempt}
use orion_belt.Store.Permissions.{grants}
use orion_belt.Store.Listing.{list_user_access_requests, list_pair_permissions}
unfoldable pub use Parts.*
use orion_belt.Types.{User, Machine, AccessRequest, Permission}
use orion_belt.Store.{get_user, get_machine}
use orion_belt.Auth.Check.{check_permission_with_remote_user}

-- The sentence for the decisive link.
unfoldable pub summarize : AccessExplanation → String
unfolding contains_text
summarize ex =
    let target = ex.remote_user +++ "@" +++ ex.machine in
    let refuses = find (λ (l : AccessLink). l.relation == link_grant && l.holds) ex.chain in
    let waits =
      find
        (λ (l : AccessLink).
          l.relation == link_access_request && contains_text l.detail "waiting for approval")
        ex.chain in
    let grant = find (λ (l : AccessLink). l.relation == link_grant) ex.chain in
    if ex.allowed
    then elim (find (λ (l : AccessLink). l.holds) ex.chain) [
      | some l ↦
          "Allowed: " +++ ex.username +++ " may reach " +++ target +++ " because " +++ l.detail
          +++ "."
      | none ↦ "Allowed: OpenFGA authorizes " +++ ex.username +++ " on " +++ target +++ "."
    ]
    else elim refuses [
      | some l ↦
          "Denied: OpenFGA refuses " +++ ex.username +++ " on " +++ target +++ " although "
          +++ l.detail +++ "."
      | none ↦ elim waits [
        | some l ↦
            "Denied: " +++ ex.username +++ " cannot reach " +++ target +++ " yet; " +++ l.detail
            +++ " (" +++ l.ref +++ ")."
        | none ↦ elim grant [
          | some l ↦
              "Denied: " +++ ex.username +++ " cannot reach " +++ target +++ "; " +++ l.detail
              +++ "."
          | none ↦
              "Denied: " +++ ex.username +++ " has no grant on " +++ ex.machine
              +++ ". Request access with: osh -r " +++ target +++ " --reason \"...\""
        ]
      ]
    ]

abbrev pub is_ok : {A : Type 0} → Result A → Bool
is_ok (ok _) = true
is_ok (err _) = false

module _ (env : Env) (format : ℕ → String) where
  -- The name of a user, or the id where it cannot be read.
  unfoldable pub username : String → M String
  username id = if id == "" then pure "" else do
    found ← attempt (get_user env id)
    elim found [ err _ ↦ pure id | ok u ↦ pure u.username ]

  unfoldable pub grant_link : String → String → List AccessRequest → ℕ → Permission → M AccessLink
  unfolding username link_of_grant
  grant_link access_type remote_user requests now g = do
    grantor ← username g.granted_by
    pure (link_of_grant format now access_type remote_user requests g grantor)

  unfoldable pub grant_links :
      String → String → List AccessRequest → ℕ → List Permission → M (List AccessLink)
  unfolding grant_link
  grant_links access_type remote_user requests now [] = pure []
  grant_links access_type remote_user requests now (g ∷ gs) = do
    link ← grant_link access_type remote_user requests now g
    rest ← grant_links access_type remote_user requests now gs
    pure (link ∷ rest)

  -- The explanation of a decision, from what was read.
  unfoldable pub explanation :
      User
      → Machine
      → String
      → String
      → String
      → Bool
      → List AccessLink
      → List AccessRequest
      → AccessExplanation
  unfolding role_links request_link authorizer_links summarize
  explanation user machine machine_id access_type remote_user allowed links requests =
      let chain =
        role_links user
        ++ (links
            ++ (map (λ r. request_link format r remote_user) (shown_requests machine_id requests)
                ++ authorizer_links env)) in
      let ex : AccessExplanation = record {
        allowed = allowed;
        summary = "";
        user_id = user.id;
        username = user.username;
        machine_id = machine.id;
        machine = machine.name;
        access_type = access_type;
        remote_user = remote_user;
        chain = or_no_link user.username machine.name chain;
      } in
      record ex { summary = summarize ex }

  unfoldable pub explain_access : String → String → String → String → M AccessExplanation
  unfolding grant_links explanation
  explain_access user_id machine_id access_type remote_user = do
    user ← wrap ("get user " +++ user_id) (get_user env user_id)
    machine ← wrap ("get machine " +++ machine_id) (get_machine env machine_id)
    answer ←
        attempt (check_permission_with_remote_user env user_id machine_id access_type remote_user)
    grants ← wrap "list grants" (list_pair_permissions env user_id machine_id)
    requests ←
        wrap "list access requests"
          (list_user_access_requests env user_id explain_request_history 0)
    now ← time_now env
    links ← grant_links access_type remote_user requests now grants
    pure (explanation user machine machine_id access_type remote_user (is_ok answer) links requests)
