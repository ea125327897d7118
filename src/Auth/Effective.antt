-- ===== src/Auth/Effective.antt =====
-- What a user can do, or what can be done on a machine: pkg/auth/effective.go.
pub mod Agree
use orion_belt.Prelude.{
  Bool, List, Option, String, [], any, if◌then◌else◌, map, none, not, some, text_lt, ℕ, ◌&&◌, ◌++◌,
  ◌==◌, ◌||◌, ◌∷◌,
}
use orion_belt.Access.{access_type_both, access_type_scp, access_type_ssh}
use orion_belt.Apperr.{◌+++◌}
use orion_belt.Types.{Machine, Permission, User}
use orion_belt.Types.Roles.{effective_role, privileged_access}
use orion_belt.World.{Env, M, pure, wrap, ◌>>=◌, ◌>>◌}
use orion_belt.Store.{get_machine, get_user}
use orion_belt.Store.Listing.{
  list_machine_permissions, list_machines, list_user_permissions, list_users,
}

pub record EffectiveAccess : Type 0 where
  pub user_id : String
  pub username : String
  pub machine_id : String
  pub machine_name : String
  pub access_type : String
  -- A nil list is `none`.
  pub remote_users : Option (List String)
  pub source : String
  pub expires_at : Option ℕ

abbrev pub effective_list_limit : ℕ
effective_list_limit = 10000

unfoldable pub role_access : User → String → String → EffectiveAccess
unfolding effective_role
role_access u machine_id machine_name = record {
  user_id = u.id;
  username = u.username;
  machine_id = machine_id;
  machine_name = machine_name;
  access_type = "*";
  remote_users = none;
  source = "role:" +++ effective_role u;
  expires_at = none;
}

-- The types of a grant: "both" and the empty default are ssh and scp.
abbrev pub granted_types : String → List String
granted_types t =
    if t == access_type_both || t == "" then access_type_ssh ∷ access_type_scp ∷ [] else t ∷ []

abbrev pub typed_access : Permission → String → String → String → EffectiveAccess
typed_access p username machine_name t = record {
  user_id = p.user_id;
  username = username;
  machine_id = p.machine_id;
  machine_name = machine_name;
  access_type = t;
  remote_users = some p.remote_users;
  source = "permission:" +++ p.id;
  expires_at = p.expires_at;
}

unfoldable pub grant_access : Permission → String → String → List EffectiveAccess
grant_access p username machine_name =
    map (typed_access p username machine_name) (granted_types p.access_type)

-- `less` of the sort: by user, then machine, then type.
abbrev pub effective_lt : EffectiveAccess → EffectiveAccess → Bool
effective_lt a b =
    if not (a.username == b.username)
    then text_lt a.username b.username
    else if not (a.machine_name == b.machine_name)
    then text_lt a.machine_name b.machine_name
    else text_lt a.access_type b.access_type

abbrev pub insert_effective : EffectiveAccess → List EffectiveAccess → List EffectiveAccess
insert_effective x [] = x ∷ []
insert_effective x (y ∷ ys) = if effective_lt y x then y ∷ insert_effective x ys else x ∷ y ∷ ys

-- `sort.SliceStable`: rows that `less` does not tell apart keep their order.
unfoldable pub sort_effective : List EffectiveAccess → List EffectiveAccess
sort_effective [] = []
sort_effective (x ∷ xs) = insert_effective x (sort_effective xs)

-- `names[id]` of the map from the ids of rows to their names, in which a later row of an id replaces
-- an earlier one; a missing id reads as "".
abbrev pub name_in : List (String × String) → String → String
name_in [] id = ""
name_in ((i, name) ∷ names) id =
    let rest = name_in names id in
    if i == id && not (any (λ n. n.0 == id) names) then name else rest

abbrev pub role_rows_for_user : User → List Machine → List EffectiveAccess
role_rows_for_user user machines =
    if privileged_access (some user)
    then map (λ (m : Machine). role_access user m.id m.name) machines
    else []

abbrev pub role_rows_on_machine : List User → Machine → List EffectiveAccess
role_rows_on_machine [] machine = []
role_rows_on_machine (u ∷ us) machine =
    let rest = role_rows_on_machine us machine in
    if privileged_access (some u) then role_access u machine.id machine.name ∷ rest else rest

abbrev pub concat_map : (Permission → List EffectiveAccess) → List Permission → List EffectiveAccess
concat_map f [] = []
concat_map f (p ∷ ps) = f p ++ concat_map f ps

module _ (env : Env) where
  unfoldable pub effective_for_user : String → M (List EffectiveAccess)
  unfolding privileged_access role_access grant_access sort_effective
  effective_for_user user_id = do
    user ← wrap "get user" (get_user env user_id)
    machines ← wrap "list machines" (list_machines env effective_list_limit 0)
    perms ← wrap "list grants" (list_user_permissions env user_id)
    let names = map (λ (m : Machine). (m.id, m.name)) machines
    pure (
        sort_effective (
          role_rows_for_user user machines
          ++ concat_map (λ p. grant_access p user.username (name_in names p.machine_id)) perms))

  unfoldable pub effective_for_machine : String → M (List EffectiveAccess)
  unfolding privileged_access role_access grant_access sort_effective
  effective_for_machine machine_id = do
    machine ← wrap "get machine" (get_machine env machine_id)
    users ← wrap "list users" (list_users env effective_list_limit 0)
    perms ← wrap "list grants" (list_machine_permissions env machine_id)
    let names = map (λ (u : User). (u.id, u.username)) users
    pure (
        sort_effective (
          role_rows_on_machine users machine
          ++ concat_map (λ p. grant_access p (name_in names p.user_id) machine.name) perms))
