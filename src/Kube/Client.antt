-- ===== src/Kube/Client.antt =====
-- The in-cluster agent's client of the Kubernetes API: pkg/kube/client.go. The API server
-- is a parameter.
pub mod Objects
pub mod Works
use orion_belt.Prelude.{
  Bool, List, Option, String, [], code, contains_text, decimal, eqb, false, if◌then◌else◌, map,
  none, not, some, starts_with, true, ℕ, ◌&&◌, ◌++◌, ◌==◌, ◌||◌, ◌∷◌,
}
use orion_belt.Apperr.{Error, Result, err, message, ok, plain, ◌+++◌}
use orion_belt.Kube.Binding.{Binding, key, kind}
use orion_belt.Kube.Scope.{in_namespace, in_role, matches_name, scope_string}

pub record Subject : Type 0 where
  pub kind : String
  pub name : String

-- `object` with its metadata and role reference; a map is the list of its entries.
pub record Object : Type 0 where
  pub kind : String
  pub name : String
  pub namespace : String
  pub labels : List (String × String)
  pub annotations : List (String × String)
  pub role_name : String
  pub subjects : List Subject

-- Go's `time` in the layout RFC 3339.
pub record TimeText : Type 0 where
  pub format : ℕ → String
  pub parse : String → Option ℕ

abbrev pub label_managed_by : String
label_managed_by = "app.kubernetes.io/managed-by"

abbrev pub managed_by_value : String
managed_by_value = "orion-belt"

abbrev pub label_permission : String
label_permission = "orion-belt.dev/permission"

abbrev pub annotation_expires_at : String
annotation_expires_at = "orion-belt.dev/expires-at"

abbrev pub annotation_user : String
annotation_user = "orion-belt.dev/user"

abbrev pub annotation_scope : String
annotation_scope = "orion-belt.dev/scope"

-- `m[key]`, the empty text where the key is missing.
unfoldable pub entry_text : String → List (String × String) → String
entry_text key [] = ""
entry_text key ((k, v) ∷ rest) = let later = entry_text key rest in if k == key then v else later

unfoldable pub user_subject : List Subject → String
user_subject [] = ""
user_subject (s ∷ rest) =
    let later = user_subject rest in if s.kind == "User" then s.name else later

module _ (times : TimeText) where
  abbrev pub expiry_entry : Option ℕ → List (String × String)
  expiry_entry none = []
  expiry_entry (some e) = (annotation_expires_at, times.format e) ∷ []

  unfoldable pub to_object : Binding → Object
  unfolding scope_string
  to_object b = record {
    kind = kind b;
    name = b.name;
    namespace = b.namespace;
    labels = (label_managed_by, managed_by_value) ∷ (label_permission, b.permission) ∷ [];
    annotations =
        (annotation_user, b.user)
        ∷ (
          annotation_scope,
          scope_string (record { namespace = b.namespace; role = b.cluster_role }),
        )
        ∷ expiry_entry b.expires_at;
    role_name = b.cluster_role;
    subjects = record { kind = "User"; name = b.subject } ∷ [];
  }

  unfoldable pub from_object : Object → Binding
  unfolding entry_text user_subject
  from_object o = record {
    name = o.name;
    namespace = if o.kind == "ClusterRoleBinding" then "" else o.namespace;
    cluster_role = o.role_name;
    subject = user_subject o.subjects;
    user = entry_text annotation_user o.annotations;
    permission = entry_text label_permission o.labels;
    expires_at =
        let raw = entry_text annotation_expires_at o.annotations in
        if raw == "" then none else times.parse raw;
  }

-- A call of the API server, as `do` reports it: nil, a `StatusError`, or another failure.
pub data Answer : Type 0 where
  done : Answer
  status : ℕ → String → Answer
  broken : Error → Answer

unfoldable pub answer_error : Answer → Option Error
answer_error done = none
answer_error (status code message) =
    some (plain ("kubernetes: " +++ decimal code +++ " " +++ message))
answer_error (broken e) = some e

abbrev pub has_status : ℕ → Answer → Bool
has_status n (status code message) = eqb code n
has_status n _ = false

-- The API server: its state, and its answers. A collection is the namespace of its bindings, empty
-- for the cluster's own; the flag of `get` says whether those of all namespaces are listed.
pub record ApiServer : Type 1 where
  pub State : Type 0
  pub get : Bool → State → Result (List Object)
  pub post : String → Object → State → Answer × State
  pub put : String → String → Object → State → Answer × State
  pub remove : String → String → State → Answer × State

abbrev pub has_mark : String → Bool
has_mark s = contains_text s "/" || (contains_text s "?" || contains_text s "#")

unfoldable pub validate_name : (String → String) → Binding → Option Error
validate_name quote b =
    if not (starts_with b.name "orion-") || has_mark b.name
    then some (plain ("kubernetes: " +++ quote b.name +++ " is not an Orion Belt binding"))
    else if not (b.namespace == "") && not (matches_name in_namespace b.namespace)
    then some (plain ("kubernetes: invalid namespace " +++ quote b.namespace))
    else none

abbrev pub subject_prefix : String
subject_prefix = "orion:"

-- The checks of `Apply`.
unfoldable pub validate_apply : (String → String) → Binding → Option Error
unfolding validate_name
validate_apply quote b = elim (validate_name quote b) [
  | some e ↦ some e
  | none ↦
      if not (starts_with b.subject subject_prefix) || b.subject == subject_prefix
      then some
          (plain ("kubernetes: subject " +++ quote b.subject +++ " is not an Orion Belt user"))
      else if not (matches_name in_role b.cluster_role)
      then some (plain ("kubernetes: invalid ClusterRole " +++ quote b.cluster_role))
      else none
]

module _ (times : TimeText) (quote : String → String) (api : ApiServer) where
  unfoldable pub list_bindings : api.State → Result (List Binding)
  unfolding from_object
  list_bindings s = elim (api.get true s) [
    | err e ↦ err e
    | ok rs ↦ elim (api.get false s) [
      | err e ↦ err e
      | ok cs ↦ ok (map (from_object times) rs ++ map (from_object times) cs)
    ]
  ]

  unfoldable pub apply_binding : Binding → api.State → Option Error × api.State
  unfolding to_object validate_apply answer_error
  apply_binding b s = elim (validate_apply quote b) [
    | some e ↦ (some e, s)
    | none ↦
        let (posted, s1) = api.post b.namespace (to_object times b) s in
        let (replaced, s2) = api.put b.namespace b.name (to_object times b) s1 in
        if has_status 409 posted then (answer_error replaced, s2) else (answer_error posted, s1)
  ]

  unfoldable pub delete_binding : Binding → api.State → Option Error × api.State
  unfolding validate_name answer_error
  delete_binding b s = elim (validate_name quote b) [
    | some e ↦ (some e, s)
    | none ↦
        let (removed, s1) = api.remove b.namespace b.name s in
        (if has_status 404 removed then none else answer_error removed, s1)
  ]
