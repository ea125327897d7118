-- ===== src/Kube/Scope.antt =====
-- Scopes of a Kubernetes grant: pkg/kube/scope.go. The two patterns accept ASCII names only, so the
-- length of an accepted text is its number of bytes.
pub mod Stored
use orion_belt.Prelude.{
  Bool, List, Option, String, [], code, eqb, false, if◌then◌else◌, leb, none, not, some, suc,
  trim_space, true, ℕ, ◌&&◌, ◌==◌, ◌||◌, ◌∷◌,
}
use orion_belt.Apperr.{Error, Result, err, ok, plain, ◌+++◌}

abbrev pub all_namespaces : String
all_namespaces = "*"

abbrev pub subject_of : String → String
subject_of username = "orion:" +++ username

pub record Scope : Type 0 where
  pub namespace : String
  pub role : String

abbrev pub is_alphanumeric : ℕ → Bool
is_alphanumeric c = (leb 97 c && leb c 122) || (leb 48 c && leb c 57)

abbrev pub in_namespace : ℕ → Bool
in_namespace c = is_alphanumeric c || eqb c 45

abbrev pub in_role : ℕ → Bool
in_role c = in_namespace c || (eqb c 46 || eqb c 58)

-- The rest of a name: characters of a class, and a letter or digit at the end.
unfoldable pub name_rest : (ℕ → Bool) → String → Bool
name_rest inside String.[] = true
name_rest inside (String.◌∷◌ c s) =
    let rest = name_rest inside s in
    if s == "" then is_alphanumeric (code c) else inside (code c) && rest

-- `namespaceRE` and `roleRE`, by the class of their inner characters.
unfoldable pub matches_name : (ℕ → Bool) → String → Bool
unfolding name_rest
matches_name inside String.[] = false
matches_name inside (String.◌∷◌ c s) = is_alphanumeric (code c) && name_rest inside s

abbrev pub size : String → ℕ
size String.[] = 0
size (String.◌∷◌ c s) = suc (size s)

abbrev pub cut_slash : String → Option (String × String)
cut_slash String.[] = none
cut_slash (String.◌∷◌ c s) =
    let rest = cut_slash s in
    if eqb (code c) 47
    then some ("", s)
    else elim rest [ none ↦ none | some r ↦ some (String.◌∷◌ c r.0, r.1) ]

unfoldable pub namespace_ok : String → Bool
unfolding matches_name
namespace_ok ns = ns == all_namespaces || (leb (size ns) 63 && matches_name in_namespace ns)

unfoldable pub role_ok : String → Bool
unfolding matches_name
role_ok role = leb (size role) 253 && matches_name in_role role

-- `Scope.String`
unfoldable pub scope_string : Scope → String
scope_string s = (if s.namespace == "" then all_namespaces else s.namespace) +++ "/" +++ s.role

abbrev pub cluster_wide : Scope → Bool
cluster_wide s = s.namespace == ""

module _ (quote : String → String) where
  abbrev scope_error : String → String → Result Scope
  scope_error s t = err (plain ("k8s scope " +++ quote s +++ ": " +++ t))

  -- `ParseScope`
  unfoldable pub parse_scope : String → Result Scope
  unfolding trim_space namespace_ok role_ok
  parse_scope s = elim (cut_slash (trim_space s)) [
    | none ↦ scope_error s "want namespace/role or */role"
    | some (ns, role) ↦
        if ns == "" || role == ""
        then scope_error s "want namespace/role or */role"
        else if not (namespace_ok ns)
        then scope_error s (quote ns +++ " is not a valid namespace")
        else if not (role_ok role)
        then scope_error s (quote role +++ " is not a valid ClusterRole name")
        else ok (record { namespace = if ns == all_namespaces then "" else ns; role = role })
  ]

  abbrev pub validate_each : List String → Option Error
  validate_each [] = none
  validate_each (s ∷ ss) =
      let rest = validate_each ss in elim (parse_scope s) [ ok a ↦ rest | err e ↦ some e ]

  -- `ValidateScopes`
  unfoldable pub validate_scopes : List String → Option Error
  unfolding parse_scope
  validate_scopes [] =
      some
        (plain "a k8s grant needs at least one namespace/role scope, e.g. payments/edit or */view")
  validate_scopes (s ∷ ss) = validate_each (s ∷ ss)
