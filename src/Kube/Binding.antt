-- ===== src/Kube/Binding.antt =====
-- The bindings that grants call for and the plan that brings a cluster in line with them:
-- pkg/kube/binding.go and pkg/server/kube.go. Times are in nanoseconds.
use orion_belt.Apperr.{err, ok, ◌+++◌}
use orion_belt.Prelude.{
  Bool, List, Option, String, [], any, eqb, false, if◌then◌else◌, keep, leb, none, not, some,
  take_text, true, ℕ, ◌&&◌, ◌++◌, ◌/◌, ◌==◌, ◌||◌, ◌∷◌,
}
use Prim.Native.String.{compare as compare_text}
use Prim.Native.Nat.{lt, eq, gt}
use orion_belt.Kube.Scope.{Scope, parse_scope, scope_string, subject_of}
use orion_belt.Apperr.{err, ok, ◌+++◌}

pub record Binding : Type 0 where
  pub name : String
  pub namespace : String
  pub cluster_role : String
  pub subject : String
  pub user : String
  pub permission : String
  pub expires_at : Option ℕ

abbrev pub kind : Binding → String
kind b = if b.namespace == "" then "ClusterRoleBinding" else "RoleBinding"

unfoldable pub key : Binding → String
key b = b.namespace +++ "/" +++ b.name

unfoldable pub expired : ℕ → Binding → Bool
expired now b = elim b.expires_at [ none ↦ false | some e ↦ leb e now ]

abbrev pub same_second : Option ℕ → Option ℕ → Bool
same_second none none = true
same_second none (some b) = false
same_second (some a) none = false
same_second (some a) (some b) = eqb (a / 1000000000) (b / 1000000000)

unfoldable pub same_spec : Binding → Binding → Bool
same_spec a b =
    if not (a.cluster_role == b.cluster_role)
      || (not (a.subject == b.subject) || not (a.permission == b.permission))
    then false
    else same_second a.expires_at b.expires_at

pub record Grant : Type 0 where
  pub permission_id : String
  pub username : String
  pub scopes : List String
  pub expires_at : Option ℕ

abbrev pub first_eight : String → String
first_eight s = take_text 8 s

module _ (digest : String → String) (quote : String → String) where
  -- `BindingName`; `digest` is the hexadecimal SHA-256 of a text.
  unfoldable pub binding_name : String → Scope → String
  unfolding scope_string
  binding_name permission_id s =
      "orion-" +++ first_eight permission_id +++ "-" +++ first_eight (digest (scope_string s))

  abbrev pub grant_bindings : Grant → List String → List Binding
  unfolding parse_scope binding_name
  grant_bindings g [] = []
  grant_bindings g (raw ∷ raws) =
      let rest = grant_bindings g raws in
      elim (parse_scope quote raw) [
        | err e ↦ rest
        | ok s ↦
            record {
              name = binding_name g.permission_id s;
              namespace = s.namespace;
              cluster_role = s.role;
              subject = subject_of g.username;
              user = g.username;
              permission = g.permission_id;
              expires_at = g.expires_at;
            }
            ∷ rest
      ]

  -- `Desired`
  unfoldable pub desired : List Grant → List Binding
  unfolding parse_scope binding_name
  desired [] = []
  desired (g ∷ gs) = grant_bindings g g.scopes ++ desired gs

pub record Plan : Type 0 where
  pub create : List Binding
  pub update : List Binding
  pub delete : List Binding

abbrev pub no_bindings : List Binding → Bool
no_bindings [] = true
no_bindings (b ∷ bs) = false

unfoldable pub plan_empty : Plan → Bool
plan_empty p = no_bindings p.create && (no_bindings p.update && no_bindings p.delete)

abbrev pub or_else : Option Binding → Option Binding → Option Binding
or_else none o = o
or_else (some c) o = some c

-- `have[key]`: the last binding of the list with the key.
unfoldable pub have : List Binding → String → Option Binding
unfolding key
have [] k = none
have (b ∷ bs) k = or_else (have bs k) (if key b == k then some b else none)

-- `want[key]`
unfoldable pub want : ℕ → List Binding → String → Bool
unfolding key expired
want now ds k = any (λ b. not (expired now b) && key b == k) ds

abbrev pub key_leb : Binding → Binding → Bool
key_leb b c = elim (compare_text (key b) (key c)) [ lt ↦ true | eq ↦ true | gt ↦ false ]

-- `sort.Slice` by key
unfoldable pub insert_binding : Binding → List Binding → List Binding
unfolding key
insert_binding b [] = b ∷ []
insert_binding b (c ∷ cs) =
    let rest = insert_binding b cs in if key_leb b c then b ∷ c ∷ cs else c ∷ rest

unfoldable pub sort_bindings : List Binding → List Binding
unfolding insert_binding
sort_bindings [] = []
sort_bindings (b ∷ bs) = insert_binding b (sort_bindings bs)

abbrev pub is_missing : List Binding → Binding → Bool
is_missing actual b = elim (have actual (key b)) [ none ↦ true | some cur ↦ false ]

abbrev pub is_changed : List Binding → Binding → Bool
is_changed actual b = elim (have actual (key b)) [ none ↦ false | some cur ↦ not (same_spec cur b) ]

-- `Diff`: the two branches of the loop over the desired bindings, and the loop over the actual ones.
unfoldable pub diff : List Binding → List Binding → ℕ → Plan
unfolding key have same_spec want sort_bindings expired
diff ds actual now = record {
  create = sort_bindings (keep (λ b. not (expired now b) && is_missing actual b) ds);
  update = sort_bindings (keep (λ b. not (expired now b) && is_changed actual b) ds);
  delete = sort_bindings (keep (λ b. not (want now ds (key b))) actual);
}

-- `deleteReason`
unfoldable pub delete_reason : ℕ → Binding → String
unfolding expired
delete_reason now b =
    if b.permission == "" then "orphaned" else if expired now b then "expired" else "revoked"
