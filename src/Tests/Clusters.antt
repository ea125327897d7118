-- ===== src/Tests/Clusters.antt =====
-- Clusters, their agent and its client at concrete inputs.
use orion_belt.Prelude.{
  Bool-cases, List, String, [], ap, arith, cons-empty, contains_text, eq_iff, false, if◌then◌else◌,
  inl, inr, keep, none, not, refl, some, suc, sym, text_cases, text_ne_sym, true, zero, ℕ, ◌*◌,
  ◌++◌, ◌-◌, ◌/◌, ◌==◌, ◌∙◌, ◌∷◌, ◌≡◌, ◌≢◌, ◌⊎◌,
}
use orion_belt.Apperr.{ok}
use orion_belt.Kube.Reconcile.{KubeAgent, reconcile_kube}
use orion_belt.Tests.Fixtures.{env, permission, user, world}
use orion_belt.World.{World}
use orion_belt.Kube.Binding.{Binding, have, key}
use orion_belt.Kube.Reconcile.Carried.{IsWorking}
use orion_belt.Kube.Reconcile.Done.{have-drop, same_spec_self}
use orion_belt.Kube.Converge.{have-append, have-keep}
use orion_belt.Kube.Client.{ApiServer, TimeText, done, from_object, to_object}
use orion_belt.Kube.Agent.{Request, handle_kube}
use orion_belt.Kube.Client.Objects.{IsRfc3339, from_object-to_object}
use orion_belt.Kube.Agent.Sweep.{IsOwnName, handle_kube-own}
use orion_belt.Kube.Scope.{namespace_ok, role_ok}
use orion_belt.Kube.Reconcile.DryRun.{IsReport, reconcile_kube-dry_run}
use orion_belt.Live.Conn.{ClientConn, new_client_conn}
use orion_belt.Live.Relay.{KubeRelay, open_kube_relay}

-- A cluster that is the list of its bindings.
abbrev table_agent : KubeAgent
table_agent = record {
  Cluster = List Binding;
  list_op = λ bs. ok bs;
  apply_op = λ b bs. (none, bs ++ (b ∷ []));
  delete_op = λ b bs. (none, keep (λ a. not (key a == key b)) bs);
}

have_added :
    (b : Binding) (bs : List Binding) (k : String)
    → have (bs ++ (b ∷ [])) k ≡ (if key b == k then some b else have bs k)
unfolding have
have_added b bs k =
    have-append bs (b ∷ []) k
    ∙ (elim (Bool-cases (key b == k)) [ inl e ↦ rw e refl | inr e ↦ rw e refl ])

have_removed :
    (b : Binding) (bs : List Binding) (k : String)
    → have (keep (λ a. not (key a == key b)) bs) k ≡ (if key b == k then none else have bs k)
have_removed b bs k = elim (text_cases (key b) k) [
  | inl e ↦
      rw ((eq_iff (key b) k).1 e)
        (have-drop (λ s. not (s == key b)) bs k (rw ((eq_iff k (key b)).1 (sym e)) refl))
  | inr other ↦
      rw other (have-keep (λ s. not (s == key b)) bs k (rw (text_ne_sym (key b) k other) refl))
]

table_agent-IsWorking : IsWorking table_agent
table_agent-IsWorking = record {
  bindings = λ bs. bs;
  accepts = λ _. true;
  stored = λ b. b;
  same_key = λ b. refl;
  spec_kept = same_spec_self;
  lists = λ bs. refl;
  applies = λ b bs v. refl;
  deletes = λ b bs v. refl;
  have_applied = λ b bs k v. have_added b bs k;
  have_deleted = λ b bs k v. have_removed b bs k;
}

abbrev digest : String → String
digest s = "0123456789abcdef"

abbrev quote : String → String
quote s = s

abbrev granted_world : World
granted_world = record world {
  permissions = record (permission "k8s") { remote_users = "dev/view" ∷ [] } ∷ [];
}

abbrev view_binding : Binding
view_binding = record {
  name = "orion-p1-01234567";
  namespace = "dev";
  cluster_role = "view";
  subject = "orion:alice";
  user = "alice";
  permission = "p1";
  expires_at = none;
}

abbrev old_binding : Binding
old_binding = record view_binding { name = "orion-p0-01234567"; permission = "p0" }

abbrev now : ℕ
now = env.clock 2

reconcile_kube-dry_run_example :
    (n : ℕ) × ((reconcile_kube env table_agent digest quote "web" true true
        (old_binding ∷ [])
        granted_world).1
      ≡ record granted_world { tick = n })
    × IsReport env table_agent digest quote
        (old_binding ∷ [])
        (reconcile_kube env table_agent digest quote "web" true true
          (old_binding ∷ [])
          granted_world).0
reconcile_kube-dry_run_example =
    reconcile_kube-dry_run env table_agent digest quote "web" true (old_binding ∷ []) granted_world

-- Times written as so many strokes: one more than their seconds.
abbrev strokes : ℕ → String
strokes zero = ""
strokes (suc n) = String.◌∷◌ "|" (strokes n)

abbrev count_strokes : String → ℕ
count_strokes String.[] = 0
count_strokes (String.◌∷◌ c s) = suc (count_strokes s)

abbrev stroke_times : TimeText
stroke_times = record {
  format = λ t. strokes (suc (t / 1000000000));
  parse = λ s. some ((count_strokes s - 1) * 1000000000);
}

count_strokes-strokes : (n : ℕ) → count_strokes (strokes n) ≡ n
count_strokes-strokes zero = refl
count_strokes-strokes (suc n) = ap suc (count_strokes-strokes n)

stroke_times-IsRfc3339 : IsRfc3339 stroke_times
stroke_times-IsRfc3339 = record {
  whole_seconds = λ t. rw (count_strokes-strokes (t / 1000000000)) (ap some (ground arith));
  some_text = λ t. cons-empty "|" (strokes (t / 1000000000));
}

from_object-to_object_example :
    from_object stroke_times
      (to_object stroke_times (record view_binding { expires_at = some 2500000000 }))
    ≡ record view_binding { expires_at = some 2000000000 }
from_object-to_object_example =
    from_object-to_object stroke_times stroke_times-IsRfc3339
      (record view_binding { expires_at = some 2500000000 })

-- A cluster that only counts the calls that change it.
abbrev counting_server : ApiServer
counting_server = record {
  State = ℕ;
  get = λ all_namespaces n. ok [];
  post = λ namespace o n. (done, suc n);
  put = λ namespace name o n. (done, suc n);
  remove = λ namespace name n. (done, suc n);
}

abbrev apply_request : Request
apply_request = record { op = "apply"; user = ""; binding = some view_binding }

-- Kubectl traffic that counts as one call.
abbrev traffic : String → ℕ → ℕ
traffic user n = suc n

handle_kube-own_example :
    ((handle_kube stroke_times quote counting_server traffic true false true apply_request 0).1 ≡ 0)
    ⊎ ((true ≡ true)
        × (((apply_request.op ≡ "proxy")
              × ((apply_request.user == "") ≡ false)
              × (false ≡ false)
              × (true ≡ true))
            ⊎ ((apply_request.op ≢ "proxy")
                × (b : Binding) × (apply_request.binding ≡ some b)
                × IsOwnName b.name)))
handle_kube-own_example =
    handle_kube-own stroke_times quote counting_server traffic true false true apply_request 0

handle_kube_applies :
    (handle_kube stroke_times quote counting_server traffic true false true apply_request 0).1 ≡ 1
unfolding handle_kube contains_text namespace_ok role_ok
handle_kube_applies = refl

abbrev client : ClientConn
client = new_client_conn "alice" "alice" 5000000000 128

-- The connection after a first relay, which was allowed by the check.
abbrev opened_relay : KubeRelay × ClientConn × World
opened_relay = open_kube_relay env (λ m. true) true "web" client granted_world

abbrev again : KubeRelay × ClientConn × World
again = open_kube_relay env (λ m. true) true "web" opened_relay.1 opened_relay.2
