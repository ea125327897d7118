-- ===== src/Plugin/Manager.antt =====
-- The plugin manager of pkg/plugin/plugin.go. A plugin is the identity of a Go pointer; what its code
-- answers is a parameter.
pub mod Reached
pub mod Sound
pub mod Hooks
pub mod View
use orion_belt.Prelude.{
  Bool, List, Option, String, [], any, code, eqb, false, find, if◌then◌else◌, keep, map, none, not,
  some, suc, true, ℕ, ◌&&◌, ◌++◌, ◌==◌, ◌∷◌,
}
use orion_belt.Apperr.{Error, error_text, plain, wrapped, ◌+++◌}
use orion_belt.Plugin.{ConfigFields, Entries, end}

abbrev pub Plugin : Type 0
Plugin = ℕ

-- How a hook call ends: `OnHook` returns, it panics, it is still running at the timeout, or the
-- caller's context ends before it.
pub data HookRun : Type 0 where
  returned : Option Error → HookRun
  panicked : String → HookRun
  timed_out : HookRun
  cancelled : Error → HookRun

-- The plugins' own code: their names, the interfaces they implement, and the answer to the n-th call.
pub record PluginCode : Type 0 where
  pub name_of : Plugin → String
  pub version_of : Plugin → String
  -- `ConfigSchema`, none for a plugin that is not a `ConfigurablePlugin`
  pub schema_of : Plugin → Option ConfigFields
  pub has_hooks : Plugin → Bool
  pub has_http : Plugin → Bool
  pub initialize : ℕ → Plugin → Entries → Option Error
  pub on_hook : ℕ → Plugin → String → HookRun

pub record PluginState : Type 0 where
  pub plugin_name : String
  pub enabled : Bool
  pub configured : Bool
  pub last_err : String
  -- none is the nil map
  pub config : Option Entries

-- A hook that was handed to a plugin.
pub record Delivery : Type 0 where
  pub to : Plugin
  pub hook : String

pub record Manager : Type 0 where
  pub plugins : List Plugin
  pub hook_plugins : String → List Plugin
  pub states : List PluginState
  -- the calls of plugin code made so far, and the hooks among them, oldest first
  pub calls : ℕ
  pub delivered : List Delivery

abbrev pub all_hooks : List String
all_hooks =
    "pre_auth" ∷ "post_auth" ∷ "pre_connect" ∷ "post_connect" ∷ "pre_disconnect" ∷ "post_disconnect"
    ∷ "session_start" ∷ "session_end" ∷ "access_request" ∷ "access_granted" ∷ []

unfoldable pub is_hook : String → Bool
is_hook h = any (λ k. k == h) all_hooks

abbrev pub new_manager : Manager
new_manager = record {
  plugins = [];
  hook_plugins = λ _. [];
  states = [];
  calls = 0;
  delivered = [];
}

-- `append(plugins[:i], plugins[i+1:]...)` at the first `i` that holds the plugin.
abbrev pub remove_first : Plugin → List Plugin → List Plugin
remove_first p [] = []
remove_first p (q ∷ qs) = if eqb q p then qs else q ∷ remove_first p qs

-- `m.states[name]`
abbrev pub state_of : String → List PluginState → Option PluginState
state_of name = find (λ s. s.plugin_name == name)

abbrev pub without_state : String → List PluginState → List PluginState
without_state name = keep (λ s. not (s.plugin_name == name))

-- `m.states[name] = st`
abbrev pub put_state : PluginState → List PluginState → List PluginState
put_state s ss = s ∷ without_state s.plugin_name ss

abbrev pub is_enabled : Option PluginState → Bool
is_enabled none = false
is_enabled (some s) = s.enabled

abbrev pub last_error_text : Option Error → String
last_error_text none = ""
last_error_text (some e) = error_text e

abbrev pub fresh_state : String → Bool → PluginState
fresh_state name enabled = record {
  plugin_name = name;
  enabled = enabled;
  configured = false;
  last_err = "";
  config = none;
}

abbrev pub or_fresh : String → Bool → Option PluginState → PluginState
or_fresh name enabled none = fresh_state name enabled
or_fresh name enabled (some s) = s

-- A missing configuration is an empty one.
abbrev pub or_empty : Option Entries → Entries
or_empty none = end
or_empty (some c) = c

abbrev pub not_registered : String → Error
not_registered name = plain ("plugin not found: " +++ name)

module _ (code : PluginCode) where
  -- `m.plugins[name]`
  abbrev pub plugin_named : String → Manager → Option Plugin
  plugin_named name m = find (λ p. code.name_of p == name) m.plugins

  unfoldable pub register : Plugin → Manager → Option Error × Manager
  register p m =
      let name = code.name_of p in
      elim (plugin_named name m) [
        | some _ ↦ (some (plain ("plugin already registered: " +++ name)), m)
        | none ↦ (
          none,
          record m {
            plugins = m.plugins ++ (p ∷ []);
            states = put_state (fresh_state name true) m.states;
            hook_plugins = λ h.
                if code.has_hooks p && is_hook h
                then m.hook_plugins h ++ (p ∷ [])
                else m.hook_plugins h;
          },
        )
      ]

  unfoldable pub unregister : String → Manager → Option Error × Manager
  unregister name m = elim (plugin_named name m) [
    | none ↦ (some (not_registered name), m)
    | some p ↦ (
      none,
      record m {
        plugins = keep (λ q. not (code.name_of q == name)) m.plugins;
        states = without_state name m.states;
        hook_plugins =
            λ h. if code.has_hooks p then remove_first p (m.hook_plugins h) else m.hook_plugins h;
      },
    )
  ]

  -- `callHook`, for the answer to the call.
  unfoldable pub call_hook_error : Plugin → String → HookRun → Option Error
  call_hook_error p hook (returned e) = e
  call_hook_error p hook (panicked r) =
      some (plain ("plugin " +++ code.name_of p +++ " panicked: " +++ r))
  call_hook_error p hook timed_out =
      some (plain ("plugin " +++ code.name_of p +++ " timed out handling hook " +++ hook))
  call_hook_error p hook (cancelled e) = some e

  unfoldable pub call_hook : Plugin → String → Manager → Option Error × Manager
  unfolding call_hook_error
  call_hook p hook m = (
    call_hook_error p hook (code.on_hook m.calls p hook),
    record m {
      calls = suc m.calls;
      delivered = m.delivered ++ (record { to = p; hook = hook } ∷ []);
    },
  )

  -- The enabled plugins of a hook, as `TriggerHook` copies them under the lock.
  abbrev pub hook_targets : String → Manager → List Plugin
  hook_targets hook m =
      keep (λ p. is_enabled (state_of (code.name_of p) m.states)) (m.hook_plugins hook)

  unfoldable pub call_hooks : List Plugin → String → Manager → List Error × Manager
  unfolding call_hook
  call_hooks [] hook m = ([], m)
  call_hooks (p ∷ ps) hook m =
      let (e, m1) = call_hook p hook m in
      let (es, m2) = call_hooks ps hook m1 in
      (
        elim e [
          | none ↦ es
          | some f ↦ wrapped ("hook " +++ hook +++ " failed for plugin " +++ code.name_of p) f ∷ es
        ],
        m2,
      )

  -- The errors that `errors.Join` puts together; no error is nil.
  unfoldable pub trigger_hook : String → Manager → List Error × Manager
  unfolding call_hooks
  trigger_hook hook m = call_hooks (hook_targets hook m) hook m

  -- The outcome of `Initialize` that `Configure` records under the lock.
  unfoldable pub record_outcome : String → Entries → Option Error → Manager → Manager
  record_outcome name config init_err m =
      let s = or_fresh name true (state_of name m.states) in
      let done : PluginState = record {
        plugin_name = name;
        enabled = s.enabled;
        configured = elim init_err [ none ↦ true | some _ ↦ false ];
        last_err = last_error_text init_err;
        config = some config;
      } in
      record m { states = put_state done m.states }

  unfoldable pub configure : String → Entries → Manager → Option Error × Manager
  unfolding record_outcome
  configure name config m = elim (plugin_named name m) [
    | none ↦ (some (not_registered name), m)
    | some p ↦
        let init_err = code.initialize m.calls p config in
        let m1 = record_outcome name config init_err (record m { calls = suc m.calls }) in
        elim init_err [
          | none ↦ (none, m1)
          | some e ↦ (some (wrapped ("configure plugin " +++ name) e), m1)
        ]
  ]

  unfoldable pub set_enabled : String → Bool → Manager → Option Error × Manager
  set_enabled name enabled m = elim (plugin_named name m) [
    | none ↦ (some (not_registered name), m)
    | some _ ↦
        let s = or_fresh name false (state_of name m.states) in
        (
          none,
          record m {
            states = put_state (record s { plugin_name = name; enabled = enabled }) m.states;
          },
        )
  ]

  -- The names of the plugins that failed, each with its error.
  unfoldable pub initialize_names :
      List String → (String → Option Entries) → Manager → List (String × Error) × Manager
  unfolding configure
  initialize_names [] configs m = ([], m)
  initialize_names (name ∷ names) configs m =
      let (e, m1) = configure name (or_empty (configs name)) m in
      let (failed, m2) = initialize_names names configs m1 in
      (elim e [ none ↦ failed | some f ↦ (name, f) ∷ failed ], m2)

  unfoldable pub initialize_all :
      (String → Option Entries) → Manager → List (String × Error) × Manager
  unfolding initialize_names
  initialize_all configs m = initialize_names (map code.name_of m.plugins) configs m
