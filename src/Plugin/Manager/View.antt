-- ===== src/Plugin/Manager/View.antt =====
-- What the plugin manager of pkg/plugin/plugin.go tells of its plugins: `Info`, `ListInfo`,
-- `SchemaSecrets` and `HTTPHandler`.
use orion_belt.Prelude.{
  Bool, List, Option, String, [], false, if◌then◌else◌, map, none, not, some, text_lt, ◌∷◌,
}
use orion_belt.Apperr.{Result, err, ok}
use orion_belt.Plugin.Manager.{Manager, Plugin, PluginCode, not_registered, plugin_named, state_of}
use orion_belt.Plugin.{ConfigFields, Entries, end}
use orion_belt.Plugin.Config.{redact_config, secret_leaf_names}

pub record Info : Type 0 where
  pub name : String
  pub version : String
  pub enabled : Bool
  pub configured : Bool
  pub last_error : String
  pub config : Entries
  pub has_webhook : Bool
  pub schema : Option ConfigFields

abbrev pub shown_config : List String → Option Entries → Entries
shown_config secrets none = end
shown_config secrets (some c) = redact_config secrets c

unfoldable insert_info : Info → List Info → List Info
insert_info i [] = i ∷ []
insert_info i (j ∷ js) =
    let rest = insert_info i js in if text_lt j.name i.name then j ∷ rest else i ∷ j ∷ js

-- `sort.Slice` by name; the names of a manager's plugins are distinct.
unfoldable pub sort_infos : List Info → List Info
unfolding insert_info
sort_infos [] = []
sort_infos (i ∷ is) = insert_info i (sort_infos is)

module _ (code : PluginCode) where
  -- `schemaSecretsFor`
  abbrev pub schema_secrets_for : Plugin → List String
  schema_secrets_for p = elim (code.schema_of p) [ none ↦ [] | some fs ↦ secret_leaf_names fs ]

  unfoldable pub schema_secrets : String → Manager → Result (List String)
  schema_secrets name m = elim (plugin_named code name m) [
    | none ↦ err (not_registered name)
    | some p ↦ ok (schema_secrets_for p)
  ]

  unfoldable pub info_locked : String → Plugin → Manager → Info
  info_locked name p m =
      let blank : Info = record {
        name = name;
        version = code.version_of p;
        enabled = false;
        configured = false;
        last_error = "";
        config = end;
        has_webhook = code.has_http p;
        schema = code.schema_of p;
      } in
      elim (state_of name m.states) [
        | none ↦ blank
        | some s ↦ record blank {
          enabled = s.enabled;
          configured = s.configured;
          last_error = s.last_err;
          config = shown_config (schema_secrets_for p) s.config;
        }
      ]

  unfoldable pub info : String → Manager → Result Info
  unfolding info_locked
  info name m = elim (plugin_named code name m) [
    | none ↦ err (not_registered name)
    | some p ↦ ok (info_locked name p m)
  ]

  unfoldable pub list_info : Manager → List Info
  unfolding info_locked sort_infos
  list_info m = sort_infos (map (λ p. info_locked (code.name_of p) p m) m.plugins)

  -- The plugin whose handler serves the webhook.
  unfoldable pub http_handler : String → Manager → Option Plugin
  http_handler name m = elim (state_of name m.states) [
    | none ↦ none
    | some s ↦ if not s.enabled then none else elim (plugin_named code name m) [
      | none ↦ none
      | some p ↦ if code.has_http p then some p else none
    ]
  ]
