-- ===== src/Plugin/Settings.antt =====
-- The stored settings of the plugins: their statements in pkg/database/postgres.go, the handlers of
-- pkg/api/plugins.go, and the start of the plugins in pkg/server/server.go. The column of the
-- configuration is decoded JSON; a server always has a plugin manager.
pub mod Unchanged
pub mod Started
use orion_belt.Prelude.{
  Bool, List, Option, String, [], any, code, false, find, if◌then◌else◌, none, some, true,
  update_where, ℕ, ◌==◌, ◌∷◌,
}
use orion_belt.Apperr.{Error, Result, err, error_text, ok, ◌+++◌}
use orion_belt.World.{Env, M, attempt, pure, sql, time_now, ◌>>=◌, ◌>>◌}
use orion_belt.Api.Review.{Caller, record_audit}
use orion_belt.Plugin.Manager.View.{Info, info, schema_secrets}
use orion_belt.Plugin.Manager.{Manager, PluginCode, configure, or_empty, set_enabled}
use orion_belt.Plugin.{Entries, PluginSetting, end}
use orion_belt.Store.{err_not_found}
use orion_belt.Plugin.Config.{reconcile_config}

abbrev pub setting_named : String → List PluginSetting → Option PluginSetting
setting_named name = find (λ s. s.name == name)

abbrev pub set_setting : PluginSetting → List PluginSetting → List PluginSetting
set_setting row rows =
    if any (λ s. s.name == row.name) rows
    then update_where (λ s. s.name == row.name) (λ _. row) rows
    else row ∷ rows

abbrev pub secrets_or_none : Result (List String) → List String
secrets_or_none (ok secrets) = secrets
secrets_or_none (err _) = []

-- The refusal, or the view of the plugin with the error of its configuration.
pub data PluginResponse : Type 0 where
  not_done : ℕ → String → PluginResponse
  plugin_shown : ℕ → Info → Option Error → PluginResponse
  plugin_unknown : ℕ → PluginResponse

module _ (env : Env) where
  unfoldable pub get_plugin_setting : String → M PluginSetting
  get_plugin_setting name = sql env (λ _ w. elim (setting_named name w.plugin_settings) [
    | none ↦ (err err_not_found, w)
    | some row ↦ (ok row, w)
  ])

  -- The order of the rows, by name, is not read.
  unfoldable pub list_plugin_settings : M (List PluginSetting)
  list_plugin_settings = sql env (λ _ w. (ok w.plugin_settings, w))

  unfoldable pub upsert_plugin_setting : PluginSetting → M (Unit {0})
  upsert_plugin_setting row =
      sql env
        (λ _ w. (ok (tt {0}), record w { plugin_settings = set_setting row w.plugin_settings }))

  -- The rows that the server writes for the plugins that have none, with the rows that it knows.
  unfoldable pub seed_settings :
      List (String × Entries) → List PluginSetting → M (List PluginSetting)
  unfolding upsert_plugin_setting
  seed_settings [] known = pure known
  seed_settings ((name, config) ∷ rest) known =
      if any (λ s. s.name == name) known then seed_settings rest known else do
        now ← time_now env
        let seed : PluginSetting = record {
          name = name;
          enabled = true;
          config = config;
          updated_at = now;
        } in
            do
              saved ← attempt (upsert_plugin_setting seed)
              elim saved [
                | err _ ↦ seed_settings rest known
                | ok _ ↦ seed_settings rest (seed ∷ known)
              ]

module _ (env : Env) (code : PluginCode) where
  -- The configuration that is set: masked secrets get back the values of the stored row.
  abbrev pub submitted_config : String → Entries → Result PluginSetting → Manager → Entries
  submitted_config name config (err _) m = config
  submitted_config name config (ok row) m =
      reconcile_config (secrets_or_none (schema_secrets code name m)) config row.config

  abbrev pub configured_answer : String → Option Error → Manager → PluginResponse
  configured_answer name config_err m = elim (info code name m) [
    | err e ↦ not_done 404 (error_text e)
    | ok i ↦ plugin_shown 200 i config_err
  ]

  -- `updatePluginConfig` after `Configure` and `SetEnabled`.
  unfoldable pub save_plugin_config :
      Caller → String → Bool → Entries → Option Error → Manager → M PluginResponse
  unfolding upsert_plugin_setting record_audit
  save_plugin_config c name enabled config config_err m = do
    now ← time_now env
    saved ← attempt (
        upsert_plugin_setting env
          (record { name = name; enabled = enabled; config = config; updated_at = now }))
    elim saved [
      | err _ ↦ pure (not_done 500 "failed to persist plugin setting")
      | ok _ ↦ do
        record_audit env c "plugin.configure" ("plugin:" +++ name)
        pure (configured_answer name config_err m)
    ]

  unfoldable pub apply_plugin_config :
      Caller → String → Bool → Entries → Manager → M (PluginResponse × Manager)
  unfolding save_plugin_config
  apply_plugin_config c name enabled config m =
      let (config_err, m1) = configure code name config m in
      let (set_err, m2) = set_enabled code name enabled m1 in
      elim set_err [
        | some e ↦ pure (not_done 404 (error_text e), m2)
        | none ↦ do
          answer ← save_plugin_config c name enabled config config_err m2
          pure (answer, m2)
      ]

  -- `updatePluginConfig`, for the decoded body of the request.
  unfoldable pub update_plugin_config :
      Caller → String → Bool → Option Entries → Manager → M (PluginResponse × Manager)
  unfolding get_plugin_setting apply_plugin_config
  update_plugin_config c name enabled config m = do
    existing ← attempt (get_plugin_setting env name)
    apply_plugin_config c name enabled (submitted_config name (or_empty config) existing m) m

  abbrev pub toggled_setting : String → Result PluginSetting → PluginSetting
  toggled_setting name (ok row) = row
  toggled_setting name (err _) = record {
    name = name;
    enabled = false;
    config = end;
    updated_at = 0;
  }

  abbrev pub toggle_action : Bool → String
  toggle_action enabled = if enabled then "plugin.enable" else "plugin.disable"

  abbrev pub toggled_answer : String → Manager → PluginResponse
  toggled_answer name m = elim (info code name m) [
    | err _ ↦ plugin_unknown 200
    | ok i ↦ plugin_shown 200 i none
  ]

  -- `setPluginEnabled`
  unfoldable pub set_plugin_enabled :
      Caller → String → Bool → Manager → M (PluginResponse × Manager)
  unfolding get_plugin_setting upsert_plugin_setting record_audit
  set_plugin_enabled c name enabled m =
      let (set_err, m1) = set_enabled code name enabled m in
      elim set_err [
        | some e ↦ pure (not_done 404 (error_text e), m1)
        | none ↦ do
          found ← attempt (get_plugin_setting env name)
          now ← time_now env
          saved ← attempt (
              upsert_plugin_setting env
                (record (toggled_setting name found) { enabled = enabled; updated_at = now }))
          elim saved [
            | err _ ↦ pure (not_done 500 "failed to persist plugin setting", m1)
            | ok _ ↦ do
              record_audit env c (toggle_action enabled) ("plugin:" +++ name)
              pure (toggled_answer name m1, m1)
          ]
      ]

  -- The plugins are configured and switched as their rows say; an error is only logged.
  unfoldable pub start_each : List PluginSetting → Manager → Manager
  start_each [] m = m
  start_each (s ∷ rest) m =
      start_each rest (set_enabled code s.name s.enabled (configure code s.name s.config m).1).1

  abbrev pub rows_or_none : Result (List PluginSetting) → List PluginSetting
  rows_or_none (ok rows) = rows
  rows_or_none (err _) = []

  -- The part of `server.New` that starts the plugins: the built-in defaults and the file's `plugins`
  -- seed the table.
  unfoldable pub start_plugins :
      List (String × Entries) → List (String × Entries) → Manager → M Manager
  unfolding list_plugin_settings seed_settings start_each
  start_plugins defaults file m = do
    listed ← attempt (list_plugin_settings env)
    seeded ← seed_settings env defaults (rows_or_none listed)
    known ← seed_settings env file seeded
    pure (start_each known m)
