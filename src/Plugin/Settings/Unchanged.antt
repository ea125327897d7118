-- ===== src/Plugin/Settings/Unchanged.antt =====
-- A plugin's configuration that is sent back as the settings page showed it: pkg/api/plugins.go.
use orion_belt.Prelude.{
  Bool-cases, List, Option, String, [], any, eq_refl, inl, inr, none, refl, some, true,
  update_where, ◌==◌, ◌∷◌, ◌≡◌,
}
use orion_belt.Plugin.Manager.{Manager, Plugin, PluginState, state_of}
use orion_belt.World.{World}
use orion_belt.Plugin.{Entries, PluginSetting}
use orion_belt.Plugin.Settings.{set_setting, setting_named}

-- The configuration that the table keeps, and the one that the plugin runs with.
abbrev pub stored_config : String → World → Option Entries
stored_config name w = elim (setting_named name w.plugin_settings) [
  | none ↦ none
  | some row ↦ some row.config
]

abbrev pub config_of : Option PluginState → Option Entries
config_of none = none
config_of (some s) = s.config

abbrev pub running_config : String → Manager → Option Entries
running_config name m = config_of (state_of name m.states)

update_where-named :
    (row : PluginSetting) (rows : List PluginSetting)
    → any (λ s. s.name == row.name) rows ≡ true
    → setting_named row.name (update_where (λ s. s.name == row.name) (λ _. row) rows) ≡ some row
update_where-named row [] h = cc
update_where-named row (s ∷ rows) h = elim (Bool-cases (s.name == row.name)) [
  | inl e ↦ rw (e, eq_refl row.name) refl
  | inr e ↦ rw (e, e) (update_where-named row rows (rw e at h))
]

pub set_setting-named :
    (row : PluginSetting) (rows : List PluginSetting)
    → setting_named row.name (set_setting row rows) ≡ some row
set_setting-named row rows = elim (Bool-cases (any (λ s. s.name == row.name) rows)) [
  | inl e ↦ rw e (update_where-named row rows e)
  | inr e ↦ rw (e, eq_refl row.name) refl
]
