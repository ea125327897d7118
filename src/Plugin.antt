-- ===== src/Plugin.antt =====
-- pkg/plugin/plugin.go: the configuration values of a plugin, which are decoded JSON, and the fields
-- of its schema. A text in a configuration is the list of its bytes; a key is a text.
pub mod Config
pub mod Manager
pub mod Settings
use orion_belt.Prelude.{Bool, List, Option, String, if◌then◌else◌, none, some, ℕ, ◌==◌}

abbrev pub Bytes : Type 0
Bytes = List ℕ

-- A Go `map[string]interface{}` is a list of its entries; a number stands for its float64 bits.
mutual
  pub data Value : Type 0 where
    null : Value
    flag : Bool → Value
    number : ℕ → Value
    text : Bytes → Value
    array : Items → Value
    object : Entries → Value

  pub data Items : Type 0 where
    no_items : Items
    item : Value → Items → Items

  pub data Entries : Type 0 where
    end : Entries
    entry : String → Value → Entries → Entries

-- `ConfigField`, less the texts that only the web form shows.
mutual
  pub data ConfigField : Type 0 where
    config_field : String → Bool → ConfigFields → ConfigField

  pub data ConfigFields : Type 0 where
    no_fields : ConfigFields
    fields : ConfigField → ConfigFields → ConfigFields

-- `config[k]`
unfoldable pub lookup : String → Entries → Option Value
lookup k end = none
lookup k (entry j v es) = let rest = lookup k es in if j == k then some v else rest

-- common.PluginSetting, a row of the table plugin_settings.
pub record PluginSetting : Type 0 where
  pub name : String
  pub enabled : Bool
  pub config : Entries
  pub updated_at : ℕ
