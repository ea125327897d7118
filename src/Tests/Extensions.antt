-- ===== src/Tests/Extensions.antt =====
-- Plugins, their manager and their settings at concrete inputs.
use orion_belt.Prelude.{
  [], arith, eqb, false, if◌then◌else◌, length, none, refl, some, true, ◌∷◌, ◌≡◌,
}
use orion_belt.Apperr.{ok}
use orion_belt.Api.Review.{Caller, record_audit}
use orion_belt.Plugin.Manager.Reached.{Reached, registered, started}
use orion_belt.World.{World}
use orion_belt.Tests.Fixtures.{env, env_with, failing_at, world}
use orion_belt.Plugin.Manager.{
  Manager, PluginCode, PluginState, call_hook_error, configure, is_hook, new_manager, panicked,
  register, returned, set_enabled, trigger_hook,
}
use orion_belt.Plugin.Manager.Hooks.{Reached-delivered, delivery}
use orion_belt.Plugin.Settings.Unchanged.{stored_config}
use orion_belt.Plugin.{Bytes, Entries, PluginSetting, end, entry, object, text}
use orion_belt.Plugin.Settings.{
  set_plugin_enabled, setting_named, start_plugins, update_plugin_config, upsert_plugin_setting,
}
use orion_belt.Plugin.Config.{mask_secret_value, redact_config}
use orion_belt.Plugin.Settings.Started.{start_plugins-keeps}
use orion_belt.Plugin.Config.Masked.{mask-hides}
use orion_belt.Plugin.Manager.View.{info_locked}

abbrev hidden : Bytes
hidden = 120 ∷ 111 ∷ 120 ∷ 98 ∷ 45 ∷ 49 ∷ 50 ∷ 51 ∷ 52 ∷ 53 ∷ 54 ∷ []

abbrev config : Entries
config =
    entry "channel" (text (35 ∷ 111 ∷ []))
      (entry "slack" (object (entry "bot_token" (text hidden) end)) end)

abbrev row : PluginSetting
row = record { name = "chat"; enabled = true; config = config; updated_at = 1 }

-- A plugin that takes hooks and accepts any configuration; the first call of it panics.
abbrev code : PluginCode
code = record {
  name_of = λ p. if eqb p 7 then "chat" else "mail";
  version_of = λ p. "1";
  schema_of = λ p. none;
  has_hooks = λ p. true;
  has_http = λ p. false;
  initialize = λ n p c. none;
  on_hook = λ n p h. if eqb n 0 then panicked "boom" else returned none;
}

abbrev two_plugins : Manager
two_plugins = (register code 8 (register code 7 new_manager).1).1

two_plugins-Reached : Reached code two_plugins
two_plugins-Reached = registered 8 (registered 7 started)

abbrev running : Manager
running = (configure code "chat" config two_plugins).1

abbrev chat_state : PluginState
chat_state = record {
  plugin_name = "chat";
  enabled = true;
  configured = true;
  last_err = "";
  config = some config;
}

abbrev stored_world : World
stored_world = record world { plugin_settings = row ∷ [] }

abbrev caller : Caller
caller = record { user_id = "alice"; role = "admin"; is_admin = true }

Reached-delivered_example :
    ((trigger_hook code "post_auth" two_plugins).1.delivered
      ≡ delivery "post_auth" 7 ∷ delivery "post_auth" 8 ∷ [])
    × (length (trigger_hook code "post_auth" two_plugins).0 ≡ 1)
unfolding register is_hook call_hook_error
Reached-delivered_example = Reached-delivered code "post_auth" two_plugins-Reached

start_plugins-keeps_example :
    (n : Manager) × (v : World) × (start_plugins env code
        (("chat", end) ∷ ("mail", end) ∷ [])
        []
        two_plugins
        stored_world
      ≡ (ok n, v))
    × (setting_named "chat" v.plugin_settings ≡ some row)
start_plugins-keeps_example =
    start_plugins-keeps env code (("chat", end) ∷ ("mail", end) ∷ []) [] two_plugins "chat" row
      stored_world refl refl

mask-hides_example :
    mask_secret_value (1 ∷ 2 ∷ 9 ∷ 9 ∷ 9 ∷ 9 ∷ 9 ∷ 9 ∷ 3 ∷ 4 ∷ [])
    ≡ mask_secret_value (1 ∷ 2 ∷ 8 ∷ 7 ∷ 6 ∷ 5 ∷ 4 ∷ 3 ∷ 2 ∷ 3 ∷ 4 ∷ [])
mask-hides_example =
    mask-hides 2 (1 ∷ 2 ∷ []) (9 ∷ 9 ∷ 9 ∷ 9 ∷ 9 ∷ 9 ∷ []) (8 ∷ 7 ∷ 6 ∷ 5 ∷ 4 ∷ 3 ∷ 2 ∷ [])
      (3 ∷ 4 ∷ []) (omega arith) (omega arith) refl refl refl refl

-- Where the stored settings cannot be listed, the default of a plugin replaces its row.
start_plugins_overwrites :
    setting_named "chat"
      (start_plugins
        (env_with (failing_at 0))
        code
        (("chat", end) ∷ [])
        []
        two_plugins
        stored_world).1.plugin_settings
    ≡ some (record { name = "chat"; enabled = true; config = end; updated_at = 101 })
unfolding start_plugins
start_plugins_overwrites = refl

-- Where the row cannot be read, the switch replaces its configuration by an empty one.
set_plugin_enabled_empties :
    stored_config "chat"
      (set_plugin_enabled (env_with (failing_at 0)) code caller "chat" false running stored_world).1
    ≡ some end
unfolding set_plugin_enabled set_enabled configure register upsert_plugin_setting record_audit
set_plugin_enabled_empties = refl

-- Where the row cannot be read, the masks are stored in place of the secrets.
update_plugin_config_masks :
    stored_config "chat"
      (update_plugin_config
        (env_with (failing_at 0))
        code
        caller
        "chat"
        true
        (some (info_locked code "chat" 7 running).config)
        running
        stored_world).1
    ≡ some (redact_config [] config)
unfolding update_plugin_config set_enabled configure register redact_config info_locked
update_plugin_config_masks = refl
