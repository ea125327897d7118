-- ===== src/Plugin/Settings/Started.antt =====
-- What the start of a server does to the stored settings of the plugins: pkg/server/server.go.
use orion_belt.Prelude.{
  Bool-cases, List, Option-cases, String, [], any, arith, code, eq_iff, false, inl, inr, none, refl,
  some, suc, text_cases, true, update_where, ◌==◌, ◌∙◌, ◌∷◌, ◌≡◌,
}
use orion_belt.Apperr.{ok}
use orion_belt.Plugin.{Entries, PluginSetting}
use orion_belt.World.{Env, M, World, step}
use orion_belt.Plugin.Settings.{
  list_plugin_settings, seed_settings, set_setting, setting_named, start_each, start_plugins,
  upsert_plugin_setting,
}
use orion_belt.Plugin.Manager.{Manager, PluginCode}

update_where-other :
    (name : String) (row : PluginSetting) (rows : List PluginSetting)
    → (row.name == name) ≡ false
    → setting_named name (update_where (λ s. s.name == row.name) (λ _. row) rows)
      ≡ setting_named name rows
update_where-other name row [] other = refl
update_where-other name row (s ∷ rows) other = elim (Bool-cases (s.name == row.name)) [
  | inl e ↦
      let s_other : (s.name == name) ≡ false = rw ((eq_iff s.name row.name).0 e) other in
      rw (e, other, s_other) (update_where-other name row rows other)
  | inr e ↦ elim (Bool-cases (s.name == name)) [
    | inl k ↦ rw (e, k) refl
    | inr k ↦ rw (e, k) (update_where-other name row rows other)
  ]
]

set_setting-other :
    (name : String) (row : PluginSetting) (rows : List PluginSetting)
    → (row.name == name) ≡ false
    → setting_named name (set_setting row rows) ≡ setting_named name rows
set_setting-other name row rows other = elim (Bool-cases (any (λ s. s.name == row.name) rows)) [
  | inl e ↦ rw e (update_where-other name row rows other)
  | inr e ↦ rw (e, other) refl
]

-- A row that is found is known.
known-of_found :
    (name : String) (rows : List PluginSetting) (row : PluginSetting)
    → setting_named name rows ≡ some row
    → any (λ s. s.name == name) rows ≡ true
known-of_found name [] row h = cc
known-of_found name (s ∷ rows) row h = elim (Bool-cases (s.name == name)) [
  | inl e ↦ rw e refl
  | inr e ↦ rw e (known-of_found name rows row (rw e at h))
]

-- A name that is not known differs from one that is.
known-other :
    (name other : String) (known : List PluginSetting)
    → any (λ s. s.name == name) known ≡ true
    → any (λ s. s.name == other) known ≡ false
    → (other == name) ≡ false
known-other name other known present absent = elim (text_cases other name) [
  | inl e ↦ absurd (cc (rw (e, present) at absent))
  | inr e ↦ e
]

module _ (env : Env) (name : String) (row : PluginSetting) where
  -- Seeding ends, the name stays known, and its row stays.
  abbrev IsKept : M (List PluginSetting) → World → Type 0
  IsKept run w =
      (rows : List PluginSetting) × (v : World) × (run w ≡ (ok rows, v))
      × (any (λ s. s.name == name) rows ≡ true)
      × (setting_named name v.plugin_settings ≡ some row)

  seed_settings-IsKept :
      (seeds : List (String × Entries)) (known : List PluginSetting) (w : World)
      → any (λ s. s.name == name) known ≡ true
      → setting_named name w.plugin_settings ≡ some row
      → IsKept (seed_settings env seeds known) w
  unfolding seed_settings upsert_plugin_setting
  seed_settings-IsKept [] known w k h = (known, w, refl, k, h)
  seed_settings-IsKept ((n, config) ∷ rest) known w k h =
      let two : World = step (step w) in
      let seed : PluginSetting = record {
        name = n;
        enabled = true;
        config = config;
        updated_at = env.clock w.tick;
      } in
      let seeded : World = record two { plugin_settings = set_setting seed two.plugin_settings } in
      elim (Bool-cases (any (λ s. s.name == n) known)) [
        | inl e ↦ rw e (seed_settings-IsKept rest known w k h)
        | inr e ↦
            let n_other = known-other name n known k e in
            elim (Option-cases (env.fault (suc w.tick))) [
              | inl runs ↦
                  let (rows, v, q, k', h') =
                    seed_settings-IsKept rest (seed ∷ known) seeded (rw n_other k)
                      (set_setting-other name seed two.plugin_settings n_other ∙ h) in
                  (rows, v, ground (arith, e, runs, q), k', h')
              | inr (f, fails) ↦
                  let (rows, v, q, k', h') = seed_settings-IsKept rest known two k h in
                  (rows, v, ground (arith, e, fails, q), k', h')
            ]
      ]

-- A start that can list the stored settings ends, and leaves every stored row as it is, whatever
-- the built-in defaults and the file say and whatever the other statements and the plugins answer.
pub start_plugins-keeps :
    (env : Env) (code : PluginCode) (defaults file : List (String × Entries)) (m : Manager)
    (name : String) (row : PluginSetting) (w : World)
    → env.fault w.tick ≡ none
    → setting_named name w.plugin_settings ≡ some row
    → (n : Manager) × (v : World) × (start_plugins env code defaults file m w ≡ (ok n, v))
      × (setting_named name v.plugin_settings ≡ some row)
unfolding start_plugins list_plugin_settings
start_plugins-keeps env code defaults file m name row w reads h =
    let found = known-of_found name w.plugin_settings row h in
    let (known, u, seeds, k, kept) =
      seed_settings-IsKept env name row defaults w.plugin_settings (step w) found h in
    let (known', v, seeds', k', kept') = seed_settings-IsKept env name row file known u k kept in
    (start_each env code known' m, v, ground (arith, reads, seeds, seeds'), kept')
