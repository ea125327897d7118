-- ===== src/Plugin/Manager/Hooks.antt =====
-- Who gets a hook: `TriggerHook` in pkg/plugin/plugin.go.
use orion_belt.Prelude.{
  Bool, List, Option-cases, String, [], ap, arith, inl, inr, keep, length, map, none, refl, some,
  suc, sym, ℕ, ◌++◌, ◌∙◌, ◌∷◌, ◌≡◌,
}
use orion_belt.Plugin.Manager.Reached.{Reached, hooked}
use orion_belt.Plugin.Manager.{
  Delivery, Manager, Plugin, PluginCode, call_hook, call_hook_error, call_hooks, hook_targets,
  is_enabled, state_of, trigger_hook,
}
use orion_belt.Plugin.Manager.Sound.{Reached-IsSound}

append_assoc : (xs ys zs : List Delivery) → (xs ++ ys) ++ zs ≡ xs ++ (ys ++ zs)
append_assoc [] ys zs = refl
append_assoc (x ∷ xs) ys zs = ap (λ t. x ∷ t) (append_assoc xs ys zs)

append-nil : (xs : List Delivery) → xs ++ [] ≡ xs
append-nil [] = refl
append-nil (x ∷ xs) = ap (λ t. x ∷ t) (append-nil xs)

abbrev pub delivery : String → Plugin → Delivery
delivery hook p = record { to = p; hook = hook }

module _ (code : PluginCode) where
  delivered-call_hooks :
      (ps : List Plugin) (hook : String) (m : Manager)
      → (call_hooks code ps hook m).1.delivered ≡ m.delivered ++ map (delivery hook) ps
  unfolding call_hooks call_hook
  delivered-call_hooks [] hook m = sym (append-nil m.delivered)
  delivered-call_hooks (p ∷ ps) hook m =
      delivered-call_hooks ps hook (call_hook code p hook m).1
      ∙ append_assoc m.delivered (delivery hook p ∷ []) (map (delivery hook) ps)

  -- The calls of a list of plugins that fail, the first of them being the n-th call of plugin code.
  abbrev pub failing : ℕ → String → List Plugin → List Plugin
  failing n hook [] = []
  failing n hook (p ∷ ps) =
      let rest = failing (suc n) hook ps in
      elim (call_hook_error code p hook (code.on_hook n p hook)) [ none ↦ rest | some _ ↦ p ∷ rest ]

  errors-call_hooks :
      (ps : List Plugin) (hook : String) (m : Manager)
      → length (call_hooks code ps hook m).0 ≡ length (failing m.calls hook ps)
  unfolding call_hooks call_hook
  errors-call_hooks [] hook m = refl
  errors-call_hooks (p ∷ ps) hook m =
      let rest = errors-call_hooks ps hook (call_hook code p hook m).1 in
      elim (Option-cases (call_hook_error code p hook (code.on_hook m.calls p hook))) [
        | inl e ↦ ground (arith, e, rest)
        | inr (f, e) ↦ ground (arith, e, rest)
      ]

  abbrev pub enabled_in : Manager → Plugin → Bool
  enabled_in m p = is_enabled (state_of (code.name_of p) m.states)

  -- In every manager that can be reached a hook is handed to each registered plugin that takes it
  -- and is enabled, once and in the order of registration, whichever of the calls fail, and to no
  -- other plugin; there is one error for each call that fails, panics or times out.
  pub Reached-delivered :
      (hook : String) {m : Manager}
      → Reached code m
      → ((trigger_hook code hook m).1.delivered
          ≡ m.delivered ++ map (delivery hook) (keep (enabled_in m) (hooked code hook m.plugins)))
        × (length (trigger_hook code hook m).0
            ≡ length (failing m.calls hook (keep (enabled_in m) (hooked code hook m.plugins))))
  unfolding trigger_hook
  Reached-delivered hook {m} r =
      let sound = Reached-IsSound code r in
      rw (sym (sound.hooks hook)) (
        delivered-call_hooks (hook_targets code hook m) hook m,
        errors-call_hooks (hook_targets code hook m) hook m,
      )
