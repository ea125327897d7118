-- ===== src/Plugin/Manager/Sound.antt =====
-- The steps of the plugin manager and its invariant: pkg/plugin/plugin.go.
use orion_belt.Prelude.{
  All, Bool, Bool-cases, List, Option, Option-cases, String, [], arith, eq_iff, eq_refl, false,
  find, if◌then◌else◌, inl, inr, keep, not, refl, some, subst, suc, sym, text_ne_sym, true, ◌&&◌,
  ◌++◌, ◌==◌, ◌∷◌, ◌≡◌,
}
use orion_belt.Plugin.Manager.{
  Manager, Plugin, PluginCode, PluginState, call_hook, call_hooks, configure, fresh_state,
  hook_targets, is_hook, plugin_named, put_state, record_outcome, register, remove_first,
  set_enabled, trigger_hook, unregister, without_state,
}
use orion_belt.Plugin.Manager.Reached.{
  IsDistinct, IsSound, Reached, any_absent, configured, distinct-append, distinct-keep, has_state,
  hooked, keep-snoc, keep_none, recorded, registered, remove-keep, started, toggled, triggered,
  unregistered,
}
use orion_belt.Plugin.{Entries}
use orion_belt.Apperr.{Error}

module _ (code : PluginCode) where
  abbrev HasStates : List PluginState → List Plugin → Type 0
  HasStates ss = All (λ p. has_state code ss p ≡ true)

  HasStates-map :
      (ss ts : List PluginState) (ps : List Plugin)
      → ((p : Plugin) → has_state code ss p ≡ true → has_state code ts p ≡ true)
      → HasStates ss ps
      → HasStates ts ps
  HasStates-map ss ts [] f h = tt
  HasStates-map ss ts (p ∷ ps) f (hp, h) = (f p hp, HasStates-map ss ts ps f h)

  HasStates-append :
      (ss : List PluginState) (ps : List Plugin) (p : Plugin)
      → HasStates ss ps
      → has_state code ss p ≡ true
      → HasStates ss (ps ++ (p ∷ []))
  HasStates-append ss [] p h hp = (hp, tt)
  HasStates-append ss (q ∷ qs) p (hq, h) hp = (hq, HasStates-append ss qs p h hp)

  kept_state :
      (name : String) (ss : List PluginState) (p : Plugin)
      → (code.name_of p == name) ≡ false
      → has_state code ss p ≡ true
      → has_state code (without_state name ss) p ≡ true
  kept_state name [] p other h = h
  kept_state name (s ∷ ss) p other h = elim (Bool-cases (s.plugin_name == name)) [
    | inl e ↦ rw e (
        kept_state name ss p other
          (rw (s_other s.plugin_name ((eq_iff s.plugin_name name).0 e)) at h))
    | inr e ↦ elim (Bool-cases (s.plugin_name == code.name_of p)) [
      | inl k ↦ rw (e, k) refl
      | inr k ↦ rw (e, k) (kept_state name ss p other (rw k at h))
    ]
  ]
    where
      s_other : (n : String) → n ≡ name → (n == code.name_of p) ≡ false
      s_other n e = rw e (text_ne_sym (code.name_of p) name other)

  -- The states of the plugins that keep another name survive the removal of a name.
  HasStates-without :
      (name : String) (ss : List PluginState) (ps : List Plugin)
      → HasStates ss ps
      → HasStates (without_state name ss) (keep (λ q. not (code.name_of q == name)) ps)
  HasStates-without name ss [] h = tt
  HasStates-without name ss (p ∷ ps) (hp, h) = elim (Bool-cases (code.name_of p == name)) [
    | inl e ↦ rw e (HasStates-without name ss ps h)
    | inr e ↦ rw e (kept_state name ss p e hp, HasStates-without name ss ps h)
  ]

  put_state-has_state :
      (s : PluginState) (ss : List PluginState) (p : Plugin)
      → has_state code ss p ≡ true
      → has_state code (put_state s ss) p ≡ true
  put_state-has_state s ss p h = elim (Bool-cases (s.plugin_name == code.name_of p)) [
    | inl e ↦ rw e refl
    | inr e ↦ rw e (kept_state s.plugin_name ss p (text_ne_sym s.plugin_name (code.name_of p) e) h)
  ]

  hooked-append :
      (hook : String) (ps : List Plugin) (p : Plugin)
      → hooked code hook (ps ++ (p ∷ [])) ≡ (
          if code.has_hooks p && is_hook hook
          then hooked code hook ps ++ (p ∷ [])
          else hooked code hook ps)
  hooked-append hook ps p = keep-snoc code (λ q. code.has_hooks q && is_hook hook) ps p

  hooked-without :
      (hook name : String) (ps : List Plugin) (p : Plugin)
      → IsDistinct code ps
      → find (λ q. code.name_of q == name) ps ≡ some p
      → (if code.has_hooks p then remove_first p (hooked code hook ps) else hooked code hook ps)
        ≡ hooked code hook (keep (λ q. not (code.name_of q == name)) ps)
  hooked-without hook name ps p d found =
      let f : Plugin → Bool = λ q. code.has_hooks q && is_hook hook in
      elim (Bool-cases (is_hook hook)) [
        | inl e ↦
            let same : (code.has_hooks p && is_hook hook) ≡ code.has_hooks p = ground arith in
            subst
              (λ b.
                (if b then remove_first p (keep f ps) else keep f ps)
                ≡ keep f (keep (λ q. not (code.name_of q == name)) ps))
              same (remove-keep code f name ps p d found)
        | inr e ↦
            let off : (q : Plugin) → f q ≡ false = λ q. ground arith in
            rw
              (
                keep_none code f ps off,
                keep_none code f (keep (λ q. not (code.name_of q == name)) ps) off,
              )
              (ground arith)
      ]

  register-IsSound :
      (p : Plugin) (m : Manager) → IsSound code m → IsSound code (register code p m).1
  unfolding register
  register-IsSound p m h = elim (Option-cases (plugin_named code (code.name_of p) m)) [
    | inl new ↦
        rw (register, new)
          (record {
            distinct =
                distinct-append code m.plugins p (any_absent code (code.name_of p) m.plugins new)
                  h.distinct;
            hooks = λ hook. rw (h.hooks hook) (sym (hooked-append hook m.plugins p));
            states =
                HasStates-append (put_state (fresh_state (code.name_of p) true) m.states) m.plugins
                  p
                  (HasStates-map m.states (put_state (fresh_state (code.name_of p) true) m.states)
                    m.plugins (put_state-has_state (fresh_state (code.name_of p) true) m.states)
                    h.states)
                  (rw (eq_refl (code.name_of p)) refl);
          })
    | inr (q, old) ↦ rw (register, old) h
  ]

  unregister-IsSound :
      (name : String) (m : Manager) → IsSound code m → IsSound code (unregister code name m).1
  unfolding unregister
  unregister-IsSound name m h = elim (Option-cases (plugin_named code name m)) [
    | inl missing ↦ rw (unregister, missing) h
    | inr (p, found) ↦
        rw (unregister, found)
          (record {
            distinct = distinct-keep code (λ q. not (code.name_of q == name)) m.plugins h.distinct;
            hooks =
                λ hook. rw (h.hooks hook) (hooked-without hook name m.plugins p h.distinct found);
            states = HasStates-without name m.states m.plugins h.states;
          })
  ]

  call_hooks_rest :
      (ps : List Plugin) (hook : String) (m : Manager)
      → IsSound code m
      → IsSound code (call_hooks code ps hook m).1
  unfolding call_hooks call_hook
  call_hooks_rest [] hook m h = h
  call_hooks_rest (p ∷ ps) hook m h =
      call_hooks_rest ps hook (call_hook code p hook m).1
        (record { distinct = h.distinct; hooks = h.hooks; states = h.states })

  -- A state that is put in place of that of its name.
  put_state-IsSound :
      (s : PluginState) (m : Manager)
      → IsSound code m
      → IsSound code (record m { states = put_state s m.states })
  put_state-IsSound s m h = record {
    distinct = h.distinct;
    hooks = h.hooks;
    states =
        HasStates-map m.states (put_state s m.states) m.plugins (put_state-has_state s m.states)
          h.states;
  }

  record_outcome-IsSound :
      (name : String) (config : Entries) (e : Option Error) (m : Manager)
      → IsSound code m
      → IsSound code (record_outcome code name config e m)
  unfolding record_outcome
  record_outcome-IsSound name config e m h = put_state-IsSound _ m h

  configure-IsSound :
      (name : String) (config : Entries) (m : Manager)
      → IsSound code m
      → IsSound code (configure code name config m).1
  unfolding configure
  configure-IsSound name config m h = elim (Option-cases (plugin_named code name m)) [
    | inl missing ↦ rw (configure, missing) h
    | inr (p, found) ↦
        let called : Manager = record m { calls = suc m.calls } in
        let sound : IsSound code called = record {
          distinct = h.distinct;
          hooks = h.hooks;
          states = h.states;
        } in
        let done =
          record_outcome-IsSound name config (code.initialize m.calls p config) called sound in
        elim (Option-cases (code.initialize m.calls p config)) [
          | inl e ↦ rw (configure, found, e) done
          | inr (f, e) ↦ rw (configure, found, e) done
        ]
  ]

  set_enabled-IsSound :
      (name : String) (enabled : Bool) (m : Manager)
      → IsSound code m
      → IsSound code (set_enabled code name enabled m).1
  unfolding set_enabled
  set_enabled-IsSound name enabled m h = elim (Option-cases (plugin_named code name m)) [
    | inl missing ↦ rw (set_enabled, missing) h
    | inr (p, found) ↦ rw (set_enabled, found) (put_state-IsSound _ m h)
  ]

  -- In every manager that can be reached names are listed once, a hook is handed to the registered
  -- plugins that take it, in the order of their registration, and to no other, and every registered
  -- plugin has a state.
  pub Reached-IsSound : {m : Manager} → Reached code m → IsSound code m
  unfolding trigger_hook
  Reached-IsSound started = record { distinct = tt; hooks = λ hook. refl; states = tt }
  Reached-IsSound (registered {m} p r) = register-IsSound p m (Reached-IsSound r)
  Reached-IsSound (unregistered {m} name r) = unregister-IsSound name m (Reached-IsSound r)
  Reached-IsSound (triggered {m} hook r) =
      call_hooks_rest (hook_targets code hook m) hook m (Reached-IsSound r)
  Reached-IsSound (configured {m} name config r) =
      configure-IsSound name config m (Reached-IsSound r)
  Reached-IsSound (recorded {m} name config e r) =
      record_outcome-IsSound name config e m (Reached-IsSound r)
  Reached-IsSound (toggled {m} name enabled r) =
      set_enabled-IsSound name enabled m (Reached-IsSound r)
