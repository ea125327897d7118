-- ===== src/Plugin/Manager/Reached.antt =====
-- The managers that a server can reach, whatever its plugins answer: pkg/plugin/plugin.go.
use mathlib.Core.Bool.{false≢true}
use orion_belt.Prelude.{
  All, Bool, Bool-cases, List, Option, String, [], any, any-append, arith, eq_iff, eqb, false, find,
  find-test, if◌then◌else◌, inl, inr, keep, none, not, refl, some, some-injective, subst, sym,
  text_ne_sym, true, ◌&&◌, ◌++◌, ◌==◌, ◌∙◌, ◌∷◌, ◌≡◌,
}
use orion_belt.Plugin.Manager.{
  Manager, Plugin, PluginCode, PluginState, configure, is_hook, new_manager, record_outcome,
  register, remove_first, set_enabled, trigger_hook, unregister,
}
use orion_belt.Apperr.{Error}
use orion_belt.Plugin.{Entries}

module _ (code : PluginCode) where
  -- Every method is a step. `Configure` calls the plugin without the lock, so that its outcome may
  -- also be recorded after other steps.
  pub data Reached : Manager → Type 0 where
    started : Reached new_manager
    registered : {m : Manager} (p : Plugin) → Reached m → Reached (register code p m).1
    unregistered : {m : Manager} (name : String) → Reached m → Reached (unregister code name m).1
    triggered : {m : Manager} (hook : String) → Reached m → Reached (trigger_hook code hook m).1
    configured :
        {m : Manager} (name : String) (config : Entries)
        → Reached m
        → Reached (configure code name config m).1
    recorded :
        {m : Manager} (name : String) (config : Entries) (e : Option Error)
        → Reached m
        → Reached (record_outcome code name config e m)
    toggled :
        {m : Manager} (name : String) (enabled : Bool)
        → Reached m
        → Reached (set_enabled code name enabled m).1

  -- The plugins that take a hook, in the order of their registration.
  abbrev pub hooked : String → List Plugin → List Plugin
  hooked hook = keep (λ p. code.has_hooks p && is_hook hook)

  -- Names are listed once.
  abbrev pub IsDistinct : List Plugin → Type 0
  IsDistinct [] = Unit
  IsDistinct (p ∷ ps) = (any (λ q. code.name_of q == code.name_of p) ps ≡ false) × IsDistinct ps

  abbrev pub has_state : List PluginState → Plugin → Bool
  has_state ss p = any (λ s. s.plugin_name == code.name_of p) ss

  -- Names are listed once, a hook is handed to the registered plugins that take it and to no other,
  -- and every registered plugin has a state.
  pub record IsSound (m : Manager) : Type 0 where
    pub distinct : IsDistinct m.plugins
    pub hooks : (hook : String) → m.hook_plugins hook ≡ hooked hook m.plugins
    pub states : All (λ p. has_state m.states p ≡ true) m.plugins

  pub any_absent :
      (name : String) (ps : List Plugin)
      → find (λ p. code.name_of p == name) ps ≡ none
      → any (λ p. code.name_of p == name) ps ≡ false
  any_absent name [] h = refl
  any_absent name (p ∷ ps) h = elim (Bool-cases (code.name_of p == name)) [
    | inl e ↦ absurd (cc (rw e at h))
    | inr e ↦ rw e (any_absent name ps (rw e at h))
  ]

  pub distinct-append :
      (ps : List Plugin) (p : Plugin)
      → any (λ q. code.name_of q == code.name_of p) ps ≡ false
      → IsDistinct ps
      → IsDistinct (ps ++ (p ∷ []))
  distinct-append [] p absent d = (refl, tt)
  distinct-append (q ∷ qs) p absent (dq, d) = elim (Bool-cases (code.name_of q == code.name_of p)) [
    | inl e ↦ absurd (cc (rw e at absent))
    | inr e ↦ (
      any-append (λ x. code.name_of x == code.name_of q) qs (p ∷ [])
          ∙ rw (dq, text_ne_sym (code.name_of q) (code.name_of p) e) refl,
      distinct-append qs p (rw e at absent) d,
    )
  ]

  any-keep_absent :
      (f t : Plugin → Bool) (ps : List Plugin) → any t ps ≡ false → any t (keep f ps) ≡ false
  any-keep_absent f t [] h = refl
  any-keep_absent f t (p ∷ ps) h = elim (Bool-cases (t p)) [
    | inl e ↦ absurd (cc (rw e at h))
    | inr e ↦ elim (Bool-cases (f p)) [
      | inl k ↦ rw (k, e) (any-keep_absent f t ps (rw e at h))
      | inr k ↦ rw k (any-keep_absent f t ps (rw e at h))
    ]
  ]

  pub distinct-keep :
      (f : Plugin → Bool) (ps : List Plugin) → IsDistinct ps → IsDistinct (keep f ps)
  distinct-keep f [] d = tt
  distinct-keep f (p ∷ ps) (dp, d) = elim (Bool-cases (f p)) [
    | inl k ↦
        rw k (any-keep_absent f (λ q. code.name_of q == code.name_of p) ps dp, distinct-keep f ps d)
    | inr k ↦ rw k (distinct-keep f ps d)
  ]

  pub keep-snoc :
      (f : Plugin → Bool) (ps : List Plugin) (p : Plugin)
      → keep f (ps ++ (p ∷ [])) ≡ (if f p then keep f ps ++ (p ∷ []) else keep f ps)
  keep-snoc f [] p = refl
  keep-snoc f (q ∷ qs) p = elim (Bool-cases (f q)) [
    | inl e ↦ rw (e, keep-snoc f qs p) (ground arith)
    | inr e ↦ rw (e, keep-snoc f qs p) refl
  ]

  -- Without the plugins of a name that none of them has.
  keep-absent :
      (name : String) (ps : List Plugin)
      → any (λ q. code.name_of q == name) ps ≡ false
      → keep (λ q. not (code.name_of q == name)) ps ≡ ps
  keep-absent name [] h = refl
  keep-absent name (p ∷ ps) h = elim (Bool-cases (code.name_of p == name)) [
    | inl e ↦ absurd (cc (rw e at h))
    | inr e ↦ rw (e, keep-absent name ps (rw e at h)) refl
  ]

  pub keep_none :
      (f : Plugin → Bool) (ps : List Plugin) → ((p : Plugin) → f p ≡ false) → keep f ps ≡ []
  keep_none f [] h = refl
  keep_none f (p ∷ ps) h = rw (h p) (keep_none f ps h)

  -- A plugin that has the name is not one that lacks it.
  not_same :
      (name : String) (ps : List Plugin) (p q : Plugin)
      → find (λ x. code.name_of x == name) ps ≡ some p
      → (code.name_of q == name) ≡ false
      → eqb q p ≡ false
  not_same name ps p q found other = elim (Bool-cases (eqb q p)) [
    | inl e ↦
        let same : q ≡ p = ground arith in
        let named : (code.name_of p == name) ≡ true =
          find-test (λ x. code.name_of x == name) ps p found in
        absurd (false≢true (sym (rw same at other) ∙ named))
    | inr e ↦ e
  ]

  -- The plugin of a name is taken out of those that a test selects.
  pub remove-keep :
      (f : Plugin → Bool) (name : String) (ps : List Plugin) (p : Plugin)
      → IsDistinct ps
      → find (λ q. code.name_of q == name) ps ≡ some p
      → (if f p then remove_first p (keep f ps) else keep f ps)
        ≡ keep f (keep (λ q. not (code.name_of q == name)) ps)
  remove-keep f name [] p d h = cc
  remove-keep f name (q ∷ qs) p (dq, d) h = elim (Bool-cases (code.name_of q == name)) [
    | inl e ↦
        let same : q ≡ p = some-injective q p (rw e at h) in
        let absent : any (λ x. code.name_of x == name) qs ≡ false =
          subst (λ n. any (λ x. code.name_of x == n) qs ≡ false)
            ((eq_iff (code.name_of q) name).0 e) dq in
        rw (sym same, e, keep-absent name qs absent) (first f q qs)
    | inr e ↦ rw e (
        later f q p qs (keep (λ x. not (code.name_of x == name)) qs)
          (not_same name qs p q (rw e at h) e) (remove-keep f name qs p d (rw e at h)))
  ]
    where
      first :
          (f : Plugin → Bool) (q : Plugin) (qs : List Plugin)
          → (if f q then remove_first q (keep f (q ∷ qs)) else keep f (q ∷ qs)) ≡ keep f qs
      first f q qs = elim (Bool-cases (f q)) [ inl e ↦ rw e (ground arith) | inr e ↦ rw e refl ]

      later :
          (f : Plugin → Bool) (q p : Plugin) (qs rest : List Plugin)
          → eqb q p ≡ false
          → (if f p then remove_first p (keep f qs) else keep f qs) ≡ keep f rest
          → (if f p then remove_first p (keep f (q ∷ qs)) else keep f (q ∷ qs)) ≡ keep f (q ∷ rest)
      later f q p qs rest other h = elim (Bool-cases (f q)) [
        | inl e ↦ rw (e, other) (ground (arith, h))
        | inr e ↦ rw e h
      ]
