-- ===== src/Plugin/Config/Restored.antt =====
-- The way of a configuration to the browser and back: `redactConfig` and `ReconcileConfig` in
-- pkg/plugin/plugin.go.
use orion_belt.Prelude.{
  Bool-cases, List, String, [], ap, arith, eq_refl, false, if◌then◌else◌, inl, inr, none, refl,
  some, text_ne_sym, true, ◌==◌, ◌∷◌, ◌≡◌,
}
use orion_belt.Plugin.Config.{
  eq_bytes, is_secret_key, mask_secret_value, masked, reconcile_config, reconcile_value,
  redact_config, redact_items, redact_value, restored,
}
use orion_belt.Plugin.{
  Bytes, Entries, Items, Value, array, end, entry, flag, item, lookup, no_items, null, number,
  object, text,
}

eq_bytes_refl : (s : Bytes) → eq_bytes s s ≡ true
unfolding eq_bytes
eq_bytes_refl [] = refl
eq_bytes_refl (x ∷ xs) = ground (arith, eq_bytes_refl xs)

restored-mask : (s : Bytes) → restored (mask_secret_value s) (some (text s)) ≡ s
unfolding restored
restored-mask [] = ground arith
restored-mask (x ∷ xs) = rw (eq_bytes_refl (mask_secret_value (x ∷ xs))) refl

module _ (secrets : List String) where
  -- No key of the value is secret, at any depth.
  unfoldable mutual
    pub IsOpen : Value → Type 0
    IsOpen (object es) = IsOpenConfig es
    IsOpen (array xs) = IsOpenItems xs
    IsOpen _ = Unit

    pub IsOpenItems : Items → Type 0
    IsOpenItems no_items = Unit
    IsOpenItems (item v xs) = IsOpen v × IsOpenItems xs

    pub IsOpenConfig : Entries → Type 0
    IsOpenConfig end = Unit
    IsOpenConfig (entry k v es) = (is_secret_key k secrets ≡ false) × (IsOpen v × IsOpenConfig es)

  abbrev IsText : Value → Type 0
  IsText (text s) = Unit
  IsText _ = ⊥

  -- Keys are listed once, what stands under a secret key is a text, and no secret stands in a list.
  unfoldable mutual
    unfolding IsOpen

    pub IsRestorable : Entries → Type 0
    IsRestorable end = Unit
    IsRestorable (entry k v es) =
        let inside = IsRestorableValue v in
        (if is_secret_key k secrets then IsText v else inside)
        × ((lookup k es ≡ none) × IsRestorable es)

    pub IsRestorableValue : Value → Type 0
    IsRestorableValue (object es) = IsRestorable es
    IsRestorableValue (array xs) = IsOpenItems xs
    IsRestorableValue _ = Unit

  -- Every entry of one configuration is what the other one finds under its key.
  abbrev Agrees : Entries → Entries → Type 0
  Agrees end old = Unit
  Agrees (entry k v es) old = (lookup k old ≡ some v) × Agrees es old

  mutual
    unfolding redact_config IsOpen

    redact_value-open : (v : Value) → IsOpen v → redact_value secrets v ≡ v
    redact_value-open (object es) h = ap object (redact_config-open es h)
    redact_value-open (array xs) h = ap array (redact_items-open xs h)
    redact_value-open null h = refl
    redact_value-open (flag b) h = refl
    redact_value-open (number n) h = refl
    redact_value-open (text s) h = refl

    redact_items-open : (xs : Items) → IsOpenItems xs → redact_items secrets xs ≡ xs
    redact_items-open no_items h = refl
    redact_items-open (item v xs) (hv, hxs) =
        rw (redact_value-open v hv, redact_items-open xs hxs) refl

    redact_config-open : (es : Entries) → IsOpenConfig es → redact_config secrets es ≡ es
    redact_config-open end h = refl
    redact_config-open (entry k v es) (hk, (hv, hes)) =
        rw (hk, redact_value-open v hv, redact_config-open es hes) refl

  Agrees-entry :
      (j : String) (w : Value) (es old : Entries)
      → lookup j es ≡ none
      → Agrees es old
      → Agrees es (entry j w old)
  unfolding lookup
  Agrees-entry j w end old fresh h = tt
  Agrees-entry j w (entry k v es) old fresh (hk, hes) = elim (Bool-cases (k == j)) [
    | inl same ↦ absurd (cc (rw same at fresh))
    | inr other ↦ (rw (text_ne_sym k j other) hk, Agrees-entry j w es old (rw other at fresh) hes)
  ]

  Agrees-self : (es : Entries) → IsRestorable es → Agrees es es
  unfolding IsRestorable lookup
  Agrees-self end h = tt
  Agrees-self (entry k v es) (hv, (fresh, hes)) =
      (rw (eq_refl k) refl, Agrees-entry k v es es fresh (Agrees-self es hes))

  secret-shown :
      (k : String) (v : Value)
      → is_secret_key k secrets ≡ true
      → IsText v
      → reconcile_value secrets k (masked v) (some v) ≡ v
  unfolding reconcile_config masked
  secret-shown k (text s) secret h = rw secret (ap text (restored-mask s))
  secret-shown k null secret h = absurd h
  secret-shown k (flag b) secret h = absurd h
  secret-shown k (number n) secret h = absurd h
  secret-shown k (array xs) secret h = absurd h
  secret-shown k (object es) secret h = absurd h

  mutual
    unfolding reconcile_config redact_config IsRestorable

    reconcile_config-shown :
        (es old : Entries)
        → IsRestorable es
        → Agrees es old
        → reconcile_config secrets (redact_config secrets es) old ≡ es
    reconcile_config-shown end old h a = refl
    reconcile_config-shown (entry k v es) old (hv, (fresh, hes)) (found, a) =
        let rest = reconcile_config-shown es old hes a in
        elim (Bool-cases (is_secret_key k secrets)) [
          | inl secret ↦
              rw (rest, secret, found)
                (ap (λ x. entry k x es) (secret-shown k v secret (rw secret at hv)))
          | inr open_key ↦
              rw (rest, open_key, found, reconcile_value-shown k v open_key (rw open_key at hv))
                refl
        ]

    reconcile_value-shown :
        (k : String) (v : Value)
        → is_secret_key k secrets ≡ false
        → IsRestorableValue v
        → reconcile_value secrets k (redact_value secrets v) (some v) ≡ v
    reconcile_value-shown k (object es) open_key h =
        ap object (reconcile_config-shown es es h (Agrees-self es h))
    reconcile_value-shown k (array xs) open_key h = ap array (redact_items-open xs h)
    reconcile_value-shown k null open_key h = refl
    reconcile_value-shown k (flag b) open_key h = refl
    reconcile_value-shown k (number n) open_key h = refl
    reconcile_value-shown k (text s) open_key h = rw open_key refl

-- A configuration that is sent back as it was shown is stored as it was: the secrets that were
-- masked get their values back, and the rest is what was shown. Each object lists a key once, what
-- stands under a secret key is a text, and no secret key stands inside a list.
pub reconcile-redact :
    (secrets : List String) (config : Entries)
    → IsRestorable secrets config
    → reconcile_config secrets (redact_config secrets config) config ≡ config
reconcile-redact secrets config h =
    reconcile_config-shown secrets config config h (Agrees-self secrets config h)
