-- ===== src/Plugin/Config.antt =====
-- pkg/plugin/plugin.go: which fields of a plugin's configuration are secret, what the API shows of
-- them, and how an unchanged secret gets its value back.
pub mod Masked
pub mod Restored
use orion_belt.Prelude.{
  Bool, List, Option, String, [], any, code, drop, eqb, false, if◌then◌else◌, leb, length, some,
  suc, take, true, zero, ℕ, ◌&&◌, ◌++◌, ◌+◌, ◌-◌, ◌==◌, ◌||◌, ◌∷◌,
}
use orion_belt.Plugin.{
  Bytes, ConfigField, ConfigFields, Entries, Items, Value, array, config_field, end, entry, fields,
  item, lookup, no_fields, no_items, object, text,
}
use Prim.Native.String

unfoldable pub codes : String → List ℕ
codes String.[] = []
codes (String.◌∷◌ c s) = code c ∷ codes s

-- The simple case folding of `(?i)` onto the letters of the pattern.
unfoldable pub fold_code : ℕ → ℕ
fold_code c =
    if leb 65 c && leb c 90
    then c + 32
    else if eqb c 383
    then 115
    else if eqb c 8490
    then 107
    else c

unfoldable pub begins_with : List ℕ → List ℕ → Bool
unfolding fold_code
begins_with s [] = true
begins_with [] (d ∷ t) = false
begins_with (c ∷ s) (d ∷ t) = eqb (fold_code c) d && begins_with s t

unfoldable pub matches : List ℕ → List ℕ → Bool
unfolding begins_with
matches [] t = begins_with [] t
matches (c ∷ s) t = begins_with (c ∷ s) t || matches s t

-- `secretConfigKey.MatchString`
unfoldable pub secret_config_key : String → Bool
unfolding codes matches
secret_config_key key =
    any (λ word. matches (codes key) (codes word))
      ("secret" ∷ "token" ∷ "password" ∷ "webhook_url" ∷ "api_key" ∷ "signing_key" ∷ [])

-- The keys of the fields that a schema marks as secret, at every depth.
unfoldable mutual
  pub walk_field : ConfigField → List String → List String
  walk_field (config_field key true fs) out = walk_fields fs (key ∷ out)
  walk_field (config_field key false fs) out = walk_fields fs out

  pub walk_fields : ConfigFields → List String → List String
  walk_fields no_fields out = out
  walk_fields (fields f fs) out = walk_fields fs (walk_field f out)

unfoldable pub secret_leaf_names : ConfigFields → List String
unfolding walk_field
secret_leaf_names fs = walk_fields fs []

unfoldable pub is_secret_key : String → List String → Bool
unfolding secret_config_key
is_secret_key key schema_secrets = any (λ k. k == key) schema_secrets || secret_config_key key

abbrev pub stars : ℕ → Bytes
stars zero = []
stars (suc n) = 42 ∷ stars n

unfoldable pub mask_secret_value : Bytes → Bytes
mask_secret_value v =
    let n = length v in
    let show = if leb n 16 then 2 else 4 in
    if eqb n 0
    then []
    else if leb n 8
    then stars 8
    else take show v ++ (stars 4 ++ drop (n - show) v)

-- What is shown under a secret key.
unfoldable pub masked : Value → Value
unfolding mask_secret_value
masked (text s) = text (mask_secret_value s)
masked _ = text (stars 8)

unfoldable mutual
  unfolding masked

  pub redact_config : List String → Entries → Entries
  redact_config secrets end = end
  redact_config secrets (entry k v es) =
      let rest = redact_config secrets es in
      let shown = redact_value secrets v in
      entry k (if is_secret_key k secrets then masked v else shown) rest

  pub redact_value : List String → Value → Value
  redact_value secrets (object es) = object (redact_config secrets es)
  redact_value secrets (array xs) = array (redact_items secrets xs)
  redact_value secrets v = v

  pub redact_items : List String → Items → Items
  redact_items secrets no_items = no_items
  redact_items secrets (item v xs) = item (redact_value secrets v) (redact_items secrets xs)

unfoldable pub eq_bytes : Bytes → Bytes → Bool
eq_bytes [] [] = true
eq_bytes (x ∷ xs) (y ∷ ys) = eqb x y && eq_bytes xs ys
eq_bytes _ _ = false

-- The bytes stored under a secret key, where the submitted ones are the mask of them.
unfoldable pub restored : Bytes → Option Value → Bytes
unfolding eq_bytes mask_secret_value
restored val (some (text [])) = val
restored val (some (text (b ∷ bs))) =
    if eq_bytes val (mask_secret_value (b ∷ bs)) then b ∷ bs else val
restored val _ = val

unfoldable pub sub_config : Option Value → Entries
sub_config (some (object es)) = es
sub_config _ = end

unfoldable mutual
  unfolding restored sub_config

  pub reconcile_config : List String → Entries → Entries → Entries
  reconcile_config secrets end old = end
  reconcile_config secrets (entry k v es) old =
      entry k (reconcile_value secrets k v (lookup k old)) (reconcile_config secrets es old)

  pub reconcile_value : List String → String → Value → Option Value → Value
  reconcile_value secrets k (object es) old = object (reconcile_config secrets es (sub_config old))
  reconcile_value secrets k (text s) old =
      if is_secret_key k secrets then text (restored s old) else text s
  reconcile_value secrets k v old = v
