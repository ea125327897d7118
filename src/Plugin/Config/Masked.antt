-- ===== src/Plugin/Config/Masked.antt =====
-- What the mask of a secret tells: `MaskSecretValue` in pkg/plugin/plugin.go.
use orion_belt.Prelude.{
  [], ap, arith, drop, eqb, false, if◌then◌else◌, leb, length, refl, subst, sym, take, ℕ, ◌++◌, ◌+◌,
  ◌-◌, ◌<◌, ◌∙◌, ◌∷◌, ◌≡◌, ◌≤◌,
}
use orion_belt.Plugin.Config.{mask_secret_value, stars}
use orion_belt.Plugin.{Bytes}

length-append_bytes : (xs ys : Bytes) → length (xs ++ ys) ≡ length xs + length ys
length-append_bytes [] ys = omega arith
length-append_bytes (x ∷ xs) ys = rw (length-append_bytes xs ys) (omega arith)

take_of_append : (xs ys : Bytes) → take (length xs) (xs ++ ys) ≡ xs
take_of_append [] ys = refl
take_of_append (x ∷ xs) ys = ap (λ t. x ∷ t) (take_of_append xs ys)

drop_of_append : (xs ys : Bytes) → drop (length xs) (xs ++ ys) ≡ ys
drop_of_append [] ys = refl
drop_of_append (x ∷ xs) ys = drop_of_append xs ys

append_assoc : (xs ys zs : Bytes) → (xs ++ ys) ++ zs ≡ xs ++ (ys ++ zs)
append_assoc [] ys zs = refl
append_assoc (x ∷ xs) ys zs = ap (λ t. x ∷ t) (append_assoc xs ys zs)

-- The bytes of a value after its last ones are cut off.
drop_last : (a m b : Bytes) → drop (length (a ++ (m ++ b)) - length b) (a ++ (m ++ b)) ≡ b
drop_last a m b =
    let e : length (a ++ (m ++ b)) - length b ≡ length (a ++ m) =
      ground
        (arith, length-append_bytes a m, length-append_bytes m b, length-append_bytes a (m ++ b)) in
    rw (e, sym (append_assoc a m b)) (drop_of_append (a ++ m) b)

mask-short : (v : Bytes) → 0 < length v → length v ≤ 8 → mask_secret_value v ≡ stars 8
unfolding mask_secret_value
mask-short v some_byte short = ground arith

mask-parts :
    (k : ℕ) (a m b : Bytes)
    → 8 < length (a ++ (m ++ b))
    → (if leb (length (a ++ (m ++ b))) 16 then 2 else 4) ≡ k
    → length a ≡ k
    → length b ≡ k
    → mask_secret_value (a ++ (m ++ b)) ≡ a ++ (stars 4 ++ b)
unfolding mask_secret_value
mask-parts k a m b long show ha hb =
    let v = a ++ (m ++ b) in
    let not_none : eqb (length v) 0 ≡ false = ground arith in
    let not_short : leb (length v) 8 ≡ false = ground arith in
    let last : drop (length v - k) v ≡ b =
      subst (λ j. drop (length v - j) v ≡ b) hb (drop_last a m b) in
    let first : take k v ≡ a = subst (λ j. take j v ≡ a) ha (take_of_append a (m ++ b)) in
    rw (not_none, not_short, show, first, last) refl

-- Two secrets of more than eight bytes, each of which shows `k` bytes at either end, have one mask
-- if they begin with the same `k` bytes and end with the same `k` bytes: nothing else of them is shown.
pub mask-hides :
    (k : ℕ) (a m n b : Bytes)
    → 8 < length (a ++ (m ++ b))
    → 8 < length (a ++ (n ++ b))
    → (if leb (length (a ++ (m ++ b))) 16 then 2 else 4) ≡ k
    → (if leb (length (a ++ (n ++ b))) 16 then 2 else 4) ≡ k
    → length a ≡ k
    → length b ≡ k
    → mask_secret_value (a ++ (m ++ b)) ≡ mask_secret_value (a ++ (n ++ b))
mask-hides k a m n b long long' show show' ha hb =
    mask-parts k a m b long show ha hb ∙ sym (mask-parts k a n b long' show' ha hb)
