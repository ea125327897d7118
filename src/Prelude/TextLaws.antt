-- ===== src/Prelude/TextLaws.antt =====
-- Laws of trimming and of joining texts.
use Prim.Native.String
use Prim.Native.String.{String}
use Prim.Native.Char.{Char, code}
use mathlib.Core.Path.{◌≡◌, refl}
use mathlib.Core.Logic.{inl, inr}
use mathlib.Core.Bool.{Bool, true, false, not, ◌&&◌}
use text.Mathlib.Text.{◌==◌}
use text.Mathlib.TextLemmas.{nil-append, cons-append, cons-ne-nil}
use Prim.Native.Nat.{ℕ}
use mathlib.Core.List.{[], ◌∷◌}
use native.Mathlib.Omega.{arith}
use text.Mathlib.TextEquality.{eq_iff}
use orion_belt.Prelude.Tests.{Bool-cases, eqb}
use orion_belt.Prelude.Texts.{is_space, split_on, trim_left, trim_right}

-- A text that is not empty.
abbrev pub is_some_text : String → Bool
is_some_text String.[] = false
is_some_text (String.◌∷◌ c s) = true

pub cons-empty : (c : Char) (s : String) → (String.◌∷◌ c s == "") ≡ false
cons-empty c s = elim (Bool-cases (String.◌∷◌ c s == "")) [
  | inl e ↦ absurd (cons-ne-nil c s ((eq_iff _ _).0 e))
  | inr e ↦ e
]

pub is_some_text-ne : (s : String) → is_some_text s ≡ true → (s == "") ≡ false
is_some_text-ne String.[] h = cc h
is_some_text-ne (String.◌∷◌ c s) h = cons-empty c s

pub is_some_text-append :
    (s t : String) → is_some_text t ≡ true → is_some_text (String.◌++◌ s t) ≡ true
is_some_text-append String.[] t h = rw (nil-append t) h
is_some_text-append (String.◌∷◌ c s) t h = rw (cons-append c s t) refl

-- Trimming leaves what stands before a text that ends in no white space.
pub trim_right-append :
    (s t : String)
    → is_some_text t ≡ true
    → trim_right t ≡ t
    → trim_right (String.◌++◌ s t) ≡ String.◌++◌ s t
unfolding trim_right
trim_right-append String.[] t h e = rw (nil-append t) e
trim_right-append (String.◌∷◌ c s) t h e =
    rw
      (
        cons-append c s t,
        trim_right-append s t h e,
        is_some_text-ne (String.◌++◌ s t) (is_some_text-append s t h),
      )
      refl

pub trim_left-cons :
    (c : Char) (s : String)
    → is_space (code c) ≡ false
    → trim_left (String.◌∷◌ c s) ≡ String.◌∷◌ c s
unfolding trim_left
trim_left-cons c s h = rw h refl

-- The text is the one character of a code.
unfoldable pub is_mark : ℕ → String → Bool
is_mark sep String.[] = false
is_mark sep (String.◌∷◌ c s) = eqb (code c) sep && s == ""

-- No character of the text has the code.
abbrev pub has_no : ℕ → String → Bool
has_no sep String.[] = true
has_no sep (String.◌∷◌ c s) = not (eqb (code c) sep) && has_no sep s

split_on-mark :
    (sep : ℕ) (t b : String)
    → is_mark sep t ≡ true
    → split_on sep (String.◌++◌ t b) ≡ "" ∷ split_on sep b
unfolding is_mark split_on
split_on-mark sep String.[] b h = absurd (cc h)
split_on-mark sep (String.◌∷◌ c s) b h =
    let e : s ≡ "" = (eq_iff s "").0 (ground arith) in
    rw (cons-append c s b, e, nil-append b) (ground arith)

-- A part is what stands before the first mark.
pub split_on-append :
    (sep : ℕ) (t a b : String)
    → is_mark sep t ≡ true
    → has_no sep a ≡ true
    → split_on sep (String.◌++◌ a (String.◌++◌ t b)) ≡ a ∷ split_on sep b
unfolding split_on
split_on-append sep t String.[] b m h = rw (nil-append (String.◌++◌ t b)) (split_on-mark sep t b m)
split_on-append sep t (String.◌∷◌ c a) b m h =
    let rest = split_on-append sep t a b m (ground arith) in
    rw (cons-append c a (String.◌++◌ t b), rest) (ground arith)

pub split_on_one : (sep : ℕ) (a : String) → has_no sep a ≡ true → split_on sep a ≡ a ∷ []
unfolding split_on
split_on_one sep String.[] h = refl
split_on_one sep (String.◌∷◌ c a) h =
    let rest = split_on_one sep a (ground arith) in rw rest (ground arith)
