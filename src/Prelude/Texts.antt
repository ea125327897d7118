-- ===== src/Prelude/Texts.antt =====
-- Splits on the equality of two texts, and the functions of Go's `strings` that the program calls.
use Prim.Native.Nat.{ℕ, zero, suc, Ordering}
use Prim.Native.Char.{Char, code}
use Prim.Native.String
use Prim.Native.String.{String}
use mathlib.Core.List.{List, [], ◌∷◌}
use mathlib.Core.Option.{Option, none, some}
use mathlib.Core.Path.{◌≡◌, sym, ◌∙◌}
use mathlib.Core.Logic.{◌⊎◌, ◌≢◌, inl, inr}
use mathlib.Core.Bool.{Bool, true, false, ◌&&◌, ◌||◌, false≢true}
use text.Mathlib.Text.{◌==◌}
use text.Mathlib.TextEquality.{eq_iff}
use orion_belt.Prelude.Tests.{Bool-cases, eqb, if◌then◌else◌, leb}

pub text_cases : (s t : String) → (s ≡ t) ⊎ ((s == t) ≡ false)
text_cases s t = elim (Bool-cases (s == t)) [ inl h ↦ inl ((eq_iff s t).0 h) | inr h ↦ inr h ]

pub eq_join : (a b c : String) → (a == b) ≡ true → (c == b) ≡ true → (a == c) ≡ true
eq_join a b c h k = (eq_iff a c).1 ((eq_iff a b).0 h ∙ sym ((eq_iff c b).0 k))

-- The white space of `strings.TrimSpace`, by code point.
abbrev pub is_space : ℕ → Bool
is_space c =
    (leb 9 c && leb c 13)
    || (eqb c 32
        || (eqb c 0x85
            || (eqb c 0xa0
                || (eqb c 0x1680
                    || ((leb 0x2000 c && leb c 0x200a)
                        || (eqb c 0x2028
                            || (eqb c 0x2029
                                || (eqb c 0x202f || (eqb c 0x205f || eqb c 0x3000)))))))))

unfoldable pub trim_left : String → String
trim_left String.[] = ""
trim_left (String.◌∷◌ c s) =
    let rest = trim_left s in if is_space (code c) then rest else String.◌∷◌ c s

unfoldable pub trim_right : String → String
trim_right String.[] = ""
trim_right (String.◌∷◌ c s) =
    let rest = trim_right s in
    if rest == "" then (if is_space (code c) then "" else String.◌∷◌ c "") else String.◌∷◌ c rest

unfoldable pub trim_space : String → String
unfolding trim_left trim_right
trim_space s = trim_right (trim_left s)

-- The case mapping of Go's `unicode` tables, which the program only calls.
pub record CaseMap : Type 0 where
  pub to_lower : String → String
  pub equal_fold : String → String → Bool

pub text_ne : (s t : String) → (s == t) ≡ false → s ≢ t
text_ne s t h e = false≢true (sym h ∙ (eq_iff s t).1 e)

pub text_ne_sym : (s t : String) → (s == t) ≡ false → (t == s) ≡ false
text_ne_sym s t h = elim (text_cases t s) [ inl e ↦ elim (text_ne s t h (sym e)) [ ] | inr k ↦ k ]

-- `s[:n]` of an ASCII text that is long enough, and all of a shorter one.
abbrev pub take_text : ℕ → String → String
take_text zero s = ""
take_text (suc n) String.[] = ""
take_text (suc n) (String.◌∷◌ c s) = String.◌∷◌ c (take_text n s)

-- The parts of a text that begins with one more character.
abbrev pub onto_first : Char → List String → List String
onto_first c [] = String.◌∷◌ c "" ∷ []
onto_first c (s ∷ ss) = String.◌∷◌ c s ∷ ss

-- `strings.Split` at the character of a code.
unfoldable pub split_on : ℕ → String → List String
split_on sep String.[] = "" ∷ []
split_on sep (String.◌∷◌ c s) =
    let rest = split_on sep s in if eqb (code c) sep then "" ∷ rest else onto_first c rest

-- `strings.Join`
abbrev pub join_with : String → List String → String
join_with sep [] = ""
join_with sep (s ∷ []) = s
join_with sep (s ∷ t ∷ ts) = String.◌++◌ s (String.◌++◌ sep (join_with sep (t ∷ ts)))

abbrev pub starts_with : String → String → Bool
starts_with s String.[] = true
starts_with String.[] (String.◌∷◌ d t) = false
starts_with (String.◌∷◌ c s) (String.◌∷◌ d t) = eqb (code c) (code d) && starts_with s t

-- `strings.Contains`
unfoldable pub contains_text : String → String → Bool
contains_text String.[] t = t == ""
contains_text (String.◌∷◌ c s) t = starts_with (String.◌∷◌ c s) t || contains_text s t

-- `a < b` on texts: the order of the code points is the one of the UTF-8 bytes.
abbrev pub text_lt : String → String → Bool
text_lt a b = elim (String.compare a b) [ Ordering.lt ↦ true | _ ↦ false ]

-- `s[n:]` of an ASCII text that is long enough, and nothing of a shorter one.
abbrev pub drop_text : ℕ → String → String
drop_text zero s = s
drop_text (suc n) String.[] = ""
drop_text (suc n) (String.◌∷◌ c s) = drop_text n s

-- What stands before and after the first character with a code of a kind, none where there is none.
unfoldable pub cut_on : (ℕ → Bool) → String → Option (String × String)
cut_on stops String.[] = none
cut_on stops (String.◌∷◌ c s) =
    let rest = cut_on stops s in
    if stops (code c)
    then some ("", s)
    else elim rest [ none ↦ none | some p ↦ some (String.◌∷◌ c p.0, p.1) ]
