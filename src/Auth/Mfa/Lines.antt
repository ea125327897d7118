-- ===== src/Auth/Mfa/Lines.antt =====
-- The lines of the stored text of backup codes: pkg/auth/mfa.go.
use text.Mathlib.TextLemmas.{cons-append}
use orion_belt.Prelude.{
  All, Bool, Bool-cases, List, String, [], ap, arith, code, cons-empty, eq_refl, false, has_no,
  if◌then◌else◌, inl, inr, is_mark, is_space, not, refl, split_on-append, split_on_one, text_cases,
  trim_left, trim_left-cons, trim_right, trim_space, true, ◌&&◌, ◌==◌, ◌||◌, ◌∷◌, ◌≡◌,
}
use orion_belt.Apperr.{◌+++◌}
use orion_belt.Store.Permissions.{has_text}
use orion_belt.Auth.Mfa.{join_lines, keep_lines, split_lines}

-- No character of the text is white space.
abbrev no_space : String → Bool
no_space String.[] = true
no_space (String.◌∷◌ c s) = not (is_space (code c)) && no_space s

-- A text that can stand on a line: it is not empty, and has no white space.
unfoldable pub is_line : String → Bool
is_line s = not (s == "") && no_space s

no_space-trim_left : (s : String) → no_space s ≡ true → trim_left s ≡ s
unfolding trim_left
no_space-trim_left String.[] h = refl
no_space-trim_left (String.◌∷◌ c s) h = trim_left-cons c s (ground arith)

no_space-trim_right : (s : String) → no_space s ≡ true → trim_right s ≡ s
unfolding trim_right
no_space-trim_right String.[] h = refl
no_space-trim_right (String.◌∷◌ c s) h =
    let rest = no_space-trim_right s (ground arith) in
    elim (text_cases s "") [ inl e ↦ rw (rest, e) (ground (arith, e)) | inr e ↦ rw (rest, e) refl ]

pub no_space-trim_space : (s : String) → no_space s ≡ true → trim_space s ≡ s
unfolding trim_space
no_space-trim_space s h = rw (no_space-trim_left s h) (no_space-trim_right s h)

newline_is_mark : is_mark 10 "\n" ≡ true
unfolding is_mark
newline_is_mark = refl

no_space-has_no : (s : String) → no_space s ≡ true → has_no 10 s ≡ true
no_space-has_no String.[] h = refl
no_space-has_no (String.◌∷◌ c s) h = let rest = no_space-has_no s in ground (arith, rest)

abbrev pub IsLine : String → Type 0
IsLine s = is_line s ≡ true

line-no_space : (l : String) → IsLine l → no_space l ≡ true
unfolding is_line
line-no_space l h = ground arith

-- The lines of a stored text are what was stored.
pub split_lines-join_lines :
    (l : String) (ls : List String)
    → All IsLine (l ∷ ls)
    → split_lines (join_lines (l ∷ ls)) ≡ l ∷ ls
split_lines-join_lines l [] h = split_on_one 10 l (no_space-has_no l (line-no_space l h.0))
split_lines-join_lines l (m ∷ ls) h =
    rw
      (split_on-append 10 "\n" l (join_lines (m ∷ ls)) newline_is_mark
        (no_space-has_no l (line-no_space l h.0)))
      (ap (λ ms. l ∷ ms) (split_lines-join_lines m ls h.1))

-- The list without the first of its items that equals a text.
abbrev pub drop_first : String → List String → List String
drop_first s [] = []
drop_first s (l ∷ ls) = if l == s then ls else l ∷ drop_first s ls

keep_lines-matched :
    (want : String) (ls : List String) → All IsLine ls → keep_lines want true ls ≡ (ls, true)
unfolding keep_lines is_line
keep_lines-matched want [] h = refl
keep_lines-matched want (l ∷ ls) h =
    let rest = keep_lines-matched want ls h.1 in
    let e = no_space-trim_space l (line-no_space l h.0) in
    let f : (l == "") ≡ false = ground (arith, h.0) in rw (e, f, rest) refl

pub keep_lines-drop_first :
    (want : String) (ls : List String)
    → All IsLine ls
    → keep_lines want false ls ≡ (drop_first want ls, has_text want ls)
unfolding keep_lines is_line
keep_lines-drop_first want [] h = refl
keep_lines-drop_first want (l ∷ ls) h =
    let rest = keep_lines-drop_first want ls h.1 in
    let e = no_space-trim_space l (line-no_space l h.0) in
    let f : (l == "") ≡ false = ground (arith, h.0) in
    elim (Bool-cases (l == want)) [
      | inl g ↦ rw (e, f, g, keep_lines-matched want ls h.1) refl
      | inr g ↦ rw (e, f, g, rest) refl
    ]

-- No text is listed twice.
abbrev pub Distinct : List String → Type 0
Distinct [] = Unit
Distinct (l ∷ ls) = (has_text l ls ≡ false) × Distinct ls

pub drop_first-gone :
    (s : String) (ls : List String) → Distinct ls → has_text s (drop_first s ls) ≡ false
drop_first-gone s [] d = refl
drop_first-gone s (l ∷ ls) d = elim (text_cases l s) [
  | inl e ↦ rw (e, eq_refl s) (rw e at d.0)
  | inr e ↦ rw (e, e) (drop_first-gone s ls d.1)
]

pub drop_first-All : (s : String) (ls : List String) → All IsLine ls → All IsLine (drop_first s ls)
drop_first-All s [] h = tt
drop_first-All s (l ∷ ls) h = elim (Bool-cases (l == s)) [
  | inl e ↦ rw e h.1
  | inr e ↦ rw e (h.0, drop_first-All s ls h.1)
]

pub drop_first-others :
    (s t : String) (ls : List String)
    → (s == t) ≡ false
    → has_text t (drop_first s ls) ≡ has_text t ls
drop_first-others s t [] n = refl
drop_first-others s t (l ∷ ls) n = elim (text_cases l s) [
  | inl e ↦ rw (e, eq_refl s, n) refl
  | inr e ↦ rw (e) (ap (λ b. (l == t) || b) (drop_first-others s t ls n))
]

pub join_lines-ne : (l : String) (ls : List String) → IsLine l → (join_lines (l ∷ ls) == "") ≡ false
unfolding is_line
join_lines-ne String.[] ls h = absurd (cc h)
join_lines-ne (String.◌∷◌ c l) [] h = cons-empty c l
join_lines-ne (String.◌∷◌ c l) (m ∷ ls) h =
    rw (cons-append c l ("\n" +++ join_lines (m ∷ ls)))
      (cons-empty c (l +++ ("\n" +++ join_lines (m ∷ ls))))
