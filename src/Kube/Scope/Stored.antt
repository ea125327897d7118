-- ===== src/Kube/Scope/Stored.antt =====
-- The stored form of a scope: pkg/kube/scope.go.
use text.Mathlib.TextLemmas.{nil-append, cons-append}
use orion_belt.Prelude.{
  Bool, Option-cases, String, arith, code, cons-empty, eq_iff, eqb, false, if◌then◌else◌, inl, inr,
  is_some_text, is_some_text-append, is_some_text-ne, is_space, not, refl, some, text_cases,
  trim_left, trim_left-cons, trim_right, trim_right-append, trim_space, true, ℕ, ◌&&◌, ◌==◌, ◌≡◌,
}
use orion_belt.Kube.Scope.{
  Scope, all_namespaces, cut_slash, in_namespace, in_role, matches_name, name_rest, namespace_ok,
  parse_scope, role_ok, scope_string,
}
use orion_belt.Apperr.{ok, ◌+++◌}

-- No character of the text is a slash.
abbrev no_slash : String → Bool
no_slash String.[] = true
no_slash (String.◌∷◌ c s) = not (eqb (code c) 47) && no_slash s

is_slash : String → Bool
is_slash String.[] = false
is_slash (String.◌∷◌ c s) = eqb (code c) 47 && s == ""

cut_slash-is_slash : (t b : String) → is_slash t ≡ true → cut_slash (t +++ b) ≡ some ("", b)
unfolding is_slash
cut_slash-is_slash String.[] b h = absurd (cc h)
cut_slash-is_slash (String.◌∷◌ c s) b h =
    let e : s ≡ "" = (eq_iff s "").0 (ground arith) in
    rw (cons-append c s b, e, nil-append b) (ground arith)

slash_is_slash : is_slash "/" ≡ true
unfolding is_slash
slash_is_slash = refl

cut_slash-append : (a b : String) → no_slash a ≡ true → cut_slash (a +++ ("/" +++ b)) ≡ some (a, b)
cut_slash-append String.[] b h =
    rw (nil-append ("/" +++ b)) (cut_slash-is_slash "/" b slash_is_slash)
cut_slash-append (String.◌∷◌ c a) b h =
    let rest = cut_slash-append a b (ground arith) in
    rw (cons-append c a ("/" +++ b)) (ground (arith, rest))

name_rest-no_slash : (s : String) → name_rest in_namespace s ≡ true → no_slash s ≡ true
unfolding name_rest
name_rest-no_slash String.[] h = refl
name_rest-no_slash (String.◌∷◌ c String.[]) h = ground arith
name_rest-no_slash (String.◌∷◌ c (String.◌∷◌ d s)) h =
    let rest = name_rest-no_slash (String.◌∷◌ d s) in ground (arith, rest, cons-empty d s)

name_rest-trim_right :
    (inside : ℕ → Bool) (s : String) → name_rest inside s ≡ true → trim_right s ≡ s
unfolding name_rest trim_right
name_rest-trim_right inside String.[] h = refl
name_rest-trim_right inside (String.◌∷◌ c String.[]) h = ground arith
name_rest-trim_right inside (String.◌∷◌ c (String.◌∷◌ d s)) h =
    let rest = name_rest-trim_right inside (String.◌∷◌ d s) (ground (arith, cons-empty d s)) in
    rw (rest, cons-empty d s) refl

-- The text does not begin with white space.
starts_plain : String → Bool
starts_plain String.[] = false
starts_plain (String.◌∷◌ c s) = not (is_space (code c))

starts_plain-ne : (s : String) → starts_plain s ≡ true → (s == "") ≡ false
unfolding starts_plain
starts_plain-ne String.[] h = absurd (cc h)
starts_plain-ne (String.◌∷◌ c s) h = cons-empty c s

trim_left-append : (s t : String) → starts_plain s ≡ true → trim_left (s +++ t) ≡ s +++ t
unfolding starts_plain
trim_left-append String.[] t h = absurd (cc h)
trim_left-append (String.◌∷◌ c s) t h =
    rw (cons-append c s t) (trim_left-cons c (s +++ t) (ground arith))

matches_name-starts_plain :
    (inside : ℕ → Bool) (s : String) → matches_name inside s ≡ true → starts_plain s ≡ true
unfolding matches_name name_rest starts_plain
matches_name-starts_plain inside String.[] h = absurd (cc h)
matches_name-starts_plain inside (String.◌∷◌ c s) h = ground arith

matches_name-trim_right :
    (inside : ℕ → Bool) (s : String)
    → matches_name inside s ≡ true
    → (is_some_text s ≡ true) × (trim_right s ≡ s)
unfolding matches_name name_rest trim_right
matches_name-trim_right inside String.[] h = absurd (cc h)
matches_name-trim_right inside (String.◌∷◌ c String.[]) h = (refl, ground arith)
matches_name-trim_right inside (String.◌∷◌ c (String.◌∷◌ d s)) h =
    let rest = name_rest-trim_right inside (String.◌∷◌ d s) (ground arith) in
    (refl, rw (rest, cons-empty d s) refl)

star_facts : (starts_plain all_namespaces ≡ true) × (no_slash all_namespaces ≡ true)
unfolding starts_plain
star_facts = (refl, refl)

matches_name-no_slash : (s : String) → matches_name in_namespace s ≡ true → no_slash s ≡ true
unfolding matches_name name_rest
matches_name-no_slash String.[] h = refl
matches_name-no_slash (String.◌∷◌ c s) h = ground (arith, name_rest-no_slash s)

namespace_ok-plain :
    (ns : String) → namespace_ok ns ≡ true → (starts_plain ns ≡ true) × (no_slash ns ≡ true)
unfolding namespace_ok
namespace_ok-plain ns h = elim (text_cases ns all_namespaces) [
  | inl e ↦ rw e star_facts
  | inr e ↦
      let m : matches_name in_namespace ns ≡ true = ground (arith, e) in
      (matches_name-starts_plain in_namespace ns m, matches_name-no_slash ns m)
]

-- The namespace of a scope is stored as it was given.
stored_namespace :
    (ns : String)
    → (ns == "") ≡ false
    → (if (if ns == all_namespaces then "" else ns) == ""
        then all_namespaces
        else (if ns == all_namespaces then "" else ns))
      ≡ ns
stored_namespace ns f = elim (text_cases ns all_namespaces) [
  | inl e ↦ rw e refl
  | inr e ↦ rw (e, f) refl
]

module _ (quote : String → String) where
  parse_scope-pair :
      (ns role : String)
      → namespace_ok ns ≡ true
      → role_ok role ≡ true
      → parse_scope quote (ns +++ ("/" +++ role))
        ≡ ok (record { namespace = if ns == all_namespaces then "" else ns; role = role })
  unfolding parse_scope role_ok trim_space
  parse_scope-pair ns role h k =
      let (p, n) = namespace_ok-plain ns h in
      let (f, t) = matches_name-trim_right in_role role (ground arith) in
      let trimmed : trim_space (ns +++ ("/" +++ role)) ≡ ns +++ ("/" +++ role) =
        rw (trim_left-append ns ("/" +++ role) p) (
          trim_right-append ns ("/" +++ role) (is_some_text-append "/" role f)
            (trim_right-append "/" role f t)) in
      rw (parse_scope, trimmed, cut_slash-append ns role n)
        (ground (arith, starts_plain-ne ns p, is_some_text-ne role f))

  -- What a parsed scope was parsed from.
  parse_scope-parts :
      (raw : String) (s : Scope)
      → parse_scope quote raw ≡ ok s
      → (ns : String) × (role : String) × (namespace_ok ns ≡ true)
        × (role_ok role ≡ true)
        × ((ns == "") ≡ false)
        × (s ≡ record { namespace = if ns == all_namespaces then "" else ns; role = role })
  unfolding parse_scope
  parse_scope-parts raw s h = elim (Option-cases (cut_slash (trim_space raw))) [
    | inl e ↦ absurd (cc (rw (e, parse_scope) at h))
    | inr (p, e) ↦
        (p.0, p.1, ground (arith, e), ground (arith, e), ground (arith, e), ground (arith, e))
  ]

  -- A scope that was parsed is stored as a text that parses to the same scope again.
  pub parse_scope-scope_string :
      (raw : String) (s : Scope)
      → parse_scope quote raw ≡ ok s
      → parse_scope quote (scope_string s) ≡ ok s
  unfolding scope_string
  parse_scope-scope_string raw s h =
      let (ns, role, n, r, f, e) = parse_scope-parts raw s h in
      rw (e, stored_namespace ns f) (parse_scope-pair ns role n r)
