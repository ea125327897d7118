-- ===== src/Auth/GatewayUser/Agree.antt =====
-- The user of a name as the gateway and as the authorization read it, and names that are put together:
-- pkg/common/sshuser.go and pkg/auth/auth.go.
use text.Mathlib.TextLemmas.{nil-append, cons-append}
use orion_belt.Prelude.{
  Bool, Bool-cases, Option, Option-cases, String, ap, arith, code, cut_on, eq_iff, false,
  if◌then◌else◌, inl, inr, none, not, refl, some, sym, text_cases, true, ℕ, ◌&&◌, ◌==◌, ◌∙◌, ◌≡◌,
}
use orion_belt.Auth.Check.{auth_user, before_plus}
use orion_belt.Auth.GatewayUser.{
  format_target, is_plus, is_separator, parse_gateway_ssh_user, parse_target,
}
use orion_belt.Apperr.{◌+++◌}

abbrev first_part : Option (String × String) → Option String
first_part none = none
first_part (some p) = some p.0

before_plus-cut_on : (s : String) → before_plus s ≡ first_part (cut_on is_plus s)
unfolding before_plus cut_on
before_plus-cut_on String.[] = refl
before_plus-cut_on (String.◌∷◌ c s) =
    let rest = before_plus-cut_on s in
    elim (Bool-cases (is_plus (code c))) [
      | inl e ↦ ground (arith, e)
      | inr e ↦ elim (Option-cases (cut_on is_plus s)) [
        | inl f ↦ ground (arith, e, f, rest)
        | inr (p, f) ↦ ground (arith, e, f, rest)
      ]
    ]

-- The gateway and the authorization take the same user from an SSH user name.
pub parse_gateway_ssh_user-auth_user : (s : String) → (parse_gateway_ssh_user s).0 ≡ auth_user s
unfolding parse_gateway_ssh_user auth_user
parse_gateway_ssh_user-auth_user s = elim (Option-cases (cut_on is_plus s)) [
  | inl e ↦ ground (arith, before_plus-cut_on s, e)
  | inr (p, e) ↦ elim (Bool-cases (p.0 == "")) [
    | inl f ↦ ground (arith, before_plus-cut_on s, e, f)
    | inr f ↦ ground (arith, before_plus-cut_on s, e, f)
  ]
]

module _ (stops : ℕ → Bool) where
  abbrev pub stops_at_none : String → Bool
  stops_at_none String.[] = true
  stops_at_none (String.◌∷◌ c s) = not (stops (code c)) && stops_at_none s

  abbrev is_stop : String → Bool
  is_stop String.[] = false
  is_stop (String.◌∷◌ c s) = stops (code c) && s == ""

  cut_on_stop : (t b : String) → is_stop t ≡ true → cut_on stops (t +++ b) ≡ some ("", b)
  unfolding cut_on
  cut_on_stop String.[] b h = absurd (cc h)
  cut_on_stop (String.◌∷◌ c s) b h =
      let e : s ≡ "" = (eq_iff s "").0 (ground arith) in
      rw (cons-append c s b, e, nil-append b) (ground arith)

  cut_on-append :
      (a t b : String)
      → stops_at_none a ≡ true
      → is_stop t ≡ true
      → cut_on stops (a +++ (t +++ b)) ≡ some (a, b)
  unfolding cut_on
  cut_on-append String.[] t b h k = rw (nil-append (t +++ b)) (cut_on_stop t b k)
  cut_on-append (String.◌∷◌ c a) t b h k =
      let rest = cut_on-append a t b (ground arith) k in
      rw (cons-append c a (t +++ b)) (ground (arith, rest))

parse_target_cut :
    (t a b : String)
    → (a == "") ≡ false
    → cut_on is_separator t ≡ some (a, b)
    → parse_target t ≡ (a, b)
unfolding parse_target cut_on
parse_target_cut t a b n h = elim (text_cases t "") [
  | inl e ↦ absurd (cc (sym h ∙ ap (λ x. cut_on is_separator x) e))
  | inr e ↦ ground (arith, n, h, e)
]

gateway_cut :
    (s a t : String) (p : String × String)
    → (a == "") ≡ false
    → cut_on is_plus s ≡ some (a, t)
    → parse_target t ≡ p
    → parse_gateway_ssh_user s ≡ (a, p.0, p.1)
unfolding parse_gateway_ssh_user
gateway_cut s a t p n h e = ground (arith, n, h, e)

account : String → String
account remote = if remote == "" then "root" else remote

account_plain :
    (remote : String)
    → stops_at_none is_separator remote ≡ true
    → ((account remote == "") ≡ false) × (stops_at_none is_separator (account remote) ≡ true)
unfolding account
account_plain remote r = elim (text_cases remote "") [
  | inl e ↦ rw (account, e) (refl, refl)
  | inr e ↦ rw (account, e) (e, r)
]

-- A user without '+' and an account without separators, joined with a machine as FormatTarget does,
-- are read back as they were given, where an empty account reads as root.
pub format_target-parse_gateway_ssh_user :
    (user remote machine : String)
    → (user == "") ≡ false
    → stops_at_none is_plus user ≡ true
    → stops_at_none is_separator remote ≡ true
    → parse_gateway_ssh_user (user +++ "+" +++ format_target remote machine)
      ≡ (user, (if remote == "" then "root" else remote), machine)
unfolding format_target account
format_target-parse_gateway_ssh_user user remote machine n u r =
    let (named, free) = account_plain remote r in
    gateway_cut (user +++ "+" +++ format_target remote machine) user (format_target remote machine)
      (account remote, machine) n
      (cut_on-append is_plus user "+" (format_target remote machine) u refl)
      (parse_target_cut (format_target remote machine) (account remote) machine named
        (cut_on-append is_separator (account remote) "@" machine free refl))
