-- ===== src/Auth/GatewayUser.antt =====
-- The SSH user name that names the target too: pkg/common/sshuser.go.
pub mod Agree
use orion_belt.Prelude.{Bool, String, cut_on, eqb, if◌then◌else◌, none, some, ℕ, ◌==◌, ◌||◌}
use orion_belt.Apperr.{◌+++◌}

abbrev pub is_plus : ℕ → Bool
is_plus c = eqb c b'+'

abbrev pub is_separator : ℕ → Bool
is_separator c = eqb c b'%' || eqb c b'@'

-- The remote account and the machine of the text after the '+'.
unfoldable pub parse_target : String → String × String
unfolding cut_on
parse_target target = if target == "" then ("", "") else elim (cut_on is_separator target) [
  | none ↦ ("root", target)
  | some p ↦ if p.0 == "" then ("root", target) else p
]

-- The user, the remote account and the machine.
unfoldable pub parse_gateway_ssh_user : String → String × String × String
unfolding cut_on parse_target
parse_gateway_ssh_user ssh_user = elim (cut_on is_plus ssh_user) [
  | none ↦ (ssh_user, "", "")
  | some p ↦
      if p.0 == "" then (ssh_user, "", "") else (p.0, (parse_target p.1).0, (parse_target p.1).1)
]

unfoldable pub format_target : String → String → String
format_target remote_user machine =
    (if remote_user == "" then "root" else remote_user) +++ "@" +++ machine
