-- ===== src/Tests/Fixtures.antt =====
-- A gateway with two users, a machine, one grant and one access request.
use orion_belt.Prelude.{
  Option, String, [], decimal, eqb, false, if◌then◌else◌, none, pos, some, true, ℕ, ◌+◌, ◌∷◌,
}
use orion_belt.World.{Env, World}
use orion_belt.Types.{Machine, AccessRequest, Permission, User}
use orion_belt.Apperr.{Error, plain}

abbrev pub user : String → String → User
user id role = record {
  id = id;
  username = id;
  email = "";
  public_key = "key";
  is_admin = false;
  role = role;
  mfa_enabled = false;
  web_authn_enabled = false;
  totp_secret = "";
  backup_codes_hash = "";
  password_hash = "";
  created_at = 0;
  updated_at = 0;
}

abbrev pub alice : User
alice = user "alice" "user"

abbrev pub omar : User
omar = user "omar" "operator"

abbrev pub web : Machine
web = record {
  id = "web";
  name = "web";
  hostname = "web";
  port = 22;
  tags = [];
  agent_id = "";
  is_active = true;
  last_seen_at = none;
  created_at = 0;
  updated_at = 0;
}

abbrev pub permission : String → Permission
permission access_type = record {
  id = "p1";
  user_id = "alice";
  machine_id = "web";
  access_type = access_type;
  remote_users = "deploy" ∷ [];
  granted_by = "omar";
  granted_at = 1;
  expires_at = none;
}

abbrev pub request : AccessRequest
request = record {
  id = "r1";
  user_id = "alice";
  machine_id = "web";
  remote_users = "deploy" ∷ [];
  access_type = "ssh";
  reason = "fix";
  duration = pos 60;
  status = "pending";
  requested_at = 1;
  reviewed_at = none;
  reviewed_by = none;
  expires_at = none;
  risk_signals = none;
  risk_decision = none;
}

abbrev pub world : World
world = record {
  users = alice ∷ omar ∷ [];
  ssh_keys = [];
  machines = web ∷ [];
  permissions = permission "both" ∷ permission "rdp" ∷ [];
  history = [];
  requests = request ∷ [];
  audits = [];
  api_keys = [];
  http_sessions = [];
  background = [];
  sent = [];
  plugin_settings = [];
  tick = 0;
}

abbrev pub no_permissions : World
no_permissions = record world { permissions = [] }

abbrev pub boom : Error
boom = plain "boom"

-- The statement of one step fails, the others are answered.
abbrev pub failing_at : ℕ → ℕ → Option Error
failing_at n k = if eqb k n then some boom else none

abbrev pub env_with : (ℕ → Option Error) → Env
env_with fault = record {
  clock = λ n. 100 + n;
  db_clock = λ n. 100 + n;
  fresh = λ n. decimal n;
  fault = fault;
  constraint_error = boom;
  authorizer = none;
  quote = λ s. s;
}

abbrev pub env : Env
env = env_with (λ n. none)
