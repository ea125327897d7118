-- ===== src/Types.antt =====
-- pkg/common/types.go and the signals of pkg/common/risk.go: the records that the gateway stores.
-- A `time.Time` is a number of nanoseconds since Go's zero time, a pointer is an `Option`, a map is
-- an association list, and a nil slice is the empty one.
pub mod Roles
use orion_belt.Prelude.{
  Bool, List, Option, String, false, if◌then◌else◌, ltb, none, not, some, true, ℕ, ℤ, ◌==◌,
}

pub record User : Type 0 where
  pub id : String
  pub username : String
  pub email : String
  pub public_key : String
  pub is_admin : Bool
  pub role : String
  pub mfa_enabled : Bool
  pub web_authn_enabled : Bool
  pub totp_secret : String
  pub backup_codes_hash : String
  pub password_hash : String
  pub created_at : ℕ
  pub updated_at : ℕ

pub record SshKey : Type 0 where
  pub id : String
  pub user_id : String
  pub name : String
  pub public_key : String
  pub key_type : String
  pub created_at : ℕ

pub record Machine : Type 0 where
  pub id : String
  pub name : String
  pub hostname : String
  pub port : ℕ
  pub tags : List (String × String)
  pub agent_id : String
  pub is_active : Bool
  pub last_seen_at : Option ℕ
  pub created_at : ℕ
  pub updated_at : ℕ

pub record Session : Type 0 where
  pub id : String
  pub user_id : String
  pub machine_id : String
  pub remote_user : String
  pub source : String
  pub start_time : ℕ
  pub end_time : Option ℕ
  pub recording_path : String
  pub status : String
  pub created_at : ℕ

pub record RiskSignals : Type 0 where
  pub source_ip : String
  pub device : String
  pub auth_method : String
  pub mfa_enrolled : Bool
  pub hour_utc : ℕ
  pub weekday : String
  pub target_sensitivity : String
  pub collected_at : ℕ

pub record RiskDecision : Type 0 where
  pub outcome : String
  pub reasons : List String

pub record AccessRequest : Type 0 where
  pub id : String
  pub user_id : String
  pub machine_id : String
  pub remote_users : List String
  pub access_type : String
  pub reason : String
  pub duration : ℤ
  pub status : String
  pub requested_at : ℕ
  pub reviewed_at : Option ℕ
  pub reviewed_by : Option String
  pub expires_at : Option ℕ
  pub risk_signals : Option RiskSignals
  pub risk_decision : Option RiskDecision

pub record Permission : Type 0 where
  pub id : String
  pub user_id : String
  pub machine_id : String
  pub access_type : String
  pub remote_users : List String
  pub granted_by : String
  pub granted_at : ℕ
  pub expires_at : Option ℕ

pub record ApiKey : Type 0 where
  pub id : String
  pub user_id : String
  pub name : String
  pub key_hash : String
  pub key_prefix : String
  pub last_used_at : Option ℕ
  pub expires_at : Option ℕ
  pub created_at : ℕ
  pub revoked_at : Option ℕ

-- `token` is the hash that is stored.
pub record HttpSession : Type 0 where
  pub id : String
  pub user_id : String
  pub token : String
  pub ip_address : String
  pub user_agent : String
  pub expires_at : ℕ
  pub created_at : ℕ
  pub last_seen_at : ℕ

abbrev pub permission_end_updated : String
permission_end_updated = "updated"

abbrev pub permission_end_revoked : String
permission_end_revoked = "revoked"

pub record PermissionVersion : Type 0 where
  pub permission : Permission
  pub superseded_at : Option ℕ
  pub end_reason : String

-- `(*PermissionVersion).ActiveAt`; `a.After(b)` is `ltb b a`.
unfoldable pub active_at : PermissionVersion → ℕ → Bool
active_at v t =
    if ltb t v.permission.granted_at
    then false
    else if elim v.permission.expires_at [ none ↦ false | some e ↦ not (ltb t e) ]
    then false
    else elim v.superseded_at [ none ↦ true | some s ↦ ltb t s ]

-- Has the user set a password for password+TOTP login?
unfoldable pub has_password : Option User → Bool
has_password none = false
has_password (some u) = not (u.password_hash == "")

unfoldable pub new_access_request :
    String → ℕ → String → String → List String → String → ℤ → AccessRequest
new_access_request id now user_id machine_id remote_users reason duration = record {
  id = id;
  user_id = user_id;
  machine_id = machine_id;
  remote_users = remote_users;
  access_type = "both";
  reason = reason;
  duration = duration;
  status = "pending";
  requested_at = now;
  reviewed_at = none;
  reviewed_by = none;
  expires_at = none;
  risk_signals = none;
  risk_decision = none;
}

unfoldable pub new_permission :
    String → ℕ → String → String → String → List String → String → Option ℕ → Permission
new_permission id now user_id machine_id access_type remote_users granted_by expires_at = record {
  id = id;
  user_id = user_id;
  machine_id = machine_id;
  access_type = access_type;
  remote_users = remote_users;
  granted_by = granted_by;
  granted_at = now;
  expires_at = expires_at;
}
