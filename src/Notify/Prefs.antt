-- ===== src/Notify/Prefs.antt =====
-- The wishes of a user: pkg/common/notification_prefs.go, and the list test of
-- pkg/common/notification_policy.go.
use orion_belt.Prelude.{
  Bool, List, Option, String, [], any, false, if◌then◌else◌, none, some, true, ◌&&◌, ◌==◌, ◌∷◌,
}

abbrev pub channel_in_app : String
channel_in_app = "in_app"

abbrev pub channel_email : String
channel_email = "email"

-- `containsString`
abbrev pub contains_string : List String → String → Bool
contains_string list want = any (λ v. v == want) list

pub record NotificationPrefs : Type 0 where
  pub user_id : String
  pub in_app_enabled : Bool
  pub email_enabled : Bool
  pub event_types : List String

abbrev pub default_notification_prefs : String → NotificationPrefs
default_notification_prefs user_id = record {
  user_id = user_id;
  in_app_enabled = true;
  email_enabled = false;
  event_types = [];
}

unfoldable pub channel_enabled : NotificationPrefs → String → Bool
channel_enabled p channel =
    if channel == channel_in_app
    then p.in_app_enabled
    else if channel == channel_email
    then p.email_enabled
    else false

unfoldable pub set_channel_enabled : NotificationPrefs → String → Bool → NotificationPrefs
set_channel_enabled p channel enabled =
    if channel == channel_in_app
    then record {
      user_id = p.user_id;
      in_app_enabled = enabled;
      email_enabled = p.email_enabled;
      event_types = p.event_types;
    }
    else if channel == channel_email
    then record {
      user_id = p.user_id;
      in_app_enabled = p.in_app_enabled;
      email_enabled = enabled;
      event_types = p.event_types;
    }
    else p

-- A list of event types filters unless it is empty.
abbrev pub listed : List String → String → Bool
listed [] event_type = true
listed (t ∷ ts) event_type = contains_string (t ∷ ts) event_type

-- `(*NotificationPrefs).Allows`; no stored preferences are those of a new user.
unfoldable pub allows : Option NotificationPrefs → String → String → Bool
unfolding channel_enabled
allows none channel event_type =
    let p = default_notification_prefs "" in
    channel_enabled p channel && listed p.event_types event_type
allows (some p) channel event_type = channel_enabled p channel && listed p.event_types event_type
