-- ===== src/Notify/Policy.antt =====
-- The bounds that an administrator sets: pkg/common/notification_policy.go.
use orion_belt.Prelude.{
  Bool, CaseMap, List, Option, String, [], any, false, if◌then◌else◌, keep, none, not, some,
  trim_space, true, ℕ, ◌&&◌, ◌++◌, ◌==◌, ◌∷◌,
}
use Prim.Native.String.{compare as compare_text}
use Prim.Native.Nat.{lt, eq, gt}
use orion_belt.Notify.Prefs.{
  NotificationPrefs, allows, channel_email, channel_enabled, channel_in_app, contains_string,
  set_channel_enabled,
}

abbrev pub known_notification_channels : List String
known_notification_channels = channel_in_app ∷ channel_email ∷ []

abbrev pub is_known_notification_channel : String → Bool
is_known_notification_channel channel = any (λ c. c == channel) known_notification_channels

-- The map of mandatory events is a list of entries with different keys, in the order in which an
-- iteration meets them.
pub record NotificationPolicy : Type 0 where
  pub allowed_channels : List String
  pub mandatory_events : List (String × List String)
  pub updated_at : ℕ

abbrev pub event_channels : List (String × List String) → String → List String
event_channels [] event = []
event_channels (m ∷ ms) event = if m.0 == event then m.1 else event_channels ms event

-- `sort.Strings`
abbrev pub insert_string : String → List String → List String
insert_string s [] = s ∷ []
insert_string s (t ∷ ts) =
    let rest = insert_string s ts in
    elim (compare_text s t) [ lt ↦ s ∷ t ∷ ts | eq ↦ s ∷ t ∷ ts | gt ↦ t ∷ rest ]

abbrev pub sort_strings : List String → List String
sort_strings [] = []
sort_strings (s ∷ ss) = insert_string s (sort_strings ss)

abbrev pub allowed_by : List String → String → Bool
allowed_by [] channel = true
allowed_by (a ∷ as') channel = contains_string (a ∷ as') channel

unfoldable pub channel_allowed : Option NotificationPolicy → String → Bool
channel_allowed none channel = is_known_notification_channel channel
channel_allowed (some p) channel =
    is_known_notification_channel channel && allowed_by p.allowed_channels channel

unfoldable pub effective_allowed_channels : Option NotificationPolicy → List String
unfolding channel_allowed
effective_allowed_channels none = known_notification_channels
effective_allowed_channels (some p) = elim p.allowed_channels [
  | [] ↦ known_notification_channels
  | a ∷ as' ↦ keep (channel_allowed (some p)) known_notification_channels
]

unfoldable pub mandatory_channels_for : Option NotificationPolicy → String → List String
mandatory_channels_for none event_type = []
mandatory_channels_for (some p) event_type =
    keep (contains_string (event_channels p.mandatory_events event_type))
      known_notification_channels

unfoldable pub is_mandatory : Option NotificationPolicy → String → String → Bool
unfolding mandatory_channels_for
is_mandatory p channel event_type = any (λ c. c == channel) (mandatory_channels_for p event_type)

abbrev pub events : List (String × List String) → List String
events [] = []
events (m ∷ ms) = m.0 ∷ events ms

unfoldable pub mandatory_events_for_channel : Option NotificationPolicy → String → List String
unfolding is_mandatory
mandatory_events_for_channel none channel = []
mandatory_events_for_channel (some p) channel =
    sort_strings (keep (is_mandatory (some p) channel) (events p.mandatory_events))

-- `(*NotificationPolicy).Deliver`
unfoldable pub deliver :
    Option NotificationPolicy → Option NotificationPrefs → String → String → Bool
unfolding is_mandatory channel_allowed allows
deliver p prefs channel event_type =
    if is_mandatory p channel event_type
    then true
    else if not (channel_allowed p channel)
    then false
    else allows prefs channel event_type

abbrev pub none_of : List String → Bool
none_of [] = true
none_of (x ∷ xs) = false

-- The preferences as they are rewritten, with the flag `changed`.
abbrev pub Clamping : Type 0
Clamping = NotificationPrefs × Bool

-- One round of the loop over the channels.
unfoldable pub clamp_channel : Option NotificationPolicy → Clamping → String → Clamping
unfolding channel_allowed mandatory_events_for_channel channel_enabled set_channel_enabled
clamp_channel p (prefs, changed) channel =
    let enabled = channel_enabled prefs channel in
    let free = none_of (mandatory_events_for_channel p channel) in
    if enabled && (not (channel_allowed p channel) && free)
    then (set_channel_enabled prefs channel false, true)
    else if not enabled && not free
    then (set_channel_enabled prefs channel true, true)
    else (prefs, changed)

-- The loop over the mandatory events of a channel.
unfoldable pub fold_events : List String × Bool → List String → List String × Bool
fold_events s [] = s
fold_events (types, changed) (event ∷ es) =
    let next =
      if contains_string types event then (types, changed) else (types ++ event ∷ [], true) in
    fold_events next es

abbrev pub with_event_types : NotificationPrefs → List String × Bool → Clamping
with_event_types p s = (
  record {
    user_id = p.user_id;
    in_app_enabled = p.in_app_enabled;
    email_enabled = p.email_enabled;
    event_types = s.0;
  },
  s.1,
)

-- The repair of the list of event types, which an empty one does not need.
unfoldable pub repair_events : Option NotificationPolicy → List String → Bool → List String × Bool
unfolding mandatory_events_for_channel fold_events
repair_events p [] changed = ([], changed)
repair_events p (t ∷ ts) changed =
    fold_events (fold_events (t ∷ ts, changed) (mandatory_events_for_channel p channel_in_app))
      (mandatory_events_for_channel p channel_email)

-- `(*NotificationPolicy).ClampPrefs` of preferences that are not nil: the preferences after it, and
-- its result.
unfoldable pub clamp_prefs : Option NotificationPolicy → NotificationPrefs → Clamping
unfolding clamp_channel repair_events
clamp_prefs p prefs =
    let s = clamp_channel p (clamp_channel p (prefs, false) channel_in_app) channel_email in
    with_event_types s.0 (repair_events p s.0.event_types s.1)

abbrev pub add_channels : List String → List String → List String
add_channels allowed [] = allowed
add_channels allowed (c ∷ cs) =
    let next = if contains_string allowed c then allowed else allowed ++ c ∷ [] in
    add_channels next cs

unfoldable pub promote : List String → List (String × List String) → List String
promote allowed [] = allowed
promote allowed (m ∷ ms) = promote (add_channels allowed m.1) ms

module _ (cases : CaseMap) where
  abbrev pub canonical : String → String
  unfolding trim_space
  canonical c = cases.to_lower (trim_space c)

  unfoldable pub normalize_channels : List String → List String
  unfolding trim_space
  normalize_channels channels =
      keep (λ k. any (λ c. canonical c == k) channels) known_notification_channels

  -- `cleaned[event] = normalized`
  abbrev pub put_event :
      List (String × List String) → String → List String → List (String × List String)
  put_event [] event cs = (event, cs) ∷ []
  put_event (m ∷ ms) event cs =
      let rest = put_event ms event cs in if m.0 == event then (event, cs) ∷ ms else m ∷ rest

  unfoldable pub clean_events :
      List (String × List String) → List (String × List String) → List (String × List String)
  unfolding trim_space normalize_channels
  clean_events cleaned [] = cleaned
  clean_events cleaned (m ∷ ms) =
      let event = trim_space m.0 in
      let normalized = normalize_channels m.1 in
      let next =
        if event == ""
        then cleaned
        else if none_of normalized
        then cleaned
        else put_event cleaned event normalized in
      clean_events next ms

  -- The allowed channels after the promotion, which a policy with no mandatory event does not reach.
  unfoldable pub promoted :
      List String → List (String × List String) → List (String × List String) → List String
  unfolding normalize_channels promote
  promoted allowed [] cleaned = allowed
  promoted allowed (m ∷ ms) cleaned =
      if none_of allowed then allowed else normalize_channels (promote allowed cleaned)

  -- `(*NotificationPolicy).Normalize`
  unfoldable pub normalize : NotificationPolicy → NotificationPolicy
  unfolding normalize_channels clean_events promoted
  normalize p =
      let cleaned = clean_events [] p.mandatory_events in
      record {
        allowed_channels =
            promoted (normalize_channels p.allowed_channels) p.mandatory_events cleaned;
        mandatory_events = cleaned;
        updated_at = p.updated_at;
      }
