-- ===== src/Notify/Clamp.antt =====
-- What the preferences mean after `ClampPrefs`: pkg/common/notification_policy.go.
use orion_belt.Prelude.{
  Bool, Bool-cases, List, Option, String, [], arith, eq_refl, false, if◌then◌else◌, inl, inr, none,
  not, refl, some, subst, sym, text_cases, true, ◌&&◌, ◌++◌, ◌||◌, ◌∙◌, ◌∷◌, ◌≡◌, ◌⊎◌,
}
use orion_belt.Notify.Policy.{
  Clamping, NotificationPolicy, channel_allowed, clamp_channel, clamp_prefs, deliver, fold_events,
  is_known_notification_channel, is_mandatory, mandatory_channels_for, mandatory_events_for_channel,
  none_of, repair_events,
}
use orion_belt.Notify.Prefs.{
  NotificationPrefs, allows, channel_email, channel_enabled, channel_in_app, contains_string,
  listed, set_channel_enabled,
}
use orion_belt.Notify.Members.{contains-append, contains-mandatory_events, is_mandatory-some}

-- The switch of a channel after the loop over the channels.
flag : Option NotificationPolicy → String → Bool → Bool
flag p c enabled =
    if none_of (mandatory_events_for_channel p c) then enabled && channel_allowed p c else true

-- The list of event types after it.
fold-append :
    (s : List String × Bool) (es : List String) (x : String)
    → contains_string (fold_events s es).0 x ≡ (contains_string s.0 x || contains_string es x)
unfolding fold_events
fold-append s [] x = ground arith
fold-append (types, changed) (e ∷ es) x =
    let kept = fold-append (types, changed) es x in
    let added = fold-append (types ++ e ∷ [], true) es x in
    let ends = contains-append types (e ∷ []) x in
    elim (text_cases e x) [
      | inl i ↦ elim (Bool-cases (contains_string types e)) [
        | inl h ↦ rw h (kept ∙ ground (arith, h, subst (λ y. contains_string types y ≡ true) i h))
        | inr h ↦ rw h (added ∙ ground (arith, ends))
      ]
      | inr i ↦ ground (arith, kept, added, ends, i)
    ]

none_of-append : (xs : List String) (y : String) → none_of (xs ++ y ∷ []) ≡ false
none_of-append [] y = refl
none_of-append (x ∷ xs) y = refl

fold_keeps_some :
    (s : List String × Bool) (es : List String)
    → none_of s.0 ≡ false
    → none_of (fold_events s es).0 ≡ false
unfolding fold_events
fold_keeps_some s [] h = h
fold_keeps_some (types, changed) (e ∷ es) h =
    let kept = fold_keeps_some (types, changed) es h in
    let added = fold_keeps_some (types ++ e ∷ [], true) es (none_of-append types e) in
    ground (arith, kept, added)

or_join : (a b c : Bool) → ((a || b) || c) ≡ (a || (b || c))
or_join true b c = refl
or_join false b c = refl

listed-or : (ts : List String) (x : String) → listed ts x ≡ (none_of ts || contains_string ts x)
listed-or [] x = refl
listed-or (t ∷ ts) x = refl

listed-repair :
    (p : Option NotificationPolicy) (ts : List String) (b : Bool) (x : String)
    → listed (repair_events p ts b).0 x
      ≡ (listed ts x || (is_mandatory p channel_in_app x || is_mandatory p channel_email x))
unfolding repair_events
listed-repair p [] b x = refl
listed-repair p (t ∷ ts) b x =
    let s = fold_events (t ∷ ts, b) (mandatory_events_for_channel p channel_in_app) in
    let e = listed-or (fold_events s (mandatory_events_for_channel p channel_email)).0 x in
    let n =
      fold_keeps_some s (mandatory_events_for_channel p channel_email)
        (fold_keeps_some (t ∷ ts, b) (mandatory_events_for_channel p channel_in_app) refl) in
    let m = contains-mandatory_events p channel_in_app x in
    let l = contains-mandatory_events p channel_email x in
    let f = fold-append (t ∷ ts, b) (mandatory_events_for_channel p channel_in_app) x in
    let g = fold-append s (mandatory_events_for_channel p channel_email) x in
    e ∙ (rw (n, g, f, m, l) (or_join (contains_string (t ∷ ts) x) _ _))

in_app-clamp :
    (p : Option NotificationPolicy) (prefs : NotificationPrefs)
    → (clamp_prefs p prefs).0.in_app_enabled ≡ flag p channel_in_app prefs.in_app_enabled
unfolding clamp_prefs clamp_channel channel_enabled set_channel_enabled flag
in_app-clamp p prefs = ground arith

email-clamp :
    (p : Option NotificationPolicy) (prefs : NotificationPrefs)
    → (clamp_prefs p prefs).0.email_enabled ≡ flag p channel_email prefs.email_enabled
unfolding clamp_prefs clamp_channel channel_enabled set_channel_enabled flag
email-clamp p prefs = ground arith

event_types-channel :
    (p : Option NotificationPolicy) (s : Clamping) (c : String)
    → (clamp_channel p s c).0.event_types ≡ s.0.event_types
unfolding clamp_channel set_channel_enabled
event_types-channel p s c = ground arith

event_types-clamp :
    (p : Option NotificationPolicy) (prefs : NotificationPrefs)
    → (b : Bool) × ((clamp_prefs p prefs).0.event_types ≡ (repair_events p prefs.event_types b).0)
unfolding clamp_prefs
event_types-clamp p prefs = (
  (clamp_channel p (clamp_channel p (prefs, false) channel_in_app) channel_email).1,
  rw
      (
        event_types-channel p (clamp_channel p (prefs, false) channel_in_app) channel_email,
        event_types-channel p (prefs, false) channel_in_app,
      )
      refl,
)

pub known_cases :
    (c : String)
    → is_known_notification_channel c ≡ true
    → (c ≡ channel_in_app) ⊎ (c ≡ channel_email)
known_cases c h = elim (text_cases channel_in_app c) [
  | inl i ↦ inl (sym i)
  | inr i ↦ elim (text_cases channel_email c) [
    | inl j ↦ inr (sym j)
    | inr j ↦ absurd (cc (rw (i, j) at h))
  ]
]

enabled-clamp :
    (p : Option NotificationPolicy) (prefs : NotificationPrefs) (c : String)
    → is_known_notification_channel c ≡ true
    → channel_enabled (clamp_prefs p prefs).0 c ≡ flag p c (channel_enabled prefs c)
unfolding channel_enabled
enabled-clamp p prefs c h = elim (known_cases c h) [
  | inl e ↦ rw e (in_app-clamp p prefs)
  | inr e ↦ rw e (email-clamp p prefs)
]

contains-none_of :
    (xs : List String) (x : String) → contains_string xs x ≡ true → none_of xs ≡ false
contains-none_of [] x h = absurd (cc h)
contains-none_of (y ∷ xs) x h = refl

flag-mandatory :
    (p : Option NotificationPolicy) (c x : String) (b : Bool)
    → is_mandatory p c x ≡ true
    → flag p c b ≡ true
unfolding flag
flag-mandatory p c x b h = rw (contains-none_of _ x (contains-mandatory_events p c x ∙ h)) refl

known-enabled :
    (prefs : NotificationPrefs) (c : String)
    → channel_enabled prefs c ≡ true
    → is_known_notification_channel c ≡ true
unfolding channel_enabled
known-enabled prefs c h = elim (text_cases c channel_in_app) [
  | inl i ↦ rw i refl
  | inr i ↦ elim (text_cases c channel_email) [
    | inl j ↦ rw j refl
    | inr j ↦ absurd (cc (rw (i, j) at h))
  ]
]

known-mandatory :
    (p : Option NotificationPolicy) (c x : String)
    → is_mandatory p c x ≡ true
    → is_known_notification_channel c ≡ true
unfolding is_mandatory mandatory_channels_for
known-mandatory none c x h = absurd (cc h)
known-mandatory (some p) c x h = ground (arith, is_mandatory-some p c x)

listed-clamp :
    (p : Option NotificationPolicy) (prefs : NotificationPrefs) (x : String)
    → listed (clamp_prefs p prefs).0.event_types x ≡ (
        listed prefs.event_types x
        || (is_mandatory p channel_in_app x || is_mandatory p channel_email x))
listed-clamp p prefs x =
    let e = event_types-clamp p prefs in rw e.1 (listed-repair p prefs.event_types e.0 x)

listed_on :
    (ts : List String) (p : Option NotificationPolicy) (c x : String)
    → is_known_notification_channel c ≡ true
    → is_mandatory p c x ≡ true
    → (listed ts x || (is_mandatory p channel_in_app x || is_mandatory p channel_email x)) ≡ true
listed_on ts p c x k h = elim (known_cases c k) [
  | inl e ↦ ground (arith, rw e at h)
  | inr e ↦ ground (arith, rw e at h)
]

-- Whatever the user wished, once the preferences are clamped they let every mandatory event
-- through on its channel.
pub clamp_prefs-mandatory :
    (p : Option NotificationPolicy) (prefs : NotificationPrefs) (channel event : String)
    → is_mandatory p channel event ≡ true
    → allows (some (clamp_prefs p prefs).0) channel event ≡ true
unfolding allows
clamp_prefs-mandatory p prefs channel event h =
    let k = known-mandatory p channel event h in
    let n = flag-mandatory p channel event (channel_enabled prefs channel) h in
    let l = listed-clamp p prefs event in
    let on = enabled-clamp p prefs channel k in
    rw (on, n, l) (ground (arith, listed_on prefs.event_types p channel event k h))

-- No channel carries a mandatory event that users may not enable.
abbrev pub IsConsistent : Option NotificationPolicy → Type 0
IsConsistent p =
    (channel event : String)
    → is_mandatory p channel event ≡ true
    → channel_allowed p channel ≡ true

any-contains :
    (xs : List String) → (none_of xs ≡ true) ⊎ ((x : String) × (contains_string xs x ≡ true))
any-contains [] = inl refl
any-contains (x ∷ xs) = inr (x, ground (arith, eq_refl x))

-- A switch that is on after the clamping belongs to a channel that users may enable.
flag-allowed :
    (p : Option NotificationPolicy) (c : String) (b : Bool)
    → IsConsistent p
    → flag p c b ≡ true
    → channel_allowed p c ≡ true
unfolding flag
flag-allowed p c b k h = elim (any-contains (mandatory_events_for_channel p c)) [
  | inl n ↦ ground arith
  | inr t ↦ k c t.0 (sym (contains-mandatory_events p c t.0) ∙ t.1)
]

allowed_only :
    (p : Option NotificationPolicy) (prefs : NotificationPrefs) (c x : String)
    → IsConsistent p
    → (if not (channel_allowed p c) then false else allows (some (clamp_prefs p prefs).0) c x)
      ≡ allows (some (clamp_prefs p prefs).0) c x
unfolding allows
allowed_only p prefs c x k = elim (Bool-cases (channel_enabled (clamp_prefs p prefs).0 c)) [
  | inl h ↦
      let known = known-enabled (clamp_prefs p prefs).0 c h in
      rw (flag-allowed p c _ k (sym (enabled-clamp p prefs c known) ∙ h)) refl
  | inr h ↦ ground (arith, h)
]

-- Clamped under a policy that does not contradict itself, the preferences alone decide what is
-- delivered: no later reader has to apply the policy again.
pub clamp_prefs-deliver :
    (p : Option NotificationPolicy) (prefs : NotificationPrefs) (channel event : String)
    → IsConsistent p
    → deliver p (some (clamp_prefs p prefs).0) channel event
      ≡ allows (some (clamp_prefs p prefs).0) channel event
unfolding deliver
clamp_prefs-deliver p prefs channel event k = elim (Bool-cases (is_mandatory p channel event)) [
  | inl h ↦ rw h (sym (clamp_prefs-mandatory p prefs channel event h))
  | inr h ↦ rw h (allowed_only p prefs channel event k)
]
