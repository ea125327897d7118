-- ===== src/Notify/Normal.antt =====
-- What an administrator's policy means once `Normalize` has cleaned it:
-- pkg/common/notification_policy.go.
use orion_belt.Prelude.{
  Bool, Bool-cases, CaseMap, List, String, [], any, arith, eq_refl, false, if◌then◌else◌, inl, inr,
  refl, some, subst, text_cases, trim_space, true, ◌&&◌, ◌++◌, ◌==◌, ◌||◌, ◌∙◌, ◌∷◌, ◌≡◌,
}
use orion_belt.Notify.Policy.{
  NotificationPolicy, add_channels, allowed_by, canonical, channel_allowed, clean_events,
  event_channels, is_known_notification_channel, is_mandatory, known_notification_channels, none_of,
  normalize, normalize_channels, promote, promoted,
}
use orion_belt.Notify.Prefs.{channel_email, channel_in_app, contains_string}
use orion_belt.Notify.Clamp.{known_cases}
use orion_belt.Notify.Members.{contains-append, contains-keep, is_mandatory-some}

allowed-or :
    (xs : List String) (c : String) → allowed_by xs c ≡ (none_of xs || contains_string xs c)
allowed-or [] c = refl
allowed-or (x ∷ xs) c = refl

or_on : (b : Bool) → (b || true) ≡ true
or_on true = refl
or_on false = refl

-- Promotion keeps what is allowed and adds what is mandatory.
add_channels-append :
    (a cs : List String) (x : String)
    → contains_string (add_channels a cs) x ≡ (contains_string a x || contains_string cs x)
add_channels-append a [] x = ground arith
add_channels-append a (c ∷ cs) x =
    let kept = add_channels-append a cs x in
    let added = add_channels-append (a ++ c ∷ []) cs x in
    let ends = contains-append a (c ∷ []) x in
    elim (text_cases c x) [
      | inl i ↦ elim (Bool-cases (contains_string a c)) [
        | inl h ↦ rw h (kept ∙ ground (arith, h, subst (λ y. contains_string a y ≡ true) i h))
        | inr h ↦ rw h (added ∙ ground (arith, ends))
      ]
      | inr i ↦ ground (arith, kept, added, ends, i)
    ]

promote_keeps :
    (a : List String) (ms : List (String × List String)) (c : String)
    → contains_string a c ≡ true
    → contains_string (promote a ms) c ≡ true
unfolding promote
promote_keeps a [] c h = h
promote_keeps a (m ∷ ms) c h =
    promote_keeps (add_channels a m.1) ms c (ground (arith, add_channels-append a m.1 c))

promote-event :
    (a : List String) (ms : List (String × List String)) (x c : String)
    → contains_string (event_channels ms x) c ≡ true
    → contains_string (promote a ms) c ≡ true
unfolding promote
promote-event a [] x c h = absurd (cc h)
promote-event a (m ∷ ms) x c h = elim (Bool-cases (m.0 == x)) [
  | inl e ↦ promote_keeps (add_channels a m.1) ms c (ground (arith, add_channels-append a m.1 c))
  | inr e ↦ promote-event (add_channels a m.1) ms x c (rw e at h)
]

module _ (cases : CaseMap) where
  -- The case mapping leaves the names of the channels alone.
  abbrev pub LowerKeepsChannels : Type 0
  LowerKeepsChannels = (c : String) → is_known_notification_channel c ≡ true → cases.to_lower c ≡ c

  canonical-known :
      LowerKeepsChannels
      → (c : String) → is_known_notification_channel c ≡ true
      → canonical cases c ≡ c
  unfolding trim_space
  canonical-known l c h = elim (known_cases c h) [
    | inl e ↦ rw e (l channel_in_app refl)
    | inr e ↦ rw e (l channel_email refl)
  ]

  canonical-any :
      LowerKeepsChannels
      → (cs : List String) (c : String) → is_known_notification_channel c ≡ true
      → contains_string cs c ≡ true
      → any (λ d. canonical cases d == c) cs ≡ true
  canonical-any l [] c h k = absurd (cc k)
  canonical-any l (d ∷ cs) c h k = elim (text_cases d c) [
    | inl e ↦ rw (e, canonical-known l c h, eq_refl c) refl
    | inr e ↦ rw (canonical-any l cs c h (rw e at k)) (or_on _)
  ]

  contains-normalize :
      (cs : List String) (c : String)
      → contains_string (normalize_channels cases cs) c
        ≡ (is_known_notification_channel c && any (λ d. canonical cases d == c) cs)
  unfolding normalize_channels
  contains-normalize cs c =
      contains-keep (λ k. any (λ d. canonical cases d == k) cs) known_notification_channels c

  allowed_all :
      LowerKeepsChannels
      → (a : List String) (ms : List (String × List String)) (x c : String)
      → is_known_notification_channel c ≡ true
      → contains_string (event_channels ms x) c ≡ true
      → allowed_by (if none_of a then a else normalize_channels cases (promote a ms)) c ≡ true
  allowed_all l [] ms x c k h = refl
  allowed_all l (a ∷ as') ms x c k h =
      let e = contains-normalize (promote (a ∷ as') ms) c in
      let f = canonical-any l (promote (a ∷ as') ms) c k (promote-event (a ∷ as') ms x c h) in
      allowed-or _ c ∙ rw (e, k, f) (or_on _)

  allowed_promoted :
      LowerKeepsChannels
      → (a : List String) (es : List (String × List String)) (x c : String)
      → is_known_notification_channel c ≡ true
      → contains_string (event_channels (clean_events cases [] es) x) c ≡ true
      → allowed_by (promoted cases a es (clean_events cases [] es)) c ≡ true
  unfolding promoted clean_events
  allowed_promoted l a [] x c k h = absurd (cc h)
  allowed_promoted l a (e ∷ es) x c k h = allowed_all l a (clean_events cases [] (e ∷ es)) x c k h

  -- The policy that is stored never contradicts itself: every channel that an event is mandatory on
  -- is one that users may enable.
  pub normalize-allowed :
      (p : NotificationPolicy) (channel event : String)
      → LowerKeepsChannels
      → is_mandatory (some (normalize cases p)) channel event ≡ true
      → channel_allowed (some (normalize cases p)) channel ≡ true
  unfolding normalize channel_allowed
  normalize-allowed p channel event l h =
      let m = is_mandatory-some (normalize cases p) channel event in
      ground (
        arith,
        m,
        allowed_promoted l (normalize_channels cases p.allowed_channels) p.mandatory_events event
            channel,
      )
