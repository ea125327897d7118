-- ===== src/Notify/Members.antt =====
-- Which items the lists of pkg/common/notification_policy.go hold.
use orion_belt.Prelude.{
  Bool, List, Option, String, [], arith, eq_refl, false, inl, inr, keep, none, refl, some,
  text_cases, true, ◌&&◌, ◌++◌, ◌==◌, ◌||◌, ◌∙◌, ◌∷◌, ◌≡◌,
}
use orion_belt.Notify.Prefs.{contains_string}
use orion_belt.Notify.Policy.{
  NotificationPolicy, event_channels, events, insert_string, is_known_notification_channel,
  is_mandatory, known_notification_channels, mandatory_channels_for, mandatory_events_for_channel,
  sort_strings,
}

pub contains-append :
    (xs ys : List String) (x : String)
    → contains_string (xs ++ ys) x ≡ (contains_string xs x || contains_string ys x)
contains-append [] ys x = refl
contains-append (z ∷ xs) ys x = ground (arith, contains-append xs ys x)

contains-insert :
    (s : String) (ts : List String) (x : String)
    → contains_string (insert_string s ts) x ≡ ((s == x) || contains_string ts x)
contains-insert s [] x = refl
contains-insert s (t ∷ ts) x = ground (arith, contains-insert s ts x)

contains-sort :
    (ss : List String) (x : String) → contains_string (sort_strings ss) x ≡ contains_string ss x
contains-sort [] x = refl
contains-sort (s ∷ ss) x = ground (arith, contains-insert s (sort_strings ss) x, contains-sort ss x)

-- A test keeps the items of a list that pass it.
pub contains-keep :
    (p : String → Bool) (ss : List String) (x : String)
    → contains_string (keep p ss) x ≡ (contains_string ss x && p x)
contains-keep p [] x = refl
contains-keep p (s ∷ ss) x = elim (text_cases s x) [
  | inl e ↦ rw e (ground (arith, contains-keep p ss x, eq_refl x))
  | inr e ↦ ground (arith, contains-keep p ss x)
]

contains-events :
    (ms : List (String × List String)) (x c : String)
    → contains_string (event_channels ms x) c ≡ true
    → contains_string (events ms) x ≡ true
contains-events [] x c h = h
contains-events (m ∷ ms) x c h = ground (arith, contains-events ms x c)

pub and-implied : (a b : Bool) → (b ≡ true → a ≡ true) → (a && b) ≡ b
and-implied a true h = rw (h refl)
and-implied true false h = refl
and-implied false false h = refl

pub is_mandatory-some :
    (p : NotificationPolicy) (c x : String)
    → is_mandatory (some p) c x
      ≡ (is_known_notification_channel c && contains_string (event_channels p.mandatory_events x) c)
unfolding is_mandatory mandatory_channels_for
is_mandatory-some p c x =
    contains-keep (contains_string (event_channels p.mandatory_events x))
      known_notification_channels c

-- An event is in the list of a channel exactly when it is mandatory on it.
pub contains-mandatory_events :
    (p : Option NotificationPolicy) (c x : String)
    → contains_string (mandatory_events_for_channel p c) x ≡ is_mandatory p c x
unfolding mandatory_events_for_channel is_mandatory mandatory_channels_for
contains-mandatory_events none c x = refl
contains-mandatory_events (some p) c x =
    let e = contains-sort (keep (is_mandatory (some p) c) (events p.mandatory_events)) x in
    let f = contains-keep (is_mandatory (some p) c) (events p.mandatory_events) x in
    e
    ∙ (f
        ∙ and-implied _ _
            (λ h. contains-events p.mandatory_events x c (ground (arith, is_mandatory-some p c x))))
