-- ===== src/Apperr/Laws.antt =====
-- What a caller sees of an error: pkg/apperr/apperr.go.
use orion_belt.Prelude.{String, arith, refl, ◌≡◌}
use orion_belt.Apperr.{
  Error, Kind, caused, http_status, internal, internal_text, kind_of, kinded, message, wrapped,
}

-- Two kinds with one HTTP status are the same kind.
pub http_status-injective : (k l : Kind) → http_status k ≡ http_status l → k ≡ l
unfolding http_status
http_status-injective k l h = ground arith

-- However deep an error is wrapped with text, its kind is the kind of the first kinded error.
pub data Wraps (e : Error) : Error → Type 0 where
  same : Wraps e e
  under : {d : Error} (s : String) → Wraps e d → Wraps e (wrapped s d)

-- Wrapping an error with text, however often, changes neither the status that the API answers
-- with nor the message that the caller is shown.
pub Wraps-kind_of-message :
    {e d : Error}
    → Wraps e d
    → (http_status (kind_of d) ≡ http_status (kind_of e)) × (message d ≡ message e)
unfolding kind_of message
Wraps-kind_of-message same = (refl, refl)
Wraps-kind_of-message (under s w) = Wraps-kind_of-message w

-- A hidden cause is never shown: it changes neither the message nor the status, and an error whose
-- kind is internal is answered with the fixed text.
pub message_hides_cause :
    (k : Kind) (s : String) (c e : Error)
    → kind_of e ≡ internal
    → (message (caused k s c) ≡ message (kinded k s))
      × (http_status (kind_of (caused k s c)) ≡ http_status (kind_of (kinded k s)))
      × (message e ≡ internal_text)
unfolding kind_of message
message_hides_cause k s c e h = (refl, refl, ground arith)
