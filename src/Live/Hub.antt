-- ===== src/Live/Hub.antt =====
-- The watchers of live sessions: pkg/recording/hub.go. Each call holds the lock, so it is one step; the
-- watchers that receive from their channels take steps in between.
pub mod Open
pub mod Safe
use orion_belt.Prelude.{
  Bool, List, Option, String, [], any, eqb, false, if◌then◌else◌, keep, length, ltb, none, not,
  some, suc, true, ℕ, ◌++◌, ◌==◌, ◌∷◌,
}

-- A buffered channel of chunks of output.
pub record Channel : Type 0 where
  pub queue : List (List ℕ)
  pub closed : Bool

-- A channel's identity is a number, `next` the first that is not in use; a session without an entry
-- in the map reads as one without watchers.
pub record SessionHub : Type 0 where
  pub subs : String → List ℕ
  pub channels : ℕ → Channel
  pub next : ℕ

abbrev pub channel_size : ℕ
channel_size = 64

unfoldable pub new_session_hub : SessionHub
new_session_hub = record {
  subs = λ _. [];
  channels = λ _. record { queue = []; closed = false };
  next = 0;
}

abbrev pub set_subs : String → List ℕ → (String → List ℕ) → String → List ℕ
set_subs id cs subs i = if i == id then cs else subs i

abbrev pub set_channel : ℕ → Channel → (ℕ → Channel) → ℕ → Channel
set_channel c ch channels i = if eqb i c then ch else channels i

abbrev pub has_channel : ℕ → List ℕ → Bool
has_channel c cs = any (λ i. eqb i c) cs

unfoldable pub subscribe : SessionHub → String → ℕ × SessionHub
subscribe h id = (
  h.next,
  record {
    subs = set_subs id (h.next ∷ h.subs id) h.subs;
    channels = set_channel h.next (record { queue = []; closed = false }) h.channels;
    next = suc h.next;
  },
)

-- `close(ch)`: closing a closed channel panics, which is `none`.
unfoldable pub close_channel : ℕ → (ℕ → Channel) → Option (ℕ → Channel)
close_channel c channels =
    if (channels c).closed
    then none
    else some (set_channel c (record (channels c) { closed = true }) channels)

unfoldable pub unsubscribe : SessionHub → String → ℕ → Option SessionHub
unfolding close_channel
unsubscribe h id c =
    if not (has_channel c (h.subs id)) then some h else elim (close_channel c h.channels) [
      | none ↦ none
      | some channels ↦ some (record h {
        subs = set_subs id (keep (λ i. not (eqb i c)) (h.subs id)) h.subs;
        channels = channels;
      })
    ]

-- Sending to a closed channel panics; a full channel drops the chunk.
unfoldable pub send : List ℕ → ℕ → (ℕ → Channel) → Option (ℕ → Channel)
send chunk c channels =
    let ch = channels c in
    if ch.closed
    then none
    else if ltb (length ch.queue) channel_size
    then some (set_channel c (record ch { queue = ch.queue ++ chunk ∷ [] }) channels)
    else some channels

unfoldable pub send_all : List ℕ → List ℕ → (ℕ → Channel) → Option (ℕ → Channel)
unfolding send
send_all chunk [] channels = some channels
send_all chunk (c ∷ cs) channels = elim (send chunk c channels) [
  | none ↦ none
  | some k ↦ send_all chunk cs k
]

unfoldable pub broadcast : SessionHub → String → List ℕ → Option SessionHub
unfolding send_all
broadcast h id [] = some h
broadcast h id (b ∷ bs) = elim (send_all (b ∷ bs) (h.subs id) h.channels) [
  | none ↦ none
  | some channels ↦ some (record h { channels = channels })
]

unfoldable pub watchers : SessionHub → String → ℕ
watchers h id = length (h.subs id)

unfoldable pub close_all : List ℕ → (ℕ → Channel) → Option (ℕ → Channel)
unfolding close_channel
close_all [] channels = some channels
close_all (c ∷ cs) channels = elim (close_channel c channels) [
  | none ↦ none
  | some k ↦ close_all cs k
]

unfoldable pub close_session : SessionHub → String → Option SessionHub
unfolding close_all
close_session h id = elim (close_all (h.subs id) h.channels) [
  | none ↦ none
  | some channels ↦ some (record h { subs = set_subs id [] h.subs; channels = channels })
]

-- A watcher receives the first chunk, if there is one.
unfoldable pub receive : SessionHub → ℕ → SessionHub
receive h c = elim (h.channels c).queue [
  | [] ↦ h
  | _ ∷ rest ↦ record h {
    channels = set_channel c (record (h.channels c) { queue = rest }) h.channels;
  }
]

-- A call of the hub, or a watcher that receives.
pub data Call : Type 0 where
  watch : String → Call
  unwatch : String → ℕ → Call
  output : String → List ℕ → Call
  finish : String → Call
  take_chunk : ℕ → Call

unfoldable pub apply : Call → SessionHub → Option SessionHub
unfolding subscribe unsubscribe broadcast close_session receive
apply (watch id) h = some ((subscribe h id).1)
apply (unwatch id c) h = unsubscribe h id c
apply (output id chunk) h = broadcast h id chunk
apply (finish id) h = close_session h id
apply (take_chunk c) h = some (receive h c)

-- The calls one after the other, none where one of them panics.
unfoldable pub run_calls : List Call → SessionHub → Option SessionHub
unfolding apply
run_calls [] h = some h
run_calls (c ∷ cs) h = elim (apply c h) [ none ↦ none | some k ↦ run_calls cs k ]
