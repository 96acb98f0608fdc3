-- ===== src/Client.antt =====
-- server/handler/ws_client.go, readPump: what happens to the messages that a client sends. The
-- limiter is golang.org/x/time/rate's, a parameter; the clock, the fresh id and whether a channel
-- takes a message in time come with each message.
pub mod ReadPump
pub mod Eviction
pub mod InsertWorker
pub mod History
pub mod Tests
use woongkie_talkie.Base.{
  ℕ, ◌+◌, String, Bool, true, false, not, ◌&&◌, ◌||◌, List, [], ◌∷◌, ◌++◌, Option, none, some, ltb,
  if◌then◌else◌, length, ◌==◌, ◌>>=◌,
}
use woongkie_talkie.Chat.{Text, codes, ChatMessage, chat_message}
use woongkie_talkie.Texts.{trim_space, escape_string}
use woongkie_talkie.Hub.{Client, try_send, panicked, full, sent}

-- rate.Limiter: Allow takes a token, if there is one.
pub record RateLimiter : Type 1 where
  pub Limiter : Type 0
  pub allow : Limiter → Bool × Limiter

-- What the rest of the world answers while one message is handled.
pub record Moment : Type 0 where
  -- primitive.NewObjectID().Hex()
  pub object_id : String
  -- time.Now(), formatted
  pub now : String
  -- insertQueue takes the message before the timeout
  pub queue_takes : Bool
  -- the hub takes the message; otherwise its stop channel is closed
  pub hub_takes : Bool

abbrev pub max_runes : ℕ
max_runes = 2000

-- Does the pump go on, or return?
pub data Next : Type 0 where
  goes_on returns : Next

unfoldable pub is_client_event : String → Bool
is_client_event e = e == "MSG" || e == "MSG_FILE" || e == "TYPING_START" || e == "TYPING_STOP"

unfoldable pub is_typing_event : String → Bool
is_typing_event e = e == "TYPING_START" || e == "TYPING_STOP"

abbrev pub warning : String → Text → ChatMessage
warning room body = chat_message "WARN" "system" room body

abbrev pub is_empty : Text → Bool
is_empty [] = true
is_empty (c ∷ r) = false

-- The message as it is stored: without the id, the time and the event of the broadcast.
abbrev pub stored : ChatMessage → ChatMessage
stored msg = chat_message "" msg.user msg.room_id msg.message

-- The message as it is broadcast: escaped, with a new id and the time.
abbrev pub cleaned : Moment → ChatMessage → ChatMessage
cleaned t msg = record msg {
  message = escape_string msg.message;
  message_id = t.object_id;
  created_at = t.now;
}

module _ (rate : RateLimiter) where
  open rate use {Limiter, allow}

  -- The state that the pump of one client reads and writes: the client's own channel and limiter,
  -- what it has put on insertQueue, and what it has sent to the hub.
  pub record Session : Type 0 where
    pub client : Client
    pub limiter : Limiter
    pub queued : List ChatMessage
    pub to_hub : List ChatMessage
    pub messages_total : ℕ
    pub messages_dropped : ℕ

  -- select { case c.Send <- warn: default: }
  unfoldable pub warn : Text → Session → Option (Session × Next)
  warn body s = elim (try_send (warning s.client.room_id body) s.client) [
    | panicked ↦ none
    | full ↦ some (s, goes_on)
    | sent c ↦ some (record s { client = c }, goes_on)
  ]

  -- select { case c.Hub.Broadcast <- msg: case <-c.Hub.stop: return }
  unfoldable pub send_to_hub : Moment → ChatMessage → Session → Option (Session × Next)
  send_to_hub t msg s =
      if t.hub_takes
      then some (record s { to_hub = s.to_hub ++ msg ∷ [] }, goes_on)
      else some (s, returns)

  -- From the insert on: only MSG is stored.
  unfoldable pub store_and_send : Moment → ChatMessage → Session → Option (Session × Next)
  store_and_send t msg s =
      if msg.event == "MSG"
      then if t.queue_takes
        then send_to_hub t msg (record s {
          queued = s.queued ++ stored msg ∷ [];
          messages_total = s.messages_total + 1;
        })
        else warn (codes "메시지 저장에 실패했습니다. 잠시 후 다시 시도해주세요.")
            (record s { messages_dropped = s.messages_dropped + 1 })
      else send_to_hub t msg s

  -- From the rate limit on.
  unfoldable pub limit_and_send : Moment → ChatMessage → Session → Option (Session × Next)
  limit_and_send t msg s =
      let (allowed, limiter') = allow s.limiter in
      let s' = record s { limiter = limiter' } in
      if not allowed
      then warn (codes "메시지 전송이 너무 빠릅니다. 잠시 후 다시 시도해주세요.") s'
      else if ltb max_runes (length msg.message)
      then warn (codes "메시지는 2000자를 초과할 수 없습니다.") s'
      else store_and_send t (cleaned t msg) s'

  abbrev pub claimed : ChatMessage → Session → ChatMessage
  claimed msg s = record msg { user = s.client.username; room_id = s.client.room_id }

  -- One round of the loop, for a message that was read.
  unfoldable pub read_message : Moment → ChatMessage → Session → Option (Session × Next)
  read_message t msg s =
      if not (is_client_event msg.event)
      then some (s, goes_on)
      else if is_typing_event msg.event
      then send_to_hub t (claimed msg s) s
      else if is_empty (trim_space msg.message)
      then some (s, goes_on)
      else limit_and_send t (claimed msg s) s

  -- The deferred function: CLOSE for the hub, if it takes it. Unregistering is the hub's.
  unfoldable pub leave : Moment → Session → Session
  leave t s =
      if t.hub_takes
      then record s {
        to_hub = s.to_hub ++ chat_message "CLOSE" s.client.username s.client.room_id [] ∷ [];
      }
      else s

  -- The whole pump: messages until the connection fails, then the deferred function.
  unfoldable pub read_pump : List (Moment × ChatMessage) → Moment → Session → Option Session
  read_pump [] last s = some (leave last s)
  read_pump ((t, msg) ∷ more) last s = elim (read_message t msg s) [
    | none ↦ none
    | some (s', goes_on) ↦ read_pump more last s'
    | some (s', returns) ↦ some (leave last s')
  ]
