-- ===== src/Client/History.antt =====
-- server/handler/ws_handler.go: a new client and the history that is queued for it before it
-- registers. RoomWebSocket and MsgReceiver hold the same lines.
use woongkie_talkie.Base.{
  ℕ, ◌-◌, String, true, false, List, [], ◌∷◌, Option, none, some, if◌then◌else◌, ltb, map, length,
  drop, ◌==◌, ◌>>=◌,
}
use woongkie_talkie.Chat.{ChatMessage, Chat, chat_message}
use woongkie_talkie.Hub.{Client, try_send, panicked, full, sent}

unfoldable pub new_client : String → String → Client
new_client username room = record {
  username = username;
  room_id = room;
  send = [];
  closed = false;
  has_conn = true;
  conn_closed = false;
}

abbrev pub history_limit : ℕ
history_limit = 256

-- if len(chatList) > 256 { chatList = chatList[len(chatList)-256:] }
unfoldable pub latest : List Chat → List Chat
latest chats =
    if ltb history_limit (length chats) then drop (length chats - history_limit) chats else chats

-- `format` is time.Time's Format with the RFC 3339 layout.
module _ (format : ℕ → String) where
  unfoldable pub chat_log : String → String → Chat → ChatMessage
  chat_log name room past = record (chat_message "CHATLOG" past.user room past.message) {
    message_id = past.id;
    created_at = format past.created_at;
    owner = past.user == name;
  }

  -- select { case client.Send <- tmpMsg: default: }
  unfoldable pub queue_one : ChatMessage → Client → Option Client
  queue_one msg c = elim (try_send msg c) [ panicked ↦ none | full ↦ some c | sent c' ↦ some c' ]

  unfoldable pub queue_all : List Chat → Client → Option Client
  queue_all [] c = some c
  queue_all (past ∷ rest) c = queue_one (chat_log c.username c.room_id past) c >>= queue_all rest

  -- The client as it registers, with what FindChatByRoom returned.
  unfoldable pub connect : String → String → List Chat → Option Client
  connect username room chats = queue_all (latest chats) (new_client username room)

  abbrev logs : String → String → List Chat → List ChatMessage
  logs name room = map (chat_log name room)
