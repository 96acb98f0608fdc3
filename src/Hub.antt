-- ===== src/Hub.antt =====
-- server/handler/hub.go: the hub of one room, and closeSend of server/handler/ws_client.go.
-- A client is an address in the store `client`; the keys of the map `Clients` are the list
-- `clients`, whose order is the order of a range over the map. A send on a closed channel and a
-- second close of a channel panic: the operations that may do so return an `Option`.
pub mod Run
pub mod Clients
pub mod Delivery
pub mod Broadcast
pub mod Invariant
pub mod Calls
pub mod Departures
pub mod Presence
pub mod Rounds
pub mod Tests
use woongkie_talkie.Base.{
  ℕ, String, Bool, true, false, not, ◌&&◌, ◌||◌, List, [], ◌∷◌, ◌++◌, Option, none, some, ltb, eqb,
  if◌then◌else◌, length, keep, any, elem, update, ◌==◌, ◌>>=◌,
}
use woongkie_talkie.Chat.{Text, codes, ChatMessage}

pub record Client : Type 0 where
  pub username : String
  pub room_id : String
  pub send : List ChatMessage
  pub closed : Bool
  pub has_conn : Bool
  pub conn_closed : Bool

-- The calls of redisclient that the hub makes, for a room and a user.
pub data PresenceCall : Type 0 where
  set_online set_offline set_typing clear_typing : String → String → PresenceCall

pub record Hub : Type 0 where
  pub room_id : String
  pub clients : List ℕ
  pub client : ℕ → Client
  pub stopped : Bool
  pub redis_up : Bool
  pub presence : List PresenceCall
  pub active_connections : ℕ
  pub has_broker : Bool

-- make(chan mongodb.ChatMessage, 256)
abbrev pub send_capacity : ℕ
send_capacity = 256

-- NewHub with a broker or with nil: the store and Redis's availability are the world's, the rest is
-- new.
unfoldable pub new_hub : String → (ℕ → Client) → Bool → Bool → Hub
new_hub room store up broker = record {
  room_id = room;
  clients = [];
  client = store;
  stopped = false;
  redis_up = up;
  presence = [];
  active_connections = 0;
  has_broker = broker;
}

pub data SendResult : Type 0 where
  panicked full : SendResult
  sent : Client → SendResult

-- select { case client.Send <- msg: default: }
unfoldable pub try_send : ChatMessage → Client → SendResult
try_send msg c =
    if c.closed
    then panicked
    else if ltb (length c.send) send_capacity
    then sent (record c { send = c.send ++ msg ∷ [] })
    else full

-- closeSend: the sync.Once makes the second call do nothing.
unfoldable pub close_send : Client → Client
close_send c = if c.closed then c else record c { closed = true }

abbrev pub delete : ℕ → List ℕ → List ℕ
delete i = keep λ j. not (eqb i j)

unfoldable pub is_typing : ChatMessage → Bool
is_typing msg = msg.event == "TYPING_START" || msg.event == "TYPING_STOP"

-- The text that the clients see: a notice for OPEN and CLOSE, else the message's own.
unfoldable pub shown_text : ChatMessage → Text
shown_text msg =
    if msg.event == "OPEN"
    then codes "---- " ++ (codes msg.user ++ codes "님이 입장하셨습니다. ----")
    else if msg.event == "CLOSE"
    then codes "---- " ++ (codes msg.user ++ codes "님이 퇴장하셨습니다. ----")
    else msg.message

unfoldable pub client_msg : ChatMessage → Client → ChatMessage
client_msg msg c = record msg { owner = c.username == msg.user; message = shown_text msg }

-- One round of the loop over the snapshot: the client afterwards, and whether it is to be evicted.
unfoldable pub offer : ChatMessage → Client → Option (Client × Bool)
offer msg c =
    if is_typing msg && c.username == msg.user
    then some (c, false)
    else elim (try_send (client_msg msg c) c) [
      | panicked ↦ none
      | full ↦ some (c, true)
      | sent c' ↦ some (c', false)
    ]

-- The loop: the store afterwards, and the clients to evict.
unfoldable pub deliver_all : ChatMessage → List ℕ → (ℕ → Client) → Option ((ℕ → Client) × List ℕ)
deliver_all msg [] store = some (store, [])
deliver_all msg (i ∷ is) store = do
  (c, slow) ← offer msg (store i)
  (after, evict) ← deliver_all msg is (update store i c)
  some (after, if slow then i ∷ evict else evict)

abbrev call_redis : Bool → List PresenceCall → List PresenceCall → List PresenceCall
call_redis up calls made = if up then made ++ calls else made

unfoldable pub evict_one : ℕ → Hub → Hub
evict_one i h =
    if elem i h.clients
    then record h {
      clients = delete i h.clients;
      client = update h.client i (close_send (h.client i));
      presence =
          call_redis h.redis_up
            (set_offline (h.client i).room_id (h.client i).username
              ∷ clear_typing (h.client i).room_id (h.client i).username
              ∷ [])
            h.presence;
    }
    else h

unfoldable pub evict_all : List ℕ → Hub → Hub
evict_all [] h = h
evict_all (i ∷ is) h = evict_all is (evict_one i h)

-- The typing state in Redis, at the head of broadcastLocal.
unfoldable pub note_typing : ChatMessage → Hub → Hub
note_typing msg h =
    if h.redis_up
    then if msg.event == "TYPING_START"
      then record h { presence = h.presence ++ set_typing h.room_id msg.user ∷ [] }
      else if msg.event == "TYPING_STOP"
      then record h { presence = h.presence ++ clear_typing h.room_id msg.user ∷ [] }
      else h
    else h

unfoldable pub broadcast_local : ChatMessage → Hub → Option Hub
broadcast_local msg h = do
  let h' = note_typing msg h
  (store, evict) ← deliver_all msg h'.clients h'.client
  some (evict_all evict (record h' { client = store }))

-- A loop that takes clients out of the hub, doing `act` to each.
unfoldable pub dismiss : (Client → Client) → List ℕ → Hub → Hub
dismiss act [] h = h
dismiss act (i ∷ is) h =
    dismiss act is
      (record h { clients = delete i h.clients; client = update h.client i (act (h.client i)) })

-- closeSend, then Conn.Close if there is a connection.
unfoldable pub hang_up : Client → Client
hang_up c = record (close_send c) { conn_closed = c.conn_closed || c.has_conn }

unfoldable pub close_all_clients : Hub → Hub
close_all_clients h = dismiss hang_up h.clients h

-- The clients of a user name, in the order of the list.
abbrev pub named : Hub → String → List ℕ
named h name = keep (λ i. (h.client i).username == name) h.clients

unfoldable pub kick_user : String → Hub → Hub
kick_user name h =
    let kicked = dismiss close_send (named h name) h in
    record kicked {
      presence =
          call_redis (h.redis_up && ltb 0 (length (named h name)))
            (set_offline h.room_id name ∷ clear_typing h.room_id name ∷ []) h.presence;
    }

-- The set of names, as the map `names` collects it; the result lists each name once.
unfoldable pub names_of : List String → List String
names_of [] = []
names_of (n ∷ ns) = if any (λ m. m == n) ns then names_of ns else n ∷ names_of ns

unfoldable pub usernames : (ℕ → Client) → List ℕ → List String
usernames store [] = []
usernames store (i ∷ is) = (store i).username ∷ usernames store is

unfoldable pub get_member_names : Hub → List String
get_member_names h = names_of (usernames h.client h.clients)
