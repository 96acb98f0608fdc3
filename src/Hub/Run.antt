-- ===== src/Hub/Run.antt =====
-- server/handler/hub.go, Hub.Run: one round of its select loop, for the case that is ready.
use woongkie_talkie.Base.{
  ℕ, ◌+◌, String, Bool, true, List, [], ◌∷◌, Option, none, some, eqb, if◌then◌else◌, length, any,
  elem, update, ◌==◌, ◌>>=◌,
}
use woongkie_talkie.Chat.{codes, ChatMessage, chat_message}
use woongkie_talkie.Hub.{
  Client, Hub, set_online, set_offline, clear_typing, call_redis, named, delete, close_send,
  broadcast_local, close_all_clients,
}

-- The state of the broker, if the hub has one: in fallback mode, or connected; a publish may then
-- fail.
pub data Broker : Type 0 where
  fallback connected connected_failing : Broker

-- encoding/json on messages; either direction may fail.
pub record Codec : Type 1 where
  pub Data : Type 0
  pub marshal : ChatMessage → Option Data
  pub unmarshal : Data → Option ChatMessage

-- What a round leaves: whether the loop goes on, and what was published.
pub data Status : Type 0 where
  -- the loop goes on
  looping : Status
  -- Run has returned
  returned : Status
  -- Run has returned, and has deleted its room's entry of RoomMgr.hubs
  unlisted : Status

abbrev pub allowed_events : List String
allowed_events =
    "MSG" ∷ "MSG_FILE" ∷ "MSG_EDIT" ∷ "MSG_DELETE" ∷ "OPEN" ∷ "CLOSE" ∷ "CHATLOG" ∷ "PRESENCE"
    ∷ "TYPING_START" ∷ "TYPING_STOP" ∷ "WARN" ∷ []

unfoldable pub is_allowed_event : String → Bool
is_allowed_event event = any (λ e. e == event) allowed_events

abbrev pub presence_message : String → Client → ChatMessage
presence_message state c = chat_message "PRESENCE" c.username c.room_id (codes state)

-- case client := <-h.Register
unfoldable pub register : ℕ → Hub → Option Hub
register i h = broadcast_local (presence_message "online" (h.client i)) (record h {
  clients = if elem i h.clients then h.clients else i ∷ h.clients;
  active_connections = h.active_connections + 1;
  presence =
      call_redis h.redis_up (set_online (h.client i).room_id (h.client i).username ∷ []) h.presence;
})

-- The first half of case client := <-h.Unregister: the client leaves, if it is there.
unfoldable pub remove_client : ℕ → Hub → Hub
remove_client i h =
    if elem i h.clients
    then record h {
      clients = delete i h.clients;
      client = update h.client i (close_send (h.client i));
    }
    else h

-- The second half: the user is offline only if no other connection of the name remains.
unfoldable pub announce_offline : Client → Hub → Option Hub
announce_offline c h =
    if eqb (length (named h c.username)) 0
    then broadcast_local (presence_message "offline" c) (record h {
      presence =
          call_redis h.redis_up
            (set_offline c.room_id c.username ∷ clear_typing c.room_id c.username ∷ []) h.presence;
    })
    else some h

unfoldable pub unregister : ℕ → Hub → Option Hub
unregister i h = announce_offline (h.client i) (remove_client i h)

-- case <-h.stop
unfoldable pub on_stop : Hub → Hub
on_stop h = close_all_clients h

-- case <-idleTimer.C: with no client the hub leaves the manager and closes its own stop channel.
unfoldable pub on_idle : Hub → Option (Hub × Status)
on_idle h =
    if eqb (length h.clients) 0
    then if h.stopped then none else some (record h { stopped = true }, unlisted)
    else some (h, looping)

module _ (codec : Codec) where
  open codec use {Data, marshal, unmarshal}

  unfoldable pub publish : Broker → ChatMessage → Hub → Option (Hub × List Data)
  publish fallback msg h = do h' ← broadcast_local msg h; some (h', [])
  publish connected msg h = elim (marshal msg) [
    | none ↦ do h' ← broadcast_local msg h; some (h', [])
    | some packet ↦ some (h, packet ∷ [])
  ]
  publish connected_failing msg h = do h' ← broadcast_local msg h; some (h', [])

  -- case msg := <-h.Broadcast: the hub afterwards, and what was published.
  unfoldable pub on_broadcast : Broker → ChatMessage → Hub → Option (Hub × List Data)
  unfolding publish
  on_broadcast b msg h =
      if h.has_broker then publish b msg h else do h' ← broadcast_local msg h; some (h', [])

  -- case data := <-redisCh
  unfoldable pub on_redis : Data → Hub → Option Hub
  on_redis packet h = elim (unmarshal packet) [
    | none ↦ some h
    | some msg ↦ if is_allowed_event msg.event then broadcast_local msg h else some h
  ]

  -- The cases of the select.
  pub data Ready : Type 0 where
    stop idle : Ready
    registered unregistered : ℕ → Ready
    broadcast : Broker → ChatMessage → Ready
    from_redis : Data → Ready

  unfoldable pub run_round : Ready → Hub → Option (Hub × Status × List Data)
  run_round stop h = some (on_stop h, returned, [])
  run_round idle h = do (h', status) ← on_idle h; some (h', status, [])
  run_round (registered i) h = do h' ← register i h; some (h', looping, [])
  run_round (unregistered i) h = do h' ← unregister i h; some (h', looping, [])
  run_round (broadcast b msg) h = do (h', out) ← on_broadcast b msg h; some (h', looping, out)
  run_round (from_redis packet) h = do h' ← on_redis packet h; some (h', looping, [])
