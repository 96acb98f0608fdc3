-- ===== src/Hub/Presence.antt =====
-- Who is announced offline, and which messages survive the trip through Redis
-- (server/handler/hub.go).
use mathlib.Core.List.{Memᴰ, append_assoc}
use woongkie_talkie.Base.{
  ℕ, ◌≡◌, refl, ap, ◌∙◌, true, false, not, ◌&&◌, ◌⊎◌, List, [], ◌∷◌, ◌++◌, some, elem, arith,
  Bool-cases, inl, inr, elem-keep, if◌then◌else◌, ◌==◌, elem-All,
}
use woongkie_talkie.Chat.{ChatMessage, chat_message, codes}
use woongkie_talkie.Hub.{
  Client, Hub, PresenceCall, set_offline, clear_typing, call_redis, broadcast_local,
}
use woongkie_talkie.Hub.Clients.{close_send-closed}
use woongkie_talkie.Hub.Delivery.{is_slow}
use woongkie_talkie.Hub.Broadcast.{
  IsValid, IsBroadcast, broadcast_local_total, after_broadcast, after_broadcast-IsBroadcast,
  outcome_slow, outcome_quick, IsBroadcast-IsValid,
}
use woongkie_talkie.Hub.Calls.{after_broadcast_calls, after_broadcast-offline}
use woongkie_talkie.Hub.Departures.{IsWithout, remove_client-IsWithout, named-cases}
use woongkie_talkie.Hub.Invariant.{remove_client-IsValid}
use woongkie_talkie.Hub.Run.{
  Codec, connected, presence_message, remove_client, announce_offline, unregister, publish,
  on_broadcast, on_redis, is_allowed_event,
}

-- The hub after Redis was told of a user's absence.
abbrev told_offline : Client → Hub → Hub
told_offline c h = record h {
  presence =
      call_redis h.redis_up
        (set_offline c.room_id c.username ∷ clear_typing c.room_id c.username ∷ []) h.presence;
}

told_calls :
    (c : Client) (more : List PresenceCall) (rest h : Hub)
    → rest.presence ≡ h.presence
    → rest.redis_up ≡ h.redis_up
    → call_redis rest.redis_up more (told_offline c rest).presence ≡ (
        if h.redis_up
        then h.presence
          ++ (set_offline c.room_id c.username ∷ clear_typing c.room_id c.username ∷ more)
        else h.presence)
told_calls c more rest h same up =
    rw (up, same)
      (elim (Bool-cases h.redis_up) [
        | inl on ↦ rw on (append_assoc h.presence _ more)
        | inr off ↦ rw off refl
      ])

-- A client that leaves is taken out and its channel is closed. While another connection of the same
-- user is registered, nothing else happens: no notice is sent, and Redis is told nothing. After the
-- last one the notice of the user's absence is broadcast to everyone that remains, and Redis, if it
-- is available, is told that the user is offline and does not type, before anything that the
-- broadcast has to tell it.
pub unregister_cases :
    (i : ℕ) (h : Hub)
    → IsValid h
    → let name = (h.client i).username in
      let room = (h.client i).room_id in
      (rest : Hub) × IsWithout i h rest
      × (((unregister i h ≡ some rest)
            × ((j : ℕ) × (elem j rest.clients ≡ true) × ((rest.client j).username ≡ name)))
          ⊎ (((j : ℕ) → (elem j rest.clients && (rest.client j).username == name) ≡ false)
              × ((h' : Hub) × (unregister i h ≡ some h')
                  × IsBroadcast (chat_message "PRESENCE" name room (codes "offline")) rest h'
                  × ((more : List PresenceCall) × (h'.presence ≡ (
                        if h.redis_up
                        then h.presence ++ (set_offline room name ∷ clear_typing room name ∷ more)
                        else h.presence))))))
unfolding unregister announce_offline
unregister_cases i h v =
    let rest = remove_client i h in
    let c = h.client i in
    let taken = remove_client-IsWithout i h in
    (
      rest,
      taken,
      elim (named-cases rest c.username rest.clients) [
        | inl (e, none_) ↦
            let msg = presence_message "offline" c in
            let told = told_offline c rest in
            let b = after_broadcast-IsBroadcast msg told in
            let (more, (calls, _)) = after_broadcast_calls msg told in
            let w = remove_client-IsValid i h v in
            let total =
              broadcast_local_total msg told (record { distinct = w.distinct; open_ = w.open_ }) in
            inr (
              none_,
              (
                after_broadcast msg told,
                rw e total,
                record {
                  kept = b.kept;
                  reached = b.reached;
                  same_stopped = b.same_stopped;
                  same_room = b.same_room;
                },
                (more, calls ∙ told_calls c more rest h taken.same_presence taken.same_redis),
              ),
            )
        | inr (e, other) ↦ inl (rw e refl, other)
      ],
    )

-- An announcement of an administrator is lost while Redis is connected: the hub publishes it and
-- delivers nothing itself, and every hub that gets it back from Redis drops it, since "ANNOUNCE" is
-- not on the list of events that hubs accept from Redis.
pub announce_lost :
    (codec : Codec) (msg : ChatMessage) (packet : codec.Data) (h h' : Hub)
    → msg.event ≡ "ANNOUNCE"
    → h.has_broker ≡ true
    → codec.marshal msg ≡ some packet
    → codec.unmarshal packet ≡ some msg
    → (on_broadcast codec connected msg h ≡ some (h, packet ∷ []))
      × (on_redis codec packet h' ≡ some h')
unfolding on_broadcast publish on_redis is_allowed_event
announce_lost codec msg packet h h' event broker encoded decoded =
    (rw (broker, on_broadcast) (rw (encoded, publish)), rw (decoded, on_redis) (rw event))

-- When a message finds one connection of a user full, that connection is taken out and its channel
-- closed, and Redis, if it is available, is told anew that the user is offline, also while another
-- connection of the same user, which is not full, stays registered and open.
pub evicted_marks_offline :
    (msg : ChatMessage) (h : Hub) (i j : ℕ)
    → IsValid h
    → h.redis_up ≡ true
    → elem i h.clients ≡ true
    → elem j h.clients ≡ true
    → (h.client j).username ≡ (h.client i).username
    → is_slow msg (h.client i) ≡ true
    → is_slow msg (h.client j) ≡ false
    → (h' : Hub) × (broadcast_local msg h ≡ some h')
      × (elem i h'.clients ≡ false)
      × ((h'.client i).closed ≡ true)
      × (elem j h'.clients ≡ true)
      × ((h'.client j).closed ≡ false)
      × ((h'.client j).username ≡ (h.client i).username)
      × ((more : List PresenceCall) × (h'.presence ≡ h.presence ++ more)
          × Memᴰ (set_offline (h.client i).room_id (h.client i).username) more)
evicted_marks_offline msg h i j v up here there same slow quick =
    let b = after_broadcast-IsBroadcast msg h in
    let w = IsBroadcast-IsValid msg h _ b v in
    let kept = λ (k : ℕ). elem-keep (λ l. not (is_slow msg (h.client l))) k h.clients in
    let stays : elem j (after_broadcast msg h).clients ≡ true =
      rw b.kept (ground (arith, kept j)) in
    let (more, (calls, _), m) = after_broadcast-offline msg h i here slow in
    (
      after_broadcast msg h,
      broadcast_local_total msg h v,
      rw b.kept (ground (arith, kept i)),
      rw (b.reached i, here)
          (rw (outcome_slow msg (h.client i) slow) (close_send-closed (h.client i))),
      stays,
      elem-All (λ k. ((after_broadcast msg h).client k).closed ≡ false) _ j w.open_ stays,
      rw (b.reached j, there) (rw (outcome_quick msg (h.client j) quick) same),
      (more, calls ∙ ap (λ u. call_redis u more h.presence) up, m),
    )
