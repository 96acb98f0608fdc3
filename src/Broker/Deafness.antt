-- ===== src/Broker/Deafness.antt =====
-- How the hubs of server/handler/hub.go use the broker of pkg/redis/pubsub.go: the start and the end
-- of Hub.Run, and two ways in which a hub no longer hears its room.
use woongkie_talkie.Base.{
  ℕ, ◌≡◌, refl, ◌∙◌, ap, String, Bool, true, false, [], ◌∷◌, none, some, if◌then◌else◌, lookup,
  lookup-insert, lookup-remove, arith, eq_refl, inl, inr,
}
use woongkie_talkie.Chat.{ChatMessage}
use woongkie_talkie.Hub.{Hub}
use woongkie_talkie.Hub.Run.{Codec, connected, on_broadcast, publish as publish_or_deliver}
use woongkie_talkie.Broker.{
  Broker, is_fallback, publish, subscribe, unsubscribe, drop_room, store_handler, open_pubsub,
  monitor, received,
}
use woongkie_talkie.Broker.Subscriptions.{Sound}
use woongkie_talkie.Broker.Recovery.{
  Inv, IsRunning, monitor-Inv, monitor-connects, monitor-IsRunning, subscribe-Inv, unsubscribe-Inv,
}
use woongkie_talkie.Broker.Delivery.{received-Sound}

-- The start of Run for a hub with a broker: the broker afterwards, and whether the hub listens to it
-- and unsubscribes in the end.
unfoldable pub hub_start : String → ℕ → Broker → Broker × Bool
hub_start room handler b = if is_fallback b then (b, false) else subscribe room handler b

-- The deferred call at the end of Run.
unfoldable pub hub_end : String → Bool → Broker → Broker
hub_end room listens b = if listens then unsubscribe room b else b

received_nothing :
    (room : String) (b : Broker) → Sound b → lookup room b.handlers ≡ none → received room b ≡ []
received_nothing room b v gone = elim (received-Sound room b v) [
  | inl (absent, got) ↦ got
  | inr (i, h, there, handler, got) ↦ absurd (cc (gone, handler))
]

-- A hub that starts in fallback does not listen. When Redis answers a ping, the broker is connected
-- again: now the hub hands a message to Redis and delivers nothing itself, the publish succeeds, and
-- no handler of this server is called for a message to the room, if none was stored for the room
-- before the hub started.
pub fallback_hub_deaf :
    (codec : Codec) (packet : codec.Data) (room : String) (handler : ℕ) (b : Broker) (h : Hub)
    (msg : ChatMessage)
    → Inv b
    → IsRunning b
    → is_fallback b ≡ true
    → lookup room b.handlers ≡ none
    → h.has_broker ≡ true
    → codec.marshal msg ≡ some packet
    → let (started, listens) = hub_start room handler b in
      let later = monitor true started in
      (listens ≡ false)
      × (is_fallback later ≡ false)
      × (on_broadcast codec connected msg h ≡ some (h, packet ∷ []))
      × (publish true later ≡ true)
      × (received room later ≡ [])
unfolding hub_start is_fallback publish on_broadcast publish_or_deliver
fallback_hub_deaf codec packet room handler b h msg v running down nobody has encoded =
    let start : hub_start room handler b ≡ (b, false) = ground (arith, down) in
    let (up, same) = monitor-connects b running in
    let r = monitor-IsRunning true b running in
    let silent =
      received_nothing room (monitor true b) (monitor-Inv true b v).sound
        (ap (lookup room) same ∙ nobody) in
    let sent : on_broadcast codec connected msg h ≡ some (h, packet ∷ []) =
      ground (arith, has, encoded) in
    rw start (refl, up, sent, ground (arith, up, r.0), silent)

-- A hub that starts while the broker is connected listens, and its handler alone is called.
hub_start_listens :
    (room : String) (handler : ℕ) (b : Broker)
    → Inv b
    → IsRunning b
    → is_fallback b ≡ false
    → (started : Broker) × (hub_start room handler b ≡ (started, true))
      × Inv started
      × IsRunning started
      × (is_fallback started ≡ false)
      × (received room started ≡ handler ∷ [])
unfolding hub_start is_fallback subscribe store_handler open_pubsub
hub_start_listens room handler b v running up =
    let start : hub_start room handler b ≡ ((subscribe room handler b).0, true) =
      ground (arith, up, running.0) in
    let b1 = (subscribe room handler b).0 in
    let v1 = subscribe-Inv room handler b v in
    let stored : lookup room b1.handlers ≡ some handler =
      ground (arith, lookup-insert room room handler b.handlers, eq_refl room) in
    let on : (b1.fallback ≡ false) × (b1.has_client ≡ true) × (b1.cancelled ≡ false) =
      ground (arith, up, running.0, running.1) in
    let heard : received room b1 ≡ handler ∷ [] = elim (received-Sound room b1 v1.sound) [
      | inl (absent, got) ↦
          let (i, there) = v1.up on.0 on.1 room handler stored in absurd (cc (there, absent))
      | inr (i, g, there, found, got) ↦ got ∙ ground (arith, found, stored)
    ] in
    (b1, start, v1, (on.1, on.2), on.0, heard)

unsubscribed_silent : (room : String) (b : Broker) → Inv b → received room (unsubscribe room b) ≡ []
unfolding unsubscribe
unsubscribed_silent room b v =
    received_nothing room (unsubscribe room b) (unsubscribe-Inv room b v).sound
      (lookup-remove room room (drop_room room b).handlers ∙ rw (eq_refl room) refl)

-- Where two hubs of one room overlap while the broker is connected, since the first has left the
-- room manager and has not yet returned when the second starts: both subscribe, and only the second
-- one's handler is called for a message to the room; when the first one then returns, its deferred
-- call takes the subscription away, and no handler is called, though the second hub goes on.
pub late_end_deaf :
    (room : String) (first second : ℕ) (b : Broker)
    → Inv b
    → IsRunning b
    → is_fallback b ≡ false
    → let (with_first, first_listens) = hub_start room first b in
      let (with_both, second_listens) = hub_start room second with_first in
      (first_listens ≡ true)
      × (second_listens ≡ true)
      × (received room with_first ≡ first ∷ [])
      × (received room with_both ≡ second ∷ [])
      × (received room (hub_end room first_listens with_both) ≡ [])
unfolding hub_end
late_end_deaf room first second b v running up =
    let (b1, start1, v1, r1, up1, heard1) = hub_start_listens room first b v running up in
    let (b2, start2, v2, r2, up2, heard2) = hub_start_listens room second b1 v1 r1 up1 in
    rw (start1, start2) (refl, refl, heard1, heard2, unsubscribed_silent room b2 v2)
