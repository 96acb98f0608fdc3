-- ===== src/Broker/Tests.antt =====
-- A broker that loses its connection and finds it again: the theorems at concrete inputs.
use woongkie_talkie.Base.{
  ℕ, ◌≡◌, refl, String, Bool, true, false, List, [], ◌∷◌, some, lookup, if◌then◌else◌,
}
use woongkie_talkie.Chat.{chat_message, codes}
use woongkie_talkie.Hub.Run.{connected, on_broadcast}
use woongkie_talkie.Hub.Tests.{plain_codec, trio}
use woongkie_talkie.Broker.{Broker, new_broker, is_fallback, publish, monitor, received}
use woongkie_talkie.Broker.Recovery.{
  Op, subscribes, unsubscribes, pings, run, Inv, new_broker-Inv, run-Inv,
}
use woongkie_talkie.Broker.Delivery.{received_once, ping_recovers, handler_of}
use woongkie_talkie.Broker.Deafness.{hub_start, hub_end, fallback_hub_deaf, late_end_deaf}

-- Two rooms, a loss, a third room that comes meanwhile, and the recovery.
abbrev outage : List Op
outage =
    subscribes "r" 7
    ∷ subscribes "q" 8
    ∷ pings false
    ∷ subscribes "s" 9
    ∷ unsubscribes "q"
    ∷ pings true
    ∷ []

received_once_example :
    let b = run outage (new_broker true) in
    received "s" b ≡ (if is_fallback b then [] else handler_of "s" b)
received_once_example = received_once outage "s"

outage_ends : received "s" (run outage (new_broker true)) ≡ 9 ∷ []
unfolding received run woongkie_talkie.Broker.called_for woongkie_talkie.Broker.listeners monitor
    woongkie_talkie.Broker.unsubscribe woongkie_talkie.Broker.drop_room new_broker lookup
    woongkie_talkie.Broker.subscribe woongkie_talkie.Broker.store_handler
    woongkie_talkie.Broker.open_pubsub woongkie_talkie.Base.insert woongkie_talkie.Base.remove
    woongkie_talkie.Broker.go_down woongkie_talkie.Broker.drop_all
    woongkie_talkie.Broker.resubscribe_all woongkie_talkie.Broker.come_back
outage_ends = refl

ping_recovers_example :
    let b = monitor true (run outage (new_broker true)) in
    (is_fallback b ≡ false) × (publish true b ≡ true) × (received "r" b ≡ 7 ∷ [])
unfolding run lookup monitor woongkie_talkie.Broker.unsubscribe woongkie_talkie.Broker.drop_room
    woongkie_talkie.Broker.subscribe new_broker woongkie_talkie.Broker.store_handler
    woongkie_talkie.Broker.open_pubsub woongkie_talkie.Base.insert woongkie_talkie.Base.remove
    woongkie_talkie.Broker.go_down woongkie_talkie.Broker.drop_all
    woongkie_talkie.Broker.resubscribe_all woongkie_talkie.Broker.come_back
ping_recovers_example = ping_recovers outage "r" 7 true refl

abbrev lost : Broker
lost = run (pings false ∷ []) (new_broker true)

lost-Inv : Inv lost
lost-Inv = run-Inv (pings false ∷ []) (new_broker true) (new_broker-Inv true)

fallback_hub_deaf_example :
    let (started, listens) = hub_start "r" 7 lost in
    let later = monitor true started in
    (listens ≡ false)
    × (is_fallback later ≡ false)
    × (on_broadcast plain_codec connected (chat_message "MSG" "ann" "r" (codes "hi")) trio
        ≡ some (trio, chat_message "MSG" "ann" "r" (codes "hi") ∷ []))
    × (publish true later ≡ true)
    × (received "r" later ≡ [])
unfolding run is_fallback monitor new_broker woongkie_talkie.Broker.go_down
    woongkie_talkie.Broker.drop_all lookup
fallback_hub_deaf_example =
    fallback_hub_deaf plain_codec (chat_message "MSG" "ann" "r" (codes "hi")) "r" 7 lost trio
      (chat_message "MSG" "ann" "r" (codes "hi")) lost-Inv (refl, refl) refl refl refl refl

late_end_deaf_example :
    let (with_first, first_listens) = hub_start "r" 7 (new_broker true) in
    let (with_both, second_listens) = hub_start "r" 8 with_first in
    (first_listens ≡ true)
    × (second_listens ≡ true)
    × (received "r" with_first ≡ 7 ∷ [])
    × (received "r" with_both ≡ 8 ∷ [])
    × (received "r" (hub_end "r" first_listens with_both) ≡ [])
unfolding new_broker is_fallback
late_end_deaf_example =
    late_end_deaf "r" 7 8 (new_broker true) (new_broker-Inv true) (refl, refl) refl
