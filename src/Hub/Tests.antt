-- ===== src/Hub/Tests.antt =====
-- Small hubs: the theorems at concrete inputs, and runs of the operations.
use mathlib.Core.List.{Memᴰ}
use woongkie_talkie.Base.{
  ℕ, zero, suc, ◌≡◌, ◌⊎◌, refl, String, true, false, List, [], ◌∷◌, some, elem, eqb, if◌then◌else◌,
  ◌&&◌, ◌==◌,
}
use woongkie_talkie.Chat.{ChatMessage, chat_message, codes}
use woongkie_talkie.Hub.{
  Client, Hub, broadcast_local, set_offline, clear_typing, PresenceCall, send_capacity, is_typing,
}
use woongkie_talkie.Hub.Delivery.{is_slow, skips}
use woongkie_talkie.Hub.Broadcast.{IsValid, IsBroadcast, broadcast_local-IsBroadcast}
use woongkie_talkie.Hub.Departures.{IsWithout}
use woongkie_talkie.Hub.Presence.{unregister_cases, announce_lost, evicted_marks_offline}
use woongkie_talkie.Hub.Rounds
use woongkie_talkie.Hub.Rounds.{round, pump, run, run-IsValid}
use woongkie_talkie.Hub.Run.{
  Codec, connected, fallback, registered, unregistered, broadcast, idle, unregister, on_broadcast,
  on_redis,
}

abbrev pub client_of : String → List ChatMessage → Client
client_of name buffer = record {
  username = name;
  room_id = "r";
  send = buffer;
  closed = false;
  has_conn = true;
  conn_closed = false;
}

abbrev pub hello : ChatMessage
hello = chat_message "MSG" "ann" "r" (codes "hi")

-- A buffer with no room left.
abbrev pub copies : ℕ → List ChatMessage
copies = elim [ zero ↦ [] | suc (n → rest) ↦ hello ∷ rest ]

-- ann twice, with clients 0 and 1, and bob with client 2.
abbrev pub store : ℕ → Client
store i = if eqb i 2 then client_of "bob" [] else client_of "ann" []

abbrev pub trio : Hub
trio = record {
  room_id = "r";
  clients = 0 ∷ 1 ∷ 2 ∷ [];
  client = store;
  stopped = false;
  redis_up = true;
  presence = [];
  active_connections = 3;
  has_broker = true;
}

trio-IsValid : IsValid trio
trio-IsValid = record { distinct = (refl, (refl, (refl, tt))); open_ = (refl, (refl, (refl, tt))) }

broadcast_local-IsBroadcast_example :
    (h' : Hub) × (broadcast_local hello trio ≡ some h') × IsBroadcast hello trio h' × IsValid h'
broadcast_local-IsBroadcast_example = broadcast_local-IsBroadcast hello trio trio-IsValid

unregister_cases_example :
    (rest : Hub) × IsWithout 0 trio rest
    × (((unregister 0 trio ≡ some rest)
          × ((j : ℕ) × (elem j rest.clients ≡ true) × ((rest.client j).username ≡ "ann")))
        ⊎ (((j : ℕ) → (elem j rest.clients && (rest.client j).username == "ann") ≡ false)
            × ((h' : Hub) × (unregister 0 trio ≡ some h')
                × IsBroadcast (chat_message "PRESENCE" "ann" "r" (codes "offline")) rest h'
                × ((more : List PresenceCall) × (h'.presence
                      ≡ set_offline "r" "ann" ∷ clear_typing "r" "ann" ∷ more)))))
unregister_cases_example = unregister_cases 0 trio trio-IsValid

-- A codec that is exact.
abbrev pub plain_codec : Codec
plain_codec = record { Data = ChatMessage; marshal = λ m. some m; unmarshal = λ m. some m }

abbrev notice : ChatMessage
notice = chat_message "ANNOUNCE" "system" "r" (codes "[공지] x")

announce_lost_example :
    (on_broadcast plain_codec connected notice trio ≡ some (trio, notice ∷ []))
    × (on_redis plain_codec notice trio ≡ some trio)
announce_lost_example = announce_lost plain_codec notice notice trio trio refl refl refl refl

-- Client 0 of ann is full, client 1 is not.
abbrev pub jammed : Hub
jammed = record trio {
  client = λ i. if eqb i 0 then client_of "ann" (copies send_capacity) else store i;
}

pub jammed-IsValid : IsValid jammed
jammed-IsValid = record {
  distinct = (refl, (refl, (refl, tt)));
  open_ = (refl, (refl, (refl, tt)));
}

evicted_marks_offline_example :
    (h' : Hub) × (broadcast_local hello jammed ≡ some h')
    × (elem 0 h'.clients ≡ false)
    × ((h'.client 0).closed ≡ true)
    × (elem 1 h'.clients ≡ true)
    × ((h'.client 1).closed ≡ false)
    × ((h'.client 1).username ≡ "ann")
    × ((more : List PresenceCall) × (h'.presence ≡ more) × Memᴰ (set_offline "r" "ann") more)
unfolding is_slow skips is_typing
evicted_marks_offline_example =
    evicted_marks_offline hello jammed 0 1 jammed-IsValid refl refl refl refl refl refl

abbrev pub empty_hub : Hub
empty_hub = record {
  room_id = "r";
  clients = [];
  client = store;
  stopped = false;
  redis_up = true;
  presence = [];
  active_connections = 0;
  has_broker = false;
}

abbrev session : List (Rounds.Act plain_codec)
session =
    round (registered 0)
    ∷ round (registered 2)
    ∷ pump 0
    ∷ round (broadcast fallback hello)
    ∷ round (unregistered 0)
    ∷ round idle
    ∷ []

run-IsValid_example :
    (after : Hub) × (run plain_codec session empty_hub ≡ some after) × IsValid after
run-IsValid_example =
    run-IsValid plain_codec session empty_hub (record { distinct = tt; open_ = tt }) refl
      (refl, (refl, tt)) (((refl, refl)), ((refl, refl), tt))
