-- ===== src/RoomManager/Tests.antt =====
-- Small managers: the theorems at concrete inputs.
use woongkie_talkie.Base.{◌⊎◌, ◌++◌, ◌≡◌, refl, false, List, [], ◌∷◌, some, none, lookup, arith}
use woongkie_talkie.RoomManager.{RoomManager, take_hub, close_taken, expire}
use woongkie_talkie.RoomManager.Lifecycle.{Inv}
use woongkie_talkie.RoomManager.Histories.{
  Op, gets, removes, expires, works, shuts_down, run, IsLateIdle, run-Inv,
}
use woongkie_talkie.RoomManager.Races.{remove_idle_race}
use woongkie_talkie.Hub.Tests.{empty_hub}

abbrev pub start : RoomManager
start = record {
  hubs = [];
  hub = λ _. empty_hub;
  next = 0;
  has_broker = false;
  broker_closed = false;
  client = empty_hub.client;
  redis_up = false;
}

-- One hub, with no client, for the room "r".
abbrev one_room : RoomManager
one_room = record start { hubs = ("r", 4) ∷ []; next = 5 }

start-Inv : Inv start
start-Inv = record { live = tt; one_each = tt }

one_room-Inv : Inv one_room
unfolding lookup
one_room-Inv = record { live = ((refl, refl, omega arith), tt); one_each = (refl, tt) }

abbrev history : List Op
history = gets "r" ∷ gets "s" ∷ works 1 (λ h. h) ∷ expires 0 ∷ removes "s" ∷ shuts_down ∷ []

run-Inv_example :
    ((m : RoomManager) × (run history start ≡ some m) × Inv m)
    ⊎ ((before after : List Op) × (op : Op) × (m : RoomManager) × (history ≡ before ++ op ∷ after)
        × (run before start ≡ some m)
        × Inv m
        × IsLateIdle op m
        × (run history start ≡ none))
run-Inv_example =
    run-Inv history start (tt, (tt, ((λ h. (refl, refl)), (tt, (tt, (tt, tt)))))) start-Inv

-- The hub of the room is taken out, and its timer fires before it sees that it is to stop.
late_idle : run (gets "r" ∷ removes "r" ∷ expires 0 ∷ []) start ≡ none
unfolding run woongkie_talkie.RoomManager.Histories.step woongkie_talkie.RoomManager.remove_hub
    lookup woongkie_talkie.RoomManager.get_or_create_hub woongkie_talkie.RoomManager.start_hub
    woongkie_talkie.Base.insert woongkie_talkie.RoomManager.close_stop woongkie_talkie.Hub.new_hub
    expire woongkie_talkie.Hub.Run.on_idle
late_idle = refl

remove_idle_race_example :
    (m : RoomManager) × (expire 4 (take_hub "r" one_room).0 ≡ some m)
    × (close_taken (take_hub "r" one_room).1 m ≡ none)
unfolding lookup
remove_idle_race_example = remove_idle_race "r" 4 one_room one_room-Inv refl refl
