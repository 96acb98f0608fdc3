-- ===== src/RoomManager.antt =====
-- server/handler/room_manager.go, and the idle case of Hub.Run (server/handler/hub.go), which takes
-- the manager's lock. A hub is an address in the store `hub`; each operation below is one critical
-- section of `mu`, or one close of a stop channel outside it. A second close of a channel panics.
pub mod Lifecycle
pub mod Histories
pub mod Races
pub mod Tests
use woongkie_talkie.Base.{
  ℕ, ◌+◌, String, Bool, true, false, List, [], ◌∷◌, Option, none, some, if◌then◌else◌, eqb, length,
  update, Assoc, lookup, insert, remove, ◌>>=◌,
}
use woongkie_talkie.Hub.{Client, Hub, new_hub, get_member_names}
use woongkie_talkie.Hub.Run.{Status, on_idle, looping, returned, unlisted}

pub record RoomManager : Type 0 where
  pub hubs : Assoc ℕ
  pub hub : ℕ → Hub
  pub next : ℕ
  pub has_broker : Bool
  pub broker_closed : Bool
  -- the world that new hubs see: the clients and Redis's availability
  pub client : ℕ → Client
  pub redis_up : Bool

unfoldable pub set_broker : RoomManager → RoomManager
set_broker m = record m { has_broker = true }

-- The manager with a new hub for the room, whose Run starts.
unfoldable pub start_hub : String → RoomManager → RoomManager × ℕ
start_hub room m = (
  record m {
    hubs = insert room m.next m.hubs;
    hub = update m.hub m.next (new_hub room m.client m.redis_up m.has_broker);
    next = m.next + 1;
  },
  m.next,
)

unfoldable pub get_or_create_hub : String → RoomManager → RoomManager × ℕ
get_or_create_hub room m = elim (lookup room m.hubs) [ some i ↦ (m, i) | none ↦ start_hub room m ]

unfoldable pub get_hub : String → RoomManager → Option ℕ
get_hub room m = lookup room m.hubs

-- close(hub.stop)
unfoldable pub close_stop : ℕ → RoomManager → Option RoomManager
close_stop i m =
    if (m.hub i).stopped
    then none
    else some (record m { hub = update m.hub i (record (m.hub i) { stopped = true }) })

-- The critical section of RemoveHub: the hub leaves the map.
unfoldable pub take_hub : String → RoomManager → RoomManager × Option ℕ
take_hub room m = (record m { hubs = remove room m.hubs }, lookup room m.hubs)

unfoldable pub close_taken : Option ℕ → RoomManager → Option RoomManager
close_taken none m = some m
close_taken (some i) m = close_stop i m

unfoldable pub remove_hub : String → RoomManager → Option RoomManager
unfolding take_hub close_taken
remove_hub room m = let (m', taken) = take_hub room m in close_taken taken m'

-- The loop of ShutdownAll over the entries of the map.
unfoldable pub close_entries : Assoc ℕ → RoomManager → Option RoomManager
close_entries [] m = some m
close_entries ((room, i) ∷ rest) m = do
  m' ← close_stop i m
  close_entries rest (record m' { hubs = remove room m'.hubs })

unfoldable pub shutdown_all : RoomManager → Option RoomManager
shutdown_all m = do
  m' ← close_entries m.hubs m
  some (record m' { broker_closed = if m'.has_broker then true else m'.broker_closed })

-- The idle timer of hub `i` fires: an empty hub deletes its room's entry and closes its stop channel.
unfoldable pub expire : ℕ → RoomManager → Option RoomManager
expire i m = do
  (h, status) ← on_idle (m.hub i)
  let m' = record m { hub = update m.hub i h }
  some (elim status [ unlisted ↦ record m' { hubs = remove h.room_id m.hubs } | _ ↦ m' ])

unfoldable pub get_online_members : String → RoomManager → List String
get_online_members room m = elim (get_hub room m) [
  | none ↦ []
  | some i ↦ get_member_names (m.hub i)
]
