-- ===== src/RoomManager/Races.antt =====
-- Interleavings of RemoveHub, GetOrCreateHub and the idle timer of Hub.Run
-- (server/handler/room_manager.go, server/handler/hub.go).
use woongkie_talkie.Base.{
  ℕ, ◌≡◌, refl, ◌∙◌, subst, String, true, none, some, eqb, eqb_refl, length, lookup, lookup-remove,
  lookup-All, arith, eq_refl,
}
use woongkie_talkie.Hub.Run.{on_idle}
use woongkie_talkie.RoomManager.{
  RoomManager, get_or_create_hub, get_hub, close_stop, take_hub, close_taken, expire,
}
use woongkie_talkie.RoomManager.Lifecycle.{
  Inv, IsLive, get_or_create_hub-lookup, get_or_create_hub-Inv,
}

-- remove_hub takes an empty hub out of the map and closes its stop channel after it has released the
-- lock. If the idle timer of that hub fires in between, the channel is closed twice, which panics.
pub remove_idle_race :
    (room : String) (i : ℕ) (m : RoomManager)
    → Inv m
    → lookup room m.hubs ≡ some i
    → eqb (length (m.hub i).clients) 0 ≡ true
    → let (taken, hub) = take_hub room m in
      (m' : RoomManager) × (expire i taken ≡ some m') × (close_taken hub m' ≡ none)
unfolding take_hub close_taken close_stop expire on_idle
remove_idle_race room i m v e empty =
    let p = lookup-All (IsLive m) room i m.hubs v.live e in
    rw e (rw (empty, p.1) (_, refl, ground (arith, eqb_refl i)))

-- A request gets a hub for the room, and no client has registered yet. If the idle timer fires now,
-- the hub that the request holds is stopped and is no longer the room's: its loop has returned, and
-- nobody will receive the registration.
idle_after_get :
    (room : String) (m m' : RoomManager) (i : ℕ)
    → Inv m
    → get_or_create_hub room m ≡ (m', i)
    → eqb (length (m'.hub i).clients) 0 ≡ true
    → (m'' : RoomManager) × (expire i m' ≡ some m'')
      × ((m''.hub i).stopped ≡ true)
      × (get_hub room m'' ≡ none)
unfolding expire on_idle get_hub
idle_after_get room m m' i v e empty =
    let v' : Inv m' = subst (λ r. Inv r.0) e (get_or_create_hub-Inv room m v) in
    let found : lookup room m'.hubs ≡ some i =
      subst (λ r. lookup room r.0.hubs ≡ some r.1) e (get_or_create_hub-lookup room m) in
    let p = lookup-All (IsLive m') room i m'.hubs v'.live found in
    rw (empty, p.1)
      (
        _,
        refl,
        ground (arith, eqb_refl i),
        lookup-remove (m'.hub i).room_id room m'.hubs ∙ ground (arith, p.0, eq_refl room),
      )
