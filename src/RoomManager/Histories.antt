-- ===== src/RoomManager/Histories.antt =====
-- The manager over sequences of operations that run one after the other
-- (server/handler/room_manager.go), with the idle case of Hub.Run (server/handler/hub.go).
use woongkie_talkie.Base.{
  ℕ, ◌≡◌, ◌⊎◌, inl, inr, refl, ap, String, true, List, [], ◌∷◌, ◌++◌, Option, none, some, update,
  eqb, length, All, ◌>>=◌, Bool-cases,
}
use woongkie_talkie.Hub.{Hub}
use woongkie_talkie.Hub.Run.{on_idle}
use woongkie_talkie.RoomManager.{
  RoomManager, set_broker, get_or_create_hub, remove_hub, shutdown_all, expire,
}
use woongkie_talkie.RoomManager.Lifecycle.{
  Inv, Ends, get_or_create_hub-Inv, remove_hub-Ends, works-Inv, expire-Ends, shutdown_all-Ends,
}

-- What the server does with the manager, one critical section after the other. The idle timer may
-- fire in any hub, also in one that has left the map and has not yet seen that its stop channel is
-- closed, and so may any other case of Hub.Run be taken in it.
pub data Op : Type 0 where
  gets removes : String → Op
  expires : ℕ → Op
  works : ℕ → (Hub → Hub) → Op
  sets_broker shuts_down : Op

-- A hub's work between two operations leaves its room and its stop channel alone.
abbrev pub IsWork : Op → Type 0
IsWork (works i f) = (h : Hub) → ((f h).room_id ≡ h.room_id) × ((f h).stopped ≡ h.stopped)
IsWork _ = Unit {0}

unfoldable pub step : Op → RoomManager → Option RoomManager
step (gets room) m = some (get_or_create_hub room m).0
step (removes room) m = remove_hub room m
step (expires i) m = expire i m
step (works i f) m = some (record m { hub = update m.hub i (f (m.hub i)) })
step sets_broker m = some (set_broker m)
step shuts_down m = shutdown_all m

unfoldable pub run : List Op → RoomManager → Option RoomManager
run [] m = some m
run (op ∷ ops) m = step op m >>= run ops

-- The idle case in an empty hub whose stop channel is closed already.
abbrev pub IsLateIdle : Op → RoomManager → Type 0
IsLateIdle op m =
    (i : ℕ) × (op ≡ expires i)
    × ((m.hub i).stopped ≡ true)
    × (eqb (length (m.hub i).clients) 0 ≡ true)

step_cases :
    (op : Op) (m : RoomManager)
    → IsWork op
    → Inv m
    → Ends (step op m) ⊎ (IsLateIdle op m × (step op m ≡ none))
unfolding step set_broker expire on_idle
step_cases (gets room) m w v = inl (_, refl, get_or_create_hub-Inv room m v)
step_cases (removes room) m w v = inl (remove_hub-Ends room m v)
step_cases (works i f) m w v = inl (_, refl, works-Inv m i _ (w (m.hub i)).0 (w (m.hub i)).1 v)
step_cases sets_broker m w v = inl (_, refl, record { live = v.live; one_each = v.one_each })
step_cases shuts_down m w v = let (m', e, _, v') = shutdown_all-Ends m v in inl (m', e, v')
step_cases (expires i) m w v = elim (Bool-cases (m.hub i).stopped) [
  | inr open_ ↦ inl (expire-Ends i m open_ v)
  | inl closed ↦ elim (Bool-cases (eqb (length (m.hub i).clients) 0)) [
    | inl empty ↦ inr ((i, refl, closed, empty), rw (empty, closed) refl)
    | inr more ↦ inl (rw more (_, refl, works-Inv m i (m.hub i) refl refl v))
  ]
]

-- While the critical sections of the manager and the closes that follow them are not interleaved, a
-- sequence of its operations panics at most where the idle timer of an empty hub fires whose stop
-- channel is closed already, and there it does. Just before that, or in the end where this does not
-- happen, every entry of the map leads to an open hub of its room, one for each room.
pub run-Inv :
    (ops : List Op) (m : RoomManager)
    → All IsWork ops
    → Inv m
    → ((m' : RoomManager) × (run ops m ≡ some m') × Inv m')
      ⊎ ((before after : List Op) × (op : Op) × (m1 : RoomManager) × (ops ≡ before ++ op ∷ after)
          × (run before m ≡ some m1)
          × Inv m1
          × IsLateIdle op m1
          × (run ops m ≡ none))
unfolding run
run-Inv [] m w v = inl (m, refl, v)
run-Inv (op ∷ ops) m w v = elim (step_cases op m w.0 v) [
  | inr (late, panics) ↦ inr ([], ops, op, m, refl, refl, v, late, rw panics refl)
  | inl (m', e, v') ↦ elim (run-Inv ops m' w.1 v') [
    | inl (m'', e', v'') ↦ inl (m'', rw e e', v'')
    | inr (before, after, op', m1, split, e', v1, late, panics) ↦
        inr (op ∷ before, after, op', m1, ap (◌∷◌ op) split, rw e e', v1, late, rw e panics)
  ]
]
