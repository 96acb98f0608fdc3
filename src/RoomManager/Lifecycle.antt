-- ===== src/RoomManager/Lifecycle.antt =====
-- The manager under operations that run one after the other (server/handler/room_manager.go).
use mathlib.Core.Bool.{false≢true}
use woongkie_talkie.Base.{
  ℕ, ◌<◌, ◌≤◌, ◌≡◌, refl, sym, ap, ◌∙◌, String, true, false, [], ◌∷◌, Option, none, some,
  if◌then◌else◌, eqb, eqb_iff, eqb_ne, length, update, Assoc, lookup, insert, remove, lookup-remove,
  lookup-insert, lookup_head, remove_head, remove_absent, subst, All, All-remove, All-remove_ne,
  lookup-All, arith, inl, inr, Bool-cases, Option-cases, eq_iff, eq_refl,
}
use woongkie_talkie.Hub.{Hub, new_hub}
use woongkie_talkie.Hub.Run.{on_idle}
use woongkie_talkie.RoomManager.{
  RoomManager, start_hub, get_or_create_hub, get_hub, close_stop, remove_hub, close_entries,
  shutdown_all, expire,
}

-- An entry of the map leads to a hub of that room whose stop channel is open.
abbrev pub IsLive : RoomManager → String × ℕ → Type 0
IsLive m (room, i) = ((m.hub i).room_id ≡ room) × ((m.hub i).stopped ≡ false) × (i < m.next)

-- No room has two entries.
abbrev pub OneEach : Assoc ℕ → Type 0
OneEach [] = Unit {0}
OneEach ((room, i) ∷ rest) = (lookup room rest ≡ none) × OneEach rest

pub record Inv (m : RoomManager) : Type 0 where
  pub live : All (IsLive m) m.hubs
  pub one_each : OneEach m.hubs

OneEach-remove : (k : String) (l : Assoc ℕ) → OneEach l → OneEach (remove k l)
unfolding remove
OneEach-remove k [] h = tt
OneEach-remove k ((j, i) ∷ l) h = ground (arith, OneEach-remove k l h.1, lookup-remove k j l)

-- Writing one hub leaves the entries of the others live.
IsLive-update :
    (m : RoomManager) (i : ℕ) (h : Hub) (room : String) (n : ℕ) (l : Assoc ℕ)
    → (m.hub i).room_id ≡ room
    → m.next ≤ n
    → All (IsLive m) l
    → All (IsLive (record m { hub = update m.hub i h; next = n })) (remove room l)
IsLive-update m i h room n l same le live =
    All-remove_ne (IsLive m) _ room l
      (λ j k p other.
        let ne : eqb i k ≡ false = eqb_ne i k (λ e.
          false≢true (
            sym other
            ∙ (eq_iff j room).1 (sym p.0 ∙ ap (λ t. (m.hub t).room_id) (sym e) ∙ same))) in
        (rw ne p.0, rw ne p.1, omega (arith, p.2)))
      live

pub start_hub-Inv : (room : String) (m : RoomManager) → Inv m → Inv (start_hub room m).0
unfolding start_hub insert new_hub
start_hub-Inv room m v = record {
  live = (
    (ground arith, ground arith, omega arith),
    All-remove_ne (IsLive m) _ room m.hubs
        (λ j k p _.
          let ne : eqb m.next k ≡ false = eqb_ne m.next k (omega (arith, p.2)) in
          (rw ne p.0, rw ne p.1, omega (arith, p.2)))
        v.live,
  );
  one_each = (
    lookup-remove room room m.hubs ∙ ground (arith, eq_refl room),
    OneEach-remove room m.hubs v.one_each,
  );
}

pub get_or_create_hub-Inv :
    (room : String) (m : RoomManager) → Inv m → Inv (get_or_create_hub room m).0
unfolding get_or_create_hub
get_or_create_hub-Inv room m v = elim (Option-cases (lookup room m.hubs)) [
  | inl e ↦ rw (e, get_or_create_hub) (start_hub-Inv room m v)
  | inr (i, e) ↦ rw (e, get_or_create_hub) v
]

start_hub-lookup :
    (room : String) (m : RoomManager)
    → lookup room (start_hub room m).0.hubs ≡ some (start_hub room m).1
unfolding start_hub
start_hub-lookup room m = lookup-insert room room m.next m.hubs ∙ ground (arith, eq_refl room)

get_or_create_hub_new :
    (room : String) (m : RoomManager)
    → lookup room m.hubs ≡ none
    → get_or_create_hub room m ≡ start_hub room m
unfolding get_or_create_hub
get_or_create_hub_new room m e = rw (e, get_or_create_hub)

pub get_or_create_hub_old :
    (room : String) (m : RoomManager) (i : ℕ)
    → lookup room m.hubs ≡ some i
    → get_or_create_hub room m ≡ (m, i)
unfolding get_or_create_hub
get_or_create_hub_old room m i e = rw (e, get_or_create_hub)

pub get_or_create_hub-lookup :
    (room : String) (m : RoomManager)
    → lookup room (get_or_create_hub room m).0.hubs ≡ some (get_or_create_hub room m).1
get_or_create_hub-lookup room m = elim (Option-cases (lookup room m.hubs)) [
  | inl e ↦ rw (get_or_create_hub_new room m e) (start_hub-lookup room m)
  | inr (i, e) ↦ rw (get_or_create_hub_old room m i e) e
]

-- The hub that a request gets is the one that the map then holds for the room, and a second request
-- gets the same hub and changes nothing.
get_or_create_hub_stable :
    (room : String) (m : RoomManager)
    → let (m', i) = get_or_create_hub room m in
      (get_hub room m' ≡ some i) × (get_or_create_hub room m' ≡ (m', i))
unfolding get_hub
get_or_create_hub_stable room m =
    let found = get_or_create_hub-lookup room m in (found, get_or_create_hub_old room _ _ found)

-- An operation that does not panic and keeps the invariant.
abbrev pub Ends : Option RoomManager → Type 0
Ends o = (m : RoomManager) × (o ≡ some m) × Inv m

pub remove_hub-Ends : (room : String) (m : RoomManager) → Inv m → Ends (remove_hub room m)
unfolding remove_hub close_stop
remove_hub-Ends room m v = elim (Option-cases (lookup room m.hubs)) [
  | inl e ↦
      rw (e, remove_hub)
        (
          _,
          refl,
          record {
            live = All-remove (IsLive m) room m.hubs v.live;
            one_each = OneEach-remove room m.hubs v.one_each;
          },
        )
  | inr (i, e) ↦
      let p = lookup-All (IsLive m) room i m.hubs v.live e in
      rw (e, remove_hub)
        (rw p.1 (
          _,
          refl,
          record {
            live = IsLive-update m i _ room m.next m.hubs p.0 (omega arith) v.live;
            one_each = OneEach-remove room m.hubs v.one_each;
          },
        ))
]

-- A hub at work keeps its room and its stop channel.
pub works-Inv :
    (m : RoomManager) (i : ℕ) (h : Hub)
    → h.room_id ≡ (m.hub i).room_id
    → h.stopped ≡ (m.hub i).stopped
    → Inv m
    → Inv (record m { hub = update m.hub i h })
works-Inv m i h room stopped v = record { live = go m.hubs v.live; one_each = v.one_each }
  where
    go : (l : Assoc ℕ) → All (IsLive m) l → All (IsLive (record m { hub = update m.hub i h })) l
    go [] a = tt
    go ((r, j) ∷ l) (p, a) = elim (Bool-cases (eqb i j)) [
      | inl same ↦
          let k = (eqb_iff i j).0 same in
          (
            (
              rw same (room ∙ ap (λ t. (m.hub t).room_id) k ∙ p.0),
              rw same (stopped ∙ ap (λ t. (m.hub t).stopped) k ∙ p.1),
              p.2,
            ),
            go l a,
          )
      | inr other ↦ ((rw other p.0, rw other p.1, p.2), go l a)
    ]

pub expire-Ends : (i : ℕ) (m : RoomManager) → (m.hub i).stopped ≡ false → Inv m → Ends (expire i m)
unfolding expire on_idle
expire-Ends i m open_ v = elim (Bool-cases (eqb (length (m.hub i).clients) 0)) [
  | inl empty ↦
      rw (empty, open_)
        (
          _,
          refl,
          record {
            live = IsLive-update m i _ _ m.next m.hubs refl (omega arith) v.live;
            one_each = OneEach-remove _ m.hubs v.one_each;
          },
        )
  | inr more ↦ rw more (_, refl, works-Inv m i (m.hub i) refl refl v)
]

-- The loop of shutdown_all over the entries that are left.
close_entries-Ends :
    (l : Assoc ℕ) (m : RoomManager)
    → m.hubs ≡ l
    → Inv m
    → (m' : RoomManager) × (close_entries l m ≡ some m') × (m'.hubs ≡ []) × Inv m'
unfolding close_entries close_stop
close_entries-Ends [] m e v = (m, refl, e, v)
close_entries-Ends ((room, i) ∷ l) m e v =
    let found = ap (lookup room) e ∙ lookup_head room i l in
    let p = lookup-All (IsLive m) room i m.hubs v.live found in
    let one = subst OneEach e v.one_each in
    rw p.1 (
      close_entries-Ends l _
        (ap (remove room) e ∙ remove_head room i l ∙ remove_absent room l one.0)
        (record {
          live = IsLive-update m i _ room m.next m.hubs p.0 (omega arith) v.live;
          one_each = OneEach-remove room m.hubs v.one_each;
        }))

pub shutdown_all-Ends :
    (m : RoomManager)
    → Inv m
    → (m' : RoomManager) × (shutdown_all m ≡ some m') × (m'.hubs ≡ []) × Inv m'
unfolding shutdown_all
shutdown_all-Ends m v =
    let (m', e, empty, v') = close_entries-Ends m.hubs m refl v in
    (
      record m' { broker_closed = if m'.has_broker then true else m'.broker_closed },
      rw e refl,
      empty,
      record { live = v'.live; one_each = v'.one_each },
    )
