-- ===== src/Rooms/Joining.antt =====
-- pkg/mongoDB/room.go, JoinRoom and server/handler/room.go, JoinRoomHandler: what an answer means.
use woongkie_talkie.Base.{
  ℕ, ◌≡◌, ◌⊎◌, inl, inr, refl, String, Bool, true, false, ◌&&◌, List, [], ◌∷◌, ◌++◌, Option, none,
  some, any, keep, length, ltb, ◌==◌, Result, ok, err, arith, Bool-cases, eq_refl,
}
use woongkie_talkie.Mongo.{update_first, failure}
use woongkie_talkie.Rooms.{
  Room, Database, World, Error, room_full, database, has_id, has_space, add_member, is_member,
  find_room_by_id, join_room, add_to_room, check_room_password,
}
use woongkie_talkie.Rooms.Handlers.{refusal, join_room_handler}

-- Is the user a member of a room with that id?
abbrev pub holds : String → String → List Room → Bool
holds oid username = any λ r. has_id oid r && is_member username r

-- Has a room with that id space left?
abbrev pub any_space : String → List Room → Bool
any_space oid = any λ r. has_id oid r && has_space r

any-keep-length :
    (p : Room → Bool) (rs : List Room) → ltb 0 (length (keep p rs)) ≡ true → any p rs ≡ true
any-keep-length p [] e = ground (arith, e)
any-keep-length p (r ∷ rs) e = ground (arith, e, any-keep-length p rs)

any-append_self : (x : String) (xs : List String) → any (λ m. m == x) (xs ++ x ∷ []) ≡ true
any-append_self x [] = ground (arith, eq_refl x)
any-append_self x (y ∷ xs) = ground (arith, any-append_self x xs)

add_member-is_member :
    (username : String) (room : Room) → is_member username (add_member username room) ≡ true
add_member-is_member username room = elim (Bool-cases (is_member username room)) [
  | inl member ↦ rw member member
  | inr new ↦ rw new (any-append_self username room.members)
]

add_member_id : (username : String) (room : Room) → (add_member username room).id ≡ room.id
add_member_id username room = ground arith

update_first-holds :
    (oid username : String) (rs : List Room)
    → any_space oid rs ≡ true
    → holds oid username (update_first (λ r. has_id oid r && has_space r) (add_member username) rs)
      ≡ true
update_first-holds oid username [] e = cc e
update_first-holds oid username (r ∷ rs) e = elim (Bool-cases (has_id oid r && has_space r)) [
  | inl hit ↦
      rw hit (ground (arith, hit, add_member_id username r, add_member-is_member username r))
  | inr miss ↦ rw miss (ground (arith, e, miss, update_first-holds oid username rs))
]

module _ (db : Database) (oid username : String) where
  -- What an answer of join_room says of the rooms before and after.
  abbrev pub JoinOutcome : World db → Result Error (Unit {0}) × World db → Type 0
  JoinOutcome w (reply, w') =
      ((reply ≡ ok tt) × (holds oid username (db.rooms.docs w'.rooms) ≡ true))
      ⊎ ((reply ≡ err room_full)
          × (any_space oid (db.rooms.docs w.rooms) ≡ false)
          × (db.rooms.docs w'.rooms ≡ db.rooms.docs w.rooms))
      ⊎ (reply ≡ err (database failure))

  update_first-none :
      (p : Room → Bool) (f : Room → Room) (rs : List Room)
      → any p rs ≡ false
      → update_first p f rs ≡ rs
  update_first-none p f [] e = refl
  update_first-none p f (r ∷ rs) e = ground (arith, e, update_first-none p f rs)

  add_to_room_lem : (w : World db) → JoinOutcome w (add_to_room db oid username w)
  unfolding add_to_room
  add_to_room_lem w =
      let p : Room → Bool = λ r. has_id oid r && has_space r in
      let docs = db.rooms.docs w.rooms in
      elim (db.rooms.update_one_lem p (add_member username) w.rooms) [
        | inr (e, now) ↦ rw (add_to_room, e) (inr (inr refl))
        | inl (e, now) ↦ elim (Bool-cases (any p docs)) [
          | inl space ↦
              rw (add_to_room, e, now, space)
                (inl (refl, update_first-holds oid username docs space))
          | inr none_left ↦
              rw (add_to_room, e, now, none_left)
                (inr (inl (refl, refl, update_first-none p (add_member username) docs none_left)))
        ]
      ]

-- If the id is well formed, join_room ends in one of three ways: with success, and the user is a
-- member of a room with that id; with the answer that the room is full, when no room with that id
-- has space, and nothing is changed; or with a failure of the database.
pub join_room_lem :
    (db : Database) (id oid username : String) (w : World db)
    → db.from_hex id ≡ some oid
    → JoinOutcome db oid username w (join_room db id username w)
unfolding join_room
join_room_lem db id oid username w good =
    let p : Room → Bool = λ r. has_id oid r && is_member username r in
    let docs = db.rooms.docs w.rooms in
    elim (db.rooms.count_lem p w.rooms) [
      | inl failed ↦ rw (join_room, good, failed) (inr (inr refl))
      | inr counted ↦ elim (Bool-cases (ltb 0 (length (keep p docs)))) [
        | inl member ↦
            rw (join_room, good, counted, member) (inl (refl, any-keep-length p docs member))
        | inr new ↦ rw (join_room, good, counted, new) (add_to_room_lem db oid username w)
      ]
    ]

-- A request that does not open a room: no readable body, no password, or a wrong one.
abbrev pub WrongPassword : Database → Room → Option String → Type 0
WrongPassword db room request =
    (request ≡ none)
    ⊎ (request ≡ some "")
    ⊎ ((password : String) × (request ≡ some password)
        × (db.compare room.password password ≡ false))

-- Whoever asks to join a private room with a password and does not give that password is refused,
-- and nothing changes.
join_room_handler_guarded :
    (db : Database) (id username : String) (request : Option String) (room : Room) (w : World db)
    → find_room_by_id db id w ≡ ok room
    → room.is_public ≡ false
    → (room.password == "") ≡ false
    → WrongPassword db room request
    → (status : ℕ) × (text : String) × (join_room_handler db id username request w
        ≡ (refusal status text, w))
unfolding join_room_handler check_room_password
join_room_handler_guarded db id username request room w e private locked (inl unread) =
    rw (join_room_handler, e, private, locked, unread) (400, "잘못된 요청입니다", refl)
join_room_handler_guarded db id username request room w e private locked (inr (inl empty)) =
    rw (join_room_handler, e, private, locked, empty) (403, "비밀번호가 필요합니다", refl)
join_room_handler_guarded db id username request room w e private locked
      (inr (inr (password, given, wrong))) =
    elim (Bool-cases (password == "")) [
      | inl empty ↦
          rw (join_room_handler, e, private, locked, given, empty) (403, "비밀번호가 필요합니다", refl)
      | inr other ↦
          rw
            (
              join_room_handler, e, private, locked, given, other, check_room_password, locked,
              wrong,
            )
            (403, "비밀번호가 올바르지 않습니다", refl)
    ]
