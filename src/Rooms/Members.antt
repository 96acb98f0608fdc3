-- ===== src/Rooms/Members.antt =====
-- pkg/mongoDB/room.go: what every operation keeps true of the members of every room.
use woongkie_talkie.Base.{
  ℕ, ◌≤◌, ◌<◌, ◌≡◌, ◌⊎◌, inl, inr, refl, String, Bool, true, false, not, List, [], ◌∷◌, ◌++◌, eqb,
  length, length-append, length-keep-le, any, keep, ◌==◌, All, arith, Bool-cases, Result-cases,
  eq_comm-false,
}
use woongkie_talkie.Mongo.Laws.{All-update_first, All-delete_first, Wrote-All, Inserted-All}
use woongkie_talkie.Rooms.{
  Room, Database, World, room_schema, has_id, is_member, has_space, add_member, add_to_room,
  pull_member, pass_on, inserted_room, create_room, delete_related, remove_room, delete_room,
  admin_delete_room, join_room, leave_room, object_id,
}
use woongkie_talkie.Rooms.Handlers.{CreateRoomRequest, room_of}

-- No name stands twice.
abbrev pub DistinctNames : List String → Type 0
DistinctNames [] = Unit {0}
DistinctNames (x ∷ xs) = (any (λ m. m == x) xs ≡ false) × DistinctNames xs

-- A room has no member twice, and no more than it may; 0 means that there is no bound.
pub record IsSound (room : Room) : Type 0 where
  pub bounded : (room.max_members ≡ 0) ⊎ (length room.members ≤ room.max_members)
  pub distinct : DistinctNames room.members

any-append_one :
    (x : String) (p : String → Bool) (xs : List String)
    → any p xs ≡ false
    → p x ≡ false
    → any p (xs ++ x ∷ []) ≡ false
any-append_one x p [] a b = ground (arith, b)
any-append_one x p (y ∷ xs) a b = ground (arith, a, b, any-append_one x p xs (ground (arith, a)) b)

any-keep : (p q : String → Bool) (xs : List String) → any p xs ≡ false → any p (keep q xs) ≡ false
any-keep p q [] a = refl
any-keep p q (x ∷ xs) a = ground (arith, a, any-keep p q xs (ground (arith, a)))

DistinctNames-keep :
    (q : String → Bool) (xs : List String) → DistinctNames xs → DistinctNames (keep q xs)
DistinctNames-keep q [] d = tt
DistinctNames-keep q (x ∷ xs) (a, d) = elim (Bool-cases (q x)) [
  | inl stays ↦ rw stays (any-keep _ q xs a, DistinctNames-keep q xs d)
  | inr goes ↦ rw goes (DistinctNames-keep q xs d)
]

DistinctNames-append :
    (x : String) (xs : List String)
    → DistinctNames xs
    → any (λ m. m == x) xs ≡ false
    → DistinctNames (xs ++ x ∷ [])
DistinctNames-append x [] d e = (refl, tt)
DistinctNames-append x (y ∷ xs) (a, d) e = (
  any-append_one x (λ m. m == y) xs a (eq_comm-false y x (ground (arith, e))),
  DistinctNames-append x xs d (ground (arith, e)),
)

pull_member-IsSound :
    (username : String) (room : Room) → IsSound room → IsSound (pull_member username room)
pull_member-IsSound username room v = record {
  bounded = elim v.bounded [
    | inl free ↦ inl free
    | inr le ↦ inr (omega (arith, le, length-keep-le (λ m. not (m == username)) room.members))
  ];
  distinct = DistinctNames-keep _ room.members v.distinct;
}

add_member-IsSound :
    (username : String) (room : Room)
    → has_space room ≡ true
    → IsSound room
    → IsSound (add_member username room)
add_member-IsSound username room space v = elim (Bool-cases (is_member username room)) [
  | inl member ↦ rw member v
  | inr new ↦ rw new (record {
    bounded = elim (Bool-cases (eqb room.max_members 0)) [
      | inl free ↦ inl (ground (arith, free))
      | inr many ↦
          let less : length room.members < room.max_members = ground (arith, space, many) in
          inr (omega (arith, length-append room.members (username ∷ []), less))
    ];
    distinct = DistinctNames-append username room.members v.distinct new;
  })
]

room_of-IsSound :
    (username : String) (req : CreateRoomRequest) (hashed i : String) (now : ℕ)
    → IsSound (record (inserted_room (room_of username req hashed) now) { id = i })
unfolding inserted_room room_of
room_of-IsSound username req hashed i now = record { bounded = ground arith; distinct = (refl, tt) }

module _ (db : Database) where
  -- Every stored room is sound.
  abbrev pub Sound : World db → Type 0
  Sound w = All IsSound (db.rooms.docs w.rooms)

  create_room-Sound :
      (username : String) (req : CreateRoomRequest) (hashed : String) (now : ℕ) (w : World db)
      → Sound w
      → Sound (create_room db (room_of username req hashed) now w).1
  unfolding create_room
  create_room-Sound username req hashed now w v =
      let made = inserted_room (room_of username req hashed) now in
      Inserted-All IsSound room_schema made (db.rooms.docs w.rooms) _ _
        (db.rooms.insert_one_lem made w.rooms) (λ i. room_of-IsSound username req hashed i now) v

  updated-Sound :
      (p : Room → Bool) (f : Room → Room) (w : World db)
      → ((r : Room) → p r ≡ true → IsSound r → IsSound (f r))
      → Sound w
      → All IsSound (db.rooms.docs (db.rooms.update_one p f w.rooms).1)
  updated-Sound p f w h v =
      Wrote-All IsSound _ _ _ _ _ (db.rooms.update_one_lem p f w.rooms) v
        (All-update_first IsSound p f _ h v)

  deleted-Sound :
      (p : Room → Bool) (w : World db)
      → Sound w
      → All IsSound (db.rooms.docs (db.rooms.delete_one p w.rooms).1)
  deleted-Sound p w v =
      Wrote-All IsSound _ _ _ _ _ (db.rooms.delete_one_lem p w.rooms) v
        (All-delete_first IsSound p _ v)

  remove_room-Sound : (id : String) (w : World db) → Sound w → Sound (remove_room db id w).1
  unfolding remove_room delete_related
  remove_room-Sound id w v =
      let p = has_id (object_id db id) in
      let d = deleted-Sound p w v in
      elim (Result-cases (db.rooms.delete_one p w.rooms).0) [
        | inl (n, e) ↦ rw (remove_room, e) d
        | inr (f, e) ↦ rw (remove_room, e) d
      ]

  delete_room-Sound :
      (id username : String) (w : World db) → Sound w → Sound (delete_room db id username w).1
  unfolding delete_room
  delete_room-Sound id username w v = ground (arith, remove_room-Sound id w v)

  admin_delete_room-Sound :
      (id : String) (w : World db) → Sound w → Sound (admin_delete_room db id w).1
  unfolding admin_delete_room
  admin_delete_room-Sound id w v = ground (arith, remove_room-Sound id w v)

  add_to_room-Sound :
      (oid username : String) (w : World db) → Sound w → Sound (add_to_room db oid username w).1
  unfolding add_to_room
  add_to_room-Sound oid username w v =
      updated-Sound _ (add_member username) w
        (λ r e s. add_member-IsSound username r (ground (arith, e)) s) v

  join_room-Sound :
      (id username : String) (w : World db) → Sound w → Sound (join_room db id username w).1
  unfolding join_room
  join_room-Sound id username w v = grind (arith, v, add_to_room-Sound)

  pass_on-Sound :
      (id oid : String) (left : List String) (w : World db)
      → Sound w
      → Sound (pass_on db id oid left w)
  unfolding pass_on delete_related
  pass_on-Sound id oid [] w v = deleted-Sound (has_id oid) w v
  pass_on-Sound id oid (new_owner ∷ _) w v =
      updated-Sound (has_id oid) (λ r. record r { created_by = new_owner }) w
        (λ r e s. record { bounded = s.bounded; distinct = s.distinct }) v

  pulled-Sound :
      (oid username : String) (w : World db)
      → Sound w
      → All IsSound
          (db.rooms.docs (db.rooms.update_one (has_id oid) (pull_member username) w.rooms).1)
  pulled-Sound oid username w v =
      updated-Sound (has_id oid) (pull_member username) w
        (λ r e s. pull_member-IsSound username r s) v

  leave_room-Sound :
      (id username : String) (w : World db) → Sound w → Sound (leave_room db id username w).1
  unfolding leave_room
  leave_room-Sound id username w v = grind (arith, v, pulled-Sound, pass_on-Sound)

-- The operations on rooms: rooms are created as CreateRoomHandler asks for them.
pub data Op : Type 0 where
  creates : String → CreateRoomRequest → String → ℕ → Op
  joins leaves deletes : String → String → Op
  admin_deletes : String → Op

module _ (db : Database) where
  abbrev pub apply : Op → World db → World db
  apply (creates username req hashed now) w = (create_room db (room_of username req hashed) now w).1
  apply (joins id username) w = (join_room db id username w).1
  apply (leaves id username) w = (leave_room db id username w).1
  apply (deletes id username) w = (delete_room db id username w).1
  apply (admin_deletes id) w = (admin_delete_room db id w).1

  unfoldable pub run : List Op → World db → World db
  run [] w = w
  run (op ∷ ops) w = run ops (apply op w)

  apply-Sound : (op : Op) (w : World db) → Sound db w → Sound db (apply op w)
  apply-Sound (creates username req hashed now) w v =
      create_room-Sound db username req hashed now w v
  apply-Sound (joins id username) w v = join_room-Sound db id username w v
  apply-Sound (leaves id username) w v = leave_room-Sound db id username w v
  apply-Sound (deletes id username) w v = delete_room-Sound db id username w v
  apply-Sound (admin_deletes id) w v = admin_delete_room-Sound db id w v

-- Whatever is created, joined, left and deleted in whatever order, and whichever calls of the
-- database fail, with or without having written: if no stored room had a member twice or more
-- members than it may, none has in the end.
pub run-Sound :
    (db : Database) (ops : List Op) (w : World db) → Sound db w → Sound db (run db ops w)
unfolding run
run-Sound db [] w v = v
run-Sound db (op ∷ ops) w v = run-Sound db ops (apply db op w) (apply-Sound db op w v)
