-- ===== src/Rooms/Ownership.antt =====
-- pkg/mongoDB/room.go, LeaveRoom: a room stays in the hands of one of its members.
use woongkie_talkie.Base.{
  ℕ, ◌≡◌, ◌≢◌, ◌⊎◌, inl, inr, refl, sym, ap, subst, ◌∙◌, String, Bool, true, false, not, ◌&&◌, ◌||◌,
  List, [], ◌∷◌, ◌++◌, some, any, find, ◌==◌, All, err, arith, Bool-cases, Option-cases,
  Result-cases, eq_iff, eq_refl, eq_comm-false,
}
use woongkie_talkie.Mongo.{Wrote, update_first, delete_first, failure, Reply, Fault}
use woongkie_talkie.Mongo.Laws.{
  All-update_first, All-update_found, All-delete_first, Inserted-All, Wrote-All,
  update_first-update_first, delete_first-update_first, find-All,
}
use woongkie_talkie.Rooms.{
  Room, Database, World, room_schema, has_id, is_member, add_member, pull_member, inserted_room,
  without, find_room_by_id, object_id, create_room, delete_related, remove_room, delete_room,
  admin_delete_room, join_room, add_to_room, leave_room, pass_on,
}
use woongkie_talkie.Rooms.Handlers.{room_of, CreateRoomRequest}
use woongkie_talkie.Rooms.Members.{Op, creates, joins, leaves, deletes, admin_deletes, apply, run}
use woongkie_talkie.Rooms.Deletion.{find_room_by_id-find}

-- The default room is the system's; any other belongs to one of its members.
abbrev pub IsOwned : Room → Type 0
IsOwned room = (room.is_default ≡ true) ⊎ (is_member room.created_by room ≡ true)

-- The writes of this database never fail.
abbrev pub Reliable : Database → Type 0
Reliable db =
    ((p : Room → Bool) (f : Room → Room) (s : db.rooms.State)
      → (db.rooms.update_one p f s).0 ≢ err failure)
    × ((p : Room → Bool) (s : db.rooms.State) → (db.rooms.delete_one p s).0 ≢ err failure)

Wrote-done :
    {A : Type 0} (old new now : List Room) (n : A) (r : Reply A)
    → Wrote old new n r now
    → r ≢ err failure
    → now ≡ new
Wrote-done old new now n r (inl (e, w)) h = w
Wrote-done old new now n r (inr (e, w)) h = absurd (h e)

any-append : (p : String → Bool) (xs ys : List String) → any p (xs ++ ys) ≡ any p xs || any p ys
any-append p [] ys = refl
any-append p (x ∷ xs) ys = ground (arith, any-append p xs ys)

add_member-IsOwned :
    (username : String) (room : Room) → IsOwned room → IsOwned (add_member username room)
add_member-IsOwned username room v =
    ground (arith, v, any-append (λ m. m == room.created_by) room.members (username ∷ []))

-- Whoever does not leave stays.
any-without :
    (owner username : String) (xs : List String)
    → (owner == username) ≡ false
    → any (λ m. m == owner) (without username xs) ≡ any (λ m. m == owner) xs
any-without owner username [] other = refl
any-without owner username (x ∷ xs) other = elim (Bool-cases (x == username)) [
  | inr stays ↦ rw stays (ap (◌||◌ (x == owner)) (any-without owner username xs other))
  | inl goes ↦ rw goes (
      any-without owner username xs other
      ∙ sym (
          ap (λ b. b || any (λ m. m == owner) xs)
            (subst (λ y. (y == owner) ≡ false) (sym ((eq_iff x username).0 goes))
              (eq_comm-false owner username other))))
]

pull_member-IsOwned :
    (username : String) (room : Room)
    → (room.created_by == username && not room.is_default) ≡ false
    → IsOwned room
    → IsOwned (pull_member username room)
pull_member-IsOwned username room other v =
    ground (arith, other, v, any-without room.created_by username room.members)

module _ (db : Database) where
  abbrev pub Owned : World db → Type 0
  Owned w = All IsOwned (db.rooms.docs w.rooms)

  room_of-IsOwned :
      (username : String) (req : CreateRoomRequest) (hashed i : String) (now : ℕ)
      → IsOwned (record (inserted_room (room_of username req hashed) now) { id = i })
  unfolding inserted_room room_of
  room_of-IsOwned username req hashed i now = inr (ground (arith, eq_refl username))

  create_room-Owned :
      (username : String) (req : CreateRoomRequest) (hashed : String) (now : ℕ) (w : World db)
      → Owned w
      → Owned (create_room db (room_of username req hashed) now w).1
  unfolding create_room
  create_room-Owned username req hashed now w v =
      let made = inserted_room (room_of username req hashed) now in
      Inserted-All IsOwned room_schema made (db.rooms.docs w.rooms) _ _
        (db.rooms.insert_one_lem made w.rooms) (λ i. room_of-IsOwned username req hashed i now) v

  remove_room-Owned : (id : String) (w : World db) → Owned w → Owned (remove_room db id w).1
  unfolding remove_room delete_related
  remove_room-Owned id w v =
      let p = has_id (object_id db id) in
      let d =
        Wrote-All IsOwned _ _ _ _ _ (db.rooms.delete_one_lem p w.rooms) v
          (All-delete_first IsOwned p _ v) in
      elim (Result-cases (db.rooms.delete_one p w.rooms).0) [
        | inl (n, e) ↦ rw (remove_room, e) d
        | inr (f, e) ↦ rw (remove_room, e) d
      ]

  delete_room-Owned :
      (id username : String) (w : World db) → Owned w → Owned (delete_room db id username w).1
  unfolding delete_room
  delete_room-Owned id username w v = ground (arith, remove_room-Owned id w v)

  admin_delete_room-Owned :
      (id : String) (w : World db) → Owned w → Owned (admin_delete_room db id w).1
  unfolding admin_delete_room
  admin_delete_room-Owned id w v = ground (arith, remove_room-Owned id w v)

  add_to_room-Owned :
      (oid username : String) (w : World db) → Owned w → Owned (add_to_room db oid username w).1
  unfolding add_to_room
  add_to_room-Owned oid username w v =
      Wrote-All IsOwned _ _ _ _ _ (db.rooms.update_one_lem _ (add_member username) w.rooms) v (
        All-update_first IsOwned _ (add_member username) _
          (λ r e o. add_member-IsOwned username r o) v)

  join_room-Owned :
      (id username : String) (w : World db) → Owned w → Owned (join_room db id username w).1
  unfolding join_room
  join_room-Owned id username w v = grind (arith, v, add_to_room-Owned)

  module _ (reliable : Reliable db) where
    updated :
        (p : Room → Bool) (f : Room → Room) (s : db.rooms.State)
        → db.rooms.docs (db.rooms.update_one p f s).1 ≡ update_first p f (db.rooms.docs s)
    updated p f s = Wrote-done _ _ _ _ _ (db.rooms.update_one_lem p f s) (reliable.0 p f s)

    deleted :
        (p : Room → Bool) (s : db.rooms.State)
        → db.rooms.docs (db.rooms.delete_one p s).1 ≡ delete_first p (db.rooms.docs s)
    deleted p s = Wrote-done _ _ _ _ _ (db.rooms.delete_one_lem p s) (reliable.1 p s)

    never_fails :
        (p : Room → Bool) (f : Room → Room) (s : db.rooms.State) (e : Fault)
        → (db.rooms.update_one p f s).0 ≢ err e
    never_fails p f s e failed = elim (db.rooms.update_one_lem p f s) [
      | inl (done, now) ↦ cc (done, failed)
      | inr (fault, now) ↦ reliable.0 p f s fault
    ]

    -- The end of leave_room for the creator, after the member was pulled.
    pass_on-Owned :
        (id oid username : String) (room : Room) (left : List String) (docs : List Room)
        (w : World db)
        → find (has_id oid) docs ≡ some room
        → left ≡ without username room.members
        → db.rooms.docs w.rooms ≡ update_first (has_id oid) (pull_member username) docs
        → All IsOwned docs
        → Owned (pass_on db id oid left w)
    unfolding pass_on delete_related
    pass_on-Owned id oid username room [] docs w here rest now v =
        rw
          (
            deleted (has_id oid) w.rooms,
            now,
            delete_first-update_first (has_id oid) (pull_member username) docs (λ r. refl),
          )
          (All-delete_first IsOwned (has_id oid) docs v)
    pass_on-Owned id oid username room (new_owner ∷ more) docs w here rest now v =
        let give : Room → Room = λ r. record r { created_by = new_owner } in
        rw
          (
            updated (has_id oid) give w.rooms,
            now,
            update_first-update_first (has_id oid) (pull_member username) give docs (λ r. refl),
          )
          (All-update_found IsOwned (has_id oid) (λ r. give (pull_member username r)) docs room here
            (inr (rw (sym rest) (ground (arith, eq_refl new_owner)))) v)

    leave_room-Owned :
        (id username : String) (w : World db) → Owned w → Owned (leave_room db id username w).1
    unfolding leave_room
    leave_room-Owned id username w v = elim (Option-cases (db.from_hex id)) [
      | inl bad ↦ rw (leave_room, bad) v
      | inr (oid, good) ↦ elim (Result-cases (find_room_by_id db id w)) [
        | inr (e, gone) ↦ rw (leave_room, good, gone) v
        | inl (room, there) ↦
            let docs = db.rooms.docs w.rooms in
            let w' : World db = record w {
              rooms = (db.rooms.update_one (has_id oid) (pull_member username) w.rooms).1;
            } in
            let here = find_room_by_id-find db id oid room w good there in
            let now = updated (has_id oid) (pull_member username) w.rooms in
            elim (Bool-cases (room.created_by == username && not room.is_default)) [
              | inr stays ↦
                  let v' : Owned w' = rw now (
                    All-update_found IsOwned (has_id oid) (pull_member username) docs room here
                      (pull_member-IsOwned username room stays
                        (find-All IsOwned (has_id oid) docs room here v))
                      v) in
                  elim (Result-cases
                    (db.rooms.update_one (has_id oid) (pull_member username) w.rooms).0) [
                      | inr (e, failed) ↦ rw (leave_room, good, there, failed) v'
                      | inl (n, took) ↦ rw (leave_room, good, there, took, stays) v'
                    ]
              | inl owner ↦
                  elim (Result-cases
                    (db.rooms.update_one (has_id oid) (pull_member username) w.rooms).0) [
                      | inr (e, failed) ↦
                          absurd (never_fails (has_id oid) (pull_member username) w.rooms e failed)
                      | inl (n, took) ↦
                          rw (leave_room, good, there, took, owner)
                            (pass_on-Owned id oid username room (without username room.members) docs
                              w' here refl now v)
                    ]
            ]
      ]
    ]

    apply-Owned : (op : Op) (w : World db) → Owned w → Owned (apply db op w)
    apply-Owned (creates username req hashed now) w v =
        create_room-Owned username req hashed now w v
    apply-Owned (joins id username) w v = join_room-Owned id username w v
    apply-Owned (leaves id username) w v = leave_room-Owned id username w v
    apply-Owned (deletes id username) w v = delete_room-Owned id username w v
    apply-Owned (admin_deletes id) w v = admin_delete_room-Owned id w v

-- While no write of the rooms fails, and the operations do not overlap, every room but the default
-- one has its owner among its members, after any sequence of creations, joins, leaves and
-- deletions, if this was so at the start.
pub run-Owned :
    (db : Database) (ops : List Op) (w : World db)
    → Reliable db
    → Owned db w
    → Owned db (run db ops w)
unfolding run
run-Owned db [] w reliable v = v
run-Owned db (op ∷ ops) w reliable v =
    run-Owned db ops (apply db op w) reliable (apply-Owned db reliable op w v)
