-- ===== src/Rooms/Deletion.antt =====
-- pkg/mongoDB/room.go: who may delete a room, and what goes with it.
use woongkie_talkie.Base.{
  ◌≡◌, ◌⊎◌, inl, inr, refl, sym, subst, ◌∙◌, String, false, not, some, keep, find, ◌==◌, Result, ok,
  err, arith, Option-cases,
}
use woongkie_talkie.Mongo.{delete_first, failure, Thinned}
use woongkie_talkie.Rooms.{
  Room, Database, World, Error, database, has_id, object_id, find_room_by_id,
}

module _ (db : Database) where
  -- The room that an id stands for.
  pub record Found (id : String) (room : Room) (w : World db) : Type 0 where
    pub oid : String
    pub canonical : db.from_hex id ≡ some oid
    pub here : find (has_id oid) (db.rooms.docs w.rooms) ≡ some room

  pub find_room_by_id-Found :
      (id : String) (room : Room) (w : World db)
      → find_room_by_id db id w ≡ ok room
      → Found id room w
  unfolding find_room_by_id
  find_room_by_id-Found id room w e = elim (Option-cases (db.from_hex id)) [
    | inl bad ↦ cc (e, bad)
    | inr (oid, good) ↦ elim (db.rooms.find_one_lem (has_id oid) w.rooms) [
      | inl failed ↦ absurd (grind (arith, e, good, failed))
      | inr answered ↦ record {
        oid = oid;
        canonical = good;
        here = elim (Option-cases (find (has_id oid) (db.rooms.docs w.rooms))) [
          | inl gone ↦ absurd (grind (arith, e, good, answered, gone))
          | inr (r, hit) ↦ grind (arith, e, good, answered, hit)
        ];
      }
    ]
  ]

  pub find_room_by_id-find :
      (id oid : String) (room : Room) (w : World db)
      → db.from_hex id ≡ some oid
      → find_room_by_id db id w ≡ ok room
      → find (has_id oid) (db.rooms.docs w.rooms) ≡ some room
  find_room_by_id-find id oid room w good e =
      let there = find_room_by_id-Found id room w e in
      let same : some there.oid ≡ some oid = sym there.canonical ∙ good in
      subst (λ o. find (has_id o) (db.rooms.docs w.rooms) ≡ some room) (cc same) there.here

  -- The messages and files of the room are gone, each unless its own deletion failed: then some of
  -- them may be gone, and none of another room.
  pub record Purged (id : String) (w w' : World db) : Type 0 where
    pub chats :
        (db.chats.docs w'.chats ≡ keep (λ c. not (c.room_id == id)) (db.chats.docs w.chats))
        ⊎ (((db.chats.delete_many (λ c. c.room_id == id) w.chats).0 ≡ err failure)
            × Thinned (λ c. c.room_id == id) (db.chats.docs w.chats) (db.chats.docs w'.chats))
    pub files :
        (db.files.docs w'.files ≡ keep (λ f. not (f.room_id == id)) (db.files.docs w.files))
        ⊎ (((db.files.delete_many (λ f. f.room_id == id) w.files).0 ≡ err failure)
            × Thinned (λ f. f.room_id == id) (db.files.docs w.files) (db.files.docs w'.files))

  -- The room that the id stands for is gone: one that its creator deletes and that is not the
  -- default one.
  pub record IsDeletion (id username : String) (w w' : World db) : Type 0 where
    pub room : Room
    pub there : Found id room w
    pub not_default : room.is_default ≡ false
    pub by_creator : room.created_by ≡ username
    pub gone : db.rooms.docs w'.rooms ≡ delete_first (has_id there.oid) (db.rooms.docs w.rooms)

  -- A success is the deletion of the room and of what belongs to it. A failure touches no message
  -- and no file, and no room either unless the database failed in the deletion.
  abbrev pub DeletionOutcome :
      String → String → World db → Result Error (Unit {0}) × World db → Type 0
  DeletionOutcome id username w (reply, w') =
      ((reply ≡ ok tt) × IsDeletion id username w w' × Purged id w w')
      ⊎ ((e : Error) × (reply ≡ err e)
          × (w'.chats ≡ w.chats)
          × (w'.files ≡ w.files)
          × ((db.rooms.docs w'.rooms ≡ db.rooms.docs w.rooms)
              ⊎ ((e ≡ database failure) × IsDeletion id username w w')))

  pub object_id_lem : (id oid : String) → db.from_hex id ≡ some oid → object_id db id ≡ oid
  object_id_lem id oid e = rw (object_id, e) refl
