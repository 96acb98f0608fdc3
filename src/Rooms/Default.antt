-- ===== src/Rooms/Default.antt =====
-- pkg/mongoDB/room.go: no operation takes the default room away.
use woongkie_talkie.Base.{
  ℕ, ◌≡◌, inl, inr, refl, sym, ap, subst, ◌∙◌, String, Bool, true, false, not, ◌&&◌, ◌||◌, List, [],
  ◌∷◌, ◌++◌, some, any, find, ◌==◌, ok, arith, Bool-cases, Option-cases, Result-cases,
}
use woongkie_talkie.Mongo.{
  Wrote, update_first, delete_first, added, refused, failed_before, failed_after, Reply,
}
use woongkie_talkie.Rooms.{
  Room, Database, World, has_id, object_id, add_member, pull_member, inserted_room, without,
  find_room_by_id, create_room, delete_related, remove_room, delete_room, admin_delete_room,
  join_room, add_to_room, leave_room, pass_on,
}
use woongkie_talkie.Rooms.Handlers.{room_of}
use woongkie_talkie.Rooms.Members.{Op, creates, joins, leaves, deletes, admin_deletes, apply, run}
use woongkie_talkie.Rooms.Deletion.{find_room_by_id-Found, object_id_lem, find_room_by_id-find}

-- Is there a default room?
abbrev pub has_default : List Room → Bool
has_default = any λ r. r.is_default

has_default-append :
    (rs : List Room) (r : Room) → has_default rs ≡ true → has_default (rs ++ r ∷ []) ≡ true
has_default-append [] r h = cc h
has_default-append (x ∷ rs) r h = ground (arith, h, has_default-append rs r)

has_default-update_first :
    (p : Room → Bool) (f : Room → Room) (rs : List Room)
    → ((r : Room) → (f r).is_default ≡ r.is_default)
    → has_default (update_first p f rs) ≡ has_default rs
has_default-update_first p f [] h = refl
has_default-update_first p f (r ∷ rs) h = ground (arith, h r, has_default-update_first p f rs h)

has_default-delete_first :
    (p : Room → Bool) (rs : List Room) (room : Room)
    → find p rs ≡ some room
    → room.is_default ≡ false
    → has_default (delete_first p rs) ≡ has_default rs
has_default-delete_first p [] room e d = refl
has_default-delete_first p (r ∷ rs) room e d = elim (Bool-cases (p r)) [
  | inl hit ↦ let same : r ≡ room = ground (arith, hit, e) in rw hit (rw (same, d) refl)
  | inr miss ↦
      rw miss (ap (◌||◌ r.is_default) (has_default-delete_first p rs room (rw miss at e) d))
]

find-update_first :
    (p : Room → Bool) (f : Room → Room) (rs : List Room) (room : Room)
    → ((r : Room) → p (f r) ≡ p r)
    → find p rs ≡ some room
    → find p (update_first p f rs) ≡ some (f room)
find-update_first p f [] room h e = cc e
find-update_first p f (r ∷ rs) room h e = elim (Bool-cases (p r)) [
  | inl hit ↦
      let same : r ≡ room = ground (arith, hit, e) in
      rw hit (rw (h r, hit) (ap (λ x. some (f x)) same))
  | inr miss ↦ rw miss (rw miss (find-update_first p f rs room h (rw miss at e)))
]

-- Whatever a write did, a test that holds of both lists holds of what is there now.
Wrote-holds :
    {A : Type 0} (t : List Room → Bool) (old new now : List Room) (n : A) (r : Reply A)
    → Wrote old new n r now
    → t old ≡ true
    → t new ≡ true
    → t now ≡ true
Wrote-holds t old new now n r (inl (e, w)) a b = rw w b
Wrote-holds t old new now n r (inr (e, inl w)) a b = rw w a
Wrote-holds t old new now n r (inr (e, inr w)) a b = rw w b

module _ (db : Database) where
  abbrev pub HasDefault : World db → Type 0
  HasDefault w = has_default (db.rooms.docs w.rooms) ≡ true

  updated-HasDefault :
      (p : Room → Bool) (f : Room → Room) (w : World db)
      → ((r : Room) → (f r).is_default ≡ r.is_default)
      → HasDefault w
      → has_default (db.rooms.docs (db.rooms.update_one p f w.rooms).1) ≡ true
  updated-HasDefault p f w h v =
      Wrote-holds has_default _ _ _ _ _ (db.rooms.update_one_lem p f w.rooms) v
        (has_default-update_first p f _ h ∙ v)

  deleted-HasDefault :
      (oid : String) (room : Room) (w : World db)
      → find (has_id oid) (db.rooms.docs w.rooms) ≡ some room
      → room.is_default ≡ false
      → HasDefault w
      → has_default (db.rooms.docs (db.rooms.delete_one (has_id oid) w.rooms).1) ≡ true
  deleted-HasDefault oid room w e d v =
      Wrote-holds has_default _ _ _ _ _ (db.rooms.delete_one_lem (has_id oid) w.rooms) v
        (has_default-delete_first (has_id oid) _ room e d ∙ v)

  create_room-HasDefault :
      (room : Room) (now : ℕ) (w : World db)
      → HasDefault w
      → HasDefault (create_room db room now w).1
  unfolding create_room
  create_room-HasDefault room now w v =
      let made = inserted_room room now in
      elim (db.rooms.insert_one_lem made w.rooms) [
        | added id e (new, clear, here) ↦
            rw here (has_default-append (db.rooms.docs w.rooms) (record made { id = id }) v)
        | refused e clash here ↦ rw here v
        | failed_before e here ↦ rw here v
        | failed_after id e (new, clear, here) ↦
            rw here (has_default-append (db.rooms.docs w.rooms) (record made { id = id }) v)
      ]

  remove_room-HasDefault :
      (id : String) (room : Room) (w : World db)
      → find_room_by_id db id w ≡ ok room
      → room.is_default ≡ false
      → HasDefault w
      → HasDefault (remove_room db id w).1
  unfolding remove_room delete_related
  remove_room-HasDefault id room w e d v =
      let there = find_room_by_id-Found db id room w e in
      let here =
        subst (λ o. find (has_id o) (db.rooms.docs w.rooms) ≡ some room)
          (sym (object_id_lem db id there.oid there.canonical)) there.here in
      let after = deleted-HasDefault (object_id db id) room w here d v in
      elim (Result-cases (db.rooms.delete_one (has_id (object_id db id)) w.rooms).0) [
        | inl (n, e) ↦ rw (remove_room, e) after
        | inr (f, e) ↦ rw (remove_room, e) after
      ]

  delete_room-HasDefault :
      (id username : String) (w : World db)
      → HasDefault w
      → HasDefault (delete_room db id username w).1
  unfolding delete_room
  delete_room-HasDefault id username w v = grind (arith, v, remove_room-HasDefault)

  admin_delete_room-HasDefault :
      (id : String) (w : World db) → HasDefault w → HasDefault (admin_delete_room db id w).1
  unfolding admin_delete_room
  admin_delete_room-HasDefault id w v = grind (arith, v, remove_room-HasDefault)

  add_member_default :
      (username : String) (r : Room) → (add_member username r).is_default ≡ r.is_default
  add_member_default username r = ground arith

  add_to_room-HasDefault :
      (oid username : String) (w : World db)
      → HasDefault w
      → HasDefault (add_to_room db oid username w).1
  unfolding add_to_room
  add_to_room-HasDefault oid username w v =
      updated-HasDefault _ (add_member username) w (add_member_default username) v

  join_room-HasDefault :
      (id username : String) (w : World db)
      → HasDefault w
      → HasDefault (join_room db id username w).1
  unfolding join_room
  join_room-HasDefault id username w v = grind (arith, v, add_to_room-HasDefault)

  pass_on-HasDefault :
      (id oid : String) (room : Room) (left : List String) (w : World db)
      → find (has_id oid) (db.rooms.docs w.rooms) ≡ some room
      → room.is_default ≡ false
      → HasDefault w
      → HasDefault (pass_on db id oid left w)
  unfolding pass_on delete_related
  pass_on-HasDefault id oid room [] w e d v = deleted-HasDefault oid room w e d v
  pass_on-HasDefault id oid room (new_owner ∷ _) w e d v =
      updated-HasDefault (has_id oid) (λ r. record r { created_by = new_owner }) w (λ r. refl) v

  -- Where the update succeeds, the room without the member is what the id stands for.
  pub pulled :
      (oid username : String) (room : Room) (n : ℕ) (w : World db)
      → find (has_id oid) (db.rooms.docs w.rooms) ≡ some room
      → (db.rooms.update_one (has_id oid) (pull_member username) w.rooms).0 ≡ ok n
      → (db.rooms.docs (db.rooms.update_one (has_id oid) (pull_member username) w.rooms).1
          ≡ update_first (has_id oid) (pull_member username) (db.rooms.docs w.rooms))
        × (find
              (has_id oid)
              (db.rooms.docs (db.rooms.update_one (has_id oid) (pull_member username) w.rooms).1)
            ≡ some (pull_member username room))
  pulled oid username room n w here e =
      elim (db.rooms.update_one_lem (has_id oid) (pull_member username) w.rooms) [
        | inl (e', now) ↦ (
          now,
          rw now (find-update_first (has_id oid) (pull_member username) _ room (λ r. refl) here),
        )
        | inr (e', now) ↦ absurd (cc (e, e'))
      ]

  leave_room-HasDefault :
      (id username : String) (w : World db)
      → HasDefault w
      → HasDefault (leave_room db id username w).1
  unfolding leave_room
  leave_room-HasDefault id username w v = elim (Option-cases (db.from_hex id)) [
    | inl bad ↦ rw (leave_room, bad) v
    | inr (oid, good) ↦ elim (Result-cases (find_room_by_id db id w)) [
      | inr (e, gone) ↦ rw (leave_room, good, gone) v
      | inl (room, there) ↦
          let w' : World db = record w {
            rooms = (db.rooms.update_one (has_id oid) (pull_member username) w.rooms).1;
          } in
          let here = find_room_by_id-find db id oid room w good there in
          let v' = updated-HasDefault (has_id oid) (pull_member username) w (λ r. refl) v in
          elim (Result-cases (db.rooms.update_one (has_id oid) (pull_member username) w.rooms).0) [
            | inr (e, failed) ↦ rw (leave_room, good, there, failed) v'
            | inl (n, took) ↦
                elim (Bool-cases (room.created_by == username && not room.is_default)) [
                  | inr stays ↦ rw (leave_room, good, there, took, stays) v'
                  | inl owner ↦
                      rw (leave_room, good, there, took, owner)
                        (pass_on-HasDefault id oid (pull_member username room)
                          (without username room.members) w'
                          (pulled oid username room n w here took).1 (ground (arith, owner)) v')
                ]
          ]
    ]
  ]

  apply-HasDefault : (op : Op) (w : World db) → HasDefault w → HasDefault (apply db op w)
  apply-HasDefault (creates username req hashed now) w v =
      create_room-HasDefault (room_of username req hashed) now w v
  apply-HasDefault (joins id username) w v = join_room-HasDefault id username w v
  apply-HasDefault (leaves id username) w v = leave_room-HasDefault id username w v
  apply-HasDefault (deletes id username) w v = delete_room-HasDefault id username w v
  apply-HasDefault (admin_deletes id) w v = admin_delete_room-HasDefault id w v

-- If there is a default room, there is one after any sequence of creations, joins, leaves and
-- deletions, also by an administrator, and whichever calls of the database fail.
pub run-HasDefault :
    (db : Database) (ops : List Op) (w : World db) → HasDefault db w → HasDefault db (run db ops w)
unfolding run
run-HasDefault db [] w v = v
run-HasDefault db (op ∷ ops) w v =
    run-HasDefault db ops (apply db op w) (apply-HasDefault db op w v)
