-- ===== src/Rooms.antt =====
-- pkg/mongoDB/room.go: the rooms and their members, over the collections of rooms, messages and
-- files. primitive.ObjectIDFromHex is the parameter `from_hex`, which gives the id in its canonical
-- spelling; bcrypt is a parameter too.
pub mod Members
pub mod Ownership
pub mod Deletion
pub mod Default
pub mod Joining
pub mod Handlers
pub mod Tests
use woongkie_talkie.Base.{
  ℕ, ◌+◌, ◌-◌, ◌*◌, String, Bool, true, false, not, ◌&&◌, ◌||◌, List, [], ◌∷◌, ◌++◌, Option, none,
  some, ltb, eqb, if◌then◌else◌, length, keep, any, ◌==◌, Result, ok, err, ◌≡◌,
}
use woongkie_talkie.Chat.{Chat}
use woongkie_talkie.Mongo.{Fault, duplicate_key, descending, Schema, Collection}

pub record Room : Type 0 where
  pub id : String
  pub name : String
  pub description : String
  pub is_public : Bool
  pub password : String
  pub max_members : ℕ
  pub created_by : String
  pub created_at : ℕ
  pub is_default : Bool
  pub members : List String

-- pkg/mongoDB/file.go
pub record FileMetadata : Type 0 where
  pub id : String
  pub filename : String
  pub mime_type : String
  pub size : ℕ
  pub path : String
  pub url : String
  pub room_id : String
  pub uploader : String
  pub created_at : ℕ

-- The name of a room is unique.
abbrev pub room_schema : Schema Room
room_schema = record {
  id_of = λ r. r.id;
  with_id = λ i r. record r { id = i };
  conflicts = λ r q. q.name == r.name;
}

abbrev pub chat_schema : Schema Chat
chat_schema = record {
  id_of = λ c. c.id;
  with_id = λ i c. record c { id = i };
  conflicts = λ c d. false;
}

abbrev pub file_schema : Schema FileMetadata
file_schema = record {
  id_of = λ f. f.id;
  with_id = λ i f. record f { id = i };
  conflicts = λ f g. false;
}

-- The collections, and what else the code takes from third parties.
pub record Database : Type 1 where
  pub rooms : Collection Room room_schema
  pub chats : Collection Chat chat_schema
  pub files : Collection FileMetadata file_schema
  -- primitive.ObjectIDFromHex, and the id that a failure leaves
  pub from_hex : String → Option String
  pub nil_id : String
  -- bcrypt.GenerateFromPassword and CompareHashAndPassword
  pub generate : String → Option String
  pub compare : String → String → Bool

pub data Error : Type 0 where
  invalid_id hash_failed not_found forbidden duplicate_room_name default_room room_full : Error
  edit_window_expired message_deleted : Error
  database : Fault → Error

abbrev pub lift : {A : Type 0} → Result Fault A → Result Error A
lift (ok a) = ok a
lift (err f) = err (database f)

abbrev pub is_member : String → Room → Bool
is_member username room = any (λ m. m == username) room.members

abbrev pub has_id : String → Room → Bool
has_id oid room = room.id == oid

unfoldable pub inserted_room : Room → ℕ → Room
inserted_room room now = record room {
  max_members = if eqb room.max_members 0 then 100 else room.max_members;
  created_at = now;
}

abbrev pub has_space : Room → Bool
has_space room = eqb room.max_members 0 || ltb (length room.members) room.max_members

-- $addToSet
abbrev pub add_member : String → Room → Room
add_member username room =
    if is_member username room
    then room
    else record room { members = room.members ++ username ∷ [] }

-- The members that are left, in order.
abbrev pub without : String → List String → List String
without username = keep λ m. not (m == username)

-- $pull
abbrev pub pull_member : String → Room → Room
pull_member username room = record room { members = without username room.members }

module _ (db : Database) where
  pub record World : Type 0 where
    pub rooms : db.rooms.State
    pub chats : db.chats.State
    pub files : db.files.State

  unfoldable pub find_room_by_id : String → World → Result Error Room
  find_room_by_id id w = elim (db.from_hex id) [
    | none ↦ err invalid_id
    | some oid ↦ lift (db.rooms.find_one (has_id oid) w.rooms)
  ]

  unfoldable pub find_default_room : World → Result Error Room
  find_default_room w = lift (db.rooms.find_one (λ r. r.is_default) w.rooms)

  -- Public rooms, and private ones with the user among the members.
  unfoldable pub find_rooms : String → World → Result Error (List Room)
  find_rooms username w =
      lift
        (db.rooms.find_all (λ r. r.is_public || (not r.is_public && is_member username r)) w.rooms)

  -- The rooms of a page, the newest first, and how many there are. `page` is 1 or more.
  unfoldable pub find_all_rooms : ℕ → ℕ → World → Result Error (List Room × ℕ)
  find_all_rooms page limit w = elim (db.rooms.count (λ r. true) w.rooms) [
    | err f ↦ err (database f)
    | ok total ↦
        elim (db.rooms.find_slice (λ r. r.created_at) descending ((page - 1) * limit) limit
          w.rooms) [ err f ↦ err (database f) | ok found ↦ ok (found, total) ]
  ]

  unfoldable pub count_rooms : World → Result Error ℕ
  count_rooms w = lift (db.rooms.count (λ r. true) w.rooms)

  unfoldable pub create_room : Room → ℕ → World → Result Error Room × World
  create_room room now w =
      let made = inserted_room room now in
      let (reply, rooms') = db.rooms.insert_one made w.rooms in
      (
        elim reply [
          | ok i ↦ ok (record made { id = i })
          | err duplicate_key ↦ err duplicate_room_name
          | err f ↦ err (database f)
        ],
        record w { rooms = rooms' },
      )

  -- The messages and files of a room; errors are ignored.
  unfoldable pub delete_related : String → World → World
  delete_related id w = record w {
    chats = (db.chats.delete_many (λ c. c.room_id == id) w.chats).1;
    files = (db.files.delete_many (λ f. f.room_id == id) w.files).1;
  }

  -- objID, _ := primitive.ObjectIDFromHex(id)
  abbrev pub object_id : String → String
  object_id id = elim (db.from_hex id) [ none ↦ db.nil_id | some oid ↦ oid ]

  -- The common end of DeleteRoom and AdminDeleteRoom.
  unfoldable pub remove_room : String → World → Result Error (Unit {0}) × World
  remove_room id w =
      let (reply, rooms') = db.rooms.delete_one (has_id (object_id id)) w.rooms in
      let w' : World = record w { rooms = rooms' } in
      elim reply [ err f ↦ (err (database f), w') | ok n ↦ (ok tt, delete_related id w') ]

  unfoldable pub delete_room : String → String → World → Result Error (Unit {0}) × World
  delete_room id username w = elim (find_room_by_id id w) [
    | err e ↦ (err not_found, w)
    | ok room ↦
        if room.is_default
        then (err default_room, w)
        else if not (room.created_by == username)
        then (err forbidden, w)
        else remove_room id w
  ]

  unfoldable pub admin_delete_room : String → World → Result Error (Unit {0}) × World
  admin_delete_room id w = elim (find_room_by_id id w) [
    | err e ↦ (err not_found, w)
    | ok room ↦ if room.is_default then (err default_room, w) else remove_room id w
  ]

  -- The update of JoinRoom, for a user that was not a member when it was counted.
  unfoldable pub add_to_room : String → String → World → Result Error (Unit {0}) × World
  add_to_room oid username w =
      let (reply, rooms') =
        db.rooms.update_one (λ r. has_id oid r && has_space r) (add_member username) w.rooms in
      (
        elim reply [ err f ↦ err (database f) | ok n ↦ if eqb n 0 then err room_full else ok tt ],
        record w { rooms = rooms' },
      )

  unfoldable pub join_room : String → String → World → Result Error (Unit {0}) × World
  join_room id username w = elim (db.from_hex id) [
    | none ↦ (err invalid_id, w)
    | some oid ↦ elim (db.rooms.count (λ r. has_id oid r && is_member username r) w.rooms) [
      | err f ↦ (err (database f), w)
      | ok n ↦ if ltb 0 n then (ok tt, w) else add_to_room oid username w
    ]
  ]

  -- The end of LeaveRoom for the creator of a room; errors are ignored.
  unfoldable pub pass_on : String → String → List String → World → World
  pass_on id oid [] w =
      delete_related id (record w { rooms = (db.rooms.delete_one (has_id oid) w.rooms).1 })
  pass_on id oid (new_owner ∷ _) w = record w {
    rooms = (db.rooms.update_one (has_id oid) (λ r. record r { created_by = new_owner }) w.rooms).1;
  }

  unfoldable pub leave_room : String → String → World → Result Error (Unit {0}) × World
  leave_room id username w = elim (db.from_hex id) [
    | none ↦ (err invalid_id, w)
    | some oid ↦ elim (find_room_by_id id w) [
      | err e ↦ (err e, w)
      | ok room ↦
          let (reply, rooms') = db.rooms.update_one (has_id oid) (pull_member username) w.rooms in
          let w' : World = record w { rooms = rooms' } in
          elim reply [
            | err f ↦ (err (database f), w')
            | ok n ↦ (
              ok tt,
              if room.created_by == username && not room.is_default
                  then pass_on id oid (without username room.members) w'
                  else w',
            )
          ]
    ]
  ]

  unfoldable pub hash_room_password : String → Result Error String
  hash_room_password password =
      if password == ""
      then ok ""
      else elim (db.generate password) [ none ↦ err hash_failed | some hash ↦ ok hash ]

  unfoldable pub check_room_password : Room → String → Bool
  check_room_password room password =
      if room.password == "" then true else db.compare room.password password
