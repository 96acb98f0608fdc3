-- ===== src/Profiles/Tests.antt =====
-- Rooms and users in memory: the theorem at a concrete input.
use woongkie_talkie.Base.{
  ◌≡◌, refl, String, true, List, [], ◌∷◌, none, ok, if◌then◌else◌, find, lookup,
}
use woongkie_talkie.Rooms.{Room, find_room_by_id, is_member}
use woongkie_talkie.Rooms.Tests.{db, two_rooms}
use woongkie_talkie.Users.{World, named}
use woongkie_talkie.Users.Laws.{docs_of}
use woongkie_talkie.Auth.Tests.{people, ann_user}
use woongkie_talkie.Profiles.RoomKeys.{key_of, get_room_keys_lem}

-- ann has a key, bob has none; cid has one and is no member of the den.
abbrev crowd : World people
crowd = record {
  has_users = true;
  state =
      record ann_user { public_key = "k" }
      ∷ record ann_user { username = "bob" }
      ∷ record ann_user { username = "cid"; public_key = "j" }
      ∷ [];
}

get_room_keys_lem_example :
    (room : Room) × (find_room_by_id db "55" two_rooms ≡ ok room)
    × (is_member "bob" room ≡ true)
    × ((name : String)
        → lookup name (("ann", "k") ∷ []) ≡ (
            if is_member name room
            then key_of (find (named name) (docs_of people crowd))
            else none))
unfolding woongkie_talkie.Profiles.get_room_keys_handler find_room_by_id woongkie_talkie.Base.insert
    woongkie_talkie.Base.remove
get_room_keys_lem_example =
    get_room_keys_lem people db "55" "bob" two_rooms crowd (("ann", "k") ∷ [])
      (refl, (refl, (refl, tt))) refl
