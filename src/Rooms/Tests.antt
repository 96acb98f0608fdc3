-- ===== src/Rooms/Tests.antt =====
-- A database in memory: the theorems at concrete inputs.
use woongkie_talkie.Base.{arith, inl, inr, refl, true, false, List, [], ◌∷◌, some, ◌==◌}
use woongkie_talkie.Mongo.Memory.{memory}
use woongkie_talkie.Rooms.{Room, Database, World, room_schema, chat_schema, file_schema, join_room}
use woongkie_talkie.Rooms.Handlers.{CreateRoomRequest}
use woongkie_talkie.Rooms.Members.{
  Op, creates, joins, leaves, deletes, admin_deletes, run, Sound, run-Sound,
}
use woongkie_talkie.Rooms.Default.{HasDefault, run-HasDefault}
use woongkie_talkie.Rooms.Ownership.{Owned, run-Owned}
use woongkie_talkie.Rooms.Joining.{JoinOutcome, join_room_lem}

-- Ids are two digits of one kind, and hashes the password itself.
abbrev pub db : Database
db = record {
  rooms = memory room_schema (λ _. "22");
  chats = memory chat_schema (λ _. "33");
  files = memory file_schema (λ _. "44");
  from_hex = λ id. some id;
  nil_id = "00";
  generate = λ p. some p;
  compare = λ h p. h == p;
}

abbrev pub general : Room
general = record {
  id = "11";
  name = "general";
  description = "";
  is_public = true;
  password = "";
  max_members = 0;
  created_by = "system";
  created_at = 0;
  is_default = true;
  members = [];
}

abbrev pub den : Room
den = record general {
  id = "55";
  name = "den";
  is_public = false;
  password = "key";
  max_members = 2;
  created_by = "ann";
  is_default = false;
  members = "ann" ∷ "bob" ∷ [];
}

abbrev pub two_rooms : World db
two_rooms = record { rooms = general ∷ den ∷ []; chats = []; files = [] }

abbrev request : CreateRoomRequest
request = record {
  name = "attic";
  description = "";
  is_public = true;
  password = "";
  max_members = 0;
}

abbrev ops : List Op
ops =
    creates "cid" request "" 5
    ∷ joins "55" "cid"
    ∷ leaves "55" "ann"
    ∷ joins "11" "ann"
    ∷ deletes "22" "bob"
    ∷ admin_deletes "11"
    ∷ []

run-Sound_example : Sound db (run db ops two_rooms)
run-Sound_example = run-Sound db ops two_rooms (
  record { bounded = inl refl; distinct = tt },
  (record { bounded = inr (omega arith); distinct = (refl, (refl, tt)) }, tt),
)

run-HasDefault_example : HasDefault db (run db ops two_rooms)
run-HasDefault_example = run-HasDefault db ops two_rooms refl

run-Owned_example : Owned db (run db ops two_rooms)
run-Owned_example =
    run-Owned db ops two_rooms ((λ p f s e. cc e), (λ p s e. cc e)) (inl refl, (inr refl, tt))

join_room_lem_example : JoinOutcome db "55" "cid" two_rooms (join_room db "55" "cid" two_rooms)
join_room_lem_example = join_room_lem db "55" "55" "cid" two_rooms refl
