-- ===== src/Rooms/Handlers.antt =====
-- server/handler/room.go: the handlers of rooms over HTTP, with the answer's status and body. What
-- Bind reads comes as an option: none is a body that it refuses. Audit lines are left out.
use Prim.Native.Char.{code}
use Prim.Native.String
use woongkie_talkie.Base.{
  ℕ, ◌+◌, String, Bool, false, not, ◌&&◌, ◌||◌, List, [], ◌∷◌, Option, none, some, ltb, eqb,
  if◌then◌else◌, length, map, ◌==◌, Result, ok, err,
}
use woongkie_talkie.RoomManager.{RoomManager, remove_hub, get_online_members}
use woongkie_talkie.Rooms.{
  Room, Database, World, Error, not_found, forbidden, duplicate_room_name, find_room_by_id,
  find_default_room, find_rooms, create_room, delete_room, join_room, leave_room,
  hash_room_password, check_room_password,
}

-- c.JSON
pub data Response (A : Type 0) : Type 0 where
  answer : ℕ → A → Response A
  refusal : ℕ → String → Response A

pub record CreateRoomRequest : Type 0 where
  pub name : String
  pub description : String
  pub is_public : Bool
  pub password : String
  pub max_members : ℕ

pub record RoomResponse : Type 0 where
  pub id : String
  pub name : String
  pub description : String
  pub is_public : Bool
  pub max_members : ℕ
  pub created_by : String
  pub created_at : ℕ
  pub is_default : Bool
  pub member_count : ℕ
  pub online_members : List String
  pub has_password : Bool

unfoldable pub room_to_response : Room → List String → RoomResponse
room_to_response room online = record {
  id = room.id;
  name = room.name;
  description = room.description;
  is_public = room.is_public;
  max_members = room.max_members;
  created_by = room.created_by;
  created_at = room.created_at;
  is_default = room.is_default;
  member_count = length room.members;
  online_members = online;
  has_password = not (room.password == "");
}

-- len of a string, in bytes of UTF-8.
unfoldable pub byte_length : String → ℕ
byte_length String.[] = 0
byte_length (String.◌∷◌ c s) =
    (if ltb (code c) 0x80
      then 1
      else if ltb (code c) 0x800
      then 2
      else if ltb (code c) 0x10000
      then 3
      else 4)
    + byte_length s

-- html.EscapeString, on strings.
unfoldable pub escape_name : String → String
escape_name String.[] = ""
escape_name (String.◌∷◌ c s) =
    let rest = escape_name s in
    if eqb (code c) b'&'
    then String.◌++◌ "&amp;" rest
    else if eqb (code c) 39
    then String.◌++◌ "&#39;" rest
    else if eqb (code c) b'<'
    then String.◌++◌ "&lt;" rest
    else if eqb (code c) b'>'
    then String.◌++◌ "&gt;" rest
    else if eqb (code c) b'"'
    then String.◌++◌ "&#34;" rest
    else String.◌∷◌ c rest

-- The room that CreateRoomHandler asks for, with the id that bson leaves out.
unfoldable pub room_of : String → CreateRoomRequest → String → Room
room_of username req hashed = record {
  id = "";
  name = escape_name req.name;
  description = escape_name req.description;
  is_public = req.is_public;
  password = hashed;
  max_members = req.max_members;
  created_by = username;
  created_at = 0;
  is_default = false;
  members = username ∷ [];
}

-- The checks of CreateRoomHandler, in order; the numbers of a request are not negative here.
unfoldable pub refused_request : CreateRoomRequest → Option String
refused_request req =
    if req.name == "" || ltb 50 (byte_length req.name)
    then some "채팅방 이름은 1자 이상 50자 이하이어야 합니다"
    else if ltb 200 (byte_length req.description)
    then some "채팅방 설명은 200자 이하이어야 합니다"
    else if ltb 1000 req.max_members
    then some "최대 인원은 0 이상 1000 이하이어야 합니다"
    else none

-- The answer to a room that was or was not deleted.
abbrev pub deletion_refusal : Error → Response String
deletion_refusal not_found = refusal 404 "채팅방을 찾을 수 없습니다"
deletion_refusal forbidden = refusal 403 "채팅방 삭제 권한이 없습니다"
deletion_refusal e = refusal 500 "채팅방 삭제에 실패했습니다"

module _ (db : Database) where
  abbrev created_answer : String → Result Error Room → Response RoomResponse
  created_answer username (ok room) = answer 201 (room_to_response room (username ∷ []))
  created_answer username (err duplicate_room_name) = refusal 409 "이미 존재하는 채팅방 이름입니다"
  created_answer username (err e) = refusal 500 "채팅방 생성에 실패했습니다"

  unfoldable pub create_room_handler :
      Option CreateRoomRequest → String → ℕ → World db → Response RoomResponse × World db
  create_room_handler none username now w = (refusal 400 "잘못된 요청입니다", w)
  create_room_handler (some req) username now w = elim (refused_request req) [
    | some text ↦ (refusal 400 text, w)
    | none ↦ elim (hash_room_password db req.password) [
      | err e ↦ (refusal 500 "비밀번호 처리에 실패했습니다", w)
      | ok hashed ↦
          let (reply, w') = create_room db (room_of username req hashed) now w in
          (created_answer username reply, w')
    ]
  ]

  unfoldable pub list_rooms_handler : RoomManager → String → World db → Response (List RoomResponse)
  list_rooms_handler rooms username w = elim (find_rooms db username w) [
    | err e ↦ refusal 500 "채팅방 목록 조회에 실패했습니다"
    | ok found ↦ answer 200 (map (λ r. room_to_response r (get_online_members r.id rooms)) found)
  ]

  unfoldable pub get_room_handler : RoomManager → String → World db → Response RoomResponse
  get_room_handler rooms id w = elim (find_room_by_id db id w) [
    | err e ↦ refusal 404 "채팅방을 찾을 수 없습니다"
    | ok room ↦ answer 200 (room_to_response room (get_online_members id rooms))
  ]

  unfoldable pub get_default_room_handler : RoomManager → World db → Response RoomResponse
  get_default_room_handler rooms w = elim (find_default_room db w) [
    | err e ↦ refusal 500 "기본 채팅방을 찾을 수 없습니다"
    | ok room ↦ answer 200 (room_to_response room (get_online_members room.id rooms))
  ]

  -- The hub of a deleted room is removed; none is the panic of RemoveHub.
  unfoldable pub delete_room_handler :
      String → String → World db → RoomManager → Option (Response String × World db × RoomManager)
  delete_room_handler id username w rooms =
      let (reply, w') = delete_room db id username w in
      elim reply [
        | err e ↦ some (deletion_refusal e, w', rooms)
        | ok _ ↦ elim (remove_hub id rooms) [
          | none ↦ none
          | some rooms' ↦ some (answer 200 "채팅방이 삭제되었습니다", w', rooms')
        ]
      ]

  unfoldable pub join : String → String → World db → Response String × World db
  join id username w =
      let (reply, w') = join_room db id username w in
      (elim reply [ ok _ ↦ answer 200 "채팅방에 참여했습니다" | err e ↦ refusal 400 "채팅방 참여에 실패했습니다" ], w')

  -- The request is the password, if the body can be read.
  unfoldable pub join_room_handler :
      String → String → Option String → World db → Response String × World db
  join_room_handler id username request w = elim (find_room_by_id db id w) [
    | err e ↦ (refusal 404 "채팅방을 찾을 수 없습니다", w)
    | ok room ↦
        if not room.is_public && not (room.password == "")
        then elim request [
          | none ↦ (refusal 400 "잘못된 요청입니다", w)
          | some password ↦
              if password == ""
              then (refusal 403 "비밀번호가 필요합니다", w)
              else if not (check_room_password db room password)
              then (refusal 403 "비밀번호가 올바르지 않습니다", w)
              else join id username w
        ]
        else join id username w
  ]

  unfoldable pub leave_room_handler : String → String → World db → Response String × World db
  leave_room_handler id username w =
      let (reply, w') = leave_room db id username w in
      (elim reply [ ok _ ↦ answer 200 "채팅방에서 나갔습니다" | err e ↦ refusal 400 "채팅방 퇴장에 실패했습니다" ], w')
