-- ===== src/Admin.antt =====
-- server/handler/admin.go and server/middleware/admin.go: who may administer, and what the handlers
-- of the administration do. What Bind reads comes as an option.
pub mod Roles
pub mod Tests
use woongkie_talkie.Base.{
  ℕ, ◌+◌, String, Bool, true, false, not, ◌&&◌, ◌||◌, List, [], ◌∷◌, ◌++◌, Option, none, some, ltb,
  eqb, if◌then◌else◌, ◌==◌, Result, ok, err, length, Assoc,
}
use woongkie_talkie.Chat.{Text, codes, ChatMessage, chat_message}
use woongkie_talkie.Texts.{escape_string}
use woongkie_talkie.Hub.{get_member_names}
use woongkie_talkie.RoomManager.{RoomManager, get_hub, remove_hub}
use woongkie_talkie.Rooms
use woongkie_talkie.Rooms.{
  Database, Error, not_found, admin_delete_room, count_rooms, find_all_rooms, Room,
}
use woongkie_talkie.Messages.{count_today_messages}
use woongkie_talkie.Rooms.Handlers.{Response, answer, refusal}
use woongkie_talkie.Users.{
  User, Accounts, World, UserError, no_collection, hash_failed, database, find_user_by_username,
  block_user, unblock_user, count_users, find_all_users,
}

-- What the middleware does: the request goes on, or is refused with a status.
pub data Gate : Type 0 where
  open_ : Gate
  shut : ℕ → Gate

-- The bounds of a page: the page's number and its size.
unfoldable pub clamp_page : ℕ → ℕ
clamp_page page = if ltb page 1 then 1 else page

unfoldable pub clamp_limit : ℕ → ℕ
clamp_limit limit = if ltb limit 1 || ltb 100 limit then 20 else limit

-- The loop of AdminStatsHandler over the hubs.
unfoldable pub count_online_users : Assoc ℕ → RoomManager → ℕ
count_online_users [] m = 0
count_online_users ((room, i) ∷ rest) m =
    length (get_member_names (m.hub i)) + count_online_users rest m

abbrev pub or_zero {ℓ} : {E : Type ℓ} → Result E ℕ → ℕ
or_zero (ok n) = n
or_zero (err e) = 0

pub record AdminStats : Type 0 where
  pub online_users : ℕ
  pub active_rooms : ℕ
  pub today_messages : ℕ
  pub total_users : ℕ

-- Where the database fails, a number is 0.
unfoldable pub admin_stats_handler :
    (accounts : Accounts) (db : Database)
    → ℕ
    → World accounts
    → Rooms.World db
    → RoomManager
    → Response AdminStats
unfolding count_online_users
admin_stats_handler accounts db start_of_day users rooms m = answer 200 (record {
  online_users = count_online_users m.hubs m;
  active_rooms = or_zero (count_rooms db rooms);
  today_messages = or_zero (count_today_messages db start_of_day rooms);
  total_users = or_zero (count_users accounts users);
})

-- A page of a list: what is on it, how many there are in all, its number and its size.
pub record Page (A : Type 0) : Type 0 where
  pub items : List A
  pub total : ℕ
  pub page : ℕ
  pub limit : ℕ

abbrev paged : {E A : Type 0} → String → ℕ → ℕ → Result E (List A × ℕ) → Response (Page A)
paged text page limit (err e) = refusal 500 text
paged text page limit (ok (items, total)) =
    answer 200 (record { items = items; total = total; page = page; limit = limit })

module _ (accounts : Accounts) where
  -- "" stands for a name that is not set.
  unfoldable pub admin_required : String → World accounts → Gate
  admin_required username w =
      if username == "" then shut 401 else elim (find_user_by_username accounts username w) [
        | err no_collection ↦ shut 403
        | err e ↦ shut 503
        | ok user ↦ if not (user.role == "admin") then shut 403 else open_
      ]

  -- A number that cannot be read is 0, one below 0 is not told from 0.
  unfoldable pub admin_users_handler : ℕ → ℕ → World accounts → Response (Page User)
  unfolding clamp_page clamp_limit
  admin_users_handler page limit w =
      paged "사용자 목록을 불러올 수 없습니다" (clamp_page page) (clamp_limit limit)
        (find_all_users accounts (clamp_page page) (clamp_limit limit) w)

  -- The names of the user and of the administrator, and what to do.
  unfoldable pub admin_block_user_handler :
      String → String → Option Bool → World accounts → Response String × World accounts
  admin_block_user_handler username admin none w =
      if username == ""
      then (refusal 400 "사용자 이름이 필요합니다", w)
      else if not (admin == "") && admin == username
      then (refusal 403 "자기 자신을 차단할 수 없습니다", w)
      else (refusal 400 "잘못된 요청입니다", w)
  admin_block_user_handler username admin (some blocked) w =
      if username == ""
      then (refusal 400 "사용자 이름이 필요합니다", w)
      else if not (admin == "") && admin == username
      then (refusal 403 "자기 자신을 차단할 수 없습니다", w)
      else (let (reply, w') =
            if blocked then block_user accounts username w else unblock_user accounts username w in
          (
            elim reply [
              | err e ↦ refusal 500 "사용자 상태 변경에 실패했습니다"
              | ok u ↦ answer 200 "사용자 상태가 변경되었습니다"
            ],
            w',
          ))

-- The texts of the errors are a parameter: they are the driver's, but for that of the default room.
module _ (db : Database) (error_text : Error → String) where
  unfoldable pub admin_rooms_handler : ℕ → ℕ → Rooms.World db → Response (Page Room)
  unfolding clamp_page clamp_limit
  admin_rooms_handler page limit w =
      paged "채팅방 목록을 불러올 수 없습니다" (clamp_page page) (clamp_limit limit)
        (find_all_rooms db (clamp_page page) (clamp_limit limit) w)

  -- The rooms, and the manager, or none where RemoveHub panics.
  unfoldable pub admin_delete_room_handler :
      String → Rooms.World db → RoomManager → Response String × Rooms.World db × Option RoomManager
  admin_delete_room_handler room_id w m =
      if room_id == ""
      then (refusal 400 "채팅방 ID가 필요합니다", w, some m)
      else (let (reply, w') = admin_delete_room db room_id w in
          elim reply [
            | err not_found ↦ (refusal 404 "채팅방을 찾을 수 없습니다", w', some m)
            | err e ↦ (refusal 403 (error_text e), w', some m)
            | ok u ↦ (answer 200 "채팅방이 삭제되었습니다", w', remove_hub room_id m)
          ])

-- The message of AdminAnnounceHandler.
unfoldable pub announcement : String → Text → ChatMessage
announcement room_id message =
    chat_message "ANNOUNCE" "system" room_id (codes "[공지] " ++ escape_string message)

-- The answer, the message that is queued for the database, and the hub that it is broadcast to.
unfoldable pub admin_announce_handler :
    String → Option Text → RoomManager → Response String × Option (ChatMessage × ℕ)
unfolding announcement
admin_announce_handler room_id req m =
    if room_id == "" then (refusal 400 "채팅방 ID가 필요합니다", none) else elim req [
      | none ↦ (refusal 400 "공지 메시지가 필요합니다", none)
      | some message ↦
          if eqb (length message) 0
          then (refusal 400 "공지 메시지가 필요합니다", none)
          else if ltb 2000 (length message)
          then (refusal 400 "공지 메시지는 2000자를 초과할 수 없습니다", none)
          else elim (get_hub room_id m) [
            | none ↦ (refusal 404 "활성화된 채팅방을 찾을 수 없습니다. 사용자가 접속해 있어야 공지를 보낼 수 있습니다.", none)
            | some i ↦ (answer 200 "공지가 전송되었습니다", some (announcement room_id message, i))
          ]
    ]
