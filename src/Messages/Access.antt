-- ===== src/Messages/Access.antt =====
-- server/handler/message.go and helpers.go: who gets through to the messages of a room.
use woongkie_talkie.Base.{
  ℕ, ◌≡◌, refl, String, false, ◌||◌, [], Option, none, some, ◌==◌, ok, Bool-cases, Result-cases,
  inl, inr,
}
use woongkie_talkie.Chat.{Text}
use woongkie_talkie.RoomManager.{RoomManager}
use woongkie_talkie.Rooms.{Room, Database, World, is_member, find_room_by_id}
use woongkie_talkie.Rooms.Handlers.{refusal}
use woongkie_talkie.Messages.{delete_chat}
use woongkie_talkie.Messages.Handlers.{
  require_room_member, edit_message_handler, delete_message_handler, delete_allowed,
  reply_message_handler, TimeParam, get_room_messages_handler,
}

require_room_member_outsider :
    (db : Database) (room_id username : String) (room : Room) (w : World db)
    → (room_id == "") ≡ false
    → find_room_by_id db room_id w ≡ ok room
    → (room.is_public || room.is_default) ≡ false
    → is_member username room ≡ false
    → (status : ℕ) × (text : String) × (require_room_member db room_id username w
        ≡ some (status, text))
unfolding require_room_member
require_room_member_outsider db room_id username room w named found closed outside =
    elim (Bool-cases (username == "")) [
      | inl nobody ↦ (401, "인증이 필요합니다", rw (require_room_member, named, found, closed, nobody) refl)
      | inr somebody ↦ (
        403,
        "채팅방 멤버만 접근할 수 있습니다",
        rw (require_room_member, named, found, closed, somebody, outside) refl,
      )
    ]

-- Each request to edit, delete, answer or list messages whose path carries the id of a room that is
-- neither public nor the default one is refused to whoever is not a member of that room: with the
-- same answer, nothing is stored, and nothing goes to the hub.
pub outsider_refused :
    (db : Database) (room_id msg_id username : String) (room : Room) (request : Option Text)
    (since cutoff now : ℕ) (before after : TimeParam) (limit : Option ℕ) (rooms : RoomManager)
    (w : World db)
    → (room_id == "") ≡ false
    → find_room_by_id db room_id w ≡ ok room
    → (room.is_public || room.is_default) ≡ false
    → is_member username room ≡ false
    → (status : ℕ) × (text : String) × (edit_message_handler db room_id msg_id username request
          since cutoff now rooms w
        ≡ (refusal status text, [], w))
      × (delete_message_handler db room_id msg_id username rooms w ≡ (refusal status text, [], w))
      × (reply_message_handler db room_id msg_id username request now rooms w
          ≡ (refusal status text, [], w))
      × (get_room_messages_handler db room_id username before after limit w ≡ refusal status text)
unfolding edit_message_handler delete_message_handler reply_message_handler
    get_room_messages_handler
outsider_refused db room_id msg_id username room request since cutoff now before after limit rooms w
      named found closed outside =
    let (status, text, e) =
      require_room_member_outsider db room_id username room w named found closed outside in
    (
      status,
      text,
      rw (edit_message_handler, e) refl,
      rw (delete_message_handler, e) refl,
      rw (reply_message_handler, e) refl,
      rw (get_room_messages_handler, e) refl,
    )

-- For a user that may enter two rooms it makes no difference through which of them a message is
-- deleted: the answers and the stored messages are the same, wherever the message is.
pub delete_ignores_room :
    (db : Database) (here there msg_id username : String) (rooms : RoomManager) (w : World db)
    → require_room_member db here username w ≡ none
    → require_room_member db there username w ≡ none
    → ((delete_message_handler db here msg_id username rooms w).0
        ≡ (delete_message_handler db there msg_id username rooms w).0)
      × ((delete_message_handler db here msg_id username rooms w).2
          ≡ (delete_message_handler db there msg_id username rooms w).2)
unfolding delete_message_handler delete_allowed
delete_ignores_room db here there msg_id username rooms w a b = elim (Bool-cases (username == "")) [
  | inl nobody ↦ rw (delete_message_handler, a, b, nobody) (refl, refl)
  | inr somebody ↦ elim (Result-cases (delete_chat db msg_id username w).0) [
    | inl (t, e) ↦ rw (delete_message_handler, a, b, somebody, delete_allowed, e) (refl, refl)
    | inr (f, e) ↦ rw (delete_message_handler, a, b, somebody, delete_allowed, e) (refl, refl)
  ]
]
