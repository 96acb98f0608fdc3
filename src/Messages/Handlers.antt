-- ===== src/Messages/Handlers.antt =====
-- server/handler/message.go and helpers.go: the handlers of messages over HTTP, behind the check of
-- the membership. What Bind reads comes as an option; what a handler hands to the room's hub comes
-- with its answer. Audit lines are left out.
use woongkie_talkie.Base.{
  ℕ, String, Bool, false, ◌&&◌, ◌||◌, List, [], ◌∷◌, Option, none, some, ltb, leb, eqb,
  if◌then◌else◌, length, ◌==◌, Result, ok, err,
}
use woongkie_talkie.Chat.{Text, ChatMessage, Chat, chat_message}
use woongkie_talkie.Texts.{escape_string}
use woongkie_talkie.RoomManager.{RoomManager, get_hub}
use woongkie_talkie.Rooms.{
  Database, World, Error, forbidden, edit_window_expired, message_deleted, is_member,
  find_room_by_id,
}
use woongkie_talkie.Rooms.Handlers.{Response, answer, refusal}
use woongkie_talkie.Messages.{
  edit_chat, delete_chat, find_chat_by_id, insert_chat_with_reply, find_chat_by_room,
  find_chat_by_room_before, find_chat_by_room_after,
}

pub record MessagesResponse : Type 0 where
  pub messages : List Chat
  pub has_more : Bool

-- A message for the hub of the room, if the room has one.
unfoldable pub for_hub : String → RoomManager → ChatMessage → List ChatMessage
for_hub room_id rooms msg = elim (get_hub room_id rooms) [ none ↦ [] | some hub ↦ msg ∷ [] ]

-- The checks of an edited or a new text.
unfoldable pub is_bad_text : Text → Bool
is_bad_text body = eqb (length body) 0 || ltb 2000 (length body)

unfoldable pub edit_refusal : {A : Type 0} → Error → Response A
edit_refusal forbidden = refusal 403 "수정 권한이 없습니다"
edit_refusal edit_window_expired = refusal 403 "5분이 지나 수정할 수 없습니다"
edit_refusal message_deleted = refusal 410 "삭제된 메시지입니다"
edit_refusal e = refusal 404 "메시지를 찾을 수 없습니다"

unfoldable pub delete_refusal : {A : Type 0} → Error → Response A
delete_refusal forbidden = refusal 403 "삭제 권한이 없습니다"
delete_refusal e = refusal 404 "메시지를 찾을 수 없습니다"

-- The answer to a search of messages, and when it says that there are more.
unfoldable pub messages_answer :
    (List Chat → Bool) → Result Error (List Chat) → Response MessagesResponse
messages_answer more (err e) = refusal 500 "메시지 조회에 실패했습니다"
messages_answer more (ok chats) = answer 200 (record { messages = chats; has_more = more chats })

-- limit as the query parameter gives it, where it is a number.
unfoldable pub page_limit : Option ℕ → ℕ
page_limit none = 50
page_limit (some l) = if ltb 0 l && leb l 100 then l else 50

-- A time of the query: absent, unreadable for time.Parse, or a time.
pub data TimeParam : Type 0 where
  absent unreadable : TimeParam
  at : ℕ → TimeParam

module _ (db : Database) where
  -- none lets the request pass.
  unfoldable pub require_room_member : String → String → World db → Option (ℕ × String)
  require_room_member room_id username w =
      if room_id == "" then none else elim (find_room_by_id db room_id w) [
        | err e ↦ some (404, "채팅방을 찾을 수 없습니다")
        | ok room ↦
            if room.is_public || room.is_default
            then none
            else if username == ""
            then some (401, "인증이 필요합니다")
            else if is_member username room
            then none
            else some (403, "채팅방 멤버만 접근할 수 있습니다")
      ]

  -- From the accepted text on.
  unfoldable pub edit_accepted :
      String
      → String
      → String
      → Text
      → ℕ
      → ℕ
      → ℕ
      → RoomManager
      → World db
      → Response Chat × List ChatMessage × World db
  edit_accepted room_id msg_id username body since cutoff now rooms w =
      let (reply, w') =
        edit_chat db msg_id username room_id (escape_string body) since cutoff now w in
      elim reply [
        | err e ↦ (edit_refusal e, [], w')
        | ok updated ↦ (
          answer 200 updated,
          for_hub room_id rooms (record (chat_message "MSG_EDIT" username room_id updated.message) {
            message_id = msg_id;
          }),
          w',
        )
      ]

  unfoldable pub edit_message_handler :
      String
      → String
      → String
      → Option Text
      → ℕ
      → ℕ
      → ℕ
      → RoomManager
      → World db
      → Response Chat × List ChatMessage × World db
  edit_message_handler room_id msg_id username request since cutoff now rooms w =
      elim (require_room_member room_id username w) [
        | some (status, text) ↦ (refusal status text, [], w)
        | none ↦ if username == "" then (refusal 401 "인증이 필요합니다", [], w) else elim request [
          | none ↦ (refusal 400 "잘못된 요청입니다", [], w)
          | some body ↦
              if is_bad_text body
              then (refusal 400 "메시지는 1자 이상 2000자 이하이어야 합니다", [], w)
              else edit_accepted room_id msg_id username body since cutoff now rooms w
        ]
      ]

  unfoldable pub delete_allowed :
      String
      → String
      → String
      → RoomManager
      → World db
      → Response String × List ChatMessage × World db
  delete_allowed room_id msg_id username rooms w =
      let (reply, w') = delete_chat db msg_id username w in
      elim reply [
        | err e ↦ (delete_refusal e, [], w')
        | ok _ ↦ (
          answer 200 "메시지가 삭제되었습니다",
          for_hub room_id rooms
              (record (chat_message "MSG_DELETE" username room_id []) { message_id = msg_id }),
          w',
        )
      ]

  unfoldable pub delete_message_handler :
      String
      → String
      → String
      → RoomManager
      → World db
      → Response String × List ChatMessage × World db
  delete_message_handler room_id msg_id username rooms w =
      elim (require_room_member room_id username w) [
        | some (status, text) ↦ (refusal status text, [], w)
        | none ↦
            if username == ""
            then (refusal 401 "인증이 필요합니다", [], w)
            else delete_allowed room_id msg_id username rooms w
      ]

  -- From the parent on.
  unfoldable pub reply_to_parent :
      String
      → String
      → String
      → Text
      → ℕ
      → RoomManager
      → World db
      → Response Chat × List ChatMessage × World db
  reply_to_parent room_id msg_id username body now rooms w =
      let escaped = escape_string body in
      let (reply, w') =
        insert_chat_with_reply db now
          (record (chat_message "" username room_id escaped) { reply_to = msg_id }) w in
      elim reply [
        | err e ↦ (refusal 500 "메시지 저장에 실패했습니다", [], w')
        | ok saved ↦ (
          answer 201 saved,
          for_hub room_id rooms (record (chat_message "MSG" username room_id escaped) {
            message_id = saved.id;
            reply_to = msg_id;
          }),
          w',
        )
      ]

  unfoldable pub reply_accepted :
      String
      → String
      → String
      → Text
      → ℕ
      → RoomManager
      → World db
      → Response Chat × List ChatMessage × World db
  reply_accepted room_id msg_id username body now rooms w = elim (find_chat_by_id db msg_id w) [
    | err e ↦ (refusal 404 "원본 메시지를 찾을 수 없습니다", [], w)
    | ok parent ↦
        if parent.is_deleted
        then (refusal 410 "삭제된 메시지에는 답장할 수 없습니다", [], w)
        else reply_to_parent room_id msg_id username body now rooms w
  ]

  unfoldable pub reply_message_handler :
      String
      → String
      → String
      → Option Text
      → ℕ
      → RoomManager
      → World db
      → Response Chat × List ChatMessage × World db
  reply_message_handler room_id msg_id username request now rooms w =
      elim (require_room_member room_id username w) [
        | some (status, text) ↦ (refusal status text, [], w)
        | none ↦ if username == "" then (refusal 401 "인증이 필요합니다", [], w) else elim request [
          | none ↦ (refusal 400 "잘못된 요청입니다", [], w)
          | some body ↦
              if is_bad_text body
              then (refusal 400 "메시지는 1자 이상 2000자 이하이어야 합니다", [], w)
              else reply_accepted room_id msg_id username body now rooms w
        ]
      ]

  unfoldable pub get_room_messages_handler :
      String → String → TimeParam → TimeParam → Option ℕ → World db → Response MessagesResponse
  get_room_messages_handler room_id username before after limit w =
      elim (require_room_member room_id username w) [
        | some (status, text) ↦ refusal status text
        | none ↦ elim after [
          | unreadable ↦ refusal 400 "잘못된 시간 형식입니다"
          | at t ↦ messages_answer (λ _. false) (find_chat_by_room_after db room_id t w)
          | absent ↦ elim before [
            | unreadable ↦ refusal 400 "잘못된 시간 형식입니다"
            | at t ↦
                messages_answer (λ chats. eqb (length chats) (page_limit limit))
                  (find_chat_by_room_before db room_id t (page_limit limit) w)
            | absent ↦
                messages_answer (λ chats. leb 100 (length chats)) (find_chat_by_room db room_id w)
          ]
        ]
      ]
