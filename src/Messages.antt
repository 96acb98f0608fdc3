-- ===== src/Messages.antt =====
-- pkg/mongoDB/chat.go: the stored messages, over the collection of messages. Each reading of the
-- clock is an argument.
pub mod Editing
pub mod Erasure
pub mod Pages
pub mod Handlers
pub mod Access
pub mod Tests
use woongkie_talkie.Base.{
  ℕ, ◌+◌, ◌-◌, ◌*◌, String, Bool, true, false, not, ◌&&◌, List, [], ◌∷◌, Option, none, some, ltb,
  leb, if◌then◌else◌, ◌==◌, Result, ok, err,
}
use mathlib.Core.List.{reverse}
use woongkie_talkie.Chat.{Text, ChatMessage, Chat}
use woongkie_talkie.Mongo.{no_documents, ascending, descending}
use woongkie_talkie.Rooms.{
  Database, World, Error, invalid_id, forbidden, edit_window_expired, message_deleted, database,
  lift,
}

-- 5*time.Minute
abbrev pub edit_window : ℕ
edit_window = 5 * 60 * 1000000000

-- A message as it can be found by its id.
abbrev pub chat_id : String → Chat → Bool
chat_id oid chat = chat.id == oid

-- The filter of EditChat's update, with the time of the cutoff.
unfoldable pub may_edit : String → String → String → ℕ → Chat → Bool
may_edit oid room username now chat =
    chat.id == oid
    && chat.room_id == room
    && chat.user == username
    && not chat.is_deleted
    && ltb now (chat.created_at + edit_window)

abbrev pub edited : Text → ℕ → Chat → Chat
edited body now chat = record chat { message = body; edited_at = some now }

-- The filter of DeleteChat.
unfoldable pub may_delete : String → String → Chat → Bool
may_delete oid username chat = chat.id == oid && chat.user == username && not chat.is_deleted

abbrev pub erased : Chat → Chat
erased chat = record chat { is_deleted = true; message = [] }

-- The messages of a room that are not deleted.
abbrev pub in_room : String → Chat → Bool
in_room room chat = chat.room_id == room && not chat.is_deleted

-- `unmarshal` is json.Unmarshal into a map of strings.
unfoldable pub parse_encrypted_keys : (String → Option String) → String → String
parse_encrypted_keys unmarshal s =
    if s == "" then "" else elim (unmarshal s) [ none ↦ "" | some keys ↦ keys ]

-- The document that InsertManyChat and InsertChat store; the id of the message is not used.
unfoldable pub chat_of : (String → Option String) → ℕ → ChatMessage → Chat
chat_of unmarshal now msg = record {
  id = "";
  created_at = now;
  edited_at = none;
  room_id = msg.room_id;
  event = msg.event;
  user = msg.user;
  message = msg.message;
  owner = msg.owner;
  reply_to = msg.reply_to;
  is_deleted = false;
  encrypted = msg.encrypted;
  encrypted_keys = parse_encrypted_keys unmarshal msg.encrypted_keys;
}

-- InsertChatWithReply leaves the encryption out.
unfoldable pub reply_of : ℕ → ChatMessage → Chat
reply_of now msg = record (chat_of (λ _. none) now msg) { encrypted = false; encrypted_keys = "" }

module _ (db : Database) where
  unfoldable pub insert_chat :
      (String → Option String) → ℕ → ChatMessage → World db → Result Error String × World db
  insert_chat unmarshal now msg w =
      let (reply, chats') = db.chats.insert_one (chat_of unmarshal now msg) w.chats in
      (lift reply, record w { chats = chats' })

  unfoldable pub insert_chat_with_reply : ℕ → ChatMessage → World db → Result Error Chat × World db
  insert_chat_with_reply now msg w =
      let chat = reply_of now msg in
      let (reply, chats') = db.chats.insert_one chat w.chats in
      (
        elim reply [ ok i ↦ ok (record chat { id = i }) | err f ↦ err (database f) ],
        record w { chats = chats' },
      )

  -- The messages since the start of the day.
  unfoldable pub count_today_messages : ℕ → World db → Result Error ℕ
  count_today_messages start_of_day w =
      lift (db.chats.count (λ c. leb start_of_day c.created_at) w.chats)

  unfoldable pub find_chat_by_room : String → World db → Result Error (List Chat)
  find_chat_by_room room w =
      lift (db.chats.find_sorted (in_room room) (λ c. c.created_at) ascending 100 w.chats)

  -- The loop at the end reverses the page in place.
  unfoldable pub find_chat_by_room_before : String → ℕ → ℕ → World db → Result Error (List Chat)
  find_chat_by_room_before room before limit w =
      elim (db.chats.find_sorted (λ c. in_room room c && ltb c.created_at before)
        (λ c. c.created_at) descending limit w.chats) [
          | err f ↦ err (database f)
          | ok page ↦ ok (reverse page)
        ]

  unfoldable pub find_chat_by_room_after : String → ℕ → World db → Result Error (List Chat)
  find_chat_by_room_after room after w = lift (
      db.chats.find_sorted (λ c. in_room room c && ltb after c.created_at) (λ c. c.created_at)
        ascending 200 w.chats)

  -- The latest 500 messages of all rooms.
  unfoldable pub find_chat : World db → Result Error (List Chat)
  find_chat w = lift (db.chats.find_sorted (λ c. true) (λ c. c.created_at) descending 500 w.chats)

  unfoldable pub find_chat_by_id : String → World db → Result Error Chat
  find_chat_by_id message_id w = elim (db.from_hex message_id) [
    | none ↦ err invalid_id
    | some oid ↦ lift (db.chats.find_one (chat_id oid) w.chats)
  ]

  -- The atomic update of EditChat.
  unfoldable pub update_edited :
      String → String → String → Text → ℕ → ℕ → World db → Result Error Chat × World db
  update_edited oid username room body cutoff now w =
      let (reply, chats') =
        db.chats.find_one_and_update (may_edit oid room username cutoff) (edited body now)
          w.chats in
      (
        elim reply [
          | ok chat ↦ ok chat
          | err no_documents ↦ err edit_window_expired
          | err f ↦ err (database f)
        ],
        record w { chats = chats' },
      )

  -- From the checks on: `checked` is the document that was read.
  unfoldable pub edit_found :
      String → String → String → Text → ℕ → ℕ → ℕ → Chat → World db → Result Error Chat × World db
  edit_found oid username room body since cutoff now checked w =
      if not (checked.user == username)
      then (err forbidden, w)
      else if checked.is_deleted
      then (err message_deleted, w)
      else if ltb edit_window (since - checked.created_at)
      then (err edit_window_expired, w)
      else update_edited oid username room body cutoff now w

  -- The clock is read three times: for the check, for the cutoff, and for edited_at.
  unfoldable pub edit_chat :
      String → String → String → Text → ℕ → ℕ → ℕ → World db → Result Error Chat × World db
  edit_chat message_id username room body since cutoff now w = elim (db.from_hex message_id) [
    | none ↦ (err invalid_id, w)
    | some oid ↦ elim (db.chats.find_one (λ c. chat_id oid c && c.room_id == room) w.chats) [
      | err f ↦ (err (database f), w)
      | ok checked ↦ edit_found oid username room body since cutoff now checked w
    ]
  ]

  -- Why nothing was deleted.
  unfoldable pub why_not_deleted : String → World db → Result Error (Unit {0})
  why_not_deleted oid w = elim (db.chats.find_one (chat_id oid) w.chats) [
    | err f ↦ err (database f)
    | ok existing ↦ err forbidden
  ]

  unfoldable pub delete_chat : String → String → World db → Result Error (Unit {0}) × World db
  delete_chat message_id username w = elim (db.from_hex message_id) [
    | none ↦ (err invalid_id, w)
    | some oid ↦
        let (reply, chats') =
          db.chats.find_one_and_update (may_delete oid username) erased w.chats in
        let w' : World db = record w { chats = chats' } in
        (
          elim reply [
            | ok old ↦ ok tt
            | err no_documents ↦ why_not_deleted oid w'
            | err f ↦ err (database f)
          ],
          w',
        )
  ]
