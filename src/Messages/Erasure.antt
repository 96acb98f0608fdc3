-- ===== src/Messages/Erasure.antt =====
-- pkg/mongoDB/chat.go: a deleted message has lost its text for good.
use woongkie_talkie.Base.{
  ℕ, ◌≡◌, ◌⊎◌, inl, inr, refl, String, Bool, true, false, List, [], ◌∷◌, Option, All, arith,
  Option-cases,
}
use woongkie_talkie.Chat.{Text, ChatMessage, Chat}
use woongkie_talkie.Mongo.Laws.{All-update_first, Inserted-All}
use woongkie_talkie.Rooms.{Database, World, chat_schema}
use woongkie_talkie.Messages.{
  may_edit, edited, may_delete, erased, chat_of, reply_of, insert_chat, insert_chat_with_reply,
  edit_found, update_edited, edit_chat, delete_chat,
}

-- A message that is there, or one without a text.
abbrev pub IsErased : Chat → Type 0
IsErased chat = (chat.is_deleted ≡ false) ⊎ (chat.message ≡ [])

-- The operations on messages; a change of the rooms may delete messages too.
pub data Op : Type 0 where
  inserts : (String → Option String) → ℕ → ChatMessage → Op
  replies : ℕ → ChatMessage → Op
  edits : String → String → String → Text → ℕ → ℕ → ℕ → Op
  deletes : String → String → Op

module _ (db : Database) where
  abbrev pub apply : Op → World db → World db
  apply (inserts unmarshal now msg) w = (insert_chat db unmarshal now msg w).1
  apply (replies now msg) w = (insert_chat_with_reply db now msg w).1
  apply (edits id username room body since cutoff now) w =
      (edit_chat db id username room body since cutoff now w).1
  apply (deletes id username) w = (delete_chat db id username w).1

  unfoldable pub run : List Op → World db → World db
  run [] w = w
  run (op ∷ ops) w = run ops (apply op w)

  -- Of every stored message.
  abbrev pub Erased : World db → Type 0
  Erased w = All IsErased (db.chats.docs w.chats)

  changed-Erased :
      (p : Chat → Bool) (f : Chat → Chat) (w : World db)
      → ((c : Chat) → p c ≡ true → IsErased c → IsErased (f c))
      → Erased w
      → All IsErased (db.chats.docs (db.chats.find_one_and_update p f w.chats).1)
  changed-Erased p f w h v = elim (db.chats.find_one_and_update_lem p f w.chats) [
    | inl (e, now) ↦ rw now (All-update_first IsErased p f _ h v)
    | inr (e, inl now) ↦ rw now v
    | inr (e, inr now) ↦ rw now (All-update_first IsErased p f _ h v)
  ]

  insert_chat-Erased :
      (unmarshal : String → Option String) (now : ℕ) (msg : ChatMessage) (w : World db)
      → Erased w
      → Erased (insert_chat db unmarshal now msg w).1
  unfolding insert_chat chat_of
  insert_chat-Erased unmarshal now msg w v =
      let chat = chat_of unmarshal now msg in
      Inserted-All IsErased chat_schema chat (db.chats.docs w.chats) _ _
        (db.chats.insert_one_lem chat w.chats) (λ i. inl refl) v

  insert_chat_with_reply-Erased :
      (now : ℕ) (msg : ChatMessage) (w : World db)
      → Erased w
      → Erased (insert_chat_with_reply db now msg w).1
  unfolding insert_chat_with_reply chat_of reply_of
  insert_chat_with_reply-Erased now msg w v =
      Inserted-All IsErased chat_schema (reply_of now msg) (db.chats.docs w.chats) _ _
        (db.chats.insert_one_lem (reply_of now msg) w.chats) (λ i. inl refl) v

  changed_by_edit :
      (oid username room : String) (body : Text) (cutoff now : ℕ) (w : World db)
      → Erased w
      → All IsErased (
          db.chats.docs
            (db.chats.find_one_and_update
              (may_edit oid room username cutoff)
              (edited body now)
              w.chats).1)
  unfolding may_edit
  changed_by_edit oid username room body cutoff now w v =
      changed-Erased (may_edit oid room username cutoff) (edited body now) w
        (λ c e h. inl (ground (arith, e))) v

  update_edited-Erased :
      (oid username room : String) (body : Text) (cutoff now : ℕ) (w : World db)
      → Erased w
      → Erased (update_edited db oid username room body cutoff now w).1
  unfolding update_edited
  update_edited-Erased oid username room body cutoff now w v =
      changed_by_edit oid username room body cutoff now w v

  edit_found-Erased :
      (oid username room : String) (body : Text) (since cutoff now : ℕ) (checked : Chat)
      (w : World db)
      → Erased w
      → Erased (edit_found db oid username room body since cutoff now checked w).1
  unfolding edit_found
  edit_found-Erased oid username room body since cutoff now checked w v =
      ground (arith, v, update_edited-Erased oid username room body cutoff now w v)

  edit_chat-Erased :
      (id username room : String) (body : Text) (since cutoff now : ℕ) (w : World db)
      → Erased w
      → Erased (edit_chat db id username room body since cutoff now w).1
  unfolding edit_chat
  edit_chat-Erased id username room body since cutoff now w v = grind (arith, v, edit_found-Erased)

  delete_chat-Erased :
      (id username : String) (w : World db) → Erased w → Erased (delete_chat db id username w).1
  unfolding delete_chat
  delete_chat-Erased id username w v = elim (Option-cases (db.from_hex id)) [
    | inl bad ↦ rw (delete_chat, bad) v
    | inr (oid, good) ↦
        rw (delete_chat, good)
          (changed-Erased (may_delete oid username) erased w (λ c e h. inr refl) v)
  ]

  apply-Erased : (op : Op) (w : World db) → Erased w → Erased (apply op w)
  apply-Erased (inserts unmarshal now msg) w v = insert_chat-Erased unmarshal now msg w v
  apply-Erased (replies now msg) w v = insert_chat_with_reply-Erased now msg w v
  apply-Erased (edits id username room body since cutoff now) w v =
      edit_chat-Erased id username room body since cutoff now w v
  apply-Erased (deletes id username) w v = delete_chat-Erased id username w v

-- If every deleted message has no text, this is so after any sequence of inserts, replies, edits
-- and deletions of messages, by whomever and at whatever times, and whichever calls of the
-- database fail, with or without having written.
pub run-Erased :
    (db : Database) (ops : List Op) (w : World db) → Erased db w → Erased db (run db ops w)
unfolding run
run-Erased db [] w v = v
run-Erased db (op ∷ ops) w v = run-Erased db ops (apply db op w) (apply-Erased db op w v)
