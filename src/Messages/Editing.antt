-- ===== src/Messages/Editing.antt =====
-- pkg/mongoDB/chat.go, EditChat and DeleteChat: whose messages they change, and when.
use woongkie_talkie.Base.{
  ℕ, ◌+◌, ◌-◌, ◌<◌, ◌≡◌, ◌⊎◌, inl, inr, refl, ap, ◌∙◌, String, Bool, false, ◌&&◌, List, [], ◌∷◌,
  ◌++◌, true, none, some, ltb, find, ◌==◌, Result, ok, err, arith, Bool-cases, Option-cases,
  Result-cases, eq_iff,
}
use mathlib.Core.Option
use woongkie_talkie.Chat.{Text, Chat}
use woongkie_talkie.Mongo.{Reply, FoundAndUpdated, no_documents, failure, found, update_first}
use woongkie_talkie.Mongo.Laws.{find-p}
use woongkie_talkie.Rooms.{
  Database, World, Error, forbidden, edit_window_expired, message_deleted, database,
}
use woongkie_talkie.Messages.{
  edit_window, may_edit, edited, may_delete, erased, edit_found, edit_chat, delete_chat,
  why_not_deleted, update_edited,
}

update_first-none :
    (p : Chat → Bool) (f : Chat → Chat) (cs : List Chat)
    → find p cs ≡ none
    → update_first p f cs ≡ cs
update_first-none p f [] e = refl
update_first-none p f (c ∷ cs) e = elim (Bool-cases (p c)) [
  | inl hit ↦ absurd (ground (arith, hit, e))
  | inr miss ↦ rw miss (ap (◌∷◌ c) (update_first-none p f cs (rw miss at e)))
]

-- The one document that the search finds is replaced, where it stands.
abbrev pub Replaced : Chat → Chat → List Chat → List Chat → Type 0
Replaced chat chat' old now =
    (before after : List Chat) × (old ≡ before ++ chat ∷ after) × (now ≡ before ++ chat' ∷ after)

update_first-Replaced :
    (p : Chat → Bool) (f : Chat → Chat) (c : Chat) (cs : List Chat)
    → find p cs ≡ some c
    → Replaced c (f c) cs (update_first p f cs)
update_first-Replaced p f c [] e = cc
update_first-Replaced p f c (x ∷ cs) e = elim (Bool-cases (p x)) [
  | inl hit ↦ let same : x ≡ c = ground (arith, hit, e) in rw (hit, same) ([], cs, refl, refl)
  | inr miss ↦
      let (before, after, was, is) = update_first-Replaced p f c cs (rw miss at e) in
      rw miss (x ∷ before, after, ap (◌∷◌ x) was, ap (◌∷◌ x) is)
]

-- A document was found and written, or none was found, or the database failed.
data Updated (p : Chat → Bool) (f : Chat → Chat) (old : List Chat) (reply : Reply Chat)
    (now : List Chat) : Type 0 where
  written :
      (c : Chat)
      → find p old ≡ some c
      → reply ≡ ok (f c)
      → now ≡ update_first p f old
      → Updated p f old reply now
  nothing_found : reply ≡ err no_documents → now ≡ old → Updated p f old reply now
  failed : reply ≡ err failure → now ≡ old → Updated p f old reply now
  failed_written :
      (c : Chat)
      → find p old ≡ some c
      → reply ≡ err failure
      → now ≡ update_first p f old
      → Updated p f old reply now

FoundAndUpdated-Updated :
    (p : Chat → Bool) (f : Chat → Chat) (old now : List Chat) (reply : Reply Chat)
    → FoundAndUpdated p f old reply now
    → Updated p f old reply now
FoundAndUpdated-Updated p f old now reply (inr (e, inl stays)) = failed e stays
FoundAndUpdated-Updated p f old now reply (inr (e, inr done)) = elim (Option-cases (find p old)) [
  | inl none_hit ↦ failed e (done ∙ update_first-none p f old none_hit)
  | inr (c, hit) ↦ failed_written c hit e done
]
FoundAndUpdated-Updated p f old now reply (inl (e, done)) = elim (Option-cases (find p old)) [
  | inl none_hit ↦
      nothing_found (e ∙ ap (λ o. found (Option.map f o)) none_hit)
        (done ∙ update_first-none p f old none_hit)
  | inr (c, hit) ↦ written c hit (e ∙ ap (λ o. found (Option.map f o)) hit) done
]

module _ (db : Database) where
  -- The edit of a message in that room, which the user wrote less than five minutes before the
  -- cutoff was computed and which is not deleted: it stands where it was, with the new text and the
  -- time of the edit, and is otherwise unchanged; so is every other message.
  pub record IsEdit (oid username room : String) (body : Text) (cutoff now : ℕ) (w w' : World db)
      (chat : Chat) : Type 0 where
    pub id : chat.id ≡ oid
    pub user : chat.user ≡ username
    pub room_id : chat.room_id ≡ room
    pub present : chat.is_deleted ≡ false
    pub recent : cutoff < chat.created_at + edit_window
    pub new :
        Replaced chat
          (record chat { message = body; edited_at = some now })
          (db.chats.docs w.chats)
          (db.chats.docs w'.chats)

  abbrev pub EditOutcome :
      String → String → String → Text → ℕ → ℕ → World db → Result Error Chat × World db → Type 0
  EditOutcome oid username room body cutoff now w (reply, w') =
      ((chat : Chat) × IsEdit oid username room body cutoff now w w' chat
        × (reply ≡ ok (record chat { message = body; edited_at = some now })))
      ⊎ ((e : Error) × (reply ≡ err e)
          × ((db.chats.docs w'.chats ≡ db.chats.docs w.chats)
              ⊎ ((e ≡ database failure)
                  × ((chat : Chat) × IsEdit oid username room body cutoff now w w' chat))))

  is_edit :
      (oid username room : String) (body : Text) (cutoff now : ℕ) (w w' : World db) (chat : Chat)
      → find (may_edit oid room username cutoff) (db.chats.docs w.chats) ≡ some chat
      → db.chats.docs w'.chats
        ≡ update_first (may_edit oid room username cutoff) (edited body now) (db.chats.docs w.chats)
      → IsEdit oid username room body cutoff now w w' chat
  unfolding may_edit
  is_edit oid username room body cutoff now w w' chat e n =
      let p = find-p (may_edit oid room username cutoff) (db.chats.docs w.chats) chat e in
      record {
        id = (eq_iff chat.id oid).0 (ground (arith, p));
        user = (eq_iff chat.user username).0 (ground (arith, p));
        room_id = (eq_iff chat.room_id room).0 (ground (arith, p));
        present = ground (arith, p);
        recent = ground (arith, p);
        new = rw n (
            update_first-Replaced (may_edit oid room username cutoff) (edited body now) chat
              (db.chats.docs w.chats) e);
      }

  update_edited_lem :
      (oid username room : String) (body : Text) (cutoff now : ℕ) (w : World db)
      → EditOutcome oid username room body cutoff now w
          (update_edited db oid username room body cutoff now w)
  unfolding update_edited
  update_edited_lem oid username room body cutoff now w =
      let p = may_edit oid room username cutoff in
      let f = edited body now in
      let w' : World db = record w { chats = (db.chats.find_one_and_update p f w.chats).1 } in
      let edit = is_edit oid username room body cutoff now w w' in
      elim (FoundAndUpdated-Updated p f _ _ _ (db.chats.find_one_and_update_lem p f w.chats)) [
        | written c hit e done ↦ rw (update_edited, e) (inl (c, edit c hit done, refl))
        | nothing_found e stays ↦ rw (update_edited, e) (inr (edit_window_expired, refl, inl stays))
        | failed e stays ↦ rw (update_edited, e) (inr (database failure, refl, inl stays))
        | failed_written c hit e done ↦
            rw (update_edited, e) (inr (database failure, refl, inr (refl, (c, edit c hit done))))
      ]

  edit_found_lem :
      (oid username room : String) (body : Text) (since cutoff now : ℕ) (checked : Chat)
      (w : World db)
      → EditOutcome oid username room body cutoff now w
          (edit_found db oid username room body since cutoff now checked w)
  unfolding edit_found
  edit_found_lem oid username room body since cutoff now checked w =
      elim (Bool-cases (checked.user == username)) [
        | inr other ↦ rw (edit_found, other) (inr (forbidden, refl, inl refl))
        | inl own ↦ elim (Bool-cases checked.is_deleted) [
          | inl gone ↦ rw (edit_found, own, gone) (inr (message_deleted, refl, inl refl))
          | inr present ↦ elim (Bool-cases (ltb edit_window (since - checked.created_at))) [
            | inl late ↦
                rw (edit_found, own, present, late) (inr (edit_window_expired, refl, inl refl))
            | inr early ↦
                rw (edit_found, own, present, early)
                  (update_edited_lem oid username room body cutoff now w)
          ]
        ]
      ]

-- Where the id is well formed, edit_chat succeeds only with a message that is in the room, that the
-- user wrote, that is not deleted, and that is younger than five minutes at the cutoff; then that
-- message has the new text and the time of the edit, is otherwise as it was, and is returned, and
-- every other message stays as it was. With any error no message is changed, unless the database
-- failed in the course of such an edit.
pub edit_chat_lem :
    (db : Database) (id oid username room : String) (body : Text) (since cutoff now : ℕ)
    (w : World db)
    → db.from_hex id ≡ some oid
    → EditOutcome db oid username room body cutoff now w
        (edit_chat db id username room body since cutoff now w)
unfolding edit_chat
edit_chat_lem db id oid username room body since cutoff now w good =
    elim (Result-cases (db.chats.find_one (λ c. c.id == oid && c.room_id == room) w.chats)) [
      | inr (f, missing) ↦ rw (edit_chat, good, missing) (inr (database f, refl, inl refl))
      | inl (checked, e) ↦
          rw (edit_chat, good, e)
            (edit_found_lem db oid username room body since cutoff now checked w)
    ]

module _ (db : Database) where
  -- The user's own message, not deleted before, is emptied and marked where it stands; every other
  -- message is unchanged.
  pub record IsErasure (oid username : String) (w w' : World db) : Type 0 where
    pub chat : Chat
    pub id : chat.id ≡ oid
    pub user : chat.user ≡ username
    pub present : chat.is_deleted ≡ false
    pub new :
        Replaced chat
          (record chat { message = []; is_deleted = true })
          (db.chats.docs w.chats)
          (db.chats.docs w'.chats)

  abbrev pub ErasureOutcome :
      String → String → World db → Result Error (Unit {0}) × World db → Type 0
  ErasureOutcome oid username w (reply, w') =
      (IsErasure oid username w w' × (reply ≡ ok tt))
      ⊎ ((e : Error) × (reply ≡ err e)
          × ((db.chats.docs w'.chats ≡ db.chats.docs w.chats)
              ⊎ ((e ≡ database failure) × IsErasure oid username w w')))

  is_erasure :
      (oid username : String) (w w' : World db) (chat : Chat)
      → find (may_delete oid username) (db.chats.docs w.chats) ≡ some chat
      → db.chats.docs w'.chats
        ≡ update_first (may_delete oid username) erased (db.chats.docs w.chats)
      → IsErasure oid username w w'
  unfolding may_delete
  is_erasure oid username w w' chat e n =
      let p = find-p (may_delete oid username) (db.chats.docs w.chats) chat e in
      record {
        chat = chat;
        id = (eq_iff chat.id oid).0 (ground (arith, p));
        user = (eq_iff chat.user username).0 (ground (arith, p));
        present = ground (arith, p);
        new =
            rw n (
              update_first-Replaced (may_delete oid username) erased chat (db.chats.docs w.chats)
                e);
      }

  why_not_deleted-err :
      (oid : String) (w : World db) → (e : Error) × (why_not_deleted db oid w ≡ err e)
  unfolding why_not_deleted
  why_not_deleted-err oid w = elim (Result-cases (db.chats.find_one (λ c. c.id == oid) w.chats)) [
    | inl (c, e) ↦ (forbidden, rw (why_not_deleted, e) refl)
    | inr (f, e) ↦ (database f, rw (why_not_deleted, e) refl)
  ]

-- Where the id is well formed, delete_chat succeeds only with a message that the user wrote and
-- that is not deleted; then that message is marked as deleted and its text is empty, it is otherwise
-- as it was, and every other message stays as it was. With any error no message is changed, unless
-- the database failed in the course of such a deletion.
pub delete_chat_lem :
    (db : Database) (id oid username : String) (w : World db)
    → db.from_hex id ≡ some oid
    → ErasureOutcome db oid username w (delete_chat db id username w)
unfolding delete_chat
delete_chat_lem db id oid username w good =
    let p = may_delete oid username in
    let w' : World db = record w { chats = (db.chats.find_one_and_update p erased w.chats).1 } in
    let erasure = is_erasure db oid username w w' in
    elim (FoundAndUpdated-Updated p erased _ _ _
      (db.chats.find_one_and_update_lem p erased w.chats)) [
        | written c hit e done ↦ rw (delete_chat, good, e) (inl (erasure c hit done, refl))
        | nothing_found e stays ↦
            let (why, fails) = why_not_deleted-err db oid w' in
            rw (delete_chat, good, e) (inr (why, fails, inl stays))
        | failed e stays ↦ rw (delete_chat, good, e) (inr (database failure, refl, inl stays))
        | failed_written c hit e done ↦
            rw (delete_chat, good, e) (inr (database failure, refl, inr (refl, erasure c hit done)))
      ]
