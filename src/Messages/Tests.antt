-- ===== src/Messages/Tests.antt =====
-- A few messages in memory: the theorems at concrete inputs.
use mathlib.Core.List.{Perm}
use Prim.Native.Nat.{min}
use woongkie_talkie.Base.{
  ℕ, ◌≡◌, ◌⊎◌, refl, inl, String, false, ◌&&◌, List, [], ◌∷◌, ◌++◌, some, none, ok, err, ltb,
  length, keep, eqb, if◌then◌else◌,
}
use woongkie_talkie.Chat.{Chat, chat_message, codes}
use woongkie_talkie.Mongo.{failure, Ordered, ascending}
use woongkie_talkie.RoomManager.Tests.{start}
use woongkie_talkie.Rooms.{World, database, find_room_by_id}
use woongkie_talkie.Rooms.Handlers.{refusal}
use woongkie_talkie.Rooms.Tests.{db, den, two_rooms}
use woongkie_talkie.Messages.{
  edit_chat, delete_chat, in_room, find_chat_by_room, find_chat_by_room_before,
}
use woongkie_talkie.Messages.Editing.{EditOutcome, edit_chat_lem, ErasureOutcome, delete_chat_lem}
use woongkie_talkie.Messages.Erasure.{Op, inserts, replies, edits, deletes, run, Erased, run-Erased}
use woongkie_talkie.Messages.Pages.{NotAfter, find_chat_by_room_lem, find_chat_by_room_before_lem}
use woongkie_talkie.Messages.Handlers.{
  absent, require_room_member, edit_message_handler, delete_message_handler, reply_message_handler,
  get_room_messages_handler,
}
use woongkie_talkie.Messages.Access.{outsider_refused, delete_ignores_room}

abbrev old : Chat
old = record {
  id = "66";
  created_at = 1;
  edited_at = none;
  room_id = "55";
  event = "";
  user = "ann";
  message = codes "hi";
  owner = false;
  reply_to = "";
  is_deleted = false;
  encrypted = false;
  encrypted_keys = "";
}

abbrev lively : World db
lively = record two_rooms { chats = old ∷ record old { id = "77"; created_at = 3 } ∷ [] }

edit_chat_lem_example :
    EditOutcome db "66" "ann" "55"
      (codes "ho")
      5
      6
      lively
      (edit_chat db "66" "ann" "55" (codes "ho") 4 5 6 lively)
edit_chat_lem_example = edit_chat_lem db "66" "66" "ann" "55" (codes "ho") 4 5 6 lively refl

delete_chat_lem_example : ErasureOutcome db "66" "ann" lively (delete_chat db "66" "ann" lively)
delete_chat_lem_example = delete_chat_lem db "66" "66" "ann" lively refl

abbrev changes : List Op
changes =
    deletes "66" "ann"
    ∷ edits "66" "ann" "55" (codes "ho") 4 5 6
    ∷ inserts (λ _. none) 7 (chat_message "" "bob" "55" (codes "x"))
    ∷ replies 8 (chat_message "" "bob" "55" (codes "y"))
    ∷ deletes "33" "bob"
    ∷ []

run-Erased_example : Erased db (run db changes lively)
run-Erased_example = run-Erased db changes lively (inl refl, (inl refl, tt))

find_chat_by_room_lem_example :
    (find_chat_by_room db "55" lively ≡ err (database failure))
    ⊎ ((page left_out : List Chat) × (find_chat_by_room db "55" lively ≡ ok page)
        × Perm (page ++ left_out) (keep (in_room "55") lively.chats)
        × (length page ≡ min 100 (length (keep (in_room "55") lively.chats)))
        × Ordered (λ c. c.created_at) ascending page
        × NotAfter page left_out)
find_chat_by_room_lem_example = find_chat_by_room_lem db "55" lively

find_chat_by_room_before_lem_example :
    (find_chat_by_room_before db "55" 9 1 lively ≡ err (database failure))
    ⊎ ((page left_out : List Chat) × (find_chat_by_room_before db "55" 9 1 lively ≡ ok page)
        × Perm (page ++ left_out) (keep (λ c. in_room "55" c && ltb c.created_at 9) lively.chats)
        × (length page ≡ (
            let total = length (keep (λ c. in_room "55" c && ltb c.created_at 9) lively.chats) in
            if eqb 1 0 then total else min 1 total))
        × Ordered (λ c. c.created_at) ascending page
        × NotAfter left_out page)
find_chat_by_room_before_lem_example = find_chat_by_room_before_lem db "55" 9 1 lively

outsider_refused_example :
    (status : ℕ) × (text : String) × (edit_message_handler db "55" "66" "eve"
        (some (codes "x"))
        4
        5
        6
        start
        lively
      ≡ (refusal status text, [], lively))
    × (delete_message_handler db "55" "66" "eve" start lively ≡ (refusal status text, [], lively))
    × (reply_message_handler db "55" "66" "eve" (some (codes "x")) 6 start lively
        ≡ (refusal status text, [], lively))
    × (get_room_messages_handler db "55" "eve" absent absent none lively ≡ refusal status text)
unfolding find_room_by_id
outsider_refused_example =
    outsider_refused db "55" "66" "eve" den (some (codes "x")) 4 5 6 absent absent none start lively
      refl refl refl refl

delete_ignores_room_example :
    ((delete_message_handler db "11" "66" "ann" start lively).0
      ≡ (delete_message_handler db "55" "66" "ann" start lively).0)
    × ((delete_message_handler db "11" "66" "ann" start lively).2
        ≡ (delete_message_handler db "55" "66" "ann" start lively).2)
unfolding find_room_by_id require_room_member
delete_ignores_room_example = delete_ignores_room db "11" "55" "66" "ann" start lively refl refl
