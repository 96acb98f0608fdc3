-- ===== src/Chat.antt =====
-- pkg/mongoDB/chat.go: the message that clients, hubs and Redis exchange. Names, ids and events are
-- whole strings, which the program only compares; the body of a message is a list of code points.
use Prim.Native.Char.{code}
use woongkie_talkie.Base.{ℕ, String, Bool, List, [], ◌∷◌, Option}

abbrev pub Text : Type 0
Text = List ℕ

abbrev pub codes : String → Text
codes String.[] = []
codes (String.◌∷◌ c s) = code c ∷ codes s

pub record ChatMessage : Type 0 where
  pub event : String
  pub user : String
  pub message : Text
  pub owner : Bool
  pub room_id : String
  pub message_id : String
  pub created_at : String
  pub reply_to : String
  pub encrypted : Bool
  pub encrypted_keys : String

-- A message with the fields that every literal of the program sets, and Go's zero values elsewhere.
abbrev pub chat_message : String → String → String → Text → ChatMessage
chat_message event user room body = record {
  event = event;
  user = user;
  message = body;
  owner = Bool.false;
  room_id = room;
  message_id = "";
  created_at = "";
  reply_to = "";
  encrypted = Bool.false;
  encrypted_keys = "";
}

-- A stored message. Times are in nanoseconds. The keys are those that were parsed, "" for nil.
pub record Chat : Type 0 where
  pub id : String
  pub created_at : ℕ
  pub edited_at : Option ℕ
  pub room_id : String
  pub event : String
  pub user : String
  pub message : Text
  pub owner : Bool
  pub reply_to : String
  pub is_deleted : Bool
  pub encrypted : Bool
  pub encrypted_keys : String
