-- ===== src/Client/Tests.antt =====
-- Small sessions of a client: the theorems at concrete inputs.
use woongkie_talkie.Base.{ℕ, ◌-◌, ◌≡◌, refl, true, false, List, [], ◌∷◌, some, none, All, ltb}
use woongkie_talkie.Chat.{ChatMessage, Chat, chat_message, codes}
use woongkie_talkie.Hub.{Hub, broadcast_local, is_typing}
use woongkie_talkie.Hub.Delivery.{is_slow, skips}
use woongkie_talkie.Hub.Tests.{client_of, jammed, jammed-IsValid, hello}
use woongkie_talkie.Client.{RateLimiter, Moment, Session, warn, read_pump}
use woongkie_talkie.Client.ReadPump.{Sent, read_pump-IsClean}
use woongkie_talkie.Client.Eviction.{warn_after_eviction}
use woongkie_talkie.Client.InsertWorker.{
  Ready, received, ticked, run_insert_worker, messages, all_of, IsBatch, run_insert_worker_lem,
}

-- So many messages, and no new tokens.
abbrev bucket : RateLimiter
bucket = record { Limiter = ℕ; allow = λ n. (ltb 0 n, n - 1) }

abbrev noon : Moment
noon = record { object_id = "5f"; now = "12:00"; queue_takes = true; hub_takes = true }

abbrev fresh : Session bucket
fresh = record {
  client = client_of "ann" [];
  limiter = 1;
  queued = [];
  to_hub = [];
  messages_total = 0;
  messages_dropped = 0;
}

-- A name that is not the sender's, an event of the server, and one message too many.
abbrev typed : List (Moment × ChatMessage)
typed =
    (noon, chat_message "MSG" "bob" "s" (codes "<b>"))
    ∷ (noon, chat_message "KICK" "bob" "r" (codes "bob"))
    ∷ (noon, chat_message "TYPING_START" "bob" "r" [])
    ∷ (noon, hello)
    ∷ []

read_pump-IsClean_example :
    (s' : Session bucket) × (read_pump bucket typed noon fresh ≡ some s') × Sent bucket "ann" "r" s'
read_pump-IsClean_example = read_pump-IsClean bucket typed noon fresh refl refl

warn_after_eviction_example :
    (h' : Hub) × (broadcast_local hello jammed ≡ some h')
    × (warn bucket (codes "x") (record fresh { client = h'.client 0 }) ≡ none)
unfolding is_slow skips is_typing
warn_after_eviction_example =
    warn_after_eviction bucket hello jammed 0 (codes "x") fresh jammed-IsValid refl refl

abbrev arrivals : List Ready
arrivals = ticked ∷ received hello ∷ ticked ∷ received hello ∷ received hello ∷ []

run_insert_worker_lem_example :
    (all_of (run_insert_worker arrivals (record { batch = []; inserted = [] })).inserted
      ≡ messages arrivals)
    × All IsBatch (run_insert_worker arrivals (record { batch = []; inserted = [] })).inserted
run_insert_worker_lem_example = run_insert_worker_lem arrivals

abbrev past : Chat
past = record {
  id = "1";
  created_at = 7;
  edited_at = none;
  room_id = "r";
  event = "";
  user = "bob";
  message = codes "hi";
  owner = false;
  reply_to = "";
  is_deleted = false;
  encrypted = false;
  encrypted_keys = "";
}
