-- ===== src/Client/InsertWorker.antt =====
-- server/handler/ws_client.go, runInsertWorker: batches of messages for the database.
use woongkie_talkie.Base.{
  ℕ, ◌≤◌, ◌<◌, ◌≡◌, ◌≢◌, refl, sym, ap, ◌∙◌, List, [], ◌∷◌, ◌++◌, if◌then◌else◌, leb, length,
  length-append, All, All-append, arith, inl, inr, Bool-cases,
}
use mathlib.Core.List.{append-nil, append_assoc}
use woongkie_talkie.Chat.{ChatMessage}

abbrev pub insert_batch_size : ℕ
insert_batch_size = 50

-- The batch, and the batches that were handed to InsertManyChat. Whether an insert succeeds is
-- logged and changes nothing here.
pub record InsertWorker : Type 0 where
  pub batch : List ChatMessage
  pub inserted : List (List ChatMessage)

-- The cases of the select.
pub data Ready : Type 0 where
  received : ChatMessage → Ready
  ticked : Ready

-- The flush of a batch: an empty one is not inserted.
unfoldable pub flush_batch : List ChatMessage → List (List ChatMessage) → InsertWorker
flush_batch [] done = record { batch = []; inserted = done }
flush_batch (m ∷ ms) done = record { batch = []; inserted = done ++ (m ∷ ms) ∷ [] }

unfoldable pub flush : InsertWorker → InsertWorker
flush w = flush_batch w.batch w.inserted

unfoldable pub take_message : ChatMessage → InsertWorker → InsertWorker
take_message m w =
    let grown : InsertWorker = record w { batch = w.batch ++ m ∷ [] } in
    if leb insert_batch_size (length grown.batch) then flush grown else grown

unfoldable pub work : Ready → InsertWorker → InsertWorker
work (received m) w = take_message m w
work ticked w = flush w

-- The loop until the queue is closed and drained, and the last flush.
unfoldable pub run_insert_worker : List Ready → InsertWorker → InsertWorker
run_insert_worker [] w = flush w
run_insert_worker (r ∷ rs) w = run_insert_worker rs (work r w)

abbrev pub messages : List Ready → List ChatMessage
messages [] = []
messages (received m ∷ rs) = m ∷ messages rs
messages (ticked ∷ rs) = messages rs

-- All messages of some batches, in order.
abbrev pub all_of : List (List ChatMessage) → List ChatMessage
all_of [] = []
all_of (b ∷ bs) = b ++ all_of bs

-- Everything that the worker has received, in order.
abbrev pub taken : InsertWorker → List ChatMessage
taken w = all_of w.inserted ++ w.batch

-- An insert of at least one and at most fifty messages.
abbrev pub IsBatch : List ChatMessage → Type 0
IsBatch b = (b ≢ []) × (length b ≤ insert_batch_size)

pub record Inv (w : InsertWorker) : Type 0 where
  pub small : length w.batch < insert_batch_size
  pub batches : All IsBatch w.inserted

all_of-append :
    (bs : List (List ChatMessage)) (b : List ChatMessage) → all_of (bs ++ b ∷ []) ≡ all_of bs ++ b
all_of-append [] b = append-nil b
all_of-append (a ∷ bs) b = simp (all_of-append bs b, append_assoc)

taken-flush_batch :
    (b : List ChatMessage) (done : List (List ChatMessage))
    → (all_of (flush_batch b done).inserted ≡ all_of done ++ b) × ((flush_batch b done).batch ≡ [])
unfolding flush_batch
taken-flush_batch [] done = (sym (append-nil (all_of done)), refl)
taken-flush_batch (m ∷ ms) done = (all_of-append done (m ∷ ms), refl)

flush_batch-Inv :
    (b : List ChatMessage) (done : List (List ChatMessage))
    → length b ≤ insert_batch_size
    → All IsBatch done
    → Inv (flush_batch b done)
unfolding flush_batch
flush_batch-Inv [] done le h = record { small = omega arith; batches = h }
flush_batch-Inv (m ∷ ms) done le h = record {
  small = omega arith;
  batches = All-append IsBatch done _ h (((λ e. cc), le), tt);
}

taken-flush : (w : InsertWorker) → taken (flush w) ≡ taken w
unfolding flush
taken-flush w =
    let (all, none_left) = taken-flush_batch w.batch w.inserted in rw none_left (append-nil _ ∙ all)

taken-take_message :
    (m : ChatMessage) (w : InsertWorker) → taken (take_message m w) ≡ taken w ++ m ∷ []
unfolding take_message
taken-take_message m w =
    let grown : InsertWorker = record w { batch = w.batch ++ m ∷ [] } in
    let longer = sym (append_assoc (all_of w.inserted) w.batch (m ∷ [])) in
    elim (Bool-cases (leb insert_batch_size (length grown.batch))) [
      | inl many ↦ rw many (taken-flush grown ∙ longer)
      | inr few ↦ rw few longer
    ]

take_message-Inv : (m : ChatMessage) (w : InsertWorker) → Inv w → Inv (take_message m w)
unfolding take_message flush
take_message-Inv m w v =
    let grown : InsertWorker = record w { batch = w.batch ++ m ∷ [] } in
    let longer = length-append w.batch (m ∷ []) in
    elim (Bool-cases (leb insert_batch_size (length grown.batch))) [
      | inl many ↦
          rw many
            (flush_batch-Inv grown.batch w.inserted (omega (arith, longer, v.small)) v.batches)
      | inr few ↦ rw few (record { small = ground (arith, few); batches = v.batches })
    ]

run_insert_worker-taken :
    (rs : List Ready) (w : InsertWorker) → taken (run_insert_worker rs w) ≡ taken w ++ messages rs
unfolding run_insert_worker work
run_insert_worker-taken [] w = taken-flush w ∙ sym (append-nil (taken w))
run_insert_worker-taken (received m ∷ rs) w =
    run_insert_worker-taken rs (take_message m w)
    ∙ ap (λ t. t ++ messages rs) (taken-take_message m w)
    ∙ append_assoc (taken w) (m ∷ []) (messages rs)
run_insert_worker-taken (ticked ∷ rs) w =
    run_insert_worker-taken rs (flush w) ∙ ap (λ t. t ++ messages rs) (taken-flush w)

run_insert_worker-Inv : (rs : List Ready) (w : InsertWorker) → Inv w → Inv (run_insert_worker rs w)
unfolding run_insert_worker work flush
run_insert_worker-Inv [] w v = flush_batch-Inv w.batch w.inserted (omega (arith, v.small)) v.batches
run_insert_worker-Inv (received m ∷ rs) w v =
    run_insert_worker-Inv rs (take_message m w) (take_message-Inv m w v)
run_insert_worker-Inv (ticked ∷ rs) w v =
    run_insert_worker-Inv rs _
      (flush_batch-Inv w.batch w.inserted (omega (arith, v.small)) v.batches)

run_insert_worker-batch : (rs : List Ready) (w : InsertWorker) → (run_insert_worker rs w).batch ≡ []
unfolding run_insert_worker flush
run_insert_worker-batch [] w = (taken-flush_batch w.batch w.inserted).1
run_insert_worker-batch (r ∷ rs) w = run_insert_worker-batch rs (work r w)

-- A worker that starts with nothing has, when the queue is closed and drained, handed every message
-- to the database once and in order, whenever the ticker fired, and in batches of one to fifty.
pub run_insert_worker_lem :
    (rs : List Ready)
    → let w = run_insert_worker rs (record { batch = []; inserted = [] }) in
      (all_of w.inserted ≡ messages rs) × All IsBatch w.inserted
run_insert_worker_lem rs =
    let start : InsertWorker = record { batch = []; inserted = [] } in
    let w = run_insert_worker rs start in
    (
      sym (append-nil (all_of w.inserted))
          ∙ ap (◌++◌ (all_of w.inserted)) (sym (run_insert_worker-batch rs start))
          ∙ run_insert_worker-taken rs start,
      (run_insert_worker-Inv rs start (record { small = omega arith; batches = tt })).batches,
    )
