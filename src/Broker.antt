-- ===== src/Broker.antt =====
-- pkg/redis/pubsub.go: subscriptions to Redis with a fallback and a recovery. A subscription
-- (redis.PubSub) is an address in the store `pubsub`, a handler a number that stands for it; each
-- definition is one critical section of `mu`, and the answers of Redis are inputs.
pub mod Subscriptions
pub mod Loops
pub mod Recovery
pub mod Delivery
pub mod Deafness
pub mod Tests
use woongkie_talkie.Base.{
  ℕ, zero, suc, ◌+◌, String, Bool, true, false, not, ◌&&◌, ◌||◌, List, [], ◌∷◌, Option, none, some,
  if◌then◌else◌, ◌==◌, Assoc, lookup, insert, remove, update,
}

pub record PubSub : Type 0 where
  pub room : String
  pub closed : Bool

pub record Broker : Type 0 where
  pub has_client : Bool
  pub subscriptions : Assoc ℕ
  pub handlers : Assoc ℕ
  pub fallback : Bool
  pub pubsub : ℕ → PubSub
  pub next : ℕ
  pub cancelled : Bool

unfoldable pub new_broker : Bool → Broker
new_broker has_client = record {
  has_client = has_client;
  subscriptions = [];
  handlers = [];
  fallback = false;
  pubsub = λ _. record { room = ""; closed = true };
  next = 0;
  cancelled = false;
}

unfoldable pub is_fallback : Broker → Bool
is_fallback b = b.fallback

unfoldable pub set_fallback : Bool → Broker → Broker
set_fallback v b = record b { fallback = v }

-- Does a publish succeed, where Redis would answer `accepts`?
unfoldable pub publish : Bool → Broker → Bool
publish accepts b = if b.fallback || not b.has_client then false else accepts

-- client.Subscribe, and the entry of the new subscription.
unfoldable pub open_pubsub : String → Broker → Broker
open_pubsub room b = record b {
  pubsub = update b.pubsub b.next (record { room = room; closed = false });
  subscriptions = insert room b.next b.subscriptions;
  next = b.next + 1;
}

unfoldable pub store_handler : String → ℕ → Broker → Broker
store_handler room handler b = record b { handlers = insert room handler b.handlers }

abbrev pub is_some : Option ℕ → Bool
is_some none = false
is_some (some i) = true

-- The broker afterwards, and whether there was no error.
unfoldable pub subscribe : String → ℕ → Broker → Broker × Bool
subscribe room handler b =
    if b.fallback || not b.has_client
    then (store_handler room handler b, false)
    else if is_some (lookup room b.subscriptions)
    then (store_handler room handler b, true)
    else (store_handler room handler (open_pubsub room b), true)

-- ps.Close(), and the entry of the subscription is deleted.
unfoldable pub drop_room : String → Broker → Broker
drop_room room b = elim (lookup room b.subscriptions) [
  | none ↦ b
  | some i ↦ record b {
    pubsub = update b.pubsub i (record (b.pubsub i) { closed = true });
    subscriptions = remove room b.subscriptions;
  }
]

unfoldable pub unsubscribe : String → Broker → Broker
unsubscribe room b =
    let dropped = drop_room room b in record dropped { handlers = remove room dropped.handlers }

-- The loop over the map of subscriptions.
unfoldable pub drop_all : Assoc ℕ → Broker → Broker
drop_all [] b = b
drop_all ((room, i) ∷ more) b = drop_all more (drop_room room b)

unfoldable pub close : Broker → Broker
close b = drop_all b.subscriptions (record b { cancelled = true })

-- A ping that fails.
unfoldable pub go_down : Broker → Broker
go_down b = if b.fallback then b else drop_all b.subscriptions (record b { fallback = true })

-- A ping that succeeds: what is left to subscribe to, once the lock is released.
unfoldable pub come_back : Broker → Broker × Assoc ℕ
come_back b = if b.fallback then (record b { fallback = false }, b.handlers) else (b, [])

-- The loop over the copy of the handlers; the lock is taken for one room at a time.
unfoldable pub resubscribe_all : Assoc ℕ → Broker → Broker
resubscribe_all [] b = b
resubscribe_all ((room, handler) ∷ more) b = resubscribe_all more (open_pubsub room b)

-- One tick of monitorConnection, where Redis answers the ping or not.
unfoldable pub monitor : Bool → Broker → Broker
monitor answers b =
    if b.cancelled || not b.has_client
    then b
    else if answers
    then (let (b', rooms) = come_back b in resubscribe_all rooms b')
    else go_down b

-- The subscriptions below an address that get what is published to a room.
unfoldable pub listeners : String → ℕ → Broker → List ℕ
listeners room zero b = []
listeners room (suc i) b =
    let rest = listeners room i b in
    if (b.pubsub i).room == room && not (b.pubsub i).closed then i ∷ rest else rest

-- The handlers that listenRoom calls for one message to a room, once for each subscription.
unfoldable pub called_for : String → List ℕ → Broker → List ℕ
called_for room [] b = []
called_for room (i ∷ more) b =
    let rest = called_for room more b in
    elim (lookup room b.handlers) [ none ↦ rest | some handler ↦ handler ∷ rest ]

unfoldable pub received : String → Broker → List ℕ
received room b = called_for room (listeners room b.next b) b
