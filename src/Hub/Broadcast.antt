-- ===== src/Hub/Broadcast.antt =====
-- broadcastLocal of server/handler/hub.go: the whole hub afterwards, and that it does not panic.
use woongkie_talkie.Base.{
  true, ℕ, ◌≡◌, refl, ◌∙◌, ap, false, not, List, [], ◌∷◌, some, if◌then◌else◌, keep, elem, arith,
  elem-keep, keep_congr, Distinct, Distinct-keep, All-of_elem, elem-All,
}
use woongkie_talkie.Chat.{ChatMessage}
use woongkie_talkie.Hub.{
  Client, Hub, close_send, note_typing, broadcast_local, evict_one, evict_all,
}
use woongkie_talkie.Hub.Clients.{evict_all-client, evict_all-clients}
use woongkie_talkie.Hub.Delivery.{
  is_slow, received, received-closed, received_slow, received-username, IsOpen, delivered,
  deliver_all_lem,
}

-- A registered client after a broadcast: closed if it had no room, else with what it received.
unfoldable pub outcome : ChatMessage → Client → Client
outcome msg c = if is_slow msg c then close_send c else received msg c

-- The hub's clients are listed once each, and the channel of each is open.
pub record IsValid (h : Hub) : Type 0 where
  pub distinct : Distinct h.clients
  pub open_ : IsOpen h.client h.clients

-- What a broadcast makes of a hub, one client at a time.
pub record IsBroadcast (msg : ChatMessage) (h h' : Hub) : Type 0 where
  pub kept : h'.clients ≡ keep (λ i. not (is_slow msg (h.client i))) h.clients
  pub reached :
      (j : ℕ) → h'.client j ≡ (if elem j h.clients then outcome msg (h.client j) else h.client j)
  pub same_stopped : h'.stopped ≡ h.stopped
  pub same_room : h'.room_id ≡ h.room_id

abbrev pub slow_ones : ChatMessage → Hub → List ℕ
slow_ones msg h = keep (λ i. is_slow msg (h.client i)) h.clients

abbrev pub noted : ChatMessage → Hub → Hub
noted msg h = record (note_typing msg h) { client = delivered msg h.clients h.client }

pub note_typing_frame :
    (msg : ChatMessage) (h : Hub)
    → ((note_typing msg h).clients ≡ h.clients)
      × ((note_typing msg h).client ≡ h.client)
      × ((note_typing msg h).stopped ≡ h.stopped)
      × ((note_typing msg h).room_id ≡ h.room_id)
unfolding note_typing
note_typing_frame msg h = (ground arith, ground arith, ground arith, ground arith)

abbrev pub after_broadcast : ChatMessage → Hub → Hub
after_broadcast msg h = evict_all (slow_ones msg h) (noted msg h)

pub broadcast_local_total :
    (msg : ChatMessage) (h : Hub) → IsValid h → broadcast_local msg h ≡ some (after_broadcast msg h)
unfolding broadcast_local
broadcast_local_total msg h v =
    let frame = note_typing_frame msg h in
    rw (frame.0, frame.1, deliver_all_lem msg h.clients h.client v.distinct v.open_)

evict_all_frame :
    (is : List ℕ) (h : Hub)
    → ((evict_all is h).stopped ≡ h.stopped) × ((evict_all is h).room_id ≡ h.room_id)
unfolding evict_all evict_one
evict_all_frame [] h = (refl, refl)
evict_all_frame (i ∷ is) h =
    let rest = evict_all_frame is (evict_one i h) in (ground arith, ground arith)

after_broadcast-clients :
    (msg : ChatMessage) (h : Hub)
    → (after_broadcast msg h).clients ≡ keep (λ i. not (is_slow msg (h.client i))) h.clients
after_broadcast-clients msg h =
    evict_all-clients (slow_ones msg h) (noted msg h)
    ∙ ap (keep λ j. not (elem j (slow_ones msg h))) (note_typing_frame msg h).0
    ∙ keep_congr _ _ h.clients
        (λ i e. ground (arith, elem-keep (λ j. is_slow msg (h.client j)) i h.clients))

after_broadcast-client :
    (msg : ChatMessage) (h : Hub) (j : ℕ)
    → (after_broadcast msg h).client j
      ≡ (if elem j h.clients then outcome msg (h.client j) else h.client j)
unfolding outcome
after_broadcast-client msg h j = ground (
  arith,
  evict_all-client (slow_ones msg h) (noted msg h) j,
  (note_typing_frame msg h).0,
  elem-keep (λ k. is_slow msg (h.client k)) j h.clients,
  received_slow msg (h.client j),
)

pub after_broadcast-IsBroadcast :
    (msg : ChatMessage) (h : Hub) → IsBroadcast msg h (after_broadcast msg h)
after_broadcast-IsBroadcast msg h =
    let frame = note_typing_frame msg h in
    let rest = evict_all_frame (slow_ones msg h) (noted msg h) in
    record {
      kept = after_broadcast-clients msg h;
      reached = after_broadcast-client msg h;
      same_stopped = rest.0 ∙ frame.2;
      same_room = rest.1 ∙ frame.3;
    }

pub outcome_slow :
    (msg : ChatMessage) (c : Client) → is_slow msg c ≡ true → outcome msg c ≡ close_send c
unfolding outcome
outcome_slow msg c e = rw e

pub outcome_quick :
    (msg : ChatMessage) (c : Client) → is_slow msg c ≡ false → (outcome msg c).username ≡ c.username
unfolding outcome
outcome_quick msg c e = rw e (received-username msg c)

pub IsBroadcast-IsValid :
    (msg : ChatMessage) (h h' : Hub) → IsBroadcast msg h h' → IsValid h → IsValid h'
unfolding outcome
IsBroadcast-IsValid msg h h' b v = record {
  distinct = rw b.kept (Distinct-keep _ h.clients v.distinct);
  open_ = rw b.kept (
      All-of_elem _ _ λ j e. ground (
        arith,
        b.reached j,
        elem-keep (λ i. not (is_slow msg (h.client i))) j h.clients,
        received-closed msg (h.client j),
        elem-All (λ i. (h.client i).closed ≡ false) h.clients j v.open_,
      ));
}

-- In a valid hub broadcastLocal ends without a panic, in a valid hub. A registered client with no
-- room in its buffer is closed and taken out, if the message is for it; one that has room gets the
-- message, marked with whether it is its own, at the end of its buffer; the sender of a typing
-- event and every client that is not registered stay as they were.
pub broadcast_local-IsBroadcast :
    (msg : ChatMessage) (h : Hub)
    → IsValid h
    → (h' : Hub) × (broadcast_local msg h ≡ some h') × IsBroadcast msg h h' × IsValid h'
broadcast_local-IsBroadcast msg h v =
    let b = after_broadcast-IsBroadcast msg h in
    (after_broadcast msg h, broadcast_local_total msg h v, b, IsBroadcast-IsValid msg h _ b v)
