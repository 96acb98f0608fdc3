-- ===== src/Client/Eviction.antt =====
-- A client that the hub has evicted, and the warnings that its own readPump still sends
-- (server/handler/hub.go, server/handler/ws_client.go).
use woongkie_talkie.Base.{◌≡◌, true, none, some, elem, ℕ, arith}
use woongkie_talkie.Chat.{Text, ChatMessage}
use woongkie_talkie.Hub.{Hub, broadcast_local, try_send}
use woongkie_talkie.Hub.Clients.{close_send-closed}
use woongkie_talkie.Hub.Delivery.{is_slow}
use woongkie_talkie.Hub.Broadcast.{IsValid, broadcast_local-IsBroadcast, outcome_slow}
use woongkie_talkie.Client.{RateLimiter, Session, warn}

warn_closed :
    (rate : RateLimiter) (body : Text) (s : Session rate)
    → s.client.closed ≡ true
    → warn rate body s ≡ none
unfolding warn try_send
warn_closed rate body s e = ground arith

-- When a broadcast evicts a client for its full buffer, the client's channel is closed, and the
-- pump that still reads its connection panics at the next warning.
pub warn_after_eviction :
    (rate : RateLimiter) (msg : ChatMessage) (h : Hub) (i : ℕ) (body : Text) (s : Session rate)
    → IsValid h
    → elem i h.clients ≡ true
    → is_slow msg (h.client i) ≡ true
    → (h' : Hub) × (broadcast_local msg h ≡ some h')
      × (warn rate body (record s { client = h'.client i }) ≡ none)
warn_after_eviction rate msg h i body s v here slow =
    let (h', e, b, _) = broadcast_local-IsBroadcast msg h v in
    (
      h',
      e,
      warn_closed rate body _ (
          rw (b.reached i, here)
            (rw (outcome_slow msg (h.client i) slow) (close_send-closed (h.client i)))),
    )
