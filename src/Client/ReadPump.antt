-- ===== src/Client/ReadPump.antt =====
-- What readPump of server/handler/ws_client.go lets through to the hub.
use woongkie_talkie.Base.{
  ◌*◌, ◌≤◌, ◌≡◌, ◌≢◌, ◌⊎◌, inl, inr, refl, String, true, false, List, [], ◌∷◌, ◌++◌, none, some,
  ltb, length, ◌==◌, All, All-append, arith, Bool-cases, Option-cases, eq_iff,
}
use woongkie_talkie.Chat.{Text, ChatMessage, chat_message}
use woongkie_talkie.Texts.{trim_space, IsInert, escape_string-IsInert, length-escape_string-le}
use woongkie_talkie.Hub.{try_send}
use woongkie_talkie.Client.{
  RateLimiter, Moment, Next, goes_on, returns, Session, warn, send_to_hub, store_and_send,
  limit_and_send, read_message, leave, read_pump, is_client_event, is_typing_event, claimed,
  cleaned, max_runes, is_empty,
}

-- A message that claims no other name or room than its sender's: a typing event, or a text that is
-- escaped and within bounds. The body of a typing event is free, since the code neither escapes nor
-- bounds it.
pub record IsClean (name room : String) (msg : ChatMessage) : Type 0 where
  pub user : msg.user ≡ name
  pub room_id : msg.room_id ≡ room
  pub content :
      ((msg.event ≡ "TYPING_START") ⊎ (msg.event ≡ "TYPING_STOP"))
      ⊎ (((msg.event ≡ "MSG") ⊎ (msg.event ≡ "MSG_FILE"))
          × All IsInert msg.message
          × (length msg.message ≤ 5 * max_runes))

is_typing_event-cases :
    (e : String) → is_typing_event e ≡ true → (e ≡ "TYPING_START") ⊎ (e ≡ "TYPING_STOP")
unfolding is_typing_event
is_typing_event-cases e h = elim (Bool-cases (e == "TYPING_START")) [
  | inl start ↦ inl ((eq_iff e "TYPING_START").0 start)
  | inr other ↦ inr ((eq_iff e "TYPING_STOP").0 (ground (arith, h, other)))
]

is_client_event-cases :
    (e : String)
    → is_client_event e ≡ true
    → is_typing_event e ≡ false
    → (e ≡ "MSG") ⊎ (e ≡ "MSG_FILE")
unfolding is_client_event is_typing_event
is_client_event-cases e h t = elim (Bool-cases (e == "MSG")) [
  | inl text ↦ inl ((eq_iff e "MSG").0 text)
  | inr other ↦ inr ((eq_iff e "MSG_FILE").0 (ground (arith, h, t, other)))
]

-- What the pump of a client of that name and room has done so far.
pub record Inv (rate : RateLimiter) (name room : String) (s : Session rate) : Type 0 where
  pub username : s.client.username ≡ name
  pub room_id : s.client.room_id ≡ room
  pub open_ : s.client.closed ≡ false
  pub clean : All (IsClean name room) s.to_hub

module _ (rate : RateLimiter) (name room : String) where
  warn-Inv :
      (body : Text) (s s' : Session rate) (n : Next)
      → warn rate body s ≡ some (s', n)
      → Inv rate name room s
      → Inv rate name room s'
  unfolding warn try_send
  warn-Inv body s s' n e v = ground arith

  send_to_hub-Inv :
      (t : Moment) (msg : ChatMessage) (s s' : Session rate) (n : Next)
      → send_to_hub rate t msg s ≡ some (s', n)
      → IsClean name room msg
      → Inv rate name room s
      → Inv rate name room s'
  unfolding send_to_hub
  send_to_hub-Inv t msg s s' n e c v =
      ground (arith, All-append (IsClean name room) s.to_hub (msg ∷ []) v.clean (c, tt))

  -- The counters, the store's queue and the limiter are not the hub's concern.
  same_hub :
      (s s' : Session rate)
      → s'.client ≡ s.client
      → s'.to_hub ≡ s.to_hub
      → Inv rate name room s
      → Inv rate name room s'
  same_hub s s' c h v = record {
    username = rw c v.username;
    room_id = rw c v.room_id;
    open_ = rw c v.open_;
    clean = rw h v.clean;
  }

  store_and_send-Inv :
      (t : Moment) (msg : ChatMessage) (s s' : Session rate) (n : Next)
      → store_and_send rate t msg s ≡ some (s', n)
      → IsClean name room msg
      → Inv rate name room s
      → Inv rate name room s'
  unfolding store_and_send
  store_and_send-Inv t msg s s' n e c v = elim (Bool-cases (msg.event == "MSG")) [
    | inl m ↦ elim (Bool-cases t.queue_takes) [
      | inl q ↦ send_to_hub-Inv t msg _ s' n (simp (m, q) at e) c (same_hub s _ refl refl v)
      | inr q ↦ warn-Inv _ _ s' n (simp (m, q) at e) (same_hub s _ refl refl v)
    ]
    | inr m ↦ send_to_hub-Inv t msg s s' n (simp m at e) c v
  ]

  cleaned-IsClean :
      (t : Moment) (msg : ChatMessage)
      → msg.user ≡ name
      → msg.room_id ≡ room
      → (msg.event ≡ "MSG") ⊎ (msg.event ≡ "MSG_FILE")
      → length msg.message ≤ max_runes
      → IsClean name room (cleaned t msg)
  cleaned-IsClean t msg u r e le = record {
    user = u;
    room_id = r;
    content =
        inr (
          e,
          escape_string-IsInert msg.message,
          omega (arith, length-escape_string-le msg.message),
        );
  }

  limit_and_send-Inv :
      (t : Moment) (msg : ChatMessage) (s s' : Session rate) (n : Next)
      → limit_and_send rate t msg s ≡ some (s', n)
      → msg.user ≡ name
      → msg.room_id ≡ room
      → (msg.event ≡ "MSG") ⊎ (msg.event ≡ "MSG_FILE")
      → Inv rate name room s
      → Inv rate name room s'
  unfolding limit_and_send
  limit_and_send-Inv t msg s s' n e u r k v =
      let s1 : Session rate = record s { limiter = (rate.allow s.limiter).1 } in
      let v1 = same_hub s s1 refl refl v in
      elim (Bool-cases (rate.allow s.limiter).0) [
        | inr over ↦ warn-Inv _ s1 s' n (simp over at e) v1
        | inl ok ↦ elim (Bool-cases (ltb max_runes (length msg.message))) [
          | inl long ↦ warn-Inv _ s1 s' n (simp (ok, long) at e) v1
          | inr fits ↦
              store_and_send-Inv t (cleaned t msg) s1 s' n (simp (ok, fits) at e)
                (cleaned-IsClean t msg u r k (ground (arith, fits))) v1
        ]
      ]

  read_message-Inv :
      (t : Moment) (msg : ChatMessage) (s s' : Session rate) (n : Next)
      → read_message rate t msg s ≡ some (s', n)
      → Inv rate name room s
      → Inv rate name room s'
  unfolding read_message
  read_message-Inv t msg s s' n e v = elim (Bool-cases (is_client_event msg.event)) [
    | inr bad ↦ ground (arith, bad)
    | inl ok ↦ elim (Bool-cases (is_typing_event msg.event)) [
      | inl typing ↦
          send_to_hub-Inv t (claimed rate msg s) s s' n (simp (ok, typing) at e)
            (record {
              user = v.username;
              room_id = v.room_id;
              content = inl (is_typing_event-cases msg.event typing);
            })
            v
      | inr text ↦ elim (Bool-cases (is_empty (trim_space msg.message))) [
        | inl blank ↦ ground (arith, ok, text, blank)
        | inr some_text ↦
            limit_and_send-Inv t (claimed rate msg s) s s' n (simp (ok, text, some_text) at e)
              v.username v.room_id (is_client_event-cases msg.event ok text) v
      ]
    ]
  ]

  warn-ne-none :
      (body : Text) (s : Session rate) → s.client.closed ≡ false → warn rate body s ≢ none
  unfolding warn try_send
  warn-ne-none body s o = ground arith

  send_to_hub-ne-none :
      (t : Moment) (msg : ChatMessage) (s : Session rate) → send_to_hub rate t msg s ≢ none
  unfolding send_to_hub
  send_to_hub-ne-none t msg s = ground arith

  read_message-ne-none :
      (t : Moment) (msg : ChatMessage) (s : Session rate)
      → s.client.closed ≡ false
      → read_message rate t msg s ≢ none
  unfolding read_message limit_and_send store_and_send
  read_message-ne-none t msg s o = grind (arith, warn-ne-none, send_to_hub-ne-none)

  abbrev pub close_notice : ChatMessage
  close_notice = chat_message "CLOSE" name room []

  -- What a pump has sent to the hub when it ends.
  abbrev pub Sent : Session rate → Type 0
  Sent s =
      (ms : List ChatMessage) × All (IsClean name room) ms
      × ((s.to_hub ≡ ms) ⊎ (s.to_hub ≡ ms ++ close_notice ∷ []))

  leave-Sent : (t : Moment) (s : Session rate) → Inv rate name room s → Sent (leave rate t s)
  unfolding leave
  leave-Sent t s v = elim (Bool-cases t.hub_takes) [
    | inl takes ↦ (s.to_hub, v.clean, inr (ground (arith, takes)))
    | inr gone ↦ (s.to_hub, v.clean, inl (ground (arith, gone)))
  ]

  read_pump-Sent :
      (inputs : List (Moment × ChatMessage)) (last : Moment) (s : Session rate)
      → Inv rate name room s
      → (s' : Session rate) × (read_pump rate inputs last s ≡ some s') × Sent s'
  unfolding read_pump
  read_pump-Sent [] last s v = (leave rate last s, refl, leave-Sent last s v)
  read_pump-Sent ((t, msg) ∷ more) last s v = elim (Option-cases (read_message rate t msg s)) [
    | inl panic ↦ absurd (read_message-ne-none t msg s v.open_ panic)
    | inr ((s', goes_on), e) ↦
        let (after, e', sent) =
          read_pump-Sent more last s' (read_message-Inv t msg s s' goes_on e v) in
        (after, rw (e, read_pump) e', sent)
    | inr ((s', returns), e) ↦ (
      leave rate last s',
      rw (e, read_pump),
      leave-Sent last s' (read_message-Inv t msg s s' returns e v),
    )
  ]

-- While its channel is open, the pump of a client never panics, whatever the client sends. All that
-- it hands to the hub carries the client's own name and room, and is a TYPING_START or a TYPING_STOP,
-- of whose body nothing is said, or a MSG or a MSG_FILE whose text is escaped, with no <, >, " or ',
-- and has at most 10000 characters. A CLOSE notice in the same name may come last.
pub read_pump-IsClean :
    (rate : RateLimiter) (inputs : List (Moment × ChatMessage)) (last : Moment) (s : Session rate)
    → s.client.closed ≡ false
    → s.to_hub ≡ []
    → (s' : Session rate) × (read_pump rate inputs last s ≡ some s')
      × Sent rate s.client.username s.client.room_id s'
read_pump-IsClean rate inputs last s o none_yet =
    read_pump-Sent rate s.client.username s.client.room_id inputs last s
      (record { username = refl; room_id = refl; open_ = o; clean = rw none_yet tt })
