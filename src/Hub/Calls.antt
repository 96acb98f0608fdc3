-- ===== src/Hub/Calls.antt =====
-- broadcastLocal of server/handler/hub.go: which calls of Redis it adds to those made before.
use mathlib.Core.List.{Memᴰ, append-nil, append_assoc}
use woongkie_talkie.Base.{
  ℕ, ◌≡◌, refl, sym, ◌∙◌, Bool, true, false, not, List, [], ◌∷◌, ◌++◌, elem, arith, Bool-cases, inl,
  inr, eqb, eqb_iff, elem-keep, ◌==◌,
}
use woongkie_talkie.Chat.{ChatMessage}
use woongkie_talkie.Hub.{
  Hub, PresenceCall, set_typing, set_offline, clear_typing, call_redis, evict_one, evict_all,
  note_typing,
}
use woongkie_talkie.Hub.Broadcast.{after_broadcast, noted, slow_ones, note_typing_frame}
use woongkie_talkie.Hub.Delivery.{is_slow, delivered, received_slow}

module _ {A : Type 0} where
  Memᴰ-append_left : {a : A} (xs ys : List A) → Memᴰ a xs → Memᴰ a (xs ++ ys)
  Memᴰ-append_left [] ys m = elim m [ ]
  Memᴰ-append_left (x ∷ xs) ys (Memᴰ.head e) = Memᴰ.head e
  Memᴰ-append_left (x ∷ xs) ys (Memᴰ.tail m) = Memᴰ.tail (Memᴰ-append_left xs ys m)

  Memᴰ-append_right : {a : A} (xs ys : List A) → Memᴰ a ys → Memᴰ a (xs ++ ys)
  Memᴰ-append_right [] ys m = m
  Memᴰ-append_right (x ∷ xs) ys m = Memᴰ.tail (Memᴰ-append_right xs ys m)

-- The calls of the second hub are those of the first one and, if Redis is there, some more.
abbrev pub Adds : List PresenceCall → Hub → Hub → Type 0
Adds more h h' = (h'.presence ≡ call_redis h.redis_up more h.presence) × (h'.redis_up ≡ h.redis_up)

call_redis-nil : (up : Bool) (made : List PresenceCall) → call_redis up [] made ≡ made
call_redis-nil true made = append-nil made
call_redis-nil false made = refl

call_redis-append :
    (up : Bool) (xs ys made : List PresenceCall)
    → call_redis up ys (call_redis up xs made) ≡ call_redis up (xs ++ ys) made
call_redis-append true xs ys made = append_assoc made xs ys
call_redis-append false xs ys made = refl

Adds-refl : (h : Hub) → Adds [] h h
Adds-refl h = (sym (call_redis-nil h.redis_up h.presence), refl)

Adds-trans :
    (xs ys : List PresenceCall) (h k l : Hub) → Adds xs h k → Adds ys k l → Adds (xs ++ ys) h l
Adds-trans xs ys h k l (a, up) (b, up') =
    (b ∙ rw (up, a) (call_redis-append h.redis_up xs ys h.presence), up' ∙ up)

abbrev offline_calls : ℕ → Hub → List PresenceCall
offline_calls i h =
    set_offline (h.client i).room_id (h.client i).username
    ∷ clear_typing (h.client i).room_id (h.client i).username
    ∷ []

evict_one-Adds :
    (i : ℕ) (h : Hub) → elem i h.clients ≡ true → Adds (offline_calls i h) h (evict_one i h)
unfolding evict_one
evict_one-Adds i h here = rw here (refl, refl)

evict_one_calls : (i : ℕ) (h : Hub) → (more : List PresenceCall) × Adds more h (evict_one i h)
unfolding evict_one
evict_one_calls i h = elim (Bool-cases (elem i h.clients)) [
  | inl here ↦ (offline_calls i h, evict_one-Adds i h here)
  | inr gone ↦ ([], rw gone (Adds-refl h))
]

evict_all_calls :
    (is : List ℕ) (h : Hub) → (more : List PresenceCall) × Adds more h (evict_all is h)
unfolding evict_all
evict_all_calls [] h = ([], Adds-refl h)
evict_all_calls (i ∷ is) h =
    let (xs, first) = evict_one_calls i h in
    let (ys, rest) = evict_all_calls is (evict_one i h) in
    (xs ++ ys, Adds-trans xs ys h (evict_one i h) (evict_all is (evict_one i h)) first rest)

evict_one_frame :
    (k i : ℕ) (h : Hub)
    → eqb k i ≡ false
    → ((evict_one k h).client i ≡ h.client i) × (elem i (evict_one k h).clients ≡ elem i h.clients)
unfolding evict_one
evict_one_frame k i h other =
    (ground arith, ground (arith, elem-keep (λ j. not (eqb k j)) i h.clients))

-- Among the calls of an eviction are those for each client that it takes out.
evict_all-offline :
    (is : List ℕ) (h : Hub) (i : ℕ)
    → elem i is ≡ true
    → elem i h.clients ≡ true
    → (more : List PresenceCall) × Adds more h (evict_all is h)
      × Memᴰ (set_offline (h.client i).room_id (h.client i).username) more
unfolding evict_all
evict_all-offline [] h i listed here = cc
evict_all-offline (k ∷ is) h i listed here = elim (Bool-cases (eqb k i)) [
  | inl same ↦
      let k_is = (eqb_iff k i).0 same in
      let (ys, rest) = evict_all_calls is (evict_one k h) in
      let xs = offline_calls k h in
      (
        xs ++ ys,
        Adds-trans xs ys h (evict_one k h) (evict_all is (evict_one k h))
            (evict_one-Adds k h (rw k_is here)) rest,
        rw k_is (Memᴰ.head refl),
      )
  | inr other ↦
      let frame = evict_one_frame k i h other in
      let (xs, first) = evict_one_calls k h in
      let (ys, rest, m) = evict_all-offline is (evict_one k h) i (ground arith) (frame.1 ∙ here) in
      (
        xs ++ ys,
        Adds-trans xs ys h (evict_one k h) (evict_all is (evict_one k h)) first rest,
        Memᴰ-append_right xs ys (rw (← frame.0) m),
      )
]

note_typing_calls :
    (msg : ChatMessage) (h : Hub) → (more : List PresenceCall) × Adds more h (note_typing msg h)
unfolding note_typing
note_typing_calls msg h = elim (Bool-cases h.redis_up) [
  | inr down ↦ ([], rw down (refl, refl))
  | inl up ↦ elim (Bool-cases (msg.event == "TYPING_START")) [
    | inl start ↦ (set_typing h.room_id msg.user ∷ [], rw (up, start) (refl, refl))
    | inr other ↦ elim (Bool-cases (msg.event == "TYPING_STOP")) [
      | inl end ↦ (clear_typing h.room_id msg.user ∷ [], rw (up, other, end) (refl, refl))
      | inr neither ↦ ([], rw (up, other, neither) (sym (append-nil h.presence), refl))
    ]
  ]
]

-- A broadcast only adds calls.
pub after_broadcast_calls :
    (msg : ChatMessage) (h : Hub) → (more : List PresenceCall) × Adds more h (after_broadcast msg h)
after_broadcast_calls msg h =
    let (xs, first) = note_typing_calls msg h in
    let (ys, rest) = evict_all_calls (slow_ones msg h) (noted msg h) in
    (xs ++ ys, Adds-trans xs ys h (noted msg h) (after_broadcast msg h) first rest)

-- For each client that the broadcast evicts it adds that its user is offline.
pub after_broadcast-offline :
    (msg : ChatMessage) (h : Hub) (i : ℕ)
    → elem i h.clients ≡ true
    → is_slow msg (h.client i) ≡ true
    → (more : List PresenceCall) × Adds more h (after_broadcast msg h)
      × Memᴰ (set_offline (h.client i).room_id (h.client i).username) more
after_broadcast-offline msg h i here slow =
    let (xs, first) = note_typing_calls msg h in
    let (ys, rest, m) =
      evict_all-offline (slow_ones msg h) (noted msg h) i
        (ground (arith, elem-keep (λ k. is_slow msg (h.client k)) i h.clients, here, slow))
        (rw (note_typing_frame msg h).0 here) in
    (
      xs ++ ys,
      Adds-trans xs ys h (noted msg h) (after_broadcast msg h) first rest,
      Memᴰ-append_right xs ys (rw (← unchanged) m),
    )
  where
    unchanged : delivered msg h.clients h.client i ≡ h.client i
    unchanged = ground (arith, received_slow msg (h.client i), slow)
