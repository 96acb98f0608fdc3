-- ===== src/Broker/Delivery.antt =====
-- pkg/redis/pubsub.go: which handlers a message to a room reaches.
use woongkie_talkie.Base.{
  ℕ, zero, suc, ◌<◌, ◌≤◌, ◌≡◌, ◌≢◌, ◌⊎◌, inl, inr, refl, sym, subst, ◌∙◌, String, Bool, true, false,
  not, ◌&&◌, List, [], ◌∷◌, none, some, if◌then◌else◌, ◌==◌, ltb, lookup, arith, Bool-cases,
  Option-cases, eq_iff,
}
use woongkie_talkie.Broker.{
  Broker, new_broker, is_fallback, publish, monitor, listeners, called_for, received,
}
use woongkie_talkie.Broker.Subscriptions.{Sound}
use woongkie_talkie.Broker.Recovery.{
  Op, run, run-Inv, new_broker-Inv, monitor-Inv, run-IsRunning, monitor-IsRunning, monitor-connects,
}

module _ (room : String) (b : Broker) (v : Sound b) where
  listens : ℕ → Bool
  listens i = (b.pubsub i).room == room && not (b.pubsub i).closed

  listening : (i : ℕ) → i < b.next → listens i ≡ true → lookup room b.subscriptions ≡ some i
  unfolding listens
  listening i lt e =
      let same : (b.pubsub i).room ≡ room = (eq_iff (b.pubsub i).room room).0 (ground (arith, e)) in
      subst (λ r. lookup r b.subscriptions ≡ some i) same (v.known i lt (ground (arith, e)))

  listeners-none :
      (n : ℕ) → n ≤ b.next → lookup room b.subscriptions ≡ none → listeners room n b ≡ []
  unfolding listeners listens
  listeners-none zero le e = refl
  listeners-none (suc i) le e = elim (Bool-cases (listens i)) [
    | inl hit ↦ absurd (cc (e, listening i (omega (arith, le)) hit))
    | inr miss ↦ ground (arith, miss, listeners-none i (omega (arith, le)) e)
  ]

  hears : (i : ℕ) → lookup room b.subscriptions ≡ some i → listens i ≡ true
  unfolding listens
  hears i e =
      let o = v.is_open room i e in ground (arith, o.0, (eq_iff (b.pubsub i).room room).1 o.1)

  listeners-some :
      (i n : ℕ)
      → n ≤ b.next
      → lookup room b.subscriptions ≡ some i
      → listeners room n b ≡ (if ltb i n then i ∷ [] else [])
  unfolding listeners listens
  listeners-some i zero le e = ground arith
  listeners-some i (suc j) le e =
      let rest = listeners-some i j (omega (arith, le)) e in
      elim (Bool-cases (listens j)) [
        | inl hit ↦
            let same : some j ≡ some i = sym (listening j (omega (arith, le)) hit) ∙ e in
            ground (arith, hit, same, rest)
        | inr miss ↦
            let differ : j ≢ i = λ p. cc (miss, p, hears i e) in ground (arith, miss, differ, rest)
      ]

-- The handlers that a message to a room calls, if the broker is sound: that of the room, once, if
-- the room is subscribed.
pub received-Sound :
    (room : String) (b : Broker)
    → Sound b
    → ((lookup room b.subscriptions ≡ none) × (received room b ≡ []))
      ⊎ ((i h : ℕ) × (lookup room b.subscriptions ≡ some i)
          × (lookup room b.handlers ≡ some h)
          × (received room b ≡ h ∷ []))
unfolding received called_for
received-Sound room b v = elim (Option-cases (lookup room b.subscriptions)) [
  | inl absent ↦ inl (absent, rw (listeners-none room b v b.next (omega arith) absent) refl)
  | inr (i, there) ↦
      let (h, handler) = v.handled room i there in
      let one : listeners room b.next b ≡ i ∷ [] =
        ground
          (arith, listeners-some room b v i b.next (omega arith) there, v.below room i there) in
      inr (i, h, there, handler, rw (received, one) (rw (called_for, handler) refl))
]

-- The handlers of a room: none, or the one that was stored last.
abbrev pub handler_of : String → Broker → List ℕ
handler_of room b = elim (lookup room b.handlers) [ none ↦ [] | some h ↦ h ∷ [] ]

-- After any sequence of subscriptions, unsubscriptions and pings, answered or not, that are not
-- interleaved with each other, a message to a room calls the room's handler exactly once while
-- the broker is connected, and no handler while it is in fallback.
pub received_once :
    (ops : List Op) (room : String)
    → let b = run ops (new_broker true) in
      received room b ≡ (if is_fallback b then [] else handler_of room b)
unfolding is_fallback new_broker
received_once ops room =
    let b = run ops (new_broker true) in
    let v = run-Inv ops (new_broker true) (new_broker-Inv true) in
    let running = run-IsRunning ops (new_broker true) (refl, refl) in
    elim (Bool-cases b.fallback) [
      | inl down ↦ elim (received-Sound room b v.sound) [
        | inl (absent, got) ↦ ground (arith, down, got)
        | inr (i, h, there, handler, got) ↦ absurd (cc (there, v.down down room))
      ]
      | inr up ↦ elim (received-Sound room b v.sound) [
        | inr (i, h, there, handler, got) ↦ ground (arith, up, got, handler)
        | inl (absent, got) ↦ elim (Option-cases (lookup room b.handlers)) [
          | inl nobody ↦ ground (arith, up, got, nobody)
          | inr (h, stored) ↦
              let (i, there) = v.up up running.0 room h stored in absurd (cc (there, absent))
        ]
      ]
    ]

-- Whatever happened before, as long as the broker is not closed: once Redis answers a ping, the
-- broker is connected, what it publishes succeeds where Redis accepts it, and for every room with a
-- stored handler a message calls that handler, once.
pub ping_recovers :
    (ops : List Op) (room : String) (h : ℕ) (accepts : Bool)
    → lookup room (run ops (new_broker true)).handlers ≡ some h
    → let b = monitor true (run ops (new_broker true)) in
      (is_fallback b ≡ false) × (publish accepts b ≡ accepts) × (received room b ≡ h ∷ [])
unfolding is_fallback publish new_broker
ping_recovers ops room h accepts stored =
    let b0 = run ops (new_broker true) in
    let b = monitor true b0 in
    let v = monitor-Inv true b0 (run-Inv ops (new_broker true) (new_broker-Inv true)) in
    let running0 = run-IsRunning ops (new_broker true) (refl, refl) in
    let running = monitor-IsRunning true b0 running0 in
    let (up, same) = monitor-connects b0 running0 in
    let stored' : lookup room b.handlers ≡ some h = rw same stored in
    (
      up,
      ground (arith, up, running.0),
      elim (received-Sound room b v.sound) [
        | inl (absent, got) ↦
            let (i, there) = v.up up running.0 room h stored' in absurd (cc (there, absent))
        | inr (i, g, there, handler, got) ↦ got ∙ ground (arith, handler, stored')
      ],
    )
