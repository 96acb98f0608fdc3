-- ===== src/Hub/Invariant.antt =====
-- Hub.Run of server/handler/hub.go keeps the hub valid and does not panic.
use woongkie_talkie.Base.{
  ℕ, ◌≡◌, ◌≢◌, ◌⊎◌, ◌∙◌, refl, true, false, not, List, [], Option, some, elem, arith, Bool-cases,
  Option-cases, inl, inr, eqb, eqb_iff, if◌then◌else◌, ◌∷◌, elem-keep, length, Distinct-keep,
  All-of_elem, elem-All,
}
use woongkie_talkie.Chat.{ChatMessage}
use woongkie_talkie.Hub.{Client, Hub, named, broadcast_local, close_all_clients}
use woongkie_talkie.Hub.Clients.{close_all_clients_lem}
use woongkie_talkie.Hub.Delivery.{is_slow}
use woongkie_talkie.Hub.Broadcast.{IsValid, broadcast_local-IsBroadcast}
use woongkie_talkie.Hub.Run.{
  Codec, Broker, fallback, connected, connected_failing, Status, looping, returned, unlisted, Ready,
  stop, idle, registered, unregistered, broadcast, from_redis, register, remove_client,
  announce_offline, unregister, on_stop, on_idle, publish, on_broadcast, on_redis, run_round,
  is_allowed_event,
}

-- A hub after an operation: valid, stopped only if it was, and with every client that was not
-- registered as it was.
pub record Kept (h after : Hub) : Type 0 where
  pub valid : IsValid after
  pub outside :
      (j : ℕ)
      → elem j h.clients ≡ false
      → (elem j after.clients ≡ false) × (after.client j ≡ h.client j)
  pub running : after.stopped ≡ h.stopped

-- An operation that ends without a panic.
abbrev pub Keeps : Hub → Option Hub → Type 0
Keeps h o = (after : Hub) × (o ≡ some after) × Kept h after

Kept-refl : (h : Hub) → IsValid h → Kept h h
Kept-refl h v = record { valid = v; outside = λ j e. (e, refl); running = refl }

-- The same operation, begun in a hub that differs in none of what `Kept` speaks of.
Keeps-begin :
    (h g : Hub) (o : Option Hub)
    → g.stopped ≡ h.stopped
    → ((j : ℕ) → elem j h.clients ≡ false → (elem j g.clients ≡ false) × (g.client j ≡ h.client j))
    → Keeps g o
    → Keeps h o
Keeps-begin h g o s f (after, e, k) = (
  after,
  e,
  record {
    valid = k.valid;
    outside = λ j out.
        let (out', same) = f j out in
        let (out'', same') = k.outside j out' in (out'', same' ∙ same);
    running = k.running ∙ s;
  },
)

broadcast_local-Keeps : (msg : ChatMessage) (h : Hub) → IsValid h → Keeps h (broadcast_local msg h)
broadcast_local-Keeps msg h v =
    let (h', e, b, v') = broadcast_local-IsBroadcast msg h v in
    (
      h',
      e,
      record {
        valid = v';
        outside = λ j out. (
          rw b.kept (ground (arith, elem-keep (λ i. not (is_slow msg (h.client i))) j h.clients)),
          rw (b.reached j, out),
        );
        running = b.same_stopped;
      },
    )

-- The hub with a client added, before its user is announced.
abbrev pub joined : ℕ → Hub → List ℕ
joined i h = if elem i h.clients then h.clients else i ∷ h.clients

pub register-Keeps :
    (i : ℕ) (h : Hub)
    → IsValid h
    → (h.client i).closed ≡ false
    → Keeps (record h { clients = joined i h }) (register i h)
unfolding register
register-Keeps i h v e =
    Keeps-begin _ _ _ refl (λ j out. (out, refl))
      (broadcast_local-Keeps _ _
        (record { distinct = ground (arith, v.distinct); open_ = ground (arith, v.open_) }))

pub remove_client-IsValid : (i : ℕ) (h : Hub) → IsValid h → IsValid (remove_client i h)
unfolding remove_client
remove_client-IsValid i h v = elim (Bool-cases (elem i h.clients)) [
  | inl here ↦ rw here (record {
    distinct = Distinct-keep _ h.clients v.distinct;
    open_ = All-of_elem _ _ λ j e. ground (
      arith,
      elem-keep (λ k. not (eqb i k)) j h.clients,
      elem-All (λ k. (h.client k).closed ≡ false) h.clients j v.open_,
    );
  })
  | inr gone ↦ rw gone v
]

remove_client_outside :
    (i : ℕ) (h : Hub) (j : ℕ)
    → elem j h.clients ≡ false
    → (elem j (remove_client i h).clients ≡ false) × ((remove_client i h).client j ≡ h.client j)
unfolding remove_client
remove_client_outside i h j out =
    (ground (arith, elem-keep (λ k. not (eqb i k)) j h.clients), ground (arith, eqb_iff i j))

remove_client-stopped : (i : ℕ) (h : Hub) → (remove_client i h).stopped ≡ h.stopped
unfolding remove_client
remove_client-stopped i h = ground arith

announce_offline-Keeps : (c : Client) (h : Hub) → IsValid h → Keeps h (announce_offline c h)
unfolding announce_offline
announce_offline-Keeps c h v = elim (Bool-cases (eqb (length (named h c.username)) 0)) [
  | inl last ↦ rw last (
      Keeps-begin h _ _ refl (λ j out. (out, refl))
        (broadcast_local-Keeps _ _ (record { distinct = v.distinct; open_ = v.open_ })))
  | inr more ↦ rw more (h, refl, Kept-refl h v)
]

unregister-Keeps : (i : ℕ) (h : Hub) → IsValid h → Keeps h (unregister i h)
unfolding unregister
unregister-Keeps i h v =
    Keeps-begin h (remove_client i h) _ (remove_client-stopped i h) (remove_client_outside i h)
      (announce_offline-Keeps (h.client i) _ (remove_client-IsValid i h v))

close_all_clients-IsValid : (h : Hub) → IsValid (close_all_clients h)
close_all_clients-IsValid h =
    let (none_left, _) = close_all_clients_lem h in
    record { distinct = rw none_left tt; open_ = rw none_left tt }

module _ (codec : Codec) where
  -- What the rest of the server owes the loop: a client registers before its channel is closed, and
  -- the idle timer does not fire in a hub that has been stopped.
  abbrev pub IsReady : Ready codec → Hub → Type 0
  IsReady (registered i) h = (h.client i).closed ≡ false
  IsReady idle h = h.stopped ≡ false
  IsReady _ h = Unit {0}

  -- The hub with the client that the round lets in.
  abbrev pub admitted : Ready codec → Hub → Hub
  admitted (registered i) h = record h { clients = joined i h }
  admitted _ h = h

  -- The loop goes on and has kept the hub, or Run returns in a valid hub.
  abbrev pub Ends : Ready codec → Hub → Hub → Status → Type 0
  Ends r h after s = ((s ≡ looping) × Kept (admitted r h) after) ⊎ ((s ≢ looping) × IsValid after)

  abbrev pub Rounds : Ready codec → Hub → Type 0
  Rounds r h =
      (after : Hub) × (s : Status) × (out : List codec.Data) × (run_round codec r h
        ≡ some (after, s, out))
      × Ends r h after s

  idle-Rounds : (h : Hub) → IsValid h → h.stopped ≡ false → Rounds idle h
  unfolding run_round on_idle
  idle-Rounds h v e = elim (Bool-cases (eqb (length h.clients) 0)) [
    | inl empty ↦ (
      record h { stopped = true },
      unlisted,
      [],
      rw (empty, e),
      inr ((λ q. cc), record { distinct = v.distinct; open_ = v.open_ }),
    )
    | inr more ↦ (h, looping, [], rw more, inl (refl, Kept-refl h v))
  ]

  publish-Rounds :
      (b : Broker) (msg : ChatMessage) (h : Hub)
      → Keeps h (broadcast_local msg h)
      → IsValid h
      → (h' : Hub) × (out : List codec.Data) × (publish codec b msg h ≡ some (h', out)) × Kept h h'
  unfolding publish
  publish-Rounds fallback msg h (h', e, k) v = (h', [], rw e, k)
  publish-Rounds connected_failing msg h (h', e, k) v = (h', [], rw e, k)
  publish-Rounds connected msg h (h', e, k) v = elim (Option-cases (codec.marshal msg)) [
    | inl failed ↦ (h', [], rw (failed, publish, e), k)
    | inr (packet, encoded) ↦ (h, packet ∷ [], rw (encoded, publish), Kept-refl h v)
  ]

  broadcast-Rounds :
      (b : Broker) (msg : ChatMessage) (h : Hub)
      → Keeps h (broadcast_local msg h)
      → IsValid h
      → Rounds (broadcast b msg) h
  unfolding run_round on_broadcast
  broadcast-Rounds b msg h (h', e, k) v = elim (Bool-cases h.has_broker) [
    | inl has ↦
        let (h'', out, e', k') = publish-Rounds b msg h (h', e, k) v in
        (h'', looping, out, ground (arith, has, e'), inl (refl, k'))
    | inr nil ↦ (h', looping, [], ground (arith, nil, e), inl (refl, k))
  ]

  on_redis-Keeps : (packet : codec.Data) (h : Hub) → IsValid h → Keeps h (on_redis codec packet h)
  unfolding on_redis
  on_redis-Keeps packet h v = elim (Option-cases (codec.unmarshal packet)) [
    | inl bad ↦ rw (bad, on_redis) (h, refl, Kept-refl h v)
    | inr (msg, decoded) ↦
        rw (decoded, on_redis)
          (elim (Bool-cases (is_allowed_event msg.event)) [
            | inl allowed ↦ rw allowed (broadcast_local-Keeps msg h v)
            | inr refused ↦ rw refused (h, refl, Kept-refl h v)
          ])
  ]

  pub run_round-Rounds : (r : Ready codec) (h : Hub) → IsValid h → IsReady r h → Rounds r h
  unfolding run_round
  run_round-Rounds stop h v ok = (
    on_stop h,
    returned,
    [],
    refl,
    inr ((λ q. cc), unfold on_stop in close_all_clients-IsValid h),
  )
  run_round-Rounds idle h v ok = idle-Rounds h v ok
  run_round-Rounds (registered i) h v ok =
      let (h', e, k) = register-Keeps i h v ok in (h', looping, [], rw e, inl (refl, k))
  run_round-Rounds (unregistered i) h v ok =
      let (h', e, k) = unregister-Keeps i h v in (h', looping, [], rw e, inl (refl, k))
  run_round-Rounds (broadcast b msg) h v ok =
      broadcast-Rounds b msg h (broadcast_local-Keeps msg h v) v
  run_round-Rounds (from_redis packet) h v ok =
      let (h', e, k) = on_redis-Keeps packet h v in (h', looping, [], rw e, inl (refl, k))
