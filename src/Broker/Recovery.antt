-- ===== src/Broker/Recovery.antt =====
-- pkg/redis/pubsub.go: what stays true of the broker through losses and recoveries of the connection.
use woongkie_talkie.Base.{
  DistinctKeys, DistinctKeys-remove, DistinctKeys-insert, ℕ, ◌≡◌, inl, inr, refl, sym, subst, ◌∙◌,
  String, Bool, true, false, not, ◌||◌, List, [], ◌∷◌, none, some, ◌==◌, lookup, lookup-insert,
  lookup_of_remove, arith, Bool-cases, Option-cases, eq_iff, eq_refl,
}
use woongkie_talkie.Broker.{
  Broker, new_broker, open_pubsub, store_handler, subscribe, drop_room, drop_all, unsubscribe,
  go_down, come_back, resubscribe_all, monitor,
}
use woongkie_talkie.Broker.Subscriptions.{
  Sound, Kept, open_pubsub-Sound, store_handler-Sound, drop_room-Sound, drop_room-Kept,
  remove_handler-Sound, drop_all-Sound, drop_room-none, drop_room_other, drop_all-none,
}
use woongkie_talkie.Broker.Loops.{
  Pending, open_pubsub_keeps, resubscribe_all-Sound, resubscribe_all-Kept, drop_all-Kept,
}

-- In fallback no room has a subscription; connected, every room with a handler has one.
pub record Inv (b : Broker) : Type 0 where
  pub sound : Sound b
  pub distinct : DistinctKeys b.handlers
  pub down : b.fallback ≡ true → (room : String) → lookup room b.subscriptions ≡ none
  pub up :
      b.fallback ≡ false
      → b.has_client ≡ true
      → (room : String) (h : ℕ) → lookup room b.handlers ≡ some h
      → (i : ℕ) × (lookup room b.subscriptions ≡ some i)

pub new_broker-Inv : (has_client : Bool) → Inv (new_broker has_client)
unfolding new_broker lookup
new_broker-Inv has_client = record {
  sound = record {
    below = λ r i e. cc e;
    is_open = λ r i e. cc e;
    handled = λ r i e. cc e;
    known = λ i lt o. cc o;
  };
  distinct = tt;
  down = λ f r. refl;
  up = λ f c r h e. cc e;
}

pub subscribe-Inv : (room : String) (h : ℕ) (b : Broker) → Inv b → Inv (subscribe room h b).0
unfolding subscribe store_handler open_pubsub
subscribe-Inv room h b v =
    let stored = store_handler-Sound room h b v.sound in
    let keys = DistinctKeys-insert room h b.handlers v.distinct in
    elim (Bool-cases (b.fallback || not b.has_client)) [
      | inl off ↦
          rw (subscribe, off)
            (record {
              sound = stored;
              distinct = keys;
              down = v.down;
              up = λ f c r g e. absurd (ground (arith, off, f, c));
            })
      | inr on ↦ elim (Option-cases (lookup room b.subscriptions)) [
        | inr (i, there) ↦
            rw (subscribe, on, there)
              (record {
                sound = stored;
                distinct = keys;
                down = v.down;
                up = λ f c r g e. elim (Bool-cases (room == r)) [
                  | inl same ↦ (
                    i,
                    subst (λ x. lookup x b.subscriptions ≡ some i) ((eq_iff room r).0 same) there,
                  )
                  | inr other ↦
                      v.up f c r g (ground (arith, lookup-insert room r h b.handlers, other, e))
                ];
              })
        | inl absent ↦
            rw (subscribe, on, absent)
              (record {
                sound =
                    open_pubsub-Sound room h (store_handler room h b) absent
                      (lookup-insert room room h b.handlers ∙ rw (eq_refl room) refl) stored;
                distinct = keys;
                down = λ f r. absurd (ground (arith, on, f));
                up = λ f c r g e. elim (Bool-cases (room == r)) [
                  | inl same ↦ (b.next, lookup-insert room r b.next b.subscriptions ∙ rw same refl)
                  | inr other ↦
                      open_pubsub_keeps room r b
                        (v.up f c r g (ground (arith, lookup-insert room r h b.handlers, other, e)))
                ];
              })
      ]
    ]

pub unsubscribe-Inv : (room : String) (b : Broker) → Inv b → Inv (unsubscribe room b)
unfolding unsubscribe
unsubscribe-Inv room b v =
    let d = drop_room room b in
    let (s, gone) = drop_room-Sound room b v.sound in
    let k = drop_room-Kept room b in
    record {
      sound = remove_handler-Sound room d s gone;
      distinct = rw k.handlers (DistinctKeys-remove room b.handlers v.distinct);
      down = λ f r. drop_room-none room r b (v.down (sym k.fallback ∙ f) r);
      up = λ f c r g e.
          let (other, was) = lookup_of_remove room r g b.handlers (rw k.handlers at e) in
          let (i, there) = v.up (sym k.fallback ∙ f) (sym k.has_client ∙ c) r g was in
          (i, drop_room_other room r i b other there);
    }

go_down-Inv : (b : Broker) → Inv b → Inv (go_down b)
unfolding go_down
go_down-Inv b v = elim (Bool-cases b.fallback) [
  | inl down ↦ let same : go_down b ≡ b = ground (arith, down) in subst Inv (sym same) v
  | inr up ↦
      let b0 : Broker = record b { fallback = true } in
      let s0 : Sound b0 = record {
        below = v.sound.below;
        is_open = v.sound.is_open;
        handled = v.sound.handled;
        known = v.sound.known;
      } in
      let (s, k, gone) = drop_all-Sound b.subscriptions b0 s0 in
      let went : go_down b ≡ drop_all b.subscriptions b0 = ground (arith, up) in
      subst Inv (sym went) (record {
        sound = s;
        distinct = rw k.handlers v.distinct;
        down = λ f r. elim (Option-cases (lookup r b.subscriptions)) [
          | inl absent ↦ drop_all-none b.subscriptions r b0 absent
          | inr (i, there) ↦ gone r i there
        ];
        up = λ f c r g e. absurd (cc (f, k.fallback));
      })
]

come_back-Inv :
    (b : Broker) → Inv b → Inv (let (b', rooms) = come_back b in resubscribe_all rooms b')
unfolding come_back resubscribe_all
come_back-Inv b v = elim (Bool-cases b.fallback) [
  | inr up ↦
      let same : come_back b ≡ (b, []) = ground (arith, up) in
      subst (λ c. Inv (resubscribe_all c.1 c.0)) (sym same) v
  | inl down ↦
      let b0 : Broker = record b { fallback = false } in
      let s0 : Sound b0 = record {
        below = v.sound.below;
        is_open = v.sound.is_open;
        handled = v.sound.handled;
        known = v.sound.known;
      } in
      let p : Pending b.handlers b0 = record {
        distinct = v.distinct;
        missing = λ r h e. v.down down r;
        handled = λ r h e. e;
      } in
      let (s, k, all) = resubscribe_all-Sound b.handlers b0 s0 p in
      let back : come_back b ≡ (b0, b.handlers) = ground (arith, down) in
      subst (λ c. Inv (resubscribe_all c.1 c.0)) (sym back)
        (record {
          sound = s;
          distinct = rw k.handlers v.distinct;
          down = λ f r. absurd (cc (f, k.fallback));
          up = λ f c r g e. all r g (rw k.handlers at e);
        })
]

pub monitor-Inv : (answers : Bool) (b : Broker) → Inv b → Inv (monitor answers b)
unfolding monitor
monitor-Inv answers b v = elim (Bool-cases (b.cancelled || not b.has_client)) [
  | inl off ↦ rw (monitor, off) v
  | inr on ↦ elim (Bool-cases answers) [
    | inl alive ↦ rw (monitor, on, alive) (come_back-Inv b v)
    | inr lost ↦ rw (monitor, on, lost) (go_down-Inv b v)
  ]
]

-- What happens to the broker while the critical sections of a recovery are not interleaved with
-- others: a hub subscribes or unsubscribes, and Redis answers a ping or does not.
pub data Op : Type 0 where
  subscribes : String → ℕ → Op
  unsubscribes : String → Op
  pings : Bool → Op

abbrev pub apply : Op → Broker → Broker
apply (subscribes room handler) b = (subscribe room handler b).0
apply (unsubscribes room) b = unsubscribe room b
apply (pings answers) b = monitor answers b

unfoldable pub run : List Op → Broker → Broker
run [] b = b
run (op ∷ ops) b = run ops (apply op b)

apply-Inv : (op : Op) (b : Broker) → Inv b → Inv (apply op b)
apply-Inv (subscribes room handler) b v = subscribe-Inv room handler b v
apply-Inv (unsubscribes room) b v = unsubscribe-Inv room b v
apply-Inv (pings answers) b v = monitor-Inv answers b v

pub run-Inv : (ops : List Op) (b : Broker) → Inv b → Inv (run ops b)
unfolding run
run-Inv [] b v = v
run-Inv (op ∷ ops) b v = run-Inv ops (apply op b) (apply-Inv op b v)

-- Is the broker there and not closed?
abbrev pub IsRunning : Broker → Type 0
IsRunning b = (b.has_client ≡ true) × (b.cancelled ≡ false)

Kept-IsRunning : (b b' : Broker) → Kept b b' → IsRunning b → IsRunning b'
Kept-IsRunning b b' k (c, r) = (k.has_client ∙ c, k.cancelled ∙ r)

pub monitor-IsRunning : (answers : Bool) (b : Broker) → IsRunning b → IsRunning (monitor answers b)
unfolding monitor come_back go_down resubscribe_all
monitor-IsRunning answers b v =
    let ks = resubscribe_all-Kept b.handlers (record b { fallback = false }) in
    let kd = drop_all-Kept b.subscriptions (record b { fallback = true }) in
    ground (arith, v, ks.has_client, ks.cancelled, kd.has_client, kd.cancelled)

apply-IsRunning : (op : Op) (b : Broker) → IsRunning b → IsRunning (apply op b)
unfolding subscribe store_handler open_pubsub unsubscribe
apply-IsRunning (subscribes room handler) b v = ground (arith, v)
apply-IsRunning (unsubscribes room) b v =
    Kept-IsRunning b (drop_room room b) (drop_room-Kept room b) v
apply-IsRunning (pings answers) b v = monitor-IsRunning answers b v

pub run-IsRunning : (ops : List Op) (b : Broker) → IsRunning b → IsRunning (run ops b)
unfolding run
run-IsRunning [] b v = v
run-IsRunning (op ∷ ops) b v = run-IsRunning ops (apply op b) (apply-IsRunning op b v)

pub monitor-connects :
    (b : Broker)
    → IsRunning b
    → ((monitor true b).fallback ≡ false) × ((monitor true b).handlers ≡ b.handlers)
unfolding monitor come_back resubscribe_all
monitor-connects b (c, r) =
    let k = resubscribe_all-Kept b.handlers (record b { fallback = false }) in
    ground (arith, c, r, k.fallback, k.handlers)
