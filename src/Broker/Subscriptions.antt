-- ===== src/Broker/Subscriptions.antt =====
-- pkg/redis/pubsub.go: the subscriptions that are open are those that the broker knows, one for each
-- room.
use woongkie_talkie.Base.{
  ℕ, ◌<◌, ◌≡◌, ◌≢◌, inl, inr, refl, sym, ap, subst, ◌∙◌, String, false, [], ◌∷◌, none, some, ◌==◌,
  Assoc, lookup, remove, lookup-insert, lookup-remove, lookup_of_remove, other_key, update_ne, eqb,
  arith, Bool-cases, Option-cases, eq_iff, eq_refl,
}
use woongkie_talkie.Broker.{Broker, open_pubsub, store_handler, drop_room, drop_all}

-- Every subscription of the map is open and is the room's, and has a handler; every open one is in
-- the map.
pub record Sound (b : Broker) : Type 0 where
  pub below : (room : String) (i : ℕ) → lookup room b.subscriptions ≡ some i → i < b.next
  pub is_open :
      (room : String) (i : ℕ)
      → lookup room b.subscriptions ≡ some i
      → ((b.pubsub i).closed ≡ false) × ((b.pubsub i).room ≡ room)
  pub handled :
      (room : String) (i : ℕ)
      → lookup room b.subscriptions ≡ some i
      → (h : ℕ) × (lookup room b.handlers ≡ some h)
  pub known :
      (i : ℕ)
      → i < b.next
      → (b.pubsub i).closed ≡ false
      → lookup (b.pubsub i).room b.subscriptions ≡ some i

pub open_pubsub-Sound :
    (room : String) (h : ℕ) (b : Broker)
    → lookup room b.subscriptions ≡ none
    → lookup room b.handlers ≡ some h
    → Sound b
    → Sound (open_pubsub room b)
unfolding open_pubsub
open_pubsub-Sound room h b absent handler v =
    let at_ = λ (r : String). lookup-insert room r b.next b.subscriptions in
    record {
      below = λ r i e. elim (Bool-cases (room == r)) [
        | inl same ↦ ground (arith, at_ r, e, same)
        | inr other ↦
            let before : lookup r b.subscriptions ≡ some i = ground (arith, at_ r, e, other) in
            omega (arith, v.below r i before)
      ];
      is_open = λ r i e. elim (Bool-cases (room == r)) [
        | inl same ↦ ground (arith, at_ r, e, same, (eq_iff room r).0 same)
        | inr other ↦
            let before : lookup r b.subscriptions ≡ some i = ground (arith, at_ r, e, other) in
            ground (arith, v.is_open r i before, v.below r i before)
      ];
      handled = λ r i e. elim (Bool-cases (room == r)) [
        | inl same ↦ (h, subst (λ x. lookup x b.handlers ≡ some h) ((eq_iff room r).0 same) handler)
        | inr other ↦ v.handled r i (ground (arith, at_ r, e, other))
      ];
      known = λ i lt o. elim (Bool-cases (eqb b.next i)) [
        | inl same ↦ ground (arith, same, at_ room, eq_refl room)
        | inr other ↦
            let older : i < b.next = ground (arith, other, lt) in
            let was : lookup (b.pubsub i).room b.subscriptions ≡ some i =
              v.known i older (ground (arith, other, o)) in
            let differ : (room == (b.pubsub i).room) ≡ false =
              other_key room (b.pubsub i).room i b.subscriptions absent was in
            ground (arith, other, at_ (b.pubsub i).room, differ, was)
      ];
    }

pub store_handler-Sound :
    (room : String) (h : ℕ) (b : Broker) → Sound b → Sound (store_handler room h b)
unfolding store_handler
store_handler-Sound room h b v = record {
  below = v.below;
  is_open = v.is_open;
  handled = λ r i e. elim (Bool-cases (room == r)) [
    | inl same ↦ (h, ground (arith, lookup-insert room r h b.handlers, same))
    | inr other ↦
        let (g, there) = v.handled r i e in
        (g, ground (arith, lookup-insert room r h b.handlers, other, there))
  ];
  known = v.known;
}

-- After a subscription is dropped its room has none, and the others are as before.
pub drop_room-Sound :
    (room : String) (b : Broker)
    → Sound b
    → Sound (drop_room room b) × (lookup room (drop_room room b).subscriptions ≡ none)
unfolding drop_room
drop_room-Sound room b v = elim (Option-cases (lookup room b.subscriptions)) [
  | inl absent ↦ rw (drop_room, absent) (v, absent)
  | inr (i, there) ↦
      let left = λ (r : String) (j : ℕ). lookup_of_remove room r j b.subscriptions in
      rw (drop_room, there)
        (
          record {
            below = λ r j e. v.below r j (left r j e).1;
            is_open = λ r j e.
                let (other, was) = left r j e in
                let differ : i ≢ j = λ p.
                  let mine = (v.is_open room i there).1 in
                  let yours = (v.is_open r j was).1 in
                  cc
                    (other, (eq_iff room r).1 (sym mine ∙ ap (λ x. (b.pubsub x).room) p ∙ yours)) in
                rw (update_ne b.pubsub i j _ differ) (v.is_open r j was);
            handled = λ r j e. v.handled r j (left r j e).1;
            known = λ j lt o. elim (Bool-cases (eqb i j)) [
              | inl same ↦ ground (arith, same, o)
              | inr other ↦
                  let was : lookup (b.pubsub j).room b.subscriptions ≡ some j =
                    v.known j lt (ground (arith, other, o)) in
                  elim (Bool-cases (room == (b.pubsub j).room)) [
                    | inl same ↦
                        let same_entry : lookup (b.pubsub j).room b.subscriptions ≡ some i =
                          subst (λ x. lookup x b.subscriptions ≡ some i)
                            ((eq_iff room (b.pubsub j).room).0 same) there in
                        absurd (ground (arith, same_entry, was, other))
                    | inr differ ↦ ground (
                      arith,
                      other,
                      lookup-remove room (b.pubsub j).room b.subscriptions,
                      differ,
                      was,
                    )
                  ]
            ];
          },
          ground (arith, lookup-remove room room b.subscriptions, eq_refl room),
        )
]

-- A handler can go when its room has no subscription.
pub remove_handler-Sound :
    (room : String) (b : Broker)
    → Sound b
    → lookup room b.subscriptions ≡ none
    → Sound (record b { handlers = remove room b.handlers })
remove_handler-Sound room b v gone = record {
  below = v.below;
  is_open = v.is_open;
  handled = λ r i e.
      let (h, there) = v.handled r i e in
      let differ = other_key room r i b.subscriptions gone e in
      (h, lookup-remove room r b.handlers ∙ rw differ there);
  known = v.known;
}

-- A drop loses no handler, and leaves the other fields alone.
pub record Kept (b b' : Broker) : Type 0 where
  pub has_client : b'.has_client ≡ b.has_client
  pub handlers : b'.handlers ≡ b.handlers
  pub fallback : b'.fallback ≡ b.fallback
  pub cancelled : b'.cancelled ≡ b.cancelled

pub drop_room-Kept : (room : String) (b : Broker) → Kept b (drop_room room b)
unfolding drop_room
drop_room-Kept room b = elim (Option-cases (lookup room b.subscriptions)) [
  | inl absent ↦
      rw (drop_room, absent)
        (record { has_client = refl; handlers = refl; fallback = refl; cancelled = refl })
  | inr (i, there) ↦
      rw (drop_room, there)
        (record { has_client = refl; handlers = refl; fallback = refl; cancelled = refl })
]

pub drop_room-none :
    (room r : String) (b : Broker)
    → lookup r b.subscriptions ≡ none
    → lookup r (drop_room room b).subscriptions ≡ none
unfolding drop_room
drop_room-none room r b e = ground (arith, e, lookup-remove room r b.subscriptions)

pub drop_room_other :
    (room r : String) (i : ℕ) (b : Broker)
    → (room == r) ≡ false
    → lookup r b.subscriptions ≡ some i
    → lookup r (drop_room room b).subscriptions ≡ some i
unfolding drop_room
drop_room_other room r i b other e = ground (arith, other, e, lookup-remove room r b.subscriptions)

pub drop_all-none :
    (entries : Assoc ℕ) (r : String) (b : Broker)
    → lookup r b.subscriptions ≡ none
    → lookup r (drop_all entries b).subscriptions ≡ none
unfolding drop_all
drop_all-none [] r b e = e
drop_all-none ((room, i) ∷ more) r b e =
    drop_all-none more r (drop_room room b) (drop_room-none room r b e)

-- The loop over the map ends with every listed room without a subscription.
pub drop_all-Sound :
    (entries : Assoc ℕ) (b : Broker)
    → Sound b
    → Sound (drop_all entries b)
      × Kept b (drop_all entries b)
      × ((r : String) (i : ℕ)
          → lookup r entries ≡ some i
          → lookup r (drop_all entries b).subscriptions ≡ none)
unfolding drop_all lookup
drop_all-Sound [] b v = (
  v,
  record { has_client = refl; handlers = refl; fallback = refl; cancelled = refl },
  λ r i e. cc e,
)
drop_all-Sound ((room, j) ∷ more) b v =
    let (v', gone) = drop_room-Sound room b v in
    let k = drop_room-Kept room b in
    let (vs, ks, all) = drop_all-Sound more (drop_room room b) v' in
    (
      vs,
      record {
        has_client = ks.has_client ∙ k.has_client;
        handlers = ks.handlers ∙ k.handlers;
        fallback = ks.fallback ∙ k.fallback;
        cancelled = ks.cancelled ∙ k.cancelled;
      },
      λ r i e. elim (Bool-cases (room == r)) [
        | inl same ↦ drop_all-none more r (drop_room room b) (
            subst (λ x. lookup x (drop_room room b).subscriptions ≡ none) ((eq_iff room r).0 same)
              gone)
        | inr other ↦ all r i (rw other at e)
      ],
    )
