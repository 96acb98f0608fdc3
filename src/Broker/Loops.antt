-- ===== src/Broker/Loops.antt =====
-- pkg/redis/pubsub.go: the loops of a loss and of a recovery, over the map of subscriptions and over
-- the copy of the map of handlers.
use woongkie_talkie.Base.{
  DistinctKeys, ℕ, ◌≡◌, inl, inr, refl, ◌∙◌, String, [], ◌∷◌, none, some, ◌==◌, Assoc, lookup,
  lookup-insert, other_key, arith, Bool-cases, eq_refl,
}
use woongkie_talkie.Broker.{Broker, open_pubsub, drop_room, drop_all, resubscribe_all}
use woongkie_talkie.Broker.Subscriptions.{Sound, Kept, open_pubsub-Sound, drop_room-Kept}

-- What the loop of the recovery still has to subscribe to.
pub record Pending (rooms : Assoc ℕ) (b : Broker) : Type 0 where
  pub distinct : DistinctKeys rooms
  pub missing : (r : String) (h : ℕ) → lookup r rooms ≡ some h → lookup r b.subscriptions ≡ none
  pub handled : (r : String) (h : ℕ) → lookup r rooms ≡ some h → lookup r b.handlers ≡ some h

Pending-rest :
    (room : String) (h : ℕ) (more : Assoc ℕ) (b : Broker)
    → Pending ((room, h) ∷ more) b
    → Pending more (open_pubsub room b)
unfolding open_pubsub lookup
Pending-rest room h more b p = record {
  distinct = p.distinct.1;
  missing = λ r g e.
      let other = other_key room r g more p.distinct.0 e in
      lookup-insert room r b.next b.subscriptions ∙ rw other (p.missing r g (rw other e));
  handled =
      λ r g e. let other = other_key room r g more p.distinct.0 e in p.handled r g (rw other e);
}

pub open_pubsub_keeps :
    (room r : String) (b : Broker)
    → ((i : ℕ) × (lookup r b.subscriptions ≡ some i))
    → (i : ℕ) × (lookup r (open_pubsub room b).subscriptions ≡ some i)
unfolding open_pubsub
open_pubsub_keeps room r b (i, e) = elim (Bool-cases (room == r)) [
  | inl same ↦ (b.next, lookup-insert room r b.next b.subscriptions ∙ rw same refl)
  | inr other ↦ (i, lookup-insert room r b.next b.subscriptions ∙ rw other e)
]

resubscribe_all_keeps :
    (rooms : Assoc ℕ) (r : String) (b : Broker)
    → ((i : ℕ) × (lookup r b.subscriptions ≡ some i))
    → (i : ℕ) × (lookup r (resubscribe_all rooms b).subscriptions ≡ some i)
unfolding resubscribe_all
resubscribe_all_keeps [] r b s = s
resubscribe_all_keeps ((room, h) ∷ more) r b s =
    resubscribe_all_keeps more r (open_pubsub room b) (open_pubsub_keeps room r b s)

pub resubscribe_all-Sound :
    (rooms : Assoc ℕ) (b : Broker)
    → Sound b
    → Pending rooms b
    → Sound (resubscribe_all rooms b)
      × Kept b (resubscribe_all rooms b)
      × ((r : String) (h : ℕ)
          → lookup r rooms ≡ some h
          → (i : ℕ) × (lookup r (resubscribe_all rooms b).subscriptions ≡ some i))
unfolding resubscribe_all lookup open_pubsub
resubscribe_all-Sound [] b v p = (
  v,
  record { has_client = refl; handlers = refl; fallback = refl; cancelled = refl },
  λ r h e. cc e,
)
resubscribe_all-Sound ((room, h) ∷ more) b v p =
    let v' =
      open_pubsub-Sound room h b (p.missing room h (ground (arith, eq_refl room)))
        (p.handled room h (ground (arith, eq_refl room))) v in
    let (vs, k, all) =
      resubscribe_all-Sound more (open_pubsub room b) v' (Pending-rest room h more b p) in
    (
      vs,
      record {
        has_client = k.has_client;
        handlers = k.handlers;
        fallback = k.fallback;
        cancelled = k.cancelled;
      },
      λ r g e. elim (Bool-cases (room == r)) [
        | inl same ↦
            resubscribe_all_keeps more r (open_pubsub room b)
              (b.next, lookup-insert room r b.next b.subscriptions ∙ rw same refl)
        | inr other ↦ all r g (rw other at e)
      ],
    )

-- The loops keep everything but the subscriptions.
pub drop_all-Kept : (entries : Assoc ℕ) (b : Broker) → Kept b (drop_all entries b)
unfolding drop_all
drop_all-Kept [] b = record {
  has_client = refl;
  handlers = refl;
  fallback = refl;
  cancelled = refl;
}
drop_all-Kept ((room, i) ∷ more) b =
    let k = drop_room-Kept room b in
    let ks = drop_all-Kept more (drop_room room b) in
    record {
      has_client = ks.has_client ∙ k.has_client;
      handlers = ks.handlers ∙ k.handlers;
      fallback = ks.fallback ∙ k.fallback;
      cancelled = ks.cancelled ∙ k.cancelled;
    }

pub resubscribe_all-Kept : (rooms : Assoc ℕ) (b : Broker) → Kept b (resubscribe_all rooms b)
unfolding resubscribe_all open_pubsub
resubscribe_all-Kept [] b = record {
  has_client = refl;
  handlers = refl;
  fallback = refl;
  cancelled = refl;
}
resubscribe_all-Kept ((room, h) ∷ more) b =
    let k = resubscribe_all-Kept more (open_pubsub room b) in
    record {
      has_client = k.has_client;
      handlers = k.handlers;
      fallback = k.fallback;
      cancelled = k.cancelled;
    }
