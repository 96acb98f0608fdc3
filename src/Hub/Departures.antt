-- ===== src/Hub/Departures.antt =====
-- server/handler/hub.go: the first half of the unregister case of Hub.Run, and the search by name
-- that follows it.
use woongkie_talkie.Base.{
  ℕ, ◌≡◌, refl, ap, String, true, false, not, ◌&&◌, ◌⊎◌, List, [], ◌∷◌, elem, arith, Bool-cases,
  inl, inr, eqb, eqb_iff, elem-keep, length, keep, if◌then◌else◌, ◌==◌, eq_iff,
}
use woongkie_talkie.Hub.{Client, Hub, close_send}
use woongkie_talkie.Hub.Run.{remove_client}

-- A client has left: it is no longer listed, its channel is closed if it was, and all else is as
-- before.
pub record IsWithout (i : ℕ) (h h' : Hub) : Type 0 where
  pub clients : (j : ℕ) → elem j h'.clients ≡ (elem j h.clients && not (eqb i j))
  pub client :
      (j : ℕ)
      → h'.client j ≡ (
          if eqb i j && elem i h.clients then record (h.client j) { closed = true } else h.client j)
  pub same_presence : h'.presence ≡ h.presence
  pub same_stopped : h'.stopped ≡ h.stopped
  pub same_room : h'.room_id ≡ h.room_id
  pub same_redis : h'.redis_up ≡ h.redis_up
  pub same_connections : h'.active_connections ≡ h.active_connections
  pub same_broker : h'.has_broker ≡ h.has_broker

pub remove_client-IsWithout : (i : ℕ) (h : Hub) → IsWithout i h (remove_client i h)
unfolding remove_client close_send
remove_client-IsWithout i h = elim (Bool-cases (elem i h.clients)) [
  | inl here ↦ rw here (record {
    clients = λ j. elem-keep (λ k. not (eqb i k)) j h.clients;
    client = λ j. ground (arith, eqb_iff i j, closed_stays (h.client j));
    same_presence = refl;
    same_stopped = refl;
    same_room = refl;
    same_redis = refl;
    same_connections = refl;
    same_broker = refl;
  })
  | inr gone ↦ rw gone (record {
    clients = λ j. ground (arith, gone, eqb_iff i j);
    client = λ j. ground arith;
    same_presence = refl;
    same_stopped = refl;
    same_room = refl;
    same_redis = refl;
    same_connections = refl;
    same_broker = refl;
  })
]
  where
    closed_stays : (c : Client) → c.closed ≡ true → c ≡ record c { closed = true }
    closed_stays c e = ground (arith, e)

-- The clients that a search by name lists: none, or one that can be named.
pub named-cases :
    (h : Hub) (name : String) (is : List ℕ)
    → ((keep (λ i. (h.client i).username == name) is ≡ [])
        × ((j : ℕ) → (elem j is && (h.client j).username == name) ≡ false))
      ⊎ ((eqb (length (keep (λ i. (h.client i).username == name) is)) 0 ≡ false)
          × ((j : ℕ) × (elem j is ≡ true) × ((h.client j).username ≡ name)))
named-cases h name [] = inl (refl, λ j. refl)
named-cases h name (i ∷ is) = elim (Bool-cases ((h.client i).username == name)) [
  | inl his ↦ inr (rw his (ground arith), (i, ground arith, (eq_iff _ name).0 his))
  | inr other ↦ elim (named-cases h name is) [
    | inl (e, none_) ↦
        inl (rw other e, λ j. ground (arith, none_ j, other, eqb_iff i j, ap h.client))
    | inr (e, (j, there, his)) ↦ inr (rw other e, (j, ground (arith, there), his))
  ]
]
