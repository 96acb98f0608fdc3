-- ===== src/Hub/Delivery.antt =====
-- The loop of broadcastLocal (server/handler/hub.go) over its snapshot of the clients, against a
-- description of one client at a time.
use mathlib.Core.Path.{fun_ext}
use woongkie_talkie.Base.{
  ℕ, ◌≡◌, refl, Bool, true, false, not, ◌&&◌, List, [], ◌∷◌, ◌++◌, some, eqb, ltb, if◌then◌else◌,
  keep, length, elem, update, arith, Bool-cases, inl, inr, eqb_iff, Distinct, All, ◌==◌,
}
use woongkie_talkie.Chat.{ChatMessage}
use woongkie_talkie.Hub.{Client, send_capacity, try_send, is_typing, client_msg, offer, deliver_all}

-- Typing events do not go back to the sender.
unfoldable pub skips : ChatMessage → Client → Bool
skips msg c = is_typing msg && c.username == msg.user

-- A client that is sent the message and has no room for it.
unfoldable pub is_slow : ChatMessage → Client → Bool
is_slow msg c = not (skips msg c) && not (ltb (length c.send) send_capacity)

-- A client after the message: untouched, or with the message at the end of its buffer, or closed.
unfoldable pub received : ChatMessage → Client → Client
received msg c =
    if skips msg c
    then c
    else if ltb (length c.send) send_capacity
    then record c { send = c.send ++ client_msg msg c ∷ [] }
    else c

abbrev pub IsOpen : (ℕ → Client) → List ℕ → Type 0
IsOpen store = All λ i. (store i).closed ≡ false

offer_lem :
    (msg : ChatMessage) (c : Client)
    → c.closed ≡ false
    → offer msg c ≡ some (received msg c, is_slow msg c)
unfolding offer try_send received is_slow skips
offer_lem msg c open_ = ground arith

IsOpen-update :
    (i : ℕ) (c : Client) (store : ℕ → Client) (is : List ℕ)
    → elem i is ≡ false
    → IsOpen store is
    → IsOpen (update store i c) is
IsOpen-update i c store [] e h = tt
IsOpen-update i c store (j ∷ is) e h = ground (arith, IsOpen-update i c store is)

abbrev pub delivered : ChatMessage → List ℕ → (ℕ → Client) → ℕ → Client
delivered msg is store j = if elem j is then received msg (store j) else store j

delivered-update :
    (msg : ChatMessage) (i : ℕ) (is : List ℕ) (store : ℕ → Client) (j : ℕ)
    → elem i is ≡ false
    → delivered msg is (update store i (received msg (store i))) j ≡ delivered msg (i ∷ is) store j
delivered-update msg i is store j e = elim (Bool-cases (eqb i j)) [
  | inl same ↦ let k = (eqb_iff i j).0 same in rw (same, ← k, e) (ground (arith, k))
  | inr other ↦ rw other
]

keep-update :
    (msg : ChatMessage) (i : ℕ) (c : Client) (is : List ℕ) (store : ℕ → Client)
    → elem i is ≡ false
    → keep (λ j. is_slow msg (update store i c j)) is ≡ keep (λ j. is_slow msg (store j)) is
keep-update msg i c [] store e = refl
keep-update msg i c (j ∷ is) store e = ground (arith, keep-update msg i c is store)

pub deliver_all_lem :
    (msg : ChatMessage) (is : List ℕ) (store : ℕ → Client)
    → Distinct is
    → IsOpen store is
    → deliver_all msg is store ≡ some (delivered msg is store, keep (λ i. is_slow msg (store i)) is)
unfolding deliver_all
deliver_all_lem msg [] store d h = refl
deliver_all_lem msg (i ∷ is) store d h =
    let after = update store i (received msg (store i)) in
    let ih = deliver_all_lem msg is after d.1 (IsOpen-update i _ store is d.0 h.1) in
    rw (offer_lem msg (store i) h.0, ih)
      (rw (
        fun_ext (λ j. delivered-update msg i is store j d.0),
        keep-update msg i (received msg (store i)) is store d.0,
      ))

pub received-closed : (msg : ChatMessage) (c : Client) → (received msg c).closed ≡ c.closed
unfolding received
received-closed msg c = ground arith

pub received_slow : (msg : ChatMessage) (c : Client) → is_slow msg c ≡ true → received msg c ≡ c
unfolding received is_slow
received_slow msg c e = ground arith

pub received-username : (msg : ChatMessage) (c : Client) → (received msg c).username ≡ c.username
unfolding received
received-username msg c = ground arith
