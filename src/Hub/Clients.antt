-- ===== src/Hub/Clients.antt =====
-- The clients of a hub that leave: eviction, kicks, shutdown. What each loop does to the list of
-- clients and to every client of the store.
use woongkie_talkie.Base.{
  ℕ, ◌≡◌, refl, ◌∙◌, sym, ap, false, not, ◌&&◌, List, [], ◌∷◌, eqb, if◌then◌else◌, keep, elem,
  arith, keep_all, keep_none, keep_congr, eqb_iff, String, true, ◌==◌, Bool-cases, inl, inr,
  elem-keep,
}
use woongkie_talkie.Hub.{
  Client, Hub, close_send, delete, evict_one, evict_all, dismiss, hang_up, close_all_clients, named,
  kick_user,
}

-- Taking one out and then the rest is taking all out.
pub keep-delete :
    (i : ℕ) (is xs : List ℕ)
    → keep (λ j. not (elem j is)) (delete i xs) ≡ keep (λ j. not (elem j (i ∷ is))) xs
keep-delete i is [] = refl
keep-delete i is (x ∷ xs) = ground (arith, keep-delete i is xs)

pub delete_absent : (i : ℕ) (xs : List ℕ) → elem i xs ≡ false → delete i xs ≡ xs
delete_absent i [] e = refl
delete_absent i (x ∷ xs) e = ground (arith, delete_absent i xs)

evict_one-clients : (i : ℕ) (h : Hub) → (evict_one i h).clients ≡ delete i h.clients
unfolding evict_one
evict_one-clients i h = elim (Bool-cases (elem i h.clients)) [
  | inl here ↦ rw here
  | inr gone ↦ rw gone (sym (delete_absent i h.clients gone))
]

pub evict_all-clients :
    (is : List ℕ) (h : Hub) → (evict_all is h).clients ≡ keep (λ j. not (elem j is)) h.clients
unfolding evict_all
evict_all-clients [] h = sym (keep_all h.clients)
evict_all-clients (i ∷ is) h =
    evict_all-clients is (evict_one i h)
    ∙ ap (keep λ j. not (elem j is)) (evict_one-clients i h)
    ∙ keep-delete i is h.clients

-- The client at `j` once those of `is` that are in the hub have been evicted.
abbrev pub evicted : List ℕ → Hub → ℕ → Client
evicted is h j = if elem j is && elem j h.clients then close_send (h.client j) else h.client j

evict_one-client :
    (i : ℕ) (h : Hub) (j : ℕ)
    → (evict_one i h).client j
      ≡ (if eqb i j && elem j h.clients then close_send (h.client j) else h.client j)
unfolding evict_one
evict_one-client i h j = ground arith

pub evict_all-client : (is : List ℕ) (h : Hub) (j : ℕ) → (evict_all is h).client j ≡ evicted is h j
unfolding evict_all
evict_all-client [] h j = refl
evict_all-client (i ∷ is) h j = ground (
  arith,
  evict_all-client is (evict_one i h) j,
  evict_one-client i h j,
  evict_one-clients i h,
  elem-keep (λ k. not (eqb i k)) j h.clients,
)

module _ (act : Client → Client) where
  pub dismiss-clients :
      (is : List ℕ) (h : Hub) → (dismiss act is h).clients ≡ keep (λ j. not (elem j is)) h.clients
  unfolding dismiss
  dismiss-clients [] h = sym (keep_all h.clients)
  dismiss-clients (i ∷ is) h = dismiss-clients is _ ∙ keep-delete i is h.clients

  pub dismiss_frame :
      (is : List ℕ) (h : Hub)
      → ((dismiss act is h).stopped ≡ h.stopped)
        × ((dismiss act is h).presence ≡ h.presence)
        × ((dismiss act is h).room_id ≡ h.room_id)
  unfolding dismiss
  dismiss_frame [] h = (refl, refl, refl)
  dismiss_frame (i ∷ is) h = dismiss_frame is _

  -- Where doing `act` twice is doing it once, a client is acted on if it is in the list.
  pub dismiss-client :
      (is : List ℕ) (h : Hub) (j : ℕ)
      → ((c : Client) → act (act c) ≡ act c)
      → (dismiss act is h).client j ≡ (if elem j is then act (h.client j) else h.client j)
  unfolding dismiss
  dismiss-client [] h j twice = refl
  dismiss-client (i ∷ is) h j twice =
      dismiss-client is _ j twice ∙ ground (arith, twice (h.client i), ap h.client, eqb_iff i j)

pub close_send_idem : (c : Client) → close_send (close_send c) ≡ close_send c
unfolding close_send
close_send_idem c = ground arith

pub close_send-closed : (c : Client) → (close_send c).closed ≡ true
unfolding close_send
close_send-closed c = ground arith

pub close_send-username : (c : Client) → (close_send c).username ≡ c.username
unfolding close_send
close_send-username c = ground arith

pub hang_up_idem : (c : Client) → hang_up (hang_up c) ≡ hang_up c
unfolding hang_up close_send
hang_up_idem c = ground arith

keep-not_self : (xs : List ℕ) → keep (λ j. not (elem j xs)) xs ≡ []
keep-not_self xs = keep_none _ xs (λ i e. rw e)

-- When the stop channel is closed every client is hung up, and none is left.
pub close_all_clients_lem :
    (h : Hub)
    → ((close_all_clients h).clients ≡ [])
      × ((j : ℕ)
          → (close_all_clients h).client j
            ≡ (if elem j h.clients then hang_up (h.client j) else h.client j))
unfolding close_all_clients
close_all_clients_lem h = (
  dismiss-clients hang_up h.clients h ∙ keep-not_self h.clients,
  λ j. dismiss-client hang_up h.clients h j hang_up_idem,
)

-- kick_user leaves exactly the clients of other names, closes every client of the name, and touches
-- no other client.
kick_user_lem :
    (name : String) (h : Hub)
    → ((kick_user name h).clients ≡ keep (λ i. not ((h.client i).username == name)) h.clients)
      × ((j : ℕ)
          → (kick_user name h).client j ≡ (
              if elem j h.clients && (h.client j).username == name
              then close_send (h.client j)
              else h.client j))
unfolding kick_user
kick_user_lem name h = (
  dismiss-clients close_send (named h name) h
      ∙ keep_congr _ _ h.clients
          (λ i e. ground (arith, elem-keep (λ k. (h.client k).username == name) i h.clients)),
  λ j.
      dismiss-client close_send (named h name) h j close_send_idem
      ∙ ground (arith, elem-keep (λ k. (h.client k).username == name) j h.clients),
)
