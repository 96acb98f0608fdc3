-- ===== src/Presence.antt =====
-- pkg/redis/presence.go: who is online and who is typing in a room, in sets of names whose members
-- count only while their own keys have not expired. The client of Redis is a parameter; `has_client`
-- says whether it was initialised.
pub mod Keys
pub mod Deadlines
pub mod Refinement
pub mod Runs
pub mod StaleRace
pub mod Tests
use Prim.Native.String
use woongkie_talkie.Base.{
  ℕ, ◌*◌, String, Bool, true, false, List, [], ◌∷◌, Option, none, some, if◌then◌else◌, map,
}
use woongkie_talkie.Redis.{Command, s_add, s_rem, set, del, expire, Redis}

abbrev pub presence_ttl : ℕ
presence_ttl = 5 * 60

abbrev pub typing_ttl : ℕ
typing_ttl = 5

abbrev pub presence_set_key : String → String
presence_set_key room_id = String.◌++◌ "presence:room:" room_id

abbrev pub presence_user_key : String → String → String
presence_user_key room_id username =
    String.◌++◌ "presence:user:" (String.◌++◌ room_id (String.◌++◌ ":" username))

abbrev pub typing_set_key : String → String
typing_set_key room_id = String.◌++◌ "typing:room:" room_id

abbrev pub typing_user_key : String → String → String
typing_user_key room_id username =
    String.◌++◌ "typing:user:" (String.◌++◌ room_id (String.◌++◌ ":" username))

-- The names of the live keys, and the others.
unfoldable pub split_members : List String → List Bool → List String × List String
split_members (u ∷ us) (live ∷ more) =
    let (active, stale) = split_members us more in
    if live then (u ∷ active, stale) else (active, u ∷ stale)
split_members _ _ = ([], [])

module _ (redis : Redis) where
  pub record World : Type 0 where
    pub has_client : Bool
    pub state : redis.State

  -- A pipeline of a client that may be nil: is there no error?
  unfoldable pub exec : ℕ → List Command → World → Bool × World
  exec now commands w =
      if w.has_client
      then (let (answered, state') = redis.pipeline now commands w.state in
          (answered, record w { state = state' }))
      else (false, w)

  unfoldable pub set_online : ℕ → String → String → World → Bool × World
  unfolding exec
  set_online now room_id username w =
      exec now
        (s_add (presence_set_key room_id) username
          ∷ set (presence_user_key room_id username) "1" presence_ttl
          ∷ [])
        w

  unfoldable pub set_offline : ℕ → String → String → World → Bool × World
  unfolding exec
  set_offline now room_id username w =
      exec now
        (s_rem (presence_set_key room_id) (username ∷ [])
          ∷ del (presence_user_key room_id username)
          ∷ [])
        w

  unfoldable pub set_typing : ℕ → String → String → World → Bool × World
  unfolding exec
  set_typing now room_id username w =
      exec now
        (s_add (typing_set_key room_id) username
          ∷ set (typing_user_key room_id username) "1" typing_ttl
          ∷ [])
        w

  unfoldable pub clear_typing : ℕ → String → String → World → Bool × World
  unfolding exec
  clear_typing now room_id username w =
      exec now
        (s_rem (typing_set_key room_id) (username ∷ [])
          ∷ del (typing_user_key room_id username)
          ∷ [])
        w

  unfoldable pub refresh_online : ℕ → String → String → World → Bool × World
  unfolding exec
  refresh_online now room_id username w =
      exec now (expire (presence_user_key room_id username) presence_ttl ∷ []) w

  -- Of the members of a set, those whose keys live, and those to remove.
  unfoldable pub check_members :
      (String → String) → ℕ → List String → World → Option (List String × List String)
  check_members user_key now [] w = some ([], [])
  check_members user_key now (u ∷ us) w =
      elim (redis.all_exist now (map user_key (u ∷ us)) w.state) [
        | none ↦ none
        | some live ↦ some (split_members (u ∷ us) live)
      ]

  -- client.SRem, whose error is ignored.
  unfoldable pub remove_stale : ℕ → String → List String → World → World
  unfolding exec
  remove_stale now set_key [] w = w
  remove_stale now set_key (u ∷ us) w = (exec now (s_rem set_key (u ∷ us) ∷ []) w).1

  -- What GetOnlineUsers and GetTypingUsers do with the keys of a room.
  unfoldable pub get_users : String → (String → String) → ℕ → World → Option (List String) × World
  get_users set_key user_key now w =
      if w.has_client
      then elim (redis.s_members set_key w.state) [
        | none ↦ (none, w)
        | some members ↦ elim (check_members user_key now members w) [
          | none ↦ (none, w)
          | some (active, stale) ↦ (some active, remove_stale now set_key stale w)
        ]
      ]
      else (none, w)

  unfoldable pub get_online_users : ℕ → String → World → Option (List String) × World
  unfolding get_users
  get_online_users now room_id w =
      get_users (presence_set_key room_id) (presence_user_key room_id) now w

  unfoldable pub get_typing_users : ℕ → String → World → Option (List String) × World
  unfolding get_users
  get_typing_users now room_id w =
      get_users (typing_set_key room_id) (typing_user_key room_id) now w
