-- ===== src/Redis.antt =====
-- What pkg/redis/presence.go relies on of the Redis client: sets of strings, and keys that expire, as
-- an interface. A time is in seconds; `expires` is the time at which a key goes, 0 for one that is
-- not there. The commands of a pipeline are executed in their order, all of them if there is no
-- error, else the first few.
use woongkie_talkie.Base.{
  ℕ, ◌+◌, String, Bool, true, not, List, [], ◌∷◌, ◌++◌, Option, some, if◌then◌else◌, ◌≡◌, ◌==◌, ltb,
  keep, any, map,
}

pub data Command : Type 0 where
  s_add : String → String → Command
  s_rem : String → List String → Command
  set : String → String → ℕ → Command
  del : String → Command
  expire : String → ℕ → Command

pub record Store : Type 0 where
  pub sets : String → List String
  pub expires : String → ℕ

abbrev pub has : String → List String → Bool
has member members = any (λ m. m == member) members

abbrev pub is_live : ℕ → String → Store → Bool
is_live now key s = ltb now (s.expires key)

abbrev pub put {ℓ} : {A : Type ℓ} → String → A → (String → A) → String → A
put key a f k = if key == k then a else f k

abbrev pub execute : ℕ → Command → Store → Store
execute now (s_add key member) s = record s {
  sets = put key (if has member (s.sets key) then s.sets key else member ∷ s.sets key) s.sets;
}
execute now (s_rem key members) s = record s {
  sets = put key (keep (λ m. not (has m members)) (s.sets key)) s.sets;
}
execute now (set key value ttl) s = record s { expires = put key (now + ttl) s.expires }
execute now (del key) s = record s { expires = put key 0 s.expires }
execute now (expire key ttl) s = record s {
  expires = put key (if is_live now key s then now + ttl else 0) s.expires;
}

abbrev pub execute_all : ℕ → List Command → Store → Store
execute_all now [] s = s
execute_all now (c ∷ cs) s = execute_all now cs (execute now c s)

-- A pipeline executed `done` of its commands, all of them if there was no error.
pub record Executed (now : ℕ) (commands : List Command) (before : Store) (answered : Bool)
    (after : Store) : Type 0 where
  pub done : List Command
  pub rest : List Command
  pub both : commands ≡ done ++ rest
  pub all : answered ≡ true → rest ≡ []
  pub effect : after ≡ execute_all now done before

pub record Redis : Type 1 where
  pub State : Type 0
  pub store : State → Store
  -- Is there no error?
  pub pipeline : ℕ → List Command → State → Bool × State
  pub s_members : String → State → Option (List String)
  -- A pipeline of EXISTS.
  pub all_exist : ℕ → List String → State → Option (List Bool)
  pub pipeline_lem :
      (now : ℕ) (commands : List Command) (s : State)
      → Executed now commands
          (store s)
          (pipeline now commands s).0
          (store (pipeline now commands s).1)
  pub s_members_lem :
      (key : String) (s : State) (members : List String)
      → s_members key s ≡ some members
      → (u : String) → has u members ≡ has u ((store s).sets key)
  pub all_exist_lem :
      (now : ℕ) (keys : List String) (s : State) (live : List Bool)
      → all_exist now keys s ≡ some live
      → live ≡ map (λ k. is_live now k (store s)) keys
