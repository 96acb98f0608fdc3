-- ===== src/RateLimit.antt =====
-- server/middleware/ratelimit.go: a limiter for each address, which is forgotten when the address has
-- not been seen for ten minutes. Times are in seconds. The token bucket of golang.org/x/time/rate is
-- an interface; a request gets its limiter and asks it at one time.
pub mod Forgetting
pub mod Tests
use woongkie_talkie.Base.{
  ℕ, ◌+◌, ◌<◌, ◌≤◌, ◌≡◌, String, Bool, true, false, List, [], ◌∷◌, Option, none, some,
  if◌then◌else◌, ltb, Assoc, lookup, insert,
}

-- rate.Limiter. Two buckets are alike at a time if they hold the same number of tokens then; the
-- three rates of the program fill a bucket within a minute.
pub record Bucket : Type 1 where
  pub State : Type 0
  -- rate.NewLimiter
  pub new : State
  pub allow : ℕ → State → Bool × State
  pub Alike : ℕ → State → State → Type 0
  pub Alike-sym : (now : ℕ) (s t : State) → Alike now s t → Alike now t s
  pub Alike-trans : (now : ℕ) (s t u : State) → Alike now s t → Alike now t u → Alike now s u
  pub Alike-new : (now : ℕ) → Alike now new new
  pub later : (now then_ : ℕ) (s t : State) → now ≤ then_ → Alike now s t → Alike then_ s t
  pub same_answer : (now : ℕ) (s t : State) → Alike now s t → (allow now s).0 ≡ (allow now t).0
  pub same_after :
      (now : ℕ) (s t : State) → Alike now s t → Alike now (allow now s).1 (allow now t).1
  pub filled : (last now : ℕ) (s : State) → last + 60 ≤ now → Alike now (allow last s).1 new

abbrev pub idle_limit : ℕ
idle_limit = 600

module _ (bucket : Bucket) where
  pub record Visitor : Type 0 where
    pub limiter : bucket.State
    pub last_seen : ℕ

  -- What the limiter keeps; its rate and burst are those of the buckets.
  abbrev pub IpRateLimiter : Type 0
  IpRateLimiter = Assoc Visitor

  -- The visitor whose limiter is returned, seen now.
  unfoldable pub get_limiter : String → ℕ → IpRateLimiter → Visitor
  get_limiter ip now visitors = elim (lookup ip visitors) [
    | none ↦ record { limiter = bucket.new; last_seen = now }
    | some v ↦ record v { last_seen = now }
  ]

  -- getLimiter(ip).Allow(): the answer, and the limiter with its bucket changed.
  unfoldable pub allow : String → ℕ → IpRateLimiter → Bool × IpRateLimiter
  unfolding get_limiter
  allow ip now visitors =
      let v = get_limiter ip now visitors in
      let (ok, limiter') = bucket.allow now v.limiter in
      (ok, insert ip (record v { limiter = limiter' }) visitors)

  -- The loop of one tick of cleanupLoop.
  unfoldable pub cleanup : ℕ → IpRateLimiter → IpRateLimiter
  cleanup now [] = []
  cleanup now ((ip, v) ∷ more) =
      let rest = cleanup now more in
      if ltb (v.last_seen + idle_limit) now then rest else (ip, v) ∷ rest

  -- A middleware with its value of Retry-After: the request goes on, or it is refused with 429.
  unfoldable pub limit_with :
      String → String → ℕ → IpRateLimiter → Option (ℕ × String) × IpRateLimiter
  unfolding allow
  limit_with retry_after ip now visitors =
      let (ok, visitors') = allow ip now visitors in
      (if ok then none else some (429, retry_after), visitors')

  unfoldable pub rate_limit : String → ℕ → IpRateLimiter → Option (ℕ × String) × IpRateLimiter
  unfolding limit_with
  rate_limit = limit_with "1"

  unfoldable pub auth_rate_limit : String → ℕ → IpRateLimiter → Option (ℕ × String) × IpRateLimiter
  unfolding limit_with
  auth_rate_limit = limit_with "12"

  unfoldable pub room_create_rate_limit :
      String → ℕ → IpRateLimiter → Option (ℕ × String) × IpRateLimiter
  unfolding limit_with
  room_create_rate_limit = limit_with "12"
