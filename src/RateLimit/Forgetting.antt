-- ===== src/RateLimit/Forgetting.antt =====
-- server/middleware/ratelimit.go: that the limiters of idle addresses are forgotten is not noticed.
use woongkie_talkie.Base.{
  DistinctKeys, DistinctKeys-insert, ℕ, ◌+◌, ◌<◌, ◌≤◌, ◌≡◌, String, List, [], ◌∷◌, Option, none,
  some, if◌then◌else◌, ◌==◌, ltb, lookup, insert, lookup-insert, eq_iff, arith, Bool-cases,
  Option-cases, inl, inr, sym, ap, subst, ◌∙◌, refl,
}
use woongkie_talkie.RateLimit.{
  Bucket, Visitor, IpRateLimiter, get_limiter, allow, cleanup, limit_with, rate_limit, idle_limit,
}

-- A request from an address, or a tick of the cleanup.
pub data Event : Type 0 where
  requests : String → Event
  ticks : Event

-- Events, each at its time, one after the other.
abbrev pub InTime : ℕ → List (ℕ × Event) → Type 0
InTime start [] = Unit {0}
InTime start ((now, e) ∷ more) = (start ≤ now) × InTime now more

module _ (bucket : Bucket) where
  -- What the requests are answered.
  unfoldable pub answers : List (ℕ × Event) → IpRateLimiter bucket → List (Option (ℕ × String))
  answers [] visitors = []
  answers ((now, requests ip) ∷ more) visitors =
      let (answer, visitors') = rate_limit bucket ip now visitors in answer ∷ answers more visitors'
  answers ((now, ticks) ∷ more) visitors = answers more (cleanup bucket now visitors)

  -- The reference: every address has a bucket of its own from the start, for ever.
  unfoldable pub reference : List (ℕ × Event) → (String → bucket.State) → List (Option (ℕ × String))
  reference [] buckets = []
  reference ((now, requests ip) ∷ more) buckets =
      let (ok, b) = bucket.allow now (buckets ip) in
      (if ok then none else some (429, "1"))
      ∷ reference more (λ other. if ip == other then b else buckets other)
  reference ((now, ticks) ∷ more) buckets = reference more buckets

  -- What a tick leaves of an entry.
  abbrev fresh : ℕ → Option (Visitor bucket) → Option (Visitor bucket)
  fresh now none = none
  fresh now (some v) = if ltb (v.last_seen + idle_limit) now then none else some v

  lookup-cleanup :
      (ip : String) (now : ℕ) (m : IpRateLimiter bucket)
      → DistinctKeys m
      → lookup ip (cleanup bucket now m) ≡ fresh now (lookup ip m)
  unfolding lookup cleanup
  lookup-cleanup ip now [] d = refl
  lookup-cleanup ip now ((j, v) ∷ more) (only, d) =
      let rest = lookup-cleanup ip now more d in
      elim (Bool-cases (j == ip)) [
        | inl same ↦
            let alone : lookup ip more ≡ none =
              subst (λ k. lookup k more ≡ none) ((eq_iff j ip).0 same) only in
            let gone : lookup ip (cleanup bucket now more) ≡ none = rest ∙ ap (fresh now) alone in
            ground (arith, same, gone)
        | inr other ↦ ground (arith, other, rest)
      ]

  DistinctKeys-cleanup :
      (now : ℕ) (m : IpRateLimiter bucket) → DistinctKeys m → DistinctKeys (cleanup bucket now m)
  unfolding cleanup
  DistinctKeys-cleanup now [] d = tt
  DistinctKeys-cleanup now ((j, v) ∷ more) (only, d) =
      let rest = DistinctKeys-cleanup now more d in
      elim (Bool-cases (ltb (v.last_seen + idle_limit) now)) [
        | inl old ↦ rw old rest
        | inr young ↦ rw young (lookup-cleanup j now more d ∙ ap (fresh now) only, rest)
      ]

  abbrev Agrees : ℕ → Option (Visitor bucket) → bucket.State → Type 0
  Agrees now none b = bucket.Alike now bucket.new b
  Agrees now (some v) b =
      bucket.Alike now v.limiter b
      × ((later : ℕ) → v.last_seen + idle_limit < later → bucket.Alike later v.limiter bucket.new)

  abbrev AllAgree : ℕ → IpRateLimiter bucket → (String → bucket.State) → Type 0
  AllAgree now visitors buckets = (ip : String) → Agrees now (lookup ip visitors) (buckets ip)

  later-Agrees :
      (now then_ : ℕ) (o : Option (Visitor bucket)) (b : bucket.State)
      → now ≤ then_
      → Agrees now o b
      → Agrees then_ o b
  later-Agrees now then_ none b le a = bucket.later now then_ bucket.new b le a
  later-Agrees now then_ (some v) b le (a, r) = (bucket.later now then_ v.limiter b le a, r)

  fresh-Agrees :
      (now : ℕ) (o : Option (Visitor bucket)) (b : bucket.State)
      → Agrees now o b
      → Agrees now (fresh now o) b
  fresh-Agrees now none b a = a
  fresh-Agrees now (some v) b (a, r) = elim (Bool-cases (ltb (v.last_seen + idle_limit) now)) [
    | inl old ↦ rw old (
        bucket.Alike-trans now bucket.new v.limiter b
          (bucket.Alike-sym now v.limiter bucket.new (r now (ground (arith, old)))) a)
    | inr young ↦ rw young (a, r)
  ]

  -- The limiter of a request is like the address's own bucket.
  limiter-Alike :
      (now : ℕ) (ip : String) (m : IpRateLimiter bucket) (b : bucket.State)
      → Agrees now (lookup ip m) b
      → bucket.Alike now (get_limiter bucket ip now m).limiter b
  unfolding get_limiter
  limiter-Alike now ip m b a = elim (Option-cases (lookup ip m)) [
    | inl unseen ↦ rw (get_limiter, unseen) (rw unseen at a)
    | inr (v, seen) ↦ rw (get_limiter, seen) (rw seen at a).0
  ]

  seen_now :
      (now : ℕ) (ip : String) (m : IpRateLimiter bucket)
      → (get_limiter bucket ip now m).last_seen ≡ now
  unfolding get_limiter
  seen_now now ip m = ground arith

  allow-AllAgree :
      (now : ℕ) (ip : String) (m : IpRateLimiter bucket) (buckets : String → bucket.State)
      → AllAgree now m buckets
      → ((allow bucket ip now m).0 ≡ (bucket.allow now (buckets ip)).0)
        × AllAgree now
            (allow bucket ip now m).1
            (λ other. if ip == other then (bucket.allow now (buckets ip)).1 else buckets other)
  unfolding allow
  allow-AllAgree now ip m buckets a =
      let v = get_limiter bucket ip now m in
      let alike = limiter-Alike now ip m (buckets ip) (a ip) in
      let v' : Visitor bucket = record v { limiter = (bucket.allow now v.limiter).1 } in
      (
        bucket.same_answer now v.limiter (buckets ip) alike,
        λ other. elim (Bool-cases (ip == other)) [
          | inl same ↦
              let there : lookup other (insert ip v' m) ≡ some v' =
                lookup-insert ip other v' m ∙ rw same refl in
              rw (there, same)
                (
                  bucket.same_after now v.limiter (buckets ip) alike,
                  λ later old.
                      bucket.filled now later v.limiter (omega (arith, old, seen_now now ip m)),
                )
          | inr differ ↦
              let there : lookup other (insert ip v' m) ≡ lookup other m =
                lookup-insert ip other v' m ∙ rw differ refl in
              rw (there, differ) (a other)
        ],
      )

  DistinctKeys-allow :
      (now : ℕ) (ip : String) (m : IpRateLimiter bucket)
      → DistinctKeys m
      → DistinctKeys (allow bucket ip now m).1
  unfolding allow
  DistinctKeys-allow now ip m d = DistinctKeys-insert ip _ m d

  agreeing_answers :
      (start : ℕ) (events : List (ℕ × Event)) (m : IpRateLimiter bucket)
      (buckets : String → bucket.State)
      → InTime start events
      → DistinctKeys m
      → AllAgree start m buckets
      → answers events m ≡ reference events buckets
  unfolding answers reference rate_limit limit_with
  agreeing_answers start [] m buckets t d a = refl
  agreeing_answers start ((now, requests ip) ∷ more) m buckets (le, t) d a =
      let a' : AllAgree now m buckets =
        λ k. later-Agrees start now (lookup k m) (buckets k) le (a k) in
      let (same, next) = allow-AllAgree now ip m buckets a' in
      let rest =
        agreeing_answers now more (allow bucket ip now m).1
          (λ other. if ip == other then (bucket.allow now (buckets ip)).1 else buckets other) t
          (DistinctKeys-allow now ip m d) next in
      rw (same, rest) refl
  agreeing_answers start ((now, ticks) ∷ more) m buckets (le, t) d a =
      agreeing_answers now more (cleanup bucket now m) buckets t (DistinctKeys-cleanup now m d) λ k.
        subst (λ o. Agrees now o (buckets k)) (sym (lookup-cleanup k now m d))
          (fresh-Agrees now (lookup k m) (buckets k)
            (later-Agrees start now (lookup k m) (buckets k) le (a k)))

  -- Whatever addresses send requests, at whatever times that do not go back, and whenever the cleanup
  -- ticks: the requests are answered as if every address had a bucket of its own from the start, for
  -- ever, if the buckets are full again a minute after they were last asked.
  pub forgetting_unnoticed :
      (start : ℕ) (events : List (ℕ × Event))
      → InTime start events
      → answers events [] ≡ reference events (λ _. bucket.new)
  unfolding lookup
  forgetting_unnoticed start events t =
      agreeing_answers start events [] (λ _. bucket.new) t tt (λ k. bucket.Alike-new start)
