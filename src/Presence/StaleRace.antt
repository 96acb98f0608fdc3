-- ===== src/Presence/StaleRace.antt =====
-- pkg/redis/presence.go: a query that finds a user's key expired and a user that comes back at the
-- same time.
use woongkie_talkie.Base.{
  ℕ, ◌+◌, ◌<◌, String, true, false, not, List, [], ◌∷◌, some, ◌≡◌, arith, Option-cases, Bool-cases,
  inl, inr, refl, ap, ◌∙◌, eq_refl,
}
use woongkie_talkie.Redis.{
  s_add, s_rem, set, expire, Store, has, is_live, execute_all, execute, Redis,
}
use woongkie_talkie.Presence.{
  World, exec, set_online, refresh_online, get_online_users, get_users, check_members, remove_stale,
  presence_ttl, presence_set_key, presence_user_key,
}
use woongkie_talkie.Presence.Deadlines.{has-keep, has-s_rem}
use woongkie_talkie.Presence.Refinement.{exec_answered, the_store, check_members_lem}

some_stale :
    (u : String) (stale : List String)
    → has u stale ≡ true
    → (x : String) × (xs : List String) × (stale ≡ x ∷ xs)
some_stale u [] e = absurd (cc e)
some_stale u (x ∷ xs) e = (x, xs, refl)

module _ (redis : Redis) where
  -- Who is not in the set is not listed.
  not_listed :
      (now : ℕ) (r u : String) (us : List String) (w : World redis)
      → has u ((the_store redis w).sets (presence_set_key r)) ≡ false
      → (get_online_users redis now r w).0 ≡ some us
      → has u us ≡ false
  unfolding get_online_users get_users
  not_listed now r u us w gone e = elim (Bool-cases w.has_client) [
    | inr down ↦ absurd (ground (arith, e, down))
    | inl up ↦ elim (Option-cases (redis.s_members (presence_set_key r) w.state)) [
      | inl lost ↦ absurd (ground (arith, e, lost, up))
      | inr (members, found) ↦
          elim (Option-cases (check_members redis (presence_user_key r) now members w)) [
            | inl lost ↦ absurd (ground (arith, e, lost, found, up))
            | inr ((active, stale), split) ↦
                let same : some active ≡ some us = ground (arith, e, found, split, up) in
                let names : us ≡ active = cc same in
                let there = redis.s_members_lem (presence_set_key r) w.state members found u in
                ap (has u) (
                  names
                  ∙ (check_members_lem redis (presence_user_key r) now members active stale w
                      split).0)
                ∙ has-keep (λ x. is_live now (presence_user_key r x) (the_store redis w)) u members
                ∙ ground (arith, there, gone)
          ]
    ]
  ]

  -- The user comes online, then the query removes the stale names, then the user's key is refreshed.
  abbrev pub rejoined : ℕ → String → String → World redis → World redis
  rejoined now r u w = (set_online redis now r u w).1

  abbrev pub cleaned : ℕ → String → String → List String → World redis → World redis
  cleaned now r u stale w = remove_stale redis now (presence_set_key r) stale (rejoined now r u w)

  abbrev pub refreshed : ℕ → ℕ → String → String → List String → World redis → World redis
  refreshed now later r u stale w = (refresh_online redis later r u (cleaned now r u stale w)).1

  hidden :
      (now later end : ℕ) (r u : String) (stale : List String) (s : Store)
      → has u stale ≡ true
      → later < now + presence_ttl
      → end < later + presence_ttl
      → let s1 =
          execute_all now
            (s_add (presence_set_key r) u ∷ set (presence_user_key r u) "1" presence_ttl ∷ [])
            s in
        let s2 = execute_all now (s_rem (presence_set_key r) stale ∷ []) s1 in
        let s3 = execute_all later (expire (presence_user_key r u) presence_ttl ∷ []) s2 in
        (is_live end (presence_user_key r u) s3 ≡ true)
        × (has u (s3.sets (presence_set_key r)) ≡ false)
  hidden now later end r u stale s h soon last =
      let s1 =
        execute_all now
          (s_add (presence_set_key r) u ∷ set (presence_user_key r u) "1" presence_ttl ∷ []) s in
      (
        ground (arith, eq_refl (presence_user_key r u), soon, last),
        has-s_rem (presence_set_key r) (presence_set_key r) u stale s1.sets
            ∙ ground (arith, eq_refl (presence_set_key r), h),
      )

  -- A query finds that a user's key has expired. Before the query removes the user from the room's
  -- set, the user comes online again. All calls are answered. The removal takes the user out of the
  -- set, and a refresh does not put the user back: the user's key lives, and no later query lists
  -- the user.
  pub stale_removal_hides :
      (now later end : ℕ) (r u : String) (members active stale : List String) (w : World redis)
      → w.has_client ≡ true
      → has u members ≡ true
      → is_live now (presence_user_key r u) (the_store redis w) ≡ false
      → check_members redis (presence_user_key r) now members w ≡ some (active, stale)
      → (set_online redis now r u w).0 ≡ true
      → (exec redis now (s_rem (presence_set_key r) stale ∷ []) (rejoined now r u w)).0 ≡ true
      → later < now + presence_ttl
      → (refresh_online redis later r u (cleaned now r u stale w)).0 ≡ true
      → end < later + presence_ttl
      → let after = refreshed now later r u stale w in
        (is_live end (presence_user_key r u) (the_store redis after) ≡ true)
        × ((us : List String) → (get_online_users redis end r after).0 ≡ some us → has u us ≡ false)
  unfolding set_online refresh_online remove_stale
  stale_removal_hides now later end r u members active stale w up member dead split on out soon back
        last =
      let was = check_members_lem redis (presence_user_key r) now members active stale w split in
      let is_stale : has u stale ≡ true =
        ap (has u) was.1
        ∙ has-keep (λ x. not (is_live now (presence_user_key r x) (the_store redis w))) u members
        ∙ ground (arith, member, dead) in
      let w1 = rejoined now r u w in
      let (x, xs, cons) = some_stale u stale is_stale in
      let cleans : cleaned now r u stale w
          ≡ (exec redis now (s_rem (presence_set_key r) stale ∷ []) w1).1 =
        rw cons refl in
      let w2 = cleaned now r u stale w in
      let (up1, s1) = exec_answered redis now _ w up on in
      let (up2, s2) = exec_answered redis now _ w1 up1 out in
      let (up3, s3) = exec_answered redis later _ w2 (ap (λ v. v.has_client) cleans ∙ up2) back in
      let first =
        execute_all now
          (s_add (presence_set_key r) u ∷ set (presence_user_key r u) "1" presence_ttl ∷ [])
          (the_store redis w) in
      let all : the_store redis (refreshed now later r u stale w)
          ≡ execute_all later (expire (presence_user_key r u) presence_ttl ∷ [])
              (execute_all now (s_rem (presence_set_key r) stale ∷ []) first) =
        s3
        ∙ ap (λ v. execute later (expire (presence_user_key r u) presence_ttl) (the_store redis v))
            cleans
        ∙ ap (execute later (expire (presence_user_key r u) presence_ttl)) s2
        ∙ ap
            (λ v.
              execute later (expire (presence_user_key r u) presence_ttl)
                (execute now (s_rem (presence_set_key r) stale) v))
            s1 in
      let (live, gone) = hidden now later end r u stale (the_store redis w) is_stale soon last in
      (rw all live, λ us e. not_listed end r u us (refreshed now later r u stale w) (rw all gone) e)
