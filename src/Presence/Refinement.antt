-- ===== src/Presence/Refinement.antt =====
-- pkg/redis/presence.go: an answered call follows the deadlines.
use woongkie_talkie.Base.{
  ℕ, ◌⊎◌, String, Bool, true, false, not, List, [], ◌∷◌, ◌++◌, Option, some, map, ◌≡◌, ltb, keep,
  arith, Bool-cases, Option-cases, inl, inr, eq_iff, refl, sym, ap, subst, ◌∙◌,
}
use mathlib.Core.List.{append-nil}
use woongkie_talkie.Redis.{Command, s_rem, Store, has, is_live, execute, execute_all, Redis}
use woongkie_talkie.Presence.{World, exec, get_users, split_members, check_members, remove_stale}
use woongkie_talkie.Presence.Keys.{Kind, same_kind_iff, set_key, set_key-eq, user_key, IsRoomId}
use woongkie_talkie.Presence.Deadlines.{Deadlines, Tracks, has-keep, has-s_rem}

split_members_lem :
    (f : String → Bool) (us : List String)
    → split_members us (map f us) ≡ (keep f us, keep (λ u. not (f u)) us)
unfolding split_members
split_members_lem f [] = refl
split_members_lem f (u ∷ us) = elim (Bool-cases (f u)) [
  | inl live ↦ rw live (rw (split_members_lem f us) refl)
  | inr dead ↦ rw dead (rw (split_members_lem f us) refl)
]

map_compose :
    (f : String → Bool) (g : String → String) (us : List String)
    → map f (map g us) ≡ map (λ u. f (g u)) us
map_compose f g [] = refl
map_compose f g (u ∷ us) = ap (◌∷◌ (f (g u))) (map_compose f g us)

-- The commands of a pipeline of one were executed, or not.
one_or_none :
    (done rest : List Command) (c : Command) → c ∷ [] ≡ done ++ rest → (done ≡ c ∷ []) ⊎ (done ≡ [])
one_or_none [] rest c e = inr refl
one_or_none (b ∷ []) rest c e = inl (cc e)
one_or_none (b ∷ a ∷ more) rest c e = absurd (ground (arith, e))

removed :
    (now : ℕ) (k : Kind) (r : String) (stale : List String) (d : Deadlines) (s : Store)
    → IsRoomId r
    → ((u : String) → has u stale ≡ true → ltb now (d k r u) ≡ false)
    → Tracks now d s
    → Tracks now d (execute now (s_rem (set_key k r) stale) s)
removed now k r stale d s l dead v = record {
  expires = v.expires;
  listed = λ k' r' u lt l'.
      has-s_rem (set_key k r) (set_key k' r') u stale s.sets
      ∙ ground (
        arith,
        set_key-eq k k' r r',
        same_kind_iff k k',
        eq_iff r r',
        v.listed k' r' u lt l',
        l',
        dead u,
      );
}

module _ (redis : Redis) where
  -- What a call leaves.
  pub record IsAfter (now : ℕ) (d : Deadlines) (w : World redis) : Type 0 where
    pub up : w.has_client ≡ true
    pub tracks : Tracks now d (redis.store w.state)

  abbrev pub the_store : World redis → Store
  the_store w = redis.store w.state

  pub exec_up :
      (now : ℕ) (cs : List Command) (w : World redis)
      → w.has_client ≡ true
      → exec redis now cs w ≡ (
        (redis.pipeline now cs w.state).0,
        record w { state = (redis.pipeline now cs w.state).1 },
      )
  unfolding exec
  exec_up now cs w up = ground (arith, up)

  pub exec_answered :
      (now : ℕ) (cs : List Command) (w : World redis)
      → w.has_client ≡ true
      → (exec redis now cs w).0 ≡ true
      → ((exec redis now cs w).1.has_client ≡ true)
        × (the_store (exec redis now cs w).1 ≡ execute_all now cs (the_store w))
  exec_answered now cs w up e =
      let x = redis.pipeline_lem now cs w.state in
      let same = exec_up now cs w up in
      let rest = x.all (sym (ap (λ p. p.0) same) ∙ e) in
      let done : x.done ≡ cs = sym (x.both ∙ ap (◌++◌ x.done) rest ∙ append-nil x.done) in
      (
        ap (λ p. p.1.has_client) same ∙ up,
        ap (λ p. the_store p.1) same ∙ x.effect ∙ ap (λ c. execute_all now c (the_store w)) done,
      )

  remove_stale_up :
      (now : ℕ) (k : Kind) (r : String) (stale : List String) (w : World redis)
      → w.has_client ≡ true
      → (remove_stale redis now (set_key k r) stale w).has_client ≡ true
  unfolding remove_stale exec
  remove_stale_up now k r [] w up = up
  remove_stale_up now k r (u ∷ us) w up = ground (arith, up)

  -- A removal of members whose keys are gone, executed or not, is not noticed.
  remove_stale-Tracks :
      (now : ℕ) (k : Kind) (r : String) (stale : List String) (d : Deadlines) (w : World redis)
      → IsRoomId r
      → w.has_client ≡ true
      → ((u : String) → has u stale ≡ true → ltb now (d k r u) ≡ false)
      → Tracks now d (the_store w)
      → Tracks now d (the_store (remove_stale redis now (set_key k r) stale w))
  unfolding remove_stale exec
  remove_stale-Tracks now k r [] d w l up dead v = v
  remove_stale-Tracks now k r (first ∷ more) d w l up dead v =
      let cs = s_rem (set_key k r) (first ∷ more) ∷ [] in
      let x = redis.pipeline_lem now cs w.state in
      let same : the_store (exec redis now cs w).1 ≡ execute_all now x.done (the_store w) =
        ap (λ p. the_store p.1) (exec_up now cs w up) ∙ x.effect in
      rw same (elim (one_or_none x.done x.rest (s_rem (set_key k r) (first ∷ more)) x.both) [
        | inr none_done ↦ rw none_done v
        | inl all_done ↦ rw all_done (removed now k r (first ∷ more) d (the_store w) l dead v)
      ])

  remove_stale-IsAfter :
      (now : ℕ) (k : Kind) (r : String) (stale : List String) (d : Deadlines) (w : World redis)
      → IsRoomId r
      → ((u : String) → has u stale ≡ true → ltb now (d k r u) ≡ false)
      → IsAfter now d w
      → IsAfter now d (remove_stale redis now (set_key k r) stale w)
  remove_stale-IsAfter now k r stale d w l dead v = record {
    up = remove_stale_up now k r stale w v.up;
    tracks = remove_stale-Tracks now k r stale d w l v.up dead v.tracks;
  }

  pub check_members_lem :
      (f : String → String) (now : ℕ) (us active stale : List String) (w : World redis)
      → check_members redis f now us w ≡ some (active, stale)
      → (active ≡ keep (λ u. is_live now (f u) (the_store w)) us)
        × (stale ≡ keep (λ u. not (is_live now (f u) (the_store w))) us)
  unfolding check_members
  check_members_lem f now [] active stale w e = ground (arith, e)
  check_members_lem f now (u ∷ us) active stale w e =
      let keys = map f (u ∷ us) in
      elim (Option-cases (redis.all_exist now keys w.state)) [
        | inl lost ↦ absurd (ground (arith, e, lost))
        | inr (live, found) ↦
            let answer = redis.all_exist_lem now keys w.state live found in
            let split =
              ap (split_members (u ∷ us))
                (answer ∙ map_compose (λ k. is_live now k (the_store w)) f (u ∷ us))
              ∙ split_members_lem (λ x. is_live now (f x) (the_store w)) (u ∷ us) in
            let both : some (split_members (u ∷ us) live) ≡ some (active, stale) =
              rw (found, check_members) at e in
            let pair : split_members (u ∷ us) live ≡ (active, stale) = cc both in
            (ap (λ p. p.0) (sym pair ∙ split), ap (λ p. p.1) (sym pair ∙ split))
      ]

  -- An answered query lists exactly who has a deadline to come.
  pub get_users_lem :
      (k : Kind) (now : ℕ) (r : String) (d : Deadlines) (us : List String) (w w' : World redis)
      → IsRoomId r
      → IsAfter now d w
      → get_users redis (set_key k r) (user_key k r) now w ≡ (some us, w')
      → ((u : String) → has u us ≡ ltb now (d k r u)) × IsAfter now d w'
  unfolding get_users
  get_users_lem k now r d us w w' l v e =
      elim (Option-cases (redis.s_members (set_key k r) w.state)) [
        | inl lost ↦ absurd (ground (arith, e, lost, v.up))
        | inr (members, found) ↦
            elim (Option-cases (check_members redis (user_key k r) now members w)) [
              | inl lost ↦ absurd (ground (arith, e, lost, found, v.up))
              | inr ((active, stale), split) ↦
                  let given : Option (List String) × World redis =
                    (some active, remove_stale redis now (set_key k r) stale w) in
                  let same : given ≡ (some us, w') = ground (arith, e, found, split, v.up) in
                  let (live, dead) =
                    check_members_lem (user_key k r) now members active stale w split in
                  let listed : (u : String) → has u us ≡ ltb now (d k r u) = λ u.
                    let names : us ≡ active = cc same in
                    let there = redis.s_members_lem (set_key k r) w.state members found u in
                    ap (has u) (names ∙ live)
                    ∙ has-keep (λ x. is_live now (user_key k r x) (the_store w)) u members
                    ∙ ground (arith, there, v.tracks.expires k r u l, v.tracks.listed k r u l) in
                  let gone : (u : String) → has u stale ≡ true → ltb now (d k r u) ≡ false = λ u h.
                    let kept =
                      has-keep (λ x. not (is_live now (user_key k r x) (the_store w))) u members in
                    ground (arith, sym (ap (has u) dead) ∙ h, kept, v.tracks.expires k r u l) in
                  (
                    listed,
                    subst (IsAfter now d) (ap (λ p. p.1) same)
                        (remove_stale-IsAfter now k r stale d w l gone v),
                  )
            ]
      ]
