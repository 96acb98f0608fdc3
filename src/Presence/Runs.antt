-- ===== src/Presence/Runs.antt =====
-- pkg/redis/presence.go: who is reported online or typing, after any calls that were answered.
use woongkie_talkie.Base.{
  ℕ, ◌+◌, ◌≤◌, String, Bool, true, false, ◌&&◌, List, [], ◌∷◌, Option, none, some, if◌then◌else◌,
  ◌≡◌, ltb, arith, Option-cases, inl, inr, refl, sym, ap, subst,
}
use woongkie_talkie.Redis.{Command, has, execute_all, Redis}
use woongkie_talkie.Presence.{
  World, exec, set_online, set_offline, set_typing, clear_typing, refresh_online, get_online_users,
  get_typing_users, presence_ttl,
}
use woongkie_talkie.Presence.Keys.{Kind, presence, typing, IsRoomId}
use woongkie_talkie.Presence.Deadlines.{
  Deadlines, ttl, set_deadline, Tracks, later-Tracks, mark-Tracks, clear-Tracks, expire-Tracks,
}
use woongkie_talkie.Presence.Refinement.{IsAfter, exec_answered, get_users_lem, the_store}

-- A call for a room.
pub data Op : Type 0 where
  marks clears : Kind → String → String → Op
  refreshes : String → String → Op
  asks : Kind → String → Op

abbrev pub room_of : Op → String
room_of (marks k r u) = r
room_of (clears k r u) = r
room_of (refreshes r u) = r
room_of (asks k r) = r

-- What a call does to the deadlines.
abbrev pub set_by : ℕ → Op → Deadlines → Deadlines
set_by now (marks k r u) d = set_deadline k r u (now + ttl k) d
set_by now (clears k r u) d = set_deadline k r u 0 d
set_by now (refreshes r u) d =
    set_deadline presence r u (if ltb now (d presence r u) then now + presence_ttl else 0) d
set_by now (asks k r) d = d

-- Calls, each at its time.
abbrev pub deadlines : List (ℕ × Op) → Deadlines → Deadlines
deadlines [] d = d
deadlines ((now, op) ∷ calls) d = deadlines calls (set_by now op d)

-- The calls are for rooms, and come one after the other, up to an end.
abbrev pub InTime : ℕ → List (ℕ × Op) → ℕ → Type 0
InTime start [] end = start ≤ end
InTime start ((now, op) ∷ calls) end = (start ≤ now) × IsRoomId (room_of op) × InTime now calls end

module _ (redis : Redis) where
  abbrev pub ask : Kind → ℕ → String → World redis → Option (List String) × World redis
  ask presence = get_online_users redis
  ask typing = get_typing_users redis

  abbrev pub is_answer : Option (List String) → Bool
  is_answer none = false
  is_answer (some us) = true

  -- Was the call answered?
  abbrev pub perform : ℕ → Op → World redis → Bool × World redis
  perform now (marks presence r u) w = set_online redis now r u w
  perform now (marks typing r u) w = set_typing redis now r u w
  perform now (clears presence r u) w = set_offline redis now r u w
  perform now (clears typing r u) w = clear_typing redis now r u w
  perform now (refreshes r u) w = refresh_online redis now r u w
  perform now (asks k r) w = (is_answer (ask k now r w).0, (ask k now r w).1)

  -- Were all the calls answered?
  abbrev pub perform_all : List (ℕ × Op) → World redis → Bool × World redis
  perform_all [] w = (true, w)
  perform_all ((now, op) ∷ calls) w =
      let first = perform now op w in
      let rest = perform_all calls first.1 in (first.0 && rest.0, rest.1)

  exec-IsAfter :
      (now : ℕ) (cs : List Command) (d : Deadlines) (w : World redis)
      → w.has_client ≡ true
      → (exec redis now cs w).0 ≡ true
      → Tracks now d (execute_all now cs (the_store redis w))
      → IsAfter redis now d (exec redis now cs w).1
  exec-IsAfter now cs d w up e t =
      let (there, same) = exec_answered redis now cs w up e in
      record { up = there; tracks = subst (Tracks now d) (sym same) t }

  pub ask_lem :
      (k : Kind) (now : ℕ) (r : String) (d : Deadlines) (us : List String) (w : World redis)
      → IsRoomId r
      → IsAfter redis now d w
      → (ask k now r w).0 ≡ some us
      → ((u : String) → has u us ≡ ltb now (d k r u)) × IsAfter redis now d (ask k now r w).1
  unfolding get_online_users get_typing_users
  ask_lem presence now r d us w l v e =
      get_users_lem redis presence now r d us w (ask presence now r w).1 l v
        (ap (λ a. (a, (ask presence now r w).1)) e)
  ask_lem typing now r d us w l v e =
      get_users_lem redis typing now r d us w (ask typing now r w).1 l v
        (ap (λ a. (a, (ask typing now r w).1)) e)

  perform-IsAfter :
      (now : ℕ) (op : Op) (d : Deadlines) (w : World redis)
      → IsRoomId (room_of op)
      → IsAfter redis now d w
      → (perform now op w).0 ≡ true
      → IsAfter redis now (set_by now op d) (perform now op w).1
  unfolding set_online set_offline set_typing clear_typing refresh_online
  perform-IsAfter now (marks presence r u) d w l v e =
      exec-IsAfter now _ _ w v.up e (mark-Tracks now presence r u d (the_store redis w) l v.tracks)
  perform-IsAfter now (marks typing r u) d w l v e =
      exec-IsAfter now _ _ w v.up e (mark-Tracks now typing r u d (the_store redis w) l v.tracks)
  perform-IsAfter now (clears presence r u) d w l v e =
      exec-IsAfter now _ _ w v.up e (clear-Tracks now presence r u d (the_store redis w) l v.tracks)
  perform-IsAfter now (clears typing r u) d w l v e =
      exec-IsAfter now _ _ w v.up e (clear-Tracks now typing r u d (the_store redis w) l v.tracks)
  perform-IsAfter now (refreshes r u) d w l v e =
      exec-IsAfter now _ _ w v.up e (expire-Tracks now r u d (the_store redis w) l v.tracks)
  perform-IsAfter now (asks k r) d w l v e = elim (Option-cases (ask k now r w).0) [
    | inl lost ↦ absurd (ground (arith, e, lost))
    | inr (us, found) ↦ (ask_lem k now r d us w l v found).1
  ]

  later-IsAfter :
      (now later : ℕ) (d : Deadlines) (w : World redis)
      → now ≤ later
      → IsAfter redis now d w
      → IsAfter redis later d w
  later-IsAfter now later d w le v = record {
    up = v.up;
    tracks = later-Tracks now later d (the_store redis w) le v.tracks;
  }

  perform_all-IsAfter :
      (start end : ℕ) (calls : List (ℕ × Op)) (d : Deadlines) (w : World redis)
      → InTime start calls end
      → IsAfter redis start d w
      → (perform_all calls w).0 ≡ true
      → IsAfter redis end (deadlines calls d) (perform_all calls w).1
  perform_all-IsAfter start end [] d w le v e = later-IsAfter start end d w le v
  perform_all-IsAfter start end ((now, op) ∷ calls) d w (le, l, t) v e =
      perform_all-IsAfter now end calls (set_by now op d) (perform now op w).1 t
        (perform-IsAfter now op d w l (later-IsAfter start now d w le v) (ground (arith, e)))
        (ground (arith, e))

  -- If nothing is stored at first and every call is answered, a query at the end, for who is online
  -- or who is typing, lists exactly the users whose deadline is to come: it is five minutes, or five
  -- seconds, after the last call that set it, moved by a refresh that came before it had passed, and
  -- gone with a call that clears it. Calls for other rooms, and queries, change nothing.
  pub query_lists_deadlines :
      (start end : ℕ) (calls : List (ℕ × Op)) (w : World redis) (k : Kind) (r : String)
      (us : List String)
      → w.has_client ≡ true
      → the_store redis w ≡ record { sets = λ _. []; expires = λ _. 0 }
      → InTime start calls end
      → IsRoomId r
      → (perform_all calls w).0 ≡ true
      → (ask k end r (perform_all calls w).1).0 ≡ some us
      → (u : String) → has u us ≡ ltb end (deadlines calls (λ _ _ _. 0) k r u)
  query_lists_deadlines start end calls w k r us up empty t l e answer =
      let fresh : Tracks start (λ _ _ _. 0) (record { sets = λ _. []; expires = λ _. 0 }) = record {
        expires = λ k r u l. refl;
        listed = λ k r u l lt. absurd (omega (arith, lt));
      } in
      let v0 : IsAfter redis start (λ _ _ _. 0) w = record {
        up = up;
        tracks = subst (Tracks start (λ _ _ _. 0)) (sym empty) fresh;
      } in
      let v = perform_all-IsAfter start end calls (λ _ _ _. 0) w t v0 e in
      (ask_lem k end r (deadlines calls (λ _ _ _. 0)) us (perform_all calls w).1 l v answer).0
