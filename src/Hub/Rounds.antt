-- ===== src/Hub/Rounds.antt =====
-- The loop of Hub.Run (server/handler/hub.go) from a new hub on, over any sequence of ready cases,
-- with the write pumps of the clients (server/handler/ws_client.go) running between the rounds.
use mathlib.Core.List.{tail}
use woongkie_talkie.Base.{
  ℕ, ◌≡◌, ◌≢◌, refl, ◌∙◌, false, List, [], ◌∷◌, Option, some, none, elem, arith, inl, inr, eqb_iff,
  update, Distinct, All, All-of_elem, elem-All,
}
use woongkie_talkie.Hub.{Hub}
use woongkie_talkie.Hub.Broadcast.{IsValid}
use woongkie_talkie.Hub.Invariant.{IsReady, Kept, admitted, joined, run_round-Rounds}
use woongkie_talkie.Hub.Run.{
  Codec, Status, looping, returned, unlisted, Ready, stop, idle, registered, unregistered,
  broadcast, from_redis, run_round,
}

-- The write pump of a client takes the oldest message off its buffer, if there is one.
unfoldable pub write_pump : ℕ → Hub → Hub
write_pump i h = record h {
  client = update h.client i (record (h.client i) { send = tail (h.client i).send });
}

write_pump-IsValid : (i : ℕ) (h : Hub) → IsValid h → IsValid (write_pump i h)
unfolding write_pump
write_pump-IsValid i h v = record {
  distinct = v.distinct;
  open_ = All-of_elem _ h.clients λ j e.
      ground (arith, elem-All (λ k. (h.client k).closed ≡ false) h.clients j v.open_, eqb_iff i j);
}

-- What comes after a round: the rest, or nothing more.
unfoldable go_on : Status → Option Hub → Hub → Option Hub
go_on looping rest after = rest
go_on returned rest after = some after
go_on unlisted rest after = some after

go_on_ne : (s : Status) (rest : Option Hub) (h : Hub) → s ≢ looping → go_on s rest h ≡ some h
unfolding go_on
go_on_ne looping rest h ne = absurd (ne refl)
go_on_ne returned rest h ne = refl
go_on_ne unlisted rest h ne = refl

-- Clients that have not been registered yet: their channels are open.
abbrev pub Fresh : Hub → List ℕ → Type 0
Fresh h = All λ i. ((h.client i).closed ≡ false) × (elem i h.clients ≡ false)

Fresh-write_pump : (i : ℕ) (h : Hub) (is : List ℕ) → Fresh h is → Fresh (write_pump i h) is
unfolding write_pump
Fresh-write_pump i h is f = All-of_elem _ is λ j e.
    let (o, out) =
      elem-All (λ k. ((h.client k).closed ≡ false) × (elem k h.clients ≡ false)) is j f e in
    (ground (arith, eqb_iff i j), out)

Fresh-Kept : (h after : Hub) (is : List ℕ) → Kept h after → Fresh h is → Fresh after is
Fresh-Kept h after is k f = All-of_elem _ is λ j e.
    let (o, out) =
      elem-All (λ i. ((h.client i).closed ≡ false) × (elem i h.clients ≡ false)) is j f e in
    let (out', same) = k.outside j out in (rw same o, out')

Fresh-joined :
    (i : ℕ) (h : Hub) (is : List ℕ)
    → elem i is ≡ false
    → Fresh h is
    → Fresh (record h { clients = joined i h }) is
Fresh-joined i h is other f = All-of_elem _ is λ j e.
    let (o, out) =
      elem-All (λ k. ((h.client k).closed ≡ false) × (elem k h.clients ≡ false)) is j f e in
    (o, ground (arith, eqb_iff i j))

module _ (codec : Codec) where
  pub data Act : Type 0 where
    round : Ready codec → Act
    pump : ℕ → Act

  -- The hub after a sequence of acts; when Run has returned, the rounds that are left do not happen.
  unfoldable pub run : List Act → Hub → Option Hub
  unfolding go_on
  run [] h = some h
  run (pump i ∷ acts) h = run acts (write_pump i h)
  run (round r ∷ acts) h = elim (run_round codec r h) [
    | none ↦ none
    | some (after, s, out) ↦ go_on s (run acts after) after
  ]

  -- The clients that a sequence registers, in order.
  abbrev pub arrivals : List Act → List ℕ
  arrivals [] = []
  arrivals (round (registered i) ∷ acts) = i ∷ arrivals acts
  arrivals (_ ∷ acts) = arrivals acts

  Fresh-rest :
      (r : Ready codec) (acts : List Act) (h : Hub)
      → Distinct (arrivals (round r ∷ acts))
      → Fresh h (arrivals (round r ∷ acts))
      → h.stopped ≡ false
      → IsReady codec r h
        × Distinct (arrivals acts)
        × Fresh (admitted codec r h) (arrivals acts)
        × ((admitted codec r h).stopped ≡ false)
  Fresh-rest (registered i) acts h d f s = (f.0.0, d.1, Fresh-joined i h (arrivals acts) d.0 f.1, s)
  Fresh-rest idle acts h d f s = (s, d, f, s)
  Fresh-rest stop acts h d f s = (tt, d, f, s)
  Fresh-rest (unregistered i) acts h d f s = (tt, d, f, s)
  Fresh-rest (broadcast b msg) acts h d f s = (tt, d, f, s)
  Fresh-rest (from_redis packet) acts h d f s = (tt, d, f, s)

  -- From a valid hub whose stop channel is open, whatever sequence of cases becomes ready, with the
  -- write pumps running between the rounds, the loop never panics and ends in a valid hub, if no
  -- client is registered twice and each comes with an open channel.
  pub run-IsValid :
      (acts : List Act) (h : Hub)
      → IsValid h
      → h.stopped ≡ false
      → Distinct (arrivals acts)
      → Fresh h (arrivals acts)
      → (after : Hub) × (run acts h ≡ some after) × IsValid after
  unfolding run
  run-IsValid [] h v s d f = (h, refl, v)
  run-IsValid (pump i ∷ acts) h v s d f =
      run-IsValid acts (write_pump i h) (write_pump-IsValid i h v) (unfold write_pump in s) d
        (Fresh-write_pump i h (arrivals acts) f)
  run-IsValid (round r ∷ acts) h v s d f =
      let (ready, d', f', s') = Fresh-rest r acts h d f s in
      let (after, status, out, e, ends) = run_round-Rounds codec r h v ready in
      elim ends [
        | inl (loops, k) ↦
            let (last, e', v') =
              run-IsValid acts after k.valid (k.running ∙ s') d'
                (Fresh-Kept _ after (arrivals acts) k f') in
            (last, rw (e, run) (rw loops e'), v')
        | inr (quits, v') ↦ (after, rw (e, run) (go_on_ne status (run acts after) after quits), v')
      ]
