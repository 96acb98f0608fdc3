-- ===== src/ConnLimit/Bounds.antt =====
-- server/middleware/ws_conn_limit.go: the bound on the connections of an address.
use woongkie_talkie.Base.{
  ℕ, ◌+◌, ◌≤◌, ◌≡◌, ◌≢◌, ◌⊎◌, inl, inr, refl, sym, subst, ◌∙◌, String, true, false, List, [], ◌∷◌,
  Option, none, some, if◌then◌else◌, eqb, eqb_iff, ltb, ◌==◌, ◌&&◌, Assoc, lookup, lookup-insert,
  All, arith, Bool-cases, Option-cases, eq_iff, eq_refl,
}
use woongkie_talkie.ConnLimit.{
  WsConnLimiter, entry_of, touch, enter, leave, is_full, admit, clean_one, clean_all, cleanup,
}
use woongkie_talkie.ConnLimit.Admission.{
  connections, Server, Inv, touch-Inv, insert-Inv, enter-Inv, remove-Inv, no_connections,
}

-- The connection of an admitted request is open.
unfoldable pub settled : String → Server → WsConnLimiter × Option ℕ → Server
settled ip s (l, none) = record s { limiter = l }
settled ip s (l, some e) = record { limiter = l; open_ = (ip, e) ∷ s.open_ }

-- A request: admitted with its connection open, or refused.
unfoldable pub arrive : String → ℕ → Server → Server
arrive ip now s = settled ip s (admit ip now s.limiter)

entry_of-Inv :
    (ip : String) (now : ℕ) (s : Server)
    → Inv s
    → Inv (record s { limiter = (entry_of ip now s.limiter).0 })
      × (lookup ip (entry_of ip now s.limiter).0.counts ≡ some (entry_of ip now s.limiter).1)
unfolding entry_of
entry_of-Inv ip now s v = elim (Option-cases (lookup ip s.limiter.counts)) [
  | inr (e, there) ↦ rw (entry_of, there) (v, there)
  | inl absent ↦
      rw (entry_of, absent)
        (
          insert-Inv ip now s absent v,
          ground (arith, lookup-insert ip ip s.limiter.next s.limiter.counts, eq_refl ip),
        )
]

admit_cases :
    (ip : String) (now : ℕ) (l : WsConnLimiter)
    → let (l1, e) = entry_of ip now l in
      let l2 = touch e now l1 in
      ((is_full e l2 ≡ true) × (admit ip now l ≡ (l2, none)))
      ⊎ ((is_full e l2 ≡ false) × (admit ip now l ≡ (enter e l2, some e)))
unfolding admit
admit_cases ip now l =
    let (l1, e) = entry_of ip now l in
    elim (Bool-cases (is_full e (touch e now l1))) [
      | inl over ↦ inl (over, ground (arith, over))
      | inr space ↦ inr (space, ground (arith, space))
    ]

arrive-Inv : (ip : String) (now : ℕ) (s : Server) → Inv s → Inv (arrive ip now s)
unfolding arrive touch settled
arrive-Inv ip now s v =
    let (v1, there) = entry_of-Inv ip now s v in
    let l1 = (entry_of ip now s.limiter).0 in
    let e = (entry_of ip now s.limiter).1 in
    let s2 : Server = record s { limiter = touch e now l1 } in
    let v2 : Inv s2 = touch-Inv e now (record s { limiter = l1 }) v1 in
    elim (admit_cases ip now s.limiter) [
      | inl (over, a) ↦ rw (arrive, a) v2
      | inr (space, a) ↦ rw (arrive, a) (enter-Inv ip e s2 there space v2)
    ]

-- The open connections without one of an address and an entry, if there is one.
unfoldable pub take_out : String → ℕ → List (String × ℕ) → Option (List (String × ℕ))
take_out ip e [] = none
take_out ip e ((jp, f) ∷ open_) =
    if jp == ip && eqb f e
    then some open_
    else elim (take_out ip e open_) [ none ↦ none | some rest ↦ some ((jp, f) ∷ rest) ]

-- The end of an open connection.
unfoldable pub depart : String → ℕ → ℕ → Server → Server
depart ip e now s = elim (take_out ip e s.open_) [
  | none ↦ s
  | some rest ↦ record { limiter = leave e now s.limiter; open_ = rest }
]

take_out_lem :
    (P : String × ℕ → Type 0) (ip : String) (e : ℕ) (open_ rest : List (String × ℕ))
    → take_out ip e open_ ≡ some rest
    → All P open_
    → P (ip, e)
      × All P rest
      × ((jp : String) → connections jp open_ ≡ (if ip == jp then 1 else 0) + connections jp rest)
unfolding take_out
take_out_lem P ip e [] rest t h = cc t
take_out_lem P ip e ((jp, f) ∷ open_) rest t (h, hs) = elim (Bool-cases (jp == ip && eqb f e)) [
  | inl hit ↦
      let ip_is : jp ≡ ip = (eq_iff jp ip).0 (ground (arith, hit)) in
      let e_is : f ≡ e = ground (arith, hit) in
      let rest_is : open_ ≡ rest = ground (arith, t, hit) in
      rw (sym rest_is, sym ip_is, sym e_is) (h, hs, λ kp. refl)
  | inr miss ↦ elim (Option-cases (take_out ip e open_)) [
    | inl nothing ↦ absurd (ground (arith, t, miss, nothing))
    | inr (more, found) ↦
        let rest_is : (jp, f) ∷ more ≡ rest = ground (arith, t, miss, found) in
        let (here, all, sums) = take_out_lem P ip e open_ more found hs in
        rw (sym rest_is) (here, (h, all), λ kp. omega (arith, sums kp))
  ]
]

depart-Inv : (ip : String) (e now : ℕ) (s : Server) → Inv s → Inv (depart ip e now s)
unfolding depart leave
depart-Inv ip e now s v = elim (Option-cases (take_out ip e s.open_)) [
  | inl nothing ↦ rw (depart, nothing) v
  | inr (rest, found) ↦
      let (here, all, sums) =
        take_out_lem (λ c. lookup c.0 s.limiter.counts ≡ some c.1) ip e s.open_ rest found
          v.listed in
      rw (depart, found)
        (record {
          listed = all;
          counted = λ jp f there. elim (Bool-cases (ip == jp)) [
            | inl same ↦
                let here' : lookup jp s.limiter.counts ≡ some e =
                  subst (λ x. lookup x s.limiter.counts ≡ some e) ((eq_iff ip jp).0 same) here in
                ground (arith, same, there, here', sums jp, v.counted jp e here')
            | inr other ↦
                let differ : e ≢ f = λ p.
                  let back : lookup jp s.limiter.counts ≡ some e =
                    subst (λ x. lookup jp s.limiter.counts ≡ some x) (sym p) there in
                  cc (other, (eq_iff ip jp).1 (v.apart ip jp e here back)) in
                ground (arith, other, sums jp, v.counted jp f there, eqb_iff e f, differ)
          ];
          fresh = v.fresh;
          apart = v.apart;
        })
]

clean_one-Inv :
    (cutoff : ℕ) (ip : String) (s : Server)
    → Inv s
    → Inv (record s { limiter = clean_one cutoff ip s.limiter })
unfolding clean_one
clean_one-Inv cutoff ip s v = elim (Option-cases (lookup ip s.limiter.counts)) [
  | inl absent ↦ rw (clean_one, absent) v
  | inr (e, there) ↦
      let l = s.limiter in
      elim (Bool-cases (eqb (l.entry e).count 0 && ltb (l.entry e).last_seen cutoff)) [
        | inr used ↦ rw (clean_one, there, used) v
        | inl idle ↦
            let empty : connections ip s.open_ ≡ 0 = ground (arith, idle, v.counted ip e there) in
            rw (clean_one, there, idle) (remove-Inv ip s empty v)
      ]
]

clean_all-Inv :
    (cutoff : ℕ) (entries : Assoc ℕ) (s : Server)
    → Inv s
    → Inv (record s { limiter = clean_all cutoff entries s.limiter })
unfolding clean_all
clean_all-Inv cutoff [] s v = v
clean_all-Inv cutoff ((ip, e) ∷ more) s v =
    clean_all-Inv cutoff more _ (clean_one-Inv cutoff ip s v)

clean_all_max :
    (cutoff : ℕ) (entries : Assoc ℕ) (l : WsConnLimiter)
    → (clean_all cutoff entries l).max_conn ≡ l.max_conn
unfolding clean_all clean_one
clean_all_max cutoff [] l = refl
clean_all_max cutoff ((ip, e) ∷ more) l =
    grind (arith, clean_all_max cutoff more (clean_one cutoff ip l))

-- What happens to the limiter, one after the other: a request for a connection, the end of one, and
-- the cleanup.
pub data Op : Type 0 where
  arrives : String → ℕ → Op
  departs : String → ℕ → ℕ → Op
  cleans : ℕ → Op

abbrev pub apply : Op → Server → Server
apply (arrives ip now) s = arrive ip now s
apply (departs ip e now) s = depart ip e now s
apply (cleans cutoff) s = record s { limiter = cleanup cutoff s.limiter }

unfoldable pub run : List Op → Server → Server
run [] s = s
run (op ∷ ops) s = run ops (apply op s)

apply-Inv : (op : Op) (s : Server) → Inv s → Inv (apply op s)
unfolding cleanup
apply-Inv (arrives ip now) s v = arrive-Inv ip now s v
apply-Inv (departs ip e now) s v = depart-Inv ip e now s v
apply-Inv (cleans cutoff) s v = clean_all-Inv cutoff s.limiter.counts s v

run-Inv : (ops : List Op) (s : Server) → Inv s → Inv (run ops s)
unfolding run
run-Inv [] s v = v
run-Inv (op ∷ ops) s v = run-Inv ops (apply op s) (apply-Inv op s v)

-- The limiter before the first request.
abbrev pub idle_server : ℕ → Server
idle_server max = record {
  limiter = record {
    counts = [];
    entry = λ _. record { count = 0; last_seen = 0 };
    next = 0;
    max_conn = max;
  };
  open_ = [];
}

apply_max : (op : Op) (s : Server) → (apply op s).limiter.max_conn ≡ s.limiter.max_conn
unfolding arrive settled admit entry_of touch enter depart leave cleanup
apply_max (arrives ip now) s = grind arith
apply_max (departs ip e now) s = grind arith
apply_max (cleans cutoff) s = clean_all_max cutoff s.limiter.counts s.limiter

run_max : (ops : List Op) (s : Server) → (run ops s).limiter.max_conn ≡ s.limiter.max_conn
unfolding run
run_max [] s = refl
run_max (op ∷ ops) s = run_max ops (apply op s) ∙ apply_max op s

idle_server-Inv : (max : ℕ) → Inv (idle_server max)
unfolding lookup
idle_server-Inv max = record {
  listed = tt;
  counted = λ ip e h. cc h;
  fresh = λ ip e h. cc h;
  apart = λ ip jp e h k. cc h;
}

bounded : (ip : String) (s : Server) → Inv s → connections ip s.open_ ≤ s.limiter.max_conn
bounded ip s v = elim (Option-cases (lookup ip s.limiter.counts)) [
  | inl absent ↦ omega (arith, no_connections ip s.limiter.counts s.open_ absent v.listed)
  | inr (e, there) ↦ (v.counted ip e there).1
]

-- While requests for connections do not overlap, an address never has more open connections than
-- the limit, after any sequence of requests, ends of connections and cleanups, at whatever times.
pub run-bounded :
    (max : ℕ) (ops : List Op) (ip : String) → connections ip (run ops (idle_server max)).open_ ≤ max
run-bounded max ops ip =
    let s = run ops (idle_server max) in
    omega (
      arith,
      bounded ip s (run-Inv ops (idle_server max) (idle_server-Inv max)),
      run_max ops (idle_server max),
    )
