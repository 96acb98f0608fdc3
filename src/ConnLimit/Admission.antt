-- ===== src/ConnLimit/Admission.antt =====
-- server/middleware/ws_conn_limit.go: the limiter with the connections that it let in, and what stays
-- true of them when an address is listed, a connection comes in, and an address is dropped.
use woongkie_talkie.Base.{
  ℕ, ◌+◌, ◌≤◌, ◌<◌, ◌≡◌, ◌≢◌, inl, inr, refl, sym, subst, ◌∙◌, String, false, List, [], ◌∷◌, none,
  some, if◌then◌else◌, eqb_iff, ◌==◌, Assoc, lookup, insert, remove, lookup-insert, lookup-remove,
  update, All, arith, Bool-cases, eq_iff, eq_comm-false,
}
use woongkie_talkie.ConnLimit.{IpEntry, WsConnLimiter, touch, enter, is_full}

-- How many open connections an address has.
abbrev pub connections : String → List (String × ℕ) → ℕ
connections ip [] = 0
connections ip ((jp, e) ∷ open_) = (if jp == ip then 1 else 0) + connections ip open_

-- The limiter, with the address and the entry of every open connection.
pub record Server : Type 0 where
  pub limiter : WsConnLimiter
  pub open_ : List (String × ℕ)

pub record Inv (s : Server) : Type 0 where
  pub listed : All (λ c. lookup c.0 s.limiter.counts ≡ some c.1) s.open_
  pub counted :
      (ip : String) (e : ℕ)
      → lookup ip s.limiter.counts ≡ some e
      → ((s.limiter.entry e).count ≡ connections ip s.open_)
        × (connections ip s.open_ ≤ s.limiter.max_conn)
  pub fresh : (ip : String) (e : ℕ) → lookup ip s.limiter.counts ≡ some e → e < s.limiter.next
  pub apart :
      (ip jp : String) (e : ℕ)
      → lookup ip s.limiter.counts ≡ some e
      → lookup jp s.limiter.counts ≡ some e
      → ip ≡ jp

pub no_connections :
    (ip : String) (counts : Assoc ℕ) (open_ : List (String × ℕ))
    → lookup ip counts ≡ none
    → All (λ c. lookup c.0 counts ≡ some c.1) open_
    → connections ip open_ ≡ 0
no_connections ip counts [] e h = refl
no_connections ip counts ((jp, f) ∷ open_) e (h, hs) = elim (Bool-cases (jp == ip)) [
  | inl same ↦
      let here : lookup ip counts ≡ some f =
        subst (λ x. lookup x counts ≡ some f) ((eq_iff jp ip).0 same) h in
      cc (here, e)
  | inr other ↦ ground (arith, other, no_connections ip counts open_ e hs)
]

-- A change of the entries that keeps the counts.
same_counts :
    (s : Server) (entry : ℕ → IpEntry)
    → ((e : ℕ) → (entry e).count ≡ (s.limiter.entry e).count)
    → Inv s
    → Inv (record s { limiter = record s.limiter { entry = entry } })
same_counts s entry h v = record {
  listed = v.listed;
  counted = λ ip e there. (h e ∙ (v.counted ip e there).0, (v.counted ip e there).1);
  fresh = v.fresh;
  apart = v.apart;
}

pub touch-Inv :
    (e now : ℕ) (s : Server) → Inv s → Inv (record s { limiter = touch e now s.limiter })
unfolding touch
touch-Inv e now s v = same_counts s _ (λ f. ground (arith, eqb_iff e f)) v

listed-insert :
    (ip : String) (n : ℕ) (counts : Assoc ℕ) (open_ : List (String × ℕ))
    → lookup ip counts ≡ none
    → All (λ c. lookup c.0 counts ≡ some c.1) open_
    → All (λ c. lookup c.0 (insert ip n counts) ≡ some c.1) open_
listed-insert ip n counts [] e h = tt
listed-insert ip n counts ((jp, f) ∷ open_) e (h, hs) = elim (Bool-cases (ip == jp)) [
  | inl same ↦
      let here : lookup ip counts ≡ some f =
        subst (λ x. lookup x counts ≡ some f) (sym ((eq_iff ip jp).0 same)) h in
      cc (here, e)
  | inr other ↦ (lookup-insert ip jp n counts ∙ rw other h, listed-insert ip n counts open_ e hs)
]

-- An address is listed with a new, empty entry.
pub insert-Inv :
    (ip : String) (now : ℕ) (s : Server)
    → lookup ip s.limiter.counts ≡ none
    → Inv s
    → Inv (record s {
      limiter = record s.limiter {
        counts = insert ip s.limiter.next s.limiter.counts;
        entry = update s.limiter.entry s.limiter.next (record { count = 0; last_seen = now });
        next = s.limiter.next + 1;
      };
    })
insert-Inv ip now s absent v =
    let l = s.limiter in
    let found = λ (jp : String). lookup-insert ip jp l.next l.counts in
    record {
      listed = listed-insert ip l.next l.counts s.open_ absent v.listed;
      counted = λ jp e there. elim (Bool-cases (ip == jp)) [
        | inl same ↦
            let gone : lookup jp l.counts ≡ none =
              subst (λ x. lookup x l.counts ≡ none) ((eq_iff ip jp).0 same) absent in
            ground (arith, found jp, there, same, no_connections jp l.counts s.open_ gone v.listed)
        | inr other ↦
            let before : lookup jp l.counts ≡ some e = ground (arith, found jp, there, other) in
            ground (arith, v.counted jp e before, v.fresh jp e before)
      ];
      fresh = λ jp e there. elim (Bool-cases (ip == jp)) [
        | inl same ↦ ground (arith, found jp, there, same)
        | inr other ↦
            let before : lookup jp l.counts ≡ some e = ground (arith, found jp, there, other) in
            omega (arith, v.fresh jp e before)
      ];
      apart = λ jp kp e a b. elim (Bool-cases (ip == jp)) [
        | inl same ↦ elim (Bool-cases (ip == kp)) [
          | inl same' ↦ sym ((eq_iff ip jp).0 same) ∙ (eq_iff ip kp).0 same'
          | inr other' ↦
              let before : lookup kp l.counts ≡ some e = ground (arith, found kp, b, other') in
              absurd (ground (arith, found jp, a, same, v.fresh kp e before))
        ]
        | inr other ↦
            let before : lookup jp l.counts ≡ some e = ground (arith, found jp, a, other) in
            elim (Bool-cases (ip == kp)) [
              | inl same' ↦ absurd (ground (arith, found kp, b, same', v.fresh jp e before))
              | inr other' ↦ v.apart jp kp e before (ground (arith, found kp, b, other'))
            ]
      ];
    }

-- A connection of a listed address that has space is let in.
pub enter-Inv :
    (ip : String) (e : ℕ) (s : Server)
    → lookup ip s.limiter.counts ≡ some e
    → is_full e s.limiter ≡ false
    → Inv s
    → Inv (record { limiter = enter e s.limiter; open_ = (ip, e) ∷ s.open_ })
unfolding enter is_full
enter-Inv ip e s here space v = record {
  listed = (here, v.listed);
  counted = λ jp f there. elim (Bool-cases (ip == jp)) [
    | inl same ↦
        let here' : lookup jp s.limiter.counts ≡ some e =
          subst (λ x. lookup x s.limiter.counts ≡ some e) ((eq_iff ip jp).0 same) here in
        ground (arith, same, space, there, here', v.counted jp e here')
    | inr other ↦
        let differ : e ≢ f = λ p.
          let back : lookup jp s.limiter.counts ≡ some e =
            subst (λ x. lookup jp s.limiter.counts ≡ some x) (sym p) there in
          cc (other, (eq_iff ip jp).1 (v.apart ip jp e here back)) in
        ground (arith, other, v.counted jp f there, eqb_iff e f, differ)
  ];
  fresh = v.fresh;
  apart = v.apart;
}

All-keys :
    (ip : String) (counts : Assoc ℕ) (open_ : List (String × ℕ))
    → connections ip open_ ≡ 0
    → All (λ c. lookup c.0 counts ≡ some c.1) open_
    → All (λ c. lookup c.0 (remove ip counts) ≡ some c.1) open_
All-keys ip counts [] e h = tt
All-keys ip counts ((jp, f) ∷ open_) e (h, hs) =
    let other : (jp == ip) ≡ false = ground (arith, e) in
    (
      lookup-remove ip jp counts ∙ rw (eq_comm-false jp ip other) h,
      All-keys ip counts open_ (ground (arith, e)) hs,
    )

still_listed :
    (ip jp : String) (e : ℕ) (counts : Assoc ℕ)
    → lookup jp (remove ip counts) ≡ some e
    → lookup jp counts ≡ some e
still_listed ip jp e counts there = ground (arith, there, lookup-remove ip jp counts)

-- An address without connections is no longer listed.
pub remove-Inv :
    (ip : String) (s : Server)
    → connections ip s.open_ ≡ 0
    → Inv s
    → Inv (record s { limiter = record s.limiter { counts = remove ip s.limiter.counts } })
remove-Inv ip s empty v =
    let l = s.limiter in
    let before = λ (jp : String) (e : ℕ) (there : lookup jp (remove ip l.counts) ≡ some e).
      still_listed ip jp e l.counts there in
    record {
      listed = All-keys ip l.counts s.open_ empty v.listed;
      counted = λ jp e there. v.counted jp e (before jp e there);
      fresh = λ jp e there. v.fresh jp e (before jp e there);
      apart = λ jp kp e a b. v.apart jp kp e (before jp e a) (before kp e b);
    }
