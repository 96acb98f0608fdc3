-- ===== src/Presence/Deadlines.antt =====
-- pkg/redis/presence.go: an abstract view of what is stored, one deadline for each kind, room and
-- user, and how the commands follow it.
use woongkie_talkie.Base.{
  ℕ, ◌+◌, ◌≤◌, ◌<◌, String, Bool, true, not, ◌&&◌, ◌||◌, List, [], ◌∷◌, if◌then◌else◌, ◌≡◌, ◌==◌,
  ltb, keep, arith, Bool-cases, inl, inr, eq_iff, eq_refl, refl, subst, ◌∙◌,
}
use woongkie_talkie.Redis.{s_add, s_rem, set, del, expire, Store, has, put, execute_all}
use woongkie_talkie.Presence.{presence_ttl, typing_ttl}
use woongkie_talkie.Presence.Keys.{
  Kind, presence, typing, same_kind, set_key, user_key, IsRoomId, set_key-eq, user_key-eq,
}

abbrev pub Deadlines : Type 0
Deadlines = Kind → String → String → ℕ

abbrev pub ttl : Kind → ℕ
ttl presence = presence_ttl
ttl typing = typing_ttl

abbrev pub set_deadline : Kind → String → String → ℕ → Deadlines → Deadlines
set_deadline k r u t d k' r' u' = if same_kind k k' && r == r' && u == u' then t else d k' r' u'

-- The keys expire at the deadlines, and whose deadline is to come is a member of the set.
pub record Tracks (now : ℕ) (d : Deadlines) (s : Store) : Type 0 where
  pub expires : (k : Kind) (r u : String) → IsRoomId r → s.expires (user_key k r u) ≡ d k r u
  pub listed :
      (k : Kind) (r u : String) → IsRoomId r → now < d k r u → has u (s.sets (set_key k r)) ≡ true

pub later-Tracks :
    (now later : ℕ) (d : Deadlines) (s : Store) → now ≤ later → Tracks now d s → Tracks later d s
later-Tracks now later d s le v = record {
  expires = v.expires;
  listed = λ k r u l lt. v.listed k r u l (omega (arith, le, lt));
}

pub has-keep :
    (p : String → Bool) (u : String) (us : List String) → has u (keep p us) ≡ (has u us && p u)
has-keep p u [] = ground arith
has-keep p u (x ∷ us) = ground (arith, has-keep p u us, eq_iff x u)

has_added :
    (u u' : String) (us : List String)
    → has u' (if has u us then us else u ∷ us) ≡ (u == u' || has u' us)
has_added u u' us = elim (Bool-cases (u == u')) [
  | inl same ↦
      let p : (u ≡ u') = (eq_iff u u').0 same in
      subst (λ x. has x (if has u us then us else u ∷ us) ≡ (u == x || has x us)) p
        (ground (arith, eq_refl u))
  | inr other ↦ ground (arith, other)
]

pub has-s_add :
    (key key' u u' : String) (f : String → List String)
    → has u' (put key (if has u (f key) then f key else u ∷ f key) f key')
      ≡ ((key == key' && u == u') || has u' (f key'))
has-s_add key key' u u' f = elim (Bool-cases (key == key')) [
  | inl same ↦ rw same (
      subst (λ x. has u' (if has u (f key) then f key else u ∷ f key) ≡ (u == u' || has u' (f x)))
        ((eq_iff key key').0 same) (has_added u u' (f key)))
  | inr other ↦ rw other refl
]

pub has-s_rem :
    (key key' u' : String) (us : List String) (f : String → List String)
    → has u' (put key (keep (λ m. not (has m us)) (f key)) f key')
      ≡ (has u' (f key') && not (key == key' && has u' us))
has-s_rem key key' u' us f = elim (Bool-cases (key == key')) [
  | inl same ↦ rw same (
      subst (λ x. has u' (keep (λ m. not (has m us)) (f key)) ≡ (has u' (f x) && not (has u' us)))
        ((eq_iff key key').0 same) (has-keep (λ m. not (has m us)) u' (f key)))
  | inr other ↦ rw other (ground arith)
]

pub mark-Tracks :
    (now : ℕ) (k : Kind) (r u : String) (d : Deadlines) (s : Store)
    → IsRoomId r
    → Tracks now d s
    → Tracks now
        (set_deadline k r u (now + ttl k) d)
        (execute_all now (s_add (set_key k r) u ∷ set (user_key k r u) "1" (ttl k) ∷ []) s)
mark-Tracks now k r u d s l v = record {
  expires = λ k' r' u' l'. ground (arith, user_key-eq k k' r r' u u' l l', v.expires k' r' u' l');
  listed = λ k' r' u' l' lt.
      has-s_add (set_key k r) (set_key k' r') u u' s.sets
      ∙ ground (arith, set_key-eq k k' r r', lt, v.listed k' r' u' l');
}

pub clear-Tracks :
    (now : ℕ) (k : Kind) (r u : String) (d : Deadlines) (s : Store)
    → IsRoomId r
    → Tracks now d s
    → Tracks now
        (set_deadline k r u 0 d)
        (execute_all now (s_rem (set_key k r) (u ∷ []) ∷ del (user_key k r u) ∷ []) s)
clear-Tracks now k r u d s l v = record {
  expires = λ k' r' u' l'. ground (arith, user_key-eq k k' r r' u u' l l', v.expires k' r' u' l');
  listed = λ k' r' u' l' lt.
      has-s_rem (set_key k r) (set_key k' r') u' (u ∷ []) s.sets
      ∙ ground (arith, set_key-eq k k' r r', lt, v.listed k' r' u' l');
}

pub expire-Tracks :
    (now : ℕ) (r u : String) (d : Deadlines) (s : Store)
    → IsRoomId r
    → Tracks now d s
    → Tracks now
        (set_deadline presence r u (if ltb now (d presence r u) then now + presence_ttl else 0) d)
        (execute_all now (expire (user_key presence r u) presence_ttl ∷ []) s)
expire-Tracks now r u d s l v = record {
  expires = λ k' r' u' l'. ground (
    arith,
    user_key-eq presence k' r r' u u' l l',
    v.expires k' r' u' l',
    v.expires presence r u l,
  );
  listed = λ k' r' u' l' lt. v.listed k' r' u' l' (ground (arith, lt, eq_iff r r', eq_iff u u'));
}
