-- ===== src/Presence/Keys.antt =====
-- pkg/redis/presence.go: the keys of different kinds, rooms and users differ.
use Prim.Native.String
use Prim.Native.String.{len, slice}
use woongkie_talkie.Base.{
  ◌+◌, String, Bool, true, false, ◌&&◌, ◌≡◌, ◌≢◌, ◌↔◌, refl, sym, ap, ◌∙◌, ◌==◌, eq_iff, arith,
  Bool-cases, inl, inr,
}
use text.Mathlib.TextPositions.{slice-append_right, len-append, slice-append_left}
use text.Mathlib.TextLemmas.{append_assoc}
use woongkie_talkie.Presence.{presence_set_key, presence_user_key, typing_set_key, typing_user_key}

append_cancel : (s t u : String) → String.◌++◌ s t ≡ String.◌++◌ s u → t ≡ u
append_cancel s t u e =
    let same : len t ≡ len u = omega (arith, len-append s t, len-append s u, ap len e) in
    sym (slice-append_right s t)
    ∙ ap (λ v. slice v (len s) (len s + len t)) e
    ∙ ap (λ k. slice (String.◌++◌ s u) (len s) (len s + k)) same
    ∙ slice-append_right s u

-- The first character of a text.
first : (p s t : String) → slice (String.◌++◌ (String.◌++◌ p s) t) 0 (len p) ≡ p
first p s t =
    ap (λ v. slice v 0 (len p)) (append_assoc p s t) ∙ slice-append_left p (String.◌++◌ s t)

p_is_not-t : ("p" == "t") ≢ true
p_is_not-t e = cc e

p_not-t : (s t u v : String) → String.◌++◌ (String.◌++◌ "p" s) t ≢ String.◌++◌ (String.◌++◌ "t" u) v
p_not-t s t u v e =
    let letters : "p" ≡ "t" = sym (first "p" s t) ∙ ap (λ w. slice w 0 1) e ∙ first "t" u v in
    p_is_not-t ((eq_iff "p" "t").1 letters)

-- primitive.ObjectID.Hex gives 24 digits.
abbrev pub IsRoomId : String → Type 0
IsRoomId room_id = len room_id ≡ 24

-- What is stored for a room: who is online, and who is typing.
pub data Kind : Type 0 where
  presence typing : Kind

abbrev pub same_kind : Kind → Kind → Bool
same_kind presence presence = true
same_kind typing typing = true
same_kind _ _ = false

pub same_kind_iff : (k k' : Kind) → (same_kind k k' ≡ true) ↔ (k ≡ k')
same_kind_iff presence presence = (λ _. refl, λ _. refl)
same_kind_iff presence typing = (λ e. cc e, λ e. cc e)
same_kind_iff typing presence = (λ e. cc e, λ e. cc e)
same_kind_iff typing typing = (λ _. refl, λ _. refl)

abbrev pub set_key : Kind → String → String
set_key presence = presence_set_key
set_key typing = typing_set_key

abbrev pub user_key : Kind → String → String → String
user_key presence = presence_user_key
user_key typing = typing_user_key

-- A test agrees with one that its equation implies and that implies it.
by_equation : (s t : String) (b : Bool) → (s ≡ t → b ≡ true) → (b ≡ true → s ≡ t) → (s == t) ≡ b
by_equation s t b f g = elim (Bool-cases (s == t)) [
  | inl same ↦ same ∙ sym (f ((eq_iff s t).0 same))
  | inr differ ↦ elim (Bool-cases b) [
    | inl holds ↦ absurd (cc (differ, (eq_iff s t).1 (g holds)))
    | inr fails ↦ differ ∙ sym fails
  ]
]

room_and_user :
    (r r' u u' : String)
    → IsRoomId r
    → IsRoomId r'
    → String.◌++◌ r (String.◌++◌ ":" u) ≡ String.◌++◌ r' (String.◌++◌ ":" u')
    → (r ≡ r') × (u ≡ u')
room_and_user r r' u u' l l' e =
    let rooms : r ≡ r' =
      sym (slice-append_left r (String.◌++◌ ":" u))
      ∙ ap (slice (String.◌++◌ r (String.◌++◌ ":" u)) 0) (l ∙ sym l')
      ∙ ap (λ w. slice w 0 (len r')) e
      ∙ slice-append_left r' (String.◌++◌ ":" u') in
    let rest : String.◌++◌ ":" u ≡ String.◌++◌ ":" u' =
      append_cancel r (String.◌++◌ ":" u) (String.◌++◌ ":" u')
        (e ∙ ap (λ x. String.◌++◌ x (String.◌++◌ ":" u')) (sym rooms)) in
    (rooms, append_cancel ":" u u' rest)

pub set_key-eq :
    (k k' : Kind) (r r' : String) → (set_key k r == set_key k' r') ≡ (same_kind k k' && r == r')
set_key-eq presence presence r r' =
    by_equation (presence_set_key r) (presence_set_key r') (r == r')
      (λ e. (eq_iff r r').1 (append_cancel "presence:room:" r r' e))
      (λ e. ap presence_set_key ((eq_iff r r').0 e))
set_key-eq typing typing r r' =
    by_equation (typing_set_key r) (typing_set_key r') (r == r')
      (λ e. (eq_iff r r').1 (append_cancel "typing:room:" r r' e))
      (λ e. ap typing_set_key ((eq_iff r r').0 e))
set_key-eq presence typing r r' =
    by_equation (presence_set_key r) (typing_set_key r') false
      (λ e. absurd (p_not-t "resence:room:" r "yping:room:" r' e)) (λ e. cc e)
set_key-eq typing presence r r' =
    by_equation (typing_set_key r) (presence_set_key r') false
      (λ e. absurd (p_not-t "resence:room:" r' "yping:room:" r (sym e))) (λ e. cc e)

pub user_key-eq :
    (k k' : Kind) (r r' u u' : String)
    → IsRoomId r
    → IsRoomId r'
    → (user_key k r u == user_key k' r' u') ≡ (same_kind k k' && r == r' && u == u')
user_key-eq presence presence r r' u u' l l' =
    by_equation (presence_user_key r u) (presence_user_key r' u') (r == r' && u == u')
      (λ e.
        let p = room_and_user r r' u u' l l' (
          append_cancel "presence:user:" (String.◌++◌ r (String.◌++◌ ":" u))
            (String.◌++◌ r' (String.◌++◌ ":" u')) e) in
        ground (arith, (eq_iff r r').1 p.0, (eq_iff u u').1 p.1))
      (λ e.
        let p : ((r == r') ≡ true) × ((u == u') ≡ true) = ground (arith, e) in
        ap (λ x. presence_user_key x u) ((eq_iff r r').0 p.0)
        ∙ ap (presence_user_key r') ((eq_iff u u').0 p.1))
user_key-eq typing typing r r' u u' l l' =
    by_equation (typing_user_key r u) (typing_user_key r' u') (r == r' && u == u')
      (λ e.
        let p = room_and_user r r' u u' l l' (
          append_cancel "typing:user:" (String.◌++◌ r (String.◌++◌ ":" u))
            (String.◌++◌ r' (String.◌++◌ ":" u')) e) in
        ground (arith, (eq_iff r r').1 p.0, (eq_iff u u').1 p.1))
      (λ e.
        let p : ((r == r') ≡ true) × ((u == u') ≡ true) = ground (arith, e) in
        ap (λ x. typing_user_key x u) ((eq_iff r r').0 p.0)
        ∙ ap (typing_user_key r') ((eq_iff u u').0 p.1))
user_key-eq presence typing r r' u u' l l' =
    by_equation (presence_user_key r u) (typing_user_key r' u') false
      (λ e. absurd (
        p_not-t "resence:user:" (String.◌++◌ r (String.◌++◌ ":" u)) "yping:user:"
          (String.◌++◌ r' (String.◌++◌ ":" u')) e))
      (λ e. cc e)
user_key-eq typing presence r r' u u' l l' =
    by_equation (typing_user_key r u) (presence_user_key r' u') false
      (λ e. absurd (
        p_not-t "resence:user:" (String.◌++◌ r' (String.◌++◌ ":" u')) "yping:user:"
          (String.◌++◌ r (String.◌++◌ ":" u)) (sym e)))
      (λ e. cc e)
