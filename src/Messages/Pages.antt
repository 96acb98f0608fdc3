-- ===== src/Messages/Pages.antt =====
-- pkg/mongoDB/chat.go: which messages the searches of a room return.
use woongkie_talkie.Base.{
  ℕ, ◌≤◌, ◌≡◌, ◌⊎◌, inl, inr, refl, String, ◌&&◌, List, [], ◌∷◌, ◌++◌, keep, length, length-append,
  All, All-append, ok, err, arith, ltb, eqb, if◌then◌else◌, ◌∙◌,
}
use mathlib.Core.List.{Perm, reverse, reverse_perm, reverse-cons}
use mathlib.Core.List.Perm
use Prim.Native.Nat.{min}
use woongkie_talkie.Chat.{Chat}
use woongkie_talkie.Mongo.{Ordered, ascending, descending, failure}
use woongkie_talkie.Rooms.{Database, World, database}
use woongkie_talkie.Messages.{in_room, find_chat_by_room, find_chat_by_room_before}

-- Every message of the first list was made no later than every one of the second.
abbrev pub NotAfter : List Chat → List Chat → Type 0
NotAfter xs ys = All (λ a. All (λ b. a.created_at ≤ b.created_at) ys) xs

All-right : (P : Chat → Type 0) (xs ys : List Chat) → All P (xs ++ ys) → All P ys
All-right P [] ys h = h
All-right P (a ∷ xs) ys h = All-right P xs ys h.1

All-left : (P : Chat → Type 0) (xs ys : List Chat) → All P (xs ++ ys) → All P xs
All-left P [] ys h = tt
All-left P (a ∷ xs) ys h = (h.0, All-left P xs ys h.1)

NotAfter-rest :
    (xs ys : List Chat) → Ordered (λ c. c.created_at) ascending (xs ++ ys) → NotAfter xs ys
NotAfter-rest [] ys o = tt
NotAfter-rest (a ∷ xs) ys (h, o) = (All-right _ xs ys h, NotAfter-rest xs ys o)

All-reverse : (P : Chat → Type 0) (xs : List Chat) → All P xs → All P (reverse xs)
All-reverse P [] h = tt
All-reverse P (x ∷ xs) (px, h) =
    rw (reverse-cons x xs) (All-append P (reverse xs) (x ∷ []) (All-reverse P xs h) (px, tt))

Ordered-append :
    (xs : List Chat) (x : Chat)
    → Ordered (λ c. c.created_at) ascending xs
    → All (λ a. a.created_at ≤ x.created_at) xs
    → Ordered (λ c. c.created_at) ascending (xs ++ x ∷ [])
Ordered-append [] x o h = (tt, tt)
Ordered-append (y ∷ xs) x (a, o) (yx, h) =
    (All-append _ xs (x ∷ []) a (yx, tt), Ordered-append xs x o h)

Ordered-left :
    (xs ys : List Chat)
    → Ordered (λ c. c.created_at) ascending (xs ++ ys)
    → Ordered (λ c. c.created_at) ascending xs
Ordered-left [] ys o = tt
Ordered-left (x ∷ xs) ys (h, o) = (All-left _ xs ys h, Ordered-left xs ys o)

Ordered-reverse :
    (xs rest : List Chat)
    → Ordered (λ c. c.created_at) descending (xs ++ rest)
    → Ordered (λ c. c.created_at) ascending (reverse xs)
Ordered-reverse [] rest o = tt
Ordered-reverse (x ∷ xs) rest (a, o) = rw (reverse-cons x xs) (
    Ordered-append (reverse xs) x (Ordered-reverse xs rest o)
      (All-reverse (λ c. c.created_at ≤ x.created_at) xs (All-left _ xs rest a)))

NotAfter-append :
    (xs ys : List Chat) (y : Chat)
    → NotAfter xs ys
    → All (λ a. a.created_at ≤ y.created_at) xs
    → NotAfter xs (ys ++ y ∷ [])
NotAfter-append [] ys y h a = tt
NotAfter-append (x ∷ xs) ys y (hx, h) (ax, a) =
    (All-append _ ys (y ∷ []) hx (ax, tt), NotAfter-append xs ys y h a)

NotAfter-nil : (xs : List Chat) → NotAfter xs []
NotAfter-nil [] = tt
NotAfter-nil (x ∷ xs) = (tt, NotAfter-nil xs)

NotAfter-reverse :
    (xs rest : List Chat)
    → Ordered (λ c. c.created_at) descending (xs ++ rest)
    → NotAfter rest (reverse xs)
NotAfter-reverse [] rest o = NotAfter-nil rest
NotAfter-reverse (x ∷ xs) rest (a, o) =
    rw (reverse-cons x xs)
      (NotAfter-append rest (reverse xs) x (NotAfter-reverse xs rest o) (All-right _ xs rest a))

length-reverse : (xs : List Chat) → length (reverse xs) ≡ length xs
length-reverse [] = refl
length-reverse (x ∷ xs) =
    rw (reverse-cons x xs) (omega (arith, length-append (reverse xs) (x ∷ []), length-reverse xs))

-- Unless the database fails, find_chat_by_room returns, in the order of their times, some of the
-- room's messages that are not deleted: all of them if there are at most 100, else exactly 100, and
-- none that it leaves out was made before one that it returns. So of a longer history it returns the
-- oldest 100.
pub find_chat_by_room_lem :
    (db : Database) (room : String) (w : World db)
    → (find_chat_by_room db room w ≡ err (database failure))
      ⊎ ((page left_out : List Chat) × (find_chat_by_room db room w ≡ ok page)
          × Perm (page ++ left_out) (keep (in_room room) (db.chats.docs w.chats))
          × (length page ≡ min 100 (length (keep (in_room room) (db.chats.docs w.chats))))
          × Ordered (λ c. c.created_at) ascending page
          × NotAfter page left_out)
unfolding find_chat_by_room
find_chat_by_room_lem db room w =
    elim (db.chats.find_sorted_lem (in_room room) (λ c. c.created_at) ascending 100 w.chats) [
      | inl failed ↦ inl (rw (find_chat_by_room, failed) refl)
      | inr (page, e, p) ↦ inr (
        page,
        p.rest,
        rw (find_chat_by_room, e) refl,
        p.same,
        p.size,
        Ordered-left page p.rest p.ordered,
        NotAfter-rest page p.rest p.ordered,
      )
    ]

-- Unless the database fails, find_chat_by_room_before returns, in the order of their times, some of
-- the room's messages that are not deleted and that were made before the given time: all of them if
-- there are at most `limit`, or if `limit` is 0, else exactly `limit`, and none that it leaves out
-- was made after one that it returns.
pub find_chat_by_room_before_lem :
    (db : Database) (room : String) (before limit : ℕ) (w : World db)
    → (find_chat_by_room_before db room before limit w ≡ err (database failure))
      ⊎ ((page left_out : List Chat) × (find_chat_by_room_before db room before limit w ≡ ok page)
          × Perm
              (page ++ left_out)
              (keep (λ c. in_room room c && ltb c.created_at before) (db.chats.docs w.chats))
          × (length page ≡ (
              let total =
                length
                  (keep (λ c. in_room room c && ltb c.created_at before) (db.chats.docs w.chats)) in
              if eqb limit 0 then total else min limit total))
          × Ordered (λ c. c.created_at) ascending page
          × NotAfter left_out page)
unfolding find_chat_by_room_before
find_chat_by_room_before_lem db room before limit w =
    elim (db.chats.find_sorted_lem (λ c. in_room room c && ltb c.created_at before)
      (λ c. c.created_at) descending limit w.chats) [
        | inl failed ↦ inl (rw (find_chat_by_room_before, failed) refl)
        | inr (page, e, p) ↦ inr (
          reverse page,
          p.rest,
          rw (find_chat_by_room_before, e) refl,
          Perm.trans (Perm.append_right p.rest (reverse_perm page)) p.same,
          length-reverse page ∙ p.size,
          Ordered-reverse page p.rest p.ordered,
          NotAfter-reverse page p.rest p.ordered,
        )
      ]
