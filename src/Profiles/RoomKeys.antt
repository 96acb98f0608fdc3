-- ===== src/Profiles/RoomKeys.antt =====
-- server/handler/crypto.go, GetRoomKeysHandler: who gets whose keys.
use woongkie_talkie.Base.{
  ◌≡◌, inl, inr, refl, sym, ap, subst, ◌∙◌, String, Bool, true, List, [], ◌∷◌, Option, none, some,
  if◌then◌else◌, ◌==◌, any, keep, find, Assoc, lookup, insert, lookup-insert, ok, arith, Bool-cases,
  Result-cases, eq_iff,
}
use woongkie_talkie.Rooms
use woongkie_talkie.Rooms.{Room, Database, find_room_by_id, is_member}
use woongkie_talkie.Rooms.Handlers.{answer}
use woongkie_talkie.Users.{User, Accounts, World, named}
use woongkie_talkie.Users.Laws.{docs_of}
use woongkie_talkie.Profiles.{collect_keys, get_batch_public_keys, get_room_keys_handler}

-- No name stands twice, as the index on names has it.
abbrev pub DistinctNames : List User → Type 0
DistinctNames [] = Unit {0}
DistinctNames (u ∷ us) = (find (named u.username) us ≡ none) × DistinctNames us

-- The key of a user that has one.
abbrev pub key_of : Option User → Option String
key_of none = none
key_of (some u) = if u.public_key == "" then none else some u.public_key

abbrev or_else : Option String → Option String → Option String
or_else none b = b
or_else (some k) b = some k

lookup-collect_keys :
    (name : String) (us : List User) (keys : Assoc String)
    → DistinctNames us
    → lookup name (collect_keys us keys)
      ≡ or_else (key_of (find (named name) us)) (lookup name keys)
unfolding collect_keys
lookup-collect_keys name [] keys d = refl
lookup-collect_keys name (u ∷ us) keys (alone, d) =
    let rest =
      lookup-collect_keys name us
        (if u.public_key == "" then keys else insert u.username u.public_key keys) d in
    let new = lookup-insert u.username name u.public_key keys in
    elim (Bool-cases (u.username == name)) [
      | inl same ↦
          let gone : find (named name) us ≡ none =
            subst (λ n. find (named n) us ≡ none) ((eq_iff u.username name).0 same) alone in
          rest ∙ ground (arith, same, gone, new)
      | inr other ↦ rest ∙ ground (arith, other, new)
    ]

-- The users with a name of a list.
abbrev with_names : List String → User → Bool
with_names names u = any (λ m. m == u.username) names

find-keep :
    (name : String) (names : List String) (us : List User)
    → find (named name) (keep (with_names names) us)
      ≡ (if any (λ m. m == name) names then find (named name) us else none)
find-keep name names [] = ground arith
find-keep name names (u ∷ us) =
    let rest = find-keep name names us in
    elim (Bool-cases (u.username == name)) [
      | inl same ↦
          let one : with_names names u ≡ any (λ m. m == name) names =
            ap (λ n. any (λ m. m == n) names) ((eq_iff u.username name).0 same) in
          ground (arith, same, one, rest)
      | inr other ↦ ground (arith, other, rest)
    ]

DistinctNames-keep :
    (names : List String) (us : List User)
    → DistinctNames us
    → DistinctNames (keep (with_names names) us)
DistinctNames-keep names [] d = tt
DistinctNames-keep names (u ∷ us) (alone, d) =
    let rest = DistinctNames-keep names us d in
    elim (Bool-cases (with_names names u)) [
      | inl in_ ↦ rw in_ (ground (arith, find-keep u.username names us, alone), rest)
      | inr out ↦ rw out rest
    ]

module _ (accounts : Accounts) where
  batch_lem :
      (n : String) (names : List String) (w : World accounts) (keys : Assoc String)
      → DistinctNames (docs_of accounts w)
      → get_batch_public_keys accounts (n ∷ names) w ≡ ok keys
      → (name : String)
      → lookup name keys ≡ (
          if any (λ m. m == name) (n ∷ names)
          then key_of (find (named name) (docs_of accounts w))
          else none)
  unfolding get_batch_public_keys lookup
  batch_lem n names w keys d e name =
      let us = docs_of accounts w in
      elim (accounts.users.find_all_lem (with_names (n ∷ names)) w.state) [
        | inl lost ↦ absurd (ground (arith, e, lost))
        | inr found ↦
            let same : collect_keys (keep (with_names (n ∷ names)) us) [] ≡ keys =
              ground (arith, e, found) in
            ap (lookup name) (sym same)
            ∙ lookup-collect_keys name (keep (with_names (n ∷ names)) us) []
                (DistinctNames-keep (n ∷ names) us d)
            ∙ ap (λ o. or_else (key_of o) none) (find-keep name (n ∷ names) us)
            ∙ ground arith
      ]

  batch_of_members :
      (members : List String) (username : String) (w : World accounts) (keys : Assoc String)
      → DistinctNames (docs_of accounts w)
      → any (λ m. m == username) members ≡ true
      → get_batch_public_keys accounts members w ≡ ok keys
      → (name : String)
      → lookup name keys ≡ (
          if any (λ m. m == name) members
          then key_of (find (named name) (docs_of accounts w))
          else none)
  batch_of_members [] username w keys d inside e name = absurd (cc inside)
  batch_of_members (n ∷ names) username w keys d inside e name = batch_lem n names w keys d e name

  -- If no two users have one name: whoever gets the keys of a room is a member of it, and the keys
  -- are those of exactly the members that have stored one, each under the member's name.
  pub get_room_keys_lem :
      (db : Database) (room_id username : String) (rooms : Rooms.World db) (w : World accounts)
      (keys : Assoc String)
      → DistinctNames (docs_of accounts w)
      → get_room_keys_handler accounts db room_id username rooms w ≡ answer 200 keys
      → (room : Room) × (find_room_by_id db room_id rooms ≡ ok room)
        × (is_member username room ≡ true)
        × ((name : String)
            → lookup name keys ≡ (
                if is_member name room
                then key_of (find (named name) (docs_of accounts w))
                else none))
  unfolding get_room_keys_handler
  get_room_keys_lem db room_id username rooms w keys d e = elim (Bool-cases (room_id == "")) [
    | inl no_room ↦ absurd (ground (arith, e, no_room))
    | inr asked ↦ elim (Bool-cases (username == "")) [
      | inl nameless ↦ absurd (ground (arith, e, asked, nameless))
      | inr given ↦ elim (Result-cases (find_room_by_id db room_id rooms)) [
        | inr (f, lost) ↦ absurd (ground (arith, e, asked, given, lost))
        | inl (room, found) ↦ elim (Bool-cases (is_member username room)) [
          | inr outside ↦ absurd (ground (arith, e, asked, given, found, outside))
          | inl inside ↦ elim (Result-cases (get_batch_public_keys accounts room.members w)) [
            | inr (f, lost) ↦ absurd (ground (arith, e, asked, given, found, inside, lost))
            | inl (got, answered) ↦
                let same : got ≡ keys = ground (arith, e, asked, given, found, inside, answered) in
                (
                  room,
                  found,
                  inside,
                  λ name.
                      ap (lookup name) (sym same)
                      ∙ batch_of_members room.members username w got d inside answered name,
                )
          ]
        ]
      ]
    ]
  ]
