-- ===== src/Users/Laws.antt =====
-- pkg/mongoDB/user.go: what a search finds after an insert and after an update of a user.
use woongkie_talkie.Base.{
  ℕ, String, Bool, true, false, List, [], ◌∷◌, ◌++◌, none, some, ◌==◌, ok, err, ◌≡◌, ◌⊎◌, inl, inr,
  refl, sym, ap, ◌∙◌, find, any, arith, Bool-cases, eq_iff, Option-cases,
}
use woongkie_talkie.Chat.{Text}
use woongkie_talkie.Mongo.{
  no_documents, failure, added, refused, failed_before, failed_after, update_first,
}
use woongkie_talkie.Users.{
  User, Accounts, World, database, named, new_user, create_user, find_user_by_username,
  set_user_role,
}

-- The users in the collection.
abbrev pub docs_of : (accounts : Accounts) → World accounts → List User
docs_of accounts w = accounts.users.docs w.state

find_last :
    (username : String) (us : List User) (u : User)
    → any (λ v. v.username == username) us ≡ false
    → u.username ≡ username
    → find (named username) (us ++ u ∷ []) ≡ some u
find_last username [] u e same = ground (arith, (eq_iff u.username username).1 same)
find_last username (v ∷ us) u e same =
    ground (arith, e, find_last username us u (ground (arith, e)) same)

pub find-update_first :
    (p : User → Bool) (f : User → User) (us : List User) (u : User)
    → ((v : User) → p (f v) ≡ p v)
    → find p us ≡ some u
    → find p (update_first p f us) ≡ some (f u)
find-update_first p f [] u h e = absurd (cc e)
find-update_first p f (v ∷ us) u h e = elim (Bool-cases (p v)) [
  | inl hit ↦ ground (arith, hit, h v, e)
  | inr miss ↦ ground (arith, miss, e, find-update_first p f us u h)
]

module _ (accounts : Accounts) where
  -- A user that is created is there, with the fields of the call.
  pub create_user-found :
      (now : ℕ) (username password : String) (display_name : Text) (w : World accounts)
      (user : User)
      → (create_user accounts now username password display_name w).0 ≡ ok user
      → (hash : String) × (accounts.generate password ≡ some hash)
        × ((id : String) × (user ≡ record (new_user now username hash display_name) { id = id }))
        × (find
              (named username)
              (docs_of accounts (create_user accounts now username password display_name w).1)
            ≡ some user)
        × ((create_user accounts now username password display_name w).1.has_users ≡ w.has_users)
  unfolding create_user
  create_user-found now username password display_name w user e =
      elim (Option-cases (accounts.generate password)) [
        | inl lost ↦ absurd (ground (arith, e, lost))
        | inr (hash, made) ↦
            let u0 = new_user now username hash display_name in
            let outcome = accounts.users.insert_one u0 w.state in
            elim (accounts.users.insert_one_lem u0 w.state) [
              | added id r (fresh, clash, now_there) ↦
                  let same : record u0 { id = id } ≡ user = ground (arith, e, made, r) in
                  let after : (create_user accounts now username password display_name w).1
                      ≡ record w { state = outcome.1 } =
                    ground (arith, made) in
                  let there : find (named username) (accounts.users.docs outcome.1) ≡ some user =
                    ap (find (named username)) now_there
                    ∙ find_last username (docs_of accounts w) (record u0 { id = id }) clash refl
                    ∙ ap some same in
                  (hash, made, (id, sym same), rw after there, ap (λ x. x.has_users) after)
              | refused r clash same ↦ absurd (ground (arith, e, made, r))
              | failed_before r same ↦ absurd (ground (arith, e, made, r))
              | failed_after id r a ↦ absurd (ground (arith, e, made, r))
            ]
      ]

  -- What a search for a name answers, unless the database fails.
  pub find_user-cases :
      (username : String) (w : World accounts)
      → w.has_users ≡ true
      → (find_user_by_username accounts username w ≡ err (database failure))
        ⊎ ((find (named username) (docs_of accounts w) ≡ none)
            × (find_user_by_username accounts username w ≡ err (database no_documents)))
        ⊎ ((u : User) × (find (named username) (docs_of accounts w) ≡ some u)
            × (find_user_by_username accounts username w ≡ ok u))
  unfolding find_user_by_username
  find_user-cases username w up = elim (accounts.users.find_one_lem (named username) w.state) [
    | inl lost ↦ inl (ground (arith, up, lost))
    | inr answered ↦ elim (Option-cases (find (named username) (docs_of accounts w))) [
      | inl nobody ↦ inr (inl (nobody, ground (arith, up, answered, nobody)))
      | inr (u, there) ↦ inr (inr (u, there, ground (arith, up, answered, there)))
    ]
  ]

  -- After a role is set without an error, the user that was found is found with that role.
  pub set_user_role-found :
      (username role : String) (w : World accounts) (u : User)
      → find (named username) (docs_of accounts w) ≡ some u
      → (set_user_role accounts username role w).0 ≡ ok tt
      → (find (named username) (docs_of accounts (set_user_role accounts username role w).1)
          ≡ some (record u { role = role }))
        × ((set_user_role accounts username role w).1.has_users ≡ w.has_users)
  unfolding set_user_role
  set_user_role-found username role w u there e =
      elim (accounts.users.update_one_lem (named username) (λ v. record v { role = role })
        w.state) [
          | inl (r, done) ↦ (
            ap (find (named username)) done
                ∙ find-update_first (named username) (λ v. record v { role = role })
                    (docs_of accounts w) u (λ v. refl) there,
            refl,
          )
          | inr (r, either) ↦ absurd (ground (arith, e, r))
        ]
