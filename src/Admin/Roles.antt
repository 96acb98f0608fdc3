-- ===== src/Admin/Roles.antt =====
-- server/handler/admin.go and server/middleware/admin.go: who is let in, and what a block and its end
-- leave of a role.
use woongkie_talkie.Base.{
  ◌≡◌, ◌≢◌, ◌⊎◌, inl, inr, refl, sym, ap, ◌∙◌, String, Bool, true, false, not, ◌&&◌, none, some,
  if◌then◌else◌, ◌==◌, err, arith, Bool-cases, Result-cases, find, eq-false,
}
use woongkie_talkie.Mongo.{failure}
use woongkie_talkie.Rooms.Handlers.{answer}
use woongkie_talkie.Users.{
  User, Accounts, World, database, named, find_user_by_username, block_user, unblock_user,
  set_user_role,
}
use woongkie_talkie.Users.Laws.{docs_of, find_user-cases, set_user_role-found}
use woongkie_talkie.Admin.{open_, shut, admin_required, admin_block_user_handler}

module _ (accounts : Accounts) where
  -- A request under a name goes on just if the database answers with a user whose role is admin.
  -- Another role gets 403. A name that no user has gets 503, as does a database that fails.
  pub admin_required_lem :
      (username : String) (w : World accounts)
      → w.has_users ≡ true
      → username ≢ ""
      → ((u : User) × (find (named username) (docs_of accounts w) ≡ some u)
          × (admin_required accounts username w ≡ (if u.role == "admin" then open_ else shut 403)))
        ⊎ ((find (named username) (docs_of accounts w) ≡ none)
            × (admin_required accounts username w ≡ shut 503))
        ⊎ ((find_user_by_username accounts username w ≡ err (database failure))
            × (admin_required accounts username w ≡ shut 503))
  unfolding admin_required
  admin_required_lem username w up there =
      let name = eq-false username "" there in
      elim (find_user-cases accounts username w up) [
        | inl lost ↦ inr (inr (lost, rw (admin_required, name, lost) refl))
        | inr (inl (nobody, e)) ↦ inr (inl (nobody, rw (admin_required, name, e) refl))
        | inr (inr (u, found, e)) ↦ inl (u, found, ground (arith, name, e))
      ]

  set_role :
      (username admin : String) (blocked : Bool) (w : World accounts) (u : User) (text : String)
      → find (named username) (docs_of accounts w) ≡ some u
      → (username == "") ≡ false
      → (not (admin == "") && admin == username) ≡ false
      → (admin_block_user_handler accounts username admin (some blocked) w).0 ≡ answer 200 text
      → let w' = (admin_block_user_handler accounts username admin (some blocked) w).1 in
        (find (named username) (docs_of accounts w')
          ≡ some (record u { role = if blocked then "blocked" else "user" }))
        × (w'.has_users ≡ w.has_users)
  unfolding admin_block_user_handler block_user unblock_user
  set_role username admin true w u text there name other e =
      let after : (admin_block_user_handler accounts username admin (some true) w).1
          ≡ (set_user_role accounts username "blocked" w).1 =
        ground (arith, name, other) in
      elim (Result-cases (set_user_role accounts username "blocked" w).0) [
        | inr (f, lost) ↦ absurd (ground (arith, e, name, other, lost))
        | inl (x, done) ↦ rw after (set_user_role-found accounts username "blocked" w u there done)
      ]
  set_role username admin false w u text there name other e =
      let after : (admin_block_user_handler accounts username admin (some false) w).1
          ≡ (set_user_role accounts username "user" w).1 =
        ground (arith, name, other) in
      elim (Result-cases (set_user_role accounts username "user" w).0) [
        | inr (f, lost) ↦ absurd (ground (arith, e, name, other, lost))
        | inl (x, done) ↦ rw after (set_user_role-found accounts username "user" w u there done)
      ]

  -- A handler that answers with 200 has set the role.
  role_set :
      (username admin : String) (blocked : Bool) (w : World accounts) (u : User) (text : String)
      → find (named username) (docs_of accounts w) ≡ some u
      → (admin_block_user_handler accounts username admin (some blocked) w).0 ≡ answer 200 text
      → let w' = (admin_block_user_handler accounts username admin (some blocked) w).1 in
        (find (named username) (docs_of accounts w')
          ≡ some (record u { role = if blocked then "blocked" else "user" }))
        × (w'.has_users ≡ w.has_users)
  unfolding admin_block_user_handler block_user unblock_user
  role_set username admin blocked w u text there e = elim (Bool-cases (username == "")) [
    | inl nameless ↦ absurd (ground (arith, e, nameless))
    | inr name ↦ elim (Bool-cases (not (admin == "") && admin == username)) [
      | inl self ↦ absurd (ground (arith, e, name, self))
      | inr other ↦ set_role username admin blocked w u text there name other e
    ]
  ]

  -- An administrator blocks a user and ends the block again, and both are answered with 200. Then the
  -- user has the role user, whatever it was before: another administrator is let in no more.
  pub unblock_demotes :
      (username first second : String) (w : World accounts) (u : User) (t1 t2 : String)
      → w.has_users ≡ true
      → username ≢ ""
      → find (named username) (docs_of accounts w) ≡ some u
      → (admin_block_user_handler accounts username first (some true) w).0 ≡ answer 200 t1
      → (admin_block_user_handler accounts username second
          (some false)
          (admin_block_user_handler accounts username first (some true) w).1).0
        ≡ answer 200 t2
      → let w1 = (admin_block_user_handler accounts username first (some true) w).1 in
        let w2 = (admin_block_user_handler accounts username second (some false) w1).1 in
        (find (named username) (docs_of accounts w2) ≡ some (record u { role = "user" }))
        × (admin_required accounts username w2 ≢ open_)
  unblock_demotes username first second w u t1 t2 up there found e1 e2 =
      let w1 = (admin_block_user_handler accounts username first (some true) w).1 in
      let w2 = (admin_block_user_handler accounts username second (some false) w1).1 in
      let (blocked, still1) = role_set username first true w u t1 found e1 in
      let (back, still2) =
        role_set username second false w1 (record u { role = "blocked" }) t2 blocked e2 in
      (
        back,
        elim (admin_required_lem username w2 (still2 ∙ still1 ∙ up) there) [
          | inl (v, is_v, gate) ↦
              let same : record u { role = "user" } ≡ v = ground (arith, back, is_v) in
              let other : (v.role == "admin") ≡ false = ap (λ x. x.role == "admin") (sym same) in
              λ e. absurd (ground (arith, e, gate, other))
          | inr (inl (nobody, gate)) ↦ λ e. absurd (cc (back, nobody))
          | inr (inr (lost, gate)) ↦ λ e. absurd (ground (arith, e, gate))
        ],
      )
