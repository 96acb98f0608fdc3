-- ===== src/Admin/Tests.antt =====
-- Users in memory: the theorems at concrete inputs.
use woongkie_talkie.Base.{
  ◌≡◌, ◌≢◌, ◌⊎◌, refl, true, false, [], ◌∷◌, none, some, err, if◌then◌else◌, ◌==◌, find,
}
use woongkie_talkie.Mongo.{failure}
use woongkie_talkie.Users.{User, World, named, database, find_user_by_username}
use woongkie_talkie.Users.Laws.{docs_of}
use woongkie_talkie.Auth.Tests.{people, ann_user, home}
use woongkie_talkie.Admin.{open_, shut, admin_required, admin_block_user_handler}
use woongkie_talkie.Admin.Roles.{admin_required_lem, unblock_demotes}

-- ann is an administrator.
abbrev office : World people
office = record home { state = record ann_user { role = "admin" } ∷ [] }

admin_required_lem_example :
    ((u : User) × (find (named "bob") (docs_of people office) ≡ some u)
      × (admin_required people "bob" office ≡ (if u.role == "admin" then open_ else shut 403)))
    ⊎ ((find (named "bob") (docs_of people office) ≡ none)
        × (admin_required people "bob" office ≡ shut 503))
    ⊎ ((find_user_by_username people "bob" office ≡ err (database failure))
        × (admin_required people "bob" office ≡ shut 503))
admin_required_lem_example = admin_required_lem people "bob" office refl (λ e. cc e)

unblock_demotes_example :
    let w1 = (admin_block_user_handler people "ann" "root" (some true) office).1 in
    let w2 = (admin_block_user_handler people "ann" "root" (some false) w1).1 in
    (find (named "ann") (docs_of people w2) ≡ some (record ann_user { role = "user" }))
    × (admin_required people "ann" w2 ≢ open_)
unfolding admin_block_user_handler woongkie_talkie.Users.block_user
    woongkie_talkie.Users.unblock_user
unblock_demotes_example =
    unblock_demotes people "ann" "root" "root" office (record ann_user { role = "admin" })
      "사용자 상태가 변경되었습니다" "사용자 상태가 변경되었습니다" refl (λ e. cc e) refl refl refl
