-- ===== src/Auth/Blocking.antt =====
-- server/handler/auth.go and server/middleware/auth.go: what becomes of a user that is blocked.
use woongkie_talkie.Base.{
  ℕ, ◌≡◌, ◌≢◌, ◌⊎◌, inl, inr, refl, sym, ap, ◌∙◌, String, Bool, true, false, Option, none, some,
  ◌==◌, ok, err, arith, Bool-cases, Result-cases, find,
}
use woongkie_talkie.Mongo.{failure}
use woongkie_talkie.Rooms.Handlers.{Response, refusal}
use woongkie_talkie.Users.{
  User, Accounts, World, database, named, find_user_by_username, check_password, block_user,
}
use woongkie_talkie.Users.Laws.{docs_of, find_user-cases, set_user_role-found}
use woongkie_talkie.Auth.{LoginRequest, Claims, Jwt, Config, Cookie, passes, denied, needs_no_token}
use woongkie_talkie.Auth.Handlers.{
  login_handler, refresh_handler, refresh_user, jwt_auth, is_blocked, is_too_late,
}
use woongkie_talkie.Auth.Tokens.{
  with_bearer, jwt_auth_lem, refresh_handler_lem, refresh_handler_bearer,
}

-- No cookie is set, and the answer is a refusal.
abbrev pub is_refused : {A : Type 0} → Option Cookie × Response A → Bool
is_refused (none, refusal status message) = true
is_refused _ = false

module _ (accounts : Accounts) (jwt : Jwt) (config : Config) where
  -- Whatever a search answers, it is no user that is not blocked.
  blocked_login :
      (now : ℕ) (req : LoginRequest) (w : World accounts)
      → ((u : User)
          → find_user_by_username accounts req.username w ≡ ok u
          → (u.role == "blocked") ≡ true)
      → is_refused (login_handler accounts jwt config now (some req) w) ≡ true
  unfolding login_handler
  blocked_login now req w h = elim (Result-cases (find_user_by_username accounts req.username w)) [
    | inr (f, lost) ↦ rw (login_handler, lost) refl
    | inl (u, found) ↦ elim (Bool-cases (check_password accounts u req.password)) [
      | inr wrong ↦ rw (login_handler, found, wrong) refl
      | inl right ↦ rw (login_handler, found, right, h u found) refl
    ]
  ]

  blocked_refresh :
      (now : ℕ) (username : String) (w : World accounts)
      → ((u : User)
          → find_user_by_username accounts username w ≡ ok u
          → (u.role == "blocked") ≡ true)
      → is_refused (refresh_user accounts jwt config now username w) ≡ true
  unfolding refresh_user
  blocked_refresh now username w h =
      elim (Result-cases (find_user_by_username accounts username w)) [
        | inr (f, lost) ↦ rw (refresh_user, lost) refl
        | inl (u, found) ↦ rw (refresh_user, found, h u found) refl
      ]

  -- So no token of that name is refreshed, whatever else the header holds.
  blocked_token :
      (now : ℕ) (username token : String) (c : Claims) (w : World accounts)
      → username ≢ ""
      → ((u : User)
          → find_user_by_username accounts username w ≡ ok u
          → (u.role == "blocked") ≡ true)
      → token ≢ ""
      → jwt.parse_unvalidated token ≡ some c
      → c.subject ≡ username
      → (header : String)
      → is_refused (refresh_handler accounts jwt config now token header w) ≡ true
  blocked_token now username token c w named_ only some_token read whose header =
      ap is_refused (
        refresh_handler_lem accounts jwt config now token header c w some_token read
          (λ e. named_ (sym whose ∙ e)))
      ∙ elim (Bool-cases (is_too_late accounts jwt config now c)) [
        | inl late ↦ rw late refl
        | inr early ↦ rw (early, whose) (blocked_refresh now username w only)
      ]

  -- Once an administrator has blocked a user, without an error, no login under that name succeeds,
  -- whatever the password, and no token of that name is refreshed at any time, valid or expired, in
  -- the cookie or in the header. A request that carries a valid token of that name, in the header or
  -- in the cookie, is refused, unless the database fails to answer: then it is let through.
  pub blocked_stays_out :
      (now later : ℕ) (username password path header any_token token : String) (any c : Claims)
      (w : World accounts) (u : User)
      → w.has_users ≡ true
      → find (named username) (docs_of accounts w) ≡ some u
      → (block_user accounts username w).0 ≡ ok tt
      → username ≢ ""
      → any_token ≢ ""
      → jwt.parse_unvalidated any_token ≡ some any
      → any.subject ≡ username
      → token ≢ ""
      → jwt.parse now token ≡ some c
      → c.subject ≡ username
      → needs_no_token path ≡ false
      → let w' = (block_user accounts username w).1 in
        (is_refused (
            login_handler accounts jwt config now
              (some (record { username = username; password = password }))
              w')
          ≡ true)
        × (is_refused (refresh_handler accounts jwt config later any_token header w') ≡ true)
        × (is_refused (refresh_handler accounts jwt config later "" (with_bearer any_token) w')
            ≡ true)
        × (((find_user_by_username accounts username w' ≡ err (database failure))
              × (jwt_auth accounts jwt config now path (with_bearer token) "" w' ≡ passes username)
              × (jwt_auth accounts jwt config now path "" token w' ≡ passes username))
            ⊎ ((jwt_auth accounts jwt config now path (with_bearer token) "" w' ≡ denied 403)
                × (jwt_auth accounts jwt config now path "" token w' ≡ denied 403)))
  unfolding block_user
  blocked_stays_out now later username password path header any_token token any c w u up there done
        named_ some_any read whose some_token valid mine closed =
      let w' = (block_user accounts username w).1 in
      let (found, still) = set_user_role-found accounts username "blocked" w u there done in
      let (in_header, in_cookie) =
        jwt_auth_lem accounts jwt config now path token c w' closed some_token valid
          (λ e. named_ (sym mine ∙ e)) in
      let only : (v : User)
          → find_user_by_username accounts username w' ≡ ok v
          → (v.role == "blocked") ≡ true =
        λ v e. elim (find_user-cases accounts username w' (still ∙ up)) [
          | inl lost ↦ absurd (cc (e, lost))
          | inr (inl (nobody, lost)) ↦ absurd (cc (e, lost))
          | inr (inr (x, is_x, answered)) ↦
              let same : record u { role = "blocked" } ≡ v =
                ground (arith, found, is_x, answered, e) in
              ap (λ y. y.role == "blocked") (sym same)
        ] in
      let not_refreshed =
        blocked_token later username any_token any w' named_ only some_any read whose in
      (
        blocked_login now (record { username = username; password = password }) w' only,
        not_refreshed header,
        ap is_refused (refresh_handler_bearer accounts jwt config later any_token w' some_any)
            ∙ not_refreshed "",
        elim (find_user-cases accounts username w' (still ∙ up)) [
          | inl lost ↦ inl (
            lost,
            in_header ∙ rw (mine, is_blocked, lost) refl,
            in_cookie ∙ rw (mine, is_blocked, lost) refl,
          )
          | inr (inl (nobody, lost)) ↦ absurd (cc (found, nobody))
          | inr (inr (x, is_x, answered)) ↦ inr (
            in_header ∙ rw (mine, is_blocked, answered, only x answered) refl,
            in_cookie ∙ rw (mine, is_blocked, answered, only x answered) refl,
          )
        ],
      )
