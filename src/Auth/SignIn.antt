-- ===== src/Auth/SignIn.antt =====
-- server/handler/auth.go and server/middleware/auth.go: from a registration to a request that is let
-- through, and what becomes of a user that is blocked.
use Prim.Native.String.{len}
use woongkie_talkie.Base.{
  ℕ, ◌+◌, ◌<◌, ◌≡◌, ◌≢◌, inl, inr, refl, sym, ap, ◌∙◌, String, true, false, ◌||◌, Option, some, ltb,
  ◌==◌, Result, ok, err, arith, Bool-cases, Option-cases, find,
}
use woongkie_talkie.Mongo.{failure, no_documents, duplicate_key}
use woongkie_talkie.Rooms.Handlers.{answer}
use woongkie_talkie.Users.{
  User, Accounts, World, UserError, database, no_collection, hash_failed, named, create_user,
  find_user_by_username, check_password,
}
use woongkie_talkie.Users.Laws.{docs_of, create_user-found, find_user-cases}
use woongkie_talkie.Auth.{
  RegisterRequest, LoginRequest, AuthResponse, Jwt, Config, Cookie, passes, is_username,
  needs_no_token, shown_name, token_expiry, cookie_expiry, set_auth_cookie,
}
use woongkie_talkie.Auth.Handlers.{
  claims_for, generate_token, sign_in, registration_answer, register_handler, login_handler,
  jwt_auth, is_blocked,
}
use woongkie_talkie.Auth.Tokens.{with_bearer, jwt_auth_lem, fresh_token, token_there}

is_username_there : (s : String) → is_username s ≡ true → s ≢ ""
unfolding is_username
is_username_there s e p = ground (arith, e, ap len p)

module _ (accounts : Accounts) (jwt : Jwt) (config : Config) where
  signed_in :
      (status now : ℕ) (user : User) (c : Option Cookie) (n : ℕ) (a : AuthResponse)
      → sign_in accounts jwt config status now user ≡ (c, answer n a)
      → (user ≡ a.user) × (generate_token accounts jwt config now user.username ≡ some a.token)
  unfolding sign_in
  signed_in status now user c n a e =
      elim (Option-cases (generate_token accounts jwt config now user.username)) [
        | inl lost ↦ absurd (ground (arith, e, lost))
        | inr (token, signed) ↦
            let same : record { token = token; user = user } ≡ a = ground (arith, e, signed) in
            (ap (λ x. x.user) same, signed ∙ ap (λ x. some x.token) same)
      ]

  answered_201 :
      (now : ℕ) (reply : Result UserError User) (c : Option Cookie) (n : ℕ) (a : AuthResponse)
      → registration_answer accounts jwt config now reply ≡ (c, answer n a)
      → (reply ≡ ok a.user)
        × (generate_token accounts jwt config now a.user.username ≡ some a.token)
  unfolding registration_answer
  answered_201 now (ok user) c n a e =
      let (same, signed) = signed_in 201 now user c n a e in
      (ap ok same, ap (λ u. generate_token accounts jwt config now u.username) (sym same) ∙ signed)
  answered_201 now (err (database duplicate_key)) c n a e = absurd (ground (arith, e))
  answered_201 now (err (database no_documents)) c n a e = absurd (ground (arith, e))
  answered_201 now (err (database failure)) c n a e = absurd (ground (arith, e))
  answered_201 now (err no_collection) c n a e = absurd (ground (arith, e))
  answered_201 now (err hash_failed) c n a e = absurd (ground (arith, e))

  -- A registration that succeeds has created the user.
  registered :
      (now : ℕ) (req : RegisterRequest) (w : World accounts) (c : Option Cookie) (n : ℕ)
      (a : AuthResponse)
      → (register_handler accounts jwt config now (some req) w).0 ≡ (c, answer n a)
      → let made = create_user accounts now req.username req.password (shown_name req) w in
        (is_username req.username ≡ true)
        × (made.0 ≡ ok a.user)
        × ((register_handler accounts jwt config now (some req) w).1 ≡ made.1)
        × (generate_token accounts jwt config now a.user.username ≡ some a.token)
  unfolding register_handler
  registered now req w c n a e = elim (Bool-cases (is_username req.username)) [
    | inr bad ↦ absurd (ground (arith, e, bad))
    | inl good ↦ elim (Bool-cases (ltb (len req.password) 8 || ltb 72 (len req.password))) [
      | inl long ↦ absurd (ground (arith, e, good, long))
      | inr fits ↦
          let made = create_user accounts now req.username req.password (shown_name req) w in
          let same : register_handler accounts jwt config now (some req) w
              ≡ (registration_answer accounts jwt config now made.0, made.1) =
            rw (register_handler, good, fits) refl in
          let (there, signed) = answered_201 now made.0 c n a (ap (λ x. x.0) (sym same) ∙ e) in
          (good, there, ap (λ x. x.1) same, signed)
    ]
  ]

  -- A search that answers finds the user.
  pub search_finds :
      (username : String) (w : World accounts) (u : User)
      → w.has_users ≡ true
      → find (named username) (docs_of accounts w) ≡ some u
      → find_user_by_username accounts username w ≢ err (database failure)
      → find_user_by_username accounts username w ≡ ok u
  search_finds username w u up there answers = elim (find_user-cases accounts username w up) [
    | inl lost ↦ absurd (answers lost)
    | inr (inl (nobody, e)) ↦ absurd (cc (there, nobody))
    | inr (inr (v, found, e)) ↦ let same : v ≡ u = ground (arith, found, there) in e ∙ ap ok same
  ]

  login_lem :
      (now : ℕ) (req : LoginRequest) (w : World accounts) (u : User) (token : String)
      → find_user_by_username accounts req.username w ≡ ok u
      → check_password accounts u req.password ≡ true
      → (u.role == "blocked") ≡ false
      → generate_token accounts jwt config now u.username ≡ some token
      → login_handler accounts jwt config now (some req) w ≡ (
        some (set_auth_cookie config token (cookie_expiry config)),
        answer 200 (record { token = token; user = u }),
      )
  unfolding login_handler sign_in
  login_lem now req w u token found right free signed =
      rw (login_handler, found, right, free, sign_in, signed) refl

  -- Who registers with success may log in with the same name and password, as long as the database
  -- answers and tokens can be signed: the answer is 200 with a token and the user, and the token is
  -- in the cookie. Until the token expires, a request that carries it, in the header or in the
  -- cookie, is let through as that user.
  pub register_login_auth :
      (t0 t1 t2 : ℕ) (req : RegisterRequest) (path token : String) (w : World accounts)
      (c : Option Cookie) (a : AuthResponse)
      → w.has_users ≡ true
      → (register_handler accounts jwt config t0 (some req) w).0 ≡ (c, answer 201 a)
      → find_user_by_username accounts req.username
          (register_handler accounts jwt config t0 (some req) w).1
        ≢ err (database failure)
      → generate_token accounts jwt config t1 req.username ≡ some token
      → t2 < t1 + token_expiry config
      → needs_no_token path ≡ false
      → let w' = (register_handler accounts jwt config t0 (some req) w).1 in
        (login_handler accounts jwt config t1
            (some (record { username = req.username; password = req.password }))
            w'
          ≡ (
            some (set_auth_cookie config token (cookie_expiry config)),
            answer 200 (record { token = token; user = a.user }),
          ))
        × (jwt_auth accounts jwt config t2 path (with_bearer token) "" w' ≡ passes req.username)
        × (jwt_auth accounts jwt config t2 path "" token w' ≡ passes req.username)
  unfolding check_password claims_for
  register_login_auth t0 t1 t2 req path token w c a up e answers signed soon closed =
      let made = create_user accounts t0 req.username req.password (shown_name req) w in
      let w' = (register_handler accounts jwt config t0 (some req) w).1 in
      let (good, created, after, token0) = registered t0 req w c 201 a e in
      let (hash, hashed, (id, is_new), there, still) =
        create_user-found accounts t0 req.username req.password (shown_name req) w a.user created in
      let up' : w'.has_users ≡ true = ap (λ x. x.has_users) after ∙ still ∙ up in
      let found : find_user_by_username accounts req.username w' ≡ ok a.user =
        search_finds req.username w' a.user up'
          (ap (λ x. find (named req.username) (docs_of accounts x)) after ∙ there) answers in
      let name : a.user.username ≡ req.username = ap (λ u. u.username) is_new in
      let free : (a.user.role == "blocked") ≡ false = ap (λ u. u.role == "blocked") is_new in
      let right : check_password accounts a.user req.password ≡ true =
        ap (λ u. accounts.compare u.password_hash req.password) is_new
        ∙ accounts.compare_lem req.password hash hashed in
      let unblocked : is_blocked accounts jwt config req.username w' ≡ false =
        rw (is_blocked, found) free in
      let (in_header, in_cookie) =
        jwt_auth_lem accounts jwt config t2 path token
          (claims_for accounts jwt config t1 req.username) w' closed
          (token_there accounts jwt config t1 req.username token signed)
          (fresh_token accounts jwt config t1 t2 req.username token signed soon)
          (is_username_there req.username good) in
      (
        login_lem t1 (record { username = req.username; password = req.password }) w' a.user token
            found right free (ap (generate_token accounts jwt config t1) name ∙ signed),
        in_header ∙ rw unblocked refl,
        in_cookie ∙ rw unblocked refl,
      )
