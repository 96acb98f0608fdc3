-- ===== src/Auth/Handlers.antt =====
-- server/handler/auth.go and server/middleware/auth.go: the handlers, and the middleware that lets
-- requests through. A time is in seconds; what Bind reads comes as an option.
use Prim.Native.String.{len}
use woongkie_talkie.Base.{
  ℕ, ◌+◌, String, Bool, false, not, ◌||◌, Option, none, some, ltb, if◌then◌else◌, ◌==◌, Result, ok,
  err,
}
use woongkie_talkie.Mongo.{duplicate_key}
use woongkie_talkie.Rooms.Handlers.{Response, answer, refusal}
use woongkie_talkie.Users.{
  User, Accounts, World, UserError, database, create_user, find_user_by_username, check_password,
}
use woongkie_talkie.Auth.{
  RegisterRequest, LoginRequest, AuthResponse, Claims, Jwt, Cookie, Config, refresh_grace_period,
  set_auth_cookie, clear_auth_cookie, cookie_expiry, token_expiry, is_username, bearer,
  needs_no_token, Access, shown_name, anonymous, passes, denied,
}

module _ (accounts : Accounts) (jwt : Jwt) (config : Config) where
  unfoldable pub claims_for : ℕ → String → Claims
  claims_for now username = record {
    subject = username;
    expires_at = some (now + token_expiry config);
    issued_at = now;
    issuer = "woongkie-talkie";
  }

  unfoldable pub generate_token : ℕ → String → Option String
  unfolding claims_for
  generate_token now username = jwt.sign (claims_for now username)

  -- The end of the handlers that sign a user in: the cookie that is set, and the answer.
  unfoldable pub sign_in : ℕ → ℕ → User → Option Cookie × Response AuthResponse
  unfolding generate_token set_auth_cookie
  sign_in status now user = elim (generate_token now user.username) [
    | none ↦ (none, refusal 500 "토큰 생성에 실패했습니다")
    | some token ↦ (
      some (set_auth_cookie config token (cookie_expiry config)),
      answer status (record { token = token; user = user }),
    )
  ]

  -- The answer of a registration, after the user was created or not.
  unfoldable pub registration_answer :
      ℕ → Result UserError User → Option Cookie × Response AuthResponse
  unfolding sign_in
  registration_answer now (err (database duplicate_key)) = (none, refusal 409 "이미 존재하는 사용자 이름입니다")
  registration_answer now (err e) = (none, refusal 500 "회원가입에 실패했습니다")
  registration_answer now (ok user) = sign_in 201 now user

  unfoldable pub register_handler :
      ℕ
      → Option RegisterRequest
      → World accounts
      → (Option Cookie × Response AuthResponse) × World accounts
  unfolding registration_answer
  register_handler now none w = ((none, refusal 400 "잘못된 요청입니다"), w)
  register_handler now (some req) w =
      if not (is_username req.username)
      then ((none, refusal 400 "사용자 이름은 3자 이상 30자 이하의 영문자, 숫자, _, -만 사용 가능합니다"), w)
      else if ltb (len req.password) 8 || ltb 72 (len req.password)
      then ((none, refusal 400 "비밀번호는 8자 이상 72자 이하이어야 합니다"), w)
      else (let (reply, w') =
            create_user accounts now req.username req.password (shown_name req) w in
          (registration_answer now reply, w'))

  unfoldable pub login_handler :
      ℕ → Option LoginRequest → World accounts → Option Cookie × Response AuthResponse
  unfolding sign_in
  login_handler now none w = (none, refusal 400 "잘못된 요청입니다")
  login_handler now (some req) w = elim (find_user_by_username accounts req.username w) [
    | err e ↦ (none, refusal 401 "사용자 이름 또는 비밀번호가 올바르지 않습니다")
    | ok user ↦
        if not (check_password accounts user req.password)
        then (none, refusal 401 "사용자 이름 또는 비밀번호가 올바르지 않습니다")
        else if user.role == "blocked"
        then (none, refusal 403 "차단된 계정입니다")
        else sign_in 200 now user
  ]

  unfoldable pub me_handler : String → World accounts → Response User
  me_handler username w = elim (find_user_by_username accounts username w) [
    | err e ↦ refusal 404 "사용자를 찾을 수 없습니다"
    | ok user ↦ answer 200 user
  ]

  unfoldable pub logout_handler : Cookie × Response String
  unfolding clear_auth_cookie
  logout_handler = (clear_auth_cookie config, answer 200 "로그아웃 되었습니다")

  -- time.Since(expires) > config.RefreshGracePeriod
  abbrev pub is_too_late : ℕ → Claims → Bool
  is_too_late now claims = elim claims.expires_at [
    | none ↦ false
    | some e ↦ ltb (e + refresh_grace_period) now
  ]

  -- The new token of a user that is there and not blocked.
  unfoldable pub refresh_user : ℕ → String → World accounts → Option Cookie × Response String
  unfolding generate_token set_auth_cookie
  refresh_user now username w = elim (find_user_by_username accounts username w) [
    | err e ↦ (none, refusal 401 "사용자를 찾을 수 없습니다")
    | ok user ↦
        if user.role == "blocked"
        then (none, refusal 403 "차단된 계정입니다")
        else elim (generate_token now username) [
          | none ↦ (none, refusal 500 "토큰 생성에 실패했습니다")
          | some token ↦
              (some (set_auth_cookie config token (cookie_expiry config)), answer 200 token)
        ]
  ]

  unfoldable pub refresh_handler :
      ℕ → String → String → World accounts → Option Cookie × Response String
  unfolding refresh_user bearer
  refresh_handler now cookie header w =
      let token = if not (cookie == "") then cookie else bearer header in
      if token == "" then (none, refusal 401 "토큰이 필요합니다") else elim (jwt.parse_unvalidated token) [
        | none ↦ (none, refusal 401 "유효하지 않은 토큰입니다")
        | some claims ↦
            if claims.subject == ""
            then (none, refusal 401 "유효하지 않은 토큰입니다")
            else if is_too_late now claims
            then (none, refusal 401 "토큰이 만료되었습니다. 다시 로그인하세요")
            else refresh_user now claims.subject w
      ]

  -- Is the user known to be blocked? Not where the database fails.
  abbrev pub is_blocked : String → World accounts → Bool
  is_blocked username w = elim (find_user_by_username accounts username w) [
    | err e ↦ false
    | ok user ↦ user.role == "blocked"
  ]

  unfoldable pub jwt_auth : ℕ → String → String → String → World accounts → Access
  unfolding bearer
  jwt_auth now path header cookie w =
      if needs_no_token path
      then anonymous
      else (let token = if bearer header == "" then cookie else bearer header in
          if token == "" then denied 401 else elim (jwt.parse now token) [
            | none ↦ denied 401
            | some claims ↦
                if claims.subject == ""
                then denied 401
                else if is_blocked claims.subject w
                then denied 403
                else passes claims.subject
          ])
