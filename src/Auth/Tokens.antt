-- ===== src/Auth/Tokens.antt =====
-- server/handler/auth.go and server/middleware/auth.go: what a signed token gives to the middleware
-- and to the refresh.
use Prim.Native.String
use Prim.Native.String.{len, slice}
use text.Mathlib.TextPositions.{slice-append_right, len-append, starts_with-append}
use woongkie_talkie.Base.{
  ℕ, ◌+◌, ◌<◌, ◌≡◌, ◌≢◌, refl, ap, ◌∙◌, String, false, none, some, if◌then◌else◌, arith, eq-false,
}
use woongkie_talkie.Rooms.Handlers.{refusal}
use woongkie_talkie.Users.{Accounts, World}
use woongkie_talkie.Auth.{Claims, Jwt, Config, passes, denied, bearer, needs_no_token, token_expiry}
use woongkie_talkie.Auth.Handlers.{
  is_too_late, claims_for, generate_token, jwt_auth, refresh_handler, refresh_user, is_blocked,
}

abbrev pub with_bearer : String → String
with_bearer token = String.◌++◌ "Bearer " token

pub bearer_lem : (token : String) → bearer (with_bearer token) ≡ token
unfolding bearer
bearer_lem token =
    let cut : slice (with_bearer token) 7 (len (with_bearer token)) ≡ token =
      ap (slice (with_bearer token) 7) (len-append "Bearer " token)
      ∙ slice-append_right "Bearer " token in
    rw (starts_with-append "Bearer " token) cut

bearer_none : bearer "" ≡ ""
unfolding bearer
bearer_none = refl

module _ (accounts : Accounts) (jwt : Jwt) (config : Config) where
  -- The middleware on a valid token in the header, or in the cookie.
  pub jwt_auth_lem :
      (now : ℕ) (path token : String) (c : Claims) (w : World accounts)
      → needs_no_token path ≡ false
      → token ≢ ""
      → jwt.parse now token ≡ some c
      → c.subject ≢ ""
      → let outcome =
          if is_blocked accounts jwt config c.subject w then denied 403 else passes c.subject in
        (jwt_auth accounts jwt config now path (with_bearer token) "" w ≡ outcome)
        × (jwt_auth accounts jwt config now path "" token w ≡ outcome)
  unfolding jwt_auth
  jwt_auth_lem now path token c w closed there valid named =
      let some_token = eq-false token "" there in
      let some_name = eq-false c.subject "" named in
      let in_header = bearer_lem token in
      let first : jwt_auth accounts jwt config now path (with_bearer token) "" w
          ≡ (if is_blocked accounts jwt config c.subject w then denied 403 else passes c.subject) =
        rw (jwt_auth, closed, in_header, some_token, valid, some_name) (rw some_token refl) in
      (first, rw (jwt_auth, closed, bearer_none, some_token, valid, some_name) refl)

  pub fresh_token :
      (t0 now : ℕ) (username token : String)
      → generate_token accounts jwt config t0 username ≡ some token
      → now < t0 + token_expiry config
      → jwt.parse now token ≡ some (claims_for accounts jwt config t0 username)
  unfolding generate_token claims_for
  fresh_token t0 now username token signed soon =
      let c = claims_for accounts jwt config t0 username in
      jwt.parse_lem now token c (jwt.sign_lem c token signed) ∙ ground (arith, soon)

  pub token_there :
      (t0 : ℕ) (username token : String)
      → generate_token accounts jwt config t0 username ≡ some token
      → token ≢ ""
  unfolding generate_token
  token_there t0 username token signed e =
      jwt.sign_ne (claims_for accounts jwt config t0 username) (signed ∙ ap some e)

  pub refresh_handler_lem :
      (now : ℕ) (token header : String) (c : Claims) (w : World accounts)
      → token ≢ ""
      → jwt.parse_unvalidated token ≡ some c
      → c.subject ≢ ""
      → refresh_handler accounts jwt config now token header w ≡ (
          if is_too_late accounts jwt config now c
          then (none, refusal 401 "토큰이 만료되었습니다. 다시 로그인하세요")
          else refresh_user accounts jwt config now c.subject w)
  unfolding refresh_handler
  refresh_handler_lem now token header c w there read named =
      let some_token = eq-false token "" there in
      let some_name = eq-false c.subject "" named in
      rw (refresh_handler, some_token, read, some_name) (rw some_token refl)

  -- With no cookie, a token in the header is treated like one in the cookie.
  pub refresh_handler_bearer :
      (now : ℕ) (token : String) (w : World accounts)
      → token ≢ ""
      → refresh_handler accounts jwt config now "" (with_bearer token) w
        ≡ refresh_handler accounts jwt config now token "" w
  unfolding refresh_handler
  refresh_handler_bearer now token w there =
      let some_token = eq-false token "" there in
      rw (refresh_handler, bearer_lem token, some_token) (rw some_token refl)
