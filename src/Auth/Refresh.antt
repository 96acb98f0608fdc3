-- ===== src/Auth/Refresh.antt =====
-- server/handler/auth.go, RefreshHandler: how long after its expiry a token may be refreshed.
use woongkie_talkie.Base.{
  ℕ, ◌+◌, ◌≡◌, ◌≢◌, refl, ◌∙◌, String, true, false, none, some, leb, if◌then◌else◌, ◌==◌, err,
  arith, find,
}
use woongkie_talkie.Mongo.{failure}
use woongkie_talkie.Rooms.Handlers.{answer, refusal}
use woongkie_talkie.Users.{User, Accounts, World, database, named, find_user_by_username}
use woongkie_talkie.Users.Laws.{docs_of}
use woongkie_talkie.Auth.{
  Jwt, Config, token_expiry, cookie_expiry, set_auth_cookie, refresh_grace_period,
}
use woongkie_talkie.Auth.Handlers.{claims_for, generate_token, refresh_handler, refresh_user}
use woongkie_talkie.Auth.Tokens.{refresh_handler_lem, token_there}
use woongkie_talkie.Auth.SignIn.{search_finds}

module _ (accounts : Accounts) (jwt : Jwt) (config : Config) where
  -- A token that was made for a user can be refreshed up to an hour after it expires, and no longer,
  -- as long as the user is there and not blocked, the database answers and the new token can be
  -- signed: the answer is the new token, also in the cookie; after that hour it is a refusal.
  pub refresh_window :
      (t0 now : ℕ) (username token new header : String) (w : World accounts) (u : User)
      → w.has_users ≡ true
      → find (named username) (docs_of accounts w) ≡ some u
      → (u.role == "blocked") ≡ false
      → find_user_by_username accounts username w ≢ err (database failure)
      → username ≢ ""
      → generate_token accounts jwt config t0 username ≡ some token
      → generate_token accounts jwt config now username ≡ some new
      → refresh_handler accounts jwt config now token header w ≡ (
          if leb now (t0 + token_expiry config + refresh_grace_period)
          then (some (set_auth_cookie config new (cookie_expiry config)), answer 200 new)
          else (none, refusal 401 "토큰이 만료되었습니다. 다시 로그인하세요"))
  unfolding refresh_user generate_token claims_for
  refresh_window t0 now username token new header w u up there free answers named_ made again =
      let c = claims_for accounts jwt config t0 username in
      let found = search_finds accounts jwt config username w u up there answers in
      let renewed : refresh_user accounts jwt config now username w
          ≡ (some (set_auth_cookie config new (cookie_expiry config)), answer 200 new) =
        rw (refresh_user, found, free, generate_token, again) refl in
      refresh_handler_lem accounts jwt config now token header c w
        (token_there accounts jwt config t0 username token made) (jwt.sign_lem c token made) named_
      ∙ ground (arith, renewed)
