-- ===== src/Auth/Tests.antt =====
-- Users in memory, and tokens that hold the name of their user: the theorems at concrete inputs.
use Prim.Native.Char.{code}
use woongkie_talkie.Base.{
  ℕ, ◌+◌, ◌≡◌, ◌≢◌, ◌⊎◌, inl, inr, refl, sym, ap, ◌∙◌, String, Bool, true, false, ◌&&◌, [], ◌∷◌,
  Option, none, some, eqb, if◌then◌else◌, ◌==◌, Result, ok, err, arith, Bool-cases, Option-cases,
  eq_iff,
}
use woongkie_talkie.Chat.{codes}
use woongkie_talkie.Mongo.{failure}
use woongkie_talkie.Mongo.Memory.{memory}
use woongkie_talkie.Rooms.Handlers.{answer}
use woongkie_talkie.Users.{
  User, Accounts, World, UserError, user_schema, database, find_user_by_username, block_user,
  new_user,
}
use woongkie_talkie.Auth.{
  Claims, Jwt, Config, RegisterRequest, passes, denied, set_auth_cookie, is_expired, one_day,
}
use woongkie_talkie.Auth.Handlers.{register_handler, login_handler, refresh_handler, jwt_auth}
use woongkie_talkie.Auth.Tokens.{with_bearer}
use woongkie_talkie.Auth.SignIn.{register_login_auth}
use woongkie_talkie.Auth.Blocking.{is_refused, blocked_stays_out}
use woongkie_talkie.Auth.Refresh.{refresh_window}

abbrev pub people : Accounts
people = record {
  users = memory user_schema (λ _. "u1");
  generate = λ p. some p;
  compare = λ h p. h == p;
  compare_lem = λ p h e. (eq_iff h p).1 (cc e);
}

abbrev made_at : ℕ → String → Claims
made_at t name = record {
  subject = name;
  expires_at = some (t + 86400);
  issued_at = t;
  issuer = "woongkie-talkie";
}

abbrev is_made_at : ℕ → Claims → Bool
is_made_at t c =
    eqb c.issued_at t
    && c.issuer == "woongkie-talkie"
    && elim c.expires_at [ none ↦ false | some e ↦ eqb e (t + 86400) ]

is_made_at_lem : (t : ℕ) (c : Claims) → is_made_at t c ≡ true → made_at t c.subject ≡ c
is_made_at_lem t c e = elim (Option-cases c.expires_at) [
  | inl never ↦ absurd (ground (arith, e, never))
  | inr (x, there) ↦
      let time : c.issued_at ≡ t = ground (arith, e) in
      let end : x ≡ t + 86400 = ground (arith, e, there) in
      let by : c.issuer ≡ "woongkie-talkie" =
        (eq_iff c.issuer "woongkie-talkie").0 (ground (arith, e)) in
      cc (time, end, by, there)
]

-- The mark's first character in front of a text.
abbrev stamp : String → String → String
stamp String.[] s = s
stamp (String.◌∷◌ c _) s = String.◌∷◌ c s

-- Tokens are made at two times.
abbrev sign_at : Claims → Option String
sign_at c =
    if is_made_at 0 c
    then some (stamp "t" c.subject)
    else if is_made_at 90000 c
    then some (stamp "u" c.subject)
    else none

abbrev read_back : String → Option Claims
read_back String.[] = none
read_back (String.◌∷◌ c s) =
    if eqb (code c) b't' then some (made_at 0 s) else some (made_at 90000 s)

read_back-sign : (c : Claims) (t : String) → sign_at c ≡ some t → read_back t ≡ some c
read_back-sign c t e = elim (Bool-cases (is_made_at 0 c)) [
  | inl early ↦
      let token : stamp "t" c.subject ≡ t = ground (arith, e, early) in
      ap read_back (sym token) ∙ ap some (is_made_at_lem 0 c early)
  | inr later ↦ elim (Bool-cases (is_made_at 90000 c)) [
    | inl now ↦
        let token : stamp "u" c.subject ≡ t = ground (arith, e, later, now) in
        ap read_back (sym token) ∙ ap some (is_made_at_lem 90000 c now)
    | inr never ↦ absurd (ground (arith, e, later, never))
  ]
]

sign_at-there : (c : Claims) → sign_at c ≢ some ""
sign_at-there c e = absurd (cc (read_back-sign c "" e))

abbrev parse_at : ℕ → Option Claims → Option Claims
parse_at now none = none
parse_at now (some c) = if is_expired now c then none else some c

abbrev tokens : Jwt
tokens = record {
  sign = sign_at;
  parse_unvalidated = read_back;
  parse = λ now t. parse_at now (read_back t);
  sign_lem = read_back-sign;
  sign_ne = sign_at-there;
  parse_lem = λ now t c e. ap (parse_at now) e;
}

abbrev settings : Config
settings = record { cert_file = ""; key_file = ""; expiry = some 86400 }

answered : (r : Result UserError User) (u : User) → r ≡ ok u → r ≢ err (database failure)
answered r u e p = absurd (cc (e, p))

abbrev nobody : World people
nobody = record { has_users = true; state = [] }

abbrev ann : RegisterRequest
ann = record { username = "ann"; password = "12345678"; display_name = codes " Ann " }

abbrev pub ann_user : User
ann_user = record (new_user 0 "ann" "12345678" (codes "Ann")) { id = "u1" }

register_login_auth_example :
    let w' = (register_handler people tokens settings 0 (some ann) nobody).1 in
    (login_handler people tokens settings 0
        (some (record { username = "ann"; password = "12345678" }))
        w'
      ≡ (
        some (set_auth_cookie settings "tann" 86400),
        answer 200 (record { token = "tann"; user = ann_user }),
      ))
    × (jwt_auth people tokens settings 100 "/rooms" (with_bearer "tann") "" w' ≡ passes "ann")
    × (jwt_auth people tokens settings 100 "/rooms" "" "tann" w' ≡ passes "ann")
unfolding register_handler woongkie_talkie.Auth.is_username woongkie_talkie.Auth.matches_username
    woongkie_talkie.Users.create_user woongkie_talkie.Texts.escape_string
    woongkie_talkie.Texts.trim_space woongkie_talkie.Texts.is_space find_user_by_username
    woongkie_talkie.Auth.needs_no_token
register_login_auth_example =
    register_login_auth people tokens settings 0 0 100 ann "/rooms" "tann" nobody
      (some (set_auth_cookie settings "tann" 86400)) (record { token = "tann"; user = ann_user })
      refl refl
      (answered
        (find_user_by_username people "ann"
          (register_handler people tokens settings 0 (some ann) nobody).1)
        ann_user refl)
      refl (omega arith) refl

abbrev pub home : World people
home = record { has_users = true; state = ann_user ∷ [] }

blocked_stays_out_example :
    let w' = (block_user people "ann" home).1 in
    (is_refused (
        login_handler people tokens settings 5
          (some (record { username = "ann"; password = "12345678" }))
          w')
      ≡ true)
    × (is_refused (refresh_handler people tokens settings 89000 "tann" "" w') ≡ true)
    × (is_refused (refresh_handler people tokens settings 89000 "" (with_bearer "tann") w') ≡ true)
    × (((find_user_by_username people "ann" w' ≡ err (database failure))
          × (jwt_auth people tokens settings 5 "/rooms" (with_bearer "tann") "" w' ≡ passes "ann")
          × (jwt_auth people tokens settings 5 "/rooms" "" "tann" w' ≡ passes "ann"))
        ⊎ ((jwt_auth people tokens settings 5 "/rooms" (with_bearer "tann") "" w' ≡ denied 403)
            × (jwt_auth people tokens settings 5 "/rooms" "" "tann" w' ≡ denied 403)))
unfolding block_user woongkie_talkie.Auth.needs_no_token
blocked_stays_out_example =
    blocked_stays_out people tokens settings 5 89000 "ann" "12345678" "/rooms" "" "tann" "tann"
      (made_at 0 "ann") (made_at 0 "ann") home ann_user refl refl refl (λ e. cc e) (λ e. cc e) refl
      refl (λ e. cc e) refl refl refl

-- A token of time 0, refreshed in the last second in which that is possible.
refresh_window_example :
    refresh_handler people tokens settings 90000 "tann" "" home
    ≡ (some (set_auth_cookie settings "uann" 86400), answer 200 "uann")
unfolding find_user_by_username woongkie_talkie.Auth.Handlers.generate_token
refresh_window_example =
    refresh_window people tokens settings 0 90000 "ann" "tann" "uann" "" home ann_user refl refl
      refl (answered (find_user_by_username people "ann" home) ann_user refl) (λ e. cc e) refl refl
