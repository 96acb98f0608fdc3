-- ===== src/Auth.antt =====
-- server/handler/auth.go and server/middleware/auth.go: accounts, tokens and who a request is from.
-- Times are in seconds. What Bind reads comes as an option, a header or a cookie that is missing as
-- "". Audit lines are left out.
pub mod Handlers
pub mod Tokens
pub mod SignIn
pub mod Blocking
pub mod Refresh
pub mod Tests
use Prim.Native.Char.{code}
use Prim.Native.String
use Prim.Native.String.{len, slice}
use text.Mathlib.Text.{starts_with}
use woongkie_talkie.Base.{
  ℕ, ◌+◌, ◌-◌, ◌*◌, String, Bool, true, false, not, ◌&&◌, ◌||◌, List, [], ◌∷◌, Option, none, some,
  ltb, leb, eqb, if◌then◌else◌, ◌==◌, Result, ok, err, ◌≡◌, ◌≢◌, any,
}
use woongkie_talkie.Chat.{Text, codes}
use woongkie_talkie.Texts.{trim_space, escape_string}
use woongkie_talkie.Mongo.{duplicate_key}
use woongkie_talkie.Rooms.Handlers.{Response, answer, refusal}
use woongkie_talkie.Users.{
  User, Accounts, World, UserError, database, create_user, find_user_by_username, check_password,
}

pub record RegisterRequest : Type 0 where
  pub username : String
  pub password : String
  pub display_name : Text

pub record LoginRequest : Type 0 where
  pub username : String
  pub password : String

pub record AuthResponse : Type 0 where
  pub token : String
  pub user : User

-- jwt.RegisteredClaims, as far as the code sets and reads them.
pub record Claims : Type 0 where
  pub subject : String
  pub expires_at : Option ℕ
  pub issued_at : ℕ
  pub issuer : String

abbrev pub is_expired : ℕ → Claims → Bool
is_expired now claims = elim claims.expires_at [ none ↦ false | some e ↦ leb e now ]

-- The library of tokens, with the program's secret: a signed token is read back, and is valid until
-- it expires.
pub record Jwt : Type 0 where
  pub sign : Claims → Option String
  -- jwt.ParseWithClaims, with and without WithoutClaimsValidation
  pub parse_unvalidated : String → Option Claims
  pub parse : ℕ → String → Option Claims
  pub sign_lem : (c : Claims) (t : String) → sign c ≡ some t → parse_unvalidated t ≡ some c
  pub sign_ne : (c : Claims) → sign c ≢ some ""
  pub parse_lem :
      (now : ℕ) (t : String) (c : Claims)
      → parse_unvalidated t ≡ some c
      → parse now t ≡ (if is_expired now c then none else some c)

pub data MaxAge : Type 0 where
  unset deleted : MaxAge
  seconds : ℕ → MaxAge

pub record Cookie : Type 0 where
  pub name : String
  pub value : String
  pub http_only : Bool
  pub secure : Bool
  pub path : String
  pub max_age : MaxAge

-- config.TLSConfig, config.JWTConfig.Expiry as time.ParseDuration reads it, not below 0, and
-- config.RefreshGracePeriod.
pub record Config : Type 0 where
  pub cert_file : String
  pub key_file : String
  pub expiry : Option ℕ

abbrev pub refresh_grace_period : ℕ
refresh_grace_period = 60 * 60

abbrev pub one_day : ℕ
one_day = 24 * 60 * 60

unfoldable pub is_secure_cookie : Config → Bool
is_secure_cookie c = not (c.cert_file == "") && not (c.key_file == "")

unfoldable pub set_auth_cookie : Config → String → ℕ → Cookie
unfolding is_secure_cookie
set_auth_cookie c token expiry = record {
  name = "auth_token";
  value = token;
  http_only = true;
  secure = is_secure_cookie c;
  path = "/";
  max_age = if ltb 0 expiry then seconds expiry else unset;
}

unfoldable pub clear_auth_cookie : Config → Cookie
unfolding is_secure_cookie
clear_auth_cookie c = record {
  name = "auth_token";
  value = "";
  http_only = true;
  secure = is_secure_cookie c;
  path = "/";
  max_age = deleted;
}

-- The expiry of the handlers: a day where it cannot be read or is 0.
abbrev pub cookie_expiry : Config → ℕ
cookie_expiry c = elim c.expiry [ none ↦ one_day | some e ↦ if eqb e 0 then one_day else e ]

abbrev pub token_expiry : Config → ℕ
token_expiry c = elim c.expiry [ none ↦ one_day | some e ↦ e ]

-- One character of usernameRegexp.
abbrev pub is_name_char : ℕ → Bool
is_name_char c =
    (leb b'a' c && leb c b'z')
    || (leb b'A' c && leb c b'Z')
    || (leb b'0' c && leb c b'9')
    || eqb c b'_'
    || eqb c b'-'

unfoldable pub matches_username : String → Bool
matches_username String.[] = true
matches_username (String.◌∷◌ c s) = let rest = matches_username s in is_name_char (code c) && rest

-- usernameRegexp.MatchString; a text of such characters has as many bytes as characters.
unfoldable pub is_username : String → Bool
is_username s = matches_username s && leb 3 (len s) && leb (len s) 30

-- The token after "Bearer ", or "".
unfoldable pub bearer : String → String
bearer header = if starts_with header "Bearer " then slice header 7 (len header) else ""

unfoldable pub needs_no_token : String → Bool
needs_no_token path =
    path == "/auth/register"
    || path == "/auth/login"
    || path == "/auth/refresh"
    || starts_with path "/view/"
    || path == "/login"
    || path == "/"
    || path == "/docs"
    || starts_with path "/docs/"
    || path == "/health"
    || path == "/ready"

-- What the middleware does with a request: it goes on without a name, or with one, or it is refused.
pub data Access : Type 0 where
  anonymous : Access
  passes : String → Access
  denied : ℕ → Access

-- The display name of a new user.
abbrev pub shown_name : RegisterRequest → Text
shown_name req =
    escape_string (trim_space (elim req.display_name [ [] ↦ codes req.username | c ∷ s ↦ c ∷ s ]))
