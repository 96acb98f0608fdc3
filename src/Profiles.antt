-- ===== src/Profiles.antt =====
-- server/handler/crypto.go and server/handler/profile.go: the public keys of users, which only the
-- members of a room get together, and their profiles. encoding/json and net/url are parameters. What
-- Bind reads comes as an option.
pub mod RoomKeys
pub mod Tests
use Prim.Native.String.{len}
use text.Mathlib.Text.{starts_with}
use woongkie_talkie.Base.{
  ℕ, String, Bool, true, false, not, ◌&&◌, ◌||◌, List, [], ◌∷◌, Option, none, some, ltb,
  if◌then◌else◌, ◌==◌, any, length, Assoc, insert, Result, ok, err,
}
use woongkie_talkie.Chat.{Text, codes}
use woongkie_talkie.Rooms
use woongkie_talkie.Rooms.{Database, find_room_by_id, is_member}
use woongkie_talkie.Rooms.Handlers.{Response, answer, refusal}
use woongkie_talkie.Users.{
  User, Accounts, World, UserError, database, find_user_by_username, update_user_public_key,
  get_user_public_key, update_user_profile,
}

abbrev pub blocked_ip_prefixes : List String
blocked_ip_prefixes =
    "10." ∷ "172.16." ∷ "172.17." ∷ "172.18." ∷ "172.19." ∷ "172.20." ∷ "172.21." ∷ "172.22."
    ∷ "172.23." ∷ "172.24." ∷ "172.25." ∷ "172.26." ∷ "172.27." ∷ "172.28." ∷ "172.29." ∷ "172.30."
    ∷ "172.31." ∷ "192.168." ∷ "127." ∷ "169.254." ∷ "::1" ∷ "fc00:" ∷ "fd" ∷ []

-- `parse_url` gives the scheme and the host name.
unfoldable pub is_valid_avatar_url : (String → Option (String × String)) → String → Bool
is_valid_avatar_url parse_url raw_url = if raw_url == "" then true else elim (parse_url raw_url) [
  | none ↦ false
  | some (scheme, host) ↦
      scheme == "https" && not (any (λ prefix. starts_with host prefix) blocked_ip_prefixes)
]

-- `kty_of` is the field kty of a JSON object, where it is a text.
unfoldable pub validate_jwk : (String → Option String) → String → Bool
validate_jwk kty_of key = elim (kty_of key) [ none ↦ false | some kty ↦ not (kty == "") ]

pub record UpdateProfileRequest : Type 0 where
  pub display_name : Text
  pub status_message : Text
  pub avatar_url : String

-- The loop over the users that were found.
unfoldable pub collect_keys : List User → Assoc String → Assoc String
collect_keys [] keys = keys
collect_keys (u ∷ us) keys =
    collect_keys us (if u.public_key == "" then keys else insert u.username u.public_key keys)

module _ (accounts : Accounts) where
  -- pkg/mongoDB/user.go
  unfoldable pub get_batch_public_keys :
      List String → World accounts → Result UserError (Assoc String)
  unfolding collect_keys
  get_batch_public_keys [] w = ok []
  get_batch_public_keys (n ∷ names) w =
      elim (accounts.users.find_all (λ u. any (λ m. m == u.username) (n ∷ names)) w.state) [
        | err f ↦ err (database f)
        | ok users ↦ ok (collect_keys users [])
      ]

  unfoldable pub upload_public_key_handler :
      (String → Option String)
      → String
      → Option String
      → World accounts
      → Response String × World accounts
  unfolding validate_jwk
  upload_public_key_handler kty_of username req w =
      if username == "" then (refusal 401 "인증이 필요합니다", w) else elim req [
        | none ↦ (refusal 400 "잘못된 요청입니다", w)
        | some key ↦
            if key == ""
            then (refusal 400 "공개 키가 필요합니다", w)
            else if ltb 4096 (len key)
            then (refusal 400 "공개 키가 너무 큽니다", w)
            else if not (validate_jwk kty_of key)
            then (refusal 400 "유효하지 않은 JWK 형식입니다", w)
            else (let (reply, w') = update_user_public_key accounts username key w in
                (
                  elim reply [
                    | err e ↦ refusal 500 "공개 키 저장에 실패했습니다"
                    | ok u ↦ answer 200 "공개 키가 저장되었습니다"
                  ],
                  w',
                ))
      ]

  unfoldable pub get_public_key_handler : String → World accounts → Response (String × String)
  get_public_key_handler username w =
      if username == ""
      then refusal 400 "사용자 이름이 필요합니다"
      else elim (get_user_public_key accounts username w) [
        | err e ↦ refusal 404 "사용자를 찾을 수 없습니다"
        | ok key ↦ answer 200 (username, key)
      ]

  unfoldable pub get_profile_handler : String → World accounts → Response User
  get_profile_handler username w = elim (find_user_by_username accounts username w) [
    | err e ↦ refusal 404 "사용자를 찾을 수 없습니다"
    | ok user ↦ answer 200 user
  ]

  unfoldable pub update_profile_handler :
      (String → Option (String × String))
      → String
      → Option UpdateProfileRequest
      → World accounts
      → Response User × World accounts
  unfolding is_valid_avatar_url
  update_profile_handler parse_url username req w =
      if username == "" then (refusal 401 "인증이 필요합니다", w) else elim req [
        | none ↦ (refusal 400 "잘못된 요청입니다", w)
        | some r ↦
            if ltb 30 (length r.display_name)
            then (refusal 400 "표시 이름은 30자 이하이어야 합니다", w)
            else if ltb 100 (length r.status_message)
            then (refusal 400 "상태 메시지는 100자 이하이어야 합니다", w)
            else if not (is_valid_avatar_url parse_url r.avatar_url)
            then (refusal 400 "아바타 URL은 HTTPS를 사용해야 하며 내부 IP를 가리킬 수 없습니다", w)
            else (let name : Text = elim r.display_name [ [] ↦ codes username | c ∷ s ↦ c ∷ s ] in
                let (reply, w') =
                  update_user_profile accounts username name r.status_message r.avatar_url w in
                (
                  elim reply [ err e ↦ refusal 500 "프로필 업데이트에 실패했습니다" | ok user ↦ answer 200 user ],
                  w',
                ))
      ]

  unfoldable pub get_room_keys_handler :
      (db : Database) → String → String → Rooms.World db → World accounts → Response (Assoc String)
  unfolding get_batch_public_keys
  get_room_keys_handler db room_id username rooms w =
      if room_id == ""
      then refusal 400 "방 ID가 필요합니다"
      else if username == ""
      then refusal 401 "인증이 필요합니다"
      else elim (find_room_by_id db room_id rooms) [
        | err e ↦ refusal 404 "채팅방을 찾을 수 없습니다"
        | ok room ↦
            if not (is_member username room)
            then refusal 403 "채팅방 멤버만 접근할 수 있습니다"
            else elim (get_batch_public_keys room.members w) [
              | err e ↦ refusal 500 "공개 키 조회에 실패했습니다"
              | ok keys ↦ answer 200 keys
            ]
      ]
