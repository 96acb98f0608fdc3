-- ===== src/Uploads.antt =====
-- server/handler/upload.go and pkg/mongoDB/file.go: files that users upload to rooms, on disk and with
-- a record in the database. Paths, hosts, the kind of a content and the disk are third-party code.
pub mod Handlers
pub mod Orphans
pub mod Types
pub mod Tests
use Prim.Native.Char.{code}
use Prim.Native.String
use text.Mathlib.Text.{starts_with}
use woongkie_talkie.Base.{
  ℕ, ◌≡◌, ◌⊎◌, String, Bool, true, false, not, ◌&&◌, ◌||◌, List, [], ◌∷◌, Option, none, some, leb,
  eqb, if◌then◌else◌, ◌==◌, any, Result, ok, err,
}
use woongkie_talkie.Chat.{ChatMessage, chat_message, codes}
use woongkie_talkie.Rooms.{Room, FileMetadata, Database, World, Error, invalid_id, database, lift}
use woongkie_talkie.Rooms.Handlers.{Response, answer, refusal}
use woongkie_talkie.Messages.Handlers.{require_room_member}

-- path/filepath, net and http.DetectContentType, as far as the code calls them. An error is none.
pub record Platform : Type 1 where
  pub Ip : Type 0
  pub Content : Type 0
  pub base : String → String
  pub ext : String → String
  pub to_lower : String → String
  pub contains : String → String → Bool
  pub clean : String → String
  pub join : String → String → String
  pub abs : String → Option String
  pub split_host : String → Option String
  pub parse_ip : String → Option Ip
  pub lookup_host : String → Option (List String)
  pub is_loopback : Ip → Bool
  pub is_link_local_unicast : Ip → Bool
  pub is_link_local_multicast : Ip → Bool
  pub in_cidr : String → Ip → Bool
  pub detect_content_type : Content → String

-- The disk: which paths hold a file. A call answers whether there was no error; a file is created
-- just if there was none, and is gone if there was none in its removal.
pub record Disk : Type 1 where
  pub State : Type 0
  pub holds : State → String → Bool
  pub mkdir_all : String → State → Bool × State
  pub create : String → State → Bool × State
  pub copy : String → State → Bool × State
  pub remove : String → State → Bool × State
  pub mkdir_all_lem : (p q : String) (s : State) → holds (mkdir_all p s).1 q ≡ holds s q
  pub create_lem :
      (p q : String) (s : State)
      → holds (create p s).1 q ≡ (if (create p s).0 && p == q then true else holds s q)
  pub copy_lem : (p q : String) (s : State) → holds (copy p s).1 q ≡ holds s q
  pub remove_lem :
      (p q : String) (s : State)
      → holds (remove p s).1 q ≡ (if (remove p s).0 && p == q then false else holds s q)

abbrev pub allowed_mime_types : List String
allowed_mime_types =
    "image/jpeg" ∷ "image/png" ∷ "image/gif" ∷ "image/webp" ∷ "application/pdf" ∷ "text/plain" ∷ []

unfoldable pub is_allowed_mime : String → Bool
is_allowed_mime mime = any (λ m. m == mime) allowed_mime_types

-- The entry of mimeToExtensions, or nothing.
unfoldable pub extensions_of : String → List String
extensions_of mime =
    if mime == "image/jpeg"
    then ".jpg" ∷ ".jpeg" ∷ []
    else if mime == "image/png"
    then ".png" ∷ []
    else if mime == "image/gif"
    then ".gif" ∷ []
    else if mime == "image/webp"
    then ".webp" ∷ []
    else if mime == "application/pdf"
    then ".pdf" ∷ []
    else if mime == "text/plain"
    then ".txt" ∷ []
    else []

unfoldable pub ext_matches_mime : String → String → Bool
ext_matches_mime ext mime = any (λ e. e == ext) (extensions_of mime)

-- A character that unsafeFilenameChars does not match.
abbrev pub is_safe_char : ℕ → Bool
is_safe_char c =
    (leb b'a' c && leb c b'z')
    || (leb b'A' c && leb c b'Z')
    || (leb b'0' c && leb c b'9')
    || eqb c b'_'
    || eqb c b'.'
    || eqb c b'-'

unfoldable pub replace_unsafe : String → String
replace_unsafe String.[] = ""
replace_unsafe (String.◌∷◌ c s) =
    let rest = replace_unsafe s in
    if is_safe_char (code c) then String.◌∷◌ c rest else String.◌++◌ "_" rest

-- A file of a form: what FormFile gives.
pub record Header (Content : Type 0) : Type 0 where
  pub filename : String
  pub size : ℕ
  -- its first 512 bytes, none where they cannot be read
  pub head : Option Content
  -- does the file implement io.Seeker?
  pub is_seeker : Bool

module _ (platform : Platform) where
  open platform use {
    Ip, Content, base, ext, to_lower, contains, clean, join, abs, split_host, parse_ip, lookup_host,
    is_loopback, is_link_local_unicast, is_link_local_multicast, in_cidr, detect_content_type,
  }

  unfoldable pub sanitize_filename : String → String
  unfolding replace_unsafe
  sanitize_filename name = replace_unsafe (base name)

  unfoldable pub is_private_ip : Ip → Bool
  is_private_ip ip =
      is_loopback ip
      || is_link_local_unicast ip
      || is_link_local_multicast ip
      || any (λ cidr. in_cidr cidr ip)
          ("10.0.0.0/8" ∷ "172.16.0.0/12" ∷ "192.168.0.0/16" ∷ "fc00::/7" ∷ "::1/128" ∷ [])

  abbrev is_private_text : String → Bool
  is_private_text addr = elim (parse_ip addr) [ none ↦ false | some ip ↦ is_private_ip ip ]

  -- Is the request's host refused?
  unfoldable pub is_refused_host : String → Bool
  unfolding is_private_ip
  is_refused_host host =
      if host == ""
      then false
      else (let host_only : String = elim (split_host host) [ none ↦ host | some h ↦ h ] in
          elim (parse_ip host_only) [
            | some ip ↦ is_private_ip ip
            | none ↦ elim (lookup_host host_only) [
              | none ↦ false
              | some addrs ↦ any is_private_text addrs
            ]
          ])

  -- A file that passed the checks: its name, extension and type.
  pub record Checked : Type 0 where
    pub original_name : String
    pub extension : String
    pub mime : String

  -- The checks of a file, from its first bytes on.
  unfoldable pub check_file : Header Content → Result (ℕ × String) Checked
  unfolding sanitize_filename is_allowed_mime ext_matches_mime
  check_file header = elim header.head [
    | none ↦ err (400, "파일을 읽을 수 없습니다")
    | some bytes ↦
        let mime = detect_content_type bytes in
        let original_name = sanitize_filename header.filename in
        let extension = to_lower (ext original_name) in
        if not (is_allowed_mime mime)
        then err (400, "허용되지 않는 파일 형식입니다")
        else if contains extension ".." || contains original_name ".."
        then err (400, "유효하지 않은 파일 이름입니다")
        else if not (ext_matches_mime extension mime)
        then err (400, "파일 확장자가 내용과 일치하지 않습니다")
        else ok (record { original_name = original_name; extension = extension; mime = mime })
  ]

  -- The directory of a room's files.
  unfoldable pub upload_dir : String → Result (ℕ × String) String
  upload_dir room_id = elim (abs (join "uploads" (clean room_id))) [
    | none ↦ err (500, "경로 처리에 실패했습니다")
    | some dir ↦
        let uploads : String = elim (abs "uploads") [ none ↦ "" | some p ↦ p ] in
        if starts_with dir uploads then ok dir else err (400, "유효하지 않은 방 ID입니다")
  ]
