-- ===== src/Uploads/Handlers.antt =====
-- server/handler/upload.go and pkg/mongoDB/file.go: the handlers, the writing of a file and its
-- record.
use Prim.Native.String
use text.Mathlib.Text.{starts_with}
use woongkie_talkie.Base.{
  ℕ, String, Bool, not, [], ◌∷◌, Option, none, some, if◌then◌else◌, ◌==◌, any, Result, ok, err,
}
use woongkie_talkie.Chat.{ChatMessage, chat_message, codes}
use woongkie_talkie.Rooms.{FileMetadata, Database, World, Error, invalid_id, database, lift}
use woongkie_talkie.Rooms.Handlers.{Response, answer, refusal}
use woongkie_talkie.Messages.Handlers.{require_room_member}
use woongkie_talkie.Uploads.{
  Platform, Disk, Header, sanitize_filename, is_refused_host, Checked, check_file, upload_dir,
}

module _ (disk : Disk) where
  -- os.Remove(savePath), and the answer.
  abbrev give_up : String → String → disk.State → Result (ℕ × String) (Unit {0}) × disk.State
  give_up path text s = (err (500, text), (disk.remove path s).1)

  -- io.Copy into the new file.
  unfoldable pub copy_file : String → disk.State → Result (ℕ × String) (Unit {0}) × disk.State
  copy_file path s =
      let (copied, s') = disk.copy path s in
      if not copied then give_up path "파일 저장에 실패했습니다" s' else (ok tt, s')

  -- The bytes that were read before are written first, where the file cannot seek.
  unfoldable pub fill_file :
      String → Bool → disk.State → Result (ℕ × String) (Unit {0}) × disk.State
  unfolding copy_file
  fill_file path is_seeker s =
      if is_seeker
      then copy_file path s
      else (let (written, s') = disk.copy path s in
          if not written then give_up path "파일 저장에 실패했습니다" s' else copy_file path s')

  -- The file is written into a directory.
  unfoldable pub save_file :
      String → String → Bool → disk.State → Result (ℕ × String) (Unit {0}) × disk.State
  unfolding fill_file
  save_file dir path is_seeker s =
      let (made, s1) = disk.mkdir_all dir s in
      if not made
      then (err (500, "디렉토리 생성에 실패했습니다"), s1)
      else (let (created, s2) = disk.create path s1 in
          if not created then (err (500, "파일 저장에 실패했습니다"), s2) else fill_file path is_seeker s2)

module _ (db : Database) where
  unfoldable pub insert_file_metadata :
      ℕ → FileMetadata → World db → Result Error FileMetadata × World db
  insert_file_metadata now meta w =
      let made : FileMetadata = record meta { created_at = now } in
      let (reply, files') = db.files.insert_with_id made w.files in
      (
        elim reply [ err f ↦ err (database f) | ok id ↦ ok (record made { id = id }) ],
        record w { files = files' },
      )

  unfoldable pub find_file_by_id : String → World db → Result Error FileMetadata
  find_file_by_id file_id w = elim (db.from_hex file_id) [
    | none ↦ err invalid_id
    | some oid ↦ lift (db.files.find_one (λ f. f.id == oid) w.files)
  ]

-- What an upload leaves: the answer, the message for the hub of the room, the database and the disk.
pub record Uploaded (db : Database) (disk : Disk) : Type 0 where
  pub response : Response FileMetadata
  pub message : Option ChatMessage
  pub world : World db
  pub state : disk.State

module _ (platform : Platform) (db : Database) (disk : Disk) where
  open platform use {clean, join, abs, Content}

  abbrev refuse : ℕ × String → World db → disk.State → Uploaded db disk
  refuse (status, text) w s = record {
    response = refusal status text;
    message = none;
    world = w;
    state = s;
  }

  -- The record of the file; on an error the file is removed.
  unfoldable pub record_file : ℕ → FileMetadata → Bool → World db → disk.State → Uploaded db disk
  record_file now meta has_hub w s =
      let (reply, w') = insert_file_metadata db now meta w in
      elim reply [
        | err e ↦ refuse (500, "메타데이터 저장에 실패했습니다") w' (disk.remove meta.path s).1
        | ok saved ↦ record {
          response = answer 201 saved;
          message =
              if has_hub
              then some (chat_message "MSG_FILE" saved.uploader saved.room_id (codes saved.url))
              else none;
          world = w';
          state = s;
        }
      ]

  -- The record that UploadFileHandler makes.
  abbrev pub metadata_of : Checked platform → String → ℕ → String → String → String → FileMetadata
  metadata_of file path size file_id room_id username = record {
    id = file_id;
    filename = file.original_name;
    mime_type = file.mime;
    size = size;
    path = path;
    url = String.◌++◌ "/files/" file_id;
    room_id = room_id;
    uploader = username;
    created_at = 0;
  }

  -- From a checked file on: `name` and `file_id` are the two new ids.
  unfoldable pub store_file :
      ℕ
      → String
      → String
      → Checked platform
      → Header Content
      → String
      → String
      → Bool
      → World db
      → disk.State
      → Uploaded db disk
  unfolding record_file save_file upload_dir
  store_file now room_id username file header name file_id has_hub w s =
      elim (upload_dir platform room_id) [
        | err e ↦ refuse e w s
        | ok dir ↦
            let path = join dir (String.◌++◌ name file.extension) in
            let (saved, s') = save_file disk dir path header.is_seeker s in
            elim saved [
              | err e ↦ refuse e w s'
              | ok u ↦
                  record_file now (metadata_of file path header.size file_id room_id username)
                    has_hub w s'
            ]
      ]

  unfoldable pub upload_file_handler :
      ℕ
      → String
      → String
      → String
      → Option (Header Content)
      → String
      → String
      → Bool
      → World db
      → disk.State
      → Uploaded db disk
  unfolding store_file require_room_member is_refused_host check_file
  upload_file_handler now room_id username host form name file_id has_hub w s =
      elim (require_room_member db room_id username w) [
        | some e ↦ refuse e w s
        | none ↦
            if username == ""
            then refuse (401, "인증이 필요합니다") w s
            else if is_refused_host platform host
            then refuse (403, "허용되지 않는 호스트입니다") w s
            else elim form [
              | none ↦ refuse (400, "파일을 읽을 수 없습니다") w s
              | some header ↦ elim (check_file platform header) [
                | err e ↦ refuse e w s
                | ok file ↦ store_file now room_id username file header name file_id has_hub w s
              ]
            ]
      ]

  -- What ServeFileHandler sends: the type, the name of an attachment, if it is one, and the path.
  unfoldable pub serve_file_handler : String → World db → Response (String × Option String × String)
  unfolding find_file_by_id sanitize_filename
  serve_file_handler file_id w = elim (find_file_by_id db file_id w) [
    | err e ↦ refusal 404 "파일을 찾을 수 없습니다"
    | ok meta ↦
        let uploads : String = elim (abs "uploads") [ none ↦ "" | some p ↦ p ] in
        let path = clean meta.path in
        if not (starts_with path uploads)
        then refusal 403 "접근이 거부되었습니다"
        else answer 200 (
          meta.mime_type,
          if any (λ t. t == meta.mime_type)
                ("image/jpeg" ∷ "image/png" ∷ "image/gif" ∷ "image/webp" ∷ [])
              then none
              else some (sanitize_filename platform meta.filename),
          path,
        )
  ]
