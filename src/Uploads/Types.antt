-- ===== src/Uploads/Types.antt =====
-- server/handler/upload.go: the types of files that can be uploaded.
use woongkie_talkie.Base.{
  ℕ, ◌≡◌, ◌≢◌, inl, inr, refl, ap, ◌∙◌, String, Bool, true, false, none, some, ◌==◌, ok, arith,
  Bool-cases, Option-cases, Result-cases, eq-false,
}
use woongkie_talkie.Rooms.{Database, World}
use woongkie_talkie.Rooms.Handlers.{refusal}
use woongkie_talkie.Messages.Handlers.{require_room_member}
use woongkie_talkie.Uploads.{
  Platform, Disk, Header, Checked, check_file, is_refused_host, is_allowed_mime, extensions_of,
  ext_matches_mime, sanitize_filename,
}
use woongkie_talkie.Uploads.Handlers.{upload_file_handler}

-- Only text/plain has the extension .txt.
txt_is_text : (mime : String) → mime ≢ "text/plain" → ext_matches_mime ".txt" mime ≡ false
unfolding ext_matches_mime extensions_of
txt_is_text mime other = ground (arith, eq-false mime "text/plain" other)

module _ (platform : Platform) where
  text_refused :
      (header : Header platform.Content) (file : Checked platform)
      → ((c : platform.Content) → platform.detect_content_type c ≢ "text/plain")
      → platform.to_lower (platform.ext (sanitize_filename platform header.filename)) ≡ ".txt"
      → check_file platform header ≢ ok file
  unfolding check_file
  text_refused header file sniffed txt e = elim (Option-cases header.head) [
    | inl unread ↦ absurd (ground (arith, e, unread))
    | inr (bytes, read) ↦
        let mime = platform.detect_content_type bytes in
        let extension =
          platform.to_lower (platform.ext (sanitize_filename platform header.filename)) in
        let no_match : ext_matches_mime extension mime ≡ false =
          ap (λ x. ext_matches_mime x mime) txt ∙ txt_is_text mime (sniffed bytes) in
        absurd (ground (arith, e, read, no_match))
  ]

  -- http.DetectContentType names a charset in the type of every text. Then a file whose extension is
  -- .txt is never uploaded: whoever sends it to whichever room is refused, and nothing changes,
  -- although text/plain is among the types that are allowed.
  pub text_never_uploaded :
      (db : Database) (disk : Disk) (now : ℕ) (room_id username host : String)
      (header : Header platform.Content) (name file_id : String) (has_hub : Bool) (w : World db)
      (s : disk.State)
      → ((c : platform.Content) → platform.detect_content_type c ≢ "text/plain")
      → platform.to_lower (platform.ext (sanitize_filename platform header.filename)) ≡ ".txt"
      → let r =
          upload_file_handler platform db disk now room_id username host
            (some header)
            name
            file_id
            has_hub
            w
            s in
        ((status : ℕ) × (text : String) × (r.response ≡ refusal status text))
        × (r.message ≡ none)
        × (r.world ≡ w)
        × (r.state ≡ s)
        × (is_allowed_mime "text/plain" ≡ true)
  unfolding upload_file_handler is_allowed_mime
  text_never_uploaded db disk now room_id username host header name file_id has_hub w s sniffed
        txt =
      elim (Option-cases (require_room_member db room_id username w)) [
        | inr ((status, text), out) ↦
            rw (upload_file_handler, out) ((status, text, refl), refl, refl, refl, refl)
        | inl member ↦ elim (Bool-cases (username == "")) [
          | inl nameless ↦
              rw (upload_file_handler, member, nameless) ((401, _, refl), refl, refl, refl, refl)
          | inr given ↦ elim (Bool-cases (is_refused_host platform host)) [
            | inl private ↦
                rw (upload_file_handler, member, given, private)
                  ((403, _, refl), refl, refl, refl, refl)
            | inr public ↦ elim (Result-cases (check_file platform header)) [
              | inl (file, good) ↦ absurd (text_refused header file sniffed txt good)
              | inr ((status, text), bad) ↦
                  rw (upload_file_handler, member, given, public, bad)
                    ((status, text, refl), refl, refl, refl, refl)
            ]
          ]
        ]
      ]
