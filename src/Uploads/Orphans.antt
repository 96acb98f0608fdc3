-- ===== src/Uploads/Orphans.antt =====
-- server/handler/upload.go: what an upload leaves on disk and in the database, whatever fails.
use Prim.Native.String
use woongkie_talkie.Base.{
  ℕ, ◌≡◌, ◌⊎◌, inl, inr, refl, sym, subst, ◌∙◌, String, Bool, true, false, List, [], ◌∷◌, ◌++◌,
  Option, none, if◌then◌else◌, ◌==◌, Result, ok, err, Bool-cases, Option-cases, Result-cases,
  eq_iff,
}
use woongkie_talkie.Rooms.{FileMetadata, Database, World}
use woongkie_talkie.Rooms.Handlers.{answer, refusal}
use woongkie_talkie.Messages.Handlers.{require_room_member}
use woongkie_talkie.Uploads.{
  Platform, Disk, Header, Checked, check_file, upload_dir, is_refused_host,
}
use woongkie_talkie.Uploads.Handlers.{
  Uploaded, copy_file, fill_file, save_file, insert_file_metadata, record_file, store_file,
  upload_file_handler, metadata_of,
}

module _ (disk : Disk) (removes : (p : String) (s : disk.State) → (disk.remove p s).0 ≡ true) where
  -- A file that was given up is gone, and with it all that was done.
  removed :
      (path q : String) (s0 s : disk.State)
      → disk.holds s0 path ≡ false
      → disk.holds s q ≡ (if path == q then true else disk.holds s0 q)
      → disk.holds (disk.remove path s).1 q ≡ disk.holds s0 q
  removed path q s0 s new there = disk.remove_lem path q s ∙ elim (Bool-cases (path == q)) [
    | inl same ↦
        let absent : disk.holds s0 q ≡ false =
          subst (λ x. disk.holds s0 x ≡ false) ((eq_iff path q).0 same) new in
        rw (removes path s, same) (sym absent)
    | inr other ↦ rw (removes path s, other) (there ∙ rw other refl)
  ]

  -- What a saved file leaves of a path.
  abbrev Saved : String → String → disk.State → Result (ℕ × String) (Unit {0}) × disk.State → Type 0
  Saved path q s0 (ok u, s) = disk.holds s q ≡ (if path == q then true else disk.holds s0 q)
  Saved path q s0 (err e, s) = disk.holds s q ≡ disk.holds s0 q

  -- The new file is there, and the others are as they were.
  abbrev HasNew : String → String → disk.State → disk.State → Type 0
  HasNew path q s0 s = disk.holds s q ≡ (if path == q then true else disk.holds s0 q)

  copy_file-Saved :
      (path q : String) (s0 s : disk.State)
      → disk.holds s0 path ≡ false
      → HasNew path q s0 s
      → Saved path q s0 (copy_file disk path s)
  unfolding copy_file
  copy_file-Saved path q s0 s new there =
      let kept = disk.copy_lem path q s ∙ there in
      elim (Bool-cases (disk.copy path s).0) [
        | inl copied ↦ rw (copy_file, copied) kept
        | inr failed ↦ rw (copy_file, failed) (removed path q s0 (disk.copy path s).1 new kept)
      ]

  fill_file-Saved :
      (path q : String) (is_seeker : Bool) (s0 s : disk.State)
      → disk.holds s0 path ≡ false
      → HasNew path q s0 s
      → Saved path q s0 (fill_file disk path is_seeker s)
  unfolding fill_file
  fill_file-Saved path q true s0 s new there = copy_file-Saved path q s0 s new there
  fill_file-Saved path q false s0 s new there =
      let kept = disk.copy_lem path q s ∙ there in
      elim (Bool-cases (disk.copy path s).0) [
        | inl written ↦
            rw (fill_file, written) (copy_file-Saved path q s0 (disk.copy path s).1 new kept)
        | inr failed ↦ rw (fill_file, failed) (removed path q s0 (disk.copy path s).1 new kept)
      ]

  save_file-Saved :
      (dir path q : String) (is_seeker : Bool) (s : disk.State)
      → disk.holds s path ≡ false
      → Saved path q s (save_file disk dir path is_seeker s)
  unfolding save_file
  save_file-Saved dir path q is_seeker s new =
      let s1 = (disk.mkdir_all dir s).1 in
      let still = disk.mkdir_all_lem dir q s in
      let made = disk.create_lem path q s1 in
      elim (Bool-cases (disk.mkdir_all dir s).0) [
        | inr failed ↦ rw (save_file, failed) still
        | inl ready ↦ elim (Bool-cases (disk.create path s1).0) [
          | inr failed ↦ rw (save_file, ready, failed) (made ∙ rw failed still)
          | inl created ↦
              rw (save_file, ready, created)
                (fill_file-Saved path q is_seeker s (disk.create path s1).1 new
                  (made ∙ rw (created, still) refl))
        ]
      ]

  Saved-ok :
      (path q : String) (s0 : disk.State) (out : Result (ℕ × String) (Unit {0}) × disk.State)
      (u : Unit {0})
      → out.0 ≡ ok u
      → Saved path q s0 out
      → HasNew path q s0 out.1
  Saved-ok path q s0 (ok v, s) u e kept = kept
  Saved-ok path q s0 (err f, s) u e kept = absurd (cc e)

  Saved-err :
      (path q : String) (s0 : disk.State) (out : Result (ℕ × String) (Unit {0}) × disk.State)
      (f : ℕ × String)
      → out.0 ≡ err f
      → Saved path q s0 out
      → disk.holds out.1 q ≡ disk.holds s0 q
  Saved-err path q s0 (ok v, s) f e kept = absurd (cc e)
  Saved-err path q s0 (err g, s) f e kept = kept

  module _ (db : Database) where
    abbrev pub files_of : World db → List FileMetadata
    files_of w = db.files.docs w.files

    -- An upload that succeeds leaves the file on disk and its record in the database; one that does
    -- not leaves no file.
    pub data IsComplete (w : World db) (s : disk.State) (r : Uploaded db disk) : Type 0 where
      stored :
          (saved : FileMetadata)
          → r.response ≡ answer 201 saved
          → files_of r.world ≡ files_of w ++ saved ∷ []
          → ((q : String)
              → disk.holds r.state q ≡ (if saved.path == q then true else disk.holds s q))
          → IsComplete w s r
      refused :
          (status : ℕ) (text : String)
          → r.response ≡ refusal status text
          → r.message ≡ none
          → (files_of r.world ≡ files_of w)
            ⊎ ((meta : FileMetadata) × (files_of r.world ≡ files_of w ++ meta ∷ []))
          → ((q : String) → disk.holds r.state q ≡ disk.holds s q)
          → IsComplete w s r

    record_file-IsComplete :
        (platform : Platform) (now : ℕ) (meta : FileMetadata) (has_hub : Bool) (w : World db)
        (s0 s : disk.State)
        → disk.holds s0 meta.path ≡ false
        → ((q : String) → HasNew meta.path q s0 s)
        → IsComplete w s0 (record_file platform db disk now meta has_hub w s)
    unfolding record_file insert_file_metadata
    record_file-IsComplete platform now meta has_hub w s0 s new there =
        let made : FileMetadata = record meta { created_at = now } in
        elim (db.files.insert_with_id_lem made w.files) [
          | inl (answered, done) ↦
              rw (record_file, insert_file_metadata, answered) (stored made refl done there)
          | inr (f, failed, either) ↦
              rw (record_file, insert_file_metadata, failed)
                (refused 500 "메타데이터 저장에 실패했습니다" refl refl
                  (elim either [ inl same ↦ inl same | inr more ↦ inr (made, more) ])
                  (λ q. removed meta.path q s0 s new (there q)))
        ]

    -- A refusal that touched nothing.
    untouched :
        (status : ℕ) (text : String) (w : World db) (s : disk.State)
        → IsComplete w s
            (record { response = refusal status text; message = none; world = w; state = s })
    untouched status text w s = refused status text refl refl (inl refl) (λ q. refl)

    store_file-IsComplete :
        (platform : Platform) (now : ℕ) (room_id username : String) (file : Checked platform)
        (header : Header platform.Content) (name file_id : String) (has_hub : Bool) (w : World db)
        (s : disk.State)
        → ((dir : String)
            → disk.holds s (platform.join dir (String.◌++◌ name file.extension)) ≡ false)
        → IsComplete w s
            (store_file platform db disk now room_id username file header name file_id has_hub w s)
    unfolding store_file
    store_file-IsComplete platform now room_id username file header name file_id has_hub w s new =
        elim (Result-cases (upload_dir platform room_id)) [
          | inr ((status, text), bad) ↦ rw (store_file, bad) (untouched status text w s)
          | inl (dir, good) ↦
              let path = platform.join dir (String.◌++◌ name file.extension) in
              let out = save_file disk dir path header.is_seeker s in
              let all : (q : String) → Saved path q s out =
                λ q. save_file-Saved dir path q header.is_seeker s (new dir) in
              elim (Result-cases out.0) [
                | inr ((status, text), failed) ↦
                    rw (store_file, good, failed)
                      (refused status text refl refl (inl refl)
                        (λ q. Saved-err path q s out (status, text) failed (all q)))
                | inl (u, saved) ↦
                    rw (store_file, good, saved)
                      (record_file-IsComplete platform now
                        (metadata_of platform db disk file path header.size file_id room_id
                          username)
                        has_hub w s out.1 (new dir) (λ q. Saved-ok path q s out u saved (all q)))
              ]
        ]

    -- Whatever fails in an upload but the removal of a file: if it answers with 201, the new file is
    -- on disk, at the path of its record, which is in the database; otherwise it is refused, no file
    -- is left of it, nothing goes to the hub, and the database has no new record, or one that it
    -- reported as failed. No other file is touched. The name of the new file must not be taken.
    pub upload-IsComplete :
        (platform : Platform) (now : ℕ) (room_id username host : String)
        (form : Option (Header platform.Content)) (name file_id : String) (has_hub : Bool)
        (w : World db) (s : disk.State)
        → ((dir extension : String)
            → disk.holds s (platform.join dir (String.◌++◌ name extension)) ≡ false)
        → IsComplete w s (
            upload_file_handler platform db disk now room_id username host form name file_id has_hub
              w s)
    unfolding upload_file_handler
    upload-IsComplete platform now room_id username host form name file_id has_hub w s new =
        elim (Option-cases (require_room_member db room_id username w)) [
          | inr ((status, text), out) ↦ rw (upload_file_handler, out) (untouched status text w s)
          | inl member ↦ elim (Bool-cases (username == "")) [
            | inl nameless ↦ rw (upload_file_handler, member, nameless) (untouched 401 _ w s)
            | inr name_given ↦ elim (Bool-cases (is_refused_host platform host)) [
              | inl private ↦
                  rw (upload_file_handler, member, name_given, private) (untouched 403 _ w s)
              | inr public ↦ elim (Option-cases form) [
                | inl nothing ↦
                    rw (upload_file_handler, member, name_given, public, nothing)
                      (untouched 400 _ w s)
                | inr (header, there) ↦ elim (Result-cases (check_file platform header)) [
                  | inr ((status, text), bad) ↦
                      rw (upload_file_handler, member, name_given, public, there, bad)
                        (untouched status text w s)
                  | inl (file, good) ↦
                      rw (upload_file_handler, member, name_given, public, there, good)
                        (store_file-IsComplete platform now room_id username file header name
                          file_id has_hub w s (λ dir. new dir file.extension))
                ]
              ]
            ]
          ]
        ]
