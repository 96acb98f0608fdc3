-- ===== src/Uploads/Tests.antt =====
-- A disk and a platform in memory: the theorems at concrete inputs.
use Prim.Native.String
use woongkie_talkie.Base.{
  ◌≡◌, ℕ, refl, String, Bool, true, false, [], ◌∷◌, none, some, if◌then◌else◌, ◌==◌,
}
use woongkie_talkie.Rooms.{World}
use woongkie_talkie.Rooms.Handlers.{refusal}
use woongkie_talkie.Rooms.Tests.{db, general}
use woongkie_talkie.Uploads.{Platform, Disk, Header, is_allowed_mime}
use woongkie_talkie.Uploads.Handlers.{upload_file_handler}
use woongkie_talkie.Uploads.Orphans.{IsComplete, upload-IsComplete}
use woongkie_talkie.Uploads.Types.{text_never_uploaded}

abbrev ram : Disk
ram = record {
  State = String → Bool;
  holds = λ s q. s q;
  mkdir_all = λ p s. (true, s);
  create = λ p s. (true, λ q. if p == q then true else s q);
  copy = λ p s. (true, s);
  remove = λ p s. (true, λ q. if p == q then false else s q);
  mkdir_all_lem = λ p q s. refl;
  create_lem = λ p q s. refl;
  copy_lem = λ p q s. refl;
  remove_lem = λ p q s. refl;
}

-- All contents are of one type, and all names end in one extension.
abbrev simple : String → String → Platform
simple mime extension = record {
  Ip = Unit {0};
  Content = Unit {0};
  base = λ n. n;
  ext = λ n. extension;
  to_lower = λ n. n;
  contains = λ n m. false;
  clean = λ n. n;
  join = λ n m. String.◌++◌ n (String.◌++◌ "/" m);
  abs = λ n. some (String.◌++◌ "/" n);
  split_host = λ h. none;
  parse_ip = λ h. none;
  lookup_host = λ h. none;
  is_loopback = λ i. false;
  is_link_local_unicast = λ i. false;
  is_link_local_multicast = λ i. false;
  in_cidr = λ c i. false;
  detect_content_type = λ c. mime;
}

abbrev picture : Header (Unit {0})
picture = record { filename = "a.png"; size = 9; head = some tt; is_seeker = true }

abbrev lounge : World db
lounge = record { rooms = general ∷ []; chats = []; files = [] }

abbrev blank : String → Bool
blank q = false

upload-IsComplete_example :
    IsComplete ram
      (λ p s. refl)
      db
      lounge
      blank
      (upload_file_handler
        (simple "image/png" ".png")
        db
        ram
        5
        "11"
        "ann"
        "chat.example"
        (some picture)
        "77"
        "88"
        true
        lounge
        blank)
upload-IsComplete_example =
    upload-IsComplete ram (λ p s. refl) db (simple "image/png" ".png") 5 "11" "ann" "chat.example"
      (some picture) "77" "88" true lounge blank (λ dir extension. refl)

text_never_uploaded_example :
    let r =
      upload_file_handler
        (simple "text/plain; charset=utf-8" ".txt")
        db
        ram
        5
        "11"
        "ann"
        ""
        (some (record picture { filename = "a.txt" }))
        "77"
        "88"
        true
        lounge
        blank in
    ((status : ℕ) × (text : String) × (r.response ≡ refusal status text))
    × (r.message ≡ none)
    × (r.world ≡ lounge)
    × (r.state ≡ blank)
    × (is_allowed_mime "text/plain" ≡ true)
text_never_uploaded_example =
    text_never_uploaded (simple "text/plain; charset=utf-8" ".txt") db ram 5 "11" "ann" ""
      (record picture { filename = "a.txt" }) "77" "88" true lounge blank (λ c e. cc e) refl
