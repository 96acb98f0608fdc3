-- ===== src/Users.antt =====
-- pkg/mongoDB/user.go: the users, over their collection. bcrypt is a parameter; of a password, it
-- is documented that the hash made from it matches it.
pub mod Laws
use woongkie_talkie.Base.{
  ℕ, ◌-◌, ◌*◌, String, Bool, true, false, List, [], ◌∷◌, Option, none, some, if◌then◌else◌, ◌==◌,
  Result, ok, err, ◌≡◌,
}
use woongkie_talkie.Chat.{Text}
use woongkie_talkie.Texts.{trim_space, escape_string}
use woongkie_talkie.Mongo.{Fault, Schema, Collection, descending}

pub record User : Type 0 where
  pub id : String
  pub username : String
  pub password_hash : String
  pub display_name : Text
  pub avatar_url : String
  pub status_message : Text
  pub role : String
  pub public_key : String
  pub created_at : ℕ

-- The index of InitUserCollection: the name of a user is unique.
abbrev pub user_schema : Schema User
user_schema = record {
  id_of = λ u. u.id;
  with_id = λ i u. record u { id = i };
  conflicts = λ u v. v.username == u.username;
}

pub record Accounts : Type 1 where
  pub users : Collection User user_schema
  -- bcrypt.GenerateFromPassword and CompareHashAndPassword
  pub generate : String → Option String
  pub compare : String → String → Bool
  pub compare_lem :
      (password hash : String) → generate password ≡ some hash → compare hash password ≡ true

pub data UserError : Type 0 where
  -- ErrNotFound, for a collection that is nil
  no_collection : UserError
  hash_failed : UserError
  database : Fault → UserError

abbrev lift : {A : Type 0} → Result Fault A → Result UserError A
lift (ok a) = ok a
lift (err f) = err (database f)

abbrev pub named : String → User → Bool
named username u = u.username == username

-- The document that CreateUser inserts, and returns with its id.
abbrev pub new_user : ℕ → String → String → Text → User
new_user now username hash display_name = record {
  id = "";
  username = username;
  password_hash = hash;
  display_name = display_name;
  avatar_url = "";
  status_message = [];
  role = "user";
  public_key = "";
  created_at = now;
}

module _ (accounts : Accounts) where
  open accounts use {users, generate, compare}

  -- Was the collection initialised, and what is in it? Only find_user_by_username may be called
  -- before.
  pub record World : Type 0 where
    pub has_users : Bool
    pub state : users.State

  unfoldable pub create_user : ℕ → String → String → Text → World → Result UserError User × World
  create_user now username password display_name w = elim (generate password) [
    | none ↦ (err hash_failed, w)
    | some hash ↦
        let user = new_user now username hash display_name in
        let (reply, state') = users.insert_one user w.state in
        (
          elim reply [ err f ↦ err (database f) | ok i ↦ ok (record user { id = i }) ],
          record w { state = state' },
        )
  ]

  unfoldable pub find_user_by_username : String → World → Result UserError User
  find_user_by_username username w =
      if w.has_users then lift (users.find_one (named username) w.state) else err no_collection

  unfoldable pub check_password : User → String → Bool
  check_password user password = compare user.password_hash password

  -- An update of one user, for its error alone.
  abbrev update_user : String → (User → User) → World → Result UserError (Unit {0}) × World
  update_user username f w =
      let (reply, state') = users.update_one (named username) f w.state in
      (elim reply [ err e ↦ err (database e) | ok n ↦ ok tt ], record w { state = state' })

  unfoldable pub update_user_public_key :
      String → String → World → Result UserError (Unit {0}) × World
  update_user_public_key username key w =
      update_user username (λ u. record u { public_key = key }) w

  unfoldable pub get_user_public_key : String → World → Result UserError String
  get_user_public_key username w = elim (find_user_by_username username w) [
    | err e ↦ err e
    | ok user ↦ ok user.public_key
  ]

  unfoldable pub update_user_profile :
      String → Text → Text → String → World → Result UserError User × World
  update_user_profile username display_name status_message avatar_url w =
      let (reply, state') =
        users.find_one_and_update (named username)
          (λ u. record u {
            display_name = escape_string (trim_space display_name);
            status_message = escape_string (trim_space status_message);
            avatar_url = avatar_url;
          })
          w.state in
      (lift reply, record w { state = state' })

  unfoldable pub set_user_role : String → String → World → Result UserError (Unit {0}) × World
  set_user_role username role w = update_user username (λ u. record u { role = role }) w

  unfoldable pub block_user : String → World → Result UserError (Unit {0}) × World
  unfolding set_user_role
  block_user username w = set_user_role username "blocked" w

  unfoldable pub unblock_user : String → World → Result UserError (Unit {0}) × World
  unfolding set_user_role
  unblock_user username w = set_user_role username "user" w

  -- The users of a page, the newest first, and how many there are. `page` is 1 or more.
  unfoldable pub find_all_users : ℕ → ℕ → World → Result UserError (List User × ℕ)
  find_all_users page limit w = elim (users.count (λ u. true) w.state) [
    | err f ↦ err (database f)
    | ok total ↦
        elim (users.find_slice (λ u. u.created_at) descending ((page - 1) * limit) limit w.state) [
          | err f ↦ err (database f)
          | ok found ↦ ok (found, total)
        ]
  ]

  unfoldable pub count_users : World → Result UserError ℕ
  count_users w = lift (users.count (λ u. true) w.state)
