-- ===== src/Storage/Users.antt =====
-- Accounts: src/svc/internal/storage/users.go, the statements on table users. bcrypt is two arguments: `hash` is what GenerateFromPassword makes of a password with
-- the salt of the call, or none where it refuses the password, and `compare` is
-- CompareHashAndPassword.
pub mod Created
pub mod Passwords
use dcalcon.Base.{
  ℕ, ◌+◌, Bool, true, false, not, ◌&&◌, ◌||◌, Option, none, some, List, [], ◌∷◌, ◌++◌, Text, codes,
  same, find_first, select, any, count, map, update_where, sort_by, text_leb, nocase, trim_space,
  length, ◌==◌, if◌then◌else◌,
}
use dcalcon.Storage.{
  Role, role_admin, role_user, User, Session, conflict, constraint, unauthorized, not_found,
  password_too_long, Result, ok, err, Db,
}
use dcalcon.Storage.Calendars.{or_not_found}
use dcalcon.Storage.Provision.{provision_user_defaults}

abbrev pub is_user : ℕ → User → Bool
is_user id u = u.id == id

-- username = ? COLLATE NOCASE
abbrev pub has_username : Text → User → Bool
has_username username u = same (nocase u.username) (nocase username)

-- email = ? COLLATE NOCASE
abbrev pub has_email : Text → User → Bool
has_email email u = same (nocase u.email) (nocase email)

-- UserByID
unfoldable pub user_by_id : Db → ℕ → Result User
user_by_id db id = or_not_found (find_first (is_user id) db.users)

-- UserByUsername; userWithHash has the same row.
unfoldable pub user_by_username : Db → Text → Result User
user_by_username db username = or_not_found (find_first (has_username username) db.users)

-- UserByEmail
unfoldable pub user_by_email : Db → Text → Result User
user_by_email db email = or_not_found (find_first (has_email (trim_space email)) db.users)

-- UserCount
unfoldable pub user_count : Db → ℕ
user_count db = length db.users

abbrev pub by_username : User → User → Bool
by_username a b = text_leb (nocase a.username) (nocase b.username)

-- ListUsers
unfoldable pub list_users : Db → List User
list_users db = sort_by by_username db.users

-- DirectoryUser, as Directory fills it.
pub record DirectoryUser : Type 0 where
  pub id : ℕ
  pub username : Text
  pub display_name : Text

-- Directory
unfoldable pub directory : Db → ℕ → List DirectoryUser
directory db except =
    map (λ (u : User). record { id = u.id; username = u.username; display_name = u.display_name })
      (sort_by by_username (select (λ (u : User). u.is_active && not (u.id == except)) db.users))

-- Authenticate
unfoldable pub authenticate : (Text → Text → Bool) → Db → Text → Text → Result User
unfolding user_by_username
authenticate compare db username password = elim (user_by_username db username) [
  | err e ↦ err unauthorized
  | ok u ↦
      if not u.is_active
      then err unauthorized
      else if compare u.password_hash password
      then ok u
      else err unauthorized
]

abbrev pub parse_role : Text → Option Role
parse_role role =
    if same role (codes "admin")
    then some role_admin
    else if same role (codes "user")
    then some role_user
    else none

abbrev pub or_text : Text → Text → Text
or_text text default = if same text [] then default else text

-- The row that INSERT INTO users makes.
abbrev pub new_user : ℕ → Text → Text → Text → Text → Role → Text → User
new_user id username email hashed display_name role timezone = record {
  id = id;
  username = username;
  email = email;
  display_name = display_name;
  role = role;
  is_active = true;
  timezone = timezone;
  password_hash = hashed;
  totp_secret = [];
  totp_pending = [];
  totp_enabled = false;
}

-- The statement INSERT INTO users: a username or an email that is taken is a conflict.
unfoldable pub insert_user : Text → Text → Text → Text → Role → Text → Db → Result ℕ × Db
insert_user username email hashed display_name role timezone db =
    if any (has_username username) db.users || any (has_email email) db.users
    then (err conflict, db)
    else (
      ok db.next_user,
      record db {
        users =
            db.users ++ new_user db.next_user username email hashed display_name role timezone ∷ [];
        next_user = db.next_user + 1;
      },
    )

-- What CreateUser does after the statement.
abbrev pub provisioned : Text → Result ℕ × Db → Result User × Db
provisioned now (err e, db) = (err e, db)
provisioned now (ok id, db) =
    let made = provision_user_defaults id now db in (user_by_id made id, made)

-- CreateUser
unfoldable pub create_user :
    (Text → Option Text) → Text → Text → Text → Text → Text → Text → Text → Db → Result User × Db
unfolding insert_user
create_user hash username email password display_name role timezone now db = elim (hash password) [
  | none ↦ (err password_too_long, db)
  | some hashed ↦ elim (parse_role (or_text role (codes "user"))) [
    | none ↦ (err constraint, db)
    | some r ↦ provisioned now (
        insert_user username email hashed (or_text display_name username) r
          (or_text timezone (codes "UTC")) db)
  ]
]

-- UPDATE users SET … WHERE id = ?
unfoldable pub update_user : ℕ → (User → User) → Db → Db
update_user id change db = record db { users = update_where (is_user id) change db.users }

-- The UNIQUE constraint on the emails, for an UPDATE of one user that exists.
abbrev pub email_taken : ℕ → Text → Db → Bool
email_taken id email db =
    any (is_user id) db.users && any (λ (u : User). not (u.id == id) && has_email email u) db.users

-- UpdateProfile; an email that another user has breaks the UNIQUE constraint.
unfoldable pub update_profile : ℕ → Text → Text → Text → Db → Result (Unit {0}) × Db
unfolding update_user
update_profile id display_name email timezone db =
    if email_taken id email db then (err conflict, db) else (
      ok tt,
      update_user id
          (λ (u : User). record u {
            display_name = display_name;
            email = email;
            timezone = timezone;
          })
          db,
    )

-- SetPassword
unfoldable pub set_password : (Text → Option Text) → ℕ → Text → Db → Result (Unit {0}) × Db
unfolding update_user
set_password hash id password db = elim (hash password) [
  | none ↦ (err password_too_long, db)
  | some hashed ↦ (ok tt, update_user id (λ (u : User). record u { password_hash = hashed }) db)
]

-- AdminUpdateUser; an email that another user has breaks the UNIQUE constraint.
unfoldable pub admin_update_user :
    ℕ → Text → Text → Role → Bool → Text → Db → Result (Unit {0}) × Db
unfolding update_user
admin_update_user id email display_name role is_active timezone db =
    if email_taken id email db then (err conflict, db) else (
      ok tt,
      update_user id
          (λ (u : User). record u {
            email = email;
            display_name = display_name;
            role = role;
            is_active = is_active;
            timezone = timezone;
          })
          db,
    )

abbrev pub is_role_admin : Role → Bool
is_role_admin role_admin = true
is_role_admin role_user = false

abbrev pub is_active_admin : User → Bool
is_active_admin u = is_role_admin u.role && u.is_active

-- ActiveAdminCount
unfoldable pub active_admin_count : Db → ℕ
active_admin_count db = count is_active_admin db.users

-- TOTPState
unfoldable pub totp_state : Db → ℕ → Result (Text × Text × Bool)
totp_state db id = elim (find_first (is_user id) db.users) [
  | none ↦ err not_found
  | some u ↦ ok (u.totp_secret, u.totp_pending, u.totp_enabled)
]

-- SetTOTPPending
unfoldable pub set_totp_pending : ℕ → Text → Db → Db
set_totp_pending id pending db = record db {
  users =
      update_where (λ (u : User). u.id == id && not u.totp_enabled)
        (λ (u : User). record u { totp_pending = pending }) db.users;
}

-- EnableTOTP
unfoldable pub enable_totp : ℕ → Text → Db → Db
unfolding update_user
enable_totp id secret db =
    update_user id
      (λ (u : User). record u { totp_secret = secret; totp_pending = []; totp_enabled = true }) db

-- DisableTOTP
unfoldable pub disable_totp : ℕ → Db → Db
unfolding update_user
disable_totp id db =
    update_user id
      (λ (u : User). record u { totp_secret = []; totp_pending = []; totp_enabled = false }) db

-- DeleteSessionsForUser
unfoldable pub delete_sessions_for_user : ℕ → Db → Db
delete_sessions_for_user user db = record db {
  sessions = select (λ (s : Session). not (s.user_id == user)) db.sessions;
}
