-- ===== src/Api/Admin.antt =====
-- The handlers of src/svc/internal/api/admin.go.
pub mod LastAdmin
pub mod Managed
pub mod Requests
use dcalcon.Base.{
  ℕ, Bool, true, false, not, ◌&&◌, ◌||◌, Option, none, some, List, [], ◌∷◌, Text, codes, same,
  trim_space, leb, ◌==◌, if◌then◌else◌, ◌⊎◌, inl, inr,
}
use dcalcon.Storage.{Error, conflict, Role, User, Result, ok, err, Db}
use dcalcon.Storage.Users.{
  user_by_id, create_user, parse_role, or_text, is_role_admin, is_active_admin, active_admin_count,
  admin_update_user, set_password, delete_sessions_for_user,
}
use dcalcon.Auth.{Principal}
use dcalcon.Api.{
  Reply, failed, internal, status, user_sent, valid_username, valid_email, valid_password,
  valid_role, valid_status, normalize_timezone, path_id, audit_as,
}

-- The body of adminCreateUser.
pub record NewUser : Type 0 where
  pub username : Text
  pub email : Text
  pub password : Text
  pub display_name : Text
  pub role : Text
  pub timezone : Text

-- What adminCreateUser does with the outcome of CreateUser.
abbrev pub created : Principal → Result User × Db → Reply × Db
created actor (ok u, db) =
    (user_sent 201 u, audit_as (some actor) (codes "user.create") u.username db)
created actor (err conflict, db) = (failed 409 (codes "username or email already exists"), db)
created actor (err e, db) = (internal e, db)

-- adminCreateUser
unfoldable pub admin_create_user :
    (ℕ → ℕ)
    → (Text → Bool)
    → (Text → Option Text)
    → Principal
    → Option NewUser
    → Text
    → Db
    → Reply × Db
admin_create_user table parse_address hash actor none now db =
    (failed 400 (codes "invalid json"), db)
admin_create_user table parse_address hash actor (some body) now db =
    let username = trim_space body.username in
    let email = trim_space body.email in
    let display_name = trim_space body.display_name in
    let role = or_text body.role (codes "user") in
    if not (valid_username username)
    then (failed 400 (codes "username must be 2–32 characters (letters, numbers, . _ -)"), db)
    else if not (valid_email parse_address email)
    then (failed 400 (codes "invalid email"), db)
    else if not (valid_password table body.password)
    then (failed 400 (codes "password must be at least 8 characters"), db)
    else if not (valid_role role)
    then (failed 400 (codes "role must be admin or user"), db)
    else created actor (
        create_user hash username email body.password display_name role
          (normalize_timezone body.timezone) now db)

-- The body of adminPatchUser; a nil pointer is `none`.
pub record UserPatch : Type 0 where
  pub email : Option Text
  pub display_name : Option Text
  pub role : Option Text
  pub status : Option Text
  pub timezone : Option Text

-- The columns that adminPatchUser writes.
pub record Columns : Type 0 where
  pub email : Text
  pub display_name : Text
  pub role : Role
  pub is_active : Bool
  pub timezone : Text

abbrev patched_email : (Text → Bool) → Option Text → Text → Option Text
patched_email parse_address none old = some old
patched_email parse_address (some new) old =
    let t = trim_space new in if valid_email parse_address t then some t else none

abbrev patched_name : Option Text → Text → Text → Text
patched_name none old username = old
patched_name (some new) old username = or_text (trim_space new) username

abbrev patched_role : Option Text → Role → Option Role
patched_role none old = some old
patched_role (some new) old = if valid_role new then parse_role new else none

abbrev patched_status : Option Text → Bool → Option Bool
patched_status none old = some old
patched_status (some new) old = if valid_status new then some (same new (codes "active")) else none

abbrev patched_timezone : Option Text → Text → Text
patched_timezone none old = old
patched_timezone (some new) old = normalize_timezone new

-- The columns that a body asks for, or the message about the first that is not valid.
unfoldable pub patched : (Text → Bool) → UserPatch → User → Text ⊎ Columns
patched parse_address body old = elim (patched_email parse_address body.email old.email) [
  | none ↦ inl (codes "invalid email")
  | some email ↦ elim (patched_role body.role old.role) [
    | none ↦ inl (codes "role must be admin or user")
    | some role ↦ elim (patched_status body.status old.is_active) [
      | none ↦ inl (codes "status must be active or disabled")
      | some is_active ↦ inr record {
        email = email;
        display_name = patched_name body.display_name old.display_name old.username;
        role = role;
        is_active = is_active;
        timezone = patched_timezone body.timezone old.timezone;
      }
    ]
  ]
]

-- What adminPatchUser does with the outcome of UserByID.
abbrev pub sent : Result User → Reply
sent (err e) = internal e
sent (ok u) = user_sent 200 u

-- What adminPatchUser does with the outcome of AdminUpdateUser.
abbrev pub written : ℕ → Bool → Result (Unit {0}) × Db → Reply × Db
written id is_active (err conflict, db) = (failed 409 (codes "email already in use"), db)
written id is_active (err e, db) = (internal e, db)
written id is_active (ok t, db) =
    let left = if is_active then db else delete_sessions_for_user id db in
    (sent (user_by_id left id), left)

-- adminPatchUser, once the columns are known.
unfoldable pub patch_user : ℕ → ℕ → User → Columns → Db → Reply × Db
patch_user actor_id id old new db =
    if actor_id == id && not new.is_active
    then (failed 400 (codes "you cannot disable your own account"), db)
    else if (is_active_admin old && not (is_role_admin new.role && new.is_active))
        && leb (active_admin_count db) 1
    then (failed 400 (codes "cannot remove the last active administrator"), db)
    else written id new.is_active
        (admin_update_user id new.email new.display_name new.role new.is_active new.timezone db)

-- adminPatchUser, of a user that exists.
unfoldable pub patch_found : (Text → Bool) → ℕ → ℕ → User → Option UserPatch → Db → Reply × Db
unfolding patched patch_user
patch_found parse_address actor_id id old none db = (failed 400 (codes "invalid json"), db)
patch_found parse_address actor_id id old (some body) db = elim (patched parse_address body old) [
  | inl message ↦ (failed 400 message, db)
  | inr new ↦ patch_user actor_id id old new db
]

-- adminPatchUser
unfoldable pub admin_patch_user :
    (Text → Bool) → Principal → Text → Option UserPatch → Db → Reply × Db
unfolding patch_found
admin_patch_user parse_address actor param body db = elim (path_id param) [
  | none ↦ (failed 400 (codes "invalid id"), db)
  | some id ↦ elim (user_by_id db id) [
    | err e ↦ (failed 404 (codes "user"), db)
    | ok old ↦ patch_found parse_address actor.id id old body db
  ]
]

-- What adminResetPassword does with the outcome of SetPassword.
abbrev pub reset : ℕ → Result (Unit {0}) × Db → Reply × Db
reset id (err e, db) = (internal e, db)
reset id (ok t, db) = (status (codes "ok"), delete_sessions_for_user id db)

-- adminResetPassword
unfoldable pub admin_reset_password :
    (ℕ → ℕ) → (Text → Option Text) → Text → Option Text → Db → Reply × Db
admin_reset_password table hash param body db = elim (path_id param) [
  | none ↦ (failed 400 (codes "invalid id"), db)
  | some id ↦ elim (user_by_id db id) [
    | err e ↦ (failed 404 (codes "user"), db)
    | ok u ↦ elim body [
      | none ↦ (failed 400 (codes "invalid json"), db)
      | some password ↦
          if not (valid_password table password)
          then (failed 400 (codes "password must be at least 8 characters"), db)
          else reset id (set_password hash id password db)
    ]
  ]
]
