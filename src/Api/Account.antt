-- ===== src/Api/Account.antt =====
-- A user's own account: patchMe and changePassword of src/svc/internal/api/account.go,
-- revokeSessions of extras.go, and app_passwords.go.
pub mod Kept
use dcalcon.Base.{
  ℕ, Bool, true, false, not, ◌&&◌, Option, none, some, List, [], ◌∷◌, Text, codes, same, trim_space,
  if◌then◌else◌,
}
use dcalcon.Storage.{Error, not_found, conflict, User, AppPassword, Result, ok, err, Db}
use dcalcon.Storage.Users.{user_by_id, authenticate, or_text, update_profile, set_password}
use dcalcon.Storage.Sessions.{delete_sessions_for_user_except}
use dcalcon.Storage.AppPasswords.{create_app_password, delete_app_password, list_app_passwords}
use dcalcon.Auth.{Principal, cookie_value}
use dcalcon.Api.{
  Crypto, Reply, failed, internal, status, user_sent, app_password_sent, app_passwords_sent,
  valid_email, valid_password, normalize_timezone, path_id, audit_as,
}

-- The body of patchMe.
pub record Profile : Type 0 where
  pub display_name : Text
  pub email : Text
  pub timezone : Text

abbrev pub sent_profile : Result User → Reply
sent_profile (err e) = internal e
sent_profile (ok u) = user_sent 200 u

-- What patchMe does with the outcome of UpdateProfile.
abbrev pub profile_written : ℕ → Result (Unit {0}) × Db → Reply × Db
profile_written id (err conflict, db) = (failed 409 (codes "email already in use"), db)
profile_written id (err e, db) = (internal e, db)
profile_written id (ok t, db) = (sent_profile (user_by_id db id), db)

-- patchMe
unfoldable pub patch_me : Crypto → Principal → Option Profile → Db → Reply × Db
patch_me c p body db = elim (user_by_id db p.id) [
  | err e ↦ (failed 404 (codes "user"), db)
  | ok u ↦ elim body [
    | none ↦ (failed 400 (codes "invalid json"), db)
    | some b ↦
        let display_name = or_text b.display_name u.display_name in
        let email = or_text b.email u.email in
        let zone = normalize_timezone b.timezone in
        let timezone = if same zone (codes "UTC") && same b.timezone [] then u.timezone else zone in
        if not (valid_email c.parse_address email)
        then (failed 400 (codes "invalid email"), db)
        else profile_written p.id
            (update_profile p.id (trim_space display_name) (trim_space email) timezone db)
  ]
]

-- What changePassword does with the outcome of SetPassword.
abbrev pub password_changed : Crypto → Principal → Text → Result (Unit {0}) × Db → Reply × Db
password_changed c p keep (err e, db) = (internal e, db)
password_changed c p keep (ok t, db) = (
  status (codes "ok"),
  audit_as (some p) (codes "password.change") []
      (delete_sessions_for_user_except c.hash_token p.id keep db),
)

-- changePassword; the body has the current password and the new one.
unfoldable pub change_password :
    Crypto → Principal → Option Text → Option (Text × Text) → Db → Reply × Db
change_password c p cookie none db = (failed 400 (codes "invalid json"), db)
change_password c p cookie (some (current, next)) db =
    if not (valid_password c.table next)
    then (failed 400 (codes "password must be at least 8 characters"), db)
    else elim (authenticate c.compare db p.username current) [
      | err e ↦ (failed 401 (codes "current password is incorrect"), db)
      | ok u ↦ password_changed c p (cookie_value cookie) (set_password c.hash p.id next db)
    ]

-- revokeSessions
unfoldable pub revoke_sessions : Crypto → Principal → Option Text → Db → Reply × Db
revoke_sessions c p cookie db = (
  status (codes "ok"),
  audit_as (some p) (codes "sessions.revoke") (codes "other sessions")
      (delete_sessions_for_user_except c.hash_token p.id (cookie_value cookie) db),
)

-- listAppPasswords of the API
unfoldable pub send_app_passwords : Principal → Db → Reply
send_app_passwords p db = app_passwords_sent (list_app_passwords db p.id)

-- What createAppPassword does with the outcome of CreateAppPassword.
abbrev pub app_password_made : Result (AppPassword × Text) × Db → Reply × Db
app_password_made (ok (made, secret), db) = (app_password_sent made secret, db)
app_password_made (err conflict, db) =
    (failed 409 (codes "too many app passwords — revoke one first"), db)
app_password_made (err e, db) = (internal e, db)

-- createAppPassword
unfoldable pub make_app_password : Crypto → Principal → Option Text → Text → Db → Reply × Db
make_app_password c p none hexed db = (failed 400 (codes "invalid json"), db)
make_app_password c p (some name) hexed db =
    app_password_made (create_app_password c.hash p.id (trim_space name) hexed db)

-- What deleteAppPassword does with the outcome of DeleteAppPassword.
abbrev pub app_password_revoked : Result (Unit {0}) × Db → Reply × Db
app_password_revoked (err not_found, db) = (failed 404 (codes "not found"), db)
app_password_revoked (err e, db) = (internal e, db)
app_password_revoked (ok t, db) = (status (codes "revoked"), db)

-- deleteAppPassword
unfoldable pub revoke_app_password : Principal → Text → Db → Reply × Db
revoke_app_password p param db = elim (path_id param) [
  | none ↦ (failed 400 (codes "invalid id"), db)
  | some id ↦ app_password_revoked (delete_app_password p.id id db)
]
