-- ===== src/Storage/AppPasswords.antt =====
-- App passwords and the login of a CalDAV or CardDAV client:
-- src/svc/internal/storage/app_passwords.go. The clock, in nanoseconds, is the argument `now`; the 24
-- random bytes of a secret, in hexadecimal, are the argument `hexed`. bcrypt is `hash` and `compare`,
-- as in the statements on table users.
pub mod Login
pub mod Backups
pub mod Limit
use dcalcon.Base.{
  ℕ, zero, suc, ◌+◌, ◌-◌, ◌/◌, Bool, true, false, not, ◌&&◌, ◌||◌, Option, none, some, List, [],
  ◌∷◌, ◌++◌, Text, codes, same, find_first, select, any, count, update_where, sort_by, take,
  rune_len, byte_len, trim_space, has_prefix, ltb, leb, ◌==◌, if◌then◌else◌,
}
use dcalcon.Storage.{
  User, AppPassword, not_found, conflict, constraint, unauthorized, password_too_long, Result, ok,
  err, Db,
}
use dcalcon.Storage.Users.{is_user, user_by_username, authenticate, totp_state}

-- The character that Go reads in place of each byte of an incomplete character.
abbrev replacements : ℕ → Text
replacements zero = []
replacements (suc n) = 65533 ∷ replacements n

-- s[:n] of a text that is longer than n bytes.
unfoldable pub cut_bytes : ℕ → Text → Text
cut_bytes n [] = []
cut_bytes n (c ∷ s) =
    let rest = cut_bytes (n - rune_len c) s in
    if leb (rune_len c) n then c ∷ rest else replacements n

-- limits.MaxAppPasswords
abbrev pub max_app_passwords : ℕ
max_app_passwords = 20

abbrev pub of_user : ℕ → AppPassword → Bool
of_user user p = p.user_id == user

-- ListAppPasswords
unfoldable pub list_app_passwords : Db → ℕ → List AppPassword
list_app_passwords db user =
    sort_by (λ (a b : AppPassword). ltb b.id a.id) (select (of_user user) db.app_passwords)

-- CountAppPasswords
unfoldable pub count_app_passwords : Db → ℕ → ℕ
count_app_passwords db user = count (of_user user) db.app_passwords

-- NewAppPasswordSecret: the secret and its prefix.
unfoldable pub new_app_password_secret : Text → Text × Text
new_app_password_secret hexed = (codes "dcc_" ++ hexed, codes "dcc_" ++ take 8 hexed)

-- The name that CreateAppPassword stores.
unfoldable pub stored_name : Text → Text
unfolding cut_bytes
stored_name name =
    let t = trim_space name in
    let given = if same t [] then codes "DAV client" else t in
    if ltb 80 (byte_len given) then cut_bytes 80 given else given

-- What CreateAppPassword answers when it has stored a row.
abbrev pub listed : AppPassword → List AppPassword → AppPassword
listed made rows = elim (find_first (λ (p : AppPassword). p.id == made.id) rows) [
  | none ↦ made
  | some p ↦ p
]

-- CreateAppPassword, as one step: the code counts and inserts in two statements and in no
-- transaction. A user that does not exist breaks the foreign key.
unfoldable pub create_app_password :
    (Text → Option Text) → ℕ → Text → Text → Db → Result (AppPassword × Text) × Db
unfolding count_app_passwords list_app_passwords new_app_password_secret stored_name
create_app_password hash user name hexed db =
    if leb max_app_passwords (count_app_passwords db user)
    then (err conflict, db)
    else elim (hash (new_app_password_secret hexed).0) [
      | none ↦ (err password_too_long, db)
      | some hashed ↦
          if not (any (is_user user) db.users)
          then (err constraint, db)
          else (let made : AppPassword = record {
            id = db.next_app_password;
            user_id = user;
            name = stored_name name;
            prefix = (new_app_password_secret hexed).1;
            password_hash = hashed;
            last_used_at = none;
          } in
              let next : Db = record db {
                app_passwords = db.app_passwords ++ made ∷ [];
                next_app_password = db.next_app_password + 1;
              } in
              (
                ok (listed made (list_app_passwords next user), (new_app_password_secret hexed).0),
                next,
              ))
    ]

abbrev pub is_app_password : ℕ → ℕ → AppPassword → Bool
is_app_password user id p = p.user_id == user && p.id == id

-- DeleteAppPassword
unfoldable pub delete_app_password : ℕ → ℕ → Db → Result (Unit {0}) × Db
delete_app_password user id db =
    if any (is_app_password user id) db.app_passwords
    then (
      ok tt,
      record db {
        app_passwords =
            select (λ (p : AppPassword). not (is_app_password user id p)) db.app_passwords;
      },
    )
    else (err not_found, db)

-- The rows that authenticateAppPassword compares with: a secret that has the form of an app
-- password is compared with those of its prefix only.
unfoldable pub is_candidate : ℕ → Text → AppPassword → Bool
unfolding cut_bytes
is_candidate user password p =
    if has_prefix password (codes "dcc_") && leb 12 (byte_len password)
    then p.user_id == user && same p.prefix (cut_bytes 12 password)
    else p.user_id == user

-- UPDATE app_passwords SET last_used_at = ? WHERE id = ?
unfoldable pub touch_app_password : ℕ → ℕ → Db → Db
touch_app_password now id db = record db {
  app_passwords =
      update_where (λ (p : AppPassword). p.id == id)
        (λ (p : AppPassword). record p { last_used_at = some (now / 1000000) }) db.app_passwords;
}

-- authenticateAppPassword
unfoldable pub authenticate_app_password :
    (Text → Text → Bool) → ℕ → Text → Text → Db → Result User × Db
unfolding is_candidate touch_app_password
authenticate_app_password compare now username password db = elim (user_by_username db username) [
  | err e ↦ (err unauthorized, db)
  | ok u ↦
      if not u.is_active
      then (err unauthorized, db)
      else elim (find_first (λ (p : AppPassword). compare p.password_hash password)
          (select (is_candidate u.id password) db.app_passwords)) [
            | none ↦ (err unauthorized, db)
            | some p ↦ (ok u, touch_app_password now p.id db)
          ]
]

-- tErr == nil && enabled
abbrev pub totp_on : Result (Text × Text × Bool) → Bool
totp_on (err e) = false
totp_on (ok (secret, pending, enabled)) = enabled

-- AuthenticateDAV
unfoldable pub authenticate_dav : (Text → Text → Bool) → ℕ → Text → Text → Db → Result User × Db
unfolding authenticate_app_password
authenticate_dav compare now username password db =
    elim (authenticate compare db username password) [
      | ok u ↦ if totp_on (totp_state db u.id) then (err unauthorized, db) else (ok u, db)
      | err e ↦ authenticate_app_password compare now username password db
    ]

-- IsAppPasswordSecret
unfoldable pub is_app_password_secret : Text → Bool
is_app_password_secret s = has_prefix s (codes "dcc_") && leb 20 (byte_len s)
