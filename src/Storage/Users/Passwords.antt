-- ===== src/Storage/Users/Passwords.antt =====
-- What SetPassword of src/svc/internal/storage/users.go does on each outcome of bcrypt.
use dcalcon.Base.{ℕ, Option, none, some, Text, ◌≡◌, refl}
use dcalcon.Storage.{User, password_too_long, ok, err, Db}
use dcalcon.Storage.Users.{set_password, update_user}

pub set_password-ok :
    (hash : Text → Option Text) (id : ℕ) (password hashed : Text) (db : Db)
    → hash password ≡ some hashed
    → set_password hash id password db
      ≡ (ok tt, update_user id (λ (u : User). record u { password_hash = hashed }) db)
unfolding set_password
set_password-ok hash id password hashed db e = rw (e, set_password) refl

pub set_password-long :
    (hash : Text → Option Text) (id : ℕ) (password : Text) (db : Db)
    → hash password ≡ none
    → set_password hash id password db ≡ (err password_too_long, db)
unfolding set_password
set_password-long hash id password db e = rw (e, set_password) refl
