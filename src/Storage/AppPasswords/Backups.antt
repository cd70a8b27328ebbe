-- ===== src/Storage/AppPasswords/Backups.antt =====
-- App passwords that the restore of a backup brings: ValidPasswordHash and
-- ReplaceAppPasswordBackups of src/svc/internal/storage/user_backup.go. bcrypt's Cost is `cost_of`,
-- `none` for an error.
use dcalcon.Base.{
  ℕ, ◌+◌, Bool, true, false, not, ◌&&◌, Option, none, some, List, [], ◌∷◌, ◌++◌, Text, codes, same,
  any, select, leb, trim_space, has_prefix, if◌then◌else◌,
}
use dcalcon.Storage.{AppPassword, constraint, Result, ok, err, Db}
use dcalcon.Storage.Users.{is_user}
use dcalcon.Storage.AppPasswords.{of_user}

-- AppPasswordBackup but its time.
pub record AppPasswordBackup : Type 0 where
  pub name : Text
  pub prefix : Text
  pub hash : Text

-- cost >= bcrypt.MinCost
abbrev pub is_cost : Option ℕ → Bool
is_cost none = false
is_cost (some n) = leb 4 n

-- ValidPasswordHash
unfoldable pub valid_password_hash : (Text → Option ℕ) → Text → Bool
valid_password_hash cost_of hash =
    let h = trim_space hash in has_prefix h (codes "$2") && is_cost (cost_of h)

abbrev pub trimmed_or : Text → Text → Text
trimmed_or text other = if same (trim_space text) [] then other else trim_space text

-- INSERT INTO app_passwords
unfoldable pub restore_app_password : ℕ → AppPasswordBackup → Db → Db
restore_app_password user p db = record db {
  app_passwords =
      db.app_passwords
      ++ record {
        id = db.next_app_password;
        user_id = user;
        name = trimmed_or p.name (codes "DAV client");
        prefix = trimmed_or p.prefix (codes "dcc_restored");
        password_hash = p.hash;
        last_used_at = none;
      }
        ∷ [];
  next_app_password = db.next_app_password + 1;
}

-- The loop of ReplaceAppPasswordBackups; a user that does not exist breaks the foreign key.
unfoldable pub restore_each :
    (Text → Option ℕ) → ℕ → List AppPasswordBackup → Db → Result (Unit {0}) × Db
unfolding restore_app_password
restore_each cost_of user [] db = (ok tt, db)
restore_each cost_of user (p ∷ list) db = elim (valid_password_hash cost_of p.hash) [
  | false ↦ restore_each cost_of user list db
  | true ↦ elim (any (is_user user) db.users) [
    | false ↦ (err constraint, db)
    | true ↦ restore_each cost_of user list (restore_app_password user p db)
  ]
]

-- ReplaceAppPasswordBackups
unfoldable pub replace_app_password_backups :
    (Text → Option ℕ) → ℕ → List AppPasswordBackup → Db → Result (Unit {0}) × Db
replace_app_password_backups cost_of user list db = restore_each cost_of user list (record db {
  app_passwords = select (λ (p : AppPassword). not (of_user user p)) db.app_passwords;
})
