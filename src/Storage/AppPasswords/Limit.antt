-- ===== src/Storage/AppPasswords/Limit.antt =====
-- How many app passwords the calls of src/svc/internal/storage/app_passwords.go, and the restore of
-- a backup in user_backup.go, let a user have.
use dcalcon.Base.{
  ℕ, ◌/◌, ◌≤◌, Bool, false, not, Option, some, List, [], ◌∷◌, ◌++◌, Text, count, any, leb,
  find_first, select, ◌≡◌, refl, arith, Bool-cases, Option-cases, inl, inr, ◌==◌, count-append,
  count-select-le, count-update_where, if◌then◌else◌, length, all, true, ◌+◌,
}
use dcalcon.Storage.{AppPassword, Result-cases, Db}
use dcalcon.Storage.Users.{is_user, user_by_username, authenticate, totp_state}
use dcalcon.Storage.AppPasswords.{
  of_user, max_app_passwords, count_app_passwords, new_app_password_secret, create_app_password,
  delete_app_password, is_app_password, is_candidate, touch_app_password, authenticate_app_password,
  totp_on, authenticate_dav,
}
use dcalcon.Storage.AppPasswords.Backups.{
  AppPasswordBackup, valid_password_hash, restore_app_password, restore_each,
  replace_app_password_backups,
}

-- A call that changes the table.
pub data Call : Type 0 where
  create : (Text → Option Text) → ℕ → Text → Text → Call
  delete : ℕ → ℕ → Call
  log_in : (Text → Text → Bool) → ℕ → Text → Text → Call
  restore : (Text → Option ℕ) → ℕ → List AppPasswordBackup → Call

unfoldable pub run_call : Call → Db → Db
run_call (create hash user name hexed) db = (create_app_password hash user name hexed db).1
run_call (delete user id) db = (delete_app_password user id db).1
run_call (log_in compare now username password) db =
    (authenticate_dav compare now username password db).1
run_call (restore cost_of user list) db = (replace_app_password_backups cost_of user list db).1

unfoldable pub run_calls : List Call → Db → Db
unfolding run_call
run_calls [] db = db
run_calls (c ∷ calls) db = run_calls calls (run_call c db)

-- Whether a call restores at most n app passwords.
unfoldable pub restores_at_most : ℕ → Call → Bool
restores_at_most n (restore cost_of user list) = leb (length list) n
restores_at_most n _ = true

-- No user has more app passwords than n, which is not below the limit.
abbrev Within : ℕ → Db → Type 0
Within n db = (user : ℕ) → count_app_passwords db user ≤ n

grown :
    (n user v : ℕ) (rows : List AppPassword) (made : AppPassword)
    → max_app_passwords ≤ n
    → made.user_id ≡ user
    → leb max_app_passwords (count (of_user user) rows) ≡ false
    → count (of_user v) rows ≤ n
    → count (of_user v) (rows ++ made ∷ []) ≤ n
unfolding count
grown n user v rows made enough e room old =
    rw (count-append (of_user v) rows) (elim (Bool-cases (made.user_id == v)) [
      | inl own ↦
          let same_user : user ≡ v = ground arith in
          let r = rw same_user at room in rw own (ground arith)
      | inr other ↦ rw other (ground arith)
    ])

create-Within :
    (n : ℕ) (hash : Text → Option Text) (user : ℕ) (name hexed : Text) (db : Db)
    → max_app_passwords ≤ n
    → Within n db
    → Within n (create_app_password hash user name hexed db).1
unfolding create_app_password count_app_passwords
create-Within n hash user name hexed db enough old v =
    elim (Bool-cases (leb max_app_passwords (count_app_passwords db user))) [
      | inl full ↦ rw full (old v)
      | inr room ↦ elim (Option-cases (hash (new_app_password_secret hexed).0)) [
        | inl long ↦ rw (room, long, create_app_password) (old v)
        | inr (hashed, k) ↦ elim (Bool-cases (any (is_user user) db.users)) [
          | inr no_user ↦ rw (room, k, no_user, create_app_password) (old v)
          | inl known ↦
              rw (room, k, known, create_app_password)
                (unfold count_app_passwords in
                  grown n user v db.app_passwords _ enough refl room (old v))
        ]
      ]
    ]

delete-Within :
    (n user id : ℕ) (db : Db) → Within n db → Within n (delete_app_password user id db).1
unfolding delete_app_password count_app_passwords
delete-Within n user id db old v =
    elim (Bool-cases (any (is_app_password user id) db.app_passwords)) [
      | inr absent ↦ rw absent (old v)
      | inl found ↦ rw found (
          omega (
            arith,
            old v,
            count-select-le (of_user v) (λ (p : AppPassword). not (is_app_password user id p))
                db.app_passwords,
          ))
    ]

touch-Within : (n now id : ℕ) (db : Db) → Within n db → Within n (touch_app_password now id db)
unfolding touch_app_password count_app_passwords
touch-Within n now id db old v =
    rw
      (count-update_where (of_user v) (λ (p : AppPassword). p.id == id)
        (λ (p : AppPassword). record p { last_used_at = some (now / 1000000) }) db.app_passwords
        (λ p. refl))
      (old v)

app_password-Within :
    (n : ℕ) (compare : Text → Text → Bool) (now : ℕ) (username password : Text) (db : Db)
    → Within n db
    → Within n (authenticate_app_password compare now username password db).1
unfolding authenticate_app_password
app_password-Within n compare now username password db old =
    elim (Result-cases (user_by_username db username)) [
      | inl (e, k) ↦ rw (k, authenticate_app_password) old
      | inr (u, k) ↦ elim (Bool-cases u.is_active) [
        | inr off ↦ rw (k, authenticate_app_password) (rw off old)
        | inl on ↦
            elim (Option-cases (
              find_first (λ (p : AppPassword). compare p.password_hash password)
                (select (is_candidate u.id password) db.app_passwords))) [
                  | inl bad ↦ rw (k, authenticate_app_password) (rw (on, bad) old)
                  | inr (p, good) ↦
                      rw (k, authenticate_app_password)
                        (rw (on, good) (touch-Within n now p.id db old))
                ]
      ]
    ]

dav-Within :
    (n : ℕ) (compare : Text → Text → Bool) (now : ℕ) (username password : Text) (db : Db)
    → Within n db
    → Within n (authenticate_dav compare now username password db).1
unfolding authenticate_dav
dav-Within n compare now username password db old =
    elim (Result-cases (authenticate compare db username password)) [
      | inl (e, k) ↦
          rw (k, authenticate_dav) (app_password-Within n compare now username password db old)
      | inr (u, k) ↦ elim (Bool-cases (totp_on (totp_state db u.id))) [
        | inl on ↦ rw (k, authenticate_dav) (rw on old)
        | inr off ↦ rw (k, authenticate_dav) (rw off old)
      ]
    ]

restored :
    (user : ℕ) (p : AppPasswordBackup) (db : Db) (v : ℕ)
    → count_app_passwords (restore_app_password user p db) v
      ≡ count_app_passwords db v + (if user == v then 1 else 0)
unfolding restore_app_password count_app_passwords count
restored user p db v = rw (count-append (of_user v) db.app_passwords) (ground arith)

count-restore_each :
    (cost_of : Text → Option ℕ) (user : ℕ) (list : List AppPasswordBackup) (db : Db) (v : ℕ)
    → count_app_passwords (restore_each cost_of user list db).1 v
      ≤ count_app_passwords db v + (if user == v then length list else 0)
unfolding restore_each
count-restore_each cost_of user [] db v = omega arith
count-restore_each cost_of user (p ∷ list) db v =
    elim (Bool-cases (valid_password_hash cost_of p.hash)) [
      | inr bad ↦ rw (bad, restore_each) (ground (arith, count-restore_each cost_of user list db v))
      | inl good ↦ elim (Bool-cases (any (is_user user) db.users)) [
        | inr nobody ↦ rw (good, nobody, restore_each) (omega arith)
        | inl known ↦
            rw (good, known, restore_each)
              (ground (
                arith,
                count-restore_each cost_of user list (restore_app_password user p db) v,
                restored user p db v,
              ))
      ]
    ]

count-others :
    (user v : ℕ) (rows : List AppPassword)
    → count (of_user v) (select (λ (p : AppPassword). not (of_user user p)) rows)
      ≡ (if user == v then 0 else count (of_user v) rows)
unfolding count select
count-others user v [] = ground arith
count-others user v (p ∷ rows) = ground (arith, count-others user v rows)

restore-Within :
    (n : ℕ) (cost_of : Text → Option ℕ) (user : ℕ) (list : List AppPasswordBackup) (db : Db)
    → length list ≤ n
    → Within n db
    → Within n (replace_app_password_backups cost_of user list db).1
unfolding replace_app_password_backups count_app_passwords
restore-Within n cost_of user list db short old v =
    let left : Db = record db {
      app_passwords = select (λ (p : AppPassword). not (of_user user p)) db.app_passwords;
    } in
    ground (
      arith,
      count-restore_each cost_of user list left v,
      count-others user v db.app_passwords,
      old v,
    )

run_call-Within :
    (n : ℕ) (c : Call) (db : Db)
    → max_app_passwords ≤ n
    → restores_at_most n c ≡ true
    → Within n db
    → Within n (run_call c db)
unfolding run_call restores_at_most
run_call-Within n (create hash user name hexed) db enough fits old =
    create-Within n hash user name hexed db enough old
run_call-Within n (delete user id) db enough fits old = delete-Within n user id db old
run_call-Within n (log_in compare now username password) db enough fits old =
    dav-Within n compare now username password db old
run_call-Within n (restore cost_of user list) db enough fits old =
    restore-Within n cost_of user list db (ground arith) old

run_calls-Within :
    (n : ℕ) (calls : List Call) (db : Db)
    → max_app_passwords ≤ n
    → all (restores_at_most n) calls ≡ true
    → Within n db
    → Within n (run_calls calls db)
unfolding run_calls all
run_calls-Within n [] db enough fits old = old
run_calls-Within n (c ∷ calls) db enough fits old =
    run_calls-Within n calls (run_call c db) enough (ground arith)
      (run_call-Within n c db enough (ground arith) old)

pub record IsBounded (n : ℕ) (db : Db) : Type 0 where
  pub within : (user : ℕ) → count_app_passwords db user ≤ n

-- Let n be the limit or more. Whatever sequence of calls creates, deletes and logs in with app
-- passwords, and restores backups of at most n of them, no user gets more than n, if none has more
-- at the start.
pub run_calls-IsBounded :
    (n : ℕ) (calls : List Call) (db : Db)
    → max_app_passwords ≤ n
    → all (restores_at_most n) calls ≡ true
    → IsBounded n db
    → IsBounded n (run_calls calls db)
run_calls-IsBounded n calls db enough fits old = record {
  within = run_calls-Within n calls db enough fits old.within;
}
