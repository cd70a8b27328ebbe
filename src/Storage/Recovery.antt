-- ===== src/Storage/Recovery.antt =====
-- Password resets: src/svc/internal/storage/recovery.go. The clock, in nanoseconds, is the argument
-- `now`. Each function runs in one transaction, and an error rolls it back.
pub mod Once
pub mod Issued
use dcalcon.Base.{
  ℕ, ◌+◌, ◌/◌, Bool, true, false, not, ◌&&◌, ◌||◌, Option, none, some, List, [], ◌∷◌, ◌++◌, Text,
  same, find_first, any, is_some, map, update_where, sort_by, take, ltb, leb, ◌==◌, if◌then◌else◌,
}
use dcalcon.Storage.{
  User, PasswordReset, Delivery, RecoveryMessage, not_found, constraint, unauthorized, Result, ok,
  err, Db,
}
use dcalcon.Storage.Users.{is_user, user_by_id, set_password, delete_sessions_for_user}
use dcalcon.Storage.Sessions.{is_expired}

-- used_at IS NULL
abbrev pub is_unused : PasswordReset → Bool
is_unused r = not (is_some r.used_at)

-- UPDATE password_reset_tokens SET used_at = ?
abbrev pub used : ℕ → PasswordReset → PasswordReset
used now r = record r { used_at = some (now / 1000000) }

abbrev pub has_hash : Text → PasswordReset → Bool
has_hash token_hash r = same r.token_hash token_hash

-- WithTx: an error leaves the database as it was.
abbrev pub with_tx {ℓ} : {A : Type ℓ} → Db → Result A × Db → Result A × Db
with_tx before (err e, after) = (err e, before)
with_tx before (ok a, after) = (ok a, after)

-- ReplacePasswordReset; a hash that is stored breaks its UNIQUE constraint, and a user that does
-- not exist the foreign key.
unfoldable pub replace_password_reset : ℕ → Text → ℕ → ℕ → Db → Result (Unit {0}) × Db
replace_password_reset user token_hash ttl now db =
    let resets =
      update_where (λ (r : PasswordReset). r.user_id == user && is_unused r) (used now) db.resets in
    with_tx db (
      if any (has_hash token_hash) resets || not (any (is_user user) db.users)
      then (err constraint, record db { resets = resets })
      else (
        ok tt,
        record db {
          resets =
              resets
              ++ record {
                id = db.next_reset;
                user_id = user;
                token_hash = token_hash;
                expires_at = (now + ttl) / 1000000;
                used_at = none;
              }
                ∷ [];
          next_reset = db.next_reset + 1;
        },
      ))

-- What ConsumePasswordReset does after SetPassword.
abbrev pub signed_out : ℕ → Result (Unit {0}) × Db → Result User × Db
signed_out user (err e, db) = (err e, db)
signed_out user (ok t, db) =
    let left = delete_sessions_for_user user db in (user_by_id left user, left)

-- What ConsumePasswordReset does with a token that is unused and not expired.
unfoldable pub redeem : (Text → Option Text) → PasswordReset → Text → ℕ → Db → Result User × Db
redeem hash r password now db =
    let marked : Db = record db {
      resets =
          update_where (λ (t : PasswordReset). t.id == r.id && is_unused t) (used now) db.resets;
    } in
    if not (any (λ (t : PasswordReset). t.id == r.id && is_unused t) db.resets)
    then (err unauthorized, marked)
    else signed_out r.user_id (set_password hash r.user_id password marked)

-- ConsumePasswordReset
unfoldable pub consume_password_reset :
    (Text → Option Text) → Text → Text → ℕ → Db → Result User × Db
unfolding redeem
consume_password_reset hash token_hash password now db =
    with_tx db (elim (find_first (has_hash token_hash) db.resets) [
      | none ↦ (err not_found, db)
      | some r ↦
          if is_some r.used_at || is_expired now r.expires_at
          then (err unauthorized, db)
          else redeem hash r password now db
    ])

-- InsertRecoveryOutbox; a user that does not exist breaks the foreign key.
unfoldable pub insert_recovery_outbox : ℕ → Text → Delivery → Text → Db → Result (Unit {0}) × Db
insert_recovery_outbox user email delivered last_error db =
    if not (any (is_user user) db.users) then (err constraint, db) else (
      ok tt,
      record db {
        recovery_outbox =
            db.recovery_outbox
            ++ record {
              id = db.next_message;
              user_id = user;
              email = email;
              delivered = delivered;
              last_error = last_error;
            }
              ∷ [];
        next_message = db.next_message + 1;
      },
    )

abbrev pub username_of : Option User → Text
username_of none = []
username_of (some u) = u.username

-- ListRecoveryOutbox: each message with its user's name. A limit below 0 counts as 0.
unfoldable pub list_recovery_outbox : Db → ℕ → List (RecoveryMessage × Text)
list_recovery_outbox db limit =
    let n = if leb limit 0 || ltb 100 limit then 50 else limit in
    map (λ (m : RecoveryMessage). (m, username_of (find_first (is_user m.user_id) db.users)))
      (take n (sort_by (λ (a b : RecoveryMessage). ltb b.id a.id) db.recovery_outbox))
