-- ===== src/Storage/Sessions.antt =====
-- Sessions: src/svc/internal/storage/users.go, the statements on table sessions. The clock, which
-- time.Now() reads in nanoseconds, is the argument `now`; the column's text has milliseconds, and
-- what is written there is always read back by time.Parse. The hexadecimal SHA-256 of hashToken is
-- the argument `hash_token`.
pub mod Ends
use dcalcon.Base.{
  ℕ, ◌+◌, ◌*◌, ◌/◌, Bool, true, false, not, ◌&&◌, ◌||◌, Option, none, some, List, [], ◌∷◌, ◌++◌,
  Text, same, find_first, select, any, update_where, ltb, ◌==◌, if◌then◌else◌,
}
use dcalcon.Storage.{User, Session, constraint, unauthorized, Result, ok, err, Db}
use dcalcon.Storage.Users.{is_user, delete_sessions_for_user}

abbrev pub has_id : Text → Session → Bool
has_id id s = same s.id id

-- CreateSession; an id that is stored breaks the primary key, and a user that does not exist the
-- foreign key.
unfoldable pub create_session : (Text → Text) → Text → ℕ → ℕ → ℕ → Db → Result (Unit {0}) × Db
create_session hash_token id user ttl now db =
    if any (has_id (hash_token id)) db.sessions || not (any (is_user user) db.users)
    then (err constraint, db)
    else (
      ok tt,
      record db {
        sessions =
            db.sessions
            ++ record { id = hash_token id; user_id = user; expires_at = (now + ttl) / 1000000 }
              ∷ [];
      },
    )

-- DeleteSession
unfoldable pub delete_session : (Text → Text) → Text → Db → Db
delete_session hash_token id db = record db {
  sessions = select (λ (s : Session). not (has_id (hash_token id) s || has_id id s)) db.sessions;
}

-- DeleteSessionsForUserExcept, of src/svc/internal/storage/ops.go.
unfoldable pub delete_sessions_for_user_except : (Text → Text) → ℕ → Text → Db → Db
delete_sessions_for_user_except hash_token user keep db =
    if same keep [] then delete_sessions_for_user user db else record db {
      sessions =
          select
            (λ (s : Session).
              not (s.user_id == user && (not (has_id keep s) && not (has_id (hash_token keep) s))))
            db.sessions;
    }

-- time.Now().UTC().After(t), for the time t of the column.
abbrev pub is_expired : ℕ → ℕ → Bool
is_expired now expires_at = ltb (expires_at * 1000000) now

-- What the scan of userBySessionID makes of the session and its user.
unfoldable pub session_user : ℕ → Session → Option User → Result User
session_user now s none = err unauthorized
session_user now s (some u) =
    if is_expired now s.expires_at || not u.is_active then err unauthorized else ok u

-- userBySessionID
unfoldable pub user_by_session_id : ℕ → Db → Text → Result User
unfolding session_user
user_by_session_id now db stored_id = elim (find_first (has_id stored_id) db.sessions) [
  | none ↦ err unauthorized
  | some s ↦ session_user now s (find_first (is_user s.user_id) db.users)
]

-- UPDATE sessions SET id = ? WHERE id = ?, which changes nothing where it breaks the primary key.
unfoldable pub rename_session : Text → Text → Db → Db
rename_session new old db = if any (has_id new) db.sessions then db else record db {
  sessions = update_where (has_id old) (λ (s : Session). record s { id = new }) db.sessions;
}

-- UserBySession
unfoldable pub user_by_session : (Text → Text) → ℕ → Text → Db → Result User × Db
unfolding user_by_session_id rename_session
user_by_session hash_token now id db =
    if same id []
    then (err unauthorized, db)
    else elim (user_by_session_id now db (hash_token id)) [
      | ok u ↦ (ok u, db)
      | err e ↦ elim (user_by_session_id now db id) [
        | err f ↦ (err f, db)
        | ok u ↦ (ok u, rename_session (hash_token id) id db)
      ]
    ]
