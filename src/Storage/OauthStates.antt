-- ===== src/Storage/OauthStates.antt =====
-- The pending sign-ins at mail providers: PutOAuthState and TakeOAuthState of
-- src/svc/internal/storage/accounts.go. The clock, in nanoseconds, is the argument `now`. The text
-- of expires_at has seconds and no fraction, and a Z sorts after the dot of the text of nowUTC, so
-- that `expires_at < nowUTC()` compares the seconds.
use dcalcon.Base.{
  ℕ, ◌*◌, ◌/◌, Bool, not, ◌||◌, none, some, [], ◌∷◌, ◌++◌, Text, same, find_first, select, any, ltb,
  if◌then◌else◌,
}
use dcalcon.Storage.{OauthState, not_found, constraint, Result, ok, err, Db}
use dcalcon.Storage.Users.{is_user}
use dcalcon.Storage.Recovery.{with_tx}

abbrev pub has_state : Text → OauthState → Bool
has_state state st = same st.state state

-- The negation of expires_at < nowUTC().
abbrev pub is_waiting : ℕ → OauthState → Bool
is_waiting now st = not (ltb st.expires_at (now / 1000000000))

-- PutOAuthState; a state that is stored breaks the primary key, and a user that does not exist the
-- foreign key. The states that have expired are gone in either case.
unfoldable pub put_oauth_state : OauthState → ℕ → Db → Result (Unit {0}) × Db
put_oauth_state st now db =
    let states = select (is_waiting now) db.oauth_states in
    if any (has_state st.state) states || not (any (is_user st.user_id) db.users)
    then (err constraint, record db { oauth_states = states })
    else (ok tt, record db { oauth_states = states ++ st ∷ [] })

-- time.Now().After(exp)
abbrev pub is_late : ℕ → OauthState → Bool
is_late now st = ltb (st.expires_at * 1000000000) now

-- TakeOAuthState; a state that has expired stays, since the error rolls its deletion back.
unfoldable pub take_oauth_state : Text → ℕ → Db → Result OauthState × Db
take_oauth_state state now db = with_tx db (elim (find_first (has_state state) db.oauth_states) [
  | none ↦ (err not_found, db)
  | some st ↦
      let left : Db = record db {
        oauth_states = select (λ (t : OauthState). not (has_state state t)) db.oauth_states;
      } in
      if is_late now st then (err not_found, left) else (ok st, left)
])
