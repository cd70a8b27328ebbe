-- ===== src/Storage/Purge/Invisible.antt =====
-- What PurgeExpired of src/svc/internal/storage/purge.go leaves for those who sign in.
use dcalcon.Base.{
  Option, if◌then◌else◌, [], ℕ, ◌≤◌, true, none, some, Text, same, find_first, count, ◌≡◌, refl,
  ◌∙◌, sym, arith, Bool-cases, Option-cases, inl, inr, find_first-select-kept,
  find_first-select-absent, find_first-select-lost,
}
use dcalcon.Storage.{User, Session, OauthState, unauthorized, not_found, ok, err, Result-cases, Db}
use dcalcon.Storage.Users.{is_user}
use dcalcon.Storage.Sessions.{has_id, is_expired, session_user, user_by_session_id, user_by_session}
use dcalcon.Storage.Sessions.Ends.{no_session}
use dcalcon.Storage.OauthStates.{has_state, is_waiting, is_late, take_oauth_state}
use dcalcon.Storage.Purge.{is_open, purge_expired}

-- The primary keys of sessions and oauth_states.
pub record IsKeyed (db : Db) : Type 0 where
  pub session : (id : Text) → count (has_id id) db.sessions ≤ 1
  pub state : (state : Text) → count (has_state state) db.oauth_states ≤ 1

found_session :
    (now : ℕ) (db : Db) (id : Text) (s : Session)
    → find_first (has_id id) db.sessions ≡ some s
    → user_by_session_id now db id ≡ session_user now s (find_first (is_user s.user_id) db.users)
unfolding user_by_session_id
found_session now db id s e = rw (e, user_by_session_id) refl

session_user-late :
    (now : ℕ) (s : Session) (owner : Option User)
    → is_expired now s.expires_at ≡ true
    → session_user now s owner ≡ err unauthorized
unfolding session_user
session_user-late now s none late = refl
session_user-late now s (some u) late = rw late refl

session-purged :
    (now later : ℕ) (db : Db) (id : Text)
    → IsKeyed db
    → now ≤ later
    → user_by_session_id later (purge_expired now db).1 id ≡ user_by_session_id later db id
unfolding purge_expired
session-purged now later db id keyed order =
    let left = (purge_expired now db).1 in
    elim (Option-cases (find_first (has_id id) db.sessions)) [
      | inl e ↦
          no_session later left id
            (find_first-select-absent (has_id id) (is_open now) db.sessions e)
          ∙ sym (no_session later db id e)
      | inr (s, e) ↦ elim (Bool-cases (is_open now s)) [
        | inl k ↦
            found_session later left id s
              (find_first-select-kept (has_id id) (is_open now) db.sessions s e k)
            ∙ sym (found_session later db id s e)
        | inr k ↦
            no_session later left id (
              find_first-select-lost (has_id id) (is_open now) db.sessions s (keyed.session id) e k)
            ∙ sym (found_session later db id s e ∙ session_user-late later s _ (ground arith))
      ]
    ]

no_state :
    (now : ℕ) (db : Db) (state : Text)
    → find_first (has_state state) db.oauth_states ≡ none
    → (take_oauth_state state now db).0 ≡ err not_found
unfolding take_oauth_state
no_state now db state e = rw (e, take_oauth_state) refl

found_state :
    (now : ℕ) (db : Db) (state : Text) (st : OauthState)
    → find_first (has_state state) db.oauth_states ≡ some st
    → (take_oauth_state state now db).0 ≡ (if is_late now st then err not_found else ok st)
unfolding take_oauth_state
found_state now db state st e = elim (Bool-cases (is_late now st)) [
  | inl k ↦ rw (e, take_oauth_state, k) refl
  | inr k ↦ rw (e, take_oauth_state, k) refl
]

state-purged :
    (now later : ℕ) (db : Db) (state : Text)
    → IsKeyed db
    → now ≤ later
    → (take_oauth_state state later (purge_expired now db).1).0
      ≡ (take_oauth_state state later db).0
unfolding purge_expired
state-purged now later db state keyed order =
    let left = (purge_expired now db).1 in
    elim (Option-cases (find_first (has_state state) db.oauth_states)) [
      | inl e ↦
          no_state later left state
            (find_first-select-absent (has_state state) (is_waiting now) db.oauth_states e)
          ∙ sym (no_state later db state e)
      | inr (s, e) ↦ elim (Bool-cases (is_waiting now s)) [
        | inl k ↦
            found_state later left state s
              (find_first-select-kept (has_state state) (is_waiting now) db.oauth_states s e k)
            ∙ sym (found_state later db state s e)
        | inr k ↦
            let late : is_late later s ≡ true = ground arith in
            no_state later left state (
              find_first-select-lost (has_state state) (is_waiting now) db.oauth_states s
                (keyed.state state) e k)
            ∙ sym (found_state later db state s e ∙ rw late refl)
      ]
    ]

same_answer :
    (hash_token : Text → Text) (now : ℕ) (id : Text) (left db : Db)
    → user_by_session_id now left (hash_token id) ≡ user_by_session_id now db (hash_token id)
    → user_by_session_id now left id ≡ user_by_session_id now db id
    → (user_by_session hash_token now id left).0 ≡ (user_by_session hash_token now id db).0
unfolding user_by_session
same_answer hash_token now id left db hashed raw = elim (Bool-cases (same id [])) [
  | inl e ↦ rw e refl
  | inr e ↦ elim (Result-cases (user_by_session_id now db (hash_token id))) [
    | inr (u, k) ↦ rw (e, hashed, k, user_by_session) refl
    | inl (x, k) ↦ elim (Result-cases (user_by_session_id now db id)) [
      | inr (u, l) ↦ rw (e, hashed, k, raw, l, user_by_session) refl
      | inl (y, l) ↦ rw (e, hashed, k, raw, l, user_by_session) refl
    ]
  ]
]

-- Where the ids of sessions and the states of pending sign-ins are distinct, PurgeExpired changes
-- nothing that can be seen from its time on: UserBySession answers every id, and TakeOAuthState
-- every state, as it does without the purge.
pub purge_expired-invisible :
    (hash_token : Text → Text) (now later : ℕ) (db : Db) (id state : Text)
    → IsKeyed db
    → now ≤ later
    → ((user_by_session hash_token later id (purge_expired now db).1).0
        ≡ (user_by_session hash_token later id db).0)
      × ((take_oauth_state state later (purge_expired now db).1).0
          ≡ (take_oauth_state state later db).0)
purge_expired-invisible hash_token now later db id state keyed order = (
  same_answer hash_token later id (purge_expired now db).1 db
      (session-purged now later db (hash_token id) keyed order)
      (session-purged now later db id keyed order),
  state-purged now later db state keyed order,
)
