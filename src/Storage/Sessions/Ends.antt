-- ===== src/Storage/Sessions/Ends.antt =====
-- When a session of src/svc/internal/storage/users.go begins and ends.
use dcalcon.Base.{
  ℕ, ◌+◌, ◌/◌, Bool, true, false, not, ◌||◌, none, some, List, [], ◌∷◌, ◌++◌, Text, same, same_refl,
  find_first, find_first_sound, find_first-selected, any, ◌≡◌, ◌≢◌, refl, ◌∙◌, arith, Bool-cases,
  Option-cases, inl, inr, if◌then◌else◌, find_first-select-none, find_first-append,
  find_first-absent, ◌==◌,
}
use dcalcon.Storage.{User, Session, unauthorized, Result-cases, ok, err, Db}
use dcalcon.Storage.Users.{is_user, user_by_id, delete_sessions_for_user}
use dcalcon.Storage.Sessions.{
  has_id, create_session, delete_session, is_expired, session_user, user_by_session_id,
  user_by_session,
}

pub no_session :
    (now : ℕ) (db : Db) (id : Text)
    → find_first (has_id id) db.sessions ≡ none
    → user_by_session_id now db id ≡ err unauthorized
unfolding user_by_session_id
no_session now db id e = rw (e, user_by_session_id) refl

-- After DeleteSession nobody is signed in by the session's id, at any time.
pub user_by_session-delete_session :
    (hash_token : Text → Text) (now : ℕ) (id : Text) (db : Db)
    → (user_by_session hash_token now id (delete_session hash_token id db)).0 ≡ err unauthorized
unfolding user_by_session delete_session
user_by_session-delete_session hash_token now id db = elim (Bool-cases (same id [])) [
  | inl h ↦ rw h refl
  | inr h ↦
      let gone = delete_session hash_token id db in
      let hashed : user_by_session_id now gone (hash_token id) ≡ err unauthorized =
        no_session now gone (hash_token id)
          (find_first-select-none (has_id (hash_token id)) _ db.sessions (λ s k. rw k refl)) in
      let raw : user_by_session_id now gone id ≡ err unauthorized =
        no_session now gone id
          (find_first-select-none (has_id id) _ db.sessions (λ s k. ground arith)) in
      rw (h, hashed, raw, user_by_session) refl
]

session_user-owner :
    (now : ℕ) (s : Session) (users : List User) (u : User)
    → session_user now s (find_first (is_user s.user_id) users) ≡ ok u
    → u.id ≡ s.user_id
unfolding session_user
session_user-owner now s users u h = elim (Option-cases (find_first (is_user s.user_id) users)) [
  | inl e ↦ let h2 = rw e at h in cc
  | inr (v, e) ↦
      let own : (v.id == s.user_id) ≡ true = find_first_sound (is_user s.user_id) users v e in
      let h2 = rw e at h in ground arith
]

signed_out_of :
    (now : ℕ) (user : ℕ) (db : Db) (id : Text) (u : User)
    → user_by_session_id now (delete_sessions_for_user user db) id ≡ ok u
    → u.id ≢ user
unfolding user_by_session_id delete_sessions_for_user
signed_out_of now user db id u h =
    elim (Option-cases (find_first (has_id id) (delete_sessions_for_user user db).sessions)) [
      | inl e ↦ absurd (cc (no_session now (delete_sessions_for_user user db) id e, h))
      | inr (s, e) ↦
          let kept : not (s.user_id == user) ≡ true =
            find_first-selected (has_id id) _ db.sessions s e in
          let own : u.id ≡ s.user_id =
            session_user-owner now s db.users u (rw (e, user_by_session_id) at h) in
          ground arith
    ]

-- After DeleteSessionsForUser nobody is signed in as that user by any session, at any time.
pub user_by_session-delete_sessions_for_user :
    (hash_token : Text → Text) (now user : ℕ) (id : Text) (db : Db) (u : User)
    → (user_by_session hash_token now id (delete_sessions_for_user user db)).0 ≡ ok u
    → u.id ≢ user
unfolding user_by_session
user_by_session-delete_sessions_for_user hash_token now user id db u h =
    let left = delete_sessions_for_user user db in
    elim (Bool-cases (same id [])) [
      | inl e ↦ let g = rw e at h in absurd cc
      | inr e ↦ elim (Result-cases (user_by_session_id now left (hash_token id))) [
        | inr (v, k) ↦ let g = rw (e, k) at h in signed_out_of now user db (hash_token id) u (k ∙ g)
        | inl (x, k) ↦ elim (Result-cases (user_by_session_id now left id)) [
          | inr (v, l) ↦ let g = rw (e, k, l) at h in signed_out_of now user db id u (l ∙ g)
          | inl (y, l) ↦ let g = rw (e, k, l) at h in absurd cc
        ]
      ]
    ]

pub user_of_ok :
    (db : Db) (id : ℕ) (u : User)
    → user_by_id db id ≡ ok u
    → find_first (is_user id) db.users ≡ some u
unfolding user_by_id
user_of_ok db id u h = elim (Option-cases (find_first (is_user id) db.users)) [
  | inl e ↦ let g = rw e at h in absurd cc
  | inr (v, e) ↦ let g = rw e at h in cc
]

session_found :
    (now : ℕ) (db : Db) (id : Text) (s : Session) (u : User)
    → find_first (has_id id) db.sessions ≡ some s
    → user_by_id db s.user_id ≡ ok u
    → u.is_active ≡ true
    → user_by_session_id now db id
      ≡ (if is_expired now s.expires_at then err unauthorized else ok u)
unfolding session_user user_by_session_id
session_found now db id s u e found active =
    rw (e, user_by_session_id, user_of_ok db s.user_id u found, active) (ground arith)

-- Without a session that is stored under the id itself, the one under its hash decides.
by_hash :
    (hash_token : Text → Text) (now : ℕ) (id : Text) (db : Db) (refused : Bool) (u : User)
    → same id [] ≡ false
    → find_first (has_id id) db.sessions ≡ none
    → user_by_session_id now db (hash_token id) ≡ (if refused then err unauthorized else ok u)
    → (user_by_session hash_token now id db).0 ≡ (if refused then err unauthorized else ok u)
unfolding user_by_session
by_hash hash_token now id db true u given raw e =
    rw (given, e, no_session now db id raw, user_by_session) refl
by_hash hash_token now id db false u given raw e = rw (given, e, user_by_session) refl

-- The session that CreateSession makes, of an id that is not empty and is not itself the id of a
-- stored session or its own hash, signs an active user in up to the millisecond at which it
-- expires and nobody after it.
pub user_by_session-create_session :
    (hash_token : Text → Text) (id : Text) (user ttl now later : ℕ) (db : Db) (u : User)
    → same id [] ≡ false
    → any (has_id id) db.sessions ≡ false
    → same (hash_token id) id ≡ false
    → user_by_id db user ≡ ok u
    → u.is_active ≡ true
    → (create_session hash_token id user ttl now db).0 ≡ ok tt
    → (user_by_session hash_token later id (create_session hash_token id user ttl now db).1).0
      ≡ (if is_expired later ((now + ttl) / 1000000) then err unauthorized else ok u)
unfolding create_session user_by_id
user_by_session-create_session hash_token id user ttl now later db u given raw other found active
      h =
    elim (Bool-cases
      (any (has_id (hash_token id)) db.sessions || not (any (is_user user) db.users))) [
        | inl e ↦ let g = rw e at h in absurd cc
        | inr e ↦
            let made : Session = record {
              id = hash_token id;
              user_id = user;
              expires_at = (now + ttl) / 1000000;
            } in
            let next : Db = record db { sessions = db.sessions ++ made ∷ [] } in
            let stored : find_first (has_id (hash_token id)) next.sessions ≡ some made =
              rw
                (
                  find_first-append (has_id (hash_token id)) db.sessions (made ∷ []),
                  find_first-absent (has_id (hash_token id)) db.sessions (ground arith),
                )
                (unfold find_first in rw (same_refl (hash_token id)) refl) in
            let absent : find_first (has_id id) next.sessions ≡ none =
              rw
                (
                  find_first-append (has_id id) db.sessions (made ∷ []),
                  find_first-absent (has_id id) db.sessions raw,
                )
                (unfold find_first in rw other refl) in
            rw e (
              by_hash hash_token later id next (is_expired later made.expires_at) u given absent
                (session_found later next (hash_token id) made u stored found active))
      ]

-- The stored id of a session, which is the hash of the id that the client holds, itself signs in
-- whoever presents it where its own hash is not the id of a stored session.
pub stored_id_signs_in :
    (hash_token : Text → Text) (now : ℕ) (stored : Text) (db : Db) (u : User)
    → same stored [] ≡ false
    → any (has_id (hash_token stored)) db.sessions ≡ false
    → user_by_session_id now db stored ≡ ok u
    → (user_by_session hash_token now stored db).0 ≡ ok u
unfolding user_by_session
stored_id_signs_in hash_token now stored db u given fresh e =
    rw
      (
        given,
        no_session now db (hash_token stored)
            (find_first-absent (has_id (hash_token stored)) db.sessions fresh),
        e,
        user_by_session,
      )
      refl
