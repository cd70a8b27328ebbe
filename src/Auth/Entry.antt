-- ===== src/Auth/Entry.antt =====
-- Whom Basic and SessionOrBearer of src/svc/internal/auth/auth.go serve.
use dcalcon.Base.{
  ℕ, Bool, true, false, Option, some, [], Text, same, ◌≡◌, refl, if◌then◌else◌, ◌⊎◌, inl, inr,
  Bool-cases,
}
use dcalcon.Ratelimit.{Limiter, allow, fail, success}
use dcalcon.Ratelimit.Lockout.{success-allows}
use dcalcon.Storage.{User, Error, Result, ok, err, Db}
use dcalcon.Storage.Users.{user_by_username, totp_state}
use dcalcon.Storage.Sessions.{user_by_session, delete_session}
use dcalcon.Storage.Sessions.Ends.{user_by_session-delete_session}
use dcalcon.Storage.AppPasswords.{totp_on}
use dcalcon.Storage.AppPasswords.Login.{has_app_password, authenticate_dav_sound}
use dcalcon.Auth.{
  Principal, principal_of, unauthorized, served, login_key, answer_login, basic, session_token,
  answer_session, session_or_bearer,
}

-- What is known of a user whom Basic serves.
abbrev pub Entitled : (Text → Text → Bool) → Text → Text → Db → User → Type 0
Entitled compare user pass db u =
    (user_by_username db user ≡ ok u)
    × (u.is_active ≡ true)
    × (((compare u.password_hash pass ≡ true) × (totp_on (totp_state db u.id) ≡ false))
        ⊎ (has_app_password compare db u.id pass ≡ true))

served-login :
    (later : ℕ) (key : Text) (lim : Option Limiter) (r : Result User × Db) (p : Option Principal)
    → (answer_login later key lim r).0 ≡ served p
    → (u : User) × (r.0 ≡ ok u)
      × (p ≡ some (principal_of u))
      × ((answer_login later key lim r).1 ≡ success key lim)
unfolding answer_login
served-login later key lim (ok u, db) p h = (u, refl, cc, refl)
served-login later key lim (err e, db) p h = elim (Bool-cases (fail later key lim).0.0) [
  | inl locked ↦ let g = rw locked at h in absurd cc
  | inr free ↦ let g = rw free at h in absurd cc
]

-- A request that Basic serves is from an active user of the name in it, of whom either the password
-- is the one in it and one-time codes are off, or an app password is, and the key is let through at
-- any later time.
pub basic-Entitled :
    (table : ℕ → ℕ) (compare : Text → Text → Bool) (now at later next : ℕ) (ip user pass : Text)
    (lim : Option Limiter) (db : Db) (p : Option Principal)
    → (basic table compare now at later ip (some (user, pass)) lim db).0 ≡ served p
    → (u : User) × (p ≡ some (principal_of u))
      × Entitled compare user pass db u
      × ((allow next
            (login_key table ip user)
            (basic table compare now at later ip (some (user, pass)) lim db).1).0
          ≡ (true, 0))
unfolding basic login_key
basic-Entitled table compare now at later next ip user pass lim db p h =
    elim (Bool-cases (same user [])) [
      | inl empty ↦ let g = rw empty at h in absurd cc
      | inr named ↦ elim (Bool-cases (allow now (login_key table ip user) lim).0.0) [
        | inr locked ↦ let g = rw (named, locked) at h in absurd cc
        | inl free ↦
            let g = rw (named, free) at h in
            let (u, found, same_p, left) = served-login later (login_key table ip user) _ _ p g in
            (
              u,
              same_p,
              authenticate_dav_sound compare at user pass db u found,
              rw (named, free) (rw left (success-allows next (login_key table ip user) _)),
            )
      ]
    ]

answer-err :
    (b : Bool) (db : Db) (r : Result User × Db) (e : Error)
    → r.0 ≡ err e
    → (if b then (unauthorized, db) else answer_session r).0 ≡ unauthorized
answer-err true db r e h = refl
answer-err false db (ok u, next) e h = absurd cc
answer-err false db (err x, next) e h = refl

-- After DeleteSession of the token that a request carries, in its cookie or its header, the request
-- is unauthorized at any time.
pub session_or_bearer-delete_session :
    (table : ℕ → ℕ) (hash_token : Text → Text) (now : ℕ) (cookie : Option Text) (header : Text)
    (db : Db)
    → (session_or_bearer table hash_token now cookie header
        (delete_session hash_token (session_token table cookie header) db)).0
      ≡ unauthorized
unfolding session_or_bearer
session_or_bearer-delete_session table hash_token now cookie header db =
    let token = session_token table cookie header in
    let left = delete_session hash_token token db in
    answer-err (same token []) left (user_by_session hash_token now token left) Error.unauthorized
      (user_by_session-delete_session hash_token now token db)
