-- ===== src/Api/Login/Entry.antt =====
-- Whom login of src/svc/internal/api/router.go signs in.
use dcalcon.Base.{
  ℕ, ◌+◌, ◌/◌, Bool, true, false, ◌||◌, Option, some, [], ◌∷◌, ◌++◌, Text, codes, same, any,
  trim_space, to_lower, ◌≡◌, refl, ap, sym, ◌∙◌, Bool-cases, ◌⊎◌, inl, inr, if◌then◌else◌,
}
use dcalcon.Ratelimit.{Limiter, allow, fail, success}
use dcalcon.Storage.{User, Error, Result, Result-cases, ok, err, Db}
use dcalcon.Storage.Users.{user_by_id, user_by_username, authenticate}
use dcalcon.Storage.Sessions.{has_id, is_expired, create_session, user_by_session}
use dcalcon.Storage.Sessions.Ends.{user_by_session-create_session}
use dcalcon.Storage.AppPasswords.{totp_on, is_app_password_secret}
use dcalcon.Storage.AppPasswords.Login.{authenticate_sound}
use dcalcon.Auth.{principal_of, Answer, served, answer_session, session_token, session_or_bearer}
use dcalcon.Api.{Crypto, signed_in}
use dcalcon.Api.Totp.{totp_fields, valid_code}
use dcalcon.Api.Login.{
  Outcome, entered, code_required, refused, second_factor, authenticate_login, Credentials, refuse,
  opened, enter, login, has_code,
}

second_factor-entered :
    (c : Crypto) (now : ℕ) (code : Text) (u v : User) (fields : Result (Text × Text × Bool))
    → second_factor c now code u fields ≡ entered v
    → (u ≡ v) × ((totp_on fields ≡ false) ⊎ (has_code c now code fields ≡ true))
unfolding second_factor has_code
second_factor-entered c now code u v (err e) h = absurd cc
second_factor-entered c now code u v (ok (secret, pending, false)) h = (cc, inl refl)
second_factor-entered c now code u v (ok (secret, pending, true)) h =
    elim (Bool-cases (same code [])) [
      | inl empty ↦ let g = rw empty at h in absurd cc
      | inr given ↦ elim (Bool-cases (valid_code c now code secret)) [
        | inr bad ↦ let g = rw (given, bad) at h in absurd cc
        | inl good ↦ let g = rw (given, good) at h in (cc, inr good)
      ]
    ]

-- A user who may sign in with a name, a password and a code.
abbrev pub MaySignIn : Crypto → ℕ → Db → Credentials → User → Type 0
MaySignIn c when db body u =
    (user_by_username db (trim_space body.username) ≡ ok u)
    × (u.is_active ≡ true)
    × (c.compare u.password_hash (trim_space body.password) ≡ true)
    × ((totp_on (totp_fields c db u.id) ≡ false)
        ⊎ (has_code c when (trim_space body.totp) (totp_fields c db u.id) ≡ true))

entered-MaySignIn :
    (c : Crypto) (when : ℕ) (db : Db) (body : Credentials) (u : User)
    → authenticate_login c when db body.username body.password body.totp ≡ entered u
    → MaySignIn c when db body u
unfolding authenticate_login
entered-MaySignIn c when db body u h =
    elim (Bool-cases (same (trim_space body.username) [] || same (trim_space body.password) [])) [
      | inl missing ↦ let g = rw missing at h in absurd cc
      | inr given ↦ elim (Bool-cases (is_app_password_secret (trim_space body.password))) [
        | inl app ↦ let g = rw (given, app) at h in absurd cc
        | inr plain ↦
            elim (Result-cases
              (authenticate c.compare db (trim_space body.username) (trim_space body.password))) [
                | inl (e, wrong) ↦ let g = rw (given, plain, wrong) at h in absurd cc
                | inr (v, right) ↦
                    let g = rw (given, plain, right) at h in
                    let (same_user, factor) =
                      second_factor-entered c when (trim_space body.totp) v u
                        (totp_fields c db v.id) g in
                    let (named, active, secret) =
                      authenticate_sound c.compare db (trim_space body.username)
                        (trim_space body.password) v right in
                    rw (sym same_user) (named, active, secret, factor)
              ]
      ]
    ]

refuse-signs_nobody :
    (later : ℕ) (key message : Text) (lim : Option Limiter) (db : Db) (u : User) (sid : Text)
    → (refuse later key message lim db).0 ≡ signed_in u sid
    → ⊥
unfolding refuse
refuse-signs_nobody later key message lim db u sid h = elim (Bool-cases (fail later key lim).0.0) [
  | inl locked ↦ let g = rw locked at h in cc
  | inr free ↦ let g = rw free at h in cc
]

opened-signed_in :
    (u v : User) (sid s : Text) (lim : Option Limiter) (r : Result (Unit {0}) × Db)
    → (opened u sid lim r).0 ≡ signed_in v s
    → (u ≡ v) × (s ≡ sid) × (r.0 ≡ ok tt) × ((opened u sid lim r).1.1 ≡ r.1)
opened-signed_in u v sid s lim (err e, db) h = absurd cc
opened-signed_in u v sid s lim (ok tt, db) h = (cc, cc, refl, refl)

enter-signed_in :
    (c : Crypto) (ttl later at : ℕ) (key sid s : Text) (lim : Option Limiter) (db : Db)
    (o : Outcome) (u : User)
    → (enter c ttl later at key sid lim db o).0 ≡ signed_in u s
    → (o ≡ entered u)
      × (s ≡ sid)
      × ((create_session c.hash_token sid u.id ttl at db).0 ≡ ok tt)
      × ((enter c ttl later at key sid lim db o).1.1
          ≡ (create_session c.hash_token sid u.id ttl at db).1)
unfolding enter
enter-signed_in c ttl later at key sid s lim db code_required u h = absurd cc
enter-signed_in c ttl later at key sid s lim db refused u h =
    absurd (refuse-signs_nobody later key _ lim db u s h)
enter-signed_in c ttl later at key sid s lim db (entered v) u h =
    let (same_user, same_sid, stored, left) =
      opened-signed_in v u sid s (success key lim) (create_session c.hash_token sid v.id ttl at db)
        h in
    (
      ap entered same_user,
      same_sid,
      rw (sym same_user) stored,
      left ∙ ap (λ (w : User). (create_session c.hash_token sid w.id ttl at db).1) same_user,
    )

login-outcome :
    (c : Crypto) (ttl now when later at : ℕ) (ip sid s : Text) (body : Credentials)
    (lim : Option Limiter) (db : Db) (u : User)
    → (login c ttl now when later at ip sid (some body) (lim, db)).0 ≡ signed_in u s
    → (authenticate_login c when db body.username body.password body.totp ≡ entered u)
      × (s ≡ sid)
      × ((create_session c.hash_token sid u.id ttl at db).0 ≡ ok tt)
      × ((login c ttl now when later at ip sid (some body) (lim, db)).1.1
          ≡ (create_session c.hash_token sid u.id ttl at db).1)
unfolding login
login-outcome c ttl now when later at ip sid s body lim db u h =
    let key = codes "login:" ++ ip ++ b':' ∷ to_lower c.table (trim_space body.username) in
    elim (Bool-cases (allow now key lim).0.0) [
      | inr locked ↦ let g = rw locked at h in absurd cc
      | inl free ↦
          let g = rw free at h in
          let (o, same_sid, stored, left) =
            enter-signed_in c ttl later at key sid s (allow now key lim).1 db
              (authenticate_login c when db body.username body.password body.totp) u g in
          (o, same_sid, stored, rw free left)
    ]

-- Whom login signs in is an active user of the trimmed name, of whom the trimmed password is right,
-- and either one-time codes are off or the code is valid.
pub login-MaySignIn :
    (c : Crypto) (ttl now when later at : ℕ) (ip sid s : Text) (body : Credentials)
    (lim : Option Limiter) (db : Db) (u : User)
    → (login c ttl now when later at ip sid (some body) (lim, db)).0 ≡ signed_in u s
    → MaySignIn c when db body u
login-MaySignIn c ttl now when later at ip sid s body lim db u h =
    entered-MaySignIn c when db body u
      (login-outcome c ttl now when later at ip sid s body lim db u h).0

-- The answer of SessionOrBearer to a cookie that holds a session's id.
cookie-answer :
    (table : ℕ → ℕ) (hash_token : Text → Text) (now : ℕ) (sid header : Text) (db : Db)
    → same sid [] ≡ false
    → (session_or_bearer table hash_token now (some sid) header db).0
      ≡ (answer_session (user_by_session hash_token now sid db)).0
unfolding session_or_bearer session_token
cookie-answer table hash_token now sid header db given = rw (given, given) refl

answer-result :
    (r : Result User × Db) (expired : Bool) (u : User)
    → r.0 ≡ (if expired then err Error.unauthorized else ok u)
    → (answer_session r).0
      ≡ (if expired then Answer.unauthorized else served (some (principal_of u)))
answer-result (ok v, db) true u h = absurd cc
answer-result (ok v, db) false u h = let e : v ≡ u = cc in rw e refl
answer-result (err x, db) true u h = refl
answer-result (err x, db) false u h = absurd cc

-- The id that login answers with, as a cookie, is then served as its user up to the millisecond at
-- which the session expires and by nobody after it, if the user's id finds the user, and the id of
-- the session is not empty, not stored before, and not its own hash.
pub login-served :
    (c : Crypto) (ttl now when later at next : ℕ) (ip sid s header : Text) (body : Credentials)
    (lim : Option Limiter) (db : Db) (u : User)
    → (login c ttl now when later at ip sid (some body) (lim, db)).0 ≡ signed_in u s
    → user_by_id db u.id ≡ ok u
    → same s [] ≡ false
    → any (has_id s) db.sessions ≡ false
    → same (c.hash_token s) s ≡ false
    → (session_or_bearer c.table c.hash_token next
        (some s)
        header
        (login c ttl now when later at ip sid (some body) (lim, db)).1.1).0
      ≡ (if is_expired next ((at + ttl) / 1000000)
          then Answer.unauthorized
          else served (some (principal_of u)))
login-served c ttl now when later at next ip sid s header body lim db u h found given raw other =
    let (o, same_sid, stored, left) =
      login-outcome c ttl now when later at ip sid s body lim db u h in
    let (named, active, secret, factor) = entered-MaySignIn c when db body u o in
    let made = create_session c.hash_token s u.id ttl at db in
    let kept : (login c ttl now when later at ip sid (some body) (lim, db)).1.1 ≡ made.1 =
      left ∙ ap (λ t. (create_session c.hash_token t u.id ttl at db).1) (sym same_sid) in
    let done : made.0 ≡ ok tt = rw same_sid stored in
    rw kept (
      cookie-answer c.table c.hash_token next s header made.1 given
      ∙ answer-result (user_by_session c.hash_token next s made.1)
          (is_expired next ((at + ttl) / 1000000)) u
          (user_by_session-create_session c.hash_token s u.id ttl at next db u given raw other found
            active done))

authenticate-wrong :
    (compare : Text → Text → Bool) (db : Db) (username password : Text) (u : User)
    → user_by_username db username ≡ ok u
    → u.is_active ≡ true
    → compare u.password_hash password ≡ false
    → authenticate compare db username password ≡ err Error.unauthorized
unfolding authenticate
authenticate-wrong compare db username password u named active wrong =
    rw (named, authenticate) (rw (active, wrong) refl)

-- A password that has white space around it, which logs its user in by Authenticate, is refused by
-- authenticateLogin with any code if bcrypt's comparison refuses the password without the space.
pub authenticate_login-trims :
    (c : Crypto) (when : ℕ) (db : Db) (username password code : Text) (u : User)
    → authenticate c.compare db (trim_space username) password ≡ ok u
    → c.compare u.password_hash (trim_space password) ≡ false
    → authenticate_login c when db username password code ≡ refused
unfolding authenticate_login
authenticate_login-trims c when db username password code u right wrong =
    let (named, active, secret) =
      authenticate_sound c.compare db (trim_space username) password u right in
    let fails =
      authenticate-wrong c.compare db (trim_space username) (trim_space password) u named active
        wrong in
    elim (Bool-cases (same (trim_space username) [] || same (trim_space password) [])) [
      | inl missing ↦ rw missing refl
      | inr given ↦ elim (Bool-cases (is_app_password_secret (trim_space password))) [
        | inl app ↦ rw (given, app) refl
        | inr plain ↦ rw (given, plain, fails) refl
      ]
    ]
