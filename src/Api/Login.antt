-- ===== src/Api/Login.antt =====
-- Signing in and out: login and logout of src/svc/internal/api/router.go, with authenticateLogin and
-- resetWithTOTP of totp.go. The clock is read by Allow, for the codes, by Fail and by CreateSession,
-- each at its own time; what auth.NewSessionID makes is the argument `sid`.
pub mod Entry
use dcalcon.Base.{
  ℕ, ◌+◌, Bool, true, false, not, ◌&&◌, ◌||◌, Option, none, some, List, [], ◌∷◌, ◌++◌, Text, codes,
  same, trim_space, to_lower, if◌then◌else◌,
}
use dcalcon.Ratelimit.{Limiter, allow, fail, success}
use dcalcon.Storage.{User, Result, ok, err, Db}
use dcalcon.Storage.Users.{user_by_username, authenticate, set_password, delete_sessions_for_user}
use dcalcon.Storage.Sessions.{create_session, delete_session}
use dcalcon.Storage.AppPasswords.{is_app_password_secret}
use dcalcon.Auth.{Principal, retry_after}
use dcalcon.Api.{
  Crypto, Reply, failed, internal, too_many, status, signed_in, valid_password, audit_as,
}
use dcalcon.Api.Totp.{totp_fields, valid_code}

-- What authenticateLogin answers: a user, errTOTPRequired or ErrUnauthorized.
pub data Outcome : Type 0 where
  entered : User → Outcome
  code_required refused : Outcome

-- What authenticateLogin does once the password is right.
unfoldable pub second_factor : Crypto → ℕ → Text → User → Result (Text × Text × Bool) → Outcome
second_factor c now code u (err e) = refused
second_factor c now code u (ok (secret, pending, enabled)) =
    if not enabled
    then entered u
    else if same code []
    then code_required
    else if valid_code c now code secret
    then entered u
    else refused

-- authenticateLogin
unfoldable pub authenticate_login : Crypto → ℕ → Db → Text → Text → Text → Outcome
unfolding second_factor totp_fields
authenticate_login c now db username password code =
    let name = trim_space username in
    let given = trim_space password in
    if same name [] || same given []
    then refused
    else if is_app_password_secret given
    then refused
    else elim (authenticate c.compare db name given) [
      | err e ↦ refused
      | ok u ↦ second_factor c now (trim_space code) u (totp_fields c db u.id)
    ]

-- The body of login.
pub record Credentials : Type 0 where
  pub username : Text
  pub password : Text
  pub totp : Text

-- What the handlers keep: the limiter and the database.
abbrev pub Shared : Type 0
Shared = Option Limiter × Db

-- What a handler answers after a failed attempt.
unfoldable pub refuse : ℕ → Text → Text → Option Limiter → Db → Reply × Shared
refuse later key message lim db =
    let ((locked, retry), left) = fail later key lim in
    (if locked then too_many (retry_after retry) else failed 401 message, (left, db))

-- What login does with the outcome of CreateSession.
abbrev pub opened : User → Text → Option Limiter → Result (Unit {0}) × Db → Reply × Shared
opened u sid lim (err e, db) = (failed 500 (codes "session"), (lim, db))
opened u sid lim (ok t, db) = (signed_in u sid, (lim, db))

-- What login does with the outcome of authenticateLogin.
unfoldable pub enter :
    Crypto → ℕ → ℕ → ℕ → Text → Text → Option Limiter → Db → Outcome → Reply × Shared
unfolding refuse
enter c ttl later at key sid lim db code_required =
    (failed 401 (codes "authenticator code required"), (lim, db))
enter c ttl later at key sid lim db refused = refuse later key (codes "invalid credentials") lim db
enter c ttl later at key sid lim db (entered u) =
    opened u sid (success key lim) (create_session c.hash_token sid u.id ttl at db)

-- login; `ttl` is the lifetime of a session in the configuration.
unfoldable pub login :
    Crypto → ℕ → ℕ → ℕ → ℕ → ℕ → Text → Text → Option Credentials → Shared → Reply × Shared
unfolding authenticate_login enter
login c ttl now when later at ip sid none (lim, db) = (failed 400 (codes "invalid json"), (lim, db))
login c ttl now when later at ip sid (some body) (lim, db) =
    let key = codes "login:" ++ ip ++ b':' ∷ to_lower c.table (trim_space body.username) in
    let ((allowed, retry), left) = allow now key lim in
    if not allowed
    then (too_many (retry_after retry), (left, db))
    else enter c ttl later at key sid left db
        (authenticate_login c when db body.username body.password body.totp)

-- logout, of a request with or without the cookie of a session.
unfoldable pub logout : Crypto → Option Text → Db → Reply × Db
logout c none db = (status (codes "ok"), db)
logout c (some sid) db = (status (codes "ok"), delete_session c.hash_token sid db)

-- What resetWithTOTP does with the outcome of SetPassword.
abbrev pub changed :
    Option Principal → User → Text → Option Limiter → Result (Unit {0}) × Db → Reply × Shared
changed actor u key lim (err e, db) = (internal e, (lim, db))
changed actor u key lim (ok t, db) = (
  status (codes "ok"),
  (
    success key lim,
    audit_as actor (codes "password.reset-totp") u.username (delete_sessions_for_user u.id db),
  ),
)

-- The user's code is right: no error, enabled, and valid.
unfoldable pub has_code : Crypto → ℕ → Text → Result (Text × Text × Bool) → Bool
has_code c now code (err e) = false
has_code c now code (ok (secret, pending, enabled)) = enabled && valid_code c now code secret

-- The body of resetWithTOTP.
pub record CodeReset : Type 0 where
  pub username : Text
  pub code : Text
  pub password : Text

-- resetWithTOTP, for a key that the limiter lets through.
unfoldable pub reset_allowed :
    Crypto → Option Principal → ℕ → ℕ → Text → CodeReset → Option Limiter → Db → Reply × Shared
unfolding refuse has_code totp_fields
reset_allowed c actor when later key body lim db =
    let message = codes "invalid username or authenticator code" in
    elim (user_by_username db (trim_space body.username)) [
      | err e ↦ refuse later key message lim db
      | ok u ↦
          if not u.is_active || not (has_code c when body.code (totp_fields c db u.id))
          then refuse later key message lim db
          else changed actor u key lim (set_password c.hash u.id body.password db)
    ]

-- resetWithTOTP
unfoldable pub reset_with_totp :
    Crypto → Option Principal → ℕ → ℕ → ℕ → Text → Option CodeReset → Shared → Reply × Shared
unfolding reset_allowed
reset_with_totp c actor now when later ip none (lim, db) =
    (failed 400 (codes "invalid json"), (lim, db))
reset_with_totp c actor now when later ip (some body) (lim, db) =
    let key = codes "reset-totp:" ++ ip ++ b':' ∷ to_lower c.table (trim_space body.username) in
    let ((allowed, retry), left) = allow now key lim in
    if not (valid_password c.table body.password)
    then (failed 400 (codes "password must be at least 8 characters"), (lim, db))
    else if not allowed
    then (too_many (retry_after retry), (left, db))
    else reset_allowed c actor when later key body left db
