-- ===== src/Auth.antt =====
-- src/svc/internal/auth/auth.go: who a request is from. The address that httpx.ClientIP gives is the
-- argument `ip`; the clock is read by Allow, by AuthenticateDAV and by Fail, each at its own time.
-- What the next handler answers is outside the model: `served` says that it is called.
pub mod Lockout
pub mod Entry
use dcalcon.Base.{
  ℕ, ◌+◌, ◌/◌, Bool, true, false, not, Option, none, some, List, [], ◌∷◌, ◌++◌, Text, codes, same,
  drop, trim_space, to_lower, has_prefix, if◌then◌else◌,
}
use dcalcon.Ratelimit.{Limiter, allow, fail, success}
use dcalcon.Storage.{Role, User, Result, ok, err, Db}
use dcalcon.Storage.Users.{is_role_admin}
use dcalcon.Storage.Sessions.{user_by_session}
use dcalcon.Storage.AppPasswords.{authenticate_dav}

-- Principal
pub record Principal : Type 0 where
  pub id : ℕ
  pub username : Text
  pub email : Text
  pub display_name : Text
  pub role : Role

abbrev pub principal_of : User → Principal
principal_of u = record {
  id = u.id;
  username = u.username;
  email = u.email;
  display_name = u.display_name;
  role = u.role;
}

-- Principal.IsAdmin
unfoldable pub is_admin : Principal → Bool
is_admin p = is_role_admin p.role

-- What is written, or the next handler.
pub data Answer : Type 0 where
  unauthorized forbidden : Answer
  too_many_attempts : ℕ → Answer
  served : Option Principal → Answer

-- int(retry.Seconds()) + 1
abbrev pub retry_after : ℕ → ℕ
retry_after wait = wait / 1000000000 + 1

-- The key of the limiter in Basic.
unfoldable pub login_key : (ℕ → ℕ) → Text → Text → Text
login_key table ip user = codes "dav:" ++ ip ++ b':' ∷ to_lower table (trim_space user)

-- What Basic does with the outcome of AuthenticateDAV.
unfoldable pub answer_login :
    ℕ → Text → Option Limiter → Result User × Db → Answer × Option Limiter × Db
answer_login later key lim (ok u, db) = (served (some (principal_of u)), success key lim, db)
answer_login later key lim (err e, db) =
    let ((locked, retry), left) = fail later key lim in
    (if locked then too_many_attempts (retry_after retry) else unauthorized, left, db)

-- Basic; the credentials of a request without an Authorization header of that scheme are `none`.
unfoldable pub basic :
    (ℕ → ℕ)
    → (Text → Text → Bool)
    → ℕ
    → ℕ
    → ℕ
    → Text
    → Option (Text × Text)
    → Option Limiter
    → Db
    → Answer × Option Limiter × Db
unfolding login_key answer_login
basic table compare now at later ip none lim db = (unauthorized, lim, db)
basic table compare now at later ip (some (user, pass)) lim db =
    let key = login_key table ip user in
    let ((allowed, retry), left) = allow now key lim in
    if same user []
    then (unauthorized, lim, db)
    else if not allowed
    then (too_many_attempts (retry_after retry), left, db)
    else answer_login later key left (authenticate_dav compare at user pass db)

abbrev pub cookie_value : Option Text → Text
cookie_value none = []
cookie_value (some value) = value

-- The token of a request, from its cookie or its Authorization header.
unfoldable pub session_token : (ℕ → ℕ) → Option Text → Text → Text
session_token table cookie header =
    let token = cookie_value cookie in
    if not (same token [])
    then token
    else if has_prefix (to_lower table header) (codes "bearer ")
    then trim_space (drop 7 header)
    else []

-- What SessionOrBearer does with the outcome of UserBySession.
abbrev pub answer_session : Result User × Db → Answer × Db
answer_session (ok u, db) = (served (some (principal_of u)), db)
answer_session (err e, db) = (unauthorized, db)

-- SessionOrBearer
unfoldable pub session_or_bearer :
    (ℕ → ℕ) → (Text → Text) → ℕ → Option Text → Text → Db → Answer × Db
unfolding session_token
session_or_bearer table hash_token now cookie header db =
    let token = session_token table cookie header in
    if same token []
    then (unauthorized, db)
    else answer_session (user_by_session hash_token now token db)

-- RequireAdmin, given the principal of the context.
unfoldable pub require_admin : Option Principal → Answer
unfolding is_admin
require_admin none = forbidden
require_admin (some p) = if is_admin p then served (some p) else forbidden
