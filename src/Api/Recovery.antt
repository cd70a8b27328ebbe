-- ===== src/Api/Recovery.antt =====
-- The recovery of an account: src/svc/internal/api/recovery.go. The token that newResetToken makes is
-- `plain`; what becomes of the mail is `delivered` and `last_error`, and `url` is its link. The wait
-- of padRecover is left out.
use dcalcon.Base.{
  ℕ, Bool, true, false, not, ◌||◌, Option, none, some, [], ◌++◌, Text, codes, same, trim_space,
  if◌then◌else◌,
}
use dcalcon.Ratelimit.{Limiter, allow, fail, success, hit}
use dcalcon.Storage.{User, Delivery, Result, ok, err, Db}
use dcalcon.Storage.Users.{user_by_id, user_by_email}
use dcalcon.Storage.Recovery.{
  replace_password_reset, consume_password_reset, insert_recovery_outbox, list_recovery_outbox,
}
use dcalcon.Auth.{Principal, retry_after}
use dcalcon.Api.{
  Crypto, Reply, failed, internal, too_many, status, acknowledged, recovery_sent, outbox_sent,
  valid_email, valid_password, path_id, audit_as,
}
use dcalcon.Api.Login.{Shared}

-- recoveryTTL
abbrev pub recovery_ttl : ℕ
recovery_ttl = 7200000000000

-- A reset that is asked for: the token, the link, and what becomes of the mail.
pub record Mail : Type 0 where
  pub plain : Text
  pub url : Text
  pub delivered : Delivery
  pub last_error : Text

-- What issueRecovery does with the outcome of ReplacePasswordReset.
unfoldable pub announce :
    Option Principal → User → Bool → Mail → Result (Unit {0}) × Db → Reply × Db
announce actor u reveal mail (err e, db) = (internal e, db)
announce actor u reveal mail (ok t, db) =
    let action = if reveal then codes "password.recover.admin" else codes "password.recover" in
    (
      if reveal then recovery_sent mail.url mail.delivered mail.last_error else acknowledged,
      audit_as actor action u.username
          (insert_recovery_outbox u.id u.email mail.delivered mail.last_error db).1,
    )

-- issueRecovery
unfoldable pub issue_recovery : Crypto → Option Principal → ℕ → User → Bool → Mail → Db → Reply × Db
unfolding announce
issue_recovery c actor now u reveal mail db =
    announce actor u reveal mail
      (replace_password_reset u.id (c.hash_token mail.plain) recovery_ttl now db)

abbrev pub with_limiter : Option Limiter → Reply × Db → Reply × Shared
with_limiter lim (reply, db) = (reply, (lim, db))

-- recover, for a key that the limiter lets through.
unfoldable pub recover_allowed :
    Crypto → Option Principal → ℕ → Option Text → Mail → Db → Reply × Db
unfolding issue_recovery
recover_allowed c actor at none mail db = (failed 400 (codes "invalid json"), db)
recover_allowed c actor at (some email) mail db =
    if not (valid_email c.parse_address email)
    then (failed 400 (codes "invalid email"), db)
    else elim (user_by_email db (trim_space email)) [
      | err e ↦ (acknowledged, db)
      | ok u ↦ if u.is_active then issue_recovery c actor at u false mail db else (acknowledged, db)
    ]

-- recover
unfoldable pub recover :
    Crypto → Option Principal → ℕ → ℕ → ℕ → Text → Option Text → Mail → Shared → Reply × Shared
unfolding recover_allowed
recover c actor now later at ip body mail (lim, db) =
    let ((allowed, retry), left) = hit now later (codes "recover:" ++ ip) lim in
    if not allowed
    then (too_many (retry_after retry), (left, db))
    else with_limiter left (recover_allowed c actor at body mail db)

-- What resetPassword does with the outcome of ConsumePasswordReset.
unfoldable pub reset_done :
    Option Principal → ℕ → Text → Option Limiter → Result User × Db → Reply × Shared
reset_done actor later key lim (ok u, db) =
    (status (codes "ok"), (success key lim, audit_as actor (codes "password.reset") u.username db))
reset_done actor later key lim (err e, db) =
    let ((locked, retry), left) = fail later key lim in
    (
      if locked
          then too_many (retry_after retry)
          else failed 400 (codes "this reset link is invalid or has expired"),
      (left, db),
    )

-- resetPassword; the body has the token and the new password.
unfoldable pub reset_password :
    Crypto → Option Principal → ℕ → ℕ → ℕ → Text → Option (Text × Text) → Shared → Reply × Shared
unfolding reset_done
reset_password c actor now at later ip body (lim, db) =
    let key = codes "reset:" ++ ip in
    let ((allowed, retry), left) = allow now key lim in
    if not allowed then (too_many (retry_after retry), (left, db)) else elim body [
      | none ↦ (failed 400 (codes "invalid json"), (left, db))
      | some (given, password) ↦
          let token = trim_space given in
          if same token [] || not (valid_password c.table password)
          then (
            failed 400 (codes "token and a password of at least 8 characters are required"),
            (left, db),
          )
          else reset_done actor later key left
              (consume_password_reset c.hash (c.hash_token token) password at db)
    ]

-- adminSendRecovery
unfoldable pub admin_send_recovery : Crypto → Option Principal → ℕ → Text → Mail → Db → Reply × Db
unfolding issue_recovery
admin_send_recovery c actor now param mail db = elim (path_id param) [
  | none ↦ (failed 400 (codes "invalid id"), db)
  | some id ↦ elim (user_by_id db id) [
    | err e ↦ (failed 404 (codes "user"), db)
    | ok u ↦
        if not u.is_active
        then (failed 400 (codes "user is disabled"), db)
        else issue_recovery c actor now u true mail db
  ]
]

-- adminRecoveryOutbox
unfoldable pub admin_recovery_outbox : Db → Reply
admin_recovery_outbox db = outbox_sent (list_recovery_outbox db 50)
