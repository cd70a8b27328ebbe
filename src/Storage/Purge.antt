-- ===== src/Storage/Purge.antt =====
-- The removal of expired rows: src/svc/internal/storage/purge.go. The clock, in nanoseconds, is the
-- argument `now` of both its readings.
pub mod Invisible
use dcalcon.Base.{false, ℕ, ◌-◌, ◌*◌, ◌/◌, Bool, not, ◌||◌, Option, none, some, select, count, ltb}
use dcalcon.Storage.{Session, PasswordReset, OauthState, Db}
use dcalcon.Storage.OauthStates.{is_waiting}

pub record PurgeStats : Type 0 where
  pub sessions : ℕ
  pub oauth : ℕ
  pub recovery : ℕ

-- The negation of expires_at < nowUTC(), on sessions.
abbrev pub is_open : ℕ → Session → Bool
is_open now s = not (ltb s.expires_at (now / 1000000))

-- used_at IS NOT NULL AND used_at < cutoff
abbrev pub used_before : ℕ → Option ℕ → Bool
used_before cutoff none = false
used_before cutoff (some t) = ltb t cutoff

-- A token that has expired, or was used more than a day ago.
unfoldable pub is_spent : ℕ → PasswordReset → Bool
is_spent now r =
    ltb r.expires_at (now / 1000000)
    || used_before ((now - 24 * 3600 * 1000000000) / 1000000) r.used_at

-- PurgeExpired
unfoldable pub purge_expired : ℕ → Db → PurgeStats × Db
purge_expired now db = (
  record {
    sessions = count (λ (s : Session). not (is_open now s)) db.sessions;
    oauth = count (λ (st : OauthState). not (is_waiting now st)) db.oauth_states;
    recovery = count (is_spent now) db.resets;
  },
  record db {
    sessions = select (is_open now) db.sessions;
    oauth_states = select (is_waiting now) db.oauth_states;
    resets = select (λ (r : PasswordReset). not (is_spent now r)) db.resets;
  },
)
