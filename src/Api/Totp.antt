-- ===== src/Api/Totp.antt =====
-- One-time codes in the API: src/svc/internal/api/totp.go, but for the login and the reset of a
-- password. A time is nanoseconds.
pub mod Seal
use dcalcon.Base.{
  ℕ, ◌/◌, Bool, true, false, not, ◌&&◌, ◌||◌, Option, none, some, List, [], ◌∷◌, ◌++◌, Text, codes,
  same, trim_space, has_prefix, trim_prefix, ◌==◌, if◌then◌else◌,
}
use dcalcon.Storage.{User, Result, ok, err, Db}
use dcalcon.Storage.Users.{
  user_by_id, authenticate, totp_state, set_totp_pending, enable_totp, disable_totp,
}
use dcalcon.Auth.{Principal}
use dcalcon.Otp.{valid}
use dcalcon.Api.{Crypto, Reply, failed, internal, status, totp_sent, path_id, audit_as}
use dcalcon.Hex

-- strings.Cut at one character.
unfoldable pub cut : ℕ → Text → Option (Text × Text)
cut sep [] = none
cut sep (c ∷ s) =
    if c == sep
    then some ([], s)
    else elim (cut sep s) [ none ↦ none | some (before, after) ↦ some (c ∷ before, after) ]

abbrev pub totp_seal_prefix : Text
totp_seal_prefix = codes "s1:"

abbrev pub sealed_text : Text → Option (List ℕ × List ℕ) → Text
sealed_text plain none = plain
sealed_text plain (some (ct, nonce)) = totp_seal_prefix ++ Hex.encode nonce ++ b':' ∷ Hex.encode ct

-- sealTOTP
unfoldable pub seal_totp : Crypto → Text → Text
seal_totp c plain = if same plain [] then [] else sealed_text plain (c.seal plain)

abbrev pub text_or_empty : Option Text → Text
text_or_empty none = []
text_or_empty (some t) = t

abbrev pub unsealed : Crypto → Option (List ℕ) → Option (List ℕ) → Text
unsealed c (some nonce) (some ct) = text_or_empty (c.unseal ct nonce)
unsealed c _ _ = []

abbrev pub opened : Crypto → Option (Text × Text) → Text
opened c none = []
opened c (some (nonce, ct)) = unsealed c (Hex.decode nonce) (Hex.decode ct)

-- openTOTP
unfoldable pub open_totp : Crypto → Text → Text
unfolding cut
open_totp c stored =
    if same stored [] || not (has_prefix stored totp_seal_prefix)
    then stored
    else opened c (cut b':' (trim_prefix stored totp_seal_prefix))

abbrev pub open_fields : Crypto → Result (Text × Text × Bool) → Result (Text × Text × Bool)
open_fields c (err e) = err e
open_fields c (ok (secret, pending, enabled)) =
    ok (open_totp c secret, open_totp c pending, enabled)

-- totpFields
unfoldable pub totp_fields : Crypto → Db → ℕ → Result (Text × Text × Bool)
unfolding open_totp
totp_fields c db user = open_fields c (totp_state db user)

-- otp.Valid, at a time of the clock.
abbrev pub valid_code : Crypto → ℕ → Text → Text → Bool
valid_code c now code secret = valid c.table c.decode c.hmac (now / 1000000000) code secret

-- totpSetup; the secret that otp.Generate makes is `fresh`.
unfoldable pub totp_setup : Crypto → Principal → Text → Db → Reply × Db
unfolding totp_fields seal_totp
totp_setup c p fresh db = elim (totp_fields c db p.id) [
  | err e ↦ (internal e, db)
  | ok (secret, pending, enabled) ↦
      if enabled
      then (failed 409 (codes "authenticator is already enabled"), db)
      else (totp_sent fresh, set_totp_pending p.id (seal_totp c fresh) db)
]

-- totpEnable
unfoldable pub totp_enable : Crypto → ℕ → Principal → Option Text → Db → Reply × Db
unfolding totp_fields seal_totp
totp_enable c now p none db = (failed 400 (codes "invalid json"), db)
totp_enable c now p (some code) db = elim (totp_fields c db p.id) [
  | err e ↦ (internal e, db)
  | ok (secret, pending, enabled) ↦
      if enabled
      then (failed 409 (codes "authenticator is already enabled"), db)
      else if same pending []
      then (failed 400 (codes "scan the QR code first"), db)
      else if not (valid_code c now code pending)
      then (
        failed 400
            (codes "that code is not valid yet — wait for a new code on your phone and try again"),
        db,
      )
      else (
        status (codes "enabled"),
        audit_as (some p) (codes "totp.enable") [] (enable_totp p.id (seal_totp c pending) db),
      )
]

abbrev pub is_ok {ℓ} : {A : Type ℓ} → Result A → Bool
is_ok (ok a) = true
is_ok (err e) = false

-- totpDisable; the body has a password and a code.
unfoldable pub totp_disable : Crypto → ℕ → Principal → Option (Text × Text) → Db → Reply × Db
unfolding totp_fields
totp_disable c now p none db = (failed 400 (codes "invalid json"), db)
totp_disable c now p (some (password, code)) db = elim (totp_fields c db p.id) [
  | err e ↦ (internal e, db)
  | ok (secret, pending, enabled) ↦
      if (not (same (trim_space password) [])
          && is_ok (authenticate c.compare db p.username password))
        || (enabled && valid_code c now code secret)
      then (
        status (codes "disabled"),
        audit_as (some p) (codes "totp.disable") [] (disable_totp p.id db),
      )
      else (failed 401 (codes "password or authenticator code is required"), db)
]

-- totpCancel
unfoldable pub totp_cancel : Crypto → Principal → Db → Reply × Db
unfolding totp_fields
totp_cancel c p db = elim (totp_fields c db p.id) [
  | err e ↦ (internal e, db)
  | ok (secret, pending, enabled) ↦
      if enabled
      then (failed 409 (codes "authenticator is already enabled"), db)
      else (status (codes "cancelled"), set_totp_pending p.id [] db)
]

-- adminDisableTOTP
unfoldable pub admin_disable_totp : Option Principal → Text → Db → Reply × Db
admin_disable_totp actor param db = elim (path_id param) [
  | none ↦ (failed 400 (codes "invalid id"), db)
  | some id ↦ elim (user_by_id db id) [
    | err e ↦ (failed 404 (codes "user"), db)
    | ok u ↦ (
      status (codes "disabled"),
      audit_as actor (codes "totp.disable.admin") u.username (disable_totp id db),
    )
  ]
]
