-- ===== src/Api.antt =====
-- The JSON API: src/svc/internal/api, with the rules of validate.go and the helpers of extras.go and
-- shares.go here and the handlers in the children. A handler takes the decoded body, or none where
-- json.Decoder fails, and the id in its path as the text of the URL. net/mail's ParseAddress is the
-- argument `parse_address`.
pub mod Admin
pub mod Totp
pub mod Login
pub mod Account
pub mod Recovery
use dcalcon.Base.{
  ℕ, Bool, true, false, not, ◌&&◌, ◌||◌, Option, none, some, List, [], ◌∷◌, Text, codes, same, any,
  all, length, trim_space, to_lower, ltb, leb, ◌==◌, if◌then◌else◌,
}
use dcalcon.Decimal.{parse_int}
use dcalcon.Storage.{Error, Role, User, AppPassword, Delivery, RecoveryMessage, Db}
use dcalcon.Storage.Audit.{audit}
use dcalcon.Storage.Calendars.{at_least_one}
use dcalcon.Auth.{Principal}

-- The code that the handlers of accounts rest on and that is not modelled. Outside the repository:
-- the letter case of Unicode, net/mail's ParseAddress, bcrypt's hash and comparison, SHA-256 in
-- hexadecimal, base32's decoder and HMAC-SHA1. Inside it: `seal` and `unseal` are Seal and Open of
-- src/svc/internal/secret with the key of the configuration, which wrap AES-GCM with a random nonce;
-- `seal` gives a ciphertext and a nonce.
pub record Crypto : Type 0 where
  pub table : ℕ → ℕ
  pub parse_address : Text → Bool
  pub hash : Text → Option Text
  pub compare : Text → Text → Bool
  pub hash_token : Text → Text
  pub decode : Text → Option (List ℕ)
  pub hmac : List ℕ → List ℕ → List ℕ
  pub seal : Text → Option (List ℕ × List ℕ)
  pub unseal : List ℕ → List ℕ → Option Text

-- What is written: httpx.Error with a status and a message, the same with the text of an error and
-- status 500, 429 with Retry-After, {"status": …}, {"ok": true}, or an object.
pub data Reply : Type 0 where
  failed : ℕ → Text → Reply
  internal : Error → Reply
  too_many : ℕ → Reply
  status : Text → Reply
  user_sent : ℕ → User → Reply
  app_password_sent : AppPassword → Text → Reply
  totp_sent : Text → Reply
  signed_in : User → Text → Reply
  app_passwords_sent : List AppPassword → Reply
  acknowledged : Reply
  recovery_sent : Text → Delivery → Text → Reply
  outbox_sent : List (RecoveryMessage × Text) → Reply

is_letter_or_digit : ℕ → Bool
is_letter_or_digit c =
    (leb b'a' c && leb c b'z') || ((leb b'A' c && leb c b'Z') || (leb b'0' c && leb c b'9'))

is_name_character : ℕ → Bool
unfolding is_letter_or_digit
is_name_character c = is_letter_or_digit c || (c == b'.' || (c == b'_' || c == b'-'))

-- validUsername
unfoldable pub valid_username : Text → Bool
unfolding is_name_character
valid_username [] = false
valid_username (c ∷ s) =
    is_letter_or_digit c && (leb 1 (length s) && (leb (length s) 31 && all is_name_character s))

-- validEmail
unfoldable pub valid_email : (Text → Bool) → Text → Bool
valid_email parse_address s =
    let t = trim_space s in if same t [] || ltb 254 (length t) then false else parse_address t

-- forbiddenPassword
unfoldable pub forbidden_password : (ℕ → ℕ) → Text → Bool
forbidden_password table s =
    any (same (to_lower table (trim_space s))) (
      codes "changeme" ∷ codes "password" ∷ codes "admin" ∷ codes "admin123" ∷ codes "dcalcon" ∷ [])

-- validPassword
unfoldable pub valid_password : (ℕ → ℕ) → Text → Bool
unfolding forbidden_password
valid_password table s =
    leb 8 (length s) && (leb (length s) 128 && not (forbidden_password table s))

-- validRole
unfoldable pub valid_role : Text → Bool
valid_role s = same s (codes "admin") || same s (codes "user")

-- validStatus
unfoldable pub valid_status : Text → Bool
valid_status s = same s (codes "active") || same s (codes "disabled")

-- normalizeTimezone
unfoldable pub normalize_timezone : Text → Text
normalize_timezone s = let t = trim_space s in if same t [] then codes "UTC" else t

-- pathID
unfoldable pub path_id : Text → Option ℕ
path_id param = at_least_one (parse_int param)

-- The Handler's audit, of a request with its principal.
unfoldable pub audit_as : Option Principal → Text → Text → Db → Db
audit_as none action detail db = audit 0 [] action detail db
audit_as (some p) action detail db = audit p.id p.username action detail db
