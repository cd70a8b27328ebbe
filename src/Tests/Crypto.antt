-- ===== src/Tests/Crypto.antt =====
-- Concrete functions in the place of the cryptographic libraries, and an account database.
use dcalcon.Base.{
  ℕ, true, Bool, Option, none, some, List, [], ◌∷◌, ◌++◌, Text, codes, same, all, if◌then◌else◌,
}
use dcalcon.Hex.{is_byte}
use dcalcon.Ratelimit.{Limiter}
use dcalcon.Storage.{role_admin, Db}
use dcalcon.Auth.{Principal}
use dcalcon.Api.{Crypto}
use dcalcon.Api.Login.{Credentials}
use dcalcon.Tests.Data.{alice, bob, db}

abbrev pub hashed : Text → Text
hashed password = codes "hash of " ++ password

abbrev pub hash : Text → Option Text
hash password = some (hashed password)

abbrev pub compare : Text → Text → Bool
compare stored password = same stored (hashed password)

abbrev pub hash_token : Text → Text
hash_token token = b'h' ∷ token

abbrev pub decode : Text → Option (List ℕ)
decode text = some text

abbrev pub hmac : List ℕ → List ℕ → List ℕ
hmac key message = message ++ message ++ 1 ∷ 2 ∷ 3 ∷ 4 ∷ []

abbrev pub seal : Text → Option (List ℕ × List ℕ)
seal plain = if all is_byte plain then some (plain, 7 ∷ 8 ∷ []) else none

abbrev pub unseal : List ℕ → List ℕ → Option Text
unseal ct nonce = some ct

abbrev pub crypto : Crypto
crypto = record {
  table = λ c. c;
  parse_address = λ s. true;
  hash = hash;
  compare = compare;
  hash_token = hash_token;
  decode = decode;
  hmac = hmac;
  seal = seal;
  unseal = unseal;
}

-- A limiter that locks a key at its first failure.
abbrev pub strict : Limiter
strict = record { max = 1; window = 100; lockout = 50; buckets = [] }

abbrev pub admin : Principal
admin = record {
  id = 1;
  username = codes "alice";
  email = codes "a@x.org";
  display_name = codes "Alice";
  role = role_admin;
}

abbrev pub accounts_db : Db
accounts_db = record db {
  users =
      record alice { password_hash = hashed (codes "pw1") }
      ∷ record bob { password_hash = hashed (codes " pw2") }
      ∷ [];
}

abbrev pub alice_enters : Credentials
alice_enters = record { username = codes "Alice "; password = codes "pw1"; totp = [] }
