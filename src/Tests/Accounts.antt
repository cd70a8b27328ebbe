-- ===== src/Tests/Accounts.antt =====
-- Runs of the accounts: sessions, app passwords, recovery, one-time codes and the handlers.
use dcalcon.Base.{
  contains_rune, to_upper, rune_len, byte_len, to_lower, keep_before, is_space, trim_right,
  trim_left, trim, trim_space, has_prefix, update_where, select, ℕ, true, false, none, some, List,
  [], ◌∷◌, Text, codes, same, same_refl, all, any, count, find_first, ◌≡◌, ◌≢◌, refl, arith, inl,
  inr, ◌==◌, Bool-cases, nocase,
}
use dcalcon.Hex.{is_byte}
use dcalcon.Decimal.{format_int}
use dcalcon.Storage.Provision.{
  provision_user_defaults, ensure_people_book, ensure_scheduling_collections, add_calendar,
  add_book, add_important_dates,
}
use dcalcon.Storage.AppPasswords.{authenticate_app_password, is_candidate, is_app_password_secret}
use dcalcon.Ratelimit.{store, prune, gc_locked, success}
use dcalcon.Auth.{answer_login}
use dcalcon.Api.Login.{second_factor, enter}
use dcalcon.Api.Totp.{totp_fields}
use dcalcon.Ratelimit.{allow, fail, lookup}
use dcalcon.Storage.{role_user, User, Session, Db, ok, err, unauthorized}
use dcalcon.Storage.Users.{
  totp_state, user_by_email, update_user, set_password, user_by_username, insert_user, user_by_id,
  authenticate, create_user, delete_sessions_for_user,
}
use dcalcon.Storage.Users.Created.{create_user-authenticates}
use dcalcon.Storage.Provision.Fresh.{IsFresh, HasStart}
use dcalcon.Storage.Sessions.{session_user, user_by_session_id, user_by_session, create_session}
use dcalcon.Storage.Sessions.Ends.{user_by_session-delete_sessions_for_user}
use dcalcon.Storage.AppPasswords.{authenticate_dav, count_app_passwords}
use dcalcon.Storage.AppPasswords.Limit.{
  Call, create, delete, log_in, restore, restores_at_most, run_calls, IsBounded,
  run_calls-IsBounded,
}
use dcalcon.Storage.Recovery.{redeem, replace_password_reset, consume_password_reset}
use dcalcon.Storage.Recovery.Once.{consume_password_reset-once, consume_password_reset-resets}
use dcalcon.Storage.Recovery.Issued.{consume_password_reset-issued}
use dcalcon.Auth.{principal_of, served, too_many_attempts, login_key, basic, session_or_bearer}
use dcalcon.Auth.Lockout.{Attempt, attempts, basic-locked}
use dcalcon.Auth.Entry.{Entitled, basic-Entitled}
use dcalcon.Otp.{pad, truncated, put_uint64, code, valid, generate_at}
use dcalcon.Otp.Window.{valid-code}
use dcalcon.Api.Totp.{open_totp, seal_totp}
use dcalcon.Api.Totp.Seal.{open_totp-seal_totp}
use dcalcon.Api.Login.{login, refused, authenticate_login}
use dcalcon.Api.Login.Entry.{MaySignIn, login-MaySignIn, login-served, authenticate_login-trims}
use dcalcon.Api.Admin.Managed.{Managed}
use dcalcon.Api.Admin.Requests.{create, patch, reset_password, handle_all, handle_all-Managed}
use dcalcon.Storage.Dates.{Settings, get_important_dates, save_important_dates}
use dcalcon.Storage.Dates.Alarms.{is_plain}
use dcalcon.Storage.Dates.Saved.{get_important_dates-save_important_dates}
use dcalcon.Tests.Data.{alice, bob, db}
use dcalcon.Tests.Crypto.{
  hashed, hash, compare, hash_token, decode, hmac, seal, unseal, crypto, strict, admin, accounts_db,
  alice_enters,
}

bcrypt : (p h : Text) → hash p ≡ some h → compare h p ≡ true
bcrypt p h e = let g : h ≡ hashed p = cc in rw g (same_refl (hashed p))

accounts_db-IsManaged : Managed accounts_db
unfolding count all
accounts_db-IsManaged = record { once = λ id. ground arith; below = refl; left = omega arith }

handle_all-Managed_example : Managed (
    handle_all
      (λ c. c)
      (λ s. true)
      hash
      (patch admin (codes "1") none ∷ reset_password (codes "2") (some (codes "12345678")) ∷ [])
      accounts_db)
handle_all-Managed_example =
    handle_all-Managed (λ c. c) (λ s. true) hash
      (patch admin (codes "1") none ∷ reset_password (codes "2") (some (codes "12345678")) ∷ [])
      accounts_db accounts_db-IsManaged

-- A request with the locked key, before the one below.
abbrev retry : Attempt
retry = record {
  now = 10;
  at = 11;
  later = 12;
  ip = codes "ip";
  credentials = some (codes "alice", codes "pw1");
  db = accounts_db;
}

basic-locked_example :
    ((basic
        (λ c. c)
        compare
        20
        21
        22
        (codes "ip")
        (some (codes "ALICE", codes "pw1"))
        (attempts
          (λ c. c)
          compare
          (retry ∷ [])
          (basic
            (λ c. c)
            compare
            0
            1
            2
            (codes "ip")
            (some (codes "alice", codes "no"))
            (some strict)
            accounts_db).1)
        accounts_db).0
      ≡ too_many_attempts 1)
    × ((basic
          (λ c. c)
          compare
          20
          21
          22
          (codes "ip")
          (some (codes "ALICE", codes "pw1"))
          (attempts
            (λ c. c)
            compare
            (retry ∷ [])
            (basic
              (λ c. c)
              compare
              0
              1
              2
              (codes "ip")
              (some (codes "alice", codes "no"))
              (some strict)
              accounts_db).1)
          accounts_db).2
        ≡ accounts_db)
unfolding same any all count find_first select update_where nocase trim_space trim trim_left
    trim_right is_space keep_before to_lower byte_len rune_len has_prefix user_by_id
    user_by_username user_by_email authenticate totp_state authenticate_dav
    authenticate_app_password is_candidate allow fail lookup store prune gc_locked success login_key
    basic answer_login login authenticate_login second_factor totp_fields open_totp enter
    is_app_password_secret create_session
basic-locked_example =
    basic-locked (λ c. c) compare 0 1 2 (codes "ip") (codes "alice") (codes "no") (some strict)
      strict accounts_db unauthorized (retry ∷ []) 20 21 22 (codes "ip") (codes "ALICE")
      (codes "pw1") accounts_db refl refl refl refl refl refl refl (omega arith)

basic-Entitled_example :
    (u : User) × (some (principal_of (record alice { password_hash = hashed (codes "pw1") }))
      ≡ some (principal_of u))
    × Entitled compare (codes "alice") (codes "pw1") accounts_db u
    × ((allow 9
          (login_key (λ c. c) (codes "ip") (codes "alice"))
          (basic
            (λ c. c)
            compare
            0
            1
            2
            (codes "ip")
            (some (codes "alice", codes "pw1"))
            (some strict)
            accounts_db).1).0
        ≡ (true, 0))
unfolding same any all count find_first select update_where nocase trim_space trim trim_left
    trim_right is_space keep_before to_lower byte_len rune_len has_prefix user_by_id
    user_by_username user_by_email authenticate totp_state authenticate_dav
    authenticate_app_password is_candidate allow fail lookup store prune gc_locked success login_key
    basic answer_login login authenticate_login second_factor totp_fields open_totp enter
    is_app_password_secret create_session
basic-Entitled_example =
    basic-Entitled (λ c. c) compare 0 1 2 9 (codes "ip") (codes "alice") (codes "pw1") (some strict)
      accounts_db _ refl

login-MaySignIn_example :
    MaySignIn crypto 1 accounts_db alice_enters
      (record alice { password_hash = hashed (codes "pw1") })
unfolding same any all count find_first select update_where nocase trim_space trim trim_left
    trim_right is_space keep_before to_lower byte_len rune_len has_prefix user_by_id
    user_by_username user_by_email authenticate totp_state authenticate_dav
    authenticate_app_password is_candidate allow fail lookup store prune gc_locked success login_key
    basic answer_login login authenticate_login second_factor totp_fields open_totp enter
    is_app_password_secret create_session
login-MaySignIn_example =
    login-MaySignIn crypto 1000 0 1 2 3 (codes "ip") (codes "s") (codes "s") alice_enters
      (some strict) accounts_db _ refl

login-served_example :
    (session_or_bearer
      (λ c. c)
      hash_token
      2000000
      (some (codes "s"))
      []
      (login crypto 1000000 0 1 2 3000000
        (codes "ip")
        (codes "s")
        (some alice_enters)
        (some strict, accounts_db)).1.1).0
    ≡ served (some (principal_of (record alice { password_hash = hashed (codes "pw1") })))
unfolding same any all count find_first select update_where nocase trim_space trim trim_left
    trim_right is_space keep_before to_lower byte_len rune_len has_prefix user_by_id
    user_by_username user_by_email authenticate totp_state authenticate_dav
    authenticate_app_password is_candidate allow fail lookup store prune gc_locked success login_key
    basic answer_login login authenticate_login second_factor totp_fields open_totp enter
    is_app_password_secret create_session
login-served_example =
    login-served crypto 1000000 0 1 2 3000000 2000000 (codes "ip") (codes "s") (codes "s") []
      alice_enters (some strict) accounts_db _ refl refl refl refl refl

abbrev password_calls : List Call
password_calls =
    create hash 1 (codes "phone") (codes "0123456789")
    ∷ log_in compare 5 (codes "alice") (codes "dcc_0123456789")
    ∷ delete 1 1
    ∷ restore (λ h. some 12) 2
        (record { name = []; prefix = codes "dcc_0000"; hash = codes "$2b$" } ∷ [])
    ∷ []

run_calls-IsBounded_example : IsBounded 20 (run_calls password_calls db)
unfolding count_app_passwords count all restores_at_most
run_calls-IsBounded_example =
    run_calls-IsBounded 20 password_calls db (omega arith) refl
      (record { within = λ user. omega arith })

-- A token for the first user, issued at time 0 for two seconds.
abbrev issued : Db
issued = (replace_password_reset 1 (codes "t") 2000000000 0 db).1

consume_password_reset-issued_example :
    (consume_password_reset hash (codes "t") (codes "pw") 1999999999 issued).0
    ≡ ok (record alice { password_hash = hashed (codes "pw") })
unfolding same any find_first update_where user_by_id set_password update_user
    delete_sessions_for_user select replace_password_reset consume_password_reset redeem
consume_password_reset-issued_example =
    consume_password_reset-issued hash 1 (codes "t") (codes "pw") (hashed (codes "pw")) 2000000000 0
      1999999999 db alice refl refl refl

consume_password_reset-once_example :
    consume_password_reset hash
      (codes "t")
      (codes "pwx")
      1000001
      (consume_password_reset hash (codes "t") (codes "pw") 1000000 issued).1
    ≡ (err unauthorized, (consume_password_reset hash (codes "t") (codes "pw") 1000000 issued).1)
unfolding same any find_first update_where user_by_id set_password update_user
    delete_sessions_for_user select replace_password_reset consume_password_reset redeem
consume_password_reset-once_example =
    consume_password_reset-once hash (codes "t") (codes "pw") (codes "pwx") 1000000 1000001 issued
      (record alice { password_hash = hashed (codes "pw") }) refl

consume_password_reset-resets_example :
    (user_by_id (consume_password_reset hash (codes "t") (codes "pw") 1000000 issued).1 1
      ≡ ok (record alice { password_hash = hashed (codes "pw") }))
    × (compare (hashed (codes "pw")) (codes "pw") ≡ true)
    × (any
          (λ (s : Session). s.user_id == 1)
          (consume_password_reset hash (codes "t") (codes "pw") 1000000 issued).1.sessions
        ≡ false)
unfolding same any find_first update_where user_by_id set_password update_user
    delete_sessions_for_user select replace_password_reset consume_password_reset redeem
consume_password_reset-resets_example =
    consume_password_reset-resets hash compare (codes "t") (codes "pw") 1000000 issued
      (record alice { password_hash = hashed (codes "pw") }) bcrypt refl

abbrev carol : Db
carol =
    (create_user hash (codes "carol") (codes "c@x.org") (codes "pw3") [] [] [] (codes "now") db).1

abbrev carol_row : User
carol_row = record alice {
  id = 3;
  username = codes "carol";
  email = codes "c@x.org";
  display_name = codes "carol";
  role = role_user;
  password_hash = hashed (codes "pw3");
}

db-IsFresh : IsFresh 3 db
unfolding select
db-IsFresh = record { calendars = refl; books = refl; settings = refl }

create_user-authenticates_example :
    (authenticate compare carol (codes "carol") (codes "pw3") ≡ ok carol_row) × HasStart 3 carol
unfolding same any find_first nocase user_by_id create_user insert_user provision_user_defaults
    ensure_people_book ensure_scheduling_collections add_calendar add_book add_important_dates
create_user-authenticates_example =
    create_user-authenticates hash (codes "carol") (codes "c@x.org") (codes "pw3") [] [] []
      (codes "now") db compare bcrypt refl db-IsFresh carol_row refl

aead :
    (p : Text) (ct nonce : List ℕ)
    → seal p ≡ some (ct, nonce)
    → (unseal ct nonce ≡ some p) × (all is_byte ct ≡ true) × (all is_byte nonce ≡ true)
unfolding all
aead p ct nonce e = elim (Bool-cases (all is_byte p)) [
  | inr other ↦ let g = rw other at e in absurd cc
  | inl bytes ↦
      let g = rw bytes at e in
      let same_text : ct ≡ p = cc in
      let same_nonce : nonce ≡ 7 ∷ 8 ∷ [] = cc in
      (rw same_text refl, rw same_text bytes, rw same_nonce refl)
]

abbrev two_sessions : Db
two_sessions = record db {
  sessions =
      record { id = codes "hs"; user_id = 1; expires_at = 9 }
      ∷ record { id = codes "hr"; user_id = 2; expires_at = 9 }
      ∷ [];
}

user_by_session-delete_sessions_for_user_example : bob.id ≢ 1
unfolding same any find_first select user_by_session user_by_session_id session_user
    delete_sessions_for_user
user_by_session-delete_sessions_for_user_example =
    user_by_session-delete_sessions_for_user hash_token 5 1 (codes "r") two_sessions bob refl

valid-code_example : valid (λ c. c) decode hmac 1020 (codes "000033") (codes "SECRET") ≡ true
unfolding code generate_at put_uint64 truncated pad format_int to_upper trim_space
valid-code_example =
    valid-code (λ c. c) decode hmac (codes "SECRET") (codes "000033") 1000 1020 refl (omega arith)
      (inr (inl refl))

open_totp-seal_totp_example : open_totp crypto (seal_totp crypto (codes "SECRET")) ≡ codes "SECRET"
unfolding has_prefix
open_totp-seal_totp_example = open_totp-seal_totp crypto (codes "SECRET") aead refl

authenticate_login-trims_example :
    authenticate_login crypto 1 accounts_db (codes "bob") (codes " pw2") [] ≡ refused
unfolding same find_first nocase user_by_username authenticate trim_space
authenticate_login-trims_example =
    authenticate_login-trims crypto 1 accounts_db (codes "bob") (codes " pw2") []
      (record bob { password_hash = hashed (codes " pw2") }) refl refl

abbrev wishes : Settings
wishes = record {
  enabled = true;
  include_birthdays = true;
  include_anniversaries = false;
  alarm_offsets = codes "-P1D" ∷ codes "PT0S" ∷ [];
}

get_important_dates-save_important_dates_example :
    get_important_dates (save_important_dates 1 wishes db).1 1 ≡ wishes
unfolding all is_plain same contains_rune any save_important_dates
get_important_dates-save_important_dates_example =
    get_important_dates-save_important_dates 1 wishes (codes "-P1D") (codes "PT0S" ∷ []) db refl
      refl refl
