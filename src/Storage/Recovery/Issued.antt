-- ===== src/Storage/Recovery/Issued.antt =====
-- Tokens that ReplacePasswordReset of src/svc/internal/storage/recovery.go issues.
use dcalcon.Base.{
  ℕ, ◌+◌, ◌/◌, Bool, true, false, not, ◌&&◌, ◌||◌, Option, none, some, List, [], ◌∷◌, ◌++◌, Text,
  same_refl, find_first, find_first_sound, find_first-append, find_first-absent,
  find_first-update_where, any, any-append, is_some, update_where, ◌==◌, ==_refl, ◌≡◌, refl, ◌∙◌,
  arith, Bool-cases, inl, inr, if◌then◌else◌,
}
use dcalcon.Storage.{User, PasswordReset, unauthorized, Result, ok, err, Db}
use dcalcon.Storage.Users.{is_user, user_by_id, update_user, delete_sessions_for_user}
use dcalcon.Storage.Sessions.{is_expired}
use dcalcon.Storage.Recovery.{
  is_unused, used, has_hash, with_tx, replace_password_reset, redeem, consume_password_reset,
}
use dcalcon.Storage.Recovery.Once.{stale, marked}
use dcalcon.Storage.Users.Passwords.{set_password-ok}

-- The tokens after a call that issues one.
abbrev retired : ℕ → ℕ → Db → List PasswordReset
retired user now db =
    update_where (λ (r : PasswordReset). r.user_id == user && is_unused r) (used now) db.resets

abbrev issued : ℕ → Text → ℕ → ℕ → Db → PasswordReset
issued user token_hash ttl now db = record {
  id = db.next_reset;
  user_id = user;
  token_hash = token_hash;
  expires_at = (now + ttl) / 1000000;
  used_at = none;
}

replaced :
    (user : ℕ) (token_hash : Text) (ttl now : ℕ) (db : Db)
    → (replace_password_reset user token_hash ttl now db).0 ≡ ok tt
    → (any (has_hash token_hash) (retired user now db) ≡ false)
      × ((replace_password_reset user token_hash ttl now db).1 ≡ record db {
        resets = retired user now db ++ issued user token_hash ttl now db ∷ [];
        next_reset = db.next_reset + 1;
      })
unfolding replace_password_reset
replaced user token_hash ttl now db h =
    elim (Bool-cases
      (any (has_hash token_hash) (retired user now db) || not (any (is_user user) db.users))) [
        | inl bad ↦ let g = rw bad at h in absurd cc
        | inr good ↦ (ground arith, rw good refl)
      ]

retired-used :
    (user now : ℕ) (r : PasswordReset)
    → r.user_id ≡ user
    → is_some (if r.user_id == user && is_unused r then used now r else r).used_at ≡ true
retired-used user now r own = elim (Bool-cases (is_some r.used_at)) [
  | inl old ↦ rw (own, ==_refl user) (rw old old)
  | inr fresh ↦ rw (own, fresh, ==_refl user) refl
]

-- After ReplacePasswordReset for a user, an older token of the user is refused at any time, and
-- nothing is changed.
pub consume_password_reset-replaced :
    (hash : Text → Option Text) (user : ℕ) (token_hash older password : Text) (ttl now later : ℕ)
    (db : Db) (r : PasswordReset)
    → (replace_password_reset user token_hash ttl now db).0 ≡ ok tt
    → find_first (has_hash older) db.resets ≡ some r
    → r.user_id ≡ user
    → consume_password_reset hash older password later
        (replace_password_reset user token_hash ttl now db).1
      ≡ (err unauthorized, (replace_password_reset user token_hash ttl now db).1)
consume_password_reset-replaced hash user token_hash older password ttl now later db r h e own =
    let (fresh, left) = replaced user token_hash ttl now db h in
    let p : PasswordReset → Bool = λ r. r.user_id == user && is_unused r in
    let row : PasswordReset = if p r then used now r else r in
    let moved : find_first (has_hash older) (retired user now db) ≡ some row =
      find_first-update_where (has_hash older) p (used now) db.resets (λ t. refl) ∙ rw e refl in
    rw left (
      stale hash older password later _ row
        (rw
          (
            find_first-append (has_hash older) (retired user now db)
                (issued user token_hash ttl now db ∷ []),
            moved,
          )
          refl)
        (retired-used user now r own))

with_tx-done :
    {A : Type 0} (db : Db) (r : Result A × Db) (a : A) → r.0 ≡ ok a → (with_tx db r).0 ≡ ok a
with_tx-done db (err e, next) a h = absurd cc
with_tx-done db (ok b, next) a h = h

redeem-ok :
    (hash : Text → Option Text) (r : PasswordReset) (password hashed : Text) (now : ℕ) (db : Db)
    (u : User)
    → any (λ (t : PasswordReset). t.id == r.id && is_unused t) db.resets ≡ true
    → hash password ≡ some hashed
    → find_first (is_user r.user_id) db.users ≡ some u
    → (redeem hash r password now db).0 ≡ ok (record u { password_hash = hashed })
unfolding redeem user_by_id delete_sessions_for_user update_user
redeem-ok hash r password hashed now db u present k found =
    rw (present, set_password-ok hash r.user_id password hashed (marked now r db) k)
      (rw
        (
          find_first-update_where (is_user r.user_id) (is_user r.user_id)
              (λ (v : User). record v { password_hash = hashed }) db.users (λ v. refl),
          found,
        )
        (rw (find_first_sound (is_user r.user_id) db.users u found) refl))

consume-found :
    (hash : Text → Option Text) (r : PasswordReset) (token_hash password hashed : Text) (now : ℕ)
    (db : Db) (u : User)
    → find_first (has_hash token_hash) db.resets ≡ some r
    → is_some r.used_at ≡ false
    → any (λ (t : PasswordReset). t.id == r.id && is_unused t) db.resets ≡ true
    → hash password ≡ some hashed
    → find_first (is_user r.user_id) db.users ≡ some u
    → (consume_password_reset hash token_hash password now db).0 ≡ (
        if is_expired now r.expires_at
        then err unauthorized
        else ok (record u { password_hash = hashed }))
unfolding consume_password_reset
consume-found hash r token_hash password hashed now db u stored fresh present k found =
    elim (Bool-cases (is_expired now r.expires_at)) [
      | inl late ↦ rw (stored, fresh, late, consume_password_reset) refl
      | inr early ↦
          rw (stored, fresh, early, consume_password_reset)
            (with_tx-done db (redeem hash r password now db) _
              (redeem-ok hash r password hashed now db u present k found))
    ]

-- The token that ReplacePasswordReset issues gives its user the new password up to the millisecond
-- at which it expires and is refused after it, if bcrypt accepts the new password.
pub consume_password_reset-issued :
    (hash : Text → Option Text) (user : ℕ) (token_hash password hashed : Text) (ttl now later : ℕ)
    (db : Db) (u : User)
    → (replace_password_reset user token_hash ttl now db).0 ≡ ok tt
    → hash password ≡ some hashed
    → find_first (is_user user) db.users ≡ some u
    → (consume_password_reset hash token_hash password later
        (replace_password_reset user token_hash ttl now db).1).0
      ≡ (if is_expired later ((now + ttl) / 1000000)
          then err unauthorized
          else ok (record u { password_hash = hashed }))
consume_password_reset-issued hash user token_hash password hashed ttl now later db u h k found =
    let (fresh, left) = replaced user token_hash ttl now db h in
    let r = issued user token_hash ttl now db in
    let rows = retired user now db in
    let next : Db = record db { resets = rows ++ r ∷ []; next_reset = db.next_reset + 1 } in
    let stored : find_first (has_hash token_hash) (rows ++ r ∷ []) ≡ some r =
      rw
        (
          find_first-append (has_hash token_hash) rows (r ∷ []),
          find_first-absent (has_hash token_hash) rows fresh,
        )
        (unfold find_first in rw (same_refl token_hash) refl) in
    let present : any (λ (t : PasswordReset). t.id == r.id && is_unused t) (rows ++ r ∷ []) ≡ true =
      rw (any-append (λ (t : PasswordReset). t.id == r.id && is_unused t) rows (r ∷ []))
        (unfold any in rw (==_refl db.next_reset) (ground arith)) in
    rw left
      (consume-found hash r token_hash password hashed later next u stored refl present k found)
