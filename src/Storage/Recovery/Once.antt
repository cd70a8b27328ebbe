-- ===== src/Storage/Recovery/Once.antt =====
-- What ConsumePasswordReset of src/svc/internal/storage/recovery.go does with a token.
use dcalcon.Base.{
  ℕ, Bool, true, false, ◌&&◌, ◌||◌, Option, some, Text, find_first, find_first_sound, any, is_some,
  update_where, find_first-update_where, ◌≡◌, refl, ◌∙◌, arith, Bool-cases, Option-cases, ap,
  ==_refl, any-select-not, inl, inr, ◌==◌,
}
use dcalcon.Storage.{User, Session, PasswordReset, unauthorized, Result, ok, err, Db}
use dcalcon.Storage.Users.{is_user, user_by_id, update_user, delete_sessions_for_user}
use dcalcon.Storage.Users.Passwords.{set_password-ok, set_password-long}
use dcalcon.Storage.Sessions.{is_expired}
use dcalcon.Storage.Sessions.Ends.{user_of_ok}
use dcalcon.Storage.Recovery.{is_unused, used, has_hash, with_tx, redeem, consume_password_reset}

pub with_tx-ok :
    {A : Type 0} (db : Db) (r : Result A × Db) (a : A)
    → (with_tx db r).0 ≡ ok a
    → (r.0 ≡ ok a) × (with_tx db r ≡ r)
with_tx-ok db (err e, next) a h = absurd cc
with_tx-ok db (ok b, next) a h = (h, refl)

-- The database after a token is redeemed.
unfoldable pub redeemed : ℕ → PasswordReset → Text → Db → Db
redeemed now r hashed db = delete_sessions_for_user r.user_id (
    update_user r.user_id (λ (u : User). record u { password_hash = hashed })
      (record db {
        resets =
            update_where (λ (t : PasswordReset). t.id == r.id && is_unused t) (used now) db.resets;
      }))

-- The database when the token is marked.
abbrev pub marked : ℕ → PasswordReset → Db → Db
marked now r db = record db {
  resets = update_where (λ (t : PasswordReset). t.id == r.id && is_unused t) (used now) db.resets;
}

redeem-ok :
    (hash : Text → Option Text) (r : PasswordReset) (password : Text) (now : ℕ) (db : Db) (u : User)
    → (redeem hash r password now db).0 ≡ ok u
    → (hashed : Text) × (hash password ≡ some hashed)
      × ((redeem hash r password now db).1 ≡ redeemed now r hashed db)
      × (user_by_id (redeemed now r hashed db) r.user_id ≡ ok u)
unfolding redeem redeemed
redeem-ok hash r password now db u h =
    elim (Bool-cases (any (λ (t : PasswordReset). t.id == r.id && is_unused t) db.resets)) [
      | inr gone ↦ let g = rw (gone, redeem) at h in absurd cc
      | inl here ↦ elim (Option-cases (hash password)) [
        | inl long ↦
            let g =
              rw (here, set_password-long hash r.user_id password (marked now r db) long, redeem) at
                h in
            absurd cc
        | inr (hashed, k) ↦
            let stored = set_password-ok hash r.user_id password hashed (marked now r db) k in
            let g = rw (here, stored, redeem) at h in (hashed, k, rw (here, stored, redeem) refl, g)
      ]
    ]

-- The token that a call which succeeds has redeemed.
Redeemed : (Text → Option Text) → Text → Text → ℕ → Db → User → Type 0
Redeemed hash token_hash password now db u =
    (r : PasswordReset) × (find_first (has_hash token_hash) db.resets ≡ some r)
    × (is_some r.used_at ≡ false)
    × (hashed : Text) × (hash password ≡ some hashed)
    × ((consume_password_reset hash token_hash password now db).1 ≡ redeemed now r hashed db)
    × (user_by_id (redeemed now r hashed db) r.user_id ≡ ok u)

consume-ok :
    (hash : Text → Option Text) (token_hash password : Text) (now : ℕ) (db : Db) (u : User)
    → (consume_password_reset hash token_hash password now db).0 ≡ ok u
    → Redeemed hash token_hash password now db u
unfolding consume_password_reset Redeemed
consume-ok hash token_hash password now db u h =
    elim (Option-cases (find_first (has_hash token_hash) db.resets)) [
      | inl e ↦ let g = rw (e, consume_password_reset) at h in absurd cc
      | inr (r, e) ↦ elim (Bool-cases (is_some r.used_at || is_expired now r.expires_at)) [
        | inl stale ↦ let g = rw (e, stale, consume_password_reset) at h in absurd cc
        | inr valid ↦
            let g = rw (e, valid, consume_password_reset) at h in
            let (answer, kept) = with_tx-ok db (redeem hash r password now db) u g in
            let (hashed, k, left, found) = redeem-ok hash r password now db u answer in
            (
              r,
              e,
              ground arith,
              hashed,
              k,
              rw (e, valid, consume_password_reset)
                  (ap (λ (x : Result User × Db). x.1) kept ∙ left),
              found,
            )
      ]
    ]

pub stale :
    (hash : Text → Option Text) (token_hash password : Text) (now : ℕ) (db : Db) (r : PasswordReset)
    → find_first (has_hash token_hash) db.resets ≡ some r
    → is_some r.used_at ≡ true
    → consume_password_reset hash token_hash password now db ≡ (err unauthorized, db)
unfolding consume_password_reset
stale hash token_hash password now db r e h = rw (e, h, consume_password_reset) refl

-- A token that has reset a password does not do so again: each later call with it, by whatever
-- password and at whatever time, is unauthorized and changes nothing.
pub consume_password_reset-once :
    (hash : Text → Option Text) (token_hash password again : Text) (now later : ℕ) (db : Db)
    (u : User)
    → (consume_password_reset hash token_hash password now db).0 ≡ ok u
    → consume_password_reset hash token_hash again later
        (consume_password_reset hash token_hash password now db).1
      ≡ (err unauthorized, (consume_password_reset hash token_hash password now db).1)
unfolding Redeemed redeemed update_user delete_sessions_for_user
consume_password_reset-once hash token_hash password again now later db u h =
    let (r, e, fresh, hashed, k, left, found) = consume-ok hash token_hash password now db u h in
    rw left (
      stale hash token_hash again later (redeemed now r hashed db) (used now r)
        (find_first-update_where (has_hash token_hash) _ (used now) db.resets (λ t. refl)
          ∙ rw e (rw (==_refl r.id, fresh) refl))
        refl)

redeemed-user :
    (now : ℕ) (r : PasswordReset) (hashed : Text) (db : Db) (u : User)
    → user_by_id (redeemed now r hashed db) r.user_id ≡ ok u
    → (u.id ≡ r.user_id) × (u.password_hash ≡ hashed)
unfolding redeemed update_user delete_sessions_for_user
redeemed-user now r hashed db u found =
    let change : User → User = λ v. record v { password_hash = hashed } in
    let row : find_first (is_user r.user_id) (update_where (is_user r.user_id) change db.users)
        ≡ some u =
      user_of_ok (redeemed now r hashed db) r.user_id u found in
    let own : (u.id == r.user_id) ≡ true = find_first_sound (is_user r.user_id) _ u row in
    let moved =
      find_first-update_where (is_user r.user_id) (is_user r.user_id) change db.users (λ v. refl) in
    (
      ground arith,
      elim (Option-cases (find_first (is_user r.user_id) db.users)) [
        | inl e ↦ let m = rw e at moved in absurd (cc (m, row))
        | inr (v, e) ↦
            let m = rw (e, find_first_sound (is_user r.user_id) db.users v e) at moved in
            let made : u ≡ change v = cc (m, row) in rw made refl
      ],
    )

resets_user :
    (compare : Text → Text → Bool) (password : Text) (now : ℕ) (r : PasswordReset) (hashed : Text)
    (db next : Db) (u : User)
    → compare hashed password ≡ true
    → next ≡ redeemed now r hashed db
    → user_by_id (redeemed now r hashed db) r.user_id ≡ ok u
    → (user_by_id next u.id ≡ ok u)
      × (compare u.password_hash password ≡ true)
      × (any (λ (s : Session). s.user_id == u.id) next.sessions ≡ false)
unfolding redeemed delete_sessions_for_user update_user
resets_user compare password now r hashed db next u right left found =
    let (own, secret) = redeemed-user now r hashed db u found in
    (
      ap (user_by_id next) own ∙ rw left found,
      rw secret right,
      rw left (
          ap (λ n. any (λ (s : Session). s.user_id == n) (redeemed now r hashed db).sessions) own
          ∙ any-select-not (λ (s : Session). s.user_id == r.user_id) db.sessions),
    )

-- A call that succeeds leaves the user of the token with the password that was given and with no
-- session, if bcrypt's comparison accepts a password against each hash of it.
pub consume_password_reset-resets :
    (hash : Text → Option Text) (compare : Text → Text → Bool) (token_hash password : Text)
    (now : ℕ) (db : Db) (u : User)
    → ((p h : Text) → hash p ≡ some h → compare h p ≡ true)
    → (consume_password_reset hash token_hash password now db).0 ≡ ok u
    → (user_by_id (consume_password_reset hash token_hash password now db).1 u.id ≡ ok u)
      × (compare u.password_hash password ≡ true)
      × (any
            (λ (s : Session). s.user_id == u.id)
            (consume_password_reset hash token_hash password now db).1.sessions
          ≡ false)
unfolding Redeemed
consume_password_reset-resets hash compare token_hash password now db u bcrypt h =
    let (r, e, fresh, hashed, k, left, found) = consume-ok hash token_hash password now db u h in
    resets_user compare password now r hashed db _ u (bcrypt password hashed k) left found
