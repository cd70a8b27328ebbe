-- ===== src/Storage/AppPasswords/Login.antt =====
-- Who AuthenticateDAV of src/svc/internal/storage/app_passwords.go lets in.
use dcalcon.Base.{
  ℕ, Bool, true, false, ◌&&◌, some, List, [], ◌∷◌, Text, find_first, select, any, ◌≡◌, refl, sym,
  arith, Bool-cases, Option-cases, ◌⊎◌, inl, inr, ◌==◌,
}
use dcalcon.Storage.{User, AppPassword, Result-cases, ok, Db}
use dcalcon.Storage.Users.{user_by_username, authenticate, totp_state}
use dcalcon.Storage.AppPasswords.{
  is_candidate, authenticate_app_password, totp_on, authenticate_dav,
}

-- The user has an app password of which the text is the secret.
abbrev pub has_app_password : (Text → Text → Bool) → Db → ℕ → Text → Bool
has_app_password compare db user password =
    any (λ (p : AppPassword). p.user_id == user && compare p.password_hash password)
      db.app_passwords

pub authenticate_sound :
    (compare : Text → Text → Bool) (db : Db) (username password : Text) (u : User)
    → authenticate compare db username password ≡ ok u
    → (user_by_username db username ≡ ok u)
      × (u.is_active ≡ true)
      × (compare u.password_hash password ≡ true)
unfolding authenticate
authenticate_sound compare db username password u h =
    elim (Result-cases (user_by_username db username)) [
      | inl (e, k) ↦ let g = rw (k, authenticate) at h in absurd cc
      | inr (v, k) ↦
          let g = rw (k, authenticate) at h in
          elim (Bool-cases v.is_active) [
            | inr off ↦ let f = rw off at g in absurd cc
            | inl on ↦ elim (Bool-cases (compare v.password_hash password)) [
              | inr bad ↦ let f = rw (on, bad) at g in absurd cc
              | inl good ↦
                  let f = rw (on, good) at g in
                  let same_user : v ≡ u = cc in
                  (rw (sym same_user) k, rw (sym same_user) on, rw (sym same_user) good)
            ]
          ]
    ]

any-candidate :
    (p q r : AppPassword → Bool) (rows : List AppPassword) (x : AppPassword)
    → find_first p (select q rows) ≡ some x
    → ((y : AppPassword) → p y ≡ true → q y ≡ true → r y ≡ true)
    → any r rows ≡ true
unfolding find_first select any
any-candidate p q r [] x h imp = absurd cc
any-candidate p q r (y ∷ rows) x h imp = ground (arith, imp y, any-candidate p q r rows x)

is_candidate-owner :
    (user : ℕ) (password : Text) (p : AppPassword)
    → is_candidate user password p ≡ true
    → (p.user_id == user) ≡ true
unfolding is_candidate
is_candidate-owner user password p h = ground arith

app_password_sound :
    (compare : Text → Text → Bool) (now : ℕ) (username password : Text) (db : Db) (u : User)
    → (authenticate_app_password compare now username password db).0 ≡ ok u
    → (user_by_username db username ≡ ok u)
      × (u.is_active ≡ true)
      × (has_app_password compare db u.id password ≡ true)
unfolding authenticate_app_password
app_password_sound compare now username password db u h =
    elim (Result-cases (user_by_username db username)) [
      | inl (e, k) ↦ let g = rw (k, authenticate_app_password) at h in absurd cc
      | inr (v, k) ↦
          let g = rw (k, authenticate_app_password) at h in
          elim (Bool-cases v.is_active) [
            | inr off ↦ let f = rw off at g in absurd cc
            | inl on ↦
                elim (Option-cases (
                  find_first (λ (p : AppPassword). compare p.password_hash password)
                    (select (is_candidate v.id password) db.app_passwords))) [
                      | inl bad ↦ let f = rw (on, bad) at g in absurd cc
                      | inr (p, good) ↦
                          let f = rw (on, good) at g in
                          let same_user : v ≡ u = cc in
                          (
                            rw (sym same_user) k,
                            rw (sym same_user) on,
                            rw (sym same_user) (
                                any-candidate _ _ _ db.app_passwords p good
                                  (λ y a b. rw (a, is_candidate-owner v.id password y b) refl)),
                          )
                    ]
          ]
    ]

-- Whom AuthenticateDAV lets in is an active user of the given username, of whom either the password
-- is the one that was given and one-time codes are off, or an app password is.
pub authenticate_dav_sound :
    (compare : Text → Text → Bool) (now : ℕ) (username password : Text) (db : Db) (u : User)
    → (authenticate_dav compare now username password db).0 ≡ ok u
    → (user_by_username db username ≡ ok u)
      × (u.is_active ≡ true)
      × (((compare u.password_hash password ≡ true) × (totp_on (totp_state db u.id) ≡ false))
          ⊎ (has_app_password compare db u.id password ≡ true))
unfolding authenticate_dav
authenticate_dav_sound compare now username password db u h =
    elim (Result-cases (authenticate compare db username password)) [
      | inl (e, k) ↦
          let g = rw (k, authenticate_dav) at h in
          let (named, active, secret) = app_password_sound compare now username password db u g in
          (named, active, inr secret)
      | inr (v, k) ↦
          let (named, active, secret) = authenticate_sound compare db username password v k in
          let g = rw (k, authenticate_dav) at h in
          elim (Bool-cases (totp_on (totp_state db v.id))) [
            | inl on ↦ let f = rw on at g in absurd cc
            | inr off ↦
                let f = rw off at g in
                let same_user : v ≡ u = cc in
                (
                  rw (sym same_user) named,
                  rw (sym same_user) active,
                  inl (rw (sym same_user) secret, rw (sym same_user) off),
                )
          ]
    ]
