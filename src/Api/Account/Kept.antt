-- ===== src/Api/Account/Kept.antt =====
-- The sessions that changePassword of src/svc/internal/api/account.go leaves.
use dcalcon.Base.{
  ℕ, Bool, true, not, ◌||◌, Option, some, List, [], ◌∷◌, Text, codes, same, all, select, ◌==◌, ◌≡◌,
  refl, arith, Bool-cases, Option-cases, inl, inr,
}
use dcalcon.Storage.{Session, Result-cases, Db}
use dcalcon.Storage.Users.{authenticate, delete_sessions_for_user}
use dcalcon.Storage.Users.Passwords.{set_password-ok, set_password-long}
use dcalcon.Storage.Sessions.{has_id, delete_sessions_for_user_except}
use dcalcon.Storage.Audit.{audit}
use dcalcon.Auth.{Principal, cookie_value}
use dcalcon.Api.{Crypto, status, valid_password, audit_as}
use dcalcon.Api.Totp.{is_ok}
use dcalcon.Api.Account.{change_password}

-- A session of another user, or the one that is kept.
abbrev pub is_spared : (Text → Text) → ℕ → Text → Session → Bool
is_spared hash_token user keep s =
    not (s.user_id == user) || (has_id keep s || has_id (hash_token keep) s)

spared :
    (hash_token : Text → Text) (user : ℕ) (keep : Text) (q : Session → Bool) (rows : List Session)
    → ((s : Session) → q s ≡ true → is_spared hash_token user keep s ≡ true)
    → all (is_spared hash_token user keep) (select q rows) ≡ true
unfolding all select
spared hash_token user keep q [] imp = refl
spared hash_token user keep q (s ∷ rows) imp =
    ground (arith, imp s, spared hash_token user keep q rows imp)

except-spares :
    (hash_token : Text → Text) (user : ℕ) (keep : Text) (db : Db)
    → all
        (is_spared hash_token user keep)
        (delete_sessions_for_user_except hash_token user keep db).sessions
      ≡ true
unfolding delete_sessions_for_user_except delete_sessions_for_user
except-spares hash_token user keep db = elim (Bool-cases (same keep [])) [
  | inl empty ↦ rw empty (spared hash_token user keep _ db.sessions (λ s h. ground arith))
  | inr given ↦ rw given (spared hash_token user keep _ db.sessions (λ s h. ground arith))
]

-- When changePassword succeeds, the current password was right, and each session that is left is
-- another user's or the one of the request's cookie.
pub change_password-spares :
    (c : Crypto) (p : Principal) (cookie : Option Text) (current next : Text) (db : Db)
    → (change_password c p cookie (some (current, next)) db).0 ≡ status (codes "ok")
    → (is_ok (authenticate c.compare db p.username current) ≡ true)
      × (all
            (is_spared c.hash_token p.id (cookie_value cookie))
            (change_password c p cookie (some (current, next)) db).1.sessions
          ≡ true)
unfolding change_password audit_as audit
change_password-spares c p cookie current next db h =
    elim (Bool-cases (valid_password c.table next)) [
      | inr weak ↦ let g = rw weak at h in absurd cc
      | inl strong ↦ elim (Result-cases (authenticate c.compare db p.username current)) [
        | inl (e, wrong) ↦ let g = rw (strong, wrong, change_password) at h in absurd cc
        | inr (u, right) ↦ elim (Option-cases (c.hash next)) [
          | inl long ↦
              let g =
                rw (strong, right, set_password-long c.hash p.id next db long, change_password) at
                  h in
              absurd cc
          | inr (hashed, e) ↦ (
            rw right refl,
            rw (strong, right, set_password-ok c.hash p.id next hashed db e, change_password)
                (except-spares c.hash_token p.id (cookie_value cookie) _),
          )
        ]
      ]
    ]
