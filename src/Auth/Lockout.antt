-- ===== src/Auth/Lockout.antt =====
-- Requests with a name and a password while the limiter has their key locked: Basic of
-- src/svc/internal/auth/auth.go on src/svc/internal/ratelimit/ratelimit.go.
use dcalcon.Base.{
  same_iff, inr, ◌∙◌, inl, arith, Bool-cases, all, ltb, ℕ, ◌+◌, ◌-◌, ◌<◌, Bool, true, false, Option,
  none, some, [], Text, same, ◌≡◌, refl, ap,
}
use dcalcon.Ratelimit.{Limiter, allow, fail}
use dcalcon.Ratelimit.Held.{
  locked_at, allow-locked, locked_at-allow, locked_at-fail, locked_at-success,
}
use dcalcon.Ratelimit.Lockout.{locked_at-locks}
use dcalcon.Storage.{Error, err, Db}
use dcalcon.Storage.AppPasswords.{authenticate_dav}
use dcalcon.Auth.{
  ok, ◌∷◌, User, Result, List, too_many_attempts, retry_after, login_key, answer_login, basic,
}

refused :
    (table : ℕ → ℕ) (compare : Text → Text → Bool) (now at later : ℕ) (ip user pass : Text)
    (lim : Option Limiter) (db : Db) (wait : ℕ)
    → same user [] ≡ false
    → (allow now (login_key table ip user) lim).0 ≡ (false, wait)
    → ((basic table compare now at later ip (some (user, pass)) lim db).0
        ≡ too_many_attempts (retry_after wait))
      × ((basic table compare now at later ip (some (user, pass)) lim db).2 ≡ db)
unfolding basic login_key
refused table compare now at later ip user pass lim db wait named e = rw (named, e) (refl, refl)

-- The limiter after a request of which the name and the password are wrong.
failed :
    (table : ℕ → ℕ) (compare : Text → Text → Bool) (now at later : ℕ) (ip user pass : Text)
    (lim left : Option Limiter) (db : Db) (e : Error)
    → same user [] ≡ false
    → allow now (login_key table ip user) lim ≡ ((true, 0), left)
    → (authenticate_dav compare at user pass db).0 ≡ err e
    → (basic table compare now at later ip (some (user, pass)) lim db).1
      ≡ (fail later (login_key table ip user) left).1
unfolding basic login_key answer_login
failed table compare now at later ip user pass lim left db e named free wrong =
    rw (named, free, wrong, answer_login)
      (ap (λ (x : (Bool × ℕ) × Option Limiter). (fail later (login_key table ip user) x.1).1) free)

answer_login-holds :
    (key other : Text) (t later : ℕ) (left : Option Limiter) (r : Result User × Db)
    → same other key ≡ false
    → locked_at key left ≡ some t
    → locked_at key (answer_login later other left r).1 ≡ some t
unfolding answer_login
answer_login-holds key other t later left (ok u, db) not_own held =
    locked_at-success key other left not_own ∙ held
answer_login-holds key other t later left (err e, db) not_own held =
    locked_at-fail later key other left not_own ∙ held

-- A call of Basic, with the database that it finds.
pub record Attempt : Type 0 where
  pub now : ℕ
  pub at : ℕ
  pub later : ℕ
  pub ip : Text
  pub credentials : Option (Text × Text)
  pub db : Db

module _ (table : ℕ → ℕ) (compare : Text → Text → Bool) where
  -- The limiter that an attempt leaves.
  abbrev pub attempt : Attempt → Option Limiter → Option Limiter
  attempt a lim = (basic table compare a.now a.at a.later a.ip a.credentials lim a.db).1

  unfoldable pub attempts : List Attempt → Option Limiter → Option Limiter
  attempts [] lim = lim
  attempts (a ∷ rest) lim = attempts rest (attempt a lim)

  -- Any request before the lock of a key ends keeps the lock.
  basic-holds :
      (key : Text) (t now at later : ℕ) (ip : Text) (credentials : Option (Text × Text))
      (lim : Option Limiter) (db : Db)
      → locked_at key lim ≡ some t
      → ltb now t ≡ true
      → locked_at key (basic table compare now at later ip credentials lim db).1 ≡ some t
  unfolding basic login_key
  basic-holds key t now at later ip none lim db held early = held
  basic-holds key t now at later ip (some (user, pass)) lim db held early =
      let other = login_key table ip user in
      let kept = locked_at-allow now t key other lim held early in
      elim (Bool-cases (same user [])) [
        | inl empty ↦ rw empty held
        | inr named ↦ elim (Bool-cases (allow now other lim).0.0) [
          | inr refuses ↦ rw (named, refuses) kept
          | inl passes ↦ elim (Bool-cases (same other key)) [
            | inl own ↦
                let key_is : other ≡ key = (same_iff other key).0 own in
                let closed : (allow now other lim).0.0 ≡ false =
                  rw key_is (ap (λ (x : Bool × ℕ). x.0) (allow-locked now t key lim held early)) in
                absurd (cc (closed, passes))
            | inr not_own ↦
                rw (named, passes)
                  (answer_login-holds key other t later (allow now other lim).1
                    (authenticate_dav compare at user pass db) not_own kept)
          ]
        ]
      ]

  attempts-hold :
      (key : Text) (t : ℕ) (rest : List Attempt) (lim : Option Limiter)
      → locked_at key lim ≡ some t
      → all (λ (a : Attempt). ltb a.now t) rest ≡ true
      → locked_at key (attempts rest lim) ≡ some t
  unfolding attempts all
  attempts-hold key t [] lim held early = held
  attempts-hold key t (a ∷ rest) lim held early =
      attempts-hold key t rest _
        (basic-holds key t a.now a.at a.later a.ip a.credentials lim a.db held (ground arith))
        (ground arith)

  -- Once a wrong password has locked its key, and after any further requests before the lockout ends,
  -- a request with that key is refused before the lockout ends, whatever password it has, with how
  -- long is left, and the database is not written.
  pub basic-locked :
      (now at later : ℕ) (ip user pass : Text) (lim : Option Limiter) (l : Limiter) (db : Db)
      (e : Error) (rest : List Attempt) (now2 at2 later2 : ℕ) (ip2 user2 pass2 : Text) (db2 : Db)
      → same user [] ≡ false
      → allow now (login_key table ip user) lim ≡ ((true, 0), some l)
      → (authenticate_dav compare at user pass db).0 ≡ err e
      → (fail later (login_key table ip user) (some l)).0.0 ≡ true
      → all (λ (a : Attempt). ltb a.now (later + l.lockout)) rest ≡ true
      → same user2 [] ≡ false
      → login_key table ip2 user2 ≡ login_key table ip user
      → now2 < later + l.lockout
      → ((basic table compare now2 at2 later2 ip2
            (some (user2, pass2))
            (attempts rest (basic table compare now at later ip (some (user, pass)) lim db).1)
            db2).0
          ≡ too_many_attempts (retry_after ((later + l.lockout) - now2)))
        × ((basic table compare now2 at2 later2 ip2
              (some (user2, pass2))
              (attempts rest (basic table compare now at later ip (some (user, pass)) lim db).1)
              db2).2
            ≡ db2)
  basic-locked now at later ip user pass lim l db e rest now2 at2 later2 ip2 user2 pass2 db2 named
        free wrong locked soon named2 keys early =
      let key = login_key table ip user in
      let end = later + l.lockout in
      let first = (basic table compare now at later ip (some (user, pass)) lim db).1 in
      let start : locked_at key first ≡ some end =
        rw (failed table compare now at later ip user pass lim (some l) db e named free wrong)
          (locked_at-locks later key l locked) in
      refused table compare now2 at2 later2 ip2 user2 pass2 (attempts rest first) db2 (end - now2)
        named2
        (rw keys (
          allow-locked now2 end key _ (attempts-hold key end rest first start soon) (ground arith)))
