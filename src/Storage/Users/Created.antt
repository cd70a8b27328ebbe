-- ===== src/Storage/Users/Created.antt =====
-- What CreateUser of src/svc/internal/storage/users.go leaves for the new user.
use dcalcon.Base.{
  ℕ, ◌+◌, Bool, true, Option, none, some, List, [], ◌∷◌, ◌++◌, Text, codes, same_refl, any,
  find_first, ◌≡◌, refl, ap, sym, ◌∙◌, arith, Bool-cases, Option-cases, ◌⊎◌, inl, inr,
  find_first-append, find_first-absent, ◌||◌, nocase, ==_refl,
}
use dcalcon.Storage.{
  User, Role, Db, Error, password_too_long, constraint, conflict, Result, ok, err,
}
use dcalcon.Storage.Calendars.{or_not_found}
use dcalcon.Storage.Provision.Fresh.{IsFresh, HasStart, provision-HasStart}
use dcalcon.Storage.Provision.Defaults.{provision-accounts, accounts}
use dcalcon.Storage.Users.{
  is_user, has_username, has_email, user_by_id, user_by_username, authenticate, parse_role, or_text,
  new_user, insert_user, create_user,
}

find_first-added :
    (p : User → Bool) (users : List User) (u : User)
    → find_first p users ≡ none
    → p u ≡ true
    → or_not_found (find_first p (users ++ u ∷ [])) ≡ ok u
find_first-added p users u absent h =
    rw (find_first-append p users (u ∷ []), absent) (unfold find_first in rw h refl)

pub authenticate-found :
    (compare : Text → Text → Bool) (db : Db) (username password : Text) (u : User)
    → user_by_username db username ≡ ok u
    → u.is_active ≡ true
    → compare u.password_hash password ≡ true
    → authenticate compare db username password ≡ ok u
unfolding authenticate
authenticate-found compare db username password u found active right =
    rw (found, authenticate) (rw (active, right) refl)

-- The row that the call adds.
abbrev added : Text → Text → Text → Text → Role → Text → Db → User
added username email hashed display_name role timezone db =
    new_user db.next_user username email hashed (or_text display_name username) role
      (or_text timezone (codes "UTC"))

module _ (hash : Text → Option Text) (username email password display_name role timezone now : Text)
    (db : Db) where
  abbrev outcome : Result User × Db
  outcome = create_user hash username email password display_name role timezone now db

  Created : Type 0
  Created =
      (hashed : Text) × (hash password ≡ some hashed)
      × (find_first (has_username username) db.users ≡ none)
      × (r : Role) × (outcome.0 ≡ user_by_id outcome.1 db.next_user)
      × (outcome.1.users ≡ db.users ++ added username email hashed display_name r timezone db ∷ [])
      × HasStart db.next_user outcome.1

  create-cases : IsFresh db.next_user db → ((e : Error) × (outcome.0 ≡ err e)) ⊎ Created
  unfolding create_user insert_user Created
  create-cases fresh = elim (Option-cases (hash password)) [
    | inl h ↦ inl (password_too_long, rw (h, create_user) refl)
    | inr (hashed, h) ↦ elim (Option-cases (parse_role (or_text role (codes "user")))) [
      | inl k ↦ inl (constraint, rw (h, k, create_user) refl)
      | inr (r, k) ↦
          elim (Bool-cases
            (any (has_username username) db.users || any (has_email email) db.users)) [
              | inl taken ↦ inl (conflict, rw (h, k, taken, create_user) refl)
              | inr free ↦ inr (
                hashed,
                h,
                find_first-absent _ _ (ground arith),
                r,
                rw (h, k, free, create_user) refl,
                rw (h, k, free, create_user)
                    (ap (λ (a : List User × ℕ). a.0) (provision-accounts _ _ _)),
                rw (h, k, free, create_user)
                    (provision-HasStart _ _ _ (record {
                      calendars = fresh.calendars;
                      books = fresh.books;
                      settings = fresh.settings;
                    })),
              )
            ]
    ]
  ]

  pub create_user-accounts :
      (accounts (create_user hash username email password display_name role timezone now db).1
        ≡ accounts db)
      ⊎ ((u : User) × (u.id ≡ db.next_user)
          × (accounts (create_user hash username email password display_name role timezone now db).1
              ≡ (db.users ++ u ∷ [], db.next_user + 1)))
  unfolding create_user insert_user
  create_user-accounts = elim (Option-cases (hash password)) [
    | inl h ↦ inl (rw (h, create_user) refl)
    | inr (hashed, h) ↦ elim (Option-cases (parse_role (or_text role (codes "user")))) [
      | inl k ↦ inl (rw (h, k, create_user) refl)
      | inr (r, k) ↦
          elim (Bool-cases
            (any (has_username username) db.users || any (has_email email) db.users)) [
              | inl taken ↦ inl (rw (h, k, taken, create_user) refl)
              | inr free ↦ inr (
                added username email hashed display_name r timezone db,
                refl,
                rw (h, k, free, create_user) (provision-accounts _ _ _),
              )
            ]
    ]
  ]

  logs_in :
      (compare : Text → Text → Bool) (u : User) (hashed : Text) (r : Role)
      → compare hashed password ≡ true
      → outcome.0 ≡ ok u
      → find_first (is_user db.next_user) db.users ≡ none
      → find_first (has_username username) db.users ≡ none
      → outcome.0 ≡ user_by_id outcome.1 db.next_user
      → outcome.1.users ≡ db.users ++ added username email hashed display_name r timezone db ∷ []
      → (u ≡ added username email hashed display_name r timezone db)
        × (authenticate compare outcome.1 username password ≡ ok u)
  unfolding user_by_id user_by_username authenticate
  logs_in compare u hashed r c e fresh free found users =
      let made = added username email hashed display_name r timezone db in
      let by_id : or_not_found (find_first (is_user db.next_user) (db.users ++ made ∷ []))
          ≡ ok made =
        find_first-added (is_user db.next_user) db.users made fresh (==_refl db.next_user) in
      let same_row : ok u ≡ ok made = sym e ∙ found ∙ rw users by_id in
      let row : u ≡ made = cc in
      let by_name : user_by_username outcome.1 username ≡ ok made = rw users (
        find_first-added (has_username username) db.users made free
          (same_refl (nocase username))) in
      (
        row,
        authenticate-found compare outcome.1 username password made by_name refl c ∙ sym same_row,
      )

  -- When CreateUser answers with a user, Authenticate accepts the username and the password that
  -- were given and answers with that user, who has exactly the collections and settings that a user
  -- has at the start, if the next id is not in use, by a user or by rows of one, and bcrypt's
  -- comparison accepts a password against each hash of it.
  pub create_user-authenticates :
      (compare : Text → Text → Bool)
      → ((p h : Text) → hash p ≡ some h → compare h p ≡ true)
      → find_first (is_user db.next_user) db.users ≡ none
      → IsFresh db.next_user db
      → (u : User)
      → (create_user hash username email password display_name role timezone now db).0 ≡ ok u
      → (authenticate compare
            (create_user hash username email password display_name role timezone now db).1
            username
            password
          ≡ ok u)
        × HasStart u.id
            (create_user hash username email password display_name role timezone now db).1
  unfolding Created
  create_user-authenticates compare bcrypt fresh unused u e = elim (create-cases unused) [
    | inl (x, h) ↦ absurd (cc (h, e))
    | inr (hashed, h, free, r, found, users, start) ↦
        let (row, answer) =
          logs_in compare u hashed r (bcrypt password hashed h) e fresh free found users in
        (answer, rw row start)
  ]
