-- ===== src/Storage/Provision/Fresh.antt =====
-- What ProvisionUserDefaults of src/svc/internal/storage/users.go gives a user who has nothing yet.
use dcalcon.Base.{
  ℕ, Bool, true, false, List, [], ◌∷◌, ◌++◌, Text, codes, same, any, select, map, ◌≡◌, refl, ◌∙◌,
  arith, ◌==◌,
}
use dcalcon.Storage.{Kind, inbox, outbox, CalendarRow, AddressBook, ImportantDates, Db}
use dcalcon.Storage.Calendars.{owns_slug}
use dcalcon.Storage.Provision.Defaults.{
  add_calendar-books, add_calendar-important, add_book-calendars, add_book-important,
  add_important-calendars, add_important-books,
}
use dcalcon.Storage.Provision.{
  add_calendar, add_book, owns_book, add_important_dates, ensure_scheduling_collections,
  ensure_people_book, provision_user_defaults,
}

-- A user's calendars, each with its slug, its kind and whether it is read-only.
abbrev pub calendars_in : ℕ → List CalendarRow → List (Text × Kind × Bool)
calendars_in user rows =
    map (λ (c : CalendarRow). (c.slug, c.kind, c.read_only))
      (select (λ (c : CalendarRow). c.user_id == user) rows)

-- A user's address books, each with its slug and whether it is read-only.
abbrev pub books_in : ℕ → List AddressBook → List (Text × Bool)
books_in user rows =
    map (λ (b : AddressBook). (b.slug, b.read_only))
      (select (λ (b : AddressBook). b.user_id == user) rows)

abbrev pub settings_in : ℕ → List ImportantDates → List (Bool × Bool × Bool)
settings_in user rows =
    map (λ (s : ImportantDates). (s.enabled, s.include_birthdays, s.include_anniversaries))
      (select (λ (s : ImportantDates). s.user_id == user) rows)

-- The user has no calendars, address books and settings.
pub record IsFresh (user : ℕ) (db : Db) : Type 0 where
  pub calendars : calendars_in user db.calendars ≡ []
  pub books : books_in user db.books ≡ []
  pub settings : settings_in user db.important ≡ []

-- The user has the personal calendar, a read-only inbox and an outbox, the address book contacts
-- and a read-only one for the people of the server, and settings that are off, and nothing else.
pub record HasStart (user : ℕ) (db : Db) : Type 0 where
  pub calendars :
      calendars_in user db.calendars
      ≡ (codes "personal", Kind.personal, false)
        ∷ (codes "inbox", inbox, true)
        ∷ (codes "outbox", outbox, false)
        ∷ []
  pub books : books_in user db.books ≡ (codes "contacts", false) ∷ (codes "people", true) ∷ []
  pub settings : settings_in user db.important ≡ (false, true, true) ∷ []

any-owns_slug :
    (user : ℕ) (slug : Text) (rows : List CalendarRow)
    → any (owns_slug user slug) rows
      ≡ any (λ (t : Text × Kind × Bool). same t.0 slug) (calendars_in user rows)
unfolding any select
any-owns_slug user slug [] = refl
any-owns_slug user slug (c ∷ rows) = ground (arith, any-owns_slug user slug rows)

any-owns_book :
    (user : ℕ) (slug : Text) (rows : List AddressBook)
    → any (owns_book user slug) rows ≡ any (λ (t : Text × Bool). same t.0 slug) (books_in user rows)
unfolding any select
any-owns_book user slug [] = refl
any-owns_book user slug (b ∷ rows) = ground (arith, any-owns_book user slug rows)

calendars_in-append :
    (user : ℕ) (rows : List CalendarRow) (c : CalendarRow)
    → c.user_id ≡ user
    → calendars_in user (rows ++ c ∷ [])
      ≡ calendars_in user rows ++ (c.slug, c.kind, c.read_only) ∷ []
unfolding select
calendars_in-append user [] c own = ground arith
calendars_in-append user (d ∷ rows) c own = ground (arith, calendars_in-append user rows c own)

books_in-append :
    (user : ℕ) (rows : List AddressBook) (b : AddressBook)
    → b.user_id ≡ user
    → books_in user (rows ++ b ∷ []) ≡ books_in user rows ++ (b.slug, b.read_only) ∷ []
unfolding select
books_in-append user [] b own = ground arith
books_in-append user (d ∷ rows) b own = ground (arith, books_in-append user rows b own)

-- A calendar of a new slug is added at the end.
add_calendar-new :
    (user : ℕ) (slug name description color : Text) (kind : Kind) (read_only : Bool) (now : Text)
    (db : Db) (held : List (Text × Kind × Bool))
    → calendars_in user db.calendars ≡ held
    → any (λ (t : Text × Kind × Bool). same t.0 slug) held ≡ false
    → calendars_in user
        (add_calendar user slug name description color kind read_only now db).calendars
      ≡ held ++ (slug, kind, read_only) ∷ []
unfolding add_calendar
add_calendar-new user slug name description color kind read_only now db held e free =
    rw (any-owns_slug user slug db.calendars, e, free)
      (calendars_in-append user db.calendars _ refl ∙ rw e refl)

add_book-new :
    (user : ℕ) (slug name description : Text) (read_only : Bool) (now : Text) (db : Db)
    (held : List (Text × Bool))
    → books_in user db.books ≡ held
    → any (λ (t : Text × Bool). same t.0 slug) held ≡ false
    → books_in user (add_book user slug name description read_only now db).books
      ≡ held ++ (slug, read_only) ∷ []
unfolding add_book
add_book-new user slug name description read_only now db held e free =
    rw (any-owns_book user slug db.books, e, free)
      (books_in-append user db.books _ refl ∙ rw e refl)

settings-none :
    (user : ℕ) (rows : List ImportantDates)
    → settings_in user rows ≡ []
    → any (λ (s : ImportantDates). s.user_id == user) rows ≡ false
unfolding any select
settings-none user [] e = refl
settings-none user (s ∷ rows) e = ground (arith, settings-none user rows)

settings_in-append :
    (user : ℕ) (rows : List ImportantDates) (s : ImportantDates)
    → s.user_id ≡ user
    → settings_in user (rows ++ s ∷ [])
      ≡ settings_in user rows ++ (s.enabled, s.include_birthdays, s.include_anniversaries) ∷ []
unfolding select
settings_in-append user [] s own = ground arith
settings_in-append user (d ∷ rows) s own = ground (arith, settings_in-append user rows s own)

add_important-new :
    (user : ℕ) (db : Db)
    → settings_in user db.important ≡ []
    → settings_in user (add_important_dates user db).important ≡ (false, true, true) ∷ []
unfolding add_important_dates
add_important-new user db e =
    rw (settings-none user db.important e) (settings_in-append user db.important _ refl ∙ rw e refl)

-- The database once the calendars are there, and once the books are.
abbrev with_calendars : ℕ → Text → Db → Db
with_calendars user now db = ensure_scheduling_collections user now (
    add_calendar user (codes "personal") (codes "Personal") (codes "Default calendar")
      (codes "#E72625") Kind.personal false now db)

abbrev with_books : ℕ → Text → Db → Db
with_books user now db = ensure_people_book user now (
    add_book user (codes "contacts") (codes "Contacts") (codes "Default address book") false now
      (with_calendars user now db))

with_calendars-books :
    (user : ℕ) (now : Text) (db : Db) → (with_calendars user now db).books ≡ db.books
unfolding ensure_scheduling_collections
with_calendars-books user now db =
    rw (add_calendar-books, add_calendar-books, add_calendar-books) refl

with_books-important :
    (user : ℕ) (now : Text) (db : Db) → (with_books user now db).important ≡ db.important
unfolding ensure_scheduling_collections ensure_people_book
with_books-important user now db =
    rw
      (
        add_book-important, add_book-important, add_calendar-important, add_calendar-important,
        add_calendar-important,
      )
      refl

-- A user who has nothing has the start, and nothing else, after ProvisionUserDefaults.
pub provision-HasStart :
    (user : ℕ) (now : Text) (db : Db)
    → IsFresh user db
    → HasStart user (provision_user_defaults user now db)
unfolding provision_user_defaults ensure_people_book ensure_scheduling_collections any same
provision-HasStart user now db fresh = record {
  calendars =
      rw
        (
          add_important-calendars, add_book-calendars, add_book-calendars,
          ensure_scheduling_collections,
        )
        (add_calendar-new _ _ _ _ _ _ _ _ _ _
          (add_calendar-new _ _ _ _ _ _ _ _ _ _
            (add_calendar-new _ _ _ _ _ _ _ _ _ _ fresh.calendars refl) refl)
          refl);
  books = rw add_important-books (
      add_book-new _ _ _ _ _ _ _ _
        (add_book-new _ _ _ _ _ _ (with_calendars user now db) []
          (rw (with_calendars-books user now db) fresh.books) refl)
        refl);
  settings =
      add_important-new user (with_books user now db)
        (rw (with_books-important user now db) fresh.settings);
}
