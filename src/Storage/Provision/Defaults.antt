-- ===== src/Storage/Provision/Defaults.antt =====
-- What ProvisionUserDefaults of src/svc/internal/storage/users.go gives a user.
use dcalcon.Base.{
  ℕ, Bool, true, false, List, [], ◌∷◌, Text, codes, same_refl, any, ◌≡◌, refl, arith, Bool-cases,
  ◌∙◌, inl, inr, any-append, ==_refl, ◌==◌,
}
use dcalcon.Storage.{Kind, CalendarRow, AddressBook, ImportantDates, User, Db}
use dcalcon.Storage.Calendars.{owns_slug}
use dcalcon.Storage.Provision.{
  add_calendar, add_book, owns_book, add_important_dates, ensure_scheduling_collections,
  ensure_people_book, provision_user_defaults,
}

-- The slugs of the calendars and of the address books that a user has from the start.
abbrev pub default_calendars : List Text
default_calendars = codes "personal" ∷ codes "inbox" ∷ codes "outbox" ∷ []

abbrev pub default_books : List Text
default_books = codes "contacts" ∷ codes "people" ∷ []

pub add_calendar-owns :
    (user : ℕ) (slug name description color : Text) (kind : Kind) (read_only : Bool) (now : Text)
    (db : Db)
    → any
        (owns_slug user slug)
        (add_calendar user slug name description color kind read_only now db).calendars
      ≡ true
unfolding add_calendar
add_calendar-owns user slug name description color kind read_only now db =
    elim (Bool-cases (any (owns_slug user slug) db.calendars)) [
      | inl h ↦ rw h h
      | inr h ↦
          rw (h, any-append (owns_slug user slug) db.calendars)
            (unfold any in rw (same_refl slug, ==_refl user) (rw h refl))
    ]

add_calendar-keeps :
    (p : CalendarRow → Bool) (user : ℕ) (slug name description color : Text) (kind : Kind)
    (read_only : Bool) (now : Text) (db : Db)
    → any p db.calendars ≡ true
    → any p (add_calendar user slug name description color kind read_only now db).calendars ≡ true
unfolding add_calendar
add_calendar-keeps p user slug name description color kind read_only now db e =
    elim (Bool-cases (any (owns_slug user slug) db.calendars)) [
      | inl h ↦ rw h e
      | inr h ↦ rw (h, any-append p db.calendars, e) refl
    ]

add_calendar-again :
    (user : ℕ) (slug name description color : Text) (kind : Kind) (read_only : Bool) (now : Text)
    (db : Db)
    → any (owns_slug user slug) db.calendars ≡ true
    → add_calendar user slug name description color kind read_only now db ≡ db
unfolding add_calendar
add_calendar-again user slug name description color kind read_only now db e = rw e refl

pub add_calendar-books :
    (user : ℕ) (slug name description color : Text) (kind : Kind) (read_only : Bool) (now : Text)
    (db : Db)
    → (add_calendar user slug name description color kind read_only now db).books ≡ db.books
unfolding add_calendar
add_calendar-books user slug name description color kind read_only now db = ground arith

add_book-owns :
    (user : ℕ) (slug name description : Text) (read_only : Bool) (now : Text) (db : Db)
    → any (owns_book user slug) (add_book user slug name description read_only now db).books ≡ true
unfolding add_book
add_book-owns user slug name description read_only now db =
    elim (Bool-cases (any (owns_book user slug) db.books)) [
      | inl h ↦ rw h h
      | inr h ↦
          rw (h, any-append (owns_book user slug) db.books)
            (unfold any in rw (same_refl slug, ==_refl user) (rw h refl))
    ]

add_book-keeps :
    (p : AddressBook → Bool) (user : ℕ) (slug name description : Text) (read_only : Bool)
    (now : Text) (db : Db)
    → any p db.books ≡ true
    → any p (add_book user slug name description read_only now db).books ≡ true
unfolding add_book
add_book-keeps p user slug name description read_only now db e =
    elim (Bool-cases (any (owns_book user slug) db.books)) [
      | inl h ↦ rw h e
      | inr h ↦ rw (h, any-append p db.books, e) refl
    ]

add_book-again :
    (user : ℕ) (slug name description : Text) (read_only : Bool) (now : Text) (db : Db)
    → any (owns_book user slug) db.books ≡ true
    → add_book user slug name description read_only now db ≡ db
unfolding add_book
add_book-again user slug name description read_only now db e = rw e refl

pub add_book-calendars :
    (user : ℕ) (slug name description : Text) (read_only : Bool) (now : Text) (db : Db)
    → (add_book user slug name description read_only now db).calendars ≡ db.calendars
unfolding add_book
add_book-calendars user slug name description read_only now db = ground arith

add_important-has :
    (user : ℕ) (db : Db)
    → any (λ (s : ImportantDates). s.user_id == user) (add_important_dates user db).important ≡ true
unfolding add_important_dates
add_important-has user db =
    elim (Bool-cases (any (λ (s : ImportantDates). s.user_id == user) db.important)) [
      | inl h ↦ rw h h
      | inr h ↦
          rw (h, any-append (λ (s : ImportantDates). s.user_id == user) db.important)
            (unfold any in rw (==_refl user) (rw h refl))
    ]

pub add_important-calendars :
    (user : ℕ) (db : Db) → (add_important_dates user db).calendars ≡ db.calendars
unfolding add_important_dates
add_important-calendars user db = ground arith

pub add_important-books : (user : ℕ) (db : Db) → (add_important_dates user db).books ≡ db.books
unfolding add_important_dates
add_important-books user db = ground arith

pub add_calendar-important :
    (user : ℕ) (slug name description color : Text) (kind : Kind) (read_only : Bool) (now : Text)
    (db : Db)
    → (add_calendar user slug name description color kind read_only now db).important ≡ db.important
unfolding add_calendar
add_calendar-important user slug name description color kind read_only now db = ground arith

pub add_book-important :
    (user : ℕ) (slug name description : Text) (read_only : Bool) (now : Text) (db : Db)
    → (add_book user slug name description read_only now db).important ≡ db.important
unfolding add_book
add_book-important user slug name description read_only now db = ground arith

add_important-again :
    (user : ℕ) (db : Db)
    → any (λ (s : ImportantDates). s.user_id == user) db.important ≡ true
    → add_important_dates user db ≡ db
unfolding add_important_dates
add_important-again user db e = rw e refl

-- The user has each default calendar and address book, and settings for important dates.
record HasDefaults (user : ℕ) (db : Db) : Type 0 where
  pub personal : any (owns_slug user (codes "personal")) db.calendars ≡ true
  pub inbox : any (owns_slug user (codes "inbox")) db.calendars ≡ true
  pub outbox : any (owns_slug user (codes "outbox")) db.calendars ≡ true
  pub contacts : any (owns_book user (codes "contacts")) db.books ≡ true
  pub people : any (owns_book user (codes "people")) db.books ≡ true
  pub important : any (λ (s : ImportantDates). s.user_id == user) db.important ≡ true

provision-HasDefaults :
    (user : ℕ) (now : Text) (db : Db) → HasDefaults user (provision_user_defaults user now db)
unfolding provision_user_defaults ensure_people_book ensure_scheduling_collections
provision-HasDefaults user now db =
    let d1 =
      add_calendar user (codes "personal") (codes "Personal") (codes "Default calendar")
        (codes "#E72625") Kind.personal false now db in
    record {
      personal =
          rw
            (
              add_important-calendars, add_book-calendars, add_book-calendars,
              ensure_scheduling_collections,
            )
            (add_calendar-keeps _ _ _ _ _ _ _ _ _ _
              (add_calendar-keeps _ _ _ _ _ _ _ _ _ _ (add_calendar-owns _ _ _ _ _ _ _ _ _)));
      inbox =
          rw
            (
              add_important-calendars, add_book-calendars, add_book-calendars,
              ensure_scheduling_collections,
            )
            (add_calendar-keeps _ _ _ _ _ _ _ _ _ _ (add_calendar-owns _ _ _ _ _ _ _ _ _));
      outbox =
          rw
            (
              add_important-calendars, add_book-calendars, add_book-calendars,
              ensure_scheduling_collections,
            )
            (add_calendar-owns _ _ _ _ _ _ _ _ _);
      contacts =
          rw (add_important-books) (add_book-keeps _ _ _ _ _ _ _ _ (add_book-owns _ _ _ _ _ _ _));
      people = rw (add_important-books) (add_book-owns _ _ _ _ _ _ _);
      important = add_important-has user _;
    }

settled :
    (user : ℕ) (later : Text) (db : Db)
    → HasDefaults user db
    → provision_user_defaults user later db ≡ db
unfolding provision_user_defaults ensure_people_book ensure_scheduling_collections
settled user later db h =
    rw
      (
        add_calendar-again user (codes "personal") _ _ _ _ _ later db h.personal,
        add_calendar-again user (codes "inbox") _ _ _ _ _ later db h.inbox,
        add_calendar-again user (codes "outbox") _ _ _ _ _ later db h.outbox,
        add_book-again user (codes "contacts") _ _ _ later db h.contacts,
        add_book-again user (codes "people") _ _ _ later db h.people,
        add_important-again user db h.important,
      )
      refl

-- ProvisionUserDefaults a second time, at whatever time, changes nothing.
pub provision_user_defaults-again :
    (user : ℕ) (now later : Text) (db : Db)
    → provision_user_defaults user later (provision_user_defaults user now db)
      ≡ provision_user_defaults user now db
provision_user_defaults-again user now later db =
    settled user later (provision_user_defaults user now db) (provision-HasDefaults user now db)

-- The users, and the id that the next one gets.
abbrev pub accounts : Db → List User × ℕ
accounts db = (db.users, db.next_user)

add_calendar-accounts :
    (user : ℕ) (slug name description color : Text) (kind : Kind) (read_only : Bool) (now : Text)
    (db : Db)
    → accounts (add_calendar user slug name description color kind read_only now db) ≡ accounts db
unfolding add_calendar
add_calendar-accounts user slug name description color kind read_only now db =
    elim (Bool-cases (any (owns_slug user slug) db.calendars)) [
      | inl h ↦ rw h refl
      | inr h ↦ rw h refl
    ]

add_book-accounts :
    (user : ℕ) (slug name description : Text) (read_only : Bool) (now : Text) (db : Db)
    → accounts (add_book user slug name description read_only now db) ≡ accounts db
unfolding add_book
add_book-accounts user slug name description read_only now db =
    elim (Bool-cases (any (owns_book user slug) db.books)) [ inl h ↦ rw h refl | inr h ↦ rw h refl ]

add_important-accounts : (user : ℕ) (db : Db) → accounts (add_important_dates user db) ≡ accounts db
unfolding add_important_dates
add_important-accounts user db =
    elim (Bool-cases (any (λ (s : ImportantDates). s.user_id == user) db.important)) [
      | inl h ↦ rw h refl
      | inr h ↦ rw h refl
    ]

pub provision-accounts :
    (user : ℕ) (now : Text) (db : Db) → accounts (provision_user_defaults user now db) ≡ accounts db
unfolding provision_user_defaults ensure_people_book ensure_scheduling_collections
provision-accounts user now db =
    add_important-accounts user _
    ∙ add_book-accounts user (codes "people") _ _ _ now _
    ∙ add_book-accounts user (codes "contacts") _ _ _ now _
    ∙ add_calendar-accounts user (codes "outbox") _ _ _ _ _ now _
    ∙ add_calendar-accounts user (codes "inbox") _ _ _ _ _ now _
    ∙ add_calendar-accounts user (codes "personal") _ _ _ _ _ now db
