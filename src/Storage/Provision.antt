-- ===== src/Storage/Provision.antt =====
-- The collections of a new user: ProvisionUserDefaults of src/svc/internal/storage/users.go and what
-- it calls. Each statement is an INSERT OR IGNORE for a user that exists, so that the foreign key
-- holds.
pub mod Defaults
pub mod Fresh
use dcalcon.Base.{
  ℕ, ◌+◌, Bool, true, false, ◌&&◌, [], ◌∷◌, ◌++◌, Text, codes, same, any, ◌==◌, if◌then◌else◌,
}
use dcalcon.Storage.{Kind, personal, inbox, outbox, AddressBook, ImportantDates, Db}
use dcalcon.Storage.Calendars.{owns_slug}

-- INSERT OR IGNORE INTO calendars
unfoldable pub add_calendar : ℕ → Text → Text → Text → Text → Kind → Bool → Text → Db → Db
add_calendar user slug name description color kind read_only now db =
    if any (owns_slug user slug) db.calendars then db else record db {
      calendars =
          db.calendars
          ++ record {
            id = db.next_calendar;
            user_id = user;
            slug = slug;
            name = name;
            description = description;
            color = color;
            timezone = codes "UTC";
            kind = kind;
            read_only = read_only;
            ctag = 1;
            sync_token = codes "1";
            updated_at = now;
          }
            ∷ [];
      next_calendar = db.next_calendar + 1;
    }

abbrev pub owns_book : ℕ → Text → AddressBook → Bool
owns_book user slug b = b.user_id == user && same b.slug slug

-- INSERT OR IGNORE INTO addressbooks
unfoldable pub add_book : ℕ → Text → Text → Text → Bool → Text → Db → Db
add_book user slug name description read_only now db =
    if any (owns_book user slug) db.books then db else record db {
      books =
          db.books
          ++ record {
            id = db.next_book;
            user_id = user;
            slug = slug;
            name = name;
            description = description;
            read_only = read_only;
            ctag = 1;
            sync_token = codes "1";
            updated_at = now;
          }
            ∷ [];
      next_book = db.next_book + 1;
    }

-- EnsureSchedulingCollections
unfoldable pub ensure_scheduling_collections : ℕ → Text → Db → Db
unfolding add_calendar
ensure_scheduling_collections user now db =
    add_calendar user (codes "outbox") (codes "Schedule Outbox")
      (codes "CalDAV scheduling outbox (RFC 6638)") (codes "#94A3B8") outbox false now
      (add_calendar user (codes "inbox") (codes "Schedule Inbox")
        (codes "CalDAV scheduling inbox (RFC 6638)") (codes "#64748B") inbox true now db)

-- EnsurePeopleBook
unfoldable pub ensure_people_book : ℕ → Text → Db → Db
unfolding add_book
ensure_people_book user now db =
    add_book user (codes "people") (codes "People on this server")
      (codes "Other dCalCon users. Invite them with their local calendar address.") true now db

-- INSERT OR IGNORE INTO important_dates_settings
unfoldable pub add_important_dates : ℕ → Db → Db
add_important_dates user db =
    if any (λ (s : ImportantDates). s.user_id == user) db.important then db else record db {
      important =
          db.important
          ++ record {
            user_id = user;
            enabled = false;
            include_birthdays = true;
            include_anniversaries = true;
            alarm_offsets_json = codes "[\"-P1D\"]";
          }
            ∷ [];
    }

-- ProvisionUserDefaults
unfoldable pub provision_user_defaults : ℕ → Text → Db → Db
unfolding add_calendar ensure_scheduling_collections add_book ensure_people_book add_important_dates
provision_user_defaults user now db = add_important_dates user (
    ensure_people_book user now (
      add_book user (codes "contacts") (codes "Contacts") (codes "Default address book") false now (
        ensure_scheduling_collections user now (
          add_calendar user (codes "personal") (codes "Personal") (codes "Default calendar")
            (codes "#E72625") personal false now db))))
