-- ===== src/Tests/Data.antt =====
-- A small database: two users, and two calendars of the first user, one of them shared.
use dcalcon.Base.{true, false, List, [], ◌∷◌, codes, arith, count, refl}
use dcalcon.Storage.{
  personal, read, role_admin, role_user, User, CalendarRow, ObjectData, Db, in_box, pending,
  ScheduleItem,
}
use dcalcon.Storage.Objects.Unique.{HrefUnique}
use dcalcon.Storage.Objects.Numbered.{increasing, IsNumbered}
use dcalcon.Storage.Objects.Invariants.{IsWellFormed}
use dcalcon.Storage.Objects.Writes.{Write, upsert, delete}

abbrev pub alice : User
alice = record {
  id = 1;
  username = codes "alice";
  email = codes "a@x.org";
  display_name = codes "Alice";
  role = role_admin;
  is_active = true;
  timezone = codes "UTC";
  password_hash = codes "hash of pw1";
  totp_secret = [];
  totp_pending = [];
  totp_enabled = false;
}

abbrev pub bob : User
bob = record {
  id = 2;
  username = codes "bob";
  email = codes "b@x.org";
  display_name = codes "Bob";
  role = role_user;
  is_active = true;
  timezone = codes "UTC";
  password_hash = codes "hash of pw2";
  totp_secret = [];
  totp_pending = [];
  totp_enabled = false;
}

abbrev pub home : CalendarRow
home = record {
  id = 1;
  user_id = 1;
  slug = codes "home";
  name = codes "Home";
  description = [];
  color = codes "#E72625";
  timezone = codes "UTC";
  kind = personal;
  read_only = false;
  ctag = 1;
  sync_token = codes "1";
  updated_at = [];
}

abbrev pub invitation : ScheduleItem
invitation = record {
  id = 1;
  user_id = 1;
  box = in_box;
  method = codes "REQUEST";
  uid = codes "m1";
  organizer = codes "b@x.org";
  attendee = codes "a@x.org";
  status = pending;
  ics = codes "v1";
}

abbrev pub db : Db
db = record {
  users = alice ∷ bob ∷ [];
  calendars = home ∷ [];
  objects = [];
  shares = record { id = 1; calendar_id = 1; grantee_id = 2; access = read } ∷ [];
  changes = [];
  books = [];
  contacts = [];
  schedule = invitation ∷ [];
  sessions = [];
  app_passwords = [];
  resets = [];
  oauth_states = [];
  important = [];
  recovery_outbox = [];
  audit_log = [];
  next_calendar = 2;
  next_object = 1;
  next_share = 2;
  next_change = 1;
  next_contact = 1;
  next_item = 2;
  next_user = 3;
  next_book = 1;
  next_app_password = 1;
  next_reset = 1;
  next_message = 1;
  next_entry = 1;
}

abbrev pub event : ObjectData
event = record {
  href = codes "e.ics";
  uid = codes "e";
  etag = codes "t1";
  component = codes "VEVENT";
  ics = [];
  dtstart = [];
  dtend = [];
  summary = [];
}

abbrev pub writes : List Write
writes = upsert 1 event [] ∷ delete 1 (codes "e.ics") [] ∷ []

pub db-HrefUnique : HrefUnique db
unfolding count
db-HrefUnique = record { once = λ id h. omega arith }

pub db-IsNumbered : IsNumbered db
unfolding increasing
db-IsNumbered = record { ids = refl; from_one = omega arith }

pub db-IsWellFormed : IsWellFormed db
unfolding count
db-IsWellFormed = record {
  uids = record { once = λ id u e. omega arith; hrefs = db-HrefUnique };
  numbered = db-IsNumbered;
}
