-- ===== src/Storage/Calendars.antt =====
-- Calendars and who may see them: the queries of src/svc/internal/storage/dav.go on table calendars
-- and the joins of shares.go that make a calendar visible to a grantee.
pub mod ShareSlugs
use dcalcon.Base.{
  ℕ, zero, suc, ◌+◌, Bool, true, false, not, ◌&&◌, ◌||◌, Option, none, some, List, [], ◌∷◌, ◌++◌,
  Text, codes, same, find_first, first_some, filter_map, select, any, map, update_where, sort_by,
  text_leb, nocase, ltb, ◌==◌, if◌then◌else◌, is_some, has_prefix, trim_prefix, trim_space, count,
}
use dcalcon.Decimal.{ℤ, pos, negsuc, format_int, parse_int}
use dcalcon.Storage.{
  Kind, personal, important_dates, inbox, outbox, shared, Access, unset, owner, read, write, Error,
  not_found, conflict, reserved_slug, constraint, Result, ok, err, User, CalendarRow, Calendar,
  Share, CalendarObject, Db,
}

-- c.Kind == "inbox" || c.Kind == "outbox"
abbrev pub is_scheduling : Kind → Bool
is_scheduling inbox = true
is_scheduling outbox = true
is_scheduling _ = false

abbrev pub is_important_dates : Kind → Bool
is_important_dates important_dates = true
is_important_dates _ = false

abbrev pub is_read : Access → Bool
is_read read = true
is_read _ = false

abbrev pub is_write : Access → Bool
is_write write = true
is_write _ = false

abbrev pub is_owned : Access → Bool
is_owned owner = true
is_owned unset = true
is_owned _ = false

-- Calendar.CanWrite
unfoldable pub can_write : Calendar → Bool
can_write c =
    if c.read_only || is_scheduling c.kind || is_important_dates c.kind
    then false
    else if c.is_shared && not (is_write c.access)
    then false
    else if is_read c.access
    then false
    else true

-- Calendar.IsOwner
unfoldable pub is_owner : Calendar → Bool
is_owner c = not c.is_shared && is_owned c.access

abbrev pub share_slug_prefix : Text
share_slug_prefix = codes "x-share-"

-- ShareSlug
unfoldable pub share_slug : ℕ → Text
share_slug id = share_slug_prefix ++ format_int id

abbrev pub at_least_one : Option ℤ → Option ℕ
at_least_one (some (pos zero)) = none
at_least_one (some (pos (suc n))) = some (suc n)
at_least_one _ = none

-- ParseShareSlug
unfoldable pub parse_share_slug : Text → Option ℕ
parse_share_slug slug =
    if has_prefix slug share_slug_prefix
    then at_least_one (parse_int (trim_prefix slug share_slug_prefix))
    else none

-- scanCalendar, with the access that its callers set.
unfoldable pub scan_calendar : CalendarRow → Calendar
scan_calendar c = record { row = c; owner_username = []; is_shared = false; access = owner }

-- scanSharedCalendar
unfoldable pub scan_shared_calendar : CalendarRow → User → Share → Calendar
scan_shared_calendar c u s = record {
  row = record c { read_only = c.read_only || is_read s.access };
  owner_username = u.username;
  is_shared = true;
  access = s.access;
}

-- A share joined with its calendar and the calendar's owner; inbox and outbox are left out.
unfoldable pub join_share : Db → Share → Option Calendar
unfolding scan_shared_calendar
join_share db s = elim (find_first (λ (c : CalendarRow). c.id == s.calendar_id) db.calendars) [
  | none ↦ none
  | some c ↦
      if is_scheduling c.kind
      then none
      else elim (find_first (λ (u : User). u.id == c.user_id) db.users) [
        | none ↦ none
        | some u ↦ some (scan_shared_calendar c u s)
      ]
]

abbrev pub or_not_found {ℓ} : {A : Type ℓ} → Option A → Result A
or_not_found none = err not_found
or_not_found (some a) = ok a

-- sharedCalendar
unfoldable pub shared_calendar : Db → ℕ → ℕ → Result Calendar
unfolding join_share
shared_calendar db grantee calendar_id = or_not_found (
    first_some
      (λ (s : Share).
        if s.grantee_id == grantee && s.calendar_id == calendar_id then join_share db s else none)
      db.shares)

-- ORDER BY u.username, c.name, where usernames are NOCASE.
unfoldable pub shared_before : Calendar → Calendar → Bool
shared_before a b =
    let x = nocase a.owner_username in
    let y = nocase b.owner_username in if same x y then text_leb a.name b.name else text_leb x y

-- listSharedCalendars
unfoldable pub list_shared_calendars : Db → ℕ → List Calendar
unfolding join_share shared_before
list_shared_calendars db grantee =
    sort_by shared_before
      (filter_map (join_share db) (select (λ (s : Share). s.grantee_id == grantee) db.shares))

abbrev pub rank : Kind → ℕ
rank personal = 0
rank important_dates = 1
rank _ = 2

-- ORDER BY CASE kind …, name
unfoldable pub own_before : Calendar → Calendar → Bool
own_before a b =
    if ltb (rank a.kind) (rank b.kind)
    then true
    else if ltb (rank b.kind) (rank a.kind)
    then false
    else text_leb a.name b.name

-- ListCalendars
unfoldable pub list_calendars : Db → ℕ → List Calendar
unfolding own_before scan_calendar list_shared_calendars
list_calendars db user =
    sort_by own_before
      (map scan_calendar (select (λ (c : CalendarRow). c.user_id == user) db.calendars))
    ++ list_shared_calendars db user

abbrev pub owns_slug : ℕ → Text → CalendarRow → Bool
owns_slug user slug c = c.user_id == user && same c.slug slug

abbrev pub with_slug : Text → Result Calendar → Result Calendar
with_slug slug (err e) = err e
with_slug slug (ok c) = ok (record c { row = record (c.row) { slug = slug } })

-- CalendarBySlug: a slug x-share-N names a calendar that is shared with the user.
unfoldable pub calendar_by_slug : Db → ℕ → Text → Result Calendar
unfolding scan_calendar
calendar_by_slug db user slug = elim (parse_share_slug slug) [
  | some id ↦ with_slug slug (shared_calendar db user id)
  | none ↦ elim (find_first (owns_slug user slug) db.calendars) [
    | none ↦ err not_found
    | some c ↦ ok (scan_calendar c)
  ]
]

-- CalendarByID
unfoldable pub calendar_by_id : Db → ℕ → ℕ → Result Calendar
unfolding scan_calendar
calendar_by_id db user id =
    elim (find_first (λ (c : CalendarRow). c.user_id == user && c.id == id) db.calendars) [
      | none ↦ shared_calendar db user id
      | some c ↦ ok (scan_calendar c)
    ]

-- calendarByIDOnly
unfoldable pub calendar_by_id_only : Db → ℕ → Result Calendar
unfolding scan_calendar
calendar_by_id_only db id = elim (find_first (λ (c : CalendarRow). c.id == id) db.calendars) [
  | none ↦ err not_found
  | some c ↦ ok (scan_calendar c)
]

abbrev pub default_kind : Option Kind → Kind
default_kind none = personal
default_kind (some k) = k

-- CreateCalendar; a kind of "" is `none`. A slug that the user has already is a conflict, and a user
-- that does not exist breaks the foreign key.
unfoldable pub create_calendar :
    ℕ → Text → Text → Text → Text → Option Kind → Bool → Text → Db → Result Calendar × Db
create_calendar user slug name description color kind read_only now db =
    if is_some (parse_share_slug slug)
    then (err reserved_slug, db)
    else if any (owns_slug user slug) db.calendars
    then (err conflict, db)
    else if not (any (λ (u : User). u.id == user) db.users)
    then (err constraint, db)
    else (let made : Db = record db {
      calendars =
          db.calendars
          ++ record {
            id = db.next_calendar;
            user_id = user;
            slug = slug;
            name = name;
            description = description;
            color = if same color [] then codes "#E72625" else color;
            timezone = codes "UTC";
            kind = default_kind kind;
            read_only = read_only;
            ctag = 1;
            sync_token = codes "1";
            updated_at = now;
          }
            ∷ [];
      next_calendar = db.next_calendar + 1;
    } in
        (calendar_by_slug made user slug, made))

-- The outcome of a further attempt after ErrNotFound, and of none after another error.
abbrev pub if_missing : Error → Db → Result Calendar × Db → Result Calendar × Db
if_missing not_found db attempt = attempt
if_missing e db attempt = (err e, db)

-- EnsureCalendar
unfoldable pub ensure_calendar : ℕ → Text → Text → Kind → Bool → Text → Db → Result Calendar × Db
ensure_calendar user slug name kind read_only now db = elim (calendar_by_slug db user slug) [
  | ok c ↦ (ok c, db)
  | err e ↦
      if_missing e db
        (create_calendar user slug name [] (codes "#B45309") (some kind) read_only now db)
]

-- bumpCalendar
unfoldable pub bump_calendar : ℕ → Text → Db → Db
bump_calendar id now db = record db {
  calendars =
      update_where (λ (c : CalendarRow). c.id == id)
        (λ (c : CalendarRow). record c {
          ctag = c.ctag + 1;
          sync_token = format_int (c.ctag + 1);
          updated_at = now;
        })
        db.calendars;
}

-- writeCalendarMeta
unfoldable pub write_calendar_meta : ℕ → Text → Text → Text → Text → Db → Db
write_calendar_meta id name description color now db = record db {
  calendars =
      update_where (λ (c : CalendarRow). c.id == id)
        (λ (c : CalendarRow). record c {
          name = name;
          description = description;
          color = color;
          updated_at = now;
        })
        db.calendars;
}

abbrev pub given : Text → Text → Text
given new old = let t = trim_space new in if same t [] then old else t

abbrev pub given_ptr : Option Text → Text → Text
given_ptr none old = old
given_ptr (some new) old = given new old

abbrev pub or_old : Option Text → Text → Text
or_old none old = old
or_old (some new) old = new

-- PatchCalendar; a nil pointer is `none`.
unfoldable pub patch_calendar :
    ℕ → Text → Option Text → Option Text → Option Text → Text → Db → Result (Unit {0}) × Db
unfolding write_calendar_meta
patch_calendar user slug name description color now db = elim (calendar_by_slug db user slug) [
  | err e ↦ (err e, db)
  | ok c ↦ (
    ok tt,
    write_calendar_meta c.id (given_ptr name c.name) (or_old description c.description)
        (given_ptr color c.color) now db,
  )
]

-- PatchCalendarMeta
unfoldable pub patch_calendar_meta : ℕ → Text → Text → Text → Text → Db → Result (Unit {0}) × Db
unfolding write_calendar_meta
patch_calendar_meta id name description color now db = elim (calendar_by_id_only db id) [
  | err e ↦ (err e, db)
  | ok c ↦
      (ok tt, write_calendar_meta c.id (given name c.name) description (given color c.color) now db)
]

abbrev pub is_personal : Kind → Bool
is_personal personal = true
is_personal _ = false

-- CountPersonalCalendars
unfoldable pub count_personal_calendars : Db → ℕ → ℕ
count_personal_calendars db user =
    count (λ (c : CalendarRow). c.user_id == user && is_personal c.kind) db.calendars

-- DeleteCalendar; ON DELETE CASCADE takes the objects and the shares with it.
unfoldable pub delete_calendar : ℕ → ℕ → Db → Result (Unit {0}) × Db
delete_calendar user id db =
    if any (λ (c : CalendarRow). c.id == id && c.user_id == user) db.calendars
    then (
      ok tt,
      record db {
        calendars =
            select (λ (c : CalendarRow). not (c.id == id && c.user_id == user)) db.calendars;
        objects = select (λ (o : CalendarObject). not (o.calendar_id == id)) db.objects;
        shares = select (λ (s : Share). not (s.calendar_id == id)) db.shares;
      },
    )
    else (err not_found, db)
