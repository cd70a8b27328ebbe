-- ===== src/Storage/Schedule.antt =====
-- The schedule inbox and outbox: the statements of src/svc/internal/storage/dav.go on table
-- schedule_items. The columns created_at and updated_at are left out: no query of them reads one
-- but to copy it out.
pub mod Answers
use dcalcon.Base.{
  ℕ, ◌+◌, Bool, true, false, not, ◌&&◌, ◌||◌, Option, none, some, List, [], ◌∷◌, ◌++◌, Text, same,
  find_first, any, select, count, take, update_where, sort_by, leb, ◌==◌, if◌then◌else◌,
}
use dcalcon.Storage.{
  Box, in_box, out_box, Status, pending, accepted, declined, cancelled, ScheduleItem, User, Error,
  not_found, constraint, Result, ok, err, Db,
}
use dcalcon.Storage.Calendars.{or_not_found}

abbrev pub same_box : Box → Box → Bool
same_box in_box in_box = true
same_box out_box out_box = true
same_box _ _ = false

abbrev pub is_pending : Status → Bool
is_pending pending = true
is_pending _ = false

-- status IN ('accepted', 'declined')
abbrev pub is_answered : Status → Bool
is_answered accepted = true
is_answered declined = true
is_answered _ = false

abbrev pub is_pending_in : ℕ → ScheduleItem → Bool
is_pending_in user i = i.user_id == user && (same_box i.box in_box && is_pending i.status)

-- CountPendingInbox
unfoldable pub count_pending_inbox : Db → ℕ → ℕ
count_pending_inbox db user = count (is_pending_in user) db.schedule

abbrev pub or_cancelled : Option Status → Status
or_cancelled none = cancelled
or_cancelled (some s) = s

abbrev pub set_status : Status → ScheduleItem → ScheduleItem
set_status s i = record i { status = s }

-- ClosePendingInbox; a status of "" is `none`.
unfoldable pub close_pending_inbox : ℕ → Text → Option Status → Db → Db
close_pending_inbox user uid status db = record db {
  schedule =
      update_where (λ (i : ScheduleItem). is_pending_in user i && same i.uid uid)
        (set_status (or_cancelled status)) db.schedule;
}

-- ORDER BY id DESC
abbrev pub newer_first : ScheduleItem → ScheduleItem → Bool
newer_first a b = leb b.id a.id

-- ListPendingInbox; a limit that is not positive is 0.
unfoldable pub list_pending_inbox : Db → ℕ → ℕ → List ScheduleItem
list_pending_inbox db user limit =
    let items = sort_by newer_first (select (is_pending_in user) db.schedule) in
    if leb limit 0 then items else take limit items

-- ListInbox
unfoldable pub list_inbox : Db → ℕ → List ScheduleItem
list_inbox db user =
    sort_by newer_first
      (select (λ (i : ScheduleItem). i.user_id == user && same_box i.box in_box) db.schedule)

abbrev pub is_item : ℕ → ℕ → ScheduleItem → Bool
is_item user id i = i.user_id == user && i.id == id

-- GetScheduleItem
unfoldable pub get_schedule_item : Db → ℕ → ℕ → Result ScheduleItem
get_schedule_item db user id = or_not_found (find_first (is_item user id) db.schedule)

abbrev pub is_for : ℕ → Box → Text → Text → Text → ScheduleItem → Bool
is_for user box method uid attendee i =
    i.user_id == user
    && (same_box i.box box
        && (same i.method method && (same i.uid uid && same i.attendee attendee)))

abbrev pub redelivered : Text → Text → Status → ScheduleItem → ScheduleItem
redelivered ics organizer status i = record i {
  ics = ics;
  status = if is_answered i.status then i.status else status;
  organizer = organizer;
}

-- InsertSchedule; a user that does not exist breaks the foreign key.
unfoldable pub insert_schedule :
    ℕ → Box → Text → Text → Text → Text → Status → Text → Db → Result (Unit {0}) × Db
insert_schedule user box method uid organizer attendee status ics db =
    if any (is_for user box method uid attendee) db.schedule
    then (
      ok tt,
      record db {
        schedule =
            update_where (is_for user box method uid attendee) (redelivered ics organizer status)
              db.schedule;
      },
    )
    else if not (any (λ (u : User). u.id == user) db.users)
    then (err constraint, db)
    else (
      ok tt,
      record db {
        schedule =
            db.schedule
            ++ record {
              id = db.next_item;
              user_id = user;
              box = box;
              method = method;
              uid = uid;
              organizer = organizer;
              attendee = attendee;
              status = status;
              ics = ics;
            }
              ∷ [];
        next_item = db.next_item + 1;
      },
    )

abbrev pub first_item : List ScheduleItem → Result ScheduleItem
first_item [] = err not_found
first_item (i ∷ items) = ok i

-- ScheduleByUID
unfoldable pub schedule_by_uid : Db → ℕ → Box → Text → Text → Text → Result ScheduleItem
schedule_by_uid db user box method uid attendee =
    first_item (sort_by newer_first (select (is_for user box method uid attendee) db.schedule))

-- SetScheduleStatus
unfoldable pub set_schedule_status : ℕ → ℕ → Status → Db → Db
set_schedule_status user id status db = record db {
  schedule = update_where (is_item user id) (set_status status) db.schedule;
}
