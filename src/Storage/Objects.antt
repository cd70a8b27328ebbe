-- ===== src/Storage/Objects.antt =====
-- Calendar objects: the statements of src/svc/internal/storage/dav.go on table calendar_objects.
-- Each write of an object adds a row to the change log and bumps the calendar's ctag.
pub mod Sql
pub mod Tracking
pub mod Keeps
pub mod InStep
pub mod Writes
pub mod Unique
pub mod Numbered
pub mod UniqueUid
pub mod Ctag
pub mod Effects
pub mod Moved
pub mod Invariants
use dcalcon.Base.{
  ℕ, ◌+◌, Bool, true, false, not, ◌&&◌, ◌||◌, Option, none, some, List, [], ◌∷◌, ◌++◌, map, Text,
  same, find_first, first_some, any, select, update_where, sort_by, text_leb, to_upper, trim_space,
  ltb, leb, ◌==◌, if◌then◌else◌,
}
use dcalcon.Storage.{
  Kind, calendar, Error, not_found, constraint, Result, ok, err, CalendarRow, Calendar, ObjectData,
  CalendarObject, Db,
}
use dcalcon.Storage.Changes.{record_change}
use dcalcon.Storage.Calendars.{is_scheduling, or_not_found, bump_calendar, calendar_by_id}
use Sql.{like_prefix}

abbrev pub at_href : ℕ → Text → CalendarObject → Bool
at_href calendar_id href o = o.calendar_id == calendar_id && same o.href href

abbrev pub at_uid : ℕ → Text → CalendarObject → Bool
at_uid calendar_id uid o = o.calendar_id == calendar_id && same o.uid uid

abbrev pub in_calendar : ℕ → CalendarObject → Bool
in_calendar calendar_id o = o.calendar_id == calendar_id

-- CalendarObjectByHref
unfoldable pub calendar_object_by_href : Db → ℕ → Text → Result CalendarObject
calendar_object_by_href db calendar_id href =
    or_not_found (find_first (at_href calendar_id href) db.objects)

-- CalendarObjectByUID
unfoldable pub calendar_object_by_uid : Db → ℕ → Text → Result CalendarObject
calendar_object_by_uid db calendar_id uid =
    or_not_found (find_first (at_uid calendar_id uid) db.objects)

-- ORDER BY dtstart, id
unfoldable pub starts_before : CalendarObject → CalendarObject → Bool
starts_before a b = if same a.dtstart b.dtstart then leb a.id b.id else text_leb a.dtstart b.dtstart

-- listCalendarObjects: an empty component asks for all of them.
unfoldable pub list_calendar_objects : (ℕ → ℕ) → Db → ℕ → Text → List CalendarObject
unfolding starts_before
list_calendar_objects table db calendar_id component =
    let wanted = to_upper table (trim_space component) in
    sort_by starts_before (
      select
        (λ (o : CalendarObject).
          in_calendar calendar_id o && (same component [] || same o.component wanted))
        db.objects)

-- ObjectRef
pub record ObjectRef : Type 0 where
  pub href : Text
  pub etag : Text

-- ListCalendarObjectRefs; an empty prefix asks for all of them.
unfoldable pub list_calendar_object_refs : Db → ℕ → Text → List ObjectRef
list_calendar_object_refs db calendar_id prefix =
    map (λ (o : CalendarObject). record { href = o.href; etag = o.etag })
      (select
        (λ (o : CalendarObject).
          in_calendar calendar_id o && (same prefix [] || like_prefix prefix o.href))
        db.objects)

-- DELETE FROM calendar_objects WHERE calendar_id = ? AND href = ?
unfoldable pub remove_object : ℕ → Text → Db → Db
remove_object calendar_id href db = record db {
  objects = select (λ (o : CalendarObject). not (at_href calendar_id href o)) db.objects;
}

-- DeleteCalendarObject
unfoldable pub delete_calendar_object : ℕ → Text → Text → Db → Result (Unit {0}) × Db
delete_calendar_object calendar_id href now db =
    if any (at_href calendar_id href) db.objects
    then (
      ok tt,
      bump_calendar calendar_id now
          (record_change calendar calendar_id href true (remove_object calendar_id href db)),
    )
    else (err not_found, db)

-- INSERT … ON CONFLICT(calendar_id, href) DO UPDATE
unfoldable pub write_object : ℕ → ObjectData → Text → Db → Db
write_object calendar_id o now db =
    if any (at_href calendar_id o.href) db.objects
    then record db {
      objects =
          update_where (at_href calendar_id o.href)
            (λ (old : CalendarObject). record old { fields = o; updated_at = now }) db.objects;
    }
    else record db {
      objects =
          db.objects
          ++ record { id = db.next_object; calendar_id = calendar_id; fields = o; updated_at = now }
            ∷ [];
      next_object = db.next_object + 1;
    }

-- An object that has the UID under another href is deleted first.
unfoldable pub drop_moved : ℕ → ObjectData → Text → Db → Db
drop_moved calendar_id o now db =
    if same o.uid [] then db else elim (find_first (at_uid calendar_id o.uid) db.objects) [
      | none ↦ db
      | some other ↦
          if same other.href o.href
          then db
          else (delete_calendar_object calendar_id other.href now db).1
    ]

-- UpsertCalendarObject; a calendar that does not exist breaks the foreign key.
unfoldable pub upsert_calendar_object : ℕ → ObjectData → Text → Db → Result (Unit {0}) × Db
upsert_calendar_object calendar_id o now db =
    let moved = drop_moved calendar_id o now db in
    if any (λ (c : CalendarRow). c.id == calendar_id) moved.calendars
    then (
      ok tt,
      bump_calendar calendar_id now
          (record_change calendar calendar_id o.href false (write_object calendar_id o now moved)),
    )
    else (err constraint, moved)

-- The loop over the deleted hrefs.
unfoldable pub record_deleted : ℕ → List Text → Db → Db
record_deleted calendar_id [] db = db
record_deleted calendar_id (h ∷ hrefs) db =
    record_deleted calendar_id hrefs (record_change calendar calendar_id h true db)

abbrev pub under_prefix : ℕ → Text → CalendarObject → Bool
under_prefix calendar_id prefix o = in_calendar calendar_id o && like_prefix prefix o.href

abbrev pub href_of : CalendarObject → Text
href_of o = o.href

-- DELETE FROM calendar_objects WHERE calendar_id = ? AND href LIKE ?
unfoldable pub remove_prefix : ℕ → Text → Db → Db
remove_prefix calendar_id prefix db = record db {
  objects = select (λ (o : CalendarObject). not (under_prefix calendar_id prefix o)) db.objects;
}

-- DeleteCalendarObjectsByPrefix
unfoldable pub delete_calendar_objects_by_prefix : ℕ → Text → Text → Db → Db
delete_calendar_objects_by_prefix calendar_id prefix now db =
    if any (under_prefix calendar_id prefix) db.objects
    then bump_calendar calendar_id now (
        record_deleted calendar_id
          (map href_of (select (under_prefix calendar_id prefix) db.objects))
          (remove_prefix calendar_id prefix db))
    else db

-- The loop of DeleteObjectsByUID, which ignores ErrNotFound.
unfoldable pub delete_each : ℕ → List Text → Text → Db → Db
delete_each calendar_id [] now db = db
delete_each calendar_id (h ∷ hrefs) now db =
    delete_each calendar_id hrefs now (delete_calendar_object calendar_id h now db).1

-- DeleteObjectsByUID
unfoldable pub delete_objects_by_uid : ℕ → Text → Text → Db → Db
delete_objects_by_uid calendar_id uid now db =
    delete_each calendar_id (map href_of (select (at_uid calendar_id uid) db.objects)) now db

-- The calendar of a user's own object with a UID, outside inbox and outbox: a row of the join.
unfoldable pub owned_calendar_of : Db → ℕ → Text → CalendarObject → Option ℕ
owned_calendar_of db user uid o =
    if same o.uid uid
      && any
          (λ (c : CalendarRow).
            c.id == o.calendar_id && c.user_id == user && not (is_scheduling c.kind))
          db.calendars
    then some o.calendar_id
    else none

-- FindOwnedObjectByUID
unfoldable pub find_owned_object_by_uid : Db → ℕ → Text → Result (Calendar × CalendarObject)
unfolding owned_calendar_of
find_owned_object_by_uid db user uid =
    elim (first_some (owned_calendar_of db user uid) db.objects) [
      | none ↦ err not_found
      | some id ↦ elim (calendar_by_id db user id) [
        | err e ↦ err e
        | ok c ↦ elim (calendar_object_by_uid db id uid) [ err e ↦ err e | ok o ↦ ok (c, o) ]
      ]
    ]
