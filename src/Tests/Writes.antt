-- ===== src/Tests/Writes.antt =====
-- Runs of writes of calendar objects, with and without conditions.
use dcalcon.Base.{
  Bool, true, false, not, some, none, [], ◌∷◌, Text, codes, same, any, count, find_first,
  update_where, ◌≡◌, refl, arith,
}
use dcalcon.Storage.{ObjectData, Db, ok}
use dcalcon.Storage.Objects.{
  drop_moved, write_object, upsert_calendar_object, delete_calendar_object,
}
use dcalcon.Storage.Objects.Tracking.{etag_at}
use dcalcon.Storage.Objects.UniqueUid.{UidUnique}
use dcalcon.Storage.Objects.Moved.{etag_at-upsert_calendar_object}
use dcalcon.Storage.Objects.Unique.{HrefUnique}
use dcalcon.Caldav.{check_existing, existing_object}
use dcalcon.Caldav.Conditions.{check_existing-written}
use dcalcon.Tests.Data.{db, event}

-- The event is stored under another href.
abbrev held : Db
held = record db {
  objects =
      record {
        id = 1;
        calendar_id = 1;
        fields = record event { href = codes "old.ics" };
        updated_at = [];
      }
      ∷ [];
}

held-HrefUnique : HrefUnique held
unfolding count
held-HrefUnique = record { once = λ id h. ground arith }

held-UidUnique : UidUnique held
unfolding count
held-UidUnique = record { once = λ id u e. ground arith; hrefs = held-HrefUnique }

stored : (upsert_calendar_object 1 event [] held).0 ≡ ok tt
unfolding upsert_calendar_object drop_moved delete_calendar_object any find_first same
    dcalcon.Storage.Calendars.bump_calendar update_where dcalcon.Storage.Changes.record_change
    dcalcon.Storage.Objects.remove_object
stored = refl

etag_at-upsert_example :
    etag_at (upsert_calendar_object 1 event [] held).1 1 (codes "old.ics") ≡ none
unfolding same find_first
etag_at-upsert_example =
    etag_at-upsert_calendar_object 1 event [] held 1 (codes "old.ics") held-UidUnique stored

-- A header is its text, and an empty one is not set.
abbrev is_set : Text → Bool
is_set header = not (same header [])

abbrev is_star : Text → Bool
is_star header = same header (codes "*")

check_existing-written_example :
    (check_existing is_set is_star
        (λ header etag. some (same header etag))
        (existing_object (upsert_calendar_object 1 event [] held).1 1 (codes "e.ics"))
        (codes "t1")
        []
      ≡ true)
    × (check_existing is_set is_star
          (λ header etag. some (same header etag))
          (existing_object (upsert_calendar_object 1 event [] held).1 1 (codes "e.ics"))
          []
          (codes "*")
        ≡ false)
    × (check_existing is_set is_star
          (λ header etag. some (same header etag))
          (existing_object
            (delete_calendar_object 1 (codes "old.ics") [] held).1
            1
            (codes "old.ics"))
          (codes "t1")
          []
        ≡ false)
    × (check_existing is_set is_star
          (λ header etag. some (same header etag))
          (existing_object
            (delete_calendar_object 1 (codes "old.ics") [] held).1
            1
            (codes "old.ics"))
          []
          (codes "*")
        ≡ true)
unfolding same
check_existing-written_example =
    check_existing-written is_set is_star (λ header etag. some (same header etag)) 1 event
      (codes "old.ics") [] held (codes "t1") (codes "*") [] stored refl refl refl refl refl
