-- ===== src/Storage/Objects/Invariants.antt =====
-- The invariants of tables calendar_objects and dav_changes under every sequence of writes.
use dcalcon.Base.{
  ℕ, Bool, not, ◌&&◌, ◌==◌, List, [], ◌∷◌, any, arith, Bool-cases, inl, inr, count-select-le,
}
use dcalcon.Storage.{CalendarRow, CalendarObject, Db}
use dcalcon.Storage.Calendars.{delete_calendar}
use dcalcon.Storage.Objects.{at_href, at_uid}
use dcalcon.Storage.Objects.UniqueUid.{UidUnique, UidUnique-Kept}
use dcalcon.Storage.Objects.Numbered.{IsNumbered, IsNumbered-Kept}
use dcalcon.Storage.Objects.Writes.{Write, run_writes, Kept-run_writes}

-- One object at an href of a calendar, one object with a UID that is not empty in a calendar, and
-- change ids that are positive, below the next id, and increase in the order of the table.
pub record IsWellFormed (db : Db) : Type 0 where
  pub uids : UidUnique db
  pub numbered : IsNumbered db

run_writes-IsWellFormed :
    (ws : List Write) (db : Db) → IsWellFormed db → IsWellFormed (run_writes ws db)
run_writes-IsWellFormed ws db w = record {
  uids = Kept-run_writes UidUnique-Kept ws db w.uids;
  numbered = Kept-run_writes IsNumbered-Kept ws db w.numbered;
}

-- Some writes, or a DeleteCalendar of a user's calendar.
pub data Event : Type 0 where
  written : List Write → Event
  calendar_deleted : ℕ → ℕ → Event

unfoldable pub run_event : Event → Db → Db
run_event (written ws) db = run_writes ws db
run_event (calendar_deleted user id) db = (delete_calendar user id db).1

unfoldable pub run_events : List Event → Db → Db
unfolding run_event
run_events [] db = db
run_events (e ∷ events) db = run_events events (run_event e db)

delete_calendar-IsWellFormed :
    (user id : ℕ) (db : Db) → IsWellFormed db → IsWellFormed (delete_calendar user id db).1
unfolding delete_calendar
delete_calendar-IsWellFormed user id db w =
    elim (Bool-cases (any (λ (c : CalendarRow). c.id == id && c.user_id == user) db.calendars)) [
      | inr absent ↦ rw absent w
      | inl found ↦
          let kept : CalendarObject → Bool = λ o. not (o.calendar_id == id) in
          rw found (record {
            uids = record {
              once = λ k u named.
                  omega
                    (arith, w.uids.once k u named, count-select-le (at_uid k u) kept db.objects);
              hrefs = record {
                once = λ k h.
                    omega
                      (arith, w.uids.hrefs.once k h, count-select-le (at_href k h) kept db.objects);
              };
            };
            numbered = record { ids = w.numbered.ids; from_one = w.numbered.from_one };
          })
    ]

-- Every sequence of writes of calendars and their objects, deletions of calendars and failed calls
-- included, keeps hrefs and UIDs unique in a calendar and the ids of the change log increasing.
pub run_events-IsWellFormed :
    (events : List Event) (db : Db) → IsWellFormed db → IsWellFormed (run_events events db)
unfolding run_events run_event
run_events-IsWellFormed [] db w = w
run_events-IsWellFormed (written ws ∷ events) db w =
    run_events-IsWellFormed events (run_writes ws db) (run_writes-IsWellFormed ws db w)
run_events-IsWellFormed (calendar_deleted user id ∷ events) db w =
    run_events-IsWellFormed events (delete_calendar user id db).1
      (delete_calendar-IsWellFormed user id db w)
