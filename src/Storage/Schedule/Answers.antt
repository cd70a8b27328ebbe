-- ===== src/Storage/Schedule/Answers.antt =====
-- The answers to invitations under InsertSchedule and ClosePendingInbox of
-- src/svc/internal/storage/dav.go.
use dcalcon.Base.{
  find_first_sound, ap, Option-cases, ℕ, true, not, ◌&&◌, Option, none, some, Text, same,
  find_first, any, ◌==◌, if◌then◌else◌, ◌≡◌, refl, arith, Bool-cases, inl, inr,
  find_first-update_where, find_first-append,
}
use dcalcon.Storage.{in_box, err, Box, Status, ScheduleItem, User, ok, Db}
use dcalcon.Storage.Calendars.{or_not_found}
use dcalcon.Storage.Schedule.{
  same_box, is_pending, is_answered, is_pending_in, or_cancelled, set_status, close_pending_inbox,
  is_item, get_schedule_item, is_for, redelivered, insert_schedule,
}

found :
    (db : Db) (user id : ℕ) (i : ScheduleItem)
    → get_schedule_item db user id ≡ ok i
    → find_first (is_item user id) db.schedule ≡ some i
unfolding get_schedule_item
found db user id i = go (find_first (is_item user id) db.schedule)
  where
    go : (r : Option ScheduleItem) → or_not_found r ≡ ok i → r ≡ some i
    go none e = cc e
    go (some j) e = cc e

-- An item that GetScheduleItem finds accepted or declined is found by it with the same status after
-- an InsertSchedule with any arguments.
pub insert_schedule-keeps_answer :
    (user box_user : ℕ) (id : ℕ) (box : Box) (method uid organizer attendee : Text)
    (status : Status) (ics : Text) (db : Db) (i : ScheduleItem)
    → get_schedule_item db user id ≡ ok i
    → is_answered i.status ≡ true
    → (j : ScheduleItem) × (get_schedule_item
          (insert_schedule box_user box method uid organizer attendee status ics db).1
          user
          id
        ≡ ok j)
      × (j.status ≡ i.status)
unfolding get_schedule_item insert_schedule
insert_schedule-keeps_answer user box_user id box method uid organizer attendee status ics db i at
      answered =
    let here = found db user id i at in
    let p = is_for box_user box method uid attendee in
    elim (Bool-cases (any p db.schedule)) [
      | inl again ↦ (
        if p i then redelivered ics organizer status i else i,
        rw again (
            rw
              (
                find_first-update_where (is_item user id) p (redelivered ics organizer status)
                    db.schedule (λ k. refl),
                here,
              )
              refl),
        ground (arith, answered),
      )
      | inr new ↦ (
        i,
        rw new (elim (Bool-cases (not (any (λ (u : User). u.id == box_user) db.users))) [
          | inl nobody ↦ rw nobody (rw here refl)
          | inr known ↦ rw known (rw (find_first-append (is_item user id) db.schedule _, here) refl)
        ]),
        refl,
      )
    ]

-- What ClosePendingInbox of a user, a UID and a status makes of an item of user `owner`.
abbrev pub closed : ℕ → ℕ → Text → Option Status → ScheduleItem → ScheduleItem
closed owner user uid status i =
    if owner == user && (same_box i.box in_box && (is_pending i.status && same i.uid uid))
    then record i { status = or_cancelled status }
    else i

closed-item :
    (owner user id : ℕ) (uid : Text) (status : Option Status) (i : ScheduleItem)
    → is_item owner id i ≡ true
    → (if is_pending_in user i && same i.uid uid then set_status (or_cancelled status) i else i)
      ≡ closed owner user uid status i
closed-item owner user id uid status i own =
    let owner_is : i.user_id ≡ owner = ground arith in rw owner_is (ground arith)

-- After ClosePendingInbox GetScheduleItem answers to each user and id what it answered before,
-- except that an item that was pending in the inbox of the user that the call names, with the UID
-- that it names, has the status of the call, or cancelled where the call has none.
pub get_schedule_item-close_pending_inbox :
    (user : ℕ) (uid : Text) (status : Option Status) (db : Db) (owner id : ℕ)
    → get_schedule_item (close_pending_inbox user uid status db) owner id
      ≡ (elim (get_schedule_item db owner id) [
        | err e ↦ err e
        | ok i ↦ ok (closed owner user uid status i)
      ])
unfolding get_schedule_item close_pending_inbox
get_schedule_item-close_pending_inbox user uid status db owner id =
    let moved =
      find_first-update_where (is_item owner id)
        (λ (i : ScheduleItem). is_pending_in user i && same i.uid uid)
        (set_status (or_cancelled status)) db.schedule (λ i. refl) in
    elim (Option-cases (find_first (is_item owner id) db.schedule)) [
      | inl e ↦ rw (moved, e) refl
      | inr (i, e) ↦
          rw (moved, e)
            (ap (λ (j : ScheduleItem). ok j)
              (closed-item owner user id uid status i
                (find_first_sound (is_item owner id) db.schedule i e)))
    ]
