-- ===== src/Caldav/Rights.antt =====
-- The two rules for who may write a calendar: Calendar.CanWrite of
-- src/svc/internal/storage/dav.go and calendarWriteError of src/svc/internal/caldav/backend.go.
use dcalcon.Base.{
  ℕ, Bool, true, false, not, ◌&&◌, ◌||◌, Option, none, some, Option-cases, List, [], ◌∷◌, Text,
  find_first, first_some, all, is_some, ◌==◌, if◌then◌else◌, ◌≡◌, refl, subst, arith, Bool-cases,
  inl, inr,
}
use dcalcon.Storage.{User, Share, CalendarRow, Calendar, Result, ok, err, Db}
use dcalcon.Storage.Calendars.{
  is_scheduling, is_read, is_write, can_write, parse_share_slug, scan_calendar,
  scan_shared_calendar, join_share, or_not_found, shared_calendar, with_slug, owns_slug,
  calendar_by_slug,
}
use dcalcon.Caldav.{calendar_write_error}

-- CHECK (access IN ('read', 'write')) of table calendar_shares.
abbrev pub has_real_access : Share → Bool
has_real_access s = is_read s.access || is_write s.access

-- What the queries give: the owner's own calendar, or a shared one that is read-only if the access
-- is to read.
abbrev loaded : Calendar → Bool
loaded c =
    if c.is_shared
    then is_write c.access || (is_read c.access && c.read_only)
    else not (is_read c.access)

agree :
    (c : Calendar)
    → loaded c ≡ true
    → is_scheduling c.kind ≡ false
    → not (is_some (calendar_write_error c false)) ≡ can_write c
unfolding can_write calendar_write_error
agree c l k = ground arith

loaded-shared :
    (c : CalendarRow) (u : User) (s : Share)
    → has_real_access s ≡ true
    → loaded (scan_shared_calendar c u s) ≡ true
unfolding scan_shared_calendar
loaded-shared c u s real = ground arith

abbrev loaded_of : Option Calendar → Bool
loaded_of none = true
loaded_of (some c) = loaded c

abbrev loaded_result : Result Calendar → Bool
loaded_result (err e) = true
loaded_result (ok c) = loaded c

loaded-join_share :
    (db : Db) (s : Share) → has_real_access s ≡ true → loaded_of (join_share db s) ≡ true
unfolding join_share
loaded-join_share db s real =
    elim (Option-cases (find_first (λ (c : CalendarRow). c.id == s.calendar_id) db.calendars)) [
      | inl missing ↦ rw (missing, join_share) refl
      | inr (row, found) ↦ elim (Bool-cases (is_scheduling row.kind)) [
        | inl box ↦ rw (found, join_share) (rw box refl)
        | inr visible ↦
            elim (Option-cases (find_first (λ (u : User). u.id == row.user_id) db.users)) [
              | inl nobody ↦ rw (found, visible, nobody, join_share) refl
              | inr (u, owned) ↦ rw (found, visible, owned, join_share) (loaded-shared row u s real)
            ]
      ]
    ]

loaded-if :
    (b : Bool) (r : Option Calendar) → loaded_of r ≡ true → loaded_of (if b then r else none) ≡ true
loaded-if true r h = h
loaded-if false r h = refl

loaded-first_some :
    (db : Db) (grantee id : ℕ) (shares : List Share)
    → all has_real_access shares ≡ true
    → loaded_of (
        first_some
          (λ (s : Share).
            if s.grantee_id == grantee && s.calendar_id == id then join_share db s else none)
          shares)
      ≡ true
unfolding all first_some
loaded-first_some db grantee id [] real = unfold first_some in refl
loaded-first_some db grantee id (s ∷ shares) real =
    elim (Option-cases
      (if s.grantee_id == grantee && s.calendar_id == id then join_share db s else none)) [
        | inl other ↦
            rw (other, first_some) (loaded-first_some db grantee id shares (ground (arith, real)))
        | inr (c, here) ↦
            rw (here, first_some)
              (subst (λ r. loaded_of r ≡ true) here
                (loaded-if _ (join_share db s) (loaded-join_share db s (ground (arith, real)))))
      ]

loaded-shared_calendar :
    (db : Db) (grantee id : ℕ) (slug : Text)
    → all has_real_access db.shares ≡ true
    → loaded_result (with_slug slug (shared_calendar db grantee id)) ≡ true
unfolding shared_calendar
loaded-shared_calendar db grantee id slug real =
    go
      (first_some
        (λ (s : Share).
          if s.grantee_id == grantee && s.calendar_id == id then join_share db s else none)
        db.shares)
      (loaded-first_some db grantee id db.shares real)
  where
    go :
        (r : Option Calendar)
        → loaded_of r ≡ true
        → loaded_result (with_slug slug (or_not_found r)) ≡ true
    go none h = refl
    go (some c) h = h

loaded-calendar_by_slug :
    (db : Db) (user : ℕ) (slug : Text)
    → all has_real_access db.shares ≡ true
    → loaded_result (calendar_by_slug db user slug) ≡ true
unfolding calendar_by_slug
loaded-calendar_by_slug db user slug real = elim (Option-cases (parse_share_slug slug)) [
  | inl own ↦ elim (Option-cases (find_first (owns_slug user slug) db.calendars)) [
    | inl missing ↦ rw (own, missing, calendar_by_slug) refl
    | inr (c, found) ↦ rw (own, found, calendar_by_slug) (unfold scan_calendar in refl)
  ]
  | inr (id, reserved) ↦
      rw (reserved, calendar_by_slug) (loaded-shared_calendar db user id slug real)
]

-- For a calendar that CalendarBySlug finds for a user and that is not an inbox or an outbox,
-- calendarWriteError has no error for a write that is no deletion exactly when CanWrite says so,
-- where every share is to read or to write.
pub calendar_write_error-can_write :
    (db : Db) (user : ℕ) (slug : Text) (c : Calendar)
    → all has_real_access db.shares ≡ true
    → calendar_by_slug db user slug ≡ ok c
    → is_scheduling c.kind ≡ false
    → not (is_some (calendar_write_error c false)) ≡ can_write c
calendar_write_error-can_write db user slug c real found kind =
    agree c (subst (λ r. loaded_result r ≡ true) found (loaded-calendar_by_slug db user slug real))
      kind
