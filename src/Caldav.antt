-- ===== src/Caldav.antt =====
-- The rights and conditions of a CalDAV write: calendarWriteError and componentAllowed of
-- src/svc/internal/caldav/backend.go, and Check of src/svc/internal/davcond/davcond.go.
pub mod Rights
pub mod Conditions
pub mod Advertised
use dcalcon.Base.{
  ℕ, Bool, true, false, not, ◌&&◌, ◌||◌, Option, none, some, [], Text, codes, same, to_upper,
  trim_space, if◌then◌else◌,
}
use dcalcon.Storage.{
  Kind, personal, important_dates, inbox, outbox, shared, Calendar, CalendarObject, Db, ok, err,
}
use dcalcon.Storage.Calendars.{is_scheduling}
use dcalcon.Storage.Objects.{calendar_object_by_href}

-- The 403 errors of calendarWriteError.
pub data WriteError : Type 0 where
  calendar_read_only inbox_not_writable : WriteError

abbrev pub read_only_error : Bool → Option WriteError
read_only_error true = some calendar_read_only
read_only_error false = none

-- calendarWriteError; no error is `none`.
unfoldable pub calendar_write_error : Calendar → Bool → Option WriteError
calendar_write_error c is_delete = elim c.kind [
  | important_dates ↦ some calendar_read_only
  | inbox ↦ if is_delete then none else some inbox_not_writable
  | outbox ↦ none
  | _ ↦ read_only_error c.read_only
]

-- componentAllowed
unfoldable pub component_allowed : (ℕ → ℕ) → Kind → Text → Bool
component_allowed table kind comp =
    let c = to_upper table (trim_space comp) in
    if is_scheduling kind
    then same c (codes "VEVENT") || (same c (codes "VTODO") || same c (codes "VFREEBUSY"))
    else same c (codes "VEVENT") || same c (codes "VTODO")

-- ConditionalMatch of github.com/emersion/go-webdav; match_etag gives `none` for an error.
module _ {M : Type 0} (is_set is_wildcard : M → Bool) (match_etag : M → Text → Option Bool) where
  abbrev pub matches : M → Text → Bool
  matches m etag = elim (match_etag m etag) [ none ↦ false | some b ↦ b ]

  -- Check; `false` is 412 Precondition Failed.
  unfoldable pub check : Text → Bool → M → M → Bool
  check existing_etag exists if_match if_none_match =
      if is_set if_none_match
        && ((is_wildcard if_none_match && exists)
            || (exists && (not (same existing_etag []) && matches if_none_match existing_etag)))
      then false
      else if is_set if_match
      then (if not exists
          then false
          else if is_wildcard if_match
          then true
          else matches if_match existing_etag)
      else true

  -- Check of an object that PutCalendarObject replaces, if there is one.
  unfoldable pub check_existing : Option CalendarObject → M → M → Bool
  unfolding check
  check_existing none if_match if_none_match = check [] false if_match if_none_match
  check_existing (some existing) if_match if_none_match =
      check existing.etag true if_match if_none_match

-- The object that PutCalendarObject is to replace; no row is `none`.
unfoldable pub existing_object : Db → ℕ → Text → Option CalendarObject
existing_object db calendar_id href = elim (calendar_object_by_href db calendar_id href) [
  | err e ↦ none
  | ok o ↦ some o
]
