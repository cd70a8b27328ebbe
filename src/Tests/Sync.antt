-- ===== src/Tests/Sync.antt =====
-- Runs of the calendars, the log and the sync report.
use dcalcon.Base.{
  ℕ, ◌≤◌, ◌<◌, Bool, true, false, not, Option, none, some, List, [], ◌∷◌, Text, codes, ◌≡◌, refl,
  arith, same, select, find_first, all, has_prefix, trim_suffix_rune, split, trim, trim_prefix,
  equal_fold,
}
use dcalcon.Decimal.{max_int64, format_int}
use dcalcon.Storage.{role_admin, calendar, addressbook, Change, Db, ok, err}
use dcalcon.Storage.Changes.{
  is_since, changes_since, latest_change_id, sync_token, parse_sync_token,
}
use dcalcon.Storage.Changes.Since.{last_of, replay, left_by, replay-changes_since}
use dcalcon.Storage.Changes.Tokens.{parse_sync_token-sync_token}
use dcalcon.Storage.Calendars.{scan_calendar, calendar_by_slug, parse_share_slug}
use dcalcon.Storage.Objects.{
  delete_calendar_object, upsert_calendar_object, drop_moved, remove_object,
}
use dcalcon.Storage.Objects.Writes.{run_writes}
use dcalcon.Storage.Objects.Tracking.{etag_at}
use dcalcon.Storage.Objects.Invariants.{
  IsWellFormed, written, calendar_deleted, run_events, run_events-IsWellFormed,
}
use dcalcon.Storage.Objects.Effects.{etag_at-delete_calendar_object}
use dcalcon.Storage.Objects.Ctag.{row_of, Bumped, delete-Bumped}
use dcalcon.Davext.{CollectionRef, parse_collection}
use dcalcon.Auth.{Principal}
use dcalcon.Davext.Sync.{Member, Reply, multistatus, handle_sync}
use dcalcon.Davext.Sync.Etags.{apply_members}
use dcalcon.Davext.Sync.Converge.{initial_sync, sync_converges}
use dcalcon.Davext.Sync.Race.{race_loses_object}
use dcalcon.Tests.Data.{home, db, event, writes, db-HrefUnique, db-IsNumbered, db-IsWellFormed}

abbrev path : Text
path = codes "/dav/calendars/alice/home/"

abbrev collection : CollectionRef
collection = record { kind = calendar; username = codes "alice"; slug = codes "home" }

abbrev who : Principal
who = record {
  id = 1;
  username = codes "alice";
  email = codes "a@x.org";
  display_name = codes "Alice";
  role = role_admin;
}

abbrev no_book : Principal → Text → Text → ℕ → Db → Db → Reply
no_book p slug token since listed logged = multistatus [] []

abbrev full : Db
full = (upsert_calendar_object 1 event [] db).1

parsed : parse_collection path ≡ some collection
unfolding parse_collection has_prefix trim_suffix_rune split trim trim_prefix same
parsed = refl

named : equal_fold (λ c. c) collection.username who.username ≡ true
unfolding equal_fold same
named = refl

home_found : calendar_by_slug db 1 (codes "home") ≡ ok (scan_calendar home)
unfolding calendar_by_slug parse_share_slug has_prefix same find_first
home_found = refl

stored : (upsert_calendar_object 1 event [] db).0 ≡ ok tt
unfolding upsert_calendar_object dcalcon.Base.any drop_moved same find_first
    dcalcon.Storage.Calendars.bump_calendar dcalcon.Base.update_where
    dcalcon.Storage.Changes.record_change dcalcon.Storage.Objects.write_object
stored = refl

home_stored :
    calendar_by_slug full 1 (codes "home")
    ≡ ok (scan_calendar (record home { ctag = 2; sync_token = format_int 2 }))
unfolding upsert_calendar_object dcalcon.Base.any drop_moved same find_first
    dcalcon.Storage.Calendars.bump_calendar dcalcon.Base.update_where
    dcalcon.Storage.Changes.record_change dcalcon.Storage.Objects.write_object calendar_by_slug
    parse_share_slug has_prefix
home_stored = refl

home_written :
    calendar_by_slug (run_writes writes db) 1 (codes "home")
    ≡ ok (scan_calendar (record home { ctag = 3; sync_token = format_int 3 }))
unfolding upsert_calendar_object dcalcon.Base.any drop_moved same find_first
    dcalcon.Storage.Calendars.bump_calendar dcalcon.Base.update_where
    dcalcon.Storage.Changes.record_change dcalcon.Storage.Objects.write_object calendar_by_slug
    parse_share_slug has_prefix run_writes delete_calendar_object remove_object select
home_written = refl

row_found : row_of full 1 ≡ some (record home { ctag = 2; sync_token = format_int 2 })
unfolding upsert_calendar_object dcalcon.Base.any drop_moved same find_first
    dcalcon.Storage.Calendars.bump_calendar dcalcon.Base.update_where
    dcalcon.Storage.Changes.record_change dcalcon.Storage.Objects.write_object row_of
row_found = refl

deleted : (delete_calendar_object 1 (codes "e.ics") [] full).0 ≡ ok tt
unfolding upsert_calendar_object dcalcon.Base.any drop_moved same find_first
    dcalcon.Storage.Calendars.bump_calendar dcalcon.Base.update_where
    dcalcon.Storage.Changes.record_change dcalcon.Storage.Objects.write_object
    delete_calendar_object
deleted = refl

fits : latest_change_id full calendar 1 ≤ max_int64
unfolding upsert_calendar_object dcalcon.Base.any drop_moved same find_first
    dcalcon.Storage.Calendars.bump_calendar dcalcon.Base.update_where
    dcalcon.Storage.Changes.record_change dcalcon.Storage.Objects.write_object latest_change_id
fits = omega arith

fits_empty : latest_change_id db calendar 1 ≤ max_int64
unfolding latest_change_id
fits_empty = omega arith

absent : etag_at db 1 (codes "e.ics") ≡ none
unfolding etag_at find_first
absent = refl

run_events-IsWellFormed_example :
    IsWellFormed (run_events (written writes ∷ calendar_deleted 1 1 ∷ written writes ∷ []) db)
run_events-IsWellFormed_example =
    run_events-IsWellFormed (written writes ∷ calendar_deleted 1 1 ∷ written writes ∷ []) db
      db-IsWellFormed

etag_at-delete_example :
    etag_at (delete_calendar_object 1 (codes "e.ics") [] full).1 1 (codes "e.ics") ≡ none
unfolding same
etag_at-delete_example = etag_at-delete_calendar_object 1 (codes "e.ics") [] full 1 (codes "e.ics")

delete-Bumped_example : Bumped 1 full (delete_calendar_object 1 (codes "e.ics") [] full).1
delete-Bumped_example = delete-Bumped 1 (codes "e.ics") [] full _ row_found deleted

parse_sync_token-sync_token_example : parse_sync_token (sync_token 42) ≡ some 42
parse_sync_token-sync_token_example = parse_sync_token-sync_token 42 (omega arith)

abbrev seen : Change → Bool
seen c = not c.deleted

replay-changes_since_example :
    replay seen (changes_since (run_writes writes db) calendar 1 0) (λ h. true) (codes "e.ics")
    ≡ left_by seen
        (last_of
          (codes "e.ics")
          (select (is_since calendar 1 0) (run_writes writes db).changes)
          none)
        true
replay-changes_since_example =
    replay-changes_since seen (run_writes writes db) calendar 1 0 (λ h. true) (codes "e.ics")

initial_sync_example :
    (members : List Member) × (handle_sync (λ c. c) no_book (some who) path none db db
      ≡ multistatus members (sync_token (latest_change_id db calendar 1)))
    × ((h : Text) → apply_members members (λ _. none) h ≡ etag_at db 1 h)
unfolding scan_calendar
initial_sync_example =
    initial_sync (λ c. c) no_book who path collection db (scan_calendar home) parsed refl named
      home_found db-HrefUnique

sync_converges_example :
    (members : List Member) × (handle_sync
        (λ c. c)
        no_book
        (some who)
        path
        (some (sync_token (latest_change_id db calendar 1)))
        (run_writes writes db)
        (run_writes writes db)
      ≡ multistatus members (sync_token (latest_change_id (run_writes writes db) calendar 1)))
    × ((h : Text) → apply_members members (etag_at db 1) h ≡ etag_at (run_writes writes db) 1 h)
unfolding format_int scan_calendar
sync_converges_example =
    sync_converges (λ c. c) no_book who path collection db writes (scan_calendar home)
      (scan_calendar (record home { ctag = 3; sync_token = format_int 3 })) parsed refl named
      home_written refl db-HrefUnique db-IsNumbered fits_empty

race_loses_object_example :
    (members : List Member) × (handle_sync (λ c. c) no_book (some who) path none db full
      ≡ multistatus members (sync_token (latest_change_id full calendar 1)))
    × (apply_members members (λ _. none) event.href ≡ none)
    × (handle_sync
          (λ c. c)
          no_book
          (some who)
          path
          (some (sync_token (latest_change_id full calendar 1)))
          full
          full
        ≡ multistatus [] (sync_token (latest_change_id full calendar 1)))
    × (etag_at full 1 event.href ≡ some event.etag)
unfolding scan_calendar
race_loses_object_example =
    race_loses_object (λ c. c) no_book who path collection db (scan_calendar home)
      (scan_calendar (record home { ctag = 2; sync_token = format_int 2 })) event [] parsed refl
      named home_found home_stored refl db-HrefUnique absent stored fits
