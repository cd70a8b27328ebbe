-- ===== src/Tests/Rules.antt =====
-- Runs of the paths, the shares, the schedule, the rights, the limiter and the addresses.
use dcalcon.Base.{
  if◌then◌else◌, ◌==◌, ◌≤◌, ◌+◌, ◌-◌, true, false, not, Option, none, some, is_some, List, [], ◌∷◌,
  Text, codes, ◌≡◌, refl, arith, same, any, all, count, select, filter_map, sort_by, insert_by,
  find_first, trim_space, contains_rune, to_lower, to_upper, contains, has_prefix,
}
use dcalcon.Decimal.{pos, parse_int, format_int}
use dcalcon.Decimal.RoundTrip.{parse_int-format_int}
use dcalcon.Storage.{
  personal, write, in_box, accepted, cancelled, processed, ScheduleItem, ok, err, reserved_slug, Db,
}
use dcalcon.Storage.Calendars.{
  scan_calendar, calendar_by_slug, parse_share_slug, can_write, share_slug, create_calendar,
}
use dcalcon.Storage.Calendars.ShareSlugs.{share_slug-reserved}
use dcalcon.Storage.Shares.{
  ShareGrant, grant_of, wanted, grant, parse_access, replace_shares, put_all, put_share,
  drop_unwanted, list_shares,
}
use dcalcon.Storage.Shares.Replace.{access_at, asked, Ranges, access_at-replace_shares}
use dcalcon.Storage.Schedule.{get_schedule_item, insert_schedule, close_pending_inbox}
use dcalcon.Storage.Schedule.Answers.{
  insert_schedule-keeps_answer, get_schedule_item-close_pending_inbox,
}
use dcalcon.Davpath.{
  calendar_path, calendar_slug, address_book_path, address_book_slug, object_path, object_href,
  check_object_href,
}
use dcalcon.Davpath.RoundTrip.{calendar_slug-calendar_path}
use dcalcon.Davpath.Hrefs.{is_refused, check_object_href-eq-not, accepted_member}
use dcalcon.Caldav.{calendar_write_error, component_allowed}
use dcalcon.Caldav.Rights.{calendar_write_error-can_write}
use dcalcon.Caldav.Advertised.{privileges, components}
use dcalcon.Caldav.Advertised.Agrees.{privileges-calendar_write_error, component_allowed-components}
use dcalcon.Ratelimit.{Limiter, allow, fail, lookup}
use dcalcon.Ratelimit.Held.{Call, ask, failing, run_calls, is_within}
use dcalcon.Ratelimit.Lockout.{fail-locks, fail_all, fail_all-counts}
use dcalcon.Identity.{identities}
use dcalcon.Identity.Distinct.{alike, identities-distinct}
use dcalcon.Clientip.{Request, remote_ip, trusted_ip, resolve_client_ip}
use dcalcon.Clientip.Forwarded.{resolve_client_ip-nearest}
use dcalcon.Davpath.{first_is}
use dcalcon.Tests.Data.{alice, home, db, invitation}

parse_int-format_int_example : parse_int (format_int 1207) ≡ some (pos 1207)
parse_int-format_int_example = parse_int-format_int 1207 (omega arith)

share_slug-reserved_example :
    (parse_share_slug (share_slug 7) ≡ some 7)
    × (create_calendar 1 (share_slug 7) [] [] [] none false [] db ≡ (err reserved_slug, db))
share_slug-reserved_example =
    share_slug-reserved 7 1 [] [] [] none false [] db (omega arith) (omega arith)

check_object_href-eq-not_example :
    check_object_href (λ c. c) (codes "a%2Fb.ics")
    ≡ not (is_refused (λ c. c) (trim_space (codes "a%2Fb.ics")))
check_object_href-eq-not_example = check_object_href-eq-not (λ c. c) (codes "a%2Fb.ics")

calendar_slug-calendar_path_example :
    (calendar_slug (calendar_path (codes "alice") (codes "home")) (codes "alice") ≡ codes "home")
    × (address_book_slug (address_book_path (codes "alice") (codes "home")) (codes "alice")
        ≡ codes "home")
unfolding all
calendar_slug-calendar_path_example =
    calendar_slug-calendar_path (codes "alice") (codes "home") refl

accepted_member_example :
    (calendar_slug
        (object_path (calendar_path (codes "alice") (codes "home")) (codes "e.ics"))
        (codes "alice")
      ≡ codes "home")
    × (object_href
          (object_path (calendar_path (codes "alice") (codes "home")) (codes "e.ics"))
          (calendar_path (codes "alice") (codes "home"))
        ≡ codes "e.ics")
unfolding same contains_rune trim_space check_object_href contains to_lower
accepted_member_example =
    accepted_member (λ c. c) (codes "alice") (codes "home") (codes "e.ics") refl refl refl refl

abbrev limiter : Limiter
limiter = record { max = 3; window = 100; lockout = 50; buckets = [] }

fail_all-counts_example :
    (fail 30 (codes "ip") (fail_all (10 ∷ 20 ∷ []) (codes "ip") (some limiter))).0 ≡ (true, 50)
unfolding lookup all
fail_all-counts_example = fail_all-counts (10 ∷ 20 ∷ []) 30 (codes "ip") limiter refl refl refl

abbrev strict : Limiter
strict = record limiter { max = 1 }

-- Two requests while the key is locked, and one of another key that is let in and fails.
abbrev calls : List Call
calls =
    ask 35 (codes "ip")
    ∷ ask 36 (codes "else")
    ∷ failing 37 (codes "else")
    ∷ ask 38 (codes "ip")
    ∷ []

fail-locks_example :
    (allow 40 (codes "ip") (run_calls calls (fail 30 (codes "ip") (some strict)).1)).0
    ≡ (false, (30 + 50) - 40)
unfolding fail select same all is_within
fail-locks_example = fail-locks 30 40 (codes "ip") strict calls refl refl (omega arith)

abbrev grants : List ShareGrant
grants =
    record { grantee_id = 2; access = codes "read" }
    ∷ record { grantee_id = 2; access = codes "WRITE " }
    ∷ []

wanted-grants : wanted (λ c. c) grants [] ≡ (2, write) ∷ []
unfolding wanted grant parse_access same to_lower trim_space
wanted-grants = refl

in_order : Ranges (λ want. want) (wanted (λ c. c) grants [])
unfolding count
in_order = record { once = λ j. rw wanted-grants (ground arith); entries = λ j. refl }

replaced : (replace_shares (λ c. c) (λ want. want) 1 grants [] db).0 ≡ ok tt
unfolding replace_shares wanted grant grant_of parse_access same to_lower trim_space put_all
    put_share drop_unwanted list_shares any find_first select filter_map sort_by insert_by
replaced = refl

asked_for : asked (λ c. c) grants 2 ≡ some write
unfolding asked parse_access same to_lower trim_space
asked_for = refl

access_at-replace_shares_example :
    access_at (replace_shares (λ c. c) (λ want. want) 1 grants [] db).1 1 2
    ≡ asked (λ c. c) grants 2
unfolding find_first
access_at-replace_shares_example =
    access_at-replace_shares (λ c. c) (λ want. want) 1 grants [] db 1 2 in_order refl replaced

abbrev answered : ScheduleItem
answered = record invitation { status = accepted }

abbrev db_answered : Db
db_answered = record db { schedule = answered ∷ [] }

insert_schedule-keeps_answer_example :
    (j : ScheduleItem) × (get_schedule_item
        (insert_schedule 1 in_box
          (codes "REQUEST")
          (codes "m1")
          (codes "b@x.org")
          (codes "a@x.org")
          processed
          (codes "v2")
          db_answered).1
        1
        1
      ≡ ok j)
    × (j.status ≡ accepted)
unfolding get_schedule_item find_first
insert_schedule-keeps_answer_example =
    insert_schedule-keeps_answer 1 1 1 in_box (codes "REQUEST") (codes "m1") (codes "b@x.org")
      (codes "a@x.org") processed (codes "v2") db_answered answered refl refl

get_schedule_item-close_pending_inbox_example :
    get_schedule_item (close_pending_inbox 1 (codes "m1") none db) 1 1
    ≡ ok (record invitation { status = cancelled })
unfolding get_schedule_item find_first same
get_schedule_item-close_pending_inbox_example =
    get_schedule_item-close_pending_inbox 1 (codes "m1") none db 1 1

calendar_write_error-can_write_example :
    not (is_some (calendar_write_error (scan_calendar home) false)) ≡ can_write (scan_calendar home)
unfolding all calendar_by_slug parse_share_slug has_prefix find_first same
calendar_write_error-can_write_example =
    calendar_write_error-can_write db 1 (codes "home") (scan_calendar home) refl refl refl

identities-distinct_example :
    alike (λ c. c) (codes "ALICE") (identities (λ c. c) (λ c. c) [] alice) ≤ 1
identities-distinct_example = identities-distinct (λ c. c) (λ c. c) [] alice (codes "ALICE")

-- An address is a text that does not begin with "x"; "10.0.0.1" alone is a loopback.
abbrev parse : Text → Option Text
parse text = if first_is (λ c. c == b'x') text then none else some text

abbrev request : Request
request = record {
  remote_addr = codes "10.0.0.1";
  forwarded_for = codes "6.6.6.6, 1.2.3.4";
  real_ip = codes "7.7.7.7";
  authorization = [];
}

resolve_client_ip-nearest_example :
    resolve_client_ip some parse (λ (ip : Text). same ip (codes "10.0.0.1")) request []
    ≡ trim_space (codes " 1.2.3.4")
unfolding trusted_ip remote_ip same contains_rune trim_space
resolve_client_ip-nearest_example =
    resolve_client_ip-nearest some parse (λ (ip : Text). same ip (codes "10.0.0.1")) request []
      (codes "6.6.6.6") (codes " 1.2.3.4") refl refl refl refl

privileges-calendar_write_error_example :
    any (λ p. same p (codes "write-content")) (privileges (scan_calendar home))
    ≡ not (is_some (calendar_write_error (scan_calendar home) false))
unfolding all calendar_by_slug parse_share_slug has_prefix find_first same
privileges-calendar_write_error_example =
    privileges-calendar_write_error db 1 (codes "home") (scan_calendar home) refl refl refl

component_allowed-components_example :
    component_allowed (λ c. c) personal (codes " vtodo")
    ≡ any
        (λ name. same (to_upper (λ c. c) (trim_space (codes " vtodo"))) name)
        (components personal)
component_allowed-components_example =
    component_allowed-components (λ c. c) personal (codes " vtodo")
