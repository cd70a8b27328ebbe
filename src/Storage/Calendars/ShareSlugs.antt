-- ===== src/Storage/Calendars/ShareSlugs.antt =====
-- ShareSlug and ParseShareSlug of src/svc/internal/storage/dav.go, and the reserved slugs.
use dcalcon.Base.{
  ℕ, zero, suc, ◌<◌, ◌≤◌, Bool, Option, some, Text, ◌≡◌, refl, arith, has_prefix-append,
  trim_prefix-append,
}
use dcalcon.Decimal.{pos, max_int64, format_int}
use dcalcon.Decimal.RoundTrip.{parse_int-format_int}
use dcalcon.Storage.{Kind, reserved_slug, err, Db}
use dcalcon.Storage.Calendars.{
  share_slug_prefix, share_slug, at_least_one, parse_share_slug, create_calendar,
}

pub parse_share_slug-share_slug :
    (id : ℕ) → 0 < id → id ≤ max_int64 → parse_share_slug (share_slug id) ≡ some id
unfolding parse_share_slug share_slug
parse_share_slug-share_slug id h k =
    rw
      (
        has_prefix-append share_slug_prefix (format_int id),
        trim_prefix-append share_slug_prefix (format_int id),
        parse_int-format_int id k,
      )
      (positive_id id h)
  where
    positive_id : (n : ℕ) → 0 < n → at_least_one (some (pos n)) ≡ some n
    positive_id zero z = absurd (omega (arith, z))
    positive_id (suc n) z = refl

-- The slug that ShareSlug writes for a calendar with a positive int64 id is read back by
-- ParseShareSlug, and CreateCalendar refuses it as reserved and changes nothing.
pub share_slug-reserved :
    (id user : ℕ) (name description color : Text) (kind : Option Kind) (read_only : Bool)
    (now : Text) (db : Db)
    → 0 < id
    → id ≤ max_int64
    → (parse_share_slug (share_slug id) ≡ some id)
      × (create_calendar user (share_slug id) name description color kind read_only now db
          ≡ (err reserved_slug, db))
unfolding create_calendar
share_slug-reserved id user name description color kind read_only now db h k =
    (parse_share_slug-share_slug id h k, rw (parse_share_slug-share_slug id h k) refl)
