-- ===== src/Caldav/Conditions.antt =====
-- Conditional writes after other writes: Check of src/svc/internal/davcond/davcond.go, as
-- PutCalendarObject of src/svc/internal/caldav/backend.go calls it, on the calendar objects that
-- src/svc/internal/storage/dav.go leaves.
use dcalcon.Base.{
  ℕ, Bool, true, false, Option, none, some, Text, find_first, same_refl, ==_refl, ◌≡◌, refl, ◌∙◌,
  Option-cases, inl, inr,
}
use dcalcon.Storage.{ObjectData, CalendarObject, Db, ok}
use dcalcon.Storage.Objects.{
  at_href, calendar_object_by_href, upsert_calendar_object, delete_calendar_object,
}
use dcalcon.Storage.Objects.Tracking.{etag_at}
use dcalcon.Storage.Objects.Effects.{etag_at-stored, etag_at-delete_calendar_object}
use dcalcon.Caldav.{check, check_existing, existing_object}

existing-stored :
    (db : Db) (id : ℕ) (h etag : Text)
    → etag_at db id h ≡ some etag
    → (x : CalendarObject) × (existing_object db id h ≡ some x) × (x.etag ≡ etag)
unfolding etag_at existing_object calendar_object_by_href
existing-stored db id h etag e = elim (Option-cases (find_first (at_href id h) db.objects)) [
  | inl absent ↦ let g = rw (absent, etag_at) at e in absurd cc
  | inr (x, found) ↦ let g = rw (found, etag_at) at e in (x, rw (found, existing_object) refl, cc)
]

existing-absent :
    (db : Db) (id : ℕ) (h : Text) → etag_at db id h ≡ none → existing_object db id h ≡ none
unfolding etag_at existing_object calendar_object_by_href
existing-absent db id h e = elim (Option-cases (find_first (at_href id h) db.objects)) [
  | inl absent ↦ rw (absent, existing_object) refl
  | inr (x, found) ↦ let g = rw (found, etag_at) at e in absurd cc
]

module _ {M : Type 0} (is_set is_wildcard : M → Bool) (match_etag : M → Text → Option Bool) where
  -- The answer of MatchETag, where an error is no match.
  abbrev pub names : M → Text → Bool
  names m etag = elim (match_etag m etag) [ none ↦ false | some b ↦ b ]

  stored-conditions :
      (m w unset : M) (x : CalendarObject) (t : Text)
      → x.etag ≡ t
      → is_set m ≡ true
      → is_wildcard m ≡ false
      → is_set w ≡ true
      → is_wildcard w ≡ true
      → is_set unset ≡ false
      → (check_existing is_set is_wildcard match_etag (some x) m unset ≡ names m t)
        × (check_existing is_set is_wildcard match_etag (some x) unset w ≡ false)
  unfolding check_existing check
  stored-conditions m w unset x t e set tagged star_set star off =
      (rw (off, set, tagged, e) refl, rw (star_set, star) refl)

  absent-conditions :
      (m w unset : M)
      → is_set m ≡ true
      → is_set w ≡ true
      → is_wildcard w ≡ true
      → is_set unset ≡ false
      → (check_existing is_set is_wildcard match_etag none m unset ≡ false)
        × (check_existing is_set is_wildcard match_etag none unset w ≡ true)
  unfolding check_existing check
  absent-conditions m w unset set star_set star off =
      (rw (off, set) refl, rw (star_set, star, off) refl)

  -- Let m be an If-Match that is not *, and w an If-None-Match that is *, each the only condition of
  -- its request. After an UpsertCalendarObject that succeeds, PutCalendarObject's Check of the
  -- object's href lets m through exactly when MatchETag answers, with no error, that m names the
  -- etag that was stored, and refuses w. After a DeleteCalendarObject it refuses m at the href and
  -- lets w through.
  pub check_existing-written :
      (id : ℕ) (o : ObjectData) (href now : Text) (db : Db) (m w unset : M)
      → (upsert_calendar_object id o now db).0 ≡ ok tt
      → is_set m ≡ true
      → is_wildcard m ≡ false
      → is_set w ≡ true
      → is_wildcard w ≡ true
      → is_set unset ≡ false
      → (check_existing is_set is_wildcard match_etag
            (existing_object (upsert_calendar_object id o now db).1 id o.href)
            m
            unset
          ≡ (elim (match_etag m o.etag) [ none ↦ false | some b ↦ b ]))
        × (check_existing is_set is_wildcard match_etag
              (existing_object (upsert_calendar_object id o now db).1 id o.href)
              unset
              w
            ≡ false)
        × (check_existing is_set is_wildcard match_etag
              (existing_object (delete_calendar_object id href now db).1 id href)
              m
              unset
            ≡ false)
        × (check_existing is_set is_wildcard match_etag
              (existing_object (delete_calendar_object id href now db).1 id href)
              unset
              w
            ≡ true)
  check_existing-written id o href now db m w unset done set tagged star_set star off =
      let (x, found, etag) =
        existing-stored (upsert_calendar_object id o now db).1 id o.href o.etag
          (etag_at-stored id o now db done) in
      let gone = existing-absent (delete_calendar_object id href now db).1 id href (
        etag_at-delete_calendar_object id href now db id href
        ∙ rw (==_refl id, same_refl href) refl) in
      let (named, kept) = stored-conditions m w unset x o.etag etag set tagged star_set star off in
      let (missed, fresh) = absent-conditions m w unset set star_set star off in
      (rw found named, rw found kept, rw gone missed, rw gone fresh)
