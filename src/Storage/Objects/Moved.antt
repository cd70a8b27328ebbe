-- ===== src/Storage/Objects/Moved.antt =====
-- What UpsertCalendarObject of src/svc/internal/storage/dav.go does to the etags of a database in
-- which no UID is twice in a calendar.
use dcalcon.Base.{
  ==_refl, ℕ, Bool, true, false, not, ◌&&◌, Option, none, some, [], Text, same, same_iff,
  find_first, find_first_sound, find_first-other, find_first-fails, ◌==◌, if◌then◌else◌, ◌≡◌, refl,
  ◌∙◌, sym, arith, Bool-cases, Option-cases, inl, inr,
}
use dcalcon.Storage.{ObjectData, CalendarObject, Db, ok}
use dcalcon.Storage.Objects.{at_href, at_uid, drop_moved, upsert_calendar_object}
use dcalcon.Storage.Objects.Tracking.{etag_at}
use dcalcon.Storage.Objects.Effects.{etag_at-delete_calendar_object, etag_at-upserted}
use dcalcon.Storage.Objects.UniqueUid.{
  UidUnique, drop_moved-none, drop_moved_itself, drop_moved_step,
}

-- Whether an object is there and has a UID that is not empty.
abbrev pub has_uid : Text → Option CalendarObject → Bool
has_uid uid none = false
has_uid uid (some x) = not (same uid []) && same x.uid uid

-- An object that is found at an href is the one that is found by its UID.
by_uid :
    (id : ℕ) (uid h : Text) (db : Db) (x : CalendarObject)
    → UidUnique db
    → find_first (at_href id h) db.objects ≡ some x
    → has_uid uid (some x) ≡ true
    → (find_first (at_uid id uid) db.objects ≡ some x) × (same x.href h ≡ true)
by_uid id uid h db x u found has =
    let at : at_href id h x ≡ true = find_first_sound (at_href id h) db.objects x found in
    (
      find_first-other (at_href id h) (at_uid id uid) db.objects x (u.once id uid (ground arith))
          found (ground arith),
      ground arith,
    )

drop_moved_unnamed :
    (id : ℕ) (o : ObjectData) (now : Text) (db : Db)
    → same o.uid [] ≡ true
    → drop_moved id o now db ≡ db
unfolding drop_moved
drop_moved_unnamed id o now db unnamed = rw unnamed refl

-- In another calendar nothing is deleted.
etag_at-drop_moved-elsewhere :
    (id : ℕ) (o : ObjectData) (now : Text) (db : Db) (k : ℕ) (h : Text)
    → (id == k) ≡ false
    → etag_at (drop_moved id o now db) k h ≡ etag_at db k h
etag_at-drop_moved-elsewhere id o now db k h away = elim (Bool-cases (same o.uid [])) [
  | inl unnamed ↦ rw (drop_moved_unnamed id o now db unnamed) refl
  | inr named ↦ elim (Option-cases (find_first (at_uid id o.uid) db.objects)) [
    | inl absent ↦ rw (drop_moved-none id o now db absent) refl
    | inr (other, found) ↦ elim (Bool-cases (same other.href o.href)) [
      | inl itself ↦ rw (drop_moved_itself id o now db other found itself) refl
      | inr moved ↦
          rw
            (
              drop_moved_step id o now db other named found moved,
              etag_at-delete_calendar_object id other.href now db k h,
              away,
            )
            refl
    ]
  ]
]

module _ (id : ℕ) (o : ObjectData) (now : Text) (db : Db) (h : Text) where
  -- Whether the object at the href is to be deleted for its UID.
  abbrev is_moved : Bool
  is_moved = has_uid o.uid (find_first (at_href id h) db.objects)

  moved-unnamed : same o.uid [] ≡ true → is_moved ≡ false
  moved-unnamed unnamed = elim (Option-cases (find_first (at_href id h) db.objects)) [
    | inl e ↦ rw e refl
    | inr (x, e) ↦ rw e (rw unnamed refl)
  ]

  moved-none : UidUnique db → find_first (at_uid id o.uid) db.objects ≡ none → is_moved ≡ false
  moved-none u absent = elim (Option-cases (find_first (at_href id h) db.objects)) [
    | inl e ↦ rw e refl
    | inr (x, e) ↦ elim (Bool-cases (has_uid o.uid (some x))) [
      | inr other_uid ↦ rw e other_uid
      | inl has ↦ absurd (cc (absent, (by_uid id o.uid h db x u e has).0))
    ]
  ]

  moved-found :
      (other : CalendarObject)
      → UidUnique db
      → same o.uid [] ≡ false
      → find_first (at_uid id o.uid) db.objects ≡ some other
      → is_moved ≡ same other.href h
  moved-found other u named found = elim (Option-cases (find_first (at_href id h) db.objects)) [
    | inl e ↦ elim (Bool-cases (same other.href h)) [
      | inr away ↦ rw e (sym away)
      | inl there ↦
          let at : at_uid id o.uid other ≡ true =
            find_first_sound (at_uid id o.uid) db.objects other found in
          let gone : at_href id h other ≡ false =
            find_first-fails (at_href id h) (at_uid id o.uid) db.objects other e found in
          absurd (ground arith)
    ]
    | inr (x, e) ↦ elim (Bool-cases (has_uid o.uid (some x))) [
      | inl has ↦
          let (by, at) = by_uid id o.uid h db x u e has in
          let is_other : some x ≡ some other = sym by ∙ found in
          let row : x ≡ other = cc in rw e (has ∙ sym (rw (sym row) at))
      | inr other_uid ↦ elim (Bool-cases (same other.href h)) [
        | inr away ↦ rw e (other_uid ∙ sym away)
        | inl there ↦
            let at : at_uid id o.uid other ≡ true =
              find_first_sound (at_uid id o.uid) db.objects other found in
            let by =
              find_first-other (at_uid id o.uid) (at_href id h) db.objects other (u.hrefs.once id h)
                found (ground arith) in
            let is_other : some x ≡ some other = sym e ∙ by in
            let row : x ≡ other = cc in
            let bad : has_uid o.uid (some other) ≡ false = rw (sym row) other_uid in
            absurd (ground arith)
      ]
    ]
  ]

  -- What the deletion of the moved object leaves at an href other than the new one.
  etag_at-drop_moved :
      UidUnique db
      → same o.href h ≡ false
      → etag_at (drop_moved id o now db) id h ≡ (if is_moved then none else etag_at db id h)
  etag_at-drop_moved u away = elim (Bool-cases (same o.uid [])) [
    | inl unnamed ↦ rw (drop_moved_unnamed id o now db unnamed, moved-unnamed unnamed) refl
    | inr named ↦ elim (Option-cases (find_first (at_uid id o.uid) db.objects)) [
      | inl absent ↦ rw (drop_moved-none id o now db absent, moved-none u absent) refl
      | inr (other, found) ↦ elim (Bool-cases (same other.href o.href)) [
        | inl itself ↦
            rw
              (
                drop_moved_itself id o now db other found itself,
                moved-found other u named found,
                (same_iff other.href o.href).0 itself,
                away,
              )
              refl
        | inr elsewhere ↦
            rw
              (
                drop_moved_step id o now db other named found elsewhere,
                etag_at-delete_calendar_object id other.href now db id h,
                moved-found other u named found,
                ==_refl id,
              )
              refl
      ]
    ]
  ]

-- Where no UID is twice in a calendar, UpsertCalendarObject, when it succeeds, leaves the object's
-- etag at its href and nothing at another href of the calendar that had its UID, if that is not
-- empty, and the etag of every other href of every calendar as it was.
pub etag_at-upsert_calendar_object :
    (id : ℕ) (o : ObjectData) (now : Text) (db : Db) (k : ℕ) (h : Text)
    → UidUnique db
    → (upsert_calendar_object id o now db).0 ≡ ok tt
    → etag_at (upsert_calendar_object id o now db).1 k h ≡ (
        if id == k && same o.href h
        then some o.etag
        else if id == k && has_uid o.uid (find_first (at_href k h) db.objects)
        then none
        else etag_at db k h)
etag_at-upsert_calendar_object id o now db k h u done =
    etag_at-upserted id o now db k h done ∙ elim (Bool-cases (id == k)) [
      | inr away ↦ rw (away, etag_at-drop_moved-elsewhere id o now db k h away) refl
      | inl own ↦ elim (Bool-cases (same o.href h)) [
        | inl here ↦ rw (own, here) refl
        | inr there ↦
            let key : id ≡ k = ground arith in
            rw (own, there) (rw (sym key) (etag_at-drop_moved id o now db h u there))
      ]
    ]
