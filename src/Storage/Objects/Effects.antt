-- ===== src/Storage/Objects/Effects.antt =====
-- What an upsert and a deletion of src/svc/internal/storage/dav.go leave at each href.
use dcalcon.Base.{
  ℕ, true, false, ◌&&◌, none, some, Text, ◌≡◌, refl, ◌∙◌, arith, same, same_iff, same_refl, ==_refl,
  any, find_first, opt_map, ◌==◌, if◌then◌else◌, Bool-cases, inl, inr, List, [], ◌∷◌,
}
use dcalcon.Storage.{calendar, ObjectData, CalendarRow, CalendarObject, Db, ok, err, constraint}
use dcalcon.Storage.Objects.{at_href, drop_moved, delete_calendar_object, upsert_calendar_object}
use dcalcon.Storage.Objects.Tracking.{
  etag_at, etag_at-remove_object, etag_at-write_object, etag_at-bump_calendar,
  etag_at-record_change,
}

absent_etag :
    (k : ℕ) (h : Text) (rows : List CalendarObject)
    → any (at_href k h) rows ≡ false
    → opt_map (λ (o : CalendarObject). o.etag) (find_first (at_href k h) rows) ≡ none
unfolding any find_first
absent_etag k h [] e = refl
absent_etag k h (o ∷ rows) e = ground (arith, absent_etag k h rows)

nothing_lost :
    (id : ℕ) (href : Text) (db : Db) (k : ℕ) (h : Text)
    → any (at_href id href) db.objects ≡ false
    → etag_at db k h ≡ (if id == k && same href h then none else etag_at db k h)
unfolding etag_at
nothing_lost id href db k h absent =
    ground (arith, same_iff href h, absent_etag id href db.objects absent)

-- DeleteCalendarObject, whether or not it finds the object, leaves no object at its href and the
-- etag of every other href of every calendar as it was.
pub etag_at-delete_calendar_object :
    (id : ℕ) (href now : Text) (db : Db) (k : ℕ) (h : Text)
    → etag_at (delete_calendar_object id href now db).1 k h
      ≡ (if id == k && same href h then none else etag_at db k h)
unfolding delete_calendar_object
etag_at-delete_calendar_object id href now db k h =
    elim (Bool-cases (any (at_href id href) db.objects)) [
      | inl there ↦ rw there (
          etag_at-bump_calendar k h id now _
          ∙ etag_at-record_change k h calendar id href true _
          ∙ etag_at-remove_object k h id href db)
      | inr absent ↦ rw absent (nothing_lost id href db k h absent)
    ]

unknown-refused :
    (id : ℕ) (o : ObjectData) (now : Text) (db : Db)
    → any (λ (c : CalendarRow). c.id == id) (drop_moved id o now db).calendars ≡ false
    → (upsert_calendar_object id o now db).0 ≡ err constraint
unfolding upsert_calendar_object
unknown-refused id o now db unknown = rw unknown refl

-- What UpsertCalendarObject, when it succeeds, leaves after drop_moved.
pub etag_at-upserted :
    (id : ℕ) (o : ObjectData) (now : Text) (db : Db) (k : ℕ) (h : Text)
    → (upsert_calendar_object id o now db).0 ≡ ok tt
    → etag_at (upsert_calendar_object id o now db).1 k h
      ≡ (if id == k && same o.href h then some o.etag else etag_at (drop_moved id o now db) k h)
unfolding upsert_calendar_object
etag_at-upserted id o now db k h done =
    let moved = drop_moved id o now db in
    elim (Bool-cases (any (λ (c : CalendarRow). c.id == id) moved.calendars)) [
      | inl known ↦ rw known (
          etag_at-bump_calendar k h id now _
          ∙ etag_at-record_change k h calendar id o.href false _
          ∙ etag_at-write_object k h id o now moved)
      | inr unknown ↦ cc (unknown-refused id o now db unknown, done)
    ]

pub etag_at-stored :
    (id : ℕ) (o : ObjectData) (now : Text) (db : Db)
    → (upsert_calendar_object id o now db).0 ≡ ok tt
    → etag_at (upsert_calendar_object id o now db).1 id o.href ≡ some o.etag
etag_at-stored id o now db done =
    etag_at-upserted id o now db id o.href done ∙ ground (arith, same_refl o.href, ==_refl id)
