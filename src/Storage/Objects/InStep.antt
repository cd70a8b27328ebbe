-- ===== src/Storage/Objects/InStep.antt =====
-- The change log and the objects of src/svc/internal/storage/dav.go, followed through each write.
use dcalcon.Base.{
  ℕ, ◌<◌, Bool, true, false, Option, none, some, List, map, Text, ◌≡◌, arith, select, ◌==◌, ==_iff,
  is_some, Bool-cases, inl, inr,
}
use dcalcon.Storage.{calendar, ObjectData, CalendarRow, Db}
use dcalcon.Storage.Changes.{record_change}
use dcalcon.Storage.Objects.{
  href_of, under_prefix, remove_object, write_object, remove_prefix, record_deleted,
}
use dcalcon.Storage.Objects.Keeps.{Deletes, Kept, Kept-upsert}
use dcalcon.Storage.Objects.Tracking.{
  etag_at, mark, mark-record_change, etag_at-remove_object, etag_at-write_object,
  etag_at-record_change, etag_at-prefix, hrefs-prefix, etag_at-record_deleted, mark-remove_object,
  mark-write_object, mark-remove_prefix, mark-record_deleted, next_change-remove_object,
  next_change-write_object, next_change-remove_prefix, next_change-record_change,
  le-next_change-record_deleted,
}

-- What the last change of an href says of the object now there, given what was there before.
abbrev pub Agrees : Option Bool → Option Text → Option Text → Type 0
Agrees none before now = now ≡ before
Agrees (some true) before now = now ≡ none
Agrees (some false) before now = is_some now ≡ true

-- The log after `since` explains how the objects of a calendar came from `before`.
pub record Tracks (calendar_id since : ℕ) (before : Text → Option Text) (db : Db) : Type 0 where
  pub newer : since < db.next_change
  pub agrees :
      (h : Text) → Agrees (mark db calendar_id since h) (before h) (etag_at db calendar_id h)

module _ {calendar_id since : ℕ} {before : Text → Option Text} where
  Tracks-calendars :
      (rows : List CalendarRow) (next : ℕ) (db : Db)
      → Tracks calendar_id since before db
      → Tracks calendar_id since before (record db { calendars = rows; next_calendar = next })
  unfolding mark etag_at
  Tracks-calendars rows next db t = record { newer = t.newer; agrees = t.agrees }

  Tracks-remove :
      (id : ℕ) (href : Text) (db : Db)
      → Tracks calendar_id since before db
      → Tracks calendar_id since before
          (record_change calendar id href true (remove_object id href db))
  Tracks-remove id href db t =
      let removed = remove_object id href db in
      record {
        newer = unfold record_change remove_object in omega (arith, t.newer);
        agrees = λ h. ground (
          arith,
          t.agrees h,
          t.newer,
          next_change-remove_object id href db,
          mark-remove_object calendar_id since h id href db,
          mark-record_change removed calendar id href true calendar_id since h,
          etag_at-record_change calendar_id h calendar id href true removed,
          etag_at-remove_object calendar_id h id href db,
        );
      }

  Tracks-write :
      (id : ℕ) (o : ObjectData) (now : Text) (db : Db)
      → Tracks calendar_id since before db
      → Tracks calendar_id since before
          (record_change calendar id o.href false (write_object id o now db))
  Tracks-write id o now db t =
      let written = write_object id o now db in
      record {
        newer = omega (
          arith,
          t.newer,
          next_change-write_object id o now db,
          next_change-record_change calendar id o.href false written,
        );
        agrees = λ h. ground (
          arith,
          t.agrees h,
          t.newer,
          next_change-write_object id o now db,
          mark-write_object calendar_id since h id o now db,
          mark-record_change written calendar id o.href false calendar_id since h,
          etag_at-record_change calendar_id h calendar id o.href false written,
          etag_at-write_object calendar_id h id o now db,
        );
      }

  Tracks-prefix :
      (id : ℕ) (prefix : Text) (db : Db)
      → Tracks calendar_id since before db
      → Tracks calendar_id since before (
          record_deleted id
            (map href_of (select (under_prefix id prefix) db.objects))
            (remove_prefix id prefix db))
  Tracks-prefix id prefix db t =
      let removed = remove_prefix id prefix db in
      let hrefs = map href_of (select (under_prefix id prefix) db.objects) in
      record {
        newer = omega (
          arith,
          t.newer,
          next_change-remove_prefix id prefix db,
          le-next_change-record_deleted id hrefs removed,
        );
        agrees = λ h. elim (Bool-cases (id == calendar_id)) [
          | inl here ↦
              let e : id ≡ calendar_id = (==_iff id calendar_id).0 here in
              ground (
                arith,
                t.agrees h,
                t.newer,
                next_change-remove_prefix id prefix db,
                mark-remove_prefix calendar_id since h id prefix db,
                mark-record_deleted calendar_id since h id hrefs removed,
                etag_at-record_deleted calendar_id h id hrefs removed,
                etag_at-prefix calendar_id h id prefix db,
                hrefs-prefix calendar_id h prefix db,
              )
          | inr elsewhere ↦ ground (
            arith,
            t.agrees h,
            t.newer,
            next_change-remove_prefix id prefix db,
            mark-remove_prefix calendar_id since h id prefix db,
            mark-record_deleted calendar_id since h id hrefs removed,
            etag_at-record_deleted calendar_id h id hrefs removed,
            etag_at-prefix calendar_id h id prefix db,
          )
        ];
      }

  Tracks-Deletes : Deletes (Tracks calendar_id since before)
  Tracks-Deletes = record {
    calendars = Tracks-calendars;
    removes = Tracks-remove;
    clears = Tracks-prefix;
  }

  pub Tracks-Kept : Kept (Tracks calendar_id since before)
  Tracks-Kept = record {
    deletes = Tracks-Deletes;
    upserts = Kept-upsert Tracks-Deletes Tracks-write;
  }
