-- ===== src/Storage/Objects/Writes.antt =====
-- Sequences of the writes that the program makes to calendars and their objects, but DeleteCalendar,
-- which Invariants adds: it takes objects away without a change in the log.
use dcalcon.Base.{ℕ, Bool, Option, List, [], ◌∷◌, Text}
use dcalcon.Storage.{Kind, ObjectData, Db}
use dcalcon.Storage.Calendars.{
  create_calendar, ensure_calendar, patch_calendar, patch_calendar_meta,
}
use dcalcon.Storage.Objects.{
  delete_calendar_object, upsert_calendar_object, delete_calendar_objects_by_prefix,
  delete_objects_by_uid,
}
use dcalcon.Storage.Objects.Keeps.{
  Kept, Kept-delete, Kept-delete_prefix, Kept-delete_uid, Kept-create, Kept-ensure, Kept-patch,
  Kept-patch_meta,
}

-- A call of one of the methods, with its arguments.
pub data Write : Type 0 where
  upsert : ℕ → ObjectData → Text → Write
  delete : ℕ → Text → Text → Write
  delete_prefix : ℕ → Text → Text → Write
  delete_uid : ℕ → Text → Text → Write
  create : ℕ → Text → Text → Text → Text → Option Kind → Bool → Text → Write
  ensure : ℕ → Text → Text → Kind → Bool → Text → Write
  patch : ℕ → Text → Option Text → Option Text → Option Text → Text → Write
  patch_meta : ℕ → Text → Text → Text → Text → Write

-- The database after the call, whether it returned an error or not.
unfoldable pub run_write : Write → Db → Db
run_write (upsert id o now) db = (upsert_calendar_object id o now db).1
run_write (delete id href now) db = (delete_calendar_object id href now db).1
run_write (delete_prefix id prefix now) db = delete_calendar_objects_by_prefix id prefix now db
run_write (delete_uid id uid now) db = delete_objects_by_uid id uid now db
run_write (create user slug name description color kind ro now) db =
    (create_calendar user slug name description color kind ro now db).1
run_write (ensure user slug name kind ro now) db = (ensure_calendar user slug name kind ro now db).1
run_write (patch user slug name description color now) db =
    (patch_calendar user slug name description color now db).1
run_write (patch_meta id name description color now) db =
    (patch_calendar_meta id name description color now db).1

unfoldable pub run_writes : List Write → Db → Db
unfolding run_write
run_writes [] db = db
run_writes (w ∷ ws) db = run_writes ws (run_write w db)

module _ {P : Db → Type 0} (k : Kept P) where
  Kept-run_write : (w : Write) (db : Db) → P db → P (run_write w db)
  unfolding run_write
  Kept-run_write (upsert id o now) db p = k.upserts id o now db p
  Kept-run_write (delete id href now) db p = Kept-delete k.deletes id href now db p
  Kept-run_write (delete_prefix id prefix now) db p =
      Kept-delete_prefix k.deletes id prefix now db p
  Kept-run_write (delete_uid id uid now) db p = Kept-delete_uid k.deletes id uid now db p
  Kept-run_write (create user slug name description color kind ro now) db p =
      Kept-create k.deletes user slug name description color kind ro now db p
  Kept-run_write (ensure user slug name kind ro now) db p =
      Kept-ensure k.deletes user slug name kind ro now db p
  Kept-run_write (patch user slug name description color now) db p =
      Kept-patch k.deletes user slug name description color now db p
  Kept-run_write (patch_meta id name description color now) db p =
      Kept-patch_meta k.deletes id name description color now db p

  pub Kept-run_writes : (ws : List Write) (db : Db) → P db → P (run_writes ws db)
  unfolding run_writes
  Kept-run_writes [] db p = p
  Kept-run_writes (w ∷ ws) db p = Kept-run_writes ws (run_write w db) (Kept-run_write w db p)
