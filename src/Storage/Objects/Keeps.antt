-- ===== src/Storage/Objects/Keeps.antt =====
-- Invariants of the database, carried from the statements of the writes to the methods made of them.
use dcalcon.Base.{
  ℕ, Bool, true, false, not, Option, some, List, [], ◌∷◌, map, Text, same, find_first, any, select,
  is_some, ◌==◌, Bool-cases, Option-cases, inl, inr,
}
use dcalcon.Storage.{
  Kind, calendar, Result, Result-cases, Error, not_found, Calendar, CalendarRow, ObjectData, User,
  Db,
}
use dcalcon.Storage.Changes.{record_change}
use dcalcon.Storage.Calendars.{
  parse_share_slug, owns_slug, bump_calendar, write_calendar_meta, create_calendar, ensure_calendar,
  if_missing, calendar_by_slug, calendar_by_id_only, patch_calendar, patch_calendar_meta,
}
use dcalcon.Storage.Objects.{
  at_href, at_uid, href_of, under_prefix, remove_object, write_object, remove_prefix, drop_moved,
  delete_calendar_object, upsert_calendar_object, record_deleted, delete_calendar_objects_by_prefix,
  delete_each, delete_objects_by_uid,
}

-- What an invariant needs of the statements: writes of table calendars, a logged DELETE of one
-- object, and a logged DELETE by prefix.
pub record Deletes (P : Db → Type 0) : Type 0 where
  pub calendars :
      (rows : List CalendarRow) (next : ℕ) (db : Db)
      → P db
      → P (record db { calendars = rows; next_calendar = next })
  pub removes :
      (id : ℕ) (href : Text) (db : Db)
      → P db
      → P (record_change calendar id href true (remove_object id href db))
  pub clears :
      (id : ℕ) (prefix : Text) (db : Db)
      → P db
      → P (
          record_deleted id
            (map href_of (select (under_prefix id prefix) db.objects))
            (remove_prefix id prefix db))

-- All writes keep the invariant.
pub record Kept (P : Db → Type 0) : Type 0 where
  pub deletes : Deletes P
  pub upserts :
      (id : ℕ) (o : ObjectData) (now : Text) (db : Db)
      → P db
      → P (upsert_calendar_object id o now db).1

-- drop_moved does nothing or deletes one object.
pub drop_moved_cases :
    (P : Db → Type 0) (id : ℕ) (o : ObjectData) (now : Text) (db : Db)
    → P db
    → ((href : Text) → P (delete_calendar_object id href now db).1)
    → P (drop_moved id o now db)
unfolding drop_moved
drop_moved_cases P id o now db p q = elim (Bool-cases (same o.uid [])) [
  | inl no_uid ↦ rw no_uid p
  | inr uid ↦ rw uid (elim (Option-cases (find_first (at_uid id o.uid) db.objects)) [
    | inl alone ↦ rw alone p
    | inr (other, found) ↦ rw found (elim (Bool-cases (same other.href o.href)) [
      | inl itself ↦ rw itself p
      | inr moved ↦ rw moved (q other.href)
    ])
  ])
]

module _ {P : Db → Type 0} (k : Deletes P) where
  pub Kept-bump : (id : ℕ) (now : Text) (db : Db) → P db → P (bump_calendar id now db)
  unfolding bump_calendar
  Kept-bump id now db p = k.calendars _ db.next_calendar db p

  Kept-meta :
      (id : ℕ) (name description color now : Text) (db : Db)
      → P db
      → P (write_calendar_meta id name description color now db)
  unfolding write_calendar_meta
  Kept-meta id name description color now db p = k.calendars _ db.next_calendar db p

  pub Kept-delete :
      (id : ℕ) (href now : Text) (db : Db) → P db → P (delete_calendar_object id href now db).1
  unfolding delete_calendar_object
  Kept-delete id href now db p = elim (Bool-cases (any (at_href id href) db.objects)) [
    | inl there ↦ rw there (Kept-bump id now _ (k.removes id href db p))
    | inr absent ↦ rw absent p
  ]

  pub Kept-drop_moved :
      (id : ℕ) (o : ObjectData) (now : Text) (db : Db) → P db → P (drop_moved id o now db)
  Kept-drop_moved id o now db p =
      drop_moved_cases P id o now db p (λ href. Kept-delete id href now db p)

  pub Kept-delete_prefix :
      (id : ℕ) (prefix now : Text) (db : Db)
      → P db
      → P (delete_calendar_objects_by_prefix id prefix now db)
  unfolding delete_calendar_objects_by_prefix
  Kept-delete_prefix id prefix now db p =
      elim (Bool-cases (any (under_prefix id prefix) db.objects)) [
        | inl there ↦ rw there (Kept-bump id now _ (k.clears id prefix db p))
        | inr absent ↦ rw absent p
      ]

  Kept-delete_each :
      (id : ℕ) (hrefs : List Text) (now : Text) (db : Db) → P db → P (delete_each id hrefs now db)
  unfolding delete_each
  Kept-delete_each id [] now db p = p
  Kept-delete_each id (h ∷ hrefs) now db p =
      Kept-delete_each id hrefs now _ (Kept-delete id h now db p)

  pub Kept-delete_uid :
      (id : ℕ) (uid now : Text) (db : Db) → P db → P (delete_objects_by_uid id uid now db)
  unfolding delete_objects_by_uid
  Kept-delete_uid id uid now db p = Kept-delete_each id _ now db p

  pub Kept-create :
      (user : ℕ) (slug name description color : Text) (kind : Option Kind) (ro : Bool) (now : Text)
      (db : Db)
      → P db
      → P (create_calendar user slug name description color kind ro now db).1
  unfolding create_calendar
  Kept-create user slug name description color kind ro now db p =
      elim (Bool-cases (is_some (parse_share_slug slug))) [
        | inl reserved ↦ rw reserved p
        | inr free ↦ rw free (elim (Bool-cases (any (owns_slug user slug) db.calendars)) [
          | inl taken ↦ rw taken p
          | inr new ↦ rw new (elim (Bool-cases (not (any (λ (u : User). u.id == user) db.users))) [
            | inl nobody ↦ rw nobody p
            | inr known ↦ rw known (k.calendars _ _ db p)
          ])
        ])
      ]

  Kept-if_missing :
      (e : Error) (db : Db) (attempt : Result Calendar × Db)
      → P db
      → P attempt.1
      → P (if_missing e db attempt).1
  Kept-if_missing not_found db attempt p q = q
  Kept-if_missing _ db attempt p q = p

  pub Kept-ensure :
      (user : ℕ) (slug name : Text) (kind : Kind) (ro : Bool) (now : Text) (db : Db)
      → P db
      → P (ensure_calendar user slug name kind ro now db).1
  unfolding ensure_calendar
  Kept-ensure user slug name kind ro now db p =
      elim (Result-cases (calendar_by_slug db user slug)) [
        | inl (e, missing) ↦
            rw (missing, ensure_calendar)
              (Kept-if_missing e db _ p (Kept-create user slug name [] _ (some kind) ro now db p))
        | inr (c, found) ↦ rw (found, ensure_calendar) p
      ]

  pub Kept-patch :
      (user : ℕ) (slug : Text) (name description color : Option Text) (now : Text) (db : Db)
      → P db
      → P (patch_calendar user slug name description color now db).1
  unfolding patch_calendar
  Kept-patch user slug name description color now db p =
      elim (Result-cases (calendar_by_slug db user slug)) [
        | inl (e, missing) ↦ rw (missing, patch_calendar) p
        | inr (c, found) ↦ rw (found, patch_calendar) (Kept-meta c.id _ _ _ now db p)
      ]

  pub Kept-patch_meta :
      (id : ℕ) (name description color now : Text) (db : Db)
      → P db
      → P (patch_calendar_meta id name description color now db).1
  unfolding patch_calendar_meta
  Kept-patch_meta id name description color now db p =
      elim (Result-cases (calendar_by_id_only db id)) [
        | inl (e, missing) ↦ rw (missing, patch_calendar_meta) p
        | inr (c, found) ↦ rw (found, patch_calendar_meta) (Kept-meta c.id _ _ _ now db p)
      ]

  -- A logged upsert of one row that keeps the invariant is enough for UpsertCalendarObject.
  pub Kept-upsert :
      ((id : ℕ) (o : ObjectData) (now : Text) (db : Db)
        → P db
        → P (record_change calendar id o.href false (write_object id o now db)))
      → (id : ℕ) (o : ObjectData) (now : Text) (db : Db) → P db
      → P (upsert_calendar_object id o now db).1
  unfolding upsert_calendar_object
  Kept-upsert writes id o now db p =
      let moved = drop_moved id o now db in
      let m = Kept-drop_moved id o now db p in
      elim (Bool-cases (any (λ (c : CalendarRow). c.id == id) moved.calendars)) [
        | inl known ↦ rw known (Kept-bump id now _ (writes id o now moved m))
        | inr unknown ↦ rw unknown m
      ]
