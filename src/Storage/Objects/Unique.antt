-- ===== src/Storage/Objects/Unique.antt =====
-- The objects at an href of a calendar: the key of table calendar_objects.
use dcalcon.Base.{
  ℕ, ◌+◌, ◌≤◌, Bool, true, false, not, List, [], ◌∷◌, ◌++◌, Text, ◌≡◌, refl, arith, same_iff, any,
  count, update_where, if◌then◌else◌, Bool-cases, inl, inr, count-select-le,
}
use dcalcon.Storage.{Collection, calendar, CalendarObject, ObjectData, Db}
use dcalcon.Storage.Changes.{record_change}
use dcalcon.Storage.Objects.{
  at_href, under_prefix, remove_object, write_object, remove_prefix, record_deleted,
}
use dcalcon.Storage.Objects.Keeps.{Deletes, Kept, Kept-upsert}

-- UNIQUE (calendar_id, href)
pub record HrefUnique (db : Db) : Type 0 where
  pub once : (id : ℕ) (h : Text) → count (at_href id h) db.objects ≤ 1

count-write :
    (id : ℕ) (h : Text) (k : ℕ) (new : ObjectData) (now : Text) (rows : List CalendarObject)
    → count (at_href id h) (
        update_where
          (at_href k new.href)
          (λ (old : CalendarObject). record old { fields = new; updated_at = now })
          rows)
      ≡ count (at_href id h) rows
unfolding count update_where
count-write id h k new now [] = refl
count-write id h k new now (o ∷ rows) = ground (
  arith,
  count-write id h k new now rows,
  same_iff o.href h,
  same_iff o.href new.href,
  same_iff new.href h,
)

count-append :
    (id : ℕ) (h : Text) (rows : List CalendarObject) (o : CalendarObject)
    → count (at_href id h) (rows ++ o ∷ [])
      ≡ count (at_href id h) rows + (if at_href id h o then 1 else 0)
unfolding count
count-append id h [] o = ground arith
count-append id h (x ∷ rows) o = ground (arith, count-append id h rows o)

count_absent :
    (id : ℕ) (h : Text) (rows : List CalendarObject)
    → any (at_href id h) rows ≡ false
    → count (at_href id h) rows ≡ 0
unfolding any count
count_absent id h [] e = refl
count_absent id h (o ∷ rows) e = ground (arith, count_absent id h rows)

HrefUnique-write :
    (id : ℕ) (o : ObjectData) (now : Text) (db : Db)
    → HrefUnique db
    → HrefUnique (write_object id o now db)
unfolding write_object
HrefUnique-write id o now db u = elim (Bool-cases (any (at_href id o.href) db.objects)) [
  | inl there ↦
      rw there (record { once = λ k h. rw (count-write k h id o now db.objects) (u.once k h) })
  | inr absent ↦ rw absent (record {
    once = λ k h. ground (
      arith,
      u.once k h,
      count-append k h db.objects
          (record { id = db.next_object; calendar_id = id; fields = o; updated_at = now }),
      count_absent id o.href db.objects,
      same_iff o.href h,
    );
  })
]

HrefUnique-log :
    (kind : Collection) (id : ℕ) (href : Text) (deleted : Bool) (db : Db)
    → HrefUnique db
    → HrefUnique (record_change kind id href deleted db)
unfolding record_change
HrefUnique-log kind id href deleted db u = record { once = u.once }

HrefUnique-log_deleted :
    (id : ℕ) (hrefs : List Text) (db : Db) → HrefUnique db → HrefUnique (record_deleted id hrefs db)
unfolding record_deleted
HrefUnique-log_deleted id [] db u = u
HrefUnique-log_deleted id (h ∷ hrefs) db u =
    HrefUnique-log_deleted id hrefs _ (HrefUnique-log calendar id h true db u)

HrefUnique-remove :
    (id : ℕ) (href : Text) (db : Db) → HrefUnique db → HrefUnique (remove_object id href db)
unfolding remove_object
HrefUnique-remove id href db u = record {
  once = λ k h. omega (
    arith,
    u.once k h,
    count-select-le (at_href k h) (λ (o : CalendarObject). not (at_href id href o)) db.objects,
  );
}

HrefUnique-clear :
    (id : ℕ) (prefix : Text) (db : Db) → HrefUnique db → HrefUnique (remove_prefix id prefix db)
unfolding remove_prefix
HrefUnique-clear id prefix db u = record {
  once = λ k h. omega (
    arith,
    u.once k h,
    count-select-le (at_href k h) (λ (o : CalendarObject). not (under_prefix id prefix o))
        db.objects,
  );
}

HrefUnique-Deletes : Deletes HrefUnique
HrefUnique-Deletes = record {
  calendars = λ rows next db u. record { once = u.once };
  removes = λ id href db u. HrefUnique-log calendar id href true _ (HrefUnique-remove id href db u);
  clears = λ id prefix db u. HrefUnique-log_deleted id _ _ (HrefUnique-clear id prefix db u);
}

pub HrefUnique-stored :
    (id : ℕ) (o : ObjectData) (now : Text) (db : Db)
    → HrefUnique db
    → HrefUnique (record_change calendar id o.href false (write_object id o now db))
HrefUnique-stored id o now db u =
    HrefUnique-log calendar id o.href false _ (HrefUnique-write id o now db u)

pub HrefUnique-Kept : Kept HrefUnique
HrefUnique-Kept = record {
  deletes = HrefUnique-Deletes;
  upserts = Kept-upsert HrefUnique-Deletes HrefUnique-stored;
}
