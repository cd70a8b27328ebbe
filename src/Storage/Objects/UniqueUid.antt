-- ===== src/Storage/Objects/UniqueUid.antt =====
-- The objects with a UID in a calendar, which UpsertCalendarObject looks up: no key of the table.
use dcalcon.Base.{
  ℕ, ◌+◌, ◌≤◌, Bool, true, false, not, ◌&&◌, none, some, List, [], ◌∷◌, ◌++◌, Text, ◌≡◌, refl, ap,
  ◌∙◌, arith, same, same_iff, same_refl, find_first, any, count, select, update_where, ◌==◌,
  if◌then◌else◌, Bool-cases, Option-cases, inl, inr, find_first_sound, count-select-le,
}
use dcalcon.Storage.{CalendarObject, ObjectData, CalendarRow, Db}
use dcalcon.Storage.Changes.{record_change}
use dcalcon.Storage.Calendars.{bump_calendar}
use dcalcon.Storage.Objects.{
  at_href, at_uid, under_prefix, remove_object, write_object, remove_prefix, record_deleted,
  drop_moved, delete_calendar_object, upsert_calendar_object,
}
use dcalcon.Storage.Objects.Keeps.{Deletes, Kept, Kept-bump, Kept-drop_moved}
use dcalcon.Storage.Objects.Unique.{HrefUnique, HrefUnique-Kept, HrefUnique-stored}

-- A UID that is not empty stands at most once in a calendar, and so does an href.
pub record UidUnique (db : Db) : Type 0 where
  pub once : (id : ℕ) (u : Text) → same u [] ≡ false → count (at_uid id u) db.objects ≤ 1
  pub hrefs : HrefUnique db

-- The objects that have a UID under another href.
abbrev elsewhere : ℕ → Text → Text → CalendarObject → Bool
elsewhere id u href o = at_uid id u o && not (same o.href href)

count_gone :
    (p q : CalendarObject → Bool) (rows : List CalendarObject) (x : CalendarObject)
    → count p rows ≤ 1
    → find_first p rows ≡ some x
    → q x ≡ true
    → count p (select (λ o. not (q o)) rows) ≡ 0
unfolding count find_first select
count_gone p q [] x once found qx = cc
count_gone p q (o ∷ rows) x once found qx =
    ground (arith, count_gone p q rows x, count-select-le p (λ o. not (q o)) rows)

count_and :
    (p q : CalendarObject → Bool) (rows : List CalendarObject)
    → count (λ o. p o && q o) rows ≤ count p rows
unfolding count
count_and p q [] = omega arith
count_and p q (o ∷ rows) = ground (arith, count_and p q rows)

count_only :
    (p q : CalendarObject → Bool) (rows : List CalendarObject) (x : CalendarObject)
    → count p rows ≤ 1
    → find_first p rows ≡ some x
    → q x ≡ false
    → count (λ o. p o && q o) rows ≡ 0
unfolding count find_first
count_only p q [] x once found qx = refl
count_only p q (o ∷ rows) x once found qx =
    ground (arith, count_only p q rows x, count_and p q rows)

count-none :
    (p : CalendarObject → Bool) (rows : List CalendarObject)
    → find_first p rows ≡ none
    → count p rows ≡ 0
unfolding count find_first
count-none p [] e = refl
count-none p (o ∷ rows) e = ground (arith, count-none p rows)

count_update :
    (id k : ℕ) (u : Text) (new : ObjectData) (now : Text) (rows : List CalendarObject)
    → count (at_uid k u) (
        update_where
          (at_href id new.href)
          (λ (old : CalendarObject). record old { fields = new; updated_at = now })
          rows)
      ≤ (if k == id && same new.uid u
          then count (elsewhere id u new.href) rows + count (at_href id new.href) rows
          else count (at_uid k u) rows)
unfolding count update_where
count_update id k u new now [] = ground arith
count_update id k u new now (o ∷ rows) = ground (arith, count_update id k u new now rows)

count_append :
    (p : CalendarObject → Bool) (rows : List CalendarObject) (o : CalendarObject)
    → count p (rows ++ o ∷ []) ≡ count p rows + (if p o then 1 else 0)
unfolding count
count_append p [] o = ground arith
count_append p (x ∷ rows) o = ground (arith, count_append p rows o)

-- Where no object stands at an href, all that have the UID are elsewhere.
count-elsewhere :
    (id : ℕ) (u href : Text) (rows : List CalendarObject)
    → any (at_href id href) rows ≡ false
    → count (at_uid id u) rows ≡ count (elsewhere id u href) rows
unfolding any count
count-elsewhere id u href [] e = refl
count-elsewhere id u href (o ∷ rows) e = ground (arith, count-elsewhere id u href rows)

any_found :
    (p q : CalendarObject → Bool) (rows : List CalendarObject) (x : CalendarObject)
    → find_first p rows ≡ some x
    → q x ≡ true
    → any q rows ≡ true
unfolding any find_first
any_found p q [] x e h = cc
any_found p q (o ∷ rows) x e h = ground (arith, any_found p q rows x)

pub delete-objects :
    (id : ℕ) (href now : Text) (db : Db)
    → any (at_href id href) db.objects ≡ true
    → (delete_calendar_object id href now db).1.objects
      ≡ select (λ (o : CalendarObject). not (at_href id href o)) db.objects
unfolding delete_calendar_object remove_object record_change bump_calendar
delete-objects id href now db there = rw there

-- What drop_moved leaves: all objects, or all but the one found under another href.
pub drop_moved-none :
    (id : ℕ) (o : ObjectData) (now : Text) (db : Db)
    → find_first (at_uid id o.uid) db.objects ≡ none
    → drop_moved id o now db ≡ db
unfolding drop_moved
drop_moved-none id o now db absent = rw (absent, drop_moved) (ground arith)

pub drop_moved_itself :
    (id : ℕ) (o : ObjectData) (now : Text) (db : Db) (other : CalendarObject)
    → find_first (at_uid id o.uid) db.objects ≡ some other
    → same other.href o.href ≡ true
    → drop_moved id o now db ≡ db
unfolding drop_moved
drop_moved_itself id o now db other found h = rw (found, drop_moved) (ground arith)

pub drop_moved_step :
    (id : ℕ) (o : ObjectData) (now : Text) (db : Db) (other : CalendarObject)
    → same o.uid [] ≡ false
    → find_first (at_uid id o.uid) db.objects ≡ some other
    → same other.href o.href ≡ false
    → drop_moved id o now db ≡ (delete_calendar_object id other.href now db).1
unfolding drop_moved
drop_moved_step id o now db other named found h = rw (found, drop_moved) (rw (named, h))

pub drop_moved_other :
    (id : ℕ) (o : ObjectData) (now : Text) (db : Db) (other : CalendarObject)
    → same o.uid [] ≡ false
    → find_first (at_uid id o.uid) db.objects ≡ some other
    → same other.href o.href ≡ false
    → (drop_moved id o now db).objects
      ≡ select (λ (x : CalendarObject). not (at_href id other.href x)) db.objects
drop_moved_other id o now db other named found h =
    let at : at_uid id o.uid other ≡ true =
      find_first_sound (at_uid id o.uid) db.objects other found in
    let there : any (at_href id other.href) db.objects ≡ true =
      any_found _ (at_href id other.href) db.objects other found
        (ground (arith, same_refl other.href)) in
    ap (λ (d : Db). d.objects) (drop_moved_step id o now db other named found h)
    ∙ delete-objects id other.href now db there

-- After drop_moved the UID stands nowhere else.
drop_moved-alone :
    (id : ℕ) (o : ObjectData) (now : Text) (db : Db)
    → same o.uid [] ≡ false
    → UidUnique db
    → count (elsewhere id o.uid o.href) (drop_moved id o now db).objects ≡ 0
drop_moved-alone id o now db named u =
    elim (Option-cases (find_first (at_uid id o.uid) db.objects)) [
      | inl absent ↦ rw (drop_moved-none id o now db absent) (
          omega (
            arith,
            count-none (at_uid id o.uid) db.objects absent,
            count_and (at_uid id o.uid) (λ x. not (same x.href o.href)) db.objects,
          ))
      | inr (other, found) ↦ elim (Bool-cases (same other.href o.href)) [
        | inl itself ↦ rw (drop_moved_itself id o now db other found itself) (
            count_only (at_uid id o.uid) (λ x. not (same x.href o.href)) db.objects other
              (u.once id o.uid named) found (rw itself))
        | inr moved ↦
            let at : at_uid id o.uid other ≡ true =
              find_first_sound (at_uid id o.uid) db.objects other found in
            rw (drop_moved_other id o now db other named found moved) (
              omega (
                arith,
                count_gone (at_uid id o.uid) (at_href id other.href) db.objects other
                    (u.once id o.uid named) found (ground (arith, same_refl other.href)),
                count_and (at_uid id o.uid) (λ x. not (same x.href o.href))
                    (select (λ (x : CalendarObject). not (at_href id other.href x)) db.objects),
              ))
      ]
    ]

count-select_uid-le :
    (k : ℕ) (u : Text) (q : CalendarObject → Bool) (rows : List CalendarObject)
    → count (at_uid k u) rows ≤ 1
    → count (at_uid k u) (select q rows) ≤ 1
count-select_uid-le k u q rows h = omega (arith, h, count-select-le (at_uid k u) q rows)

UidUnique-log_deleted :
    (id : ℕ) (hrefs : List Text) (db : Db) → UidUnique db → UidUnique (record_deleted id hrefs db)
unfolding record_deleted record_change
UidUnique-log_deleted id [] db u = u
UidUnique-log_deleted id (h ∷ hrefs) db u =
    UidUnique-log_deleted id hrefs _
      (record { once = u.once; hrefs = record { once = u.hrefs.once } })

UidUnique-Deletes : Deletes UidUnique
unfolding record_change remove_object remove_prefix
UidUnique-Deletes = record {
  calendars = λ rows next db u. record {
    once = u.once;
    hrefs = HrefUnique-Kept.deletes.calendars rows next db u.hrefs;
  };
  removes = λ id href db u. record {
    once = λ k x named. count-select_uid-le k x _ db.objects (u.once k x named);
    hrefs = HrefUnique-Kept.deletes.removes id href db u.hrefs;
  };
  clears = λ id prefix db u. UidUnique-log_deleted id _ (remove_prefix id prefix db) (record {
    once = λ k x named. count-select_uid-le k x _ db.objects (u.once k x named);
    hrefs = record {
      once = λ k h. omega (
        arith,
        u.hrefs.once k h,
        count-select-le (at_href k h) (λ (o : CalendarObject). not (under_prefix id prefix o))
            db.objects,
      );
    };
  });
}

-- A write keeps the UID unique if it stands nowhere else.
count-write_object :
    (id : ℕ) (o : ObjectData) (now : Text) (db : Db) (k : ℕ) (u : Text)
    → same u [] ≡ false
    → UidUnique db
    → (same o.uid [] ≡ false → count (elsewhere id o.uid o.href) db.objects ≡ 0)
    → count (at_uid k u) (write_object id o now db).objects ≤ 1
unfolding write_object
count-write_object id o now db k u named q alone =
    elim (Bool-cases (any (at_href id o.href) db.objects)) [
      | inl there ↦ rw there (
          ground (
            arith,
            count_update id k u o now db.objects,
            q.once k u named,
            q.hrefs.once id o.href,
            alone,
            same_iff o.uid u,
          ))
      | inr absent ↦ rw absent (
          ground (
            arith,
            count_append (at_uid k u) db.objects
                (record { id = db.next_object; calendar_id = id; fields = o; updated_at = now }),
            q.once k u named,
            alone,
            same_iff o.uid u,
            count-elsewhere id o.uid o.href db.objects,
          ))
    ]

UidUnique-upsert :
    (id : ℕ) (o : ObjectData) (now : Text) (db : Db)
    → UidUnique db
    → UidUnique (upsert_calendar_object id o now db).1
unfolding upsert_calendar_object
UidUnique-upsert id o now db u =
    let moved = drop_moved id o now db in
    let m = Kept-drop_moved UidUnique-Deletes id o now db u in
    elim (Bool-cases (any (λ (c : CalendarRow). c.id == id) moved.calendars)) [
      | inl known ↦ rw known (
          unfold record_change bump_calendar in
          record {
            once = λ k x named.
                count-write_object id o now moved k x named m
                  (λ has. drop_moved-alone id o now db has u);
            hrefs =
                Kept-bump HrefUnique-Kept.deletes id now _
                  (HrefUnique-stored id o now moved m.hrefs);
          })
      | inr unknown ↦ rw unknown m
    ]

-- All writes keep UIDs unique within a calendar.
pub UidUnique-Kept : Kept UidUnique
UidUnique-Kept = record { deletes = UidUnique-Deletes; upserts = UidUnique-upsert }
