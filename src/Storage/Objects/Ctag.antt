-- ===== src/Storage/Objects/Ctag.antt =====
-- The ctag and the stored sync token of a calendar under the writes of src/svc/internal/storage/dav.go.
use dcalcon.Base.{
  ℕ, ◌+◌, ◌<◌, Bool, true, false, Option, none, some, Text, ◌≡◌, refl, arith, find_first, any,
  opt_map, find_first-update_where, find_first_sound, ◌≢◌, ◌∙◌, ◌==◌, if◌then◌else◌, Bool-cases,
  inl, inr, List, [], ◌∷◌, sym,
}
use dcalcon.Decimal.{format_int}
use dcalcon.Storage.{calendar, ObjectData, CalendarRow, Db, ok, err, not_found}
use dcalcon.Storage.Changes.{record_change}
use dcalcon.Storage.Calendars.{bump_calendar}
use dcalcon.Storage.Objects.{at_href, remove_object, write_object, delete_calendar_object}

-- The row of a calendar.
unfoldable pub row_of : Db → ℕ → Option CalendarRow
row_of db k = find_first (λ (c : CalendarRow). c.id == k) db.calendars

abbrev pub ctag_of : Option CalendarRow → ℕ
ctag_of none = 0
ctag_of (some c) = c.ctag

abbrev pub token_of : Option CalendarRow → Text
token_of none = []
token_of (some c) = c.sync_token

pub row_of-bump_calendar :
    (id : ℕ) (now : Text) (db : Db) (k : ℕ)
    → row_of (bump_calendar id now db) k
      ≡ opt_map
          (λ (c : CalendarRow).
            if c.id == id
            then record c {
              ctag = c.ctag + 1;
              sync_token = format_int (c.ctag + 1);
              updated_at = now;
            }
            else c)
          (row_of db k)
unfolding row_of bump_calendar
row_of-bump_calendar id now db k =
    find_first-update_where (λ (c : CalendarRow). c.id == k) _ _ db.calendars (λ c. refl)

row_of-id : (db : Db) (k : ℕ) (c : CalendarRow) → row_of db k ≡ some c → (c.id == k) ≡ true
unfolding row_of
row_of-id db k c e = find_first_sound (λ (r : CalendarRow). r.id == k) db.calendars c e

any-row_of :
    (rows : List CalendarRow) (k : ℕ) (c : CalendarRow)
    → find_first (λ (r : CalendarRow). r.id == k) rows ≡ some c
    → any (λ (r : CalendarRow). r.id == k) rows ≡ true
unfolding find_first any
any-row_of [] k c e = cc
any-row_of (r ∷ rows) k c e = ground (arith, any-row_of rows k c)

-- From `old` to `new` the ctag of a calendar has risen and is what its sync token prints, and the
-- rows of the other calendars are the same.
pub record Bumped (id : ℕ) (old new : Db) : Type 0 where
  pub risen : ctag_of (row_of old id) < ctag_of (row_of new id)
  pub printed : token_of (row_of new id) ≡ format_int (ctag_of (row_of new id))
  pub others : (k : ℕ) → k ≢ id → row_of new k ≡ row_of old k

Bumped-bump_calendar :
    (id : ℕ) (now : Text) (db : Db) (c : CalendarRow)
    → row_of db id ≡ some c
    → Bumped id db (bump_calendar id now db)
Bumped-bump_calendar id now db c e =
    let here = row_of-id db id c e in
    record {
      risen = rw (row_of-bump_calendar id now db id, e) (rw here (omega arith));
      printed = rw (row_of-bump_calendar id now db id, e) (rw here);
      others = λ k ne. row_of-bump_calendar id now db k ∙ other k ne (row_of db k) (row_of-id db k);
    }
  where
    other :
        (k : ℕ)
        → k ≢ id
        → (r : Option CalendarRow) → ((b : CalendarRow) → r ≡ some b → (b.id == k) ≡ true)
        → opt_map
            (λ (b : CalendarRow).
              if b.id == id
              then record b {
                ctag = b.ctag + 1;
                sync_token = format_int (b.ctag + 1);
                updated_at = now;
              }
              else b)
            r
          ≡ r
    other k ne none h = refl
    other k ne (some b) h = ground (arith, h b refl)

row_of-write_object :
    (id : ℕ) (o : ObjectData) (now : Text) (db : Db) (k : ℕ)
    → row_of (write_object id o now db) k ≡ row_of db k
unfolding row_of write_object
row_of-write_object id o now db k = elim (Bool-cases (any (at_href id o.href) db.objects)) [
  | inl there ↦ rw there
  | inr absent ↦ rw absent
]

row_of-remove :
    (id : ℕ) (href : Text) (db : Db) (k : ℕ)
    → row_of (record_change calendar id href true (remove_object id href db)) k ≡ row_of db k
unfolding row_of record_change remove_object
row_of-remove id href db k = refl

row_of-record_change :
    (id : ℕ) (href : Text) (gone : Bool) (db : Db) (k : ℕ)
    → row_of (record_change calendar id href gone db) k ≡ row_of db k
unfolding row_of record_change
row_of-record_change id href gone db k = refl

-- A bump of tables that have the same calendars.
Bumped-same :
    (id : ℕ) (now : Text) (old db : Db) (c : CalendarRow)
    → ((k : ℕ) → row_of db k ≡ row_of old k)
    → row_of old id ≡ some c
    → Bumped id old (bump_calendar id now db)
Bumped-same id now old db c same_rows e =
    let b = Bumped-bump_calendar id now db c (same_rows id ∙ e) in
    record {
      risen = rw (sym (same_rows id)) b.risen;
      printed = b.printed;
      others = λ k ne. b.others k ne ∙ same_rows k;
    }

-- A deletion that succeeds, in a calendar that has a row, raises the calendar's ctag, leaves a sync
-- token that prints the new ctag, and leaves the rows of the other calendars as they were.
pub delete-Bumped :
    (id : ℕ) (href now : Text) (db : Db) (c : CalendarRow)
    → row_of db id ≡ some c
    → (delete_calendar_object id href now db).0 ≡ ok tt
    → Bumped id db (delete_calendar_object id href now db).1
unfolding delete_calendar_object
delete-Bumped id href now db c e done = elim (Bool-cases (any (at_href id href) db.objects)) [
  | inl there ↦ rw there (Bumped-same id now db _ c (row_of-remove id href db) e)
  | inr absent ↦ cc (absent-refused absent, done)
]
  where
    absent-refused :
        any (at_href id href) db.objects ≡ false
        → (delete_calendar_object id href now db).0 ≡ err not_found
    absent-refused a = rw a refl
