-- ===== src/Storage/Objects/Tracking.antt =====
-- The etag at an href of a calendar, and the last change of the href from a point of the log on,
-- under each statement of src/svc/internal/storage/dav.go.
use dcalcon.Base.{
  ℕ, ◌+◌, ◌<◌, ◌≤◌, Bool, true, false, not, ◌&&◌, Option, none, some, List, [], ◌∷◌, ◌++◌, map,
  Text, ◌≡◌, refl, ◌∙◌, arith, same, same_iff, find_first, any, select, update_where, ◌==◌,
  if◌then◌else◌, append-nil, is_some, opt_map, select-append, Bool-cases, inl, inr,
}
use dcalcon.Storage.{Collection, calendar, Change, CalendarObject, ObjectData, Db}
use dcalcon.Storage.Changes.{same_collection, is_since, record_change}
use dcalcon.Storage.Changes.Since.{last_of}
use dcalcon.Storage.Calendars.{bump_calendar}
use dcalcon.Storage.Objects.{
  at_href, href_of, under_prefix, remove_object, write_object, remove_prefix, record_deleted,
}
use dcalcon.Storage.Objects.Sql.{like_prefix}

-- The etag of the object at an href, or none.
unfoldable pub etag_at : Db → ℕ → Text → Option Text
etag_at db calendar_id h =
    opt_map (λ (o : CalendarObject). o.etag) (find_first (at_href calendar_id h) db.objects)

-- Whether the last change of an href after a point of the log deletes it.
unfoldable pub mark : Db → ℕ → ℕ → Text → Option Bool
mark db calendar_id since h =
    opt_map (λ (c : Change). c.deleted)
      (last_of h (select (is_since calendar calendar_id since) db.changes) none)

last_of-append :
    (h : Text) (rows : List Change) (c : Change) (known : Option Change)
    → last_of h (rows ++ c ∷ []) known ≡ (if same c.href h then some c else last_of h rows known)
unfolding last_of
last_of-append h [] c known = refl
last_of-append h (b ∷ rows) c known = last_of-append h rows c _

last_of-select :
    (p : Change → Bool) (h : Text) (rows : List Change) (c : Change)
    → last_of h (select p (rows ++ c ∷ [])) none
      ≡ (if p c && same c.href h then some c else last_of h (select p rows) none)
last_of-select p h rows c = rw (select-append p rows (c ∷ [])) (
    unfold select in
    ground (arith, last_of-append h (select p rows) c none, append-nil (select p rows)))

pub mark-record_change :
    (db : Db) (kind : Collection) (id : ℕ) (href : Text) (deleted : Bool) (calendar_id since : ℕ)
    (h : Text)
    → since < db.next_change
    → mark (record_change kind id href deleted db) calendar_id since h ≡ (
        if same_collection kind calendar && id == calendar_id && same href h
        then some deleted
        else mark db calendar_id since h)
unfolding mark record_change
mark-record_change db kind id href deleted calendar_id since h newer =
    let c : Change = record {
      id = db.next_change;
      kind = kind;
      collection_id = id;
      href = href;
      deleted = deleted;
    } in
    rw (last_of-select (is_since calendar calendar_id since) h db.changes c) (ground arith)

module _ (calendar_id : ℕ) (h : Text) where
  abbrev etag_in : List CalendarObject → Option Text
  etag_in rows = opt_map (λ (o : CalendarObject). o.etag) (find_first (at_href calendar_id h) rows)

  etag_in-remove :
      (id : ℕ) (href : Text) (rows : List CalendarObject)
      → etag_in (select (λ (o : CalendarObject). not (at_href id href o)) rows)
        ≡ (if id == calendar_id && same href h then none else etag_in rows)
  unfolding select find_first
  etag_in-remove id href [] = ground arith
  etag_in-remove id href (o ∷ rows) =
      ground (
        arith,
        etag_in-remove id href rows,
        same_iff o.href h,
        same_iff o.href href,
        same_iff href h,
      )

  etag_in-update :
      (id : ℕ) (new : ObjectData) (now : Text) (rows : List CalendarObject)
      → etag_in (
          update_where
            (at_href id new.href)
            (λ (old : CalendarObject). record old { fields = new; updated_at = now })
            rows)
        ≡ (if id == calendar_id && same new.href h && any (at_href id new.href) rows
            then some new.etag
            else etag_in rows)
  unfolding update_where find_first any
  etag_in-update id new now [] = ground arith
  etag_in-update id new now (o ∷ rows) = ground (
    arith,
    etag_in-update id new now rows,
    same_iff o.href h,
    same_iff o.href new.href,
    same_iff new.href h,
  )

  etag_in-append :
      (rows : List CalendarObject) (o : CalendarObject)
      → etag_in (rows ++ o ∷ []) ≡ (
          if any (at_href calendar_id h) rows
          then etag_in rows
          else if at_href calendar_id h o
          then some o.etag
          else none)
  unfolding find_first any
  etag_in-append [] o = ground arith
  etag_in-append (x ∷ rows) o = ground (arith, etag_in-append rows o)

  etag_in-absent :
      (rows : List CalendarObject) → any (at_href calendar_id h) rows ≡ false → etag_in rows ≡ none
  unfolding find_first any
  etag_in-absent [] e = refl
  etag_in-absent (x ∷ rows) e = ground (arith, etag_in-absent rows)

  pub etag_at-remove_object :
      (id : ℕ) (href : Text) (db : Db)
      → etag_at (remove_object id href db) calendar_id h
        ≡ (if id == calendar_id && same href h then none else etag_at db calendar_id h)
  unfolding etag_at remove_object
  etag_at-remove_object id href db = etag_in-remove id href db.objects

  pub etag_at-write_object :
      (id : ℕ) (new : ObjectData) (now : Text) (db : Db)
      → etag_at (write_object id new now db) calendar_id h
        ≡ (if id == calendar_id && same new.href h then some new.etag else etag_at db calendar_id h)
  unfolding etag_at write_object
  etag_at-write_object id new now db = elim (Bool-cases (any (at_href id new.href) db.objects)) [
    | inl there ↦ rw there (rw (etag_in-update id new now db.objects) (rw there (ground arith)))
    | inr absent ↦ rw absent (
        rw
          (etag_in-append db.objects
            (record { id = db.next_object; calendar_id = id; fields = new; updated_at = now }))
          (ground (arith, same_iff new.href h, etag_in-absent db.objects)))
  ]

  pub etag_at-bump_calendar :
      (id : ℕ) (now : Text) (db : Db)
      → etag_at (bump_calendar id now db) calendar_id h ≡ etag_at db calendar_id h
  unfolding etag_at bump_calendar
  etag_at-bump_calendar id now db = refl

  pub etag_at-record_change :
      (kind : Collection) (id : ℕ) (href : Text) (deleted : Bool) (db : Db)
      → etag_at (record_change kind id href deleted db) calendar_id h ≡ etag_at db calendar_id h
  unfolding etag_at record_change
  etag_at-record_change kind id href deleted db = refl

  -- The objects that DeleteCalendarObjectsByPrefix leaves.
  etag_in-prefix :
      (id : ℕ) (prefix : Text) (rows : List CalendarObject)
      → etag_in (select (λ (o : CalendarObject). not (under_prefix id prefix o)) rows)
        ≡ (if id == calendar_id && like_prefix prefix h then none else etag_in rows)
  unfolding select find_first
  etag_in-prefix id prefix [] = ground arith
  etag_in-prefix id prefix (o ∷ rows) =
      ground (arith, etag_in-prefix id prefix rows, same_iff o.href h)

  pub etag_at-prefix :
      (id : ℕ) (prefix : Text) (db : Db)
      → etag_at (remove_prefix id prefix db) calendar_id h
        ≡ (if id == calendar_id && like_prefix prefix h then none else etag_at db calendar_id h)
  unfolding etag_at remove_prefix
  etag_at-prefix id prefix db = etag_in-prefix id prefix db.objects

  hrefs_in-prefix :
      (prefix : Text) (rows : List CalendarObject)
      → any (λ k. same k h) (map href_of (select (under_prefix calendar_id prefix) rows))
        ≡ (like_prefix prefix h && is_some (etag_in rows))
  unfolding select find_first any
  hrefs_in-prefix prefix [] = ground arith
  hrefs_in-prefix prefix (o ∷ rows) = ground (arith, hrefs_in-prefix prefix rows, same_iff o.href h)

  pub hrefs-prefix :
      (prefix : Text) (db : Db)
      → any (λ k. same k h) (map href_of (select (under_prefix calendar_id prefix) db.objects))
        ≡ (like_prefix prefix h && is_some (etag_at db calendar_id h))
  unfolding etag_at
  hrefs-prefix prefix db = hrefs_in-prefix prefix db.objects

module _ (calendar_id since : ℕ) (h : Text) where
  pub mark-remove_object :
      (id : ℕ) (href : Text) (db : Db)
      → mark (remove_object id href db) calendar_id since h ≡ mark db calendar_id since h
  unfolding remove_object mark
  mark-remove_object id href db = refl

  pub mark-write_object :
      (id : ℕ) (new : ObjectData) (now : Text) (db : Db)
      → mark (write_object id new now db) calendar_id since h ≡ mark db calendar_id since h
  unfolding write_object mark
  mark-write_object id new now db = elim (Bool-cases (any (at_href id new.href) db.objects)) [
    | inl there ↦ rw there
    | inr absent ↦ rw absent
  ]

  pub mark-remove_prefix :
      (id : ℕ) (prefix : Text) (db : Db)
      → mark (remove_prefix id prefix db) calendar_id since h ≡ mark db calendar_id since h
  unfolding remove_prefix mark
  mark-remove_prefix id prefix db = refl

  pub mark-record_deleted :
      (id : ℕ) (hrefs : List Text) (db : Db)
      → since < db.next_change
      → mark (record_deleted id hrefs db) calendar_id since h ≡ (
          if id == calendar_id && any (λ k. same k h) hrefs
          then some true
          else mark db calendar_id since h)
  unfolding record_deleted any
  mark-record_deleted id [] db newer = ground arith
  mark-record_deleted id (k ∷ hrefs) db newer =
      let later = record_change calendar id k true db in
      rw (mark-record_deleted id hrefs later (unfold record_change in omega (arith, newer)))
        (ground (arith, mark-record_change db calendar id k true calendar_id since h newer))

pub next_change-remove_object :
    (id : ℕ) (href : Text) (db : Db) → (remove_object id href db).next_change ≡ db.next_change
unfolding remove_object
next_change-remove_object id href db = refl

pub next_change-write_object :
    (id : ℕ) (new : ObjectData) (now : Text) (db : Db)
    → (write_object id new now db).next_change ≡ db.next_change
unfolding write_object
next_change-write_object id new now db = ground arith

pub next_change-remove_prefix :
    (id : ℕ) (prefix : Text) (db : Db) → (remove_prefix id prefix db).next_change ≡ db.next_change
unfolding remove_prefix
next_change-remove_prefix id prefix db = refl

pub next_change-record_change :
    (kind : Collection) (id : ℕ) (href : Text) (deleted : Bool) (db : Db)
    → (record_change kind id href deleted db).next_change ≡ db.next_change + 1
unfolding record_change
next_change-record_change kind id href deleted db = refl

pub le-next_change-record_deleted :
    (id : ℕ) (hrefs : List Text) (db : Db)
    → db.next_change ≤ (record_deleted id hrefs db).next_change
unfolding record_deleted
le-next_change-record_deleted id [] db = omega arith
le-next_change-record_deleted id (k ∷ hrefs) db = omega (
  arith,
  le-next_change-record_deleted id hrefs (record_change calendar id k true db),
  next_change-record_change calendar id k true db,
)

pub etag_at-record_deleted :
    (calendar_id : ℕ) (h : Text) (id : ℕ) (hrefs : List Text) (db : Db)
    → etag_at (record_deleted id hrefs db) calendar_id h ≡ etag_at db calendar_id h
unfolding record_deleted
etag_at-record_deleted calendar_id h id [] db = refl
etag_at-record_deleted calendar_id h id (k ∷ hrefs) db =
    etag_at-record_deleted calendar_id h id hrefs (record_change calendar id k true db)
    ∙ etag_at-record_change calendar_id h calendar id k true db
