-- ===== src/Davext/Sync/Race.antt =====
-- handleSync of src/svc/internal/davext/sync.go lists the members and reads the latest change id in
-- two statements, and a write may fall between them.
use dcalcon.Base.{
  ℕ, ◌≤◌, true, none, some, List, [], Text, ◌≡◌, refl, ◌∙◌, arith, map, trim_space, same,
  equal_fold,
}
use dcalcon.Decimal.{max_int64}
use dcalcon.Storage.{calendar, Calendar, ObjectData, Db, ok}
use dcalcon.Storage.Changes.{latest_change_id, changes_since, sync_token, parse_sync_token}
use dcalcon.Storage.Changes.Tokens.{parse_sync_token-sync_token, trim_space-sync_token}
use dcalcon.Storage.Calendars.{calendar_by_slug}
use dcalcon.Storage.Objects.{ObjectRef, list_calendar_object_refs, upsert_calendar_object}
use dcalcon.Storage.Objects.Tracking.{etag_at}
use dcalcon.Storage.Objects.Unique.{HrefUnique}
use dcalcon.Storage.Objects.Numbered.{select-latest}
use dcalcon.Storage.Objects.Effects.{etag_at-stored}
use dcalcon.Davext.{CollectionRef, parse_collection}
use dcalcon.Auth.{Principal}
use dcalcon.Davext.Sync.{Member, Reply, multistatus, item_member, sync_report, handle_sync}
use dcalcon.Davext.Sync.Etags.{apply_members, apply-list}
use dcalcon.Davext.Sync.Converge.{first_report, later_report, answered}

nothing_since :
    (db : Db) (id : ℕ) → changes_since db calendar id (latest_change_id db calendar id) ≡ []
unfolding changes_since
nothing_since db id = rw (select-latest db calendar id) refl

nothing_new :
    (db : Db) (id : ℕ) (items : List ObjectRef)
    → let latest = latest_change_id db calendar id in
      sync_report calendar id items (sync_token latest) latest db
      ≡ multistatus [] (sync_token latest)
nothing_new db id items =
    rw
      (
        later_report calendar id items (latest_change_id db calendar id) db (omega arith),
        nothing_since db id,
      )
      refl

module _ (folding : ℕ → ℕ) (book : Principal → Text → Text → ℕ → Db → Db → Reply) where
  -- An object that is stored at a new href between the listing and the reading of the log is missing
  -- from the copy of a client that applies the first report, and the report with the token that the
  -- client was given has no members: the client does not learn of the object, whose etag is in the
  -- database. The calendar is the client's own and is found before and after with the same id, hrefs
  -- are unique, and the latest change id is in int64.
  pub race_loses_object :
      (p : Principal) (path : Text) (col : CollectionRef) (db : Db) (c c' : Calendar)
      (o : ObjectData) (at : Text)
      → parse_collection path ≡ some col
      → col.kind ≡ calendar
      → equal_fold folding col.username p.username ≡ true
      → calendar_by_slug db p.id col.slug ≡ ok c
      → calendar_by_slug (upsert_calendar_object c.id o at db).1 p.id col.slug ≡ ok c'
      → c'.id ≡ c.id
      → HrefUnique db
      → etag_at db c.id o.href ≡ none
      → (upsert_calendar_object c.id o at db).0 ≡ ok tt
      → latest_change_id (upsert_calendar_object c.id o at db).1 calendar c.id ≤ max_int64
      → let after = (upsert_calendar_object c.id o at db).1 in
        let token = sync_token (latest_change_id after calendar c.id) in
        (members : List Member) × (handle_sync folding book (some p) path none db after
          ≡ multistatus members token)
        × (apply_members members (λ _. none) o.href ≡ none)
        × (handle_sync folding book (some p) path (some token) after after ≡ multistatus [] token)
        × (etag_at after c.id o.href ≡ some o.etag)
  race_loses_object p path col db c c' o at parsed kind user found found' same_id u new done fits =
      let after = (upsert_calendar_object c.id o at db).1 in
      let latest = latest_change_id after calendar c.id in
      let token : parse_sync_token (trim_space (sync_token latest)) ≡ some latest =
        rw (trim_space-sync_token latest) (parse_sync_token-sync_token latest fits) in
      (
        map item_member (list_calendar_object_refs db c.id []),
        answered folding book p path col none 0 c db after parsed kind user
              (unfold parse_sync_token trim_space same in refl) found
            ∙ first_report calendar c.id _ after,
        apply-list c.id o.href db u ∙ new,
        answered folding book p path col (some (sync_token latest)) latest c' after after parsed
              kind user token found'
            ∙ rw (same_id, trim_space-sync_token latest) (nothing_new after c.id _),
        etag_at-stored c.id o at db done,
      )
