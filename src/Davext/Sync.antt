-- ===== src/Davext/Sync.antt =====
-- handleSync of src/svc/internal/davext/sync.go, the REPORT sync-collection of RFC 6578, for a
-- calendar. The statements of the handler are not in one transaction: `listed` is the database when
-- the members are listed, and `logged` the database when the change log is read.
pub mod Etags
pub mod Converge
pub mod Race
use dcalcon.Base.{
  ℕ, Bool, true, false, not, ◌&&◌, Option, none, some, List, [], ◌∷◌, ◌++◌, map, Text, codes, same,
  has_prefix, ltb, trim_space, equal_fold, if◌then◌else◌,
}
use dcalcon.Storage.{Collection, calendar, addressbook, Change, Calendar, Db, Result, ok, err}
use dcalcon.Storage.Changes.{latest_change_id, changes_since, sync_token, parse_sync_token}
use dcalcon.Storage.Calendars.{calendar_by_slug}
use dcalcon.Storage.Objects.{ObjectRef, list_calendar_object_refs}
use dcalcon.Auth.{Principal}
use dcalcon.Davpath.{calendar_path, object_path, escape_xml}
use dcalcon.Davext.{CollectionRef, parse_collection}

-- A member of the answer, before writeMember prints it.
pub record Member : Type 0 where
  pub href : Text
  pub etag : Text
  pub deleted : Bool

-- 401, 404, 403 with valid-sync-token, or 207 with the members and the new token.
pub data Reply : Type 0 where
  unauthorized not_found invalid_token : Reply
  multistatus : List Member → Text → Reply

-- etags[it.href] = it.etag for each item; a key that is missing reads as "".
unfoldable pub etags_of : List ObjectRef → (Text → Text) → Text → Text
etags_of [] m = m
etags_of (it ∷ items) m = etags_of items (λ h. if same it.href h then it.etag else m h)

unfoldable pub item_member : ObjectRef → Member
item_member it = record { href = it.href; etag = it.etag; deleted = false }

unfoldable pub change_member : (Text → Text) → Change → Member
change_member etags c = record {
  href = c.href;
  etag = if c.deleted then [] else etags c.href;
  deleted = c.deleted;
}

-- The answer about a collection, from its items and the log.
unfoldable pub sync_report : Collection → ℕ → List ObjectRef → Text → ℕ → Db → Reply
unfolding etags_of item_member change_member
sync_report kind id items token since logged =
    let latest = latest_change_id logged kind id in
    if not (same token []) && ltb latest since
    then invalid_token
    else if same token []
    then multistatus (map item_member items) (sync_token latest)
    else multistatus
        (map (change_member (etags_of items (λ _. []))) (changes_since logged kind id since))
        (sync_token latest)

-- The branch of a calendar.
unfoldable pub sync_calendar : Principal → Text → Text → ℕ → Db → Db → Reply
unfolding sync_report
sync_calendar p slug token since listed logged = elim (calendar_by_slug listed p.id slug) [
  | err e ↦ not_found
  | ok c ↦ sync_report calendar c.id (list_calendar_object_refs listed c.id []) token since logged
]

abbrev pub token_text : Option Text → Text
token_text none = []
token_text (some t) = trim_space t

-- handleSync; `found` is the text of the sync-token element, if the body has one, and `book` is what
-- the branch of an address book, which is not modelled, answers to a slug, a token and its number.
unfoldable pub handle_sync :
    (ℕ → ℕ)
    → (Principal → Text → Text → ℕ → Db → Db → Reply)
    → Option Principal
    → Text
    → Option Text
    → Db
    → Db
    → Reply
unfolding sync_calendar
handle_sync folding book none path found listed logged = unauthorized
handle_sync folding book (some p) path found listed logged = elim (parse_collection path) [
  | none ↦ not_found
  | some col ↦
      if not (equal_fold folding col.username p.username)
      then not_found
      else elim (parse_sync_token (token_text found)) [
        | none ↦ invalid_token
        | some since ↦ elim col.kind [
          | calendar ↦ sync_calendar p col.slug (token_text found) since listed logged
          | addressbook ↦ book p col.slug (token_text found) since listed logged
        ]
      ]
]

-- The etag as writeMember quotes it.
unfoldable pub quoted : Text → Text
quoted etag =
    if not (same etag []) && not (has_prefix etag (b'"' ∷ []))
    then b'"' ∷ (etag ++ b'"' ∷ [])
    else etag

-- writeMember, with the path that ObjectPath gives the member.
unfoldable pub write_member : Text → Member → Text
unfolding quoted
write_member base m =
    codes "<D:response><D:href>"
    ++ (escape_xml (object_path base m.href)
        ++ (codes "</D:href>"
            ++ ((if m.deleted
                  then codes "<D:status>HTTP/1.1 404 Not Found</D:status>"
                  else codes "<D:propstat><D:prop><D:getetag>"
                    ++ (escape_xml (quoted m.etag)
                        ++ codes
                            "</D:getetag></D:prop><D:status>HTTP/1.1 200 OK</D:status></D:propstat>"))
                ++ codes "</D:response>")))
