-- ===== src/Storage/Changes.antt =====
-- The change log (table dav_changes) and the sync tokens of src/svc/internal/storage/dav.go.
-- AUTOINCREMENT gives ids in increasing order and a row is appended when it is inserted, so the
-- order of the table is the order of the ids, which ORDER BY id asks for.
pub mod Tokens
pub mod Since
use dcalcon.Base.{
  ℕ, ◌+◌, max, Bool, true, false, ◌&&◌, Option, none, some, List, [], ◌∷◌, ◌++◌, Text, codes, same,
  is_some, select, ltb, ◌==◌, if◌then◌else◌, trim_space, has_prefix, trim_prefix, map,
}
use dcalcon.Decimal.{ℤ, pos, negsuc, format_int, parse_int}
use dcalcon.Storage.{Collection, calendar, addressbook, Change, Db}

abbrev pub same_collection : Collection → Collection → Bool
same_collection calendar calendar = true
same_collection addressbook addressbook = true
same_collection _ _ = false

abbrev pub in_collection : Collection → ℕ → Change → Bool
in_collection kind collection_id c = same_collection c.kind kind && c.collection_id == collection_id

-- recordChange
unfoldable pub record_change : Collection → ℕ → Text → Bool → Db → Db
record_change kind collection_id href deleted db = record db {
  changes =
      db.changes
      ++ record {
        id = db.next_change;
        kind = kind;
        collection_id = collection_id;
        href = href;
        deleted = deleted;
      }
        ∷ [];
  next_change = db.next_change + 1;
}

-- MAX(id) over the rows of a collection; 0 if it has none.
unfoldable pub max_id : Collection → ℕ → List Change → ℕ
max_id kind collection_id [] = 0
max_id kind collection_id (c ∷ rows) =
    let rest = max_id kind collection_id rows in
    if in_collection kind collection_id c then max c.id rest else rest

-- LatestChangeID
unfoldable pub latest_change_id : Db → Collection → ℕ → ℕ
unfolding max_id
latest_change_id db kind collection_id = max_id kind collection_id db.changes

-- The Go map `last` from an href to its change.
unfoldable pub get : List (Text × Change) → Text → Option Change
get [] href = none
get ((k, c) ∷ m) href = if same k href then some c else get m href

unfoldable pub put : List (Text × Change) → Text → Change → List (Text × Change)
put [] href c = (href, c) ∷ []
put ((k, b) ∷ m) href c = if same k href then (k, c) ∷ m else (k, b) ∷ put m href c

-- The loop over the rows: the map so far and the hrefs in the order of their first change.
unfoldable pub gather :
    List Change → List (Text × Change) → List Text → List (Text × Change) × List Text
unfolding get put
gather [] last order = (last, order)
gather (c ∷ rows) last order =
    gather rows (put last c.href c)
      (if is_some (get last c.href) then order else order ++ c.href ∷ [])

-- last[href] for the hrefs of `order`, all of which are keys of `last`.
unfoldable pub values : List (Text × Change) → List Text → List Change
unfolding get
values last [] = []
values last (href ∷ order) = elim (get last href) [
  | none ↦ values last order
  | some c ↦ c ∷ values last order
]

abbrev pub is_since : Collection → ℕ → ℕ → Change → Bool
is_since kind collection_id since c = in_collection kind collection_id c && ltb since c.id

-- ChangesSince
unfoldable pub changes_since : Db → Collection → ℕ → ℕ → List Change
unfolding gather values
changes_since db kind collection_id since =
    let (last, order) = gather (select (is_since kind collection_id since) db.changes) [] [] in
    values last order

abbrev pub sync_prefix : Text
sync_prefix = codes "http://dcalcon/ns/sync/"

-- SyncToken
unfoldable pub sync_token : ℕ → Text
sync_token id = sync_prefix ++ format_int id

abbrev pub not_negative : Option ℤ → Option ℕ
not_negative (some (pos n)) = some n
not_negative _ = none

-- ParseSyncToken; a token that is refused is `none`.
unfoldable pub parse_sync_token : Text → Option ℕ
parse_sync_token token =
    let t = trim_space token in
    if same t []
    then some 0
    else if has_prefix t sync_prefix
    then not_negative (parse_int (trim_prefix t sync_prefix))
    else none
