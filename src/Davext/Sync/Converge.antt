-- ===== src/Davext/Sync/Converge.antt =====
-- A client that applies the answers of handleSync (src/svc/internal/davext/sync.go) to its copy.
use dcalcon.Base.{
  ℕ, ◌≤◌, true, Option, none, some, List, [], ◌∷◌, map, Text, ◌≡◌, refl, sym, ◌∙◌, arith, same,
  opt_map, equal_fold, if◌then◌else◌, trim_space,
}
use dcalcon.Decimal.{max_int64}
use dcalcon.Storage.{Collection, calendar, Change, Calendar, Db, ok}
use dcalcon.Storage.Changes.{latest_change_id, changes_since, sync_token, parse_sync_token}
use dcalcon.Storage.Changes.Tokens.{
  parse_sync_token-sync_token, trim_space-sync_token, same-sync_token_nil,
}
use dcalcon.Storage.Changes.Since.{last_of, last_of-href, replay, left_by, replay-changes_since}
use dcalcon.Storage.Calendars.{calendar_by_slug}
use dcalcon.Storage.Objects.{ObjectRef, list_calendar_object_refs}
use dcalcon.Storage.Objects.Tracking.{etag_at, mark}
use dcalcon.Storage.Objects.InStep.{Agrees, Tracks, Tracks-Kept}
use dcalcon.Storage.Objects.Unique.{HrefUnique, HrefUnique-Kept}
use dcalcon.Storage.Objects.Numbered.{IsNumbered, latest_change_id-lt, select-latest, Past-Kept}
use dcalcon.Storage.Objects.Writes.{Write, run_writes, Kept-run_writes}
use dcalcon.Davext.{CollectionRef, parse_collection}
use dcalcon.Auth.{Principal}
use dcalcon.Davext.Sync.{
  Member, Reply, multistatus, etags_of, item_member, change_member, sync_report, handle_sync,
  token_text,
}
use dcalcon.Davext.Sync.Etags.{apply_members, apply-list, else_known, etags_of-list}

abbrev left : (Text → Text) → Change → Option Text
left etags c = if c.deleted then none else some (etags c.href)

apply-replay :
    (etags : Text → Text) (changes : List Change) (v w : Text → Option Text) (h : Text)
    → ((j : Text) → v j ≡ w j)
    → apply_members (map (change_member etags) changes) v h ≡ replay (left etags) changes w h
unfolding apply_members replay change_member
apply-replay etags [] v w h e = e h
apply-replay etags (c ∷ changes) v w h e =
    apply-replay etags changes _ _ h (λ j. ground (arith, e j))

-- From a state in which nothing is newer than its latest change, the log explains the objects.
Tracks-latest :
    (db : Db) (id : ℕ)
    → IsNumbered db
    → Tracks id (latest_change_id db calendar id) (etag_at db id) db
unfolding mark last_of
Tracks-latest db id n = record {
  newer = latest_change_id-lt db calendar id n;
  agrees = λ h. rw (select-latest db calendar id);
}

abbrev etags : Db → ℕ → Text → Text
etags db id = etags_of (list_calendar_object_refs db id []) (λ _. [])

module _ (db : Db) (id since : ℕ) (v : Text → Option Text) (before : Text → Option Text)
    (same_copy : (h : Text) → v h ≡ before h) (t : Tracks id since before db)
    (u : HrefUnique db) where
  left-Agrees :
      (h : Text) (last : Option Change)
      → ((c : Change) → last ≡ some c → c.href ≡ h)
      → Agrees (opt_map (λ (c : Change). c.deleted) last) (before h) (etag_at db id h)
      → left_by (left (etags db id)) last (v h) ≡ etag_at db id h
  left-Agrees h none keyed a = same_copy h ∙ sym a
  left-Agrees h (some c) keyed a =
      let here : c.href ≡ h = keyed c refl in
      let etag : etags db id c.href ≡ else_known (etag_at db id h) [] =
        rw here (etags_of-list id h db (λ _. []) u) in
      ground (arith, etag)

  applied :
      (h : Text)
      → apply_members (map (change_member (etags db id)) (changes_since db calendar id since)) v h
        ≡ etag_at db id h
  applied h =
      apply-replay (etags db id) (changes_since db calendar id since) v v h (λ j. refl)
      ∙ replay-changes_since (left (etags db id)) db calendar id since v h
      ∙ left-Agrees h _ (λ c e. last_of-href h _ none c (λ b p. cc) e) (unfold mark in t.agrees h)

pub first_report :
    (kind : Collection) (id : ℕ) (items : List ObjectRef) (db : Db)
    → sync_report kind id items [] 0 db
      ≡ multistatus (map item_member items) (sync_token (latest_change_id db kind id))
unfolding sync_report same
first_report kind id items db = refl

pub later_report :
    (kind : Collection) (id : ℕ) (items : List ObjectRef) (since : ℕ) (db : Db)
    → since ≤ latest_change_id db kind id
    → sync_report kind id items (sync_token since) since db
      ≡ multistatus
          (map (change_member (etags_of items (λ _. []))) (changes_since db kind id since))
          (sync_token (latest_change_id db kind id))
unfolding sync_report
later_report kind id items since db h = ground (arith, same-sync_token_nil since)

module _ (folding : ℕ → ℕ) (book : Principal → Text → Text → ℕ → Db → Db → Reply) where
  pub answered :
      (p : Principal) (path : Text) (col : CollectionRef) (found : Option Text) (since : ℕ)
      (c : Calendar) (listed logged : Db)
      → parse_collection path ≡ some col
      → col.kind ≡ calendar
      → equal_fold folding col.username p.username ≡ true
      → parse_sync_token (token_text found) ≡ some since
      → calendar_by_slug listed p.id col.slug ≡ ok c
      → handle_sync folding book (some p) path found listed logged
        ≡ sync_report calendar c.id
            (list_calendar_object_refs listed c.id [])
            (token_text found)
            since
            logged
  unfolding handle_sync
  answered p path col found since c listed logged parsed kind user token at_slug = ground arith

  -- The first report: a client that sends no token for a calendar of its own that is found, from a
  -- database with unique hrefs, is answered, and applying the answer to an empty copy gives the etag
  -- of each object of the calendar and nothing else; the token in the answer is that of the latest
  -- change.
  pub initial_sync :
      (p : Principal) (path : Text) (col : CollectionRef) (db : Db) (c : Calendar)
      → parse_collection path ≡ some col
      → col.kind ≡ calendar
      → equal_fold folding col.username p.username ≡ true
      → calendar_by_slug db p.id col.slug ≡ ok c
      → HrefUnique db
      → (members : List Member) × (handle_sync folding book (some p) path none db db
          ≡ multistatus members (sync_token (latest_change_id db calendar c.id)))
        × ((h : Text) → apply_members members (λ _. none) h ≡ etag_at db c.id h)
  initial_sync p path col db c parsed kind user found u = (
    map item_member (list_calendar_object_refs db c.id []),
    answered p path col none 0 c db db parsed kind user
          (unfold parse_sync_token trim_space same in refl) found
        ∙ first_report calendar c.id _ db,
    λ h. apply-list c.id h db u,
  )

  -- A later report: whatever writes of calendars and objects but DeleteCalendar were made since a
  -- report, a client that holds the etags of that time and sends the token of that report for the calendar, its own and
  -- still found with the same id, is answered, and applying the answer makes its copy the etags of
  -- the calendar's objects now. This holds from a database with unique hrefs and a numbered log whose
  -- latest change id is in int64, when no write falls between the statements of the handler.
  pub sync_converges :
      (p : Principal) (path : Text) (col : CollectionRef) (db : Db) (ws : List Write)
      (c c' : Calendar)
      → parse_collection path ≡ some col
      → col.kind ≡ calendar
      → equal_fold folding col.username p.username ≡ true
      → calendar_by_slug (run_writes ws db) p.id col.slug ≡ ok c'
      → c'.id ≡ c.id
      → HrefUnique db
      → IsNumbered db
      → latest_change_id db calendar c.id ≤ max_int64
      → (members : List Member) × (handle_sync folding book
            (some p)
            path
            (some (sync_token (latest_change_id db calendar c.id)))
            (run_writes ws db)
            (run_writes ws db)
          ≡ multistatus members (sync_token (latest_change_id (run_writes ws db) calendar c.id)))
        × ((h : Text)
            → apply_members members (etag_at db c.id) h ≡ etag_at (run_writes ws db) c.id h)
  sync_converges p path col db ws c c' parsed kind user found same_id u n fits =
      let now = run_writes ws db in
      let since = latest_change_id db calendar c.id in
      let t = Kept-run_writes Tracks-Kept ws db (Tracks-latest db c.id n) in
      let unique = Kept-run_writes HrefUnique-Kept ws db u in
      let past =
        Kept-run_writes (Past-Kept {kind = calendar} {id = c.id} {n = since}) ws db
          (record { reached = omega arith }) in
      let token : parse_sync_token (trim_space (sync_token since)) ≡ some since =
        rw (trim_space-sync_token since) (parse_sync_token-sync_token since fits) in
      (
        map (change_member (etags now c.id)) (changes_since now calendar c.id since),
        answered p path col (some (sync_token since)) since c' now now parsed kind user token found
            ∙ rw (same_id, trim_space-sync_token since)
                (later_report calendar c.id _ since now past.reached),
        applied now c.id since (etag_at db c.id) (etag_at db c.id) (λ j. refl) t unique,
      )
