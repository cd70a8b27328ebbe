-- ===== src/Storage/Shares.antt =====
-- Who a calendar is shared with: the writes of src/svc/internal/storage/shares.go. The unique key of
-- table calendar_shares is the calendar and the grantee.
pub mod Replace
use dcalcon.Base.{
  ℕ, ◌+◌, Bool, true, false, not, ◌&&◌, Option, none, some, List, [], ◌∷◌, ◌++◌, Text, codes, same,
  find_first, any, select, filter_map, update_where, sort_by, text_leb, nocase, trim_space,
  to_lower, is_some, leb, ltb, ◌==◌, if◌then◌else◌, opt_map,
}
use dcalcon.Storage.{
  Access, read, write, User, Share, CalendarRow, Error, not_found, bad_access, constraint, Result,
  ok, err, Db,
}
use dcalcon.Storage.Calendars.{bump_calendar}

-- CalendarShare, the columns that come from the share and its grantee.
pub record SharedWith : Type 0 where
  pub share : Share
  pub username : Text
  pub display_name : Text

abbrev pub with_grantee : Db → Share → Option SharedWith
with_grantee db s =
    opt_map
      (λ (u : User). record { share = s; username = u.username; display_name = u.display_name })
      (find_first (λ (u : User). u.id == s.grantee_id) db.users)

-- ListShares
unfoldable pub list_shares : Db → ℕ → List SharedWith
list_shares db calendar_id =
    sort_by (λ (a : SharedWith) (b : SharedWith). text_leb (nocase a.username) (nocase b.username))
      (filter_map (with_grantee db)
        (select (λ (s : Share). s.calendar_id == calendar_id) db.shares))

-- strings.ToLower(strings.TrimSpace(access)), if it is read or write.
unfoldable pub parse_access : (ℕ → ℕ) → Text → Option Access
parse_access table text =
    let t = to_lower table (trim_space text) in
    if same t (codes "read") then some read else if same t (codes "write") then some write else none

abbrev pub is_share : ℕ → ℕ → Share → Bool
is_share calendar_id grantee s = s.calendar_id == calendar_id && s.grantee_id == grantee

-- INSERT … ON CONFLICT(calendar_id, grantee_user_id) DO UPDATE
unfoldable pub write_share : ℕ → ℕ → Access → Db → Db
write_share calendar_id grantee access db =
    if any (is_share calendar_id grantee) db.shares
    then record db {
      shares =
          update_where (is_share calendar_id grantee) (λ (s : Share). record s { access = access })
            db.shares;
    }
    else record db {
      shares =
          db.shares
          ++ record {
            id = db.next_share;
            calendar_id = calendar_id;
            grantee_id = grantee;
            access = access;
          }
            ∷ [];
      next_share = db.next_share + 1;
    }

-- UpsertShare with an access that is read or write; a calendar or a user that does not exist breaks a
-- foreign key.
unfoldable pub put_share : ℕ → ℕ → Access → Db → Result (Unit {0}) × Db
put_share calendar_id grantee access db =
    if any (λ (c : CalendarRow). c.id == calendar_id) db.calendars
      && any (λ (u : User). u.id == grantee) db.users
    then (ok tt, write_share calendar_id grantee access db)
    else (err constraint, db)

-- UpsertShare
unfoldable pub upsert_share : (ℕ → ℕ) → ℕ → ℕ → Text → Db → Result (Unit {0}) × Db
unfolding put_share
upsert_share table calendar_id grantee access db = elim (parse_access table access) [
  | none ↦ (err bad_access, db)
  | some a ↦ put_share calendar_id grantee a db
]

-- DeleteShare
unfoldable pub delete_share : ℕ → ℕ → Db → Result (Unit {0}) × Db
delete_share calendar_id grantee db =
    if any (is_share calendar_id grantee) db.shares
    then (
      ok tt,
      record db { shares = select (λ (s : Share). not (is_share calendar_id grantee s)) db.shares },
    )
    else (err not_found, db)

-- ShareGrant
pub record ShareGrant : Type 0 where
  pub grantee_id : ℕ
  pub access : Text

unfoldable pub grant_of : List (ℕ × Access) → ℕ → Option Access
grant_of [] k = none
grant_of ((j, a) ∷ want) k = if j == k then some a else grant_of want k

unfoldable pub grant : List (ℕ × Access) → ℕ → Access → List (ℕ × Access)
grant [] k a = (k, a) ∷ []
grant ((j, b) ∷ want) k a = if j == k then (j, a) ∷ want else (j, b) ∷ grant want k a

-- The map `want`.
unfoldable pub wanted : (ℕ → ℕ) → List ShareGrant → List (ℕ × Access) → List (ℕ × Access)
unfolding grant
wanted table [] want = want
wanted table (g ∷ grants) want = elim (parse_access table g.access) [
  | none ↦ wanted table grants want
  | some a ↦ wanted table grants (if ltb g.grantee_id 1 then want else grant want g.grantee_id a)
]

-- The loop that deletes the shares that are not wanted, and ignores ErrNotFound.
unfoldable pub drop_unwanted : ℕ → List (ℕ × Access) → List SharedWith → Db → Db
unfolding grant_of delete_share
drop_unwanted calendar_id want [] db = db
drop_unwanted calendar_id want (s ∷ shares) db = drop_unwanted calendar_id want shares (
    if is_some (grant_of want s.share.grantee_id)
    then db
    else (delete_share calendar_id s.share.grantee_id db).1)

-- if err != nil { return err }
abbrev pub and_then :
    Result (Unit {0}) × Db → (Db → Result (Unit {0}) × Db) → Result (Unit {0}) × Db
and_then (err e, left) f = (err e, left)
and_then (ok u, next) f = f next

-- The loop over `want`, which stops at an error.
unfoldable pub put_all : ℕ → List (ℕ × Access) → Db → Result (Unit {0}) × Db
unfolding put_share
put_all calendar_id [] db = (ok tt, db)
put_all calendar_id ((k, a) ∷ want) db =
    and_then (put_share calendar_id k a db) (put_all calendar_id want)

-- ReplaceShares; `order` is the order in which Go ranges over the map.
unfoldable pub replace_shares :
    (ℕ → ℕ)
    → (List (ℕ × Access) → List (ℕ × Access))
    → ℕ
    → List ShareGrant
    → Text
    → Db
    → Result (Unit {0}) × Db
unfolding list_shares wanted drop_unwanted put_all
replace_shares table order calendar_id grants now db =
    let want = wanted table grants [] in
    and_then
      (put_all calendar_id (order want)
        (drop_unwanted calendar_id want (list_shares db calendar_id) db))
      (λ next. (ok tt, bump_calendar calendar_id now next))
